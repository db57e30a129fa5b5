-- ===== src/Compress/Copy.antt =====
-- The loops of `Compress` and `Decompress` that read, code and write, and what they make of a file.
pub mod Legacy
use magiskboot_go.Base.{
  ℕ, zero, suc, Bool, List, [], ◌∷◌, ◌++◌, Option, none, some, Bytes, length, take, drop,
}
use magiskboot_go.Base.{Outcome, ret, panic, exit, running, fatal, ◌>>=◌, ◌==◌, if◌then◌else◌}
use magiskboot_go.Compress.Codec.{Lz4HcWriter, new_lz4_hc_writer, lz4_hc_write, lz4_hc_close}

-- How a call of `Read` ends: without an error, at the end of the input, or with another error.
pub data ReadEnd : Type 0 where
  more eof failed : ReadEnd

-- The loop of `Compress`, over what the calls of `Read` give: the bytes of each are written whatever
-- its error is, none included.
module _ {W : Type 0} (write : W → Bytes → Outcome W) where
  unfoldable pub compress_loop : List (Bytes × ReadEnd) → W → Outcome W
  compress_loop [] w = running
  compress_loop ((b, more) ∷ reads) w = write w b >>= λ w'. compress_loop reads w'
  compress_loop ((b, eof) ∷ reads) w = write w b
  compress_loop ((b, failed) ∷ reads) w = write w b >>= λ w'. fatal

  -- The loop of `Decompress`: a call that gives no bytes is followed by no write.
  unfoldable pub write_some : W → Bytes → Outcome W
  write_some w [] = ret w
  write_some w (c ∷ b) = write w (c ∷ b)

  unfoldable pub decompress_loop : List (Bytes × ReadEnd) → W → Outcome W
  unfolding write_some
  decompress_loop [] w = running
  decompress_loop ((b, more) ∷ reads) w = write_some w b >>= λ w'. decompress_loop reads w'
  decompress_loop ((b, eof) ∷ reads) w = write_some w b
  decompress_loop ((b, failed) ∷ reads) w = write_some w b >>= λ w'. fatal

abbrev pub buffer_size : ℕ
buffer_size = 4096

-- What the calls of `Read` give for a regular file, in a number of rounds: buffers of 4096 bytes, the
-- rest, and the end of the file with no bytes.
unfoldable pub file_reads : ℕ → Bytes → List (Bytes × ReadEnd)
file_reads zero content = []
file_reads (suc f) [] = ([], eof) ∷ []
file_reads (suc f) (c ∷ content) =
    (take buffer_size (c ∷ content), more) ∷ file_reads f (drop buffer_size (c ∷ content))

-- `Compress` with the method lz4_legacy, or lz4_lg: the bytes that it writes for the content of a
-- file. Each round takes a byte at least.
unfoldable pub compress_lz4 : (Bytes → Option Bytes) → Bool → Bytes → Outcome Bytes
unfolding compress_loop lz4_hc_write new_lz4_hc_writer lz4_hc_close file_reads
compress_lz4 compress_block lg content = do
  z ←
      compress_loop (lz4_hc_write compress_block) (file_reads (suc (length content)) content)
        (new_lz4_hc_writer lg)
  ret (lz4_hc_close z).written
