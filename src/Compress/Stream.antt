-- ===== src/Compress/Stream.antt =====
-- `Encoder` and `Decoder` over the streams of the libraries, and what `Compress` and `Decompress`
-- make of the content of a file.
pub mod Laws
use magiskboot_go.Base.{ℕ, suc, Bool, List, [], ◌∷◌, ◌++◌, Option, none, some, Bytes, length}
use magiskboot_go.Base.{Outcome, ret, panic, exit, running, fatal, ◌>>=◌}
use magiskboot_go.Format.{Format}
use magiskboot_go.Compress.Codec.{
  Codec, Encoder, library, lz4_hc, nil_writer, new_encoder, new_decoder, Lz4HcWriter,
  new_lz4_hc_writer, lz4_hc_write, lz4_hc_close,
}
use magiskboot_go.Compress.Copy.{ReadEnd, compress_loop, decompress_loop, file_reads}

-- The libraries' writers and readers, and the coder of lz4 blocks. `new_writer`, `write` and
-- `new_reader` are `none` where the call gives an error; `close` gives all that the writer has
-- written, and `new_reader` what the calls of `Read` give for the bytes of a stream.
pub record Streams : Type 1 where
  pub Writer : Codec → Type 0
  pub new_writer : (c : Codec) → Option (Writer c)
  pub write : {c : Codec} → Writer c → Bytes → Option (Writer c)
  pub close : {c : Codec} → Writer c → Bytes
  pub new_reader : Codec → Bytes → Option (List (Bytes × ReadEnd))
  pub compress_block : Bytes → Option Bytes

module _ (streams : Streams) where
  open streams use {Writer}

  -- The writer in an `Encoder`.
  pub data WriteCloser : Type 0 where
    by_library : (c : Codec) → Writer c → WriteCloser
    by_lz4_hc : Lz4HcWriter → WriteCloser
    nil : WriteCloser

  -- What `NewEncoder` makes of its choice.
  unfoldable pub open_encoder : Encoder → Outcome WriteCloser
  unfolding new_lz4_hc_writer
  open_encoder (library c) = elim (streams.new_writer c) [
    | none ↦ fatal
    | some w ↦ ret (by_library c w)
  ]
  open_encoder (lz4_hc lg) = ret (by_lz4_hc (new_lz4_hc_writer lg))
  open_encoder nil_writer = ret nil

  -- `Write`, where an error ends the process, as in `Compress`.
  unfoldable pub encoder_write : WriteCloser → Bytes → Outcome WriteCloser
  unfolding lz4_hc_write
  encoder_write (by_library c w) b = elim (streams.write w b) [
    | none ↦ fatal
    | some w' ↦ ret (by_library c w')
  ]
  encoder_write (by_lz4_hc z) b =
      lz4_hc_write streams.compress_block z b >>= λ z'. ret (by_lz4_hc z')
  encoder_write nil b = panic

  -- `Close`, and what has been written by then.
  unfoldable pub encoder_close : WriteCloser → Outcome Bytes
  unfolding lz4_hc_close
  encoder_close (by_library c w) = ret (streams.close w)
  encoder_close (by_lz4_hc z) = ret (lz4_hc_close z).written
  encoder_close nil = panic

  -- `Compress` in a format: the bytes that it writes for the content of a file.
  unfoldable pub compress_content : Format → Bytes → Outcome Bytes
  unfolding new_encoder open_encoder compress_loop encoder_write file_reads encoder_close
  compress_content t content = do
    e ← new_encoder t
    w ← open_encoder e
    w' ← compress_loop encoder_write (file_reads (suc (length content)) content) w
    encoder_close w'

  -- The first call of `Read` on a `Decoder`, and those behind it: a nil reader panics.
  unfoldable pub decoder_reads : Format → Bytes → Outcome (List (Bytes × ReadEnd))
  unfolding new_decoder
  decoder_reads t bytes = elim (new_decoder t) [
    | none ↦ panic
    | some c ↦ elim (streams.new_reader c bytes) [ none ↦ fatal | some reads ↦ ret reads ]
  ]

  -- `Decompress` of a stream in a format: the bytes that it writes.
  unfoldable pub decompress_content : Format → Bytes → Outcome Bytes
  unfolding decoder_reads decompress_loop
  decompress_content t bytes = do
    reads ← decoder_reads t bytes
    decompress_loop (λ out b. ret (out ++ b)) reads []
