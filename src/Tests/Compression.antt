-- ===== src/Tests/Compression.antt =====
-- The copy loops of compress.go on concrete data.
use magiskboot_go.Base.{◌>>=◌, false, refl, codes, ◌∷◌, ◌++◌}
use magiskboot_go.Format.{gzip}
use magiskboot_go.Compress.Codec.{gzip_codec, new_encoder, new_decoder}
use magiskboot_go.Compress.Copy.{eof, decompress_loop, write_some}
use magiskboot_go.Compress.Decoder.{open_decoder, decode, decompress, decompress_content-decode}
use magiskboot_go.Compress.Stream.{Streams, compress_content, decompress_content, decoder_reads}
use magiskboot_go.Compress.Stream.Laws.{IsCodec, content_read, decompress_content-compress_content}
use magiskboot_go.Base.{
  suc, ◌%◌, ◌≡◌, refl, arith, true, false, [], ◌∷◌, ◌++◌, Option, none, some, Bytes, codes, length,
  u32_mod, ret, if◌then◌else◌,
}
use magiskboot_go.Compress.Codec.{le32, lz4_leg_magic_bytes}
use magiskboot_go.Compress.Copy.{compress_lz4}
use magiskboot_go.Compress.Copy.Legacy.{IsBlockCodec, read_blocks, compress_lz4-read_blocks}

-- Blocks that are not compressed, behind a byte that says so.
abbrev stored : Bytes → Option Bytes
stored s = some (0 ∷ s)

abbrev unstored : Bytes → Option Bytes
unstored [] = none
unstored (c ∷ s) = some s

stored-IsBlockCodec : IsBlockCodec stored unstored
stored-IsBlockCodec = record { compress_lem = λ s h. (0 ∷ s, refl, omega arith, omega arith, refl) }

compress_lz4-read_blocks_example :
    (out : Bytes) × (compress_lz4 stored true (codes "kernel")
      ≡ ret (
          lz4_leg_magic_bytes
          ++ (out ++ (if true then le32 (length (codes "kernel") % u32_mod) else []))))
    × (read_blocks unstored (suc (length out)) out ≡ some (codes "kernel"))
compress_lz4-read_blocks_example =
    compress_lz4-read_blocks stored-IsBlockCodec true (codes "kernel")

-- An empty block stands at the end of every file.
empty_block :
    compress_lz4 stored false (codes "a")
    ≡ ret (lz4_leg_magic_bytes ++ (2 ∷ 0 ∷ 0 ∷ 0 ∷ 0 ∷ 97 ∷ 1 ∷ 0 ∷ 0 ∷ 0 ∷ 0 ∷ []))
unfolding compress_lz4 le32
empty_block = refl

-- Libraries that store the bytes as they are.
abbrev storing : Streams
storing = record {
  Writer = λ c. Bytes;
  new_writer = λ c. some [];
  write = λ w b. some (w ++ b);
  close = λ w. w;
  new_reader = λ c b. some ((b, eof) ∷ []);
  compress_block = λ b. none;
}

storing-IsCodec : IsCodec storing gzip_codec
unfolding content_read
storing-IsCodec = record {
  taken = λ w. w;
  opens = ([], refl, refl);
  writes = λ w b. (w ++ b, refl, refl);
  reads = λ w. ((w, eof) ∷ [], refl, refl);
}

decompress_content-compress_content_example :
    (z : Bytes) × (compress_content storing gzip (codes "hello") ≡ ret z)
    × (decompress_content storing gzip z ≡ ret (codes "hello"))
unfolding new_encoder
decompress_content-compress_content_example =
    decompress_content-compress_content storing gzip gzip_codec (codes "hello") refl storing-IsCodec

decompress_content-decode_example :
    ((open_decoder storing gzip (codes "hello") >>= λ d. decode storing d)
      ≡ ret (codes "hello", false))
    × (decompress storing gzip (codes "hello") ≡ ret (codes "hello"))
unfolding decompress_content decoder_reads new_decoder decompress_loop write_some
decompress_content-decode_example =
    decompress_content-decode storing gzip (codes "hello") (codes "hello") refl
