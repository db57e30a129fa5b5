-- ===== src/Compress/Codec.antt =====
-- `NewEncoder`, `NewDecoder` and `DecompressToFd` of compress.go: which library codes a format, and
-- the blocks of `Lz4HCWriter`.
use magiskboot_go.Base.{ℕ, ◌+◌, ◌%◌, Bool, true, false, Option, none, some, [], ◌∷◌, ◌++◌}
use magiskboot_go.Base.{
  Bytes, length, u32_mod, to_le, Outcome, ret, panic, fatal, ◌>>=◌, ◌==◌, if◌then◌else◌,
}
use magiskboot_go.Format.{
  Format, gzip, zopfli, xz, lzma, bzip2, lz4, lz4_legacy, lz4_lg, compressed, check_fmt,
}

-- The libraries' codecs.
pub data Codec : Type 0 where
  xz_codec lzma_codec bzip2_codec lz4_frame_codec gzip_codec : Codec

-- What writes a compressed stream: a library, or the program's own block writer, with its `lg`.
pub data Encoder : Type 0 where
  library : Codec → Encoder
  lz4_hc : Bool → Encoder
  nil_writer : Encoder

-- `NewEncoder(t, …)`: zopfli panics, and a format that is not listed leaves a nil writer.
unfoldable pub new_encoder : Format → Outcome Encoder
new_encoder xz = ret (library xz_codec)
new_encoder lzma = ret (library lzma_codec)
new_encoder bzip2 = ret (library bzip2_codec)
new_encoder lz4 = ret (library lz4_frame_codec)
new_encoder lz4_legacy = ret (lz4_hc false)
new_encoder lz4_lg = ret (lz4_hc true)
new_encoder zopfli = panic
new_encoder gzip = ret (library gzip_codec)
new_encoder _ = ret nil_writer

-- `NewDecoder(t, …)`: the library's reader, or a nil one.
unfoldable pub new_decoder : Format → Option Codec
new_decoder xz = some xz_codec
new_decoder lzma = some lzma_codec
new_decoder bzip2 = some bzip2_codec
new_decoder lz4 = some lz4_frame_codec
new_decoder lz4_legacy = some lz4_frame_codec
new_decoder lz4_lg = some lz4_frame_codec
new_decoder zopfli = some gzip_codec
new_decoder gzip = some gzip_codec
new_decoder _ = none

-- A library decodes a stream, or fails; and the spare capacity of a slice.
pub record Libraries : Type 0 where
  pub decode : Codec → Bytes → Option Bytes
  pub spare : Bytes → Bytes

-- `DecompressToFd(data, fd)` up to its write: the bytes that are written, or `none` where it returns
-- `false`.
unfoldable pub decompress_to_fd : Libraries → Bytes → Outcome (Option Bytes)
unfolding compressed new_decoder
decompress_to_fd libs bytes = check_fmt bytes (libs.spare bytes) >>= λ t.
    if compressed t
    then (elim (new_decoder t) [
      | none ↦ fatal
      | some codec ↦ elim (libs.decode codec bytes) [ none ↦ fatal | some d ↦ ret (some d) ]
    ])
    else ret none

-- A `uint32` in four bytes, the lowest first.
unfoldable pub le32 : ℕ → Bytes
unfolding to_le
le32 n = to_le 4 n

abbrev pub lz4_leg_magic_bytes : Bytes
lz4_leg_magic_bytes = 0x02 ∷ 0x21 ∷ 0x4c ∷ 0x18 ∷ []

-- `Lz4HCWriter`: what it has written, and the length of its input.
pub record Lz4HcWriter : Type 0 where
  pub written : Bytes
  pub in_total : ℕ
  pub lg : Bool

unfoldable pub new_lz4_hc_writer : Bool → Lz4HcWriter
new_lz4_hc_writer lg = record { written = lz4_leg_magic_bytes; in_total = 0; lg = lg }

-- One block; `compress_block` is the library's, and an empty block is a failure.
unfoldable pub lz4_hc_write : (Bytes → Option Bytes) → Lz4HcWriter → Bytes → Outcome Lz4HcWriter
unfolding le32
lz4_hc_write compress_block z bytes = elim (compress_block bytes) [
  | none ↦ fatal
  | some block ↦
      if length block == 0
      then fatal
      else ret (record z {
        written = z.written ++ (le32 (length block % u32_mod) ++ block);
        in_total = (z.in_total + length bytes % u32_mod) % u32_mod;
      })
]

unfoldable pub lz4_hc_close : Lz4HcWriter → Lz4HcWriter
unfolding le32
lz4_hc_close z = if z.lg then record z { written = z.written ++ le32 z.in_total } else z
