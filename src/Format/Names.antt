-- ===== src/Format/Names.antt =====
-- The names of the compression formats, as printed and as accepted.
use magiskboot_go.Base.{◌≡◌, refl, ◌≢◌, true, Bytes, codes, bytes_eq_sound, arith}
use magiskboot_go.Format.{Format, unknown, gzip, fmt2name, name2fmt, compressed}

-- Every supported compression format is named by a name that is read back as that format.
pub name2fmt-fmt2name : (f : Format) → compressed f ≡ true → name2fmt (fmt2name f) ≡ f
unfolding name2fmt fmt2name compressed
name2fmt-fmt2name unknown h = cc
name2fmt-fmt2name gzip h = refl
name2fmt-fmt2name _ h = ground arith

-- A name that is accepted at all is the name of a supported compression format, and is printed
-- back unchanged.
fmt2name-name2fmt :
    (n : Bytes)
    → name2fmt n ≢ unknown
    → (fmt2name (name2fmt n) ≡ n) × (compressed (name2fmt n) ≡ true)
unfolding name2fmt fmt2name compressed
fmt2name-name2fmt n h = ground (
  arith,
  bytes_eq_sound n (codes "gzip"),
  bytes_eq_sound n (codes "zopfli"),
  bytes_eq_sound n (codes "xz"),
  bytes_eq_sound n (codes "lzma"),
  bytes_eq_sound n (codes "bzip2"),
  bytes_eq_sound n (codes "lz4"),
  bytes_eq_sound n (codes "lz4_legacy"),
  bytes_eq_sound n (codes "lz4_lg"),
)
