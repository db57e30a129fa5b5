-- ===== src/Format.antt =====
-- format.go: the formats, their magics, the detection of a buffer's format, and their names.
pub mod Detect
pub mod Names
use magiskboot_go.Base.{
  ℕ, ◌+◌, Bool, true, false, ◌&&◌, ◌||◌, List, [], ◌∷◌, ◌++◌, Bytes, codes, bytes_eq,
}
use magiskboot_go.Base.{
  Outcome, ret, panic, ◌>>=◌, leb, ltb, ◌==◌, if◌then◌else◌, length, take, drop,
}
use magiskboot_go.Base.{get_elem?, Option, none, some}

-- `format_t`, in the order of the `iota` constants.
pub data Format : Type 0 where
  unknown chromeos aosp aosp_vendor dhtb blob : Format
  gzip zopfli xz lzma bzip2 lz4 lz4_legacy lz4_lg : Format
  lzop : Format
  mtk dtb zimage : Format

-- The value of the constant.
unfoldable pub iota : Format → ℕ
iota unknown = 0
iota chromeos = 1
iota aosp = 2
iota aosp_vendor = 3
iota dhtb = 4
iota blob = 5
iota gzip = 6
iota zopfli = 7
iota xz = 8
iota lzma = 9
iota bzip2 = 10
iota lz4 = 11
iota lz4_legacy = 12
iota lz4_lg = 13
iota lzop = 14
iota mtk = 15
iota dtb = 16
iota zimage = 17

-- `COMPRESSED` and `COMPRESSED_ANY`.
unfoldable pub compressed : Format → Bool
unfolding iota
compressed f = leb (iota gzip) (iota f) && ltb (iota f) (iota lzop)

unfoldable pub compressed_any : Format → Bool
unfolding iota
compressed_any f = leb (iota gzip) (iota f) && leb (iota f) (iota lzop)

-- The magic constants that the detection compares the start of a buffer with.
pub data Magic : Type 0 where
  chromeos_magic boot_magic vendor_boot_magic : Magic
  gzip1_magic gzip2_magic lzop_magic xz_magic bzip_magic : Magic
  lz41_magic lz42_magic lz4_leg_magic : Magic
  mtk_magic dtb_magic dhtb_magic tegrablob_magic : Magic

abbrev pub magic : Magic → Bytes
magic chromeos_magic = codes "CHROMEOS"
magic boot_magic = codes "ANDROID!"
magic vendor_boot_magic = codes "VNDRBOOT"
magic gzip1_magic = 0x1f ∷ 0x8b ∷ []
magic gzip2_magic = 0x1f ∷ 0x9e ∷ []
magic lzop_magic = 0x89 ∷ codes "LZO"
magic xz_magic = 0xfd ∷ codes "7zXZ"
magic bzip_magic = codes "BZh"
magic lz41_magic = 0x03 ∷ 0x21 ∷ 0x4c ∷ 0x18 ∷ []
magic lz42_magic = 0x04 ∷ 0x22 ∷ 0x4d ∷ 0x18 ∷ []
magic lz4_leg_magic = 0x02 ∷ 0x21 ∷ 0x4c ∷ 0x18 ∷ []
magic mtk_magic = 0x88 ∷ 0x16 ∷ 0x88 ∷ 0x58 ∷ []
magic dtb_magic = 0xd0 ∷ 0x0d ∷ 0xfe ∷ 0xed ∷ []
magic dhtb_magic = 0x44 ∷ 0x48 ∷ 0x54 ∷ 0x42 ∷ 0x01 ∷ 0 ∷ 0 ∷ 0 ∷ []
magic tegrablob_magic = codes "-SIGNED-BY-SIGNBLOB-"

abbrev pub zimage_magic : Bytes
zimage_magic = 0x18 ∷ 0x28 ∷ 0x6f ∷ 0x01 ∷ []

-- `CHECKED_MATCH(p)`. A slice `buf[:n]` may reach into the spare capacity behind `buf`, and panics
-- beyond it.
unfoldable pub checked_match : Bytes → Bytes → Magic → Outcome Bool
unfolding bytes_eq
checked_match buf spare m =
    let p = magic m in
    if leb (length p) (length (buf ++ spare))
    then ret (bytes_eq p (take (length p) (buf ++ spare)))
    else panic

-- `if m { return f } else if …`: a later test is made only where the ones above it fail.
unfoldable pub first_match : List (Outcome Bool × Format) → Outcome Format
first_match [] = ret unknown
first_match ((m, f) ∷ rest) = m >>= λ b. if b then ret f else first_match rest

-- `m || n`, with `n` read only where `m` fails.
abbrev pub either : Outcome Bool → Outcome Bool → Outcome Bool
either m n = m >>= λ b. if b then ret true else n

-- `buf[i] == c`, at an index that is in range.
abbrev pub byte_is : Bytes → ℕ → ℕ → Bool
byte_is buf i c = elim (get_elem? buf i) [ some b ↦ b == c | none ↦ false ]

unfoldable pub is_lzma : Bytes → Bool
unfolding bytes_eq
is_lzma buf =
    (leb 13 (length buf) && bytes_eq (0x5d ∷ 0 ∷ 0 ∷ []) (take 3 buf))
    && (byte_is buf 12 0xff || byte_is buf 12 0)

unfoldable pub is_zimage : Bytes → Bool
unfolding bytes_eq
is_zimage buf = leb 0x28 (length buf) && bytes_eq (take 4 (drop 0x24 buf)) zimage_magic

-- The tests of `CheckFmt(buf)` in their order, with what each returns.
abbrev pub tests : Bytes → Bytes → List (Outcome Bool × Format)
tests buf spare =
    let m = checked_match buf spare in
    (m chromeos_magic, chromeos)
    ∷ (m boot_magic, aosp)
    ∷ (m vendor_boot_magic, aosp_vendor)
    ∷ (either (m gzip1_magic) (m gzip2_magic), gzip)
    ∷ (m lzop_magic, lzop)
    ∷ (m xz_magic, xz)
    ∷ (ret (is_lzma buf), lzma)
    ∷ (m bzip_magic, bzip2)
    ∷ (either (m lz41_magic) (m lz42_magic), lz4)
    ∷ (m lz4_leg_magic, lz4_legacy)
    ∷ (m mtk_magic, mtk)
    ∷ (m dtb_magic, dtb)
    ∷ (m dhtb_magic, dhtb)
    ∷ (m tegrablob_magic, blob)
    ∷ (ret (is_zimage buf), zimage)
    ∷ []

-- `CheckFmt(buf)`, with the bytes between the length and the capacity of `buf`.
unfoldable pub check_fmt : Bytes → Bytes → Outcome Format
unfolding checked_match is_lzma is_zimage first_match
check_fmt buf spare = first_match (tests buf spare)

unfoldable pub fmt2name : Format → Bytes
fmt2name gzip = codes "gzip"
fmt2name zopfli = codes "zopfli"
fmt2name lzop = codes "lzop"
fmt2name xz = codes "xz"
fmt2name lzma = codes "lzma"
fmt2name bzip2 = codes "bzip2"
fmt2name lz4 = codes "lz4"
fmt2name lz4_legacy = codes "lz4_legacy"
fmt2name lz4_lg = codes "lz4_lg"
fmt2name dtb = codes "dtb"
fmt2name zimage = codes "zimage"
fmt2name _ = codes "raw"

unfoldable pub fmt2ext : Format → Bytes
fmt2ext gzip = codes ".gz"
fmt2ext zopfli = codes ".gz"
fmt2ext lzop = codes ".lzo"
fmt2ext xz = codes ".xz"
fmt2ext lzma = codes ".lzma"
fmt2ext bzip2 = codes ".bz2"
fmt2ext lz4 = codes ".lz4"
fmt2ext lz4_legacy = codes ".lz4"
fmt2ext lz4_lg = codes ".lz4"
fmt2ext _ = []

unfoldable pub name2fmt : Bytes → Format
unfolding bytes_eq
name2fmt name =
    if bytes_eq name (codes "gzip")
    then gzip
    else if bytes_eq name (codes "zopfli")
    then zopfli
    else if bytes_eq name (codes "xz")
    then xz
    else if bytes_eq name (codes "lzma")
    then lzma
    else if bytes_eq name (codes "bzip2")
    then bzip2
    else if bytes_eq name (codes "lz4")
    then lz4
    else if bytes_eq name (codes "lz4_legacy")
    then lz4_legacy
    else if bytes_eq name (codes "lz4_lg")
    then lz4_lg
    else unknown
