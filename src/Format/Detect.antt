-- ===== src/Format/Detect.antt =====
-- When the detection returns, and what it finds.
use magiskboot_go.Base.{◌≤◌, ◌<◌, ◌≡◌, refl, Bool, true, false, List, All, [], ◌∷◌, ◌++◌, arith}
use magiskboot_go.Base.{Bytes, bytes_eq, Outcome, ret, panic, le→leb, lt→leb}
use magiskboot_go.Base.{length, take, returns}
use magiskboot_go.Format

-- The format that stands behind each magic.
abbrev pub format_of : Format.Magic → Format.Format
format_of Format.chromeos_magic = Format.chromeos
format_of Format.boot_magic = Format.aosp
format_of Format.vendor_boot_magic = Format.aosp_vendor
format_of Format.gzip1_magic = Format.gzip
format_of Format.gzip2_magic = Format.gzip
format_of Format.lzop_magic = Format.lzop
format_of Format.xz_magic = Format.xz
format_of Format.bzip_magic = Format.bzip2
format_of Format.lz41_magic = Format.lz4
format_of Format.lz42_magic = Format.lz4
format_of Format.lz4_leg_magic = Format.lz4_legacy
format_of Format.mtk_magic = Format.mtk
format_of Format.dtb_magic = Format.dtb
format_of Format.dhtb_magic = Format.dhtb
format_of Format.tegrablob_magic = Format.blob

pub magic-le : (m : Format.Magic) → length (Format.magic m) ≤ 20
magic-le Format.chromeos_magic = omega arith
magic-le _ = omega arith

checked_match-ret :
    (buf spare : Bytes) (m : Format.Magic)
    → 20 ≤ length (buf ++ spare)
    → Format.checked_match buf spare m
      ≡ ret (bytes_eq (Format.magic m) (take (length (Format.magic m)) (buf ++ spare)))
unfolding Format.checked_match
checked_match-ret buf spare m h =
    let e : length (Format.magic m) ≤ length (buf ++ spare) = omega (arith, magic-le m) in
    rw (le→leb _ _ e)

-- A buffer of at least 20 bytes of capacity that begins with a magic has the format of that magic:
-- no test above it in the chain takes the buffer away from it.
pub check_fmt-magic :
    (m : Format.Magic) (rest spare : Bytes)
    → 20 ≤ length (Format.magic m ++ rest ++ spare)
    → Format.check_fmt (Format.magic m ++ rest) spare ≡ ret (format_of m)
unfolding Format.check_fmt bytes_eq
check_fmt-magic Format.chromeos_magic rest spare h = ground arith
check_fmt-magic _ rest spare h = ground arith

first_match-returns :
    (l : List (Outcome Bool × Format.Format))
    → All (λ (m, _). returns m ≡ true) l
    → returns (Format.first_match l) ≡ true
unfolding Format.first_match
first_match-returns [] _ = refl
first_match-returns ((ret true, f) ∷ l) (h, hs) = refl
first_match-returns ((ret false, f) ∷ l) (h, hs) = first_match-returns l hs
first_match-returns ((_, f) ∷ l) (h, hs) = cc

either-returns :
    (m n : Outcome Bool) → returns m ≡ true → returns n ≡ true → returns (Format.either m n) ≡ true
either-returns (ret b) n h k = ground arith
either-returns _ n h k = cc

-- The detection returns for every buffer of at least 20 bytes of capacity.
check_fmt-returns :
    (buf spare : Bytes) → 20 ≤ length (buf ++ spare) → returns (Format.check_fmt buf spare) ≡ true
unfolding Format.check_fmt
check_fmt-returns buf spare h = first_match-returns (Format.tests buf spare) (
  r Format.chromeos_magic,
  (
    r Format.boot_magic,
    (
      r Format.vendor_boot_magic,
      (
        either-returns _ _ (r Format.gzip1_magic) (r Format.gzip2_magic),
        (
          r Format.lzop_magic,
          (
            r Format.xz_magic,
            (
              refl,
              (
                r Format.bzip_magic,
                (
                  either-returns _ _ (r Format.lz41_magic) (r Format.lz42_magic),
                  (
                    r Format.lz4_leg_magic,
                    (
                      r Format.mtk_magic,
                      (
                        r Format.dtb_magic,
                        (r Format.dhtb_magic, (r Format.tegrablob_magic, (refl, tt))),
                      ),
                    ),
                  ),
                ),
              ),
            ),
          ),
        ),
      ),
    ),
  ),
)
  where
    r : (m : Format.Magic) → returns (Format.checked_match buf spare m) ≡ true
    r m = rw (checked_match-ret buf spare m h)

-- The detection panics for every buffer of less than 8 bytes of capacity.
check_fmt_panics :
    (buf spare : Bytes) → length (buf ++ spare) < 8 → Format.check_fmt buf spare ≡ panic
unfolding Format.check_fmt
check_fmt_panics buf spare h = rw (lt→leb 8 (length (buf ++ spare)) h)
