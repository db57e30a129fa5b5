-- ===== src/Tests/Formats.antt =====
-- The formats, the alignment, the patches, the compression and the payload on concrete data.
use magiskboot_go.Base.{ℕ, ◌+◌, ◌*◌, ◌≤◌, ◌<◌, ◌≡◌, ◌≢◌, ◌↔◌, refl, arith, true, false, not}
use magiskboot_go.Base.{
  All, all, [], ◌∷◌, ◌++◌, Bytes, codes, replicate, split, returns, in_set, trim_right,
}
use magiskboot_go.Base.{ret, panic}
use magiskboot_go.Common.{align_to}
use magiskboot_go.Common.Laws.{align_to_bounds}
use magiskboot_go.Format
use magiskboot_go.Format.{check_fmt, name2fmt, fmt2name, fmt2ext, compressed}
use magiskboot_go.Format.Detect.{format_of, check_fmt-magic}
use magiskboot_go.Patch.Fstab.{patch_fstab, is_skipped, fields, fields_onto, verity_patterns}
use magiskboot_go.Patch.Fstab.Lines.{lacks_flags, IsPlain, patch_fstab-returns}
use magiskboot_go.Patch.Hex.{patch_loop}
use magiskboot_go.Patch.Hex.Laws.{patch_loop_complete, patch_loop-prefix}
use magiskboot_go.Compress.Plan.{decompress_target}
use magiskboot_go.Compress.Plan.Laws.{decompress_target-compress}

align_to_bounds_example :
    (q : ℕ) × (align_to 5000 4096 ≡ ret (q * 4096)) × (5000 ≤ q * 4096) × (q * 4096 < 5000 + 4096)
align_to_bounds_example = align_to_bounds 5000 4096 (omega arith) (omega arith)

is_lzma_name : name2fmt (codes "lzma") ≢ Format.unknown
unfolding name2fmt
is_lzma_name = cc

check_fmt-magic_example :
    check_fmt (Format.magic Format.vendor_boot_magic ++ replicate 12 0) []
    ≡ ret (format_of Format.vendor_boot_magic)
check_fmt-magic_example = check_fmt-magic Format.vendor_boot_magic (replicate 12 0) [] (omega arith)

abbrev four_fields : Bytes
four_fields = codes "/dev/x /vendor ext4 ro"

patch_fstab-returns_example :
    (returns (patch_fstab four_fields verity_patterns)
      ≡ all (λ line. not (lacks_flags line)) (split four_fields b'\n'))
    × ((patch_fstab four_fields verity_patterns ≡ panic)
        ↔ (all (λ line. not (lacks_flags line)) (split four_fields b'\n') ≡ false))
patch_fstab-returns_example = patch_fstab-returns four_fields verity_patterns

abbrev plain_lines : Bytes
plain_lines = 35 ∷ 97 ∷ 10 ∷ 98 ∷ 32 ∷ 99 ∷ []

plain_lines-IsPlain : All IsPlain (split plain_lines b'\n')
unfolding is_skipped fields fields_onto split
plain_lines-IsPlain = (refl, (refl, tt))

patch_loop_complete_example :
    (codes "abcd" ≡ codes "abcd") × ((pre post : Bytes) → codes "abcd" ≢ pre ++ (codes "x" ++ post))
patch_loop_complete_example =
    patch_loop_complete (codes "x") (codes "yz") (codes "abcd") (codes "abcd") (λ e. cc)
      (unfold patch_loop in refl)

patch_loop-prefix_example :
    patch_loop (codes "abc" ++ codes "d") (codes "x") 3 (codes "abc") ≡ panic
patch_loop-prefix_example =
    patch_loop-prefix (codes "abc") (codes "d") (codes "x") (λ e. cc) (λ e. cc)

decompress_target-compress_example :
    decompress_target (codes "boot.img" ++ fmt2ext Format.gzip) Format.gzip
    ≡ ret (trim_right (in_set (fmt2ext Format.gzip)) (codes "boot.img"), true)
decompress_target-compress_example =
    decompress_target-compress (codes "boot.img") Format.gzip (unfold compressed in refl)

-- The input was `boot.img`, and the output is `boot.im`.
shortened : trim_right (in_set (fmt2ext Format.gzip)) (codes "boot.img") ≡ codes "boot.im"
unfolding trim_right fmt2ext in_set
shortened = refl
