-- ===== src/Boot/Parts.antt =====
-- What `SplitImageDtb` leaves of a file.
use magiskboot_go.Base.{
  ℕ, zero, suc, ◌-◌, ◌%◌, ◌<◌, ◌≤◌, ◌^◌, ◌≡◌, refl, sym, ap, ◌∙◌, arith, Bool, not, ◌&&◌, List, [],
  ◌∷◌, ◌++◌, Option, none, some,
}
use magiskboot_go.Base.{
  Bytes, length, take, drop, take-append-drop, length-drop, ltb, Bool-cases, inl, inr, u32_mod,
  if◌then◌else◌, ret, >>=-eq-ret,
}
use mathlib.Core.Path.{subst}
use magiskboot_go.Format.{Format, compressed}
use magiskboot_go.Boot.Dtb.{
  Split, no_dtb, decompressed, dumped, dump_file, dump_rest, split_at, split_image_dtb,
  find_dtb_offset, check_fmt_lg,
}

-- The content of a file that may not have been created.
unfoldable pub content_of : Option Bytes → Bytes
content_of none = []
content_of (some b) = b

module _ {A : Type 0} where
  take_all : (n : ℕ) (xs : List A) → length xs ≤ n → take n xs ≡ xs
  take_all zero [] h = refl
  take_all zero (x ∷ xs) h = absurd (omega arith)
  take_all (suc n) [] h = refl
  take_all (suc n) (x ∷ xs) h = ap (λ t. x ∷ t) (take_all n xs (omega arith))

  drop_all : (n : ℕ) (xs : List A) → length xs ≤ n → drop n xs ≡ []
  drop_all zero [] h = refl
  drop_all zero (x ∷ xs) h = absurd (omega arith)
  drop_all (suc n) [] h = refl
  drop_all (suc n) (x ∷ xs) h = drop_all n xs (omega arith)

ret-injective : {A : Type 0} {a b : A} → ret a ≡ ret b → a ≡ b
ret-injective h = cc

content_of-dump_file : (b : Bytes) (n : ℕ) → content_of (dump_file b n) ≡ take n b
unfolding dump_file content_of
content_of-dump_file b zero = refl
content_of-dump_file b (suc n) = ground arith

content_of-dump_rest :
    (fmap : Bytes) (img_sz off : ℕ)
    → img_sz ≡ length fmap
    → content_of (dump_rest fmap img_sz off) ≡ drop off fmap
unfolding dump_rest content_of
content_of-dump_rest fmap img_sz off z = elim (Bool-cases (ltb img_sz off)) [
  | inl e ↦ rw (e) (sym (drop_all off fmap (ground arith)))
  | inr e ↦ rw (e) (
      content_of-dump_file (drop off fmap) (img_sz - off)
      ∙ take_all (img_sz - off) (drop off fmap) (omega (arith, z, length-drop off fmap)))
]

-- What a split keeps of a file: a kernel and a device tree that are dumped make up the file, and
-- what is decompressed is what is written as the device tree.
unfoldable pub KeepsBytes : Bytes → Split → Type 0
KeepsBytes fmap no_dtb = Unit
KeepsBytes fmap (decompressed f stream dtb) = content_of dtb ≡ stream
KeepsBytes fmap (dumped kernel dtb) = content_of kernel ++ content_of dtb ≡ fmap

parts_at :
    (fmap : Bytes) (img_sz off : ℕ) (f : Format) (skip_decomp : Bool)
    → img_sz ≡ length fmap
    → KeepsBytes fmap (
        if not skip_decomp && compressed f
        then decompressed f (drop off fmap) (dump_rest fmap img_sz off)
        else dumped (dump_file fmap off) (dump_rest fmap img_sz off))
unfolding KeepsBytes
parts_at fmap img_sz off f skip z = elim (Bool-cases (not skip && compressed f)) [
  | inl e ↦ rw (e) (content_of-dump_rest fmap img_sz off z)
  | inr e ↦
      rw (e, content_of-dump_file fmap off, content_of-dump_rest fmap img_sz off z)
        (take-append-drop off fmap)
]

split_at-KeepsBytes :
    (rounds : ℕ) (fmap : Bytes) (img_sz : ℕ) (skip_decomp : Bool) (s : Split) (o : Option ℕ)
    → img_sz ≡ length fmap
    → split_at rounds fmap img_sz skip_decomp o ≡ ret s
    → KeepsBytes fmap s
unfolding split_at KeepsBytes
split_at-KeepsBytes rounds fmap img_sz skip s none z h =
    subst (KeepsBytes fmap) (ret-injective h) tt
split_at-KeepsBytes rounds fmap img_sz skip s (some zero) z h =
    subst (KeepsBytes fmap) (ret-injective h) tt
split_at-KeepsBytes rounds fmap img_sz skip s (some (suc off)) z h =
    let (f, _, e) = >>=-eq-ret (check_fmt_lg rounds fmap img_sz) _ h in
    subst (KeepsBytes fmap) (ret-injective e) (parts_at fmap img_sz (suc off) f skip z)

-- Of a file of less than 2 ^ 32 bytes: where the kernel and the device tree are dumped, the two
-- files together are the file; where a kernel is decompressed, it is decompressed from the bytes
-- that are written as the device tree.
pub split_image_dtb-KeepsBytes :
    (rounds : ℕ) (fmap : Bytes) (skip_decomp : Bool) (s : Split)
    → length fmap < 2 ^ 32
    → split_image_dtb rounds fmap skip_decomp ≡ ret s
    → KeepsBytes fmap s
unfolding split_image_dtb
split_image_dtb-KeepsBytes rounds fmap skip s small h =
    let z : length fmap % u32_mod ≡ length fmap = omega arith in
    let (o, _, at) =
      >>=-eq-ret (find_dtb_offset rounds fmap (length fmap % u32_mod))
        (split_at rounds fmap (length fmap % u32_mod) skip) h in
    split_at-KeepsBytes rounds fmap (length fmap % u32_mod) skip s o z at
