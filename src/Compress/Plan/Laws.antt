-- ===== src/Compress/Plan/Laws.antt =====
-- `Decompress` on the name that `Compress` gives its output.
use magiskboot_go.Base.{
  ℕ, ◌≡◌, refl, ap, sym, append_assoc, Bool-cases, inl, inr, bytes_eq_sound, ◌∙◌, arith, Bool, true,
  false, some, All, [], ◌∷◌, ◌++◌,
}
use magiskboot_go.Base.{Bytes, codes, bytes_eq, in_set, trim_right, ret, ==_refl, bytes_eq_refl}
use mathlib.Core.Path.{subst}
use magiskboot_go.Format.{Format, gzip, compressed, fmt2ext}
use magiskboot_go.Compress.Plan.{find_ext, ext, decompress_target, is_empty}

-- The extension of a name is that of its end, where its end has one.
find_ext-append : (s e x : Bytes) → find_ext e ≡ some x → find_ext (s ++ e) ≡ some x
unfolding find_ext
find_ext-append [] e x h = h
find_ext-append (c ∷ s) e x h = rw (find_ext-append s e x h) (ground arith)

-- Trimming passes over an end that is all in the set.
trim_right-nil : (p : ℕ → Bool) (e : Bytes) → All (λ c. p c ≡ true) e → trim_right p e ≡ []
unfolding trim_right
trim_right-nil p [] h = refl
trim_right-nil p (c ∷ e) (h, hs) = rw (trim_right-nil p e hs, h) refl

trim_right-append :
    (p : ℕ → Bool) (s e : Bytes) → All (λ c. p c ≡ true) e → trim_right p (s ++ e) ≡ trim_right p s
unfolding trim_right
trim_right-append p [] e h = trim_right-nil p e h
trim_right-append p (c ∷ s) e h = rw (trim_right-append p s e h) refl

-- The extension of a compressed format is one extension, and not empty.
pub fmt2ext-find_ext :
    (f : Format)
    → compressed f ≡ true
    → (find_ext (fmt2ext f) ≡ some (fmt2ext f)) × (is_empty (fmt2ext f) ≡ false)
unfolding fmt2ext find_ext compressed in_set
fmt2ext-find_ext gzip h = (refl, refl)
fmt2ext-find_ext _ h = (ground arith, ground arith)

in_set-middle : (d : Bytes) (c : ℕ) (e : Bytes) → in_set (d ++ c ∷ e) c ≡ true
unfolding in_set
in_set-middle [] c e = ground (arith, ==_refl c)
in_set-middle (b ∷ d) c e = ground (arith, in_set-middle d c e)

-- Every byte of a set is in it.
in_set-end : (d e : Bytes) → All (λ c. in_set (d ++ e) c ≡ true) e
in_set-end d [] = tt
in_set-end d (c ∷ e) = (
  in_set-middle d c e,
  subst (λ (x : Bytes). All (λ k. in_set x k ≡ true) e) (append_assoc d (c ∷ []) e)
      (in_set-end (d ++ c ∷ []) e),
)

ext-append : (s : Bytes) (f : Format) → compressed f ≡ true → ext (s ++ fmt2ext f) ≡ fmt2ext f
unfolding ext
ext-append s f h = rw (ext, find_ext-append s (fmt2ext f) (fmt2ext f) (fmt2ext-find_ext f h).0) refl

pub not_stdin :
    (s : Bytes) (f : Format) → compressed f ≡ true → bytes_eq (s ++ fmt2ext f) (codes "-") ≡ false
not_stdin s f h = elim (Bool-cases (bytes_eq (s ++ fmt2ext f) (codes "-"))) [
  | inr e ↦ e
  | inl e ↦
      let none_there : ext (codes "-") ≡ [] = unfold ext in unfold find_ext in refl in
      let same : fmt2ext f ≡ [] =
        sym (ext-append s f h) ∙ (ap ext (bytes_eq_sound _ (codes "-") e) ∙ none_there) in
      let full : is_empty (fmt2ext f) ≡ false = (fmt2ext-find_ext f h).1 in cc
]

-- For the file that `Compress` made of an input, the output of `Decompress` is not always that input
-- again: all bytes at its end that stand in the extension are taken off too.
pub decompress_target-compress :
    (infile : Bytes) (f : Format)
    → compressed f ≡ true
    → decompress_target (infile ++ fmt2ext f) f ≡ ret (trim_right (in_set (fmt2ext f)) infile, true)
unfolding decompress_target
decompress_target-compress infile f h =
    rw
      (
        not_stdin infile f h,
        ext-append infile f h,
        (fmt2ext-find_ext f h).1,
        bytes_eq_refl (fmt2ext f),
        trim_right-append (in_set (fmt2ext f)) infile (fmt2ext f) (in_set-end [] (fmt2ext f)),
      )
      refl
