-- ===== src/Patch/Fstab/Lines.antt =====
-- When `patchFstab` returns, and which lines it leaves alone.
use magiskboot_go.Base.{
  ℕ, zero, suc, ◌≤◌, ◌<◌, ◌≡◌, ◌↔◌, refl, ap, arith, Bool, true, false, not, ◌&&◌, ◌||◌, List, [],
  ◌∷◌,
}
use magiskboot_go.Base.{Bytes, length, all, Outcome, ret, panic, returns, ltb, ◌==◌}
use magiskboot_go.Base.{Bool-cases, inl, inr, split, join-split, get_elem?, none, some, All}
use magiskboot_go.Patch.Fstab.{is_skipped, fields, rebuild, patch_line, patch_lines, patch_fstab}

-- A line that the index `fields[4]` runs over: it has fields to patch, and exactly four of them.
abbrev pub lacks_flags : Bytes → Bool
lacks_flags line = not (is_skipped line) && (length (fields line) == 4)

get_elem?-none : (fs : List Bytes) (i : ℕ) → length fs ≤ i → get_elem? fs i ≡ none
get_elem?-none [] i h = refl
get_elem?-none (f ∷ fs) zero h = absurd (omega arith)
get_elem?-none (f ∷ fs) (suc i) h = get_elem?-none fs i (omega arith)

get_elem?-some : (fs : List Bytes) (i : ℕ) → i < length fs → (f : Bytes) × (get_elem? fs i ≡ some f)
get_elem?-some [] i h = absurd (omega arith)
get_elem?-some (f ∷ fs) zero h = (f, refl)
get_elem?-some (f ∷ fs) (suc i) h = get_elem?-some fs i (omega arith)

rebuild_panics : (ps fs : List Bytes) → length fs ≡ 4 → rebuild ps fs ≡ panic
unfolding rebuild
rebuild_panics ps fs h = rw (rebuild, get_elem?-none fs 4 (omega arith))

rebuild-returns : (ps fs : List Bytes) → 4 < length fs → returns (rebuild ps fs) ≡ true
unfolding rebuild
rebuild-returns ps fs h = let (f, e) = get_elem?-some fs 4 h in rw (rebuild, e)

patch_line_panics :
    (ps : List Bytes) (line : Bytes) → lacks_flags line ≡ true → patch_line ps line ≡ panic
unfolding patch_line
patch_line_panics ps line h = ground (arith, rebuild_panics ps (fields line))

patch_line-returns :
    (ps : List Bytes) (line : Bytes)
    → lacks_flags line ≡ false
    → returns (patch_line ps line) ≡ true
unfolding patch_line
patch_line-returns ps line h = ground (arith, rebuild-returns ps (fields line))

patch_lines_panics :
    (ps lines : List Bytes)
    → all (λ line. not (lacks_flags line)) lines ≡ false
    → patch_lines ps lines ≡ panic
unfolding patch_lines
patch_lines_panics ps [] h = cc
patch_lines_panics ps (line ∷ lines) h = elim (Bool-cases (lacks_flags line)) [
  | inl e ↦ rw (patch_lines, patch_line_panics ps line e)
  | inr e ↦
      go (patch_line ps line) refl (patch_line-returns ps line e)
        (patch_lines_panics ps lines (ground arith))
]
  where
    go :
        (o : Outcome Bytes)
        → patch_line ps line ≡ o
        → returns o ≡ true
        → patch_lines ps lines ≡ panic
        → patch_lines ps (line ∷ lines) ≡ panic
    go (ret r) e t ih = rw (patch_lines, e) (rw ih)
    go _ e t ih = cc

patch_lines-returns :
    (ps lines : List Bytes)
    → all (λ line. not (lacks_flags line)) lines ≡ true
    → returns (patch_lines ps lines) ≡ true
unfolding patch_lines
patch_lines-returns ps [] h = refl
patch_lines-returns ps (line ∷ lines) h =
    go (patch_line ps line) refl (patch_line-returns ps line (ground arith)) (patch_lines ps lines)
      refl (patch_lines-returns ps lines (ground arith))
  where
    go :
        (o : Outcome Bytes)
        → patch_line ps line ≡ o
        → returns o ≡ true
        → (l : Outcome (List Bytes)) → patch_lines ps lines ≡ l
        → returns l ≡ true
        → returns (patch_lines ps (line ∷ lines)) ≡ true
    go (ret r) e t (ret rs) f u = rw (patch_lines, e) (rw f)
    go (ret r) e t _ f u = cc
    go _ e t l f u = cc

-- `patchFstab` returns exactly where every line that is not a comment and not empty has fewer or more
-- than four fields; on a line of exactly four it panics, since the flags are looked for in a fifth.
pub patch_fstab-returns :
    (content : Bytes) (ps : List Bytes)
    → (returns (patch_fstab content ps)
        ≡ all (λ line. not (lacks_flags line)) (split content b'\n'))
      × ((patch_fstab content ps ≡ panic)
          ↔ (all (λ line. not (lacks_flags line)) (split content b'\n') ≡ false))
patch_fstab-returns content ps =
    go (all (λ line. not (lacks_flags line)) (split content b'\n')) refl
  where
    run :
        (o : Outcome (List Bytes))
        → patch_lines ps (split content b'\n') ≡ o
        → returns o ≡ true
        → returns (patch_fstab content ps) ≡ true
    run (ret r) e t = unfold patch_fstab in rw (patch_fstab, e)
    run _ e t = cc

    go :
        (b : Bool)
        → all (λ line. not (lacks_flags line)) (split content b'\n') ≡ b
        → (returns (patch_fstab content ps) ≡ b) × ((patch_fstab content ps ≡ panic) ↔ (b ≡ false))
    go true h =
        let r =
          run (patch_lines ps (split content b'\n')) refl
            (patch_lines-returns ps (split content b'\n') h) in
        (r, (λ e. cc, λ e. cc))
    go false h =
        let p : patch_fstab content ps ≡ panic =
          unfold patch_fstab in rw (patch_fstab, patch_lines_panics ps (split content b'\n') h) in
        (rw (p) refl, (λ e. refl, λ e. p))

-- A line that has nothing to patch.
abbrev pub IsPlain : Bytes → Type 0
IsPlain line = (is_skipped line || ltb (length (fields line)) 4) ≡ true

patch_lines-same : (ps lines : List Bytes) → All IsPlain lines → patch_lines ps lines ≡ ret lines
unfolding patch_lines patch_line
patch_lines-same ps [] _ = refl
patch_lines-same ps (line ∷ lines) (h, hs) = ground (arith, patch_lines-same ps lines hs)

-- A file whose lines are all empty, comments, or shorter than four fields is given back byte for
-- byte.
patch_fstab-same :
    (content : Bytes) (ps : List Bytes)
    → All IsPlain (split content b'\n')
    → patch_fstab content ps ≡ ret content
unfolding patch_fstab
patch_fstab-same content ps h =
    rw (patch_fstab, patch_lines-same ps (split content b'\n') h)
      (ap ret (join-split content b'\n'))
