-- ===== src/Patch/Hex/Laws.antt =====
-- What a run of `HexPatch` says of the file.
use magiskboot_go.Base.{
  ℕ, zero, suc, ◌≡◌, ◌≢◌, refl, sym, ap, ◌∙◌, arith, Bool, true, false, ◌||◌, [], ◌∷◌, ◌++◌,
}
use magiskboot_go.Base.{Bytes, length, Outcome, ret, panic, >>=-eq-ret, ==_refl}
use magiskboot_go.Patch.Hex.{matches, matches_at, overwrite, patch_here, next_round, patch_loop}

matches_self : (from post : Bytes) → matches from (from ++ post) ≡ ret true
unfolding matches
matches_self [] post = refl
matches_self (f ∷ from) post = rw (==_refl f) (matches_self from post)

matches_at_self : (from post : Bytes) → from ≢ [] → matches_at from (from ++ post) ≡ ret true
unfolding matches_at
matches_at_self [] post h = absurd (h refl)
matches_at_self (f ∷ from) post h = matches_self (f ∷ from) post

matches-short : (p q : Bytes) → q ≢ [] → matches (p ++ q) p ≡ panic
unfolding matches
matches-short [] [] h = absurd (h refl)
matches-short [] (c ∷ q) h = refl
matches-short (c ∷ p) q h = rw (==_refl c) (matches-short p q h)

length-overwrite : (rest to : Bytes) → length (overwrite rest to) ≡ length rest
unfolding overwrite
length-overwrite [] to = refl
length-overwrite (c ∷ rest) [] = refl
length-overwrite (c ∷ rest) (t ∷ to) = ap suc (length-overwrite rest to)

length-patch_here : (hit : Bool) (to rest : Bytes) → length (patch_here hit to rest) ≡ length rest
unfolding patch_here
length-patch_here true to rest = length-overwrite rest to
length-patch_here false to rest = refl

-- A round that returns, taken apart.
next_round-cons :
    (later : Bytes → Outcome (Bytes × Bool)) (hit : Bool) (c : ℕ) (rest r : Bytes) (b : Bool)
    → next_round later hit (c ∷ rest) ≡ ret (r, b)
    → (t : Bytes) × (d : Bool) × (later rest ≡ ret (t, d)) × (r ≡ c ∷ t) × (b ≡ (hit || d))
next_round-cons later hit c rest r b h =
    let (a, e, k) = >>=-eq-ret (later rest) _ h in (a.0, a.1, e, cc, cc)

-- A scan that returns keeps the length of the file.
length-patch_loop :
    (from to : Bytes) (n : ℕ) (rest r : Bytes) (b : Bool)
    → length rest ≡ n
    → patch_loop from to n rest ≡ ret (r, b)
    → length r ≡ length rest
unfolding patch_loop
length-patch_loop from to zero rest r b l h = cc
length-patch_loop from to (suc n) rest r b l h =
    let (hit, _, k) = >>=-eq-ret (matches_at from rest) _ h in
    step hit (patch_here hit to rest) (length-patch_here hit to rest) k
      (λ t s d. length-patch_loop from to n t s d)
  where
    step :
        (hit : Bool) (now : Bytes)
        → length now ≡ length rest
        → next_round (patch_loop from to n) hit now ≡ ret (r, b)
        → ((t s : Bytes) (d : Bool)
            → length t ≡ n
            → patch_loop from to n t ≡ ret (s, d)
            → length s ≡ length t)
        → length r ≡ length rest
    step hit [] e k ih = absurd (omega arith)
    step hit (c ∷ t) e k ih =
        let (s, d, run, er, eb) = next_round-cons (patch_loop from to n) hit c t r b k in
        omega (arith, ap length er, ih t s d (omega arith) run, e)

-- A run that reports no patch hit nowhere.
patch_loop-head :
    (from to : Bytes) (n : ℕ) (c : ℕ) (rest r : Bytes)
    → patch_loop from to (suc n) (c ∷ rest) ≡ ret (r, false)
    → (matches_at from (c ∷ rest) ≡ ret false)
      × ((t : Bytes) × (patch_loop from to n rest ≡ ret (t, false)) × (r ≡ c ∷ t))
unfolding patch_loop patch_here
patch_loop-head from to n c rest r h =
    let (hit, m, k) = >>=-eq-ret (matches_at from (c ∷ rest)) _ h in step hit m k
  where
    lost : (now : Bytes) → next_round (patch_loop from to n) true now ≢ ret (r, false)
    lost [] k = cc
    lost (d ∷ t) k =
        let (s, b, run, er, eb) = next_round-cons (patch_loop from to n) true d t r false k in cc

    step :
        (hit : Bool)
        → matches_at from (c ∷ rest) ≡ ret hit
        → next_round (patch_loop from to n) hit (patch_here hit to (c ∷ rest)) ≡ ret (r, false)
        → (matches_at from (c ∷ rest) ≡ ret false)
          × ((t : Bytes) × (patch_loop from to n rest ≡ ret (t, false)) × (r ≡ c ∷ t))
    step true m k = absurd (lost (overwrite (c ∷ rest) to) k)
    step false m k =
        let (t, d, run, er, eb) = next_round-cons (patch_loop from to n) false c rest r false k in
        (m, (t, (run ∙ ap (λ (x : Bool). ret (t, x)) (sym eb)), er))

patch_loop-same :
    (from to : Bytes) (n : ℕ) (rest r : Bytes)
    → length rest ≡ n
    → patch_loop from to n rest ≡ ret (r, false)
    → r ≡ rest
patch_loop-same from to zero [] r l h = unfold patch_loop in cc
patch_loop-same from to zero (c ∷ rest) r l h = absurd (omega arith)
patch_loop-same from to (suc n) [] r l h = absurd (omega arith)
patch_loop-same from to (suc n) (c ∷ rest) r l h =
    let (_, (t, run, e)) = patch_loop-head from to n c rest r h in
    e ∙ ap (λ (s : Bytes). c ∷ s) (patch_loop-same from to n rest t (omega arith) run)

patch_loop-absent :
    (from to : Bytes) (n : ℕ) (rest r pre post : Bytes)
    → from ≢ []
    → length rest ≡ n
    → patch_loop from to n rest ≡ ret (r, false)
    → rest ≢ pre ++ (from ++ post)
patch_loop-absent [] to n rest r pre post ne l h e = absurd (ne refl)
patch_loop-absent (f ∷ fs) to n [] r [] post ne l h e = cc
patch_loop-absent (f ∷ fs) to n [] r (p ∷ pre) post ne l h e = cc
patch_loop-absent (f ∷ fs) to zero (c ∷ rest) r pre post ne l h e = absurd (omega arith)
patch_loop-absent (f ∷ fs) to (suc n) (c ∷ rest) r [] post ne l h e =
    let (m, _) = patch_loop-head (f ∷ fs) to n c rest r h in
    let hit : matches_at (f ∷ fs) (c ∷ rest) ≡ ret true =
      ap (matches_at (f ∷ fs)) e ∙ matches_at_self (f ∷ fs) post ne in
    cc
patch_loop-absent (f ∷ fs) to (suc n) (c ∷ rest) r (p ∷ pre) post ne l h e =
    let (_, (t, run, _)) = patch_loop-head (f ∷ fs) to n c rest r h in
    let tail : rest ≡ pre ++ (f ∷ fs ++ post) = cc in
    patch_loop-absent (f ∷ fs) to n rest t pre post ne (omega arith) run tail

-- A scan that returns and reports that nothing was patched gives the file back as it was, and the
-- pattern, which is not empty, stands nowhere in it.
pub patch_loop_complete :
    (from to m r : Bytes)
    → from ≢ []
    → patch_loop from to (length m) m ≡ ret (r, false)
    → (r ≡ m) × ((pre post : Bytes) → m ≢ pre ++ (from ++ post))
patch_loop_complete from to m r ne h = (
  patch_loop-same from to (length m) m r refl h,
  λ pre post. patch_loop-absent from to (length m) m r pre post ne refl h,
)

-- The scan of a file that is a proper prefix of the pattern, and not empty, panics: the pattern is
-- compared beyond the end of the file.
pub patch_loop-prefix :
    (p q to : Bytes) → p ≢ [] → q ≢ [] → patch_loop (p ++ q) to (length p) p ≡ panic
unfolding patch_loop
patch_loop-prefix [] q to h k = absurd (h refl)
patch_loop-prefix (c ∷ p) q to h k = rw (patch_loop, matches_at, matches-short (c ∷ p) q k)
