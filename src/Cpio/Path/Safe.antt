-- ===== src/Cpio/Path/Safe.antt =====
-- What `norm_path` leaves of a path that begins with a slash.
use mathlib.Core.Path.{subst}
use mathlib.Core.List.{reverse, reverse-cons}
use magiskboot_go.Base.{
  ==_false, ℕ, ◌≡◌, ◌≢◌, refl, sym, arith, true, false, List, All, All-append, [], ◌∷◌, ◌++◌, Bytes,
  codes,
}
use magiskboot_go.Base.{
  bytes_eq, split, split_onto, join, trim_left, Lacks, ◌==◌, Bool-cases, inl, inr, if◌then◌else◌,
}
use magiskboot_go.Cpio.Path.{slash, clean_step, clean_parts, clean, norm_path}

-- The name of an entry in a directory.
pub record IsComponent (part : Bytes) : Type 0 where
  pub lacks_slash : Lacks slash part
  pub not_empty : bytes_eq part [] ≡ false
  pub not_dot : bytes_eq part (codes ".") ≡ false
  pub not_dot_dot : bytes_eq part (codes "..") ≡ false

true-ne-false : true ≢ false
true-ne-false h = cc

Lacks-append : (c : ℕ) (s : Bytes) (d : ℕ) → Lacks c s → d ≢ c → Lacks c (s ++ d ∷ [])
Lacks-append c [] d _ h = (h, tt)
Lacks-append c (x ∷ s) d (hx, hs) h = (hx, Lacks-append c s d hs h)

split_onto-Lacks :
    (sep : ℕ) (cur s : Bytes) → Lacks sep cur → All (Lacks sep) (split_onto sep cur s)
unfolding split_onto
split_onto-Lacks sep cur [] h = (h, tt)
split_onto-Lacks sep cur (c ∷ s) h = elim (Bool-cases (c == sep)) [
  | inl e ↦ rw (split_onto, e) (h, split_onto-Lacks sep [] s tt)
  | inr e ↦
      rw (split_onto, e)
        (split_onto-Lacks sep (cur ++ c ∷ []) s (Lacks-append sep cur c h (λ k. ground arith)))
]

-- The stack behind a component that is neither empty nor `.`.
clean_step-IsComponent :
    (stack : List Bytes) (part : Bytes)
    → All IsComponent stack
    → Lacks slash part
    → All IsComponent (clean_step true stack part)
unfolding clean_step
clean_step-IsComponent stack part h l = elim (Bool-cases (bytes_eq part [])) [
  | inl e1 ↦ rw (clean_step, e1) h
  | inr e1 ↦ elim (Bool-cases (bytes_eq part (codes "."))) [
    | inl e2 ↦ rw (clean_step, e1, e2) h
    | inr e2 ↦ elim (Bool-cases (bytes_eq part (codes ".."))) [
      | inl e3 ↦ rw (clean_step, e1, e2, e3) (go stack h)
      | inr e3 ↦
          rw (clean_step, e1, e2, e3)
            (record { lacks_slash = l; not_empty = e1; not_dot = e2; not_dot_dot = e3 }, h)
    ]
  ]
]
  where
    go :
        (stack : List Bytes)
        → All IsComponent stack
        → All IsComponent (elim stack [
          | [] ↦ if true then [] else codes ".." ∷ []
          | top ∷ rest ↦ if bytes_eq top (codes "..") then codes ".." ∷ top ∷ rest else rest
        ])
    go [] _ = tt
    go (top ∷ rest) (ht, hr) = rw (ht.not_dot_dot) hr

reverse-All : (P : Bytes → Type 0) (xs : List Bytes) → All P xs → All P (reverse xs)
reverse-All P [] _ = tt
reverse-All P (x ∷ xs) (hx, hs) =
    subst (All P) (sym (reverse-cons x xs))
      (All-append P (reverse xs) (x ∷ []) (reverse-All P xs hs) (hx, tt))

clean_parts-IsComponent :
    (parts stack : List Bytes)
    → All (Lacks slash) parts
    → All IsComponent stack
    → All IsComponent (clean_parts true stack parts)
unfolding clean_parts
clean_parts-IsComponent [] stack _ h = reverse-All IsComponent stack h
clean_parts-IsComponent (part ∷ parts) stack (l, ls) h =
    clean_parts-IsComponent parts (clean_step true stack part) ls
      (clean_step-IsComponent stack part h l)

trim_left-join :
    (parts : List Bytes)
    → All IsComponent parts
    → trim_left (λ c. c == slash) (join parts slash) ≡ join parts slash
unfolding trim_left join bytes_eq
trim_left-join [] _ = refl
trim_left-join ([] ∷ ps) (h, _) = absurd (true-ne-false h.not_empty)
trim_left-join ((c ∷ s) ∷ []) (h, _) = rw (==_false c slash h.lacks_slash.0) refl
trim_left-join ((c ∷ s) ∷ q ∷ ps) (h, _) = rw (==_false c slash h.lacks_slash.0) refl

-- A path that begins with a slash is normalised to names, joined by slashes, of which none is empty,
-- `.` or `..`, or holds a slash: it does not lead out of the archive.
pub norm_path-IsComponent :
    (p : Bytes)
    → (parts : List Bytes) × (norm_path (slash ∷ p) ≡ join parts slash) × All IsComponent parts
unfolding norm_path clean trim_left split
norm_path-IsComponent p =
    let parts = clean_parts true [] (split (slash ∷ p) slash) in
    let h : All IsComponent parts =
      clean_parts-IsComponent (split (slash ∷ p) slash) []
        (split_onto-Lacks slash [] (slash ∷ p) tt) tt in
    (parts, trim_left-join parts h, h)
