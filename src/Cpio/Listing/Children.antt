-- ===== src/Cpio/Listing/Children.antt =====
-- Which keys `Ls` lists.
use magiskboot_go.Base.{
  ap, sym, ◌∙◌, bytes_eq_sound, Bool-cases, drop-append, append-nil, ◌≡◌, ◌↔◌, ◌⊎◌, inl, inr, refl,
  arith, Bool, true, false, ◌&&◌, List, [], ◌∷◌, ◌++◌,
}
use magiskboot_go.Base.{Bytes, has_prefix, has_prefix-append, contains, length, drop, if◌then◌else◌}
use magiskboot_go.Cpio.{Cpio}
use magiskboot_go.Cpio.Path.{norm_path, slash}
use magiskboot_go.Cpio.Listing.{
  count_slashes, is_empty, passes, is_listed, listed_path, list_names, ls,
}

-- A name inside a folder; the root has the empty name.
abbrev pub inside : Bytes → Bytes → Bytes
inside [] rest = rest
inside (c ∷ q) rest = (c ∷ q) ++ slash ∷ rest

-- What a name must be to be listed: the folder itself, or a name below it, which is one of its own
-- unless the listing is recursive.
abbrev pub Belongs : Bytes → Bool → Bytes → Type 0
Belongs q recursive name =
    (name ≡ q)
    ⊎ ((rest : Bytes) × (name ≡ inside q rest) × ((recursive ≡ true) ⊎ (count_slashes rest ≡ 0)))

has_prefix_sound : (s p : Bytes) → has_prefix s p ≡ true → s ≡ p ++ drop (length p) s
unfolding has_prefix
has_prefix_sound s [] h = refl
has_prefix_sound [] (c ∷ p) h = cc
has_prefix_sound (d ∷ s) (c ∷ p) h = ground (arith, has_prefix_sound s p, h)

-- The part of a name behind the listed path that passes.
abbrev Passes : Bytes → Bool → Type 0
Passes d recursive =
    (d ≡ [])
    ⊎ ((rest : Bytes) × (d ≡ slash ∷ rest) × ((recursive ≡ true) ⊎ (count_slashes rest ≡ 0)))

passes_cases : (d : Bytes) (recursive : Bool) → passes d recursive ≡ true → Passes d recursive
unfolding passes has_prefix count_slashes
passes_cases [] recursive h = inl refl
passes_cases (c ∷ s) true h = inr (s, ground (arith, h), inl refl)
passes_cases (c ∷ s) false h = inr (s, ground (arith, h), inr (ground (arith, h)))

passes_all : (d : Bytes) (recursive : Bool) → Passes d recursive → passes d recursive ≡ true
unfolding passes has_prefix count_slashes
passes_all d recursive (inl e) = rw e (ground arith)
passes_all d recursive (inr (rest, e, inl r)) = rw (e, r) (ground arith)
passes_all d recursive (inr (rest, e, inr n)) = rw e (ground (arith, n))

is_listed-append :
    (p d : Bytes) (recursive : Bool) → is_listed (slash ∷ p) recursive (p ++ d) ≡ passes d recursive
unfolding is_listed has_prefix
is_listed-append p d recursive = rw (has_prefix-append p d, drop-append (length p) p d refl) refl

is_listed_below :
    (p name d : Bytes) (recursive : Bool)
    → name ≡ p ++ d
    → Passes d recursive
    → is_listed (slash ∷ p) recursive name ≡ true
is_listed_below p name d recursive e h =
    rw e (is_listed-append p d recursive ∙ passes_all d recursive h)

is_listed_cases :
    (p name : Bytes) (recursive : Bool)
    → is_listed (slash ∷ p) recursive name ≡ true
    → (d : Bytes) × (name ≡ p ++ d) × Passes d recursive
unfolding is_listed has_prefix
is_listed_cases p name recursive h = elim (Bool-cases (has_prefix name p)) [
  | inl e ↦
      let rest = drop (length p) name in
      (rest, has_prefix_sound name p e, passes_cases rest recursive (ground (arith, h, e)))
  | inr e ↦ absurd (ground (arith, h, e))
]

-- The listed path of a normalised one.
abbrev listed : Bytes → Bytes
listed [] = []
listed (c ∷ q) = slash ∷ c ∷ q

is_listed-Belongs :
    (q : Bytes) (recursive : Bool) (name : Bytes)
    → (is_listed (listed q) recursive name ≡ true) ↔ Belongs q recursive name
unfolding is_listed has_prefix
is_listed-Belongs [] recursive name = (
  λ h. elim (passes_cases (slash ∷ name) recursive h) [
    | inl e ↦ cc
    | inr (rest, e, d) ↦ inr (rest, cc, d)
  ],
  λ b. passes_all (slash ∷ name) recursive (elim b [
    | inl e ↦ inr ([], ap (λ s. slash ∷ s) e, inr (unfold count_slashes in refl))
    | inr (rest, e, d) ↦ inr (rest, ap (λ s. slash ∷ s) e, d)
  ]),
)
is_listed-Belongs (c ∷ q) recursive name = (
  λ h.
      let p = c ∷ q in
      let (rest, e, d) = is_listed_cases p name recursive h in
      elim d [
        | inl none_left ↦ inl (e ∙ ap (λ s. p ++ s) none_left ∙ append-nil p)
        | inr (below, f, r) ↦ inr (below, e ∙ ap (λ s. p ++ s) f, r)
      ],
  λ b.
      let p = c ∷ q in
      elim b [
        | inl e ↦ is_listed_below p name [] recursive (e ∙ sym (append-nil p)) (inl refl)
        | inr (below, e, r) ↦
            is_listed_below p name (slash ∷ below) recursive e (inr (below, refl, r))
      ],
)

contains-list_names :
    (path : Bytes) (recursive : Bool) (names : List Bytes) (name : Bytes)
    → contains (list_names path recursive names) name
      ≡ (contains names name && is_listed path recursive name)
unfolding contains list_names
contains-list_names path recursive [] name = refl
contains-list_names path recursive (x ∷ names) name =
    ground (arith, contains-list_names path recursive names name, bytes_eq_sound x name)

listed_lem : (q : Bytes) → (if is_empty q then q else slash ∷ q) ≡ listed q
listed_lem [] = refl
listed_lem (c ∷ q) = refl

-- The keys that `Ls` lists of a path that is normalised to a given one: those keys of the archive
-- that are this path or are below it, and, unless the listing is recursive, have no further slash
-- behind it.
pub ls-Belongs :
    (c : Cpio) (path : Bytes) (recursive : Bool) (name : Bytes)
    → (contains (ls c path recursive) name ≡ true)
      ↔ ((contains c.keys name ≡ true) × Belongs (norm_path path) recursive name)
unfolding ls listed_path
ls-Belongs c path recursive name =
    let q = norm_path path in
    let below = is_listed-Belongs q recursive name in
    let same =
      contains-list_names (listed_path path) recursive c.keys name
      ∙ ap (λ p. contains c.keys name && is_listed p recursive name) (listed_lem q) in
    (
      λ h. (ground (arith, h, same), below.0 (ground (arith, h, same))),
      λ (k, b). same ∙ ground (arith, k, below.1 b),
    )
