-- ===== src/Base/Strings/Cutting.antt =====
-- Searching, trimming, splitting and slicing of byte strings.
use Prim.Native.Nat.{ℕ, zero, suc, ◌+◌, ◌-◌, ◌≤◌}
use mathlib.Core.Path.{◌≡◌, refl, ap, sym}
use mathlib.Core.Logic.{◌≢◌, ◌⊎◌, inl, inr}
use mathlib.Core.Bool.{Bool, true, false, ◌&&◌}
use mathlib.Core.List.{List, [], ◌∷◌, ◌++◌, append_assoc, append-nil}
use mathlib.Core.Option.{Option, none, some}
use mathlib.Core.Option
use native.Mathlib.Omega.{arith}
use package.magiskboot_go.Base.Tests.{◌==◌, ==_iff, if◌then◌else◌, leb, le→leb, Bool-cases}
use package.magiskboot_go.Base.Lists.{
  length, take, drop, take-append, drop-append, length-append, length-drop,
}
use package.magiskboot_go.Base.Control.{Outcome, ret, panic}
use package.magiskboot_go.Base.Strings.Equality.{Bytes, has_prefix, bytes_eq}

-- `s[lo:hi]` of a slice without spare capacity: it panics out of range.
unfoldable pub slice : Bytes → ℕ → ℕ → Outcome Bytes
slice s lo hi = if leb lo hi && leb hi (length s) then ret (take (hi - lo) (drop lo s)) else panic

-- `s[lo:]`.
unfoldable pub slice_from : Bytes → ℕ → Outcome Bytes
slice_from s lo = if leb lo (length s) then ret (drop lo s) else panic

pub slice_middle :
    (pre mid post : Bytes) (lo hi : ℕ)
    → length pre ≡ lo
    → lo + length mid ≡ hi
    → slice (pre ++ (mid ++ post)) lo hi ≡ ret mid
unfolding slice
slice_middle pre mid post lo hi e f =
    let e' : hi - lo ≡ length mid = omega arith in
    let l' : length (pre ++ (mid ++ post)) ≡ length pre + length mid + length post =
      omega (arith, length-append pre (mid ++ post), length-append mid post) in
    let hi' : hi ≤ length (pre ++ (mid ++ post)) = omega (arith, l') in
    rw (le→leb lo hi (omega arith), le→leb hi (length (pre ++ (mid ++ post))) hi')
      (rw (drop-append lo pre (mid ++ post) e, e', take-append (length mid) mid post refl))

-- `bytes.Index`: where the pattern first stands.
unfoldable pub index : Bytes → Bytes → Option ℕ
unfolding has_prefix
index [] p = if has_prefix [] p then some 0 else none
index (c ∷ s) p =
    let rest = Option.map suc (index s p) in if has_prefix (c ∷ s) p then some 0 else rest

-- `strings.TrimLeft` and `strings.TrimRight`, the set of bytes given by its test.
unfoldable pub trim_left : (ℕ → Bool) → Bytes → Bytes
trim_left p [] = []
trim_left p (c ∷ s) = let rest = trim_left p s in if p c then rest else c ∷ s

unfoldable pub trim_right : (ℕ → Bool) → Bytes → Bytes
trim_right p [] = []
trim_right p (c ∷ s) = push (trim_right p s)
  where
    push : Bytes → Bytes
    push [] = if p c then [] else c ∷ []
    push (d ∷ r) = c ∷ d ∷ r

-- Whether a byte is in a cutset.
unfoldable pub in_set : Bytes → ℕ → Bool
in_set [] c = false
in_set (d ∷ ds) c = let rest = in_set ds c in if d == c then true else rest

-- `strings.HasSuffix(s, p)`.
unfoldable pub has_suffix : Bytes → Bytes → Bool
unfolding bytes_eq
has_suffix s p = leb (length p) (length s) && bytes_eq (drop (length s - length p) s) p

-- `bytes.Split` by one byte; it gives at least one part.
unfoldable pub split_onto : ℕ → Bytes → Bytes → List Bytes
split_onto sep cur [] = cur ∷ []
split_onto sep cur (c ∷ s) = elim (c == sep) [
  | true ↦ cur ∷ split_onto sep [] s
  | false ↦ split_onto sep (cur ++ c ∷ []) s
]

unfoldable pub split : Bytes → ℕ → List Bytes
unfolding split_onto
split s sep = split_onto sep [] s

-- `bytes.Join` with a one-byte separator.
unfoldable pub join : List Bytes → ℕ → Bytes
join [] sep = []
join (p ∷ []) sep = p
join (p ∷ q ∷ ps) sep = p ++ sep ∷ join (q ∷ ps) sep

abbrev pub Lacks : ℕ → Bytes → Type 0
Lacks b [] = Unit
Lacks b (c ∷ s) = (c ≢ b) × Lacks b s

-- A slice is in range, or it panics.
pub slice-cases :
    (s : Bytes) (lo hi : ℕ)
    → (slice s lo hi ≡ panic)
      ⊎ ((r : Bytes) × (slice s lo hi ≡ ret r) × (lo ≤ hi) × (hi ≤ length s))
unfolding slice
slice-cases s lo hi = elim (Bool-cases (leb lo hi && leb hi (length s))) [
  | inl e ↦ inr (take (hi - lo) (drop lo s), rw e, ground arith, ground arith)
  | inr e ↦ inl (rw e)
]

pub slice_from-cases :
    (s : Bytes) (lo : ℕ)
    → (slice_from s lo ≡ panic)
      ⊎ ((r : Bytes) × (slice_from s lo ≡ ret r) × (lo ≤ length s) × (length r ≡ length s - lo))
unfolding slice_from
slice_from-cases s lo = elim (Bool-cases (leb lo (length s))) [
  | inl e ↦ inr (drop lo s, rw e, ground arith, length-drop lo s)
  | inr e ↦ inl (rw e)
]

pub index-le-length : (s p : Bytes) (i : ℕ) → index s p ≡ some i → i ≤ length s
unfolding index
index-le-length [] p i h = ground arith
index-le-length (c ∷ s) p zero h = omega arith
index-le-length (c ∷ s) p (suc i) h = ground (arith, index-le-length s p i)

pub split_onto-ne-nil : (sep : ℕ) (cur s : Bytes) → split_onto sep cur s ≢ []
unfolding split_onto
split_onto-ne-nil sep cur [] = cc
split_onto-ne-nil sep cur (c ∷ s) = ground (arith, split_onto-ne-nil sep (cur ++ c ∷ []) s)

pub join-cons :
    (p : Bytes) (ps : List Bytes) (sep : ℕ) → ps ≢ [] → join (p ∷ ps) sep ≡ p ++ sep ∷ join ps sep
unfolding join
join-cons p [] sep h = absurd (h refl)
join-cons p (q ∷ ps) sep h = refl

pub join-split_onto : (sep : ℕ) (cur s : Bytes) → join (split_onto sep cur s) sep ≡ cur ++ s
unfolding split_onto
join-split_onto sep cur [] = unfold join in sym (append-nil cur)
join-split_onto sep cur (c ∷ s) = elim (Bool-cases (c == sep)) [
  | inl e ↦
      rw
        (
          split_onto,
          e,
          join-cons cur (split_onto sep [] s) sep (split_onto-ne-nil sep [] s),
          join-split_onto sep [] s,
        )
        (ap (λ (x : ℕ). cur ++ x ∷ s) (sym ((==_iff c sep).0 e)))
  | inr e ↦ rw (split_onto, e, join-split_onto sep (cur ++ c ∷ []) s) (append_assoc cur (c ∷ []) s)
]

-- The parts of a split, joined again.
pub join-split : (s : Bytes) (sep : ℕ) → join (split s sep) sep ≡ s
unfolding split
join-split s sep = join-split_onto sep [] s
