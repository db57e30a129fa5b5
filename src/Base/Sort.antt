-- ===== src/Base/Sort.antt =====
-- `sort.Strings` and `slices.Sort` on strings: the sorted list is determined by its elements.
use Prim.Native.Nat.{ℕ, ◌+◌, ◌≤◌}
use mathlib.Core.Bool.{true}
use mathlib.Core.Path.{◌≡◌, refl}
use mathlib.Core.List.{List, [], ◌∷◌, ◌++◌}
use native.Mathlib.Omega.{arith}
use magiskboot_go.Base.Tests.{if◌then◌else◌}
use magiskboot_go.Base.Strings.{Bytes, bytes_eq, bytes_leb, contains}

unfoldable pub insert_sorted : Bytes → List Bytes → List Bytes
unfolding bytes_leb
insert_sorted k [] = k ∷ []
insert_sorted k (x ∷ xs) =
    let rest = insert_sorted k xs in if bytes_leb k x then k ∷ x ∷ xs else x ∷ rest

unfoldable pub sort : List Bytes → List Bytes
unfolding insert_sorted
sort [] = []
sort (x ∷ xs) = insert_sorted x (sort xs)

-- How often a key is listed.
unfoldable pub count : Bytes → List Bytes → ℕ
unfolding bytes_eq
count k [] = 0
count k (x ∷ xs) = let rest = count k xs in if bytes_eq x k then rest + 1 else rest

pub count-append : (k : Bytes) (xs ys : List Bytes) → count k (xs ++ ys) ≡ count k xs + count k ys
unfolding count
count-append k [] ys = omega arith
count-append k (x ∷ xs) ys = ground (arith, count-append k xs ys)

pub count-insert_sorted :
    (k x : Bytes) (xs : List Bytes)
    → count k (insert_sorted x xs) ≡ (if bytes_eq x k then 1 else 0) + count k xs
unfolding count insert_sorted
count-insert_sorted k x [] = ground arith
count-insert_sorted k x (y ∷ ys) = ground (arith, count-insert_sorted k x ys)

-- Sorting keeps every key as often as it was listed.
pub count-sort : (k : Bytes) (xs : List Bytes) → count k (sort xs) ≡ count k xs
unfolding sort count
count-sort k [] = refl
count-sort k (x ∷ xs) = ground (arith, count-insert_sorted k x (sort xs), count-sort k xs)

pub count-contains : (k : Bytes) (xs : List Bytes) → 1 ≤ count k xs → contains xs k ≡ true
unfolding count contains
count-contains k [] h = absurd (omega arith)
count-contains k (x ∷ xs) h = ground (arith, count-contains k xs, h)
