-- ===== src/Base/Order.antt =====
-- The order of byte strings is a strict order, and decides equality.
use Prim.Native.Nat.{Ordering}
use mathlib.Core.Path.{◌≡◌, refl}
use mathlib.Core.Bool.{false}
use mathlib.Core.List.{List, [], ◌∷◌}
use native.Mathlib.Omega.{arith}
use magiskboot_go.Base.Lists.{All}
use magiskboot_go.Base.Strings.{Bytes, bytes_eq, bytes_compare}

abbrev pub Before : Bytes → Bytes → Type 0
Before s t = bytes_compare s t ≡ Ordering.lt

pub bytes_compare_refl : (s : Bytes) → bytes_compare s s ≡ Ordering.eq
unfolding bytes_compare
bytes_compare_refl [] = refl
bytes_compare_refl (c ∷ s) = ground (arith, bytes_compare_refl s)

pub bytes_compare_eq : (s t : Bytes) → bytes_compare s t ≡ Ordering.eq → s ≡ t
unfolding bytes_compare
bytes_compare_eq [] [] h = refl
bytes_compare_eq [] (d ∷ t) h = cc
bytes_compare_eq (c ∷ s) [] h = cc
bytes_compare_eq (c ∷ s) (d ∷ t) h = ground (arith, bytes_compare_eq s t)

pub bytes_compare_gt : (s t : Bytes) → bytes_compare s t ≡ Ordering.gt → Before t s
unfolding bytes_compare
bytes_compare_gt [] [] h = cc
bytes_compare_gt [] (d ∷ t) h = cc
bytes_compare_gt (c ∷ s) [] h = refl
bytes_compare_gt (c ∷ s) (d ∷ t) h = ground (arith, bytes_compare_gt s t)

pub Before-trans : (s t u : Bytes) → Before s t → Before t u → Before s u
unfolding bytes_compare
Before-trans [] [] [] h k = cc
Before-trans [] [] (e ∷ u) h k = k
Before-trans [] (d ∷ t) [] h k = cc
Before-trans [] (d ∷ t) (e ∷ u) h k = refl
Before-trans (c ∷ s) [] u h k = cc
Before-trans (c ∷ s) (d ∷ t) [] h k = cc
Before-trans (c ∷ s) (d ∷ t) (e ∷ u) h k = ground (arith, Before-trans s t u)

pub Before-ne : (s t : Bytes) → Before s t → bytes_eq s t ≡ false
unfolding bytes_compare bytes_eq
Before-ne [] [] h = cc
Before-ne [] (d ∷ t) h = refl
Before-ne (c ∷ s) [] h = refl
Before-ne (c ∷ s) (d ∷ t) h = ground (arith, Before-ne s t)

pub Before-ne_sym : (s t : Bytes) → Before s t → bytes_eq t s ≡ false
unfolding bytes_compare bytes_eq
Before-ne_sym [] [] h = cc
Before-ne_sym [] (d ∷ t) h = refl
Before-ne_sym (c ∷ s) [] h = refl
Before-ne_sym (c ∷ s) (d ∷ t) h = ground (arith, Before-ne_sym s t)

-- A string before all of a list.
pub All-Before-trans :
    (s t : Bytes) (us : List Bytes) → Before s t → All (Before t) us → All (Before s) us
All-Before-trans s t [] h _ = tt
All-Before-trans s t (u ∷ us) h (k, ks) = (Before-trans s t u h k, All-Before-trans s t us h ks)

-- The keys ascend.
abbrev pub Ascending : List Bytes → Type 0
Ascending [] = Unit
Ascending (s ∷ ss) = All (Before s) ss × Ascending ss
