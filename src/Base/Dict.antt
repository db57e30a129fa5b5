-- ===== src/Base/Dict.antt =====
-- A Go `map[string]V`, as an association list. Proofs elsewhere go by the laws.
use mathlib.Core.Path.{◌≡◌, refl}
use mathlib.Core.List.{List, [], ◌∷◌}
use mathlib.Core.Option.{Option, none, some}
use native.Mathlib.Omega.{arith}
use magiskboot_go.Base.Tests.{if◌then◌else◌}
use magiskboot_go.Base.Strings.{Bytes, bytes_eq, bytes_eq_iff}

abbrev pub Dict {ℓ} : Type ℓ → Type ℓ
Dict V = List (Bytes × V)

module _ {ℓ} {V : Type ℓ} where
  unfoldable pub lookup : Bytes → Dict V → Option V
  unfolding bytes_eq
  lookup k [] = none
  lookup k ((j, v) ∷ d) = let rest = lookup k d in if bytes_eq j k then some v else rest

  -- `d[k] = v`.
  unfoldable pub insert : Bytes → V → Dict V → Dict V
  unfolding bytes_eq
  insert k v [] = (k, v) ∷ []
  insert k v ((j, w) ∷ d) =
      let rest = insert k v d in if bytes_eq j k then (k, v) ∷ d else (j, w) ∷ rest

  -- `delete(d, k)`.
  unfoldable pub erase : Bytes → Dict V → Dict V
  unfolding bytes_eq
  erase k [] = []
  erase k ((j, w) ∷ d) = let rest = erase k d in if bytes_eq j k then rest else (j, w) ∷ rest

  abbrev pub keys : Dict V → List Bytes
  keys [] = []
  keys ((k, v) ∷ d) = k ∷ keys d

  pub lookup-insert :
      (k j : Bytes) (v : V) (d : Dict V)
      → lookup j (insert k v d) ≡ (if bytes_eq k j then some v else lookup j d)
  unfolding lookup insert
  lookup-insert k j v [] = refl
  lookup-insert k j v ((i, w) ∷ d) =
      ground (arith, bytes_eq_iff k j, bytes_eq_iff i k, bytes_eq_iff i j, lookup-insert k j v d)

  pub lookup-erase :
      (k j : Bytes) (d : Dict V)
      → lookup j (erase k d) ≡ (if bytes_eq k j then none else lookup j d)
  unfolding lookup erase
  lookup-erase k j [] = ground arith
  lookup-erase k j ((i, w) ∷ d) =
      ground (arith, bytes_eq_iff k j, bytes_eq_iff i k, bytes_eq_iff i j, lookup-erase k j d)
