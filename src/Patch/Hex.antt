-- ===== src/Patch/Hex.antt =====
-- `HexPatch`: every place where a pattern stands in a file is overwritten.
pub mod Laws
use magiskboot_go.Base.{
  ℕ, zero, suc, ◌+◌, ◌*◌, Bool, true, false, ◌&&◌, ◌||◌, List, [], ◌∷◌, ◌++◌, Option, none, some,
}
use magiskboot_go.Base.{Bytes, codes, length, ◌≡◌, refl}
use magiskboot_go.Base.{Outcome, ret, panic, fatal, ◌>>=◌, ◌==◌, if◌then◌else◌}
use magiskboot_go.Cpio.Field.{digit_value}

-- `hex.DecodeString`.
unfoldable pub decode_string : Bytes → Option Bytes
unfolding digit_value
decode_string [] = some []
decode_string (a ∷ []) = none
decode_string (a ∷ b ∷ s) = elim (digit_value a) [
  | none ↦ none
  | some x ↦ elim (digit_value b) [
    | none ↦ none
    | some y ↦ elim (decode_string s) [ none ↦ none | some r ↦ some ((x * 16 + y) ∷ r) ]
  ]
]

-- The inner loop: the pattern's bytes against the bytes of the file from a position on. It panics
-- where it runs over the end of the file before it meets a difference.
unfoldable pub matches : Bytes → Bytes → Outcome Bool
matches [] rest = ret true
matches (f ∷ fs) [] = panic
matches (f ∷ fs) (c ∷ rest) = let more = matches fs rest in if f == c then more else ret false

-- The test at one position: `from_b[0]` panics for an empty pattern.
unfoldable pub matches_at : Bytes → Bytes → Outcome Bool
unfolding matches
matches_at [] rest = panic
matches_at (f ∷ fs) rest = matches (f ∷ fs) rest

-- `copy(m[i:], to_b)`.
unfoldable pub overwrite : Bytes → Bytes → Bytes
overwrite [] to = []
overwrite (c ∷ rest) [] = c ∷ rest
overwrite (c ∷ rest) (t ∷ to) = t ∷ overwrite rest to

unfoldable pub patch_here : Bool → Bytes → Bytes → Bytes
unfolding overwrite
patch_here hit to rest = if hit then overwrite rest to else rest

-- What is left of the file behind a round, given the rounds after it.
abbrev pub next_round : (Bytes → Outcome (Bytes × Bool)) → Bool → Bytes → Outcome (Bytes × Bool)
next_round later hit [] = ret ([], hit)
next_round later hit (c ∷ rest) = later rest >>= λ r. ret (c ∷ r.0, hit || r.1)

-- The loop over the positions: the rounds left, and the file from the position on. The result is
-- that part of the file, and whether a place was patched.
unfoldable pub patch_loop : Bytes → Bytes → ℕ → Bytes → Outcome (Bytes × Bool)
unfolding matches_at patch_here
patch_loop from to zero rest = ret (rest, false)
patch_loop from to (suc n) rest =
    matches_at from rest >>= λ hit. next_round (patch_loop from to n) hit (patch_here hit to rest)

-- `HexPatch(file, from, to)`, on what opening and mapping the file gives: its bytes, or an error.
unfoldable pub hex_patch : Option Bytes → Bytes → Bytes → Outcome (Bytes × Bool)
unfolding patch_loop decode_string
hex_patch file from to = elim file [
  | none ↦ fatal
  | some m ↦ elim (decode_string from) [
    | none ↦ fatal
    | some from_b ↦ elim (decode_string to) [
      | none ↦ fatal
      | some to_b ↦ patch_loop from_b to_b (length m) m
    ]
  ]
]

-- The repository's own test.
digits_patched :
    hex_patch (some (codes "12345678901234567890")) (codes "31323334") (codes "35363738")
    ≡ ret (codes "56785678905678567890", true)
unfolding hex_patch
digits_patched = refl
