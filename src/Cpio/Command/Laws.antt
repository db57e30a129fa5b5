-- ===== src/Cpio/Command/Laws.antt =====
-- The modes that the commands accept.
use magiskboot_go.Base.{
  ℕ, ◌-◌, ◌%◌, ◌^◌, ◌≤◌, ◌<◌, ◌≡◌, arith, [], ◌∷◌, Bytes, Option, none, some, ret, u32_mod,
}
use magiskboot_go.Cpio.Command.{parse_mode, at_most, nonempty_octal}

at_most_bound :
    (top : ℕ) (f : ℕ → ℕ) (o : Option ℕ) (n : ℕ)
    → ((k : ℕ) → k ≤ top → f k < u32_mod)
    → at_most top f o ≡ ret n
    → n < u32_mod
at_most_bound top f none n bound h = cc
at_most_bound top f (some k) n bound h = ground (arith, bound k)

-- A mode that is accepted fits in 32 bits.
parse_mode_bound : (s : Bytes) (n : ℕ) → parse_mode s ≡ ret n → n < u32_mod
unfolding parse_mode
parse_mode_bound [] n h = cc
parse_mode_bound (c ∷ s) n h = ground (
  arith,
  at_most_bound (2 ^ 31) (λ k. (u32_mod - k) % u32_mod) (nonempty_octal s) n (λ k l. omega arith),
  at_most_bound (2 ^ 31 - 1) (λ k. k) (nonempty_octal s) n (λ k l. omega arith),
  at_most_bound (2 ^ 31 - 1) (λ k. k) (nonempty_octal (c ∷ s)) n (λ k l. omega arith),
)
