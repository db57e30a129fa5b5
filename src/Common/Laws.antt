-- ===== src/Common/Laws.antt =====
-- What the rounding of positions gives, for positions far enough below the end of `uint64`.
use magiskboot_go.Base.{ℕ, ◌+◌, ◌-◌, ◌*◌, ◌/◌, ◌%◌, ◌≤◌, ◌<◌, ◌≡◌, arith}
use magiskboot_go.Base.{ret, u64_mod}
use magiskboot_go.Common.{align_to, align_padding, align_4}

-- The rounded value in plain numbers.
ceiling_bounds : (v a : ℕ) → 0 < a → (v ≤ (v + a - 1) / a * a) × ((v + a - 1) / a * a < v + a)
ceiling_bounds v a h = (omega (arith, d, m), omega (arith, d, m))
  where
    d : (v + a - 1) / a * a + (v + a - 1) % a ≡ v + a - 1
    d = omega arith

    m : (v + a - 1) % a < a
    m = omega arith

-- Where `v + a` fits in 64 bits, `align_to` returns the multiple of `a` that lies in `v .. v + a - 1`.
pub align_to_bounds :
    (v a : ℕ)
    → 0 < a
    → v + a < u64_mod
    → (q : ℕ) × (align_to v a ≡ ret (q * a)) × (v ≤ q * a) × (q * a < v + a)
unfolding align_to
align_to_bounds v a h fits = (
  (v + a - 1) / a,
  ground (arith, ceiling_bounds v a h),
  (ceiling_bounds v a h).0,
  (ceiling_bounds v a h).1,
)

-- The padding behind `v` is the gap to the aligned position, and is shorter than the alignment.
align_padding_fills :
    (v a : ℕ)
    → 0 < a
    → v + a < u64_mod
    → (p : ℕ) × (align_padding v a ≡ ret p) × (align_to v a ≡ ret (v + p)) × (p < a)
unfolding align_padding align_to
align_padding_fills v a h fits = (
  (v + a - 1) / a * a - v,
  ground (arith, ceiling_bounds v a h),
  ground (arith, ceiling_bounds v a h),
  ground (arith, ceiling_bounds v a h),
)

-- `align_4` gives the multiple of four in `x .. x + 3`.
pub align_4_bounds :
    (x : ℕ) → x + 3 < u64_mod → (x ≤ align_4 x) × (align_4 x < x + 4) × (align_4 x % 4 ≡ 0)
unfolding align_4
align_4_bounds x h = (omega arith, omega arith, omega arith)

-- The two ways to round to four bytes agree.
align_4-align_to : (x : ℕ) → x + 4 < u64_mod → align_to x 4 ≡ ret (align_4 x)
unfolding align_4 align_to
align_4-align_to x h = ground arith
