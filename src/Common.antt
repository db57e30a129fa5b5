-- ===== src/Common.antt =====
-- common.go, and `align_4` of cpio.go: rounding of file positions, in `uint64`.
pub mod Laws
use magiskboot_go.Base.{ℕ, ◌+◌, ◌-◌, ◌*◌, ◌/◌, ◌%◌, ◌^◌}
use magiskboot_go.Base.{Outcome, ret, panic, ◌>>=◌, add64, sub64, mul64, ◌==◌, if◌then◌else◌}

-- `(v + a - 1) / a * a`: a division by zero panics.
unfoldable pub align_to : ℕ → ℕ → Outcome ℕ
align_to v a = if a == 0 then panic else ret (mul64 (sub64 (add64 v a) 1 / a) a)

unfoldable pub align_padding : ℕ → ℕ → Outcome ℕ
unfolding align_to
align_padding v a = do w ← align_to v a; ret (sub64 w v)

-- `(x + 3) &^ 3`.
unfoldable pub align_4 : ℕ → ℕ
align_4 x = add64 x 3 / 4 * 4
