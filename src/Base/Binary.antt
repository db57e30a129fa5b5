-- ===== src/Base/Binary.antt =====
-- Numbers as bytes, the lowest first.
use Prim.Native.Nat.{ℕ, zero, suc, ◌+◌, ◌*◌, ◌/◌, ◌%◌, ◌^◌, ◌≤◌, ◌<◌}
use mathlib.Core.Path.{◌≡◌, refl}
use mathlib.Core.List.{[], ◌∷◌, ◌++◌}
use native.Mathlib.Nat.{pow-suc}
use native.Mathlib.Omega.{arith}
use package.magiskboot_go.Base.Lists.{All, length, take}
use package.magiskboot_go.Base.Strings.{Bytes}

-- A number of `w` bytes, the lowest first.
unfoldable pub to_le : ℕ → ℕ → Bytes
to_le zero n = []
to_le (suc w) n = n % 256 ∷ to_le w (n / 256)

unfoldable pub from_le : Bytes → ℕ
from_le [] = 0
from_le (c ∷ s) = c + 256 * from_le s

abbrev pub IsByte : ℕ → Type 0
IsByte c = c < 256

pub length-to_le : (w n : ℕ) → length (to_le w n) ≡ w
unfolding to_le
length-to_le zero n = refl
length-to_le (suc w) n = omega (arith, length-to_le w (n / 256))

pub from_le-to_le :
    (w n : ℕ) (rest : Bytes) → n < 256 ^ w → from_le (take w (to_le w n ++ rest)) ≡ n
unfolding to_le from_le
from_le-to_le zero n rest h = omega arith
from_le-to_le (suc w) n rest h =
    omega (arith, from_le-to_le w (n / 256) rest (omega (arith, pow-suc 256 w)))

pub from_le-lt : (w : ℕ) (b : Bytes) → All IsByte b → w ≤ length b → from_le (take w b) < 256 ^ w
unfolding from_le
from_le-lt zero b h l = omega arith
from_le-lt (suc w) [] h l = absurd (omega arith)
from_le-lt (suc w) (c ∷ b) (h, hs) l = omega (arith, pow-suc 256 w, from_le-lt w b hs (omega arith))

pub to_le-from_le :
    (w : ℕ) (b : Bytes) → All IsByte b → w ≤ length b → to_le w (from_le (take w b)) ≡ take w b
unfolding to_le from_le
to_le-from_le zero b h l = refl
to_le-from_le (suc w) [] h l = absurd (omega arith)
to_le-from_le (suc w) (c ∷ b) (h, hs) l =
    let x = from_le (take w b) in
    let low : (c + 256 * x) % 256 ≡ c = omega arith in
    let high : (c + 256 * x) / 256 ≡ x = omega arith in
    rw (low, high, to_le-from_le w b hs (omega arith))
