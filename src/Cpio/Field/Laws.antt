-- ===== src/Cpio/Field/Laws.antt =====
-- A written field is read back.
use native.Mathlib.Nat.{pow-suc}
use magiskboot_go.Base.{ℕ, zero, suc, ◌+◌, ◌*◌, ◌/◌, ◌%◌, ◌^◌, ◌<◌, ◌≡◌, refl, arith, [], ◌∷◌, ◌++◌}
use magiskboot_go.Base.{some, Bytes, length, length-append, append_assoc, append-nil, ap, lt→ltb}
use magiskboot_go.Cpio.Field.{
  digit_value, read_digits, x8u, parsed, digit, low_digits, x08, x8u_or_zero,
}

digit_value-digit : (d : ℕ) → d < 16 → digit_value (digit d) ≡ some d
unfolding digit_value digit
digit_value-digit d h = ground arith

pub length-low_digits : (k n : ℕ) → length (low_digits k n) ≡ k
unfolding low_digits
length-low_digits zero n = refl
length-low_digits (suc k) n = omega (
  arith,
  length-append (low_digits k (n / 16)) (digit (n % 16) ∷ []),
  length-low_digits k (n / 16),
)

-- Reading goes on behind the digits of a number that fits.
read_digits-low_digits :
    (k n m : ℕ) (rest : Bytes)
    → n < 16 ^ k
    → read_digits (low_digits k n ++ rest) m ≡ read_digits rest (m * 16 ^ k + n)
unfolding read_digits low_digits
read_digits-low_digits zero n m rest h = let e : m * 16 ^ 0 + n ≡ m = omega arith in rw e refl
read_digits-low_digits (suc k) n m rest h =
    rw (append_assoc (low_digits k (n / 16)) (digit (n % 16) ∷ []) rest) (
      rw (read_digits-low_digits k (n / 16) m (digit (n % 16) ∷ rest) (omega (arith, pow-suc 16 k)))
        (rw (read_digits, digit_value-digit (n % 16) (omega arith))
          (ap (read_digits rest)
            (omega (arith, pow-suc 16 k, ap (λ (t : ℕ). m * t) (pow-suc 16 k))))))

pub x08_small : (n : ℕ) → n < 2 ^ 32 → x08 n ≡ low_digits 8 n
unfolding x08
x08_small n h = rw (lt→ltb n (2 ^ 32) h)

-- A field of a number that fits in 32 bits has eight bytes.
pub length-x08 : (n : ℕ) → n < 2 ^ 32 → length (x08 n) ≡ 8
length-x08 n h = rw (x08_small n h) (length-low_digits 8 n)

read_digits-x08 : (n : ℕ) → n < 2 ^ 32 → read_digits (x08 n) 0 ≡ some n
unfolding read_digits
read_digits-x08 n h =
    rw (x08_small n h, ← append-nil (low_digits 8 n), read_digits-low_digits 8 n 0 [] h)
      (ap some (omega arith))

-- A `uint32` that is written as a field is read back.
pub x8u-x08 : (n : ℕ) → n < 2 ^ 32 → x8u (x08 n) ≡ parsed n
unfolding x8u
x8u-x08 n h = rw (length-x08 n h, read_digits-x08 n h)

pub x8u_or_zero-x08 : (n : ℕ) → n < 2 ^ 32 → x8u_or_zero (x08 n) ≡ n
unfolding x8u_or_zero
x8u_or_zero-x08 n h = rw (x8u_or_zero, x8u-x08 n h)
