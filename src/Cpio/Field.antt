-- ===== src/Cpio/Field.antt =====
-- The eight hexadecimal digits of a header's field: `x8u`, and `%08x` of the header that is written.
pub mod Laws
use magiskboot_go.Base.{
  ℕ, zero, suc, ◌+◌, ◌-◌, ◌*◌, ◌/◌, ◌%◌, ◌^◌, Bool, true, false, ◌&&◌, List, [], ◌∷◌, ◌++◌,
}
use magiskboot_go.Base.{Option, none, some, Bytes, length, leb, ltb, ◌==◌, if◌then◌else◌, trim_left}
use magiskboot_go.Cpio.{LoadError, bad_header, bad_number}

-- The value of a hexadecimal digit, of either case.
unfoldable pub digit_value : ℕ → Option ℕ
digit_value c =
    if leb b'0' c && leb c b'9'
    then some (c - b'0')
    else if leb b'a' c && leb c b'f'
    then some (c - b'a' + 10)
    else if leb b'A' c && leb c b'F'
    then some (c - b'A' + 10)
    else none

-- The digits behind the value so far.
unfoldable pub read_digits : Bytes → ℕ → Option ℕ
unfolding digit_value
read_digits [] n = some n
read_digits (c ∷ s) n = elim (digit_value c) [ none ↦ none | some d ↦ read_digits s (n * 16 + d) ]

pub data Parsed : Type 0 where
  parsed : ℕ → Parsed
  failed : LoadError → Parsed

-- `x8u`: eight digits never overflow the 32 bits that `ParseUint` is asked for.
unfoldable pub x8u : Bytes → Parsed
x8u x =
    if length x == 8
    then (elim (read_digits x 0) [ none ↦ failed bad_number | some n ↦ parsed n ])
    else failed bad_header

-- `u, _ := x8u(x)`: the value is 0 where there is an error.
unfoldable pub x8u_or_zero : Bytes → ℕ
x8u_or_zero x = elim (x8u x) [ parsed n ↦ n | failed _ ↦ 0 ]

unfoldable pub digit : ℕ → ℕ
digit d = if ltb d 10 then b'0' + d else b'a' + (d - 10)

-- The last `k` digits of a number.
unfoldable pub low_digits : ℕ → ℕ → Bytes
unfolding digit
low_digits zero n = []
low_digits (suc k) n = low_digits k (n / 16) ++ digit (n % 16) ∷ []

-- `%08x` of a number below `2 ^ 64`: eight digits, or as many as it has.
unfoldable pub x08 : ℕ → Bytes
x08 n = if ltb n (2 ^ 32) then low_digits 8 n else trim_left (λ c. c == b'0') (low_digits 16 n)
