-- ===== src/Cpio/RoundTrip/Header.antt =====
-- The fields of a written header are read back.
use magiskboot_go.Base.{ℕ, zero, suc, ◌+◌, ◌*◌, ◌≡◌, refl, arith}
use magiskboot_go.Base.{List, [], ◌∷◌, ◌++◌, some}
use magiskboot_go.Base.{Bytes, length, take, drop, get_elem?, take-append, All}
use magiskboot_go.Cpio.Field.{x08}
use magiskboot_go.Cpio.Field.Laws.{length-x08}
use magiskboot_go.Cpio.Load.{cpio_magic, field}
use magiskboot_go.Cpio.Dump.{fields, header}
use magiskboot_go.Cpio.Dump.Image.{Fits}

drop-skip : (k n : ℕ) (xs ys : Bytes) → length xs ≡ n → drop (n + k) (xs ++ ys) ≡ drop k ys
drop-skip k zero [] ys h = let e : 0 + k ≡ k = omega arith in rw e
drop-skip k zero (x ∷ xs) ys h = absurd (omega arith)
drop-skip k (suc n) [] ys h = absurd (omega arith)
drop-skip k (suc n) (x ∷ xs) ys h =
    let e : suc n + k ≡ suc (n + k) = omega arith in rw e (drop-skip k n xs ys (omega arith))

take-drop-fields :
    (ns : List ℕ) (i n : ℕ)
    → All Fits ns
    → get_elem? ns i ≡ some n
    → take 8 (drop (8 * i) (fields ns)) ≡ x08 n
unfolding fields
take-drop-fields [] i n _ h = cc
take-drop-fields (m ∷ ns) zero n (f, fs) h =
    let e : m ≡ n = cc in rw (take-append 8 (x08 m) (fields ns) (length-x08 m f), e)
take-drop-fields (m ∷ ns) (suc i) n (f, fs) h =
    let e : 8 * suc i ≡ 8 + 8 * i = omega arith in
    rw (e, drop-skip (8 * i) 8 (x08 m) (fields ns) (length-x08 m f)) (take-drop-fields ns i n fs h)

-- The field that holds the number `n`.
pub field-header :
    (ns : List ℕ) (i n : ℕ)
    → All Fits ns
    → get_elem? ns i ≡ some n
    → field (header ns) (6 + 8 * i) ≡ x08 n
unfolding field header
field-header ns i n fs h =
    rw (drop-skip (8 * i) 6 cpio_magic (fields ns) refl) (take-drop-fields ns i n fs h)
