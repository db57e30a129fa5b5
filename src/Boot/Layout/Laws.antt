-- ===== src/Boot/Layout/Laws.antt =====
-- A layout is a bijection between the values that fit and the byte strings of its size.
use magiskboot_go.Base.{ℕ, zero, suc, ◌+◌, ◌*◌, ◌≤◌, ◌≡◌, refl, sym, ap, ◌∙◌, arith}
use magiskboot_go.Base.{
  List, [], ◌∷◌, ◌++◌, All, Bytes, length, take, drop, length-append, length-drop, length-take,
  take-append, drop-append, append_assoc,
}
use native.Mathlib.Nat.{suc-mul}
use magiskboot_go.Base.{IsByte, length-to_le, from_le-to_le, from_le-lt, to_le-from_le}
use magiskboot_go.Boot.Layout.{Layout, uint, array, read_many, write_many, many, ◌⊗◌, struct}

pub record IsLawful {A : Type 0} (l : Layout A) : Type 0 where
  pub length_write : (a : A) → l.Fits a → length (l.write a) ≡ l.size
  pub read_write : (a : A) (rest : Bytes) → l.Fits a → l.read (l.write a ++ rest) ≡ a
  pub read_Fits : (b : Bytes) → All IsByte b → l.size ≤ length b → l.Fits (l.read b)
  pub write_read :
      (b : Bytes) → All IsByte b → l.size ≤ length b → l.write (l.read b) ≡ take l.size b

pub uint-IsLawful : (w : ℕ) → IsLawful (uint w)
uint-IsLawful w = record {
  length_write = λ n h. length-to_le w n;
  read_write = λ n rest h. from_le-to_le w n rest h;
  read_Fits = λ b h l. from_le-lt w b h l;
  write_read = λ b h l. to_le-from_le w b h l;
}

pub array-IsLawful : (n : ℕ) → IsLawful (array n)
array-IsLawful n = record {
  length_write = λ s h. h;
  read_write = λ s rest h. take-append n s rest h;
  read_Fits = λ b h l. omega (arith, length-take n b);
  write_read = λ b h l. refl;
}

-- What is left behind a field.
All-drop : (n : ℕ) (b : Bytes) → All IsByte b → All IsByte (drop n b)
All-drop zero b h = h
All-drop (suc n) [] h = h
All-drop (suc n) (c ∷ b) (h, hs) = All-drop n b hs

take-nil : (n : ℕ) → take {A = ℕ} n [] ≡ []
take-nil zero = refl
take-nil (suc n) = refl

take-add : (m n : ℕ) (b : Bytes) → take m b ++ take n (drop m b) ≡ take (m + n) b
take-add zero n b = ap (λ k. take k b) (omega arith)
take-add (suc m) n [] = take-nil n ∙ sym (take-nil (suc m + n))
take-add (suc m) n (c ∷ b) =
    let k : suc (m + n) ≡ suc m + n = omega arith in
    ap (λ (t : Bytes). c ∷ t) (take-add m n b) ∙ ap (λ (i : ℕ). take i (c ∷ b)) k

module _ {A B : Type 0} {l : Layout A} {m : Layout B} (hl : IsLawful l) (hm : IsLawful m) where
  pub ⊗-IsLawful : IsLawful (l ⊗ m)
  ⊗-IsLawful = record {
    length_write = λ (a, b) (fa, fb).
        omega (
          arith,
          length-append (l.write a) (m.write b),
          hl.length_write a fa,
          hm.length_write b fb,
        );
    read_write = λ (a, b) rest (fa, fb).
        rw
          (
            append_assoc (l.write a) (m.write b) rest,
            hl.read_write a (m.write b ++ rest) fa,
            drop-append l.size (l.write a) (m.write b ++ rest) (hl.length_write a fa),
            hm.read_write b rest fb,
          )
          refl;
    read_Fits = λ s h e. (
      hl.read_Fits s h (omega arith),
      hm.read_Fits (drop l.size s) (All-drop l.size s h) (omega (arith, length-drop l.size s)),
    );
    write_read = λ s h e.
        rw
          (
            hl.write_read s h (omega arith),
            hm.write_read (drop l.size s) (All-drop l.size s h)
                (omega (arith, length-drop l.size s)),
          )
          (take-add l.size m.size s);
  }

pub struct-IsLawful :
    {A B : Type 0} (make : A → B) (fields : B → A) {l : Layout A}
    → IsLawful l
    → ((s : B) → make (fields s) ≡ s)
    → ((t : A) → fields (make t) ≡ t)
    → IsLawful (struct make fields l)
struct-IsLawful make fields hl back forth = record {
  length_write = λ s h. hl.length_write (fields s) h;
  read_write = λ s rest h. ap make (hl.read_write (fields s) rest h) ∙ back s;
  read_Fits = λ b h e. rw (forth _) (hl.read_Fits b h e);
  write_read = λ b h e. rw (forth _) (hl.write_read b h e);
}

module _ {A : Type 0} {l : Layout A} (hl : IsLawful l) where
  length-write_many :
      (n : ℕ) (xs : List A) → length xs ≡ n → All l.Fits xs → length (write_many l xs) ≡ n * l.size
  unfolding write_many
  length-write_many zero [] h _ = omega arith
  length-write_many (suc n) (x ∷ xs) h (f, fs) = omega (
    arith,
    length-append (l.write x) (write_many l xs),
    hl.length_write x f,
    length-write_many n xs (omega arith) fs,
    suc-mul n l.size,
  )
  length-write_many zero (x ∷ xs) h _ = absurd (omega arith)
  length-write_many (suc n) [] h _ = absurd (omega arith)

  read_many-write_many :
      (n : ℕ) (xs : List A) (rest : Bytes)
      → length xs ≡ n
      → All l.Fits xs
      → read_many l n (write_many l xs ++ rest) ≡ xs
  unfolding read_many write_many
  read_many-write_many zero [] rest h _ = refl
  read_many-write_many zero (x ∷ xs) rest h _ = absurd (omega arith)
  read_many-write_many (suc n) [] rest h _ = absurd (omega arith)
  read_many-write_many (suc n) (x ∷ xs) rest h (f, fs) =
      rw
        (
          append_assoc (l.write x) (write_many l xs) rest,
          hl.read_write x (write_many l xs ++ rest) f,
          drop-append l.size (l.write x) (write_many l xs ++ rest) (hl.length_write x f),
          read_many-write_many n xs rest (omega arith) fs,
        )
        refl

  read_many-Fits :
      (n : ℕ) (b : Bytes)
      → All IsByte b
      → n * l.size ≤ length b
      → (length (read_many l n b) ≡ n) × All l.Fits (read_many l n b)
  unfolding read_many
  read_many-Fits zero b h e = (refl, tt)
  read_many-Fits (suc n) b h e =
      let room : l.size + n * l.size ≤ length b = omega (arith, suc-mul n l.size) in
      let (k, fs) =
        read_many-Fits n (drop l.size b) (All-drop l.size b h)
          (omega (arith, length-drop l.size b)) in
      (omega arith, (hl.read_Fits b h (omega arith), fs))

  write_many-read_many :
      (n : ℕ) (b : Bytes)
      → All IsByte b
      → n * l.size ≤ length b
      → write_many l (read_many l n b) ≡ take (n * l.size) b
  unfolding read_many write_many
  write_many-read_many zero b h e =
      let z : 0 ≡ 0 * l.size = omega arith in ap (λ (i : ℕ). take i b) z
  write_many-read_many (suc n) b h e =
      let room : l.size + n * l.size ≡ suc n * l.size = omega (arith, suc-mul n l.size) in
      rw
        (
          hl.write_read b h (omega arith),
          write_many-read_many n (drop l.size b) (All-drop l.size b h)
              (omega (arith, length-drop l.size b)),
        )
        (take-add l.size (n * l.size) b ∙ ap (λ (i : ℕ). take i b) room)

  pub many-IsLawful : (n : ℕ) → IsLawful (many n l)
  many-IsLawful n = record {
    length_write = λ xs (e, fs). length-write_many n xs e fs;
    read_write = λ xs rest (e, fs). read_many-write_many n xs rest e fs;
    read_Fits = λ b h e. read_many-Fits n b h e;
    write_read = λ b h e. write_many-read_many n b h e;
  }
