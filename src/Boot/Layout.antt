-- ===== src/Boot/Layout.antt =====
-- `binary.Read` and `binary.Size` of encoding/binary for structs of fixed size: what each kind of
-- field takes, in which order its bytes stand, and what `binary.Write` would put there.
pub mod Laws
use magiskboot_go.Base.{
  ℕ, zero, suc, ◌+◌, ◌*◌, ◌/◌, ◌%◌, ◌^◌, ◌<◌, ◌≡◌, List, [], ◌∷◌, ◌++◌, All, Bytes, length, take,
  drop, to_le, from_le,
}

-- The layout of a type, with the values that it has room for.
pub record Layout (A : Type 0) : Type 1 where
  pub size : ℕ
  pub read : Bytes → A
  pub write : A → Bytes
  pub Fits : A → Type 0

-- An unsigned number of `w` bytes.
abbrev pub uint : ℕ → Layout ℕ
uint w = record {
  size = w;
  read = λ b. from_le (take w b);
  write = to_le w;
  Fits = λ n. n < 256 ^ w;
}

abbrev pub u32 : Layout ℕ
u32 = uint 4

abbrev pub u64 : Layout ℕ
u64 = uint 8

-- `[n]byte`.
abbrev pub array : ℕ → Layout Bytes
array n = record { size = n; read = take n; write = λ s. s; Fits = λ s. length s ≡ n }

-- `[n]T`.
module _ {A : Type 0} (l : Layout A) where
  unfoldable pub read_many : ℕ → Bytes → List A
  read_many zero b = []
  read_many (suc n) b = l.read b ∷ read_many n (drop l.size b)

  unfoldable pub write_many : List A → Bytes
  write_many [] = []
  write_many (a ∷ as') = l.write a ++ write_many as'

abbrev pub many : {A : Type 0} → ℕ → Layout A → Layout (List A)
many n l = record {
  size = n * l.size;
  read = read_many l n;
  write = write_many l;
  Fits = λ xs. (length xs ≡ n) × All l.Fits xs;
}

-- A field, and the fields behind it.
infixr 60 ◌⊗◌
abbrev pub ◌⊗◌ : {A B : Type 0} → Layout A → Layout B → Layout (A × B)
l ⊗ m = record {
  size = l.size + m.size;
  read = λ b. (l.read b, m.read (drop l.size b));
  write = λ p. l.write p.0 ++ m.write p.1;
  Fits = λ p. l.Fits p.0 × m.Fits p.1;
}

-- The fields of a struct.
abbrev pub struct : {A B : Type 0} → (A → B) → (B → A) → Layout A → Layout B
struct make fields l = record {
  size = l.size;
  read = λ b. make (l.read b);
  write = λ s. l.write (fields s);
  Fits = λ s. l.Fits (fields s);
}
