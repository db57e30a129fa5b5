-- ===== src/Payload/Served.antt =====
-- Files that the operating system reads, seeks and writes as it does a regular file on a disk with
-- room.
use magiskboot_go.Base.{
  ℕ, zero, suc, ◌+◌, ◌-◌, ◌^◌, ◌≤◌, ◌<◌, ◌≡◌, ◌≢◌, refl, ap, arith, List, [], ◌∷◌, true,
}
use magiskboot_go.Base.{
  Bytes, length, take, drop, length-take, length-drop, append-nil, lt→ltb, sub64, ◌==◌, ret,
}
use magiskboot_go.Payload.File.{
  Input, Reader, got, read, read_full, seek_by, go_to, Output, Image, seek_to, put, write_image,
  splice,
}
use magiskboot_go.Base.{◌++◌, Bool-cases, inl, inr}
use magiskboot_go.Payload.{write_or_fatal}

-- A regular file: what a `Read` of at most 2 ^ 30 bytes, the most that Go asks for in one call, finds
-- in it, it gives.
pub record IsFile (input : Input) : Type 0 where
  pub small : length input.bytes < 2 ^ 63
  pub gives : (at n : ℕ) → n ≤ 2 ^ 30 → at + n ≤ length input.bytes → n ≤ input.gives at n
  pub seeks : (at : ℕ) → at ≤ length input.bytes → input.seeks at ≡ true

-- An output that may grow to `room` bytes.
pub record HasRoom (room : ℕ) (o : Output) : Type 0 where
  pub small : room ≤ 2 ^ 63
  pub takes : (at : ℕ) (b : Bytes) → at + length b ≤ room → length b ≤ o.takes at b
  pub seeks : (at : ℕ) → at ≤ room → o.seeks at ≡ true

-- The part of a file from a position on.
unfoldable pub slice : Bytes → ℕ → ℕ → Bytes
slice bytes at n = take n (drop at bytes)

pub length-slice :
    (bytes : Bytes) (at n : ℕ) → at + n ≤ length bytes → length (slice bytes at n) ≡ n
unfolding slice
length-slice bytes at n h = omega (arith, length-take n (drop at bytes), length-drop at bytes)

take_all : {A : Type 0} → (n : ℕ) (xs : List A) → length xs ≤ n → take n xs ≡ xs
take_all zero [] h = refl
take_all zero (x ∷ xs) h = absurd (omega arith)
take_all (suc n) [] h = refl
take_all (suc n) (x ∷ xs) h = ap (λ t. x ∷ t) (take_all n xs (omega arith))

pub read-IsFile :
    (input : Input) (at n : ℕ)
    → IsFile input
    → n ≤ 2 ^ 30
    → at + n ≤ length input.bytes
    → read (record { input = input; at = at }) n
      ≡ (slice input.bytes at n, record { input = input; at = at + n })
unfolding read got slice
read-IsFile input at n file cap h =
    let b = take n (drop at input.bytes) in
    let l : length b ≡ n = unfold slice in length-slice input.bytes at n h in
    let all : take (input.gives at n) b ≡ b =
      take_all (input.gives at n) b (omega (arith, l, file.gives at n cap h)) in
    let z : n - length b ≡ 0 = omega (arith, l) in rw (all, z, append-nil b, l) refl

pub seek_forward :
    (input : Input) (start from to : ℕ)
    → IsFile input
    → from ≤ to
    → start + to ≤ length input.bytes
    → seek_by (record { input = input; at = start + from }) (sub64 to from)
      ≡ record { input = input; at = start + to }
unfolding seek_by go_to
seek_forward input start from to file le inside =
    let small = file.small in
    let d : sub64 to from ≡ to - from = omega (arith, small) in
    let e : start + from + (to - from) ≡ start + to = omega arith in
    rw (d, lt→ltb (to - from) (2 ^ 63) (omega (arith, small)), e, file.seeks (start + to) inside)
      refl

put-splice :
    (out : Image) (b : Bytes)
    → length b ≢ 0
    → put out b ≡ record { bytes = splice out.bytes out.at b; at = out.at + length b }
unfolding put
put-splice out [] h = absurd (h refl)
put-splice out (c ∷ b) h = refl

-- A write at a place within the room puts all the bytes there.
pub write-HasRoom :
    (room : ℕ) (o : Output) (image : Image) (place : ℕ) (b : Bytes)
    → HasRoom room o
    → length b ≢ 0
    → place + length b ≤ room
    → write_or_fatal o (seek_to o image place) b
      ≡ ret (record { bytes = splice image.bytes place b; at = place + length b })
unfolding write_or_fatal write_image seek_to
write-HasRoom room o image place b roomy some_bytes fits =
    let small = roomy.small in
    let all : take (o.takes place b) b ≡ b =
      take_all (o.takes place b) b (roomy.takes place b fits) in
    let p = put-splice (record { bytes = image.bytes; at = place }) b some_bytes in
    let same : (length b == length b) ≡ true = ground arith in
    rw (lt→ltb place (2 ^ 63) (omega (arith, small)), roomy.seeks place (omega arith), all, p, same)
      refl

take_none : {A : Type 0} → (n : ℕ) → take {A = A} n [] ≡ []
take_none zero = refl
take_none (suc n) = refl

-- The rounds of `io.ReadFull` are enough: another one changes nothing.
read_full_enough :
    (rounds : ℕ) (r : Reader) (n : ℕ) (acc : Bytes)
    → n ≤ rounds
    → read_full (suc rounds) r n acc ≡ read_full rounds r n acc
unfolding read_full got
read_full_enough zero r zero acc h = rw (take_none (r.input.gives r.at 0)) refl
read_full_enough zero r (suc n) acc h = absurd (omega arith)
read_full_enough (suc rounds) r n acc h =
    let b = got r n in
    elim (Bool-cases (length b == 0)) [
      | inl e ↦ rw (e) refl
      | inr e ↦ rw (e) (
          read_full_enough rounds (record r { at = r.at + length b }) (n - length b) (acc ++ b)
            (ground arith))
    ]
