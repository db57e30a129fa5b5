-- ===== src/Cpio/Load/Ends.antt =====
-- The loop of `LoadFromData` ends.
use magiskboot_go.Base.{ℕ, zero, suc, ◌+◌, ◌-◌, ◌≤◌, ◌<◌, ◌≡◌, ◌≢◌, refl, arith}
use magiskboot_go.Base.{◌||◌, Bytes, codes, length, index, bytes_eq, trim_right, none}
use magiskboot_go.Base.{
  slice-cases, slice_from-cases, ltb→lt, ltb→le, le→ltb, index-le-length, add64, u64_mod,
  Option-cases, Bool-cases, inl, inr,
}
use magiskboot_go.Base.{Outcome, ret, panic, exit, running, ltb}
use magiskboot_go.Common.{align_4}
use magiskboot_go.Common.Laws.{align_4_bounds}
use magiskboot_go.Cpio.{Cpio}
use magiskboot_go.Cpio.Field.{x8u, x8u_or_zero, parsed, failed, Parsed}
use magiskboot_go.Cpio.Load.{
  CpioHeader, Step, next, stop, cpio_magic, load_entry, load_trailer, load_named, load_body,
  load_step, load_loop, load_from_data, read_header, header_size, trailer, is_nul,
}

-- A round that goes on goes on further behind.
abbrev Beyond : ℕ → Outcome Step → Type 0
Beyond pos (ret (next p c)) = pos ≤ p
Beyond pos (ret (stop c e)) = Unit
Beyond pos panic = Unit
Beyond pos (exit n) = ⊥
Beyond pos running = ⊥

module _ (bytes : Bytes) (small : length bytes + 8 < u64_mod) where
  align_4-ge : (p : ℕ) → p ≤ length bytes → p ≤ align_4 p
  align_4-ge p h = (align_4_bounds p (omega arith)).0

  load_entry-Beyond :
      (hdr : CpioHeader) (name : Bytes) (pos : ℕ) (c : Cpio)
      → Beyond pos (load_entry bytes hdr name pos c)
  unfolding load_entry
  load_entry-Beyond hdr name pos c =
      let hi = add64 pos (x8u_or_zero hdr.filesize) in
      elim (slice-cases bytes pos hi) [
        | inl e ↦ rw e tt
        | inr (r, e, lo, up) ↦ rw e (omega (arith, lo, up, align_4-ge hi up))
      ]

  load_trailer-Beyond : (pos : ℕ) (c : Cpio) → Beyond pos (load_trailer bytes pos c)
  unfolding load_trailer
  load_trailer-Beyond pos c = elim (slice_from-cases bytes pos) [
    | inl e ↦ rw e tt
    | inr (r, e, lo, len) ↦ elim (Option-cases (index r cpio_magic)) [
      | inl f ↦ rw (e, f) tt
      | inr (i, f) ↦ rw (e, f) (omega (arith, lo, len, index-le-length r cpio_magic i f, small))
    ]
  ]

  load_named-Beyond :
      (hdr : CpioHeader) (name : Bytes) (pos : ℕ) (c : Cpio)
      → Beyond pos (load_named bytes hdr name pos c)
  unfolding load_named
  load_named-Beyond hdr name pos c =
      elim (Bool-cases (bytes_eq name (codes ".") || bytes_eq name (codes ".."))) [
        | inl e ↦ rw e (omega arith)
        | inr e ↦ elim (Bool-cases (bytes_eq name trailer)) [
          | inl f ↦ rw (e, f) (load_trailer-Beyond pos c)
          | inr f ↦ rw (e, f) (load_entry-Beyond hdr name pos c)
        ]
      ]

  Beyond-mono : (p q : ℕ) (o : Outcome Step) → p ≤ q → Beyond q o → Beyond p o
  Beyond-mono p q (ret (next n c)) h k = omega arith
  Beyond-mono p q (ret (stop c e)) h k = tt
  Beyond-mono p q panic h k = tt
  Beyond-mono p q (exit n) h k = k
  Beyond-mono p q running h k = k

  load_body-Beyond :
      (hdr : CpioHeader) (pos : ℕ) (c : Cpio) → Beyond pos (load_body bytes hdr pos c)
  unfolding load_body
  load_body-Beyond hdr pos c = go (x8u hdr.namesize) refl
    where
      go : (p : Parsed) → x8u hdr.namesize ≡ p → Beyond pos (load_body bytes hdr pos c)
      go (failed x) e = rw (load_body, e) tt
      go (parsed n) e = elim (slice-cases bytes pos (add64 pos n)) [
        | inl f ↦ rw (load_body, e, f) tt
        | inr (r, f, lo, up) ↦
            rw (load_body, e, f)
              (Beyond-mono pos (align_4 (add64 pos n)) _
                (omega (arith, lo, align_4-ge (add64 pos n) up))
                (load_named-Beyond hdr (trim_right is_nul r) (align_4 (add64 pos n)) c))
      ]

  load_step-Beyond : (pos : ℕ) (c : Cpio) → Beyond (suc pos) (load_step bytes pos c)
  unfolding load_step
  load_step-Beyond pos c = elim (Bool-cases (ltb pos (length bytes))) [
    | inr e ↦ rw e tt
    | inl e ↦ elim (slice-cases bytes pos (add64 pos header_size)) [
      | inl f ↦ rw (e, f) tt
      | inr (r, f, lo, up) ↦ elim (Bool-cases (bytes_eq (read_header r).magic cpio_magic)) [
        | inl g ↦
            rw (e, f, g)
              (Beyond-mono (suc pos) (add64 pos header_size) _
                (omega (arith, lo, up, small, ltb→lt pos (length bytes) e))
                (load_body-Beyond (read_header r) (add64 pos header_size) c))
        | inr g ↦ rw (e, f, g) tt
      ]
    ]
  ]

  load_step_at_end :
      (pos : ℕ) (c : Cpio) → length bytes ≤ pos → load_step bytes pos c ≡ ret (stop c none)
  unfolding load_step
  load_step_at_end pos c h = rw (le→ltb pos (length bytes) h)

  load_loop_ends :
      (f pos : ℕ) (c : Cpio) → length bytes - pos < f → load_loop f bytes pos c ≢ running
  unfolding load_loop
  load_loop_ends zero pos c h = absurd (omega arith)
  load_loop_ends (suc f) pos c h = elim (Bool-cases (ltb pos (length bytes))) [
    | inr e ↦ rw (load_loop, load_step_at_end pos c (ltb→le pos (length bytes) e)) (cc)
    | inl e ↦
        go (ltb→lt pos (length bytes) e) (load_step bytes pos c) refl (load_step-Beyond pos c)
          (λ p c'. load_loop_ends f p c')
  ]
    where
      go :
          pos < length bytes
          → (o : Outcome Step) → load_step bytes pos c ≡ o
          → Beyond (suc pos) o
          → ((p : ℕ) (c' : Cpio) → length bytes - p < f → load_loop f bytes p c' ≢ running)
          → load_loop (suc f) bytes pos c ≢ running
      go lt (ret (next p c')) e b ih = rw (load_loop, e) (ih p c' (omega (arith, b, h, lt)))
      go lt (ret (stop c' x)) e b ih = rw (load_loop, e) (cc)
      go lt panic e b ih = rw (load_loop, e) (cc)
      go lt (exit n) e b ih = absurd b
      go lt running e b ih = absurd b

-- `LoadFromData` ends on every input that is shorter than `uint64` by 8 bytes or more: the rounds
-- that its loop is given are enough.
pub load_from_data_ends :
    (c : Cpio) (bytes : Bytes) → length bytes + 8 < u64_mod → load_from_data c bytes ≢ running
unfolding load_from_data
load_from_data_ends c bytes small =
    load_loop_ends bytes small (suc (length bytes)) 0 c (omega arith)
