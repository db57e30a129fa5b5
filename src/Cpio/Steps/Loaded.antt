-- ===== src/Cpio/Steps/Loaded.antt =====
-- What `LoadFromData` leaves is reached in steps from the archive that it is called on.
use magiskboot_go.Base.{ℕ, zero, suc, ◌||◌, Option, none, some, Bytes, codes}
use magiskboot_go.Base.{bytes_eq, slice, slice_from, index, trim_right, length, ltb, add64}
use magiskboot_go.Base.{
  Outcome, ret, panic, exit, running, ◌>>=◌, Returns, Returns-then, Returns_weaken, if-Returns,
}
use magiskboot_go.Common.{align_4}
use magiskboot_go.Cpio.{Cpio}
use magiskboot_go.Cpio.Field.{x8u, x8u_or_zero, Parsed, parsed, failed}
use magiskboot_go.Cpio.Load.{
  CpioHeader, Step, next, stop, read_header, header_size, cpio_magic, trailer, is_nul, load_entry,
  load_trailer, load_named, load_body, load_step, load_loop, load_from_data,
}
use magiskboot_go.Cpio.Steps.{Reach, here, and_then, appends, Reach-trans}

-- The archive behind a round.
abbrev behind : Step → Cpio
behind (next pos c) = c
behind (stop c e) = c

abbrev Extends : Cpio → Outcome Step → Type 0
Extends c = Returns (λ s. Reach c (behind s))

module _ (bytes : Bytes) where
  load_entry-Extends :
      (hdr : CpioHeader) (name : Bytes) (pos : ℕ) (c : Cpio)
      → Extends c (load_entry bytes hdr name pos c)
  unfolding load_entry
  load_entry-Extends hdr name pos c =
      Returns-then (λ s. Reach c (behind s))
        (slice bytes pos (add64 pos (x8u_or_zero hdr.filesize))) _
        (λ b. and_then here (appends c name _))

  load_trailer-Extends : (pos : ℕ) (c : Cpio) → Extends c (load_trailer bytes pos c)
  unfolding load_trailer
  load_trailer-Extends pos c =
      Returns-then (λ s. Reach c (behind s)) (slice_from bytes pos)
        (λ rest.
          ret (elim (index rest cpio_magic) [ none ↦ stop c none | some i ↦ next (add64 pos i) c ]))
        (λ b. go (index b cpio_magic))
    where
      go :
          (o : Option ℕ)
          → Reach c (behind (elim o [ none ↦ stop c none | some i ↦ next (add64 pos i) c ]))
      go none = here
      go (some i) = here

  load_named-Extends :
      (hdr : CpioHeader) (name : Bytes) (pos : ℕ) (c : Cpio)
      → Extends c (load_named bytes hdr name pos c)
  unfolding load_named
  load_named-Extends hdr name pos c =
      if-Returns (λ s. Reach c (behind s)) (bytes_eq name (codes ".") || bytes_eq name (codes ".."))
        _ _ here
        (if-Returns (λ s. Reach c (behind s)) (bytes_eq name trailer) _ _
          (load_trailer-Extends pos c) (load_entry-Extends hdr name pos c))

  load_body-Extends :
      (hdr : CpioHeader) (pos : ℕ) (c : Cpio) → Extends c (load_body bytes hdr pos c)
  unfolding load_body
  load_body-Extends hdr pos c = go (x8u hdr.namesize)
    where
      go :
          (p : Parsed)
          → Extends c (elim p [
            | failed e ↦ ret (stop c (some e))
            | parsed name_sz ↦ slice bytes pos (add64 pos name_sz) >>= λ raw.
                load_named bytes hdr (trim_right is_nul raw) (align_4 (add64 pos name_sz)) c
          ])
      go (failed e) = here
      go (parsed n) =
          Returns-then (λ s. Reach c (behind s)) (slice bytes pos (add64 pos n)) _
            (λ raw. load_named-Extends hdr (trim_right is_nul raw) (align_4 (add64 pos n)) c)

  load_step-Extends : (pos : ℕ) (c : Cpio) → Extends c (load_step bytes pos c)
  unfolding load_step
  load_step-Extends pos c =
      if-Returns (λ s. Reach c (behind s)) (ltb pos (length bytes)) _ _
        (Returns-then (λ s. Reach c (behind s)) (slice bytes pos (add64 pos header_size)) _
          (λ raw.
            if-Returns (λ s. Reach c (behind s)) (bytes_eq (read_header raw).magic cpio_magic) _ _
              (load_body-Extends (read_header raw) (add64 pos header_size) c) here))
        here

  load_loop-Reach : (f pos : ℕ) (c : Cpio) → Returns (λ r. Reach c r.0) (load_loop f bytes pos c)
  unfolding load_loop
  load_loop-Reach zero pos c = tt
  load_loop-Reach (suc f) pos c =
      go (load_step bytes pos c) (load_step-Extends pos c) (λ p d. load_loop-Reach f p d)
    where
      go :
          (o : Outcome Step)
          → Extends c o
          → ((p : ℕ) (d : Cpio) → Returns (λ r. Reach d r.0) (load_loop f bytes p d))
          → Returns
              (λ r. Reach c r.0)
              (elim o [
                | ret (next pos' c') ↦ load_loop f bytes pos' c'
                | ret (stop c' e) ↦ ret (c', e)
                | panic ↦ panic
                | exit n ↦ exit n
                | running ↦ running
              ])
      go (ret (next p d)) h ih =
          Returns_weaken (λ r. Reach d r.0) (λ r. Reach c r.0) (load_loop f bytes p d)
            (λ r k. Reach-trans h k) (ih p d)
      go (ret (stop d e)) h ih = h
      go panic h ih = tt
      go (exit n) h ih = tt
      go running h ih = tt

-- What is loaded is what the archive that is called on becomes by entries put under their keys.
pub load_from_data-Reach :
    (c : Cpio) (bytes : Bytes) → Returns (λ r. Reach c r.0) (load_from_data c bytes)
unfolding load_from_data
load_from_data-Reach c bytes = load_loop-Reach bytes (suc (length bytes)) 0 c
