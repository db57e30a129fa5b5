-- ===== src/Cpio/RoundTrip/Entry.antt =====
-- One round of `LoadFromData` reads one written entry.
use magiskboot_go.Base.{ℕ, ◌+◌, ◌*◌, ◌^◌, ◌<◌, ◌≡◌, ◌≢◌, refl, arith}
use magiskboot_go.Base.{Bool, true, [], ◌∷◌, ◌++◌, Option, some}
use magiskboot_go.Base.{
  Bytes, codes, length, slice, get_elem?, trim_right, bytes_eq, bytes_eq_ne, bytes_eq_refl,
}
use magiskboot_go.Base.{ret, lt→ltb, add64}
use magiskboot_go.Base.Dict.{insert}
use magiskboot_go.Common.{align_4}
use magiskboot_go.Cpio.{Cpio, CpioEntry}
use magiskboot_go.Cpio.Field.{x8u, x8u_or_zero, parsed}
use magiskboot_go.Cpio.Field.Laws.{x8u-x08, x8u_or_zero-x08}
use magiskboot_go.Cpio.Load.{
  CpioHeader, next, cpio_magic, field, read_header, load_entry, load_named, load_body, load_step,
  is_nul, trailer,
}
use magiskboot_go.Cpio.Dump.{header, entry_numbers}
use magiskboot_go.Cpio.Dump.Image.{FitsEntry, entry_numbers-Fits}
use magiskboot_go.Cpio.RoundTrip.Header.{field-header}

-- A name that a loaded entry can have.
pub record IsName (name : Bytes) : Type 0 where
  pub no_nul_at_end : trim_right is_nul name ≡ name
  pub not_dot : name ≢ codes "."
  pub not_dot_dot : name ≢ codes ".."
  pub not_trailer : name ≢ trailer

pub trim_right-append :
    (p : ℕ → Bool) (s : Bytes) (c : ℕ) → p c ≡ true → trim_right p (s ++ c ∷ []) ≡ trim_right p s
unfolding trim_right
trim_right-append p [] c h = rw h
trim_right-append p (d ∷ s) c h = ground (arith, trim_right-append p s c h)

-- The archive with one more entry.
abbrev pub with_entry : Cpio → Bytes → CpioEntry → Cpio
with_entry c name e = record { entries = insert name e c.entries; keys = c.keys ++ name ∷ [] }

module _ (bytes : Bytes) (inode : ℕ) (name : Bytes) (e : CpioEntry) (c : Cpio)
    (inode_fits : inode < 2 ^ 32) (fits : FitsEntry name e) (is_name : IsName name) where
  pub hdr : CpioHeader
  hdr = read_header (header (entry_numbers inode name e))

  number :
      (i n : ℕ)
      → ◌≡◌ {A = Option ℕ} (get_elem? (entry_numbers inode name e) i) (some n)
      → n < 2 ^ 32
      → x8u_or_zero (field (header (entry_numbers inode name e)) (6 + 8 * i)) ≡ n
  number i n h f =
      rw (field-header _ i n (entry_numbers-Fits inode name e inode_fits fits) h)
        (x8u_or_zero-x08 n f)

  magic_lem : bytes_eq (read_header (header (entry_numbers inode name e))).magic cpio_magic ≡ true
  unfolding read_header header
  magic_lem = bytes_eq_refl cpio_magic

  pub load_entry_lem :
      (pos : ℕ)
      → slice bytes pos (add64 pos (length e.content)) ≡ ret e.content
      → load_entry bytes hdr name pos c
        ≡ ret (next (align_4 (add64 pos (length e.content))) (with_entry c name e))
  unfolding load_entry hdr read_header
  load_entry_lem pos h =
      rw (number 6 (length e.content) refl fits.content_fits, h)
        (rw (
          number 1 e.mode refl fits.mode_fits,
          number 2 e.uid refl fits.uid_fits,
          number 3 e.gid refl fits.gid_fits,
          number 9 e.rdev_major refl fits.major_fits,
          number 10 e.rdev_minor refl fits.minor_fits,
        ))

  load_named_lem : (pos : ℕ) → load_named bytes hdr name pos c ≡ load_entry bytes hdr name pos c
  unfolding load_named
  load_named_lem pos = rw (
    bytes_eq_ne name (codes ".") is_name.not_dot,
    bytes_eq_ne name (codes "..") is_name.not_dot_dot,
    bytes_eq_ne name trailer is_name.not_trailer,
  )

  namesize_lem : x8u hdr.namesize ≡ parsed (length name + 1)
  unfolding hdr read_header
  namesize_lem =
      rw
        (field-header _ 11 (length name + 1) (entry_numbers-Fits inode name e inode_fits fits) refl)
        (x8u-x08 (length name + 1) fits.name_fits)

  pub load_body_lem :
      (pos : ℕ)
      → slice bytes pos (add64 pos (length name + 1)) ≡ ret (name ++ 0 ∷ [])
      → load_body bytes hdr pos c
        ≡ load_entry bytes hdr name (align_4 (add64 pos (length name + 1))) c
  unfolding load_body
  load_body_lem pos h =
      rw (load_body, namesize_lem, h, trim_right-append is_nul name 0 refl, is_name.no_nul_at_end)
        (load_named_lem (align_4 (add64 pos (length name + 1))))

  pub load_step_lem :
      (pos : ℕ)
      → pos < length bytes
      → slice bytes pos (add64 pos 110) ≡ ret (header (entry_numbers inode name e))
      → load_step bytes pos c ≡ load_body bytes hdr (add64 pos 110) c
  unfolding load_step hdr
  load_step_lem pos lt h = rw (lt→ltb _ _ lt, h, magic_lem)
