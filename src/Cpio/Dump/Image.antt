-- ===== src/Cpio/Dump/Image.antt =====
-- The bytes that `Dump` leaves in a file whose writes succeed.
use magiskboot_go.Base.{ℕ, ◌+◌, ◌-◌, ◌*◌, ◌%◌, ◌^◌, ◌<◌, ◌≡◌, refl, arith}
use magiskboot_go.Base.{List, [], ◌∷◌, ◌++◌}
use magiskboot_go.Base.{Bytes, length, length-append, length-replicate, replicate}
use magiskboot_go.Base.{All}
use magiskboot_go.Cpio.{Cpio, CpioEntry, entry_at}
use magiskboot_go.Cpio.Field.{x08}
use magiskboot_go.Cpio.Field.Laws.{length-x08}
use magiskboot_go.Cpio.Load.{cpio_magic, trailer}
use magiskboot_go.Cpio.Dump.{fields, header, entry_numbers, trailer_numbers}

-- The zeros that bring a run of `n` bytes to a multiple of four.
abbrev pub gap : ℕ → ℕ
gap n = (4 - n % 4) % 4

abbrev pub zeros : ℕ → Bytes
zeros n = replicate (gap n) 0

-- One entry in the file.
unfoldable pub entry_image : ℕ → Bytes → CpioEntry → Bytes
entry_image inode name e =
    header (entry_numbers inode name e)
    ++ ((name ++ 0 ∷ []) ++ (zeros (111 + length name) ++ (e.content ++ zeros (length e.content))))

unfoldable pub trailer_image : ℕ → Bytes
trailer_image inode = header (trailer_numbers inode) ++ ((trailer ++ 0 ∷ []) ++ zeros 121)

unfoldable pub image_from : Cpio → List Bytes → ℕ → Bytes
image_from c [] inode = trailer_image inode
image_from c (name ∷ names) inode =
    entry_image inode name (entry_at c name) ++ image_from c names (inode + 1)

unfoldable pub image : Cpio → Bytes
image c = image_from c c.keys 300000

abbrev pub Fits : ℕ → Type 0
Fits n = n < 2 ^ 32

pub length-fields : (ns : List ℕ) → All Fits ns → length (fields ns) ≡ 8 * length ns
unfolding fields
length-fields [] _ = refl
length-fields (n ∷ ns) (h, hs) =
    omega (arith, length-append (x08 n) (fields ns), length-x08 n h, length-fields ns hs)

pub length-header : (ns : List ℕ) → All Fits ns → length (header ns) ≡ 6 + 8 * length ns
unfolding header
length-header ns hs = omega (arith, length-append cpio_magic (fields ns), length-fields ns hs)

pub length-zeros : (n : ℕ) → length (zeros n) ≡ gap n
length-zeros n = length-replicate (gap n) 0

-- The numbers of an entry's header fit in 32 bits.
pub record FitsEntry (name : Bytes) (e : CpioEntry) : Type 0 where
  pub mode_fits : e.mode < 2 ^ 32
  pub uid_fits : e.uid < 2 ^ 32
  pub gid_fits : e.gid < 2 ^ 32
  pub major_fits : e.rdev_major < 2 ^ 32
  pub minor_fits : e.rdev_minor < 2 ^ 32
  pub content_fits : length e.content < 2 ^ 32
  pub name_fits : length name + 1 < 2 ^ 32

pub entry_numbers-Fits :
    (inode : ℕ) (name : Bytes) (e : CpioEntry)
    → inode < 2 ^ 32
    → FitsEntry name e
    → All Fits (entry_numbers inode name e)
entry_numbers-Fits inode name e h f = omega arith

pub length-entry_image :
    (inode : ℕ) (name : Bytes) (e : CpioEntry)
    → inode < 2 ^ 32
    → FitsEntry name e
    → length (entry_image inode name e)
      ≡ 111 + length name + gap (111 + length name) + length e.content + gap (length e.content)
unfolding entry_image
length-entry_image inode name e h f = omega (
  arith,
  length-header (entry_numbers inode name e) (entry_numbers-Fits inode name e h f),
  length-append {0} (header (entry_numbers inode name e))
      ((name ++ 0 ∷ []) ++ (zeros (111 + length name) ++ (e.content ++ zeros (length e.content)))),
  length-append {0} (name ++ 0 ∷ [])
      (zeros (111 + length name) ++ (e.content ++ zeros (length e.content))),
  length-append {0} name (0 ∷ []),
  length-append {0} (zeros (111 + length name)) (e.content ++ zeros (length e.content)),
  length-append {0} e.content (zeros (length e.content)),
  length-zeros (111 + length name),
  length-zeros (length e.content),
)

pub length-trailer_image : (inode : ℕ) → inode < 2 ^ 32 → length (trailer_image inode) ≡ 124
unfolding trailer_image
length-trailer_image inode h = omega (
  arith,
  length-append (header (trailer_numbers inode)) ((trailer ++ 0 ∷ []) ++ zeros 121),
  length-header (trailer_numbers inode) (omega arith),
)
