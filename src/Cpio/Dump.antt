-- ===== src/Cpio/Dump.antt =====
-- `Dump`: an archive is written through a file's `Write`, which is a parameter.
pub mod Image
pub mod Write
use magiskboot_go.Base.{ℕ, ◌+◌, ◌-◌, Bool, true, false, List, [], ◌∷◌, ◌++◌, Option, none, some}
use magiskboot_go.Base.{Bytes, length, replicate, add64, sub64, if◌then◌else◌}
use magiskboot_go.Base.{Outcome, ret, panic, ◌>>=◌, fatal}
use magiskboot_go.Common.{align_4}
use magiskboot_go.Cpio.{Cpio, CpioEntry, entry_at}
use magiskboot_go.Cpio.Field.{x08}
use magiskboot_go.Cpio.Load.{cpio_magic, trailer}

-- The numbers of a header, each in its eight digits.
unfoldable pub fields : List ℕ → Bytes
fields [] = []
fields (n ∷ ns) = x08 n ++ fields ns

-- `"070701%08x%08x…"`.
unfoldable pub header : List ℕ → Bytes
unfolding fields
header ns = cpio_magic ++ fields ns

abbrev pub entry_numbers : ℕ → Bytes → CpioEntry → List ℕ
entry_numbers inode name e =
    inode
    ∷ e.mode
    ∷ e.uid
    ∷ e.gid
    ∷ 1
    ∷ 0
    ∷ length e.content
    ∷ 0
    ∷ 0
    ∷ e.rdev_major
    ∷ e.rdev_minor
    ∷ (length name + 1)
    ∷ 0
    ∷ []

abbrev pub trailer_numbers : ℕ → List ℕ
trailer_numbers inode = inode ∷ 0o755 ∷ 0 ∷ 0 ∷ 1 ∷ 0 ∷ 0 ∷ 0 ∷ 0 ∷ 0 ∷ 0 ∷ 11 ∷ 0 ∷ []

-- What a write gives: the file behind it, the bytes written, and whether there was an error.
pub record Written (F : Type 0) : Type 0 where
  pub file : F
  pub count : ℕ
  pub is_err : Bool

-- `write` is the method of the open file.
module _ {F : Type 0} (write : F → Bytes → Written F) where
  unfoldable pub write_zeros : F → ℕ → Outcome (F × ℕ)
  write_zeros f pos =
      let w = write f (replicate (sub64 (align_4 pos) pos) 0) in
      if w.is_err then fatal else ret (w.file, w.count)

  -- The writes behind a header: the name, its terminator, and the data, each run padded.
  unfoldable pub dump_body : F → ℕ → Bytes → CpioEntry → Outcome (Option (F × ℕ))
  dump_body f pos name e = do
    let w1 = write f name
    let w2 = write w1.file (0 ∷ [])
    let pos1 = add64 (add64 pos w1.count) w2.count
    z ← write_zeros w2.file pos1
    let pos2 = align_4 (add64 pos1 z.1)
    let w3 = write z.0 e.content
    z' ← write_zeros w3.file (add64 pos2 w3.count)
    ret (some (z'.0, align_4 (add64 pos2 w3.count)))

  -- One round of the loop. `none`: the header could not be written, and the file is removed.
  unfoldable pub dump_entry : F → ℕ → ℕ → Bytes → CpioEntry → Outcome (Option (F × ℕ))
  dump_entry f pos inode name e =
      let w = write f (header (entry_numbers inode name e)) in
      if w.is_err then ret none else dump_body w.file (add64 pos w.count) name e

  unfoldable pub dump_trailer : F → ℕ → ℕ → Outcome (Option F)
  dump_trailer f pos inode = do
    let w1 = write f (header (trailer_numbers inode))
    let w2 = write w1.file (trailer ++ 0 ∷ [])
    z ← write_zeros w2.file (add64 (add64 pos w1.count) w2.count)
    ret (some z.0)

  unfoldable pub dump_loop : Cpio → List Bytes → F → ℕ → ℕ → Outcome (Option F)
  dump_loop c [] f pos inode = dump_trailer f pos inode
  dump_loop c (name ∷ names) f pos inode = dump_entry f pos inode name (entry_at c name) >>= λ r.
      elim r [ none ↦ ret none | some s ↦ dump_loop c names s.0 s.1 (inode + 1) ]

  -- `c.Dump(path)` on the file that `os.Create` gives.
  unfoldable pub dump : Cpio → F → Outcome (Option F)
  dump c f = dump_loop c c.keys f 0 300000
