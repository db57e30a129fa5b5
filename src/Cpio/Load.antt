-- ===== src/Cpio/Load.antt =====
-- `LoadFromData`: the archive that a byte string holds.
pub mod Ends
pub mod Storable
use magiskboot_go.Base.{
  ℕ, zero, suc, ◌+◌, ◌-◌, Bool, true, false, ◌||◌, List, [], ◌∷◌, ◌++◌, Option, none, some,
}
use magiskboot_go.Base.{
  Bytes, codes, bytes_eq, length, take, drop, slice, slice_from, index, trim_right,
}
use magiskboot_go.Base.{Outcome, ret, panic, exit, running, ◌>>=◌, ltb, ◌==◌, if◌then◌else◌, add64}
use magiskboot_go.Base.Dict.{insert}
use magiskboot_go.Common.{align_4}
use magiskboot_go.Cpio.{Cpio, CpioEntry, LoadError, invalid_magic}
use magiskboot_go.Cpio.Field.{x8u, x8u_or_zero, Parsed, parsed, failed}

-- `CpioHeader`: the fields that the program reads, each still in its digits.
pub record CpioHeader : Type 0 where
  pub magic : Bytes
  pub ino : Bytes
  pub mode : Bytes
  pub uid : Bytes
  pub gid : Bytes
  pub nlink : Bytes
  pub mtime : Bytes
  pub filesize : Bytes
  pub devmajor : Bytes
  pub devminor : Bytes
  pub rdevmajor : Bytes
  pub rdevminor : Bytes
  pub namesize : Bytes
  pub check : Bytes

-- `binary.Size(CpioHeader{})`.
abbrev pub header_size : ℕ
header_size = 110

-- The eight bytes of the field with a given number behind the magic.
unfoldable pub field : Bytes → ℕ → Bytes
field raw at = take 8 (drop at raw)

unfoldable pub read_header : Bytes → CpioHeader
unfolding field
read_header raw = record {
  magic = take 6 raw;
  ino = field raw 6;
  mode = field raw 14;
  uid = field raw 22;
  gid = field raw 30;
  nlink = field raw 38;
  mtime = field raw 46;
  filesize = field raw 54;
  devmajor = field raw 62;
  devminor = field raw 70;
  rdevmajor = field raw 78;
  rdevminor = field raw 86;
  namesize = field raw 94;
  check = field raw 102;
}

abbrev pub cpio_magic : Bytes
cpio_magic = codes "070701"

abbrev pub trailer : Bytes
trailer = codes "TRAILER!!!"

-- How a round of the loop ends: at the next position, or with the result of the call.
pub data Step : Type 0 where
  next : ℕ → Cpio → Step
  stop : Cpio → Option LoadError → Step

-- The rest of a round, for an entry that is kept: its data and what comes behind.
unfoldable pub load_entry : Bytes → CpioHeader → Bytes → ℕ → Cpio → Outcome Step
load_entry bytes hdr name pos c = do
  let file_sz = x8u_or_zero hdr.filesize
  content ← slice bytes pos (add64 pos file_sz)
  let entry : CpioEntry = record {
    mode = x8u_or_zero hdr.mode;
    uid = x8u_or_zero hdr.uid;
    gid = x8u_or_zero hdr.gid;
    rdev_major = x8u_or_zero hdr.rdevmajor;
    rdev_minor = x8u_or_zero hdr.rdevminor;
    content = content;
  }
  ret (
      next (align_4 (add64 pos file_sz))
        (record { entries = insert name entry c.entries; keys = c.keys ++ name ∷ [] }))

-- Behind a trailer the next magic is looked for, and the loop ends where there is none.
unfoldable pub load_trailer : Bytes → ℕ → Cpio → Outcome Step
load_trailer bytes pos c = do
  rest ← slice_from bytes pos
  ret (elim (index rest cpio_magic) [ none ↦ stop c none | some i ↦ next (add64 pos i) c ])

unfoldable pub load_named : Bytes → CpioHeader → Bytes → ℕ → Cpio → Outcome Step
load_named bytes hdr name pos c =
    if bytes_eq name (codes ".") || bytes_eq name (codes "..")
    then ret (next pos c)
    else if bytes_eq name trailer
    then load_trailer bytes pos c
    else load_entry bytes hdr name pos c

abbrev pub is_nul : ℕ → Bool
is_nul c = c == 0

-- The rest of a round behind the header.
unfoldable pub load_body : Bytes → CpioHeader → ℕ → Cpio → Outcome Step
load_body bytes hdr pos c = elim (x8u hdr.namesize) [
  | failed e ↦ ret (stop c (some e))
  | parsed name_sz ↦ slice bytes pos (add64 pos name_sz) >>= λ raw.
      load_named bytes hdr (trim_right is_nul raw) (align_4 (add64 pos name_sz)) c
]

-- One round of the loop, with the loop's test.
unfoldable pub load_step : Bytes → ℕ → Cpio → Outcome Step
load_step bytes pos c =
    if ltb pos (length bytes)
    then (slice bytes pos (add64 pos header_size) >>= λ raw.
        if bytes_eq (read_header raw).magic cpio_magic
        then load_body bytes (read_header raw) (add64 pos header_size) c
        else ret (stop c (some invalid_magic)))
    else ret (stop c none)

-- The loop, with the number of rounds that it may still make.
unfoldable pub load_loop : ℕ → Bytes → ℕ → Cpio → Outcome (Cpio × Option LoadError)
load_loop zero bytes pos c = running
load_loop (suc f) bytes pos c = elim (load_step bytes pos c) [
  | ret (next pos' c') ↦ load_loop f bytes pos' c'
  | ret (stop c' e) ↦ ret (c', e)
  | panic ↦ panic
  | exit n ↦ exit n
  | running ↦ running
]

-- `c.LoadFromData(data)`: what is loaded so far stays in `c` where an error is reported.
unfoldable pub load_from_data : Cpio → Bytes → Outcome (Cpio × Option LoadError)
load_from_data c bytes = load_loop (suc (length bytes)) bytes 0 c
