-- ===== src/Cpio.antt =====
-- cpio.go: the archive in memory. Its operations and their properties are in the modules below.
pub mod Path
pub mod Field
pub mod Load
pub mod Dump
pub mod RoundTrip
pub mod Edit
pub mod Steps
pub mod Ends
pub mod Usage
pub mod Patching
pub mod Backup
pub mod Restore
pub mod Files
pub mod Listing
pub mod Command
use magiskboot_go.Base.{ℕ, ◌^◌, List, [], Bytes, Option, none, some, bit_and, bit_or}
use magiskboot_go.Base.Dict.{Dict, lookup}

-- The file types and the mask of the mode field.
abbrev pub s_ifblk : ℕ
s_ifblk = 0o060000

abbrev pub s_ifchr : ℕ
s_ifchr = 0o020000

abbrev pub s_ifdir : ℕ
s_ifdir = 0o040000

abbrev pub s_iflnk : ℕ
s_iflnk = 0o120000

abbrev pub s_ifmt : ℕ
s_ifmt = 0o170000

abbrev pub s_ifreg : ℕ
s_ifreg = 0o100000

-- `CpioEntry`: the numbers are `uint32`.
pub record CpioEntry : Type 0 where
  pub mode : ℕ
  pub uid : ℕ
  pub gid : ℕ
  pub rdev_major : ℕ
  pub rdev_minor : ℕ
  pub content : Bytes

-- `Cpio`, without the handles that are held only while a file is loaded.
pub record Cpio : Type 0 where
  pub entries : Dict CpioEntry
  pub keys : List Bytes

abbrev pub new_cpio : Cpio
new_cpio = record { entries = []; keys = [] }

-- The zero value of `CpioEntry`, which a map gives for a key that it does not hold.
abbrev pub zero_entry : CpioEntry
zero_entry = record { mode = 0; uid = 0; gid = 0; rdev_major = 0; rdev_minor = 0; content = [] }

-- `c.Entries[name]`.
unfoldable pub entry_at : Cpio → Bytes → CpioEntry
unfolding lookup
entry_at c name = elim (lookup name c.entries) [ none ↦ zero_entry | some e ↦ e ]

-- What `LoadFromData` reports.
pub data LoadError : Type 0 where
  bad_header invalid_magic bad_number : LoadError
