-- ===== src/Cpio/Restore.antt =====
-- `Restore`: the files that a backup inside the archive holds are put back.
pub mod Laws
use magiskboot_go.Base.{◌-◌, false, ◌&&◌, List, [], ◌∷◌, ◌++◌}
use magiskboot_go.Base.{Bytes, codes, bytes_eq, has_prefix, has_suffix, split, length, take, drop}
use magiskboot_go.Base.{Outcome, ret, ◌>>=◌, ◌==◌, if◌then◌else◌}
use magiskboot_go.Base.Dict.{Dict, insert}
use magiskboot_go.Base.Sort.{sort}
use magiskboot_go.Compress.Xz.{XzLib}
use magiskboot_go.Cpio.{Cpio, CpioEntry, entry_at}
use magiskboot_go.Cpio.Edit.{rm}
use magiskboot_go.Cpio.Patching.{decompress_entry}

abbrev pub rmlist_name : Bytes
rmlist_name = codes ".backup/.rmlist"

abbrev pub magisk_name : Bytes
magisk_name = codes ".backup/.magisk"

-- What the first loop gathers.
pub record Found : Type 0 where
  pub backups : Dict CpioEntry
  pub rm_list : Bytes

-- A backed up file: its name without `.backup/`, and without `.xz` where it is decompressed.
unfoldable pub restored : XzLib → Bytes → CpioEntry → Outcome (Bytes × CpioEntry)
unfolding has_suffix decompress_entry
restored lib name e =
    if has_suffix name (codes ".xz")
    then (decompress_entry lib e >>= λ r.
        ret (if r.1 then (take (length name - 3 - 8) (drop 8 name), r.0) else (drop 8 name, r.0)))
    else ret (drop 8 name, e)

unfoldable pub gather_one : XzLib → Cpio → Found → Bytes → Outcome Found
unfolding has_prefix bytes_eq restored entry_at insert
gather_one lib c found name =
    if has_prefix name (codes ".backup/")
    then (if bytes_eq name rmlist_name
        then ret (record found { rm_list = found.rm_list ++ (entry_at c name).content })
        else if bytes_eq name magisk_name
        then ret found
        else (restored lib name (entry_at c name) >>= λ r.
            ret (record found { backups = insert r.0 r.1 found.backups })))
    else ret found

unfoldable pub gather : XzLib → Cpio → List Bytes → Found → Outcome Found
unfolding gather_one
gather lib c [] found = ret found
gather lib c (name ∷ names) found = gather_one lib c found name >>= λ f. gather lib c names f

module _ (range : Dict CpioEntry → List Bytes) where
  -- The files of the removal list.
  unfoldable pub rm_listed : List Bytes → Cpio → Cpio
  unfolding rm
  rm_listed [] c = c
  rm_listed (name ∷ names) c =
      rm_listed names (if length name == 0 then c else rm range c name false)

abbrev get_entry : Dict CpioEntry → Bytes → CpioEntry
get_entry d k = entry_at (record { entries = d; keys = [] }) k

-- The backups are added, in the order in which the runtime walks their map.
unfoldable pub add_backups : Dict CpioEntry → List Bytes → Cpio → Cpio
unfolding insert entry_at
add_backups d [] c = c
add_backups d (k ∷ ks) c =
    add_backups d ks
      (record { entries = insert k (get_entry d k) c.entries; keys = c.keys ++ k ∷ [] })

-- Behind the first loop.
unfoldable pub put_back : (Dict CpioEntry → List Bytes) → Found → Cpio → Cpio
unfolding rm rm_listed add_backups sort split
put_back range found c =
    let c1 = rm range c (codes ".backup") false in
    if length found.rm_list == 0 && length found.backups == 0
    then record c1 { entries = [] }
    else (let c2 = rm_listed range (split found.rm_list 0) c1 in
        let c3 = add_backups found.backups (range found.backups) c2 in
        record c3 { keys = sort c3.keys })

-- `c.Restore()`.
unfoldable pub restore : XzLib → (Dict CpioEntry → List Bytes) → Cpio → Outcome Cpio
restore lib range c = gather lib c c.keys (record { backups = []; rm_list = [] }) >>= λ found.
    ret (put_back range found c)
