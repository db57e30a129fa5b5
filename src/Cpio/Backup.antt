-- ===== src/Cpio/Backup.antt =====
-- `Backup`: what an archive changes against an original is recorded in it.
pub mod Laws
pub mod Merge
use magiskboot_go.Base.{Bool, true, List, [], ◌∷◌, ◌++◌, Option, none, some, Ordering}
use magiskboot_go.Base.{Bytes, codes, bytes_eq, bytes_compare, length}
use magiskboot_go.Base.{Outcome, ret, panic, ◌>>=◌, ◌==◌, if◌then◌else◌}
use magiskboot_go.Base.Dict.{Dict, insert}
use magiskboot_go.Base.Sort.{sort}
use magiskboot_go.Compress.Xz.{XzLib}
use magiskboot_go.Cpio.{Cpio, CpioEntry, entry_at, new_cpio, s_ifdir, s_ifreg}
use magiskboot_go.Cpio.Load.{load_from_data}
use magiskboot_go.Cpio.Edit.{rm}
use magiskboot_go.Cpio.Patching.{compress_entry}
use magiskboot_go.Cpio.Restore.{add_backups, rmlist_name}

-- What the merge of the two key lists gathers.
pub record Recorded : Type 0 where
  pub backups : Dict CpioEntry
  pub rm_list : Bytes

abbrev pub backup_dir : CpioEntry
backup_dir = record {
  mode = s_ifdir;
  uid = 0;
  gid = 0;
  rdev_major = 0;
  rdev_minor = 0;
  content = [];
}

-- `backupFunc`: the path of the backup is made only to be printed, and the entry, compressed
-- unless that is skipped, is kept under its own name.
unfoldable pub backup_one : XzLib → Bool → Recorded → Bytes → CpioEntry → Recorded
unfolding insert compress_entry
backup_one lib skip_compress r name e = record r {
  backups = insert name (if skip_compress then e else (compress_entry lib e).0) r.backups;
}

-- `recordFunc`.
unfoldable pub record_one : Recorded → Bytes → Recorded
record_one r name = record r { rm_list = r.rm_list ++ name ++ 0 ∷ [] }

module _ (lib : XzLib) (skip_compress : Bool) (o c : Cpio) where
  unfoldable pub backup_rest : List Bytes → Recorded → Recorded
  unfolding backup_one entry_at
  backup_rest [] r = r
  backup_rest (l ∷ ls) r = backup_rest ls (backup_one lib skip_compress r l (entry_at o l))

  unfoldable pub record_rest : List Bytes → Recorded → Recorded
  unfolding record_one
  record_rest [] r = r
  record_rest (x ∷ xs) r = record_rest xs (record_one r x)

  -- The merge of the key lists of the original and of the archive, and the loops over what is left
  -- of either.
  unfoldable pub merge : List Bytes → List Bytes → Recorded → Recorded
  unfolding backup_rest record_rest bytes_compare bytes_eq backup_one record_one entry_at
  merge [] rs r = record_rest rs r
  merge (l ∷ ls) [] r = backup_rest (l ∷ ls) r
  merge (l ∷ ls) (x ∷ rs) r = elim (bytes_compare l x) [
    | Ordering.lt ↦ merge ls (x ∷ rs) (backup_one lib skip_compress r l (entry_at o l))
    | Ordering.eq ↦ merge ls rs (
        if bytes_eq (entry_at c x).content (entry_at o l).content
        then r
        else backup_one lib skip_compress r l (entry_at o l))
    | Ordering.gt ↦ merge (l ∷ ls) rs (record_one r x)
  ]

-- The removal list becomes a file, where it is not empty.
unfoldable pub with_rm_list : Recorded → Dict CpioEntry
unfolding insert
with_rm_list r =
    if length r.rm_list == 0
    then r.backups
    else insert rmlist_name
        (record {
          mode = s_ifreg;
          uid = 0;
          gid = 0;
          rdev_major = 0;
          rdev_minor = 0;
          content = r.rm_list;
        })
        r.backups

-- Behind the loading of the original.
unfoldable pub backup_against : XzLib → (Dict CpioEntry → List Bytes) → Bool → Cpio → Cpio → Cpio
unfolding rm merge with_rm_list add_backups sort
backup_against lib range skip_compress original archive =
    let o = rm range original (codes ".backup") true in
    let c = rm range archive (codes ".backup") true in
    let start : Recorded = record { backups = (codes ".backup", backup_dir) ∷ []; rm_list = [] } in
    let backups = with_rm_list (merge lib skip_compress o c o.keys c.keys start) in
    let c' = add_backups backups (range backups) c in record c' { keys = sort c'.keys }

-- `c.Backup(origin, skip_compress)`, on the bytes of the file `origin`. Where that cannot be opened
-- or mapped, the second `Close` meets a mapping that is not there, and panics.
unfoldable pub backup :
    XzLib → (Dict CpioEntry → List Bytes) → Option Bytes → Bool → Cpio → Outcome Cpio
backup lib range origin skip_compress c = elim origin [
  | none ↦ panic
  | some bytes ↦
      load_from_data new_cpio bytes >>= λ o. ret (backup_against lib range skip_compress o.0 c)
]
