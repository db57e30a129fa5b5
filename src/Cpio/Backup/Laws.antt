-- ===== src/Cpio/Backup/Laws.antt =====
-- `Backup` of an archive that is as its original.
use magiskboot_go.Base.{◌≡◌, refl, ap, ◌++◌, Bool, List, [], ◌∷◌, Option, some, true}
use magiskboot_go.Base.{Bytes, codes, bytes_eq_refl, ret}
use magiskboot_go.Base.Dict.{Dict, insert, lookup}
use magiskboot_go.Base.Order.{bytes_compare_refl}
use magiskboot_go.Base.Sort.{sort}
use magiskboot_go.Compress.Xz.{XzLib}
use magiskboot_go.Cpio.{Cpio, CpioEntry, LoadError, new_cpio, entry_at}
use magiskboot_go.Cpio.Load.{load_from_data}
use magiskboot_go.Cpio.Edit.{rm, add_entry}
use magiskboot_go.Cpio.Restore.{add_backups}
use magiskboot_go.Cpio.Backup.{Recorded, backup_dir, merge, backup_against, backup}

merge-same :
    (lib : XzLib) (skip_compress : Bool) (c : Cpio) (ks : List Bytes) (r : Recorded)
    → merge lib skip_compress c c ks ks r ≡ r
unfolding merge
merge-same lib skip_compress c [] r = refl
merge-same lib skip_compress c (k ∷ ks) r =
    rw (merge, bytes_compare_refl k, bytes_eq_refl (entry_at c k).content)
      (merge-same lib skip_compress c ks r)

-- A walk of a map with one key gives that key.
abbrev pub WalksOne : (Dict CpioEntry → List Bytes) → Type 0
WalksOne range = (k : Bytes) (e : CpioEntry) → range ((k, e) ∷ []) ≡ k ∷ []

add_backups-one :
    (range : Dict CpioEntry → List Bytes)
    → WalksOne range
    → (k : Bytes) (e : CpioEntry) (c : Cpio)
    → add_backups ((k, e) ∷ []) (range ((k, e) ∷ [])) c
      ≡ record { entries = insert k e c.entries; keys = c.keys ++ k ∷ [] }
unfolding add_backups entry_at lookup
add_backups-one range one k e c = rw (add_backups, one k e, entry_at, bytes_eq_refl k) refl

-- `Backup` of an archive against a file from which that archive itself is loaded records no file:
-- its whole effect is that `.backup` is removed, with all below it, and added as an empty directory.
pub backup-same :
    (lib : XzLib) (range : Dict CpioEntry → List Bytes)
    → WalksOne range
    → (bytes : Bytes) (skip_compress : Bool) (c : Cpio) (e : Option LoadError)
    → load_from_data new_cpio bytes ≡ ret (c, e)
    → backup lib range (some bytes) skip_compress c
      ≡ ret (add_entry (rm range c (codes ".backup") true) (codes ".backup") backup_dir)
unfolding backup backup_against add_entry
backup-same lib range one bytes skip_compress c e h =
    let c1 = rm range c (codes ".backup") true in
    let start : Recorded = record { backups = (codes ".backup", backup_dir) ∷ []; rm_list = [] } in
    rw (h, merge-same lib skip_compress c1 c1.keys start)
      (ap (λ (d : Cpio). ret (record { entries = d.entries; keys = sort d.keys }))
        (add_backups-one range one (codes ".backup") backup_dir c1))
