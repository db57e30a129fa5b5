-- ===== src/Cpio/Steps.antt =====
-- The changes that the commands of cpio.go make to an archive in memory, as steps.
pub mod Loaded
pub mod Reached
pub mod Listed
use magiskboot_go.Base.{not, List, [], ◌∷◌, ◌++◌, Bytes, bytes_eq, keep}
use magiskboot_go.Base.Dict.{insert, erase}
use magiskboot_go.Base.Sort.{sort}
use magiskboot_go.Cpio.{Cpio, CpioEntry}
use magiskboot_go.Cpio.Edit.{remove_entry}

-- One change: an entry is removed with one listing of its key, an entry is put under a key that is
-- listed once more, a key is taken out with all its listings, the key list is sorted, or the map
-- is emptied.
pub data Step : Cpio → Cpio → Type 0 where
  removes : (c : Cpio) (k : Bytes) → Step c (remove_entry c k)
  appends :
      (c : Cpio) (k : Bytes) (e : CpioEntry)
      → Step c (record { entries = insert k e c.entries; keys = c.keys ++ k ∷ [] })
  takes_out :
      (c : Cpio) (k : Bytes)
      → Step c
          (record { entries = erase k c.entries; keys = keep (λ j. not (bytes_eq j k)) c.keys })
  sorts : (c : Cpio) → Step c (record { entries = c.entries; keys = sort c.keys })
  empties : (c : Cpio) → Step c (record { entries = []; keys = c.keys })

-- What is reached in any number of steps.
pub data Reach (c : Cpio) : Cpio → Type 0 where
  here : Reach c c
  and_then : {d e : Cpio} → Reach c d → Step d e → Reach c e

pub Reach-trans : {c d e : Cpio} → Reach c d → Reach d e → Reach c e
Reach-trans r here = r
Reach-trans r (and_then q s) = and_then (Reach-trans r q) s
