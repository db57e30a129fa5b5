-- ===== src/Cpio/Restore/Laws.antt =====
-- `Restore` of an archive without backups.
use magiskboot_go.Base.{◌≡◌, refl, false, List, All, [], ◌∷◌}
use magiskboot_go.Base.{Bytes, codes, has_prefix, ret}
use magiskboot_go.Base.Dict.{Dict}
use magiskboot_go.Compress.Xz.{XzLib}
use magiskboot_go.Cpio.{Cpio, CpioEntry}
use magiskboot_go.Cpio.Edit.{rm}
use magiskboot_go.Cpio.Restore.{Found, gather, put_back, restore}

gather-none :
    (lib : XzLib) (c : Cpio) (names : List Bytes) (found : Found)
    → All (λ name. has_prefix name (codes ".backup/") ≡ false) names
    → gather lib c names found ≡ ret found
unfolding gather
gather-none lib c [] found h = refl
gather-none lib c (name ∷ names) found (h, hs) = rw (h) (gather-none lib c names found hs)

-- `Restore` of an archive with no key below `.backup` empties the map and leaves the key list, less
-- `.backup` itself, as it is: the keys that are listed have no entries.
pub restore-none :
    (lib : XzLib) (range : Dict CpioEntry → List Bytes) (c : Cpio)
    → All (λ name. has_prefix name (codes ".backup/") ≡ false) c.keys
    → restore lib range c
      ≡ ret (record { entries = []; keys = (rm range c (codes ".backup") false).keys })
unfolding restore put_back
restore-none lib range c h =
    rw (gather-none lib c c.keys (record { backups = []; rm_list = [] }) h) refl
