-- ===== src/Cpio/Steps/Listed.antt =====
-- Every key of the map is listed, at least once: what holds of an archive at the start, and is kept
-- by every step.
use magiskboot_go.Base.{◌≤◌, ◌≡◌, arith, [], ◌∷◌, Bytes, bytes_eq_sound}
use magiskboot_go.Base.{true, false, refl, contains}
use magiskboot_go.Base.Dict.{lookup}
use magiskboot_go.Base.Sort.{count, count-contains, count-append, count-sort}
use magiskboot_go.Cpio.{Cpio, new_cpio}
use magiskboot_go.Cpio.Edit.{has, remove_entry}
use magiskboot_go.Cpio.Edit.Consistent.{
  one_if, has-insert, has-erase, count-remove_by_value, count-keep_others,
}
use magiskboot_go.Cpio.Steps.{
  Step, removes, appends, takes_out, sorts, empties, Reach, here, and_then,
}

pub ListsAll : Cpio → Type 0
ListsAll c = (k : Bytes) → one_if (has k c.entries) ≤ count k c.keys

not-has-nil : (k : Bytes) → has k [] ≡ false
unfolding has lookup
not-has-nil k = refl

Step-ListsAll : {c d : Cpio} → Step c d → ListsAll c → ListsAll d
unfolding ListsAll remove_entry count
Step-ListsAll (removes c k) h j =
    ground
      (arith, h j, count-remove_by_value c.keys k j, has-erase k j c.entries, bytes_eq_sound k j)
Step-ListsAll (appends c k e) h j =
    ground
      (arith, h j, count-append j c.keys (k ∷ []), has-insert k j e c.entries, bytes_eq_sound k j)
Step-ListsAll (takes_out c k) h j =
    ground (arith, h j, count-keep_others c.keys k j, has-erase k j c.entries)
Step-ListsAll (sorts c) h j = ground (arith, h j, count-sort j c.keys)
Step-ListsAll (empties c) h j = ground (arith, not-has-nil j)

pub Reach-ListsAll : {c d : Cpio} → Reach c d → ListsAll c → ListsAll d
Reach-ListsAll here h = h
Reach-ListsAll (and_then r s) h = Step-ListsAll s (Reach-ListsAll r h)

pub new_cpio-ListsAll : ListsAll new_cpio
unfolding ListsAll
new_cpio-ListsAll j = ground (arith, not-has-nil j)

pub ListsAll-contains :
    (k : Bytes) (c : Cpio) → ListsAll c → has k c.entries ≡ true → contains c.keys k ≡ true
unfolding ListsAll
ListsAll-contains k c h e = count-contains k c.keys (ground (arith, h k, e))
