-- ===== src/Cpio/Edit/Removal.antt =====
-- What is left of an archive behind a removal.
use magiskboot_go.Base.{◌≡◌, arith, Bool, true, false, ◌&&◌, ◌||◌, List, [], ◌∷◌, ◌++◌, ◌∙◌}
use magiskboot_go.Base.{Bytes, bytes_eq, bytes_eq_sound, none, some, if◌then◌else◌}
use magiskboot_go.Base.{codes, contains, has_prefix, Option-cases, ◌⊎◌, inl, inr}
use magiskboot_go.Base.Dict.{Dict, lookup, lookup-erase}
use magiskboot_go.Cpio.{Cpio, CpioEntry}
use magiskboot_go.Cpio.Edit.{has, remove_entry, rm_under, rm_path}

-- The walk of a map lists each of its keys.
abbrev pub ListsKeys : (Dict CpioEntry → List Bytes) → Type 0
ListsKeys range = (d : Dict CpioEntry) (k : Bytes) → has k d ≡ true → contains (range d) k ≡ true

lookup-rm_under :
    (prefix : Bytes) (ks : List Bytes) (c : Cpio) (k : Bytes)
    → lookup k (rm_under prefix ks c).entries
      ≡ (if has_prefix k prefix && contains ks k then none else lookup k c.entries)
unfolding rm_under contains remove_entry
lookup-rm_under prefix [] c k = ground arith
lookup-rm_under prefix (j ∷ ks) c k = ground (
  arith,
  lookup-rm_under prefix ks c k,
  lookup-rm_under prefix ks (remove_entry c j) k,
  lookup-erase j k c.entries,
  bytes_eq_sound j k,
)

has-some : (k : Bytes) (d : Dict CpioEntry) (e : CpioEntry) → lookup k d ≡ some e → has k d ≡ true
unfolding has
has-some k d e h = rw (has, h)

-- The archive behind the removal of the path itself.
abbrev without : Cpio → Bytes → Cpio
without c path = if has path c.entries then remove_entry c path else c

lookup-without :
    (c : Cpio) (path k : Bytes)
    → lookup k (without c path).entries ≡ (if bytes_eq path k then none else lookup k c.entries)
unfolding remove_entry has
lookup-without c path k = ground (arith, lookup-erase path k c.entries, bytes_eq_sound path k)

-- A removal takes the entry of the path out of the map, and if it is recursive also every entry
-- whose name continues the path behind a slash. All other entries stay as they are. This holds
-- for any order of the walk that lists every key of the map.
pub lookup-rm_path :
    (range : Dict CpioEntry → List Bytes)
    → ListsKeys range
    → (c : Cpio) (path : Bytes) (recursive : Bool) (k : Bytes)
    → lookup k (rm_path range c path recursive).entries ≡ (
        if bytes_eq path k || (recursive && has_prefix k (path ++ codes "/"))
        then none
        else lookup k c.entries)
unfolding rm_path
lookup-rm_path range lists c path false k = lookup-without c path k ∙ ground arith
lookup-rm_path range lists c path true k =
    let c' = without c path in
    ground (
      arith,
      lookup-rm_under (path ++ codes "/") (range c'.entries) c' k,
      lookup-without c path k,
      lists_some c'.entries k,
    )
  where
    lists_some :
        (d : Dict CpioEntry) (j : Bytes) → (contains (range d) j ≡ true) ⊎ (lookup j d ≡ none)
    lists_some d j = elim (Option-cases (lookup j d)) [
      | inl e ↦ inr e
      | inr (v, e) ↦ inl (lists d j (has-some j d v e))
    ]

-- The same for a removal that is not recursive, which makes no walk.
pub lookup-rm_path_flat :
    (range : Dict CpioEntry → List Bytes) (c : Cpio) (path k : Bytes)
    → lookup k (rm_path range c path false).entries
      ≡ (if bytes_eq path k then none else lookup k c.entries)
unfolding rm_path
lookup-rm_path_flat range c path k = lookup-without c path k
