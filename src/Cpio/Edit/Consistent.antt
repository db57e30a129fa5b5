-- ===== src/Cpio/Edit/Consistent.antt =====
-- The map and the key list of an archive hold the same keys, each once.
use magiskboot_go.Base.{ℕ, ◌+◌, ◌≡◌, arith, Bool, true, false, ◌&&◌, not, List, [], ◌∷◌, ◌++◌}
use magiskboot_go.Base.{
  Bytes, bytes_eq, bytes_eq_iff, bytes_eq_refl, bytes_eq_sound, keep, ◌==◌, if◌then◌else◌,
}
use magiskboot_go.Base.{◌↔◌, codes, has_prefix}
use magiskboot_go.Base.Dict.{Dict, insert, erase, lookup-insert, lookup-erase}
use magiskboot_go.Base.Sort.{count, count-sort, count-append}
use magiskboot_go.Cpio.{Cpio, CpioEntry}
use magiskboot_go.Cpio.Edit.{has, remove_by_value, remove_entry, rm_under, rm_path, add_entry, move}

abbrev pub one_if : Bool → ℕ
one_if b = if b then 1 else 0

-- Every key of the map is listed once, and no other key is listed.
abbrev pub IsConsistent : Cpio → Type 0
IsConsistent c = (k : Bytes) → count k c.keys ≡ one_if (has k c.entries)

pub has-insert :
    (k j : Bytes) (e : CpioEntry) (d : Dict CpioEntry)
    → has j (insert k e d) ≡ (if bytes_eq k j then true else has j d)
unfolding has
has-insert k j e d = ground (arith, lookup-insert k j e d)

pub has-erase :
    (k j : Bytes) (d : Dict CpioEntry)
    → has j (erase k d) ≡ (if bytes_eq k j then false else has j d)
unfolding has
has-erase k j d = ground (arith, lookup-erase k j d)

pub count-remove_by_value :
    (xs : List Bytes) (k j : Bytes)
    → count j (remove_by_value xs k) + one_if (bytes_eq k j)
      ≡ count j xs + one_if (bytes_eq k j && (count k xs == 0))
unfolding count remove_by_value
count-remove_by_value [] k j = ground arith
count-remove_by_value (x ∷ xs) k j =
    ground
      (arith, count-remove_by_value xs k j, bytes_eq_iff x k, bytes_eq_iff k j, bytes_eq_iff x j)

pub count-keep_others :
    (xs : List Bytes) (k j : Bytes)
    → count j (keep (λ x. not (bytes_eq x k)) xs) ≡ (if bytes_eq k j then 0 else count j xs)
unfolding count
count-keep_others [] k j = ground arith
count-keep_others (x ∷ xs) k j =
    ground (arith, count-keep_others xs k j, bytes_eq_iff x k, bytes_eq_iff k j, bytes_eq_iff x j)

pub remove_entry-IsConsistent :
    (c : Cpio) (k : Bytes) → IsConsistent c → IsConsistent (remove_entry c k)
unfolding remove_entry
remove_entry-IsConsistent c k h j =
    ground (
      arith,
      h j,
      h k,
      count-remove_by_value c.keys k j,
      has-erase k j c.entries,
      bytes_eq_sound k j,
    )

remove_if-IsConsistent :
    (b : Bool) (c : Cpio) (k : Bytes)
    → IsConsistent c
    → IsConsistent (if b then remove_entry c k else c)
remove_if-IsConsistent true c k h = remove_entry-IsConsistent c k h
remove_if-IsConsistent false c k h = h

rm_under-IsConsistent :
    (prefix : Bytes) (ks : List Bytes) (c : Cpio)
    → IsConsistent c
    → IsConsistent (rm_under prefix ks c)
unfolding rm_under
rm_under-IsConsistent prefix [] c h = h
rm_under-IsConsistent prefix (k ∷ ks) c h =
    rm_under-IsConsistent prefix ks (if has_prefix k prefix then remove_entry c k else c)
      (remove_if-IsConsistent (has_prefix k prefix) c k h)

-- Removal keeps the map and the key list together, whatever the order of the map's walk.
pub rm_path-IsConsistent :
    (range : Dict CpioEntry → List Bytes) (c : Cpio) (path : Bytes) (recursive : Bool)
    → IsConsistent c
    → IsConsistent (rm_path range c path recursive)
unfolding rm_path
rm_path-IsConsistent range c path false h = remove_if-IsConsistent (has path c.entries) c path h
rm_path-IsConsistent range c path true h =
    let c' = if has path c.entries then remove_entry c path else c in
    rm_under-IsConsistent (path ++ codes "/") (range c'.entries) c'
      (remove_if-IsConsistent (has path c.entries) c path h)

count-add_entry :
    (c : Cpio) (k j : Bytes) (e : CpioEntry)
    → count j (add_entry c k e).keys ≡ count j c.keys + one_if (bytes_eq k j)
unfolding add_entry count
count-add_entry c k j e =
    ground (arith, count-sort j (c.keys ++ k ∷ []), count-append j c.keys (k ∷ []))

-- An entry that is added to a consistent archive is listed once more than the map holds its key:
-- the archive stays consistent exactly where the key is new.
pub add_entry-IsConsistent :
    (c : Cpio) (k : Bytes) (e : CpioEntry)
    → IsConsistent c
    → IsConsistent (add_entry c k e) ↔ (has k c.entries ≡ false)
unfolding add_entry
add_entry-IsConsistent c k e h = (
  λ a.
      ground
        (arith, a k, h k, count-add_entry c k k e, has-insert k k e c.entries, bytes_eq_refl k),
  λ fresh j.
      ground (
        arith,
        h j,
        fresh,
        count-add_entry c k j e,
        has-insert k j e c.entries,
        bytes_eq_sound k j,
      ),
)

-- A move keeps an archive consistent exactly where its target is the source or a new key.
pub move-IsConsistent :
    (c : Cpio) (from to : Bytes)
    → IsConsistent c
    → IsConsistent (move c from to)
      ↔ ((if bytes_eq from to then false else has to c.entries) ≡ false)
unfolding move
move-IsConsistent c from to h = rw (← has-erase from to c.entries) (
    add_entry-IsConsistent
      (record { entries = erase from c.entries; keys = keep (λ k. not (bytes_eq k from)) c.keys })
      to _ (λ j. ground (arith, h j, count-keep_others c.keys from j, has-erase from j c.entries)))
