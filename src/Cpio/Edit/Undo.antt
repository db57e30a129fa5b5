-- ===== src/Cpio/Edit/Undo.antt =====
-- Edits that undo one another.
use magiskboot_go.Base.{
  ◌≡◌, ◌∙◌, refl, ap, sym, arith, Bool, true, false, List, Option, none, some, if◌then◌else◌, Bytes,
  bytes_eq, bytes_eq_sound, bytes_eq_refl,
}
use magiskboot_go.Base.Dict.{Dict, lookup, erase, lookup-insert, lookup-erase}
use magiskboot_go.Cpio.{Cpio, CpioEntry, entry_at}
use magiskboot_go.Cpio.Edit.{has, add_entry, rm_path, move}
use magiskboot_go.Cpio.Edit.Consistent.{IsConsistent, add_entry-IsConsistent, rm_path-IsConsistent}
use magiskboot_go.Cpio.Edit.Removal.{lookup-rm_path_flat}

has-none : (k : Bytes) (d : Dict CpioEntry) → has k d ≡ false → lookup k d ≡ none
has-none k d h = go (lookup k d) refl
  where
    go : (o : Option CpioEntry) → lookup k d ≡ o → lookup k d ≡ none
    go none e = e
    go (some x) e = let t : has k d ≡ true = unfold has in rw (has, e) refl in cc

-- An entry that is added under a new key and removed again leaves the archive with the map that it
-- had, and with every key of it listed once.
pub rm_path-add_entry :
    (range : Dict CpioEntry → List Bytes) (c : Cpio) (key : Bytes) (e : CpioEntry)
    → IsConsistent c
    → has key c.entries ≡ false
    → IsConsistent (rm_path range (add_entry c key e) key false)
      × ((k : Bytes)
          → lookup k (rm_path range (add_entry c key e) key false).entries ≡ lookup k c.entries)
rm_path-add_entry range c key e ok fresh = (
  rm_path-IsConsistent range (add_entry c key e) key false
      ((add_entry-IsConsistent c key e ok).1 fresh),
  λ k. lookup-rm_path_flat range (add_entry c key e) key k ∙ go k (bytes_eq key k) refl,
)
  where
    go :
        (k : Bytes) (b : Bool)
        → bytes_eq key k ≡ b
        → (if b then none else lookup k (add_entry c key e).entries) ≡ lookup k c.entries
    go k true s =
        sym (has-none key c.entries fresh)
        ∙ ap (λ (x : Bytes). lookup x c.entries) (bytes_eq_sound key k s)
    go k false s = unfold add_entry in lookup-insert key k e c.entries ∙ rw (s) refl

lookup-move :
    (c : Cpio) (from to k : Bytes)
    → lookup k (move c from to).entries ≡ (
        if bytes_eq to k
        then some (entry_at c from)
        else if bytes_eq from k
        then none
        else lookup k c.entries)
unfolding move add_entry
lookup-move c from to k = ground (
  arith,
  lookup-insert to k (entry_at c from) (erase from c.entries),
  lookup-erase from k c.entries,
)

entry_at-some :
    (c : Cpio) (k : Bytes) (e : CpioEntry) → lookup k c.entries ≡ some e → entry_at c k ≡ e
unfolding entry_at
entry_at-some c k e h = rw (entry_at, h) refl

-- An entry that is moved to a new key and back leaves the map that it was taken from.
move-move :
    (c : Cpio) (from to : Bytes) (e : CpioEntry)
    → lookup from c.entries ≡ some e
    → has to c.entries ≡ false
    → (k : Bytes) → lookup k (move (move c from to) to from).entries ≡ lookup k c.entries
move-move c from to e there fresh k =
    let at_from : entry_at c from ≡ e = entry_at-some c from e there in
    let at_to : entry_at (move c from to) to ≡ e =
      entry_at-some (move c from to) to e
        (lookup-move c from to to ∙ rw (bytes_eq_refl to, at_from) refl) in
    ground (
      arith,
      at_from,
      at_to,
      there,
      has-none to c.entries fresh,
      lookup-move (move c from to) to from k,
      lookup-move c from to k,
      bytes_eq_sound from k,
      bytes_eq_sound to k,
    )
