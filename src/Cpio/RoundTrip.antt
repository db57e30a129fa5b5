-- ===== src/Cpio/RoundTrip.antt =====
-- Loading what was dumped.
pub mod Header
pub mod Entry
pub mod Step
pub mod Trailer
use magiskboot_go.Base.{
  ℕ, zero, suc, ◌+◌, ◌-◌, ◌*◌, ◌/◌, ◌%◌, ◌^◌, ◌≤◌, ◌<◌, ◌≡◌, refl, sym, ap, arith, ◌∙◌,
}
use magiskboot_go.Base.{
  List, [], ◌∷◌, ◌++◌, append_assoc, append-nil, Bytes, length, length-append, All, contains,
}
use magiskboot_go.Base.{
  Outcome, ret, u64_mod, Option, none, some, true, false, bytes_eq, bytes_eq_sound, if◌then◌else◌,
}
use magiskboot_go.Base.Dict.{lookup, lookup-insert}
use magiskboot_go.Cpio.{Cpio, CpioEntry, LoadError, entry_at, new_cpio}
use magiskboot_go.Cpio.Load.{load_loop, load_from_data}
use magiskboot_go.Cpio.Dump.{Written, dump}
use magiskboot_go.Cpio.Dump.Write.{IsLossless, dump-image}
use magiskboot_go.Cpio.Dump.Image.{
  FitsEntry, entry_image, trailer_image, image_from, image, length-entry_image, gap, length-header,
}
use Entry.{IsName, with_entry}
use Step.{load_step-entry}
use Trailer.{load_step-trailer}

-- What an archive must be for its file to hold it: every listed name can be loaded, and every
-- number fits in its field.
pub record IsStorable (c : Cpio) (name : Bytes) : Type 0 where
  pub is_name : IsName name
  pub fits : FitsEntry name (entry_at c name)

-- An archive with the entries of `c` under the listed names added in turn.
unfoldable pub with_entries : Cpio → List Bytes → Cpio → Cpio
with_entries c [] acc = acc
with_entries c (name ∷ names) acc = with_entries c names (with_entry acc name (entry_at c name))

keys-with_entries :
    (c : Cpio) (names : List Bytes) (acc : Cpio)
    → (with_entries c names acc).keys ≡ acc.keys ++ names
unfolding with_entries
keys-with_entries c [] acc = sym (append-nil acc.keys)
keys-with_entries c (name ∷ names) acc =
    keys-with_entries c names (with_entry acc name (entry_at c name))
    ∙ append_assoc acc.keys (name ∷ []) names

lookup-with_entries :
    (c : Cpio) (names : List Bytes) (acc : Cpio) (k : Bytes)
    → lookup k (with_entries c names acc).entries
      ≡ (if contains names k then some (entry_at c k) else lookup k acc.entries)
unfolding with_entries contains
lookup-with_entries c [] acc k = refl
lookup-with_entries c (name ∷ names) acc k = ground (
  arith,
  lookup-with_entries c names (with_entry acc name (entry_at c name)) k,
  lookup-insert name k (entry_at c name) acc.entries,
  bytes_eq_sound name k,
)

entry_aligned :
    (inode : ℕ) (name : Bytes) (e : CpioEntry)
    → inode < 2 ^ 32
    → FitsEntry name e
    → (length (entry_image inode name e) % 4 ≡ 0) × (1 ≤ length (entry_image inode name e))
entry_aligned inode name e h f = (
  omega (arith, length-entry_image inode name e h f),
  omega (arith, length-entry_image inode name e h f),
)

load_loop-image :
    (c : Cpio) (names : List Bytes) (f : ℕ) (pre : Bytes) (inode : ℕ) (acc : Cpio)
    → All (IsStorable c) names
    → length pre % 4 ≡ 0
    → inode + length names < 2 ^ 32
    → length (pre ++ image_from c names inode) + 8 < u64_mod
    → length names < f
    → load_loop f (pre ++ image_from c names inode) (length pre) acc
      ≡ ret (with_entries c names acc, none)
unfolding load_loop image_from with_entries
load_loop-image c names zero pre inode acc ok al fit small fuel = absurd (omega arith)
load_loop-image c [] (suc f) pre inode acc ok al fit small fuel =
    rw (load_loop, load_step-trailer pre inode acc (omega arith) al small)
load_loop-image c (name ∷ names) (suc f) pre inode acc (ok, oks) al fit small fuel =
    let e = entry_at c name in
    let img = entry_image inode name e in
    let rest = image_from c names (inode + 1) in
    let il : inode < 2 ^ 32 = omega arith in
    rw (load_loop, load_step-entry pre rest inode name e acc il ok.fits ok.is_name al small)
      (rw (← length-append pre img, ← append_assoc pre img rest)
        (load_loop-image c names f (pre ++ img) (inode + 1) (with_entry acc name e) oks
          (omega (arith, al, length-append pre img, (entry_aligned inode name e il ok.fits).0))
          (omega arith) (rw (append_assoc pre img rest) small) (omega arith)))

-- Every entry takes a byte at least, so the loop's rounds are enough.
le-length-image_from :
    (c : Cpio) (names : List Bytes) (inode : ℕ)
    → All (IsStorable c) names
    → inode + length names < 2 ^ 32
    → length names ≤ length (image_from c names inode)
unfolding image_from
le-length-image_from c [] inode ok fit = omega arith
le-length-image_from c (name ∷ names) inode (ok, oks) fit = omega (
  arith,
  length-append (entry_image inode name (entry_at c name)) (image_from c names (inode + 1)),
  (entry_aligned inode name (entry_at c name) (omega arith) ok.fits).1,
  le-length-image_from c names (inode + 1) oks (omega arith),
)

pub load_from_data-with_entries :
    (c : Cpio)
    → All (IsStorable c) c.keys
    → 300000 + length c.keys < 2 ^ 32
    → length (image c) + 8 < u64_mod
    → load_from_data new_cpio (image c) ≡ ret (with_entries c c.keys new_cpio, none)
unfolding load_from_data image
load_from_data-with_entries c ok fit small =
    load_loop-image c c.keys (suc (length (image_from c c.keys 300000))) [] 300000 new_cpio ok
      (omega arith) fit small (omega (arith, le-length-image_from c c.keys 300000 ok fit))

-- The image of an archive is loaded into an archive with the same keys and entries.
pub load_from_data-image :
    (c : Cpio)
    → All (IsStorable c) c.keys
    → 300000 + length c.keys < 2 ^ 32
    → length (image c) + 8 < u64_mod
    → (c' : Cpio) × (load_from_data new_cpio (image c) ≡ ret (c', none))
      × (c'.keys ≡ c.keys)
      × ((k : Bytes)
          → lookup k c'.entries ≡ (if contains c.keys k then some (entry_at c k) else none))
unfolding lookup
load_from_data-image c ok fit small = (
  with_entries c c.keys new_cpio,
  load_from_data-with_entries c ok fit small,
  keys-with_entries c c.keys new_cpio,
  λ k. lookup-with_entries c c.keys new_cpio k,
)

pub names_fit :
    (c : Cpio) (names : List Bytes)
    → All (IsStorable c) names
    → All (λ name. FitsEntry name (entry_at c name)) names
names_fit c [] _ = tt
names_fit c (name ∷ names) (ok, oks) = (ok.fits, names_fit c names oks)

-- An archive that `Dump` writes into an empty file, where every write succeeds, is loaded from the
-- bytes of that file without an error, into an archive with the same key list. Under each of the
-- keys it has the entry of the dumped archive, and it has no other entries. This holds where every
-- key is a name that can be loaded (not `.`, `..` or the trailer's, and without a NUL at its end),
-- the numbers fit in their fields, the inode numbers fit in 32 bits, and the image ends at least 16
-- bytes before the end of `uint64`.
pub load_from_data-dump :
    {F : Type 0} (write : F → Bytes → Written F) (contents : F → Bytes)
    → IsLossless write contents
    → (c : Cpio) (f : F) → contents f ≡ []
    → All (IsStorable c) c.keys
    → 300000 + length c.keys < 2 ^ 32
    → length (image c) + 16 < u64_mod
    → (f' : F) × (c' : Cpio) × (dump write c f ≡ ret (some f'))
      × (load_from_data new_cpio (contents f') ≡ ret (c', none))
      × (c'.keys ≡ c.keys)
      × ((k : Bytes)
          → lookup k c'.entries ≡ (if contains c.keys k then some (entry_at c k) else none))
load_from_data-dump write contents lossless c f empty ok fit small =
    let (f', run, holds) =
      dump-image write contents lossless c f (names_fit c c.keys ok) fit small in
    let (c', loaded, keys, entries) = load_from_data-image c ok fit (omega arith) in
    let same : contents f' ≡ image c = holds ∙ ap (λ (b : Bytes). b ++ image c) empty in
    (f', c', run, rw same loaded, keys, entries)
