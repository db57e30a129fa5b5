-- ===== src/Tests/Archive.antt =====
-- The archive of cpio.go on concrete data.
use magiskboot_go.Base.{◌≡◌, ◌↔◌, refl, arith, true, false, if◌then◌else◌}
use magiskboot_go.Base.{
  List, [], ◌∷◌, ◌++◌, Bytes, codes, length, ret, running, Option, none, some, contains,
}
use magiskboot_go.Base.{bytes_eq, bytes_eq_sound, All, trim_right, has_prefix, ◌&&◌, ◌||◌, ◌≢◌}
use magiskboot_go.Base.Dict
use magiskboot_go.Base.Dict.{Dict, lookup}
use magiskboot_go.Base.Sort.{count}
use magiskboot_go.Cpio.{Cpio, CpioEntry, new_cpio, entry_at, s_ifdir}
use magiskboot_go.Cpio.Load.{load_from_data}
use magiskboot_go.Cpio.Load.Ends.{load_from_data_ends}
use magiskboot_go.Cpio.Dump.{Written, dump, header, fields}
use magiskboot_go.Cpio.Field.{x08, low_digits}
use magiskboot_go.Cpio.Dump.Image.{FitsEntry, image, image_from, entry_image, trailer_image}
use magiskboot_go.Cpio.Dump.Write.{IsLossless, dump-image}
use magiskboot_go.Cpio.RoundTrip.{IsStorable, load_from_data-dump}
use magiskboot_go.Cpio.Edit.{has, rm, rm_path, add_entry, move}
use magiskboot_go.Env.{check_env}
use magiskboot_go.Cpio.Patching.{
  patch, patch_loop, patch_round, remove_in_walk, is_fstab, patch_content,
}
use magiskboot_go.Cpio.Patching.Laws.{patch-same}
use magiskboot_go.Cpio.Edit.Consistent.{
  IsConsistent, rm_path-IsConsistent, add_entry-IsConsistent, move-IsConsistent,
}
use magiskboot_go.Cpio.Edit.Undo.{rm_path-add_entry}
use magiskboot_go.Cpio.Edit.Removal.{ListsKeys, lookup-rm_path}

abbrev pub init : CpioEntry
init = record {
  mode = 0o100750;
  uid = 0;
  gid = 2000;
  rdev_major = 0;
  rdev_minor = 0;
  content = codes "hello";
}

abbrev pub sbin : CpioEntry
sbin = record { mode = s_ifdir; uid = 0; gid = 0; rdev_major = 0; rdev_minor = 0; content = [] }

abbrev pub archive : Cpio
archive = record {
  entries = (codes "init", init) ∷ (codes "sbin", sbin) ∷ [];
  keys = codes "init" ∷ codes "sbin" ∷ [];
}

-- A file in memory.
abbrev append : Bytes → Bytes → Written Bytes
append f b = record { file = f ++ b; count = length b; is_err = false }

append-IsLossless : IsLossless append (λ f. f)
append-IsLossless = record { appends = λ f b. refl; counts = λ f b. refl; succeeds = λ f b. refl }

pub archive-IsStorable : All (IsStorable archive) archive.keys
unfolding entry_at trim_right
archive-IsStorable = (
  record {
    is_name = record { no_nul_at_end = refl; not_dot = cc; not_dot_dot = cc; not_trailer = cc };
    fits = omega arith;
  },
  (
    record {
      is_name = record { no_nul_at_end = refl; not_dot = cc; not_dot_dot = cc; not_trailer = cc };
      fits = omega arith;
    },
    tt,
  ),
)

archive-FitsEntry : All (λ name. FitsEntry name (entry_at archive name)) archive.keys
unfolding entry_at
archive-FitsEntry = (omega arith, (omega arith, tt))

pub length_image : length (image archive) ≡ 364
unfolding image image_from entry_image trailer_image header fields x08 low_digits entry_at
length_image = refl

load_from_data-dump_example :
    (f' : Bytes) × (c' : Cpio) × (dump append archive [] ≡ ret (some f'))
    × (load_from_data new_cpio f' ≡ ret (c', none))
    × (c'.keys ≡ archive.keys)
    × ((k : Bytes)
        → lookup k c'.entries
          ≡ (if contains archive.keys k then some (entry_at archive k) else none))
load_from_data-dump_example =
    load_from_data-dump append (λ f. f) append-IsLossless archive [] refl archive-IsStorable
      (omega arith) (omega (arith, length_image))

load_from_data_ends_example : load_from_data archive (codes "070701") ≢ running
load_from_data_ends_example = load_from_data_ends archive (codes "070701") (omega arith)

keys_in_order : Dict CpioEntry → List Bytes
keys_in_order = Dict.keys

keys_in_order-ListsKeys : ListsKeys keys_in_order
unfolding keys_in_order has lookup contains
keys_in_order-ListsKeys [] k h = h
keys_in_order-ListsKeys ((j, e) ∷ d) k h = ground (arith, keys_in_order-ListsKeys d k)

archive-IsConsistent : IsConsistent archive
unfolding count has lookup
archive-IsConsistent k =
    ground (arith, bytes_eq_sound (codes "init") k, bytes_eq_sound (codes "sbin") k, apart)
  where
    apart : bytes_eq (codes "init") (codes "sbin") ≡ false
    apart = unfold bytes_eq in refl

lookup-rm_path_example :
    lookup (codes "sbin/su") (rm_path keys_in_order archive (codes "sbin") true).entries ≡ (
      if bytes_eq (codes "sbin") (codes "sbin/su")
        || (true && has_prefix (codes "sbin/su") (codes "sbin" ++ codes "/"))
      then none
      else lookup (codes "sbin/su") archive.entries)
lookup-rm_path_example =
    lookup-rm_path keys_in_order keys_in_order-ListsKeys archive (codes "sbin") true
      (codes "sbin/su")

rm_path-IsConsistent_example : IsConsistent (rm_path keys_in_order archive (codes "init") false)
rm_path-IsConsistent_example =
    rm_path-IsConsistent keys_in_order archive (codes "init") false archive-IsConsistent

add_entry-IsConsistent_example :
    IsConsistent (add_entry archive (codes "init") sbin)
    ↔ (has (codes "init") archive.entries ≡ false)
add_entry-IsConsistent_example =
    add_entry-IsConsistent archive (codes "init") sbin archive-IsConsistent

move-IsConsistent_example : IsConsistent (move archive (codes "init") (codes "sbin")) ↔ (
    (if bytes_eq (codes "init") (codes "sbin") then false else has (codes "sbin") archive.entries)
    ≡ false)
move-IsConsistent_example =
    move-IsConsistent archive (codes "init") (codes "sbin") archive-IsConsistent

dump-image_example :
    (f' : Bytes) × (dump append archive [] ≡ ret (some f')) × (f' ≡ [] ++ image archive)
dump-image_example =
    dump-image append (λ f. f) append-IsLossless archive [] archive-FitsEntry (omega arith)
      (omega (arith, length_image))

-- Neither variable is set.
abbrev no_env : Bytes → Option Bytes
no_env key = none

abbrev with_verity_key : Cpio
with_verity_key = record {
  entries = archive.entries ++ (codes "verity_key", init) ∷ [];
  keys = archive.keys ++ codes "verity_key" ∷ [];
}

patch-archive : patch keys_in_order no_env with_verity_key ≡ ret archive
unfolding patch patch_loop patch_round check_env is_fstab patch_content entry_at bytes_eq has_prefix
    lookup remove_in_walk rm
patch-archive = refl

patch-same_example :
    lookup (codes "init") archive.entries ≡ lookup (codes "init") with_verity_key.entries
patch-same_example =
    patch-same keys_in_order no_env with_verity_key archive (codes "init") patch-archive (λ e. cc)

no_su : has (codes "sbin/su") archive.entries ≡ false
unfolding has lookup
no_su = refl

rm_path-add_entry_example :
    IsConsistent
      (rm_path keys_in_order (add_entry archive (codes "sbin/su") init) (codes "sbin/su") false)
    × ((k : Bytes)
        → lookup k
            (rm_path keys_in_order
              (add_entry archive (codes "sbin/su") init)
              (codes "sbin/su")
              false).entries
          ≡ lookup k archive.entries)
rm_path-add_entry_example =
    rm_path-add_entry keys_in_order archive (codes "sbin/su") init archive-IsConsistent no_su

init_there : lookup (codes "init") archive.entries ≡ some init
unfolding lookup
init_there = refl
