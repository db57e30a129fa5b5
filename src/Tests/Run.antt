-- ===== src/Tests/Run.antt =====
-- A run of the cpio commands on a disk that holds one file, and a path.
use magiskboot_go.Base.{List, All, join}
use magiskboot_go.Cpio.Path.{slash, norm_path}
use magiskboot_go.Cpio.Path.Safe.{IsComponent, norm_path-IsComponent}
use magiskboot_go.Base.{
  ◌≡◌, refl, arith, true, false, [], ◌∷◌, ◌++◌, none, some, Bytes, codes, length, has_prefix, split,
  bytes_eq,
}
use magiskboot_go.Cpio.Edit.{mv, move}
use magiskboot_go.Base.{ret, running, ◌+◌, ◌<◌, ◌≢◌, u64_mod, ltb}
use magiskboot_go.Cpio.Command.Ends.{cpio_commands_ends}
use magiskboot_go.Base.Dict
use magiskboot_go.Base.Dict.{lookup}
use magiskboot_go.Base.{contains, trim_right, if◌then◌else◌}
use magiskboot_go.Cpio.Load.{load_from_data}
use magiskboot_go.Cpio.Dump.{header, fields}
use magiskboot_go.Cpio.Field.{x08, low_digits}
use magiskboot_go.Cpio.{Cpio, CpioEntry, new_cpio, entry_at}
use magiskboot_go.Cpio.Load.Storable.{load_from_data-IsStorable}
use magiskboot_go.Cpio.RoundTrip.{IsStorable, with_entries, load_from_data-with_entries}
use magiskboot_go.Cpio.Dump.Image.{image, image_from, entry_image, trailer_image}
use magiskboot_go.Cpio.Files.{Host, FileInfo}
use magiskboot_go.Cpio.Command.{
  World, State, load_cli, dump_to, run_mv, run_command, run_commands, dispatch, cpio_commands,
}
use magiskboot_go.Cpio.Command.Edits.{cpio_commands-lists}
use magiskboot_go.Cpio.Edit.{has}
use magiskboot_go.Cpio.Command.Rewrite.{cpio_commands-rewrites}
use magiskboot_go.Cpio.Command.Run.{IsWritable, IsDisk, cpio_commands-loads}
use magiskboot_go.Tests.Archive.{archive, init, sbin, archive-IsStorable, length_image}
use magiskboot_go.Tests.Backup.{copying}

abbrev regular : FileInfo
regular = record {
  is_regular = true;
  is_symlink = false;
  is_device = false;
  is_char_device = false;
}

-- Whatever its name, the file is the disk.
abbrev one_file : Host
one_file = record {
  Fs = Bytes;
  windows = false;
  stat = λ fs name. some regular;
  is_missing = λ fs name. false;
  read_file = λ fs name. some fs;
  rdev = λ fs name. none;
  major = λ dev. 0;
  minor = λ dev. 0;
  mkdev = λ major minor. 0;
  mkdir_all = λ fs name mode. fs;
  mkdir = λ fs name mode. (fs, true);
  create = λ fs name. ([], false);
  write = λ fs name b. (fs ++ b, false);
  symlink = λ fs name to. (fs, true);
  mknod = λ fs name mode dev. (fs, true);
}

abbrev one_file_world : World
one_file_world = record {
  host = one_file;
  lib = copying;
  range = Dict.keys;
  env = λ name. none;
  map_file = λ fs name. some fs;
}

one_file-IsDisk : IsDisk one_file (λ fs. fs) (codes "a")
one_file-IsDisk = record {
  creates = λ fs. refl;
  empties = λ fs. refl;
  writes = λ fs b. refl;
  appends = λ fs b. refl;
}

archive-IsWritable : IsWritable archive
archive-IsWritable = record {
  storable = archive-IsStorable;
  inodes = omega arith;
  fits = omega (arith, length_image);
}

abbrev loaded : Cpio
loaded = with_entries archive archive.keys new_cpio

length-loaded : length (image loaded) ≡ length (image archive)
unfolding image image_from entry_image trailer_image header fields x08 low_digits entry_at
    with_entries Dict.insert
length-loaded = refl

load_from_data-IsStorable_example : All (IsStorable loaded) loaded.keys
load_from_data-IsStorable_example =
    load_from_data-IsStorable (image archive) loaded none (omega (arith, length_image)) (
      load_from_data-with_entries archive archive-IsStorable (omega arith)
        (omega (arith, length_image)))

cpio_commands-rewrites_example :
    (fs' : Bytes) × (c' : Cpio) × (cpio_commands one_file_world
        (image archive)
        (codes "a" ∷ codes "# nothing" ∷ [])
      ≡ ret fs')
    × (load_from_data new_cpio fs' ≡ ret (c', none))
    × (c'.keys ≡ loaded.keys)
    × ((k : Bytes) (x : CpioEntry)
        → lookup k loaded.entries ≡ some x
        → lookup k c'.entries ≡ some x)
unfolding has_prefix with_entries
cpio_commands-rewrites_example =
    cpio_commands-rewrites one_file_world (λ fs. fs) (codes "a") (image archive) regular
      (image archive) loaded (codes "# nothing" ∷ []) one_file-IsDisk refl refl
      (load_from_data-with_entries archive archive-IsStorable (omega arith)
        (omega (arith, length_image)))
      (omega (arith, length_image)) (omega arith) (omega (arith, length_image, length-loaded))
      (refl, tt)

-- The archive with `sbin` moved to `bin`.
abbrev moved : Cpio
moved = record {
  entries = (codes "init", init) ∷ (codes "bin", sbin) ∷ [];
  keys = codes "bin" ∷ codes "init" ∷ [];
}

moves :
    run_commands one_file_world
      (image archive, with_entries archive archive.keys new_cpio)
      (codes "mv sbin bin" ∷ [])
    ≡ ret (image archive, moved)
unfolding run_commands run_command has_prefix split dispatch bytes_eq run_mv mv move with_entries
    image
moves = refl

length-moved : length (image moved) ≡ 364
unfolding image image_from entry_image trailer_image header fields x08 low_digits entry_at
length-moved = refl

moved-IsWritable : IsWritable moved
unfolding entry_at trim_right
moved-IsWritable = record {
  storable = (
    record {
      is_name = record { no_nul_at_end = refl; not_dot = cc; not_dot_dot = cc; not_trailer = cc };
      fits = omega arith;
    },
    (
      record {
        is_name = record { no_nul_at_end = refl; not_dot = cc; not_dot_dot = cc; not_trailer = cc };
        fits = omega arith;
      },
      tt,
    ),
  );
  inodes = omega arith;
  fits = omega (arith, length-moved);
}

cpio_commands-loads_example :
    (fs : Bytes) × (c : Cpio) × (cpio_commands one_file_world
        (image archive)
        (codes "a" ∷ codes "mv sbin bin" ∷ [])
      ≡ ret fs)
    × (load_from_data new_cpio fs ≡ ret (c, none))
    × (c.keys ≡ moved.keys)
    × ((k : Bytes)
        → lookup k c.entries ≡ (if contains moved.keys k then some (entry_at moved k) else none))
cpio_commands-loads_example =
    cpio_commands-loads one_file_world (λ fs. fs) (codes "a") (image archive) (image archive)
      regular (image archive) (with_entries archive archive.keys new_cpio) moved
      (codes "mv sbin bin" ∷ []) one_file-IsDisk refl refl
      (load_from_data-with_entries archive archive-IsStorable (omega arith)
        (omega (arith, length_image)))
      moves moved-IsWritable

-- The run that moves `sbin`, and the file that it leaves.
moving :
    (fs : Bytes) × (cpio_commands one_file_world
        (image archive)
        (codes "a" ∷ codes "mv sbin bin" ∷ [])
      ≡ ret fs)
moving =
    let run =
      cpio_commands-loads one_file_world (λ fs. fs) (codes "a") (image archive) (image archive)
        regular (image archive) (with_entries archive archive.keys new_cpio) moved
        (codes "mv sbin bin" ∷ []) one_file-IsDisk refl refl
        (load_from_data-with_entries archive archive-IsStorable (omega arith)
          (omega (arith, length_image)))
        moves moved-IsWritable in
    (run.0, run.2)

cpio_commands-lists_example :
    (c : Cpio) × (s : State one_file_world) × (load_cli one_file_world (image archive) (codes "a")
      ≡ ret c)
    × (run_commands one_file_world (image archive, c) (codes "mv sbin bin" ∷ []) ≡ ret s)
    × (dump_to one_file_world s.0 (codes "a") s.1 ≡ ret moving.0)
    × ((k : Bytes) → has k s.1.entries ≡ true → contains s.1.keys k ≡ true)
cpio_commands-lists_example =
    cpio_commands-lists one_file_world (image archive) moving.0 (codes "a")
      (codes "mv sbin bin" ∷ []) moving.1

-- The same disk, with files of up to 4095 bytes.
abbrev small_world : World
small_world = record one_file_world {
  map_file = λ fs name. if ltb (length fs) 4096 then some fs else none;
}

mapped-small :
    (fs file bytes : Bytes) → small_world.map_file fs file ≡ some bytes → length bytes + 8 < u64_mod
mapped-small fs file bytes h = ground (arith, h)

cpio_commands_ends_example :
    cpio_commands small_world (image archive) (codes "a" ∷ codes "mv sbin bin" ∷ []) ≢ running
cpio_commands_ends_example =
    cpio_commands_ends small_world (image archive) (codes "a" ∷ codes "mv sbin bin" ∷ [])
      mapped-small

norm_path-IsComponent_example :
    (parts : List Bytes) × (norm_path (slash ∷ codes "../a/./b//c/..") ≡ join parts slash)
    × All IsComponent parts
norm_path-IsComponent_example = norm_path-IsComponent (codes "../a/./b//c/..")
