-- ===== src/Cpio/Command/Rewrite.antt =====
-- A run without commands on any file that is loaded.
use magiskboot_go.Base.{◌+◌, ◌^◌, ◌<◌, ◌≡◌, refl, ◌∙◌, true, List, All, ◌∷◌, none, some}
use magiskboot_go.Base.{Bytes, codes, length, has_prefix, contains, u64_mod, ret}
use magiskboot_go.Base.Dict.{lookup}
use magiskboot_go.Base.{Returns_at}
use magiskboot_go.Cpio.{Cpio, CpioEntry, entry_at, new_cpio}
use magiskboot_go.Cpio.Edit.{has}
use magiskboot_go.Cpio.Load.{load_from_data}
use magiskboot_go.Cpio.Load.Storable.{load_from_data-IsStorable}
use magiskboot_go.Cpio.Steps.{Reach}
use magiskboot_go.Cpio.Steps.Loaded.{load_from_data-Reach}
use magiskboot_go.Cpio.Steps.Listed.{ListsAll-contains, Reach-ListsAll, new_cpio-ListsAll}
use magiskboot_go.Cpio.Dump.Image.{image}
use magiskboot_go.Cpio.Files.{FileInfo}
use magiskboot_go.Cpio.Command.{World, cpio_commands}
use magiskboot_go.Cpio.Command.Run.{IsWritable, IsDisk, run_commands-comments, cpio_commands-loads}

-- What is loaded lists every key of its map.
loaded-listed :
    (bytes k : Bytes) (c : Cpio) (x : CpioEntry)
    → load_from_data new_cpio bytes ≡ ret (c, none)
    → lookup k c.entries ≡ some x
    → contains c.keys k ≡ true
unfolding has
loaded-listed bytes k c x loaded there =
    ListsAll-contains k c
      (Reach-ListsAll
        (Returns_at (λ r. Reach new_cpio r.0) (load_from_data new_cpio bytes) (c, none)
          (load_from_data-Reach new_cpio bytes) loaded)
        new_cpio-ListsAll)
      (rw (has, there) refl)

-- A run whose commands are all comments, on a file of less than 2 ^ 32 bytes less one that is loaded
-- without an error, on a disk on which every write succeeds, and where the inode numbers fit in 32
-- bits and the new image in `uint64`: it returns, and the file is then loaded without an error into
-- an archive with the same key list, that holds every entry that was loaded at first.
pub cpio_commands-rewrites :
    (world : World) (contents : world.host.Fs → Bytes) (file : Bytes) (fs : world.host.Fs)
    (info : FileInfo) (bytes : Bytes) (c : Cpio) (commands : List Bytes)
    → IsDisk world.host contents file
    → world.host.stat fs file ≡ some info
    → world.map_file fs file ≡ some bytes
    → load_from_data new_cpio bytes ≡ ret (c, none)
    → length bytes + 1 < 2 ^ 32
    → 300000 + length c.keys < 2 ^ 32
    → length (image c) + 16 < u64_mod
    → All (λ command. has_prefix command (codes "#") ≡ true) commands
    → (fs' : world.host.Fs) × (c' : Cpio) × (cpio_commands world fs (file ∷ commands) ≡ ret fs')
      × (load_from_data new_cpio (contents fs') ≡ ret (c', none))
      × (c'.keys ≡ c.keys)
      × ((k : Bytes) (x : CpioEntry) → lookup k c.entries ≡ some x → lookup k c'.entries ≡ some x)
unfolding entry_at
cpio_commands-rewrites world contents file fs info bytes c commands disk is_there mapped loaded
      short inodes fits comments =
    let writable : IsWritable c = record {
      storable = load_from_data-IsStorable bytes c none short loaded;
      inodes = inodes;
      fits = fits;
    } in
    let (fs', c', run, again, keys, entries) =
      cpio_commands-loads world contents file fs fs info bytes c c commands disk is_there mapped
        loaded (run_commands-comments world (fs, c) commands comments) writable in
    (
      fs',
      c',
      run,
      again,
      keys,
      λ k x there. entries k ∙ rw (loaded-listed bytes k c x loaded there, entry_at, there) refl,
    )
