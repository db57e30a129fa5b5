-- ===== src/Cpio/Command/Run.antt =====
-- A run of `CpioCommands` on a file that holds the image of an archive.
use magiskboot_go.Base.{
  ℕ, ◌+◌, ◌^◌, ◌<◌, ◌≡◌, refl, sym, ap, ◌∙◌, arith, true, false, List, All, [], ◌∷◌, ◌++◌, none,
  some,
}
use magiskboot_go.Base.{
  Bytes, codes, length, has_prefix, contains, All-contains, u64_mod, ret, if◌then◌else◌,
}
use mathlib.Core.Path.{subst}
use magiskboot_go.Base.Dict.{lookup}
use magiskboot_go.Cpio.{Cpio, entry_at, new_cpio}
use magiskboot_go.Cpio.Load.{load_from_data}
use magiskboot_go.Cpio.Dump.Write.{IsLossless, dump-image}
use magiskboot_go.Cpio.Dump.Image.{image, image_from}
use magiskboot_go.Cpio.RoundTrip.{IsStorable, names_fit, load_from_data-image}
use magiskboot_go.Cpio.Files.{Host, FileInfo}
use magiskboot_go.Cpio.Command.{
  World, State, append_to, dump_to, load_from_file, load_cli, run_command, run_commands,
  cpio_commands,
}

-- What an archive must be for `Dump` to write it in full.
pub record IsWritable (c : Cpio) : Type 0 where
  pub storable : All (IsStorable c) c.keys
  pub inodes : 300000 + length c.keys < 2 ^ 32
  pub fits : length (image c) + 16 < u64_mod

-- A disk on which the archive's file can be created and written, and holds what was written.
pub record IsDisk (host : Host) (contents : host.Fs → Bytes) (file : Bytes) : Type 0 where
  pub creates : (fs : host.Fs) → (host.create fs file).1 ≡ false
  pub empties : (fs : host.Fs) → contents (host.create fs file).0 ≡ []
  pub writes : (fs : host.Fs) (b : Bytes) → (host.write fs file b).1 ≡ false
  pub appends : (fs : host.Fs) (b : Bytes) → contents (host.write fs file b).0 ≡ contents fs ++ b

module _ (world : World) (contents : world.host.Fs → Bytes) (file : Bytes)
    (disk : IsDisk world.host contents file) where
  append_to-IsLossless : IsLossless (append_to world file) contents
  unfolding append_to
  append_to-IsLossless = record {
    appends = λ f b. disk.appends f b;
    counts = λ f b. rw (disk.writes f b) refl;
    succeeds = λ f b. disk.writes f b;
  }

  dump_to-image :
      (fs : world.host.Fs) (c : Cpio)
      → IsWritable c
      → (fs' : world.host.Fs) × (dump_to world fs file c ≡ ret fs') × (contents fs' ≡ image c)
  unfolding dump_to
  dump_to-image fs c w =
      let made = (world.host.create fs file).0 in
      let (fs', run, holds) =
        dump-image (append_to world file) contents append_to-IsLossless c made
          (names_fit c c.keys w.storable) w.inodes w.fits in
      (
        fs',
        rw (disk.creates fs, run) refl,
        holds ∙ ap (λ (b : Bytes). b ++ image c) (disk.empties fs),
      )

  load_cli-there :
      (fs : world.host.Fs) (info : FileInfo) (bytes : Bytes) (c : Cpio)
      → world.host.stat fs file ≡ some info
      → world.map_file fs file ≡ some bytes
      → load_from_data new_cpio bytes ≡ ret (c, none)
      → load_cli world fs file ≡ ret c
  unfolding load_cli load_from_file
  load_cli-there fs info bytes c is_there mapped loaded =
      rw (load_cli, is_there, load_from_file, mapped, loaded) refl

  cpio_commands-runs :
      (fs fs' fs'' : world.host.Fs) (c c' : Cpio) (commands : List Bytes)
      → load_cli world fs file ≡ ret c
      → run_commands world (fs, c) commands ≡ ret (fs', c')
      → dump_to world fs' file c' ≡ ret fs''
      → cpio_commands world fs (file ∷ commands) ≡ ret fs''
  unfolding cpio_commands
  cpio_commands-runs fs fs' fs'' c c' commands load runs dumps = rw (load, runs) dumps

  -- A run on a file that holds the image of an archive: the commands are given an archive with the
  -- same keys and entries, and where they leave one that can be written, its image replaces the
  -- file's content.
  pub cpio_commands-image :
      (fs : world.host.Fs) (info : FileInfo) (c : Cpio) (commands : List Bytes)
      → world.host.stat fs file ≡ some info
      → world.map_file fs file ≡ some (image c)
      → IsWritable c
      → (c0 : Cpio) × (c0.keys ≡ c.keys)
        × ((k : Bytes)
            → lookup k c0.entries ≡ (if contains c.keys k then some (entry_at c k) else none))
        × ((fs' : world.host.Fs) (c' : Cpio)
            → run_commands world (fs, c0) commands ≡ ret (fs', c')
            → IsWritable c'
            → (fs'' : world.host.Fs) × (cpio_commands world fs (file ∷ commands) ≡ ret fs'')
              × (contents fs'' ≡ image c'))
  cpio_commands-image fs info c commands is_there mapped w =
      let (c0, loaded, keys, entries) =
        load_from_data-image c w.storable w.inodes (omega (arith, w.fits)) in
      (
        c0,
        keys,
        entries,
        λ fs' c' runs w'.
            (let (fs'', dumped, holds) = dump_to-image fs' c' w' in
              (
                fs'',
                cpio_commands-runs fs fs' fs'' c0 c' commands
                    (load_cli-there fs info (image c) c0 is_there mapped loaded) runs dumped,
                holds,
              )),
      )

image_from-same :
    (c d : Cpio) (names : List Bytes) (inode : ℕ)
    → All (λ k. entry_at d k ≡ entry_at c k) names
    → image_from d names inode ≡ image_from c names inode
unfolding image_from
image_from-same c d [] inode _ = refl
image_from-same c d (name ∷ names) inode (e, es) = rw (e, image_from-same c d names (inode + 1) es)

-- An archive with the keys of another, and the same entries under these.
record IsAs (c d : Cpio) : Type 0 where
  same_keys : d.keys ≡ c.keys
  same_entries : All (λ k. entry_at d k ≡ entry_at c k) c.keys

IsAs-entries :
    (c d : Cpio)
    → d.keys ≡ c.keys
    → ((k : Bytes) → lookup k d.entries ≡ (if contains c.keys k then some (entry_at c k) else none))
    → IsAs c d
unfolding entry_at
IsAs-entries c d keys entries = record {
  same_keys = keys;
  same_entries =
      All-contains (λ k. entry_at d k ≡ entry_at c k) c.keys
        (λ k h. rw (entry_at, entries k, h) refl);
}

image-same : (c d : Cpio) → IsAs c d → image d ≡ image c
unfolding image
image-same c d h =
    ap (λ names. image_from d names 300000) h.same_keys
    ∙ image_from-same c d c.keys 300000 h.same_entries

IsStorable-same :
    (c d : Cpio) (names : List Bytes)
    → All (λ k. entry_at d k ≡ entry_at c k) names
    → All (IsStorable c) names
    → All (IsStorable d) names
IsStorable-same c d [] _ _ = tt
IsStorable-same c d (name ∷ names) (e, es) (ok, oks) =
    (record { is_name = ok.is_name; fits = rw (e) ok.fits }, IsStorable-same c d names es oks)

IsWritable-same : (c d : Cpio) → IsAs c d → IsWritable c → IsWritable d
IsWritable-same c d h w = record {
  storable =
      subst (λ names. All (IsStorable d) names) (sym h.same_keys)
        (IsStorable-same c d c.keys h.same_entries w.storable);
  inodes = rw (h.same_keys) w.inodes;
  fits = rw (image-same c d h) w.fits;
}

pub run_commands-comments :
    (world : World) (s : State world) (commands : List Bytes)
    → All (λ command. has_prefix command (codes "#") ≡ true) commands
    → run_commands world s commands ≡ ret s
unfolding run_commands run_command
run_commands-comments world s [] _ = refl
run_commands-comments world s (command ∷ commands) (h, hs) =
    rw (h) (run_commands-comments world s commands hs)

-- A run whose commands are all comments, on a file that holds the image of an archive that can be
-- written, on a disk on which every write succeeds: it returns, and the file holds the same bytes
-- afterwards.
cpio_commands-comments :
    (world : World) (contents : world.host.Fs → Bytes) (file : Bytes) (fs : world.host.Fs)
    (info : FileInfo) (c : Cpio) (commands : List Bytes)
    → IsDisk world.host contents file
    → world.host.stat fs file ≡ some info
    → world.map_file fs file ≡ some (image c)
    → IsWritable c
    → All (λ command. has_prefix command (codes "#") ≡ true) commands
    → (fs' : world.host.Fs) × (cpio_commands world fs (file ∷ commands) ≡ ret fs')
      × (contents fs' ≡ image c)
cpio_commands-comments world contents file fs info c commands disk is_there mapped w comments =
    let (c0, keys, entries, run) =
      cpio_commands-image world contents file disk fs info c commands is_there mapped w in
    let same = IsAs-entries c c0 keys entries in
    let (fs', done, holds) =
      run fs c0 (run_commands-comments world (fs, c0) commands comments)
        (IsWritable-same c c0 same w) in
    (fs', done, holds ∙ image-same c c0 same)

-- A run on a file that is loaded without an error, whose commands return and leave an archive that
-- can be written, on a disk on which every write succeeds: it returns, and the file is then loaded
-- without an error into an archive with the keys of that archive, with its entries under these, and
-- with no others.
pub cpio_commands-loads :
    (world : World) (contents : world.host.Fs → Bytes) (file : Bytes) (fs fs' : world.host.Fs)
    (info : FileInfo) (bytes : Bytes) (c c' : Cpio) (commands : List Bytes)
    → IsDisk world.host contents file
    → world.host.stat fs file ≡ some info
    → world.map_file fs file ≡ some bytes
    → load_from_data new_cpio bytes ≡ ret (c, none)
    → run_commands world (fs, c) commands ≡ ret (fs', c')
    → IsWritable c'
    → (fs'' : world.host.Fs) × (c'' : Cpio) × (cpio_commands world fs (file ∷ commands) ≡ ret fs'')
      × (load_from_data new_cpio (contents fs'') ≡ ret (c'', none))
      × (c''.keys ≡ c'.keys)
      × ((k : Bytes)
          → lookup k c''.entries ≡ (if contains c'.keys k then some (entry_at c' k) else none))
cpio_commands-loads world contents file fs fs' info bytes c c' commands disk is_there mapped loaded
      runs w =
    let (fs'', dumps, holds) = dump_to-image world contents file disk fs' c' w in
    let (c'', reloaded, keys, entries) =
      load_from_data-image c' w.storable w.inodes (omega (arith, w.fits)) in
    (
      fs'',
      c'',
      cpio_commands-runs world contents file disk fs fs' fs'' c c' commands
          (load_cli-there world contents file disk fs info bytes c is_there mapped loaded) runs
          dumps,
      rw (holds) reloaded,
      keys,
      entries,
    )
