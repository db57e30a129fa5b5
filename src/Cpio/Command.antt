-- ===== src/Cpio/Command.antt =====
-- `CpioCommands`: the commands that are given for an archive's file, and `LoadFromFile`.
pub mod Edits
pub mod Ends
pub mod Laws
pub mod Run
pub mod Rewrite
use magiskboot_go.Base.{
  ℕ, ◌+◌, ◌-◌, ◌*◌, ◌%◌, ◌^◌, Bool, true, false, ◌&&◌, List, [], ◌∷◌, Option, none, some,
}
use magiskboot_go.Base.{Bytes, codes, bytes_eq, has_prefix, split, length, leb, u32_mod}
use magiskboot_go.Base.{Outcome, ret, panic, exit, fatal, ◌>>=◌, ◌==◌, if◌then◌else◌}
use magiskboot_go.Base.Dict.{Dict}
use magiskboot_go.Compress.Xz.{XzLib}
use magiskboot_go.Cpio.{Cpio, CpioEntry, new_cpio}
use magiskboot_go.Cpio.Load.{load_from_data}
use magiskboot_go.Cpio.Dump.{Written, dump}
use magiskboot_go.Cpio.Edit.{rm, mkdir, ln, mv, exists}
use magiskboot_go.Cpio.Patching.{patch, test}
use magiskboot_go.Cpio.Restore.{restore}
use magiskboot_go.Cpio.Backup.{backup}
use magiskboot_go.Cpio.Files.{Host, added, ends_in_slash, not_found, add, extract}

-- The octal digits behind the value so far.
unfoldable pub octal : Bytes → ℕ → Option ℕ
octal [] n = some n
octal (c ∷ s) n =
    let rest = octal s (n * 8 + (c - b'0')) in if leb b'0' c && leb c b'7' then rest else none

abbrev pub nonempty_octal : Bytes → Option ℕ
nonempty_octal [] = none
nonempty_octal (c ∷ s) = octal (c ∷ s) 0

abbrev pub at_most : ℕ → (ℕ → ℕ) → Option ℕ → Outcome ℕ
at_most top f none = fatal
at_most top f (some n) = if leb n top then ret (f n) else fatal

-- `parseMode`: a signed number of 32 bits in octal, made unsigned.
unfoldable pub parse_mode : Bytes → Outcome ℕ
unfolding octal
parse_mode [] = fatal
parse_mode (c ∷ s) =
    if c == b'-'
    then at_most (2 ^ 31) (λ n. (u32_mod - n) % u32_mod) (nonempty_octal s)
    else if c == b'+'
    then at_most (2 ^ 31 - 1) (λ n. n) (nonempty_octal s)
    else at_most (2 ^ 31 - 1) (λ n. n) (nonempty_octal (c ∷ s))

-- What the commands call: the host, the xz library, the walk of maps, the environment, and opening
-- and mapping a file.
pub record World : Type 1 where
  pub host : Host
  pub lib : XzLib
  pub range : Dict CpioEntry → List Bytes
  pub env : Bytes → Option Bytes
  pub map_file : host.Fs → Bytes → Option Bytes

-- `CpioCli`, and `NewCpioCli` with `FromArgs`.
pub record CpioCli : Type 0 where
  pub file : Bytes
  pub commands : List Bytes

abbrev pub from_args : List Bytes → Outcome CpioCli
from_args [] = panic
from_args (file ∷ commands) = ret (record { file = file; commands = commands })

module _ (world : World) where
  open world use {host, lib, range, env, map_file}

  abbrev pub State : Type 0
  State = host.Fs × Cpio

  -- The usage text and `os.Exit(125)`.
  abbrev err_exit : Outcome State
  err_exit = exit 125

  -- `c.LoadFromFile(path)`: what `LoadFromData` reports is not looked at.
  unfoldable pub load_from_file : host.Fs → Bytes → Cpio → Outcome (Option Cpio)
  load_from_file fs path c = elim (map_file fs path) [
    | none ↦ ret none
    | some bytes ↦ load_from_data c bytes >>= λ r. ret (some r.0)
  ]

  unfoldable pub run_rm : State → List Bytes → Outcome State
  unfolding bytes_eq
  run_rm (fs, c) [] = ret (fs, c)
  run_rm (fs, c) (a ∷ args) =
      if bytes_eq a (codes "-r")
      then (elim args [ [] ↦ panic | p ∷ _ ↦ ret (fs, rm range c p true) ])
      else ret (fs, rm range c a false)

  unfoldable pub run_add : State → List Bytes → Outcome State
  unfolding parse_mode
  run_add (fs, c) (m ∷ path ∷ file ∷ _) = parse_mode m >>= λ mode.
      add host fs c mode path file >>= λ r. elim r [
        | added c' ↦ ret (fs, c')
        | ends_in_slash ↦ fatal
        | not_found ↦ fatal
      ]
  run_add _ _ = err_exit

  abbrev extracted : Cpio → Outcome (host.Fs × Bool) → Outcome State
  extracted c m = m >>= λ r. if r.1 then fatal else ret (r.0, c)

  unfoldable pub run_extract : State → List Bytes → Outcome State
  run_extract (fs, c) [] = ret (fs, c)
  run_extract (fs, c) (p ∷ []) = extracted c (extract host fs c (some p) none)
  run_extract (fs, c) (p ∷ out ∷ _) = extracted c (extract host fs c (some p) (some out))

  unfoldable pub run_backup : State → List Bytes → Outcome State
  unfolding bytes_eq
  run_backup (fs, c) [] = err_exit
  run_backup (fs, c) (origin ∷ []) =
      backup lib range (map_file fs origin) false c >>= λ c'. ret (fs, c')
  run_backup (fs, c) (origin ∷ flag ∷ _) =
      backup lib range (map_file fs origin) (bytes_eq flag (codes "-n")) c >>= λ c'. ret (fs, c')

  unfoldable pub run_exists : State → List Bytes → Outcome State
  run_exists (fs, c) [] = err_exit
  run_exists (fs, c) (p ∷ _) = if exists c p then exit 0 else exit 1

  unfoldable pub run_mv : State → List Bytes → Outcome State
  run_mv (fs, c) (from ∷ to ∷ _) = ret (fs, mv c from to)
  run_mv _ _ = err_exit

  unfoldable pub run_ln : State → List Bytes → Outcome State
  run_ln (fs, c) (src ∷ dst ∷ _) = ret (fs, ln c src dst)
  run_ln _ _ = err_exit

  unfoldable pub run_mkdir : State → List Bytes → Outcome State
  unfolding parse_mode
  run_mkdir (fs, c) (m ∷ path ∷ _) = parse_mode m >>= λ mode. ret (fs, mkdir c mode path)
  run_mkdir _ _ = err_exit

  -- The `switch` over the first word. `ls` prints and ends the process; a word that is no command
  -- is passed over.
  unfoldable pub dispatch : State → Bytes → List Bytes → Outcome State
  unfolding bytes_eq run_exists run_backup run_rm run_mv run_ln run_mkdir run_add run_extract
  dispatch s cmd args =
      if bytes_eq cmd (codes "test")
      then exit (test s.1)
      else if bytes_eq cmd (codes "restore")
      then (restore lib range s.1 >>= λ c. ret (s.0, c))
      else if bytes_eq cmd (codes "patch")
      then (patch range env s.1 >>= λ c. ret (s.0, c))
      else if bytes_eq cmd (codes "exists")
      then run_exists s args
      else if bytes_eq cmd (codes "backup")
      then run_backup s args
      else if bytes_eq cmd (codes "rm")
      then run_rm s args
      else if bytes_eq cmd (codes "mv")
      then run_mv s args
      else if bytes_eq cmd (codes "ln")
      then run_ln s args
      else if bytes_eq cmd (codes "mkdir")
      then run_mkdir s args
      else if bytes_eq cmd (codes "add")
      then run_add s args
      else if bytes_eq cmd (codes "extract")
      then run_extract s args
      else if bytes_eq cmd (codes "ls")
      then exit 0
      else ret s

  abbrev words : State → List Bytes → Outcome State
  words s [] = ret s
  words s (cmd ∷ args) = dispatch s cmd args

  -- One command: a comment is passed over.
  unfoldable pub run_command : State → Bytes → Outcome State
  unfolding dispatch has_prefix split
  run_command s command =
      if has_prefix command (codes "#") then ret s else words s (split command b' ')

  unfoldable pub run_commands : State → List Bytes → Outcome State
  unfolding run_command
  run_commands s [] = ret s
  run_commands s (command ∷ commands) = run_command s command >>= λ s'. run_commands s' commands

  -- The archive's file, where there is one.
  unfoldable pub load_cli : host.Fs → Bytes → Outcome Cpio
  unfolding load_from_file
  load_cli fs file = elim (host.stat fs file) [
    | none ↦ ret new_cpio
    | some _ ↦ load_from_file fs file new_cpio >>= λ r. elim r [ none ↦ fatal | some c ↦ ret c ]
  ]

  -- A write counts its bytes, or none where it fails.
  unfoldable pub append_to : Bytes → host.Fs → Bytes → Written host.Fs
  append_to file f b =
      let w = host.write f file b in
      record { file = w.0; count = if w.1 then 0 else length b; is_err = w.1 }

  -- `cpio.Dump(cli.File)`: the file is created and written.
  unfoldable pub dump_to : host.Fs → Bytes → Cpio → Outcome host.Fs
  dump_to fs file c =
      let made = host.create fs file in
      if made.1
      then fatal
      else (dump (append_to file) c made.0 >>= λ r. elim r [ none ↦ fatal | some f ↦ ret f ])

  -- `CpioCommands(argv)`.
  unfoldable pub cpio_commands : host.Fs → List Bytes → Outcome host.Fs
  unfolding load_cli run_commands dump_to
  cpio_commands fs [] = fatal
  cpio_commands fs (arg ∷ args) = from_args (arg ∷ args) >>= λ cli. load_cli fs cli.file >>= λ c.
      run_commands (fs, c) cli.commands >>= λ s. dump_to s.0 cli.file s.1
