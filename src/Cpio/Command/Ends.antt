-- ===== src/Cpio/Command/Ends.antt =====
-- A run of the cpio commands ends.
use magiskboot_go.Base.{
  ℕ, ◌+◌, ◌<◌, ◌≡◌, ◌≢◌, Bool, List, [], ◌∷◌, Option, none, some, Option-cases, inl, inr,
}
use magiskboot_go.Base.{
  Bytes, ◌||◌, has_suffix, codes, length, u64_mod, Outcome, ret, exit, running,
}
use magiskboot_go.Base.{
  Ends, Ends->>=, if-Ends, option-Ends, returned, panicked, exited, ends, Ends-not_running,
  not_running-Ends,
}
use magiskboot_go.Cpio.{Cpio, new_cpio}
use magiskboot_go.Cpio.Load.{load_from_data}
use magiskboot_go.Cpio.Load.Ends.{load_from_data_ends}
use magiskboot_go.Cpio.Ends.{restore-Ends, patch-Ends, dump-Ends}
use magiskboot_go.Cpio.Dump.{dump}
use magiskboot_go.Cpio.Backup.{backup}
use magiskboot_go.Cpio.Files.{
  Host, FileInfo, Added, added, ends_in_slash, not_found, device_source, read_source, add,
  extract_entry, extract_all, extract,
}
use magiskboot_go.Cpio.Command.{
  World, State, parse_mode, at_most, load_from_file, run_rm, run_add, extracted, run_extract,
  run_backup, run_exists, run_mv, run_ln, run_mkdir, dispatch, words, run_command, run_commands,
  load_cli, append_to, dump_to, cpio_commands,
}

at_most-Ends : (top : ℕ) (f : ℕ → ℕ) (o : Option ℕ) → Ends (at_most top f o)
at_most-Ends top f none = search ends
at_most-Ends top f (some n) = search ends

parse_mode-Ends : (s : Bytes) → Ends (parse_mode s)
unfolding parse_mode
parse_mode-Ends [] = search ends
parse_mode-Ends (c ∷ s) = search (ends, at_most-Ends)

module _ (host : Host) where
  device_source-Ends :
      (fs : host.Fs) (attr : FileInfo) (file : Bytes) (mode : ℕ)
      → Ends (device_source host fs attr file mode)
  unfolding device_source
  device_source-Ends fs attr file mode =
      if-Ends host.windows _ _ (search ends)
        (option-Ends (host.rdev fs file) _ _ (search ends) (λ dev. search ends))

  read_source-Ends :
      (fs : host.Fs) (attr : FileInfo) (file : Bytes) (mode : ℕ)
      → Ends (read_source host fs attr file mode)
  unfolding read_source
  read_source-Ends fs attr file mode =
      if-Ends (attr.is_regular || attr.is_symlink) _ _
        (option-Ends (host.read_file fs file) _ _ (search ends) (λ b. search ends))
        (search device_source-Ends)

  add-Ends :
      (fs : host.Fs) (c : Cpio) (mode : ℕ) (path file : Bytes) → Ends (add host fs c mode path file)
  unfolding add
  add-Ends fs c mode path file =
      if-Ends (has_suffix path (codes "/")) _ _ (search ends) (
        option-Ends (host.stat fs file) _ _ (search ends) (λ attr. search (ends, read_source-Ends)))

  extract_entry-Ends :
      (fs : host.Fs) (c : Cpio) (p out : Bytes) → Ends (extract_entry host fs c p out)
  unfolding extract_entry
  extract_entry-Ends fs c p out = search ends

  extract_all-Ends :
      (fs : host.Fs) (c : Cpio) (names : List Bytes) → Ends (extract_all host fs c names)
  unfolding extract_all
  extract_all-Ends fs c [] = search ends
  extract_all-Ends fs c (name ∷ names) =
      let rest = λ (g : host.Fs). extract_all-Ends g c names in
      search (ends, extract_entry-Ends, rest)

  extract-Ends : (fs : host.Fs) (c : Cpio) (p out : Option Bytes) → Ends (extract host fs c p out)
  unfolding extract
  extract-Ends fs c none out = search extract_all-Ends
  extract-Ends fs c (some p) none = search extract_all-Ends
  extract-Ends fs c (some p) (some out) = search extract_entry-Ends

module _ (world : World)
    (small : (fs : world.host.Fs) (file bytes : Bytes)
      → world.map_file fs file ≡ some bytes
      → length bytes + 8 < u64_mod) where
  loads :
      (fs : world.host.Fs) (file bytes : Bytes) (c : Cpio)
      → world.map_file fs file ≡ some bytes
      → Ends (load_from_data c bytes)
  loads fs file bytes c mapped =
      not_running-Ends (load_from_data c bytes)
        (load_from_data_ends c bytes (small fs file bytes mapped))

  run_rm-Ends : (s : State world) (args : List Bytes) → Ends (run_rm world s args)
  unfolding run_rm
  run_rm-Ends (fs, c) [] = search ends
  run_rm-Ends (fs, c) (a ∷ []) = search ends
  run_rm-Ends (fs, c) (a ∷ p ∷ args) = search ends

  run_add-Ends : (s : State world) (args : List Bytes) → Ends (run_add world s args)
  unfolding run_add
  run_add-Ends s [] = search ends
  run_add-Ends s (m ∷ []) = search ends
  run_add-Ends s (m ∷ path ∷ []) = search ends
  run_add-Ends (fs, c) (m ∷ path ∷ file ∷ rest) =
      Ends->>= (parse_mode m) _ (parse_mode-Ends m) (λ mode.
        Ends->>= (add world.host fs c mode path file) _ (add-Ends world.host fs c mode path file)
          go)
    where
      go :
          (r : Added)
          → Ends {A = State world}
              (elim r [ added c' ↦ ret (fs, c') | ends_in_slash ↦ exit 1 | not_found ↦ exit 1 ])
      go (added d) = search ends
      go ends_in_slash = search ends
      go not_found = search ends

  extracted-Ends :
      (c : Cpio) (m : Outcome (world.host.Fs × Bool)) → Ends m → Ends (extracted world c m)
  extracted-Ends c m h = search ends

  run_extract-Ends : (s : State world) (args : List Bytes) → Ends (run_extract world s args)
  unfolding run_extract
  run_extract-Ends (fs, c) [] = search ends
  run_extract-Ends (fs, c) (p ∷ []) = search (extracted-Ends, extract-Ends)
  run_extract-Ends (fs, c) (p ∷ out ∷ rest) = search (extracted-Ends, extract-Ends)

  backup-Ends :
      (fs : world.host.Fs) (origin : Bytes) (skip : Bool) (c : Cpio)
      → Ends (backup world.lib world.range (world.map_file fs origin) skip c)
  unfolding backup
  backup-Ends fs origin skip c = elim (Option-cases (world.map_file fs origin)) [
    | inl e ↦ rw e panicked
    | inr (bytes, e) ↦ rw e (search (ends, loads fs origin bytes new_cpio e))
  ]

  run_backup-Ends : (s : State world) (args : List Bytes) → Ends (run_backup world s args)
  unfolding run_backup
  run_backup-Ends s [] = search ends
  run_backup-Ends (fs, c) (origin ∷ []) = search (ends, backup-Ends)
  run_backup-Ends (fs, c) (origin ∷ flag ∷ rest) = search (ends, backup-Ends)

  run_exists-Ends : (s : State world) (args : List Bytes) → Ends (run_exists world s args)
  unfolding run_exists
  run_exists-Ends s [] = search ends
  run_exists-Ends (fs, c) (p ∷ rest) = search ends

  run_mv-Ends : (s : State world) (args : List Bytes) → Ends (run_mv world s args)
  unfolding run_mv
  run_mv-Ends s [] = search ends
  run_mv-Ends s (from ∷ []) = search ends
  run_mv-Ends (fs, c) (from ∷ to ∷ rest) = search ends

  run_ln-Ends : (s : State world) (args : List Bytes) → Ends (run_ln world s args)
  unfolding run_ln
  run_ln-Ends s [] = search ends
  run_ln-Ends s (src ∷ []) = search ends
  run_ln-Ends (fs, c) (src ∷ dst ∷ rest) = search ends

  run_mkdir-Ends : (s : State world) (args : List Bytes) → Ends (run_mkdir world s args)
  unfolding run_mkdir
  run_mkdir-Ends s [] = search ends
  run_mkdir-Ends s (m ∷ []) = search ends
  run_mkdir-Ends (fs, c) (m ∷ path ∷ rest) = search (ends, parse_mode-Ends)

  ruleset actions_end = (
    ends, restore-Ends, patch-Ends, run_exists-Ends, run_backup-Ends, run_rm-Ends, run_mv-Ends,
    run_ln-Ends, run_mkdir-Ends, run_add-Ends, run_extract-Ends,
  )

  dispatch-Ends :
      (s : State world) (cmd : Bytes) (args : List Bytes) → Ends (dispatch world s cmd args)
  unfolding dispatch
  dispatch-Ends s cmd args = search actions_end depth 20

  words-Ends : (s : State world) (ws : List Bytes) → Ends (words world s ws)
  words-Ends s [] = search ends
  words-Ends s (cmd ∷ args) = search dispatch-Ends

  run_commands-Ends :
      (s : State world) (commands : List Bytes) → Ends (run_commands world s commands)
  unfolding run_commands run_command
  run_commands-Ends s [] = search ends
  run_commands-Ends s (command ∷ commands) =
      let rest = λ (t : State world). run_commands-Ends t commands in
      search (ends, words-Ends, rest)

  loaded-Ends : (r : Option Cpio) → Ends {A = Cpio} (elim r [ none ↦ exit 1 | some c ↦ ret c ])
  loaded-Ends none = search ends
  loaded-Ends (some c) = search ends

  load_cli-Ends : (fs : world.host.Fs) (file : Bytes) → Ends (load_cli world fs file)
  unfolding load_cli load_from_file
  load_cli-Ends fs file = elim (Option-cases (world.host.stat fs file)) [
    | inl e ↦ rw (load_cli, e) (returned new_cpio)
    | inr (info, e) ↦ elim (Option-cases (world.map_file fs file)) [
      | inl f ↦ rw (load_cli, e, load_from_file, f) (exited 1)
      | inr (bytes, f) ↦
          rw (load_cli, e, load_from_file, f)
            (search (ends, loads fs file bytes new_cpio f, loaded-Ends))
    ]
  ]

  dump_to-Ends : (fs : world.host.Fs) (file : Bytes) (c : Cpio) → Ends (dump_to world fs file c)
  unfolding dump_to
  dump_to-Ends fs file c = if-Ends (world.host.create fs file).1 _ _ (search ends) (
      Ends->>= (dump (append_to world file) c _) _ (search dump-Ends)
        (λ r. option-Ends r _ _ (search ends) (λ f. search ends)))

-- A run of the cpio commands ends, whatever the commands and whatever their archive's file holds,
-- where no file that is mapped is longer than uint64 less 9 bytes: it returns, panics or ends the
-- process, and no loop in it uses up the rounds that it is given.
pub cpio_commands_ends :
    (world : World) (fs : world.host.Fs) (args : List Bytes)
    → ((g : world.host.Fs) (file bytes : Bytes)
        → world.map_file g file ≡ some bytes
        → length bytes + 8 < u64_mod)
    → cpio_commands world fs args ≢ running
unfolding cpio_commands
cpio_commands_ends world fs [] small = Ends-not_running (cpio_commands world fs []) (search ends)
cpio_commands_ends world fs (file ∷ commands) small =
    let load = load_cli-Ends world small in
    let run = run_commands-Ends world small in
    let dumps = dump_to-Ends world small in
    Ends-not_running (cpio_commands world fs (file ∷ commands)) (search (ends, load, run, dumps))
