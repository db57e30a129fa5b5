-- ===== src/Cpio/Command/Edits.antt =====
-- What a run of commands leaves is reached from its archive in steps.
use magiskboot_go.Base.{
  ℕ, ◌≡◌, contains, Bool, true, false, has_suffix, Option-cases, inl, inr, List, [], ◌∷◌, Option,
  none, some, Bytes, codes, bytes_eq, has_prefix, split,
}
use magiskboot_go.Base.{
  Outcome, ret, panic, fatal, ◌>>=◌, Returns, Returns->>=, Returns-then, Returns_weaken, Returns_at,
  >>=-eq-ret, if-Returns,
}
use magiskboot_go.Cpio.{Cpio, new_cpio}
use magiskboot_go.Cpio.Path.{norm_path}
use magiskboot_go.Cpio.Load.{load_from_data}
use magiskboot_go.Cpio.Files.{Host, Added, added, ends_in_slash, not_found, add, read_source}
use magiskboot_go.Cpio.Edit.{exists, rm, has}
use magiskboot_go.Cpio.Steps.Listed.{ListsAll-contains, Reach-ListsAll, new_cpio-ListsAll}
use magiskboot_go.Cpio.Steps.{Reach, here, Reach-trans}
use magiskboot_go.Cpio.Steps.Loaded.{load_from_data-Reach}
use magiskboot_go.Cpio.Steps.Reached.{
  rm-Reach, add_entry-Reach, mkdir-Reach, ln-Reach, mv-Reach, restore-Reach, backup-Reach,
  patch-Reach,
}
use magiskboot_go.Cpio.Command.{
  World, State, load_from_file, parse_mode, run_rm, run_add, extracted, run_extract, run_backup,
  run_exists, run_mv, run_ln, run_mkdir, dispatch, words, run_command, run_commands, load_cli,
  dump_to, cpio_commands,
}

-- What `Add` leaves.
abbrev AddReaches : Cpio → Added → Type 0
AddReaches c (added d) = Reach c d
AddReaches c ends_in_slash = Unit
AddReaches c not_found = Unit

module _ (host : Host) where
  add-Reaches :
      (fs : host.Fs) (c : Cpio) (mode : ℕ) (path file : Bytes)
      → Returns (AddReaches c) (add host fs c mode path file)
  unfolding add
  add-Reaches fs c mode path file = elim (Option-cases (host.stat fs file)) [
    | inl e ↦ rw (add, e) (if-Returns (AddReaches c) (has_suffix path (codes "/")) _ _ tt tt)
    | inr (attr, e) ↦
        rw (add, e)
          (if-Returns (AddReaches c) (has_suffix path (codes "/")) _ _ tt (
            Returns-then (AddReaches c) (read_source host fs attr file mode) _
              (λ s. add_entry-Reach c (norm_path path) _)))
  ]

module _ (world : World) where
  abbrev Edits : State world → Outcome (State world) → Type 0
  Edits s = Returns (λ t. Reach s.1 t.1)

  -- A result that is put beside the disk.
  beside :
      (fs : world.host.Fs) (s : State world) (m : Outcome Cpio)
      → Returns (Reach s.1) m
      → Edits s (m >>= λ d. ret (fs, d))
  beside fs s m h = Returns->>= (Reach s.1) (λ t. Reach s.1 t.1) m (λ d. ret (fs, d)) h (λ d r. r)

  run_rm-Edits : (s : State world) (args : List Bytes) → Edits s (run_rm world s args)
  unfolding run_rm
  run_rm-Edits (fs, c) [] = here
  run_rm-Edits (fs, c) (a ∷ args) =
      if-Returns (λ t. Reach c t.1) (bytes_eq a (codes "-r")) _ _ (go args)
        (rm-Reach world.range c a false)
    where
      go :
          (args : List Bytes)
          → Edits (fs, c) (elim args [ [] ↦ panic | p ∷ _ ↦ ret (fs, rm world.range c p true) ])
      go [] = tt
      go (p ∷ args) = rm-Reach world.range c p true

  run_add-Edits : (s : State world) (args : List Bytes) → Edits s (run_add world s args)
  unfolding run_add
  run_add-Edits s [] = tt
  run_add-Edits s (m ∷ []) = tt
  run_add-Edits s (m ∷ path ∷ []) = tt
  run_add-Edits (fs, c) (m ∷ path ∷ file ∷ rest) =
      Returns-then (λ t. Reach c t.1) (parse_mode m) _
        (λ mode.
          Returns->>= (AddReaches c) (λ t. Reach c t.1) (add world.host fs c mode path file) _
            (add-Reaches world.host fs c mode path file) go)
    where
      go :
          (r : Added)
          → AddReaches c r
          → Edits
              (fs, c)
              (elim r [ added c' ↦ ret (fs, c') | ends_in_slash ↦ fatal | not_found ↦ fatal ])
      go (added d) h = h
      go ends_in_slash h = tt
      go not_found h = tt

  extracted-Edits :
      (fs : world.host.Fs) (c : Cpio) (m : Outcome (world.host.Fs × Bool))
      → Edits (fs, c) (extracted world c m)
  extracted-Edits fs c m =
      Returns-then (λ t. Reach c t.1) m _ (λ r. if-Returns (λ t. Reach c t.1) r.1 _ _ tt here)

  run_extract-Edits : (s : State world) (args : List Bytes) → Edits s (run_extract world s args)
  unfolding run_extract
  run_extract-Edits (fs, c) [] = here
  run_extract-Edits (fs, c) (p ∷ []) = extracted-Edits fs c _
  run_extract-Edits (fs, c) (p ∷ out ∷ rest) = extracted-Edits fs c _

  run_backup-Edits : (s : State world) (args : List Bytes) → Edits s (run_backup world s args)
  unfolding run_backup
  run_backup-Edits s [] = tt
  run_backup-Edits (fs, c) (origin ∷ []) =
      beside fs (fs, c) _ (backup-Reach world.range world.lib (world.map_file fs origin) false c)
  run_backup-Edits (fs, c) (origin ∷ flag ∷ rest) =
      beside fs (fs, c) _
        (backup-Reach world.range world.lib (world.map_file fs origin) (bytes_eq flag (codes "-n"))
          c)

  run_exists-Edits : (s : State world) (args : List Bytes) → Edits s (run_exists world s args)
  unfolding run_exists
  run_exists-Edits s [] = tt
  run_exists-Edits (fs, c) (p ∷ rest) = if-Returns (λ t. Reach c t.1) (exists c p) _ _ tt tt

  run_mv-Edits : (s : State world) (args : List Bytes) → Edits s (run_mv world s args)
  unfolding run_mv
  run_mv-Edits s [] = tt
  run_mv-Edits s (from ∷ []) = tt
  run_mv-Edits (fs, c) (from ∷ to ∷ rest) = mv-Reach c from to

  run_ln-Edits : (s : State world) (args : List Bytes) → Edits s (run_ln world s args)
  unfolding run_ln
  run_ln-Edits s [] = tt
  run_ln-Edits s (src ∷ []) = tt
  run_ln-Edits (fs, c) (src ∷ dst ∷ rest) = ln-Reach c src dst

  run_mkdir-Edits : (s : State world) (args : List Bytes) → Edits s (run_mkdir world s args)
  unfolding run_mkdir
  run_mkdir-Edits s [] = tt
  run_mkdir-Edits s (m ∷ []) = tt
  run_mkdir-Edits (fs, c) (m ∷ path ∷ rest) =
      Returns-then (λ t. Reach c t.1) (parse_mode m) _ (λ mode. mkdir-Reach c mode path)

  dispatch-Edits :
      (s : State world) (cmd : Bytes) (args : List Bytes) → Edits s (dispatch world s cmd args)
  unfolding dispatch
  dispatch-Edits s cmd args =
      let P : State world → Type 0 = λ t. Reach s.1 t.1 in
      if-Returns P (bytes_eq cmd (codes "test")) _ _ tt (
        if-Returns P (bytes_eq cmd (codes "restore")) _ _
          (beside s.0 s _ (restore-Reach world.range world.lib s.1))
          (if-Returns P (bytes_eq cmd (codes "patch")) _ _
            (beside s.0 s _ (patch-Reach world.range world.env s.1))
            (if-Returns P (bytes_eq cmd (codes "exists")) _ _ (run_exists-Edits s args) (
              if-Returns P (bytes_eq cmd (codes "backup")) _ _ (run_backup-Edits s args) (
                if-Returns P (bytes_eq cmd (codes "rm")) _ _ (run_rm-Edits s args) (
                  if-Returns P (bytes_eq cmd (codes "mv")) _ _ (run_mv-Edits s args) (
                    if-Returns P (bytes_eq cmd (codes "ln")) _ _ (run_ln-Edits s args) (
                      if-Returns P (bytes_eq cmd (codes "mkdir")) _ _ (run_mkdir-Edits s args) (
                        if-Returns P (bytes_eq cmd (codes "add")) _ _ (run_add-Edits s args) (
                          if-Returns P (bytes_eq cmd (codes "extract")) _ _
                            (run_extract-Edits s args)
                            (if-Returns P (bytes_eq cmd (codes "ls")) _ _ tt here)))))))))))

  words-Edits : (s : State world) (ws : List Bytes) → Edits s (words world s ws)
  words-Edits s [] = here
  words-Edits s (cmd ∷ args) = dispatch-Edits s cmd args

  run_command-Edits : (s : State world) (command : Bytes) → Edits s (run_command world s command)
  unfolding run_command
  run_command-Edits s command =
      if-Returns (λ t. Reach s.1 t.1) (has_prefix command (codes "#")) _ _ here
        (words-Edits s (split command b' '))

  -- Whatever commands are run, what they leave where they return is reached from their archive in
  -- steps.
  run_commands-Edits :
      (s : State world) (commands : List Bytes) → Edits s (run_commands world s commands)
  unfolding run_commands
  run_commands-Edits s [] = here
  run_commands-Edits s (command ∷ commands) =
      Returns->>= (λ t. Reach s.1 t.1) (λ t. Reach s.1 t.1) (run_command world s command)
        (λ t. run_commands world t commands) (run_command-Edits s command)
        (λ t r.
          Returns_weaken (λ u. Reach t.1 u.1) (λ u. Reach s.1 u.1) (run_commands world t commands)
            (λ u q. Reach-trans r q) (run_commands-Edits t commands))

  abbrev LoadReaches : Option Cpio → Type 0
  LoadReaches none = Unit
  LoadReaches (some c) = Reach new_cpio c

  found :
      (o : Option Cpio)
      → LoadReaches o
      → Returns (Reach new_cpio) (elim o [ none ↦ fatal | some c ↦ ret c ])
  found none h = tt
  found (some c) h = h

  -- An archive that is loaded, or is new.
  load_cli-Reach :
      (fs : world.host.Fs) (file : Bytes) → Returns (Reach new_cpio) (load_cli world fs file)
  unfolding load_cli load_from_file
  load_cli-Reach fs file = elim (Option-cases (world.host.stat fs file)) [
    | inl e ↦ rw (load_cli, e) here
    | inr (info, e) ↦ elim (Option-cases (world.map_file fs file)) [
      | inl f ↦ rw (load_cli, e, load_from_file, f) tt
      | inr (bytes, f) ↦
          rw (load_cli, e, load_from_file, f)
            (Returns->>= LoadReaches (Reach new_cpio)
              (load_from_data new_cpio bytes >>= λ r. ret (some r.0)) _
              (Returns->>= (λ r. Reach new_cpio r.0) LoadReaches (load_from_data new_cpio bytes)
                (λ r. ret (some r.0)) (load_from_data-Reach new_cpio bytes) (λ r q. q))
              found)
    ]
  ]

-- The archive that a run of commands leaves is reached, by elementary changes, from the
-- archive that they are given.
run_commands-Reach :
    (world : World) (s t : State world) (commands : List Bytes)
    → run_commands world s commands ≡ ret t
    → Reach s.1 t.1
run_commands-Reach world s t commands h =
    Returns_at (λ u. Reach s.1 u.1) (run_commands world s commands) t
      (run_commands-Edits world s commands) h

-- A run that returns has loaded an archive or made a new one, has run its commands on it, and has
-- written the archive that they left; this lists every key of its map, so that `Dump`, which walks
-- the list, writes every entry.
pub cpio_commands-lists :
    (world : World) (fs fs' : world.host.Fs) (file : Bytes) (commands : List Bytes)
    → cpio_commands world fs (file ∷ commands) ≡ ret fs'
    → (c : Cpio) × (s : State world) × (load_cli world fs file ≡ ret c)
      × (run_commands world (fs, c) commands ≡ ret s)
      × (dump_to world s.0 file s.1 ≡ ret fs')
      × ((k : Bytes) → has k s.1.entries ≡ true → contains s.1.keys k ≡ true)
unfolding cpio_commands
cpio_commands-lists world fs fs' file commands h =
    let (c, loads, rest) = >>=-eq-ret (load_cli world fs file) _ h in
    let (s, runs, dumps) = >>=-eq-ret (run_commands world (fs, c) commands) _ rest in
    let made =
      Returns_at (Reach new_cpio) (load_cli world fs file) c (load_cli-Reach world fs file) loads in
    let left = run_commands-Reach world (fs, c) s commands runs in
    (
      c,
      s,
      loads,
      runs,
      dumps,
      λ k e. ListsAll-contains k s.1 (Reach-ListsAll (Reach-trans made left) new_cpio-ListsAll) e,
    )
