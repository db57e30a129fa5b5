-- ===== src/Cpio/Steps/Reached.antt =====
-- What each operation on an archive leaves is reached from it in steps.
use magiskboot_go.Base.{
  ℕ, zero, suc, ◌+◌, Bool, true, false, List, [], ◌∷◌, ◌++◌, Option, none, some, codes,
}
use magiskboot_go.Base.{
  Bytes, has_prefix, bytes_eq, length, get_elem?, split, ◌==◌, ◌&&◌, not, if◌then◌else◌,
}
use magiskboot_go.Base.{ret, panic, ◌>>=◌, Returns, Returns->>=, Returns-then}
use magiskboot_go.Base.Dict.{Dict}
use magiskboot_go.Compress.Xz.{XzLib}
use magiskboot_go.Cpio.{Cpio, CpioEntry, entry_at}
use magiskboot_go.Cpio.Edit.{
  has, remove_entry, rm_under, rm_path, rm, add_entry, move, mv, mkdir, ln,
}
use magiskboot_go.Cpio.Path.{norm_path}
use magiskboot_go.Cpio.Patching.{
  Walk, remove_in_walk, patch_round, patch_loop, patch, is_fstab, patch_content,
}
use magiskboot_go.Cpio.Restore.{rm_listed, add_backups, put_back, restore, gather, Found}
use magiskboot_go.Cpio.Backup.{Recorded, backup_dir, merge, with_rm_list, backup_against, backup}
use magiskboot_go.Cpio.{new_cpio}
use magiskboot_go.Cpio.Load.{load_from_data}
use magiskboot_go.Env.{check_env}
use magiskboot_go.Cpio.Steps.{
  removes, appends, takes_out, sorts, empties, Reach, here, and_then, Reach-trans,
}

if-Reach : (b : Bool) (c d e : Cpio) → Reach c d → Reach c e → Reach c (if b then d else e)
if-Reach true c d e r q = r
if-Reach false c d e r q = q

remove_if-Reach : (b : Bool) (c : Cpio) (k : Bytes) → Reach c (if b then remove_entry c k else c)
remove_if-Reach b c k = if-Reach b c (remove_entry c k) c (and_then here (removes c k)) here

rm_under-Reach : (prefix : Bytes) (ks : List Bytes) (c : Cpio) → Reach c (rm_under prefix ks c)
unfolding rm_under
rm_under-Reach prefix [] c = here
rm_under-Reach prefix (k ∷ ks) c =
    Reach-trans (remove_if-Reach (has_prefix k prefix) c k)
      (rm_under-Reach prefix ks (if has_prefix k prefix then remove_entry c k else c))

module _ (range : Dict CpioEntry → List Bytes) where
  rm_path-Reach :
      (c : Cpio) (path : Bytes) (recursive : Bool) → Reach c (rm_path range c path recursive)
  unfolding rm_path
  rm_path-Reach c path false = remove_if-Reach (has path c.entries) c path
  rm_path-Reach c path true =
      let c' = if has path c.entries then remove_entry c path else c in
      Reach-trans (remove_if-Reach (has path c.entries) c path)
        (rm_under-Reach (path ++ codes "/") (range c'.entries) c')

  pub rm-Reach : (c : Cpio) (path : Bytes) (recursive : Bool) → Reach c (rm range c path recursive)
  unfolding rm norm_path
  rm-Reach c path recursive = rm_path-Reach c (norm_path path) recursive

pub add_entry-Reach : (c : Cpio) (k : Bytes) (e : CpioEntry) → Reach c (add_entry c k e)
unfolding add_entry
add_entry-Reach c k e = and_then (and_then here (appends c k e)) (sorts _)

pub mkdir-Reach : (c : Cpio) (mode : ℕ) (dir : Bytes) → Reach c (mkdir c mode dir)
unfolding mkdir
mkdir-Reach c mode dir = add_entry-Reach c _ _

pub ln-Reach : (c : Cpio) (src dst : Bytes) → Reach c (ln c src dst)
unfolding ln
ln-Reach c src dst = add_entry-Reach c _ _

pub mv-Reach : (c : Cpio) (from to : Bytes) → Reach c (mv c from to)
unfolding mv move
mv-Reach c from to = Reach-trans (and_then here (takes_out c _)) (add_entry-Reach _ _ _)

module _ (range : Dict CpioEntry → List Bytes) where
  rm_listed-Reach : (names : List Bytes) (c : Cpio) → Reach c (rm_listed range names c)
  unfolding rm_listed
  rm_listed-Reach [] c = here
  rm_listed-Reach (name ∷ names) c =
      Reach-trans
        (if-Reach (length name == 0) c c (rm range c name false) here (rm-Reach range c name false))
        (rm_listed-Reach names (if length name == 0 then c else rm range c name false))

  add_backups-Reach :
      (d : Dict CpioEntry) (ks : List Bytes) (c : Cpio) → Reach c (add_backups d ks c)
  unfolding add_backups
  add_backups-Reach d [] c = here
  add_backups-Reach d (k ∷ ks) c =
      Reach-trans (and_then here (appends c k _)) (add_backups-Reach d ks _)

  put_back-Reach : (found : Found) (c : Cpio) → Reach c (put_back range found c)
  unfolding put_back
  put_back-Reach found c =
      let c1 = rm range c (codes ".backup") false in
      let c2 = rm_listed range (split found.rm_list 0) c1 in
      let r1 = rm-Reach range c (codes ".backup") false in
      if-Reach (length found.rm_list == 0 && length found.backups == 0) c _ _
        (and_then r1 (empties c1))
        (and_then
          (Reach-trans r1 (
            Reach-trans (rm_listed-Reach (split found.rm_list 0) c1)
              (add_backups-Reach found.backups (range found.backups) c2)))
          (sorts _))

  pub restore-Reach : (lib : XzLib) (c : Cpio) → Returns (Reach c) (restore lib range c)
  unfolding restore
  restore-Reach lib c =
      Returns-then (Reach c) (gather lib c c.keys (record { backups = []; rm_list = [] }))
        (λ found. ret (put_back range found c)) (λ found. put_back-Reach found c)

  pub backup-Reach :
      (lib : XzLib) (origin : Option Bytes) (skip_compress : Bool) (c : Cpio)
      → Returns (Reach c) (backup lib range origin skip_compress c)
  unfolding backup backup_against
  backup-Reach lib none skip c = tt
  backup-Reach lib (some bytes) skip c =
      Returns-then (Reach c) (load_from_data new_cpio bytes)
        (λ o. ret (backup_against lib range skip o.0 c))
        (λ o.
          let o' = rm range o.0 (codes ".backup") true in
          let c' = rm range c (codes ".backup") true in
          let start : Recorded = record {
            backups = (codes ".backup", backup_dir) ∷ [];
            rm_list = [];
          } in
          let d = with_rm_list (merge lib skip o' c' o'.keys c'.keys start) in
          and_then
            (Reach-trans (rm-Reach range c (codes ".backup") true)
              (add_backups-Reach d (range d) c'))
            (sorts _))

module _ (range : Dict CpioEntry → List Bytes) (kv kf : Bool) (c : Cpio) where
  -- The walk has reached an archive.
  abbrev Walked : Walk → Type 0
  Walked w = Reach c w.cpio

  remove_in_walk-Walked :
      (b : Bool) (w : Walk) (name : Bytes)
      → Walked w
      → Walked (if b then remove_in_walk range kv kf w name else w)
  unfolding remove_in_walk
  remove_in_walk-Walked true w name h = Reach-trans h (rm-Reach range w.cpio name false)
  remove_in_walk-Walked false w name h = h

  patch_round-Walked :
      (w : Walk) (name : Bytes) → Walked w → Returns Walked (patch_round range kv kf w name)
  unfolding patch_round remove_in_walk
  patch_round-Walked w name h =
      let e = entry_at w.cpio name in
      let fstab = is_fstab kv kf name e in
      Returns-then Walked (patch_content kv kf fstab e.content)
        (λ content. ret (
          if not kv && (not fstab && bytes_eq name (codes "verity_key"))
          then remove_in_walk range kv kf w name
          else w))
        (λ b.
          remove_in_walk-Walked (not kv && (not fstab && bytes_eq name (codes "verity_key"))) w name
            h)

  patch_loop-Walked :
      (n i : ℕ) (w : Walk) → Walked w → Returns Walked (patch_loop range kv kf n i w)
  unfolding patch_loop
  patch_loop-Walked zero i w h = h
  patch_loop-Walked (suc n) i w h = go (get_elem? w.array i) (λ v. patch_loop-Walked n (i + 1) v)
    where
      go :
          (o : Option Bytes)
          → ((v : Walk) → Walked v → Returns Walked (patch_loop range kv kf n (i + 1) v))
          → Returns Walked (elim o [
            | none ↦ panic
            | some name ↦ patch_round range kv kf w name >>= λ v. patch_loop range kv kf n (i + 1) v
          ])
      go none ih = tt
      go (some name) ih =
          Returns->>= Walked Walked (patch_round range kv kf w name)
            (λ v. patch_loop range kv kf n (i + 1) v) (patch_round-Walked w name h) ih

pub patch-Reach :
    (range : Dict CpioEntry → List Bytes) (env : Bytes → Option Bytes) (c : Cpio)
    → Returns (Reach c) (patch range env c)
unfolding patch
patch-Reach range env c =
    let kv = check_env env (codes "KEEPVERITY") in
    let kf = check_env env (codes "KEEPFORCEENCRYPT") in
    let start : Walk = record { cpio = c; array = c.keys } in
    Returns->>= (λ (w : Walk). Reach c w.cpio) (Reach c)
      (patch_loop range kv kf (length c.keys) 0 start) (λ w. ret w.cpio)
      (patch_loop-Walked range kv kf c (length c.keys) 0 start here) (λ w h. h)
