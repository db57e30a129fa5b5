-- ===== src/Cpio/Patching/Laws.antt =====
-- What `Patch` leaves in the archive.
use magiskboot_go.Base.{
  ℕ, zero, suc, ◌+◌, ◌≡◌, ◌≢◌, refl, sym, ap, ◌∙◌, arith, Bool, true, false, ◌&&◌, not, List,
}
use magiskboot_go.Base.{
  Bytes, codes, bytes_eq, bytes_eq_sound, bytes_eq_ne, length, get_elem?, Option, none, some,
}
use magiskboot_go.Base.{ret, panic, ◌>>=◌, >>=-eq-ret, if◌then◌else◌}
use magiskboot_go.Base.Dict.{Dict, lookup}
use magiskboot_go.Cpio.{Cpio, CpioEntry, entry_at}
use magiskboot_go.Env.{check_env}
use magiskboot_go.Cpio.Path.{norm_path}
use magiskboot_go.Cpio.Edit.{rm}
use magiskboot_go.Cpio.Edit.Removal.{lookup-rm_path_flat}
use magiskboot_go.Cpio.Patching.{
  Walk, remove_in_walk, patch_round, patch_loop, patch, is_fstab, patch_content,
}

abbrev pub verity_key : Bytes
verity_key = codes "verity_key"

norm_path-verity_key : norm_path verity_key ≡ verity_key
unfolding norm_path
norm_path-verity_key = refl

module _ (range : Dict CpioEntry → List Bytes) (kv kf : Bool) (k : Bytes)
    (other : k ≢ verity_key) where
  remove_in_walk-same :
      (w : Walk)
      → lookup k (remove_in_walk range kv kf w verity_key).cpio.entries ≡ lookup k w.cpio.entries
  unfolding remove_in_walk rm
  remove_in_walk-same w = rw (
    norm_path-verity_key,
    lookup-rm_path_flat range w.cpio verity_key k,
    bytes_eq_ne verity_key k (λ e. other (sym e)),
  )

  patch_round-same :
      (w w' : Walk) (name : Bytes)
      → patch_round range kv kf w name ≡ ret w'
      → lookup k w'.cpio.entries ≡ lookup k w.cpio.entries
  unfolding patch_round
  patch_round-same w w' name h =
      let (content, _, e) =
        >>=-eq-ret
          (patch_content kv kf (is_fstab kv kf name (entry_at w.cpio name))
            (entry_at w.cpio name).content)
          _ h in
      go (not kv && (not (is_fstab kv kf name (entry_at w.cpio name)) && bytes_eq name verity_key))
        refl e
    where
      go :
          (b : Bool)
          → (not kv
              && (not (is_fstab kv kf name (entry_at w.cpio name)) && bytes_eq name verity_key))
            ≡ b
          → ret (if b then remove_in_walk range kv kf w name else w) ≡ ret w'
          → lookup k w'.cpio.entries ≡ lookup k w.cpio.entries
      go true t e =
          let named : name ≡ verity_key = bytes_eq_sound name verity_key (ground arith) in
          let same : w' ≡ remove_in_walk range kv kf w verity_key = cc in
          ap (λ (v : Walk). lookup k v.cpio.entries) same ∙ remove_in_walk-same w
      go false t e = let same : w' ≡ w = cc in ap (λ (v : Walk). lookup k v.cpio.entries) same

  patch_loop-same :
      (n i : ℕ) (w w' : Walk)
      → patch_loop range kv kf n i w ≡ ret w'
      → lookup k w'.cpio.entries ≡ lookup k w.cpio.entries
  unfolding patch_loop
  patch_loop-same zero i w w' h =
      let same : w' ≡ w = cc in ap (λ (v : Walk). lookup k v.cpio.entries) same
  patch_loop-same (suc n) i w w' h =
      go (get_elem? w.array i) h (λ v e. patch_loop-same n (i + 1) v w' e)
    where
      go :
          (o : Option Bytes)
          → (elim o [
            | none ↦ panic
            | some name ↦ patch_round range kv kf w name >>= λ v. patch_loop range kv kf n (i + 1) v
          ])
            ≡ ret w'
          → ((v : Walk)
              → patch_loop range kv kf n (i + 1) v ≡ ret w'
              → lookup k w'.cpio.entries ≡ lookup k v.cpio.entries)
          → lookup k w'.cpio.entries ≡ lookup k w.cpio.entries
      go none e ih = cc
      go (some name) e ih =
          let (v, r, f) = >>=-eq-ret (patch_round range kv kf w name) _ e in
          ih v f ∙ patch_round-same w v name r

-- `Patch` changes no entry: whatever the environment says, every name but `verity_key` has the same
-- entry, with the same data, behind it. The data that it patches is that of a copy.
pub patch-same :
    (range : Dict CpioEntry → List Bytes) (env : Bytes → Option Bytes) (c c' : Cpio) (k : Bytes)
    → patch range env c ≡ ret c'
    → k ≢ verity_key
    → lookup k c'.entries ≡ lookup k c.entries
unfolding patch
patch-same range env c c' k h other =
    let kv = check_env env (codes "KEEPVERITY") in
    let kf = check_env env (codes "KEEPFORCEENCRYPT") in
    let start : Walk = record { cpio = c; array = c.keys } in
    let (w, run, e) = >>=-eq-ret (patch_loop range kv kf (length c.keys) 0 start) _ h in
    let same : c' ≡ w.cpio = cc in
    ap (λ (d : Cpio). lookup k d.entries) same
    ∙ patch_loop-same range kv kf k other (length c.keys) 0 start w run
