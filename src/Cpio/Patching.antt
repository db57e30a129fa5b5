-- ===== src/Cpio/Patching.antt =====
-- `Patch` and `Test`, and the compression of an entry.
pub mod Laws
use magiskboot_go.Base.{
  ℕ, zero, suc, ◌+◌, Bool, true, false, ◌&&◌, ◌||◌, not, List, [], ◌∷◌, ◌++◌, Option, none, some,
}
use magiskboot_go.Base.{
  Bytes, codes, bytes_eq, has_prefix, contains, length, drop, get_elem?, bit_and,
}
use magiskboot_go.Base.{Outcome, ret, panic, exit, running, ◌>>=◌, ◌==◌, if◌then◌else◌}
use magiskboot_go.Base.Dict.{Dict}
use magiskboot_go.Compress.Xz.{XzLib, xz_compress, unxz}
use magiskboot_go.Env.{check_env}
use magiskboot_go.Patch.Fstab.{patch_verity, patch_encryption}
use magiskboot_go.Cpio.{Cpio, CpioEntry, entry_at, s_ifmt, s_ifreg}
use magiskboot_go.Cpio.Edit.{rm}

unfoldable pub is_regular : CpioEntry → Bool
is_regular e = bit_and e.mode s_ifmt == s_ifreg

-- The entry behind `Compress` or `Decompress`, and whether it was changed.
unfoldable pub compress_entry : XzLib → CpioEntry → CpioEntry × Bool
unfolding is_regular xz_compress
compress_entry lib e =
    if is_regular e
    then (elim (xz_compress lib e.content) [
      | none ↦ (e, false)
      | some c ↦ (record e { content = c }, true)
    ])
    else (e, false)

unfoldable pub decompress_entry : XzLib → CpioEntry → Outcome (CpioEntry × Bool)
unfolding is_regular unxz
decompress_entry lib e =
    if is_regular e
    then (unxz lib e.content >>= λ r. elim r [
      | none ↦ ret (e, false)
      | some c ↦ ret (record e { content = c }, true)
    ])
    else ret (e, false)

-- Whether an entry is an fstab file that the flags ask to patch.
unfoldable pub is_fstab : Bool → Bool → Bytes → CpioEntry → Bool
unfolding is_regular has_prefix
is_fstab keep_verity keep_force_encrypt name e =
    (not keep_verity || not keep_force_encrypt)
    && (is_regular e
        && (not (has_prefix name (codes ".backup"))
            && (not (has_prefix name (codes "twrp"))
                && (not (has_prefix name (codes "recovery")) && has_prefix name (codes "fstab")))))

-- The data that a round computes for its copy of the entry.
unfoldable pub patch_content : Bool → Bool → Bool → Bytes → Outcome Bytes
unfolding patch_verity patch_encryption
patch_content keep_verity keep_force_encrypt fstab content = do
  c ← (if not keep_verity && fstab then patch_verity content else ret content)
  if not keep_force_encrypt && fstab then patch_encryption c else ret c

-- The archive, and the array that `range c.Keys` walks: a removal shifts the keys within it.
pub record Walk : Type 0 where
  pub cpio : Cpio
  pub array : List Bytes

module _ (range : Dict CpioEntry → List Bytes) (keep_verity keep_force_encrypt : Bool) where
  unfoldable pub remove_in_walk : Walk → Bytes → Walk
  remove_in_walk w name =
      let c = rm range w.cpio name false in
      record { cpio = c; array = c.keys ++ drop (length c.keys) w.array }

  -- One round of the loop over the keys. The patched data is put into a copy of the entry, which is
  -- dropped.
  unfoldable pub patch_round : Walk → Bytes → Outcome Walk
  patch_round w name = do
    let e = entry_at w.cpio name
    let fstab = is_fstab keep_verity keep_force_encrypt name e
    content ← patch_content keep_verity keep_force_encrypt fstab e.content
    ret (
        if not keep_verity && (not fstab && bytes_eq name (codes "verity_key"))
        then remove_in_walk w name
        else w)

  -- The rounds left, from a position in the array on.
  unfoldable pub patch_loop : ℕ → ℕ → Walk → Outcome Walk
  patch_loop zero i w = ret w
  patch_loop (suc n) i w = elim (get_elem? w.array i) [
    | none ↦ panic
    | some name ↦ patch_round w name >>= λ w'. patch_loop n (i + 1) w'
  ]

-- `c.Patch()`, in an environment.
unfoldable pub patch : (Dict CpioEntry → List Bytes) → (Bytes → Option Bytes) → Cpio → Outcome Cpio
patch range env c =
    let kv = check_env env (codes "KEEPVERITY") in
    let kf = check_env env (codes "KEEPFORCEENCRYPT") in
    patch_loop range kv kf (length c.keys) 0 (record { cpio = c; array = c.keys }) >>= λ w.
    ret w.cpio

abbrev pub unsupported_files : List Bytes
unsupported_files =
    codes "sbin/launch_daemonsu.sh"
    ∷ codes "sbin/su"
    ∷ codes "init.xposed.rc"
    ∷ codes "boot/sbin/launch_daemonsu.sh"
    ∷ []

abbrev pub magisk_files : List Bytes
magisk_files =
    codes ".backup/.magisk" ∷ codes "init.magisk.rc" ∷ codes "overlay/init.magisk.rc" ∷ []

abbrev pub magisk_patched : ℕ
magisk_patched = 1

abbrev pub unsupported_cpio : ℕ
unsupported_cpio = 2

-- Whether one of the files is listed.
unfoldable pub lists_any : List Bytes → List Bytes → Bool
unfolding contains
lists_any keys [] = false
lists_any keys (file ∷ files) =
    let rest = lists_any keys files in if contains keys file then true else rest

-- `c.Test()`.
unfoldable pub test : Cpio → ℕ
unfolding lists_any
test c =
    if lists_any c.keys unsupported_files
    then unsupported_cpio
    else if lists_any c.keys magisk_files
    then magisk_patched
    else 0
