-- ===== src/Env.antt =====
-- `CheckEnv` of magiskboot.go, on what the environment holds.
use magiskboot_go.Base.{Bool, false, Option, none, some, Bytes, codes, bytes_eq}

unfoldable pub check_env : (Bytes → Option Bytes) → Bytes → Bool
unfolding bytes_eq
check_env lookup_env key = elim (lookup_env key) [
  | none ↦ false
  | some value ↦ bytes_eq value (codes "true")
]
