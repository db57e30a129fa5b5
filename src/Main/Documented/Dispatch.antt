-- ===== src/Main/Documented/Dispatch.antt =====
-- `Main` does for every word what the list of actions of the usage text says.
use magiskboot_go.Base.{List, ◌≡◌}
use magiskboot_go.Base.{Bytes}
use magiskboot_go.Main.{Action, run_action}

abbrev Runs : Bytes × (List Bytes → Action) → Type 0
Runs h = (args : List Bytes) → run_action h.0 args ≡ h.1 args
