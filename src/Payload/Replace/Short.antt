-- ===== src/Payload/Replace/Short.antt =====
-- A copying operation of which the payload does not give all the data.
use magiskboot_go.Base.{ℕ, ◌-◌, ◌++◌}
use magiskboot_go.Base.{Bytes, length, replicate}
use magiskboot_go.Payload.File.{Reader, got}

-- The buffer behind one `Read`: what it gives, and zeros.
unfoldable pub zero_filled : Reader → ℕ → Bytes
zero_filled r n = got r n ++ replicate (n - length (got r n)) 0
