-- ===== src/Base/Strings.antt =====
-- Byte strings, and the functions of Go's `bytes`, `strings` and `slices` that the program calls.
mod Equality
mod Cutting
unfoldable pub use Equality.*
unfoldable pub use Cutting.*
