-- ===== src/Patch.antt =====
-- patch.go: the rewriting of fstab files, and the patching of a file's bytes.
pub mod Fstab
pub mod Hex
