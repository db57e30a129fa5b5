-- ===== src/Boot.antt =====
-- bootimg.go: the headers of boot images, and the splitting of a kernel image from the device tree
-- behind it.
pub mod Layout
pub mod Dtb
pub mod Lg
pub mod Wrappers
pub mod Headers
pub mod Dyn
pub mod Img
pub mod Parts
