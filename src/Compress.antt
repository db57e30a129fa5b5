-- ===== src/Compress.antt =====
-- compress.go.
pub mod Xz
pub mod Stream
pub mod Codec
pub mod Plan
pub mod Copy
pub mod Run
pub mod Decoder
