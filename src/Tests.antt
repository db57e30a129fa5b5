-- ===== src/Tests.antt =====
-- Runs of the model on concrete inputs, and the theorems at such inputs.
mod Archive
mod Formats
mod Boot
mod Backup
mod Headers
mod Sizes
mod Compression
mod Disk
mod Extraction
mod Run
mod Listing
