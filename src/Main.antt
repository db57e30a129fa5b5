-- ===== src/Main.antt =====
-- `Main` of magiskboot.go: which action the arguments ask for. The actions are modelled in the other
-- modules.
pub mod Laws
pub mod Usage
pub mod Perform
pub mod Documented
use magiskboot_go.Base.{
  ℕ, zero, suc, ◌+◌, Bool, true, false, ◌&&◌, ◌||◌, List, [], ◌∷◌, ◌++◌, Option, none, some,
}
use magiskboot_go.Base.{
  Bytes, codes, bytes_eq, has_prefix, trim_left, drop, get_elem?, ◌==◌, if◌then◌else◌,
}
use magiskboot_go.Format.{Format, fmt2name, gzip, zopfli, xz, lzma, bzip2, lz4, lz4_legacy, lz4_lg}

pub data Action : Type 0 where
  -- The usage text, and exit status 1.
  usage : Action
  -- The files that are removed, and the directory that is removed with all below it.
  cleanup : List Bytes → Bytes → Action
  sha1 : Bytes → Action
  split : Bytes → Bool → Action
  -- `panic(notImplError)`.
  not_implemented : Action
  decompress : Bytes → Bytes → Action
  compress : Bytes → Bytes → Bytes → Action
  hexpatch : Bytes → Bytes → Bytes → Action
  cpio : List Bytes → Action
  extract : Bytes → Bytes → Bytes → Action

-- The names of the parts of an image.
abbrev pub header_file : Bytes
header_file = codes "header"

abbrev pub kernel_file : Bytes
kernel_file = codes "kernel"

abbrev pub ramdisk_file : Bytes
ramdisk_file = codes "ramdisk.cpio"

abbrev pub second_file : Bytes
second_file = codes "second"

abbrev pub ker_dtb_file : Bytes
ker_dtb_file = codes "kernel_dtb"

abbrev pub extra_file : Bytes
extra_file = codes "extra"

abbrev pub recv_dtbo_file : Bytes
recv_dtbo_file = codes "recovery_dtbo"

abbrev pub dtb_file : Bytes
dtb_file = codes "dtb"

abbrev pub bootconfig_file : Bytes
bootconfig_file = codes "bootconfig"

abbrev pub cleanup_files : List Bytes
cleanup_files =
    header_file ∷ kernel_file ∷ ramdisk_file ∷ second_file ∷ ker_dtb_file ∷ extra_file
    ∷ recv_dtbo_file ∷ dtb_file ∷ bootconfig_file ∷ []

abbrev pub vnd_ramdisk_dir : Bytes
vnd_ramdisk_dir = codes "vendor_ramdisk"

-- The first of some arguments, or an empty one.
abbrev pub first_or_empty : List Bytes → Bytes
first_or_empty [] = []
first_or_empty (a ∷ args) = a

-- The method behind `compress=`; `gzip` where there is none.
unfoldable pub compress_method : Bytes → Bytes
compress_method action = elim (drop 8 action) [
  | [] ↦ codes "gzip"
  | c ∷ method ↦ if c == b'=' then method else codes "gzip"
]

unfoldable pub split_action : Bytes → List Bytes → Action
unfolding bytes_eq
split_action a args =
    if bytes_eq a (codes "-n")
    then (elim args [ [] ↦ usage | file ∷ _ ↦ split file true ])
    else split a false

-- `sign` with exactly two arguments behind the image prints the usage.
unfoldable pub sign_action : List Bytes → Action
sign_action (x ∷ y ∷ []) = usage
sign_action args = not_implemented

unfoldable pub hexpatch_action : Bytes → List Bytes → Action
hexpatch_action a (from ∷ to ∷ args) = hexpatch a from to
hexpatch_action a args = usage

unfoldable pub extract_action : Bytes → List Bytes → Action
extract_action a [] = extract a [] []
extract_action a (partition ∷ args) = extract a partition (first_or_empty args)

-- The chain of tests for an action with an argument at least.
unfoldable pub with_argument : Bytes → Bytes → List Bytes → Action
unfolding bytes_eq has_prefix compress_method split_action sign_action hexpatch_action
    extract_action
with_argument action a args =
    if bytes_eq action (codes "sha1")
    then sha1 a
    else if bytes_eq action (codes "split")
    then split_action a args
    else if bytes_eq action (codes "unpack")
    then not_implemented
    else if bytes_eq action (codes "repack")
    then not_implemented
    else if bytes_eq action (codes "verify")
    then not_implemented
    else if bytes_eq action (codes "sign")
    then sign_action args
    else if bytes_eq action (codes "decompress")
    then decompress a (first_or_empty args)
    else if has_prefix action (codes "compress")
    then compress (compress_method action) a (first_or_empty args)
    else if bytes_eq action (codes "hexpatch")
    then hexpatch_action a args
    else if bytes_eq action (codes "cpio")
    then cpio (a ∷ args)
    else if bytes_eq action (codes "dtb")
    then not_implemented
    else if bytes_eq action (codes "extract")
    then extract_action a args
    else usage

unfoldable pub run_action : Bytes → List Bytes → Action
unfolding with_argument bytes_eq
run_action action args =
    if bytes_eq action (codes "cleanup")
    then cleanup cleanup_files vnd_ramdisk_dir
    else (elim args [ [] ↦ usage | a ∷ rest ↦ with_argument action a rest ])

-- `Main(args)`: leading dashes of the action are passed over.
unfoldable pub main : List Bytes → Action
unfolding run_action trim_left
main [] = usage
main (program ∷ []) = usage
main (program ∷ action ∷ args) = run_action (trim_left (λ c. c == b'-') action) args

-- `printFormats`: the formats from GZIP up to, and without, LZOP.
unfoldable pub printed_formats : List Format
printed_formats = gzip ∷ zopfli ∷ xz ∷ lzma ∷ bzip2 ∷ lz4 ∷ lz4_legacy ∷ lz4_lg ∷ []
