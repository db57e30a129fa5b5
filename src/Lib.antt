-- ===== src/Lib.antt =====
-- magiskboot: a tool that edits the parts of Android boot images. `Main` (magiskboot.go) reads the
-- arguments and calls one action: the cpio commands on a ramdisk (cpio.go), compression
-- (compress.go), the patch of a file by a hexadecimal pattern (patch.go), the split of a kernel from
-- its device tree (bootimg.go), or the extraction of a partition from an update payload (payload.go).
-- `CheckFmt` (format.go) says what a buffer holds; compression, payload and split rest on it. `Patch`
-- of an archive calls the fstab patches of patch.go, and `Backup` and `Restore` call `Xz` and `Unxz`
-- of compress.go.
--
-- The files, and the code that they are about:
--   Base       bytes, lists, search, splitting, maps, sorting and little-endian numbers, as Go's
--              library defines them, and `Outcome`, how a call ends: `ret` a value, `panic`, `exit`
--              with a status (log.Fatal is `exit 1`), or `running` where the rounds of a loop are
--              used up
--   Common     align_to and align_padding of common.go, align_4 of cpio.go
--   Format     format.go: CheckFmt, the names and the extensions; Format.Detect and Format.Names
--              hold the proofs
--   Cpio       cpio.go. The archive is the record `Cpio`: `entries`, the map, as an association
--              list, and `keys`, the key list. Cpio.Path is norm_path, with its law in
--              Cpio.Path.Safe, Cpio.Field x8u, Cpio.Load LoadFromData,
--              Cpio.Dump Dump and writeZeros, Cpio.Edit Rm, Exists, addEntry, Mkdir,
--              Ln and Mv, Cpio.Patching Patch, Test, Compress and Decompress, Cpio.Restore Restore,
--              Cpio.Backup Backup, Cpio.Files Add, extractEntry and Extract, Cpio.Listing Ls and
--              Format, with the text in Cpio.Listing.Text, Cpio.Usage PrintCpioUsage, Cpio.Command
--              parseMode, LoadFromFile and CpioCommands. Cpio.RoundTrip ties Cpio.Dump and
--              Cpio.Load together through the image of an archive, and Cpio.Command.Run ties them
--              to the commands; Cpio.Backup.Merge compares key lists, and Cpio.Listing.Children
--              says which keys are listed.
--              Cpio.Steps is the step relation of the changes to an archive; Cpio.Command.Edits
--              takes every command as such steps. Cpio.Ends and Cpio.Command.Ends are about how
--              calls end, Cpio.Load.Storable and Cpio.Command.Rewrite about any file that is loaded
--   Patch      patch.go: Patch.Fstab is patchFstab, Patch.Hex is HexPatch
--   Compress   compress.go: Compress.Codec is NewEncoder, NewDecoder, Lz4HCWriter and DecompressToFd,
--              Compress.Plan the tests of Compress and Decompress, Compress.Copy their loops,
--              Compress.Stream Encoder and Decoder with both loops, Compress.Decoder Decode, Close
--              and decompress of bootimg.go, Compress.Run both calls on a file system, Compress.Xz
--              Xz and Unxz
--   Env, Main  CheckEnv, Main and printFormats of magiskboot.go; Main.Usage is the text of Usage,
--              Main.Documented takes the actions from it and says what each does, which
--              Main.Documented.Dispatch compares with Main, and Main.Perform is Main with its actions
--              on a machine (`Machine`), and cmd/main.go
--   Payload    payload.go; Payload.Message holds the messages and the choice of the partition,
--              Payload.File is the reading and writing of files by position, Payload.Served what
--              that comes to for a regular file and a disk with room, Payload.Replace what a list
--              of copying operations comes to, Payload.Replace.Short one whose data is cut off
--   Boot       bootimg.go: Boot.Dtb is findDtbOffset, checkFmtLg and SplitImageDtb. Boot.Layout is
--              what binary.Read makes of a struct, Boot.Wrappers and Boot.Headers the structs,
--              Boot.Dyn the DynImg types, Boot.Dyn.Init their Init, Boot.Dyn.Any their other
--              methods, Boot.Dyn.Methods the same by embedding, and Boot.Img BootImg. Boot.Lg and
--              Boot.Parts are about the split
--   Stub       stub/unix_stub.go and stub/windows_stub.go
--   Tests      runs on concrete data
--
-- Bytes are natural numbers below 256 in a list. Numbers of 32 and 64 bits are natural numbers, with
-- the remainders written where the code's arithmetic can wrap. A slice that the code extends into
-- its spare capacity has that capacity as an argument of its own (`spare`). A pointer into a struct
-- is the place that it points to, a function of the struct, so that what is read through it is what
-- stands there at that time.
--
-- Loops over a list or over positions are recursion on that list or on the number of positions. The
-- loop of LoadFromData is given one round more than the data has bytes, which is enough, since each
-- round takes at least a header. The reads of a file by Compress are given one round more than the
-- file has bytes, which is enough, since each but the last takes one at least. The two loops of
-- bootimg.go that may not end take the number of rounds as an argument.
--
-- Parameters: the order in which a Go map is walked (`range`); what the operating system answers
-- (`Host`, `World`, and the writes of `Dump` as a function with a count and an error); the libraries
-- of compression (`XzLib`, `Libraries`, `Streams`), and the files that it reads and writes
-- (`FileSystem`); for a payload, how many bytes a Read gives, whether a Seek succeeds, which on a
-- pipe it never does, whether the output can be created and how many bytes a Write takes (`Input`,
-- `Output`, `Files`); the decoding of a manifest and the sort of its operations (`Formats`); the system
-- calls on devices (`Unix`); the environment; and all of these together (`Machine`).
--
-- Memory is taken to be enough: an allocation never fails. The image of an extraction is another file
-- than the payload.
--
-- Not modelled: the text that is printed, apart from that of ls and the usage texts; the checksum of
-- the sha1 action; Compress and Decompress with one file for input and output, of which the content
-- is taken as it is once the output has been created; Print, DumpHdrFile and LoadHdrFile of
-- bootimg.go, whose bodies are empty; and chromeos_update_engine/update_metadata.pb.go, which is
-- generated, but for the fields and getters that payload.go reads.
pub mod Base
pub mod Common
pub mod Format
pub mod Patch
pub mod Compress
pub mod Env
pub mod Stub
pub mod Cpio
pub mod Payload
pub mod Boot
pub mod Main
pub mod Tests
