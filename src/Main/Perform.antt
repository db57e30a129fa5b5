-- ===== src/Main/Perform.antt =====
-- `Main` of magiskboot.go as a whole: what its actions do on a machine, and how they end.
pub mod Back
use magiskboot_go.Base.{
  ℕ, Bool, true, false, List, [], ◌∷◌, Option, none, some, Bytes, codes, trim_right,
}
use magiskboot_go.Base.{Outcome, ret, panic, exit, fatal, ◌>>=◌, ◌==◌, if◌then◌else◌}
use magiskboot_go.Format.{Format}
use magiskboot_go.Compress.Plan.{Stream, file}
use magiskboot_go.Compress.Stream.{Streams}
use magiskboot_go.Compress.Run.{FileSystem, compress_file, decompress_file}
use magiskboot_go.Compress.Decoder.{decompress}
use magiskboot_go.Cpio.Command.{World, cpio_commands}
use magiskboot_go.Patch.Hex.{hex_patch}
use magiskboot_go.Boot.Dtb.{Split, no_dtb, decompressed, dumped, split_image_dtb}
use magiskboot_go.Payload
use magiskboot_go.Compress.Codec.{Libraries}
use magiskboot_go.Payload.{extract_boot}
use magiskboot_go.Main
use magiskboot_go.Main.{Action, main, ker_dtb_file, kernel_file}

-- What the actions call.
pub record Machine : Type 1 where
  pub world : World
  pub streams : Streams
  -- The calls of a compression, and of a split, on files and streams.
  pub opens : world.host.Fs → Bytes → Bool
  pub content : world.host.Fs → Stream → Bytes
  pub first_read : world.host.Fs → Stream → Bytes
  pub reread : world.host.Fs → Stream → Bytes
  pub create : world.host.Fs → Bytes → Option world.host.Fs
  pub write : world.host.Fs → Stream → Bytes → world.host.Fs
  pub remove : world.host.Fs → Bytes → world.host.Fs
  pub remove_all : world.host.Fs → Bytes → world.host.Fs
  -- Whether the file of a checksum can be read to its end.
  pub reads : world.host.Fs → Bytes → Bool
  -- Opening and mapping a file, to be changed or only read.
  pub map_changed : world.host.Fs → Bytes → Option Bytes
  pub map_read : world.host.Fs → Bytes → Option Bytes
  -- The standard input, the opening of a payload and the output of an extraction.
  pub payload_files : world.host.Fs → Payload.Files
  pub libraries : Libraries
  pub formats : Payload.Formats
  -- The rounds that the loops of a split are given.
  pub rounds : ℕ

abbrev pub system_of : Machine → FileSystem
system_of m = record {
  Fs = m.world.host.Fs;
  opens = m.opens;
  content = m.content;
  first_read = m.first_read;
  reread = m.reread;
  create = m.create;
  write = m.write;
  remove = m.remove;
}

module _ (m : Machine) where
  abbrev pub Fs : Type 0
  Fs = m.world.host.Fs

  -- The files that `os.Remove` is called for.
  unfoldable pub remove_files : Fs → List Bytes → Fs
  remove_files fs [] = fs
  remove_files fs (name ∷ names) = remove_files (m.remove fs name) names

  -- `dump(…, name)`, where there is something to be dumped.
  unfoldable pub dump_part : Fs → Bytes → Option Bytes → Outcome Fs
  dump_part fs name none = ret fs
  dump_part fs name (some bytes) = elim (m.create fs name) [
    | none ↦ fatal
    | some made ↦ ret (m.write made (file name) bytes)
  ]

  -- The files of a split, and the status.
  unfoldable pub write_split : Fs → Split → Outcome Fs
  unfolding dump_part decompress
  write_split fs no_dtb = exit 1
  write_split fs (decompressed f bytes rest) = elim (m.create fs kernel_file) [
    | none ↦ fatal
    | some made ↦ decompress m.streams f bytes >>= λ out.
        dump_part (m.write made (file kernel_file) out) ker_dtb_file rest >>= λ fs'. exit 0
  ]
  write_split fs (dumped kernel rest) =
      dump_part fs kernel_file kernel >>= λ fs'. dump_part fs' ker_dtb_file rest >>= λ fs''. exit 0

  abbrev exit_by : Bool → Outcome Fs
  exit_by ok = if ok then exit 0 else exit 1

  -- An action: it returns, which ends the process with status 0, or it ends it itself.
  unfoldable pub perform : Fs → Action → Outcome Fs
  unfolding remove_files write_split split_image_dtb compress_file decompress_file hex_patch
      cpio_commands extract_boot
  perform fs Main.usage = exit 1
  perform fs (Main.cleanup names folder) = ret (m.remove_all (remove_files fs names) folder)
  perform fs (Main.sha1 name) =
      if m.opens fs name then (if m.reads fs name then ret fs else panic) else fatal
  perform fs (Main.split name skip) = elim (m.map_read fs name) [
    | none ↦ fatal
    | some bytes ↦ split_image_dtb m.rounds bytes skip >>= λ s. write_split fs s
  ]
  perform fs Main.not_implemented = panic
  perform fs (Main.decompress infile outfile) =
      decompress_file m.streams (system_of m) fs infile outfile
  perform fs (Main.compress method infile outfile) =
      compress_file m.streams (system_of m) fs method infile outfile
  perform fs (Main.hexpatch name from to) =
      hex_patch (m.map_changed fs name) from to >>= λ r. exit_by r.1
  perform fs (Main.cpio args) = cpio_commands m.world fs args >>= λ fs'. exit 0
  perform fs (Main.extract name partition outfile) =
      extract_boot m.libraries m.formats (m.payload_files fs) name partition outfile >>= λ ok.
      exit_by ok

  -- `main()`, for `os.Args`.
  unfoldable pub run : Fs → List Bytes → Outcome Fs
  unfolding perform main
  run fs args = perform fs (main args)
