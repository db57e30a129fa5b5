-- ===== src/Tests/Disk.antt =====
-- A file that is compressed and decompressed again, on a disk in memory.
use magiskboot_go.Base.{
  ◌≡◌, ◌≢◌, refl, arith, Bool, true, false, [], ◌∷◌, ◌++◌, Option, none, some, Bytes, codes,
  bytes_eq, bytes_eq_refl, bytes_eq_iff,
}
use magiskboot_go.Base.{in_set, trim_right, take, drop, ret, length}
use magiskboot_go.Base.Dict.{Dict, lookup, insert, erase, lookup-insert, lookup-erase}
use magiskboot_go.Format.{gzip, gzip1_magic, fmt2ext, fmt2name}
use magiskboot_go.Compress.Codec.{gzip_codec, new_encoder}
use magiskboot_go.Compress.Copy.{buffer_size, eof}
use magiskboot_go.Compress.Plan.{Stream, std, file}
use magiskboot_go.Compress.Stream.{Streams}
use magiskboot_go.Compress.Stream.Laws.{IsCodec, content_read}
use magiskboot_go.Compress.Run.{FileSystem}
use magiskboot_go.Payload.File.{Input}
use magiskboot_go.Main.Perform.{Machine, run}
use magiskboot_go.Main.Perform.Back.{run-run}
use magiskboot_go.Base.Dict
use magiskboot_go.Tests.Backup.{copying}
use magiskboot_go.Compress.Run.Replacing.{IsFileSystem}
use magiskboot_go.Compress.Run.Back.{Begins}

-- A library that puts the magic of gzip before the bytes.
abbrev signing : Streams
signing = record {
  Writer = λ c. Bytes;
  new_writer = λ c. some [];
  write = λ w b. some (w ++ b);
  close = λ w. 0x1f ∷ 0x8b ∷ w;
  new_reader = λ c b. some ((drop 2 b, eof) ∷ []);
  compress_block = λ b. none;
}

signing-IsCodec : IsCodec signing gzip_codec
unfolding content_read
signing-IsCodec = record {
  taken = λ w. w;
  opens = ([], refl, refl);
  writes = λ w b. (w ++ b, refl, refl);
  reads = λ w. ((w, eof) ∷ [], refl, refl);
}

signing-Begins : Begins signing gzip_codec gzip
signing-Begins = record { sign = gzip1_magic; stands_for = refl; begins = λ w. (w, refl) }

abbrev or_empty : Option Bytes → Bytes
or_empty none = []
or_empty (some b) = b

abbrev read : Dict Bytes → Stream → Bytes
read d std = []
read d (file name) = or_empty (lookup name d)

abbrev append : Dict Bytes → Stream → Bytes → Dict Bytes
append d std b = d
append d (file name) b = insert name (or_empty (lookup name d) ++ b) d

abbrev is_there : Option Bytes → Bool
is_there none = false
is_there (some b) = true

-- Files in a map.
abbrev disk : FileSystem
disk = record {
  Fs = Dict Bytes;
  opens = λ d name. is_there (lookup name d);
  content = read;
  first_read = λ d s. take buffer_size (read d s);
  reread = read;
  create = λ d name. some (insert name [] d);
  write = append;
  remove = λ d name. erase name d;
}

other-file : (other name : Bytes) → other ≢ name → bytes_eq name other ≡ false
other-file other name h = ground (arith, bytes_eq_iff name other, h)

disk-IsFileSystem : IsFileSystem disk (λ d name. lookup name d)
disk-IsFileSystem = record {
  opens = λ d name b h. rw (h) refl;
  content = λ d name b h. rw (h) refl;
  first_read = λ d name b h. rw (h) refl;
  reread = λ d name b h. rw (h) refl;
  creates = λ d name. (
    insert name [] d,
    refl,
    rw (lookup-insert name name [] d, bytes_eq_refl name) refl,
    λ other h. rw (lookup-insert name other [] d, other-file other name h) refl,
  );
  writes = λ d name b c h.
      rw (lookup-insert name name (or_empty (lookup name d) ++ c) d, bytes_eq_refl name, h) refl;
  writes_there = λ d name c other h.
      rw (lookup-insert name other (or_empty (lookup name d) ++ c) d, other-file other name h) refl;
  removes = λ d name. rw (lookup-erase name name d, bytes_eq_refl name) refl;
  removes_there = λ d name other h. rw (lookup-erase name other d, other-file other name h) refl;
}

abbrev files : Dict Bytes
files = (codes "boot", codes "kernel") ∷ (codes "notes", codes "text") ∷ []

abbrev file_of : Bytes → Input
file_of b = record { bytes = b; gives = λ at n. n; seeks = λ at. true }

-- A machine with this disk; what a compression does not call does nothing.
abbrev machine : Machine
machine = record {
  world = record {
    host = record {
      Fs = Dict Bytes;
      windows = false;
      stat = λ d name. none;
      is_missing = λ d name. false;
      read_file = λ d name. lookup name d;
      rdev = λ d name. none;
      major = λ dev. 0;
      minor = λ dev. 0;
      mkdev = λ major minor. 0;
      mkdir_all = λ d name mode. d;
      mkdir = λ d name mode. (d, true);
      create = λ d name. (insert name [] d, false);
      write = λ d name b. (append d (file name) b, false);
      symlink = λ d name to. (d, true);
      mknod = λ d name mode dev. (d, true);
    };
    lib = copying;
    range = Dict.keys;
    env = λ name. none;
    map_file = λ d name. lookup name d;
  };
  streams = signing;
  opens = λ d name. is_there (lookup name d);
  content = read;
  first_read = λ d s. take buffer_size (read d s);
  reread = read;
  create = λ d name. some (insert name [] d);
  write = append;
  remove = λ d name. erase name d;
  remove_all = λ d name. erase name d;
  reads = λ d name. true;
  map_changed = λ d name. lookup name d;
  map_read = λ d name. lookup name d;
  payload_files = λ d. record {
    stdin = file_of [];
    open_file = λ name. elim (lookup name d) [ none ↦ none | some b ↦ some (file_of b) ];
    output = record { creates = λ name. true; seeks = λ at. true; takes = λ at b. length b };
  };
  libraries = record { decode = λ c b. none; spare = λ b. [] };
  formats = record { unmarshal = λ b. none; sort_by_offset = λ ops. ops };
  rounds = 0;
}

run-run_example :
    (fs' fs'' : Dict Bytes) × (run machine files
        (codes "m" ∷ (codes "--compress=" ++ fmt2name gzip) ∷ codes "boot" ∷ [])
      ≡ ret fs')
    × (run machine fs' (codes "m" ∷ codes "decompress" ∷ (codes "boot" ++ fmt2ext gzip) ∷ [])
        ≡ ret fs'')
    × (lookup (codes "boot") fs'' ≡ some (codes "kernel"))
    × (lookup (codes "boot" ++ fmt2ext gzip) fs'' ≡ none)
    × ((other : Bytes)
        → other ≢ codes "boot"
        → other ≢ codes "boot" ++ fmt2ext gzip
        → lookup other fs'' ≡ lookup other files)
unfolding new_encoder bytes_eq trim_right in_set fmt2ext lookup
run-run_example =
    run-run machine (λ d name. lookup name d) gzip gzip_codec (codes "m") (codes "boot")
      (codes "kernel") files disk-IsFileSystem refl signing-IsCodec signing-Begins refl refl refl
