-- ===== src/Tests/Boot.antt =====
-- The loops of bootimg.go, and the payload, on concrete data.
use magiskboot_go.Base.{
  true, ◌≡◌, ◌≢◌, ◌⊎◌, refl, arith, All, [], ◌∷◌, ◌++◌, Bytes, length, replicate,
}
use magiskboot_go.Base.{ret, running, none, some, false, has_prefix, index, slice_from}
use magiskboot_go.Payload.File.{big_endian}
use magiskboot_go.Boot.Parts.{KeepsBytes, split_image_dtb-KeepsBytes}
use magiskboot_go.Format.{lz4_legacy, lz4_lg, check_fmt, checked_match, compressed}
use magiskboot_go.Boot.Dtb.{
  continue_at, find_round, find_dtb_offset, fdt_magic, check_candidate, check_fmt_lg, fdt_field,
  be32_at, find_loop, split_at, split_image_dtb, dumped, dump_file, dump_rest,
}
use magiskboot_go.Boot.Lg.{check_fmt_lg-legacy, find_dtb_offset-stuck}
use magiskboot_go.Compress.Codec.{Libraries}
use magiskboot_go.Payload.Message.{InstallOperation}
use magiskboot_go.Payload.{
  Extraction, good, apply_operations, apply_operation, apply_type, out_offset_of, replace,
}
use magiskboot_go.Payload.File.{
  Input, Output, got, read, seek_by, go_to, seek_to, write_image, put, splice,
}
use magiskboot_go.Payload.Laws.{HasData, apply_operations-HasData}

abbrev legacy_stream : Bytes
legacy_stream = 0x02 ∷ 0x21 ∷ 0x4c ∷ 0x18 ∷ replicate 30 0

legacy_found : check_fmt legacy_stream [] ≡ ret lz4_legacy
unfolding check_fmt checked_match has_prefix
legacy_found = refl

check_fmt_lg-legacy_example :
    ((lz4_legacy ≡ lz4_legacy)
      × ((check_fmt_lg 5 legacy_stream 34 ≡ running)
          ⊎ (check_fmt_lg 5 legacy_stream 34 ≡ ret lz4_lg)))
    ⊎ ((lz4_legacy ≢ lz4_legacy) × (check_fmt_lg 5 legacy_stream 34 ≡ ret lz4_legacy))
check_fmt_lg-legacy_example = check_fmt_lg-legacy 5 legacy_stream 34 lz4_legacy legacy_found

-- A magic with a header whose size is larger than the image.
abbrev bad_header : Bytes
bad_header = fdt_magic ++ replicate 4 255 ++ replicate 40 0

bad_header_round : find_round bad_header 48 ≡ ret (continue_at 0)
unfolding find_round check_candidate fdt_field be32_at index has_prefix
bad_header_round = refl

find_dtb_offset-stuck_example : find_dtb_offset 100 bad_header 48 ≡ running
find_dtb_offset-stuck_example =
    find_dtb_offset-stuck bad_header 48 0 bad_header_round (omega arith) 100

abbrev no_libraries : Libraries
no_libraries = record { decode = λ c b. none; spare = λ b. [] }

-- The second block of the image is the byte 7, which stands at offset 2 of the data.
abbrev one_block : InstallOperation
one_block = record {
  type = replace;
  data_offset = 2;
  data_length = 1;
  dst_extents = record { start_block = 1; num_blocks = 1 } ∷ [];
}

-- A file that is read in full, and an output that takes all.
abbrev three_bytes : Input
three_bytes = record { bytes = 5 ∷ 6 ∷ 7 ∷ []; gives = λ at n. n; seeks = λ at. true }

abbrev all_taken : Output
all_taken = record { creates = λ name. true; seeks = λ at. true; takes = λ at b. length b }

abbrev start : Extraction
start = record {
  reader = record { input = three_bytes; at = 0 };
  image = record { bytes = []; at = 0 };
  curr_data_offset = 0;
}

abbrev end : Extraction
end = record {
  reader = record { input = three_bytes; at = 3 };
  image = record { bytes = 0 ∷ 0 ∷ 0 ∷ 0 ∷ 7 ∷ []; at = 5 };
  curr_data_offset = 3;
}

start_to_end : apply_operations no_libraries all_taken 4 (one_block ∷ []) start ≡ ret (good end)
unfolding apply_operations apply_operation apply_type out_offset_of got read seek_by go_to seek_to
    write_image put splice
start_to_end = refl

apply_operations-HasData_example : All HasData (one_block ∷ [])
apply_operations-HasData_example =
    apply_operations-HasData no_libraries all_taken 4 (one_block ∷ []) start end start_to_end

-- Four bytes, and a device tree of 44 bytes.
abbrev tree : Bytes
tree =
    fdt_magic
    ++ (0 ∷ 0 ∷ 0 ∷ 44 ∷ [])
    ++ (0 ∷ 0 ∷ 0 ∷ 40 ∷ [])
    ++ replicate 28 0
    ++ (0 ∷ 0 ∷ 0 ∷ 1 ∷ [])

abbrev kernel : Bytes
kernel = 1 ∷ 2 ∷ 3 ∷ 4 ∷ []

tree_found : find_dtb_offset 1 (kernel ++ tree) 48 ≡ ret (some 4)
unfolding find_dtb_offset find_round find_loop check_candidate fdt_field be32_at index has_prefix
    big_endian slice_from
tree_found = refl

kernel_split : split_image_dtb 1 (kernel ++ tree) false ≡ ret (dumped (some kernel) (some tree))
unfolding split_image_dtb split_at find_dtb_offset find_round find_loop check_candidate fdt_field
    be32_at index has_prefix big_endian slice_from check_fmt_lg check_fmt checked_match compressed
    dump_file dump_rest
kernel_split = refl

split_image_dtb-KeepsBytes_example : KeepsBytes (kernel ++ tree) (dumped (some kernel) (some tree))
split_image_dtb-KeepsBytes_example =
    split_image_dtb-KeepsBytes 1 (kernel ++ tree) false (dumped (some kernel) (some tree))
      (omega arith) kernel_split
