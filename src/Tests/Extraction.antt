-- ===== src/Tests/Extraction.antt =====
-- An extraction of two blocks, written in the opposite order, and a block that is cut off.
use magiskboot_go.Base.{
  ℕ, ◌+◌, ◌-◌, ◌^◌, leb, true, if◌then◌else◌, ◌≡◌, inr, refl, arith, List, All, [], ◌∷◌, none, some,
  Bytes, codes, take, drop,
}
use magiskboot_go.Base.{ret, bytes_eq}
use magiskboot_go.Compress.Codec.{Libraries}
use magiskboot_go.Payload.{good, replace, Formats, Extraction, extract_partition}
use magiskboot_go.Payload.Replace.Short.{zero_filled}
use magiskboot_go.Payload.File.{Input, Output, got}
use magiskboot_go.Payload.Served.{IsFile, HasRoom}
use magiskboot_go.Payload.Message.{
  InstallOperation, PartitionUpdate, Manifest, get_block_size, choose_partition, out_name,
  last_named,
}
use magiskboot_go.Payload.Replace.{IsCopy, Copies, place_of, first_block}
use magiskboot_go.Payload.Replace.Apart.{Apart, Disjoint, extract_partition-reads_back}

abbrev no_decoders : Libraries
no_decoders = record { decode = λ c b. none; spare = λ b. [] }

-- Operations that are in order already.
abbrev sorted_formats : Formats
sorted_formats = record { unmarshal = λ b. none; sort_by_offset = λ ops. ops }

abbrev copy_of : ℕ → ℕ → ℕ → InstallOperation
copy_of offset n block = record {
  type = replace;
  data_offset = offset;
  data_length = n;
  dst_extents = record { start_block = block; num_blocks = 1 } ∷ [];
}

abbrev two_copies : List InstallOperation
two_copies = copy_of 1 2 1 ∷ copy_of 3 1 0 ∷ []

abbrev boot_update : PartitionUpdate
boot_update = record { partition_name = codes "boot"; operations = two_copies }

abbrev boot_manifest : Manifest
boot_manifest = record { block_size = some 2; minor_version = none; partitions = boot_update ∷ [] }

abbrev payload_bytes : Bytes
payload_bytes = 0 ∷ 0 ∷ 9 ∷ 5 ∷ 6 ∷ 7 ∷ []

-- A regular file with these bytes, read in calls of up to 2 ^ 30 bytes.
abbrev payload_file : Input
payload_file = record {
  bytes = payload_bytes;
  gives = λ at n. if leb n (2 ^ 30) then n else 2 ^ 30;
  seeks = λ at. true;
}

payload_file-IsFile : IsFile payload_file
payload_file-IsFile = record {
  small = omega arith;
  gives = λ at n cap h. ground arith;
  seeks = λ at h. refl;
}

-- A disk on which a file may have 100 bytes.
abbrev small_disk : Output
small_disk = record { creates = λ name. true; seeks = λ at. leb at 100; takes = λ at b. 100 - at }

small_disk-HasRoom : HasRoom 100 small_disk
small_disk-HasRoom = record {
  small = omega arith;
  takes = λ at b h. omega arith;
  seeks = λ at h. ground arith;
}

first_IsCopy : IsCopy payload_bytes 2 2 100 (copy_of 1 2 1)
first_IsCopy = record {
  extent = record { start_block = 1; num_blocks = 1 };
  others = [];
  is_replace = refl;
  has_length = λ e. ground arith;
  has_offset = λ e. ground arith;
  in_file = omega arith;
  extents = refl;
  one_read = omega arith;
  in_image = omega arith;
}

second_IsCopy : IsCopy payload_bytes 2 2 100 (copy_of 3 1 0)
second_IsCopy = record {
  extent = record { start_block = 0; num_blocks = 1 };
  others = [];
  is_replace = refl;
  has_length = λ e. ground arith;
  has_offset = λ e. ground arith;
  in_file = omega arith;
  extents = refl;
  one_read = omega arith;
  in_image = omega arith;
}

two_Copies : Copies payload_bytes 2 2 100 0 two_copies
unfolding Copies
two_Copies = (omega arith, first_IsCopy, (omega arith, second_IsCopy, tt))

two_Disjoint : Disjoint 2 two_copies
unfolding Disjoint Apart place_of first_block
two_Disjoint = ((inr (omega arith), tt), (tt, tt))

two_chosen : choose_partition (codes "") (boot_update ∷ []) ≡ ret boot_update
unfolding choose_partition last_named bytes_eq
two_chosen = refl

extract_partition-reads_back_example :
    (image : Bytes) × (extract_partition no_decoders sorted_formats small_disk boot_manifest
        (record { input = payload_file; at = 1 })
        1
        []
        []
      ≡ ret (good (out_name [] boot_update, image)))
    × All
        (λ op.
          take op.data_length (drop (place_of (get_block_size boot_manifest) op) image)
          ≡ take op.data_length (drop (2 + op.data_offset) payload_bytes))
        two_copies
unfolding get_block_size
extract_partition-reads_back_example =
    extract_partition-reads_back no_decoders sorted_formats small_disk 100 boot_manifest boot_update
      payload_file 1 1 [] [] payload_file-IsFile small_disk-HasRoom (omega arith) two_chosen refl
      two_Copies two_Disjoint

-- One of the two bytes of an operation stands in the file.
abbrev cut_copy : InstallOperation
cut_copy = copy_of 3 2 0

abbrev at_signature_end : Extraction
at_signature_end = record {
  reader = record { input = payload_file; at = 2 };
  image = record { bytes = []; at = 0 };
  curr_data_offset = 0;
}

cut_gives : zero_filled (record { input = payload_file; at = 5 }) 2 ≡ 7 ∷ 0 ∷ []
unfolding zero_filled got
cut_gives = refl
