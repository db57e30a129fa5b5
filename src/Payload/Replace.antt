-- ===== src/Payload/Replace.antt =====
-- The operations of a partition that only copy: what the loop that seeks and reads makes of them.
pub mod Apart
pub mod Short
use magiskboot_go.Base.{
  ==_false, ℕ, zero, suc, ◌+◌, ◌-◌, ◌*◌, ◌%◌, ◌^◌, ◌≤◌, ◌<◌, ◌≡◌, ◌≢◌, refl, sym, ap, ◌∙◌, arith,
  List, [], ◌∷◌, ◌++◌, true, false, ◌||◌,
}
use magiskboot_go.Base.{
  Bytes, length, take, drop, replicate, length-take, length-drop, append-nil, ltb, leb, lt→ltb,
  ◌==◌, add64, sub64, mul64, if◌then◌else◌,
}
use magiskboot_go.Base.{Outcome, ret, panic, exit, running, ◌>>=◌}
use magiskboot_go.Compress.Codec.{Libraries}
use magiskboot_go.Payload.File.{
  Input, Reader, read, seek_by, go_to, Output, Image, seek_to, write_image, splice,
}
use magiskboot_go.Payload.Served.{
  IsFile, HasRoom, slice, length-slice, read-IsFile, seek_forward, write-HasRoom,
}
use magiskboot_go.Payload.Message.{
  Extent, InstallOperation, PartitionUpdate, Manifest, get_block_size, choose_partition, out_name,
}
use magiskboot_go.Payload.{
  Extraction, Checked, good, bad, replace, apply_type, out_offset_of, apply_operation,
  apply_operations, Formats, extract_partition,
}

-- A copying operation whose data, at most 2 ^ 30 bytes, lies in the file, behind the place where the
-- data begins, and whose place lies in the room for the image.
pub record IsCopy (bytes : Bytes) (start block_size room : ℕ) (op : InstallOperation) : Type 0 where
  pub extent : Extent
  pub others : List Extent
  pub is_replace : op.type ≡ replace
  pub has_length : op.data_length ≢ 0
  pub has_offset : op.data_offset ≢ 0
  pub in_file : start + op.data_offset + op.data_length ≤ length bytes
  pub extents : op.dst_extents ≡ extent ∷ others
  pub one_read : op.data_length ≤ 2 ^ 30
  pub in_image : extent.start_block * block_size + op.data_length ≤ room

unfoldable pub first_block : List Extent → ℕ
first_block [] = 0
first_block (e ∷ es) = e.start_block

-- Where an operation writes.
unfoldable pub place_of : ℕ → InstallOperation → ℕ
place_of block_size op = first_block op.dst_extents * block_size

-- What a copying operation reads, and where it writes.
module _ (bytes : Bytes) (start block_size room : ℕ) where
  unfoldable pub data_of : InstallOperation → Bytes
  unfolding slice
  data_of op = slice bytes (start + op.data_offset) op.data_length

  -- The image, with the data of one operation after the other put in its place.
  unfoldable pub copy_all : List InstallOperation → Bytes → Bytes
  copy_all [] image = image
  copy_all (op ∷ ops) image = copy_all ops (splice image (place_of block_size op) (data_of op))

  -- Operations that only copy, each from behind the data of the last.
  unfoldable pub Copies : ℕ → List InstallOperation → Type 0
  Copies from [] = Unit
  Copies from (op ∷ ops) =
      (from ≤ op.data_offset)
      × IsCopy bytes start block_size room op
      × Copies (op.data_offset + op.data_length) ops

-- The state of the loop, behind the data up to a place.
unfoldable pub at_data : Input → ℕ → ℕ → Image → Extraction
at_data input start from image = record {
  reader = record { input = input; at = start + from };
  image = image;
  curr_data_offset = from;
}

-- A copying operation is carried out.
module _ (input : Input) (o : Output) (start block_size room : ℕ) (file : IsFile input)
    (roomy : HasRoom room o) where
  image_after : InstallOperation → Image → Image
  image_after op image = record {
    bytes =
        splice image.bytes (place_of block_size op) (data_of input.bytes start block_size room op);
    at = place_of block_size op + op.data_length;
  }

  place-IsCopy :
      (op : InstallOperation)
      → IsCopy input.bytes start block_size room op
      → out_offset_of block_size op.dst_extents ≡ ret (place_of block_size op)
  unfolding out_offset_of place_of first_block
  place-IsCopy op c =
      let fits = c.in_image in
      let small = roomy.small in
      let m : mul64 c.extent.start_block block_size ≡ c.extent.start_block * block_size =
        omega (arith, fits, small, c.has_length) in
      rw (c.extents, m) refl

  apply_type-IsCopy :
      (libs : Libraries) (op : InstallOperation) (image : Image)
      → IsCopy input.bytes start block_size room op
      → apply_type libs o block_size op
          (place_of block_size op)
          (data_of input.bytes start block_size room op)
          image
        ≡ ret (good (image_after op image))
  unfolding image_after apply_type data_of place_of
  apply_type-IsCopy libs op image c =
      let b = slice input.bytes (start + op.data_offset) op.data_length in
      let l : length b ≡ op.data_length =
        length-slice input.bytes (start + op.data_offset) op.data_length c.in_file in
      let fits : place_of block_size op + length b ≤ room =
        unfold place_of first_block in rw (c.extents, l) c.in_image in
      let w =
        write-HasRoom room o image (place_of block_size op) b roomy (λ e. c.has_length (sym l ∙ e))
          fits in
      rw (c.is_replace, w, l) refl

  apply_operation-IsCopy :
      (libs : Libraries) (op : InstallOperation) (from : ℕ) (image : Image)
      → from ≤ op.data_offset
      → IsCopy input.bytes start block_size room op
      → apply_operation libs o block_size op (at_data input start from image)
        ≡ ret (good (at_data input start (op.data_offset + op.data_length) (image_after op image)))
  unfolding at_data apply_operation data_of
  apply_operation-IsCopy libs op from image h c =
      let inf = c.in_file in
      let small = file.small in
      let e1 : (op.data_length == 0) ≡ false = ==_false op.data_length 0 c.has_length in
      let e2 : (op.data_offset == 0) ≡ false = ==_false op.data_offset 0 c.has_offset in
      let seeks = seek_forward input start from op.data_offset file h (omega arith) in
      let reads = read-IsFile input (start + op.data_offset) op.data_length file c.one_read inf in
      let n : add64 op.data_offset op.data_length ≡ op.data_offset + op.data_length =
        omega (arith, small, inf) in
      let at : start + op.data_offset + op.data_length ≡ start + (op.data_offset + op.data_length) =
        omega arith in
      let t = apply_type-IsCopy libs op image c in
      let next : (read (seek_by (at_data input start from image).reader (sub64 op.data_offset from))
            op.data_length).1
          ≡ record { input = input; at = start + (op.data_offset + op.data_length) } =
        rw (seeks, reads, at) refl in
      rw (e1, e2, seeks, reads, place-IsCopy op c, t, n, next) refl

  apply_operations-copy_all :
      (libs : Libraries) (ops : List InstallOperation) (from : ℕ) (image : Image)
      → Copies input.bytes start block_size room from ops
      → (s : Extraction) × (apply_operations libs o block_size ops (at_data input start from image)
          ≡ ret (good s))
        × (s.image.bytes ≡ copy_all input.bytes start block_size room ops image.bytes)
  unfolding apply_operations Copies copy_all at_data image_after
  apply_operations-copy_all libs [] from image _ = (at_data input start from image, refl, refl)
  apply_operations-copy_all libs (op ∷ ops) from image (h, c, cs) =
      let e = apply_operation-IsCopy libs op from image h c in
      let (s, run, b) =
        apply_operations-copy_all libs ops (op.data_offset + op.data_length) (image_after op image)
          cs in
      (s, rw (e) run, b)

-- An extraction of a regular file to an output that can be created and has room, whose partition is
-- found and whose operations, sorted, only copy, in an order in which their data follows one another
-- in the file: it succeeds, and the image holds the data of each, put in its place one after the
-- other, starting from an empty file.
pub extract_partition-copy_all :
    (libs : Libraries) (formats : Formats) (o : Output) (room : ℕ) (manifest : Manifest)
    (partition : PartitionUpdate) (input : Input) (at sig_len : ℕ) (partition_name out_path : Bytes)
    → IsFile input
    → HasRoom room o
    → at + sig_len ≤ length input.bytes
    → choose_partition partition_name manifest.partitions ≡ ret partition
    → o.creates (out_name out_path partition) ≡ true
    → Copies input.bytes
        (at + sig_len)
        (get_block_size manifest)
        room
        0
        (formats.sort_by_offset partition.operations)
    → extract_partition libs formats o manifest
        (record { input = input; at = at })
        sig_len
        partition_name
        out_path
      ≡ ret (
          good (
            out_name out_path partition,
            copy_all input.bytes
                (at + sig_len)
                (get_block_size manifest)
                room
                (formats.sort_by_offset partition.operations)
                [],
          ))
unfolding extract_partition seek_by go_to at_data
extract_partition-copy_all libs formats o room manifest partition input at sig_len name out_path
      file roomy inside chosen made copies =
    let small = file.small in
    let ops = formats.sort_by_offset partition.operations in
    let (s, run, b) =
      apply_operations-copy_all input o (at + sig_len) (get_block_size manifest) room file roomy
        libs ops 0 (record { bytes = []; at = 0 }) copies in
    let e : at + sig_len ≡ at + sig_len + 0 = omega arith in
    let runs =
      ap
        (λ n. apply_operations libs o (get_block_size manifest) ops (record {
          reader = record { input = input; at = n };
          image = record { bytes = []; at = 0 };
          curr_data_offset = 0;
        }))
        e
      ∙ run in
    rw
      (
        chosen,
        made,
        lt→ltb sig_len (2 ^ 63) (omega (arith, small)),
        file.seeks (at + sig_len) inside,
        runs,
        b,
      )
      refl
