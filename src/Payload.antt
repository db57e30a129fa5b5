-- ===== src/Payload.antt =====
-- payload.go: a partition's image from an update payload. Parameters are what the operating system
-- answers to the reads, seeks and writes, the reading of the manifest from its bytes, and the order
-- of operations of equal offset. The image is another file than the input.
pub mod File
pub mod Message
pub mod Laws
pub mod Served
pub mod Replace
use magiskboot_go.Base.{
  ℕ, zero, suc, ◌+◌, ◌-◌, ◌*◌, ◌%◌, ◌^◌, Bool, true, false, ◌&&◌, ◌||◌, List, [], ◌∷◌, ◌++◌, Option,
  none, some,
}
use magiskboot_go.Base.{
  Bytes, codes, bytes_eq, length, replicate, trim_right, ltb, add64, sub64, mul64,
}
use magiskboot_go.Base.{Outcome, ret, panic, exit, running, fatal, ◌>>=◌, ◌==◌, if◌then◌else◌}
use magiskboot_go.Compress.Codec.{Libraries, decompress_to_fd}
use Message.{
  Extent, InstallOperation, PartitionUpdate, Manifest, get_block_size, get_minor_version,
  choose_partition, out_name, last_named, first_named,
}
use File.{Input, Reader, got, read, read_be, seek_by, Output, Image, seek_to, write_image}

-- The messages of `badPayload`.
pub data BadPayload : Type 0 where
  invalid_magic unsupported_version no_manifest no_signature delta : BadPayload
  no_data_length no_data_offset decompression_failed unsupported_operation : BadPayload

-- The state of the loop over the operations.
pub record Extraction : Type 0 where
  pub reader : Reader
  pub image : Image
  pub curr_data_offset : ℕ

-- A result, or the error that the call returns.
pub data Checked (A : Type 0) : Type 0 where
  good : A → Checked A
  bad : BadPayload → Checked A

-- The `ZERO` case: for each extent as many zeros as it has blocks. An error of the write is not
-- looked at.
unfoldable pub write_zero_extents : Output → ℕ → List Extent → Image → Image
unfolding seek_to write_image
write_zero_extents o block_size [] out = out
write_zero_extents o block_size (e ∷ es) out =
    let at_block = seek_to o out (mul64 e.start_block block_size) in
    let (written, ok) = write_image o at_block (replicate e.num_blocks 0) in
    write_zero_extents o block_size es written

-- A write whose error ends the process.
unfoldable pub write_or_fatal : Output → Image → Bytes → Outcome Image
write_or_fatal o out b =
    let (written, ok) = write_image o out b in if ok then ret written else fatal

abbrev pub replace : ℕ
replace = 0

abbrev pub replace_bz : ℕ
replace_bz = 1

abbrev pub zero_type : ℕ
zero_type = 6

abbrev pub replace_xz : ℕ
replace_xz = 8

-- The `switch` over the type, on the data that was read. `DecompressToFd` ends the process where its
-- write fails.
unfoldable pub apply_type :
    Libraries → Output → ℕ → InstallOperation → ℕ → Bytes → Image → Outcome (Checked Image)
unfolding write_zero_extents write_or_fatal decompress_to_fd
apply_type libs o block_size op out_offset buf out =
    if op.type == replace
    then (write_or_fatal o (seek_to o out out_offset) buf >>= λ image. ret (good image))
    else if op.type == zero_type
    then ret (good (write_zero_extents o block_size op.dst_extents out))
    else if op.type == replace_bz || op.type == replace_xz
    then (decompress_to_fd libs buf >>= λ r. elim r [
      | none ↦ ret (bad decompression_failed)
      | some d ↦ write_or_fatal o (seek_to o out out_offset) d >>= λ image. ret (good image)
    ])
    else ret (bad unsupported_operation)

-- Where the output of an operation begins: the first extent, which must be there.
unfoldable pub out_offset_of : ℕ → List Extent → Outcome ℕ
out_offset_of block_size [] = panic
out_offset_of block_size (e ∷ es) = ret (mul64 e.start_block block_size)

-- One round of the loop.
unfoldable pub apply_operation :
    Libraries → Output → ℕ → InstallOperation → Extraction → Outcome (Checked Extraction)
apply_operation libs o block_size op s =
    if op.data_length == 0
    then ret (bad no_data_length)
    else if op.data_offset == 0
    then ret (bad no_data_offset)
    else (let at_data = seek_by s.reader (sub64 op.data_offset s.curr_data_offset) in
        let (buf, reader) = read at_data op.data_length in
        out_offset_of block_size op.dst_extents >>= λ out_offset.
        apply_type libs o block_size op out_offset buf s.image >>= λ r. ret (elim r [
          | bad e ↦ bad e
          | good image ↦ good (record {
            reader = reader;
            image = image;
            curr_data_offset = add64 op.data_offset op.data_length;
          })
        ]))

unfoldable pub apply_operations :
    Libraries → Output → ℕ → List InstallOperation → Extraction → Outcome (Checked Extraction)
unfolding apply_operation
apply_operations libs o block_size [] s = ret (good s)
apply_operations libs o block_size (op ∷ ops) s = apply_operation libs o block_size op s >>= λ r.
    elim r [ bad e ↦ ret (bad e) | good s' ↦ apply_operations libs o block_size ops s' ]

-- What the extraction is given besides the files: the reader of manifests and the sort by offset.
pub record Formats : Type 0 where
  pub unmarshal : Bytes → Option Manifest
  pub sort_by_offset : List InstallOperation → List InstallOperation

-- The output file's name and its bytes.
abbrev pub Result : Type 0
Result = Checked (Bytes × Bytes)

-- Behind the manifest: the output is created, and truncated, before the signature is skipped.
unfoldable pub extract_partition :
    Libraries → Formats → Output → Manifest → Reader → ℕ → Bytes → Bytes → Outcome Result
unfolding choose_partition out_name apply_operations seek_by get_block_size
extract_partition libs formats o manifest reader sig_len partition_name out_path =
    choose_partition partition_name manifest.partitions >>= λ partition.
    if o.creates (out_name out_path partition)
    then (apply_operations libs o (get_block_size manifest)
          (formats.sort_by_offset partition.operations)
          (record {
            reader = seek_by reader sig_len;
            image = record { bytes = []; at = 0 };
            curr_data_offset = 0;
          })
        >>= λ r.
            ret (elim r [
              | bad e ↦ bad e
              | good s ↦ good (out_name out_path partition, s.image.bytes)
            ]))
    else fatal

abbrev pub payload_magic : Bytes
payload_magic = codes "CrAU"

-- The files of an extraction: the standard input, `os.Open`, and the output.
pub record Files : Type 0 where
  pub stdin : Input
  pub open_file : Bytes → Option Input
  pub output : Output

unfoldable pub open_input : Files → Bytes → Outcome Input
unfolding bytes_eq
open_input files in_path =
    if bytes_eq in_path (codes "-")
    then ret files.stdin
    else elim (files.open_file in_path) [ none ↦ fatal | some input ↦ ret input ]

-- `doExtractBootFromPayload`, behind the opening of the input.
unfoldable pub extract_from : Libraries → Formats → Output → Input → Bytes → Bytes → Outcome Result
unfolding extract_partition got read read_be get_minor_version bytes_eq
extract_from libs formats o input partition_name out_path =
    let start : Reader = record { input = input; at = 0 } in
    let (magic, r1) = read start 4 in
    if length (got start 4) == 0
    then fatal
    else if bytes_eq magic payload_magic
    then (let (version, r2) = read_be r1 8 in
        let (manifest_len, r3) = read_be r2 8 in
        let (sig_len, r4) = read_be r3 4 in
        if version == 2
        then (if manifest_len == 0
            then ret (bad no_manifest)
            else if sig_len == 0
            then ret (bad no_signature)
            else if length (got r4 manifest_len) == 0
            then fatal
            else (let (buf, r5) = read r4 manifest_len in
                elim (formats.unmarshal buf) [
                  | none ↦ fatal
                  | some manifest ↦
                      if get_minor_version manifest == 0
                      then extract_partition libs formats o manifest r5 sig_len partition_name
                          out_path
                      else ret (bad delta)
                ]))
        else ret (bad unsupported_version))
    else ret (bad invalid_magic)

-- `doExtractBootFromPayload`.
unfoldable pub do_extract : Libraries → Formats → Files → Bytes → Bytes → Bytes → Outcome Result
unfolding open_input extract_from
do_extract libs formats files in_path partition_name out_path =
    open_input files in_path >>= λ input.
    extract_from libs formats files.output input partition_name out_path

-- `ExtractBootFromPayload`, its result as a Boolean; the names lose their trailing spaces.
unfoldable pub extract_boot : Libraries → Formats → Files → Bytes → Bytes → Bytes → Outcome Bool
unfolding do_extract trim_right
extract_boot libs formats files in_path partition out_path =
    let trimmed = trim_right (λ c. c == b' ') in
    do_extract libs formats files (trimmed in_path) (trimmed partition) (trimmed out_path) >>= λ r.
    ret (elim r [ bad e ↦ false | good f ↦ true ])
