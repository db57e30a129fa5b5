-- ===== src/Payload/Replace/Apart.antt =====
-- The image of operations that write to places apart from one another.
use magiskboot_go.Base.{
  ℕ, zero, suc, ◌+◌, ◌-◌, ◌≤◌, ◌≡◌, ◌⊎◌, inl, inr, refl, sym, ap, ◌∙◌, arith, List, All, [], ◌∷◌,
  ◌++◌, true,
}
use magiskboot_go.Base.{
  Bytes, length, take, drop, replicate, length-append, length-take, length-drop, length-replicate,
}
use magiskboot_go.Payload.File.{Input, Output, splice}
use magiskboot_go.Payload.Served.{IsFile, HasRoom, slice, length-slice}
use magiskboot_go.Payload.Laws.{splice-reads_back}
use magiskboot_go.Base.{ret}
use magiskboot_go.Compress.Codec.{Libraries}
use magiskboot_go.Payload.Message.{
  InstallOperation, PartitionUpdate, Manifest, get_block_size, choose_partition, out_name,
}
use magiskboot_go.Payload.{good, Formats, extract_partition}
use magiskboot_go.Payload.Replace.{
  IsCopy, data_of, place_of, copy_all, Copies, extract_partition-copy_all,
}

module _ {A : Type 0} where
  slice_of_take :
      (a n m : ℕ) (xs : List A) → a + n ≤ m → take n (drop a (take m xs)) ≡ take n (drop a xs)
  slice_of_take zero zero m xs h = refl
  slice_of_take zero (suc n) zero xs h = absurd (omega arith)
  slice_of_take zero (suc n) (suc m) [] h = refl
  slice_of_take zero (suc n) (suc m) (x ∷ xs) h =
      ap (λ t. x ∷ t) (slice_of_take zero n m xs (omega arith))
  slice_of_take (suc a) n zero xs h = absurd (omega arith)
  slice_of_take (suc a) n (suc m) [] h = refl
  slice_of_take (suc a) n (suc m) (x ∷ xs) h = slice_of_take a n m xs (omega arith)

  slice_of_append :
      (a n : ℕ) (xs ys : List A)
      → a + n ≤ length xs
      → take n (drop a (xs ++ ys)) ≡ take n (drop a xs)
  slice_of_append zero zero xs ys h = refl
  slice_of_append zero (suc n) [] ys h = absurd (omega arith)
  slice_of_append zero (suc n) (x ∷ xs) ys h =
      ap (λ t. x ∷ t) (slice_of_append zero n xs ys (omega arith))
  slice_of_append (suc a) n [] ys h = absurd (omega arith)
  slice_of_append (suc a) n (x ∷ xs) ys h = slice_of_append a n xs ys (omega arith)

  drop-drop : (a b c : ℕ) (xs : List A) → c ≡ a + b → drop c xs ≡ drop b (drop a xs)
  drop-drop zero b c xs h = ap (λ n. drop n xs) (omega arith)
  drop-drop (suc a) b zero xs h = absurd (omega arith)
  drop-drop (suc a) zero (suc c) [] h = refl
  drop-drop (suc a) (suc b) (suc c) [] h = refl
  drop-drop (suc a) b (suc c) (x ∷ xs) h = drop-drop a b c xs (omega arith)

length-splice : (bytes : Bytes) (at : ℕ) (b : Bytes) → length bytes ≤ length (splice bytes at b)
unfolding splice
length-splice bytes at b = omega (
  arith,
  length-append (take at bytes)
      (replicate (at - length bytes) 0 ++ (b ++ drop (at + length b) bytes)),
  length-append (replicate {A = ℕ} (at - length bytes) 0) (b ++ drop (at + length b) bytes),
  length-append b (drop (at + length b) bytes),
  length-take at bytes,
  length-drop (at + length b) bytes,
  length-replicate {A = ℕ} (at - length bytes) 0,
)

written-splice : (bytes : Bytes) (at : ℕ) (b : Bytes) → at + length b ≤ length (splice bytes at b)
unfolding splice
written-splice bytes at b = omega (
  arith,
  length-append (take at bytes)
      (replicate (at - length bytes) 0 ++ (b ++ drop (at + length b) bytes)),
  length-append (replicate {A = ℕ} (at - length bytes) 0) (b ++ drop (at + length b) bytes),
  length-append b (drop (at + length b) bytes),
  length-take at bytes,
  length-replicate {A = ℕ} (at - length bytes) 0,
)

-- A write leaves what stands apart from it.
slice-splice_before :
    (bytes : Bytes) (at : ℕ) (b : Bytes) (from n : ℕ)
    → from + n ≤ at
    → from + n ≤ length bytes
    → slice (splice bytes at b) from n ≡ slice bytes from n
unfolding slice
slice-splice_before bytes at b from n h l =
    let (_, before, _) = splice-reads_back bytes at b in
    sym (slice_of_take from n at (splice bytes at b) h)
    ∙ ap (λ xs. take n (drop from xs)) before
    ∙ slice_of_append from n (take at bytes) (replicate (at - length bytes) 0)
        (omega (arith, length-take at bytes))
    ∙ slice_of_take from n at bytes h

slice-splice_behind :
    (bytes : Bytes) (at : ℕ) (b : Bytes) (from n : ℕ)
    → at + length b ≤ from
    → slice (splice bytes at b) from n ≡ slice bytes from n
unfolding slice
slice-splice_behind bytes at b from n h =
    let (_, _, behind) = splice-reads_back bytes at b in
    let m = at + length b in
    let e : from ≡ m + (from - m) = omega arith in
    ap (take n) (
      drop-drop m (from - m) from (splice bytes at b) e
      ∙ ap (drop (from - m)) behind
      ∙ sym (drop-drop m (from - m) from bytes e))

-- A place of `n` bytes apart from what an operation writes.
unfoldable pub Apart : ℕ → ℕ → ℕ → InstallOperation → Type 0
Apart block_size from n op =
    (from + n ≤ place_of block_size op) ⊎ (place_of block_size op + op.data_length ≤ from)

unfoldable pub Disjoint : ℕ → List InstallOperation → Type 0
Disjoint block_size [] = Unit
Disjoint block_size (op ∷ ops) =
    All (Apart block_size (place_of block_size op) op.data_length) ops × Disjoint block_size ops

module _ (bytes : Bytes) (start block_size room : ℕ) where
  length-data_of :
      (op : InstallOperation)
      → IsCopy bytes start block_size room op
      → length (data_of bytes start block_size room op) ≡ op.data_length
  unfolding data_of
  length-data_of op c = length-slice bytes (start + op.data_offset) op.data_length c.in_file

  copy_all-keeps :
      (ops : List InstallOperation) (curr : ℕ) (image : Bytes) (from n : ℕ)
      → Copies bytes start block_size room curr ops
      → All (Apart block_size from n) ops
      → from + n ≤ length image
      → slice (copy_all bytes start block_size room ops image) from n ≡ slice image from n
  unfolding Copies copy_all Apart
  copy_all-keeps [] curr image from n _ _ _ = refl
  copy_all-keeps (op ∷ ops) curr image from n (_, c, cs) (a, as') l =
      let b = data_of bytes start block_size room op in
      let at = place_of block_size op in
      let lb : length b ≡ op.data_length = length-data_of op c in
      let step : slice (splice image at b) from n ≡ slice image from n = elim a [
        | inl h ↦ slice-splice_before image at b from n h l
        | inr h ↦ slice-splice_behind image at b from n (omega (arith, lb, h))
      ] in
      copy_all-keeps ops (op.data_offset + op.data_length) (splice image at b) from n cs as'
        (omega (arith, l, length-splice image at b))
      ∙ step

  -- Where operations that only copy write to disjoint places, the data of each stands in its place
  -- of the image.
  copy_all-reads_back :
      (ops : List InstallOperation) (curr : ℕ) (image : Bytes)
      → Copies bytes start block_size room curr ops
      → Disjoint block_size ops
      → All
          (λ op.
            slice
              (copy_all bytes start block_size room ops image)
              (place_of block_size op)
              op.data_length
            ≡ data_of bytes start block_size room op)
          ops
  unfolding Copies copy_all Disjoint
  copy_all-reads_back [] curr image _ _ = tt
  copy_all-reads_back (op ∷ ops) curr image (_, c, cs) (as', ds) =
      let b = data_of bytes start block_size room op in
      let at = place_of block_size op in
      let lb : length b ≡ op.data_length = length-data_of op c in
      let (stands, _, _) = splice-reads_back image at b in
      (
        copy_all-keeps ops (op.data_offset + op.data_length) (splice image at b) at op.data_length
              cs as' (omega (arith, lb, written-splice image at b))
            ∙ ap (λ k. slice (splice image at b) at k) (sym lb)
            ∙ unfold slice in stands,
        copy_all-reads_back ops (op.data_offset + op.data_length) (splice image at b) cs ds,
      )

-- An extraction from a regular file, of less than 2 ^ 63 bytes and read in full calls of up to 2 ^ 30
-- bytes, that reaches behind the signature, to an output that can be created and that takes what is
-- written within its room; the partition is found, and its operations, as they are sorted, only
-- copy, each at most 2 ^ 30 bytes, take their data from places that follow one another in the file,
-- and write to disjoint places within the room: it succeeds, and in the image the data of each
-- operation stands in its place.
pub extract_partition-reads_back :
    (libs : Libraries) (formats : Formats) (o : Output) (room : ℕ) (manifest : Manifest)
    (partition : PartitionUpdate) (input : Input) (at sig_len : ℕ) (partition_name out_path : Bytes)
    → IsFile input
    → HasRoom room o
    → at + sig_len ≤ length input.bytes
    → choose_partition partition_name manifest.partitions ≡ ret partition
    → o.creates (out_name out_path partition) ≡ true
    → Copies input.bytes
        (at + sig_len)
        (get_block_size manifest)
        room
        0
        (formats.sort_by_offset partition.operations)
    → Disjoint (get_block_size manifest) (formats.sort_by_offset partition.operations)
    → (image : Bytes) × (extract_partition libs formats o manifest
          (record { input = input; at = at })
          sig_len
          partition_name
          out_path
        ≡ ret (good (out_name out_path partition, image)))
      × All
          (λ op.
            take op.data_length (drop (place_of (get_block_size manifest) op) image)
            ≡ take op.data_length (drop (at + sig_len + op.data_offset) input.bytes))
          (formats.sort_by_offset partition.operations)
unfolding slice data_of
extract_partition-reads_back libs formats o room manifest partition input at sig_len name out_path
      file roomy inside chosen made copies apart =
    let block_size = get_block_size manifest in
    let ops = formats.sort_by_offset partition.operations in
    (
      copy_all input.bytes (at + sig_len) block_size room ops [],
      extract_partition-copy_all libs formats o room manifest partition input at sig_len name
          out_path file roomy inside chosen made copies,
      copy_all-reads_back input.bytes (at + sig_len) block_size room ops 0 [] copies apart,
    )
