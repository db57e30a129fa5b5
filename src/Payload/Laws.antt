-- ===== src/Payload/Laws.antt =====
-- What an extraction demands of its operations, and that what is written at a place stands there.
use magiskboot_go.Base.{ℕ, ◌+◌, ◌-◌, ◌≡◌, ◌≢◌, refl, sym, arith, List, All, [], ◌∷◌, ◌++◌}
use magiskboot_go.Base.{
  Bytes, length, take, drop, replicate, length-append, length-replicate, length-take,
}
use magiskboot_go.Base.{drop-append, take-append, append_assoc, ret, >>=-eq-ret}
use magiskboot_go.Compress.Codec.{Libraries}
use magiskboot_go.Payload.File.{Output, splice}
use magiskboot_go.Payload.Message.{InstallOperation}
use magiskboot_go.Payload.{Extraction, Checked, good, bad, apply_operation, apply_operations}

-- An operation that an extraction accepts.
pub record HasData (op : InstallOperation) : Type 0 where
  pub has_length : op.data_length ≢ 0
  pub has_offset : op.data_offset ≢ 0

apply_operation-HasData :
    (libs : Libraries) (o : Output) (block_size : ℕ) (op : InstallOperation) (s s' : Extraction)
    → apply_operation libs o block_size op s ≡ ret (good s')
    → HasData op
unfolding apply_operation
apply_operation-HasData libs o block_size op s s' h = record {
  has_length = λ e. ground arith;
  has_offset = λ e. ground arith;
}

-- An extraction succeeds only where every operation of the partition has data, and not at offset 0:
-- neither the first bytes of the payload's data nor an operation without data are accepted.
pub apply_operations-HasData :
    (libs : Libraries) (o : Output) (block_size : ℕ) (ops : List InstallOperation)
    (s s' : Extraction)
    → apply_operations libs o block_size ops s ≡ ret (good s')
    → All HasData ops
unfolding apply_operations
apply_operations-HasData libs o block_size [] s s' h = tt
apply_operations-HasData libs o block_size (op ∷ ops) s s' h =
    let (r, run, rest) = >>=-eq-ret (apply_operation libs o block_size op s) _ h in
    go r run rest (λ t. apply_operations-HasData libs o block_size ops t s')
  where
    go :
        (r : Checked Extraction)
        → apply_operation libs o block_size op s ≡ ret r
        → (elim r [ bad e ↦ ret (bad e) | good t ↦ apply_operations libs o block_size ops t ])
          ≡ ret (good s')
        → ((t : Extraction)
            → apply_operations libs o block_size ops t ≡ ret (good s')
            → All HasData ops)
        → All HasData (op ∷ ops)
    go (bad e) run k later = cc
    go (good t) run k later = (apply_operation-HasData libs o block_size op s t run, later t k)

-- Bytes written at a position stand there afterwards, and the bytes before it are as they were, with
-- zeros where the file had ended.
pub splice-reads_back :
    (bytes : Bytes) (at : ℕ) (b : Bytes)
    → (take (length b) (drop at (splice bytes at b)) ≡ b)
      × (take at (splice bytes at b) ≡ take at bytes ++ replicate (at - length bytes) 0)
      × (drop (at + length b) (splice bytes at b) ≡ drop (at + length b) bytes)
unfolding splice
splice-reads_back bytes at b =
    let pre = take at bytes ++ replicate (at - length bytes) 0 in
    let tail = drop (at + length b) bytes in
    let n : length pre ≡ at = omega (
      arith,
      length-append (take at bytes) (replicate (at - length bytes) 0),
      length-take at bytes,
      length-replicate {A = ℕ} (at - length bytes) 0,
    ) in
    let shape : splice bytes at b ≡ pre ++ (b ++ tail) =
      sym (append_assoc (take at bytes) (replicate (at - length bytes) 0) (b ++ tail)) in
    (
      rw (shape, drop-append at pre (b ++ tail) n) (take-append (length b) b tail refl),
      rw (shape) (take-append at pre (b ++ tail) n),
      rw (shape, sym (append_assoc pre b tail))
          (drop-append (at + length b) (pre ++ b) tail (omega (arith, length-append pre b))),
    )
