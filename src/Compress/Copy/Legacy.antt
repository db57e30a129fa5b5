-- ===== src/Compress/Copy/Legacy.antt =====
-- What `Compress` writes for the methods lz4_legacy and lz4_lg, as the reader of such a stream sees
-- it.
use magiskboot_go.Base.{
  ℕ, zero, suc, ◌+◌, ◌%◌, ◌≤◌, ◌<◌, ◌≡◌, refl, sym, ap, ◌∙◌, arith, Bool, [], ◌∷◌, ◌++◌,
  append_assoc, append-nil,
}
use magiskboot_go.Base.{
  Option, none, some, Bytes, length, take, drop, take-append, drop-append, length-append,
  length-take, length-drop, take-append-drop,
}
use magiskboot_go.Base.{
  to_le, from_le, length-to_le, from_le-to_le, u32_mod, ret, Bool-cases, inl, inr, if◌then◌else◌,
}
use magiskboot_go.Compress.Codec.{
  le32, lz4_leg_magic_bytes, Lz4HcWriter, new_lz4_hc_writer, lz4_hc_write, lz4_hc_close,
}
use magiskboot_go.Compress.Copy.{compress_loop, file_reads, compress_lz4, buffer_size}

-- What the two sides of the block library promise each other: a block of at most a buffer is
-- compressed, to at least one byte, and decompressed again.
pub record IsBlockCodec (compress_block decompress_block : Bytes → Option Bytes) : Type 0 where
  pub compress_lem :
      (s : Bytes)
      → length s ≤ buffer_size
      → (block : Bytes) × (compress_block s ≡ some block)
        × (0 < length block)
        × (length block < u32_mod)
        × (decompress_block block ≡ some s)

abbrev then_all : Option Bytes → Option Bytes → Option Bytes
then_all (some s) (some t) = some (s ++ t)
then_all _ _ = none

-- The reader of a stream behind its magic: a length, a block of that length, and so on to the end,
-- in a number of rounds.
module _ (decompress_block : Bytes → Option Bytes) where
  pub read_blocks : ℕ → Bytes → Option Bytes
  read_blocks zero b = none
  read_blocks (suc f) [] = some []
  read_blocks (suc f) (c ∷ b) =
      let n = from_le (take 4 (c ∷ b)) in
      let rest = drop 4 (c ∷ b) in
      then_all (decompress_block (take n rest)) (read_blocks f (drop n rest))

  read_blocks-frame :
      (f : ℕ) (hd tail : Bytes)
      → length hd ≡ 4
      → read_blocks (suc f) (hd ++ tail)
        ≡ then_all
            (decompress_block (take (from_le hd) tail))
            (read_blocks f (drop (from_le hd) tail))
  unfolding read_blocks
  read_blocks-frame f (a ∷ b ∷ c ∷ d ∷ []) tail h = refl
  read_blocks-frame f [] tail h = absurd (omega arith)
  read_blocks-frame f (a ∷ []) tail h = absurd (omega arith)
  read_blocks-frame f (a ∷ b ∷ []) tail h = absurd (omega arith)
  read_blocks-frame f (a ∷ b ∷ c ∷ []) tail h = absurd (omega arith)
  read_blocks-frame f (a ∷ b ∷ c ∷ d ∷ e ∷ r) tail h = absurd (omega arith)

-- A number of four bytes is read back.
from_le-le32 : (n : ℕ) → n < u32_mod → from_le (le32 n) ≡ n
unfolding le32 from_le to_le
from_le-le32 n h = from_le-to_le 4 n [] h

length-le32 : (n : ℕ) → length (le32 n) ≡ 4
unfolding le32
length-le32 n = length-to_le 4 n

module _ {cb db : Bytes → Option Bytes} (works : IsBlockCodec cb db) where
  -- A block as it is written, and what follows.
  abbrev frame : Bytes → Bytes
  frame block = le32 (length block % u32_mod) ++ block

  length-frame : (block : Bytes) → length (frame block) ≡ 4 + length block
  length-frame block = omega (
    arith,
    length-append (le32 (length block % u32_mod)) block,
    length-le32 (length block % u32_mod),
  )

  read_blocks-block :
      (f : ℕ) (block rest s : Bytes)
      → length block < u32_mod
      → db block ≡ some s
      → read_blocks db (suc f) (frame block ++ rest) ≡ then_all (some s) (read_blocks db f rest)
  read_blocks-block f block rest s small e =
      let n = length block % u32_mod in
      let len : from_le (le32 n) ≡ length block = from_le-le32 n (omega arith) ∙ omega arith in
      rw
        (
          append_assoc (le32 n) block rest,
          read_blocks-frame db f (le32 n) (block ++ rest) (length-le32 n),
          len,
          take-append (length block) block rest refl,
          drop-append (length block) block rest refl,
          e,
        )
        refl

  -- What a run of the loop has added to the writer.
  record IsStream (z z' : Lz4HcWriter) (s out : Bytes) : Type 0 where
    same_lg : z'.lg ≡ z.lg
    total : z'.in_total ≡ (z.in_total + length s) % u32_mod
    appends : z'.written ≡ z.written ++ out
    reads : (f : ℕ) → length out < f → read_blocks db f out ≡ some s

  abbrev after_write : Lz4HcWriter → Bytes → Bytes → Lz4HcWriter
  after_write z block s = record z {
    written = z.written ++ frame block;
    in_total = (z.in_total + length s % u32_mod) % u32_mod;
  }

  lz4_hc_write-block :
      (z : Lz4HcWriter) (s block : Bytes)
      → cb s ≡ some block
      → 0 < length block
      → lz4_hc_write cb z s ≡ ret (after_write z block s)
  unfolding lz4_hc_write
  lz4_hc_write-block z s block e pos = rw (lz4_hc_write, e) (ground arith)

  IsStream-nil : (z : Lz4HcWriter) → z.in_total < u32_mod → IsStream z z [] []
  unfolding read_blocks
  IsStream-nil z h = record {
    same_lg = refl;
    total = omega arith;
    appends = sym (append-nil z.written);
    reads = λ f l. read_nil f l;
  }
    where
      read_nil : (f : ℕ) → 0 < f → read_blocks db f [] ≡ some []
      read_nil zero l = absurd (omega arith)
      read_nil (suc f) l = refl

  IsStream-cons :
      (z z' : Lz4HcWriter) (block chunk rest out : Bytes)
      → length block < u32_mod
      → db block ≡ some chunk
      → IsStream (after_write z block chunk) z' rest out
      → IsStream z z' (chunk ++ rest) (frame block ++ out)
  IsStream-cons z z' block chunk rest out small back r = record {
    same_lg = r.same_lg;
    total = omega (arith, r.total, length-append chunk rest);
    appends = r.appends ∙ append_assoc z.written (frame block) out;
    reads = λ f l. reads_on f l;
  }
    where
      reads_on :
          (f : ℕ)
          → length (frame block ++ out) < f
          → read_blocks db f (frame block ++ out) ≡ some (chunk ++ rest)
      reads_on zero l = absurd (omega arith)
      reads_on (suc f) l =
          let k : length out < f =
            omega (arith, length-append (frame block) out, length-frame block) in
          rw (read_blocks-block f block out chunk small back, r.reads f k) refl

  compress_loop-IsStream :
      (n : ℕ) (s : Bytes) (z : Lz4HcWriter)
      → length s < n
      → (z' : Lz4HcWriter) × (out : Bytes) × (compress_loop (lz4_hc_write cb) (file_reads n s) z
          ≡ ret z')
        × IsStream z z' s out
  unfolding compress_loop file_reads
  compress_loop-IsStream zero s z h = absurd (omega arith)
  compress_loop-IsStream (suc n) [] z h =
      let (block, e, pos, small, back) = works.compress_lem [] (omega arith) in
      let z1 = after_write z block [] in
      (
        z1,
        frame block ++ [],
        lz4_hc_write-block z [] block e pos,
        IsStream-cons z z1 block [] [] [] small back (IsStream-nil z1 (omega arith)),
      )
  compress_loop-IsStream (suc n) (c ∷ s) z h =
      let chunk = take buffer_size (c ∷ s) in
      let rest = drop buffer_size (c ∷ s) in
      let (block, e, pos, small, back) =
        works.compress_lem chunk (omega (arith, length-take buffer_size (c ∷ s))) in
      let z1 = after_write z block chunk in
      let shorter : length rest < n = omega (arith, length-drop buffer_size (c ∷ s)) in
      let (z', out, run, r) = compress_loop-IsStream n rest z1 shorter in
      (
        z',
        frame block ++ out,
        rw (lz4_hc_write-block z chunk block e pos) run,
        rw (take-append-drop buffer_size (c ∷ s)) at
            (IsStream-cons z z' block chunk rest out small back r),
      )

  close_lem :
      (z : Lz4HcWriter)
      → (lz4_hc_close z).written ≡ z.written ++ (if z.lg then le32 z.in_total else [])
  unfolding lz4_hc_close
  close_lem z = elim (Bool-cases z.lg) [
    | inl e ↦ rw (e) refl
    | inr e ↦ rw (e) (sym (append-nil z.written))
  ]

  -- Where the block library keeps its promise: the file that `Compress` writes for lz4_legacy is the
  -- magic and a stream that is read back as the content of the input; for lz4_lg the length of the
  -- content, in four bytes, stands behind it.
  pub compress_lz4-read_blocks :
      (lg : Bool) (content : Bytes)
      → (out : Bytes) × (compress_lz4 cb lg content
          ≡ ret (
              lz4_leg_magic_bytes ++ (out ++ (if lg then le32 (length content % u32_mod) else []))))
        × (read_blocks db (suc (length out)) out ≡ some content)
  unfolding compress_lz4 new_lz4_hc_writer
  compress_lz4-read_blocks lg content =
      let (z', out, run, r) =
        compress_loop-IsStream (suc (length content)) content (new_lz4_hc_writer lg)
          (omega arith) in
      let count : z'.in_total ≡ length content % u32_mod = r.total ∙ omega arith in
      let closed : (lz4_hc_close z').written
          ≡ lz4_leg_magic_bytes ++ (out ++ (if lg then le32 (length content % u32_mod) else [])) =
        rw (close_lem z', r.same_lg, count, r.appends) (append_assoc lz4_leg_magic_bytes out _) in
      (out, rw (run) (ap ret closed), r.reads (suc (length out)) (omega arith))
