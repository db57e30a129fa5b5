-- ===== src/Boot/Dtb.antt =====
-- `findDtbOffset`, `checkFmtLg` and `SplitImageDtb`.
use magiskboot_go.Base.{
  ℕ, zero, suc, ◌+◌, ◌-◌, ◌*◌, ◌%◌, Bool, not, ◌&&◌, [], ◌∷◌, Option, none, some,
}
use magiskboot_go.Base.{Bytes, length, take, drop, index, slice_from, ltb, u32_mod}
use magiskboot_go.Base.{Outcome, ret, running, ◌>>=◌, ◌==◌, if◌then◌else◌}
use magiskboot_go.Format.{Format, iota, lz4_legacy, lz4_lg, check_fmt, compressed}
use magiskboot_go.Payload.File.{big_endian}

abbrev pub fdt_magic : Bytes
fdt_magic = 0xd0 ∷ 0x0d ∷ 0xfe ∷ 0xed ∷ []

-- A big-endian `uint32` at a position, or 0 where `binary.Read` finds less than four bytes.
unfoldable pub be32_at : Bytes → ℕ → ℕ
unfolding big_endian
be32_at bytes at =
    let got = take 4 (drop at bytes) in if length got == 4 then big_endian got 0 else 0

-- `binary.Read` into the header of forty bytes reads nothing where there are fewer.
unfoldable pub fdt_field : Bytes → ℕ → ℕ → ℕ
unfolding be32_at
fdt_field fmap curr i = if ltb (length (drop curr fmap)) 40 then 0 else be32_at fmap (curr + 4 * i)

-- `uint32(end - curr)`, with `curr` at most the end of the map.
abbrev pub room : ℕ → ℕ → ℕ
room sz curr = (sz + u32_mod - curr % u32_mod) % u32_mod

-- How a round of the loop ends: `continue`, or a result, where `none` stands for -1.
pub data Round : Type 0 where
  continue_at : ℕ → Round
  found : Option ℕ → Round

-- The body of the loop, from the place where the magic stands.
unfoldable pub check_candidate : Bytes → ℕ → ℕ → Outcome Round
unfolding fdt_field be32_at slice_from
check_candidate fmap sz curr =
    if ltb (room sz curr) (fdt_field fmap curr 1)
    then ret (continue_at curr)
    else if ltb (room sz curr) (fdt_field fmap curr 2)
    then ret (continue_at curr)
    else (slice_from fmap (curr + fdt_field fmap curr 2) >>= λ rest.
        ret (if be32_at rest 0 == 1 then found (some curr) else continue_at curr))

-- One round: the magic is looked for from the start of the map, whatever `curr` is.
unfoldable pub find_round : Bytes → ℕ → Outcome Round
unfolding check_candidate index
find_round fmap sz = elim (index fmap fdt_magic) [
  | none ↦ ret (found none)
  | some curr ↦ check_candidate fmap sz curr
]

-- The loop, with the rounds that it may still make.
unfoldable pub find_loop : ℕ → Bytes → ℕ → ℕ → Outcome (Option ℕ)
find_loop zero fmap sz curr = running
find_loop (suc f) fmap sz curr =
    let again = find_round fmap sz >>= λ r. elim r [
      | found o ↦ ret o
      | continue_at at ↦ find_loop f fmap sz (at + 40)
    ] in
    if ltb curr sz then again else ret none

-- `findDtbOffset(fmap, sz)`, in a number of rounds.
unfoldable pub find_dtb_offset : ℕ → Bytes → ℕ → Outcome (Option ℕ)
find_dtb_offset rounds fmap sz = find_loop rounds fmap sz 0

-- A little-endian `uint32` at a position; `binary.Read` leaves the old value where bytes are missing.
unfoldable pub le32_at : Bytes → ℕ → ℕ → ℕ
le32_at bytes at old = elim (take 4 (drop at bytes)) [
  | a ∷ b ∷ c ∷ d ∷ _ ↦ a + b * 256 + c * 65536 + d * 16777216
  | _ ↦ old
]

-- The loop over the blocks of a legacy stream. It has no exit but the block that is too long.
unfoldable pub lg_loop : ℕ → Bytes → ℕ → ℕ → ℕ → Outcome Format
lg_loop zero fmap sz off block_sz = running
lg_loop (suc f) fmap sz off block_sz =
    let block = le32_at fmap off block_sz in
    let next = lg_loop f fmap sz (off + 4 + block) block in
    let idle = lg_loop f fmap sz off block_sz in
    let step = if ltb sz (off + 4 + block) then ret lz4_lg else next in
    if ltb (off + 4) sz then step else idle

-- `checkFmtLg(fmap, sz)`, in a number of rounds.
unfoldable pub check_fmt_lg : ℕ → Bytes → ℕ → Outcome Format
unfolding iota
check_fmt_lg rounds fmap sz = check_fmt fmap [] >>= λ f.
    if iota f == iota lz4_legacy then lg_loop rounds fmap sz 4 0 else ret f

-- `dump(buf, size, _)`: the content of the file, where one is created.
unfoldable pub dump_file : Bytes → ℕ → Option Bytes
dump_file buf size = if size == 0 then none else some (take size buf)

-- `dump(fmap[off:], int(img_sz)-off, _)`: where the size is negative, the file stays empty.
unfoldable pub dump_rest : Bytes → ℕ → ℕ → Option Bytes
unfolding dump_file
dump_rest fmap img_sz off =
    if ltb img_sz off then some [] else dump_file (drop off fmap) (img_sz - off)

-- What `SplitImageDtb` writes: the kernel, decompressed from a stream or dumped, and the device
-- tree, where its file is created.
pub data Split : Type 0 where
  no_dtb : Split
  decompressed : Format → Bytes → Option Bytes → Split
  dumped : Option Bytes → Option Bytes → Split

-- The rest of `SplitImageDtb`, behind the search. An offset of 0 counts as none.
unfoldable pub split_at : ℕ → Bytes → ℕ → Bool → Option ℕ → Outcome Split
unfolding dump_file dump_rest
split_at rounds fmap img_sz skip_decomp none = ret no_dtb
split_at rounds fmap img_sz skip_decomp (some zero) = ret no_dtb
split_at rounds fmap img_sz skip_decomp (some (suc off)) = check_fmt_lg rounds fmap img_sz >>= λ f.
    ret (
      if not skip_decomp && compressed f
      then decompressed f (drop (suc off) fmap) (dump_rest fmap img_sz (suc off))
      else dumped (dump_file fmap (suc off)) (dump_rest fmap img_sz (suc off)))

-- `SplitImageDtb(filename, skip_decomp)` on the bytes of the mapped file.
unfoldable pub split_image_dtb : ℕ → Bytes → Bool → Outcome Split
unfolding split_at
split_image_dtb rounds fmap skip_decomp =
    let img_sz = length fmap % u32_mod in
    find_dtb_offset rounds fmap img_sz >>= split_at rounds fmap img_sz skip_decomp
