-- ===== src/Cpio/RoundTrip/Trailer.antt =====
-- The round of `LoadFromData` that meets the trailer which `Dump` wrote.
use magiskboot_go.Base.{ℕ, ◌+◌, ◌%◌, ◌^◌, ◌<◌, ◌≡◌, refl, sym, ap, arith, ◌∙◌}
use magiskboot_go.Base.{
  [], ◌∷◌, ◌++◌, append_assoc, append-nil, Bytes, length, length-append, slice, slice_middle,
}
use magiskboot_go.Base.{
  ret, add64, u64_mod, none, true, trim_right, bytes_eq, bytes_eq_refl, lt→ltb,
}
use magiskboot_go.Base.{slice_from, index, le→leb, drop, drop-append}
use magiskboot_go.Common.{align_4}
use magiskboot_go.Cpio.{Cpio}
use magiskboot_go.Cpio.Field.{x8u, parsed}
use magiskboot_go.Cpio.Field.Laws.{x8u-x08}
use magiskboot_go.Cpio.Load.{
  stop, load_step, load_body, load_named, load_trailer, read_header, cpio_magic, trailer,
}
use magiskboot_go.Cpio.Dump.{header, trailer_numbers}
use magiskboot_go.Cpio.Dump.Image.{trailer_image, zeros, length-header}
use magiskboot_go.Cpio.RoundTrip.Header.{field-header}
use magiskboot_go.Cpio.RoundTrip.Step.{align_4-gap}

module _ (pre : Bytes) (inode : ℕ) (c : Cpio) (inode_fits : inode < 2 ^ 32)
    (aligned : length pre % 4 ≡ 0) (small : length (pre ++ trailer_image inode) + 8 < u64_mod) where
  abbrev bytes : Bytes
  bytes = pre ++ trailer_image inode

  abbrev raw : Bytes
  raw = header (trailer_numbers inode)

  length-raw : length raw ≡ 110
  length-raw = length-header (trailer_numbers inode) (omega arith)

  length_bytes : length bytes ≡ length pre + 124
  unfolding trailer_image
  length_bytes = omega (
    arith,
    length-append pre (raw ++ ((trailer ++ 0 ∷ []) ++ zeros 121)),
    length-append raw ((trailer ++ 0 ∷ []) ++ zeros 121),
    length-raw,
  )

  header_slice : slice bytes (length pre) (add64 (length pre) 110) ≡ ret raw
  unfolding trailer_image
  header_slice =
      slice_middle pre raw _ (length pre) (add64 (length pre) 110) refl
        (omega (arith, length-raw, length_bytes, small))

  name_slice :
      slice bytes (add64 (length pre) 110) (add64 (add64 (length pre) 110) 11)
      ≡ ret (trailer ++ 0 ∷ [])
  unfolding trailer_image
  name_slice = rw (← append_assoc pre raw ((trailer ++ 0 ∷ []) ++ zeros 121)) (
      slice_middle (pre ++ raw) (trailer ++ 0 ∷ []) (zeros 121) (add64 (length pre) 110)
        (add64 (add64 (length pre) 110) 11)
        (omega (arith, length-raw, length_bytes, small, length-append pre raw))
        (omega (arith, length_bytes, small)))

  namesize_lem : x8u (read_header raw).namesize ≡ parsed 11
  unfolding read_header
  namesize_lem =
      rw (field-header (trailer_numbers inode) 11 11 (omega arith) refl) (x8u-x08 11 (omega arith))

  drop-length : (xs : Bytes) → drop (length xs) xs ≡ []
  drop-length xs = ap (drop (length xs)) (sym (append-nil xs)) ∙ drop-append (length xs) xs [] refl

  end_slice : (pos : ℕ) → pos ≡ length bytes → slice_from bytes pos ≡ ret []
  unfolding slice_from
  end_slice pos h = rw (h, le→leb (length bytes) (length bytes) (omega arith), drop-length bytes)

  load_trailer_lem : (pos : ℕ) → pos ≡ length bytes → load_trailer bytes pos c ≡ ret (stop c none)
  unfolding load_trailer index
  load_trailer_lem pos h = rw (end_slice pos h)

  load_named_lem :
      (pos : ℕ) → load_named bytes (read_header raw) trailer pos c ≡ load_trailer bytes pos c
  unfolding load_named bytes_eq
  load_named_lem pos = refl

  load_body_lem : load_body bytes (read_header raw) (add64 (length pre) 110) c ≡ ret (stop c none)
  unfolding load_body trim_right
  load_body_lem =
      rw (load_body, namesize_lem, name_slice)
        (load_named_lem _
          ∙ load_trailer_lem _ (
              ap align_4 (omega (arith, length_bytes, small))
              ∙ (align_4-gap (length pre) 121 aligned (omega (arith, length_bytes, small))
                  ∙ omega (arith, length_bytes))))

  magic_lem : bytes_eq (read_header raw).magic cpio_magic ≡ true
  unfolding read_header header
  magic_lem = bytes_eq_refl cpio_magic

  -- The round ends the loop, without an error.
  pub load_step-trailer : load_step bytes (length pre) c ≡ ret (stop c none)
  unfolding load_step
  load_step-trailer =
      rw (lt→ltb (length pre) (length bytes) (omega (arith, length_bytes)), header_slice, magic_lem)
        load_body_lem
