-- ===== src/Cpio/RoundTrip/Step.antt =====
-- One round of `LoadFromData` at the place where `Dump` wrote an entry.
use magiskboot_go.Base.{ℕ, ◌+◌, ◌%◌, ◌^◌, ◌<◌, ◌≡◌, refl, ap, arith, ◌∙◌}
use magiskboot_go.Base.{
  [], ◌∷◌, ◌++◌, append_assoc, Bytes, length, length-append, slice, slice_middle,
}
use magiskboot_go.Base.{ret, add64, u64_mod}
use magiskboot_go.Common.{align_4}
use magiskboot_go.Cpio.{Cpio, CpioEntry}
use magiskboot_go.Cpio.Load.{next, load_step}
use magiskboot_go.Cpio.Dump.{header, entry_numbers}
use magiskboot_go.Cpio.Dump.Image.{
  FitsEntry, entry_numbers-Fits, entry_image, gap, zeros, length-header, length-zeros,
  length-entry_image,
}
use magiskboot_go.Cpio.RoundTrip.Entry.{
  IsName, with_entry, load_step_lem, load_body_lem, load_entry_lem,
}

-- Rounding up a position in terms of the gap behind it.
pub align_4-gap : (p q : ℕ) → p % 4 ≡ 0 → p + q + 4 < u64_mod → align_4 (p + q) ≡ p + q + gap q
unfolding align_4
align_4-gap p q h f = omega arith

module _ (pre post : Bytes) (inode : ℕ) (name : Bytes) (e : CpioEntry) (c : Cpio)
    (inode_fits : inode < 2 ^ 32) (fits : FitsEntry name e) (is_name : IsName name)
    (aligned : length pre % 4 ≡ 0)
    (small : length (pre ++ (entry_image inode name e ++ post)) + 8 < u64_mod) where
  abbrev hdr : Bytes
  hdr = header (entry_numbers inode name e)

  abbrev z1 : Bytes
  z1 = zeros (111 + length name)

  abbrev z2 : Bytes
  z2 = zeros (length e.content)

  abbrev bytes : Bytes
  bytes = pre ++ (entry_image inode name e ++ post)

  at_header : bytes ≡ pre ++ (hdr ++ ((name ++ 0 ∷ []) ++ (z1 ++ (e.content ++ (z2 ++ post)))))
  unfolding entry_image
  at_header = simp append_assoc

  at_name : bytes ≡ (pre ++ hdr) ++ ((name ++ 0 ∷ []) ++ (z1 ++ (e.content ++ (z2 ++ post))))
  unfolding entry_image
  at_name = simp append_assoc

  at_content : bytes ≡ (pre ++ (hdr ++ ((name ++ 0 ∷ []) ++ z1))) ++ (e.content ++ (z2 ++ post))
  unfolding entry_image
  at_content = simp append_assoc

  length-hdr : length hdr ≡ 110
  length-hdr =
      length-header (entry_numbers inode name e) (entry_numbers-Fits inode name e inode_fits fits)

  length_bytes :
      length bytes
      ≡ length pre
        + (111 + length name + gap (111 + length name) + length e.content + gap (length e.content))
        + length post
  length_bytes = omega (
    arith,
    length-append pre (entry_image inode name e ++ post),
    length-append (entry_image inode name e) post,
    length-entry_image inode name e inode_fits fits,
  )

  -- The position behind the name and its padding.
  abbrev body_pos : ℕ
  body_pos = length pre + (111 + length name) + gap (111 + length name)

  header_slice : slice bytes (length pre) (add64 (length pre) 110) ≡ ret hdr
  header_slice = rw at_header (
      slice_middle pre hdr _ (length pre) (add64 (length pre) 110) refl
        (omega (arith, length-hdr, length_bytes, small)))

  name_slice :
      slice bytes (add64 (length pre) 110) (add64 (add64 (length pre) 110) (length name + 1))
      ≡ ret (name ++ 0 ∷ [])
  name_slice = rw at_name (
      slice_middle (pre ++ hdr) (name ++ 0 ∷ []) _ (add64 (length pre) 110)
        (add64 (add64 (length pre) 110) (length name + 1))
        (omega (arith, length-hdr, length_bytes, small, length-append pre hdr))
        (omega (arith, length-hdr, length_bytes, small, length-append {0} name (0 ∷ []))))

  body_pos_lem : align_4 (add64 (add64 (length pre) 110) (length name + 1)) ≡ body_pos
  body_pos_lem =
      ap align_4 (omega (arith, length_bytes, small))
      ∙ align_4-gap (length pre) (111 + length name) aligned (omega (arith, length_bytes, small))

  content_slice : slice bytes body_pos (add64 body_pos (length e.content)) ≡ ret e.content
  content_slice = rw at_content (
      slice_middle (pre ++ (hdr ++ ((name ++ 0 ∷ []) ++ z1))) e.content _ body_pos
        (add64 body_pos (length e.content))
        (omega (
          arith,
          length-hdr,
          length-append pre (hdr ++ ((name ++ 0 ∷ []) ++ z1)),
          length-append hdr ((name ++ 0 ∷ []) ++ z1),
          length-append (name ++ 0 ∷ []) z1,
          length-append {0} name (0 ∷ []),
          length-zeros (111 + length name),
        ))
        (omega (arith, length_bytes, small)))

  -- The position behind the entry.
  end_pos_lem :
      align_4 (add64 body_pos (length e.content)) ≡ length pre + length (entry_image inode name e)
  end_pos_lem =
      ap align_4 (omega (arith, length_bytes, small))
      ∙ (align_4-gap body_pos (length e.content) (omega (arith, aligned))
            (omega (arith, length_bytes, small))
          ∙ omega (arith, length-entry_image inode name e inode_fits fits))

  -- The round reads the entry, and goes on behind it.
  pub load_step-entry :
      load_step bytes (length pre) c
      ≡ ret (next (length pre + length (entry_image inode name e)) (with_entry c name e))
  load_step-entry =
      load_step_lem bytes inode name e c inode_fits fits is_name (length pre)
        (omega (arith, length_bytes)) header_slice
      ∙ (load_body_lem bytes inode name e c inode_fits fits is_name (add64 (length pre) 110)
            name_slice
          ∙ rw (body_pos_lem) (
              rw
                (load_entry_lem bytes inode name e c inode_fits fits is_name body_pos content_slice)
                (ap (λ (p : ℕ). ret (next p (with_entry c name e))) end_pos_lem)))
