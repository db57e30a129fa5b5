-- ===== src/Cpio/Dump/Write.antt =====
-- `Dump` on a file whose writes succeed leaves the archive's image in it.
use magiskboot_go.Base.{ℕ, ◌+◌, ◌*◌, ◌/◌, ◌%◌, ◌^◌, ◌<◌, ◌≡◌, refl, ap, arith, ◌∙◌}
use magiskboot_go.Base.{false, List, [], ◌∷◌, ◌++◌, append_assoc, some, All}
use magiskboot_go.Base.{Bytes, length, length-append, add64, sub64, u64_mod}
use magiskboot_go.Base.{ret}
use magiskboot_go.Common.{align_4}
use magiskboot_go.Cpio.{Cpio, CpioEntry, entry_at}
use magiskboot_go.Cpio.Load.{trailer}
use magiskboot_go.Cpio.Dump.{
  header, entry_numbers, trailer_numbers, Written, write_zeros, dump_body, dump_entry, dump_trailer,
  dump_loop, dump,
}
use magiskboot_go.Cpio.Dump.Image.{
  FitsEntry, entry_numbers-Fits, length-header, length-entry_image, entry_image, trailer_image,
  image_from, image, gap, zeros, length-zeros, length-trailer_image,
}

-- What a file's `Write` promises where there is no error: all bytes are appended and counted.
pub record IsLossless {F : Type 0} (write : F → Bytes → Written F) (contents : F → Bytes)
    : Type 0 where
  pub appends : (f : F) (b : Bytes) → contents (write f b).file ≡ contents f ++ b
  pub counts : (f : F) (b : Bytes) → (write f b).count ≡ length b
  pub succeeds : (f : F) (b : Bytes) → (write f b).is_err ≡ false

module _ {F : Type 0} (write : F → Bytes → Written F) (contents : F → Bytes)
    (lossless : IsLossless write contents) where
  -- The file behind a write of the zeros at a position.
  write_zeros_lem :
      (f : F) (p q : ℕ)
      → p % 4 ≡ 0
      → p + q + 8 < u64_mod
      → write_zeros write f (p + q) ≡ ret ((write f (zeros q)).file, gap q)
  unfolding write_zeros align_4
  write_zeros_lem f p q al small =
      let e : sub64 (add64 (p + q) 3 / 4 * 4) (p + q) ≡ gap q = omega arith in
      rw (e, lossless.succeeds f (zeros q), lossless.counts f (zeros q), length-zeros q)

  -- The file behind one entry.
  after_entry : F → ℕ → Bytes → CpioEntry → F
  after_entry f inode name e =
      let f1 = (write f (header (entry_numbers inode name e))).file in
      let f2 = (write f1 name).file in
      let f3 = (write f2 (0 ∷ [])).file in
      let f4 = (write f3 (zeros (111 + length name))).file in
      let f5 = (write f4 e.content).file in (write f5 (zeros (length e.content))).file

  contents-after_entry :
      (f : F) (inode : ℕ) (name : Bytes) (e : CpioEntry)
      → contents (after_entry f inode name e) ≡ contents f ++ entry_image inode name e
  unfolding after_entry entry_image
  contents-after_entry f inode name e = simp (lossless.appends, append_assoc)

  dump_body_lem :
      (f : F) (p : ℕ) (name : Bytes) (e : CpioEntry)
      → p % 4 ≡ 0
      → p
          + (111
              + length name
              + gap (111 + length name)
              + length e.content
              + gap (length e.content))
          + 8
        < u64_mod
      → let f2 = (write f name).file in
        let f3 = (write f2 (0 ∷ [])).file in
        let f4 = (write f3 (zeros (111 + length name))).file in
        let f5 = (write f4 e.content).file in
        dump_body write f (p + 110) name e
        ≡ ret (
            some (
              (write f5 (zeros (length e.content))).file,
              p
                  + (111
                      + length name
                      + gap (111 + length name)
                      + length e.content
                      + gap (length e.content)),
            ))
  unfolding dump_body
  dump_body_lem f p name e al small =
      let g = gap (111 + length name) in
      let a1 : add64 (add64 (p + 110) (length name)) 1 ≡ p + (111 + length name) = omega arith in
      let a2 : align_4 (add64 (p + (111 + length name)) g) ≡ p + (111 + length name) + g =
        unfold align_4 in omega (arith, al, small) in
      let a3 : add64 (p + (111 + length name) + g) (length e.content)
          ≡ (p + (111 + length name) + g) + length e.content =
        omega arith in
      let a4 : align_4 ((p + (111 + length name) + g) + length e.content)
          ≡ p + (111 + length name + g + length e.content + gap (length e.content)) =
        unfold align_4 in omega (arith, al, small) in
      rw (lossless.counts f name, lossless.counts _ (0 ∷ []), a1)
        (rw (write_zeros_lem _ p (111 + length name) al (omega arith)) (
          rw (a2, lossless.counts _ e.content, a3)
            (rw
              (write_zeros_lem _ (p + (111 + length name) + g) (length e.content)
                (omega (arith, al)) (omega arith))
              (rw a4 refl))))

  dump_entry_lem :
      (f : F) (p inode : ℕ) (name : Bytes) (e : CpioEntry)
      → p % 4 ≡ 0
      → inode < 2 ^ 32
      → FitsEntry name e
      → p + length (entry_image inode name e) + 8 < u64_mod
      → dump_entry write f p inode name e
        ≡ ret (some (after_entry f inode name e, p + length (entry_image inode name e)))
  unfolding dump_entry after_entry
  dump_entry_lem f p inode name e al il fits small =
      let hl =
        length-header (entry_numbers inode name e) (entry_numbers-Fits inode name e il fits) in
      let le = length-entry_image inode name e il fits in
      let a0 : add64 p 110 ≡ p + 110 = omega arith in
      rw
        (
          lossless.succeeds f (header (entry_numbers inode name e)),
          lossless.counts f (header (entry_numbers inode name e)),
          hl,
          a0,
          le,
        )
        (dump_body_lem _ p name e al (omega (arith, le, small)))

  dump_trailer_lem :
      (f : F) (p inode : ℕ)
      → p % 4 ≡ 0
      → inode < 2 ^ 32
      → p + 140 < u64_mod
      → (f' : F) × (dump_trailer write f p inode ≡ ret (some f'))
        × (contents f' ≡ contents f ++ trailer_image inode)
  unfolding dump_trailer trailer_image
  dump_trailer_lem f p inode al il small =
      let h = header (trailer_numbers inode) in
      let hl = length-header (trailer_numbers inode) (omega arith) in
      let f1 = (write f h).file in
      let f2 = (write f1 (trailer ++ 0 ∷ [])).file in
      let a0 : add64 (add64 p 110) 11 ≡ p + 121 = omega arith in
      (
        (write f2 (zeros 121)).file,
        rw (lossless.counts f h, lossless.counts f1 (trailer ++ 0 ∷ []), hl, a0)
            (rw (write_zeros_lem f2 p 121 al (omega arith)) refl),
        simp (lossless.appends, append_assoc),
      )

  dump_loop-image :
      (c : Cpio) (names : List Bytes) (f : F) (p inode : ℕ)
      → All (λ name. FitsEntry name (entry_at c name)) names
      → p % 4 ≡ 0
      → inode + length names < 2 ^ 32
      → p + length (image_from c names inode) + 16 < u64_mod
      → (f' : F) × (dump_loop write c names f p inode ≡ ret (some f'))
        × (contents f' ≡ contents f ++ image_from c names inode)
  unfolding dump_loop image_from
  dump_loop-image c [] f p inode ok al fit small =
      dump_trailer_lem f p inode al (omega arith)
        (omega (arith, length-trailer_image inode (omega arith), small))
  dump_loop-image c (name ∷ names) f p inode (ok, oks) al fit small =
      let e = entry_at c name in
      let img = entry_image inode name e in
      let rest = image_from c names (inode + 1) in
      let il : inode < 2 ^ 32 = omega arith in
      let la = length-append img rest in
      let le = length-entry_image inode name e il ok in
      let (f', run, holds) =
        dump_loop-image c names (after_entry f inode name e) (p + length img) (inode + 1) oks
          (omega (arith, al, le)) (omega arith) (omega (arith, la, small)) in
      (
        f',
        rw (dump_entry_lem f p inode name e al il ok (omega (arith, la, small))) run,
        holds
            ∙ (ap (λ (b : Bytes). b ++ rest) (contents-after_entry f inode name e)
                ∙ append_assoc (contents f) img rest),
      )

  -- Where every write succeeds, `Dump` returns without an error, and the bytes that it appends to
  -- the file are the archive's image: the entries in the order of the key list, each padded to four
  -- bytes, and the trailer. This holds where the numbers of every entry fit in their fields, the
  -- inode numbers fit in 32 bits, and the image ends at least 16 bytes before the end of `uint64`.
  pub dump-image :
      (c : Cpio) (f : F)
      → All (λ name. FitsEntry name (entry_at c name)) c.keys
      → 300000 + length c.keys < 2 ^ 32
      → length (image c) + 16 < u64_mod
      → (f' : F) × (dump write c f ≡ ret (some f')) × (contents f' ≡ contents f ++ image c)
  unfolding dump image
  dump-image c f ok fit small =
      dump_loop-image c c.keys f 0 300000 ok (omega arith) fit (omega arith)
