-- ===== src/Compress/Stream/Laws.antt =====
-- What `Decompress` makes of what `Compress` writes, in the formats of the libraries.
use magiskboot_go.Base.{
  ℕ, zero, suc, ◌<◌, ◌≡◌, refl, sym, ap, ◌∙◌, arith, List, [], ◌∷◌, ◌++◌, append_assoc, append-nil,
  Option, none, some,
}
use magiskboot_go.Base.{Bytes, length, take, drop, take-append-drop, length-drop, ret}
use magiskboot_go.Format.{Format, gzip, zopfli, xz, lzma, bzip2, lz4, lz4_legacy, lz4_lg}
use magiskboot_go.Compress.Codec.{Codec, library, new_encoder, new_decoder}
use magiskboot_go.Compress.Copy.{
  ReadEnd, more, eof, failed, compress_loop, write_some, decompress_loop, file_reads, buffer_size,
}
use magiskboot_go.Compress.Stream.{
  Streams, by_library, open_encoder, encoder_write, encoder_close, decoder_reads, compress_content,
  decompress_content,
}

abbrev prepend : Bytes → Option Bytes → Option Bytes
prepend b none = none
prepend b (some s) = some (b ++ s)

-- What the calls of `Read` give in all, where they come to the end.
unfoldable pub content_read : List (Bytes × ReadEnd) → Option Bytes
content_read [] = none
content_read ((b, more) ∷ reads) = prepend b (content_read reads)
content_read ((b, eof) ∷ reads) = some b
content_read ((b, failed) ∷ reads) = none

-- What a library promises of a codec: its writer can be opened and takes all bytes, and its reader
-- gives back what the writer has taken, at whatever calls.
pub record IsCodec (streams : Streams) (c : Codec) : Type 0 where
  pub taken : streams.Writer c → Bytes
  pub opens : (w : streams.Writer c) × (streams.new_writer c ≡ some w) × (taken w ≡ [])
  pub writes :
      (w : streams.Writer c) (b : Bytes)
      → (w' : streams.Writer c) × (streams.write w b ≡ some w') × (taken w' ≡ taken w ++ b)
  pub reads :
      (w : streams.Writer c)
      → (r : List (Bytes × ReadEnd)) × (streams.new_reader c (streams.close w) ≡ some r)
        × (content_read r ≡ some (taken w))

-- A format that a library writes is read by the same library.
new_decoder-new_encoder :
    (t : Format) (c : Codec) → new_encoder t ≡ ret (library c) → new_decoder t ≡ some c
unfolding new_encoder new_decoder
new_decoder-new_encoder gzip c h = cc
new_decoder-new_encoder zopfli c h = cc
new_decoder-new_encoder xz c h = cc
new_decoder-new_encoder lzma c h = cc
new_decoder-new_encoder bzip2 c h = cc
new_decoder-new_encoder lz4 c h = cc
new_decoder-new_encoder lz4_legacy c h = cc
new_decoder-new_encoder lz4_lg c h = cc
new_decoder-new_encoder _ c h = cc

pub write_some-append : (out b : Bytes) → write_some (λ o x. ret (o ++ x)) out b ≡ ret (out ++ b)
unfolding write_some
write_some-append out [] = ap ret (sym (append-nil out))
write_some-append out (x ∷ b) = refl

prepend_inv :
    (b : Bytes) (o : Option Bytes) (s : Bytes)
    → prepend b o ≡ some s
    → (t : Bytes) × (o ≡ some t) × (s ≡ b ++ t)
prepend_inv b none s h = cc
prepend_inv b (some t) s h = (t, refl, cc)

-- The loop of `Decompress` writes what is read.
decompress_loop-content_read :
    (reads : List (Bytes × ReadEnd)) (out s : Bytes)
    → content_read reads ≡ some s
    → decompress_loop (λ o x. ret (o ++ x)) reads out ≡ ret (out ++ s)
unfolding content_read decompress_loop
decompress_loop-content_read [] out s h = cc
decompress_loop-content_read ((b, more) ∷ reads) out s h =
    let (t, read, e) = prepend_inv b (content_read reads) s h in
    rw (write_some-append out b) (
      decompress_loop-content_read reads (out ++ b) t read
      ∙ ap ret (append_assoc out b t ∙ ap (λ x. out ++ x) (sym e)))
decompress_loop-content_read ((b, eof) ∷ reads) out s h =
    let e : b ≡ s = cc in write_some-append out b ∙ ap (λ (x : Bytes). ret (out ++ x)) e
decompress_loop-content_read ((b, failed) ∷ reads) out s h = cc

module _ (streams : Streams) (c : Codec) (codec : IsCodec streams c) where
  -- The loop of `Compress` hands the whole content to the writer.
  compress_loop-file_reads :
      (f : ℕ) (content : Bytes) (w : streams.Writer c)
      → length content < f
      → (w' : streams.Writer c) × (compress_loop
            (encoder_write streams)
            (file_reads f content)
            (by_library c w)
          ≡ ret (by_library c w'))
        × (codec.taken w' ≡ codec.taken w ++ content)
  unfolding compress_loop file_reads encoder_write
  compress_loop-file_reads zero content w h = absurd (omega arith)
  compress_loop-file_reads (suc f) [] w h =
      let (w1, wrote, e) = codec.writes w [] in (w1, rw (encoder_write, wrote) refl, e)
  compress_loop-file_reads (suc f) (x ∷ content) w h =
      let b = take buffer_size (x ∷ content) in
      let rest = drop buffer_size (x ∷ content) in
      let (w1, wrote, e) = codec.writes w b in
      let (w2, run, e') =
        compress_loop-file_reads f rest w1 (omega (arith, length-drop buffer_size (x ∷ content))) in
      (
        w2,
        rw (encoder_write, wrote) run,
        e'
            ∙ ap (λ t. t ++ rest) e
            ∙ append_assoc (codec.taken w) b rest
            ∙ ap (λ t. codec.taken w ++ t) (take-append-drop buffer_size (x ∷ content)),
      )

-- What is written is what the writer gives at its end, and it is read back.
pub compress_content-close :
    (streams : Streams) (t : Format) (c : Codec) (content : Bytes)
    → new_encoder t ≡ ret (library c)
    → IsCodec streams c
    → (w : streams.Writer c) × (compress_content streams t content ≡ ret (streams.close w))
      × (decompress_content streams t (streams.close w) ≡ ret content)
unfolding compress_content open_encoder encoder_close decompress_content decoder_reads
compress_content-close streams t c content h codec =
    let (w, opened, empty) = codec.opens in
    let (w', run, taken) =
      compress_loop-file_reads streams c codec (suc (length content)) content w (omega arith) in
    let (r, read, holds) = codec.reads w' in
    let all : codec.taken w' ≡ content = taken ∙ ap (λ (s : Bytes). s ++ content) empty in
    (
      w',
      rw (h, open_encoder, opened, run) refl,
      rw (decompress_content, decoder_reads, new_decoder-new_encoder t c h, read)
          (decompress_loop-content_read r [] content (holds ∙ ap some all)),
    )

-- In every format that `Compress` leaves to a library, `Compress` returns for every content, where
-- the library keeps what it promises of its codec, and `Decompress` of what it writes in the same
-- format returns and writes that content.
pub decompress_content-compress_content :
    (streams : Streams) (t : Format) (c : Codec) (content : Bytes)
    → new_encoder t ≡ ret (library c)
    → IsCodec streams c
    → (z : Bytes) × (compress_content streams t content ≡ ret z)
      × (decompress_content streams t z ≡ ret content)
decompress_content-compress_content streams t c content h codec =
    let (w, coded, decoded) = compress_content-close streams t c content h codec in
    (streams.close w, coded, decoded)
