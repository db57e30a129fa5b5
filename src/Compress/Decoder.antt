-- ===== src/Compress/Decoder.antt =====
-- `Decoder` of compress.go, and `decompress` of bootimg.go, which copies from one.
use magiskboot_go.Base.{
  Bool, true, false, List, [], ◌∷◌, ◌++◌, ◌≡◌, refl, ap, Option, none, some, Bytes,
}
use magiskboot_go.Base.{
  Outcome, ret, panic, exit, running, fatal, ◌>>=◌, append_assoc, Option-cases, inl, inr, sym, ◌∙◌,
}
use magiskboot_go.Format.{Format}
use magiskboot_go.Compress.Codec.{Codec, gzip_codec, new_decoder}
use magiskboot_go.Compress.Copy.{ReadEnd, more, eof, failed, decompress_loop}
use magiskboot_go.Compress.Stream.Laws.{write_some-append}
use magiskboot_go.Compress.Stream.{Streams, decoder_reads, decompress_content}

-- The reader, as what its calls of `Read` give, and whether there is a closer.
pub record Decoder : Type 0 where
  pub reader : Option (List (Bytes × ReadEnd))
  pub has_closer : Bool

-- Only gzip's reader is kept as a closer.
abbrev pub closes : Codec → Bool
closes gzip_codec = true
closes _ = false

-- `io.ReadAll`: the bytes up to the end or to an error, and whether there was one. The calls of a
-- reader end one way or the other.
unfoldable pub read_all : List (Bytes × ReadEnd) → Outcome (Bytes × Bool)
read_all [] = running
read_all ((b, more) ∷ reads) = read_all reads >>= λ r. ret (b ++ r.0, r.1)
read_all ((b, eof) ∷ reads) = ret (b, false)
read_all ((b, failed) ∷ reads) = ret (b, true)

module _ (streams : Streams) where
  -- `NewDecoder(t, reader)`, on the bytes behind the reader.
  unfoldable pub open_decoder : Format → Bytes → Outcome Decoder
  unfolding new_decoder
  open_decoder t bytes = elim (new_decoder t) [
    | none ↦ ret (record { reader = none; has_closer = false })
    | some c ↦ elim (streams.new_reader c bytes) [
      | none ↦ fatal
      | some reads ↦ ret (record { reader = some reads; has_closer = closes c })
    ]
  ]

  -- `d.Decode()`: the bytes, and whether there was an error.
  unfoldable pub decode : Decoder → Outcome (Bytes × Bool)
  unfolding read_all
  decode d = elim d.reader [ none ↦ ret ([], true) | some reads ↦ read_all reads ]

  -- `d.Close()`, with the error of the closer's own call.
  unfoldable pub decoder_close : Decoder → Bool → Bool
  decoder_close d close_fails = elim d.has_closer [ true ↦ close_fails | false ↦ false ]

  -- `decompress(t, fd, in)`: the bytes that are written to the file. `io.Copy` drops an error, and
  -- a nil reader panics.
  unfoldable pub decompress : Format → Bytes → Outcome Bytes
  unfolding open_decoder read_all
  decompress t bytes = open_decoder t bytes >>= λ d. elim d.reader [
    | none ↦ panic
    | some reads ↦ read_all reads >>= λ r. ret r.0
  ]

-- What the loop of `Decompress` makes of the bytes and of the error.
abbrev no_error : Bytes → Outcome (Bytes × Bool) → Outcome Bytes
no_error out m = m >>= λ r. elim r.1 [ true ↦ fatal | false ↦ ret (out ++ r.0) ]

no_error-append :
    (out b : Bytes) (m : Outcome (Bytes × Bool))
    → no_error (out ++ b) m ≡ no_error out (m >>= λ r. ret (b ++ r.0, r.1))
no_error-append out b (ret (s, true)) = refl
no_error-append out b (ret (s, false)) = ap ret (append_assoc out b s)
no_error-append out b panic = refl
no_error-append out b (exit n) = refl
no_error-append out b running = refl

-- The loop of `Decompress` returns with what `io.ReadAll` gives without an error, and ends the
-- process where that gives one.
decompress_loop-read_all :
    (reads : List (Bytes × ReadEnd)) (out : Bytes)
    → decompress_loop (λ o b. ret (o ++ b)) reads out ≡ no_error out (read_all reads)
unfolding read_all decompress_loop
decompress_loop-read_all [] out = refl
decompress_loop-read_all ((b, more) ∷ reads) out =
    rw (write_some-append out b)
      (decompress_loop-read_all reads (out ++ b) ∙ no_error-append out b (read_all reads))
decompress_loop-read_all ((b, eof) ∷ reads) out = write_some-append out b
decompress_loop-read_all ((b, failed) ∷ reads) out = rw (write_some-append out b) refl

no_error-ret : (m : Outcome (Bytes × Bool)) (x : Bytes) → no_error [] m ≡ ret x → m ≡ ret (x, false)
no_error-ret (ret (s, true)) x h = cc
no_error-ret (ret (s, false)) x h = ap (λ (o : Outcome Bytes). o >>= λ y. ret (y, false)) h
no_error-ret panic x h = cc
no_error-ret (exit n) x h = cc
no_error-ret running x h = cc

-- Where `Decompress` writes bytes, `Decode` gives them without an error, and `decompress` writes
-- them as well.
pub decompress_content-decode :
    (streams : Streams) (t : Format) (bytes x : Bytes)
    → decompress_content streams t bytes ≡ ret x
    → ((open_decoder streams t bytes >>= λ d. decode streams d) ≡ ret (x, false))
      × (decompress streams t bytes ≡ ret x)
unfolding decompress_content decoder_reads open_decoder decode decompress
decompress_content-decode streams t bytes x h = elim (Option-cases (new_decoder t)) [
  | inl e ↦ let stuck : panic ≡ ret x = rw (decompress_content, decoder_reads, e) at h in cc
  | inr (c, e) ↦ elim (Option-cases (streams.new_reader c bytes)) [
    | inl f ↦ let stuck : exit 1 ≡ ret x = rw (decompress_content, decoder_reads, e, f) at h in cc
    | inr (reads, f) ↦
        let run : decompress_loop (λ o b. ret (o ++ b)) reads [] ≡ ret x =
          rw (decompress_content, decoder_reads, e, f) at h in
        let all = no_error-ret (read_all reads) x (sym (decompress_loop-read_all reads []) ∙ run) in
        (rw (open_decoder, e, f) all, rw (decompress, open_decoder, e, f, all) refl)
  ]
]
