-- ===== src/Compress/Run/Plans.antt =====
-- What `Compress` and `Decompress` plan for a file that is converted there and back.
use magiskboot_go.Base.{ℕ, ◌-◌, ◌≡◌, ◌≢◌, refl, ap, ◌∙◌, arith, true, false, [], ◌∷◌, ◌++◌}
use magiskboot_go.Base.{
  Bytes, codes, bytes_eq, in_set, trim_right, length, take, replicate, ret, length-append,
  length-replicate, take-append_prefix, append_assoc,
}
use magiskboot_go.Base.{◌==◌}
use magiskboot_go.Format.{
  gzip, xz, lzma, bzip2, lz4, iota, unknown, Format, Magic, chromeos_magic, magic, compressed,
  check_fmt, fmt2ext, name2fmt,
}
use magiskboot_go.Format.Detect.{format_of, check_fmt-magic, magic-le}
use magiskboot_go.Compress.Codec.{Codec, library, new_encoder}
use magiskboot_go.Compress.Copy.{buffer_size}
use magiskboot_go.Compress.Plan.{is_empty, stream, compress_plan, decompress_plan}
use magiskboot_go.Compress.Plan.Laws.{decompress_target-compress, not_stdin}
use magiskboot_go.Compress.Run.{buffered}
use magiskboot_go.Compress.Run.Replacing.{replacing}

-- The formats that a library codes are compressed.
pub library-compressed :
    (t : Format) (c : Codec) → new_encoder t ≡ ret (library c) → compressed t ≡ true
unfolding new_encoder compressed
library-compressed gzip c h = refl
library-compressed xz c h = refl
library-compressed lzma c h = refl
library-compressed bzip2 c h = refl
library-compressed lz4 c h = refl
library-compressed _ c h = cc

is_known : (t : Format) → compressed t ≡ true → (iota t == iota unknown) ≡ false
unfolding compressed iota
is_known t h = ground (arith, h)

pub compress_plan-replacing :
    (method infile : Bytes) (t : Format)
    → name2fmt method ≡ t
    → compressed t ≡ true
    → bytes_eq infile (codes "-") ≡ false
    → compress_plan method infile [] ≡ ret (replacing infile (infile ++ fmt2ext t) t)
unfolding compress_plan
compress_plan-replacing method infile t named known not_std =
    rw (named, is_known t known, not_std) refl

pub longer-≢ : (s e : Bytes) → is_empty e ≡ false → s ≢ s ++ e
longer-≢ s [] h = cc
longer-≢ s (c ∷ e) h = λ same. absurd (omega (arith, ap length same, length-append s (c ∷ e)))

pub buffered-magic :
    (m : Magic) (rest : Bytes)
    → check_fmt (buffered (take buffer_size (magic m ++ rest))) [] ≡ ret (format_of m)
buffered-magic m rest =
    let p = magic m in
    let first = take buffer_size (p ++ rest) in
    let zeros : Bytes = replicate (buffer_size - length first) 0 in
    let (q, e) = take-append_prefix buffer_size p rest (omega (arith, magic-le m)) in
    let e' : buffered first ≡ p ++ (q ++ zeros) =
      ap (λ (x : Bytes). x ++ zeros) e ∙ append_assoc p q zeros in
    ap (λ (x : Bytes). check_fmt x []) e'
    ∙ check_fmt-magic m (q ++ zeros) [] (
        omega (
          arith,
          ap length e',
          length-append first zeros,
          length-replicate {A = ℕ} (buffer_size - length first) 0,
          length-append (p ++ (q ++ zeros)) [],
        ))

magic_cons : (m : Magic) → (c : ℕ) × (s : Bytes) × (magic m ≡ c ∷ s)
magic_cons chromeos_magic = (_, _, refl)
magic_cons _ = (_, _, refl)

pub first_cons :
    (m : Magic) (rest : Bytes)
    → (c : ℕ) × (r : Bytes) × (take buffer_size (magic m ++ rest) ≡ c ∷ r)
first_cons m rest =
    let (c, s, e) = magic_cons m in
    let (q, f) = take-append_prefix buffer_size (magic m) rest (omega (arith, magic-le m)) in
    (c, s ++ q, f ∙ ap (λ (x : Bytes). x ++ q) e)

-- The plan of `Decompress` on a file that `Compress` made.
pub decompress_plan-replacing :
    (infile : Bytes) (t : Format) (buf : Bytes)
    → compressed t ≡ true
    → bytes_eq infile (codes "-") ≡ false
    → trim_right (in_set (fmt2ext t)) infile ≡ infile
    → check_fmt buf [] ≡ ret t
    → decompress_plan buf (infile ++ fmt2ext t) [] ≡ ret (replacing (infile ++ fmt2ext t) infile t)
unfolding decompress_plan stream
decompress_plan-replacing infile t buf known not_std trimmed found =
    rw
      (
        found,
        known,
        decompress_target-compress infile t known,
        not_stdin infile t known,
        trimmed,
        not_std,
      )
      refl
