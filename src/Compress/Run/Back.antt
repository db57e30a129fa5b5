-- ===== src/Compress/Run/Back.antt =====
-- A file that is compressed and decompressed again.
use magiskboot_go.Base.{◌≡◌, ◌≢◌, sym, ap, ◌∙◌, true, false, [], ◌∷◌, ◌++◌, Option, none, some}
use magiskboot_go.Base.{Bytes, codes, bytes_eq, in_set, trim_right, ret}
use magiskboot_go.Format.{Format, Magic, magic, compressed, check_fmt, fmt2ext, name2fmt}
use magiskboot_go.Format.Detect.{format_of}
use magiskboot_go.Compress.Codec.{Codec, library, new_encoder}
use magiskboot_go.Compress.Plan.{file, stream}
use magiskboot_go.Compress.Plan.Laws.{not_stdin, fmt2ext-find_ext}
use magiskboot_go.Compress.Stream.{Streams, compress_content, decompress_content}
use magiskboot_go.Compress.Stream.Laws.{IsCodec, compress_content-close}
use magiskboot_go.Compress.Run.{FileSystem, is_open, compress_file, buffered, decompress_file}
use magiskboot_go.Compress.Run.Replacing.{Replaces, IsFileSystem, convert-Replaces}
use magiskboot_go.Compress.Run.Plans.{
  library-compressed, compress_plan-replacing, longer-≢, buffered-magic, first_cons,
  decompress_plan-replacing,
}

-- What a library promises of what it writes in a format: it begins with a magic of the format.
pub record Begins (streams : Streams) (c : Codec) (t : Format) : Type 0 where
  pub sign : Magic
  pub stands_for : format_of sign ≡ t
  pub begins : (w : streams.Writer c) → (rest : Bytes) × (streams.close w ≡ magic sign ++ rest)

module _ (streams : Streams) (system : FileSystem) (holds : system.Fs → Bytes → Option Bytes)
    (laws : IsFileSystem system holds) where
  compress_file-Replaces :
      (t : Format) (c : Codec) (method infile b : Bytes) (fs : system.Fs)
      → name2fmt method ≡ t
      → new_encoder t ≡ ret (library c)
      → IsCodec streams c
      → bytes_eq infile (codes "-") ≡ false
      → holds fs infile ≡ some b
      → (w : streams.Writer c) × (fs' : system.Fs) × (compress_file streams system fs method infile
            []
          ≡ ret fs')
        × Replaces system holds fs fs' infile (infile ++ fmt2ext t) (streams.close w)
        × (decompress_content streams t (streams.close w) ≡ ret b)
  unfolding compress_file is_open
  compress_file-Replaces t c method infile b fs named coder codec not_std there =
      let known = library-compressed t c coder in
      let outfile = infile ++ fmt2ext t in
      let (w, coded, decoded) = compress_content-close streams t c b coder codec in
      let (fs', run, replaced) =
        convert-Replaces system holds laws streams fs t infile outfile b (streams.close w)
          (λ made. compress_content streams t (system.content made (file infile)))
          (longer-≢ infile (fmt2ext t) (fmt2ext-find_ext t known).1) there
          (λ made h. rw (laws.content made infile b h) coded) in
      (
        w,
        fs',
        rw
            (
              compress_file,
              compress_plan-replacing method infile t named known not_std,
              laws.opens fs infile b there,
            )
            run,
        replaced,
        decoded,
      )

  decompress_file-Replaces :
      (t : Format) (infile b : Bytes) (m : Magic) (rest : Bytes) (fs : system.Fs)
      → compressed t ≡ true
      → format_of m ≡ t
      → decompress_content streams t (magic m ++ rest) ≡ ret b
      → bytes_eq infile (codes "-") ≡ false
      → trim_right (in_set (fmt2ext t)) infile ≡ infile
      → holds fs (infile ++ fmt2ext t) ≡ some (magic m ++ rest)
      → (fs' : system.Fs) × (decompress_file streams system fs (infile ++ fmt2ext t) [] ≡ ret fs')
        × Replaces system holds fs fs' (infile ++ fmt2ext t) infile b
  unfolding decompress_file is_open stream
  decompress_file-Replaces t infile b m rest fs known stands decoded not_std trimmed there =
      let outfile = infile ++ fmt2ext t in
      let (c, r, first) = first_cons m rest in
      let found : check_fmt (buffered (c ∷ r)) [] ≡ ret t =
        ap (λ (x : Bytes). check_fmt (buffered x) []) (sym first)
        ∙ (buffered-magic m rest ∙ ap ret stands) in
      let (fs', run, replaced) =
        convert-Replaces system holds laws streams fs t outfile infile (magic m ++ rest) b
          (λ made. decompress_content streams t (system.reread made (file outfile)))
          (λ e. longer-≢ infile (fmt2ext t) (fmt2ext-find_ext t known).1 (sym e)) there
          (λ made h. rw (laws.reread made outfile (magic m ++ rest) h) decoded) in
      (
        fs',
        rw
            (
              decompress_file,
              not_stdin infile t known,
              laws.opens fs outfile (magic m ++ rest) there,
              laws.first_read fs outfile (magic m ++ rest) there ∙ first,
              decompress_plan-replacing infile t (buffered (c ∷ r)) known not_std trimmed found,
            )
            run,
        replaced,
      )

-- A file that is compressed in a format that a library codes, and whose output is decompressed, no
-- names of outputs being given: both calls return, and the file holds what it did, its output is
-- gone, and every other file is as it was. This is where the library keeps what it promises of its
-- codec, and begins what it writes with a magic of the format; where the file's name is not `-`,
-- and does not end in a byte of the format's extension; and on a file system as described.
pub decompress_file-compress_file :
    (streams : Streams) (system : FileSystem) (holds : system.Fs → Bytes → Option Bytes)
    (t : Format) (c : Codec) (method infile b : Bytes) (fs : system.Fs)
    → IsFileSystem system holds
    → name2fmt method ≡ t
    → new_encoder t ≡ ret (library c)
    → IsCodec streams c
    → Begins streams c t
    → bytes_eq infile (codes "-") ≡ false
    → trim_right (in_set (fmt2ext t)) infile ≡ infile
    → holds fs infile ≡ some b
    → (fs' fs'' : system.Fs) × (compress_file streams system fs method infile [] ≡ ret fs')
      × (decompress_file streams system fs' (infile ++ fmt2ext t) [] ≡ ret fs'')
      × (holds fs'' infile ≡ some b)
      × (holds fs'' (infile ++ fmt2ext t) ≡ none)
      × ((other : Bytes)
          → other ≢ infile
          → other ≢ infile ++ fmt2ext t
          → holds fs'' other ≡ holds fs other)
decompress_file-compress_file streams system holds t c method infile b fs laws named coder codec
      begins not_std trimmed there =
    let outfile = infile ++ fmt2ext t in
    let (w, fs', compressed_to, left, decoded) =
      compress_file-Replaces streams system holds laws t c method infile b fs named coder codec
        not_std there in
    let (rest, e) = begins.begins w in
    let (fs'', decompressed_to, back) =
      decompress_file-Replaces streams system holds laws t infile b begins.sign rest fs'
        (library-compressed t c coder) begins.stands_for
        (ap (λ z. decompress_content streams t z) (sym e) ∙ decoded) not_std trimmed
        (left.holds_output ∙ ap some e) in
    (
      fs',
      fs'',
      compressed_to,
      decompressed_to,
      back.holds_output,
      back.no_input,
      λ other not_in not_out. back.others other not_out not_in ∙ left.others other not_in not_out,
    )
