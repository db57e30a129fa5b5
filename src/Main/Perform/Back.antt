-- ===== src/Main/Perform/Back.antt =====
-- A file that one run of the program compresses and another decompresses.
use magiskboot_go.Base.{◌≡◌, ◌≢◌, refl, ap, ◌∙◌, false, List, [], ◌∷◌, ◌++◌, Option, none, some}
use magiskboot_go.Base.{Bytes, codes, bytes_eq, in_set, trim_right, ret}
use magiskboot_go.Format.{Format, fmt2ext, fmt2name}
use magiskboot_go.Format.Names.{name2fmt-fmt2name}
use magiskboot_go.Compress.Codec.{Codec, library, new_encoder}
use magiskboot_go.Compress.Stream.Laws.{IsCodec}
use magiskboot_go.Compress.Run.Replacing.{IsFileSystem}
use magiskboot_go.Compress.Run.Plans.{library-compressed}
use magiskboot_go.Compress.Run.Back.{Begins, decompress_file-compress_file}
use magiskboot_go.Main.{Action, main, decompress}
use magiskboot_go.Main.Laws.{main-compress}
use magiskboot_go.Main.Perform.{Machine, system_of, perform, run}

main-decompress :
    (program infile : Bytes)
    → main (program ∷ codes "decompress" ∷ infile ∷ []) ≡ decompress infile []
unfolding main
main-decompress program infile = refl

run-main :
    (m : Machine) (fs : m.world.host.Fs) (args : List Bytes) (a : Action)
    → main args ≡ a
    → run m fs args ≡ perform m fs a
unfolding run
run-main m fs args a e = ap (λ x. perform m fs x) e

-- A run that compresses a file in a format that a library codes, and a run that decompresses its
-- output, neither given the name of an output: both return, and the file holds what it did, the
-- output of the first run is gone, and every other file is as it was. This is where the library
-- keeps what it promises of its codec, and begins what it writes with a magic of the format; where
-- the file's name is not `-`, and does not end in a byte of the format's extension; and on a file
-- system as described.
pub run-run :
    (m : Machine) (holds : m.world.host.Fs → Bytes → Option Bytes) (t : Format) (c : Codec)
    (program infile b : Bytes) (fs : m.world.host.Fs)
    → IsFileSystem (system_of m) holds
    → new_encoder t ≡ ret (library c)
    → IsCodec m.streams c
    → Begins m.streams c t
    → bytes_eq infile (codes "-") ≡ false
    → trim_right (in_set (fmt2ext t)) infile ≡ infile
    → holds fs infile ≡ some b
    → (fs' fs'' : m.world.host.Fs) × (run m fs
          (program ∷ (codes "--compress=" ++ fmt2name t) ∷ infile ∷ [])
        ≡ ret fs')
      × (run m fs' (program ∷ codes "decompress" ∷ (infile ++ fmt2ext t) ∷ []) ≡ ret fs'')
      × (holds fs'' infile ≡ some b)
      × (holds fs'' (infile ++ fmt2ext t) ≡ none)
      × ((other : Bytes)
          → other ≢ infile
          → other ≢ infile ++ fmt2ext t
          → holds fs'' other ≡ holds fs other)
unfolding perform
run-run m holds t c program infile b fs laws coder codec begins not_std trimmed there =
    let known = library-compressed t c coder in
    let (fs', fs'', there_run, back_run, held, gone, others) =
      decompress_file-compress_file m.streams (system_of m) holds t c (fmt2name t) infile b fs laws
        (name2fmt-fmt2name t known) coder codec begins not_std trimmed there in
    (
      fs',
      fs'',
      run-main m fs _ _ (main-compress program infile [] t known) ∙ there_run,
      run-main m fs' _ _ (main-decompress program (infile ++ fmt2ext t)) ∙ back_run,
      held,
      gone,
      others,
    )
