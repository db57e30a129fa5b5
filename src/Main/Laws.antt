-- ===== src/Main/Laws.antt =====
-- What the usage text promises of compression.
use magiskboot_go.Base.{◌≡◌, refl, List, ◌∷◌, ◌++◌, Bytes, codes, true, arith}
use magiskboot_go.Format.{Format, zopfli, compressed, fmt2name}
use magiskboot_go.Main.{main, compress, first_or_empty}

-- `compress=NAME` with the name of a supported compression format asks for the compression in that
-- format, whatever dashes stand in front of it.
pub main-compress :
    (program infile : Bytes) (args : List Bytes) (f : Format)
    → compressed f ≡ true
    → main (program ∷ (codes "--compress=" ++ fmt2name f) ∷ infile ∷ args)
      ≡ compress (fmt2name f) infile (first_or_empty args)
unfolding main fmt2name compressed
main-compress program infile args zopfli h = refl
main-compress program infile args _ h = ground arith
