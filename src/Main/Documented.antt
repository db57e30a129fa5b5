-- ===== src/Main/Documented.antt =====
-- The actions that the usage text lists, against those that `Main` takes.
pub mod Dispatch
use magiskboot_go.Base.{Bool, true, false, not, ◌&&◌, ◌||◌, List, [], ◌∷◌, ◌++◌, ◌≡◌, refl}
use magiskboot_go.Base.{Bytes, codes, bytes_eq, has_prefix, trim_left, drop, ◌==◌, if◌then◌else◌}
use magiskboot_go.Main.{
  Action, usage, not_implemented, cleanup, sha1, split, decompress, compress, hexpatch, cpio,
  extract, cleanup_files, vnd_ramdisk_dir,
}
use magiskboot_go.Main.Usage.{action_lines, decompress_lines}

-- A line that names an action is indented by two spaces.
abbrev names_action : Bytes → Bool
names_action (a ∷ b ∷ c ∷ s) = (a == b' ') && ((b == b' ') && not (c == b' '))
names_action _ = false

-- A line up to a space or a bracket.
abbrev word : Bytes → Bytes
word [] = []
word (c ∷ s) = let rest = word s in if (c == b' ') || (c == b'[') then [] else c ∷ rest

abbrev actions_of : List Bytes → List Bytes
actions_of [] = []
actions_of (line ∷ lines) =
    let rest = actions_of lines in
    if names_action line then word (trim_left (λ c. c == b' ') line) ∷ rest else rest

-- The actions of the usage text.
unfoldable pub documented : List Bytes
unfolding trim_left
documented = actions_of (action_lines ++ decompress_lines)

pub listed_actions :
    documented
    ≡ codes "unpack"
      ∷ codes "repack"
      ∷ codes "verify"
      ∷ codes "sign"
      ∷ codes "extract"
      ∷ codes "hexpatch"
      ∷ codes "cpio"
      ∷ codes "dtb"
      ∷ codes "split"
      ∷ codes "sha1"
      ∷ codes "cleanup"
      ∷ codes "compress"
      ∷ codes "decompress"
      ∷ []
unfolding documented
listed_actions = refl

-- What the text describes: for each action what is done with its arguments, where there are too few
-- of them the usage text. `unpack`, `repack`, `verify`, `sign` and `dtb` are not there yet.
abbrev pub missing : List Bytes → Action
missing [] = usage
missing (a ∷ args) = not_implemented

abbrev pub signs : List Bytes → Action
signs [] = usage
signs (a ∷ x ∷ y ∷ []) = usage
signs _ = not_implemented

abbrev pub extracts : List Bytes → Action
extracts [] = usage
extracts (a ∷ []) = extract a [] []
extracts (a ∷ partition ∷ []) = extract a partition []
extracts (a ∷ partition ∷ outfile ∷ args) = extract a partition outfile

abbrev pub hexpatches : List Bytes → Action
hexpatches (file ∷ from ∷ to ∷ args) = hexpatch file from to
hexpatches _ = usage

abbrev pub cpios : List Bytes → Action
cpios [] = usage
cpios (incpio ∷ commands) = cpio (incpio ∷ commands)

abbrev pub splits : List Bytes → Action
splits [] = usage
splits (a ∷ []) = if bytes_eq a (codes "-n") then usage else split a false
splits (a ∷ file ∷ args) = if bytes_eq a (codes "-n") then split file true else split a false

abbrev pub sums : List Bytes → Action
sums [] = usage
sums (file ∷ args) = sha1 file

abbrev pub cleans : List Bytes → Action
cleans args = cleanup cleanup_files vnd_ramdisk_dir

abbrev pub compresses : Bytes → List Bytes → Action
compresses method [] = usage
compresses method (infile ∷ []) = compress method infile []
compresses method (infile ∷ outfile ∷ args) = compress method infile outfile

abbrev pub decompresses : List Bytes → Action
decompresses [] = usage
decompresses (infile ∷ []) = decompress infile []
decompresses (infile ∷ outfile ∷ args) = decompress infile outfile

-- In the order of the text.
abbrev pub handlers : List (Bytes × (List Bytes → Action))
handlers =
    (codes "unpack", missing)
    ∷ (codes "repack", missing)
    ∷ (codes "verify", missing)
    ∷ (codes "sign", signs)
    ∷ (codes "extract", extracts)
    ∷ (codes "hexpatch", hexpatches)
    ∷ (codes "cpio", cpios)
    ∷ (codes "dtb", missing)
    ∷ (codes "split", splits)
    ∷ (codes "sha1", sums)
    ∷ (codes "cleanup", cleans)
    ∷ (codes "compress", compresses (codes "gzip"))
    ∷ (codes "decompress", decompresses)
    ∷ []

abbrev pub words : List (Bytes × (List Bytes → Action)) → List Bytes
words [] = []
words (h ∷ hs) = h.0 ∷ words hs

-- The method that stands behind `compress`: what follows an equals sign, else gzip.
abbrev pub method_of : Bytes → Bytes
method_of [] = codes "gzip"
method_of (c ∷ s) = if c == b'=' then s else codes "gzip"

-- A word that is no action of the text: a compression, where it begins as one, or the usage text.
abbrev pub undescribed : Bytes → List Bytes → Action
undescribed w args =
    if has_prefix w (codes "compress") then compresses (method_of (drop 8 w)) args else usage

-- What is done for a word: what the list says of it.
unfoldable pub described : List (Bytes × (List Bytes → Action)) → Bytes → List Bytes → Action
unfolding bytes_eq has_prefix
described [] w args = undescribed w args
described (h ∷ hs) w args =
    let rest = described hs w args in if bytes_eq h.0 w then h.1 args else rest
