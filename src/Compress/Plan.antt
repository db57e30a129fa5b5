-- ===== src/Compress/Plan.antt =====
-- `Compress` and `Decompress` of compress.go: where their input comes from, where their output goes,
-- and whether the input is removed.
pub mod Laws
use magiskboot_go.Base.{
  ℕ, Bool, true, false, not, Option, none, some, List, [], ◌∷◌, ◌++◌, ◌≡◌, refl,
}
use magiskboot_go.Base.{
  Bytes, codes, bytes_eq, in_set, trim_right, Outcome, ret, panic, exit, running, fatal, ◌>>=◌,
  ◌==◌, if◌then◌else◌,
}
use magiskboot_go.Format.{Format, iota, unknown, compressed, check_fmt, fmt2ext, name2fmt}

pub data Stream : Type 0 where
  std : Stream
  file : Bytes → Stream

pub record Plan : Type 0 where
  pub input : Stream
  pub output : Stream
  pub format : Format
  pub remove_input : Bool

-- `-` stands for the standard stream.
unfoldable pub stream : Bytes → Stream
unfolding bytes_eq
stream path = if bytes_eq path (codes "-") then std else file path

abbrev pub is_empty : Bytes → Bool
is_empty [] = true
is_empty (c ∷ s) = false

-- The tests of `Compress(method, infile, outfile)`; an unknown method ends the process.
unfoldable pub compress_plan : Bytes → Bytes → Bytes → Outcome Plan
unfolding stream bytes_eq name2fmt fmt2ext iota
compress_plan method infile outfile =
    let t = name2fmt method in
    if iota t == iota unknown
    then fatal
    else if is_empty outfile
    then (if bytes_eq infile (codes "-")
        then ret (record { input = std; output = std; format = t; remove_input = false })
        else ret (record {
          input = file infile;
          output = file (infile ++ fmt2ext t);
          format = t;
          remove_input = true;
        }))
    else ret (record {
      input = stream infile;
      output = stream outfile;
      format = t;
      remove_input = false;
    })

-- `filepath.Ext`: the text from the last dot on, in the last element of the path.
abbrev ext_step : ℕ → Bytes → Option Bytes → Option Bytes
ext_step c s (some e) = some e
ext_step c s none = if c == b'.' then some (c ∷ s) else none

abbrev pub has_slash : Bytes → Bool
has_slash s = in_set s b'/'

unfoldable pub find_ext : Bytes → Option Bytes
unfolding in_set
find_ext [] = none
find_ext (c ∷ s) = if has_slash s then find_ext s else ext_step c s (find_ext s)

unfoldable pub ext : Bytes → Bytes
unfolding find_ext
ext path = elim (find_ext path) [ none ↦ [] | some e ↦ e ]

-- The output's name and whether the input is removed, where none is given. The extension is taken
-- off by `strings.TrimRight`, which takes it for a set of bytes.
unfoldable pub decompress_target : Bytes → Format → Outcome (Bytes × Bool)
unfolding ext bytes_eq fmt2ext trim_right in_set
decompress_target infile t =
    if bytes_eq infile (codes "-")
    then ret (infile, false)
    else if is_empty (ext infile)
    then ret (infile, false)
    else if bytes_eq (ext infile) (fmt2ext t)
    then ret (trim_right (in_set (ext infile)) infile, true)
    else fatal

-- The tests of `Decompress(infile, outfile)` on the first bytes of the input, in a buffer of 4096.
unfoldable pub decompress_plan : Bytes → Bytes → Bytes → Outcome Plan
unfolding stream decompress_target compressed
decompress_plan buf infile outfile = check_fmt buf [] >>= λ t.
    if compressed t
    then (if is_empty outfile
        then (decompress_target infile t >>= λ o.
            ret (record {
              input = stream infile;
              output = stream o.0;
              format = t;
              remove_input = o.1;
            }))
        else ret (record {
          input = stream infile;
          output = stream outfile;
          format = t;
          remove_input = false;
        }))
    else fatal

last_dot : ext (codes "a.b/boot.tar.gz") ≡ codes ".gz"
unfolding ext
last_dot = refl

no_dot : ext (codes "a.b/boot") ≡ []
unfolding ext
no_dot = refl
