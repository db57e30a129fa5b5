-- ===== src/Compress/Run.antt =====
-- `Compress` and `Decompress` of compress.go as a whole, on a file system.
pub mod Replacing
pub mod Plans
pub mod Back
use magiskboot_go.Base.{
  ℕ, ◌-◌, Bool, true, List, [], ◌∷◌, ◌++◌, Option, none, some, Bytes, length, replicate,
}
use magiskboot_go.Base.{Outcome, ret, fatal, ◌>>=◌, if◌then◌else◌}
use magiskboot_go.Compress.Copy.{buffer_size}
use magiskboot_go.Compress.Plan.{Stream, std, file, Plan, stream, compress_plan, decompress_plan}
use magiskboot_go.Compress.Stream.{Streams, compress_content, decompress_content}

-- The calls of the operating system. The input of a call is not its output.
pub record FileSystem : Type 1 where
  pub Fs : Type 0
  -- Whether `os.Open` gives a file.
  pub opens : Fs → Bytes → Bool
  -- What is read from a stream: in all; by the first call of `Read` with a buffer; and in all behind
  -- that call and a seek to the start.
  pub content : Fs → Stream → Bytes
  pub first_read : Fs → Stream → Bytes
  pub reread : Fs → Stream → Bytes
  -- `os.Create`, and the writes to a file or to the standard output, which succeed.
  pub create : Fs → Bytes → Option Fs
  pub write : Fs → Stream → Bytes → Fs
  -- `os.Remove`, whose error is not looked at.
  pub remove : Fs → Bytes → Fs

-- The buffer behind the first call of `Read`.
abbrev pub buffered : Bytes → Bytes
buffered first = first ++ replicate (buffer_size - length first) 0

module _ (streams : Streams) (system : FileSystem) where
  open system use {Fs}

  unfoldable pub is_open : Fs → Stream → Bool
  is_open fs std = true
  is_open fs (file name) = system.opens fs name

  -- The output, made where it is a file.
  unfoldable pub make : Fs → Stream → Option Fs
  make fs std = some fs
  make fs (file name) = system.create fs name

  -- Both calls once the input is open and the plan is made.
  unfoldable pub convert : Fs → Plan → Bytes → (Fs → Outcome Bytes) → Outcome Fs
  unfolding make
  convert fs plan infile coded = elim (make fs plan.output) [
    | none ↦ fatal
    | some made ↦ coded made >>= λ out.
        let written = system.write made plan.output out in
        ret (if plan.remove_input then system.remove written infile else written)
  ]

  -- `Compress(method, infile, outfile)`.
  unfoldable pub compress_file : Fs → Bytes → Bytes → Bytes → Outcome Fs
  unfolding compress_plan is_open convert compress_content
  compress_file fs method infile outfile = compress_plan method infile outfile >>= λ plan.
      if is_open fs plan.input
      then convert fs plan infile
          (λ made. compress_content streams plan.format (system.content made plan.input))
      else fatal

  -- `Decompress(infile, outfile)`. At the end of the input the first call of `Read` gives an error.
  unfoldable pub decompress_file : Fs → Bytes → Bytes → Outcome Fs
  unfolding decompress_plan is_open convert decompress_content stream
  decompress_file fs infile outfile =
      if is_open fs (stream infile)
      then (elim (system.first_read fs (stream infile)) [
        | [] ↦ fatal
        | c ∷ first ↦ decompress_plan (buffered (c ∷ first)) infile outfile >>= λ plan.
            convert fs plan infile
              (λ made. decompress_content streams plan.format (system.reread made plan.input))
      ])
      else fatal
