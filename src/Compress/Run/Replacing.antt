-- ===== src/Compress/Run/Replacing.antt =====
-- What a file system does, and the conversion of a file into another that replaces it.
use magiskboot_go.Base.{◌≡◌, ◌≢◌, refl, sym, ◌∙◌, true, [], ◌++◌, Option, none, some}
use magiskboot_go.Base.{Bytes, take, ret}
use magiskboot_go.Base.{Outcome}
use magiskboot_go.Format.{Format}
use magiskboot_go.Compress.Copy.{buffer_size}
use magiskboot_go.Compress.Plan.{file, Plan}
use magiskboot_go.Compress.Stream.{Streams}
use magiskboot_go.Compress.Run.{FileSystem, make, convert}

-- A file system: what each file holds, which of these are there to be opened, and what the calls
-- change.
pub record IsFileSystem (system : FileSystem) (holds : system.Fs → Bytes → Option Bytes)
    : Type 0 where
  pub opens :
      (fs : system.Fs) (name b : Bytes) → holds fs name ≡ some b → system.opens fs name ≡ true
  pub content :
      (fs : system.Fs) (name b : Bytes) → holds fs name ≡ some b → system.content fs (file name) ≡ b
  pub first_read :
      (fs : system.Fs) (name b : Bytes)
      → holds fs name ≡ some b
      → system.first_read fs (file name) ≡ take buffer_size b
  pub reread :
      (fs : system.Fs) (name b : Bytes) → holds fs name ≡ some b → system.reread fs (file name) ≡ b
  pub creates :
      (fs : system.Fs) (name : Bytes)
      → (made : system.Fs) × (system.create fs name ≡ some made)
        × (holds made name ≡ some [])
        × ((other : Bytes) → other ≢ name → holds made other ≡ holds fs other)
  pub writes :
      (fs : system.Fs) (name b c : Bytes)
      → holds fs name ≡ some b
      → holds (system.write fs (file name) c) name ≡ some (b ++ c)
  pub writes_there :
      (fs : system.Fs) (name c other : Bytes)
      → other ≢ name
      → holds (system.write fs (file name) c) other ≡ holds fs other
  pub removes : (fs : system.Fs) (name : Bytes) → holds (system.remove fs name) name ≡ none
  pub removes_there :
      (fs : system.Fs) (name other : Bytes)
      → other ≢ name
      → holds (system.remove fs name) other ≡ holds fs other

-- The plan of a call that is given no output.
abbrev pub replacing : Bytes → Bytes → Format → Plan
replacing infile outfile t = record {
  input = file infile;
  output = file outfile;
  format = t;
  remove_input = true;
}

module _ (system : FileSystem) (holds : system.Fs → Bytes → Option Bytes) where
  -- A file is replaced by another, and all others are as they were.
  pub record Replaces (fs fs' : system.Fs) (infile outfile out : Bytes) : Type 0 where
    pub holds_output : holds fs' outfile ≡ some out
    pub no_input : holds fs' infile ≡ none
    pub others :
        (other : Bytes) → other ≢ infile → other ≢ outfile → holds fs' other ≡ holds fs other

module _ (system : FileSystem) (holds : system.Fs → Bytes → Option Bytes)
    (laws : IsFileSystem system holds) where
  -- The conversion of a file into another, which replaces it.
  pub convert-Replaces :
      (streams : Streams) (fs : system.Fs) (t : Format) (infile outfile b out : Bytes)
      (coded : system.Fs → Outcome Bytes)
      → infile ≢ outfile
      → holds fs infile ≡ some b
      → ((made : system.Fs) → holds made infile ≡ some b → coded made ≡ ret out)
      → (fs' : system.Fs) × (convert streams system fs (replacing infile outfile t) infile coded
          ≡ ret fs')
        × Replaces system holds fs fs' infile outfile out
  unfolding convert make
  convert-Replaces streams fs t infile outfile b out coded differ there code =
      let (made, created, empty, kept) = laws.creates fs outfile in
      let written = system.write made (file outfile) out in
      (
        system.remove written infile,
        rw (convert, make, created, code made (kept infile differ ∙ there)) refl,
        record {
          holds_output =
              laws.removes_there written infile outfile (λ e. differ (sym e))
              ∙ laws.writes made outfile [] out empty;
          no_input = laws.removes written infile;
          others = λ other not_in not_out.
              laws.removes_there written infile other not_in
              ∙ (laws.writes_there made outfile out other not_out ∙ kept other not_out);
        },
      )
