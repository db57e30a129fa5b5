-- ===== src/Cpio/Files.antt =====
-- `Add`, `extractEntry` and `Extract`, over the host's file system.
use magiskboot_go.Base.{ℕ, Bool, true, false, ◌||◌, not, List, [], ◌∷◌, Option, none, some}
use magiskboot_go.Base.{
  Bytes, codes, bytes_eq, has_suffix, contains, keep, trim_right, bit_and, bit_or,
}
use magiskboot_go.Base.{Outcome, ret, fatal, ◌>>=◌, ◌==◌, if◌then◌else◌, u32_mod, ◌%◌}
use magiskboot_go.Cpio.{
  Cpio, CpioEntry, entry_at, s_ifblk, s_ifchr, s_ifdir, s_iflnk, s_ifmt, s_ifreg,
}
use magiskboot_go.Cpio.Path.{norm_path, clean, slash}
use magiskboot_go.Cpio.Edit.{add_entry}

-- The bits of a file's mode that the program tests.
pub record FileInfo : Type 0 where
  pub is_regular : Bool
  pub is_symlink : Bool
  pub is_device : Bool
  pub is_char_device : Bool

-- The calls of the operating system. A pair's second part says whether there was an error.
pub record Host : Type 1 where
  pub Fs : Type 0
  pub windows : Bool
  pub stat : Fs → Bytes → Option FileInfo
  pub is_missing : Fs → Bytes → Bool
  pub read_file : Fs → Bytes → Option Bytes
  pub rdev : Fs → Bytes → Option ℕ
  pub major : ℕ → ℕ
  pub minor : ℕ → ℕ
  pub mkdev : ℕ → ℕ → ℕ
  pub mkdir_all : Fs → Bytes → ℕ → Fs
  pub mkdir : Fs → Bytes → ℕ → Fs × Bool
  pub create : Fs → Bytes → Fs × Bool
  pub write : Fs → Bytes → Bytes → Fs × Bool
  pub symlink : Fs → Bytes → Bytes → Fs × Bool
  pub mknod : Fs → Bytes → ℕ → ℕ → Fs × Bool

-- How `Add` ends, where it returns.
pub data Added : Type 0 where
  added : Cpio → Added
  ends_in_slash not_found : Added

module _ (host : Host) where
  open host use {Fs}

  -- The mode, the device number and the content that the added entry gets.
  abbrev pub Source : Type 0
  Source = record { mode : ℕ; major : ℕ; minor : ℕ; content : Bytes }

  unfoldable pub device_source : Fs → FileInfo → Bytes → ℕ → Outcome Source
  device_source fs attr file mode =
      if host.windows
      then ret (record { mode = mode; major = 0; minor = 0; content = [] })
      else (elim (host.rdev fs file) [
        | none ↦ fatal
        | some dev ↦
            if attr.is_device
            then ret (record {
              mode = bit_or mode s_ifblk;
              major = host.major dev;
              minor = host.minor dev;
              content = [];
            })
            else if attr.is_char_device
            then ret (record {
              mode = bit_or mode s_ifchr;
              major = host.major dev;
              minor = host.minor dev;
              content = [];
            })
            else fatal
      ])

  unfoldable pub read_source : Fs → FileInfo → Bytes → ℕ → Outcome Source
  unfolding device_source
  read_source fs attr file mode =
      if attr.is_regular || attr.is_symlink
      then (elim (host.read_file fs file) [
        | none ↦ fatal
        | some content ↦
            ret (record { mode = bit_or mode s_ifreg; major = 0; minor = 0; content = content })
      ])
      else device_source fs attr file mode

  -- `c.Add(mode, path, file)`.
  unfoldable pub add : Fs → Cpio → ℕ → Bytes → Bytes → Outcome Added
  unfolding read_source has_suffix add_entry norm_path
  add fs c mode path file =
      if has_suffix path (codes "/") then ret ends_in_slash else (elim (host.stat fs file) [
        | none ↦ ret not_found
        | some attr ↦ read_source fs attr file mode >>= λ s. ret (
            added (
              add_entry c (norm_path path) (record {
                mode = s.mode;
                uid = 0;
                gid = 0;
                rdev_major = s.major % u32_mod;
                rdev_minor = s.minor % u32_mod;
                content = s.content;
              })))
      ])

  -- `path.Dir`.
  unfoldable pub dir : Bytes → Bytes
  unfolding clean trim_right
  dir p = clean (trim_right (λ c. not (c == slash)) p)

  -- The file that a regular entry becomes.
  unfoldable pub extract_regular : Fs → Bytes → Bytes → Fs × Bool
  extract_regular fs out content =
      let made = host.create fs out in if made.1 then made else host.write made.0 out content

  -- The `switch` over the type of the entry.
  unfoldable pub extract_by_type : Fs → CpioEntry → Bytes → Fs × Bool
  unfolding extract_regular
  extract_by_type fs e out =
      let mode = bit_and e.mode 0o777 in
      let type = bit_and e.mode s_ifmt in
      if type == s_ifdir
      then host.mkdir fs out mode
      else if type == s_ifreg
      then extract_regular fs out e.content
      else if type == s_iflnk
      then host.symlink fs (keep (λ c. not (c == 0)) e.content) out
      else if type == bit_or s_ifblk s_ifchr
      then (if host.windows
          then (fs, false)
          else host.mknod fs out mode (host.mkdev e.rdev_major e.rdev_minor))
      else (fs, true)

  -- `c.extractEntry(p, out)`.
  unfoldable pub extract_entry : Fs → Cpio → Bytes → Bytes → Outcome (Fs × Bool)
  unfolding extract_by_type dir contains entry_at
  extract_entry fs c p out =
      if contains c.keys p
      then ret (
          extract_by_type
            (if host.is_missing fs (dir p) then host.mkdir_all fs (dir p) 0o755 else fs)
            (entry_at c p) out)
      else fatal

  -- The loop over all entries, up to the first that fails.
  unfoldable pub extract_all : Fs → Cpio → List Bytes → Outcome (Fs × Bool)
  unfolding extract_entry
  extract_all fs c [] = ret (fs, false)
  extract_all fs c (name ∷ names) =
      if bytes_eq name (codes ".") || bytes_eq name (codes "..")
      then extract_all fs c names
      else (extract_entry fs c name name >>= λ r. if r.1 then ret r else extract_all r.0 c names)

  -- `c.Extract(p, out)`.
  unfoldable pub extract : Fs → Cpio → Option Bytes → Option Bytes → Outcome (Fs × Bool)
  unfolding extract_entry extract_all norm_path
  extract fs c none out = extract_all fs c c.keys
  extract fs c (some p) none = extract_all fs c c.keys
  extract fs c (some p) (some out) = extract_entry fs c (norm_path p) out
