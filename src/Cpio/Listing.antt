-- ===== src/Cpio/Listing.antt =====
-- `Ls`: which entries are listed, and the mode column of a line.
pub mod Text
pub mod Children
use magiskboot_go.Base.{ℕ, ◌+◌, Bool, true, false, ◌&&◌, not, List, [], ◌∷◌, ◌≡◌, refl}
use magiskboot_go.Base.{Bytes, codes, has_prefix, length, drop, bit_and, ltb, ◌==◌, if◌then◌else◌}
use magiskboot_go.Cpio.{Cpio, s_ifblk, s_ifchr, s_ifdir, s_iflnk, s_ifmt, s_ifreg}
use magiskboot_go.Cpio.Path.{norm_path, slash}

-- `strings.Count(p, "/")`.
unfoldable pub count_slashes : Bytes → ℕ
count_slashes [] = 0
count_slashes (c ∷ s) = (if c == slash then 1 else 0) + count_slashes s

abbrev is_empty : Bytes → Bool
is_empty [] = true
is_empty (c ∷ s) = false

-- What the loop asks of the rest of a name behind the listed path.
unfoldable pub passes : Bytes → Bool → Bool
unfolding count_slashes has_prefix
passes p recursive =
    if not (is_empty p) && not (has_prefix p (codes "/"))
    then false
    else if not recursive && (not (is_empty p) && ltb 1 (count_slashes p))
    then false
    else true

unfoldable pub is_listed : Bytes → Bool → Bytes → Bool
unfolding passes has_prefix
is_listed path recursive name =
    let p = slash ∷ name in
    if has_prefix p path then passes (drop (length path) p) recursive else false

-- The path of the call, with its slash.
unfoldable pub listed_path : Bytes → Bytes
unfolding norm_path
listed_path path = let p = norm_path path in if is_empty p then p else slash ∷ p

unfoldable pub list_names : Bytes → Bool → List Bytes → List Bytes
unfolding is_listed
list_names path recursive [] = []
list_names path recursive (name ∷ names) =
    let rest = list_names path recursive names in
    if is_listed path recursive name then name ∷ rest else rest

-- `c.Ls(path, recursive)`: the names that are printed, in their order.
unfoldable pub ls : Cpio → Bytes → Bool → List Bytes
unfolding list_names listed_path
ls c path recursive = list_names (listed_path path) recursive c.keys

-- The permission bits.
abbrev pub s_irusr : ℕ
s_irusr = 0o400

abbrev pub s_iwusr : ℕ
s_iwusr = 0o200

abbrev pub s_ixusr : ℕ
s_ixusr = 0o100

abbrev pub s_irgrp : ℕ
s_irgrp = 0o040

abbrev pub s_iwgrp : ℕ
s_iwgrp = 0o020

abbrev pub s_ixgrp : ℕ
s_ixgrp = 0o010

abbrev pub s_iroth : ℕ
s_iroth = 0o004

abbrev pub s_iwoth : ℕ
s_iwoth = 0o002

abbrev pub s_ixoth : ℕ
s_ixoth = 0o001

unfoldable pub type_letter : ℕ → ℕ
type_letter type =
    if type == s_ifdir
    then b'd'
    else if type == s_ifreg
    then b'-'
    else if type == s_iflnk
    then b'l'
    else if type == s_ifblk
    then b'b'
    else if type == s_ifchr
    then b'c'
    else b'?'

abbrev bit_letter : ℕ → ℕ → ℕ → ℕ
bit_letter mode bit letter = if bit_and mode bit == 0 then b'-' else letter

-- The ten letters of a mode, as `Format` writes them.
unfoldable pub mode_letters : ℕ → Bytes
unfolding type_letter
mode_letters mode =
    type_letter (bit_and mode s_ifmt)
    ∷ bit_letter mode s_irusr b'r'
    ∷ bit_letter mode s_iwusr b'w'
    ∷ bit_letter mode s_ixusr b'x'
    ∷ bit_letter mode s_irgrp b'r'
    ∷ bit_letter mode s_iwgrp b'w'
    ∷ bit_letter mode s_ixgrp b'x'
    ∷ bit_letter mode s_iroth b'r'
    ∷ bit_letter mode s_iwoth b'w'
    ∷ bit_letter mode s_ixoth b'x'
    ∷ []

directory_letters : mode_letters 0o040755 ≡ codes "drwxr-xr-x"
unfolding mode_letters
directory_letters = refl
