-- ===== src/Cpio/Path.antt =====
-- `norm_path`: Go's `path.Clean` without the leading slashes.
pub mod Safe
use mathlib.Core.List.{reverse}
use magiskboot_go.Base.{ℕ, Bool, true, false, ◌||◌, List, [], ◌∷◌, ◌≡◌, refl, Bytes, codes}
use magiskboot_go.Base.{bytes_eq, split, join, trim_left, ◌==◌, if◌then◌else◌}

abbrev pub slash : ℕ
slash = b'/'

-- One component of a path, on the stack of those kept so far: `..` takes the last one off, and
-- stays only where there is none to take in a path that is not rooted.
unfoldable pub clean_step : Bool → List Bytes → Bytes → List Bytes
unfolding bytes_eq
clean_step rooted stack part =
    if bytes_eq part [] || bytes_eq part (codes ".")
    then stack
    else if bytes_eq part (codes "..")
    then (elim stack [
      | [] ↦ if rooted then [] else codes ".." ∷ []
      | top ∷ rest ↦ if bytes_eq top (codes "..") then codes ".." ∷ top ∷ rest else rest
    ])
    else part ∷ stack

unfoldable pub clean_parts : Bool → List Bytes → List Bytes → List Bytes
unfolding clean_step
clean_parts rooted stack [] = reverse stack
clean_parts rooted stack (part ∷ parts) = clean_parts rooted (clean_step rooted stack part) parts

abbrev or_dot : Bytes → Bytes
or_dot [] = codes "."
or_dot (c ∷ s) = c ∷ s

-- `path.Clean`.
unfoldable pub clean : Bytes → Bytes
unfolding clean_parts split join
clean [] = codes "."
clean (c ∷ s) =
    if c == slash
    then slash ∷ join (clean_parts true [] (split (c ∷ s) slash)) slash
    else or_dot (join (clean_parts false [] (split (c ∷ s) slash)) slash)

unfoldable pub norm_path : Bytes → Bytes
unfolding clean trim_left
norm_path p = trim_left (λ c. c == slash) (clean p)

norm_path_dots : norm_path (codes "/a/./b/../c//") ≡ codes "a/c"
unfolding norm_path
norm_path_dots = refl
