-- ===== src/Patch/Fstab.antt =====
-- `patchFstab`: flags of an fstab line that begin with one of the patterns are taken out.
pub mod Lines
use magiskboot_go.Base.{
  ℕ, zero, suc, Bool, true, false, ◌&&◌, ◌||◌, List, [], ◌∷◌, ◌++◌, Option, none, some,
}
use magiskboot_go.Base.{
  Bytes, codes, length, take, drop, keep, not, ◌≡◌, refl, get_elem?, split, join, has_prefix,
}
use magiskboot_go.Base.{Outcome, ret, panic, ◌>>=◌, leb, ltb, ◌==◌, if◌then◌else◌}

abbrev pub verity_patterns : List Bytes
verity_patterns =
    codes "verifyatboot"
    ∷ codes "verify"
    ∷ codes "avb_keys"
    ∷ codes "avb"
    ∷ codes "support_scfs"
    ∷ codes "fsverity"
    ∷ []

abbrev pub encryption_patterns : List Bytes
encryption_patterns = codes "forceencrypt" ∷ codes "forcefdeorfbe" ∷ codes "fileencryption" ∷ []

abbrev between : ℕ → ℕ → ℕ → Bool
between lo hi c = leb lo c && leb c hi

-- The bytes of a space at the front of a text, or 0: the ASCII spaces, and in UTF-8 U+0085, U+00A0,
-- U+1680, U+2000 to U+200A, U+2028, U+2029, U+202F, U+205F and U+3000.
unfoldable pub space_width : Bytes → ℕ
space_width [] = 0
space_width (c ∷ []) = if between 9 13 c || c == 32 then 1 else 0
space_width (c ∷ d ∷ []) =
    if between 9 13 c || c == 32 then 1 else if c == 0xc2 && (d == 0x85 || d == 0xa0) then 2 else 0
space_width (c ∷ d ∷ e ∷ _) =
    if between 9 13 c || c == 32
    then 1
    else if c == 0xc2 && (d == 0x85 || d == 0xa0)
    then 2
    else if (c == 0xe1 && d == 0x9a && e == 0x80)
        || (c == 0xe2 && d == 0x80 && (between 0x80 0x8a e || e == 0xa8 || e == 0xa9 || e == 0xaf))
        || (c == 0xe2 && d == 0x81 && e == 0x9f)
        || (c == 0xe3 && d == 0x80 && e == 0x80)
    then 3
    else 0

abbrev pub flush : Bytes → List Bytes → List Bytes
flush [] rest = rest
flush (c ∷ s) rest = (c ∷ s) ∷ rest

-- `bytes.Fields`, with the bytes of a space that are still to be passed over and the field so far.
unfoldable pub fields_onto : ℕ → Bytes → Bytes → List Bytes
unfolding space_width
fields_onto skip cur [] = flush cur []
fields_onto (suc skip) cur (c ∷ s) = fields_onto skip cur s
fields_onto zero cur (c ∷ s) = elim (space_width (c ∷ s)) [
  | zero ↦ fields_onto zero (cur ++ c ∷ []) s
  | suc w ↦ flush cur (fields_onto w [] s)
]

unfoldable pub fields : Bytes → List Bytes
unfolding fields_onto
fields s = fields_onto 0 [] s

-- Whether a flag begins with one of the patterns.
unfoldable pub is_removed : List Bytes → Bytes → Bool
unfolding has_prefix
is_removed [] flag = false
is_removed (p ∷ ps) flag = let rest = is_removed ps flag in if has_prefix flag p then true else rest

-- A line that is kept without a look at its fields: an empty line or a comment.
unfoldable pub is_skipped : Bytes → Bool
is_skipped [] = true
is_skipped (c ∷ s) = c == b'#'

-- The line that is built from the fields, at least four of them; the flags are `fields[4]`.
unfoldable pub rebuild : List Bytes → List Bytes → Outcome Bytes
rebuild patterns fs = elim (get_elem? fs 4) [
  | none ↦ panic
  | some flag_field ↦
      let new_flags = keep (λ flag. not (is_removed patterns flag)) (split flag_field b',') in
      let new_line = join (join (take 4 fs) b' ' ∷ join new_flags b',' ∷ []) b' ' in
      ret (if ltb 5 (length fs) then new_line ++ (b' ' ∷ join (drop 5 fs) b' ') else new_line)
]

-- One round of the loop over the lines.
unfoldable pub patch_line : List Bytes → Bytes → Outcome Bytes
patch_line patterns line =
    if is_skipped line
    then ret line
    else if ltb (length (fields line)) 4
    then ret line
    else rebuild patterns (fields line)

unfoldable pub patch_lines : List Bytes → List Bytes → Outcome (List Bytes)
patch_lines patterns [] = ret []
patch_lines patterns (line ∷ lines) = do
  new_line ← patch_line patterns line
  result ← patch_lines patterns lines
  ret (new_line ∷ result)

-- `patchFstab(fstabContent, patterns)`.
unfoldable pub patch_fstab : Bytes → List Bytes → Outcome Bytes
patch_fstab content patterns = do
  result ← patch_lines patterns (split content b'\n')
  ret (join result b'\n')

unfoldable pub patch_verity : Bytes → Outcome Bytes
unfolding patch_fstab patch_lines patch_line is_skipped fields rebuild is_removed split join
patch_verity content = patch_fstab content verity_patterns

unfoldable pub patch_encryption : Bytes → Outcome Bytes
unfolding patch_fstab patch_lines patch_line is_skipped fields rebuild is_removed split join
patch_encryption content = patch_fstab content encryption_patterns

sample :
    patch_verity (codes "#x avb\n/dev/a  /b ext4 ro wait,avb=v,check last\n")
    ≡ ret (codes "#x avb\n/dev/a /b ext4 ro wait,check last\n")
unfolding patch_verity
sample = refl
