-- ===== src/Cpio/Edit.antt =====
-- The commands that change or query an archive in memory: `Rm`, `Exists`, `addEntry`, `Mkdir`, `Ln`
-- and `Mv`. What they print is left out.
pub mod Consistent
pub mod Removal
pub mod Undo
use magiskboot_go.Base.{ℕ, Bool, true, false, List, [], ◌∷◌, ◌++◌, Option, none, some, Bytes, codes}
use magiskboot_go.Base.{bytes_eq, has_prefix, contains, keep, not, bit_or, if◌then◌else◌}
use magiskboot_go.Base.Dict.{Dict, lookup, insert, erase}
use magiskboot_go.Base.Sort.{sort}
use magiskboot_go.Cpio.{Cpio, CpioEntry, entry_at, s_ifdir, s_iflnk}
use magiskboot_go.Cpio.Path.{norm_path}

-- `_, exist := d[k]`.
unfoldable pub has : Bytes → Dict CpioEntry → Bool
unfolding lookup
has k d = elim (lookup k d) [ none ↦ false | some e ↦ true ]

-- The first occurrence of a value is cut out.
unfoldable pub remove_by_value : List Bytes → Bytes → List Bytes
unfolding bytes_eq
remove_by_value [] k = []
remove_by_value (x ∷ xs) k =
    let rest = remove_by_value xs k in if bytes_eq x k then xs else x ∷ rest

unfoldable pub remove_entry : Cpio → Bytes → Cpio
unfolding remove_by_value erase
remove_entry c k = record { entries = erase k c.entries; keys = remove_by_value c.keys k }

-- The loop of a recursive removal, over the map's keys in the order in which they come.
unfoldable pub rm_under : Bytes → List Bytes → Cpio → Cpio
unfolding remove_entry has_prefix
rm_under prefix [] c = c
rm_under prefix (k ∷ ks) c =
    rm_under prefix ks (if has_prefix k prefix then remove_entry c k else c)

-- `range` is the order in which the runtime walks a map.
module _ (range : Dict CpioEntry → List Bytes) where
  unfoldable pub rm_path : Cpio → Bytes → Bool → Cpio
  unfolding remove_entry has rm_under
  rm_path c path recursive =
      let c' = if has path c.entries then remove_entry c path else c in
      if recursive then rm_under (path ++ codes "/") (range c'.entries) c' else c'

  -- `c.Rm(path, recursive)`.
  unfoldable pub rm : Cpio → Bytes → Bool → Cpio
  unfolding rm_path norm_path
  rm c path recursive = rm_path c (norm_path path) recursive

unfoldable pub exists : Cpio → Bytes → Bool
unfolding contains
exists c path = contains c.keys path

unfoldable pub add_entry : Cpio → Bytes → CpioEntry → Cpio
unfolding insert sort
add_entry c key e = record { entries = insert key e c.entries; keys = sort (c.keys ++ key ∷ []) }

unfoldable pub mkdir : Cpio → ℕ → Bytes → Cpio
unfolding add_entry norm_path
mkdir c mode dir = add_entry c (norm_path dir) (record {
  mode = bit_or mode s_ifdir;
  uid = 0;
  gid = 0;
  rdev_major = 0;
  rdev_minor = 0;
  content = [];
})

-- The target of a link keeps its leading slash.
unfoldable pub link_target : Bytes → Bytes
unfolding norm_path has_prefix
link_target src = if has_prefix src (codes "/") then codes "/" ++ norm_path src else norm_path src

unfoldable pub ln : Cpio → Bytes → Bytes → Cpio
unfolding add_entry link_target norm_path
ln c src dst = add_entry c (norm_path dst) (record {
  mode = s_iflnk;
  uid = 0;
  gid = 0;
  rdev_major = 0;
  rdev_minor = 0;
  content = link_target src;
})

unfoldable pub move : Cpio → Bytes → Bytes → Cpio
unfolding entry_at erase add_entry bytes_eq
move c from to =
    add_entry
      (record { entries = erase from c.entries; keys = keep (λ k. not (bytes_eq k from)) c.keys })
      to (entry_at c from)

-- `c.Mv(from, to)`.
unfoldable pub mv : Cpio → Bytes → Bytes → Cpio
unfolding move norm_path
mv c from to = move c (norm_path from) (norm_path to)
