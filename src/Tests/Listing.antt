-- ===== src/Tests/Listing.antt =====
-- A listing of an archive, and the usage text.
use magiskboot_go.Base.{◌≡◌, ◌↔◌, refl, true, false, [], ◌∷◌, codes, contains}
use magiskboot_go.Cpio.{Cpio, zero_entry}
use magiskboot_go.Cpio.Path.{norm_path}
use magiskboot_go.Cpio.Listing.{ls}
use magiskboot_go.Cpio.Listing.Children.{Belongs, ls-Belongs}

abbrev tree : Cpio
tree = record {
  entries = (codes "sbin/su", zero_entry) ∷ [];
  keys = codes "init" ∷ codes "sbin" ∷ codes "sbin/su" ∷ codes "sbin/x/y" ∷ codes "sbin2" ∷ [];
}

lists_sbin : ls tree (codes "/sbin/") false ≡ codes "sbin" ∷ codes "sbin/su" ∷ []
unfolding ls
lists_sbin = refl

ls-Belongs_example : (contains (ls tree (codes "/sbin/") false) (codes "sbin/su") ≡ true) ↔ (
    (contains tree.keys (codes "sbin/su") ≡ true)
    × Belongs (norm_path (codes "/sbin/")) false (codes "sbin/su"))
ls-Belongs_example = ls-Belongs tree (codes "/sbin/") false (codes "sbin/su")
