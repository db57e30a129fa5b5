-- ===== src/Cpio/Backup/Merge.antt =====
-- The merge of `Backup` against what it stands for.
use magiskboot_go.Base.{
  ◌≡◌, refl, sym, ap, ◌∙◌, arith, Bool, true, false, not, ◌||◌, List, All, [], ◌∷◌, keep, Ordering,
  if◌then◌else◌,
}
use magiskboot_go.Base.{
  Bytes, bytes_eq, bytes_eq_refl, bytes_compare, contains, Bool-cases, inl, inr,
}
use mathlib.Core.Path.{subst}
use magiskboot_go.Base.Order.{
  Before, Ascending, All-Before-trans, Before-ne, Before-ne_sym, bytes_compare_eq, bytes_compare_gt,
}
use magiskboot_go.Compress.Xz.{XzLib}
use magiskboot_go.Cpio.{Cpio, entry_at}
use magiskboot_go.Cpio.Backup.{Recorded, backup_one, record_one, backup_rest, record_rest, merge}

-- A string before all of a list is not in it, and is none of it.
contains-Before : (s : Bytes) (ts : List Bytes) → All (Before s) ts → contains ts s ≡ false
unfolding contains
contains-Before s [] _ = refl
contains-Before s (t ∷ ts) (h, hs) = rw (Before-ne_sym s t h) (contains-Before s ts hs)

keep_same : (p q : Bytes → Bool) (xs : List Bytes) → All (λ x. p x ≡ q x) xs → keep p xs ≡ keep q xs
keep_same p q [] _ = refl
keep_same p q (x ∷ xs) (h, hs) = ground (arith, keep_same p q xs hs)

keep_yes :
    (p : Bytes → Bool) (x : Bytes) (xs : List Bytes) → p x ≡ true → keep p (x ∷ xs) ≡ x ∷ keep p xs
keep_yes p x xs h = ground arith

keep_no :
    (p : Bytes → Bool) (x : Bytes) (xs : List Bytes) → p x ≡ false → keep p (x ∷ xs) ≡ keep p xs
keep_no p x xs h = ground arith

keep_all : (p : Bytes → Bool) (xs : List Bytes) → ((x : Bytes) → p x ≡ true) → keep p xs ≡ xs
keep_all p [] h = refl
keep_all p (x ∷ xs) h = ground (arith, h x, keep_all p xs h)

All-imp : (P Q : Bytes → Type 0) (xs : List Bytes) → ((x : Bytes) → P x → Q x) → All P xs → All Q xs
All-imp P Q [] f _ = tt
All-imp P Q (x ∷ xs) f (h, hs) = (f x h, All-imp P Q xs f hs)

module _ (lib : XzLib) (skip_compress : Bool) (o c : Cpio) where
  -- Whether a key of the original is gone from the archive, or has another content there.
  abbrev pub is_changed : List Bytes → Bytes → Bool
  is_changed rs l =
      not (contains rs l) || not (bytes_eq (entry_at c l).content (entry_at o l).content)

  abbrev pub is_new : List Bytes → Bytes → Bool
  is_new ls x = not (contains ls x)

  backup_rest-record_one :
      (ls : List Bytes) (r : Recorded) (x : Bytes)
      → backup_rest lib skip_compress o c ls (record_one r x)
        ≡ record_one (backup_rest lib skip_compress o c ls r) x
  unfolding backup_rest backup_one record_one
  backup_rest-record_one [] r x = refl
  backup_rest-record_one (l ∷ ls) r x =
      backup_rest-record_one ls (backup_one lib skip_compress r l (entry_at o l)) x

  -- The keys that are recorded and backed up, by where they stand.
  abbrev both : List Bytes → List Bytes → Recorded → Recorded
  both new changed r =
      record_rest lib skip_compress o c new (backup_rest lib skip_compress o c changed r)

  abbrev pub compare_keys : List Bytes → List Bytes → Recorded → Recorded
  compare_keys ls rs r = both (keep (is_new ls) rs) (keep (is_changed rs) ls) r

  both_eq :
      (as' bs' new changed : List Bytes) (r : Recorded)
      → new ≡ as'
      → changed ≡ bs'
      → both as' bs' r ≡ both new changed r
  both_eq as' bs' new changed r e f = rw (e, f) refl

  -- A key before all others makes no difference to them.
  keep_new :
      (l : Bytes) (ls rs : List Bytes)
      → All (Before l) rs
      → keep (is_new (l ∷ ls)) rs ≡ keep (is_new ls) rs
  unfolding contains
  keep_new l ls rs h =
      keep_same (is_new (l ∷ ls)) (is_new ls) rs
        (All-imp _ _ rs (λ y b. rw (Before-ne l y b) refl) h)

  keep_changed :
      (x : Bytes) (rs ls : List Bytes)
      → All (Before x) ls
      → keep (is_changed (x ∷ rs)) ls ≡ keep (is_changed rs) ls
  unfolding contains
  keep_changed x rs ls h =
      keep_same (is_changed (x ∷ rs)) (is_changed rs) ls
        (All-imp _ _ ls (λ y b. rw (Before-ne x y b) refl) h)

  none_listed : (x : Bytes) → contains [] x ≡ false
  unfolding contains
  none_listed x = refl

  listed : (l x : Bytes) (rs : List Bytes) → l ≡ x → contains (x ∷ rs) l ≡ true
  unfolding contains
  listed l x rs e = rw (e, bytes_eq_refl x) refl

  -- The heads are the same key.
  heads_new :
      (l x : Bytes) (ls rs : List Bytes)
      → l ≡ x
      → All (Before l) rs
      → keep (is_new (l ∷ ls)) (x ∷ rs) ≡ keep (is_new ls) rs
  heads_new l x ls rs e h =
      keep_no (is_new (l ∷ ls)) x rs (rw (listed x l ls (sym e)) refl) ∙ keep_new l ls rs h

  content_same :
      (l x : Bytes)
      → l ≡ x
      → bytes_eq (entry_at c l).content (entry_at o l).content
        ≡ bytes_eq (entry_at c x).content (entry_at o l).content
  content_same l x e = ap (λ (k : Bytes). bytes_eq (entry_at c k).content (entry_at o l).content) e

  -- A key of both is backed up if its content is not the same.
  compare_keys-heads :
      (l x : Bytes) (ls rs : List Bytes) (r : Recorded)
      → l ≡ x
      → All (Before l) ls
      → All (Before l) rs
      → compare_keys ls rs (
          if bytes_eq (entry_at c x).content (entry_at o l).content
          then r
          else backup_one lib skip_compress r l (entry_at o l))
        ≡ compare_keys (l ∷ ls) (x ∷ rs) r
  unfolding backup_rest
  compare_keys-heads l x ls rs r same hl hr =
      let new = heads_new l x ls rs same hr in
      let rest : keep (is_changed (x ∷ rs)) ls ≡ keep (is_changed rs) ls =
        keep_changed x rs ls (subst (λ (k : Bytes). All (Before k) ls) same hl) in
      elim (Bool-cases (bytes_eq (entry_at c x).content (entry_at o l).content)) [
        | inl t ↦ rw (t) (
            both_eq _ _ _ _ r new (
              keep_no (is_changed (x ∷ rs)) l ls
                (rw (listed l x rs same, content_same l x same, t) refl)
              ∙ rest))
        | inr f ↦ rw (f) (
            both_eq _ (l ∷ keep (is_changed rs) ls) _ _ r new (
              keep_yes (is_changed (x ∷ rs)) l ls
                (rw (listed l x rs same, content_same l x same, f) refl)
              ∙ ap (λ (ks : List Bytes). l ∷ ks) rest))
      ]

  -- On ascending key lists the merge records the keys of the archive that the original does not
  -- have, and backs up those of the original that the archive does not have or has with another
  -- content.
  pub merge-compare_keys :
      (ls rs : List Bytes) (r : Recorded)
      → Ascending ls
      → Ascending rs
      → merge lib skip_compress o c ls rs r ≡ compare_keys ls rs r
  unfolding merge backup_rest record_rest
  merge-compare_keys [] rs r hl hr =
      both_eq rs [] _ _ r (keep_all (is_new []) rs (λ x. rw (none_listed x) refl)) refl
  merge-compare_keys (l ∷ ls) [] r hl hr =
      both_eq [] (l ∷ ls) _ _ r refl
        (keep_all (is_changed []) (l ∷ ls) (λ x. rw (none_listed x) refl))
  merge-compare_keys (l ∷ ls) (x ∷ rs) r (hl, hls) (hx, hxs) =
      go (bytes_compare l x) refl
        (merge-compare_keys ls (x ∷ rs) (backup_one lib skip_compress r l (entry_at o l)) hls
          (hx, hxs))
        (λ r'. merge-compare_keys ls rs r' hls hxs)
        (merge-compare_keys (l ∷ ls) rs (record_one r x) (hl, hls) hxs)
    where
      go :
          (v : Ordering)
          → bytes_compare l x ≡ v
          → merge lib skip_compress o c ls
              (x ∷ rs)
              (backup_one lib skip_compress r l (entry_at o l))
            ≡ compare_keys ls (x ∷ rs) (backup_one lib skip_compress r l (entry_at o l))
          → ((r' : Recorded) → merge lib skip_compress o c ls rs r' ≡ compare_keys ls rs r')
          → merge lib skip_compress o c (l ∷ ls) rs (record_one r x)
            ≡ compare_keys (l ∷ ls) rs (record_one r x)
          → merge lib skip_compress o c (l ∷ ls) (x ∷ rs) r ≡ compare_keys (l ∷ ls) (x ∷ rs) r
      go Ordering.lt e i1 i2 i3 =
          let all : All (Before l) (x ∷ rs) = (e, All-Before-trans l x rs e hx) in
          rw (merge, e)
            (i1
              ∙ both_eq _ (l ∷ keep (is_changed (x ∷ rs)) ls) _ _ r (keep_new l ls (x ∷ rs) all)
                  (keep_yes (is_changed (x ∷ rs)) l ls (rw (contains-Before l (x ∷ rs) all) refl)))
      go Ordering.eq e i1 i2 i3 =
          let same : l ≡ x = bytes_compare_eq l x e in
          rw (merge, e)
            (i2 _
              ∙ compare_keys-heads l x ls rs r same hl
                  (subst (λ (k : Bytes). All (Before k) rs) (sym same) hx))
      go Ordering.gt e i1 i2 i3 =
          let before : Before x l = bytes_compare_gt l x e in
          let all : All (Before x) (l ∷ ls) = (before, All-Before-trans x l ls before hl) in
          rw (merge, e)
            (i3
              ∙ ap (record_rest lib skip_compress o c (keep (is_new (l ∷ ls)) rs))
                  (backup_rest-record_one (keep (is_changed rs) (l ∷ ls)) r x)
              ∙ both_eq (x ∷ keep (is_new (l ∷ ls)) rs) _ _ _ r
                  (keep_yes (is_new (l ∷ ls)) x rs (rw (contains-Before x (l ∷ ls) all) refl))
                  (keep_changed x rs (l ∷ ls) all))
