-- ===== src/Cpio/Load/Storable.antt =====
-- What is loaded can be stored again.
use native.Mathlib.Nat.{pow-suc}
use magiskboot_go.Base.{
  ℕ, zero, suc, ◌+◌, ◌-◌, ◌*◌, ◌^◌, ◌≤◌, ◌<◌, ◌≡◌, refl, ap, arith, ◌||◌, Option, none, some,
  Option-cases, inl, inr,
}
use magiskboot_go.Base.{
  ◌&&◌, take, drop, length-take, length-drop, List, [], ◌∷◌, ◌++◌, Bytes, codes, bytes_eq,
  bytes_eq_sound, bytes_eq_iff, All, All-contains, contains, length, slice, slice-cases, slice_from,
  index, trim_right, ltb, leb, add64, ◌==◌, Bool, true, false, Bool-cases,
}
use magiskboot_go.Base.{
  Outcome, ret, panic, exit, running, Returns, Returns-then, if-Returns, Returns_at,
}
use magiskboot_go.Base.Dict.{insert, lookup-insert}
use magiskboot_go.Common.{align_4}
use magiskboot_go.Cpio.{Cpio, CpioEntry, LoadError, entry_at, new_cpio}
use magiskboot_go.Cpio.Field.{digit_value, read_digits, x8u, x8u_or_zero, Parsed, parsed, failed}
use magiskboot_go.Cpio.Load.{
  CpioHeader, Step, next, stop, read_header, header_size, cpio_magic, trailer, is_nul, load_entry,
  load_trailer, load_named, load_body, load_step, load_loop, load_from_data,
}
use magiskboot_go.Cpio.Dump.Image.{FitsEntry}
use magiskboot_go.Cpio.RoundTrip.{IsStorable}
use magiskboot_go.Cpio.RoundTrip.Entry.{IsName}

digit_value_bound : (c d : ℕ) → digit_value c ≡ some d → d < 16
unfolding digit_value
digit_value_bound c d h = ground (arith, h)

-- The digits behind a value multiply it by 16 for each.
read_digits_bound :
    (s : Bytes) (n r m : ℕ) → read_digits s n ≡ some r → n < m → r < m * 16 ^ length s
unfolding read_digits
read_digits_bound [] n r m h lt = let e : n ≡ r = cc in omega (arith, lt, e)
read_digits_bound (c ∷ s) n r m h lt = elim (Option-cases (digit_value c)) [
  | inl e ↦ let none_there : none ≡ some r = rw (read_digits, e) at h in cc
  | inr (d, e) ↦
      let rest : read_digits s (n * 16 + d) ≡ some r = rw (read_digits, e) at h in
      let ih =
        read_digits_bound s (n * 16 + d) r (m * 16) rest
          (omega (arith, lt, digit_value_bound c d e)) in
      omega (arith, ih, pow-suc 16 (length s), ap (λ (t : ℕ). m * t) (pow-suc 16 (length s)))
]

x8u_or_zero_bound : (x : Bytes) → x8u_or_zero x < 2 ^ 32
unfolding x8u_or_zero x8u
x8u_or_zero_bound x = elim (Bool-cases (length x == 8)) [
  | inr e ↦ rw (x8u_or_zero, x8u, e) (omega arith)
  | inl e ↦ elim (Option-cases (read_digits x 0)) [
    | inl f ↦ rw (x8u_or_zero, x8u, e, f) (omega arith)
    | inr (r, f) ↦
        let eight : length x ≡ 8 = ground (arith, e) in
        rw (x8u_or_zero, x8u, e, f)
          (omega (arith, read_digits_bound x 0 r 1 f (omega arith), ap (λ (t : ℕ). 16 ^ t) eight))
  ]
]

-- Every listed key can be stored with its entry.
abbrev pub Stores : Cpio → Type 0
Stores c = (k : Bytes) → contains c.keys k ≡ true → IsStorable c k

contains-others :
    (names : List Bytes) (name k : Bytes)
    → bytes_eq name k ≡ false
    → contains (names ++ name ∷ []) k ≡ true
    → contains names k ≡ true
unfolding contains
contains-others [] name k h c = ground (arith, h, c)
contains-others (x ∷ names) name k h c = ground (arith, contains-others names name k, h, c)

-- An entry that can be stored, put under its name, leaves the others as they are.
insert-Stores :
    (c : Cpio) (name : Bytes) (e : CpioEntry)
    → IsName name
    → FitsEntry name e
    → Stores c
    → Stores (record { entries = insert name e c.entries; keys = c.keys ++ name ∷ [] })
unfolding entry_at contains
insert-Stores c name e is_name fits stores k listed = elim (Bool-cases (bytes_eq name k)) [
  | inl same ↦
      let e' : name ≡ k = bytes_eq_sound name k same in
      let here : entry_at (record { entries = insert name e c.entries; keys = c.keys ++ name ∷ [] })
            k
          ≡ e =
        rw (entry_at, lookup-insert name k e c.entries, same) refl in
      record { is_name = rw (← e') is_name; fits = rw (here, ← e') fits }
  | inr other ↦
      let old : IsStorable c k = stores k (contains-others c.keys name k other listed) in
      let there : entry_at
            (record { entries = insert name e c.entries; keys = c.keys ++ name ∷ [] }) k
          ≡ entry_at c k =
        rw (entry_at, lookup-insert name k e c.entries, other) refl in
      record { is_name = old.is_name; fits = rw there old.fits }
]

length-slice : (s : Bytes) (lo hi : ℕ) (r : Bytes) → slice s lo hi ≡ ret r → length r ≤ length s
unfolding slice
length-slice s lo hi r h = elim (Bool-cases (leb lo hi && leb hi (length s))) [
  | inr e ↦ let stuck : panic ≡ ret r = rw (slice, e) at h in cc
  | inl e ↦
      let cut : ret (take (hi - lo) (drop lo s)) ≡ ret r = rw (slice, e) at h in
      let same : take (hi - lo) (drop lo s) ≡ r = cc in
      omega (arith, ap length same, length-take (hi - lo) (drop lo s), length-drop lo s)
]

length-trim_right : (p : ℕ → Bool) (s : Bytes) → length (trim_right p s) ≤ length s
unfolding trim_right
length-trim_right p [] = omega arith
length-trim_right p (c ∷ s) = ground (arith, length-trim_right p s)

trim_right-trim_right : (p : ℕ → Bool) (s : Bytes) → trim_right p (trim_right p s) ≡ trim_right p s
unfolding trim_right
trim_right-trim_right p [] = refl
trim_right-trim_right p (c ∷ s) = ground (arith, trim_right-trim_right p s)

-- The archive behind a round.
abbrev behind : Step → Cpio
behind (next pos c) = c
behind (stop c e) = c

abbrev Kept : Outcome Step → Type 0
Kept = Returns (λ s. Stores (behind s))

module _ (bytes : Bytes) (short : length bytes + 1 < 2 ^ 32) where
  load_entry-Kept :
      (hdr : CpioHeader) (name : Bytes) (pos : ℕ) (c : Cpio)
      → IsName name
      → length name ≤ length bytes
      → Stores c
      → Kept (load_entry bytes hdr name pos c)
  unfolding load_entry
  load_entry-Kept hdr name pos c is_name fits stores =
      elim (slice-cases bytes pos (add64 pos (x8u_or_zero hdr.filesize))) [
        | inl e ↦ rw (load_entry, e) tt
        | inr (content, e, lo, up) ↦
            rw (load_entry, e)
              (insert-Stores c name _ is_name
                (record {
                  mode_fits = x8u_or_zero_bound hdr.mode;
                  uid_fits = x8u_or_zero_bound hdr.uid;
                  gid_fits = x8u_or_zero_bound hdr.gid;
                  major_fits = x8u_or_zero_bound hdr.rdevmajor;
                  minor_fits = x8u_or_zero_bound hdr.rdevminor;
                  content_fits = omega (
                    arith,
                    length-slice bytes pos (add64 pos (x8u_or_zero hdr.filesize)) content e,
                    short,
                  );
                  name_fits = omega (arith, fits, short);
                })
                stores)
      ]

  load_trailer-Kept : (pos : ℕ) (c : Cpio) → Stores c → Kept (load_trailer bytes pos c)
  unfolding load_trailer
  load_trailer-Kept pos c stores =
      Returns-then (λ s. Stores (behind s)) (slice_from bytes pos)
        (λ rest.
          ret (elim (index rest cpio_magic) [ none ↦ stop c none | some i ↦ next (add64 pos i) c ]))
        (λ rest. same (index rest cpio_magic))
    where
      same :
          (o : Option ℕ)
          → Stores (behind (elim o [ none ↦ stop c none | some i ↦ next (add64 pos i) c ]))
      same none = stores
      same (some i) = stores

  load_named-Kept :
      (hdr : CpioHeader) (name : Bytes) (pos : ℕ) (c : Cpio)
      → trim_right is_nul name ≡ name
      → length name ≤ length bytes
      → Stores c
      → Kept (load_named bytes hdr name pos c)
  unfolding load_named
  load_named-Kept hdr name pos c trimmed fits stores =
      elim (Bool-cases (bytes_eq name (codes ".") || bytes_eq name (codes ".."))) [
        | inl e ↦ rw (load_named, e) stores
        | inr e ↦ elim (Bool-cases (bytes_eq name trailer)) [
          | inl f ↦ rw (load_named, e, f) (load_trailer-Kept pos c stores)
          | inr f ↦
              rw (load_named, e, f)
                (load_entry-Kept hdr name pos c
                  (record {
                    no_nul_at_end = trimmed;
                    not_dot = λ g. ground (arith, e, bytes_eq_iff name (codes "."), g);
                    not_dot_dot = λ g. ground (arith, e, bytes_eq_iff name (codes ".."), g);
                    not_trailer = λ g. ground (arith, f, bytes_eq_iff name trailer, g);
                  })
                  fits stores)
        ]
      ]

  load_body-Kept :
      (hdr : CpioHeader) (pos : ℕ) (c : Cpio) → Stores c → Kept (load_body bytes hdr pos c)
  unfolding load_body
  load_body-Kept hdr pos c stores = go (x8u hdr.namesize) refl
    where
      go : (p : Parsed) → x8u hdr.namesize ≡ p → Kept (load_body bytes hdr pos c)
      go (failed x) e = rw (load_body, e) stores
      go (parsed n) e = elim (slice-cases bytes pos (add64 pos n)) [
        | inl f ↦ rw (load_body, e, f) tt
        | inr (raw, f, lo, up) ↦
            rw (load_body, e, f)
              (load_named-Kept hdr (trim_right is_nul raw) (align_4 (add64 pos n)) c
                (trim_right-trim_right is_nul raw)
                (omega
                  (arith, length-trim_right is_nul raw, length-slice bytes pos (add64 pos n) raw f))
                stores)
      ]

  load_step-Kept : (pos : ℕ) (c : Cpio) → Stores c → Kept (load_step bytes pos c)
  unfolding load_step
  load_step-Kept pos c stores =
      if-Returns (λ s. Stores (behind s)) (ltb pos (length bytes)) _ _
        (Returns-then (λ s. Stores (behind s)) (slice bytes pos (add64 pos header_size)) _
          (λ raw.
            if-Returns (λ s. Stores (behind s)) (bytes_eq (read_header raw).magic cpio_magic) _ _
              (load_body-Kept (read_header raw) (add64 pos header_size) c stores) stores))
        stores

  load_loop-Stores :
      (f pos : ℕ) (c : Cpio) → Stores c → Returns (λ r. Stores r.0) (load_loop f bytes pos c)
  unfolding load_loop
  load_loop-Stores zero pos c stores = tt
  load_loop-Stores (suc f) pos c stores =
      go (load_step bytes pos c) (load_step-Kept pos c stores) (λ p d. load_loop-Stores f p d)
    where
      go :
          (o : Outcome Step)
          → Kept o
          → ((p : ℕ) (d : Cpio) → Stores d → Returns (λ r. Stores r.0) (load_loop f bytes p d))
          → Returns
              (λ r. Stores r.0)
              (elim o [
                | ret (next pos' c') ↦ load_loop f bytes pos' c'
                | ret (stop c' e) ↦ ret (c', e)
                | panic ↦ panic
                | exit n ↦ exit n
                | running ↦ running
              ])
      go (ret (next p d)) h ih = ih p d h
      go (ret (stop d e)) h ih = h
      go panic h ih = tt
      go (exit n) h ih = tt
      go running h ih = tt

new_cpio-Stores : Stores new_cpio
unfolding contains
new_cpio-Stores k h = cc

-- Whatever is loaded from a file of less than 2 ^ 32 bytes less one can be stored again: under each
-- key that is listed, the name can be loaded and every number fits in its field.
pub load_from_data-IsStorable :
    (bytes : Bytes) (c : Cpio) (e : Option LoadError)
    → length bytes + 1 < 2 ^ 32
    → load_from_data new_cpio bytes ≡ ret (c, e)
    → All (IsStorable c) c.keys
unfolding load_from_data
load_from_data-IsStorable bytes c e short h = All-contains (IsStorable c) c.keys (
    Returns_at (λ r. Stores r.0) (load_from_data new_cpio bytes) (c, e)
      (load_loop-Stores bytes short (suc (length bytes)) 0 new_cpio new_cpio-Stores) h)
