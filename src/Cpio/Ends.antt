-- ===== src/Cpio/Ends.antt =====
-- The operations on an archive end, beside the loop of `LoadFromData`: each returns, panics or ends
-- the process.
use magiskboot_go.Base.{ℕ, zero, suc, ◌+◌, Bool, List, [], ◌∷◌, Option, none, some, Bytes}
use magiskboot_go.Base.{
  Outcome, ret, Ends, Ends->>=, option-Ends, returned, true, false, ends, get_elem?,
}
use magiskboot_go.Base.Dict.{Dict}
use magiskboot_go.Compress.Xz.{XzLib, unxz}
use magiskboot_go.Format.{Format, Magic, checked_match, first_match, either, tests, check_fmt}
use magiskboot_go.Patch.Fstab.{
  rebuild, patch_line, patch_lines, patch_fstab, patch_verity, patch_encryption,
}
use magiskboot_go.Cpio.{Cpio, CpioEntry, entry_at}
use magiskboot_go.Cpio.Patching.{
  Walk, decompress_entry, patch_content, patch_round, patch_loop, patch,
}
use magiskboot_go.Cpio.Restore.{Found, restored, gather_one, gather, restore}
use magiskboot_go.Cpio.Dump.{
  Written, write_zeros, dump_body, dump_entry, dump_trailer, dump_loop, dump,
}

checked_match-Ends : (buf spare : Bytes) (m : Magic) → Ends (checked_match buf spare m)
unfolding checked_match
checked_match-Ends buf spare m = search ends

either-Ends : (m n : Outcome Bool) → Ends m → Ends n → Ends (either m n)
either-Ends m n h k = search ends

-- Tests that all end.
abbrev AllEnd : List (Outcome Bool × Format) → Type 0
AllEnd [] = Unit
AllEnd ((m, f) ∷ rest) = Ends m × AllEnd rest

first_match-Ends : (ts : List (Outcome Bool × Format)) → AllEnd ts → Ends (first_match ts)
unfolding first_match
first_match-Ends [] _ = search ends
first_match-Ends ((m, f) ∷ rest) (h, hs) = search (ends, h, first_match-Ends rest hs)

check_fmt-Ends : (buf spare : Bytes) → Ends (check_fmt buf spare)
unfolding check_fmt
check_fmt-Ends buf spare =
    let m = checked_match-Ends buf spare in
    let e = λ (b : Bool). returned b in
    first_match-Ends (tests buf spare) (search (m, e, either-Ends, tt))

unxz-Ends : (lib : XzLib) (content : Bytes) → Ends (unxz lib content)
unfolding unxz
unxz-Ends lib content = search (ends, check_fmt-Ends)

decompressed-Ends :
    (e : CpioEntry) (r : Option Bytes)
    → Ends {A = CpioEntry × Bool}
        (elim r [ none ↦ ret (e, false) | some c ↦ ret (record e { content = c }, true) ])
decompressed-Ends e none = search ends
decompressed-Ends e (some c) = search ends

decompress_entry-Ends : (lib : XzLib) (e : CpioEntry) → Ends (decompress_entry lib e)
unfolding decompress_entry
decompress_entry-Ends lib e = search (ends, unxz-Ends, decompressed-Ends)

restored-Ends : (lib : XzLib) (name : Bytes) (e : CpioEntry) → Ends (restored lib name e)
unfolding restored
restored-Ends lib name e = search (ends, decompress_entry-Ends)

gather_one-Ends :
    (lib : XzLib) (c : Cpio) (found : Found) (name : Bytes) → Ends (gather_one lib c found name)
unfolding gather_one
gather_one-Ends lib c found name = search (ends, restored-Ends)

gather-Ends :
    (lib : XzLib) (c : Cpio) (names : List Bytes) (found : Found) → Ends (gather lib c names found)
unfolding gather
gather-Ends lib c [] found = search ends
gather-Ends lib c (name ∷ names) found = search (ends, gather_one-Ends, gather-Ends lib c names)

pub restore-Ends :
    (lib : XzLib) (range : Dict CpioEntry → List Bytes) (c : Cpio) → Ends (restore lib range c)
unfolding restore
restore-Ends lib range c = search (ends, gather-Ends)

rebuild-Ends : (ps fs : List Bytes) → Ends (rebuild ps fs)
unfolding rebuild
rebuild-Ends ps fs = option-Ends (get_elem? fs 4) _ _ (search ends) (λ f. search ends)

patch_line-Ends : (ps : List Bytes) (line : Bytes) → Ends (patch_line ps line)
unfolding patch_line
patch_line-Ends ps line = search (ends, rebuild-Ends)

patch_lines-Ends : (ps lines : List Bytes) → Ends (patch_lines ps lines)
unfolding patch_lines
patch_lines-Ends ps [] = search ends
patch_lines-Ends ps (line ∷ lines) = search (ends, patch_line-Ends, patch_lines-Ends ps lines)

patch_fstab-Ends : (content : Bytes) (ps : List Bytes) → Ends (patch_fstab content ps)
unfolding patch_fstab
patch_fstab-Ends content ps = search (ends, patch_lines-Ends)

patch_content-Ends :
    (kv kf fstab : Bool) (content : Bytes) → Ends (patch_content kv kf fstab content)
unfolding patch_content patch_verity patch_encryption
patch_content-Ends kv kf fstab content = search (ends, patch_fstab-Ends)

module _ (range : Dict CpioEntry → List Bytes) where
  patch_round-Ends :
      (kv kf : Bool) (w : Walk) (name : Bytes) → Ends (patch_round range kv kf w name)
  unfolding patch_round
  patch_round-Ends kv kf w name = search (ends, patch_content-Ends)

  patch_loop-Ends : (kv kf : Bool) (n i : ℕ) (w : Walk) → Ends (patch_loop range kv kf n i w)
  unfolding patch_loop
  patch_loop-Ends kv kf zero i w = search ends
  patch_loop-Ends kv kf (suc n) i w =
      option-Ends (get_elem? w.array i) _ _ (search ends)
        (λ name. search (ends, patch_round-Ends, patch_loop-Ends kv kf n (i + 1)))

  pub patch-Ends : (env : Bytes → Option Bytes) (c : Cpio) → Ends (patch range env c)
  unfolding patch
  patch-Ends env c = search (ends, patch_loop-Ends)

module _ {F : Type 0} (write : F → Bytes → Written F) where
  write_zeros-Ends : (f : F) (pos : ℕ) → Ends (write_zeros write f pos)
  unfolding write_zeros
  write_zeros-Ends f pos = search ends

  dump_body-Ends :
      (f : F) (pos : ℕ) (name : Bytes) (e : CpioEntry) → Ends (dump_body write f pos name e)
  unfolding dump_body
  dump_body-Ends f pos name e = search (ends, write_zeros-Ends)

  dump_entry-Ends :
      (f : F) (pos inode : ℕ) (name : Bytes) (e : CpioEntry)
      → Ends (dump_entry write f pos inode name e)
  unfolding dump_entry
  dump_entry-Ends f pos inode name e = search (ends, dump_body-Ends)

  dump_trailer-Ends : (f : F) (pos inode : ℕ) → Ends (dump_trailer write f pos inode)
  unfolding dump_trailer
  dump_trailer-Ends f pos inode = search (ends, write_zeros-Ends)

  dump_loop-Ends :
      (c : Cpio) (names : List Bytes) (f : F) (pos inode : ℕ)
      → Ends (dump_loop write c names f pos inode)
  unfolding dump_loop
  dump_loop-Ends c [] f pos inode = search (ends, dump_trailer-Ends)
  dump_loop-Ends c (name ∷ names) f pos inode =
      Ends->>= (dump_entry write f pos inode name (entry_at c name)) _ (search dump_entry-Ends)
        (λ r. option-Ends r _ _ (search ends) (λ s. dump_loop-Ends c names s.0 s.1 (inode + 1)))

  pub dump-Ends : (c : Cpio) (f : F) → Ends (dump write c f)
  unfolding dump
  dump-Ends c f = search (ends, dump_loop-Ends)
