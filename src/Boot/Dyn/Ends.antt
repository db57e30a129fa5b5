-- ===== src/Boot/Dyn/Ends.antt =====
-- When `Init` returns, and what `HdrSpace` gives.
use native.Mathlib.Nat.{suc-mul}
use magiskboot_go.Base.{
  ℕ, zero, suc, ◌+◌, ◌*◌, ◌≤◌, ◌<◌, ◌≡◌, ◌↔◌, refl, arith, true, ◌&&◌, leb, ◌==◌, if◌then◌else◌,
}
use magiskboot_go.Base.{Bytes, length, ret, panic, fatal, returns, Bool-cases, inl, inr, u64_mod}
use magiskboot_go.Common.{align_to}
use magiskboot_go.Common.Laws.{align_to_bounds}
use magiskboot_go.Boot.Headers.{boot_img_hdr_v0, boot_img_hdr_v1, boot_img_hdr_v2, boot_img_hdr_pxa}
use magiskboot_go.Boot.Headers.Newer.{
  boot_img_hdr_v3, boot_img_hdr_v4, boot_img_hdr_vnd_v3, boot_img_hdr_vnd_v4,
}
use magiskboot_go.Boot.Dyn.Laws.{read_raw-long, read_raw-short}
use magiskboot_go.Boot.Dyn.Init.{
  init_v0, init_v1, init_v2, init_pxa, init_v3, init_v4, init_vnd_v3, init_vnd_v4,
}
use magiskboot_go.Boot.Dyn.Any.{
  DynImg, v0, v1, v2, pxa, v3, v4, vnd_v3, vnd_v4, is_vendor, page_size, hdr_space, raw_size, init,
}

init_short : (b : Bytes) (img : DynImg) → length b < raw_size img → init b img ≡ fatal
unfolding init raw_size init_v0 init_v1 init_v2 init_pxa init_v3 init_v4 init_vnd_v3 init_vnd_v4
init_short b (v0 d) h = rw (read_raw-short boot_img_hdr_v0 b h) refl
init_short b (v1 d) h = rw (read_raw-short boot_img_hdr_v1 b h) refl
init_short b (v2 d) h = rw (read_raw-short boot_img_hdr_v2 b h) refl
init_short b (pxa d) h = rw (read_raw-short boot_img_hdr_pxa b h) refl
init_short b (v3 d) h = rw (read_raw-short boot_img_hdr_v3 b h) refl
init_short b (v4 d) h = rw (read_raw-short boot_img_hdr_v4 b h) refl
init_short b (vnd_v3 d) h = rw (read_raw-short boot_img_hdr_vnd_v3 b h) refl
init_short b (vnd_v4 d) h = rw (read_raw-short boot_img_hdr_vnd_v4 b h) refl

init_long : (b : Bytes) (img : DynImg) → raw_size img ≤ length b → returns (init b img) ≡ true
unfolding init raw_size init_v0 init_v1 init_v2 init_pxa init_v3 init_v4 init_vnd_v3 init_vnd_v4
init_long b (v0 d) h = rw (read_raw-long boot_img_hdr_v0 b h) refl
init_long b (v1 d) h =
    rw (read_raw-long boot_img_hdr_v1 b h, read_raw-long boot_img_hdr_v0 b (omega arith)) refl
init_long b (v2 d) h =
    rw
      (
        read_raw-long boot_img_hdr_v2 b h,
        read_raw-long boot_img_hdr_v1 b (omega arith),
        read_raw-long boot_img_hdr_v0 b (omega arith),
      )
      refl
init_long b (pxa d) h = rw (read_raw-long boot_img_hdr_pxa b h) refl
init_long b (v3 d) h = rw (read_raw-long boot_img_hdr_v3 b h) refl
init_long b (v4 d) h =
    rw (read_raw-long boot_img_hdr_v4 b h, read_raw-long boot_img_hdr_v3 b (omega arith)) refl
init_long b (vnd_v3 d) h = rw (read_raw-long boot_img_hdr_vnd_v3 b h) refl
init_long b (vnd_v4 d) h =
    rw (read_raw-long boot_img_hdr_vnd_v4 b h, read_raw-long boot_img_hdr_vnd_v3 b (omega arith))
      refl

-- `Init` of every type returns exactly where the image has at least the size of the struct that is
-- read; else it ends the process.
pub init-returns :
    (b : Bytes) (img : DynImg)
    → (returns (init b img) ≡ leb (raw_size img) (length b))
      × ((init b img ≡ fatal) ↔ (length b < raw_size img))
init-returns b img = elim (Bool-cases (leb (raw_size img) (length b))) [
  | inl e ↦
      let r = init_long b img (ground arith) in (rw (e) r, (λ f. cc, λ l. absurd (ground arith)))
  | inr e ↦
      let l : length b < raw_size img = ground arith in
      let f = init_short b img l in (rw (e, f) refl, (λ _. l, λ _. f))
]

no_multiple : (q a : ℕ) → q * a < 0 + a → q ≡ 0
no_multiple zero a h = refl
no_multiple (suc q) a h = absurd (omega (arith, suc-mul q a))

align_to-zero : (a : ℕ) → a < u64_mod → align_to 0 a ≡ (if a == 0 then panic else ret 0)
align_to-zero zero h = unfold align_to in refl
align_to-zero (suc a) h =
    let (q, e, _, l) = align_to_bounds 0 (suc a) (omega arith) (omega arith) in
    let z : q ≡ 0 = no_multiple q (suc a) l in rw (e, z) (ground arith)

-- For a page size of less than 2 ^ 64, `HdrSpace` is 0 for every image that is no vendor image,
-- whatever its page size, and for a vendor image whose page size is not 0; for one with the page size
-- 0 it panics.
pub hdr_space_zero :
    (img : DynImg)
    → page_size img < u64_mod
    → hdr_space img ≡ (if is_vendor img && page_size img == 0 then panic else ret 0)
unfolding hdr_space is_vendor page_size
hdr_space_zero (vnd_v3 d) h = align_to-zero _ h
hdr_space_zero (vnd_v4 d) h = align_to-zero _ h
hdr_space_zero _ h = refl
