-- ===== src/Boot/Lg.antt =====
-- `findDtbOffset` and `checkFmtLg` of bootimg.go: how their loops end.
use magiskboot_go.Base.{ℕ, zero, suc, ◌+◌, ◌≡◌, ◌≢◌, ◌⊎◌, ◌<◌, refl, arith, Bytes, []}
use magiskboot_go.Base.{ret, running, Bool-cases, true, inl, inr, ltb, lt→ltb, ◌==◌}
use magiskboot_go.Format.{Format, lz4_lg, lz4_legacy, iota, check_fmt}
use magiskboot_go.Boot.Dtb.{
  le32_at, lg_loop, check_fmt_lg, continue_at, find_round, find_loop, find_dtb_offset,
}

-- The loop of `checkFmtLg` either says LZ4_LG or goes on: it has no other end.
lg_loop_ends :
    (f : ℕ) (fmap : Bytes) (sz off block_sz : ℕ)
    → (lg_loop f fmap sz off block_sz ≡ running) ⊎ (lg_loop f fmap sz off block_sz ≡ ret lz4_lg)
unfolding lg_loop
lg_loop_ends zero fmap sz off block_sz = inl refl
lg_loop_ends (suc f) fmap sz off block_sz =
    let block = le32_at fmap off block_sz in
    elim (Bool-cases (ltb (off + 4) sz)) [
      | inr e ↦ rw (e) (lg_loop_ends f fmap sz off block_sz)
      | inl e ↦ elim (Bool-cases (ltb sz (off + 4 + block))) [
        | inl long ↦ inr (rw (e, long) refl)
        | inr short ↦ rw (e, short) (lg_loop_ends f fmap sz (off + 4 + block) block)
      ]
    ]

legacy_only : (f : Format) → (iota f == iota lz4_legacy) ≡ true → f ≡ lz4_legacy
unfolding iota
legacy_only lz4_legacy h = refl
legacy_only _ h = cc

-- `checkFmtLg` of a buffer for which `CheckFmt` gives a format. If that is LZ4_LEGACY, it says LZ4_LG
-- or has not returned, however many rounds it is given, so that it never says LZ4_LEGACY; if it is
-- another, it gives that.
pub check_fmt_lg-legacy :
    (rounds : ℕ) (fmap : Bytes) (sz : ℕ) (f : Format)
    → check_fmt fmap [] ≡ ret f
    → ((f ≡ lz4_legacy)
        × ((check_fmt_lg rounds fmap sz ≡ running) ⊎ (check_fmt_lg rounds fmap sz ≡ ret lz4_lg)))
      ⊎ ((f ≢ lz4_legacy) × (check_fmt_lg rounds fmap sz ≡ ret f))
unfolding check_fmt_lg
check_fmt_lg-legacy rounds fmap sz f h = elim (Bool-cases (iota f == iota lz4_legacy)) [
  | inl e ↦ inl (legacy_only f e, rw (h, e) (lg_loop_ends rounds fmap sz 4 0))
  | inr e ↦ inr (λ same. unfold iota in cc, rw (h, e) refl)
]

-- Where the first device tree magic of the map begins no usable header and stands more than 40
-- bytes before the end of the image, the loop of `findDtbOffset` meets the same place in every
-- round, and does not end.
pub find_dtb_offset-stuck :
    (fmap : Bytes) (sz at : ℕ)
    → find_round fmap sz ≡ ret (continue_at at)
    → at + 40 < sz
    → (rounds : ℕ) → find_dtb_offset rounds fmap sz ≡ running
unfolding find_dtb_offset find_loop
find_dtb_offset-stuck fmap sz at round room rounds = go rounds 0 (omega arith)
  where
    go : (f curr : ℕ) → curr < sz → find_loop f fmap sz curr ≡ running
    go zero curr h = refl
    go (suc f) curr h = rw (lt→ltb curr sz h, round) (go f (at + 40) room)
