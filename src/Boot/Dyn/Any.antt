-- ===== src/Boot/Dyn/Any.antt =====
-- The `DynImg` types as one type with a constructor for each, and their methods, each the one that
-- the type has or takes from the type that it embeds.
use magiskboot_go.Base.{ℕ, Bool, true, false, Bytes, Outcome, ret, ◌>>=◌}
use magiskboot_go.Common.{align_to}
use magiskboot_go.Boot.Headers.{boot_img_hdr_v0, boot_img_hdr_v1, boot_img_hdr_v2, boot_img_hdr_pxa}
use magiskboot_go.Boot.Headers.Newer.{
  boot_img_hdr_v3, boot_img_hdr_v4, boot_img_hdr_vnd_v3, boot_img_hdr_vnd_v4,
}
use magiskboot_go.Boot.Dyn.{
  DynImgHdr, DynImgV0, DynImgV1, DynImgV2, DynImgPxa, DynImgV3, DynImgV4, DynImgVndV3, DynImgVndV4,
}
use magiskboot_go.Boot.Dyn.Init.{
  init_v0, init_v1, init_v2, init_pxa, init_v3, init_v4, init_vnd_v3, init_vnd_v4,
}

pub data DynImg : Type 0 where
  v0 : DynImgV0 → DynImg
  v1 : DynImgV1 → DynImg
  v2 : DynImgV2 → DynImg
  pxa : DynImgPxa → DynImg
  v3 : DynImgV3 → DynImg
  v4 : DynImgV4 → DynImg
  vnd_v3 : DynImgVndV3 → DynImg
  vnd_v4 : DynImgVndV4 → DynImg

-- The `DynImgHdr` that is embedded at the bottom.
unfoldable pub base : DynImg → DynImgHdr
base (v0 d) = d.common.hdr
base (v1 d) = d.v0.common.hdr
base (v2 d) = d.v1.v0.common.hdr
base (pxa d) = d.common.hdr
base (v3 d) = d.hdr
base (v4 d) = d.v3.hdr
base (vnd_v3 d) = d.hdr
base (vnd_v4 d) = d.vnd_v3.hdr

unfoldable pub is_vendor : DynImg → Bool
is_vendor (vnd_v3 d) = true
is_vendor (vnd_v4 d) = true
is_vendor _ = false

-- The methods of `DynImgHdr` itself, which a type has where neither it nor a type that it embeds has
-- them.
unfoldable pub hdr_hdr_size : DynImgHdr → ℕ
hdr_hdr_size d = 0

unfoldable pub hdr_header_version : DynImgHdr → ℕ
hdr_header_version d = 0

unfoldable pub hdr_page_size : DynImgHdr → ℕ
hdr_page_size d = 0

unfoldable pub hdr_signature_size : DynImgHdr → ℕ
hdr_signature_size d = 0

-- `HdrSpace` of `DynImgHdr`, on the receiver that it has, calls the `PageSize` of `DynImgHdr`.
unfoldable pub hdr_hdr_space : DynImgHdr → ℕ
unfolding hdr_page_size
hdr_hdr_space d = hdr_page_size d

-- `DynImgV1` and `DynImgV2` take `HdrSize` from `DynImgV0`.
unfoldable pub hdr_size : DynImg → ℕ
unfolding hdr_hdr_size base
hdr_size (v0 d) = boot_img_hdr_v0.size
hdr_size (v1 d) = boot_img_hdr_v0.size
hdr_size (v2 d) = boot_img_hdr_v0.size
hdr_size img = hdr_hdr_size (base img)

unfoldable pub header_version : DynImg → ℕ
unfolding hdr_header_version base
header_version (v1 d) = d.v0.common.hdr.v2_hdr.v1.v0.header_version
header_version (v2 d) = d.v1.v0.common.hdr.v2_hdr.v1.v0.header_version
header_version (v3 d) = d.hdr.v4_hdr.v3.header_version
header_version (v4 d) = d.v3.hdr.v4_hdr.v3.header_version
header_version (vnd_v3 d) = d.hdr.v4_vnd.vnd_v3.header_version
header_version (vnd_v4 d) = d.vnd_v3.hdr.v4_vnd.vnd_v3.header_version
header_version img = hdr_header_version (base img)

unfoldable pub page_size : DynImg → ℕ
page_size (v0 d) = d.common.hdr.v2_hdr.v1.v0.page_size
page_size (v1 d) = d.v0.common.hdr.v2_hdr.v1.v0.page_size
page_size (v2 d) = d.v1.v0.common.hdr.v2_hdr.v1.v0.page_size
page_size (pxa d) = d.common.hdr.hdr_pxa.page_size
page_size (v3 d) = 4096
page_size (v4 d) = 4096
page_size (vnd_v3 d) = d.hdr.v4_vnd.vnd_v3.page_size
page_size (vnd_v4 d) = d.vnd_v3.hdr.v4_vnd.vnd_v3.page_size

unfoldable pub signature_size : DynImg → ℕ
unfolding hdr_signature_size base
signature_size (v4 d) = d.v3.hdr.v4_hdr.signature_size
signature_size img = hdr_signature_size (base img)

-- `HdrSpace`: `DynImgVndV3` has its own, which calls the `HdrSize` and the `PageSize` of that type;
-- every other type that is no vendor image has that of the embedded `DynImgHdr`.
unfoldable pub hdr_space : DynImg → Outcome ℕ
unfolding hdr_size page_size hdr_hdr_space base
hdr_space (vnd_v3 d) = align_to (hdr_size (vnd_v3 d)) (page_size (vnd_v3 d))
hdr_space (vnd_v4 d) = align_to (hdr_size (vnd_v4 d)) (page_size (vnd_v4 d))
hdr_space img = ret (hdr_hdr_space (base img))

-- `ExtraSize` of `DynImgV1`, which stands before the field of `DynImgV0`.
unfoldable pub extra_size : DynImgV1 → ℕ
extra_size d = 0

unfoldable pub vendor_ramdisk_table_size : DynImgVndV4 → ℕ
vendor_ramdisk_table_size d = d.vnd_v3.hdr.v4_vnd.vendor_ramdisk_table_size

unfoldable pub vendor_ramdisk_table_entry_num : DynImgVndV4 → ℕ
vendor_ramdisk_table_entry_num d = d.vnd_v3.hdr.v4_vnd.vendor_ramdisk_table_entry_num

unfoldable pub vendor_ramdisk_table_entry_size : DynImgVndV4 → ℕ
vendor_ramdisk_table_entry_size d = d.vnd_v3.hdr.v4_vnd.vendor_ramdisk_table_entry_size

-- The size of the struct that `Init` reads.
unfoldable pub raw_size : DynImg → ℕ
raw_size (v0 d) = boot_img_hdr_v0.size
raw_size (v1 d) = boot_img_hdr_v1.size
raw_size (v2 d) = boot_img_hdr_v2.size
raw_size (pxa d) = boot_img_hdr_pxa.size
raw_size (v3 d) = boot_img_hdr_v3.size
raw_size (v4 d) = boot_img_hdr_v4.size
raw_size (vnd_v3 d) = boot_img_hdr_vnd_v3.size
raw_size (vnd_v4 d) = boot_img_hdr_vnd_v4.size

-- `Init`.
unfoldable pub init : Bytes → DynImg → Outcome DynImg
init bytes (v0 d) = init_v0 bytes d >>= λ d'. ret (v0 d')
init bytes (v1 d) = init_v1 bytes d >>= λ d'. ret (v1 d')
init bytes (v2 d) = init_v2 bytes d >>= λ d'. ret (v2 d')
init bytes (pxa d) = init_pxa bytes d >>= λ d'. ret (pxa d')
init bytes (v3 d) = init_v3 bytes d >>= λ d'. ret (v3 d')
init bytes (v4 d) = init_v4 bytes d >>= λ d'. ret (v4 d')
init bytes (vnd_v3 d) = init_vnd_v3 bytes d >>= λ d'. ret (vnd_v3 d')
init bytes (vnd_v4 d) = init_vnd_v4 bytes d >>= λ d'. ret (vnd_v4 d')
