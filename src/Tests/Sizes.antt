-- ===== src/Tests/Sizes.antt =====
-- The sizes of the headers, as the repository's own test expects them.
use magiskboot_go.Base.{◌≡◌, refl}
use magiskboot_go.Boot.Wrappers.{mtk_hdr, dhtb_hdr, blob_hdr, zimage_hdr}
use magiskboot_go.Boot.Wrappers.Avb.{avb_footer, avb_vbmeta_image_header}
use magiskboot_go.Boot.Headers.{boot_img_hdr_v0, boot_img_hdr_v1, boot_img_hdr_v2, boot_img_hdr_pxa}
use magiskboot_go.Boot.Headers.Newer.{
  boot_img_hdr_v3, boot_img_hdr_v4, boot_img_hdr_vnd_v3, boot_img_hdr_vnd_v4,
}

image_sizes :
    (boot_img_hdr_v0.size ≡ 1632)
    × (boot_img_hdr_v1.size ≡ 1648)
    × (boot_img_hdr_v2.size ≡ 1660)
    × (boot_img_hdr_pxa.size ≡ 1640)
    × (boot_img_hdr_v3.size ≡ 1580)
    × (boot_img_hdr_v4.size ≡ 1584)
    × (boot_img_hdr_vnd_v3.size ≡ 2112)
    × (boot_img_hdr_vnd_v4.size ≡ 2128)
image_sizes = (refl, refl, refl, refl, refl, refl, refl, refl)

wrapper_sizes :
    (mtk_hdr.size ≡ 512)
    × (dhtb_hdr.size ≡ 512)
    × (blob_hdr.size ≡ 104)
    × (zimage_hdr.size ≡ 52)
    × (avb_footer.size ≡ 64)
    × (avb_vbmeta_image_header.size ≡ 256)
wrapper_sizes = (refl, refl, refl, refl, refl, refl)
