-- ===== src/Boot/Dyn/Laws.antt =====
-- What `Init` leaves in an image's header, and when it returns.
use magiskboot_go.Base.{◌≤◌, ◌<◌, ◌≡◌, refl, ap, ◌∙◌, arith, ◌++◌, le→ltb, lt→ltb}
use magiskboot_go.Base.{All, Bytes, length, take, length-append, ret, fatal}
use magiskboot_go.Boot.Layout.{Layout}
use magiskboot_go.Base.{IsByte}
use magiskboot_go.Boot.Layout.Laws.{IsLawful}
use magiskboot_go.Boot.Headers.{BootImgHdrV2, boot_img_hdr_v0, boot_img_hdr_v1, boot_img_hdr_v2}
use magiskboot_go.Boot.Headers.Newer.{
  BootImgHdrV3, BootImgHdrVndV4, boot_img_hdr_v3, boot_img_hdr_vnd_v3, boot_img_hdr_vnd_v4,
}
use magiskboot_go.Boot.Headers.Laws.{
  boot_img_hdr_v2-IsLawful, boot_img_hdr_v3-IsLawful, boot_img_hdr_vnd_v4-IsLawful,
}
use magiskboot_go.Boot.Dyn.{deref, DynImgV2, DynImgV3, DynImgVndV4}
use magiskboot_go.Boot.Dyn.Init.{
  fill_v0, fill_v1, fill_v2, fill_v3, fill_vnd_v3, fill_vnd_v4, read_raw, init_v0, init_v1, init_v2,
  init_v3, init_vnd_v3, init_vnd_v4,
}

pub read_raw-long :
    {A : Type 0} (l : Layout A) (b : Bytes) → l.size ≤ length b → read_raw l b ≡ ret (l.read b)
unfolding read_raw
read_raw-long l b h = rw (le→ltb (length b) l.size h)

pub read_raw-short :
    {A : Type 0} (l : Layout A) (b : Bytes) → length b < l.size → read_raw l b ≡ fatal
unfolding read_raw
read_raw-short l b h = rw (lt→ltb (length b) l.size h)

-- A header, and what stands behind it.
module _ {A : Type 0} {l : Layout A} (hl : IsLawful l) (h : A) (rest : Bytes)
    (fits : l.Fits h) where
  length-image : l.size ≤ length (l.write h ++ rest)
  length-image = omega (arith, length-append (l.write h) rest, hl.length_write h fits)

  read_raw-write : read_raw l (l.write h ++ rest) ≡ ret h
  read_raw-write =
      read_raw-long l (l.write h ++ rest) length-image ∙ ap ret (hl.read_write h rest fits)

-- Of an image that begins with a header of version 2, whose values fit in their fields, `Init`
-- returns that header, and the pointers to the sizes of the kernel, the ramdisk, the second image,
-- the device tree overlay and the device tree, to the name, the command line and the overlay's
-- offset lead to these fields, whatever was there before.
pub init_v2-write :
    (h : BootImgHdrV2) (rest : Bytes) (d : DynImgV2)
    → boot_img_hdr_v2.Fits h
    → (d' : DynImgV2) × (init_v2 (boot_img_hdr_v2.write h ++ rest) d ≡ ret d')
      × (d'.v1.v0.common.hdr.v2_hdr ≡ h)
      × (deref d'.v1.v0.common.kernel_size d'.v1.v0.common.hdr ≡ ret h.v1.v0.common.kernel_size)
      × (deref d'.v1.v0.common.ramdisk_size d'.v1.v0.common.hdr ≡ ret h.v1.v0.common.ramdisk_size)
      × (deref d'.v1.v0.common.second_size d'.v1.v0.common.hdr ≡ ret h.v1.v0.common.second_size)
      × (deref d'.v1.v0.name d'.v1.v0.common.hdr ≡ ret h.v1.v0.name)
      × (deref d'.v1.v0.cmdline d'.v1.v0.common.hdr ≡ ret h.v1.v0.cmdline)
      × (deref d'.v1.recovery_dtbo_size d'.v1.v0.common.hdr ≡ ret h.v1.recovery_dtbo_size)
      × (deref d'.v1.recovery_dtbo_offset d'.v1.v0.common.hdr ≡ ret h.v1.recovery_dtbo_offset)
      × (deref d'.dtb_size d'.v1.v0.common.hdr ≡ ret h.dtb_size)
unfolding init_v2 init_v1 init_v0 deref
init_v2-write h rest d fits =
    let b = boot_img_hdr_v2.write h ++ rest in
    let long : 1660 ≤ length b = length-image boot_img_hdr_v2-IsLawful h rest fits in
    (
      fill_v2 h (fill_v1 (boot_img_hdr_v1.read b) (fill_v0 (boot_img_hdr_v0.read b) d.v1.v0)),
      rw
          (
            read_raw-write boot_img_hdr_v2-IsLawful h rest fits,
            read_raw-long boot_img_hdr_v1 b (omega arith),
            read_raw-long boot_img_hdr_v0 b (omega arith),
          )
          refl,
      refl,
      refl,
      refl,
      refl,
      refl,
      refl,
      refl,
      refl,
      refl,
    )

-- Of an image that begins with a header of version 3, whose values fit in their fields, `Init`
-- returns that header, and the pointers to the ramdisk's size, the version and the header's size lead
-- to these; but the pointer to the kernel's size leads to the header's size.
pub init_v3-write :
    (h : BootImgHdrV3) (rest : Bytes) (d : DynImgV3)
    → boot_img_hdr_v3.Fits h
    → (d' : DynImgV3) × (init_v3 (boot_img_hdr_v3.write h ++ rest) d ≡ ret d')
      × (d'.hdr.v4_hdr.v3 ≡ h)
      × (deref d'.ramdisk_size d'.hdr ≡ ret h.ramdisk_size)
      × (deref d'.os_version d'.hdr ≡ ret h.os_version)
      × (deref d'.header_size d'.hdr ≡ ret h.header_size)
      × (deref d'.kernel_size d'.hdr ≡ ret h.header_size)
unfolding init_v3 deref
init_v3-write h rest d fits = (
  fill_v3 h d,
  rw (read_raw-write boot_img_hdr_v3-IsLawful h rest fits) refl,
  refl,
  refl,
  refl,
  refl,
  refl,
)

-- Of an image that begins with a vendor header of version 4, whose values fit in their fields,
-- `Init` returns that header, and every pointer that it sets leads to its field in the copy of the
-- version that it belongs to.
init_vnd_v4-write :
    (h : BootImgHdrVndV4) (rest : Bytes) (d : DynImgVndV4)
    → boot_img_hdr_vnd_v4.Fits h
    → (d' : DynImgVndV4) × (init_vnd_v4 (boot_img_hdr_vnd_v4.write h ++ rest) d ≡ ret d')
      × (d'.vnd_v3.hdr.v4_vnd ≡ h)
      × (d'.raw ≡ h)
      × (deref d'.vnd_v3.ramdisk_size d'.vnd_v3.raw ≡ ret h.vnd_v3.ramdisk_size)
      × (deref d'.vnd_v3.cmdline d'.vnd_v3.raw ≡ ret h.vnd_v3.cmdline)
      × (deref d'.vnd_v3.name d'.vnd_v3.raw ≡ ret h.vnd_v3.name)
      × (deref d'.vnd_v3.header_size d'.vnd_v3.raw ≡ ret h.vnd_v3.header_size)
      × (deref d'.vnd_v3.dtb_size d'.vnd_v3.raw ≡ ret h.vnd_v3.dtb_size)
      × (deref d'.bootconfig_size d'.raw ≡ ret h.bootconfig_size)
unfolding init_vnd_v4 init_vnd_v3 deref
init_vnd_v4-write h rest d fits =
    let b = boot_img_hdr_vnd_v4.write h ++ rest in
    let long : 2128 ≤ length b = length-image boot_img_hdr_vnd_v4-IsLawful h rest fits in
    let same : boot_img_hdr_vnd_v3.read b ≡ h.vnd_v3 =
      ap (λ (k : BootImgHdrVndV4). k.vnd_v3)
        (boot_img_hdr_vnd_v4-IsLawful.read_write h rest fits) in
    (
      fill_vnd_v4 h (fill_vnd_v3 h.vnd_v3 d.vnd_v3),
      rw
          (
            read_raw-write boot_img_hdr_vnd_v4-IsLawful h rest fits,
            read_raw-long boot_img_hdr_vnd_v3 b (omega arith),
            same,
          )
          refl,
      refl,
      refl,
      refl,
      refl,
      refl,
      refl,
      refl,
      refl,
    )

-- Nothing of the header is lost: of every image of at least the size of a header of version 2,
-- `Init` returns one that is written as the bytes that the image begins with.
init_v2-take :
    (b : Bytes) (d : DynImgV2)
    → All IsByte b
    → boot_img_hdr_v2.size ≤ length b
    → (d' : DynImgV2) × (init_v2 b d ≡ ret d')
      × (boot_img_hdr_v2.write d'.v1.v0.common.hdr.v2_hdr ≡ take boot_img_hdr_v2.size b)
unfolding init_v2 init_v1 init_v0
init_v2-take b d bytes long = (
  fill_v2 (boot_img_hdr_v2.read b)
      (fill_v1 (boot_img_hdr_v1.read b) (fill_v0 (boot_img_hdr_v0.read b) d.v1.v0)),
  rw
      (
        read_raw-long boot_img_hdr_v2 b long,
        read_raw-long boot_img_hdr_v1 b (omega arith),
        read_raw-long boot_img_hdr_v0 b (omega arith),
      )
      refl,
  boot_img_hdr_v2-IsLawful.write_read b bytes long,
)
