-- ===== src/Tests/Headers.antt =====
-- The headers of bootimg.go on concrete data.
use magiskboot_go.Base.{
  ℕ, zero, suc, ◌<◌, ◌≡◌, ◌↔◌, arith, codes, replicate, All, Bytes, [], ◌++◌, none, ret, panic,
  fatal, returns, leb, length, ◌&&◌, ◌==◌, if◌then◌else◌,
}
use magiskboot_go.Base.{IsByte}
use magiskboot_go.Boot.Headers.Laws.{boot_img_hdr_v3-IsLawful, boot_img_hdr_vnd_v4-IsLawful}
use magiskboot_go.Boot.Dyn.{DynImgHdr, DynImgV2, DynImgV3, DynImgVndV4, deref}
use magiskboot_go.Boot.Dyn.Init.{init_v2, init_v3}
use magiskboot_go.Boot.Dyn.Any
use magiskboot_go.Boot.Dyn.Any.{init, raw_size, is_vendor, page_size, hdr_space}
use magiskboot_go.Boot.Dyn.Laws.{init_v2-write, init_v3-write}
use magiskboot_go.Boot.Dyn.Ends.{init-returns, hdr_space_zero}
use magiskboot_go.Boot.Headers.{
  BootImgHdrV2, boot_img_hdr_v0, boot_img_hdr_v1, boot_img_hdr_v2, boot_img_hdr_pxa,
}
use magiskboot_go.Boot.Headers.Newer.{
  BootImgHdrV3, BootImgHdrVndV4, boot_img_hdr_v3, boot_img_hdr_v4, boot_img_hdr_vnd_v4,
}

abbrev v2_header : BootImgHdrV2
v2_header = record {
  v1 = record {
    v0 = record {
      common = record {
        magic = codes "ANDROID!";
        kernel_size = 0x900000;
        kernel_addr = 0x8000;
        ramdisk_size = 0x500000;
        ramdisk_addr = 0x1000000;
        second_size = 0;
        second_addr = 0;
      };
      tags_addr = 0x100;
      page_size = 2048;
      header_version = 2;
      os_version = 0x12000162;
      name = replicate 16 0;
      cmdline = replicate 512 32;
      id = replicate 32 7;
      extra_cmdline = replicate 1024 0;
    };
    recovery_dtbo_size = 0;
    recovery_dtbo_offset = 0;
    header_size = 1660;
  };
  dtb_size = 0x40000;
  dtb_addr = 0x1f00000;
}

v2_header-Fits : boot_img_hdr_v2.Fits v2_header
v2_header-Fits = omega arith

v3_header : BootImgHdrV3
v3_header = boot_img_hdr_v3.read (replicate 1580 1)

vnd_v4_header : BootImgHdrVndV4
vnd_v4_header = boot_img_hdr_vnd_v4.read (replicate 2128 1)

IsByte-replicate : (n c : ℕ) → c < 256 → All IsByte (replicate n c)
IsByte-replicate zero c h = tt
IsByte-replicate (suc n) c h = (h, IsByte-replicate n c h)

v3_header-Fits : boot_img_hdr_v3.Fits v3_header
unfolding v3_header
v3_header-Fits =
    boot_img_hdr_v3-IsLawful.read_Fits (replicate 1580 1) (IsByte-replicate 1580 1 (omega arith))
      (omega arith)

vnd_v4_header-Fits : boot_img_hdr_vnd_v4.Fits vnd_v4_header
unfolding vnd_v4_header
vnd_v4_header-Fits =
    boot_img_hdr_vnd_v4-IsLawful.read_Fits (replicate 2128 1)
      (IsByte-replicate 2128 1 (omega arith)) (omega arith)

-- The header of a new image: all zero.
empty : DynImgHdr
empty = record {
  kernel_size = 0;
  ramdisk_size = 0;
  second_size = 0;
  extra_size = 0;
  os_version = 0;
  name = [];
  cmdline = [];
  id = [];
  extra_cmdline = [];
  recovery_dtbo_size = 0;
  recovery_dtbo_offset = 0;
  header_size = 0;
  dtb_size = 0;
  vendor_ramdisk_table_size = 0;
  vendor_ramdisk_table_entry_num = 0;
  vendor_ramdisk_table_entry_size = 0;
  bootconfig_size = 0;
  v2_hdr = boot_img_hdr_v2.read (replicate 1660 0);
  v4_hdr = boot_img_hdr_v4.read (replicate 1584 0);
  v4_vnd = boot_img_hdr_vnd_v4.read (replicate 2128 0);
  hdr_pxa = boot_img_hdr_pxa.read (replicate 1640 0);
}

empty_v2 : DynImgV2
empty_v2 = record {
  v1 = record {
    v0 = record {
      common = record { hdr = empty; kernel_size = none; ramdisk_size = none; second_size = none };
      raw = boot_img_hdr_v0.read (replicate 1632 0);
      extra_size = none;
      os_version = none;
      name = none;
      cmdline = none;
      id = none;
      extra_cmdline = none;
    };
    raw = boot_img_hdr_v1.read (replicate 1648 0);
    recovery_dtbo_size = none;
    recovery_dtbo_offset = none;
    header_size = none;
  };
  raw = boot_img_hdr_v2.read (replicate 1660 0);
  dtb_size = none;
}

empty_v3 : DynImgV3
empty_v3 = record {
  hdr = empty;
  raw = v3_header;
  kernel_size = none;
  ramdisk_size = none;
  os_version = none;
  header_size = none;
  cmdline = none;
  extra_cmdline = none;
}

empty_vnd_v4 : DynImgVndV4
empty_vnd_v4 = record {
  vnd_v3 = record {
    hdr = empty;
    ramdisk_size = none;
    cmdline = none;
    name = none;
    header_size = none;
    dtb_size = none;
    raw = vnd_v4_header.vnd_v3;
    extra_cmdline = none;
  };
  raw = vnd_v4_header;
  bootconfig_size = none;
}

init_v2-write_example :
    (d' : DynImgV2) × (init_v2 (boot_img_hdr_v2.write v2_header ++ codes "kernel") empty_v2
      ≡ ret d')
    × (d'.v1.v0.common.hdr.v2_hdr ≡ v2_header)
    × (deref d'.v1.v0.common.kernel_size d'.v1.v0.common.hdr
        ≡ ret v2_header.v1.v0.common.kernel_size)
    × (deref d'.v1.v0.common.ramdisk_size d'.v1.v0.common.hdr
        ≡ ret v2_header.v1.v0.common.ramdisk_size)
    × (deref d'.v1.v0.common.second_size d'.v1.v0.common.hdr
        ≡ ret v2_header.v1.v0.common.second_size)
    × (deref d'.v1.v0.name d'.v1.v0.common.hdr ≡ ret v2_header.v1.v0.name)
    × (deref d'.v1.v0.cmdline d'.v1.v0.common.hdr ≡ ret v2_header.v1.v0.cmdline)
    × (deref d'.v1.recovery_dtbo_size d'.v1.v0.common.hdr ≡ ret v2_header.v1.recovery_dtbo_size)
    × (deref d'.v1.recovery_dtbo_offset d'.v1.v0.common.hdr ≡ ret v2_header.v1.recovery_dtbo_offset)
    × (deref d'.dtb_size d'.v1.v0.common.hdr ≡ ret v2_header.dtb_size)
init_v2-write_example = init_v2-write v2_header (codes "kernel") empty_v2 v2_header-Fits

init_v3-write_example :
    (d' : DynImgV3) × (init_v3 (boot_img_hdr_v3.write v3_header ++ codes "kernel") empty_v3
      ≡ ret d')
    × (d'.hdr.v4_hdr.v3 ≡ v3_header)
    × (deref d'.ramdisk_size d'.hdr ≡ ret v3_header.ramdisk_size)
    × (deref d'.os_version d'.hdr ≡ ret v3_header.os_version)
    × (deref d'.header_size d'.hdr ≡ ret v3_header.header_size)
    × (deref d'.kernel_size d'.hdr ≡ ret v3_header.header_size)
init_v3-write_example = init_v3-write v3_header (codes "kernel") empty_v3 v3_header-Fits

abbrev short_image : Bytes
short_image = replicate 100 0

init-returns_example :
    (returns (init short_image (Any.v2 empty_v2))
      ≡ leb (raw_size (Any.v2 empty_v2)) (length short_image))
    × ((init short_image (Any.v2 empty_v2) ≡ fatal)
        ↔ (length short_image < raw_size (Any.v2 empty_v2)))
init-returns_example = init-returns short_image (Any.v2 empty_v2)

hdr_space_zero_example :
    hdr_space (Any.v3 empty_v3)
    ≡ (if is_vendor (Any.v3 empty_v3) && page_size (Any.v3 empty_v3) == 0 then panic else ret 0)
hdr_space_zero_example = hdr_space_zero (Any.v3 empty_v3) (unfold page_size in omega arith)
