-- ===== src/Boot/Img.antt =====
-- `BootImg`, its flags and its methods.
use magiskboot_go.Base.{ℕ, Bool, false, Option, Bytes}
use magiskboot_go.Format.{Format}
use magiskboot_go.Boot.Wrappers.{MtkHdr, ZimageHdr}
use magiskboot_go.Boot.Wrappers.Avb.{AvbFooter, AvbVbmetaImageHeader}
use magiskboot_go.Boot.Dyn.{DynImgHdr}

-- `bootFlag`.
pub data BootFlag : Type 0 where
  mtk_kernel mtk_ramdisk chromeos_flag dhtb_flag seandroid_flag lg_bump_flag sha256_flag : BootFlag
  blob_flag nookhd_flag acclaim_flag amonet_flag avb1_signed_flag avb_flag : BootFlag
  zimage_kernel boot_flags_max : BootFlag

-- The number of a flag.
unfoldable pub flag_number : BootFlag → ℕ
flag_number mtk_kernel = 0
flag_number mtk_ramdisk = 1
flag_number chromeos_flag = 2
flag_number dhtb_flag = 3
flag_number seandroid_flag = 4
flag_number lg_bump_flag = 5
flag_number sha256_flag = 6
flag_number blob_flag = 7
flag_number nookhd_flag = 8
flag_number acclaim_flag = 9
flag_number amonet_flag = 10
flag_number avb1_signed_flag = 11
flag_number avb_flag = 12
flag_number zimage_kernel = 13
flag_number boot_flags_max = 14

pub record ZInfo : Type 0 where
  pub hdr_sz : ℕ
  pub tail : Bytes

pub record BootImg : Type 0 where
  pub map : Bytes
  pub hdr : DynImgHdr
  pub flags : ℕ
  pub k_fmt : Format
  pub r_fmt : Format
  pub e_fmt : Format
  pub payload : Bytes
  pub tail : Bytes
  pub k_hdr : Option MtkHdr
  pub r_hdr : Option MtkHdr
  pub z_hdr : Option ZimageHdr
  pub z_info : ZInfo
  pub avb_footer : Option AvbFooter
  pub vbmeta : Option AvbVbmetaImageHeader
  pub kernel : Option Bytes
  pub ramdisk : Option Bytes
  pub second : Option Bytes
  pub extra : Option Bytes
  pub recovery_dtbo : Option Bytes
  pub dtb : Option Bytes
  pub signature : Option Bytes
  pub vendor_ramdisk_table : Option Bytes
  pub bootconfig : Option Bytes
  pub kernel_dtb : Bytes
  pub ignore : Bytes

unfoldable pub get_payload : BootImg → Bytes
get_payload b = b.payload

unfoldable pub get_tail : BootImg → Bytes
get_tail b = b.tail

-- Not implemented in the code: every image fails.
unfoldable pub verify : BootImg → Bytes → Bool
verify b cert = false

-- `New`, `ParseImage` and `CreateHdr` have empty bodies in the code.
unfoldable pub new : BootImg → Bytes → BootImg
new b path = b

unfoldable pub parse_image : BootImg → Bytes → Format → BootImg
parse_image b addr t = b

unfoldable pub create_hdr : BootImg → Bytes → Format → BootImg
create_hdr b addr t = b
