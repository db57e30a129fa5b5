-- ===== src/Boot/Dyn.antt =====
-- The header that is chosen when an image is read: the `DynImg` types. Each embeds
-- `DynImgHdr`, which has room for the headers of all versions, and adds pointers into it.
pub mod Init
pub mod Any
pub mod Methods
pub mod Laws
pub mod Ends
use magiskboot_go.Base.{ℕ, Option, none, some, Bytes, Outcome, ret, panic}
use magiskboot_go.Boot.Headers.{BootImgHdrV0, BootImgHdrV1, BootImgHdrV2, BootImgHdrPxa}
use magiskboot_go.Boot.Headers.Newer.{BootImgHdrV3, BootImgHdrV4, BootImgHdrVndV3, BootImgHdrVndV4}

-- `DynImgHdr`. The numbers and texts before the headers are never written.
pub record DynImgHdr : Type 0 where
  pub kernel_size : ℕ
  pub ramdisk_size : ℕ
  pub second_size : ℕ
  pub extra_size : ℕ
  pub os_version : ℕ
  pub name : Bytes
  pub cmdline : Bytes
  pub id : Bytes
  pub extra_cmdline : Bytes
  pub recovery_dtbo_size : ℕ
  pub recovery_dtbo_offset : ℕ
  pub header_size : ℕ
  pub dtb_size : ℕ
  pub vendor_ramdisk_table_size : ℕ
  pub vendor_ramdisk_table_entry_num : ℕ
  pub vendor_ramdisk_table_entry_size : ℕ
  pub bootconfig_size : ℕ
  pub v2_hdr : BootImgHdrV2
  pub v4_hdr : BootImgHdrV4
  pub v4_vnd : BootImgHdrVndV4
  pub hdr_pxa : BootImgHdrPxa

-- A pointer into a struct: nil, or the place in it, so that what is read through the pointer is what
-- stands there at that time.
abbrev pub Pointer : Type 0 → Type 0 → Type 0
Pointer S A = Option (S → A)

-- `*p`.
unfoldable pub deref : {S A : Type 0} → Pointer S A → S → Outcome A
deref none s = panic
deref (some place) s = ret (place s)

-- `DynImgCommon`, with the `DynImgHdrBoot` in it.
pub record DynImgCommon : Type 0 where
  pub hdr : DynImgHdr
  pub kernel_size : Pointer DynImgHdr ℕ
  pub ramdisk_size : Pointer DynImgHdr ℕ
  pub second_size : Pointer DynImgHdr ℕ

pub record DynImgV0 : Type 0 where
  pub common : DynImgCommon
  pub raw : BootImgHdrV0
  pub extra_size : Pointer DynImgHdr ℕ
  pub os_version : Pointer DynImgHdr ℕ
  pub name : Pointer DynImgHdr Bytes
  pub cmdline : Pointer DynImgHdr Bytes
  pub id : Pointer DynImgHdr Bytes
  pub extra_cmdline : Pointer DynImgHdr Bytes

pub record DynImgV1 : Type 0 where
  pub v0 : DynImgV0
  pub raw : BootImgHdrV1
  pub recovery_dtbo_size : Pointer DynImgHdr ℕ
  pub recovery_dtbo_offset : Pointer DynImgHdr ℕ
  pub header_size : Pointer DynImgHdr ℕ

pub record DynImgV2 : Type 0 where
  pub v1 : DynImgV1
  pub raw : BootImgHdrV2
  pub dtb_size : Pointer DynImgHdr ℕ

pub record DynImgPxa : Type 0 where
  pub common : DynImgCommon
  pub raw : BootImgHdrPxa
  pub extra_size : Pointer DynImgHdr ℕ
  pub name : Pointer DynImgHdr Bytes
  pub cmdline : Pointer DynImgHdr Bytes
  pub id : Pointer DynImgHdr Bytes
  pub extra_cmdline : Pointer DynImgHdr Bytes

-- `DynImgV3` embeds `DynImgHdrBoot` at once.
pub record DynImgV3 : Type 0 where
  pub hdr : DynImgHdr
  pub raw : BootImgHdrV3
  pub kernel_size : Pointer DynImgHdr ℕ
  pub ramdisk_size : Pointer DynImgHdr ℕ
  pub os_version : Pointer DynImgHdr ℕ
  pub header_size : Pointer DynImgHdr ℕ
  pub cmdline : Pointer DynImgHdr Bytes
  pub extra_cmdline : Pointer DynImgHdr Bytes

pub record DynImgV4 : Type 0 where
  pub v3 : DynImgV3
  pub raw : BootImgHdrV4

-- The pointers of a vendor image go into `Raw`; `extra_cmdline` is never set.
pub record DynImgVndV3 : Type 0 where
  pub hdr : DynImgHdr
  pub ramdisk_size : Pointer BootImgHdrVndV3 ℕ
  pub cmdline : Pointer BootImgHdrVndV3 Bytes
  pub name : Pointer BootImgHdrVndV3 Bytes
  pub header_size : Pointer BootImgHdrVndV3 ℕ
  pub dtb_size : Pointer BootImgHdrVndV3 ℕ
  pub raw : BootImgHdrVndV3
  pub extra_cmdline : Pointer BootImgHdrVndV3 Bytes

pub record DynImgVndV4 : Type 0 where
  pub vnd_v3 : DynImgVndV3
  pub raw : BootImgHdrVndV4
  pub bootconfig_size : Pointer BootImgHdrVndV4 ℕ
