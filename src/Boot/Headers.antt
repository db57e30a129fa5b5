-- ===== src/Boot/Headers.antt =====
-- The headers of boot images of versions 0 to 2, each an extension of the one before, and that of
-- Samsung's PXA.
pub mod Newer
pub mod Laws
use magiskboot_go.Base.{ℕ, ◌+◌, ◌≡◌, refl, List, Bytes}
use magiskboot_go.Boot.Layout.{Layout, u32, u64, array, many, ◌⊗◌, struct}

abbrev pub boot_magic_size : ℕ
boot_magic_size = 8

abbrev pub boot_name_size : ℕ
boot_name_size = 16

abbrev pub boot_id_size : ℕ
boot_id_size = 32

abbrev pub boot_args_size : ℕ
boot_args_size = 512

abbrev pub boot_extra_args_size : ℕ
boot_extra_args_size = 1024

abbrev pub vendor_boot_args_size : ℕ
vendor_boot_args_size = 2048

abbrev pub vendor_ramdisk_name_size : ℕ
vendor_ramdisk_name_size = 32

abbrev pub vendor_ramdisk_table_entry_board_id_size : ℕ
vendor_ramdisk_table_entry_board_id_size = 16

-- `BootImgHdrV0Common`.
pub record BootImgHdrV0Common : Type 0 where
  pub magic : Bytes
  pub kernel_size : ℕ
  pub kernel_addr : ℕ
  pub ramdisk_size : ℕ
  pub ramdisk_addr : ℕ
  pub second_size : ℕ
  pub second_addr : ℕ

abbrev pub boot_img_hdr_v0_common : Layout BootImgHdrV0Common
boot_img_hdr_v0_common =
    struct
      (λ (
        magic,
        (kernel_size, (kernel_addr, (ramdisk_size, (ramdisk_addr, (second_size, second_addr))))),
      ).
        record {
          magic = magic;
          kernel_size = kernel_size;
          kernel_addr = kernel_addr;
          ramdisk_size = ramdisk_size;
          ramdisk_addr = ramdisk_addr;
          second_size = second_size;
          second_addr = second_addr;
        })
      (λ s. (
        s.magic,
        (
          s.kernel_size,
          (s.kernel_addr, (s.ramdisk_size, (s.ramdisk_addr, (s.second_size, s.second_addr)))),
        ),
      ))
      (array boot_magic_size ⊗ u32 ⊗ u32 ⊗ u32 ⊗ u32 ⊗ u32 ⊗ u32)

-- `BootImgHdrV0`.
pub record BootImgHdrV0 : Type 0 where
  pub common : BootImgHdrV0Common
  pub tags_addr : ℕ
  pub page_size : ℕ
  pub header_version : ℕ
  pub os_version : ℕ
  pub name : Bytes
  pub cmdline : Bytes
  pub id : Bytes
  pub extra_cmdline : Bytes

abbrev pub boot_img_hdr_v0 : Layout BootImgHdrV0
boot_img_hdr_v0 =
    struct
      (λ (
        common,
        (
          tags_addr,
          (page_size, (header_version, (os_version, (name, (cmdline, (id, extra_cmdline)))))),
        ),
      ).
        record {
          common = common;
          tags_addr = tags_addr;
          page_size = page_size;
          header_version = header_version;
          os_version = os_version;
          name = name;
          cmdline = cmdline;
          id = id;
          extra_cmdline = extra_cmdline;
        })
      (λ s. (
        s.common,
        (
          s.tags_addr,
          (
            s.page_size,
            (s.header_version, (s.os_version, (s.name, (s.cmdline, (s.id, s.extra_cmdline))))),
          ),
        ),
      ))
      (boot_img_hdr_v0_common
        ⊗ u32
        ⊗ u32
        ⊗ u32
        ⊗ u32
        ⊗ array boot_name_size
        ⊗ array boot_args_size
        ⊗ array boot_id_size
        ⊗ array boot_extra_args_size)

-- `BootImgHdrV1`.
pub record BootImgHdrV1 : Type 0 where
  pub v0 : BootImgHdrV0
  pub recovery_dtbo_size : ℕ
  pub recovery_dtbo_offset : ℕ
  pub header_size : ℕ

abbrev pub boot_img_hdr_v1 : Layout BootImgHdrV1
boot_img_hdr_v1 =
    struct
      (λ (v0, (recovery_dtbo_size, (recovery_dtbo_offset, header_size))). record {
        v0 = v0;
        recovery_dtbo_size = recovery_dtbo_size;
        recovery_dtbo_offset = recovery_dtbo_offset;
        header_size = header_size;
      })
      (λ s. (s.v0, (s.recovery_dtbo_size, (s.recovery_dtbo_offset, s.header_size))))
      (boot_img_hdr_v0 ⊗ u32 ⊗ u64 ⊗ u32)

-- `BootImgHdrV2`.
pub record BootImgHdrV2 : Type 0 where
  pub v1 : BootImgHdrV1
  pub dtb_size : ℕ
  pub dtb_addr : ℕ

abbrev pub boot_img_hdr_v2 : Layout BootImgHdrV2
boot_img_hdr_v2 =
    struct
      (λ (v1, (dtb_size, dtb_addr)). record { v1 = v1; dtb_size = dtb_size; dtb_addr = dtb_addr })
      (λ s. (s.v1, (s.dtb_size, s.dtb_addr))) (boot_img_hdr_v1 ⊗ u32 ⊗ u64)

-- `BootImgHdrPxa`.
pub record BootImgHdrPxa : Type 0 where
  pub common : BootImgHdrV0Common
  pub extra_size : ℕ
  pub unknown : ℕ
  pub tags_addr : ℕ
  pub page_size : ℕ
  pub name : Bytes
  pub cmdline : Bytes
  pub id : Bytes
  pub extra_cmdline : Bytes

abbrev pub boot_img_hdr_pxa : Layout BootImgHdrPxa
boot_img_hdr_pxa =
    struct
      (λ (
        common,
        (extra_size, (unknown, (tags_addr, (page_size, (name, (cmdline, (id, extra_cmdline))))))),
      ).
        record {
          common = common;
          extra_size = extra_size;
          unknown = unknown;
          tags_addr = tags_addr;
          page_size = page_size;
          name = name;
          cmdline = cmdline;
          id = id;
          extra_cmdline = extra_cmdline;
        })
      (λ s. (
        s.common,
        (
          s.extra_size,
          (s.unknown, (s.tags_addr, (s.page_size, (s.name, (s.cmdline, (s.id, s.extra_cmdline)))))),
        ),
      ))
      (boot_img_hdr_v0_common
        ⊗ u32
        ⊗ u32
        ⊗ u32
        ⊗ u32
        ⊗ array 24
        ⊗ array boot_args_size
        ⊗ array boot_id_size
        ⊗ array boot_extra_args_size)
