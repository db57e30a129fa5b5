-- ===== src/Boot/Headers/Newer.antt =====
-- The headers of versions 3 and 4, and those of vendor boot images.
use magiskboot_go.Base.{ℕ, ◌+◌, List, Bytes}
use magiskboot_go.Boot.Layout.{Layout, u32, u64, array, many, ◌⊗◌, struct}
use magiskboot_go.Boot.Headers.{
  boot_magic_size, boot_name_size, boot_args_size, boot_extra_args_size, vendor_boot_args_size,
  vendor_ramdisk_name_size, vendor_ramdisk_table_entry_board_id_size,
}

-- `BootImgHdrV3`.
pub record BootImgHdrV3 : Type 0 where
  pub magic : Bytes
  pub kernel_size : ℕ
  pub ramdisk_size : ℕ
  pub os_version : ℕ
  pub header_size : ℕ
  pub reserved : List ℕ
  pub header_version : ℕ
  pub cmdline : Bytes

abbrev pub boot_img_hdr_v3 : Layout BootImgHdrV3
boot_img_hdr_v3 =
    struct
      (λ (
        magic,
        (
          kernel_size,
          (ramdisk_size, (os_version, (header_size, (reserved, (header_version, cmdline))))),
        ),
      ).
        record {
          magic = magic;
          kernel_size = kernel_size;
          ramdisk_size = ramdisk_size;
          os_version = os_version;
          header_size = header_size;
          reserved = reserved;
          header_version = header_version;
          cmdline = cmdline;
        })
      (λ s. (
        s.magic,
        (
          s.kernel_size,
          (
            s.ramdisk_size,
            (s.os_version, (s.header_size, (s.reserved, (s.header_version, s.cmdline)))),
          ),
        ),
      ))
      (array boot_magic_size
        ⊗ u32
        ⊗ u32
        ⊗ u32
        ⊗ u32
        ⊗ many 4 u32
        ⊗ u32
        ⊗ array (boot_args_size + boot_extra_args_size))

-- `BootImgHdrVndV3`.
pub record BootImgHdrVndV3 : Type 0 where
  pub magic : Bytes
  pub header_version : ℕ
  pub page_size : ℕ
  pub kernel_addr : ℕ
  pub ramdisk_addr : ℕ
  pub ramdisk_size : ℕ
  pub cmdline : Bytes
  pub tags_addr : ℕ
  pub name : Bytes
  pub header_size : ℕ
  pub dtb_size : ℕ
  pub dtb_addr : ℕ

abbrev pub boot_img_hdr_vnd_v3 : Layout BootImgHdrVndV3
boot_img_hdr_vnd_v3 =
    struct
      (λ (
        magic,
        (
          header_version,
          (
            page_size,
            (
              kernel_addr,
              (
                ramdisk_addr,
                (ramdisk_size, (cmdline, (tags_addr, (name, (header_size, (dtb_size, dtb_addr)))))),
              ),
            ),
          ),
        ),
      ).
        record {
          magic = magic;
          header_version = header_version;
          page_size = page_size;
          kernel_addr = kernel_addr;
          ramdisk_addr = ramdisk_addr;
          ramdisk_size = ramdisk_size;
          cmdline = cmdline;
          tags_addr = tags_addr;
          name = name;
          header_size = header_size;
          dtb_size = dtb_size;
          dtb_addr = dtb_addr;
        })
      (λ s. (
        s.magic,
        (
          s.header_version,
          (
            s.page_size,
            (
              s.kernel_addr,
              (
                s.ramdisk_addr,
                (
                  s.ramdisk_size,
                  (s.cmdline, (s.tags_addr, (s.name, (s.header_size, (s.dtb_size, s.dtb_addr))))),
                ),
              ),
            ),
          ),
        ),
      ))
      (array boot_magic_size
        ⊗ u32
        ⊗ u32
        ⊗ u32
        ⊗ u32
        ⊗ u32
        ⊗ array vendor_boot_args_size
        ⊗ u32
        ⊗ array boot_name_size
        ⊗ u32
        ⊗ u32
        ⊗ u64)

-- `BootImgHdrV4`.
pub record BootImgHdrV4 : Type 0 where
  pub v3 : BootImgHdrV3
  pub signature_size : ℕ

abbrev pub boot_img_hdr_v4 : Layout BootImgHdrV4
boot_img_hdr_v4 =
    struct (λ (v3, signature_size). record { v3 = v3; signature_size = signature_size })
      (λ s. (s.v3, s.signature_size)) (boot_img_hdr_v3 ⊗ u32)

-- `BootImgHdrVndV4`.
pub record BootImgHdrVndV4 : Type 0 where
  pub vnd_v3 : BootImgHdrVndV3
  pub vendor_ramdisk_table_size : ℕ
  pub vendor_ramdisk_table_entry_num : ℕ
  pub vendor_ramdisk_table_entry_size : ℕ
  pub bootconfig_size : ℕ

abbrev pub boot_img_hdr_vnd_v4 : Layout BootImgHdrVndV4
boot_img_hdr_vnd_v4 =
    struct
      (λ (
        vnd_v3,
        (
          vendor_ramdisk_table_size,
          (vendor_ramdisk_table_entry_num, (vendor_ramdisk_table_entry_size, bootconfig_size)),
        ),
      ).
        record {
          vnd_v3 = vnd_v3;
          vendor_ramdisk_table_size = vendor_ramdisk_table_size;
          vendor_ramdisk_table_entry_num = vendor_ramdisk_table_entry_num;
          vendor_ramdisk_table_entry_size = vendor_ramdisk_table_entry_size;
          bootconfig_size = bootconfig_size;
        })
      (λ s. (
        s.vnd_v3,
        (
          s.vendor_ramdisk_table_size,
          (
            s.vendor_ramdisk_table_entry_num,
            (s.vendor_ramdisk_table_entry_size, s.bootconfig_size),
          ),
        ),
      ))
      (boot_img_hdr_vnd_v3 ⊗ u32 ⊗ u32 ⊗ u32 ⊗ u32)

-- The types of a vendor ramdisk.
abbrev pub vendor_ramdisk_type_none : ℕ
vendor_ramdisk_type_none = 0

abbrev pub vendor_ramdisk_type_platform : ℕ
vendor_ramdisk_type_platform = 1

abbrev pub vendor_ramdisk_type_recovery : ℕ
vendor_ramdisk_type_recovery = 2

abbrev pub vendor_ramdisk_type_dlkm : ℕ
vendor_ramdisk_type_dlkm = 3

-- `VendorRamdiskTableEntryV4`.
pub record VendorRamdiskTableEntryV4 : Type 0 where
  pub ramdisk_size : ℕ
  pub ramdisk_offset : ℕ
  pub ramdisk_type : ℕ
  pub ramdisk_name : Bytes
  pub board_id : List ℕ

abbrev pub vendor_ramdisk_table_entry_v4 : Layout VendorRamdiskTableEntryV4
vendor_ramdisk_table_entry_v4 =
    struct
      (λ (ramdisk_size, (ramdisk_offset, (ramdisk_type, (ramdisk_name, board_id)))). record {
        ramdisk_size = ramdisk_size;
        ramdisk_offset = ramdisk_offset;
        ramdisk_type = ramdisk_type;
        ramdisk_name = ramdisk_name;
        board_id = board_id;
      })
      (λ s. (s.ramdisk_size, (s.ramdisk_offset, (s.ramdisk_type, (s.ramdisk_name, s.board_id)))))
      (u32
        ⊗ u32
        ⊗ u32
        ⊗ array vendor_ramdisk_name_size
        ⊗ many vendor_ramdisk_table_entry_board_id_size u32)
