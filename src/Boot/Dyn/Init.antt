-- ===== src/Boot/Dyn/Init.antt =====
-- `Init` of the `DynImg` types: a header is read from the bytes of an image.
use magiskboot_go.Base.{some, Bytes, length, drop, ltb, Outcome, ret, fatal, ◌>>=◌, if◌then◌else◌}
use magiskboot_go.Boot.Layout.{Layout}
use magiskboot_go.Boot.Headers.{
  BootImgHdrV0, BootImgHdrV1, BootImgHdrV2, BootImgHdrPxa, boot_img_hdr_v0, boot_img_hdr_v1,
  boot_img_hdr_v2, boot_img_hdr_pxa, boot_args_size,
}
use magiskboot_go.Boot.Headers.Newer.{
  BootImgHdrV3, BootImgHdrV4, BootImgHdrVndV3, BootImgHdrVndV4, boot_img_hdr_v3, boot_img_hdr_v4,
  boot_img_hdr_vnd_v3, boot_img_hdr_vnd_v4,
}
use magiskboot_go.Boot.Dyn.{
  DynImgCommon, DynImgV0, DynImgV1, DynImgV2, DynImgPxa, DynImgV3, DynImgV4, DynImgVndV3,
  DynImgVndV4,
}

unfoldable pub init_common : DynImgCommon → DynImgCommon
init_common d = record d {
  kernel_size = some (λ h. h.v2_hdr.v1.v0.common.kernel_size);
  ramdisk_size = some (λ h. h.v2_hdr.v1.v0.common.ramdisk_size);
  second_size = some (λ h. h.v2_hdr.v1.v0.common.second_size);
}

-- `fill_…` is what an `Init` does with the struct that it has read, and with what the embedded
-- `Init` has made.

-- How each `Init` begins: data that is shorter than the struct ends the process.
unfoldable pub read_raw : {A : Type 0} → Layout A → Bytes → Outcome A
read_raw l bytes = if ltb (length bytes) l.size then fatal else ret (l.read bytes)

unfoldable pub fill_v0 : BootImgHdrV0 → DynImgV0 → DynImgV0
unfolding init_common
fill_v0 raw d =
    let h = d.common.hdr in
    let v2 = record h.v2_hdr { v1 = record h.v2_hdr.v1 { v0 = raw } } in
    record {
      common = init_common (record d.common { hdr = record h { v2_hdr = v2 } });
      raw = raw;
      extra_size = some (λ h. h.v2_hdr.v1.v0.header_version);
      os_version = some (λ h. h.v2_hdr.v1.v0.os_version);
      name = some (λ h. h.v2_hdr.v1.v0.name);
      cmdline = some (λ h. h.v2_hdr.v1.v0.cmdline);
      id = some (λ h. h.v2_hdr.v1.v0.id);
      extra_cmdline = some (λ h. h.v2_hdr.v1.v0.extra_cmdline);
    }

unfoldable pub init_v0 : Bytes → DynImgV0 → Outcome DynImgV0
unfolding fill_v0
init_v0 bytes d = do raw ← read_raw boot_img_hdr_v0 bytes; ret (fill_v0 raw d)

-- The header of versions 0 to 2, from within the embedding structs.
unfoldable pub set_v2 : (BootImgHdrV2 → BootImgHdrV2) → DynImgV0 → DynImgV0
set_v2 f d = record d {
  common = record d.common { hdr = record d.common.hdr { v2_hdr = f d.common.hdr.v2_hdr } };
}

unfoldable pub fill_v1 : BootImgHdrV1 → DynImgV0 → DynImgV1
unfolding set_v2
fill_v1 raw v0 = record {
  v0 = set_v2 (λ v2. record v2 { v1 = raw }) v0;
  raw = raw;
  recovery_dtbo_size = some (λ h. h.v2_hdr.v1.recovery_dtbo_size);
  recovery_dtbo_offset = some (λ h. h.v2_hdr.v1.recovery_dtbo_offset);
  header_size = some (λ h. h.v2_hdr.v1.header_size);
}

unfoldable pub init_v1 : Bytes → DynImgV1 → Outcome DynImgV1
unfolding fill_v1
init_v1 bytes d = do
  raw ← read_raw boot_img_hdr_v1 bytes
  v0 ← init_v0 bytes d.v0
  ret (fill_v1 raw v0)

unfoldable pub fill_v2 : BootImgHdrV2 → DynImgV1 → DynImgV2
unfolding set_v2
fill_v2 raw v1 = record {
  v1 = record v1 { v0 = set_v2 (λ v2. raw) v1.v0 };
  raw = raw;
  dtb_size = some (λ h. h.v2_hdr.dtb_size);
}

unfoldable pub init_v2 : Bytes → DynImgV2 → Outcome DynImgV2
unfolding fill_v2
init_v2 bytes d = do
  raw ← read_raw boot_img_hdr_v2 bytes
  v1 ← init_v1 bytes d.v1
  ret (fill_v2 raw v1)

-- The pointers of `DynImgCommon` are left as they are.
unfoldable pub fill_pxa : BootImgHdrPxa → DynImgPxa → DynImgPxa
fill_pxa raw d = record {
  common = record d.common { hdr = record d.common.hdr { hdr_pxa = raw } };
  raw = raw;
  extra_size = some (λ h. h.hdr_pxa.extra_size);
  name = some (λ h. h.hdr_pxa.name);
  cmdline = some (λ h. h.hdr_pxa.cmdline);
  id = some (λ h. h.hdr_pxa.id);
  extra_cmdline = some (λ h. h.hdr_pxa.extra_cmdline);
}

unfoldable pub init_pxa : Bytes → DynImgPxa → Outcome DynImgPxa
unfolding fill_pxa
init_pxa bytes d = do raw ← read_raw boot_img_hdr_pxa bytes; ret (fill_pxa raw d)

-- `KernelSize` is made to point to the header's size.
unfoldable pub fill_v3 : BootImgHdrV3 → DynImgV3 → DynImgV3
fill_v3 raw d = record {
  hdr = record d.hdr { v4_hdr = record d.hdr.v4_hdr { v3 = raw } };
  raw = raw;
  kernel_size = some (λ h. h.v4_hdr.v3.header_size);
  ramdisk_size = some (λ h. h.v4_hdr.v3.ramdisk_size);
  os_version = some (λ h. h.v4_hdr.v3.os_version);
  header_size = some (λ h. h.v4_hdr.v3.header_size);
  cmdline = some (λ h. h.v4_hdr.v3.cmdline);
  extra_cmdline = some (λ h. drop boot_args_size h.v4_hdr.v3.cmdline);
}

unfoldable pub init_v3 : Bytes → DynImgV3 → Outcome DynImgV3
unfolding fill_v3
init_v3 bytes d = do raw ← read_raw boot_img_hdr_v3 bytes; ret (fill_v3 raw d)

unfoldable pub fill_v4 : BootImgHdrV4 → DynImgV3 → DynImgV4
fill_v4 raw v3 = record { v3 = record v3 { hdr = record v3.hdr { v4_hdr = raw } }; raw = raw }

unfoldable pub init_v4 : Bytes → DynImgV4 → Outcome DynImgV4
unfolding fill_v4
init_v4 bytes d = do
  raw ← read_raw boot_img_hdr_v4 bytes
  v3 ← init_v3 bytes d.v3
  ret (fill_v4 raw v3)

unfoldable pub fill_vnd_v3 : BootImgHdrVndV3 → DynImgVndV3 → DynImgVndV3
fill_vnd_v3 raw d = record d {
  hdr = record d.hdr { v4_vnd = record d.hdr.v4_vnd { vnd_v3 = raw } };
  ramdisk_size = some (λ h. h.ramdisk_size);
  cmdline = some (λ h. h.cmdline);
  name = some (λ h. h.name);
  header_size = some (λ h. h.header_size);
  dtb_size = some (λ h. h.dtb_size);
  raw = raw;
}

unfoldable pub init_vnd_v3 : Bytes → DynImgVndV3 → Outcome DynImgVndV3
unfolding fill_vnd_v3
init_vnd_v3 bytes d = do raw ← read_raw boot_img_hdr_vnd_v3 bytes; ret (fill_vnd_v3 raw d)

unfoldable pub fill_vnd_v4 : BootImgHdrVndV4 → DynImgVndV3 → DynImgVndV4
fill_vnd_v4 raw v3 = record {
  vnd_v3 = record v3 { hdr = record v3.hdr { v4_vnd = raw } };
  raw = raw;
  bootconfig_size = some (λ h. h.bootconfig_size);
}

unfoldable pub init_vnd_v4 : Bytes → DynImgVndV4 → Outcome DynImgVndV4
unfolding fill_vnd_v4
init_vnd_v4 bytes d = do
  raw ← read_raw boot_img_hdr_vnd_v4 bytes
  v3 ← init_vnd_v3 bytes d.vnd_v3
  ret (fill_vnd_v4 raw v3)
