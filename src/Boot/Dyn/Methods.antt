-- ===== src/Boot/Dyn/Methods.antt =====
-- The methods that the `DynImg` types have by embedding: each type's are those of the type that it
-- embeds, less those that it has itself.
use magiskboot_go.Base.{ℕ, Bool, true, false, ◌≡◌, refl, Outcome, ret}
use magiskboot_go.Common.{align_to}
use magiskboot_go.Boot.Headers.{boot_img_hdr_v0}
use magiskboot_go.Boot.Dyn.{
  DynImgHdr, DynImgV0, DynImgV1, DynImgV2, DynImgPxa, DynImgV3, DynImgV4, DynImgVndV3, DynImgVndV4,
}
use magiskboot_go.Boot.Dyn.Any
use magiskboot_go.Boot.Dyn.Any.{
  DynImg, v0, v1, v2, pxa, v3, v4, vnd_v3, vnd_v4, hdr_hdr_size, hdr_header_version, hdr_page_size,
  hdr_signature_size, hdr_hdr_space,
}

-- `raw_hdr_fails`: whether `RawHdr` gives an error.
pub record Methods : Type 0 where
  pub is_vendor : Bool
  pub page_size : ℕ
  pub header_version : ℕ
  pub signature_size : ℕ
  pub hdr_size : ℕ
  pub hdr_space : Outcome ℕ
  pub raw_hdr_fails : Bool

-- The methods of `DynImgHdr`.
abbrev pub hdr_methods : DynImgHdr → Methods
hdr_methods d = record {
  is_vendor = false;
  page_size = hdr_page_size d;
  header_version = hdr_header_version d;
  signature_size = hdr_signature_size d;
  hdr_size = hdr_hdr_size d;
  hdr_space = ret (hdr_hdr_space d);
  raw_hdr_fails = true;
}

abbrev pub boot_methods : DynImgHdr → Methods
boot_methods d = record (hdr_methods d) { is_vendor = false }

abbrev pub vendor_methods : DynImgHdr → Methods
vendor_methods d = record (hdr_methods d) { is_vendor = true }

abbrev pub v0_methods : DynImgV0 → Methods
v0_methods d = record (boot_methods d.common.hdr) {
  hdr_size = boot_img_hdr_v0.size;
  page_size = d.common.hdr.v2_hdr.v1.v0.page_size;
}

abbrev pub v1_methods : DynImgV1 → Methods
v1_methods d = record (v0_methods d.v0) {
  header_version = d.v0.common.hdr.v2_hdr.v1.v0.header_version;
}

abbrev pub v2_methods : DynImgV2 → Methods
v2_methods d = v1_methods d.v1

abbrev pub pxa_methods : DynImgPxa → Methods
pxa_methods d = record (boot_methods d.common.hdr) { page_size = d.common.hdr.hdr_pxa.page_size }

abbrev pub v3_methods : DynImgV3 → Methods
v3_methods d = record (boot_methods d.hdr) {
  header_version = d.hdr.v4_hdr.v3.header_version;
  page_size = 4096;
}

abbrev pub v4_methods : DynImgV4 → Methods
v4_methods d = record (v3_methods d.v3) { signature_size = d.v3.hdr.v4_hdr.signature_size }

-- `HdrSpace` calls the `HdrSize` that comes from `DynImgHdr`.
abbrev pub vnd_v3_methods : DynImgVndV3 → Methods
vnd_v3_methods d = record (vendor_methods d.hdr) {
  header_version = d.hdr.v4_vnd.vnd_v3.header_version;
  page_size = d.hdr.v4_vnd.vnd_v3.page_size;
  hdr_space = align_to (vendor_methods d.hdr).hdr_size d.hdr.v4_vnd.vnd_v3.page_size;
}

abbrev pub vnd_v4_methods : DynImgVndV4 → Methods
vnd_v4_methods d = vnd_v3_methods d.vnd_v3

abbrev pub methods : DynImg → Methods
methods (v0 d) = v0_methods d
methods (v1 d) = v1_methods d
methods (v2 d) = v2_methods d
methods (pxa d) = pxa_methods d
methods (v3 d) = v3_methods d
methods (v4 d) = v4_methods d
methods (vnd_v3 d) = vnd_v3_methods d
methods (vnd_v4 d) = vnd_v4_methods d

-- They are the methods of `Any`.
methods_lem :
    (d : DynImg)
    → ((methods d).is_vendor ≡ Any.is_vendor d)
      × ((methods d).page_size ≡ Any.page_size d)
      × ((methods d).header_version ≡ Any.header_version d)
      × ((methods d).signature_size ≡ Any.signature_size d)
      × ((methods d).hdr_size ≡ Any.hdr_size d)
      × ((methods d).hdr_space ≡ Any.hdr_space d)
unfolding Any.is_vendor Any.page_size Any.header_version Any.signature_size Any.hdr_size
    Any.hdr_space
methods_lem (v0 d) = (refl, refl, refl, refl, refl, refl)
methods_lem _ = (refl, refl, refl, refl, refl, refl)
