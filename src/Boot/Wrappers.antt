-- ===== src/Boot/Wrappers.antt =====
-- The headers that may stand around a boot image or in it.
pub mod Avb
use magiskboot_go.Base.{ℕ, List, Bytes}
use magiskboot_go.Boot.Layout.{Layout, u32, array, many, ◌⊗◌, struct}

-- `MtkHdr`.
pub record MtkHdr : Type 0 where
  pub magic : ℕ
  pub size : ℕ
  pub name : Bytes
  pub padding : Bytes

abbrev pub mtk_hdr : Layout MtkHdr
mtk_hdr =
    struct
      (λ (magic, (size, (name, padding))). record {
        magic = magic;
        size = size;
        name = name;
        padding = padding;
      })
      (λ s. (s.magic, (s.size, (s.name, s.padding)))) (u32 ⊗ u32 ⊗ array 32 ⊗ array 472)

-- `DhtbHdr`.
pub record DhtbHdr : Type 0 where
  pub magic : Bytes
  pub checksum : Bytes
  pub size : ℕ
  pub padding : Bytes

abbrev pub dhtb_hdr : Layout DhtbHdr
dhtb_hdr =
    struct
      (λ (magic, (checksum, (size, padding))). record {
        magic = magic;
        checksum = checksum;
        size = size;
        padding = padding;
      })
      (λ s. (s.magic, (s.checksum, (s.size, s.padding)))) (array 8 ⊗ array 40 ⊗ u32 ⊗ array 460)

-- `BlobHdr`.
pub record BlobHdr : Type 0 where
  pub secure_magic : Bytes
  pub datalen : ℕ
  pub signature : ℕ
  pub magic : Bytes
  pub hdr_version : ℕ
  pub hdr_size : ℕ
  pub part_offset : ℕ
  pub num_parts : ℕ
  pub unknow : List ℕ
  pub name : Bytes
  pub offset : ℕ
  pub size : ℕ
  pub version : ℕ

abbrev pub blob_hdr : Layout BlobHdr
blob_hdr =
    struct
      (λ (
        secure_magic,
        (
          datalen,
          (
            signature,
            (
              magic,
              (
                hdr_version,
                (hdr_size, (part_offset, (num_parts, (unknow, (name, (offset, (size, version))))))),
              ),
            ),
          ),
        ),
      ).
        record {
          secure_magic = secure_magic;
          datalen = datalen;
          signature = signature;
          magic = magic;
          hdr_version = hdr_version;
          hdr_size = hdr_size;
          part_offset = part_offset;
          num_parts = num_parts;
          unknow = unknow;
          name = name;
          offset = offset;
          size = size;
          version = version;
        })
      (λ s. (
        s.secure_magic,
        (
          s.datalen,
          (
            s.signature,
            (
              s.magic,
              (
                s.hdr_version,
                (
                  s.hdr_size,
                  (
                    s.part_offset,
                    (s.num_parts, (s.unknow, (s.name, (s.offset, (s.size, s.version))))),
                  ),
                ),
              ),
            ),
          ),
        ),
      ))
      (array 20
        ⊗ u32
        ⊗ u32
        ⊗ array 16
        ⊗ u32
        ⊗ u32
        ⊗ u32
        ⊗ u32
        ⊗ many 7 u32
        ⊗ array 4
        ⊗ u32
        ⊗ u32
        ⊗ u32)

-- `ZimageHdr`.
pub record ZimageHdr : Type 0 where
  pub code : List ℕ
  pub magic : ℕ
  pub start : ℕ
  pub end : ℕ
  pub endian : ℕ

abbrev pub zimage_hdr : Layout ZimageHdr
zimage_hdr =
    struct
      (λ (code, (magic, (start, (end, endian)))). record {
        code = code;
        magic = magic;
        start = start;
        end = end;
        endian = endian;
      })
      (λ s. (s.code, (s.magic, (s.start, (s.end, s.endian))))) (many 9 u32 ⊗ u32 ⊗ u32 ⊗ u32 ⊗ u32)
