-- ===== src/Boot/Wrappers/Avb.antt =====
-- The footer and the metadata of Android Verified Boot.
use magiskboot_go.Base.{ℕ, Bytes}
use magiskboot_go.Boot.Layout.{Layout, u32, u64, array, ◌⊗◌, struct}

abbrev pub avb_footer_magic_len : ℕ
avb_footer_magic_len = 4

abbrev pub avb_magic_len : ℕ
avb_magic_len = 4

abbrev pub avb_release_string_size : ℕ
avb_release_string_size = 48

-- `AvbFooter`.
pub record AvbFooter : Type 0 where
  pub magic : Bytes
  pub version_major : ℕ
  pub version_minor : ℕ
  pub original_image_size : ℕ
  pub vbmeta_offset : ℕ
  pub vbmeta_size : ℕ
  pub reserved : Bytes

abbrev pub avb_footer : Layout AvbFooter
avb_footer =
    struct
      (λ (
        magic,
        (
          version_major,
          (version_minor, (original_image_size, (vbmeta_offset, (vbmeta_size, reserved)))),
        ),
      ).
        record {
          magic = magic;
          version_major = version_major;
          version_minor = version_minor;
          original_image_size = original_image_size;
          vbmeta_offset = vbmeta_offset;
          vbmeta_size = vbmeta_size;
          reserved = reserved;
        })
      (λ s. (
        s.magic,
        (
          s.version_major,
          (
            s.version_minor,
            (s.original_image_size, (s.vbmeta_offset, (s.vbmeta_size, s.reserved))),
          ),
        ),
      ))
      (array avb_footer_magic_len ⊗ u32 ⊗ u32 ⊗ u64 ⊗ u64 ⊗ u64 ⊗ array 28)

-- `AvbVBMetaImageHeader`.
pub record AvbVbmetaImageHeader : Type 0 where
  pub magic : Bytes
  pub required_libavb_version_major : ℕ
  pub required_libavb_version_minor : ℕ
  pub authentication_data_block_size : ℕ
  pub auxiliary_data_block_size : ℕ
  pub algorithm_type : ℕ
  pub hash_offset : ℕ
  pub hash_size : ℕ
  pub signature_offset : ℕ
  pub signature_size : ℕ
  pub public_key_offset : ℕ
  pub public_key_size : ℕ
  pub public_key_metadata_offset : ℕ
  pub public_key_metadata_size : ℕ
  pub descriptors_offset : ℕ
  pub descriptors_size : ℕ
  pub rollback_index : ℕ
  pub flags : ℕ
  pub rollback_index_location : ℕ
  pub release_string : Bytes
  pub reserved : Bytes

abbrev pub avb_vbmeta_image_header : Layout AvbVbmetaImageHeader
avb_vbmeta_image_header =
    struct
      (λ (
        magic,
        (
          required_libavb_version_major,
          (
            required_libavb_version_minor,
            (
              authentication_data_block_size,
              (
                auxiliary_data_block_size,
                (
                  algorithm_type,
                  (
                    hash_offset,
                    (
                      hash_size,
                      (
                        signature_offset,
                        (
                          signature_size,
                          (
                            public_key_offset,
                            (
                              public_key_size,
                              (
                                public_key_metadata_offset,
                                (
                                  public_key_metadata_size,
                                  (
                                    descriptors_offset,
                                    (
                                      descriptors_size,
                                      (
                                        rollback_index,
                                        (
                                          flags,
                                          (rollback_index_location, (release_string, reserved)),
                                        ),
                                      ),
                                    ),
                                  ),
                                ),
                              ),
                            ),
                          ),
                        ),
                      ),
                    ),
                  ),
                ),
              ),
            ),
          ),
        ),
      ).
        record {
          magic = magic;
          required_libavb_version_major = required_libavb_version_major;
          required_libavb_version_minor = required_libavb_version_minor;
          authentication_data_block_size = authentication_data_block_size;
          auxiliary_data_block_size = auxiliary_data_block_size;
          algorithm_type = algorithm_type;
          hash_offset = hash_offset;
          hash_size = hash_size;
          signature_offset = signature_offset;
          signature_size = signature_size;
          public_key_offset = public_key_offset;
          public_key_size = public_key_size;
          public_key_metadata_offset = public_key_metadata_offset;
          public_key_metadata_size = public_key_metadata_size;
          descriptors_offset = descriptors_offset;
          descriptors_size = descriptors_size;
          rollback_index = rollback_index;
          flags = flags;
          rollback_index_location = rollback_index_location;
          release_string = release_string;
          reserved = reserved;
        })
      (λ s. (
        s.magic,
        (
          s.required_libavb_version_major,
          (
            s.required_libavb_version_minor,
            (
              s.authentication_data_block_size,
              (
                s.auxiliary_data_block_size,
                (
                  s.algorithm_type,
                  (
                    s.hash_offset,
                    (
                      s.hash_size,
                      (
                        s.signature_offset,
                        (
                          s.signature_size,
                          (
                            s.public_key_offset,
                            (
                              s.public_key_size,
                              (
                                s.public_key_metadata_offset,
                                (
                                  s.public_key_metadata_size,
                                  (
                                    s.descriptors_offset,
                                    (
                                      s.descriptors_size,
                                      (
                                        s.rollback_index,
                                        (
                                          s.flags,
                                          (
                                            s.rollback_index_location,
                                            (s.release_string, s.reserved),
                                          ),
                                        ),
                                      ),
                                    ),
                                  ),
                                ),
                              ),
                            ),
                          ),
                        ),
                      ),
                    ),
                  ),
                ),
              ),
            ),
          ),
        ),
      ))
      (array avb_magic_len
        ⊗ u32
        ⊗ u32
        ⊗ u64
        ⊗ u64
        ⊗ u32
        ⊗ u64
        ⊗ u64
        ⊗ u64
        ⊗ u64
        ⊗ u64
        ⊗ u64
        ⊗ u64
        ⊗ u64
        ⊗ u64
        ⊗ u64
        ⊗ u64
        ⊗ u32
        ⊗ u32
        ⊗ array avb_release_string_size
        ⊗ array 80)
