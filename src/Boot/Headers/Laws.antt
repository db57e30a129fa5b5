-- ===== src/Boot/Headers/Laws.antt =====
-- Every header is read from the bytes that hold it, and only so.
use magiskboot_go.Base.{◌+◌, refl}
use magiskboot_go.Boot.Layout.{u32, u64}
use magiskboot_go.Boot.Layout.Laws.{
  IsLawful, uint-IsLawful, array-IsLawful, many-IsLawful, ⊗-IsLawful, struct-IsLawful,
}
use magiskboot_go.Boot.Headers.{
  boot_magic_size, boot_name_size, boot_args_size, boot_extra_args_size, boot_id_size,
  vendor_boot_args_size, boot_img_hdr_v0_common, boot_img_hdr_v0, boot_img_hdr_v1, boot_img_hdr_v2,
  boot_img_hdr_pxa,
}
use magiskboot_go.Boot.Headers.Newer.{
  boot_img_hdr_v3, boot_img_hdr_vnd_v3, boot_img_hdr_v4, boot_img_hdr_vnd_v4,
}

pub u32-IsLawful : IsLawful u32
u32-IsLawful = uint-IsLawful 4

pub u64-IsLawful : IsLawful u64
u64-IsLawful = uint-IsLawful 8

pub boot_img_hdr_v0_common-IsLawful : IsLawful boot_img_hdr_v0_common
boot_img_hdr_v0_common-IsLawful =
    struct-IsLawful _ _
      (⊗-IsLawful (array-IsLawful boot_magic_size) (
        ⊗-IsLawful u32-IsLawful (
          ⊗-IsLawful u32-IsLawful (
            ⊗-IsLawful u32-IsLawful
              (⊗-IsLawful u32-IsLawful (⊗-IsLawful u32-IsLawful u32-IsLawful))))))
      (λ s. refl) (λ t. refl)

pub boot_img_hdr_v0-IsLawful : IsLawful boot_img_hdr_v0
boot_img_hdr_v0-IsLawful =
    struct-IsLawful _ _
      (⊗-IsLawful boot_img_hdr_v0_common-IsLawful (
        ⊗-IsLawful u32-IsLawful (
          ⊗-IsLawful u32-IsLawful (
            ⊗-IsLawful u32-IsLawful (
              ⊗-IsLawful u32-IsLawful (
                ⊗-IsLawful (array-IsLawful boot_name_size) (
                  ⊗-IsLawful (array-IsLawful boot_args_size) (
                    ⊗-IsLawful (array-IsLawful boot_id_size)
                      (array-IsLawful boot_extra_args_size)))))))))
      (λ s. refl) (λ t. refl)

pub boot_img_hdr_v1-IsLawful : IsLawful boot_img_hdr_v1
boot_img_hdr_v1-IsLawful =
    struct-IsLawful _ _
      (⊗-IsLawful boot_img_hdr_v0-IsLawful
        (⊗-IsLawful u32-IsLawful (⊗-IsLawful u64-IsLawful u32-IsLawful)))
      (λ s. refl) (λ t. refl)

pub boot_img_hdr_v2-IsLawful : IsLawful boot_img_hdr_v2
boot_img_hdr_v2-IsLawful =
    struct-IsLawful _ _ (⊗-IsLawful boot_img_hdr_v1-IsLawful (⊗-IsLawful u32-IsLawful u64-IsLawful))
      (λ s. refl) (λ t. refl)

pub boot_img_hdr_pxa-IsLawful : IsLawful boot_img_hdr_pxa
boot_img_hdr_pxa-IsLawful =
    struct-IsLawful _ _
      (⊗-IsLawful boot_img_hdr_v0_common-IsLawful (
        ⊗-IsLawful u32-IsLawful (
          ⊗-IsLawful u32-IsLawful (
            ⊗-IsLawful u32-IsLawful (
              ⊗-IsLawful u32-IsLawful (
                ⊗-IsLawful (array-IsLawful 24) (
                  ⊗-IsLawful (array-IsLawful boot_args_size) (
                    ⊗-IsLawful (array-IsLawful boot_id_size)
                      (array-IsLawful boot_extra_args_size)))))))))
      (λ s. refl) (λ t. refl)

pub boot_img_hdr_v3-IsLawful : IsLawful boot_img_hdr_v3
boot_img_hdr_v3-IsLawful =
    struct-IsLawful _ _
      (⊗-IsLawful (array-IsLawful boot_magic_size) (
        ⊗-IsLawful u32-IsLawful (
          ⊗-IsLawful u32-IsLawful (
            ⊗-IsLawful u32-IsLawful (
              ⊗-IsLawful u32-IsLawful (
                ⊗-IsLawful (many-IsLawful u32-IsLawful 4) (
                  ⊗-IsLawful u32-IsLawful
                    (array-IsLawful (boot_args_size + boot_extra_args_size)))))))))
      (λ s. refl) (λ t. refl)

pub boot_img_hdr_vnd_v3-IsLawful : IsLawful boot_img_hdr_vnd_v3
boot_img_hdr_vnd_v3-IsLawful =
    struct-IsLawful _ _
      (⊗-IsLawful (array-IsLawful boot_magic_size) (
        ⊗-IsLawful u32-IsLawful (
          ⊗-IsLawful u32-IsLawful (
            ⊗-IsLawful u32-IsLawful (
              ⊗-IsLawful u32-IsLawful (
                ⊗-IsLawful u32-IsLawful (
                  ⊗-IsLawful (array-IsLawful vendor_boot_args_size) (
                    ⊗-IsLawful u32-IsLawful (
                      ⊗-IsLawful (array-IsLawful boot_name_size)
                        (⊗-IsLawful u32-IsLawful (⊗-IsLawful u32-IsLawful u64-IsLawful)))))))))))
      (λ s. refl) (λ t. refl)

pub boot_img_hdr_v4-IsLawful : IsLawful boot_img_hdr_v4
boot_img_hdr_v4-IsLawful =
    struct-IsLawful _ _ (⊗-IsLawful boot_img_hdr_v3-IsLawful u32-IsLawful) (λ s. refl) (λ t. refl)

pub boot_img_hdr_vnd_v4-IsLawful : IsLawful boot_img_hdr_vnd_v4
boot_img_hdr_vnd_v4-IsLawful =
    struct-IsLawful _ _
      (⊗-IsLawful boot_img_hdr_vnd_v3-IsLawful
        (⊗-IsLawful u32-IsLawful (⊗-IsLawful u32-IsLawful (⊗-IsLawful u32-IsLawful u32-IsLawful))))
      (λ s. refl) (λ t. refl)
