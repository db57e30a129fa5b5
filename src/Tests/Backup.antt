-- ===== src/Tests/Backup.antt =====
-- `Backup`, `Restore` and the numbers of cpio.go on concrete data.
use magiskboot_go.Base.{
  ◌≡◌, refl, true, false, All, [], ◌∷◌, ◌++◌, List, Bytes, codes, ret, none, some, slice,
  slice_from, trim_right, has_prefix, bytes_eq, replicate,
}
use magiskboot_go.Base.Dict
use magiskboot_go.Base.Dict.{Dict, insert}
use magiskboot_go.Common.{align_4}
use magiskboot_go.Compress.Xz.{XzLib}
use magiskboot_go.Cpio.{Cpio, CpioEntry, new_cpio, s_ifreg}
use magiskboot_go.Cpio.Field.{x08, x8u, x8u_or_zero, read_digits, low_digits}
use magiskboot_go.Cpio.Command.{parse_mode}
use magiskboot_go.Cpio.Load.{
  load_from_data, load_loop, load_step, load_body, load_named, load_entry, load_trailer,
  read_header, field,
}
use magiskboot_go.Cpio.Dump.{header, fields}
use magiskboot_go.Cpio.Edit.{rm, add_entry}
use magiskboot_go.Base.{bytes_compare}
use magiskboot_go.Base.Order.{Ascending}
use magiskboot_go.Cpio.Backup.{backup_dir, backup, Recorded, merge}
use magiskboot_go.Cpio.Backup.Merge.{compare_keys, merge-compare_keys}
use magiskboot_go.Cpio.Backup.Laws.{WalksOne, backup-same}
use magiskboot_go.Cpio.Restore.{restore}
use magiskboot_go.Cpio.Restore.Laws.{restore-none}

-- A library that stores its input as it is.
abbrev pub copying : XzLib
copying = record {
  Writer = Bytes;
  new_writer = some [];
  write = λ w b. some (w ++ b);
  close = λ w. w;
  buffered = λ w. w;
  read_all = λ b. some b;
  spare = λ b. [];
}

walk : Dict CpioEntry → List Bytes
walk = Dict.keys

walk-WalksOne : WalksOne walk
unfolding walk
walk-WalksOne k e = refl

abbrev one_file : Bytes
one_file =
    header (1 ∷ s_ifreg ∷ 0 ∷ 0 ∷ 1 ∷ 0 ∷ 2 ∷ 0 ∷ 0 ∷ 0 ∷ 0 ∷ 2 ∷ 0 ∷ [])
    ++ codes "a"
    ++ replicate 1 0
    ++ codes "hi"
    ++ replicate 2 0

abbrev one_archive : Cpio
one_archive = record {
  entries =
      (
        codes "a",
        record {
          mode = s_ifreg;
          uid = 0;
          gid = 0;
          rdev_major = 0;
          rdev_minor = 0;
          content = codes "hi";
        },
      )
      ∷ [];
  keys = codes "a" ∷ [];
}

load_one : load_from_data new_cpio one_file ≡ ret (one_archive, none)
unfolding load_from_data load_loop load_step load_body load_named load_entry load_trailer
    read_header field header fields x08 low_digits x8u read_digits slice slice_from trim_right
    bytes_eq insert align_4 x8u_or_zero
load_one = refl

backup-same_example :
    backup copying walk (some one_file) true one_archive
    ≡ ret (add_entry (rm walk one_archive (codes ".backup") true) (codes ".backup") backup_dir)
backup-same_example = backup-same copying walk walk-WalksOne one_file true one_archive none load_one

no_backups : All (λ name. has_prefix name (codes ".backup/") ≡ false) one_archive.keys
unfolding has_prefix
no_backups = (refl, tt)

restore-none_example :
    restore copying walk one_archive
    ≡ ret (record { entries = []; keys = (rm walk one_archive (codes ".backup") false).keys })
restore-none_example = restore-none copying walk one_archive no_backups

mode_755 : parse_mode (codes "755") ≡ ret 0o755
unfolding parse_mode
mode_755 = refl

abbrev keys_before : List Bytes
keys_before = codes "a" ∷ codes "b" ∷ []

abbrev keys_after : List Bytes
keys_after = codes "b" ∷ codes "c" ∷ []

abbrev nothing : Recorded
nothing = record { backups = []; rm_list = [] }

keys_before-Ascending : Ascending keys_before
unfolding bytes_compare
keys_before-Ascending = ((refl, tt), (tt, tt))

keys_after-Ascending : Ascending keys_after
unfolding bytes_compare
keys_after-Ascending = ((refl, tt), (tt, tt))

merge-compare_keys_example :
    merge copying true one_archive new_cpio keys_before keys_after nothing
    ≡ compare_keys copying true one_archive new_cpio keys_before keys_after nothing
merge-compare_keys_example =
    merge-compare_keys copying true one_archive new_cpio keys_before keys_after nothing
      keys_before-Ascending keys_after-Ascending
