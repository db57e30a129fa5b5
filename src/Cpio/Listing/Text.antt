-- ===== src/Cpio/Listing/Text.antt =====
-- What `Ls` prints: the lines, with the columns that `Format` writes, and the `ls` command.
use magiskboot_go.Base.{
  Bool, ℕ, zero, suc, ◌+◌, ◌-◌, ◌/◌, ◌%◌, true, false, List, [], ◌∷◌, ◌++◌, ◌≡◌, refl,
}
use magiskboot_go.Base.{Bytes, codes, bytes_eq, length, replicate, trim_left, ◌==◌, if◌then◌else◌}
use magiskboot_go.Cpio.{Cpio, CpioEntry, entry_at}
use magiskboot_go.Cpio.Listing.{mode_letters, ls}

-- The last `k` decimal digits of a number.
unfoldable pub low_decimals : ℕ → ℕ → Bytes
low_decimals zero n = []
low_decimals (suc k) n = low_decimals k (n / 10) ++ (b'0' + n % 10) ∷ []

-- `%d` of a number of 32 bits.
unfoldable pub decimal : ℕ → Bytes
unfolding low_decimals trim_left
decimal n = trim_left (λ c. c == b'0') (low_decimals 9 (n / 10)) ++ (b'0' + n % 10) ∷ []

-- A column, filled up with spaces on its left or on its right.
unfoldable pub pad_left : ℕ → Bytes → Bytes
pad_left width s = replicate (width - length s) b' ' ++ s

unfoldable pub pad_right : ℕ → Bytes → Bytes
pad_right width s = s ++ replicate (width - length s) b' '

-- `humanize.Bytes`, which shortens a size to a text in ASCII.
module _ (humanize : ℕ → Bytes) where
  -- `entry.Format`: `%8s%8d%8d%8s%4d:%-8d`.
  unfoldable pub format : CpioEntry → Bytes
  unfolding pad_left pad_right decimal mode_letters
  format e =
      pad_left 8 (mode_letters e.mode)
      ++ pad_left 8 (decimal e.uid)
      ++ pad_left 8 (decimal e.gid)
      ++ pad_left 8 (humanize (length e.content))
      ++ pad_left 4 (decimal e.rdev_major)
      ++ codes ":"
      ++ pad_right 8 (decimal e.rdev_minor)

  unfoldable pub line : Cpio → Bytes → Bytes
  unfolding format entry_at
  line c name = format (entry_at c name) ++ codes "\t" ++ name ++ codes "\n"

  unfoldable pub lines : Cpio → List Bytes → Bytes
  unfolding line
  lines c [] = []
  lines c (name ∷ names) = line c name ++ lines c names

  -- `c.Ls(path, recursive)`: the text that it prints.
  unfoldable pub ls_text : Cpio → Bytes → Bool → Bytes
  unfolding lines ls
  ls_text c path recursive = lines c (ls c path recursive)

  -- The command `ls` with its arguments: two of them are needed for a flag.
  unfoldable pub run_ls : Cpio → List Bytes → Bytes
  unfolding ls_text bytes_eq
  run_ls c [] = ls_text c (codes "/") false
  run_ls c (p ∷ []) = ls_text c p false
  run_ls c (p ∷ q ∷ _) = if bytes_eq p (codes "-r") then ls_text c q true else ls_text c p false

-- `ls -r` prints what `ls` prints of a path `-r`.
lists_flag :
    run_ls
      (λ n. codes "5 B")
      (record {
        entries =
            (
              codes "a/b",
              record {
                mode = 0o100644;
                uid = 0;
                gid = 2000;
                rdev_major = 0;
                rdev_minor = 7;
                content = [];
              },
            )
            ∷ [];
        keys = codes "a/b" ∷ [];
      })
      (codes "-r" ∷ codes "/" ∷ [])
    ≡ codes "-rw-r--r--       0    2000     5 B   0:7       \ta/b\n"
unfolding run_ls
lists_flag = refl
