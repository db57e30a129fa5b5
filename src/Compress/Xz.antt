-- ===== src/Compress/Xz.antt =====
-- `Xz` and `Unxz` of compress.go, over the xz library that they call.
use magiskboot_go.Base.{Option, none, some, Bytes, Outcome, ret, ◌>>=◌, if◌then◌else◌}
use magiskboot_go.Base.{◌==◌}
use magiskboot_go.Format.{xz, iota, check_fmt}

-- The library: a writer over a buffer, and a reader of a whole stream.
pub record XzLib : Type 1 where
  pub Writer : Type 0
  pub new_writer : Option Writer
  -- A write gives the writer behind it, or an error.
  pub write : Writer → Bytes → Option Writer
  pub close : Writer → Writer
  -- What has reached the buffer.
  pub buffered : Writer → Bytes
  pub read_all : Bytes → Option Bytes
  -- The bytes between the length and the capacity of a slice.
  pub spare : Bytes → Bytes

module _ (lib : XzLib) where
  -- `Xz(data, &compressed)`: the buffer's bytes are taken before the deferred `Close`.
  unfoldable pub xz_compress : Bytes → Option Bytes
  xz_compress content = elim lib.new_writer [
    | none ↦ none
    | some w ↦ elim (lib.write w content) [ none ↦ none | some w' ↦ some (lib.buffered w') ]
  ]

  -- `Unxz(data, &decompressed)`.
  unfoldable pub unxz : Bytes → Outcome (Option Bytes)
  unfolding iota
  unxz content = do
    f ← check_fmt content (lib.spare content)
    ret (if iota f == iota xz then lib.read_all content else none)
