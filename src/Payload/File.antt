-- ===== src/Payload/File.antt =====
-- The files of payload.go: the file or standard input that is read, and the image that is written.
-- What the operating system answers to a read, a seek, a write and the creation of a file is a
-- parameter.
use magiskboot_go.Base.{
  ℕ, zero, suc, ◌+◌, ◌-◌, ◌*◌, ◌^◌, Bool, ◌&&◌, [], ◌∷◌, ◌++◌, Option, none, some,
}
use magiskboot_go.Base.{
  Bytes, length, take, drop, replicate, ltb, leb, u64_mod, ◌==◌, if◌then◌else◌,
}

-- What is read: its bytes, how many of them a call of `Read` gives at a position for a buffer of some
-- length, and whether a `Seek` to a position succeeds, which it never does on a pipe.
pub record Input : Type 0 where
  pub bytes : Bytes
  pub gives : ℕ → ℕ → ℕ
  pub seeks : ℕ → Bool

pub record Reader : Type 0 where
  pub input : Input
  pub at : ℕ

-- The bytes of one `Read` with a buffer of `n` bytes: not more than the buffer holds, or than there
-- are. None for a buffer that is not empty is the end of the file, or an error.
unfoldable pub got : Reader → ℕ → Bytes
got r n = take (r.input.gives r.at n) (take n (drop r.at r.input.bytes))

-- The buffer behind one `Read`, whose result is not looked at: what is not given stays zero.
unfoldable pub read : Reader → ℕ → Bytes × Reader
unfolding got
read r n = let b = got r n in (b ++ replicate (n - length b) 0, record r { at = r.at + length b })

-- `io.ReadFull`, which reads until the buffer is full or a `Read` gives nothing; each round but the
-- last gives a byte at least, and there are at most as many rounds as bytes.
unfoldable pub read_full : ℕ → Reader → ℕ → Bytes → Bytes × Reader
unfolding got
read_full zero r n acc = (acc, r)
read_full (suc rounds) r n acc =
    let b = got r n in
    let rest = read_full rounds (record r { at = r.at + length b }) (n - length b) (acc ++ b) in
    if length b == 0 then (acc, r) else rest

unfoldable pub big_endian : Bytes → ℕ → ℕ
big_endian [] n = n
big_endian (c ∷ s) n = big_endian s (n * 256 + c)

-- `binary.Read` of a number of `n` bytes: 0 where the file ends before it does.
unfoldable pub read_be : Reader → ℕ → ℕ × Reader
unfolding big_endian read_full
read_be r n = let (b, r') = read_full n r n [] in (if length b == n then big_endian b 0 else 0, r')

-- A seek to a position, or to before the file's start. One that fails changes nothing.
unfoldable pub go_to : Reader → Option ℕ → Reader
go_to r none = r
go_to r (some n) = if r.input.seeks n then record r { at = n } else r

-- `Seek(int64(d), io.SeekCurrent)` for a `uint64` d, whose error is not looked at.
unfoldable pub seek_by : Reader → ℕ → Reader
unfolding go_to
seek_by r d = go_to r (
    if ltb d (2 ^ 63)
    then some (r.at + d)
    else if leb (u64_mod - d) r.at
    then some (r.at - (u64_mod - d))
    else none)

-- The output: whether a file of a name can be created, whether a `Seek` to a position succeeds, and
-- how many bytes a `Write` at a position takes.
pub record Output : Type 0 where
  pub creates : Bytes → Bool
  pub seeks : ℕ → Bool
  pub takes : ℕ → Bytes → ℕ

pub record Image : Type 0 where
  pub bytes : Bytes
  pub at : ℕ

-- `Seek(int64(n), io.SeekStart)`: to a negative position, or where it fails, it changes nothing.
unfoldable pub seek_to : Output → Image → ℕ → Image
seek_to o out n = if ltb n (2 ^ 63) && o.seeks n then record out { at = n } else out

-- The bytes of a file behind a write at a position: a gap is filled with zeros.
unfoldable pub splice : Bytes → ℕ → Bytes → Bytes
splice bytes at b =
    take at bytes ++ (replicate (at - length bytes) 0 ++ (b ++ drop (at + length b) bytes))

-- Bytes that the file takes.
unfoldable pub put : Image → Bytes → Image
unfolding splice
put out [] = out
put out (c ∷ b) = record { bytes = splice out.bytes out.at (c ∷ b); at = out.at + length (c ∷ b) }

-- `Write(b)`, and whether it gives no error: that is where all the bytes are taken.
unfoldable pub write_image : Output → Image → Bytes → Image × Bool
unfolding put
write_image o out b =
    let taken = take (o.takes out.at b) b in (put out taken, length taken == length b)
