-- ===== src/Stub.antt =====
-- stub/: the calls on devices that cpio.go makes, as they are on Windows and elsewhere.
use magiskboot_go.Base.{ℕ, Bool, false, Option, some, Bytes}

-- The calls of golang.org/x/sys/unix. `mknod` gives the files and whether there was an error; `stat`
-- the device number, where there is no error.
pub record Unix : Type 1 where
  pub Fs : Type 0
  pub major : ℕ → ℕ
  pub minor : ℕ → ℕ
  pub mkdev : ℕ → ℕ → ℕ
  pub mknod : Fs → Bytes → ℕ → ℕ → Fs × Bool
  pub stat : Fs → Bytes → Option ℕ

-- windows_stub.go: no call does anything or fails.
unfoldable pub windows_stub : Type 0 → Unix
windows_stub Files = record {
  Fs = Files;
  major = λ dev. 0;
  minor = λ dev. 0;
  mkdev = λ major minor. 0;
  mknod = λ fs path mode dev. (fs, false);
  stat = λ fs path. some 0;
}

-- unix_stub.go: every call is passed on.
unfoldable pub unix_stub : Unix → Unix
unix_stub unix = record {
  Fs = unix.Fs;
  major = λ dev. unix.major dev;
  minor = λ dev. unix.minor dev;
  mkdev = λ major minor. unix.mkdev major minor;
  mknod = λ fs path mode dev. unix.mknod fs path mode dev;
  stat = λ fs path. unix.stat fs path;
}
