-- ===== src/Base/Errno.antt =====
-- The numbers of errno.h and fcntl.h that the sources name, as on Linux.
use Prim.Native.Nat.{ℕ}

abbrev pub eintr : ℕ
eintr = 4

abbrev pub ebadf : ℕ
ebadf = 9

abbrev pub eagain : ℕ
eagain = 11

abbrev pub enomem : ℕ
enomem = 12

abbrev pub einval : ℕ
einval = 22

abbrev pub enfile : ℕ
enfile = 23

abbrev pub emfile : ℕ
emfile = 24

abbrev pub enobufs : ℕ
enobufs = 105

abbrev pub o_nonblock : ℕ
o_nonblock = 2048

abbrev pub fd_cloexec : ℕ
fd_cloexec = 1
