-- ===== src/Missing.antt =====
-- ext/sleepy_penguin/missing_*.h: what stands in for functions and macros that a system lacks.
pub mod Files
use sleepy_penguin.Proc.{
  pure, crash, set_errno, rb_sys_fail, get_errno, syscall, ◌>>=◌, ◌>>◌, Sys, Cmd,
}
use sleepy_penguin.Ruby.{Vm}
use sleepy_penguin.Registry.{redefine, fallback, Headers}
use sleepy_penguin.Base.{
  ◌+ℤ◌, ◌||◌, ◌*◌, bit_or, ◌==◌, none, ◌&&◌, bit_and, pos, not, is_some, some, Option, Bool,
  if◌then◌else◌, ℕ, ℤ,
}
use sleepy_penguin.Timespec.{Timespec}
use sleepy_penguin.Base.Errno.{o_nonblock, fd_cloexec}

pub record OldCalls (W : Type 0) : Type 0 where
  pub gettimeofday : Sys W (ℤ × ℕ)
  pub epoll_create : ℕ → Sys W ℤ
  pub inotify_init : Sys W ℤ
  pub close : ℤ → Sys W (Unit {0})

-- `fake_clock_gettime`: seconds and microseconds of the day. The assertion is that the call works.
module _ {W : Type 0} (old : OldCalls W) where
  unfoldable pub fake_clock_gettime : Cmd W Timespec
  fake_clock_gettime = do
    tv ← syscall old.gettimeofday
    elim tv [
      | none ↦ λ s. crash
      | some (tv_sec, tv_usec) ↦ pure (record { tv_sec = tv_sec; tv_nsec = pos (tv_usec * 1000) })
    ]

  module _ (vm : Vm W) where
    -- A flag of an `int`.
    abbrev pub has_flag : ℕ → ℕ → Bool
    has_flag flags f = not (bit_and flags f == 0)

    -- `close(fd)` between the save of `errno` and its return.
    unfoldable pub close_quietly : ℤ → Cmd W (Unit {0})
    close_quietly fd = do saved_errno ← get_errno; syscall (old.close fd); set_errno saved_errno

    -- `flags & EPOLL_CLOEXEC` and what follows; every other flag is passed over.
    unfoldable pub my_epoll_create1 : ℕ → ℕ → Cmd W (Option ℤ)
    unfolding close_quietly
    my_epoll_create1 epoll_cloexec flags = do
      r ← syscall (old.epoll_create 1024)
      elim r [
        | none ↦ pure none
        | some fd ↦
            if flags == 0
            then pure (some fd)
            else (if has_flag flags epoll_cloexec
                then (do
                  set ← syscall (vm.fcntl_setfd fd fd_cloexec)
                  if is_some set then pure (some fd) else close_quietly fd >> pure none)
                else pure (some fd))
      ]

    -- `fcntl_err:`
    unfoldable pub fcntl_err : {A : Type 0} → ℤ → Cmd W A
    unfolding close_quietly
    fcntl_err fd = close_quietly fd >> rb_sys_fail "fcntl"

    -- The non-blocking part of `my_inotify_init1`.
    unfoldable pub init1_nonblock : ℤ → Cmd W (Unit {0})
    unfolding fcntl_err
    init1_nonblock fd = do
      tmp ← syscall (vm.fcntl_getfl fd)
      elim tmp [
        | none ↦ fcntl_err fd
        | some fl ↦ do
          set ← syscall (vm.fcntl_setfl fd (bit_or fl o_nonblock))
          elim set [ none ↦ fcntl_err fd | some _ ↦ pure tt ]
      ]

    unfoldable pub my_inotify_init1 : ℕ → ℕ → ℕ → Cmd W (Option ℤ)
    unfolding fcntl_err init1_nonblock
    my_inotify_init1 in_cloexec in_nonblock flags = do
      r ← syscall old.inotify_init
      elim r [
        | none ↦ pure none
        | some fd ↦ do
          (if has_flag flags in_cloexec
              then (do
                set ← syscall (vm.fcntl_setfd fd fd_cloexec)
                elim set [ none ↦ fcntl_err fd | some _ ↦ pure tt ])
              else pure tt)
          (if has_flag flags in_nonblock then init1_nonblock fd else pure tt)
          pure (some fd)
      ]

-- `#ifndef` and `#define` of missing_epoll.h.
unfoldable pub epoll_headers : Headers → Headers
epoll_headers = fallback "EPOLL_CLOEXEC" (some (pos 0x80000))

-- Those of missing_inotify.h.
unfoldable pub inotify_headers : Headers → Headers
inotify_headers h = fallback "IN_CLOEXEC" (some (pos 0x80000)) (
    fallback "IN_NONBLOCK" (h "O_NONBLOCK") (
      fallback "IN_ATTRIB" (some (pos 0x4)) (
        fallback "IN_ONLYDIR" (some (pos 0x1000000)) (
          fallback "IN_DONT_FOLLOW" (some (pos 0x2000000)) (
            fallback "IN_EXCL_UNLINK" (some (pos 0x4000000)) (
              fallback "IN_MASK_ADD" (some (pos 0x20000000))
                (fallback "IN_ONESHOT" (some (pos 0x80000000)) h)))))))

-- Those of missing_clock_gettime.h, where there is no `clock_gettime` or no CLOCK_MONOTONIC.
abbrev realtime_headers : Headers → Headers
realtime_headers h =
    if is_some (h "HAVE_CLOCK_GETTIME") then h else fallback "CLOCK_REALTIME" (some (pos 0)) h

unfoldable pub clock_headers : Headers → Headers
clock_headers h =
    if is_some (h "CLOCK_MONOTONIC")
      || (is_some (h "_POSIX_MONOTONIC_CLOCK") && is_some (h "HAVE_CLOCK_MONOTONIC"))
    then realtime_headers h
    else fallback "CLOCK_MONOTONIC" (realtime_headers h "CLOCK_REALTIME") (realtime_headers h)

-- The number of copy_file_range(2) that sleepy_penguin.h gives on x86, where libc lacks the function.
unfoldable pub cfr_headers : Headers → Headers
cfr_headers h =
    if is_some (h "HAVE_COPY_FILE_RANGE") || not (is_some (h "__linux__"))
    then h
    else (if is_some (h "__x86_64__")
        then fallback "__NR_copy_file_range" (some (pos 326)) h
        else (if is_some (h "__i386__")
            then fallback "__NR_copy_file_range" (some (pos 377)) h
            else h))

-- `RB_SP_CLOEXEC(flag)`: only a Ruby that can undo it sets the flag.
unfoldable pub rb_sp_cloexec : Headers → ℕ → ℕ
rb_sp_cloexec h flag = if is_some (h "HAVE_RB_FD_FIX_CLOEXEC") then flag else 0

-- The fcntl(2) commands for the size of a pipe, of splice.c.
unfoldable pub pipe_headers : Headers → Headers
pipe_headers h =
    if is_some (h "F_GETPIPE_SZ")
    then h
    else redefine "F_GETPIPE_SZ" (base h +ℤ pos 8) (redefine "F_SETPIPE_SZ" (base h +ℤ pos 7) h)
  where
    base : Headers → ℤ
    base g = elim (g "F_LINUX_SPECIFIC_BASE") [ none ↦ pos 1024 | some b ↦ b ]
