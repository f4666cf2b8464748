-- ===== src/TimerFd.antt =====
-- ext/sleepy_penguin/timerfd.c: `TimerFD.new`, `#settime`, `#gettime` and `#expirations`.
pub mod Stale
pub mod Setup
pub mod Total
use sleepy_penguin.Timespec.{value2timespec, timespec2num, Double, Timespec}
use sleepy_penguin.Base.{
  ◌&&◌, ◌==◌, u64_of_int, pos, none, int_of_u64, if◌then◌else◌, some, Option, ℤ, ℕ,
}
use sleepy_penguin.Proc.{get_errno, call, rb_sys_fail, ◌>>◌, pure, syscall, ◌>>=◌, Cmd, Sys}
use sleepy_penguin.Ruby.{qnil, fixnum, is_truthy, nil, is_nil, item, array, Value, Vm}
use sleepy_penguin.Proc.Loop.{again, loop, finish, Step}
use sleepy_penguin.Util.{
  when_nonblock, rb_sp_wait, rb_sp_set_nonblock, retry_after_gc, rb_sp_get_flags, rb_sp_fileno,
}
use sleepy_penguin.Base.Errno.{eagain}

-- `struct itimerspec`
pub record Itimerspec : Type 0 where
  pub it_interval : Timespec
  pub it_value : Timespec

pub record TimerFdCalls (W : Type 0) : Type 0 where
  pub timerfd_create : ℕ → ℕ → Sys W ℤ
  pub timerfd_settime : ℤ → ℕ → Itimerspec → Sys W Itimerspec
  pub timerfd_gettime : ℤ → Sys W Itimerspec
  pub read : ℤ → Sys W ℕ

-- The loop variables of `expirations`: `fd`, and `buf`, from which `tfd_read` takes its descriptor.
pub record Expiry : Type 0 where
  pub fd : ℤ
  pub buf : ℕ

abbrev pub clock_monotonic : ℕ
clock_monotonic = 1

module _ {W : Type 0} (db : Double) (vm : Vm W) (sys : TimerFdCalls W) where
  unfoldable pub s_new : ℕ → Value → Value → Value → Cmd W Value
  s_new cloexec k cid fl = do
    clockid ← (if is_nil cid then pure clock_monotonic else rb_sp_get_flags vm k cid 0)
    flags ← rb_sp_get_flags vm k fl cloexec
    fd ← retry_after_gc vm (sys.timerfd_create clockid flags) "timerfd_create"
    call (vm.rb_call_super fd)

  unfoldable pub itimerspec2ary : Itimerspec → Value
  itimerspec2ary its =
      array (item (timespec2num db its.it_interval) (item (timespec2num db its.it_value) nil))

  unfoldable pub settime : Value → Value → Value → Value → Cmd W Value
  unfolding itimerspec2ary
  settime self fl interval value = do
    fd ← rb_sp_fileno vm self
    flags ← rb_sp_get_flags vm self fl 0
    it_interval ← value2timespec db vm interval
    it_value ← value2timespec db vm value
    old ←
        syscall
          (sys.timerfd_settime fd flags (record { it_interval = it_interval; it_value = it_value }))
    elim old [ none ↦ rb_sys_fail "timerfd_settime" | some its ↦ pure (itimerspec2ary its) ]

  unfoldable pub gettime : Value → Cmd W Value
  unfolding itimerspec2ary
  gettime self = do
    fd ← rb_sp_fileno vm self
    curr ← syscall (sys.timerfd_gettime fd)
    elim curr [ none ↦ rb_sys_fail "timerfd_gettime" | some its ↦ pure (itimerspec2ary its) ]

  -- The descriptor comes out of the buffer, which a read that fails leaves as it is.
  unfoldable pub tfd_read : ℕ → Cmd W (Option ℕ)
  tfd_read buf = syscall (sys.read (int_of_u64 buf))

  -- One round of `expirations` from `retry:` on. The wait refreshes `fd`, and `buf` stays.
  unfoldable pub expirations_round : Value → Value → Expiry → Cmd W (Step Expiry Value)
  unfolding tfd_read
  expirations_round self nonblock x = do
    r ← tfd_read x.buf
    elim r [
      | some buf ↦ pure (finish (fixnum (pos buf)))
      | none ↦ do
        e ← get_errno
        if e == eagain && is_truthy nonblock then pure (finish qnil) else (do
          (rc, fd) ← rb_sp_wait vm vm.rb_io_wait_readable self
          if rc then pure (again (record x { fd = fd })) else rb_sys_fail "read(timerfd)")
    ]

  unfoldable pub expirations : ℕ → Value → Value → Cmd W Value
  expirations fuel self nonblock = do
    fd ← rb_sp_fileno vm self
    when_nonblock vm nonblock fd
    loop fuel (expirations_round self nonblock) (record { fd = fd; buf = u64_of_int fd })
