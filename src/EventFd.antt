-- ===== src/EventFd.antt =====
-- ext/sleepy_penguin/eventfd.c: `EventFD.new`, `#incr` and `#value`.
pub mod Counter
pub mod Ends
pub mod Setup
use sleepy_penguin.Base.{
  Option, none, pos, ◌&&◌, ◌==◌, some, String, Bool, if◌then◌else◌, ℤ, ◌^◌, ℕ,
}
use sleepy_penguin.Ruby.{qnil, qfalse, fixnum, qtrue, is_truthy, Value, Vm}
use sleepy_penguin.Proc.{rb_sys_fail, get_errno, pure, ◌>>◌, syscall, call, ◌>>=◌, Ext, Cmd, Sys}
use sleepy_penguin.Proc.Loop.{again, finish, loop, Step}
use sleepy_penguin.Util.{
  when_nonblock, rb_sp_wait, retry_after_gc, rb_sp_set_nonblock, rb_sp_get_flags, rb_sp_fileno,
}
use sleepy_penguin.Base.Errno.{eagain}

-- The system calls of the component. A write or read of eight bytes is that of one number.
pub record EventFdCalls (W : Type 0) : Type 0 where
  pub eventfd : ℕ → ℕ → Sys W ℤ
  pub write : ℤ → ℕ → Sys W (Unit {0})
  pub read : ℤ → Sys W ℕ

abbrev pub u64_mod : ℕ
u64_mod = 2 ^ 64

-- `EventFD::MAX`
abbrev pub max : ℕ
max = 0xffff_ffff_ffff_fffe

module _ {W : Type 0} (vm : Vm W) (sys : EventFdCalls W) where
  -- `cloexec` is `RB_SP_CLOEXEC(EFD_CLOEXEC)`, and `k` is the receiver.
  unfoldable pub s_new : ℕ → Value → Value → Value → Cmd W Value
  s_new cloexec k initval flags = do
    v ← call (vm.num2uint initval)
    f ← rb_sp_get_flags vm k flags cloexec
    fd ← retry_after_gc vm (sys.eventfd v f) "eventfd"
    call (vm.rb_call_super fd)

  -- What follows a call that failed: false or nil at once, another round, or the exception.
  unfoldable pub failed : Value → Value → (ℤ → Ext W Bool) → Value → String → Cmd W (Step ℤ Value)
  failed self nonblock waiter blocked what = do
    e ← get_errno
    if e == eagain && is_truthy nonblock then pure (finish blocked) else (do
      (rc, fd) ← rb_sp_wait vm waiter self
      if rc then pure (again fd) else rb_sys_fail what)

  abbrev pub efd_write : ℤ → ℕ → Cmd W (Option (Unit {0}))
  efd_write fd val = syscall (sys.write fd val)

  abbrev pub efd_read : ℤ → Cmd W (Option ℕ)
  efd_read fd = syscall (sys.read fd)

  -- One round of `incr` from `retry:` on; the descriptor is the loop variable.
  unfoldable pub incr_round : Value → Value → ℕ → ℤ → Cmd W (Step ℤ Value)
  incr_round self nonblock val fd = do
    w ← efd_write fd val
    elim w [
      | some _ ↦ pure (finish qtrue)
      | none ↦ failed self nonblock vm.rb_io_wait_writable qfalse "write(eventfd)"
    ]

  unfoldable pub incr : ℕ → Value → Value → Value → Cmd W Value
  incr fuel self value nonblock = do
    fd ← rb_sp_fileno vm self
    when_nonblock vm nonblock fd
    val ← call (vm.num2ull value)
    loop fuel (incr_round self nonblock val) fd

  -- One round of `getvalue` from `retry:` on.
  unfoldable pub getvalue_round : Value → Value → ℤ → Cmd W (Step ℤ Value)
  getvalue_round self nonblock fd = do
    r ← efd_read fd
    elim r [
      | some val ↦ pure (finish (fixnum (pos val)))
      | none ↦ failed self nonblock vm.rb_io_wait_readable qnil "read(eventfd)"
    ]

  unfoldable pub getvalue : ℕ → Value → Value → Cmd W Value
  getvalue fuel self nonblock = do
    fd ← rb_sp_fileno vm self
    when_nonblock vm nonblock fd
    loop fuel (getvalue_round self nonblock) fd
