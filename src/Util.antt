-- ===== src/Util.antt =====
-- ext/sleepy_penguin/util.c: flags, descriptors, and the retry after a collection that the
-- constructors of the descriptor classes share.
pub mod Ends
pub mod Flags
pub mod Nonblock
pub mod Quiet
pub mod Retry
pub mod Yields
pub mod Frame
use sleepy_penguin.Ruby.{
  is_truthy, nil, is_true, qnil, array, bignum, symbol, file, item, fixnum, Values, klass, Value,
  Vm,
}
use sleepy_penguin.Base.{
  Option, bit_and, none, false, true, ◌&&◌, is_some, ◌||◌, not, some, ◌==◌, bit_or, if◌then◌else◌,
  Bool, ℕ, ℤ, String,
}
use sleepy_penguin.Proc.{
  rb_sys_fail, ◌>>◌, get_errno, syscall, ◌>>=◌, type_error, throw, call, pure, Ext, Cmd, Sys,
}
use sleepy_penguin.Base.Errno.{o_nonblock, ebadf, enomem, enfile, emfile}

module _ {W : Type 0} (vm : Vm W) where
  unfoldable pub klass_for : Value → Value
  klass_for (klass k) = klass k
  klass_for v = vm.class_of v

  -- `NUM2INT(rb_const_get(klass, SYM2ID(sym)))` as a 32-bit pattern, and its unsigned twin.
  unfoldable pub int_const : Value → String → Cmd W ℕ
  int_const k sym = do
    c ← call (vm.rb_const_get k sym)
    n ← call (vm.num2int c)
    pure (vm.int_bits n)

  unfoldable pub uint_const : Value → String → Cmd W ℕ
  uint_const k sym = do c ← call (vm.rb_const_get k sym); call (vm.num2uint c)

  -- The `for` loop over an Array of flags; `Check_Type` raises at what is no Symbol.
  unfoldable pub or_flags : (String → Cmd W ℕ) → ℕ → Values → Cmd W ℕ
  or_flags const rv nil = pure rv
  or_flags const rv (item (symbol sym) rest) = do n ← const sym; or_flags const (bit_or rv n) rest
  or_flags const rv (item _ rest) = throw (type_error "wrong argument type (expected Symbol)")

  -- An `int` result is its 32-bit pattern.
  unfoldable pub rb_sp_get_flags : Value → Value → ℕ → Cmd W ℕ
  unfolding klass_for int_const or_flags
  rb_sp_get_flags k qnil default_flags = pure default_flags
  rb_sp_get_flags k (fixnum n) default_flags = do
    i ← call (vm.fix2int (fixnum n))
    pure (vm.int_bits i)
  rb_sp_get_flags k (bignum n) default_flags = do
    i ← call (vm.num2int (bignum n))
    pure (vm.int_bits i)
  rb_sp_get_flags k (symbol sym) default_flags = int_const (klass_for k) sym
  rb_sp_get_flags k (array vs) default_flags = or_flags (int_const (klass_for k)) 0 vs
  rb_sp_get_flags k _ default_flags = throw (type_error "invalid flags")

  -- FIX2UINT and NUM2UINT are one conversion here.
  unfoldable pub rb_sp_get_uflags : Value → Value → Cmd W ℕ
  unfolding klass_for uint_const or_flags
  rb_sp_get_uflags k qnil = pure 0
  rb_sp_get_uflags k (fixnum n) = call (vm.num2uint (fixnum n))
  rb_sp_get_uflags k (bignum n) = call (vm.num2uint (bignum n))
  rb_sp_get_uflags k (symbol sym) = uint_const (klass_for k) sym
  rb_sp_get_uflags k (array vs) = or_flags (uint_const (klass_for k)) 0 vs
  rb_sp_get_uflags k _ = throw (type_error "invalid flags")

  -- Closed means that `fcntl` fails, and fails with EBADF.
  fixint_closed_p : Value → Cmd W Bool
  fixint_closed_p io = do
    fd ← call (vm.fix2int io)
    flags ← syscall (vm.fcntl_getfd fd)
    e ← get_errno
    pure (not (is_some flags) && e == ebadf)

  my_rb_io_closed : Value → Cmd W Bool
  my_rb_io_closed io = do c ← call (vm.is_closed io); pure (is_true c)

  unfoldable pub rb_sp_io_closed : Value → Cmd W Bool
  unfolding fixint_closed_p my_rb_io_closed
  rb_sp_io_closed (fixnum n) = fixint_closed_p (fixnum n)
  rb_sp_io_closed (file f) = my_rb_io_closed (file f)
  rb_sp_io_closed io = do io' ← call (vm.rb_io_get_io io); my_rb_io_closed io'

  -- `GetOpenFile` raises IOError where the file is closed.
  unfoldable pub rb_sp_fileno : Value → Cmd W ℤ
  rb_sp_fileno (fixnum n) = call (vm.fix2int (fixnum n))
  rb_sp_fileno io = do io' ← call (vm.rb_io_get_io io); call (vm.open_file_fd io')

  -- `flags | O_NONBLOCK`, where that is not there yet.
  unfoldable pub add_nonblock : ℤ → Option ℕ → Cmd W (Unit {0})
  add_nonblock fd none = rb_sys_fail "fcntl(F_GETFL)"
  add_nonblock fd (some flags) = if bit_and flags o_nonblock == o_nonblock then pure tt else (do
    r ← syscall (vm.fcntl_setfl fd (bit_or flags o_nonblock))
    if is_some r then pure tt else rb_sys_fail "fcntl(F_SETFL)")

  unfoldable pub rb_sp_set_nonblock : ℤ → Cmd W (Unit {0})
  unfolding add_nonblock
  rb_sp_set_nonblock fd = do flags ← syscall (vm.fcntl_getfl fd); add_nonblock fd flags

  -- `if (RTEST(nonblock)) rb_sp_set_nonblock(fd)`, as the methods that may block begin.
  abbrev pub when_nonblock : Value → ℤ → Cmd W (Unit {0})
  when_nonblock nonblock fd = if is_truthy nonblock then rb_sp_set_nonblock fd else pure tt

  -- What `waiter` said, and the descriptor as it is after the wait (`*fd`).
  unfoldable pub rb_sp_wait : (ℤ → Ext W Bool) → Value → Cmd W (Bool × ℤ)
  rb_sp_wait waiter obj = do
    before ← rb_sp_fileno obj
    rc ← call (waiter before)
    fd ← rb_sp_fileno obj
    pure (rc, fd)

  unfoldable pub rb_sp_gc_for_fd : ℕ → Cmd W Bool
  rb_sp_gc_for_fd err =
      if err == emfile || err == enfile || err == enomem
      then call vm.rb_gc >> pure true
      else pure false

  -- The second attempt that `s_new` of epoll.c, eventfd.c, timerfd.c and inotify.c make alike.
  unfoldable pub retry_after_gc : {A : Type 0} → Sys W A → String → Cmd W A
  retry_after_gc create what = do
    first ← syscall create
    elim first [
      | some fd ↦ pure fd
      | none ↦ do
        e ← get_errno
        again ← rb_sp_gc_for_fd e
        second ← (if again then syscall create else pure none)
        elim second [ none ↦ rb_sys_fail what | some fd ↦ pure fd ]
    ]
