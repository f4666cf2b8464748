-- ===== src/Util/Quiet.antt =====
-- util.c where the calls into Ruby leave a view of the world as it is.
use sleepy_penguin.Ruby.{is_truthy, fixnum, Value, Vm}
use sleepy_penguin.Util.{when_nonblock, rb_sp_set_nonblock, add_nonblock, rb_sp_wait, rb_sp_fileno}
use sleepy_penguin.Base.{
  refl, none, bit_or, inr, arith, inl, ◌==◌, is_some, bit_and, if◌then◌else◌, Bool-cases, some,
  Bool, Option, ℕ, ℤ,
}
use sleepy_penguin.Proc.Quiet.{
  Quiet-pure, Quiet-syscall, Quiet-call, Quiet-bind, IsQuietSys, Quiet, IsQuiet,
}
use sleepy_penguin.Proc.{rb_sys_fail, pure, ◌>>=◌, syscall, call, Ext}
use sleepy_penguin.Base.Errno.{o_nonblock}

-- Nothing in the VM that these functions call touches what is in view.
pub record QuietVm {W V : Type 0} (view : W → V) (vm : Vm W) : Type 0 where
  pub fix2int : (v : Value) → IsQuiet view (vm.fix2int v)
  pub rb_io_get_io : (v : Value) → IsQuiet view (vm.rb_io_get_io v)
  pub open_file_fd : (v : Value) → IsQuiet view (vm.open_file_fd v)
  pub num2ull : (v : Value) → IsQuiet view (vm.num2ull v)
  pub num2long : (v : Value) → IsQuiet view (vm.num2long v)
  pub num2ulong : (v : Value) → IsQuiet view (vm.num2ulong v)
  pub num2uint : (v : Value) → IsQuiet view (vm.num2uint v)
  pub fcntl_getfl : (fd : ℤ) → IsQuietSys view (vm.fcntl_getfl fd)
  pub fcntl_setfl : (fd : ℤ) (f : ℕ) → IsQuietSys view (vm.fcntl_setfl fd f)
  pub rb_io_wait_readable : (fd : ℤ) → IsQuiet view (vm.rb_io_wait_readable fd)
  pub rb_io_wait_writable : (fd : ℤ) → IsQuiet view (vm.rb_io_wait_writable fd)

module _ {W V : Type 0} (view : W → V) (vm : Vm W) (quiet : QuietVm view vm) where
  via_io-Quiet :
      (v : Value) → Quiet view (call (vm.rb_io_get_io v) >>= λ io. call (vm.open_file_fd io))
  via_io-Quiet v =
      Quiet-bind view (Quiet-call view _ (quiet.rb_io_get_io v))
        λ io. Quiet-call view _ (quiet.open_file_fd io)

  pub fileno-Quiet : (v : Value) → Quiet view (rb_sp_fileno vm v)
  unfolding rb_sp_fileno
  fileno-Quiet (fixnum n) = Quiet-call view _ (quiet.fix2int (fixnum n))
  fileno-Quiet v = via_io-Quiet v

  pub wait-Quiet :
      (waiter : ℤ → Ext W Bool) (v : Value)
      → ((fd : ℤ) → IsQuiet view (waiter fd))
      → Quiet view (rb_sp_wait vm waiter v)
  unfolding rb_sp_wait
  wait-Quiet waiter v h = Quiet-bind view (fileno-Quiet v) λ before.
      Quiet-bind view (Quiet-call view _ (h before))
        λ rc. Quiet-bind view (fileno-Quiet v) λ fd. Quiet-pure view (rc, fd)

  setfl-Quiet :
      (fd : ℤ) (f : ℕ)
      → Quiet view (
          syscall (vm.fcntl_setfl fd f) >>= λ r.
          if is_some r then pure tt else rb_sys_fail "fcntl(F_SETFL)")
  setfl-Quiet fd f =
      Quiet-bind view (Quiet-syscall view _ (quiet.fcntl_setfl fd f))
        λ r. record { run = λ s. ground arith }

  add_nonblock-Quiet : (fd : ℤ) (flags : Option ℕ) → Quiet view (add_nonblock vm fd flags)
  unfolding add_nonblock
  add_nonblock-Quiet fd none = record { run = λ s. refl }
  add_nonblock-Quiet fd (some f) = record {
    run = λ s. elim (Bool-cases (bit_and f o_nonblock == o_nonblock)) [
      | inl e ↦ rw e refl
      | inr e ↦ rw e ((setfl-Quiet fd (bit_or f o_nonblock)).run s)
    ];
  }

  pub set_nonblock-Quiet : (fd : ℤ) → Quiet view (rb_sp_set_nonblock vm fd)
  unfolding rb_sp_set_nonblock
  set_nonblock-Quiet fd =
      Quiet-bind view (Quiet-syscall view _ (quiet.fcntl_getfl fd)) (add_nonblock-Quiet fd)

  pub when_nonblock-Quiet : (nonblock : Value) (fd : ℤ) → Quiet view (when_nonblock vm nonblock fd)
  when_nonblock-Quiet nonblock fd = record {
    run = λ s. elim (Bool-cases (is_truthy nonblock)) [
      | inl e ↦ rw e ((set_nonblock-Quiet fd).run s)
      | inr e ↦ rw e refl
    ];
  }
