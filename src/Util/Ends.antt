-- ===== src/Util/Ends.antt =====
-- util.c where the world interrupts finitely often.
use sleepy_penguin.Base.{
  none, inr, inl, ◌==◌, bit_and, Bool-cases, some, Option, List, arith, Bool, ℤ, ℕ,
}
use sleepy_penguin.Ruby.{is_truthy, fixnum, Value, Vm}
use sleepy_penguin.Util.{when_nonblock, add_nonblock, rb_sp_set_nonblock, rb_sp_wait, rb_sp_fileno}
use sleepy_penguin.Proc.Patience.{syscall-Ends, IsCalmSys, Ends-and_then, call-Ends, Ends, IsCalm}
use sleepy_penguin.Proc.{◌>>=◌, call, Ext, St}
use sleepy_penguin.Base.Errno.{o_nonblock}

-- Nothing in the VM that these functions call adds an interruption.
pub record CalmVm {W : Type 0} (left : W → ℕ) (vm : Vm W) : Type 0 where
  pub fix2int : (v : Value) → IsCalm left (vm.fix2int v)
  pub rb_io_get_io : (v : Value) → IsCalm left (vm.rb_io_get_io v)
  pub open_file_fd : (v : Value) → IsCalm left (vm.open_file_fd v)
  pub num2int : (v : Value) → IsCalm left (vm.num2int v)
  pub num2uint : (v : Value) → IsCalm left (vm.num2uint v)
  pub num2short : (v : Value) → IsCalm left (vm.num2short v)
  pub num2ushort : (v : Value) → IsCalm left (vm.num2ushort v)
  pub num2long : (v : Value) → IsCalm left (vm.num2long v)
  pub num2ulong : (v : Value) → IsCalm left (vm.num2ulong v)
  pub num2ull : (v : Value) → IsCalm left (vm.num2ull v)
  pub rb_gc : IsCalm left vm.rb_gc
  pub rb_yield_values : (vs : List Value) → IsCalm left (vm.rb_yield_values vs)
  pub fcntl_getfl : (fd : ℤ) → IsCalmSys left (vm.fcntl_getfl fd)
  pub fcntl_setfl : (fd : ℤ) (f : ℕ) → IsCalmSys left (vm.fcntl_setfl fd f)
  pub rb_io_wait_readable : (fd : ℤ) → IsCalm left (vm.rb_io_wait_readable fd)
  pub rb_io_wait_writable : (fd : ℤ) → IsCalm left (vm.rb_io_wait_writable fd)

module _ {W : Type 0} (left : W → ℕ) (vm : Vm W) (calm : CalmVm left vm) where
  via_io-Ends :
      (v : Value) (s : St W)
      → Ends left s ((call (vm.rb_io_get_io v) >>= λ io. call (vm.open_file_fd io)) s)
  via_io-Ends v s =
      Ends-and_then left s _ _ (call-Ends left _ s (calm.rb_io_get_io v))
        λ io t. call-Ends left _ t (calm.open_file_fd io)

  pub fileno-Ends : (v : Value) (s : St W) → Ends left s (rb_sp_fileno vm v s)
  unfolding rb_sp_fileno
  fileno-Ends (fixnum n) s = call-Ends left _ s (calm.fix2int (fixnum n))
  fileno-Ends v s = via_io-Ends v s

  pub wait-Ends :
      (waiter : ℤ → Ext W Bool) (v : Value) (s : St W)
      → ((fd : ℤ) → IsCalm left (waiter fd))
      → Ends left s (rb_sp_wait vm waiter v s)
  unfolding rb_sp_wait
  wait-Ends waiter v s h = Ends-and_then left s _ _ (fileno-Ends v s) λ before t.
      Ends-and_then left t _ _ (call-Ends left (waiter before) t (h before))
        λ rc u. Ends-and_then left u _ _ (fileno-Ends v u) λ fd x. omega arith

  add_nonblock-Ends :
      (fd : ℤ) (flags : Option ℕ) (s : St W) → Ends left s (add_nonblock vm fd flags s)
  unfolding add_nonblock
  add_nonblock-Ends fd none s = tt
  add_nonblock-Ends fd (some f) s = elim (Bool-cases (bit_and f o_nonblock == o_nonblock)) [
    | inl e ↦ rw e (omega arith)
    | inr e ↦ rw e (
        Ends-and_then left s _ _ (syscall-Ends left _ s (calm.fcntl_setfl fd _))
          λ r t. ground arith)
  ]

  pub set_nonblock-Ends : (fd : ℤ) (s : St W) → Ends left s (rb_sp_set_nonblock vm fd s)
  unfolding rb_sp_set_nonblock
  set_nonblock-Ends fd s =
      Ends-and_then left s _ _ (syscall-Ends left _ s (calm.fcntl_getfl fd)) (add_nonblock-Ends fd)

  pub when_nonblock-Ends :
      (nonblock : Value) (fd : ℤ) (s : St W) → Ends left s (when_nonblock vm nonblock fd s)
  when_nonblock-Ends nonblock fd s = elim (Bool-cases (is_truthy nonblock)) [
    | inl e ↦ rw e (set_nonblock-Ends fd s)
    | inr e ↦ rw e (omega arith)
  ]

-- Where nothing is counted, nothing is added: what does not loop ends whatever the VM does.
pub uncounted : {W : Type 0} (vm : Vm W) → CalmVm (λ _. 0) vm
uncounted vm = record {
  fix2int = λ v e w a e' w' h. omega arith;
  rb_io_get_io = λ v e w a e' w' h. omega arith;
  open_file_fd = λ v e w a e' w' h. omega arith;
  num2int = λ v e w a e' w' h. omega arith;
  num2uint = λ v e w a e' w' h. omega arith;
  num2short = λ v e w a e' w' h. omega arith;
  num2ushort = λ v e w a e' w' h. omega arith;
  num2long = λ v e w a e' w' h. omega arith;
  num2ulong = λ v e w a e' w' h. omega arith;
  num2ull = λ v e w a e' w' h. omega arith;
  rb_gc = λ e w a e' w' h. omega arith;
  rb_yield_values = λ vs e w a e' w' h. omega arith;
  fcntl_getfl = λ fd. (λ w a w' h. omega arith, λ w e w' h. omega arith);
  fcntl_setfl = λ fd f. (λ w a w' h. omega arith, λ w e w' h. omega arith);
  rb_io_wait_readable = λ fd e w a e' w' h. omega arith;
  rb_io_wait_writable = λ fd e w a e' w' h. omega arith;
}
