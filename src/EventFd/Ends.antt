-- ===== src/EventFd/Ends.antt =====
-- The loops of `incr` and `value` where the world interrupts finitely often.
use sleepy_penguin.Base.{
  pos, ◌⊎◌, refl, ◌≤◌, inr, arith, inl, ◌&&◌, ◌==◌, Bool-cases, ◌<◌, String, Bool, true, ℤ, ◌≡◌, ℕ,
}
use sleepy_penguin.Ruby.{qnil, qfalse, fixnum, qtrue, is_truthy, Value, Vm}
use sleepy_penguin.Util.Ends.{when_nonblock-Ends, fileno-Ends, wait-Ends, CalmVm}
use sleepy_penguin.EventFd.{getvalue, incr, getvalue_round, incr_round, EventFdCalls, failed}
use sleepy_penguin.Proc.{Ext, St}
use sleepy_penguin.Base.Errno.{eagain}
use sleepy_penguin.Proc.Patience.{call-Ends, Ends-then, syscall_cases, loop-Ends, IsSpent, IsCalm}
use sleepy_penguin.Proc.Sat.{Sat-and_then, Sat}
use sleepy_penguin.Proc.Loop.{loop, Keeps}

module _ {W : Type 0} (left : W → ℕ) (vm : Vm W) (calm : CalmVm left vm) where
  -- A call with `nonblock` that would block gives `blocked`, with `errno` at EAGAIN.
  abbrev pub WouldBlock : Value → Value → Value → St W → Type 0
  WouldBlock nonblock blocked v t = (v ≡ blocked) × (is_truthy nonblock ≡ true) × (t.errno ≡ eagain)

  -- The three ways on from a failure, from a state with an interruption less to come.
  pub failed-Ends :
      (Q : Value → St W → Type 0) (sys : EventFdCalls W) (bound : ℕ) (self nonblock blocked : Value)
      (waiter : ℤ → Ext W Bool) (what : String) (s : St W)
      → left s.world < bound
      → ((fd : ℤ) → IsCalm left (waiter fd))
      → ((t : St W) → WouldBlock nonblock blocked blocked t → Q blocked t)
      → Sat ⊥
          (Keeps (λ _ t. left t.world < bound) Q)
          (λ _ _. Unit {0})
          (failed vm sys self nonblock waiter blocked what s)
  unfolding failed
  failed-Ends Q sys bound self nonblock blocked waiter what s m h q =
      elim (Bool-cases (s.errno == eagain && is_truthy nonblock)) [
        | inl e ↦ rw e (q s (refl, ground arith, ground arith))
        | inr e ↦ rw e (
            Sat-and_then ⊥ (λ _ t. left t.world ≤ left s.world) _ (λ _ _. Unit {0}) _ _
              (wait-Ends left vm calm waiter self s h) (λ r t k. ground arith))
      ]

  module _ (sys : EventFdCalls W) (self nonblock : Value) where
    abbrev pub Incremented : Value → St W → Type 0
    Incremented v t = (v ≡ qtrue) ⊎ WouldBlock nonblock qfalse v t

    incr_loop-Ends :
        (fuel val : ℕ) (fd : ℤ) (s : St W)
        → ((fd : ℤ) → IsSpent left (sys.write fd val))
        → left s.world < fuel
        → Sat ⊥ Incremented (λ _ _. Unit {0}) (loop fuel (incr_round vm sys self nonblock val) fd s)
    unfolding incr_round
    incr_loop-Ends fuel val fd s spent m = loop-Ends left Incremented _ _ fuel fd s m λ fd s.
        syscall_cases left Incremented _ _ s _ (spent fd) (λ a w. inl refl)
          λ e w less.
            failed-Ends Incremented sys (left s.world) self nonblock qfalse _ _ _ less
              calm.rb_io_wait_writable (λ t h. inr h)

    abbrev pub Valued : Value → St W → Type 0
    Valued v t = ((n : ℕ) × (v ≡ fixnum (pos n))) ⊎ WouldBlock nonblock qnil v t

    getvalue_loop-Ends :
        (fuel : ℕ) (fd : ℤ) (s : St W)
        → ((fd : ℤ) → IsSpent left (sys.read fd))
        → left s.world < fuel
        → Sat ⊥ Valued (λ _ _. Unit {0}) (loop fuel (getvalue_round vm sys self nonblock) fd s)
    unfolding getvalue_round
    getvalue_loop-Ends fuel fd s spent m = loop-Ends left Valued _ _ fuel fd s m λ fd s.
        syscall_cases left Valued _ _ s _ (spent fd) (λ n w. inl (n, refl))
          λ e w less.
            failed-Ends Valued sys (left s.world) self nonblock qnil _ _ _ less
              calm.rb_io_wait_readable (λ t h. inr h)

    -- Where the world interrupts finitely often, and there is fuel for each interruption, `incr`
    -- returns true, or false where `nonblock` is given and the call would block, or it raises.
    pub incr-Ends :
        (fuel : ℕ) (value : Value) (s : St W)
        → ((fd : ℤ) (val : ℕ) → IsSpent left (sys.write fd val))
        → left s.world < fuel
        → Sat ⊥ Incremented (λ _ _. Unit {0}) (incr vm sys fuel self value nonblock s)
    unfolding incr
    incr-Ends fuel value s spent m =
        Ends-then left Incremented s _ _ (fileno-Ends left vm calm self s) λ fd t le.
          Ends-then left Incremented t _ _ (when_nonblock-Ends left vm calm nonblock fd t)
            λ _ u le2.
              Ends-then left Incremented u _ _ (call-Ends left _ u (calm.num2ull value))
                λ val x le3. incr_loop-Ends fuel val fd x (λ fd. spent fd val) (omega arith)

    -- Where the world interrupts finitely often, and there is fuel for each interruption, `value`
    -- returns a number, or nil where `nonblock` is given and the call would block, or it raises.
    pub getvalue-Ends :
        (fuel : ℕ) (s : St W)
        → ((fd : ℤ) → IsSpent left (sys.read fd))
        → left s.world < fuel
        → Sat ⊥ Valued (λ _ _. Unit {0}) (getvalue vm sys fuel self nonblock s)
    unfolding getvalue
    getvalue-Ends fuel s spent m =
        Ends-then left Valued s _ _ (fileno-Ends left vm calm self s) λ fd t le.
          Ends-then left Valued t _ _ (when_nonblock-Ends left vm calm nonblock fd t)
            λ _ u le2. getvalue_loop-Ends fuel fd u spent (omega arith)
