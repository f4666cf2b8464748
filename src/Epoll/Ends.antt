-- ===== src/Epoll/Ends.antt =====
-- The loop of `epoll_wait` where the world interrupts finitely often.
use sleepy_penguin.Base.{
  Bool, true, refl, none, length, some, is_negative, [], inr, inl, ◌∷◌, ◌<◌, is_positive, pos, ◌==◌,
  Bool-cases, arith, ℤ, ◌≡◌, List, ◌≤◌, ℕ,
}
use sleepy_penguin.Ruby.{fixnum, Value, Vm}
use sleepy_penguin.Util.Ends.{fileno-Ends, CalmVm}
use sleepy_penguin.Epoll.{
  remaining, expiry, EpollEvent, epwait_again, nogvl_wait, real_epwait, EpPerThread, epwait_result,
  yield_events, epwait_round, Wait, epoll_resume_p, ep_fd_check, now_ms, EpollCalls,
}
use sleepy_penguin.Proc.{done, and_then, Run, St}
use sleepy_penguin.Proc.Patience.{
  loop-Ends, Ends-then, call-Ends, syscall_cases, IsSpent, Ends-and_then, Ends,
}
use sleepy_penguin.Proc.Sat.{Sat-and_then, Sat}
use sleepy_penguin.Proc.Loop.{loop, Keeps}
use sleepy_penguin.Base.Errno.{eintr}

module _ {W : Type 0} (left : W → ℕ) (vm : Vm W) (calm : CalmVm left vm) (sys : EpollCalls W) where
  -- The clock adds no interruption.
  abbrev pub IsCalmClock : Type 0
  IsCalmClock = (w : W) → left (sys.clock_gettime w).1 ≤ left w

  now_ms-Ends : IsCalmClock → (s : St W) → Ends left s (now_ms vm sys s)
  unfolding now_ms
  now_ms-Ends c s = c s.world

  then_pure :
      {A B : Type 0} (s : St W) (r : Run W A) (g : A → B)
      → Ends left s r
      → Ends left s (and_then r (λ a t. done (g a) t))
  then_pure s r g h = Ends-and_then left s r _ h λ a t. omega arith

  check-Ends : (ept : EpPerThread) (s : St W) → Ends left s (ep_fd_check vm sys ept s)
  unfolding ep_fd_check
  check-Ends ept s =
      Ends-and_then left s _ _ (fileno-Ends left vm calm ept.io s) λ fd t. omega arith

  resume-Ends :
      IsCalmClock
      → (at : ℕ) (ept : EpPerThread) (s : St W) → Ends left s (epoll_resume_p vm sys at ept s)
  unfolding epoll_resume_p
  resume-Ends c at ept s = Ends-and_then left s _ _ (check-Ends ept s) λ d t.
      elim (Bool-cases (t.errno == eintr)) [
        | inr e ↦ rw e (omega arith)
        | inl e ↦ rw e (elim (Bool-cases (is_negative d.timeout)) [
          | inl f ↦ rw f (omega arith)
          | inr f ↦ rw f (
              then_pure {B = Bool × EpPerThread} t (now_ms vm sys t)
                (λ now. (true, record d { timeout = remaining vm sys at now })) (now_ms-Ends c t))
        ])
      ]

  -- What epoll_wait(2) leaves: events, or a failure that is not to be retried.
  abbrev AnyWait : Wait → St W → Type 0
  AnyWait n t = Unit {0}

  round-Ends :
      IsCalmClock
      → (at : ℕ) (ept : EpPerThread) (s : St W)
      → IsSpent left (sys.epoll_wait ept.fd ept.maxevents ept.timeout)
      → Sat ⊥
          (Keeps (λ _ t. left t.world < left s.world) AnyWait)
          (λ _ _. Unit {0})
          (epwait_round vm sys at ept s)
  unfolding epwait_round nogvl_wait epwait_again
  round-Ends c at ept s spent =
      syscall_cases left AnyWait _ _ s _ spent (λ es w. tt)
        λ e w less.
          let t : St W = record s { errno = e; world = w } in
          Sat-and_then ⊥ (λ _ u. left u.world ≤ left t.world) _ (λ _ _. Unit)
            (epoll_resume_p vm sys at ept t) _ (resume-Ends c at ept t)
            λ r u le. elim (Bool-cases r.0) [ inl f ↦ rw f (omega arith) | inr f ↦ rw f tt ]

  yield-Ends : (es : List EpollEvent) (s : St W) → Ends left s (yield_events vm sys es s)
  unfolding yield_events
  yield-Ends [] s = omega arith
  yield-Ends (e ∷ es) s =
      Ends-and_then left s _ _ (call-Ends left _ s (calm.rb_yield_values _)) λ _ t. yield-Ends es t

  -- What `epoll_wait` returns: the number of events yielded, 0 where a signal ended the wait.
  abbrev pub IsCount : Value → St W → Type 0
  IsCount v t = (n : ℕ) × (v ≡ fixnum (pos n))

  result-Ends : (n : Wait) (s : St W) → Sat ⊥ IsCount (λ _ _. Unit {0}) (epwait_result vm sys n s)
  unfolding epwait_result
  result-Ends none s = elim (Bool-cases (s.errno == eintr)) [
    | inl e ↦ rw e (0, refl)
    | inr e ↦ rw e tt
  ]
  result-Ends (some es) s =
      Ends-then left IsCount s _ _ (yield-Ends es s) λ _ t le. (length es, refl)

  expiry-Ends : IsCalmClock → (ept : EpPerThread) (s : St W) → Ends left s (expiry vm sys ept s)
  expiry-Ends c ept s = elim (Bool-cases (is_positive ept.timeout)) [
    | inl e ↦ rw e (Ends-and_then left s _ _ (now_ms-Ends c s) λ n t. omega arith)
    | inr e ↦ rw e (omega arith)
  ]

  -- Where the world interrupts finitely often, and there is fuel for each interruption, the waiting
  -- of `epoll_wait` ends: it returns a number of events, or raises. Reading the clock adds no
  -- interruption, and every failure of epoll_wait(2) uses one up.
  pub real_epwait-Ends :
      IsCalmClock
      → (fuel : ℕ) (ept : EpPerThread) (s : St W)
      → ((fd m t : ℤ) → IsSpent left (sys.epoll_wait fd m t))
      → left s.world < fuel
      → Sat ⊥ IsCount (λ _ _. Unit {0}) (real_epwait vm sys fuel ept s)
  unfolding real_epwait
  real_epwait-Ends c fuel ept s spent m =
      Ends-then left IsCount s _ _ (expiry-Ends c ept s) λ at t le.
        Ends-then left IsCount t _ _ (fileno-Ends left vm calm ept.io t) λ fd u le2.
          Sat-and_then ⊥ AnyWait IsCount (λ _ _. Unit)
            (loop fuel (epwait_round vm sys at) (record ept { fd = fd }) u) _
            (loop-Ends left AnyWait _ _ fuel _ u (omega arith)
              λ d x. round-Ends c at d x (spent d.fd d.maxevents d.timeout))
            λ n x _. result-Ends n x
