-- ===== src/Epoll/Yields.antt =====
-- How often `epoll_wait` calls its block.
use sleepy_penguin.Proc.Quiet.{Quiet-loop, Quiet-syscall, Quiet-bind, Quiet-pure, Quiet, IsQuietSys}
use sleepy_penguin.Base.{
  true, Bool, [], ◌∷◌, refl, none, is_negative, inr, arith, length, ℤ, inl, some, ◌==◌, is_positive,
  Bool-cases, ◌≡◌, List, ℕ,
}
use sleepy_penguin.Ruby.{Vm}
use sleepy_penguin.Epoll.{
  remaining, EpollEvent, nogvl_wait, Wait, expiry, real_epwait, epwait_result, yield_events,
  epwait_round, epwait_again, epoll_resume_p, ep_fd_check, EpPerThread, now_ms, EpollCalls,
}
use sleepy_penguin.Util.Quiet.{fileno-Quiet, QuietVm}
use sleepy_penguin.Proc.{St}
use sleepy_penguin.Proc.Sat.{Sat}
use sleepy_penguin.Base.Errno.{eintr}
use sleepy_penguin.Util.Yields.{
  Yielded-after, Calls-Yielded, Calls-suc, Yielded, Calls, IsYieldCount,
}

-- What a count of the calls of the block relies on: neither the wait nor the clock changes it.
pub record IsApart {W : Type 0} (yielded : W → ℕ) (sys : EpollCalls W) : Type 0 where
  pub epoll_wait : (fd m t : ℤ) → IsQuietSys yielded (sys.epoll_wait fd m t)
  pub clock_gettime : (w : W) → yielded (sys.clock_gettime w).1 ≡ yielded w

module _ {W : Type 0} (yielded : W → ℕ) (vm : Vm W) (quiet : QuietVm yielded vm)
    (sys : EpollCalls W) (counts : IsYieldCount yielded vm) (apart : IsApart yielded sys) where
  now_ms-Quiet : Quiet yielded (now_ms vm sys)
  unfolding now_ms
  now_ms-Quiet = record { run = λ s. apart.clock_gettime s.world }

  expiry-Quiet : (ept : EpPerThread) → Quiet yielded (expiry vm sys ept)
  expiry-Quiet ept = record {
    run = λ s. elim (Bool-cases (is_positive ept.timeout)) [
      | inl e ↦ rw e ((Quiet-bind yielded now_ms-Quiet λ now. Quiet-pure yielded _).run s)
      | inr e ↦ rw e refl
    ];
  }

  check-Quiet : (ept : EpPerThread) → Quiet yielded (ep_fd_check vm sys ept)
  unfolding ep_fd_check
  check-Quiet ept = record {
    run = λ s.
        (Quiet-bind yielded (fileno-Quiet yielded vm quiet ept.io)
            λ fd. record { run = λ t. refl }).run
          s;
  }

  resume-Quiet : (at : ℕ) (ept : EpPerThread) → Quiet yielded (epoll_resume_p vm sys at ept)
  unfolding epoll_resume_p
  resume-Quiet at ept = Quiet-bind yielded (check-Quiet ept) λ d. record {
    run = λ s. elim (Bool-cases (s.errno == eintr)) [
      | inr e ↦ rw e refl
      | inl e ↦ rw e (elim (Bool-cases (is_negative d.timeout)) [
        | inl f ↦ rw f refl
        | inr f ↦ rw f (
            (Quiet-bind yielded {B = Bool × EpPerThread} now_ms-Quiet λ now.
                Quiet-pure yielded (true, record d { timeout = remaining vm sys at now })).run
              s)
      ])
    ];
  }

  again-Quiet :
      (at : ℕ) (ept : EpPerThread) (n : Wait) → Quiet yielded (epwait_again vm sys at ept n)
  unfolding epwait_again
  again-Quiet at ept (some es) = Quiet-pure yielded _
  again-Quiet at ept none = Quiet-bind yielded (resume-Quiet at ept) λ r. Quiet-pure yielded _

  round-Quiet : (at : ℕ) (ept : EpPerThread) → Quiet yielded (epwait_round vm sys at ept)
  unfolding epwait_round nogvl_wait
  round-Quiet at ept =
      Quiet-bind yielded
        (Quiet-syscall yielded _ (apart.epoll_wait ept.fd ept.maxevents ept.timeout))
        λ n. again-Quiet at ept n

  -- Each event of the buffer is one call of the block.
  yield_events-Calls :
      (es : List EpollEvent) (s : St W) → Calls yielded (length es) s (yield_events vm sys es s)
  unfolding yield_events
  yield_events-Calls [] s = omega arith
  yield_events-Calls (e ∷ es) s =
      Calls-suc yielded vm counts (length es) _ (yield_events vm sys es) s (yield_events-Calls es)

  result-Yielded :
      (n : Wait) (s : St W)
      → Sat
          (Unit {0})
          (λ v u. Yielded yielded s.world v u.world)
          (λ _ _. Unit {0})
          (epwait_result vm sys n s)
  unfolding epwait_result
  result-Yielded none s = elim (Bool-cases (s.errno == eintr)) [
    | inl e ↦ rw e (0, refl, omega arith)
    | inr e ↦ rw e tt
  ]
  result-Yielded (some es) s =
      Calls-Yielded yielded vm counts (length es) s _ (yield_events-Calls es s)

  -- What the waiting returns is the number of calls of the block.
  pub real_epwait-Yielded :
      (fuel : ℕ) (ept : EpPerThread) (s : St W)
      → Sat
          (Unit {0})
          (λ v u. Yielded yielded s.world v u.world)
          (λ _ _. Unit {0})
          (real_epwait vm sys fuel ept s)
  unfolding real_epwait
  real_epwait-Yielded fuel ept s = Yielded-after yielded _ s (expiry-Quiet ept) λ at t.
      Yielded-after yielded _ t (fileno-Quiet yielded vm quiet ept.io) λ fd u.
        Yielded-after yielded _ u
          (Quiet-loop yielded fuel (epwait_round vm sys at) _ (round-Quiet at)) result-Yielded
