-- ===== src/Epoll/Buffers.antt =====
-- The thread-local buffer of a call of `epoll_wait`.
use sleepy_penguin.Ruby.{is_nil, Value, Allocates, Vm}
use sleepy_penguin.Epoll.{
  epwait, ept_get, expiry, now_ms, EpollEvent, Wait, EpPerThread, real_epwait, epwait_round,
  epwait_again, epoll_resume_p, epwait_result, yield_events, ep_fd_check, EpollCalls,
}
use sleepy_penguin.Base.{
  if◌then◌else◌, false, true, Bool, ◌≡◌, ltb, zero, negsuc, suc, pos, ℤ, refl, none, [], some, ◌∷◌,
  arith, ℕ, List,
}
use sleepy_penguin.Proc.Frame.{Frames-loop, Frames-syscall, Frames-call, Frames-bind, Frames}
use sleepy_penguin.Util.Frame.{fileno-Frames}
use sleepy_penguin.Proc.{call, pure, rb_ensure, and_then, St}
use sleepy_penguin.Tls.Inv.{Level, IsValid}
use sleepy_penguin.Proc.Sat.{Sat}
use sleepy_penguin.Tls.{rb_sp_puttlsbuf}
use sleepy_penguin.Tls.Bracket.{bracket_lem, Balanced}
use sleepy_penguin.Tls.Around.{Frames-Balanced, after-Frames, Level-refl}

module _ {W : Type 0} (vm : Vm W) (sys : EpollCalls W) where
  fd_check-Frames : (ept : EpPerThread) → Frames (ep_fd_check vm sys ept)
  unfolding ep_fd_check
  fd_check-Frames ept = record { run = λ s. ground (arith, (fileno-Frames vm ept.io).run s) }

  yield_events-Frames : (es : List EpollEvent) → Frames (yield_events vm sys es)
  unfolding yield_events
  yield_events-Frames [] = record { run = λ s. (refl, refl) }
  yield_events-Frames (e ∷ es) = Frames-bind (Frames-call _) λ _. yield_events-Frames es

  result-Frames : (n : Wait) → Frames (epwait_result vm sys n)
  unfolding epwait_result
  result-Frames none = record { run = λ s. ground arith }
  result-Frames (some es) =
      Frames-bind (yield_events-Frames es) λ _. record { run = λ s. (refl, refl) }

  resume-Frames : (at : ℕ) (ept : EpPerThread) → Frames (epoll_resume_p vm sys at ept)
  unfolding epoll_resume_p
  resume-Frames at ept =
      Frames-bind (fd_check-Frames ept) λ ept'. record { run = λ s. ground arith }

  again-Frames : (at : ℕ) (ept : EpPerThread) (n : Wait) → Frames (epwait_again vm sys at ept n)
  unfolding epwait_again
  again-Frames at ept none =
      Frames-bind (resume-Frames at ept) λ r. record { run = λ s. (refl, refl) }
  again-Frames at ept (some es) = record { run = λ s. (refl, refl) }

  round-Frames : (at : ℕ) (ept : EpPerThread) → Frames (epwait_round vm sys at ept)
  unfolding epwait_round
  round-Frames at ept = Frames-bind (Frames-syscall _) (again-Frames at ept)

  expiry-Frames : (ept : EpPerThread) → Frames (expiry vm sys ept)
  unfolding now_ms
  expiry-Frames ept = record { run = λ s. ground arith }

  real_epwait-Frames : (fuel : ℕ) (ept : EpPerThread) → Frames (real_epwait vm sys fuel ept)
  unfolding real_epwait
  real_epwait-Frames fuel ept = Frames-bind (expiry-Frames ept) λ at.
      Frames-bind (fileno-Frames vm ept.io)
        λ fd. Frames-bind (Frames-loop fuel _ _ (round-Frames at)) result-Frames

  module _ (fresh : Allocates vm) (cache_line fuel : ℕ) where
    ept_get_bracket :
        (m : ℤ) (ept : EpPerThread) (s : St W)
        → IsValid s
        → Sat
            (Unit {0})
            (λ _ t. Balanced s t)
            (λ _ t. Level s t)
            (and_then
              (ept_get vm sys cache_line m s)
              (λ r. rb_ensure (real_epwait vm sys fuel ept) (rb_sp_puttlsbuf (some r.0))))
    unfolding ept_get
    ept_get_bracket (pos zero) ept s v = Level-refl s
    ept_get_bracket (pos (suc n)) ept s v =
        let positive : ltb 0 (suc n) ≡ true = ground arith in
        rw positive (
          bracket_lem vm fresh cache_line Unit s _ (λ _. real_epwait vm sys fuel ept) v
            (λ r t g.
              Frames-Balanced (real_epwait vm sys fuel ept) t (real_epwait-Frames fuel ept)
                g.valid))
    ept_get_bracket (negsuc n) ept s v = Level-refl s

    number-Frames : (v : Value) (z : ℤ) → Frames (if is_nil v then pure z else call (vm.num2int v))
    number-Frames v z = record { run = λ s. ground arith }

    -- From a valid state, and where malloc overlays no live buffer, `epoll_wait` never crashes.
    -- Where it returns it has given its buffer back: the state is valid, and the buffers that are
    -- out are those that were out before. Where it raises, the buffers that are out are those of
    -- before too. A loop that runs out of fuel is left open.
    pub epwait-Balanced :
        (s : St W) (block : Bool) (self maxevents timeout : Value)
        → IsValid s
        → Sat
            (Unit {0})
            (λ _ t. Balanced s t)
            (λ _ t. Level s t)
            (epwait vm sys cache_line fuel block self maxevents timeout s)
    unfolding epwait
    epwait-Balanced s false self maxevents timeout v = Level-refl s
    epwait-Balanced s true self maxevents timeout v =
        after-Frames _ _ s (number-Frames timeout (negsuc 0)) v λ t s1 v1.
          after-Frames _ _ s1 (number-Frames maxevents (pos 64)) v1
            λ m s2 v2. ept_get_bracket m _ s2 v2
