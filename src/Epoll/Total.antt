-- ===== src/Epoll/Total.antt =====
-- A whole call of `epoll_wait` where the world interrupts finitely often.
use sleepy_penguin.Base.{
  refl, ◌∙◌, ap, sym, subst, true, false, pos, negsuc, ◌≡◌, inr, arith, inl, is_positive,
  Bool-cases, some, if◌then◌else◌, ◌<◌, Bool, ℤ, ℕ,
}
use sleepy_penguin.Ruby.{is_nil, Value, Allocates, Vm}
use sleepy_penguin.Util.Ends.{CalmVm}
use sleepy_penguin.Epoll.{real_epwait, EpPerThread, epwait, ept_get, EpollCalls}
use sleepy_penguin.Proc.{Cmd, call, pure, rb_ensure, and_then, St}
use sleepy_penguin.Epoll.Ends.{real_epwait-Ends, IsCount, IsCalmClock}
use sleepy_penguin.Proc.Patience.{Ends, call-Ends, IsSpent}
use sleepy_penguin.Tls.Inv.{Level, IsValid}
use sleepy_penguin.Proc.Sat.{Sat}
use sleepy_penguin.Tls.Bracket.{Balanced}
use sleepy_penguin.Tls.{rb_sp_puttlsbuf}
use sleepy_penguin.Epoll.Buffers.{epwait-Balanced}
use sleepy_penguin.Tls.Halts.{puttlsbuf-Halts, gettlsbuf-Halts}
use sleepy_penguin.Util.Quiet.{QuietVm}
use sleepy_penguin.Proc.Quiet.{Quiet, Quiet-call}
use sleepy_penguin.Util.Yields.{Halts-since, Post, Yielded, IsYieldCount}
use sleepy_penguin.Epoll.Yields.{real_epwait-Yielded, IsApart}
use sleepy_penguin.Proc.Halts.{
  Halts-ensure, Halts-Unmoved, Halts-and_then, Halts-right, Unmoved, Halts-Sat, Halts,
}

module _ {W : Type 0} (left yielded : W → ℕ) (vm : Vm W) (calm : CalmVm left vm)
    (quiet : QuietVm yielded vm) (sys : EpollCalls W) (counts : IsYieldCount yielded vm)
    (apart : IsApart yielded sys) where
  module _ (clock : IsCalmClock left vm calm sys)
      (spent : (fd m t : ℤ) → IsSpent left (sys.epoll_wait fd m t)) (cache_line fuel : ℕ) where
    wait-Halts :
        (ept : EpPerThread) (s : St W)
        → left s.world < fuel
        → Halts (Post yielded s) (real_epwait vm sys fuel ept s)
    wait-Halts ept s less =
        Halts-right (IsCount left vm calm sys) (Post yielded s) (λ _ _. Unit) (λ _ _. Unit)
          (real_epwait vm sys fuel ept s)
          (real_epwait-Ends left vm calm sys clock fuel ept s spent less)
          (real_epwait-Yielded yielded vm quiet sys counts apart fuel ept s)

    bracket-Halts :
        (m : ℤ) (ept : EpPerThread) (s : St W)
        → left s.world < fuel
        → Halts (Post yielded s) (
            and_then
              (ept_get vm sys cache_line m s)
              (λ r. rb_ensure (real_epwait vm sys fuel ept) (rb_sp_puttlsbuf (some r.0))))
    unfolding ept_get
    bracket-Halts m ept s less = elim (Bool-cases (is_positive m)) [
      | inr e ↦ rw e tt
      | inl e ↦ rw e (
          Halts-and_then (λ _ t. t.world ≡ s.world) (Post yielded s) _ _
            (gettlsbuf-Halts vm cache_line _ s)
            λ r t q. Halts-since yielded s t _ (ap yielded q) (
              Halts-ensure (Yielded yielded t.world) (real_epwait vm sys fuel ept) _ t
                (wait-Halts ept t (subst (λ w. left w < fuel) (sym q) less))
                (puttlsbuf-Halts vm cache_line (some r.0))))
    ]

    -- An argument that is an int, or nil for a default.
    abbrev number : Value → ℤ → Cmd W ℤ
    number v z = if is_nil v then pure z else call (vm.num2int v)

    number-Quiet : (v : Value) (z : ℤ) → Quiet yielded (number v z)
    number-Quiet v z = record {
      run = λ s. elim (Bool-cases (is_nil v)) [
        | inl e ↦ rw e refl
        | inr e ↦ rw e ((Quiet-call yielded _ (counts.num2int v)).run s)
      ];
    }

    number-Ends : (v : Value) (z : ℤ) (s : St W) → Ends left s (number v z s)
    number-Ends v z s = elim (Bool-cases (is_nil v)) [
      | inl e ↦ rw e (omega arith)
      | inr e ↦ rw e (call-Ends left _ s (calm.num2int v))
    ]

    number-Halts : (v : Value) (z : ℤ) (s : St W) → Halts (Unmoved left yielded s) (number v z s)
    number-Halts v z s =
        Halts-Unmoved left yielded (number v z) s (number-Ends v z s) (number-Quiet v z)

    epwait-Halts :
        (s : St W) (block : Bool) (self maxevents timeout : Value)
        → left s.world < fuel
        → Halts (Post yielded s) (epwait vm sys cache_line fuel block self maxevents timeout s)
    unfolding epwait
    epwait-Halts s false self maxevents timeout less = tt
    epwait-Halts s true self maxevents timeout less =
        Halts-and_then (Unmoved left yielded s) (Post yielded s) (number timeout (negsuc 0) s) _
          (number-Halts timeout (negsuc 0) s)
          λ t s1 h1.
            Halts-and_then (Unmoved left yielded s1) (Post yielded s) (number maxevents (pos 64) s1)
              _ (number-Halts maxevents (pos 64) s1)
              λ m s2 h2.
                Halts-since yielded s s2 _ (h2.1 ∙ h1.1)
                  (bracket-Halts m _ s2 (omega (arith, h1.0, h2.0)))

    -- From a valid state, where malloc overlays no live buffer, the world interrupts finitely often
    -- and there is fuel for each interruption, `epoll_wait` ends without a crash. Where it returns,
    -- it returns the number of times that it has called the block, and has given its buffer back:
    -- the state is valid, and the buffers that are out are those that were out before. Where it
    -- raises, they are those too. Ruby and the clock add no interruption, and every failure of
    -- epoll_wait(2) uses one up; `yielded` counts the calls of the block that have returned.
    pub epwait_total :
        Allocates vm
        → (s : St W) (block : Bool) (self maxevents timeout : Value) → IsValid s
        → left s.world < fuel
        → Sat ⊥
            (λ v t. Yielded yielded s.world v t.world × Balanced s t)
            (λ _ t. Level s t)
            (epwait vm sys cache_line fuel block self maxevents timeout s)
    epwait_total fresh s block self maxevents timeout valid less =
        Halts-Sat (λ _ t. Balanced s t) (Post yielded s) (λ _ t. Level s t) _
          (epwait-Balanced vm sys fresh cache_line fuel s block self maxevents timeout valid)
          (epwait-Halts s block self maxevents timeout less)
