-- ===== src/Kqueue/Total.antt =====
-- A whole call of `kevent` where the world interrupts finitely often.
use sleepy_penguin.Base.{
  ◌^◌, sym, subst, length, ◌∙◌, negsuc, ap, pos, [], refl, some, false, inr, none, inl, ◌<◌,
  if◌then◌else◌, arith, Bool-cases, true, List, Option, ◌≡◌, ℤ, ltb, Bool, ℕ,
}
use sleepy_penguin.Ruby.{
  to_list, qnil, flonum, bignum, array, structure, Allocates, is_nil, fixnum, Value, Vm,
}
use sleepy_penguin.Util.Ends.{fileno-Ends, CalmVm}
use sleepy_penguin.Kqueue.{
  as_count, KqPerThread, kpt_size, do_kevent, kpt_get, sp_kevent, count_events, count_changes,
  KqueueCalls,
}
use sleepy_penguin.Timespec.{Timespec, value2timespec, Double}
use sleepy_penguin.Kqueue.Ends.{IsListed, do_kevent-Ends, IsCount, IsCalmClock}
use sleepy_penguin.Proc.{rb_ensure, and_then, ◌>>=◌, pure, Cmd, St}
use sleepy_penguin.Proc.Patience.{call-Ends, IsSpent, Ends-and_then, Ends}
use sleepy_penguin.Kqueue.Convert.{Kevent}
use sleepy_penguin.Tls.Inv.{IsValid}
use sleepy_penguin.Proc.Sat.{Sat}
use sleepy_penguin.Util.{rb_sp_fileno}
use sleepy_penguin.Tls.Bracket.{Balanced}
use sleepy_penguin.Tls.{rb_sp_puttlsbuf}
use sleepy_penguin.Kqueue.Buffers.{kpt_get_lem, kevent-Balanced}
use sleepy_penguin.Tls.Halts.{puttlsbuf-Halts, gettlsbuf-Halts}
use sleepy_penguin.Util.Quiet.{fileno-Quiet, QuietVm}
use sleepy_penguin.Util.Yields.{Halts-since, Post, Yielded, IsYieldCount}
use sleepy_penguin.Kqueue.Yields.{do_kevent-Yielded, IsApart}
use sleepy_penguin.Proc.Quiet.{Quiet-pure, Quiet-call, Quiet-bind, Quiet}
use sleepy_penguin.Proc.Halts.{
  Halts-ensure, Halts-Unmoved, Unmoved, Halts-and_then, Halts-right, Halts-Sat, Halts,
}

module _ {W : Type 0} (left : W → ℕ) (vm : Vm W) (calm : CalmVm left vm) (sys : KqueueCalls W)
    (db : Double) where
  -- A number of changes that `count_changes` gives for a value.
  abbrev Counted : Value → ℕ → Type 0
  Counted v n = ltb 0 n ≡ true → IsListed v

  count-Halts :
      (v : Value) (s : St W) → Halts (λ n t. Counted v n × (t ≡ s)) (count_changes vm sys v s)
  count-Halts qnil s = (λ e. ground arith, refl)
  count-Halts (structure vs) s = (λ e. tt, refl)
  count-Halts (array vs) s = elim (Bool-cases (ltb (length (to_list vs)) (2 ^ 31))) [
    | inl e ↦ rw e (λ f. tt, refl)
    | inr e ↦ rw e tt
  ]
  count-Halts _ s = tt

  count_of-Ends : (n : ℤ) (s : St W) → Ends left s (as_count vm sys n s)
  count_of-Ends (pos n) s = omega arith
  count_of-Ends (negsuc n) s = tt

  events-Ends : (block : Bool) (v : Value) (s : St W) → Ends left s (count_events vm sys block v s)
  events-Ends false v s = ground arith
  events-Ends true v s = elim (Bool-cases (is_nil v)) [
    | inl e ↦ rw e tt
    | inr e ↦
        rw e
          (Ends-and_then left s _ _ (call-Ends left _ s (calm.num2int v)) λ n t. count_of-Ends n t)
  ]

  value2timespec-Ends : (v : Value) (s : St W) → Ends left s (value2timespec db vm v s)
  unfolding value2timespec
  value2timespec-Ends (fixnum n) s =
      Ends-and_then left s _ _ (call-Ends left _ s (calm.num2long _)) λ n t. omega arith
  value2timespec-Ends (bignum n) s =
      Ends-and_then left s _ _ (call-Ends left _ s (calm.num2long _)) λ n t. omega arith
  value2timespec-Ends (flonum d) s = ground arith
  value2timespec-Ends _ s = tt

  abbrev timeout_of : Value → Cmd W (Option Timespec)
  timeout_of v = if is_nil v then pure none else (value2timespec db vm v >>= λ ts. pure (some ts))

  timeout-Ends : (v : Value) (s : St W) → Ends left s (timeout_of v s)
  timeout-Ends v s = elim (Bool-cases (is_nil v)) [
    | inl e ↦ rw e (omega arith)
    | inr e ↦ rw e (Ends-and_then left s _ _ (value2timespec-Ends v s) λ ts t. omega arith)
  ]

  module _ (yielded : W → ℕ) (quiet : QuietVm yielded vm) (counts : IsYieldCount yielded vm)
      (apart : IsApart yielded sys) where
    events-Quiet : (block : Bool) (v : Value) → Quiet yielded (count_events vm sys block v)
    events-Quiet false v = record { run = λ s. ground arith }
    events-Quiet true v = record {
      run = λ s. elim (Bool-cases (is_nil v)) [
        | inl e ↦ rw e refl
        | inr e ↦
            rw e
              ((Quiet-bind yielded (Quiet-call yielded _ (counts.num2int v)) count_of-Quiet).run s)
      ];
    }
      where
        count_of-Quiet : (n : ℤ) → Quiet yielded (as_count vm sys n)
        count_of-Quiet (pos n) = record { run = λ s. refl }
        count_of-Quiet (negsuc n) = record { run = λ s. refl }

    value2timespec-Quiet : (v : Value) → Quiet yielded (value2timespec db vm v)
    unfolding value2timespec
    value2timespec-Quiet (fixnum n) =
        Quiet-bind yielded (Quiet-call yielded _ (quiet.num2long _)) λ n. Quiet-pure yielded _
    value2timespec-Quiet (bignum n) =
        Quiet-bind yielded (Quiet-call yielded _ (quiet.num2long _)) λ n. Quiet-pure yielded _
    value2timespec-Quiet (flonum d) = record { run = λ s. ground arith }
    value2timespec-Quiet _ = record { run = λ s. refl }

    timeout-Quiet : (v : Value) → Quiet yielded (timeout_of v)
    timeout-Quiet v = record {
      run = λ s. elim (Bool-cases (is_nil v)) [
        | inl e ↦ rw e refl
        | inr e ↦
            rw e (
              (Quiet-bind yielded (value2timespec-Quiet v) λ ts. Quiet-pure yielded (some ts)).run
                s)
      ];
    }

    module _ (clock_calm : IsCalmClock left vm calm sys)
        (spent : (fd : ℤ) (cs : List Kevent) (n : ℕ) (ts : Option Timespec)
          → IsSpent left (sys.kevent fd cs n ts))
        (cache_line fuel : ℕ) where
      work-Halts :
          (n : ℕ) (v : Value) (kpt : KqPerThread) (s : St W)
          → Counted v n
          → left s.world < fuel
          → Halts (Post yielded s) (do_kevent vm sys fuel n v kpt s)
      work-Halts n v kpt s c less =
          Halts-right (IsCount left vm calm sys) (Post yielded s) (λ _ _. Unit) (λ _ _. Unit)
            (do_kevent vm sys fuel n v kpt s)
            (do_kevent-Ends left vm calm sys clock_calm fuel n v kpt s c spent less)
            (do_kevent-Yielded yielded vm quiet counts sys apart fuel n v kpt s c)

      -- What `kevent` does once it has its buffer.
      with_buf-Halts :
          (n nevents : ℕ) (self v : Value) (ts : Option Timespec) (r : ℕ × ℕ) (s : St W)
          → Counted v n
          → left s.world < fuel
          → Halts (Post yielded s) (
              and_then (rb_sp_fileno vm self s) (λ fd.
                rb_ensure
                  (do_kevent vm sys fuel n v
                    (record { io = self; fd = fd; changes = []; nevents = nevents; ts = ts }))
                  (rb_sp_puttlsbuf (some r.0))))
      with_buf-Halts n nevents self v ts r s c less =
          Halts-and_then (Unmoved left yielded s) (Post yielded s) (rb_sp_fileno vm self s) _
            (Halts-Unmoved left yielded (rb_sp_fileno vm self) s (fileno-Ends left vm calm self s)
              (fileno-Quiet yielded vm quiet self))
            λ fd t h.
              let kpt : KqPerThread = record {
                io = self;
                fd = fd;
                changes = [];
                nevents = nevents;
                ts = ts;
              } in
              Halts-since yielded s t _ h.1 (
                Halts-ensure (Yielded yielded t.world) (do_kevent vm sys fuel n v kpt) _ t
                  (work-Halts n v kpt t c (omega (arith, h.0)))
                  (puttlsbuf-Halts vm cache_line (some r.0)))

      kevent-Halts :
          (s : St W) (block : Bool) (self changelist events timeout : Value)
          → left s.world < fuel
          → Halts
              (Post yielded s)
              (sp_kevent vm sys db cache_line fuel block self changelist events timeout s)
      unfolding sp_kevent
      kevent-Halts s block self v events timeout less =
          Halts-and_then (λ n t. Counted v n × (t ≡ s)) (Post yielded s) (count_changes vm sys v s)
            _ (count-Halts v s)
            λ n s0 h.
              let q0 : s0.world ≡ s.world = ap (λ (x : St W). x.world) h.1 in
              Halts-and_then (Unmoved left yielded s0) (Post yielded s)
                (count_events vm sys block events s0) _
                (Halts-Unmoved left yielded (count_events vm sys block events) s0
                  (events-Ends block events s0) (events-Quiet block events))
                λ m s1 h1.
                  Halts-and_then (Unmoved left yielded s1) (Post yielded s) (timeout_of timeout s1)
                    _
                    (Halts-Unmoved left yielded (timeout_of timeout) s1 (timeout-Ends timeout s1)
                      (timeout-Quiet timeout))
                    λ ts s2 h2.
                      Halts-and_then (λ _ t. t.world ≡ s2.world) (Post yielded s)
                        (kpt_get vm sys cache_line (pos n) (pos m) s2) _
                        (subst (Halts (λ _ t. t.world ≡ s2.world))
                          (sym (kpt_get_lem vm sys cache_line n m s2))
                          (gettlsbuf-Halts vm cache_line (kpt_size n m) s2))
                        λ r t q.
                          Halts-since yielded s t _ (ap yielded q ∙ (h2.1 ∙ (h1.1 ∙ ap yielded q0)))
                            (with_buf-Halts n m self v ts r t h.0
                              (omega (arith, h1.0, h2.0, ap left q, ap left q0)))

      -- From a valid state, where malloc overlays no live buffer, the world interrupts finitely
      -- often and there is fuel for each interruption, `kevent` ends without a crash. Where it
      -- returns, it returns the number of times that it has called the block, and has given its
      -- buffer back: the state is valid, and the buffers that are out are those that were out
      -- before. Ruby and the clock add no interruption, and every failure of kevent(2) uses one up;
      -- `yielded` counts the calls of the block that have returned.
      pub kevent_total :
          Allocates vm
          → (s : St W) (block : Bool) (self changelist events timeout : Value) → IsValid s
          → left s.world < fuel
          → Sat ⊥
              (λ v t. Yielded yielded s.world v t.world × Balanced s t)
              (λ _ _. Unit {0})
              (sp_kevent vm sys db cache_line fuel block self changelist events timeout s)
      kevent_total fresh s block self changelist events timeout valid less =
          Halts-Sat (λ _ t. Balanced s t) (Post yielded s) (λ _ _. Unit {0}) _
            (kevent-Balanced vm sys db fresh cache_line fuel s block self changelist events timeout
              valid)
            (kevent-Halts s block self changelist events timeout less)
