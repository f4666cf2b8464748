-- ===== src/Kqueue/Ends.antt =====
-- The work of `kevent` where the world interrupts finitely often.
use sleepy_penguin.Ruby.{to_list, fixnum, Values, Value, Vm, nil, item, array, structure}
use sleepy_penguin.Base.{
  true, refl, length, Option-cases, inl, inr, none, [], ◌<◌, some, ltb, pos, ◌==◌, ◌∷◌, ℤ,
  if◌then◌else◌, Bool-cases, arith, Option, ◌≡◌, ◌≤◌, List, ℕ,
}
use sleepy_penguin.Util.Ends.{fileno-Ends, CalmVm}
use sleepy_penguin.Kqueue.Convert.{
  Kevent, ev_set_ary, ev_set_struct, changelist_prepare, ary2eventlist, unpack_event, ev_set,
}
use sleepy_penguin.Kqueue.{
  is_expired, expiry, kevent_again, yield_kevent, nogvl_kevent, KqPerThread, do_kevent, clock,
  kevent_result, yield_all, kevent_round, Wait, kevent_resume_p, kq_fd_check, KqueueCalls,
}
use sleepy_penguin.Proc.{pure, St}
use sleepy_penguin.Proc.Patience.{
  loop-Ends, Ends-then, syscall_cases, IsSpent, call-Ends, Ends-and_then, Ends,
}
use sleepy_penguin.Timespec.{Timespec}
use sleepy_penguin.Proc.Sat.{Sat-and_then, Sat}
use sleepy_penguin.Base.Errno.{eintr}
use sleepy_penguin.Proc.Loop.{loop, Keeps}

-- What `kevent` lets through as a changelist.
abbrev pub IsListed : Value → Type 0
IsListed (array vs) = Unit {0}
IsListed (structure vs) = Unit {0}
IsListed _ = ⊥

module _ {W : Type 0} (left : W → ℕ) (vm : Vm W) (calm : CalmVm left vm) where
  ev_set-Ends : (vs : List Value) (s : St W) → Ends left s (ev_set vm vs s)
  unfolding ev_set
  ev_set-Ends (v0 ∷ v1 ∷ v2 ∷ v3 ∷ v4 ∷ v5 ∷ []) s =
      Ends-and_then left s _ _ (call-Ends left _ s (calm.num2ulong v0)) λ i t.
        Ends-and_then left t _ _ (call-Ends left _ t (calm.num2short v1)) λ f u.
          Ends-and_then left u _ _ (call-Ends left _ u (calm.num2ushort v2)) λ g x.
            Ends-and_then left x _ _ (call-Ends left _ x (calm.num2uint v3)) λ h y.
              Ends-and_then left y _ _ (call-Ends left _ y (calm.num2long v4)) λ d z. omega arith
  ev_set-Ends _ s = omega arith

  unpack-Ends : (v : Value) (s : St W) → Ends left s (unpack_event vm v s)
  unfolding unpack_event ev_set_struct ev_set_ary
  unpack-Ends (structure fields) s =
      Ends-and_then left s _ _ (ev_set-Ends (to_list fields) s) λ r t. ground arith
  unpack-Ends (array fields) s =
      Ends-and_then left s _ _
        (Ends-and_then left s _ _ (ev_set-Ends (to_list fields) s) λ r t. ground arith) λ e t. tt
  unpack-Ends _ s = tt

  pub list-Ends : (vs : Values) (s : St W) → Ends left s (ary2eventlist vm vs s)
  unfolding ary2eventlist
  list-Ends nil s = omega arith
  list-Ends (item v vs) s =
      Ends-and_then left s _ _ (unpack-Ends v s)
        λ e t. Ends-and_then left t _ _ (list-Ends vs t) λ es u. omega arith

  prepare-Ends : (v : Value) (s : St W) → IsListed v → Ends left s (changelist_prepare vm v s)
  unfolding changelist_prepare
  prepare-Ends (array vs) s h = list-Ends vs s
  prepare-Ends (structure vs) s h =
      Ends-and_then left s _ _ (unpack-Ends (structure vs) s) λ e t. omega arith
  prepare-Ends v s h = absurd h

  module _ (sys : KqueueCalls W) where
    -- The clock adds no interruption.
    abbrev pub IsCalmClock : Type 0
    IsCalmClock = (w : W) → left (sys.clock_gettime w).1 ≤ left w

    check-Ends : (kpt : KqPerThread) (s : St W) → Ends left s (kq_fd_check vm sys kpt s)
    unfolding kq_fd_check
    check-Ends kpt s =
        Ends-and_then left s _ _ (fileno-Ends left vm calm kpt.io s) λ fd t. omega arith

    resume-Ends :
        IsCalmClock
        → (at : Timespec) (kpt : KqPerThread) (s : St W)
        → Ends left s (kevent_resume_p vm sys at kpt s)
    unfolding kevent_resume_p clock
    resume-Ends c at kpt s = Ends-and_then left s _ _ (check-Ends kpt s) λ d t.
        let le : left (sys.clock_gettime t.world).1 ≤ left t.world = c t.world in
        elim (Bool-cases (t.errno == eintr)) [
          | inr e ↦ rw e (omega arith)
          | inl e ↦ rw e (elim (Option-cases d.ts) [
            | inl f ↦ rw f (omega arith)
            | inr (ts, f) ↦ rw f (elim (Bool-cases (is_expired (sys.clock_gettime t.world).0 at)) [
              | inl g ↦ rw g le
              | inr g ↦ rw g le
            ])
          ])
        ]

    abbrev AnyWait : Wait → St W → Type 0
    AnyWait n t = Unit {0}

    round-Ends :
        IsCalmClock
        → (at : Timespec) (kpt : KqPerThread) (s : St W)
        → IsSpent left (sys.kevent kpt.fd kpt.changes kpt.nevents kpt.ts)
        → Sat ⊥
            (Keeps (λ _ t. left t.world < left s.world) AnyWait)
            (λ _ _. Unit {0})
            (kevent_round vm sys at kpt s)
    unfolding kevent_round nogvl_kevent kevent_again
    round-Ends c at kpt s spent =
        syscall_cases left AnyWait _ _ s _ spent (λ es w. tt)
          λ e w less.
            let t : St W = record s { errno = e; world = w } in
            Sat-and_then ⊥ (λ _ u. left u.world ≤ left t.world) _ (λ _ _. Unit)
              (kevent_resume_p vm sys at kpt t) _ (resume-Ends c at kpt t)
              λ r u le. elim (Bool-cases r.0) [ inl f ↦ rw f (omega arith) | inr f ↦ rw f tt ]

    yield-Ends : (es : List Kevent) (s : St W) → Ends left s (yield_all vm sys es s)
    unfolding yield_all yield_kevent
    yield-Ends [] s = omega arith
    yield-Ends (e ∷ es) s =
        Ends-and_then left s _ _ (call-Ends left _ s (calm.rb_yield_values _))
          λ _ t. yield-Ends es t

    -- What `kevent` returns: the number of events yielded, 0 where a signal ended the wait.
    abbrev pub IsCount : Value → St W → Type 0
    IsCount v t = (n : ℕ) × (v ≡ fixnum (pos n))

    result-Ends : (n : Wait) (s : St W) → Sat ⊥ IsCount (λ _ _. Unit {0}) (kevent_result vm sys n s)
    unfolding kevent_result
    result-Ends none s = elim (Bool-cases (s.errno == eintr)) [
      | inl e ↦ rw e (0, refl)
      | inr e ↦ rw e tt
    ]
    result-Ends (some es) s =
        Ends-then left IsCount s _ _ (yield-Ends es s) λ _ t le. (length es, refl)

    expiry-Ends : IsCalmClock → (ts : Option Timespec) (s : St W) → Ends left s (expiry vm sys ts s)
    unfolding clock
    expiry-Ends c none s = omega arith
    expiry-Ends c (some ts) s = c s.world

    changes-Ends :
        (n : ℕ) (v : Value) (s : St W)
        → (ltb 0 n ≡ true → IsListed v)
        → Ends left s ((if ltb 0 n then changelist_prepare vm v else pure []) s)
    changes-Ends n v s h = elim (Bool-cases (ltb 0 n)) [
      | inl e ↦ rw e (prepare-Ends v s (h e))
      | inr e ↦ rw e (omega arith)
    ]

    -- Where the world interrupts finitely often, and there is fuel for each interruption, the work of
    -- `kevent` ends: it returns a number of events, or raises. A changelist that has changes
    -- is an Array or a Struct; reading the clock adds no interruption, and every failure of kevent(2) uses one up.
    pub do_kevent-Ends :
        IsCalmClock
        → (fuel nchanges : ℕ) (changelist : Value) (kpt : KqPerThread) (s : St W)
        → (ltb 0 nchanges ≡ true → IsListed changelist)
        → ((fd : ℤ) (cs : List Kevent) (n : ℕ) (ts : Option Timespec)
            → IsSpent left (sys.kevent fd cs n ts))
        → left s.world < fuel
        → Sat ⊥ IsCount (λ _ _. Unit {0}) (do_kevent vm sys fuel nchanges changelist kpt s)
    unfolding do_kevent
    do_kevent-Ends c fuel nchanges changelist kpt s h spent m =
        Ends-then left IsCount s _ _ (changes-Ends nchanges changelist s h) λ cs t le.
          Ends-then left IsCount t _ _ (expiry-Ends c kpt.ts t) λ at u le2.
            Sat-and_then ⊥ AnyWait IsCount (λ _ _. Unit)
              (loop fuel (kevent_round vm sys at) (record kpt { changes = cs }) u) _
              (loop-Ends left AnyWait _ _ fuel _ u (omega arith)
                λ d x. round-Ends c at d x (spent d.fd d.changes d.nevents d.ts))
              λ n x _. result-Ends n x
