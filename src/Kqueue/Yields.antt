-- ===== src/Kqueue/Yields.antt =====
-- How often `kevent` calls its block.
use sleepy_penguin.Proc.Quiet.{
  Quiet-loop, Quiet-syscall, Quiet-call, Quiet-bind, Quiet-pure, Quiet, IsQuietSys,
}
use sleepy_penguin.Util.Quiet.{fileno-Quiet, QuietVm}
use sleepy_penguin.Util.Yields.{
  Yielded, Yielded-after, Calls, Calls-suc, Calls-Yielded, IsYieldCount,
}
use sleepy_penguin.Base.{
  Option-cases, inr, refl, inl, ◌==◌, Bool-cases, arith, [], none, true, length, ◌∷◌, some, ◌≡◌,
  if◌then◌else◌, ltb, List, Option, ℤ, ℕ,
}
use sleepy_penguin.Kqueue.{
  is_expired, expiry, Wait, yield_kevent, nogvl_kevent, KqPerThread, do_kevent, kevent_result,
  yield_all, kevent_round, kevent_again, kevent_resume_p, kq_fd_check, clock, KqueueCalls,
}
use sleepy_penguin.Ruby.{to_list, nil, structure, array, item, Values, Value, Vm}
use sleepy_penguin.Kqueue.Convert.{
  ev_set_ary, Kevent, ev_set_struct, changelist_prepare, ary2eventlist, unpack_event, ev_set,
}
use sleepy_penguin.Kqueue.Ends.{IsListed}
use sleepy_penguin.Timespec.{Timespec}
use sleepy_penguin.Proc.{pure, St}
use sleepy_penguin.Proc.Sat.{Sat}
use sleepy_penguin.Base.Errno.{eintr}

-- What a count of the calls of the block relies on: neither the wait nor the clock changes it.
pub record IsApart {W : Type 0} (yielded : W → ℕ) (sys : KqueueCalls W) : Type 0 where
  pub kevent :
      (fd : ℤ) (cs : List Kevent) (n : ℕ) (ts : Option Timespec)
      → IsQuietSys yielded (sys.kevent fd cs n ts)
  pub clock_gettime : (w : W) → yielded (sys.clock_gettime w).1 ≡ yielded w

module _ {W : Type 0} (yielded : W → ℕ) (vm : Vm W) (quiet : QuietVm yielded vm)
    (counts : IsYieldCount yielded vm) where
  ev_set-Quiet : (vs : List Value) → Quiet yielded (ev_set vm vs)
  unfolding ev_set
  ev_set-Quiet (v0 ∷ v1 ∷ v2 ∷ v3 ∷ v4 ∷ v5 ∷ []) =
      Quiet-bind yielded (Quiet-call yielded _ (quiet.num2ulong v0)) λ i.
        Quiet-bind yielded (Quiet-call yielded _ (counts.num2short v1)) λ f.
          Quiet-bind yielded (Quiet-call yielded _ (counts.num2ushort v2)) λ g.
            Quiet-bind yielded (Quiet-call yielded _ (quiet.num2uint v3)) λ h.
              Quiet-bind yielded (Quiet-call yielded _ (quiet.num2long v4))
                λ d. Quiet-pure yielded _
  ev_set-Quiet _ = Quiet-pure yielded _

  unpack-Quiet : (v : Value) → Quiet yielded (unpack_event vm v)
  unfolding unpack_event ev_set_struct ev_set_ary
  unpack-Quiet (structure fields) =
      Quiet-bind yielded (ev_set-Quiet (to_list fields)) λ r. record { run = λ s. ground arith }
  unpack-Quiet (array fields) = record {
    run = λ s.
        (Quiet-bind yielded
            (Quiet-bind yielded (ev_set-Quiet (to_list fields))
              λ r. record { run = λ t. ground arith })
            λ e. record { run = λ t. refl }).run
          s;
  }
  unpack-Quiet _ = record { run = λ s. refl }

  list-Quiet : (vs : Values) → Quiet yielded (ary2eventlist vm vs)
  unfolding ary2eventlist
  list-Quiet nil = Quiet-pure yielded _
  list-Quiet (item v vs) =
      Quiet-bind yielded (unpack-Quiet v)
        λ e. Quiet-bind yielded (list-Quiet vs) λ es. Quiet-pure yielded _

  -- `kevent` raises before this where the changelist is of another kind.
  prepare-Quiet : (v : Value) → IsListed v → Quiet yielded (changelist_prepare vm v)
  unfolding changelist_prepare
  prepare-Quiet (array vs) h = list-Quiet vs
  prepare-Quiet (structure vs) h =
      Quiet-bind yielded (unpack-Quiet (structure vs)) λ e. Quiet-pure yielded _
  prepare-Quiet v h = absurd h

  module _ (sys : KqueueCalls W) (apart : IsApart yielded sys) where
    clock-Quiet : Quiet yielded (clock vm sys)
    unfolding clock
    clock-Quiet = record { run = λ s. apart.clock_gettime s.world }

    check-Quiet : (kpt : KqPerThread) → Quiet yielded (kq_fd_check vm sys kpt)
    unfolding kq_fd_check
    check-Quiet kpt = record {
      run = λ s.
          (Quiet-bind yielded (fileno-Quiet yielded vm quiet kpt.io)
              λ fd. record { run = λ t. refl }).run
            s;
    }

    resume-Quiet :
        (at : Timespec) (kpt : KqPerThread) → Quiet yielded (kevent_resume_p vm sys at kpt)
    unfolding kevent_resume_p clock
    resume-Quiet at kpt = Quiet-bind yielded (check-Quiet kpt) λ d. record {
      run = λ s.
          let same : yielded (sys.clock_gettime s.world).1 ≡ yielded s.world =
            apart.clock_gettime s.world in
          elim (Bool-cases (s.errno == eintr)) [
            | inr e ↦ rw e refl
            | inl e ↦ rw e (elim (Option-cases d.ts) [
              | inl f ↦ rw f refl
              | inr (ts, f) ↦
                  rw f (elim (Bool-cases (is_expired (sys.clock_gettime s.world).0 at)) [
                    | inl g ↦ rw g same
                    | inr g ↦ rw g same
                  ])
            ])
          ];
    }

    again-Quiet :
        (at : Timespec) (kpt : KqPerThread) (n : Wait)
        → Quiet yielded (kevent_again vm sys at kpt n)
    unfolding kevent_again
    again-Quiet at kpt (some es) = Quiet-pure yielded _
    again-Quiet at kpt none = Quiet-bind yielded (resume-Quiet at kpt) λ r. Quiet-pure yielded _

    round-Quiet : (at : Timespec) (kpt : KqPerThread) → Quiet yielded (kevent_round vm sys at kpt)
    unfolding kevent_round nogvl_kevent
    round-Quiet at kpt =
        Quiet-bind yielded
          (Quiet-syscall yielded _ (apart.kevent kpt.fd kpt.changes kpt.nevents kpt.ts))
          λ n. again-Quiet at kpt n

    expiry-Quiet : (ts : Option Timespec) → Quiet yielded (expiry vm sys ts)
    expiry-Quiet none = Quiet-pure yielded _
    expiry-Quiet (some ts) = Quiet-bind yielded clock-Quiet λ now. Quiet-pure yielded _

    -- Each event of the buffer is one call of the block.
    yield_all-Calls :
        (es : List Kevent) (s : St W) → Calls yielded (length es) s (yield_all vm sys es s)
    unfolding yield_all yield_kevent
    yield_all-Calls [] s = omega arith
    yield_all-Calls (e ∷ es) s =
        Calls-suc yielded vm counts (length es) _ (yield_all vm sys es) s (yield_all-Calls es)

    result-Yielded :
        (n : Wait) (s : St W)
        → Sat
            (Unit {0})
            (λ v u. Yielded yielded s.world v u.world)
            (λ _ _. Unit {0})
            (kevent_result vm sys n s)
    unfolding kevent_result
    result-Yielded none s = elim (Bool-cases (s.errno == eintr)) [
      | inl e ↦ rw e (0, refl, omega arith)
      | inr e ↦ rw e tt
    ]
    result-Yielded (some es) s =
        Calls-Yielded yielded vm counts (length es) s _ (yield_all-Calls es s)

    changes-Quiet :
        (n : ℕ) (v : Value)
        → (ltb 0 n ≡ true → IsListed v)
        → Quiet yielded (if ltb 0 n then changelist_prepare vm v else pure [])
    changes-Quiet n v h = record {
      run = λ s. elim (Bool-cases (ltb 0 n)) [
        | inl e ↦ rw e ((prepare-Quiet v (h e)).run s)
        | inr e ↦ rw e refl
      ];
    }

    -- What the work of `kevent` returns is the number of calls of the block.
    pub do_kevent-Yielded :
        (fuel n : ℕ) (v : Value) (kpt : KqPerThread) (s : St W)
        → (ltb 0 n ≡ true → IsListed v)
        → Sat
            (Unit {0})
            (λ v u. Yielded yielded s.world v u.world)
            (λ _ _. Unit {0})
            (do_kevent vm sys fuel n v kpt s)
    unfolding do_kevent
    do_kevent-Yielded fuel n v kpt s h = Yielded-after yielded _ s (changes-Quiet n v h) λ cs t.
        Yielded-after yielded _ t (expiry-Quiet kpt.ts) λ at u.
          Yielded-after yielded _ u
            (Quiet-loop yielded fuel (kevent_round vm sys at) (record kpt { changes = cs })
              (round-Quiet at))
            result-Yielded
