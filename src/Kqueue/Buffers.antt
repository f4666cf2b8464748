-- ===== src/Kqueue/Buffers.antt =====
-- The thread-local buffer of a call of `kevent`.
use sleepy_penguin.Ruby.{qnil, to_list, is_nil, structure, array, Allocates, Value, Values, Vm}
use sleepy_penguin.Kqueue.{
  kpt_room, count_events, sp_kevent, kpt_size, kpt_get, do_kevent, expiry, KqPerThread, Wait,
  yield_kevent, kevent_round, kevent_again, kevent_resume_p, kq_fd_check, kevent_result, yield_all,
  clock, KqueueCalls,
}
use sleepy_penguin.Base.{
  ap, sym, ltb_ℤ, subst, ◌≡◌, ◌^◌, pos, false, true, length, Bool, ℤ, inr, inl, ltb, if◌then◌else◌,
  Bool-cases, ℕ, [], ◌∷◌, none, some, refl, arith, List, Option,
}
use sleepy_penguin.Proc.Frame.{
  SameBufs-trans, SameBufs, Frames-loop, Frames-call, Frames-syscall, Frames-pure, Frames-bind,
  Frames,
}
use sleepy_penguin.Timespec.{value2timespec, Double, Timespec}
use sleepy_penguin.Util.Frame.{fileno-Frames}
use sleepy_penguin.Proc.{cleaned, rb_ensure, ◌>>=◌, and_then, pure, St, Cmd}
use sleepy_penguin.Kqueue.Changelist.{unpack-Frames, list-Frames}
use sleepy_penguin.Tls.Inv.{Level, Got, IsValid}
use sleepy_penguin.Proc.Sat.{Sat-mono, Sat-and_then, Sat}
use sleepy_penguin.Util.{rb_sp_fileno}
use sleepy_penguin.Tls.{rb_sp_gettlsbuf, rb_sp_puttlsbuf}
use sleepy_penguin.Tls.Get.{gettlsbuf-Got}
use sleepy_penguin.Tls.Bracket.{ensure_put-Balanced, Balanced}
use sleepy_penguin.Tls.Around.{Frames-then, same-Balanced}
use sleepy_penguin.Kqueue.Convert.{changelist_prepare, Kevent}

module _ {W : Type 0} (vm : Vm W) (sys : KqueueCalls W) where
  clock-Frames : Frames (clock vm sys)
  unfolding clock
  clock-Frames = record { run = λ s. (refl, refl) }

  yield_all-Frames : (es : List Kevent) → Frames (yield_all vm sys es)
  unfolding yield_all yield_kevent
  yield_all-Frames [] = Frames-pure tt
  yield_all-Frames (e ∷ es) = Frames-bind (Frames-call _) λ _. yield_all-Frames es

  result-Frames : (n : Wait) → Frames (kevent_result vm sys n)
  unfolding kevent_result
  result-Frames none = record { run = λ s. ground arith }
  result-Frames (some es) = Frames-bind (yield_all-Frames es) λ _. Frames-pure _

  fd_check-Frames : (kpt : KqPerThread) → Frames (kq_fd_check vm sys kpt)
  unfolding kq_fd_check
  fd_check-Frames kpt = record { run = λ s. ground (arith, (fileno-Frames vm kpt.io).run s) }

  resume-Frames : (at : Timespec) (kpt : KqPerThread) → Frames (kevent_resume_p vm sys at kpt)
  unfolding kevent_resume_p
  resume-Frames at kpt =
      Frames-bind (fd_check-Frames kpt) λ checked. record { run = λ s. ground arith }

  again-Frames :
      (at : Timespec) (kpt : KqPerThread) (n : Wait) → Frames (kevent_again vm sys at kpt n)
  unfolding kevent_again
  again-Frames at kpt none = Frames-bind (resume-Frames at kpt) λ r. Frames-pure _
  again-Frames at kpt (some es) = Frames-pure _

  round-Frames : (at : Timespec) (kpt : KqPerThread) → Frames (kevent_round vm sys at kpt)
  unfolding kevent_round
  round-Frames at kpt = Frames-bind (Frames-syscall _) (again-Frames at kpt)

  expiry-Frames : (ts : Option Timespec) → Frames (expiry vm sys ts)
  expiry-Frames none = Frames-pure _
  expiry-Frames (some ts) = Frames-bind clock-Frames λ now. Frames-pure _

  -- What a changelist is let through as.
  prepare-Frames : (vs : Values) → Frames (changelist_prepare vm (array vs))
  unfolding changelist_prepare
  prepare-Frames vs = list-Frames vm vs

  prepare_struct-Frames : (vs : Values) → Frames (changelist_prepare vm (structure vs))
  unfolding changelist_prepare
  prepare_struct-Frames vs = Frames-bind (unpack-Frames vm (structure vs)) λ e. Frames-pure _

  abbrev changes_of : ℕ → Value → Cmd W (List Kevent)
  changes_of n changelist = if ltb 0 n then changelist_prepare vm changelist else pure []

  guarded-Frames : (n : ℕ) (v : Value) → Frames (changelist_prepare vm v) → Frames (changes_of n v)
  guarded-Frames n v f = elim (Bool-cases (ltb 0 n)) [
    | inl e ↦ rw e f
    | inr e ↦ rw e (Frames-pure [])
  ]

  rest-Frames :
      (fuel n : ℕ) (v : Value) (kpt : KqPerThread)
      → Frames (changes_of n v)
      → Frames (do_kevent vm sys fuel n v kpt)
  unfolding do_kevent
  rest-Frames fuel n v kpt f = Frames-bind f λ changes.
      Frames-bind (expiry-Frames kpt.ts)
        λ at. Frames-bind (Frames-loop fuel _ _ (round-Frames at)) result-Frames

  -- No number of changes or of events is negative.
  pub kpt_get_lem :
      (cache_line n m : ℕ) (s : St W)
      → kpt_get vm sys cache_line (pos n) (pos m) s ≡ rb_sp_gettlsbuf vm cache_line (kpt_size n m) s
  unfolding kpt_get
  kpt_get_lem cache_line n m s =
      let e : (if ltb_ℤ (pos m) (pos n) then pos n else pos m) ≡ pos (if ltb m n then n else m) =
        ground arith in
      ap (λ z. kpt_room vm sys cache_line z s) e

  module _ (db : Double) (fresh : Allocates vm) (cache_line fuel : ℕ) where
    -- From the buffer on, where the changelist is one that can be converted or there is none.
    with_buffer :
        (s : St W) (n nevents : ℕ) (v self : Value) (ts : Option Timespec)
        → IsValid s
        → Frames (changes_of n v)
        → Sat
            (Unit {0})
            (λ _ t. Balanced s t)
            (λ _ _. Unit {0})
            (and_then (kpt_get vm sys cache_line (pos n) (pos nevents) s) λ r.
              rb_sp_fileno vm self >>= λ fd.
              rb_ensure
                (do_kevent vm sys fuel n v
                  (record { io = self; fd = fd; changes = []; nevents = nevents; ts = ts }))
                (rb_sp_puttlsbuf (some r.0)))
    with_buffer s n nevents v self ts valid f =
        Sat-and_then Unit (Got s size) (λ _ t. Balanced s t) (λ _ _. Unit) _ _
          (Sat-mono ⊥ Unit (Got s size) (Got s size) (λ _ t. Level s t) (λ _ _. Unit)
            (kpt_get vm sys cache_line (pos n) (pos nevents) s)
            (subst (Sat ⊥ (Got s size) (λ _ t. Level s t))
              (sym (kpt_get_lem cache_line n nevents s))
              (gettlsbuf-Got vm fresh cache_line s size valid))
            absurd (λ r t g. g) (λ e t g. tt))
          λ r t g.
            Sat-and_then Unit (λ _ u. SameBufs t u) (λ _ u. Balanced s u) (λ _ _. Unit) _ _
              (Sat-mono Unit Unit (λ _ u. SameBufs t u) (λ _ u. SameBufs t u) (λ _ u. SameBufs t u)
                (λ _ _. Unit) (rb_sp_fileno vm self t) ((fileno-Frames vm self).run t) (λ l. l)
                (λ fd u h. h) (λ e u h. tt))
              λ fd u h. after_fileno r t g (work fd) u h (rest-Frames fuel n v _ f)
      where
        size : ℕ
        size = kpt_size n nevents

        work : ℤ → Cmd W Value
        work fd =
            do_kevent vm sys fuel n v
              (record { io = self; fd = fd; changes = []; nevents = nevents; ts = ts })

        after_fileno :
            (r : ℕ × ℕ) (t : St W)
            → Got s size r t
            → (m : Cmd W Value) (u : St W) → SameBufs t u
            → Frames m
            → Sat
                (Unit {0})
                (λ _ w. Balanced s w)
                (λ _ _. Unit {0})
                (cleaned (m u) (rb_sp_puttlsbuf (some r.0)))
        after_fileno r t g m u h f =
            Sat-mono Unit Unit (λ _ w. Balanced s w) (λ _ w. Balanced s w) (λ _ w. Balanced s w)
              (λ _ _. Unit) (cleaned (m u) (rb_sp_puttlsbuf (some r.0)))
              (ensure_put-Balanced Unit s t size r (m u) g (
                Sat-mono Unit Unit (λ _ w. SameBufs t w) (λ _ w. Balanced t w) (λ _ w. SameBufs t w)
                  (λ _ w. Balanced t w) (m u) (SameBufs-trans t u (m u) h (f.run u)) (λ l. l)
                  (λ a w k. same-Balanced t w g.valid k) (λ e w k. same-Balanced t w g.valid k)))
              (λ l. l) (λ a w k. k) (λ e w k. tt)

    timeout-Frames :
        (v : Value)
        → Frames (if is_nil v then pure none else (value2timespec db vm v >>= λ ts. pure (some ts)))
    unfolding value2timespec
    timeout-Frames v = record { run = λ s. ground arith }

    events-Frames : (block : Bool) (v : Value) → Frames (count_events vm sys block v)
    events-Frames true v = record { run = λ s. ground arith }
    events-Frames false v = record { run = λ s. ground arith }

    -- The arguments behind the changelist, and all that follows.
    behind_changes :
        (s : St W) (n : ℕ) (block : Bool) (self v events timeout : Value)
        → IsValid s
        → Frames (changes_of n v)
        → Sat
            (Unit {0})
            (λ _ t. Balanced s t)
            (λ _ _. Unit {0})
            ((count_events vm sys block events >>= λ nevents.
                (if is_nil timeout
                  then pure none
                  else (value2timespec db vm timeout >>= λ ts. pure (some ts)))
                >>= λ ts. kpt_get vm sys cache_line (pos n) (pos nevents) >>= λ r.
                    rb_sp_fileno vm self >>= λ fd.
                    rb_ensure
                      (do_kevent vm sys fuel n v
                        (record { io = self; fd = fd; changes = []; nevents = nevents; ts = ts }))
                      (rb_sp_puttlsbuf (some r.0)))
              s)
    behind_changes s n block self v events timeout valid f =
        Frames-then _ _ s (events-Frames block events) valid λ nevents t vt.
          Frames-then _ _ t (timeout-Frames timeout) vt
            λ ts u vu. with_buffer u n nevents v self ts vu f

    -- From a valid state, and where malloc overlays no live buffer, `kevent` never crashes, and
    -- where it returns it has given its buffer back: the state is valid, and the buffers that are
    -- out are those that were out before. A loop that runs out of fuel is left open.
    pub kevent-Balanced :
        (s : St W) (block : Bool) (self changelist events timeout : Value)
        → IsValid s
        → Sat
            (Unit {0})
            (λ _ t. Balanced s t)
            (λ _ _. Unit {0})
            (sp_kevent vm sys db cache_line fuel block self changelist events timeout s)
    unfolding sp_kevent
    kevent-Balanced s block self qnil events timeout valid =
        behind_changes s 0 block self qnil events timeout valid (Frames-pure [])
    kevent-Balanced s block self (structure vs) events timeout valid =
        behind_changes s 1 block self (structure vs) events timeout valid
          (guarded-Frames 1 (structure vs) (prepare_struct-Frames vs))
    kevent-Balanced s block self (array vs) events timeout valid =
        elim (Bool-cases (ltb (length (to_list vs)) (2 ^ 31))) [
          | inr e ↦ rw e tt
          | inl e ↦ rw e (
              behind_changes s (length (to_list vs)) block self (array vs) events timeout valid
                (guarded-Frames _ (array vs) (prepare-Frames vs)))
        ]
    kevent-Balanced s block self _ events timeout valid = tt
