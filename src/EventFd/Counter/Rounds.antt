-- ===== src/EventFd/Counter/Rounds.antt =====
-- One round of the loops of `incr` and `value` on an abstract counter.
use sleepy_penguin.Base.{
  refl, none, inr, arith, sym, subst, inl, ap, ◌&&◌, some, ◌==◌, Bool-cases, String, pos, ◌∙◌, Bool,
  ◌+◌, ◌≡◌, ℤ, ℕ,
}
use sleepy_penguin.EventFd.{getvalue_round, incr_round, failed, EventFdCalls}
use sleepy_penguin.Ruby.{is_truthy, qnil, fixnum, qfalse, qtrue, Value, Vm}
use sleepy_penguin.Proc.{pure, returned, and_then, SysReply, call, fails, Ext, Run, gives, St}
use sleepy_penguin.Util.Quiet.{set_nonblock-Quiet, fileno-Quiet, QuietVm}
use sleepy_penguin.Util.{when_nonblock, rb_sp_set_nonblock, rb_sp_wait, rb_sp_fileno}
use sleepy_penguin.Proc.Sat.{Sat-and_then, Sat-mono, Sat-with, Sat}
use sleepy_penguin.Proc.Quiet.{Quiet-call, IsQuiet, Seen}
use sleepy_penguin.Proc.Loop.{finish, Keeps, Step}
use sleepy_penguin.Base.Errno.{eagain}
use sleepy_penguin.EventFd.Counter.{
  Same, empty, full, fetched, added, fetch, add, Move, Holds, IsCounter,
}

module _ {W : Type 0} (vm : Vm W) (sys : EventFdCalls W) (count : W → ℕ) (fd : ℤ)
    (self : Value) where
  module _ (counter : IsCounter sys count fd) (quiet : QuietVm count vm)
      (holds : Holds vm self fd) where
    after-Seen :
        {A : Type 0} (X : A → Type 0) (n : ℕ) (s : St W) (r : Run W A)
        → count s.world ≡ n
        → Sat (Unit {0}) (λ a t. X a × Seen count s t) (λ _ t. Seen count s t) r
        → Sat (Unit {0}) (λ a t. X a × Same count n t) (λ _ t. Same count n t) r
    after-Seen X n s r h k =
        Sat-mono Unit Unit (λ a t. X a × Seen count s t) (λ a t. X a × Same count n t)
          (λ _ t. Seen count s t) (λ _ t. Same count n t) r k (λ l. l) (λ a t p. (p.0, p.1 ∙ h))
          (λ e t p. p ∙ h)

    pub at_fd :
        (n : ℕ) (s : St W)
        → count s.world ≡ n
        → Sat
            (Unit {0})
            (λ d t. (d ≡ fd) × Same count n t)
            (λ _ t. Same count n t)
            (rb_sp_fileno vm self s)
    at_fd n s h =
        after-Seen (λ d. d ≡ fd) n s _ h
          (Sat-with Unit (λ _ t. Seen count s t) (λ d _. d ≡ fd) (λ _ t. Seen count s t) _
            ((fileno-Quiet count vm quiet self).run s) (holds s))

    -- The wait ends at the same descriptor.
    waited :
        (waiter : ℤ → Ext W Bool) (n : ℕ) (s : St W)
        → ((d : ℤ) → IsQuiet count (waiter d))
        → count s.world ≡ n
        → Sat
            (Unit {0})
            (λ r t. (r.1 ≡ fd) × Same count n t)
            (λ _ t. Same count n t)
            (rb_sp_wait vm waiter self s)
    unfolding rb_sp_wait
    waited waiter n s q h =
        Sat-and_then Unit (λ d t. (d ≡ fd) × Same count n t) _ (λ _ t. Same count n t) _ _
          (at_fd n s h)
          λ d t (_, k).
            Sat-and_then Unit (λ rc u. Unit {0} × Same count n u) _ (λ _ t. Same count n t)
              (call (waiter d) t) _
              (after-Seen (λ _. Unit {0}) n t _ k
                (Sat-with Unit (λ _ u. Seen count t u) (λ _ _. Unit {0}) (λ _ u. Seen count t u) _
                  ((Quiet-call count (waiter d) (q d)).run t) (λ _ _ _. tt)))
              λ rc u (_, l).
                Sat-and_then Unit (λ d t. (d ≡ fd) × Same count n t) _ (λ _ t. Same count n t) _ _
                  (at_fd n u l) λ d' x p. p

    abbrev pub Loops : (Value → ℕ → Type 0) → ℕ → Step ℤ Value → St W → Type 0
    Loops Q n = Keeps (λ d t. (d ≡ fd) × Same count n t) (λ r t. Q r (count t.world))

    failed_again :
        (Q : Value → ℕ → Type 0) (nonblock blocked : Value) (waiter : ℤ → Ext W Bool)
        (what : String) (n : ℕ) (s : St W)
        → ((d : ℤ) → IsQuiet count (waiter d))
        → Q blocked n
        → count s.world ≡ n
        → Sat
            (Unit {0})
            (Loops Q n)
            (λ _ t. Same count n t)
            (failed vm sys self nonblock waiter blocked what s)
    unfolding failed
    failed_again Q nonblock blocked waiter what n s q b h =
        elim (Bool-cases (s.errno == eagain && is_truthy nonblock)) [
          | inl e ↦ rw e (subst (Q blocked) (sym h) b)
          | inr e ↦ rw e (
              Sat-and_then Unit (λ r t. (r.1 ≡ fd) × Same count n t) (Loops Q n)
                (λ _ t. Same count n t) (rb_sp_wait vm waiter self s) _ (waited waiter n s q h)
                λ r t k. elim (Bool-cases r.0) [ inl f ↦ rw f k | inr f ↦ rw f k.1 ])
        ]

    pub incr_round-Loops :
        (nonblock : Value) (val n : ℕ) (d : ℤ) (s : St W)
        → d ≡ fd
        → count s.world ≡ n
        → Sat
            (Unit {0})
            (Loops (λ r c. Move (add val) n r c) n)
            (λ _ t. Same count n t)
            (incr_round vm sys self nonblock val d s)
    unfolding incr_round
    incr_round-Loops nonblock val n d s e h = go (sys.write d val s.world) refl
      where
        go :
            (r : SysReply W (Unit {0}))
            → sys.write d val s.world ≡ r
            → Sat
                (Unit {0})
                (Loops (λ r c. Move (add val) n r c) n)
                (λ _ t. Same count n t)
                (and_then (returned s r) (λ w. elim w [
                  | some _ ↦ pure (finish qtrue)
                  | none ↦
                      failed vm sys self nonblock vm.rb_io_wait_writable qfalse "write(eventfd)"
                ]))
        go (gives tt w) q =
            let (sum, le) =
              counter.wrote val s.world w (ap (λ f. sys.write f val s.world) (sym e) ∙ q) in
            added refl (sum ∙ ap (λ k. k + val) h) le
        go (fails x w) q =
            failed_again (λ r c. Move (add val) n r c) nonblock qfalse vm.rb_io_wait_writable
              "write(eventfd)" n (record s { errno = x; world = w }) quiet.rb_io_wait_writable
              (full refl refl)
              (counter.write_failed val s.world x w (ap (λ f. sys.write f val s.world) (sym e) ∙ q)
                ∙ h)

    pub getvalue_round-Loops :
        (nonblock : Value) (n : ℕ) (d : ℤ) (s : St W)
        → d ≡ fd
        → count s.world ≡ n
        → Sat
            (Unit {0})
            (Loops (λ r c. Move fetch n r c) n)
            (λ _ t. Same count n t)
            (getvalue_round vm sys self nonblock d s)
    unfolding getvalue_round
    getvalue_round-Loops nonblock n d s e h = go (sys.read d s.world) refl
      where
        go :
            (r : SysReply W ℕ)
            → sys.read d s.world ≡ r
            → Sat
                (Unit {0})
                (Loops (λ r c. Move fetch n r c) n)
                (λ _ t. Same count n t)
                (and_then (returned s r) (λ w. elim w [
                  | some val ↦ pure (finish (fixnum (pos val)))
                  | none ↦ failed vm sys self nonblock vm.rb_io_wait_readable qnil "read(eventfd)"
                ]))
        go (gives m w) q =
            let (all, some_there, left) =
              counter.was_read s.world m w (ap (λ f. sys.read f s.world) (sym e) ∙ q) in
            fetched (ap (λ k. fixnum (pos k)) (all ∙ h)) (omega arith) left
        go (fails x w) q =
            failed_again (λ r c. Move fetch n r c) nonblock qnil vm.rb_io_wait_readable
              "read(eventfd)" n (record s { errno = x; world = w }) quiet.rb_io_wait_readable
              (empty refl refl)
              (counter.read_failed s.world x w (ap (λ f. sys.read f s.world) (sym e) ∙ q) ∙ h)

    pub nonblock_seen :
        (nonblock : Value) (n : ℕ) (s : St W)
        → count s.world ≡ n
        → Sat
            (Unit {0})
            (λ _ t. Same count n t)
            (λ _ t. Same count n t)
            (when_nonblock vm nonblock fd s)
    nonblock_seen nonblock n s h = elim (Bool-cases (is_truthy nonblock)) [
      | inl e ↦ rw e (
          Sat-mono Unit Unit (λ _ t. Seen count s t) (λ _ t. Same count n t) (λ _ t. Seen count s t)
            (λ _ t. Same count n t) (rb_sp_set_nonblock vm fd s)
            ((set_nonblock-Quiet count vm quiet fd).run s) (λ l. l) (λ a t p. p ∙ h)
            (λ x t p. p ∙ h))
      | inr e ↦ rw e h
    ]
