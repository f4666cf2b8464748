-- ===== src/TimerFd/Total.antt =====
-- A whole call of `expirations`, against the expirations that the kernel has handed out.
use sleepy_penguin.Base.{
  ◌<◌, refl, ◌∙◌, arith, inr, true, inl, ◌&&◌, if◌then◌else◌, ◌==◌, ◌⊎◌, Bool-cases, pos, ◌+◌, ◌≡◌,
  ℤ, ℕ,
}
use sleepy_penguin.TimerFd.{expirations, tfd_read, expirations_round, Expiry, TimerFdCalls}
use sleepy_penguin.Ruby.{is_truthy, qnil, fixnum, Vm, Value}
use sleepy_penguin.Timespec.{Double}
use sleepy_penguin.Proc.{rb_sys_fail, pure, ◌>>=◌, get_errno, fails, Cmd, Run, gives, St}
use sleepy_penguin.Util.Quiet.{when_nonblock-Quiet, fileno-Quiet, wait-Quiet, QuietVm}
use sleepy_penguin.Proc.Loop.{loop_inv, again, finish, Keeps, Step}
use sleepy_penguin.Proc.Sat.{Sat-mono, Sat-and_then, Sat-syscall, Sat}
use sleepy_penguin.Base.Errno.{eagain}
use sleepy_penguin.Util.{when_nonblock, rb_sp_fileno, rb_sp_wait}
use sleepy_penguin.Proc.Quiet.{Seen-trans}
use sleepy_penguin.Util.Ends.{when_nonblock-Ends, fileno-Ends, wait-Ends, CalmVm}
use sleepy_penguin.Proc.Patience.{IsSpent}
use sleepy_penguin.Proc.Halts.{
  Halts-loop, Halts-Ends, NoMore, Halts-Sat, Halts-and_then, Halts, Halts-syscall, RoundHalts,
}

-- The expirations handed out so far: a read that succeeds hands out what it says, one that fails none.
pub record HandsOut {W : Type 0} (handed : W → ℕ) (sys : TimerFdCalls W) : Type 0 where
  pub was_read :
      (fd : ℤ) (w : W) (n : ℕ) (w' : W) → sys.read fd w ≡ gives n w' → handed w' ≡ handed w + n
  pub read_failed :
      (fd : ℤ) (w : W) (e : ℕ) (w' : W) → sys.read fd w ≡ fails e w' → handed w' ≡ handed w

module _ {W : Type 0} (handed : W → ℕ) (nonblock : Value) where
  -- The number returned is what was handed out; nil is for a call that does not block, and for nothing.
  abbrev pub Reported : St W → Value → St W → Type 0
  Reported s v t =
      ((n : ℕ) × (v ≡ fixnum (pos n)) × (handed t.world ≡ handed s.world + n))
      ⊎ ((v ≡ qnil) × (is_truthy nonblock ≡ true) × (handed t.world ≡ handed s.world))

  abbrev pub Still : St W → St W → Type 0
  Still s t = handed t.world ≡ handed s.world

module _ {W : Type 0} (handed : W → ℕ) (db : Double) (vm : Vm W) (quiet : QuietVm handed vm)
    (sys : TimerFdCalls W) (timer : HandsOut handed sys) (self nonblock : Value) where
  abbrev KeepsRound : St W → Run W (Step Expiry Value) → Type 0
  KeepsRound s r =
      Sat (Unit {0}) (Keeps (λ _ t. Still handed nonblock s t) (Reported handed nonblock s))
        (λ _ t. Still handed nonblock s t) r

  -- What follows a read that has failed.
  abbrev on_failure : Expiry → Cmd W (Step Expiry Value)
  on_failure x = get_errno >>= λ e.
      if e == eagain && is_truthy nonblock
      then pure (finish qnil)
      else (rb_sp_wait vm vm.rb_io_wait_readable self >>= λ r.
          if r.0 then pure (again (record x { fd = r.1 })) else rb_sys_fail "read(timerfd)")

  failure-Still :
      (s t : St W) (x : Expiry) → Still handed nonblock s t → KeepsRound s (on_failure x t)
  failure-Still s t x h = elim (Bool-cases (t.errno == eagain && is_truthy nonblock)) [
    | inl e ↦ rw e (inr (refl, ground arith, h))
    | inr e ↦ rw e (
        Sat-and_then Unit (λ _ u. Still handed nonblock s u) _ (λ _ u. Still handed nonblock s u)
          (rb_sp_wait vm vm.rb_io_wait_readable self t) _
          (Seen-trans handed s t (rb_sp_wait vm vm.rb_io_wait_readable self t) h (
            (wait-Quiet handed vm quiet vm.rb_io_wait_readable self quiet.rb_io_wait_readable).run
              t))
          λ r u k. elim (Bool-cases r.0) [ inl f ↦ rw f k | inr f ↦ rw f k ])
  ]

  round-Still :
      (s t : St W) (x : Expiry)
      → Still handed nonblock s t
      → KeepsRound s (expirations_round db vm sys self nonblock x t)
  unfolding expirations_round tfd_read
  round-Still s t x h =
      Sat-syscall Unit (Keeps (λ _ t. Still handed nonblock s t) (Reported handed nonblock s))
        (λ _ t. Still handed nonblock s t) (sys.read _) t _
        (λ n w q. inl (n, refl, omega (arith, timer.was_read _ t.world n w q, h)))
        (λ e w q.
          failure-Still s (record t { errno = e; world = w }) x
            (timer.read_failed _ t.world e w q ∙ h))

  expirations-Reported :
      (fuel : ℕ) (s : St W)
      → Sat
          (Unit {0})
          (Reported handed nonblock s)
          (λ _ t. Still handed nonblock s t)
          (expirations db vm sys fuel self nonblock s)
  unfolding expirations
  expirations-Reported fuel s =
      Sat-and_then Unit (λ _ t. Still handed nonblock s t) (Reported handed nonblock s)
        (λ _ t. Still handed nonblock s t) (rb_sp_fileno vm self s) _
        ((fileno-Quiet handed vm quiet self).run s)
        λ fd t h.
          Sat-and_then Unit (λ _ u. Still handed nonblock s u) (Reported handed nonblock s)
            (λ _ u. Still handed nonblock s u) (when_nonblock vm nonblock fd t) _
            (Seen-trans handed s t (when_nonblock vm nonblock fd t) h
              ((when_nonblock-Quiet handed vm quiet nonblock fd).run t))
            λ _ u k.
              loop_inv (expirations_round db vm sys self nonblock)
                (λ _ t. Still handed nonblock s t) (Reported handed nonblock s)
                (λ _ t. Still handed nonblock s t) (λ x z h. round-Still s z x h) fuel _ u k

module _ {W : Type 0} (left : W → ℕ) (db : Double) (vm : Vm W) (calm : CalmVm left vm)
    (sys : TimerFdCalls W) (spent : (fd : ℤ) → IsSpent left (sys.read fd))
    (self nonblock : Value) where
  abbrev AnyValue : Value → St W → Type 0
  AnyValue v t = Unit {0}

  round-Halts :
      (x : Expiry) (s : St W)
      → RoundHalts left AnyValue s (expirations_round db vm sys self nonblock x s)
  unfolding expirations_round tfd_read
  round-Halts x s =
      Halts-syscall (Keeps (λ _ t. left t.world < left s.world) AnyValue) (sys.read _) s _
        (λ n w q. tt)
        (λ e w q.
          let t : St W = record s { errno = e; world = w } in
          let less : left w < left s.world = spent _ s.world e w q in
          elim (Bool-cases (e == eagain && is_truthy nonblock)) [
            | inl f ↦ rw f tt
            | inr f ↦ rw f (
                Halts-and_then (NoMore left t) (Keeps (λ _ u. left u.world < left s.world) AnyValue)
                  (rb_sp_wait vm vm.rb_io_wait_readable self t) _
                  (Halts-Ends left t _
                    (wait-Ends left vm calm vm.rb_io_wait_readable self t calm.rb_io_wait_readable))
                  λ r u le. elim (Bool-cases r.0) [ inl g ↦ rw g (omega arith) | inr g ↦ rw g tt ])
          ])

  expirations-Halts :
      (fuel : ℕ) (s : St W)
      → left s.world < fuel
      → Halts AnyValue (expirations db vm sys fuel self nonblock s)
  unfolding expirations
  expirations-Halts fuel s less =
      Halts-and_then (NoMore left s) AnyValue (rb_sp_fileno vm self s) _
        (Halts-Ends left s _ (fileno-Ends left vm calm self s))
        λ fd t le.
          Halts-and_then (NoMore left t) AnyValue (when_nonblock vm nonblock fd t) _
            (Halts-Ends left t _ (when_nonblock-Ends left vm calm nonblock fd t))
            λ _ u le2.
              Halts-loop left AnyValue (expirations_round db vm sys self nonblock) round-Halts fuel
                _ u (omega arith)

module _ {W : Type 0} (left handed : W → ℕ) (db : Double) (vm : Vm W) (calm : CalmVm left vm)
    (quiet : QuietVm handed vm) (sys : TimerFdCalls W) (timer : HandsOut handed sys)
    (spent : (fd : ℤ) → IsSpent left (sys.read fd)) where
  -- Where the world interrupts finitely often, and there is fuel for each interruption, `expirations`
  -- ends without a crash: it returns the number of expirations that the kernel has handed out in the
  -- call, or nil, where it does not block and none was handed out; where it raises none was handed
  -- out either. Ruby hands out none and adds no interruption, and every read that fails hands out
  -- none and uses one up.
  pub expirations_total :
      (fuel : ℕ) (self nonblock : Value) (s : St W)
      → left s.world < fuel
      → Sat ⊥
          (Reported handed nonblock s)
          (λ _ t. Still handed nonblock s t)
          (expirations db vm sys fuel self nonblock s)
  expirations_total fuel self nonblock s less =
      Sat-mono ⊥ ⊥ (λ v t. Unit {0} × Reported handed nonblock s v t) (Reported handed nonblock s)
        (λ _ t. Still handed nonblock s t) (λ _ t. Still handed nonblock s t)
        (expirations db vm sys fuel self nonblock s)
        (Halts-Sat (Reported handed nonblock s) (λ _ _. Unit {0}) (λ _ t. Still handed nonblock s t)
          (expirations db vm sys fuel self nonblock s)
          (expirations-Reported handed db vm quiet sys timer self nonblock fuel s)
          (expirations-Halts left db vm calm sys spent self nonblock fuel s less))
        (λ l. l) (λ v t h. h.1) (λ x t h. h)
