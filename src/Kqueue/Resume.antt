-- ===== src/Kqueue/Resume.antt =====
-- The arguments of kevent(2) over the rounds that interrupted calls lead to.
use sleepy_penguin.Base.{
  Option, not, sym, ℤ, refl, none, ◌∙◌, false, inr, subst, ◌==◌, inl, arith, Bool-cases, ◌⊎◌,
  if◌then◌else◌, [], some, true, is_some, Bool, ◌≡◌, ap,
}
use sleepy_penguin.Proc.Loop.{here, next, again, Keeps, Rounds}
use sleepy_penguin.Ruby.{Vm}
use sleepy_penguin.Kqueue.{
  is_expired, nogvl_kevent, Wait, clock, kevent_round, kevent_again, kevent_resume_p, kq_fd_check,
  KqPerThread, KqueueCalls,
}
use sleepy_penguin.Timespec.{tssub, Timespec}
use sleepy_penguin.Proc.{◌>>=◌, get_errno, Cmd, pure, done, St}
use sleepy_penguin.Proc.Sat.{Sat-and_then, Sat}
use sleepy_penguin.Util.{rb_sp_fileno}
use sleepy_penguin.Proc.Frame.{Frames-Sat}
use sleepy_penguin.Util.Frame.{fileno-Frames}
use sleepy_penguin.Base.Errno.{eintr}

module _ {W : Type 0} (vm : Vm W) (sys : KqueueCalls W) (expire_at : Timespec) where
  -- No timeout, or the time that is left by a reading of the clock.
  abbrev pub Recomputed : Option Timespec → Type 0
  Recomputed ts =
      (ts ≡ none)
      ⊎ ((w : W) × (is_expired (sys.clock_gettime w).0 expire_at ≡ false)
          × (ts ≡ some (tssub expire_at (sys.clock_gettime w).0)))

  -- What a round that goes round again leaves of its arguments.
  abbrev pub Resumed : KqPerThread → KqPerThread → Type 0
  Resumed c d =
      (d.io ≡ c.io)
      × (d.nevents ≡ c.nevents)
      × (is_some d.ts ≡ is_some c.ts)
      × (d.changes ≡ [])
      × Recomputed d.ts

  check-Resumed :
      (kpt : KqPerThread) (s : St W)
      → Sat
          (Unit {0})
          (λ d _. d ≡ record kpt { fd = d.fd })
          (λ _ _. Unit {0})
          (kq_fd_check vm sys kpt s)
  unfolding kq_fd_check
  check-Resumed kpt s =
      Sat-and_then Unit (λ _ _. Unit) _ (λ _ _. Unit) (rb_sp_fileno vm kpt.io s) _
        (Frames-Sat (rb_sp_fileno vm kpt.io) s (fileno-Frames vm kpt.io)) λ fd t _. refl

  abbrev Going : KqPerThread → Bool × KqPerThread → St W → Type 0
  Going c r u = r.0 ≡ true → Resumed c r.1

  -- `kevent_resume_p` behind its check, at the changelist that is no more.
  abbrev resumed : KqPerThread → Option Timespec → Cmd W (Bool × KqPerThread)
  resumed sent none = pure (true, sent)
  resumed sent (some _) = clock vm sys >>= λ now.
      if is_expired now expire_at
      then pure (false, sent)
      else pure (true, record sent { ts = some (tssub expire_at now) })

  resumed-Going :
      (c : KqPerThread) (fd : ℤ) (o : Option Timespec) (t : St W)
      → c.ts ≡ o
      → Sat
          (Unit {0})
          (Going c)
          (λ _ _. Unit {0})
          (resumed (record c { fd = fd; changes = [] }) o t)
  unfolding clock
  resumed-Going c fd none t e = λ q. (refl, refl, refl, refl, inl e)
  resumed-Going c fd (some ts) t e =
      let now : Timespec = (sys.clock_gettime t.world).0 in
      elim (Bool-cases (is_expired now expire_at)) [
        | inl f ↦ rw f (λ q. cc)
        | inr f ↦ rw f (λ q. (refl, refl, ap is_some (sym e), refl, inr (t.world, f, refl)))
      ]

  abbrev behind_check : KqPerThread → Cmd W (Bool × KqPerThread)
  behind_check checked = get_errno >>= λ e.
      if not (e == eintr)
      then pure (false, checked)
      else resumed (record checked { changes = [] }) checked.ts

  behind-Going :
      (c : KqPerThread) (fd : ℤ) (t : St W)
      → Sat (Unit {0}) (Going c) (λ _ _. Unit {0}) (behind_check (record c { fd = fd }) t)
  behind-Going c fd t = elim (Bool-cases (t.errno == eintr)) [
    | inr e ↦ rw e (λ q. cc)
    | inl e ↦ rw e (resumed-Going c fd c.ts t refl)
  ]

  resume-Going :
      (c : KqPerThread) (s : St W)
      → Sat (Unit {0}) (Going c) (λ _ _. Unit {0}) (kevent_resume_p vm sys expire_at c s)
  unfolding kevent_resume_p
  resume-Going c s =
      Sat-and_then Unit (λ d _. d ≡ record c { fd = d.fd }) (Going c) (λ _ _. Unit)
        (kq_fd_check vm sys c s) _ (check-Resumed c s)
        λ d t h.
          subst (λ d. Sat Unit (Going c) (λ _ _. Unit) (behind_check d t)) (sym h)
            (behind-Going c d.fd t)

  again-Resumed :
      (c : KqPerThread) (n : Wait) (s : St W)
      → Sat
          (Unit {0})
          (Keeps (λ d _. Resumed c d) (λ (_ : Wait) _. Unit {0}))
          (λ _ _. Unit {0})
          (kevent_again vm sys expire_at c n s)
  unfolding kevent_again
  again-Resumed c (some es) s = tt
  again-Resumed c none s =
      Sat-and_then Unit (Going c) _ (λ _ _. Unit) (kevent_resume_p vm sys expire_at c s) _
        (resume-Going c s) λ r u h. elim (Bool-cases r.0) [ inl e ↦ rw e (h e) | inr e ↦ rw e tt ]

  pub round-Resumed :
      (c d : KqPerThread) (s t : St W)
      → kevent_round vm sys expire_at c s ≡ done (again d) t
      → Resumed c d
  unfolding kevent_round nogvl_kevent
  round-Resumed c d s t e =
      subst (Sat Unit (Keeps (λ d _. Resumed c d) (λ (_ : Wait) _. Unit {0})) (λ _ _. Unit)) e (
        Sat-and_then Unit (λ _ _. Unit) _ (λ _ _. Unit) (nogvl_kevent vm sys c s) _ (wait_ends c s)
          λ n u _. again-Resumed c n u)
    where
      wait_ends :
          (c : KqPerThread) (s : St W)
          → Sat (Unit {0}) (λ _ _. Unit {0}) (λ _ _. Unit {0}) (nogvl_kevent vm sys c s)
      wait_ends c s = ground arith

  Rounds-Sent :
      (c d : KqPerThread) (s t : St W)
      → c.changes ≡ []
      → Rounds (kevent_round vm sys expire_at) c s d t
      → (d.io ≡ c.io) × (d.nevents ≡ c.nevents) × (is_some d.ts ≡ is_some c.ts) × (d.changes ≡ [])
  Rounds-Sent c d s t h here = (refl, refl, refl, h)
  Rounds-Sent c d s t h (next {d = x} {t = u} q r) =
      let (i, m, l, z, _) = round-Resumed c x s u q in
      let (i', m', l', b) = Rounds-Sent x d u t z r in (i' ∙ i, m' ∙ m, l' ∙ l, b)

  -- After a round of the loop of `kevent` that goes round again, and any more of them, the IO, the
  -- number of events asked for, and whether there is a timeout are as at the beginning; and the
  -- changelist is empty, so that no change is handed to the kernel twice.
  pub Rounds-sent :
      (c x d : KqPerThread) (s u t : St W)
      → kevent_round vm sys expire_at c s ≡ done (again x) u
      → Rounds (kevent_round vm sys expire_at) x u d t
      → (d.io ≡ c.io) × (d.nevents ≡ c.nevents) × (is_some d.ts ≡ is_some c.ts) × (d.changes ≡ [])
  Rounds-sent c x d s u t q r =
      let (i, m, l, z, _) = round-Resumed c x s u q in
      let (i', m', l', b) = Rounds-Sent x d u t z r in (i' ∙ i, m' ∙ m, l' ∙ l, b)
