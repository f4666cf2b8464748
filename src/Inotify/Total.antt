-- ===== src/Inotify/Total.antt =====
-- A whole call of `take` where the world interrupts finitely often.
use sleepy_penguin.Ruby.{Allocates, is_truthy, Vm, Value}
use sleepy_penguin.Base.{
  ◌∷◌, refl, List, ◌&&◌, ◌==◌, if◌then◌else◌, ap, inl, ltb, inr, ◌≤◌, is_positive, Option,
  Bool-cases, arith, true, ◌<◌, [], none, ◌⊎◌, ℤ, some, ◌≡◌, ℕ,
}
use sleepy_penguin.Inotify.{
  read_done, take, do_take, take_round, read_failed, resize_for, check_length, InreadArgs,
  resize_internal_buffer, resize_to, InotifyCalls, Taken,
}
use sleepy_penguin.Inotify.Wire.{decode_from, decode_events, Event}
use sleepy_penguin.Util.Ends.{when_nonblock-Ends, wait-Ends, fileno-Ends, CalmVm}
use sleepy_penguin.Proc.Patience.{syscall-Ends, IsCalmSys, Ends, IsSpent}
use sleepy_penguin.Proc.{rb_sys_fail, pure, ◌>>=◌, syscall, St, gives}
use sleepy_penguin.Proc.Halts.{
  Halts-syscall, Halts-Sat, Halts-ensure, Halts-loop, RoundHalts, Halts-and_then, Halts-mono,
  Halts-Ends, NoMore, Halts,
}
use sleepy_penguin.Tls.{rb_sp_gettlsbuf, rb_sp_puttlsbuf}
use sleepy_penguin.Tls.Halts.{gettlsbuf-Halts, puttlsbuf-Halts}
use sleepy_penguin.Util.{when_nonblock, rb_sp_fileno, rb_sp_wait}
use sleepy_penguin.Tls.Inv.{IsValid}
use sleepy_penguin.Base.Errno.{eagain, einval}
use sleepy_penguin.Proc.Sat.{Sat-mono, Sat}
use sleepy_penguin.Proc.Loop.{Keeps, again}
use sleepy_penguin.Inotify.Leak.{take-Leaks, Leaks}

-- What `take` returns: an event, or nil where the call does not block.
abbrev pub IsTaken : Value → Taken → Type 0
IsTaken nonblock rv =
    ((e : Event) × (rv.0 ≡ some e)) ⊎ ((rv ≡ (none, [])) × (is_truthy nonblock ≡ true))

module _ {W : Type 0} (left : W → ℕ) (vm : Vm W) (calm : CalmVm left vm)
    (sys : InotifyCalls W) where
  -- A read of no byte uses up an interruption too, and FIONREAD adds none.
  pub record IsPatient : Type 0 where
    pub fails_spent : (fd : ℤ) (n : ℕ) → IsSpent left (sys.read fd n)
    pub empty_spent : (fd : ℤ) (n : ℕ) (w w' : W) → sys.read fd n w ≡ gives [] w' → left w' < left w
    pub fionread : (fd : ℤ) → IsCalmSys left (sys.fionread fd)

  module _ (patient : IsPatient) (cache_line : ℕ) where
    check-Ends :
        (n : ℤ) (a : InreadArgs) (s : St W) → Ends left s (check_length vm sys cache_line n a s)
    check-Ends n a s = ground arith

    resize_to-Halts :
        (a : InreadArgs) (n : ℤ) (s : St W)
        → Halts (NoMore left s) (resize_to vm sys cache_line a n s)
    unfolding resize_to
    resize_to-Halts a n s = elim (Bool-cases (is_positive n)) [
      | inr e ↦ rw e (Halts-Ends left s _ (check-Ends n a s))
      | inl e ↦ rw e (
          Halts-and_then (λ _ t. t.world ≡ s.world) (NoMore left s) (rb_sp_puttlsbuf (some a.buf) s)
            _ (puttlsbuf-Halts vm cache_line (some a.buf) s)
            λ _ t q.
              Halts-and_then (λ _ u. u.world ≡ t.world) (NoMore left s)
                (rb_sp_gettlsbuf vm cache_line _ t) _ (gettlsbuf-Halts vm cache_line _ t)
                λ r u p.
                  Halts-mono (NoMore left u) (NoMore left s)
                    (check_length vm sys cache_line n (record a { buf = r.0; size = r.1 }) u)
                    (Halts-Ends left u _ (check-Ends n _ u))
                    λ b x le. omega (arith, ap left p, ap left q))
    ]

    resize-Halts :
        (a : InreadArgs) (s : St W)
        → Halts (NoMore left s) (resize_internal_buffer vm sys cache_line a s)
    unfolding resize_internal_buffer
    resize-Halts a s = elim (Bool-cases (ltb 0x10000 a.size)) [
      | inl e ↦ rw e tt
      | inr e ↦ rw e (
          Halts-and_then (NoMore left s) (NoMore left s) (syscall (sys.fionread a.fd) s) _
            (Halts-Ends left s _ (syscall-Ends left _ s (patient.fionread a.fd))) resized)
    ]
      where
        resized :
            (n : Option ℤ) (t : St W)
            → left t.world ≤ left s.world
            → Halts (NoMore left s) (resize_for vm sys cache_line a n t)
        resized none t le = tt
        resized (some n) t le =
            Halts-mono (NoMore left t) (NoMore left s) (resize_to vm sys cache_line a n t)
              (resize_to-Halts a n t) λ b u le2. omega arith

    module _ (self nonblock : Value) where
      abbrev Post : Taken → St W → Type 0
      Post rv _ = IsTaken nonblock rv

      -- A resize, or a wait, after a read that has used up an interruption.
      after_resize :
          (a : InreadArgs) (s t : St W)
          → left t.world < left s.world
          → RoundHalts left Post s
              ((resize_internal_buffer vm sys cache_line a >>= λ c. pure (again c)) t)
      after_resize a s t less =
          Halts-and_then (NoMore left t) (Keeps (λ _ u. left u.world < left s.world) Post)
            (resize_internal_buffer vm sys cache_line a t) _ (resize-Halts a t)
            λ c u le. omega arith

      after_wait :
          (a : InreadArgs) (s t : St W)
          → left t.world < left s.world
          → RoundHalts left Post s (
              (rb_sp_wait vm vm.rb_io_wait_readable self >>= λ r.
              if r.0 then pure (again (record a { fd = r.1 })) else rb_sys_fail "read(inotify)")
                t)
      after_wait a s t less =
          Halts-and_then (NoMore left t) (Keeps (λ _ u. left u.world < left s.world) Post)
            (rb_sp_wait vm vm.rb_io_wait_readable self t) _
            (Halts-Ends left t _
              (wait-Ends left vm calm vm.rb_io_wait_readable self t calm.rb_io_wait_readable))
            λ r u le. elim (Bool-cases r.0) [ inl e ↦ rw e (omega arith) | inr e ↦ rw e tt ]

      failed-Halts :
          (a : InreadArgs) (s t : St W)
          → left t.world < left s.world
          → RoundHalts left Post s (read_failed vm sys cache_line self (is_truthy nonblock) a t)
      unfolding read_failed
      failed-Halts a s t less = elim (Bool-cases (t.errno == einval)) [
        | inl e ↦ rw e (after_resize a s t less)
        | inr e ↦ rw e (elim (Bool-cases (t.errno == eagain && is_truthy nonblock)) [
          | inl f ↦ rw f (inr (refl, ground arith))
          | inr f ↦ rw f (after_wait a s t less)
        ])
      ]

      round-Halts :
          (a : InreadArgs) (s : St W)
          → RoundHalts left Post s (take_round vm sys cache_line self (is_truthy nonblock) a s)
      unfolding take_round read_done decode_events decode_from
      round-Halts a s =
          Halts-syscall (Keeps (λ _ u. left u.world < left s.world) Post) (sys.read a.fd a.size) s _
            got (λ e w q. failed-Halts a s _ (patient.fails_spent a.fd a.size s.world e w q))
        where
          got :
              (bs : List ℕ) (w : W)
              → sys.read a.fd a.size s.world ≡ gives bs w
              → RoundHalts left Post s (
                  read_done vm sys cache_line self
                    (is_truthy nonblock)
                    a
                    (some bs)
                    (record s { world = w }))
          got [] w q = after_resize a s _ (patient.empty_spent a.fd a.size s.world w q)
          got (b ∷ bs) w q = inl (_, refl)

      do_take-Halts :
          (fuel : ℕ) (fd : ℤ) (size : ℕ) (s : St W)
          → left s.world < fuel
          → Halts Post (do_take vm sys cache_line fuel self (is_truthy nonblock) fd size s)
      unfolding do_take
      do_take-Halts fuel fd size s less =
          Halts-and_then (λ _ t. t.world ≡ s.world) Post (rb_sp_gettlsbuf vm cache_line size s) _
            (gettlsbuf-Halts vm cache_line size s)
            λ r t q.
              Halts-loop left Post (take_round vm sys cache_line self (is_truthy nonblock))
                round-Halts fuel _ t (omega (arith, ap left q))

      take-Halts :
          (fuel : ℕ) (s : St W)
          → left s.world < fuel
          → Halts Post (take vm sys cache_line fuel self [] nonblock s)
      unfolding take
      take-Halts fuel s less =
          Halts-and_then (NoMore left s) Post (rb_sp_fileno vm self s) _
            (Halts-Ends left s _ (fileno-Ends left vm calm self s))
            λ fd t le.
              Halts-and_then (NoMore left t) Post (when_nonblock vm nonblock fd t) _
                (Halts-Ends left t _ (when_nonblock-Ends left vm calm nonblock fd t))
                λ _ u le2.
                  Halts-ensure (λ rv _. IsTaken nonblock rv)
                    (do_take vm sys cache_line fuel self (is_truthy nonblock) fd 128) _ u
                    (do_take-Halts fuel fd 128 u (omega arith)) (puttlsbuf-Halts vm cache_line none)

      -- From a valid state, where malloc overlays no live buffer, the world interrupts finitely
      -- often and there is fuel for each interruption, a `take` with no event at hand of an earlier
      -- read ends without a crash: it returns an event, or nil where it does not block, or raises.
      -- Ruby and FIONREAD add no interruption, and every read that fails or brings nothing uses one
      -- up.
      pub take_total :
          Allocates vm
          → (fuel : ℕ) (s : St W) → IsValid s
          → left s.world < fuel
          → Sat ⊥
              (λ rv _. IsTaken nonblock rv)
              (λ _ _. Unit {0})
              (take vm sys cache_line fuel self [] nonblock s)
      take_total fresh fuel s valid less =
          Sat-mono ⊥ ⊥ (λ rv t. IsTaken nonblock rv × Leaks vm sys fresh cache_line s t) Post
            (λ _ _. Unit) (λ _ _. Unit) (take vm sys cache_line fuel self [] nonblock s)
            (Halts-Sat (λ _ t. Leaks vm sys fresh cache_line s t) Post (λ _ _. Unit {0}) _
              (take-Leaks vm sys fresh cache_line fuel self nonblock s valid)
              (take-Halts fuel s less))
            (λ l. l) (λ rv t h. h.0) (λ e t h. h)
