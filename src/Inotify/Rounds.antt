-- ===== src/Inotify/Rounds.antt =====
-- The rounds of `do_take`, all of which leave the buffer of the call out.
use sleepy_penguin.Ruby.{Value, Allocates, Vm}
use sleepy_penguin.Inotify.{
  split_events, resize_internal_buffer, Taken, take_round, read_done, read_failed, InreadArgs,
  InotifyCalls,
}
use sleepy_penguin.Base.{
  [], none, ◌&&◌, sym, subst, refl, inr, is_some, ◌∷◌, inl, some, ap, List, ◌==◌, if◌then◌else◌,
  Option, Bool-cases, ◌∙◌, Bool, ◌≡◌, ℕ,
}
use sleepy_penguin.Proc.{rb_sys_fail, pure, syscall, ◌>>=◌, Run, St}
use sleepy_penguin.Inotify.Resize.{resize-same, IsOut}
use sleepy_penguin.Proc.Sat.{Sat-mono, Sat-and_then, Sat}
use sleepy_penguin.Tls.Inv.{IsValid}
use sleepy_penguin.Proc.Frame.{Frames-syscall, SameBufs}
use sleepy_penguin.Proc.Loop.{again, Step, Keeps}
use sleepy_penguin.Util.{rb_sp_wait}
use sleepy_penguin.Tls.Around.{same-Balanced}
use sleepy_penguin.Base.Errno.{eagain, einval}
use sleepy_penguin.Util.Frame.{wait-Frames}
use sleepy_penguin.Inotify.Wire.{decode_events}

module _ {W : Type 0} (vm : Vm W) (sys : InotifyCalls W) (fresh : Allocates vm)
    (cache_line : ℕ) where
  -- What the rounds keep: the buffer of the call is out.
  abbrev pub Holds : ℕ → InreadArgs → St W → Type 0
  Holds p a t = (a.buf ≡ p) × IsValid t × IsOut vm sys fresh cache_line t p

  abbrev pub Held : ℕ → St W → Type 0
  Held p t = IsOut vm sys fresh cache_line t p

  same-Holds :
      (p : ℕ) (a c : InreadArgs) (s t : St W)
      → Holds p a s
      → c.buf ≡ a.buf
      → SameBufs s t
      → Holds p c t
  same-Holds p a c s t (e, v, (b, h, n)) q m =
      (q ∙ e, (same-Balanced s t v m).valid, (b, ap (λ f. f p) m.0 ∙ h, n))

  resize_round :
      (p : ℕ) (a : InreadArgs) (s : St W)
      → Holds p a s
      → Sat
          (Unit {0})
          (Keeps (Holds p) (λ (_ : Taken) t. Held p t))
          (λ _ _. Unit {0})
          ((resize_internal_buffer vm sys cache_line a >>= λ c. pure (again c)) s)
  resize_round p a s (e, v, o) =
      Sat-and_then Unit (λ c t. (c ≡ a) × SameBufs s t) _ (λ _ _. Unit)
        (resize_internal_buffer vm sys cache_line a s) _
        (Sat-mono ⊥ Unit (λ c t. (c ≡ a) × SameBufs s t) (λ c t. (c ≡ a) × SameBufs s t)
          (λ _ _. Unit) (λ _ _. Unit) (resize_internal_buffer vm sys cache_line a s)
          (resize-same vm sys fresh cache_line a s v
            (subst (IsOut vm sys fresh cache_line s) (sym e) o))
          (λ l. tt) (λ c t h. h) (λ x t h. tt))
        (λ c t h. same-Holds p a c s t (e, v, o) (ap (λ x. x.buf) h.0) h.1)

  module _ (self : Value) (nonblock : Bool) (p : ℕ) where
    abbrev pub RoundKeeps : Run W (Step InreadArgs Taken) → Type 0
    RoundKeeps r = Sat (Unit {0}) (Keeps (Holds p) (λ _ t. Held p t)) (λ _ _. Unit {0}) r

    wait_round :
        (a : InreadArgs) (s : St W)
        → Holds p a s
        → RoundKeeps (
            (rb_sp_wait vm vm.rb_io_wait_readable self >>= λ r.
            if r.0 then pure (again (record a { fd = r.1 })) else rb_sys_fail "read(inotify)")
              s)
    wait_round a s h =
        Sat-and_then Unit (λ _ t. SameBufs s t) _ (λ _ _. Unit)
          (rb_sp_wait vm vm.rb_io_wait_readable self s) _
          (Sat-mono Unit Unit (λ _ t. SameBufs s t) (λ _ t. SameBufs s t) (λ _ t. SameBufs s t)
            (λ _ _. Unit) (rb_sp_wait vm vm.rb_io_wait_readable self s)
            ((wait-Frames vm vm.rb_io_wait_readable self).run s) (λ l. l) (λ r t m. m)
            (λ x t m. tt))
          (λ r t m. elim (Bool-cases r.0) [
            | inl e ↦ rw e (same-Holds p a (record a { fd = r.1 }) s t h refl m)
            | inr e ↦ rw e tt
          ])

    failed_round :
        (a : InreadArgs) (s : St W)
        → Holds p a s
        → RoundKeeps (read_failed vm sys cache_line self nonblock a s)
    unfolding read_failed
    failed_round a s h = elim (Bool-cases (s.errno == einval)) [
      | inl e ↦ rw e (resize_round p a s h)
      | inr e ↦ rw e (elim (Bool-cases (s.errno == eagain && nonblock)) [
        | inl f ↦ rw f h.2
        | inr f ↦ rw f (wait_round a s h)
      ])
    ]

    done_round :
        (a : InreadArgs) (r : Option (List ℕ)) (s : St W)
        → Holds p a s
        → RoundKeeps (read_done vm sys cache_line self nonblock a r s)
    unfolding read_done
    done_round a none s h = failed_round a s h
    done_round a (some []) s h = resize_round p a s h
    done_round a (some (b ∷ bs)) s h =
        elim (Bool-cases (is_some (split_events vm sys cache_line (decode_events (b ∷ bs))).0)) [
          | inl e ↦ rw e h.2
          | inr e ↦ rw e h
        ]

    pub take_round-Holds :
        (a : InreadArgs) (s : St W)
        → Holds p a s
        → RoundKeeps (take_round vm sys cache_line self nonblock a s)
    unfolding take_round
    take_round-Holds a s h =
        Sat-and_then Unit (λ _ t. SameBufs s t) _ (λ _ _. Unit) (syscall (sys.read a.fd a.size) s) _
          (Sat-mono Unit Unit (λ _ t. SameBufs s t) (λ _ t. SameBufs s t) (λ _ t. SameBufs s t)
            (λ _ _. Unit) (syscall (sys.read a.fd a.size) s)
            ((Frames-syscall (sys.read a.fd a.size)).run s) (λ l. l) (λ r t m. m) (λ x t m. tt))
          (λ r t m. done_round a r t (same-Holds p a a s t h refl m))
