-- ===== src/Sendfile/Retry.antt =====
-- The `again:` of `lsf`, which a shortage of memory leads back to once.
use sleepy_penguin.Ruby.{is_nil, Value, Vm}
use sleepy_penguin.Sendfile.{
  bsd_linux_sendfile, native_sendfile, SendfileCalls, lsf, Attempt, lsf_round, Sender,
}
use sleepy_penguin.Base.{some, none, ◌<◌, arith, if◌then◌else◌, true, false, ◌≡◌, Option, ℤ, ℕ}
use sleepy_penguin.Proc.{◌>>=◌, call, pure, St}
use sleepy_penguin.Util.{rb_sp_fileno}
use sleepy_penguin.Proc.Sat.{Sat-mono, Sat-and_then, Sat}
use sleepy_penguin.Proc.Loop.{loop_total, finish, again, Step, loop, Keeps}

module _ {W : Type 0} (vm : Vm W) (linux_sendfile : Sender W) (dst src : Value) where
  -- A `linux_sendfile` that ends.
  abbrev pub Total : Type 0
  Total =
      (out in' : ℤ) (off : Option ℤ) (count : ℕ) (s : St W)
      → Sat ⊥ (λ _ _. Unit {0}) (λ _ _. Unit {0}) (linux_sendfile out in' off count s)

  -- A round goes round again only from the first attempt, and marks it.
  round-marks :
      Total
      → (count : ℕ) (a : Attempt) (s : St W)
      → Sat ⊥
          (Keeps (λ b _. (a.retried ≡ false) × (b.retried ≡ true)) (λ (_ : Value) _. Unit {0}))
          (λ _ _. Unit {0})
          (lsf_round vm linux_sendfile dst src count a s)
  unfolding lsf_round rb_sp_fileno
  round-marks total count a s =
      Sat-and_then ⊥ (λ _ _. Unit) _ (λ _ _. Unit) (rb_sp_fileno vm src s) _ (ground arith)
        λ i t _.
          Sat-and_then ⊥ (λ _ _. Unit) _ (λ _ _. Unit) (rb_sp_fileno vm dst t) _ (ground arith)
            λ o u _.
              Sat-and_then ⊥ (λ _ _. Unit) _ (λ _ _. Unit) (linux_sendfile o i a.off count u) _
                (total o i a.off count u) λ r x _. ground arith

  lsf_rounds-end :
      Total
      → (count : ℕ) (off : Option ℤ) (s : St W)
      → Sat ⊥
          (λ _ _. Unit {0})
          (λ _ _. Unit {0})
          (loop 2
            (lsf_round vm linux_sendfile dst src count)
            (record { off = off; retried = false })
            s)
  lsf_rounds-end total count off s =
      loop_total (lsf_round vm linux_sendfile dst src count) (λ _ _. Unit {0}) (λ _ _. Unit {0})
        (λ _ _. Unit {0}) (λ a _. if a.retried then 0 else 1)
        (λ a t _.
          Sat-mono ⊥ ⊥ _ _ (λ _ _. Unit) (λ _ _. Unit) _ (round-marks total count a t) (λ l. l)
            (less a t) (λ e t h. h))
        2 (record { off = off; retried = false }) s (omega arith) tt
    where
      less :
          (a : Attempt) (s : St W) (x : Step Attempt Value) (t : St W)
          → Keeps (λ b _. (a.retried ≡ false) × (b.retried ≡ true)) (λ _ _. Unit {0}) x t
          → Keeps
              (λ b _. Unit {0} × ((if b.retried then 0 else 1) < (if a.retried then 0 else 1)))
              (λ _ _. Unit {0})
              x
              t
      less a s (again b) t h = (tt, ground arith)
      less a s (finish v) t h = tt

  -- Where `linux_sendfile` always ends, so does `lsf`, with a result or an exception: it goes round
  -- at most twice, whatever `errno` a failure leaves.
  pub lsf-ends :
      Total
      → (src_off n : Value) (s : St W)
      → Sat ⊥ (λ _ _. Unit {0}) (λ _ _. Unit {0}) (lsf vm linux_sendfile dst src src_off n s)
  unfolding lsf
  lsf-ends total src_off n s =
      Sat-and_then ⊥ (λ _ _. Unit) _ (λ _ _. Unit)
        ((if is_nil src_off then pure none else (call (vm.num2long src_off) >>= λ o. pure (some o)))
          s)
        _ (ground arith)
        λ off t _.
          Sat-and_then ⊥ (λ _ _. Unit) _ (λ _ _. Unit) (call (vm.num2ulong n) t) _ (ground arith)
            λ count u _. lsf_rounds-end total count off u

module _ {W : Type 0} (vm : Vm W) (sys : SendfileCalls W) where
  -- The system call of Linux and the emulation over that of BSD end.
  pub native_sendfile-Total : (dst src : Value) → Total vm (native_sendfile sys) dst src
  unfolding native_sendfile
  native_sendfile-Total dst src out in' off count s = ground arith

  pub bsd_sendfile-Total : (dst src : Value) → Total vm (bsd_linux_sendfile sys) dst src
  unfolding bsd_linux_sendfile
  bsd_sendfile-Total dst src out in' off count s = ground arith
