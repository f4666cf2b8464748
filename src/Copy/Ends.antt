-- ===== src/Copy/Ends.antt =====
-- The loops of `splice`, `tee` and `copy_file_range` where the world interrupts finitely often.
use sleepy_penguin.Base.{
  if◌then◌else◌, refl, inr, pos, inl, arith, ◌==◌, ◌≤◌, ◌⊎◌, ℤ, Bool-cases, ◌<◌, String, ◌≡◌, ℕ,
}
use sleepy_penguin.Ruby.{fixnum, is_nil, qnil, Value, Vm}
use sleepy_penguin.Util.Ends.{fileno-Ends, CalmVm}
use sleepy_penguin.Copy.{
  rb_sp_cfr, cfr_round, sym_eagain, offset_arg, CopyArgs, my_tee, my_splice, tee_round,
  splice_round, moved, copy_failed, check_fileno, CopyCalls,
}
use sleepy_penguin.Proc.{rb_sys_fail, pure, ◌>>=◌, get_errno, and_then, Cmd, Run, St}
use sleepy_penguin.Proc.Patience.{
  loop-Ends, call-Ends, Ends-then, syscall_cases, IsSpent, Ends-and_then, Ends,
}
use sleepy_penguin.Proc.Loop.{finish, again, Keeps, Step}
use sleepy_penguin.Proc.Sat.{Sat-mono, Sat-and_then, Sat}
use sleepy_penguin.Base.Errno.{eagain, eintr}

module _ {W : Type 0} (left : W → ℕ) (vm : Vm W) (calm : CalmVm left vm) (sys : CopyCalls W) where
  -- What a copy returns: nil at the end of the input, a number of bytes, or `:EAGAIN`.
  abbrev pub IsCopied : Value → St W → Type 0
  IsCopied v t =
      (v ≡ qnil) ⊎ (((n : ℕ) × (v ≡ fixnum (pos n))) ⊎ ((v ≡ sym_eagain) × (t.errno ≡ eagain)))

  -- A round that ends, and uses up an interruption where it goes round again.
  abbrev Round : {C : Type 0} → (Value → St W → Type 0) → St W → Run W (Step C Value) → Type 0
  Round Q s r = Sat ⊥ (Keeps (λ _ t. left t.world < left s.world) Q) (λ _ _. Unit {0}) r

  check-Ends : (io : Value) (s : St W) → Ends left s (check_fileno vm sys io s)
  unfolding check_fileno
  check-Ends io s = Ends-and_then left s _ _ (fileno-Ends left vm calm io s) λ fd t. omega arith

  -- A round may do work that ends before its system call.
  Round-then :
      {A C : Type 0} (Q : Value → St W → Type 0) (s : St W) (r : Run W A)
      (k : A → Cmd W (Step C Value))
      → Ends left s r
      → ((a : A) (t : St W) → left t.world ≤ left s.world → Round Q t (k a t))
      → Round Q s (and_then r k)
  Round-then {A} {C} Q s r k h next =
      Sat-and_then ⊥ (λ _ t. left t.world ≤ left s.world) _ (λ _ _. Unit) r k h
        λ a t le.
          Sat-mono ⊥ ⊥ _ _ (λ _ _. Unit) (λ _ _. Unit) (k a t) (next a t le) (λ l. l)
            (weaken s t le) (λ e u h. h)
    where
      weaken :
          (s t : St W)
          → left t.world ≤ left s.world
          → (x : Step C Value) (u : St W) → Keeps (λ _ u. left u.world < left t.world) Q x u
          → Keeps (λ _ u. left u.world < left s.world) Q x u
      weaken s t le (again c) u h = omega arith
      weaken s t le (finish v) u h = h

  failed-Ends :
      {C : Type 0} (args : C) (what : String) (bound : ℕ) (s : St W)
      → left s.world < bound
      → Sat ⊥
          (Keeps (λ _ t. left t.world < bound) IsCopied)
          (λ _ _. Unit {0})
          (copy_failed vm sys args what s)
  unfolding copy_failed
  failed-Ends args what bound s m = elim (Bool-cases (s.errno == eintr)) [
    | inl e ↦ rw e m
    | inr e ↦ rw e (elim (Bool-cases (s.errno == eagain)) [
      | inl f ↦ rw f (inr (inr (refl, ground arith)))
      | inr f ↦ rw f tt
    ])
  ]

  moved-IsCopied : (n : ℕ) (t : St W) → IsCopied (moved vm sys n) t
  moved-IsCopied n t = elim (Bool-cases (n == 0)) [
    | inl e ↦ rw e (inl refl)
    | inr e ↦ rw e (inr (inl (n, refl)))
  ]

  module _ (io_in io_out : Value) where
    splice_round-Ends :
        (args : CopyArgs) (s : St W)
        → ((a : CopyArgs) → IsSpent left (sys.splice a))
        → Round IsCopied s (splice_round vm sys io_in io_out args s)
    unfolding splice_round
    splice_round-Ends args s spent = Round-then IsCopied s _ _ (check-Ends io_in s) λ i t le.
        Round-then IsCopied t _ _ (check-Ends io_out t) λ o u le2.
          syscall_cases left IsCopied _ _ u _ (spent _)
            (λ c w. moved-IsCopied c.bytes (record u { world = w }))
            (λ e w less.
              failed-Ends args "splice" (left u.world) (record u { errno = e; world = w }) less)

    tee_round-Ends :
        (args : ℕ × ℕ) (s : St W)
        → ((i o : ℤ) (n f : ℕ) → IsSpent left (sys.tee i o n f))
        → Round IsCopied s (tee_round vm sys io_in io_out args s)
    unfolding tee_round
    tee_round-Ends (n, f) s spent = Round-then IsCopied s _ _ (check-Ends io_in s) λ i t le.
        Round-then IsCopied t _ _ (check-Ends io_out t) λ o u le2.
          syscall_cases left IsCopied _ _ u _ (spent i o n f)
            (λ b w. moved-IsCopied b (record u { world = w }))
            (λ e w less.
              failed-Ends {C = ℕ × ℕ} (n, f) "tee" (left u.world)
                (record u { errno = e; world = w }) less)

    offset-Ends : (v : Value) (s : St W) → Ends left s (offset_arg vm sys v s)
    offset-Ends v s = elim (Bool-cases (is_nil v)) [
      | inl e ↦ rw e (omega arith)
      | inr e ↦
          rw e (Ends-and_then left s _ _ (call-Ends left _ s (calm.num2long v)) λ o t. omega arith)
    ]

    -- Where the world interrupts finitely often, and there is fuel for each interruption, `splice`
    -- returns nil, a number of bytes, or `:EAGAIN` with `errno` at EAGAIN; or it raises.
    pub splice-Ends :
        (fuel : ℕ) (off_in off_out len flags : Value) (s : St W)
        → ((a : CopyArgs) → IsSpent left (sys.splice a))
        → left s.world < fuel
        → Sat ⊥ IsCopied
            (λ _ _. Unit {0})
            (my_splice vm sys fuel io_in off_in io_out off_out len flags s)
    unfolding my_splice
    splice-Ends fuel off_in off_out len flags s spent m =
        Ends-then left IsCopied s _ _ (offset-Ends off_in s) λ i t le.
          Ends-then left IsCopied t _ _ (offset-Ends off_out t) λ o u le2.
            Ends-then left IsCopied u _ _ (call-Ends left _ u (calm.num2ulong len)) λ n x le3.
              Ends-then left IsCopied x _ _ (call-Ends left _ x (calm.num2uint flags)) λ f y le4.
                loop-Ends left IsCopied _ _ fuel _ y (omega arith)
                  λ c z. splice_round-Ends c z spent

    -- Where the world interrupts finitely often, and there is fuel for each interruption, `tee`
    -- returns nil, a number of bytes, or `:EAGAIN` with `errno` at EAGAIN; or it raises.
    pub tee-Ends :
        (fuel : ℕ) (len flags : Value) (s : St W)
        → ((i o : ℤ) (n f : ℕ) → IsSpent left (sys.tee i o n f))
        → left s.world < fuel
        → Sat ⊥ IsCopied (λ _ _. Unit {0}) (my_tee vm sys fuel io_in io_out len flags s)
    unfolding my_tee
    tee-Ends fuel len flags s spent m =
        Ends-then left IsCopied s _ _ (call-Ends left _ s (calm.num2ulong len)) λ n t le.
          Ends-then left IsCopied t _ _ (call-Ends left _ t (calm.num2uint flags)) λ f u le2.
            loop-Ends left IsCopied _ _ fuel _ u (omega arith) λ c z. tee_round-Ends c z spent

    -- What `copy_file_range` returns: the number of bytes, 0 at the end of the input.
    abbrev pub IsNumber : Value → St W → Type 0
    IsNumber v t = (n : ℕ) × (v ≡ fixnum (pos n))

    cfr_failed-Ends :
        (args : CopyArgs) (bound : ℕ) (s : St W)
        → left s.world < bound
        → Sat ⊥
            (Keeps (λ _ t. left t.world < bound) IsNumber)
            (λ _ _. Unit {0})
            ((get_errno >>= λ e.
                if e == eintr then pure (again args) else rb_sys_fail "copy_file_range")
              s)
    cfr_failed-Ends args bound s m = elim (Bool-cases (s.errno == eintr)) [
      | inl e ↦ rw e m
      | inr e ↦ rw e tt
    ]

    cfr_round-Ends :
        (args : CopyArgs) (s : St W)
        → ((a : CopyArgs) → IsSpent left (sys.copy_file_range a))
        → Sat ⊥
            (Keeps (λ _ t. left t.world < left s.world) IsNumber)
            (λ _ _. Unit {0})
            (cfr_round vm sys io_in io_out args s)
    unfolding cfr_round
    cfr_round-Ends args s spent =
        Round-then IsNumber s _ _ (fileno-Ends left vm calm io_in s) λ i t le.
          Round-then IsNumber t _ _ (fileno-Ends left vm calm io_out t) λ o u le2.
            syscall_cases left IsNumber _ _ u _ (spent _) (λ c w. (c.bytes, refl))
              (λ e w less.
                cfr_failed-Ends _ (left u.world) (record u { errno = e; world = w }) less)

    -- Where the world interrupts finitely often, and there is fuel for each interruption,
    -- `copy_file_range` returns a number of bytes, or it raises, also at EAGAIN.
    pub cfr-Ends :
        (fuel : ℕ) (off_in off_out len flags : Value) (s : St W)
        → ((a : CopyArgs) → IsSpent left (sys.copy_file_range a))
        → left s.world < fuel
        → Sat ⊥ IsNumber
            (λ _ _. Unit {0})
            (rb_sp_cfr vm sys fuel io_in off_in io_out off_out len flags s)
    unfolding rb_sp_cfr
    cfr-Ends fuel off_in off_out len flags s spent m =
        Ends-then left IsNumber s _ _ (offset-Ends off_in s) λ i t le.
          Ends-then left IsNumber t _ _ (offset-Ends off_out t) λ o u le2.
            Ends-then left IsNumber u _ _ (call-Ends left _ u (calm.num2ulong len)) λ n x le3.
              Ends-then left IsNumber x _ _ (call-Ends left _ x (calm.num2uint flags)) λ f y le4.
                loop-Ends left IsNumber _ _ fuel _ y (omega arith) λ c z. cfr_round-Ends c z spent
