-- ===== src/Copy/Accounts.antt =====
-- What `splice`, `tee` and `copy_file_range` report against what the kernel has moved.
use sleepy_penguin.Base.{
  if◌then◌else◌, some, ◌∙◌, arith, refl, inr, inl, ◌==◌, ℤ, Bool-cases, ◌⊎◌, String, pos, ◌+◌, ◌≡◌,
  ℕ,
}
use sleepy_penguin.Copy.{
  cfr_round, tee_round, splice_round, offset_arg, sym_eagain, moved, copy_failed, check_fileno,
  Copied, CopyArgs, CopyCalls,
}
use sleepy_penguin.Proc.{rb_sys_fail, pure, ◌>>=◌, get_errno, and_then, fails, gives, Cmd, Run, St}
use sleepy_penguin.Ruby.{is_nil, qnil, fixnum, Value, Vm}
use sleepy_penguin.Util.Quiet.{fileno-Quiet, QuietVm}
use sleepy_penguin.Proc.Loop.{again, Keeps, Step}
use sleepy_penguin.Proc.Quiet.{Quiet-call, Seen, Seen-trans, Quiet-pure, Quiet-bind, Quiet}
use sleepy_penguin.Proc.Sat.{Sat-syscall, Sat-and_then, Sat}
use sleepy_penguin.Base.Errno.{eagain, eintr}
use sleepy_penguin.Util.{rb_sp_fileno}

-- The bytes that the kernel has moved so far: a call that succeeds adds what it says, one that fails
-- adds nothing.
pub record Moving {W : Type 0} (total : W → ℕ) (sys : CopyCalls W) : Type 0 where
  pub spliced :
      (a : CopyArgs) (w : W) (c : Copied) (w' : W)
      → sys.splice a w ≡ gives c w'
      → total w' ≡ total w + c.bytes
  pub splice_failed :
      (a : CopyArgs) (w : W) (e : ℕ) (w' : W) → sys.splice a w ≡ fails e w' → total w' ≡ total w
  pub teed :
      (i o : ℤ) (n f : ℕ) (w : W) (b : ℕ) (w' : W)
      → sys.tee i o n f w ≡ gives b w'
      → total w' ≡ total w + b
  pub tee_failed :
      (i o : ℤ) (n f : ℕ) (w : W) (e : ℕ) (w' : W)
      → sys.tee i o n f w ≡ fails e w'
      → total w' ≡ total w
  pub copied :
      (a : CopyArgs) (w : W) (c : Copied) (w' : W)
      → sys.copy_file_range a w ≡ gives c w'
      → total w' ≡ total w + c.bytes
  pub copy_failed :
      (a : CopyArgs) (w : W) (e : ℕ) (w' : W)
      → sys.copy_file_range a w ≡ fails e w'
      → total w' ≡ total w

module _ {W : Type 0} (total : W → ℕ) where
  -- The number returned is what was moved; nil and `:EAGAIN` stand for nothing.
  abbrev pub Accounts : St W → Value → St W → Type 0
  Accounts s v t =
      ((n : ℕ) × (v ≡ fixnum (pos n)) × (total t.world ≡ total s.world + n))
      ⊎ (((v ≡ qnil) ⊎ (v ≡ sym_eagain)) × (total t.world ≡ total s.world))

  abbrev pub Still : St W → St W → Type 0
  Still s t = total t.world ≡ total s.world

module _ {W : Type 0} (total : W → ℕ) (vm : Vm W) (quiet : QuietVm total vm) (sys : CopyCalls W)
    (moving : Moving total sys) where
  abbrev pub Round : {C : Type 0} → St W → Run W (Step C Value) → Type 0
  Round s r =
      Sat (Unit {0}) (Keeps (λ _ t. Still total s t) (Accounts total s)) (λ _ t. Still total s t) r

  -- Work in front that moves nothing.
  pub still_then :
      {A B : Type 0} (Q : B → St W → Type 0) (s t : St W) (m : Cmd W A) (k : A → Cmd W B)
      → Quiet total m
      → Still total s t
      → ((a : A) (u : St W) → Still total s u → Sat (Unit {0}) Q (λ _ u. Still total s u) (k a u))
      → Sat (Unit {0}) Q (λ _ u. Still total s u) (and_then (m t) k)
  still_then Q s t m k q h next =
      Sat-and_then Unit (λ _ u. Still total s u) Q (λ _ u. Still total s u) (m t) k
        (Seen-trans total s t (m t) h (q.run t)) next

  check-Quiet : (io : Value) → Quiet total (check_fileno vm sys io)
  unfolding check_fileno
  check-Quiet io = record {
    run = λ s.
        Sat-and_then Unit (λ _ t. Seen total s t) (λ _ t. Seen total s t) (λ _ t. Seen total s t)
          (rb_sp_fileno vm io s) _ ((fileno-Quiet total vm quiet io).run s) (λ fd t h. h);
  }

  moved-Accounts :
      (n : ℕ) (s t : St W) → total t.world ≡ total s.world + n → Accounts total s (moved vm sys n) t
  moved-Accounts n s t h = elim (Bool-cases (n == 0)) [
    | inl e ↦ rw e (inr (inl refl, ground (arith, h)))
    | inr e ↦ rw e (inl (n, refl, h))
  ]

  failed-Round :
      {C : Type 0} (args : C) (what : String) (s t : St W)
      → Still total s t
      → Round s (copy_failed vm sys args what t)
  unfolding copy_failed
  failed-Round args what s t h = elim (Bool-cases (t.errno == eintr)) [
    | inl e ↦ rw e h
    | inr e ↦ rw e (elim (Bool-cases (t.errno == eagain)) [
      | inl f ↦ rw f (inr (inr refl, h))
      | inr f ↦ rw f h
    ])
  ]

  pub offset-Quiet : (v : Value) → Quiet total (offset_arg vm sys v)
  offset-Quiet v = record {
    run = λ s. elim (Bool-cases (is_nil v)) [
      | inl e ↦ rw e refl
      | inr e ↦ rw e (
          (Quiet-bind total (Quiet-call total _ (quiet.num2long v))
              (λ o. Quiet-pure total (some o))).run
            s)
    ];
  }

  -- A round takes its descriptors and makes its call.
  module _ (io_in io_out : Value) where
    pub splice-Round :
        (s t : St W) (args : CopyArgs)
        → Still total s t
        → Round s (splice_round vm sys io_in io_out args t)
    unfolding splice_round
    splice-Round s t args h =
        still_then _ s t (check_fileno vm sys io_in) _ (check-Quiet io_in) h λ i u hu.
          still_then _ s u (check_fileno vm sys io_out) _ (check-Quiet io_out) hu λ o x hx.
            Sat-syscall Unit _ _ (sys.splice _) x _
              (λ c w q.
                moved-Accounts c.bytes s (record x { world = w })
                  (omega (arith, moving.spliced _ x.world c w q, hx)))
              (λ e w q.
                failed-Round _ "splice" s (record x { errno = e; world = w })
                  (moving.splice_failed _ x.world e w q ∙ hx))

    pub tee-Round :
        (s t : St W) (args : ℕ × ℕ)
        → Still total s t
        → Round s (tee_round vm sys io_in io_out args t)
    unfolding tee_round
    tee-Round s t (n, f) h =
        still_then _ s t (check_fileno vm sys io_in) _ (check-Quiet io_in) h λ i u hu.
          still_then _ s u (check_fileno vm sys io_out) _ (check-Quiet io_out) hu λ o x hx.
            Sat-syscall Unit _ _ (sys.tee i o n f) x _
              (λ b w q.
                moved-Accounts b s (record x { world = w })
                  (omega (arith, moving.teed i o n f x.world b w q, hx)))
              (λ e w q.
                failed-Round {C = ℕ × ℕ} (n, f) "tee" s (record x { errno = e; world = w })
                  (moving.tee_failed i o n f x.world e w q ∙ hx))

    cfr_failed-Round :
        (args : CopyArgs) (s t : St W)
        → Still total s t
        → Round s (
            (get_errno >>= λ e.
            if e == eintr then pure (again args) else rb_sys_fail "copy_file_range")
              t)
    cfr_failed-Round args s t h = elim (Bool-cases (t.errno == eintr)) [
      | inl e ↦ rw e h
      | inr e ↦ rw e h
    ]

    pub cfr-Round :
        (s t : St W) (args : CopyArgs)
        → Still total s t
        → Round s (cfr_round vm sys io_in io_out args t)
    unfolding cfr_round
    cfr-Round s t args h =
        still_then _ s t (rb_sp_fileno vm io_in) _ (fileno-Quiet total vm quiet io_in) h λ i u hu.
          still_then _ s u (rb_sp_fileno vm io_out) _ (fileno-Quiet total vm quiet io_out) hu
            λ o x hx.
              Sat-syscall Unit _ _ (sys.copy_file_range _) x _
                (λ c w q. inl (c.bytes, refl, omega (arith, moving.copied _ x.world c w q, hx)))
                (λ e w q.
                  cfr_failed-Round args s (record x { errno = e; world = w })
                    (moving.copy_failed _ x.world e w q ∙ hx))
