-- ===== src/Proc/Halts.antt =====
-- Runs that end, in a result, an exception or a crash: what is shown of a whole call by its parts,
-- where that it does not crash is shown by itself.
use sleepy_penguin.Proc.{
  returned, SysReply, syscall, fails, gives, Sys, out_of_fuel, crash, raise, done, cleaned,
  and_then, rb_ensure, Exn, Run, Cmd, St,
}
use sleepy_penguin.Proc.Sat.{Sat-both, Sat}
use sleepy_penguin.Base.{sym, subst, zero, refl, none, suc, arith, some, ◌<◌, ◌≡◌, Option, ◌≤◌, ℕ}
use sleepy_penguin.Proc.Patience.{Ends}
use sleepy_penguin.Proc.Loop.{finish, again, after_round, Keeps, Step, loop}
use sleepy_penguin.Proc.Quiet.{Quiet}

module _ {W A : Type 0} where
  -- The run does not run out of fuel; a result meets `Q`.
  abbrev pub Halts : (A → St W → Type 0) → Run W A → Type 0
  Halts Q (done a s) = Q a s
  Halts Q (raise e s) = Unit {0}
  Halts Q crash = Unit {0}
  Halts Q out_of_fuel = ⊥

  pub Halts-of :
      (Q : A → St W → Type 0) (E : Exn → St W → Type 0) (r : Run W A) → Sat ⊥ Q E r → Halts Q r
  Halts-of Q E (done a s) h = h
  Halts-of Q E (raise e s) h = tt
  Halts-of Q E crash h = tt
  Halts-of Q E out_of_fuel h = h

  -- No more interruptions are to come than there were at `s`.
  abbrev pub NoMore : (W → ℕ) → St W → A → St W → Type 0
  NoMore left s _ t = left t.world ≤ left s.world

  pub Halts-Ends : (left : W → ℕ) (s : St W) (r : Run W A) → Ends left s r → Halts (NoMore left s) r
  Halts-Ends left s r h = Halts-of (NoMore left s) (λ _ _. Unit) r h

  pub Halts-mono :
      (P Q : A → St W → Type 0) (r : Run W A)
      → Halts P r
      → ((a : A) (s : St W) → P a s → Q a s)
      → Halts Q r
  Halts-mono P Q (done a s) h f = f a s h
  Halts-mono P Q (raise e s) h f = tt
  Halts-mono P Q crash h f = tt
  Halts-mono P Q out_of_fuel h f = h

  -- A run that ends, and that does not crash whatever the fuel, is right in full.
  pub Halts-Sat :
      (P Q : A → St W → Type 0) (E : Exn → St W → Type 0) (r : Run W A)
      → Sat (Unit {0}) P E r
      → Halts Q r
      → Sat ⊥ (λ a s. Q a s × P a s) E r
  Halts-Sat P Q E (done a s) h k = (k, h)
  Halts-Sat P Q E (raise e s) h k = h
  Halts-Sat P Q E crash h k = h
  Halts-Sat P Q E out_of_fuel h k = k

  -- A run that ends, and that is right whatever the fuel where it returns.
  pub Halts-right :
      (P Q : A → St W → Type 0) (E F : Exn → St W → Type 0) (r : Run W A)
      → Sat ⊥ P E r
      → Sat (Unit {0}) Q F r
      → Halts Q r
  Halts-right P Q E F (done a s) h k = k
  Halts-right P Q E F (raise e s) h k = tt
  Halts-right P Q E F crash h k = tt
  Halts-right P Q E F out_of_fuel h k = h

module _ {W A B : Type 0} where
  pub Halts-and_then :
      (P : A → St W → Type 0) (Q : B → St W → Type 0) (r : Run W A) (k : A → Cmd W B)
      → Halts P r
      → ((a : A) (s : St W) → P a s → Halts Q (k a s))
      → Halts Q (and_then r k)
  Halts-and_then P Q (done a s) k h next = next a s h
  Halts-and_then P Q (raise e s) k h next = tt
  Halts-and_then P Q crash k h next = tt
  Halts-and_then P Q out_of_fuel k h next = h

module _ {W A B : Type 0} where
  -- Under `rb_ensure`, for a clean-up that leaves the world outside as it is and a postcondition
  -- that is about the value and that world.
  pub Halts-ensure :
      (Q : A → W → Type 0) (body : Cmd W A) (clean : Cmd W B) (s : St W)
      → Halts (λ a t. Q a t.world) (body s)
      → ((t : St W) → Halts (λ _ u. u.world ≡ t.world) (clean t))
      → Halts (λ a t. Q a t.world) (rb_ensure body clean s)
  Halts-ensure Q body clean s h c = go (body s) h
    where
      go :
          (r : Run W A)
          → Halts (λ a t. Q a t.world) r
          → Halts (λ a t. Q a t.world) (cleaned r clean)
      go (done a t) h =
          Halts-and_then (λ _ u. u.world ≡ t.world) (λ a u. Q a u.world) (clean t) (λ _ u. done a u)
            (c t) (λ _ u k. subst (Q a) (sym k) h)
      go (raise e t) h =
          Halts-and_then (λ _ u. u.world ≡ t.world) (λ a u. Q a u.world) (clean t)
            (λ _ u. raise e u) (c t) (λ _ u k. tt)
      go crash h = tt
      go out_of_fuel h = h

module _ {W A B : Type 0} where
  -- A system call and what follows it, by its reply.
  pub Halts-syscall :
      (Q : B → St W → Type 0) (f : Sys W A) (s : St W) (k : Option A → Cmd W B)
      → ((a : A) (w : W) → f s.world ≡ gives a w → Halts Q (k (some a) (record s { world = w })))
      → ((e : ℕ) (w : W)
          → f s.world ≡ fails e w
          → Halts Q (k none (record s { errno = e; world = w })))
      → Halts Q (and_then (syscall f s) k)
  Halts-syscall Q f s k good bad = go (f s.world) refl
    where
      go : (r : SysReply W A) → f s.world ≡ r → Halts Q (and_then (returned s r) k)
      go (gives a w) h = good a w h
      go (fails e w) h = bad e w h

module _ {W V : Type 0} (left : W → ℕ) (view : W → V) where
  -- No more interruptions are to come, and the view of the world is the same.
  abbrev pub Unmoved : {A : Type 0} → St W → A → St W → Type 0
  Unmoved s _ t = (left t.world ≤ left s.world) × (view t.world ≡ view s.world)

  pub Halts-Unmoved :
      {A : Type 0} (m : Cmd W A) (s : St W)
      → Ends left s (m s)
      → Quiet view m
      → Halts (Unmoved s) (m s)
  Halts-Unmoved m s h q =
      Halts-of (Unmoved s) (λ _ _. Unit) (m s)
        (Sat-both ⊥ Unit (λ _ t. left t.world ≤ left s.world) (λ _ t. view t.world ≡ view s.world)
          (λ _ _. Unit) (λ _ t. view t.world ≡ view s.world) (m s) h (q.run s))

module _ {W C A : Type 0} (left : W → ℕ) (Q : A → St W → Type 0) where
  -- What is asked of a round from `s`: fewer interruptions to come where it goes round again.
  abbrev pub RoundHalts : St W → Run W (Step C A) → Type 0
  RoundHalts s r = Halts (Keeps (λ _ t. left t.world < left s.world) Q) r

  after_round-Halts :
      (s : St W) (rest : C → Cmd W A) (r : Run W (Step C A))
      → RoundHalts s r
      → ((c : C) (t : St W) → left t.world < left s.world → Halts Q (rest c t))
      → Halts Q (after_round rest r)
  after_round-Halts s rest (done (again d) t) h next = next d t h
  after_round-Halts s rest (done (finish a) t) h next = h
  after_round-Halts s rest (raise e t) h next = tt
  after_round-Halts s rest crash h next = tt
  after_round-Halts s rest out_of_fuel h next = h

  -- A loop whose every round ends, with fuel for each interruption.
  pub Halts-loop :
      (body : C → Cmd W (Step C A))
      → ((c : C) (s : St W) → RoundHalts s (body c s))
      → (n : ℕ) (c : C) (s : St W) → left s.world < n
      → Halts Q (loop n body c s)
  unfolding loop
  Halts-loop body each zero c s m = absurd (omega arith)
  Halts-loop body each (suc n) c s m =
      after_round-Halts s (loop n body) (body c s) (each c s)
        λ d t less. Halts-loop body each n d t (omega arith)
