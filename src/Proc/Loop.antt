-- ===== src/Proc/Loop.antt =====
-- The retry loops of the sources (`goto retry`, `for (;;)`, `do … while`) as one combinator on fuel.
use sleepy_penguin.Base.{ℕ, zero, suc, ◌<◌, ◌≡◌, refl, ◌∙◌, arith}
use sleepy_penguin.Proc.{St, Exn, Run, done, raise, crash, out_of_fuel, Cmd}
use sleepy_penguin.Proc.Sat.{Sat}

-- One round: go round again with new loop variables, or leave with a result.
pub data Step (C A : Type 0) : Type 0 where
  again : C → Step C A
  finish : A → Step C A

module _ {W C A : Type 0} where
  -- What follows a round.
  abbrev pub after_round : (C → Cmd W A) → Run W (Step C A) → Run W A
  after_round rest (done (again c) s) = rest c s
  after_round rest (done (finish a) s) = done a s
  after_round rest (raise e s) = raise e s
  after_round rest crash = crash
  after_round rest out_of_fuel = out_of_fuel

  unfoldable pub loop : ℕ → (C → Cmd W (Step C A)) → C → Cmd W A
  loop zero body c s = out_of_fuel
  loop (suc n) body c s = after_round (loop n body) (body c s)

  -- What is asked of one round: `I` again if it goes round, `Q` if it leaves.
  abbrev pub Keeps : (C → St W → Type 0) → (A → St W → Type 0) → Step C A → St W → Type 0
  Keeps I Q (again c) s = I c s
  Keeps I Q (finish a) s = Q a s

module _ {W C A : Type 0} (body : C → Cmd W (Step C A)) where
  pub loop-finish :
      (n : ℕ) (c : C) (s : St W) {a : A} {t : St W}
      → body c s ≡ done (finish a) t
      → loop (suc n) body c s ≡ done a t
  unfolding loop
  loop-finish n c s e = rw (e, loop)

  pub loop-raise :
      (n : ℕ) (c : C) (s : St W) {x : Exn} {t : St W}
      → body c s ≡ raise x t
      → loop (suc n) body c s ≡ raise x t
  unfolding loop
  loop-raise n c s e = rw (e, loop)

  pub loop-again :
      (n : ℕ) (c : C) (s : St W) {d : C} {t : St W}
      → body c s ≡ done (again d) t
      → loop (suc n) body c s ≡ loop n body d t
  unfolding loop
  loop-again n c s e = rw (e, loop)

  -- Rounds that all go round again.
  pub data Rounds : C → St W → C → St W → Type 0 where
    here : {c : C} {s : St W} → Rounds c s c s
    next :
        {c d e : C} {s t u : St W} → body c s ≡ done (again d) t → Rounds d t e u → Rounds c s e u

  -- `n` and one more for each round.
  pub fuel_for : {c d : C} {s t : St W} → Rounds c s d t → ℕ → ℕ
  fuel_for here n = n
  fuel_for (next e r) n = suc (fuel_for r n)

  pub loop-Rounds :
      {c d : C} {s t : St W} (r : Rounds c s d t) (n : ℕ)
      → loop (fuel_for r n) body c s ≡ loop n body d t
  unfolding fuel_for
  loop-Rounds here n = refl
  loop-Rounds (next {c} {d} {e} {s} q r) n = loop-again (fuel_for r n) c s q ∙ loop-Rounds r n

  -- `L` is what a round that has not ended may leave open: `⊥` for total correctness.
  after_round-Sat :
      (L : Type 0) (I : C → St W → Type 0) (Q : A → St W → Type 0) (E : Exn → St W → Type 0)
      (rest : C → Cmd W A) (r : Run W (Step C A))
      → Sat L (Keeps I Q) E r
      → ((c : C) (s : St W) → I c s → Sat L Q E (rest c s))
      → Sat L Q E (after_round rest r)
  after_round-Sat L I Q E rest (done (again c) s) h go = go c s h
  after_round-Sat L I Q E rest (done (finish a) s) h go = h
  after_round-Sat L I Q E rest (raise e s) h go = h
  after_round-Sat L I Q E rest crash h go = h
  after_round-Sat L I Q E rest out_of_fuel h go = h

  -- The invariant rule, for whatever fuel: a loop that still runs has kept the invariant.
  pub loop_inv :
      (I : C → St W → Type 0) (Q : A → St W → Type 0) (E : Exn → St W → Type 0)
      → ((c : C) (s : St W) → I c s → Sat (Unit {0}) (Keeps I Q) E (body c s))
      → (n : ℕ) (c : C) (s : St W) → I c s
      → Sat (Unit {0}) Q E (loop n body c s)
  unfolding loop
  loop_inv I Q E keep zero c s i = tt
  loop_inv I Q E keep (suc n) c s i =
      after_round-Sat Unit I Q E (loop n body) (body c s) (keep c s i) (loop_inv I Q E keep n)

  -- Total correctness: a measure that falls in each round and is below the fuel.
  pub loop_total :
      (I : C → St W → Type 0) (Q : A → St W → Type 0) (E : Exn → St W → Type 0)
      (measure : C → St W → ℕ)
      → ((c : C) (s : St W)
          → I c s
          → Sat ⊥ (Keeps (λ d t. I d t × (measure d t < measure c s)) Q) E (body c s))
      → (n : ℕ) (c : C) (s : St W) → measure c s < n
      → I c s
      → Sat ⊥ Q E (loop n body c s)
  unfolding loop
  loop_total I Q E measure keep zero c s m i = absurd (omega arith)
  loop_total I Q E measure keep (suc n) c s m i =
      after_round-Sat ⊥ (λ d t. I d t × (measure d t < measure c s)) Q E (loop n body) (body c s)
        (keep c s i) λ d t h. loop_total I Q E measure keep n d t (omega (arith, h.1)) h.0
