-- ===== src/Proc/Patience.antt =====
-- Termination of the retry loops. The world outside interrupts a loop finitely often: `left` bounds
-- the interruptions still to come, a system call that fails uses one up, and no call adds to them.
use sleepy_penguin.Base.{refl, none, some, Option, ◌<◌, ◌≤◌, arith, ◌≡◌, ℕ}
use sleepy_penguin.Proc.{
  Exn, gives, returned, SysReply, syscall, throws, replied, Reply, out_of_fuel, crash, raise, done,
  and_then, Cmd, fails, yields, call, Run, St, Sys, Ext,
}
use sleepy_penguin.Proc.Sat.{Sat-and_then, Sat-mono, Sat}
use sleepy_penguin.Proc.Loop.{loop_total, finish, again, loop, Keeps, Step}

-- A call into Ruby adds no interruption.
abbrev pub IsCalm : {W A : Type 0} → (W → ℕ) → Ext W A → Type 0
IsCalm left f =
    (e : ℕ) (w : _) (a : _) (e' : ℕ) (w' : _) → f e w ≡ yields a e' w' → left w' ≤ left w

-- A system call that fails has used one up.
abbrev pub IsSpent : {W A : Type 0} → (W → ℕ) → Sys W A → Type 0
IsSpent left f = (w : _) (e : ℕ) (w' : _) → f w ≡ fails e w' → left w' < left w

-- A system call that adds no interruption.
abbrev pub IsCalmSys : {W A : Type 0} → (W → ℕ) → Sys W A → Type 0
IsCalmSys left f =
    ((w : _) (a : _) (w' : _) → f w ≡ gives a w' → left w' ≤ left w)
    × ((w : _) (e : ℕ) (w' : _) → f w ≡ fails e w' → left w' ≤ left w)

-- The run ends, and leaves no more interruptions to come than there were.
abbrev pub Ends : {W A : Type 0} → (W → ℕ) → St W → Run W A → Type 0
Ends left s r = Sat ⊥ (λ _ t. left t.world ≤ left s.world) (λ _ _. Unit {0}) r

module _ {W : Type 0} (left : W → ℕ) where
  pub call-Ends : {A : Type 0} (f : Ext W A) (s : St W) → IsCalm left f → Ends left s (call f s)
  call-Ends {A} f s calm = go (f s.errno s.world) refl
    where
      go : (r : Reply W A) → f s.errno s.world ≡ r → Ends left s (replied s r)
      go (yields a e w) q = calm s.errno s.world a e w q
      go (throws x e w) q = tt

  -- A system call is followed by what is done with its value, or by what is done at its failure,
  -- which has an interruption less to come.
  pub syscall_cases :
      {A C D : Type 0} (Q : D → St W → Type 0) (E : Exn → St W → Type 0) (f : Sys W A) (s : St W)
      (k : Option A → Cmd W (Step C D))
      → IsSpent left f
      → ((a : A) (w : W)
          → Sat ⊥
              (Keeps (λ _ t. left t.world < left s.world) Q)
              E
              (k (some a) (record s { world = w })))
      → ((e : ℕ) (w : W)
          → left w < left s.world
          → Sat ⊥
              (Keeps (λ _ t. left t.world < left s.world) Q)
              E
              (k none (record s { errno = e; world = w })))
      → Sat ⊥ (Keeps (λ _ t. left t.world < left s.world) Q) E (and_then (syscall f s) k)
  syscall_cases {A} Q E f s k spent good bad = go (f s.world) refl
    where
      go :
          (r : SysReply W A)
          → f s.world ≡ r
          → Sat ⊥ (Keeps (λ _ t. left t.world < left s.world) Q) E (and_then (returned s r) k)
      go (gives a w) q = good a w
      go (fails e w) q = bad e w (spent s.world e w q)

  -- A loop whose every round ends, and uses up an interruption where it goes round again, ends.
  pub loop-Ends :
      {C A : Type 0} (Q : A → St W → Type 0) (E : Exn → St W → Type 0) (body : C → Cmd W (Step C A))
      (n : ℕ) (c : C) (s : St W)
      → left s.world < n
      → ((c : C) (s : St W) → Sat ⊥ (Keeps (λ _ t. left t.world < left s.world) Q) E (body c s))
      → Sat ⊥ Q E (loop n body c s)
  loop-Ends {C} {A} Q E body n c s m each =
      loop_total body (λ _ _. Unit {0}) Q E (λ _ t. left t.world)
        (λ c s _. Sat-mono ⊥ ⊥ _ _ E E (body c s) (each c s) (λ l. l) (less s) (λ e t h. h)) n c s m
        tt
    where
      less :
          (s : St W) (x : Step C A) (t : St W)
          → Keeps (λ _ t. left t.world < left s.world) Q x t
          → Keeps (λ _ t. Unit {0} × (left t.world < left s.world)) Q x t
      less s (again c) t h = (tt, h)
      less s (finish a) t h = h

  pub syscall-Ends :
      {A : Type 0} (f : Sys W A) (s : St W) → IsCalmSys left f → Ends left s (syscall f s)
  syscall-Ends {A} f s calm = go (f s.world) refl
    where
      go : (r : SysReply W A) → f s.world ≡ r → Ends left s (returned s r)
      go (gives a w) q = calm.0 s.world a w q
      go (fails e w) q = calm.1 s.world e w q

  -- Work that ends may stand in front.
  pub Ends-then :
      {A B : Type 0} (Q : B → St W → Type 0) (s : St W) (r : Run W A) (k : A → Cmd W B)
      → Ends left s r
      → ((a : A) (t : St W) → left t.world ≤ left s.world → Sat ⊥ Q (λ _ _. Unit {0}) (k a t))
      → Sat ⊥ Q (λ _ _. Unit {0}) (and_then r k)
  Ends-then Q s r k h next =
      Sat-and_then ⊥ (λ _ t. left t.world ≤ left s.world) Q (λ _ _. Unit {0}) r k h next

  pub Ends-and_then :
      {A B : Type 0} (s : St W) (r : Run W A) (k : A → Cmd W B)
      → Ends left s r
      → ((a : A) (t : St W) → Ends left t (k a t))
      → Ends left s (and_then r k)
  Ends-and_then s (done a t) k h next =
      Sat-mono ⊥ ⊥ (λ _ u. left u.world ≤ left t.world) (λ _ u. left u.world ≤ left s.world)
        (λ _ _. Unit {0}) (λ _ _. Unit {0}) (k a t) (next a t) (λ l. l) (λ b u m. omega arith)
        (λ e u m. tt)
  Ends-and_then s (raise e t) k h next = tt
  Ends-and_then s crash k h next = h
  Ends-and_then s out_of_fuel k h next = h
