-- ===== src/Util/Yields.antt =====
-- How often a function calls its block.
use sleepy_penguin.Base.{arith, refl, ◌+◌, ap, pos, suc, ◌∙◌, ◌≡◌, List, ℕ}
use sleepy_penguin.Ruby.{fixnum, Value, Vm}
use sleepy_penguin.Proc.{done, call, and_then, yields, Run, St, Cmd}
use sleepy_penguin.Proc.Quiet.{IsQuiet, Quiet}
use sleepy_penguin.Proc.Sat.{Sat-call, Sat-mono, Sat-and_then, Sat}
use sleepy_penguin.Proc.Halts.{Halts-mono, Halts}

-- What a count of the calls of the block relies on: each that returns adds one to it, and no
-- conversion of a number changes it.
pub record IsYieldCount {W : Type 0} (yielded : W → ℕ) (vm : Vm W) : Type 0 where
  pub rb_yield_values :
      (vs : List Value) (e : ℕ) (w : W) (a : Unit {0}) (e' : ℕ) (w' : W)
      → vm.rb_yield_values vs e w ≡ yields a e' w'
      → yielded w' ≡ suc (yielded w)
  pub num2int : (v : Value) → IsQuiet yielded (vm.num2int v)
  pub num2short : (v : Value) → IsQuiet yielded (vm.num2short v)
  pub num2ushort : (v : Value) → IsQuiet yielded (vm.num2ushort v)

module _ {W : Type 0} (yielded : W → ℕ) where
  -- The value is the number of times that the block has returned since `w`.
  abbrev pub Yielded : W → Value → W → Type 0
  Yielded w v w' = (n : ℕ) × (v ≡ fixnum (pos n)) × (yielded w' ≡ yielded w + n)

  pub Yielded-since :
      (w w1 : W) (v : Value) (w' : W) → yielded w1 ≡ yielded w → Yielded w1 v w' → Yielded w v w'
  Yielded-since w w1 v w' e (n, p, q) = (n, p, q ∙ ap (λ x. x + n) e)

  -- After work that does not call the block.
  pub Yielded-after :
      {A : Type 0} {m : Cmd W A} (k : A → Cmd W Value) (s : St W)
      → Quiet yielded m
      → ((a : A) (t : St W)
          → Sat (Unit {0}) (λ v u. Yielded t.world v u.world) (λ _ _. Unit {0}) (k a t))
      → Sat (Unit {0}) (λ v u. Yielded s.world v u.world) (λ _ _. Unit {0}) (and_then (m s) k)
  Yielded-after {m} k s q next =
      Sat-and_then Unit (λ _ t. yielded t.world ≡ yielded s.world)
        (λ v u. Yielded s.world v u.world) (λ _ _. Unit) (m s) k
        (Sat-mono Unit Unit (λ _ t. yielded t.world ≡ yielded s.world) _
          (λ _ t. yielded t.world ≡ yielded s.world) (λ _ _. Unit) (m s) (q.run s) (λ l. l)
          (λ a t h. h) (λ e t h. tt))
        λ a t h.
          Sat-mono Unit Unit (λ v u. Yielded t.world v u.world) _ (λ _ _. Unit) (λ _ _. Unit)
            (k a t) (next a t) (λ l. l) (λ v u. Yielded-since s.world t.world v u.world h)
            (λ e u h. tt)

  -- A run from `s` that has called the block `n` times where it returns.
  abbrev pub Calls : ℕ → St W → Run W (Unit {0}) → Type 0
  Calls n s r = Sat (Unit {0}) (λ _ t. yielded t.world ≡ yielded s.world + n) (λ _ _. Unit {0}) r

  -- What a function with a block returns from a state, where it returns: how often the block has.
  abbrev pub Post : St W → Value → St W → Type 0
  Post s v t = Yielded s.world v t.world

  -- The same from an earlier state, where no call of the block was between.
  pub Halts-since :
      (s s1 : St W) (r : Run W Value)
      → yielded s1.world ≡ yielded s.world
      → Halts (Post s1) r
      → Halts (Post s) r
  Halts-since s s1 r e h =
      Halts-mono (Post s1) (Post s) r h λ v t. Yielded-since s.world s1.world v t.world e

module _ {W : Type 0} (yielded : W → ℕ) (vm : Vm W) (counts : IsYieldCount yielded vm) where
  -- One call of the block and what follows it.
  pub Calls-suc :
      (n : ℕ) (vs : List Value) (rest : Cmd W (Unit {0})) (s : St W)
      → ((t : St W) → Calls yielded n t (rest t))
      → Calls yielded (suc n) s (and_then (call (vm.rb_yield_values vs) s) (λ _. rest))
  Calls-suc n vs rest s h =
      Sat-call Unit (λ _ t. yielded t.world ≡ yielded s.world + suc n) (λ _ _. Unit)
        (vm.rb_yield_values vs) s _
        (λ a e w q.
          let one : yielded w ≡ suc (yielded s.world) =
            counts.rb_yield_values vs s.errno s.world a e w q in
          Sat-mono Unit Unit (λ _ t. yielded t.world ≡ yielded w + n)
            (λ _ t. yielded t.world ≡ yielded s.world + suc n) (λ _ _. Unit) (λ _ _. Unit)
            (rest (record s { errno = e; world = w })) (h (record s { errno = e; world = w }))
            (λ l. l) (λ _ t k. omega (arith, k, one)) (λ _ _ k. k))
        λ x e w q. tt

  -- The events are counted by what the function returns.
  pub Calls-Yielded :
      (n : ℕ) (s : St W) (r : Run W (Unit {0}))
      → Calls yielded n s r
      → Sat
          (Unit {0})
          (λ v t. Yielded yielded s.world v t.world)
          (λ _ _. Unit {0})
          (and_then r (λ _. done (fixnum (pos n))))
  Calls-Yielded n s r h =
      Sat-and_then Unit (λ _ t. yielded t.world ≡ yielded s.world + n)
        (λ v t. Yielded yielded s.world v t.world) (λ _ _. Unit) r _ h λ _ t e. (n, refl, e)
