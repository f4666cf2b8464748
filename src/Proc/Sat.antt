-- ===== src/Proc/Sat.antt =====
-- What a run ends in: postconditions for its result and for its exception.
use sleepy_penguin.Proc.{
  returned, SysReply, replied, syscall, Reply, call, fails, throws, yields, gives, Ext, Sys, St,
  Exn, Run, done, raise, crash, out_of_fuel, Cmd, and_then,
}
use sleepy_penguin.Base.{none, some, ℕ, Option, refl, ◌≡◌}

module _ {W A : Type 0} where
  -- No crash; a result meets `Q`, an exception meets `E`; a run that is still looping meets `L`.
  abbrev pub Sat : Type 0 → (A → St W → Type 0) → (Exn → St W → Type 0) → Run W A → Type 0
  Sat L Q E (done a s) = Q a s
  Sat L Q E (raise e s) = E e s
  Sat L Q E crash = ⊥
  Sat L Q E out_of_fuel = L

  pub Sat-mono :
      (K L : Type 0) (P Q : A → St W → Type 0) (E F : Exn → St W → Type 0) (r : Run W A)
      → Sat K P E r
      → (K → L)
      → ((a : A) (s : St W) → P a s → Q a s)
      → ((e : Exn) (s : St W) → E e s → F e s)
      → Sat L Q F r
  Sat-mono K L P Q E F (done a s) h l f g = f a s h
  Sat-mono K L P Q E F (raise e s) h l f g = g e s h
  Sat-mono K L P Q E F crash h l f g = h
  Sat-mono K L P Q E F out_of_fuel h l f g = l h

module _ {W A B : Type 0} where
  pub Sat-and_then :
      (L : Type 0) (P : A → St W → Type 0) (Q : B → St W → Type 0) (E : Exn → St W → Type 0)
      (r : Run W A) (k : A → Cmd W B)
      → Sat L P E r
      → ((a : A) (s : St W) → P a s → Sat L Q E (k a s))
      → Sat L Q E (and_then r k)
  Sat-and_then L P Q E (done a s) k h next = next a s h
  Sat-and_then L P Q E (raise e s) k h next = h
  Sat-and_then L P Q E crash k h next = h
  Sat-and_then L P Q E out_of_fuel k h next = h

module _ {W A : Type 0} where
  -- What is known of every result of the run is known of this one.
  pub Sat-with :
      (L : Type 0) (P X : A → St W → Type 0) (E : Exn → St W → Type 0) (r : Run W A)
      → Sat L P E r
      → ((a : A) (s : St W) → r ≡ done a s → X a s)
      → Sat L (λ a s. X a s × P a s) E r
  Sat-with L P X E (done a s) h x = (x a s refl, h)
  Sat-with L P X E (raise e s) h x = h
  Sat-with L P X E crash h x = h
  Sat-with L P X E out_of_fuel h x = h

module _ {W A : Type 0} where
  -- Two postconditions of one run.
  pub Sat-both :
      (L K : Type 0) (P Q : A → St W → Type 0) (E F : Exn → St W → Type 0) (r : Run W A)
      → Sat L P E r
      → Sat K Q F r
      → Sat L (λ a s. P a s × Q a s) E r
  Sat-both L K P Q E F (done a s) h k = (h, k)
  Sat-both L K P Q E F (raise e s) h k = h
  Sat-both L K P Q E F crash h k = h
  Sat-both L K P Q E F out_of_fuel h k = h

module _ {W A B : Type 0} (L : Type 0) (Q : B → St W → Type 0) (E : Exn → St W → Type 0) where
  -- A system call and what follows it, by its reply.
  pub Sat-syscall :
      (f : Sys W A) (s : St W) (k : Option A → Cmd W B)
      → ((a : A) (w : W) → f s.world ≡ gives a w → Sat L Q E (k (some a) (record s { world = w })))
      → ((e : ℕ) (w : W)
          → f s.world ≡ fails e w
          → Sat L Q E (k none (record s { errno = e; world = w })))
      → Sat L Q E (and_then (syscall f s) k)
  Sat-syscall f s k good bad = go (f s.world) refl
    where
      go : (r : SysReply W A) → f s.world ≡ r → Sat L Q E (and_then (returned s r) k)
      go (gives a w) h = good a w h
      go (fails e w) h = bad e w h

  -- A call into Ruby and what follows it, by its reply.
  pub Sat-call :
      (f : Ext W A) (s : St W) (k : A → Cmd W B)
      → ((a : A) (e : ℕ) (w : W)
          → f s.errno s.world ≡ yields a e w
          → Sat L Q E (k a (record s { errno = e; world = w })))
      → ((x : Exn) (e : ℕ) (w : W)
          → f s.errno s.world ≡ throws x e w
          → E x (record s { errno = e; world = w }))
      → Sat L Q E (and_then (call f s) k)
  Sat-call f s k good bad = go (f s.errno s.world) refl
    where
      go : (r : Reply W A) → f s.errno s.world ≡ r → Sat L Q E (and_then (replied s r) k)
      go (yields a e w) h = good a e w h
      go (throws x e w) h = bad x e w h
