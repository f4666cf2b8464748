-- ===== src/Proc/Frame.antt =====
-- Work that leaves the thread-local buffers alone: all of the library but init.c.
use sleepy_penguin.Proc.{
  out_of_fuel, crash, raise, done, and_then, syscall, call, Run, Sys, Ext, Cmd, St,
}
use sleepy_penguin.Base.{refl, ℕ, ◌∙◌, arith, ◌≡◌}
use sleepy_penguin.Proc.Sat.{Sat-mono, Sat-and_then, Sat}
use sleepy_penguin.Proc.Loop.{finish, again, loop_inv, loop, Keeps, Step}

abbrev pub SameBufs : {W : Type 0} → St W → St W → Type 0
SameBufs s t = (t.heap ≡ s.heap) × (t.slot ≡ s.slot)

-- However the command ends, the buffers are as they were; and it does not crash.
pub record Frames {W A : Type 0} (m : Cmd W A) : Type 0 where
  pub run : (s : St W) → Sat (Unit {0}) (λ _ t. SameBufs s t) (λ _ t. SameBufs s t) (m s)

module _ {W : Type 0} where
  pub SameBufs-trans :
      {A : Type 0} (s t : St W) (r : Run W A)
      → SameBufs s t
      → Sat (Unit {0}) (λ _ u. SameBufs t u) (λ _ u. SameBufs t u) r
      → Sat (Unit {0}) (λ _ u. SameBufs s u) (λ _ u. SameBufs s u) r
  SameBufs-trans s t (done a u) h k = (k.0 ∙ h.0, k.1 ∙ h.1)
  SameBufs-trans s t (raise e u) h k = (k.0 ∙ h.0, k.1 ∙ h.1)
  SameBufs-trans s t crash h k = k
  SameBufs-trans s t out_of_fuel h k = k

  pub Frames-pure : {A : Type 0} (a : A) → Frames (λ (s : St W). done a s)
  Frames-pure a = record { run = λ s. (refl, refl) }

  pub Frames-call : {A : Type 0} (f : Ext W A) → Frames (call f)
  Frames-call f = record { run = λ s. ground arith }

  pub Frames-syscall : {A : Type 0} (f : Sys W A) → Frames (syscall f)
  Frames-syscall f = record { run = λ s. ground arith }

  pub Frames-bind :
      {A B : Type 0} {m : Cmd W A} {k : A → Cmd W B}
      → Frames m
      → ((a : A) → Frames (k a))
      → Frames (λ s. and_then (m s) k)
  Frames-bind {m} {k} f g = record {
    run = λ s.
        Sat-and_then Unit (λ _ t. SameBufs s t) (λ _ t. SameBufs s t) (λ _ t. SameBufs s t) (m s) k
          (f.run s) λ a t h. SameBufs-trans s t (k a t) h ((g a).run t);
  }

  Keeps-same :
      {C A : Type 0} (P : St W → Type 0) (x : Step C A) (s : St W)
      → P s
      → Keeps (λ _ t. P t) (λ _ t. P t) x s
  Keeps-same P (again c) s h = h
  Keeps-same P (finish a) s h = h

  pub Frames-loop :
      {C A : Type 0} (n : ℕ) (body : C → Cmd W (Step C A)) (c : C)
      → ((c : C) → Frames (body c))
      → Frames (loop n body c)
  Frames-loop n body c each = record {
    run = λ s.
        loop_inv body (λ _ t. SameBufs s t) (λ _ t. SameBufs s t) (λ _ t. SameBufs s t)
          (λ d t h.
            Sat-mono Unit Unit (λ _ u. SameBufs s u)
              (Keeps (λ _ u. SameBufs s u) (λ _ u. SameBufs s u)) (λ _ u. SameBufs s u)
              (λ _ u. SameBufs s u) (body d t) (SameBufs-trans s t (body d t) h ((each d).run t))
              (λ l. l) (Keeps-same (SameBufs s)) (λ e u k. k))
          n c s (refl, refl);
  }

  -- Frames say that a run does not crash.
  pub Frames-Sat :
      {A : Type 0} (m : Cmd W A) (s : St W)
      → Frames m
      → Sat (Unit {0}) (λ _ _. Unit {0}) (λ _ _. Unit {0}) (m s)
  Frames-Sat m s f =
      Sat-mono Unit Unit (λ _ t. SameBufs s t) (λ _ _. Unit) (λ _ t. SameBufs s t) (λ _ _. Unit)
        (m s) (f.run s) (λ l. l) (λ a t h. tt) (λ e t h. tt)
