-- ===== src/Proc/Quiet.antt =====
-- Work that leaves a view of the world outside as it is, however it ends.
use sleepy_penguin.Proc.{
  out_of_fuel, crash, throws, raise, returned, replied, fails, Exn, SysReply, Reply, gives, yields,
  and_then, Run, syscall, call, done, Cmd, St, Sys, Ext,
}
use sleepy_penguin.Base.{refl, ◌∙◌, ◌≡◌, ℕ}
use sleepy_penguin.Proc.Sat.{Sat-mono, Sat-and_then, Sat}
use sleepy_penguin.Proc.Loop.{finish, again, loop_inv, loop, Keeps, Step}

module _ {W V : Type 0} (view : W → V) where
  -- A call into Ruby does not touch what is in view.
  abbrev pub IsQuiet : {A : Type 0} → Ext W A → Type 0
  IsQuiet f =
      ((e : ℕ) (w : W) (a : _) (e' : ℕ) (w' : W) → f e w ≡ yields a e' w' → view w' ≡ view w)
      × ((e : ℕ) (w : W) (x : Exn) (e' : ℕ) (w' : W) → f e w ≡ throws x e' w' → view w' ≡ view w)

  abbrev pub IsQuietSys : {A : Type 0} → Sys W A → Type 0
  IsQuietSys f =
      ((w : W) (a : _) (w' : W) → f w ≡ gives a w' → view w' ≡ view w)
      × ((w : W) (e : ℕ) (w' : W) → f w ≡ fails e w' → view w' ≡ view w)

  abbrev pub Seen : St W → St W → Type 0
  Seen s t = view t.world ≡ view s.world

  pub record Quiet {A : Type 0} (m : Cmd W A) : Type 0 where
    pub run : (s : St W) → Sat (Unit {0}) (λ _ t. Seen s t) (λ _ t. Seen s t) (m s)

  pub Quiet-pure : {A : Type 0} (a : A) → Quiet (λ s. done a s)
  Quiet-pure a = record { run = λ s. refl }

  pub Quiet-call : {A : Type 0} (f : Ext W A) → IsQuiet f → Quiet (call f)
  Quiet-call {A} f q = record { run = λ s. go s (f s.errno s.world) refl }
    where
      go :
          (s : St W) (r : Reply W A)
          → f s.errno s.world ≡ r
          → Sat (Unit {0}) (λ _ t. Seen s t) (λ _ t. Seen s t) (replied s r)
      go s (yields a e w) h = q.0 s.errno s.world a e w h
      go s (throws x e w) h = q.1 s.errno s.world x e w h

  pub Quiet-syscall : {A : Type 0} (f : Sys W A) → IsQuietSys f → Quiet (syscall f)
  Quiet-syscall {A} f q = record { run = λ s. go s (f s.world) refl }
    where
      go :
          (s : St W) (r : SysReply W A)
          → f s.world ≡ r
          → Sat (Unit {0}) (λ _ t. Seen s t) (λ _ t. Seen s t) (returned s r)
      go s (gives a w) h = q.0 s.world a w h
      go s (fails e w) h = q.1 s.world e w h

  -- What comes after work that has left the view as it was.
  pub Seen-trans :
      {A : Type 0} (s t : St W) (r : Run W A)
      → Seen s t
      → Sat (Unit {0}) (λ _ u. Seen t u) (λ _ u. Seen t u) r
      → Sat (Unit {0}) (λ _ u. Seen s u) (λ _ u. Seen s u) r
  Seen-trans s t (done a u) h k = k ∙ h
  Seen-trans s t (raise e u) h k = k ∙ h
  Seen-trans s t crash h k = k
  Seen-trans s t out_of_fuel h k = k

  pub Quiet-bind :
      {A B : Type 0} {m : Cmd W A} {k : A → Cmd W B}
      → Quiet m
      → ((a : A) → Quiet (k a))
      → Quiet (λ s. and_then (m s) k)
  Quiet-bind {m} {k} f g = record {
    run = λ s.
        Sat-and_then Unit (λ _ t. Seen s t) (λ _ t. Seen s t) (λ _ t. Seen s t) (m s) k (f.run s)
          λ a t h. Seen-trans s t (k a t) h ((g a).run t);
  }

  -- What a round from `s` leaves, where it goes round again and where it ends.
  Seen-Keeps :
      {C A : Type 0} (x : Step C A) (s t : St W)
      → Seen s t
      → Keeps (λ _ u. Seen s u) (λ _ u. Seen s u) x t
  Seen-Keeps (again c) s t h = h
  Seen-Keeps (finish a) s t h = h

  pub Quiet-loop :
      {C A : Type 0} (n : ℕ) (body : C → Cmd W (Step C A)) (c : C)
      → ((c : C) → Quiet (body c))
      → Quiet (loop n body c)
  Quiet-loop n body c each = record {
    run = λ s.
        loop_inv body (λ _ t. Seen s t) (λ _ t. Seen s t) (λ _ t. Seen s t)
          (λ d t h.
            Sat-mono Unit Unit (λ _ u. Seen s u) (Keeps (λ _ u. Seen s u) (λ _ u. Seen s u))
              (λ _ u. Seen s u) (λ _ u. Seen s u) (body d t)
              (Seen-trans s t (body d t) h ((each d).run t)) (λ l. l) (λ x u k. Seen-Keeps x s u k)
              (λ e u k. k))
          n c s refl;
  }
