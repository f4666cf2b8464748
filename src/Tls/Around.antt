-- ===== src/Tls/Around.antt =====
-- Work that leaves the thread-local buffers alone, in front of a bracket or inside one.
use sleepy_penguin.Proc.{and_then, Cmd, St}
use sleepy_penguin.Tls.Inv.{IsValid, Level}
use sleepy_penguin.Proc.Frame.{SameBufs, Frames}
use sleepy_penguin.Proc.Sat.{Sat-and_then, Sat-mono, Sat}
use sleepy_penguin.Tls.Bracket.{Balanced}
use sleepy_penguin.Base.{◌∙◌, sym, ap, arith}

module _ {W : Type 0} where
  pub Level-refl : (s : St W) → Level s s
  Level-refl s = ((λ q b e n. e), λ q b e n. e)

  -- Where the buffers are as they were, all that is asked of them is kept.
  pub same-Balanced : (s t : St W) → IsValid s → SameBufs s t → Balanced s t
  same-Balanced s t v h = record {
    valid = record {
      owned = λ p b e. ground (arith, ap (λ f. f p) h.0, v.owned p b);
      live = λ p e. let (b, f, n) = v.live p (sym h.1 ∙ e) in (b, ap (λ f. f p) h.0 ∙ f, n);
    };
    level = ((λ q b e n. ap (λ f. f q) h.0 ∙ e), λ q b e n. sym (ap (λ f. f q) h.0) ∙ e);
  }

  pub Level-trans : (s t u : St W) → Level s t → Level t u → Level s u
  Level-trans s t u h k = ((λ q b e n. k.0 q b (h.0 q b e n) n), λ q b e n. h.1 q b (k.1 q b e n) n)

  -- Work that leaves the buffers alone may stand in front of what is balanced.
  pub after-Frames :
      {A B : Type 0} (m : Cmd W A) (k : A → Cmd W B) (s : St W)
      → Frames m
      → IsValid s
      → ((a : A) (t : St W)
          → IsValid t
          → Sat (Unit {0}) (λ _ u. Balanced t u) (λ _ u. Level t u) (k a t))
      → Sat (Unit {0}) (λ _ u. Balanced s u) (λ _ u. Level s u) (and_then (m s) k)
  after-Frames m k s f v each =
      Sat-and_then Unit (λ _ t. Balanced s t) (λ _ u. Balanced s u) (λ _ u. Level s u) (m s) k
        (Sat-mono Unit Unit (λ _ t. SameBufs s t) (λ _ t. Balanced s t) (λ _ t. SameBufs s t)
          (λ _ u. Level s u) (m s) (f.run s) (λ l. l) (λ a t h. same-Balanced s t v h)
          (λ e t h. (same-Balanced s t v h).level))
        λ a t b.
          Sat-mono Unit Unit (λ _ u. Balanced t u) (λ _ u. Balanced s u) (λ _ u. Level t u)
            (λ _ u. Level s u) (k a t) (each a t b.valid) (λ l. l)
            (λ x u c. record { valid = c.valid; level = Level-trans s t u b.level c.level })
            (λ e u c. Level-trans s t u b.level c)

  pub Frames-Balanced :
      {A : Type 0} (m : Cmd W A) (t : St W)
      → Frames m
      → IsValid t
      → Sat (Unit {0}) (λ _ u. Balanced t u) (λ _ u. Balanced t u) (m t)
  Frames-Balanced m t f v =
      Sat-mono Unit Unit (λ _ u. SameBufs t u) (λ _ u. Balanced t u) (λ _ u. SameBufs t u)
        (λ _ u. Balanced t u) (m t) (f.run t) (λ l. l) (λ a u h. same-Balanced t u v h)
        (λ e u h. same-Balanced t u v h)

  -- The same where nothing is asked of an exception.
  pub Frames-then :
      {A B : Type 0} (m : Cmd W A) (k : A → Cmd W B) (s : St W)
      → Frames m
      → IsValid s
      → ((a : A) (t : St W)
          → IsValid t
          → Sat (Unit {0}) (λ _ u. Balanced t u) (λ _ _. Unit {0}) (k a t))
      → Sat (Unit {0}) (λ _ u. Balanced s u) (λ _ _. Unit {0}) (and_then (m s) k)
  Frames-then m k s f v each =
      Sat-and_then Unit (λ _ t. Balanced s t) (λ _ u. Balanced s u) (λ _ _. Unit) (m s) k
        (Sat-mono Unit Unit (λ _ t. SameBufs s t) (λ _ t. Balanced s t) (λ _ t. SameBufs s t)
          (λ _ _. Unit) (m s) (f.run s) (λ l. l) (λ a t h. same-Balanced s t v h) (λ e t h. tt))
        λ a t b.
          Sat-mono Unit Unit (λ _ u. Balanced t u) (λ _ u. Balanced s u) (λ _ _. Unit) (λ _ _. Unit)
            (k a t) (each a t b.valid) (λ l. l)
            (λ x u c. record { valid = c.valid; level = Level-trans s t u b.level c.level })
            (λ e u c. tt)
