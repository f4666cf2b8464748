-- ===== src/Tls/Halts.antt =====
-- init.c from any state of the buffers: it may crash, but it ends.
use sleepy_penguin.Ruby.{Vm}
use sleepy_penguin.Base.{◌∙◌, inr, inl, Option-cases, refl, none, some, ◌≡◌, arith, Option, ℕ}
use sleepy_penguin.Proc.{and_then, Cmd, TlsBufType, Run, St}
use sleepy_penguin.Tls.{
  rb_sp_gettlsbuf, replace_buf, setspecific, nested_buf, alloc_tlsbuf, take_buf, set_buf_type,
  rb_sp_puttlsbuf, free,
}
use sleepy_penguin.Proc.Halts.{Halts-mono, Halts-and_then, Halts}
use sleepy_penguin.Tls.Get.{get_first}

module _ {W : Type 0} (vm : Vm W) (cache_line : ℕ) where
  -- The world outside is as it was.
  abbrev pub SameWorld : {A : Type 0} → St W → Run W A → Type 0
  SameWorld s r = Halts (λ _ t. t.world ≡ s.world) r

  free-Halts : (p : Option ℕ) (s : St W) → SameWorld s (free p s)
  unfolding free
  free-Halts none s = refl
  free-Halts (some p) s = ground arith

  pub puttlsbuf-Halts : (p : Option ℕ) (s : St W) → SameWorld s (rb_sp_puttlsbuf p s)
  unfolding rb_sp_puttlsbuf
  puttlsbuf-Halts none s = refl
  puttlsbuf-Halts (some p) s = ground arith

  set_type-Halts : (p : ℕ) (k : TlsBufType) (s : St W) → SameWorld s (set_buf_type p k s)
  unfolding set_buf_type
  set_type-Halts p k s = ground arith

  take-Halts : (p size : ℕ) (s : St W) → SameWorld s (take_buf p size s)
  unfolding take_buf
  take-Halts p size s = ground arith

  alloc-Halts : (size : ℕ) (s : St W) → SameWorld s (alloc_tlsbuf vm cache_line size s)
  unfolding alloc_tlsbuf
  alloc-Halts size s = ground arith

  nested-Halts : (size : ℕ) (s : St W) → SameWorld s (nested_buf vm cache_line size s)
  unfolding nested_buf
  nested-Halts size s = ground (arith, alloc-Halts size s)

  -- One step and what follows it.
  then-Halts :
      {A B : Type 0} (s : St W) (r : Run W A) (k : A → Cmd W B)
      → SameWorld s r
      → ((a : A) (t : St W) → SameWorld t (k a t))
      → SameWorld s (and_then r k)
  then-Halts s r k h next =
      Halts-and_then (λ _ t. t.world ≡ s.world) (λ _ t. t.world ≡ s.world) r k h
        λ a t e. Halts-mono _ _ (k a t) (next a t) λ b u f. f ∙ e

  setspecific-Halts : (p : ℕ) (s : St W) → SameWorld s (setspecific vm cache_line p s)
  unfolding setspecific
  setspecific-Halts p s = ground arith

  replace-Halts :
      (old : Option ℕ) (size : ℕ) (s : St W) → SameWorld s (replace_buf vm cache_line old size s)
  unfolding replace_buf
  replace-Halts old size s = then-Halts s _ _ (free-Halts old s) λ _ t.
      then-Halts t _ _ (alloc-Halts size t) λ p u.
        then-Halts u _ _ (setspecific-Halts p u)
          λ err x. ground (arith, take-Halts p size x, free-Halts (some p) x)

  pub gettlsbuf-Halts : (size : ℕ) (s : St W) → SameWorld s (rb_sp_gettlsbuf vm cache_line size s)
  unfolding rb_sp_gettlsbuf
  gettlsbuf-Halts size s = elim (Option-cases s.slot) [
    | inl e ↦ rw (get_first vm cache_line s size e) (replace-Halts none size s)
    | inr (p, e) ↦ elim (Option-cases (s.heap p)) [
      | inl f ↦ ground arith
      | inr (b, f) ↦
          ground (arith, take-Halts p b.capa s, replace-Halts (some p) size s, nested-Halts size s)
    ]
  ]
