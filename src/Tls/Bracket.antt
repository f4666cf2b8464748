-- ===== src/Tls/Bracket.antt =====
-- The bracket that `rb_sp_gettlsbuf` and `rb_sp_puttlsbuf` make under `rb_ensure`.
use sleepy_penguin.Proc.{
  out_of_fuel, crash, raise, done, rb_ensure, cleaned, and_then, Run, Cmd, St,
}
use sleepy_penguin.Ruby.{Allocates, Vm}
use sleepy_penguin.Tls.Inv.{Got, Level, IsValid}
use sleepy_penguin.Base.{sym, refl, ◌∙◌, ◌≡◌, some, subst, ◌≢◌, ℕ}
use sleepy_penguin.Tls.Put.{put-Returned, Returned}
use sleepy_penguin.Proc.Sat.{Sat-mono, Sat-and_then, Sat}
use sleepy_penguin.Tls.{rb_sp_gettlsbuf, rb_sp_puttlsbuf}
use sleepy_penguin.Tls.Get.{gettlsbuf-Got}

module _ {W : Type 0} where
  -- A bracket has kept the buffers level, and the state valid.
  pub record Balanced (s t : St W) : Type 0 where
    pub valid : IsValid t
    pub level : Level s t

  -- From the grant to the return, whatever level work stands between.
  bracket-Balanced :
      (s t u w : St W) (size : ℕ) (r : ℕ × ℕ)
      → Got s size r t
      → Balanced t u
      → Returned u r.0 w
      → Balanced s w
  bracket-Balanced s t u w size r g m pt = record {
    valid = pt.valid;
    level = (
      (λ q b e n.
          let apart : q ≢ r.0 = λ h. n (g.exclusive b (subst (λ x. s.heap x ≡ some b) h e)) in
          pt.others q apart ∙ m.level.0 q b (g.others q b e n) n),
      λ q b e n.
          let apart : q ≢ r.0 = λ h. n (pt.gone b (subst (λ x. w.heap x ≡ some b) h e)) in
          g.only q b apart (m.level.1 q b (sym (pt.others q apart) ∙ e) n) n,
    );
  }

  -- After level work the buffer that was granted is still there, and goes back.
  put_after :
      (s t u : St W) (size : ℕ) (r : ℕ × ℕ)
      → Got s size r t
      → Balanced t u
      → Sat ⊥ (λ _ w. Returned u r.0 w) (λ _ w. ⊥) (rb_sp_puttlsbuf (some r.0) u)
  put_after s t u size r g m =
      let (b, e, _, n) = g.granted in
      put-Returned u r.0 b b.buf_type m.valid (m.level.0 r.0 b e n) refl n

  -- What is done next starts from a balanced state.
  put_then :
      (L : Type 0) (s t u : St W) (size : ℕ) (r : ℕ × ℕ) {A : Type 0} (k : Unit {0} → Cmd W A)
      → Got s size r t
      → Balanced t u
      → ((w : St W) → Balanced s w → Sat L (λ _ w. Balanced s w) (λ _ w. Balanced s w) (k tt w))
      → Sat L
          (λ _ w. Balanced s w)
          (λ _ w. Balanced s w)
          (and_then (rb_sp_puttlsbuf (some r.0) u) k)
  put_then L s t u size r k g m next =
      Sat-and_then L (λ _ w. Returned u r.0 w) (λ _ w. Balanced s w) (λ _ w. Balanced s w)
        (rb_sp_puttlsbuf (some r.0) u) k
        (Sat-mono ⊥ L (λ _ w. Returned u r.0 w) (λ _ w. Returned u r.0 w) (λ _ w. ⊥)
          (λ _ w. Balanced s w) (rb_sp_puttlsbuf (some r.0) u) (put_after s t u size r g m) absurd
          (λ a w h. h) (λ e w h. absurd h))
        (λ _ w h. next w (bracket-Balanced s t u w size r g m h))

  -- Work on a granted buffer under `rb_ensure`, with the return of that buffer as its clean-up.
  -- However the work ends, the bracket as a whole is balanced.
  pub ensure_put-Balanced :
      (L : Type 0) (s t : St W) (size : ℕ) (r : ℕ × ℕ) {A : Type 0} (x : Run W A)
      → Got s size r t
      → Sat L (λ _ u. Balanced t u) (λ _ u. Balanced t u) x
      → Sat L (λ _ w. Balanced s w) (λ _ w. Balanced s w) (cleaned x (rb_sp_puttlsbuf (some r.0)))
  ensure_put-Balanced L s t size r (done a u) g m =
      put_then L s t u size r (λ _. done a) g m (λ w h. h)
  ensure_put-Balanced L s t size r (raise e u) g m =
      put_then L s t u size r (λ _. raise e) g m (λ w h. h)
  ensure_put-Balanced L s t size r crash g m = m
  ensure_put-Balanced L s t size r out_of_fuel g m = m

module _ {W : Type 0} (vm : Vm W) (fresh : Allocates vm) (cache_line : ℕ) where
  -- The bracket of `epoll_wait` and `kevent`: from a valid state a buffer is taken, work runs on it
  -- under `rb_ensure`, and the buffer is put back. Where the work, given a buffer of its own, leaves
  -- the buffers that are out as they are, and malloc overlays no live buffer, so does the bracket,
  -- however the work ends; it does not crash, and where it returns the state is valid.
  pub bracket_lem :
      (L : Type 0) (s : St W) (size : ℕ) {A : Type 0} (work : ℕ × ℕ → Cmd W A)
      → IsValid s
      → ((r : ℕ × ℕ) (t : St W)
          → Got s size r t
          → Sat L (λ _ u. Balanced t u) (λ _ u. Balanced t u) (work r t))
      → Sat L
          (λ _ w. Balanced s w)
          (λ _ w. Level s w)
          (and_then
            (rb_sp_gettlsbuf vm cache_line size s)
            (λ r. rb_ensure (work r) (rb_sp_puttlsbuf (some r.0))))
  bracket_lem L s size work v each =
      Sat-and_then L (Got s size) (λ _ w. Balanced s w) (λ _ w. Level s w)
        (rb_sp_gettlsbuf vm cache_line size s)
        (λ r. rb_ensure (work r) (rb_sp_puttlsbuf (some r.0)))
        (Sat-mono ⊥ L (Got s size) (Got s size) (λ _ w. Level s w) (λ _ w. Level s w)
          (rb_sp_gettlsbuf vm cache_line size s) (gettlsbuf-Got vm fresh cache_line s size v) absurd
          (λ a w h. h) (λ e w h. h))
        (λ r t g.
          Sat-mono L L (λ _ w. Balanced s w) (λ _ w. Balanced s w) (λ _ w. Balanced s w)
            (λ _ w. Level s w) (cleaned (work r t) (rb_sp_puttlsbuf (some r.0)))
            (ensure_put-Balanced L s t size r (work r t) g (each r t g)) (λ l. l) (λ a w h. h)
            (λ e w h. h.level))
