-- ===== src/Kqueue/Closed.antt =====
-- `kevent` on a closed Kqueue::IO: `rb_sp_fileno` raises between `kpt_get` and `rb_ensure`.
use sleepy_penguin.Ruby.{qnil, Value, Allocates, Vm}
use sleepy_penguin.Kqueue.{kpt_size, kpt_get, sp_kevent, KqueueCalls}
use sleepy_penguin.Timespec.{Double}
use sleepy_penguin.Base.{refl, ◌∙◌, ap, subst, ◌≢◌, some, false, ◌≡◌, ℕ}
use sleepy_penguin.Proc.{ready, TlsBuf, raise, done, Exn, St}
use sleepy_penguin.Tls.Inv.{Got, Level, IsValid}
use sleepy_penguin.Tls.{rb_sp_gettlsbuf}
use sleepy_penguin.Util.{rb_sp_fileno}
use sleepy_penguin.Proc.Sat.{Sat}
use sleepy_penguin.Tls.Get.{gettlsbuf-Got}
use sleepy_penguin.Proc.Frame.{SameBufs}
use sleepy_penguin.Util.Frame.{fileno-Frames}

module _ {W : Type 0} (vm : Vm W) (sys : KqueueCalls W) (db : Double) (fresh : Allocates vm) where
  module _ (cache_line fuel : ℕ) (self : Value) (s t u : St W) (r : ℕ × ℕ) (x : Exn) where
    -- From a valid state, where malloc overlays no live buffer, a buffer is to be had, and the
    -- descriptor's check raises, as it does for a closed IO, a `kevent` without arguments raises that
    -- exception and its buffer is still out after it, live and not at rest: the buffers that are out
    -- are not those of before.
    pub closed_kevent-leaks :
        IsValid s
        → rb_sp_gettlsbuf vm cache_line (kpt_size 0 0) s ≡ done r t
        → rb_sp_fileno vm self t ≡ raise x u
        → (sp_kevent vm sys db cache_line fuel false self qnil qnil qnil s ≡ raise x u)
          × ((b : TlsBuf) × (u.heap r.0 ≡ some b) × (b.buf_type ≢ ready))
          × ¬ Level s u
    unfolding sp_kevent kpt_get
    closed_kevent-leaks v e f =
        let g : Got s (kpt_size 0 0) r t =
          subst (Sat ⊥ (Got s (kpt_size 0 0)) (λ _ t. Level s t)) e
            (gettlsbuf-Got vm fresh cache_line s (kpt_size 0 0) v) in
        let same : SameBufs t u =
          subst (Sat (Unit {0}) (λ _ w. SameBufs t w) (λ _ w. SameBufs t w)) f
            ((fileno-Frames vm self).run t) in
        let (b, h, _, n) = g.granted in
        let there : u.heap r.0 ≡ some b = ap (λ m. m r.0) same.0 ∙ h in
        (rw e (rw f refl), (b, there, n), λ l. n (g.exclusive b (l.1 r.0 b there n)))
