-- ===== src/Inotify/Resize.antt =====
-- `resize_internal_buffer`, which a name too long for the buffer leads to.
use sleepy_penguin.Ruby.{Allocates, Vm}
use sleepy_penguin.Inotify.{resize_for, resize_internal_buffer, InreadArgs, resize_to, InotifyCalls}
use sleepy_penguin.Base.{
  inr, zero, inl, negsuc, Bool-cases, ℤ, refl, false, leb, arith, true, ltb, suc, pos, ◌≢◌, some,
  ◌≡◌, ℕ,
}
use sleepy_penguin.Proc.{gives, fails, returned, and_then, SysReply, ready, TlsBuf, St}
use sleepy_penguin.Tls.Inv.{Level, Got, IsValid}
use sleepy_penguin.Proc.Sat.{Sat-mono, Sat-and_then, Sat}
use sleepy_penguin.Tls.Put.{put-Returned, Returned}
use sleepy_penguin.Tls.{rb_sp_gettlsbuf, rb_sp_puttlsbuf}
use sleepy_penguin.Tls.Get.{gettlsbuf-Got}
use sleepy_penguin.Proc.Frame.{SameBufs}

module _ {W : Type 0} (vm : Vm W) (sys : InotifyCalls W) (fresh : Allocates vm) where
  module _ (cache_line : ℕ) where
    -- A buffer is out at this address.
    abbrev pub IsOut : St W → ℕ → Type 0
    IsOut s p = (b : TlsBuf) × (s.heap p ≡ some b) × (b.buf_type ≢ ready)

    positive_refused :
        (args : InreadArgs) (n : ℕ) (s : St W)
        → IsValid s
        → IsOut s args.buf
        → Sat ⊥ (λ _ _. ⊥) (λ _ _. Unit {0}) (resize_to vm sys cache_line args (pos (suc n)) s)
    unfolding resize_to
    positive_refused args n s v (b, h, k) =
        let positive : ltb 0 (suc n) ≡ true = ground arith in
        let over : leb (suc n) 0 ≡ false = ground arith in
        rw positive (
          rw over (
            Sat-and_then ⊥ (λ _ t. Returned s args.buf t) (λ _ _. ⊥) (λ _ _. Unit) _ _
              (Sat-mono ⊥ ⊥ (λ _ t. Returned s args.buf t) (λ _ t. Returned s args.buf t) (λ _ _. ⊥)
                (λ _ _. Unit) (rb_sp_puttlsbuf (some args.buf) s)
                (put-Returned s args.buf b b.buf_type v h refl k) (λ l. l) (λ a t p. p)
                (λ e t p. tt))
              λ _ t p.
                Sat-and_then ⊥ (Got t (suc n)) (λ _ _. ⊥) (λ _ _. Unit) _ _
                  (Sat-mono ⊥ ⊥ (Got t (suc n)) (Got t (suc n)) (λ _ u. Level t u) (λ _ _. Unit)
                    (rb_sp_gettlsbuf vm cache_line (suc n) t)
                    (gettlsbuf-Got vm fresh cache_line t (suc n) p.valid) (λ l. l) (λ r u g. g)
                    (λ e u g. tt))
                  (λ r u g. tt)))

    -- With a buffer that is out, a resize leaves it as it is and gives it back unchanged, or it
    -- raises: a length above zero ends in the exception that speaks of a negative one.
    resize_to-same :
        (args : InreadArgs) (n : ℤ) (s : St W)
        → IsValid s
        → IsOut s args.buf
        → Sat ⊥
            (λ a t. (a ≡ args) × (n ≡ pos 0) × SameBufs s t)
            (λ _ _. Unit {0})
            (resize_to vm sys cache_line args n s)
    unfolding resize_to
    resize_to-same args (pos zero) s v o = (refl, refl, (refl, refl))
    resize_to-same args (pos (suc n)) s v o =
        Sat-mono ⊥ ⊥ (λ _ _. ⊥) (λ a t. (a ≡ args) × (pos (suc n) ≡ pos 0) × SameBufs s t)
          (λ _ _. Unit) (λ _ _. Unit) (resize_to vm sys cache_line args (pos (suc n)) s)
          (positive_refused args n s v o) (λ l. l) (λ a t h. absurd h) (λ e t h. h)
    resize_to-same args (negsuc n) s v o = tt

    -- The step behind the `ioctl`, whatever that answers.
    asked-same :
        (args : InreadArgs) (s : St W) (x : SysReply W ℤ)
        → IsValid s
        → IsOut s args.buf
        → Sat ⊥
            (λ a t. (a ≡ args) × SameBufs s t)
            (λ _ _. Unit {0})
            (and_then (returned s x) (resize_for vm sys cache_line args))
    asked-same args s (fails e w) v o = tt
    asked-same args s (gives n w) v o =
        let u : St W = record s { world = w } in
        Sat-mono ⊥ ⊥ (λ a t. (a ≡ args) × (n ≡ pos 0) × SameBufs u t)
          (λ a t. (a ≡ args) × SameBufs s t) (λ _ _. Unit) (λ _ _. Unit)
          (resize_to vm sys cache_line args n u)
          (resize_to-same args n u (record { owned = v.owned; live = v.live }) o) (λ l. l)
          (λ a t h. (h.0, h.2)) (λ e t h. h)

    pub resize-same :
        (args : InreadArgs) (s : St W)
        → IsValid s
        → IsOut s args.buf
        → Sat ⊥
            (λ a t. (a ≡ args) × SameBufs s t)
            (λ _ _. Unit {0})
            (resize_internal_buffer vm sys cache_line args s)
    unfolding resize_internal_buffer
    resize-same args s v o = elim (Bool-cases (ltb 0x10000 args.size)) [
      | inl e ↦ rw e tt
      | inr e ↦ rw e (asked-same args s (sys.fionread args.fd s.world) v o)
    ]
