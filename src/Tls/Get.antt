-- ===== src/Tls/Get.antt =====
-- `rb_sp_gettlsbuf` on every branch.
use sleepy_penguin.Ruby.{Allocates, Vm}
use sleepy_penguin.Base.{
  inr, inl, refl, Option-cases, arith, dec_le, ◌<◌, ◌≤◌, none, ◌≢◌, some, ◌≡◌, ℕ,
}
use sleepy_penguin.Tls.{take_buf, replace_buf, nested_buf, free, update, rb_sp_gettlsbuf}
use sleepy_penguin.Proc.{done, ready, in_use, malloced, TlsBufType, TlsBuf, St}
use sleepy_penguin.Tls.Inv.{Level, reuse-Got, Got, IsValid}
use sleepy_penguin.Proc.Sat.{Sat}
use sleepy_penguin.Tls.Alloc.{replace-Got, nested-Got}

module _ {W : Type 0} where
  abbrev pub freed : St W → ℕ → St W
  freed s p = record s { heap = update s.heap p none }

  pub free_lem :
      (s : St W) (p : ℕ) {b : TlsBuf} → s.heap p ≡ some b → free (some p) s ≡ done tt (freed s p)
  unfolding free
  free_lem s p e = ground arith

module _ {W : Type 0} (vm : Vm W) (cache_line : ℕ) where
  pub get_first :
      (s : St W) (size : ℕ)
      → s.slot ≡ none
      → rb_sp_gettlsbuf vm cache_line size s ≡ replace_buf vm cache_line none size s
  unfolding rb_sp_gettlsbuf
  get_first s size sl = simp sl

  module _ (s : St W) (size p : ℕ) (b : TlsBuf) (sl : s.slot ≡ some p)
      (hp : s.heap p ≡ some b) where
    pub get_nested :
        b.buf_type ≡ in_use → rb_sp_gettlsbuf vm cache_line size s ≡ nested_buf vm cache_line size s
    unfolding rb_sp_gettlsbuf
    get_nested k = ground (arith)

    pub get_reuse :
        b.buf_type ≡ ready
        → size ≤ b.capa
        → rb_sp_gettlsbuf vm cache_line size s ≡ take_buf p b.capa s
    unfolding rb_sp_gettlsbuf
    get_reuse k le = ground (arith)

    pub get_larger :
        b.buf_type ≡ ready
        → b.capa < size
        → rb_sp_gettlsbuf vm cache_line size s ≡ replace_buf vm cache_line (some p) size s
    unfolding rb_sp_gettlsbuf
    get_larger k lt = ground (arith)

module _ {W : Type 0} (vm : Vm W) (fresh : Allocates vm) (cache_line : ℕ) where
  slot-Got :
      (s : St W) (size p : ℕ) (b : TlsBuf) (k : TlsBufType)
      → IsValid s
      → s.slot ≡ some p
      → s.heap p ≡ some b
      → b.buf_type ≡ k
      → k ≢ malloced
      → Sat ⊥ (Got s size) (λ e t. Level s t) (rb_sp_gettlsbuf vm cache_line size s)
  slot-Got s size p b in_use v sl hp k n =
      rw (get_nested vm cache_line s size p b sl hp k)
        (nested-Got vm fresh cache_line s size p b v sl hp k)
  slot-Got s size p b ready v sl hp k n = elim (dec_le size b.capa) [
    | yes le ↦
        rw (get_reuse vm cache_line s size p b sl hp k le) (reuse-Got s size p b v sl hp k le)
    | no gt ↦ rw (get_larger vm cache_line s size p b sl hp k (omega arith)) (
        replace-Got vm fresh cache_line (some p) s (freed s p) size (free_lem s p hp)
          (λ q c e n. ground arith) (λ q c e. ground (arith, v.owned q c)) refl)
  ]
  slot-Got s size p b malloced v sl hp k n = absurd (n refl)

  -- From a valid state, and where malloc overlays no live buffer, `rb_sp_gettlsbuf` never crashes.
  -- It gives a live buffer of at least the size asked for that nobody else holds, leaves every
  -- buffer that is out as it was and the state valid; where it raises, the buffers that are out are
  -- as they were.
  pub gettlsbuf-Got :
      (s : St W) (size : ℕ)
      → IsValid s
      → Sat ⊥ (Got s size) (λ e t. Level s t) (rb_sp_gettlsbuf vm cache_line size s)
  unfolding free
  gettlsbuf-Got s size v = elim (Option-cases s.slot) [
    | inl sl ↦ rw (get_first vm cache_line s size sl) (
        replace-Got vm fresh cache_line none s s size refl (λ q c e n. e)
          (λ q c e. ground (arith, v.owned q c)) refl)
    | inr (p, sl) ↦ let (b, hp, n) = v.live p sl in slot-Got s size p b b.buf_type v sl hp refl n
  ]
