-- ===== src/Tls/Inv.antt =====
-- The invariant of the thread-local buffers, and what `rb_sp_gettlsbuf` keeps of it.
use sleepy_penguin.Base.{ℕ, ◌≤◌, ◌≡◌, refl, ap, ◌≢◌, ◌⊎◌, some, arith, some}
use sleepy_penguin.Proc.{TlsBufType, in_use, ready, malloced, TlsBuf, St, done}
use sleepy_penguin.Proc.Sat.{Sat}
use sleepy_penguin.Tls.{load, update, set_buf_type, take_buf}

-- Every live buffer but the thread's own is a `malloced` one; the thread's own is live, and is not.
pub record IsValid {W : Type 0} (s : St W) : Type 0 where
  pub owned : (p : ℕ) (b : TlsBuf) → s.heap p ≡ some b → (b.buf_type ≡ malloced) ⊎ (s.slot ≡ some p)
  pub live :
      (p : ℕ) → s.slot ≡ some p → (b : TlsBuf) × (s.heap p ≡ some b) × (b.buf_type ≢ malloced)

-- A buffer that is out in the one state is out in the other, as it was.
abbrev pub Untouched : {W : Type 0} → St W → St W → Type 0
Untouched s t = (q : ℕ) (b : TlsBuf) → s.heap q ≡ some b → b.buf_type ≢ ready → t.heap q ≡ some b

-- The same buffers are out in both states: none was harmed, and none is left over.
abbrev pub Level : {W : Type 0} → St W → St W → Type 0
Level s t = Untouched s t × Untouched t s

-- What a caller of `rb_sp_gettlsbuf` gets.
pub record Got {W : Type 0} (s : St W) (size : ℕ) (r : ℕ × ℕ) (t : St W) : Type 0 where
  pub valid : IsValid t
  pub enough : size ≤ r.1
  pub granted : (b : TlsBuf) × (t.heap r.0 ≡ some b) × (b.capa ≡ r.1) × (b.buf_type ≢ ready)
  pub exclusive : (b : TlsBuf) → s.heap r.0 ≡ some b → b.buf_type ≡ ready
  pub others : Untouched s t
  pub only :
      (q : ℕ) (b : TlsBuf) → q ≢ r.0 → t.heap q ≡ some b → b.buf_type ≢ ready → s.heap q ≡ some b
  pub world : t.world ≡ s.world

module _ {W : Type 0} where
  pub set_buf_type_lem :
      (s : St W) (p : ℕ) (k : TlsBufType) {b : TlsBuf}
      → s.heap p ≡ some b
      → set_buf_type p k s
        ≡ done tt (record s { heap = update s.heap p (some (record b { buf_type = k })) })
  unfolding set_buf_type
  set_buf_type_lem s p k e = rw (e, load)

  -- A buffer that becomes the thread's own, where every other one is a `malloced` one.
  pub own-IsValid :
      (s t : St W) (p : ℕ) (b : TlsBuf)
      → b.buf_type ≢ malloced
      → t.heap ≡ update s.heap p (some b)
      → t.slot ≡ some p
      → ((q : ℕ) (c : TlsBuf) → q ≢ p → s.heap q ≡ some c → c.buf_type ≡ malloced)
      → IsValid t
  own-IsValid s t p b k h sl rest = record {
    owned = λ q c e. ground (arith, ap (λ f. f q) h, rest q c);
    live = λ q e. (b, ground (arith, ap (λ f. f q) h), k);
  }

  pub reuse-Got :
      (s : St W) (size p : ℕ) (b : TlsBuf)
      → IsValid s
      → s.slot ≡ some p
      → s.heap p ≡ some b
      → b.buf_type ≡ ready
      → size ≤ b.capa
      → Sat ⊥ (Got s size) (λ e t. Level s t) (take_buf p b.capa s)
  unfolding take_buf
  reuse-Got s size p b v sl hp k le =
      rw (hp, load)
        (record {
          valid =
              own-IsValid s _ p (record b { buf_type = in_use }) (λ e. cc) refl sl
                (λ q c n e. ground (arith, v.owned q c));
          enough = le;
          granted = (record b { buf_type = in_use }, ground arith, refl, λ e. cc);
          exclusive = λ c e. ground arith;
          others = λ q c e n. ground arith;
          only = λ q c n e k. ground arith;
          world = refl;
        })
