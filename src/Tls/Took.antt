-- ===== src/Tls/Took.antt =====
-- What `rb_sp_gettlsbuf` does to the state of its own thread, other threads' buffers being on the heap.
use sleepy_penguin.Base.{
  ℕ_discrete, Option, inr, inl, refl, Option-cases, arith, dec_le, ◌≤◌, none, ◌≢◌, some, ◌≡◌, ℕ,
  ◌⊎◌,
}
use sleepy_penguin.Tls.{load, take_buf, replace_buf, nested_buf, free, rb_sp_gettlsbuf}
use sleepy_penguin.Proc.{done, TlsBufType, in_use, Run, ready, malloced, TlsBuf, St}
use sleepy_penguin.Ruby.{Allocates, Vm}
use sleepy_penguin.Tls.Get.{free_lem, freed, get_larger, get_reuse, get_nested, get_first}
use sleepy_penguin.Proc.Sat.{Sat}
use sleepy_penguin.Tls.Alloc.{
  replace_unset, replace_lem, nested_lem, replace_fails, nested_fails, owning, alloc_cases,
}

-- The thread's own buffer, if it has one, is live and is not a `malloced` one.
abbrev pub Rooted : {W : Type 0} → St W → Type 0
Rooted s = (p : ℕ) → s.slot ≡ some p → (b : TlsBuf) × (s.heap p ≡ some b) × (b.buf_type ≢ malloced)

-- A buffer is granted: it was not live, or was the thread's own and at rest. Of all others only the
-- thread's own may be gone, and only from rest.
pub record Took {W : Type 0} (s : St W) (size : ℕ) (r : ℕ × ℕ) (t : St W) : Type 0 where
  pub enough : size ≤ r.1
  pub granted :
      (b : TlsBuf) × (t.heap r.0 ≡ some b)
      × (b.capa ≡ r.1)
      × (b.buf_type ≢ ready)
      × (b.buf_type ≡ in_use → t.slot ≡ some r.0)
  pub exclusive : (b : TlsBuf) → s.heap r.0 ≡ some b → (b.buf_type ≡ ready) × (s.slot ≡ some r.0)
  pub rooted : Rooted t
  pub moved : (p : ℕ) → t.slot ≡ some p → (s.slot ≡ some p) ⊎ (p ≡ r.0)
  pub forth :
      (q : ℕ) (c : TlsBuf)
      → q ≢ r.0
      → s.heap q ≡ some c
      → (t.heap q ≡ some c) ⊎ ((c.buf_type ≡ ready) × (s.slot ≡ some q))
  pub busy :
      (q : ℕ) (c : TlsBuf)
      → s.heap q ≡ some c
      → c.buf_type ≡ in_use
      → s.slot ≡ some q
      → t.slot ≡ some q
  pub back :
      (q : ℕ) (c : TlsBuf)
      → q ≢ r.0
      → t.heap q ≡ some c
      → (s.heap q ≡ some c) × (s.slot ≡ some q → t.slot ≡ some q)

module _ {W : Type 0} (vm : Vm W) (fresh : Allocates vm) (cache_line : ℕ) where
  -- Whatever the exception, it is no crash.
  abbrev Fair : (s : St W) (size : ℕ) → Run W (ℕ × ℕ) → Type 0
  Fair s size r = Sat ⊥ (Took s size) (λ _ _. Unit {0}) r

  nested-Took :
      (s : St W) (size p : ℕ) (b : TlsBuf)
      → Rooted s
      → s.slot ≡ some p
      → s.heap p ≡ some b
      → b.buf_type ≡ in_use
      → Fair s size (nested_buf vm cache_line size s)
  nested-Took s size p b v sl hp k = elim (alloc_cases vm fresh cache_line size s) [
    | inl e ↦ rw (nested_fails vm fresh cache_line s size e) tt
    | inr (r, f, e) ↦ rw (nested_lem vm fresh cache_line s size r e) (record {
      enough = omega arith;
      granted = (record { capa = size; buf_type = malloced }, ground arith, refl, λ h. cc, λ h. cc);
      exclusive = λ c h. ground arith;
      rooted = λ q h. (b, ground arith, ground arith);
      moved = λ q h. inl h;
      forth = λ q c n h. inl (ground arith);
      busy = λ q c h i j. j;
      back = λ q c n h. (ground arith, λ j. j);
    })
  ]

  -- A first buffer, or one in place of the thread's own, which was at rest and is gone.
  replaced-Took :
      (s s1 : St W) (size r : ℕ)
      → ((q : ℕ) (c : TlsBuf)
          → s.heap q ≡ some c
          → (s1.heap q ≡ some c) ⊎ ((c.buf_type ≡ ready) × (s.slot ≡ some q)))
      → ((q : ℕ) (c : TlsBuf) → s1.heap q ≡ some c → (s.heap q ≡ some c) × (s.slot ≢ some q))
      → s1.heap r ≡ none
      → Took s size (r, size) (owning vm fresh cache_line s1 size r)
  replaced-Took s s1 size r fw bw f = record {
    enough = omega arith;
    granted = (record { capa = size; buf_type = in_use }, ground arith, refl, λ h. cc, λ h. refl);
    exclusive = λ c h. ground (arith, fw r c h);
    rooted = λ q h. (record { capa = size; buf_type = in_use }, ground arith, λ j. cc);
    moved = λ q h. inr (ground arith);
    forth = λ q c n h. elim (fw q c h) [ inl e ↦ inl (ground arith) | inr e ↦ inr e ];
    busy = λ q c h i j. elim (fw q c h) [ inl e ↦ absurd ((bw q c e).1 j) | inr e ↦ cc ];
    back = λ q c n h. let (e, m) = bw q c (ground arith) in (e, λ j. absurd (m j));
  }

  replace-Took :
      (old : Option ℕ) (s s1 : St W) (size : ℕ)
      → free old s ≡ done tt s1
      → ((q : ℕ) (c : TlsBuf)
          → s.heap q ≡ some c
          → (s1.heap q ≡ some c) ⊎ ((c.buf_type ≡ ready) × (s.slot ≡ some q)))
      → ((q : ℕ) (c : TlsBuf) → s1.heap q ≡ some c → (s.heap q ≡ some c) × (s.slot ≢ some q))
      → Fair s size (replace_buf vm cache_line old size s)
  replace-Took old s s1 size fr fw bw = elim (alloc_cases vm fresh cache_line size s1) [
    | inl e ↦ rw (replace_fails vm fresh cache_line old s s1 size fr e) tt
    | inr (r, f, e) ↦ elim (Option-cases (vm.pthread_setspecific (some r) s1.world)) [
      | inl set ↦
          rw (replace_lem vm fresh cache_line old s s1 size r fr e set)
            (replaced-Took s s1 size r fw bw f)
      | inr (err, set) ↦ rw (replace_unset vm fresh cache_line old s s1 size r err fr e set) tt
    ]
  ]

  reuse-Took :
      (s : St W) (size p : ℕ) (b : TlsBuf)
      → s.slot ≡ some p
      → s.heap p ≡ some b
      → b.buf_type ≡ ready
      → size ≤ b.capa
      → Fair s size (take_buf p b.capa s)
  unfolding take_buf
  reuse-Took s size p b sl hp k le =
      rw (hp, load)
        (record {
          enough = le;
          granted = (record b { buf_type = in_use }, ground arith, refl, (λ h. cc), λ h. sl);
          exclusive = λ c h. ground arith;
          rooted = λ q h. (record b { buf_type = in_use }, ground arith, λ j. cc);
          moved = λ q h. inl h;
          forth = λ q c n h. inl (ground arith);
          busy = λ q c h i j. j;
          back = λ q c n h. (ground arith, λ j. j);
        })

  slot-Took :
      (s : St W) (size p : ℕ) (b : TlsBuf) (k : TlsBufType)
      → Rooted s
      → s.slot ≡ some p
      → s.heap p ≡ some b
      → b.buf_type ≡ k
      → k ≢ malloced
      → Fair s size (rb_sp_gettlsbuf vm cache_line size s)
  slot-Took s size p b in_use v sl hp k n =
      rw (get_nested vm cache_line s size p b sl hp k) (nested-Took s size p b v sl hp k)
  slot-Took s size p b ready v sl hp k n = elim (dec_le size b.capa) [
    | yes le ↦ rw (get_reuse vm cache_line s size p b sl hp k le) (reuse-Took s size p b sl hp k le)
    | no gt ↦ rw (get_larger vm cache_line s size p b sl hp k (omega arith)) (
        replace-Took (some p) s (freed s p) size (free_lem s p hp)
          (λ q c e. elim (ℕ_discrete p q) [
            | yes h ↦ inr (ground arith)
            | no h ↦ inl (ground arith)
          ])
          (λ q c e. (ground arith, λ h. ground arith)))
  ]
  slot-Took s size p b malloced v sl hp k n = absurd (n refl)

  pub gettlsbuf-Took :
      (s : St W) (size : ℕ) → Rooted s → Fair s size (rb_sp_gettlsbuf vm cache_line size s)
  unfolding free
  gettlsbuf-Took s size v = elim (Option-cases s.slot) [
    | inl sl ↦
        rw (get_first vm cache_line s size sl)
          (replace-Took none s s size refl (λ q c e. inl e) (λ q c e. (e, λ h. cc)))
    | inr (p, sl) ↦ let (b, hp, n) = v p sl in slot-Took s size p b b.buf_type v sl hp refl n
  ]
