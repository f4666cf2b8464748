-- ===== src/Tls/Alloc.antt =====
-- The two ways in which `rb_sp_gettlsbuf` makes a new buffer.
use sleepy_penguin.Ruby.{Allocates, Vm}
use sleepy_penguin.Base.{
  ◌+◌, Option-cases, inr, refl, inl, leb, Bool-cases, ap, ◌⊎◌, arith, none, ◌≡◌, some, Option, ℕ,
}
use sleepy_penguin.Tls.{
  sizeof_tlsbuf, ready-cases, uint32_max, update-update, free, update, replace_buf, nested_buf,
  alloc_tlsbuf,
}
use sleepy_penguin.Proc.{sys_fail, no_memory, done, raise, in_use, malloced, TlsBuf, St}
use sleepy_penguin.Tls.Inv.{Level, own-IsValid, Got, IsValid, Untouched}
use sleepy_penguin.Proc.Sat.{Sat}

module _ {W : Type 0} (vm : Vm W) (fresh : Allocates vm) (cache_line : ℕ) where
  pub alloc_cases :
      (size : ℕ) (s : St W)
      → (alloc_tlsbuf vm cache_line size s ≡ raise no_memory s)
        ⊎ ((p : ℕ) × (s.heap p ≡ none)
            × (alloc_tlsbuf vm cache_line size s
                ≡ done p (record s {
                  heap = update s.heap p (some (record { capa = size; buf_type = malloced }));
                })))
  unfolding alloc_tlsbuf
  alloc_cases size s = elim (Bool-cases (leb uint32_max size)) [
    | inl big ↦ inl (rw big)
    | inr fits ↦
        elim (Option-cases (vm.posix_memalign cache_line (size + sizeof_tlsbuf) s.heap s.world)) [
          | inl e ↦ inl (rw (fits, e))
          | inr (p, e) ↦ inr (p, fresh.fresh _ _ _ _ p e, rw (fits, e))
        ]
  ]

  fresh_Got :
      (s : St W) (size p r : ℕ) (b : TlsBuf)
      → IsValid s
      → s.slot ≡ some p
      → s.heap p ≡ some b
      → b.buf_type ≡ in_use
      → s.heap r ≡ none
      → (t : St W)
      → t ≡ record s { heap = update s.heap r (some (record { capa = size; buf_type = malloced })) }
      → Got s size (r, size) t
  fresh_Got s size p r b v sl hp k f t et = record {
    valid = record {
      owned = λ q c e. ground (arith, v.owned q c, ap (λ (u : St W). u.heap q) et);
      live = λ q e. (b, ground (arith, ap (λ (u : St W). u.heap q) et), ground arith);
    };
    enough = omega arith;
    granted = (
      record { capa = size; buf_type = malloced },
      ground (arith, ap (λ (u : St W). u.heap r) et),
      refl,
      λ e. cc,
    );
    exclusive = λ c e. ground arith;
    others = λ q c e n. ground (arith, ap (λ (u : St W). u.heap q) et);
    only = λ q c n e k. ground (arith, ap (λ (u : St W). u.heap q) et);
    world = ground arith;
  }

  -- The state after a `malloced` buffer has been made.
  abbrev pub grown : St W → ℕ → ℕ → St W
  grown s size r = record s {
    heap = update s.heap r (some (record { capa = size; buf_type = malloced }));
  }

  pub nested_lem :
      (s : St W) (size r : ℕ)
      → alloc_tlsbuf vm cache_line size s ≡ done r (grown s size r)
      → nested_buf vm cache_line size s ≡ done (r, size) (grown s size r)
  unfolding nested_buf
  nested_lem s size r e = ground (
    arith,
    update-update s.heap r (some (record { capa = size; buf_type = malloced }))
        (some (record { capa = size; buf_type = malloced })),
  )

  pub nested_fails :
      (s : St W) (size : ℕ)
      → alloc_tlsbuf vm cache_line size s ≡ raise no_memory s
      → nested_buf vm cache_line size s ≡ raise no_memory s
  unfolding nested_buf
  nested_fails s size e = rw e

  pub nested-Got :
      (s : St W) (size p : ℕ) (b : TlsBuf)
      → IsValid s
      → s.slot ≡ some p
      → s.heap p ≡ some b
      → b.buf_type ≡ in_use
      → Sat ⊥ (Got s size) (λ e t. Level s t) (nested_buf vm cache_line size s)
  nested-Got s size p b v sl hp k = elim (alloc_cases size s) [
    | inl e ↦ rw (nested_fails s size e) ((λ q c h n. h), λ q c h n. h)
    | inr (r, f, e) ↦ rw (nested_lem s size r e) (fresh_Got s size p r b v sl hp k f _ refl)
  ]

  -- The state in which a buffer of this size is out, as the thread's own.
  abbrev pub owning : St W → ℕ → ℕ → St W
  owning s size r = record s {
    heap = update s.heap r (some (record { capa = size; buf_type = in_use }));
    slot = some r;
  }

  pub replace_lem :
      (old : Option ℕ) (s s1 : St W) (size r : ℕ)
      → free old s ≡ done tt s1
      → alloc_tlsbuf vm cache_line size s1 ≡ done r (grown s1 size r)
      → vm.pthread_setspecific (some r) s1.world ≡ none
      → replace_buf vm cache_line old size s ≡ done (r, size) (owning s1 size r)
  unfolding replace_buf
  replace_lem old s s1 size r f a e = rw f (
      rw a (
        ground (
          arith,
          e,
          update-update s1.heap r (some (record { capa = size; buf_type = malloced }))
              (some (record { capa = size; buf_type = in_use })),
        )))

  pub replace_fails :
      (old : Option ℕ) (s s1 : St W) (size : ℕ)
      → free old s ≡ done tt s1
      → alloc_tlsbuf vm cache_line size s1 ≡ raise no_memory s1
      → replace_buf vm cache_line old size s ≡ raise no_memory s1
  unfolding replace_buf
  replace_fails old s s1 size f a = rw f (rw a)

  pub replace_unset :
      (old : Option ℕ) (s s1 : St W) (size r err : ℕ)
      → free old s ≡ done tt s1
      → alloc_tlsbuf vm cache_line size s1 ≡ done r (grown s1 size r)
      → vm.pthread_setspecific (some r) s1.world ≡ some err
      → replace_buf vm cache_line old size s
        ≡ raise
            (sys_fail err "BUG: pthread_setspecific")
            (record s1 { heap = update (grown s1 size r).heap r none; errno = err })
  unfolding replace_buf
  replace_unset old s s1 size r err f a e = rw f (rw a (ground (arith, e)))

  -- Where every other buffer is a `malloced` one, a replacement is the thread's own.
  owning-Got :
      (s s1 : St W) (size r : ℕ)
      → Untouched s s1
      → ((q : ℕ) (c : TlsBuf) → s1.heap q ≡ some c → (c.buf_type ≡ malloced) × (s.heap q ≡ some c))
      → s1.heap r ≡ none
      → s1.world ≡ s.world
      → Got s size (r, size) (owning s1 size r)
  owning-Got s s1 size r keeps rest f w = record {
    valid = own-IsValid s1 _ r _ (λ e. cc) refl refl (λ q c n e. (rest q c e).0);
    enough = omega arith;
    granted = (record { capa = size; buf_type = in_use }, ground arith, refl, λ e. cc);
    exclusive =
        λ b e. elim (ready-cases b.buf_type) [ inl k ↦ k | inr k ↦ ground (arith, keeps r b e k) ];
    others = λ q c e n. ground (arith, keeps q c e n);
    only = λ q c n e k. ground (arith, rest q c);
    world = w;
  }

  -- A first buffer, or one in place of the old one, which `free` has given back.
  pub replace-Got :
      (old : Option ℕ) (s s1 : St W) (size : ℕ)
      → free old s ≡ done tt s1
      → Untouched s s1
      → ((q : ℕ) (c : TlsBuf) → s1.heap q ≡ some c → (c.buf_type ≡ malloced) × (s.heap q ≡ some c))
      → s1.world ≡ s.world
      → Sat ⊥ (Got s size) (λ e t. Level s t) (replace_buf vm cache_line old size s)
  replace-Got old s s1 size fr keeps rest w = elim (alloc_cases size s1) [
    | inl e ↦ rw (replace_fails old s s1 size fr e) (keeps, λ q c h n. (rest q c h).1)
    | inr (r, f, e) ↦ elim (Option-cases (vm.pthread_setspecific (some r) s1.world)) [
      | inl set ↦ rw (replace_lem old s s1 size r fr e set) (owning-Got s s1 size r keeps rest f w)
      | inr (err, set) ↦
          rw (replace_unset old s s1 size r err fr e set)
            ((λ q c h n. ground (arith, keeps q c h n)), λ q c h n. ground (arith, rest q c))
    ]
  ]
