-- ===== src/Tls/Threads/Moves.antt =====
-- Each step of a thread keeps the invariant of the process.
use sleepy_penguin.Tls.Threads.{grant, Owner, left_by, seen_by, started, Process, Inv}
use sleepy_penguin.Base.{◌∙◌, inl, inr, sym, ℕ_discrete, subst, arith, ◌⊎◌, some, ◌≡◌, ◌≢◌, true, ℕ}
use sleepy_penguin.Proc.{in_use, ready, malloced, TlsBuf, St}
use sleepy_penguin.Tls.Took.{Took}

module _ {W : Type 0} where
  pub started-Inv : (w : W) → Inv (started w)
  started-Inv w = record {
    mine = λ i p h. cc;
    apart = λ i j p h k. cc;
    holds = λ i p h. cc;
    alone = λ i j p h k. cc;
    owned = λ p b h. cc;
  }

  module _ (x : Process W) (inv : Inv x) (i : ℕ) where
    -- A thread that gets a buffer.
    module _ (size : ℕ) (r : ℕ × ℕ) (t : St W) (k : Took (seen_by i x) size r t) where
      abbrev got : Process W
      got = grant i r.0 (left_by i t x)

      got_slot : (j p : ℕ) → got.slot j ≡ some p → (x.slot j ≡ some p) ⊎ ((j ≡ i) × (p ≡ r.0))
      got_slot j p h = elim (ℕ_discrete i j) [
        | yes e ↦ elim (k.moved p (ground arith)) [
          | inl m ↦ inl (ground arith)
          | inr m ↦ inr (omega arith, m)
        ]
        | no n ↦ inl (ground arith)
      ]

      got_held : (j p : ℕ) → got.held j p ≡ true → (x.held j p ≡ true) ⊎ ((j ≡ i) × (p ≡ r.0))
      got_held j p h = ground arith

      -- What another thread has at rest is not what this one is given.
      slot_apart : (j p : ℕ) → x.slot j ≡ some p → p ≡ r.0 → j ≡ i
      slot_apart j p e q =
          let (b, h, n) = inv.mine j p e in inv.apart j i p e (ground (arith, k.exclusive b))

      held_apart : (j p : ℕ) → x.held j p ≡ true → p ≢ r.0
      held_apart j p e q =
          let (b, h, n, o) = inv.holds j p e in
          n (k.exclusive b (subst (λ y. x.heap y ≡ some b) q h)).0

      other_mine :
          (j p : ℕ)
          → i ≢ j
          → x.slot j ≡ some p
          → (b : TlsBuf) × (t.heap p ≡ some b) × (b.buf_type ≢ malloced)
      other_mine j p n e =
          let (b, h, m) = inv.mine j p e in
          let apart : p ≢ r.0 = λ q. n (sym (slot_apart j p e q)) in
          elim (k.forth p b apart h) [
            | inl same ↦ (b, same, m)
            | inr (_, own) ↦ absurd (n (inv.apart i j p own e))
          ]

      still_held :
          (j p : ℕ)
          → x.held j p ≡ true
          → (b : TlsBuf) × (t.heap p ≡ some b)
            × (b.buf_type ≢ ready)
            × (b.buf_type ≡ in_use → got.slot j ≡ some p)
      still_held j p e =
          let (b, h, n, o) = inv.holds j p e in
          elim (k.forth p b (held_apart j p e) h) [
            | inl same ↦ (b, same, n, λ u. ground (arith, k.busy p b h u, o u))
            | inr (idle, _) ↦ absurd (n idle)
          ]

      got_owned :
          (p : ℕ) (b : TlsBuf) → t.heap p ≡ some b → ((j : ℕ) × Owner got p j) ⊎ (got.lost p ≡ true)
      got_owned p b h = elim (ℕ_discrete p r.0) [
        | yes e ↦ inl (i, inr (ground arith))
        | no n ↦
            let (before, stays) = k.back p b n h in
            elim (inv.owned p b before) [
              | inl (j, w) ↦ elim w [
                | inl e ↦ inl (j, inl (ground (arith, stays)))
                | inr e ↦ inl (j, inr (ground arith))
              ]
              | inr e ↦ inr (ground arith)
            ]
      ]

      pub got-Inv : Inv got
      got-Inv = record {
        mine = λ j p h. elim (ℕ_discrete i j) [
          | yes e ↦ k.rooted p (ground arith)
          | no n ↦ other_mine j p n (ground arith)
        ];
        apart = λ a b p h l. elim (got_slot a p h) [
          | inl e ↦ elim (got_slot b p l) [
            | inl f ↦ inv.apart a b p e f
            | inr (f, q) ↦ slot_apart a p e q ∙ sym f
          ]
          | inr (e, q) ↦ elim (got_slot b p l) [
            | inl f ↦ e ∙ sym (slot_apart b p f q)
            | inr (f, _) ↦ e ∙ sym f
          ]
        ];
        holds = λ j p h. elim (got_held j p h) [
          | inl e ↦ still_held j p e
          | inr (e, q) ↦
              let (b, f, _, n, o) = k.granted in (b, ground arith, n, λ u. ground (arith, o u))
        ];
        alone = λ a b p h l. elim (got_held a p h) [
          | inl e ↦ elim (got_held b p l) [
            | inl f ↦ inv.alone a b p e f
            | inr (f, q) ↦ absurd (held_apart a p e q)
          ]
          | inr (e, q) ↦ elim (got_held b p l) [
            | inl f ↦ absurd (held_apart b p f q)
            | inr (f, _) ↦ e ∙ sym f
          ]
        ];
        owned = got_owned;
      }
