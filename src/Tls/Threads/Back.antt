-- ===== src/Tls/Threads/Back.antt =====
-- The steps by which a thread gives a buffer back: a return, and its end.
use sleepy_penguin.Proc.{done, in_use, malloced, TlsBufType, ready, TlsBuf, St}
use sleepy_penguin.Tls.Threads.{leave, left_by, mark, seen_by, Inv, Process}
use sleepy_penguin.Base.{
  Option-cases, inr, none, Option, sym, refl, inl, ◌∙◌, subst, false, ℕ_discrete, arith, true, some,
  ◌≡◌, ◌≢◌, ℕ,
}
use sleepy_penguin.Tls.Took.{Rooted}
use sleepy_penguin.Proc.Sat.{Sat}
use sleepy_penguin.Tls.{update, free, key_destructor, rb_sp_puttlsbuf}
use sleepy_penguin.Tls.Put.{put_malloced, put_own}

-- What a return of `p` leaves: a buffer at rest if it is the thread's own, and none if it is not.
pub record PutBack {W : Type 0} (s : St W) (p : ℕ) (t : St W) : Type 0 where
  pub others : (q : ℕ) → q ≢ p → t.heap q ≡ s.heap q
  pub slot : t.slot ≡ s.slot
  pub kept : (c : TlsBuf) → t.heap p ≡ some c → (s.slot ≡ some p) × (c.buf_type ≡ ready)
  pub own : s.slot ≡ some p → (c : TlsBuf) × (t.heap p ≡ some c) × (c.buf_type ≢ malloced)

module _ {W : Type 0} (s : St W) (p : ℕ) (b : TlsBuf) (rooted : Rooted s)
    (hp : s.heap p ≡ some b) where
  -- `rb_sp_puttlsbuf` of a live buffer that is not at rest, and is the thread's own if it is marked
  -- as in use, does not crash or raise.
  pub puttlsbuf-PutBack :
      (k : TlsBufType)
      → b.buf_type ≡ k
      → k ≢ ready
      → (k ≡ in_use → s.slot ≡ some p)
      → Sat ⊥ (λ _ t. PutBack s p t) (λ _ _. ⊥) (rb_sp_puttlsbuf (some p) s)
  puttlsbuf-PutBack in_use e n own = rw (put_own s p b hp (own refl) e) (record {
    others = λ q m. ground arith;
    slot = refl;
    kept = λ c h. (own refl, ground arith);
    own = λ h. (record b { buf_type = ready }, ground arith, λ m. cc);
  })
  puttlsbuf-PutBack malloced e n own = rw (put_malloced s p b hp e) (record {
    others = λ q m. ground arith;
    slot = refl;
    kept = λ c h. ground arith;
    own = λ h. let (c, f, m) = rooted p h in absurd (m (ground arith));
  })
  puttlsbuf-PutBack ready e n own = absurd (n refl)

module _ {W : Type 0} (x : Process W) (inv : Inv x) (i : ℕ) where
  module _ (p : ℕ) (out : x.held i p ≡ true) (t : St W) (k : PutBack (seen_by i x) p t) where
    -- The process after the return.
    abbrev put : Process W
    put = mark i p false (left_by i t x)

    pub put_held : (j q : ℕ) → put.held j q ≡ true → (x.held j q ≡ true) × (q ≢ p)
    put_held j q h = (
      ground arith,
      λ e. elim (ℕ_discrete i j) [
        | yes f ↦ ground arith
        | no n ↦ n (inv.alone i j p out (ground arith))
      ],
    )

    put_slot : (j q : ℕ) → put.slot j ≡ some q → x.slot j ≡ some q
    put_slot j q h = ground (arith, k.slot)

    slot_put : (j q : ℕ) → x.slot j ≡ some q → put.slot j ≡ some q
    slot_put j q h = ground (arith, k.slot)

    -- Only the thread that has it as its own holds a buffer that is another's own.
    own_slot : (j : ℕ) → x.slot j ≡ some p → x.slot i ≡ some p
    own_slot j e =
        let (b, h, n, o) = inv.holds i p out in let (c, f, m) = inv.mine j p e in o (ground arith)

    pub put-Inv : Inv put
    put-Inv = record {
      mine = λ j q e. elim (ℕ_discrete q p) [
        | yes f ↦
            let (c, g, m) =
              k.own (own_slot j (put_slot j p (subst (λ z. put.slot j ≡ some z) f e))) in
            (c, ground arith, m)
        | no n ↦ let (c, f, m) = inv.mine j q (put_slot j q e) in (c, k.others q n ∙ f, m)
      ];
      apart = λ a b q e f. inv.apart a b q (put_slot a q e) (put_slot b q f);
      holds = λ j q e.
          let (old, n) = put_held j q e in
          let (c, f, m, own) = inv.holds j q old in
          (c, k.others q n ∙ f, m, λ u. slot_put j q (own u));
      alone = λ a b q e f. inv.alone a b q (put_held a q e).0 (put_held b q f).0;
      owned = λ q c e. elim (ℕ_discrete q p) [
        | yes f ↦ inl (i, inl (slot_put i q (ground (arith, k.kept c))))
        | no n ↦ elim (inv.owned q c (sym (k.others q n) ∙ e)) [
          | inl (j, w) ↦
              inl (j, elim w [ inl o ↦ inl (slot_put j q o) | inr o ↦ inr (ground arith) ])
          | inr l ↦ inr l
        ]
      ];
    }

  -- The process once the thread has ended and its own buffer, if any, is freed.
  abbrev ended : (ℕ → Option TlsBuf) → Process W
  ended h = leave i (left_by i (record (seen_by i x) { heap = h; slot = none }) x)

  ended_slot :
      (h : ℕ → Option TlsBuf) (j q : ℕ) → (ended h).slot j ≡ some q → (i ≢ j) × (x.slot j ≡ some q)
  ended_slot h j q e = (λ f. ground arith, ground arith)

  pub ended_held :
      (h : ℕ → Option TlsBuf) (j q : ℕ) → (ended h).held j q ≡ true → (i ≢ j) × (x.held j q ≡ true)
  ended_held h j q e = (λ f. ground arith, ground arith)

  -- What is out with another thread is not this one's own.
  pub away : (j q : ℕ) → i ≢ j → x.held j q ≡ true → x.slot i ≢ some q
  away j q n e o =
      let (b, h, m) = inv.mine i q o in
      let (c, f, k, own) = inv.holds j q e in n (inv.apart i j q o (own (ground arith)))

  ended-Inv :
      (h : ℕ → Option TlsBuf)
      → ((q : ℕ) → x.slot i ≢ some q → h q ≡ x.heap q)
      → ((q : ℕ) → x.slot i ≡ some q → h q ≡ none)
      → Inv (ended h)
  ended-Inv h same gone = record {
    mine = λ j q e.
        let (n, f) = ended_slot h j q e in
        let (c, g, m) = inv.mine j q f in (c, same q (λ o. n (inv.apart i j q o f)) ∙ g, m);
    apart = λ a b q e f. inv.apart a b q (ended_slot h a q e).1 (ended_slot h b q f).1;
    holds = λ j q e.
        let (n, g) = ended_held h j q e in
        let (c, f, m, own) = inv.holds j q g in
        (c, same q (away j q n g) ∙ f, m, λ u. ground (arith, own u));
    alone = λ a b q e f. inv.alone a b q (ended_held h a q e).1 (ended_held h b q f).1;
    owned = λ q c e.
        let n : x.slot i ≢ some q = λ o. ground (arith, gone q o) in
        elim (inv.owned q c (sym (same q n) ∙ e)) [
          | inl (j, w) ↦ elim (ℕ_discrete i j) [
            | yes f ↦ elim w [ inl o ↦ absurd (ground (arith, n)) | inr o ↦ inr (ground arith) ]
            | no m ↦ inl (j, elim w [ inl o ↦ inl (ground arith) | inr o ↦ inr (ground arith) ])
          ]
          | inr l ↦ inr (ground arith)
        ];
  }

  -- At the end of the thread its own buffer is freed, and nothing else.
  pub destructor_lem :
      (t : St W) × (key_destructor (seen_by i x) ≡ done tt t)
      × Inv (leave i (left_by i t x))
      × ((q : ℕ) → x.slot i ≢ some q → t.heap q ≡ x.heap q)
  unfolding key_destructor free
  destructor_lem = elim (Option-cases (x.slot i)) [
    | inl e ↦ (
      record (seen_by i x) { slot = none },
      rw e refl,
      ended-Inv x.heap (λ q n. refl) (λ q o. cc),
      λ q n. refl,
    )
    | inr (p, e) ↦
        let (b, h, m) = inv.mine i p e in
        (
          record (seen_by i x) { heap = update x.heap p none; slot = none },
          rw e (ground arith),
          ended-Inv (update x.heap p none) (λ q n. ground arith) (λ q o. ground arith),
          λ q n. ground arith,
        )
  ]
