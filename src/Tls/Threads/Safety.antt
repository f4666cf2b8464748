-- ===== src/Tls/Threads/Safety.antt =====
-- What the threads of a process can count on, in whatever order they run.
use sleepy_penguin.Tls.Threads.{
  leave, elsewhere, exits, puts, left_by, moves, refused, seen_by, gets, begins, Move, Reach, Inv,
  Process,
}
use sleepy_penguin.Ruby.{Allocates, Vm}
use sleepy_penguin.Base.{
  ◌≢◌, fun_ext, arith, is_some, subst, ◌≤◌, refl, inr, some, inl, ◌∙◌, ap, false, sym, true, ◌≡◌, ℕ,
}
use sleepy_penguin.Proc.Sat.{Sat}
use sleepy_penguin.Tls.Took.{gettlsbuf-Took, Took}
use sleepy_penguin.Tls.Threads.Back.{
  ended_held, away, put_held, destructor_lem, put-Inv, puttlsbuf-PutBack, PutBack,
}
use sleepy_penguin.Tls.{key_destructor, rb_sp_puttlsbuf, rb_sp_gettlsbuf}
use sleepy_penguin.Tls.Threads.Moves.{started-Inv, got-Inv}
use sleepy_penguin.Proc.{done, St}

-- What a thread may ask of init.c: a buffer; the return of one that it has out; its own end,
-- whatever it has out.
pub data Request {W : Type 0} (x : Process W) (i : ℕ) : Type 0 where
  asks : ℕ → Request x i
  gives_back : (p : ℕ) → x.held i p ≡ true → Request x i
  leaves : Request x i

module _ {W : Type 0} (vm : Vm W) (fresh : Allocates vm) (cache_line : ℕ) where
  took :
      (x : Process W) (inv : Inv x) (i size : ℕ)
      → Sat ⊥
          (Took (seen_by i x) size)
          (λ _ _. Unit {0})
          (rb_sp_gettlsbuf vm cache_line size (seen_by i x))
  took x inv i size = gettlsbuf-Took vm fresh cache_line (seen_by i x) size (inv.mine i)

  back :
      (x : Process W) (inv : Inv x) (i p : ℕ)
      → x.held i p ≡ true
      → Sat ⊥ (λ _ t. PutBack (seen_by i x) p t) (λ _ _. ⊥) (rb_sp_puttlsbuf (some p) (seen_by i x))
  back x inv i p e =
      let (b, h, n, own) = inv.holds i p e in
      puttlsbuf-PutBack (seen_by i x) p b (inv.mine i) h b.buf_type refl n own

  Took-done :
      (x : Process W) (inv : Inv x) (i size : ℕ) (r : ℕ × ℕ) (t : St W)
      → rb_sp_gettlsbuf vm cache_line size (seen_by i x) ≡ done r t
      → Took (seen_by i x) size r t
  Took-done x inv i size r t e =
      subst (λ y. Sat ⊥ (Took (seen_by i x) size) (λ _ _. Unit {0}) y) e (took x inv i size)

  back_done :
      (x : Process W) (inv : Inv x) (i p : ℕ) (t : St W)
      → x.held i p ≡ true
      → rb_sp_puttlsbuf (some p) (seen_by i x) ≡ done tt t
      → PutBack (seen_by i x) p t
  back_done x inv i p t out e =
      subst (λ y. Sat ⊥ (λ _ t. PutBack (seen_by i x) p t) (λ _ _. ⊥) y) e (back x inv i p out)

  exit_done :
      (x : Process W) (inv : Inv x) (i : ℕ) (t : St W)
      → key_destructor (seen_by i x) ≡ done tt t
      → Inv (leave i (left_by i t x)) × ((q : ℕ) → x.slot i ≢ some q → t.heap q ≡ x.heap q)
  exit_done x inv i t e =
      let (u, f, h, same) = destructor_lem x inv i in
      let same_end : u ≡ t = cc in
      (
        subst (λ v. Inv (leave i (left_by i v x))) same_end h,
        λ q m. ap (λ (v : St W). v.heap q) (sym same_end) ∙ same q m,
      )

  -- A move that leaves the buffers and the holders as they are.
  same-Inv :
      (x y : Process W)
      → Inv x
      → y.heap ≡ x.heap
      → y.slot ≡ x.slot
      → y.held ≡ x.held
      → y.lost ≡ x.lost
      → Inv y
  same-Inv x y inv h s k l = record {
    mine = λ i p e.
        let (b, f, m) = inv.mine i p (sym (ap (λ g. g i) s) ∙ e) in (b, ap (λ g. g p) h ∙ f, m);
    apart = λ i j p e f. inv.apart i j p (sym (ap (λ g. g i) s) ∙ e) (sym (ap (λ g. g j) s) ∙ f);
    holds = λ i p e.
        let (b, f, m, own) = inv.holds i p (sym (ap (λ g. g i p) k) ∙ e) in
        (b, ap (λ g. g p) h ∙ f, m, λ u. ap (λ g. g i) s ∙ own u);
    alone =
        λ i j p e f. inv.alone i j p (sym (ap (λ g. g i p) k) ∙ e) (sym (ap (λ g. g j p) k) ∙ f);
    owned = λ p b e. elim (inv.owned p b (sym (ap (λ g. g p) h) ∙ e)) [
      | inl (i, w) ↦
          inl
            (i, elim w [ inl o ↦ inl (ap (λ g. g i) s ∙ o) | inr o ↦ inr (ap (λ g. g i p) k ∙ o) ])
      | inr o ↦ inr (ap (λ g. g p) l ∙ o)
    ];
  }

  Move-Inv : (x y : Process W) → Inv x → Move vm cache_line x y → Inv y
  Move-Inv x _ inv (gets i size r t e) = got-Inv x inv i size r t (Took-done x inv i size r t e)
  Move-Inv x _ inv (refused i size e t q h s) =
      same-Inv x (left_by i t x) inv h (fun_ext λ j. ground (arith, s)) refl refl
  Move-Inv x _ inv (puts i p t out e) = put-Inv x inv i p out t (back_done x inv i p t out e)
  Move-Inv x _ inv (exits i t e) = (exit_done x inv i t e).0
  Move-Inv x _ inv (elsewhere i e w) = same-Inv x _ inv refl refl refl refl

  -- Whatever the order in which the threads of a process get buffers, put them back and end, with
  -- buffers out or without, where malloc overlays no live buffer and no exception has freed a
  -- thread's buffer at rest, the invariant holds: each thread's own buffer is live and no other
  -- thread's; each buffer that is out is live, not at rest and out with one thread only, and is that
  -- thread's own if it is marked as in use; every live buffer is some thread's own, or out, or was
  -- out with a thread that has ended.
  pub Reach-Inv : (x : Process W) → Reach vm cache_line x → Inv x
  Reach-Inv _ (begins w) = started-Inv w
  Reach-Inv _ (moves {x} {y} r m) = Move-Inv x y (Reach-Inv x r) m

  -- What the answer to a request is to be.
  abbrev pub Served : (x : Process W) (i : ℕ) → Request x i → Type 0
  Served x i (asks size) =
      Sat ⊥ (λ r t. (size ≤ r.1) × (is_some (t.heap r.0) ≡ true) × ((j : ℕ) → x.held j r.0 ≡ false))
        (λ _ _. Unit {0}) (rb_sp_gettlsbuf vm cache_line size (seen_by i x))
  Served x i (gives_back p out) =
      Sat ⊥ (λ _ _. Unit {0}) (λ _ _. ⊥) (rb_sp_puttlsbuf (some p) (seen_by i x))
  Served x i leaves = Sat ⊥ (λ _ _. Unit {0}) (λ _ _. ⊥) (key_destructor (seen_by i x))

  -- From every state that the process so comes to, whatever a thread does next, a buffer that is
  -- out before and after is the same buffer, with its capacity and type: no request, return or end of
  -- any thread, with buffers out or without, touches it.
  pub Move-isolated :
      (x y : Process W) (i p : ℕ)
      → Reach vm cache_line x
      → Move vm cache_line x y
      → x.held i p ≡ true
      → y.held i p ≡ true
      → y.heap p ≡ x.heap p
  Move-isolated x _ i p r (gets j size a t e) out still =
      let inv = Reach-Inv x r in
      let k = Took-done x inv j size a t e in
      let (b, h, n, own) = inv.holds i p out in
      elim (k.forth p b (λ f. n (k.exclusive b (subst (λ q. x.heap q ≡ some b) f h)).0) h) [
        | inl same ↦ same ∙ sym h
        | inr (idle, _) ↦ absurd (n idle)
      ]
  Move-isolated x _ i p r (refused j size e t q h s) out still = ap (λ g. g p) h
  Move-isolated x _ i p r (puts j q t o e) out still =
      let inv = Reach-Inv x r in
      let k = back_done x inv j q t o e in k.others p (put_held x inv j q o t k i p still).1
  Move-isolated x _ i p r (exits j t e) out still =
      let inv = Reach-Inv x r in
      let (n, held) = ended_held x inv j t.heap i p still in
      (exit_done x inv j t e).1 p (away x inv j i p n held)
  Move-isolated x _ i p r (elsewhere j e w) out still = refl
