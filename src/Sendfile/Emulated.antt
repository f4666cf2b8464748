-- ===== src/Sendfile/Emulated.antt =====
-- What the emulation of sendfile(2) by pread(2) and write(2) copies.
use sleepy_penguin.Sendfile.{advance, pread_sendfile, read_round, max_read, Sent, SendfileCalls}
use sleepy_penguin.Sendfile.Contract.{Serves, IsSent}
use sleepy_penguin.Proc.Sat.{Sat-mono, Sat-and_then, Sat-syscall, Sat-call, Sat}
use sleepy_penguin.Proc.Loop.{loop, loop_total, Keeps}
use sleepy_penguin.Base.{
  length-take_le, take-take, append-nil, take, inr, inl, sym, subst, ◌==◌, Bool-cases, none, refl,
  ◌∙◌, drop, some, ◌<◌, Option, ap, ◌∷◌, pos, ◌+◌, arith, ℤ, ◌≡◌, ◌++◌, ◌≤◌, length, [], List, ℕ,
}
use sleepy_penguin.Proc.{
  throws, set_errno, pure, Exn, get_errno, ◌>>=◌, call, yields, syscall, and_then, fails, Cmd,
  gives, St,
}
use sleepy_penguin.Base.Errno.{eintr}

add_zero : (n : ℕ) → n ≡ n + 0
add_zero n = omega arith

-- What pread(2) and write(2) promise of a file with some contents and of what a socket has taken:
-- each may do less than it is asked for, a failed read uses up one of the failures to come, nothing
-- adds to them, and neither a read nor the release of the buffer touches the socket.
pub record Copying {W : Type 0} (left : W → ℕ) (out : W → List ℕ) (contents : List ℕ)
    (sock file : ℤ) (sys : SendfileCalls W) : Type 0 where
  pub was_read :
      (n o : ℕ) (w : W) (bs : List ℕ) (w' : W)
      → sys.pread file n (pos o) w ≡ gives bs w'
      → (out w' ≡ out w)
        × (left w' ≤ left w)
        × ((k : ℕ) × (k ≤ n) × (bs ≡ take k (drop o contents)))
  pub read_failed :
      (n o : ℕ) (w : W) (e : ℕ) (w' : W)
      → sys.pread file n (pos o) w ≡ fails e w'
      → (out w' ≡ out w) × (left w' < left w)
  pub wrote :
      (bs : List ℕ) (w : W) (n : ℕ) (w' : W)
      → sys.write sock bs w ≡ gives n w'
      → (n ≤ length bs) × (left w' ≤ left w) × (out w' ≡ out w ++ take n bs)
  pub write_failed :
      (bs : List ℕ) (w : W) (e : ℕ) (w' : W)
      → sys.write sock bs w ≡ fails e w'
      → (out w' ≡ out w) × (left w' ≤ left w)
  pub freed :
      (e : ℕ) (w : W) (e' : ℕ) (w' : W)
      → sys.xfree e w ≡ yields tt e' w'
      → (out w' ≡ out w) × (left w' ≤ left w)
  pub returns : (e : ℕ) (w : W) (x : Exn) (e' : ℕ) (w' : W) → sys.xfree e w ≡ throws x e' w' → ⊥

module _ {W : Type 0} (left : W → ℕ) (out : W → List ℕ) (contents : List ℕ) (sock file : ℤ)
    (sys : SendfileCalls W) (kernel : Copying left out contents sock file sys) where
  abbrev Same : St W → St W → Type 0
  Same s t = (out t.world ≡ out s.world) × (left t.world ≤ left s.world)

  -- Some of what stands in the file from `o` on.
  abbrev Read : ℕ → ℕ → St W → Option (List ℕ) → St W → Type 0
  Read o n s none t = Same s t
  Read o n s (some bs) t = Same s t × ((k : ℕ) × (k ≤ n) × (bs ≡ take k (drop o contents)))

  round-Read :
      (o n : ℕ) (s t : St W)
      → Same s t
      → Sat ⊥
          (Keeps (λ _ u. Same s u × (left u.world < left t.world)) (Read o n s))
          (λ _ _. ⊥)
          (read_round sys file (some (pos o)) n tt t)
  unfolding read_round
  round-Read o n s t h =
      Sat-syscall ⊥ (Keeps (λ _ u. Same s u × (left u.world < left t.world)) (Read o n s))
        (λ _ _. ⊥) (sys.pread file n (pos o)) t _
        (λ bs w q.
          let (a, le, b) = kernel.was_read n o t.world bs w q in
          ((a ∙ h.0, omega (arith, le, h.1)), b))
        (λ e w q.
          let (a, b) = kernel.read_failed n o t.world e w q in
          elim (Bool-cases (e == eintr)) [
            | inl f ↦ rw f ((a ∙ h.0, omega (arith, b, h.1)), b)
            | inr f ↦ rw f (a ∙ h.0, omega (arith, b, h.1))
          ])

  reads :
      (o n fuel : ℕ) (s : St W)
      → left s.world < fuel
      → Sat ⊥ (Read o n s) (λ _ _. ⊥) (loop fuel (read_round sys file (some (pos o)) n) tt s)
  reads o n fuel s m =
      loop_total (read_round sys file (some (pos o)) n) (λ _ t. Same s t) (Read o n s) (λ _ _. ⊥)
        (λ _ t. left t.world) (λ _ t h. round-Read o n s t h) fuel tt s m (refl, omega arith)

  -- What sendfile(2) says, and no more failures to come than before.
  abbrev Answered : ℕ → ℕ → St W → Sent → St W → Type 0
  Answered o count s r t = (left t.world ≤ left s.world) × IsSent out contents o count s r t

  -- The release of the buffer, and what follows it.
  free_then :
      (o count : ℕ) (s t : St W) (bs : List ℕ) (k : Unit {0} → Cmd W Sent)
      → (out t.world ≡ bs) × (left t.world ≤ left s.world)
      → ((u : St W)
          → (out u.world ≡ bs) × (left u.world ≤ left s.world)
          → Sat ⊥ (Answered o count s) (λ _ _. ⊥) (k tt u))
      → Sat ⊥ (Answered o count s) (λ _ _. ⊥) (and_then (call sys.xfree t) k)
  free_then o count s t bs k (h, le) next =
      Sat-call ⊥ (Answered o count s) (λ _ _. ⊥) sys.xfree t k
        (λ _ e w q.
          let (same, less) = kernel.freed t.errno t.world e w q in
          next (record t { errno = e; world = w }) (same ∙ h, omega arith))
        (λ x e w q. kernel.returns t.errno t.world x e w q)

  moved_offset : (o n : ℕ) → advance (some (pos o)) n ≡ some (pos (o + n))
  moved_offset o n = ground arith

  max_read_le : (count : ℕ) → max_read sys count ≤ count
  max_read_le count = ground arith

  -- The write of what has been read.
  writes :
      (o count : ℕ) (s t : St W) (b : ℕ) (bs : List ℕ) (k : ℕ)
      → Same s t
      → k ≤ count
      → b ∷ bs ≡ take k (drop o contents)
      → Sat ⊥
          (Answered o count s)
          (λ _ _. ⊥)
          ((syscall (sys.write sock (b ∷ bs)) >>= λ w. call sys.xfree >>= λ _.
              pure (w, elim w [ none ↦ some (pos o) | some n ↦ advance (some (pos o)) n ]))
            t)
  writes o count s t b bs k h le e =
      Sat-syscall ⊥ (Answered o count s) (λ _ _. ⊥) (sys.write sock (b ∷ bs)) t _
        (λ n w q.
          let (short, fewer, sent) = kernel.wrote (b ∷ bs) t.world n w q in
          let within : n ≤ length (take k (drop o contents)) =
            subst (λ xs. n ≤ length xs) e short in
          let same : take n (b ∷ bs) ≡ take n (drop o contents) =
            ap (take n) e ∙ take-take n k (drop o contents) within in
          let less : n ≤ count = omega (arith, length-take_le k (drop o contents)) in
          free_then o count s (record t { world = w }) (out s.world ++ take n (drop o contents))
            (λ _. pure (some n, advance (some (pos o)) n))
            (
              sent ∙ ap (λ xs. xs ++ take n (b ∷ bs)) h.0 ∙ ap (λ ys. out s.world ++ ys) same,
              omega (arith, h.1),
            )
            (λ u i. (i.1, (less, i.0, moved_offset o n))))
        (λ x w q.
          let (kept, fewer) = kernel.write_failed (b ∷ bs) t.world x w q in
          free_then o count s (record t { errno = x; world = w }) (out s.world)
            (λ _. pure (none, some (pos o))) (kept ∙ h.0, omega (arith, h.1))
            (λ u i. (i.1, (i.0, refl))))

  -- What follows the reads.
  abbrev sent_of : ℕ → Option (List ℕ) → Cmd W Sent
  sent_of o none =
      get_errno >>= λ err. call sys.xfree >>= λ _. set_errno err >>= λ _. pure (none, some (pos o))
  sent_of o (some []) = get_errno >>= λ err.
      call sys.xfree >>= λ _. set_errno err >>= λ _. pure (some 0, some (pos o))
  sent_of o (some (b ∷ bs)) = syscall (sys.write sock (b ∷ bs)) >>= λ w. call sys.xfree >>= λ _.
      pure (w, elim w [ none ↦ some (pos o) | some n ↦ advance (some (pos o)) n ])

  pread_sendfile-Answered :
      (o count fuel : ℕ) (s : St W)
      → left s.world < fuel
      → Sat ⊥
          (Answered o count s)
          (λ _ _. ⊥)
          (pread_sendfile sys fuel sock file (some (pos o)) count s)
  unfolding pread_sendfile
  pread_sendfile-Answered o count fuel s m =
      Sat-and_then ⊥ (Read o (max_read sys count) s) (Answered o count s) (λ _ _. ⊥) _ _
        (reads o (max_read sys count) fuel s m) after_read
    where
      after_read :
          (r : Option (List ℕ)) (t : St W)
          → Read o (max_read sys count) s r t
          → Sat ⊥ (Answered o count s) (λ _ _. ⊥) (sent_of o r t)
      after_read none t h =
          free_then o count s t (out s.world)
            (λ _. set_errno t.errno >>= λ _. pure (none, some (pos o))) h
            (λ u i. (i.1, (i.0, refl)))
      after_read (some []) t (h, _) =
          free_then o count s t (out s.world ++ [])
            (λ _. set_errno t.errno >>= λ _. pure (some 0, some (pos o)))
            (h.0 ∙ sym (append-nil (out s.world)), h.1)
            (λ u i. (i.1, (omega arith, i.0, ap (λ k. some (pos k)) (add_zero o))))
      after_read (some (b ∷ bs)) t (h, (k, le, e)) =
          writes o count s t b bs k h (omega (arith, max_read_le count)) e

  -- The emulation with an offset does what sendfile(2) says, where there is fuel for each read that
  -- fails: the socket takes the next bytes of the file, as many as are returned and no more than
  -- were asked for, and the offset is moved behind them; where it fails the socket has taken
  -- nothing and the offset is as it was. It raises nothing. Each failing read uses up one of the
  -- failures to come, and nothing adds to them; the contents of the file do not change.
  pub pread_sendfile-IsSent :
      (o count fuel : ℕ) (s : St W)
      → left s.world < fuel
      → Sat ⊥
          (IsSent out contents o count s)
          (λ _ _. ⊥)
          (pread_sendfile sys fuel sock file (some (pos o)) count s)
  pread_sendfile-IsSent o count fuel s m =
      Sat-mono ⊥ ⊥ (Answered o count s) (IsSent out contents o count s) (λ _ _. ⊥) (λ _ _. ⊥)
        (pread_sendfile sys fuel sock file (some (pos o)) count s)
        (pread_sendfile-Answered o count fuel s m) (λ l. l) (λ r t h. h.1) (λ x t h. h)

  -- The emulation keeps the contract, where there is fuel.
  pub pread_sendfile-Serves :
      (fuel : ℕ)
      → Serves out contents (λ s. left s.world < fuel) sock file (pread_sendfile sys fuel)
  pread_sendfile-Serves fuel o count s m =
      Sat-mono ⊥ ⊥ (Answered o count s) _ (λ _ _. ⊥) (λ _ _. ⊥)
        (pread_sendfile sys fuel sock file (some (pos o)) count s)
        (pread_sendfile-Answered o count fuel s m) (λ l. l) (λ r t h. (omega (arith, h.0), h.1))
        (λ x t h. h)
