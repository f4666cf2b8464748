-- ===== src/EventFd/Counter/Moves.antt =====
-- The calls of `incr` and `value` on an abstract counter.
use sleepy_penguin.Base.{refl, sym, subst, ◌∙◌, ◌≡◌, ℤ, ℕ}
use sleepy_penguin.EventFd.{getvalue, incr, getvalue_round, incr_round, EventFdCalls}
use sleepy_penguin.Ruby.{Value, Vm}
use sleepy_penguin.Proc.{throws, replied, Reply, ◌>>=◌, ◌>>◌, Cmd, yields, call, St}
use sleepy_penguin.Util.Quiet.{QuietVm}
use sleepy_penguin.Proc.Sat.{Sat-and_then, Sat}
use sleepy_penguin.Proc.Loop.{loop_inv, loop}
use sleepy_penguin.EventFd.Counter.{Same, fetch, add, Move, Holds, IsCounter}
use sleepy_penguin.EventFd.Counter.Rounds.{
  getvalue_round-Loops, incr_round-Loops, nonblock_seen, at_fd,
}
use sleepy_penguin.Util.{when_nonblock}

module _ {W : Type 0} (vm : Vm W) (sys : EventFdCalls W) (count : W → ℕ) (fd : ℤ)
    (self : Value) where
  module _ (counter : IsCounter sys count fd) (quiet : QuietVm count vm)
      (holds : Holds vm self fd) where
    -- `incr` adds the number exactly once, within `max`, where it returns true, and nothing where it
    -- returns false or raises. The descriptor is that of a counter which nobody else changes, the
    -- object keeps it, and its argument converts to `val`.
    pub incr-Move :
        (fuel val : ℕ) (value nonblock : Value) (s : St W)
        → ((e : ℕ) (w : W) (a e' : ℕ) (w' : W) → vm.num2ull value e w ≡ yields a e' w' → a ≡ val)
        → Sat
            (Unit {0})
            (λ r t. Move (add val) (count s.world) r (count t.world))
            (λ _ t. count t.world ≡ count s.world)
            (incr vm sys fuel self value nonblock s)
    unfolding incr
    incr-Move fuel val value nonblock s converts =
        let n : ℕ = count s.world in
        let Q : Value → St W → Type 0 = λ r t. Move (add val) n r (count t.world) in
        Sat-and_then Unit (λ d t. (d ≡ fd) × Same count n t) Q (λ _ t. Same count n t) _ _
          (at_fd vm sys count fd self counter quiet holds n s refl)
          λ d t (e, h).
            subst (λ d. Sat Unit Q (λ _ t. Same count n t) (started d t)) (sym e)
              (Sat-and_then Unit (λ _ u. Same count n u) Q (λ _ t. Same count n t) _ _
                (nonblock_seen vm sys count fd self counter quiet holds nonblock n t h)
                λ _ u k.
                  Sat-and_then Unit (λ v x. (v ≡ val) × Same count n x) Q (λ _ t. Same count n t)
                    (call (vm.num2ull value) u) _ (converted u k)
                    λ v x (f, l).
                      subst
                        (λ v.
                          Sat Unit Q (λ _ t. Same count n t)
                            (loop fuel (incr_round vm sys self nonblock v) fd x))
                        (sym f)
                        (loop_inv (incr_round vm sys self nonblock val)
                          (λ d t. (d ≡ fd) × Same count n t) Q (λ _ t. Same count n t)
                          (λ d t p.
                            incr_round-Loops vm sys count fd self counter quiet holds nonblock val n
                              d t p.0 p.1)
                          fuel fd x (refl, l)))
      where
        started : ℤ → Cmd W Value
        started d = when_nonblock vm nonblock d >>= λ _.
            (call (vm.num2ull value) >>= λ val. loop fuel (incr_round vm sys self nonblock val) d)

        converted :
            (u : St W)
            → count u.world ≡ count s.world
            → Sat
                (Unit {0})
                (λ v x. (v ≡ val) × Same count (count s.world) x)
                (λ _ x. Same count (count s.world) x)
                (call (vm.num2ull value) u)
        converted u k = go (vm.num2ull value u.errno u.world) refl
          where
            go :
                (r : Reply W ℕ)
                → vm.num2ull value u.errno u.world ≡ r
                → Sat
                    (Unit {0})
                    (λ v x. (v ≡ val) × Same count (count s.world) x)
                    (λ _ x. Same count (count s.world) x)
                    (replied u r)
            go (yields a e w) q = (
              converts u.errno u.world a e w q,
              (quiet.num2ull value).0 u.errno u.world a e w q ∙ k,
            )
            go (throws x e w) q = (quiet.num2ull value).1 u.errno u.world x e w q ∙ k

    -- `value` returns the whole count, which was above zero, and leaves zero; where it returns nil or
    -- raises, the count is as it was. The descriptor is that of a counter, not made with EFD_SEMAPHORE,
    -- which nobody else changes, and the object keeps it.
    pub getvalue-Move :
        (fuel : ℕ) (nonblock : Value) (s : St W)
        → Sat
            (Unit {0})
            (λ r t. Move fetch (count s.world) r (count t.world))
            (λ _ t. count t.world ≡ count s.world)
            (getvalue vm sys fuel self nonblock s)
    unfolding getvalue
    getvalue-Move fuel nonblock s =
        let n : ℕ = count s.world in
        let Q : Value → St W → Type 0 = λ r t. Move fetch n r (count t.world) in
        Sat-and_then Unit (λ d t. (d ≡ fd) × Same count n t) Q (λ _ t. Same count n t) _ _
          (at_fd vm sys count fd self counter quiet holds n s refl)
          λ d t (e, h).
            subst (λ d. Sat Unit Q (λ _ t. Same count n t) (started d t)) (sym e)
              (Sat-and_then Unit (λ _ u. Same count n u) Q (λ _ t. Same count n t) _ _
                (nonblock_seen vm sys count fd self counter quiet holds nonblock n t h)
                λ _ u k.
                  loop_inv (getvalue_round vm sys self nonblock) (λ d t. (d ≡ fd) × Same count n t)
                    Q (λ _ t. Same count n t)
                    (λ d t p.
                      getvalue_round-Loops vm sys count fd self counter quiet holds nonblock n d t
                        p.0 p.1)
                    fuel fd u (refl, k))
      where
        started : ℤ → Cmd W Value
        started d = when_nonblock vm nonblock d >> loop fuel (getvalue_round vm sys self nonblock) d
