-- ===== src/EventFd/Counter/History.antt =====
-- Any run of calls on one EventFD, with what the replies say was added and fetched.
use sleepy_penguin.Ruby.{is_true, fixnum, Vm, Value}
use sleepy_penguin.Base.{refl, [], arith, ◌≡◌, ℤ, ◌+◌, pos_part, ◌∷◌, if◌then◌else◌, ℕ, List}
use sleepy_penguin.EventFd.Counter.{empty, full, Holds, fetched, added, IsCounter, fetch, add, Move}
use sleepy_penguin.EventFd.{getvalue, incr, EventFdCalls}
use sleepy_penguin.Proc.{St, yields, ◌>>=◌, pure, Cmd}
use sleepy_penguin.Util.Quiet.{QuietVm}
use sleepy_penguin.Proc.Sat.{Sat-and_then, Sat-mono, Sat}
use sleepy_penguin.EventFd.Counter.Moves.{getvalue-Move, incr-Move}

pub data Request : Type 0 where
  increment : Value → Value → Request
  current : Value → Request

abbrev number_of : Value → ℕ
number_of (fixnum n) = pos_part n
number_of _ = 0

-- What a reply says was added to the count, or fetched from it.
abbrev pub credit : (Value → ℕ) → Request → Value → ℕ
credit convert (increment amount nonblock) r = if is_true r then convert amount else 0
credit convert (current nonblock) r = 0

abbrev pub debit : Request → Value → ℕ
debit (increment amount nonblock) r = 0
debit (current nonblock) r = number_of r

abbrev pub all_credit : (Value → ℕ) → List Request → List Value → ℕ
all_credit convert (q ∷ qs) (r ∷ rs) = credit convert q r + all_credit convert qs rs
all_credit convert _ _ = 0

abbrev pub all_debit : List Request → List Value → ℕ
all_debit (q ∷ qs) (r ∷ rs) = debit q r + all_debit qs rs
all_debit _ _ = 0

Move-add : (v c d : ℕ) (r : Value) → Move (add v) c r d → d ≡ c + (if is_true r then v else 0)
Move-add v c d r (added e s le) = rw (e, s) refl
Move-add v c d r (full e s) = rw (e, s) (omega arith)

Move-fetch : (c d : ℕ) (r : Value) → Move fetch c r d → d + number_of r ≡ c
Move-fetch c d r (fetched e p s) = rw (e, s) (omega arith)
Move-fetch c d r (empty e s) = rw (e, s) (omega arith)

module _ {W : Type 0} (vm : Vm W) (sys : EventFdCalls W) (fuel : ℕ) (self : Value) where
  abbrev pub request : Request → Cmd W Value
  request (increment amount nonblock) = incr vm sys fuel self amount nonblock
  request (current nonblock) = getvalue vm sys fuel self nonblock

  -- The calls one after another, with their replies.
  abbrev pub perform : List Request → Cmd W (List Value)
  perform [] = pure []
  perform (q ∷ qs) = do r ← request q; rs ← perform qs; pure (r ∷ rs)

  module _ (count : W → ℕ) (fd : ℤ) (convert : Value → ℕ) (counter : IsCounter sys count fd)
      (quiet : QuietVm count vm) (holds : Holds vm self fd)
      (converts : (v : Value) (e : ℕ) (w : W) (a e' : ℕ) (w' : W)
        → vm.num2ull v e w ≡ yields a e' w'
        → a ≡ convert v) where
    one_request :
        (q : Request) (s : St W)
        → Sat
            (Unit {0})
            (λ r t. count t.world + debit q r ≡ count s.world + credit convert q r)
            (λ _ _. Unit {0})
            (request q s)
    one_request (increment amount nonblock) s =
        Sat-mono Unit Unit (λ r t. Move (add (convert amount)) (count s.world) r (count t.world))
          (λ r t. count t.world + 0 ≡ count s.world + (if is_true r then convert amount else 0))
          (λ _ t. count t.world ≡ count s.world) (λ _ _. Unit)
          (incr vm sys fuel self amount nonblock s)
          (incr-Move vm sys count fd self counter quiet holds fuel (convert amount) amount nonblock
            s (converts amount))
          (λ l. l)
          (λ r t m. omega (arith, Move-add (convert amount) (count s.world) (count t.world) r m))
          (λ _ _ _. tt)
    one_request (current nonblock) s =
        Sat-mono Unit Unit (λ r t. Move fetch (count s.world) r (count t.world))
          (λ r t. count t.world + number_of r ≡ count s.world + 0)
          (λ _ t. count t.world ≡ count s.world) (λ _ _. Unit)
          (getvalue vm sys fuel self nonblock s)
          (getvalue-Move vm sys count fd self counter quiet holds fuel nonblock s) (λ l. l)
          (λ r t m. omega (arith, Move-fetch (count s.world) (count t.world) r m)) (λ _ _ _. tt)

    -- Over any run of `incr` and `value` on one EventFD that returns, the count at its end and all
    -- that `value` has returned are together the count at its beginning and all that `incr` has
    -- added where it returned true: nothing is lost and nothing counts twice. The descriptor is that
    -- of a counter which nobody else changes, and the object keeps it.
    pub perform_conserves :
        (qs : List Request) (s : St W)
        → Sat
            (Unit {0})
            (λ rs t. count t.world + all_debit qs rs ≡ count s.world + all_credit convert qs rs)
            (λ _ _. Unit {0})
            (perform qs s)
    perform_conserves [] s = refl
    perform_conserves (q ∷ qs) s =
        Sat-and_then Unit (λ r t. count t.world + debit q r ≡ count s.world + credit convert q r) _
          (λ _ _. Unit) (request q s) _ (one_request q s)
          λ r t h.
            Sat-and_then Unit
              (λ rs u. count u.world + all_debit qs rs ≡ count t.world + all_credit convert qs rs) _
              (λ _ _. Unit) (perform qs t) _ (perform_conserves qs t) λ rs u k. omega (arith, h, k)
