-- ===== src/Tests/Counter.antt =====
-- The theorems on the counter of an EventFD, at a world that is the count.
use sleepy_penguin.EventFd.Counter.{add, fetch}
use sleepy_penguin.EventFd.{max, getvalue, incr, EventFdCalls}
use sleepy_penguin.Base.{[], ◌∷◌, ltb, ◌<◌, ◌≤◌, leb, arith, ◌≡◌, if◌then◌else◌, ◌+◌, pos, List, ℕ}
use sleepy_penguin.EventFd.Counter.{fetch, Move, Holds, IsCounter}
use sleepy_penguin.Util.{rb_sp_fileno}
use sleepy_penguin.Ruby.{qtrue, fixnum, file, Value}
use sleepy_penguin.Proc.Sat.{Sat}
use sleepy_penguin.Proc.{yields, fails, gives}
use sleepy_penguin.Tests.World.{vm_quiet, rested, nat_of, vm}
use sleepy_penguin.EventFd.Counter.History.{
  perform_conserves, current, perform, all_credit, all_debit, increment, Request,
}
use sleepy_penguin.Base.Errno.{eagain}
use sleepy_penguin.EventFd.Counter.Moves.{getvalue-Move, incr-Move}

-- Nothing is added above 10 here.
abbrev counter_calls : EventFdCalls ℕ
counter_calls = record {
  eventfd = λ v flags. gives (pos 7);
  write = λ fd v w. if leb (w + v) 10 then gives tt (w + v) else fails eagain w;
  read = λ fd w. if ltb 0 w then gives w 0 else fails eagain w;
}

wrote_cases :
    (v w w' : ℕ) → counter_calls.write (pos 7) v w ≡ gives tt w' → (w' ≡ w + v) × (w' ≤ max)
wrote_cases v w w' e = (ground arith, ground arith)

write_failed_cases : (v w e w' : ℕ) → counter_calls.write (pos 7) v w ≡ fails e w' → w' ≡ w
write_failed_cases v w e w' q = ground arith

read_cases : (w n w' : ℕ) → counter_calls.read (pos 7) w ≡ gives n w' → (n ≡ w) × (0 < n) × (w' ≡ 0)
read_cases w n w' q = (ground arith, ground arith, ground arith)

read_failed_cases : (w e w' : ℕ) → counter_calls.read (pos 7) w ≡ fails e w' → w' ≡ w
read_failed_cases w e w' q = ground arith

counter : IsCounter counter_calls (λ w. w) (pos 7)
counter = record {
  wrote = wrote_cases;
  write_failed = write_failed_cases;
  was_read = read_cases;
  read_failed = read_failed_cases;
}

holds : Holds vm (file 1) (pos 7)
unfolding rb_sp_fileno
holds s d t e = cc

converts : (v : Value) (e w a e' w' : ℕ) → vm.num2ull v e w ≡ yields a e' w' → a ≡ nat_of v
converts v e w a e' w' q = cc

incr-Move_example :
    Sat
      (Unit {0})
      (λ r t. Move (add 4) 2 r t.world)
      (λ _ t. t.world ≡ 2)
      (incr vm counter_calls 3 (file 1) (fixnum (pos 4)) qtrue rested)
incr-Move_example =
    incr-Move vm counter_calls (λ w. w) (pos 7) (file 1) counter (vm_quiet (λ w. w)) holds 3 4
      (fixnum (pos 4)) qtrue rested (converts (fixnum (pos 4)))

getvalue-Move_example :
    Sat
      (Unit {0})
      (λ r t. Move fetch 2 r t.world)
      (λ _ t. t.world ≡ 2)
      (getvalue vm counter_calls 3 (file 1) qtrue rested)
getvalue-Move_example =
    getvalue-Move vm counter_calls (λ w. w) (pos 7) (file 1) counter (vm_quiet (λ w. w)) holds 3
      qtrue rested

-- 4 is added, 9 is too much, and the count is fetched twice.
abbrev requests : List Request
requests =
    increment (fixnum (pos 4)) qtrue
    ∷ increment (fixnum (pos 9)) qtrue
    ∷ current qtrue
    ∷ current qtrue
    ∷ []

perform_conserves_example :
    Sat
      (Unit {0})
      (λ rs t. t.world + all_debit requests rs ≡ 2 + all_credit nat_of requests rs)
      (λ _ _. Unit {0})
      (perform vm counter_calls 3 (file 1) requests rested)
perform_conserves_example =
    perform_conserves vm counter_calls 3 (file 1) (λ w. w) (pos 7) nat_of counter
      (vm_quiet (λ w. w)) holds converts requests rested
