-- ===== src/Tests/Arrived.antt =====
-- A wait of epoll that is interrupted twice, with a list of the calls of the block.
use sleepy_penguin.Base.{[], suc, none, pos, ◌∷◌, ◌++◌, zero, List, ℕ}
use sleepy_penguin.Proc.{fails, yields, St, gives, Sys}
use sleepy_penguin.Ruby.{file, Value, Vm}
use sleepy_penguin.Epoll.{EpollEvent, EpPerThread, EpollCalls}
use sleepy_penguin.Tests.World.{with_block}
use sleepy_penguin.Proc.Sat.{Sat}
use sleepy_penguin.Base.Errno.{eintr}

-- The number of interruptions to come, and the calls of the block.
abbrev Calls : Type 0
Calls = ℕ × List (List Value)

abbrev interrupted_call : {A : Type 0} → A → Sys Calls A
interrupted_call a w = elim w.0 [ zero ↦ gives a w | suc n ↦ fails eintr (n, w.1) ]

abbrev logging_vm : Vm Calls
logging_vm = with_block λ vs e w. yields tt e (w.0, w.1 ++ (vs ∷ []))

abbrev two_events : List EpollEvent
two_events = record { events = 1; ptr = file 2 } ∷ record { events = 4; ptr = file 3 } ∷ []

abbrev two_events_calls : EpollCalls Calls
two_events_calls = record {
  epoll_create1 = λ flags. gives (pos 7);
  epoll_ctl = λ epfd op fd ev. gives tt;
  epoll_wait = λ fd max timeout. interrupted_call two_events;
  clock_gettime = λ w. (record { tv_sec = pos 3; tv_nsec = pos 0 }, w);
}

abbrev waiting : EpPerThread
waiting = record { io = file 1; fd = pos 7; timeout = pos 100; maxevents = pos 64 }

-- With this `errno` and this number of interruptions to come.
abbrev at_call : ℕ → ℕ → St Calls
at_call e n = record { errno = e; heap = λ p. none; slot = none; world = (n, []) }
