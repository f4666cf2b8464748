-- ===== src/Tests/Rounds.antt =====
-- The theorems on loops and on values at concrete calls.
use sleepy_penguin.EventFd.{getvalue, incr, EventFdCalls}
use sleepy_penguin.Proc.Sat.{Sat}
use sleepy_penguin.Epoll.{EpPerThread, EpollCalls}
use sleepy_penguin.Base.{u64_of_int, refl, map, ◌∷◌, [], ◌≡◌, some, none, pos, arith, ℕ, List, ℤ}
use sleepy_penguin.Proc.{syscall, gives, St}
use sleepy_penguin.TimerFd.{tfd_read, expirations_round, TimerFdCalls}
use sleepy_penguin.Inotify.Wire.Encode.{decode_events-encode, event_of, encode, Report, AllFit}
use sleepy_penguin.Inotify.Wire.{decode_events}
use sleepy_penguin.Tests.World.{interrupted-IsSpent, vm-CalmVm, double, rested, interrupted, vm}
use sleepy_penguin.EventFd.Ends.{getvalue-Ends, incr-Ends, Valued, Incremented}
use sleepy_penguin.Ruby.{fixnum, qtrue, qfalse, file}
use sleepy_penguin.Util.{rb_sp_fileno, rb_sp_wait}
use sleepy_penguin.Base.Errno.{eintr}
use sleepy_penguin.Proc.Loop.{here, next}
use sleepy_penguin.TimerFd.Stale.{Rounds-stale}

abbrev eventfd_calls : EventFdCalls ℕ
eventfd_calls = record {
  eventfd = λ v flags. gives (pos 7);
  write = λ fd v. interrupted tt;
  read = λ fd. interrupted 5;
}

incr-Ends_example :
    Sat ⊥
      (Incremented (λ w. w) vm vm-CalmVm eventfd_calls (file 1) qfalse)
      (λ _ _. Unit {0})
      (incr vm eventfd_calls 3 (file 1) (fixnum (pos 4)) qfalse rested)
incr-Ends_example =
    incr-Ends (λ w. w) vm vm-CalmVm eventfd_calls (file 1) qfalse 3 (fixnum (pos 4)) rested
      (λ fd val. interrupted-IsSpent tt) (omega arith)

getvalue-Ends_example :
    Sat ⊥
      (Valued (λ w. w) vm vm-CalmVm eventfd_calls (file 1) qtrue)
      (λ _ _. Unit {0})
      (getvalue vm eventfd_calls 3 (file 1) qtrue rested)
getvalue-Ends_example =
    getvalue-Ends (λ w. w) vm vm-CalmVm eventfd_calls (file 1) qtrue 3 rested
      (λ fd. interrupted-IsSpent 5) (omega arith)

abbrev epoll_calls : EpollCalls ℕ
epoll_calls = record {
  epoll_create1 = λ flags. gives (pos 7);
  epoll_ctl = λ epfd op fd ev. gives tt;
  epoll_wait = λ fd max timeout. interrupted [];
  clock_gettime = λ w. (record { tv_sec = pos 3; tv_nsec = pos 0 }, w);
}

-- A wait of 100 ms that ends at 3050 ms by the clock, and after an interruption at 3000 ms.
abbrev waiting : ℤ → EpPerThread
waiting timeout = record { io = file 1; fd = pos 7; timeout = timeout; maxevents = pos 64 }

abbrev after_one : St ℕ
after_one = record rested { errno = eintr; world = 1 }

abbrev timerfd_calls : TimerFdCalls ℕ
timerfd_calls = record {
  timerfd_create = λ clock flags. gives (pos 7);
  timerfd_settime = λ fd flags its. gives its;
  timerfd_gettime = λ fd. gives (record {
    it_interval = record { tv_sec = pos 0; tv_nsec = pos 0 };
    it_value = record { tv_sec = pos 0; tv_nsec = pos 0 };
  });
  read = λ fd. interrupted 1;
}

-- The descriptor was 3 when the call began, and is 7 after the wait.
Rounds-stale_example :
    tfd_read double vm timerfd_calls (u64_of_int (pos 3)) after_one
    ≡ syscall (timerfd_calls.read (pos 3)) after_one
unfolding expirations_round tfd_read rb_sp_wait rb_sp_fileno
Rounds-stale_example =
    Rounds-stale double vm timerfd_calls (file 1) qfalse (pos 3)
      (record { fd = pos 7; buf = u64_of_int (pos 3) }) rested after_one (omega arith, omega arith)
      (next refl here)

abbrev reports : List Report
reports =
    record { wd = 1; mask = 256; cookie = 0; name = some (97 ∷ 98 ∷ [], 1) }
    ∷ record { wd = 2; mask = 1024; cookie = 0; name = none }
    ∷ []

reports-AllFit : AllFit reports
reports-AllFit = (
  record {
    wd = omega arith;
    mask = omega arith;
    cookie = omega arith;
    len = omega arith;
    name = (omega arith, (omega arith, tt));
  },
  (
    record {
      wd = omega arith;
      mask = omega arith;
      cookie = omega arith;
      len = omega arith;
      name = tt;
    },
    tt,
  ),
)

decode_events-encode_example : decode_events (encode reports) ≡ map event_of reports
decode_events-encode_example = decode_events-encode reports reports-AllFit
