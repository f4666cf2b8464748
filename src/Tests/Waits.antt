-- ===== src/Tests/Waits.antt =====
-- The theorems on waits and copies after interruptions, at concrete calls.
use sleepy_penguin.Kqueue.{
  clock, is_expired, kq_fd_check, nogvl_kevent, kevent_resume_p, kevent_again, kevent_round,
  KqPerThread, KqueueCalls,
}
use sleepy_penguin.Proc.Loop.{here}
use sleepy_penguin.Base.{true, some, refl, arith, false, ◌≡◌, [], ◌∷◌, none, pos, negsuc, ℕ}
use sleepy_penguin.Kqueue.Convert.{Kevent}
use sleepy_penguin.Ruby.{nil, fixnum, item, qnil, structure, Value, file}
use sleepy_penguin.Timespec.{tssub, Timespec}
use sleepy_penguin.Proc.{gives, St}
use sleepy_penguin.Tests.World.{vm, rested, interrupted}
use sleepy_penguin.Util.{rb_sp_fileno}
use sleepy_penguin.Base.Errno.{eintr}
use sleepy_penguin.Kqueue.Resume.{Rounds-sent}
use sleepy_penguin.Kqueue.Deadline.{Rounds-IsOnTime, IsOnTime}

abbrev pub a_kevent : Kevent
a_kevent = record {
  ident = 7;
  filter = negsuc 0;
  flags = 1;
  fflags = 0;
  event_data = pos 0;
  udata = qnil;
}

abbrev pub kqueue_calls : KqueueCalls ℕ
kqueue_calls = record {
  kqueue = gives (pos 7);
  kevent = λ fd cs n ts. interrupted (a_kevent ∷ []);
  clock_gettime = λ w. (record { tv_sec = pos 3; tv_nsec = pos 0 }, w);
}

abbrev kq : KqPerThread
kq = record { io = file 1; fd = pos 7; changes = a_kevent ∷ []; nevents = 4; ts = none }

abbrev sent : KqPerThread
sent = record kq { changes = [] }

abbrev at : Timespec
at = record { tv_sec = pos 0; tv_nsec = pos 0 }

abbrev interrupted_once : St ℕ
interrupted_once = record rested { errno = eintr; world = 1 }

Rounds-sent_example :
    (file 1 ≡ file 1) × (kq.nevents ≡ kq.nevents) × (false ≡ false) × (sent.changes ≡ [])
unfolding kevent_round kevent_again kevent_resume_p nogvl_kevent kq_fd_check rb_sp_fileno
Rounds-sent_example =
    Rounds-sent vm kqueue_calls at kq sent sent rested interrupted_once interrupted_once refl here

-- A registration as a Struct.
abbrev pub registration : Value
registration = structure (
    item (fixnum (pos 7)) (
      item (fixnum (negsuc 0))
        (item (fixnum (pos 1)) (item (fixnum (pos 0)) (item (fixnum (pos 0)) (item qnil nil))))))

-- A wait of 2 s that began at 1 s and is interrupted at 3 s, as the clock of these calls says.
abbrev timed : Timespec → KqPerThread
timed ts = record kq { ts = some ts }

abbrev deadline : Timespec
deadline = record { tv_sec = pos 4; tv_nsec = pos 500000000 }

abbrev rest_of_wait : KqPerThread
rest_of_wait = record kq {
  changes = [];
  ts = some (record { tv_sec = pos 1; tv_nsec = pos 500000000 });
}

Rounds-IsOnTime_example : (true ≡ true) × IsOnTime vm kqueue_calls deadline rest_of_wait.ts
unfolding kevent_round kevent_again kevent_resume_p nogvl_kevent kq_fd_check rb_sp_fileno is_expired
    tssub clock
Rounds-IsOnTime_example =
    Rounds-IsOnTime vm kqueue_calls deadline (timed deadline) rest_of_wait rest_of_wait rested
      interrupted_once interrupted_once (500000000, refl, omega arith) (λ w. (0, refl, omega arith))
      refl here
