-- ===== src/Tests/Totals.antt =====
-- Whole calls that are interrupted twice.
use sleepy_penguin.Epoll.Yields.{IsApart}
use sleepy_penguin.Kqueue.Yields.{IsApart as KqIsApart}
use sleepy_penguin.Inotify.Total.{take_total, IsTaken, IsPatient}
use sleepy_penguin.Inotify.{take, InotifyCalls}
use sleepy_penguin.Proc.Sat.{Sat}
use sleepy_penguin.Base.{
  refl, some, ap, zero, suc, ◌<◌, ◌≡◌, ◌∷◌, List, arith, true, ◌++◌, [], pos, ℕ,
}
use sleepy_penguin.Inotify.Wire.Encode.{put_u32}
use sleepy_penguin.Tests.World.{
  memalign-fresh, quietly-IsQuiet, at_rest, own_heap, block_quiet, block_calm, with_block,
  rested-IsValid, double, vm-Allocates, rested, gives-IsCalmSys, interrupted-IsSpent, interrupted,
  vm-CalmVm, vm,
}
use sleepy_penguin.Proc.{yields, Ext, fails, St, Sys, gives}
use sleepy_penguin.Ruby.{Allocates, Vm, Value, fixnum, file, qnil}
use sleepy_penguin.Tests.Waits.{a_kevent, registration}
use sleepy_penguin.Tls.Bracket.{Balanced}
use sleepy_penguin.Tls.Inv.{IsValid, Level}
use sleepy_penguin.Kqueue.{KqueueCalls, sp_kevent}
use sleepy_penguin.Epoll.{EpollCalls, EpollEvent, epwait}
use sleepy_penguin.Epoll.Total.{epwait_total}
use sleepy_penguin.Kqueue.Total.{kevent_total}
use sleepy_penguin.Util.Ends.{CalmVm}
use sleepy_penguin.Util.Quiet.{QuietVm}
use sleepy_penguin.Proc.Patience.{IsCalm, IsSpent}
use sleepy_penguin.Proc.Quiet.{IsQuietSys}
use sleepy_penguin.Base.Errno.{eintr}
use sleepy_penguin.Kqueue.Convert.{Kevent}
use sleepy_penguin.Util.Yields.{Yielded, IsYieldCount}

-- A world that has the number of interruptions to come and the number of calls of the block.
abbrev Calls : Type 0
Calls = ℕ × ℕ

abbrev interrupted_call : {A : Type 0} → A → Sys Calls A
interrupted_call a w = elim w.0 [ zero ↦ gives a w | suc n ↦ fails eintr (n, w.1) ]

abbrev call_block : List Value → Ext Calls (Unit {0})
call_block vs e w = yields tt e (w.0, suc w.1)

abbrev calling_vm : Vm Calls
calling_vm = with_block call_block

call_block-IsCalm : (vs : List Value) → IsCalm (λ w. w.0) (call_block vs)
call_block-IsCalm vs e w a e' w' h =
    let same : w' ≡ (w.0, suc w.1) = cc in omega (arith, ap (λ x. x.0) same)

calling_vm-CalmVm : CalmVm (λ w. w.0) calling_vm
calling_vm-CalmVm = block_calm (λ w. w.0) call_block call_block-IsCalm

calling_vm-QuietVm : QuietVm (λ w. w.1) calling_vm
calling_vm-QuietVm = block_quiet (λ w. w.1) call_block

calling_vm-Allocates : Allocates calling_vm
calling_vm-Allocates = record { fresh = memalign-fresh }

interrupted_call-IsSpent : {A : Type 0} (a : A) → IsSpent (λ w. w.0) (interrupted_call a)
interrupted_call-IsSpent a (zero, m) e w' h = cc
interrupted_call-IsSpent a (suc n, m) e w' h =
    let same : w' ≡ (n, m) = cc in omega (arith, ap (λ x. x.0) same)

interrupted_call-IsQuietSys : {A : Type 0} (a : A) → IsQuietSys (λ w. w.1) (interrupted_call a)
interrupted_call-IsQuietSys {A} a = (gave, failed)
  where
    gave : (w : Calls) (b : A) (w' : Calls) → interrupted_call a w ≡ gives b w' → w'.1 ≡ w.1
    gave (zero, m) b w' h = let same : w' ≡ (0, m) = cc in ap (λ x. x.1) same
    gave (suc n, m) b w' h = cc

    failed : (w : Calls) (e : ℕ) (w' : Calls) → interrupted_call a w ≡ fails e w' → w'.1 ≡ w.1
    failed (zero, m) e w' h = cc
    failed (suc n, m) e w' h = let same : w' ≡ (n, m) = cc in ap (λ x. x.1) same

abbrev two_events : List EpollEvent
two_events = record { events = 1; ptr = file 2 } ∷ record { events = 4; ptr = file 3 } ∷ []

abbrev two_events_calls : EpollCalls Calls
two_events_calls = record {
  epoll_create1 = λ flags. gives (pos 7);
  epoll_ctl = λ epfd op fd ev. gives tt;
  epoll_wait = λ fd max timeout. interrupted_call two_events;
  clock_gettime = λ w. (record { tv_sec = pos 3; tv_nsec = pos 0 }, w);
}

block_called : IsYieldCount (λ w. w.1) calling_vm
block_called = record {
  rb_yield_values = λ vs e w a e' w' h. let same : w' ≡ (w.0, suc w.1) = cc in ap (λ x. x.1) same;
  num2int = λ v. quietly-IsQuiet (λ w. w.1) _;
  num2short = λ v. quietly-IsQuiet (λ w. w.1) _;
  num2ushort = λ v. quietly-IsQuiet (λ w. w.1) _;
}

two_events-IsApart : IsApart (λ w. w.1) two_events_calls
two_events-IsApart = record {
  epoll_wait = λ fd m t. interrupted_call-IsQuietSys two_events;
  clock_gettime = λ w. refl;
}

-- The buffer at rest of a thread with two interruptions to come.
abbrev calling : St Calls
calling = record { errno = 0; heap = own_heap; slot = some 5; world = (2, 0) }

calling-IsValid : IsValid calling
calling-IsValid = record {
  owned = λ p b e. ground arith;
  live = λ p e. (at_rest, ground arith, λ h. cc);
}

epwait_total_example :
    Sat ⊥
      (λ v t. Yielded (λ w. w.1) (2, 0) v t.world × Balanced calling t)
      (λ _ t. Level calling t)
      (epwait calling_vm two_events_calls 64 3 true (file 1) qnil (fixnum (pos 100)) calling)
epwait_total_example =
    epwait_total (λ w. w.0) (λ w. w.1) calling_vm calling_vm-CalmVm calling_vm-QuietVm
      two_events_calls block_called two_events-IsApart (λ w. omega arith)
      (λ fd m t. interrupted_call-IsSpent two_events) 64 3 calling_vm-Allocates calling true
      (file 1) qnil (fixnum (pos 100)) calling-IsValid (omega arith)

abbrev two_kevents : List Kevent
two_kevents = a_kevent ∷ record a_kevent { ident = 8 } ∷ []

abbrev two_kevents_calls : KqueueCalls Calls
two_kevents_calls = record {
  kqueue = gives (pos 7);
  kevent = λ fd cs n ts. interrupted_call two_kevents;
  clock_gettime = λ w. (record { tv_sec = pos 3; tv_nsec = pos 0 }, w);
}

two_kevents-IsApart : KqIsApart (λ w. w.1) two_kevents_calls
two_kevents-IsApart = record {
  kevent = λ fd cs n ts. interrupted_call-IsQuietSys two_kevents;
  clock_gettime = λ w. refl;
}

kevent_total_example :
    Sat ⊥
      (λ v t. Yielded (λ w. w.1) (2, 0) v t.world × Balanced calling t)
      (λ _ _. Unit {0})
      (sp_kevent calling_vm two_kevents_calls double 64 3 true
        (file 1)
        registration
        (fixnum (pos 8))
        qnil
        calling)
kevent_total_example =
    kevent_total (λ w. w.0) calling_vm calling_vm-CalmVm two_kevents_calls double (λ w. w.1)
      calling_vm-QuietVm block_called two_kevents-IsApart (λ w. omega arith)
      (λ fd cs n ts. interrupted_call-IsSpent two_kevents) 64 3 calling_vm-Allocates calling true
      (file 1) registration (fixnum (pos 8)) qnil calling-IsValid (omega arith)

-- A read that is interrupted twice, then brings an event without a name.
abbrev an_event_read : InotifyCalls ℕ
an_event_read = record {
  inotify_init1 = λ flags. gives (pos 7);
  inotify_add_watch = λ fd path mask. gives 1;
  inotify_rm_watch = λ fd wd. gives (pos 0);
  read = λ fd n. interrupted (put_u32 1 ++ (put_u32 2 ++ (put_u32 0 ++ put_u32 0)));
  fionread = λ fd. gives (pos 0);
}

brings_some : (b : ℕ) (bs : List ℕ) (w w' : ℕ) → interrupted (b ∷ bs) w ≡ gives [] w' → w' < w
brings_some b bs zero w' h = absurd (ground arith)
brings_some b bs (suc n) w' h = absurd (ground arith)

an_event_read-IsPatient : IsPatient (λ w. w) vm vm-CalmVm an_event_read
an_event_read-IsPatient = record {
  fails_spent = λ fd n. interrupted-IsSpent _;
  empty_spent = λ fd n w w' h. brings_some _ _ w w' h;
  fionread = λ fd. gives-IsCalmSys (λ w. w) (pos 0);
}

take_total_example :
    Sat ⊥
      (λ rv _. IsTaken qnil rv)
      (λ _ _. Unit {0})
      (take vm an_event_read 64 3 (file 1) [] qnil rested)
take_total_example =
    take_total (λ w. w) vm vm-CalmVm an_event_read an_event_read-IsPatient 64 (file 1) qnil
      vm-Allocates 3 rested rested-IsValid (omega arith)
