-- ===== src/Tests/Buffers.antt =====
-- The theorems on the thread-local buffers at concrete calls.
use sleepy_penguin.Epoll.{EpollCalls}
use sleepy_penguin.Kqueue.{sp_kevent, KqueueCalls}
use sleepy_penguin.Inotify.{take, InotifyCalls}
use sleepy_penguin.Proc.Sat.{Sat}
use sleepy_penguin.Proc.{ready, crash, TlsBuf, foreign, no_memory, raise, in_use, gives, St}
use sleepy_penguin.Tls.Inv.{Level, Got}
use sleepy_penguin.Tls.{uint32_max, update, set_buf_type, take_buf, rb_sp_gettlsbuf}
use sleepy_penguin.Ruby.{qfalse, nil, file, array, qnil, fixnum, item, Values}
use sleepy_penguin.Base.{◌≢◌, none, refl, ◌++◌, [], some, false, ◌≡◌, pos, arith, ℕ}
use sleepy_penguin.Inotify.Leak.{take-Leaks, Leaks}
use sleepy_penguin.Tests.World.{
  double, closed_vm-Allocates, rested-IsValid, closed_vm, own_heap, vm-Allocates, interrupted, vm,
  at_rest, rested,
}
use sleepy_penguin.Inotify.Wire.Encode.{put_u32}
use sleepy_penguin.Util.{rb_sp_fileno}
use sleepy_penguin.Tls.Get.{gettlsbuf-Got}
use sleepy_penguin.Kqueue.Changelist.{array_element-refused}
use sleepy_penguin.Tls.Dangling.{too_large-dangles}
use sleepy_penguin.Kqueue.Closed.{closed_kevent-leaks}
use sleepy_penguin.Kqueue.Convert.{Kevent, ary2eventlist}

abbrev epoll_calls : EpollCalls ℕ
epoll_calls = record {
  epoll_create1 = λ flags. gives (pos 7);
  epoll_ctl = λ epfd op fd ev. gives tt;
  epoll_wait = λ fd max timeout. interrupted [];
  clock_gettime = λ w. (record { tv_sec = pos 0; tv_nsec = pos 0 }, w);
}

abbrev kqueue_calls : KqueueCalls ℕ
kqueue_calls = record {
  kqueue = gives (pos 7);
  kevent = λ fd changes nevents ts. interrupted [];
  clock_gettime = λ w. (record { tv_sec = pos 0; tv_nsec = pos 0 }, w);
}

abbrev inotify_calls : InotifyCalls ℕ
inotify_calls = record {
  inotify_init1 = λ flags. gives (pos 7);
  inotify_add_watch = λ fd path mask. gives 1;
  inotify_rm_watch = λ fd wd. gives (pos 0);
  read = λ fd n. gives (put_u32 1 ++ (put_u32 2 ++ (put_u32 0 ++ put_u32 0)));
  fionread = λ fd. gives (pos 0);
}

gettlsbuf-Got_example :
    Sat ⊥ (Got rested 300) (λ e t. Level rested t) (rb_sp_gettlsbuf vm 64 300 rested)
gettlsbuf-Got_example = gettlsbuf-Got vm vm-Allocates 64 rested 300 rested-IsValid

too_large-dangles_example :
    (t : St ℕ) × (rb_sp_gettlsbuf vm 64 uint32_max rested ≡ raise no_memory t)
    × (t.slot ≡ some 5)
    × (t.heap 5 ≡ none)
    × (rb_sp_gettlsbuf vm 64 16 t ≡ crash)
too_large-dangles_example =
    too_large-dangles vm 64 rested uint32_max 16 5 at_rest refl refl refl (omega arith)
      (omega arith)

-- The thread's buffer after a request of no more than it holds.
abbrev taken : St ℕ
taken = record rested { heap = update own_heap 5 (some (record at_rest { buf_type = in_use })) }

closed_kevent-leaks_example :
    (sp_kevent closed_vm kqueue_calls double 64 9 false (file 1) qnil qnil qnil rested
      ≡ raise (foreign 1) taken)
    × ((b : TlsBuf) × (taken.heap 5 ≡ some b) × (b.buf_type ≢ ready))
    × ¬ Level rested taken
unfolding rb_sp_gettlsbuf take_buf set_buf_type rb_sp_fileno
closed_kevent-leaks_example =
    closed_kevent-leaks closed_vm kqueue_calls double closed_vm-Allocates 64 9 (file 1) rested taken
      taken (5, 128) (foreign 1) rested-IsValid refl refl

take-Leaks_example :
    Sat
      (Unit {0})
      (λ _ t. Leaks vm inotify_calls vm-Allocates 64 rested t)
      (λ _ _. Unit {0})
      (take vm inotify_calls 64 9 (file 1) [] qfalse rested)
take-Leaks_example =
    take-Leaks vm inotify_calls vm-Allocates 64 9 (file 1) qfalse rested rested-IsValid

abbrev six : Values
six = item (fixnum (pos 1)) (
    item (fixnum (pos 1))
      (item (fixnum (pos 1)) (item (fixnum (pos 1)) (item (fixnum (pos 1)) (item qnil nil)))))

array_element-refused_example :
    Sat ⊥ (λ _ _. ⊥) (λ _ _. Unit {0}) (ary2eventlist vm (item (array six) nil) rested)
array_element-refused_example = array_element-refused vm (item (array six) nil) rested refl

-- One registration, and room for two events.
abbrev six_event : Kevent
six_event = record {
  ident = 1;
  filter = pos 1;
  flags = 1;
  fflags = 1;
  event_data = pos 1;
  udata = qnil;
}
