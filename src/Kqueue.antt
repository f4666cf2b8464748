-- ===== src/Kqueue.antt =====
-- ext/sleepy_penguin/kqueue.c: `Kqueue::IO.new` and `#kevent`, as built for MRI with
-- `rb_struct_size` (`RBX_STRUCT` is 0).
pub mod Buffers
pub mod Changelist
pub mod Closed
pub mod Convert
pub mod Deadline
pub mod Ends
pub mod Resume
pub mod Room
pub mod Setup
pub mod Total
pub mod Yields
use sleepy_penguin.Base.{
  pos_part, ◌^◌, is_negative, true, false, bit_or, ◌&&◌, none, ◌==◌, ◌*◌, not, ◌-ℤ◌, negsuc, some,
  length, ltb, ◌∷◌, [], ◌+◌, ◌||◌, if◌then◌else◌, pos, ltb_ℤ, Bool, ◌+ℤ◌, List, ℤ, Option, ℕ,
}
use sleepy_penguin.Proc.{
  range_error, rb_ensure, arg_error, type_error, rb_sys_fail, set_errno, crash, throw, ◌>>◌,
  get_errno, ◌>>=◌, syscall, pure, call, done, Cmd, Sys,
}
use sleepy_penguin.Ruby.{
  qnil, nil, item, is_nil, to_list, fixnum, array, structure, Values, Vm, Value,
}
use sleepy_penguin.Timespec.{tssub, value2timespec, nano_per_sec, Double, Timespec}
use sleepy_penguin.Tls.{rb_sp_puttlsbuf, rb_sp_gettlsbuf}
use sleepy_penguin.Proc.Loop.{again, loop, finish, Step}
use sleepy_penguin.Util.{rb_sp_fileno}
use sleepy_penguin.Base.Errno.{einval, fd_cloexec, eintr}
use sleepy_penguin.Kqueue.Convert.{changelist_prepare, Kevent}

pub record KqueueCalls (W : Type 0) : Type 0 where
  pub kqueue : Sys W ℤ
  pub kevent : ℤ → List Kevent → ℕ → Option Timespec → Sys W (List Kevent)
  pub clock_gettime : W → Timespec × W

-- `struct kq_per_thread`: `changes` are the first `nchanges` entries of `events` before the call.
pub record KqPerThread : Type 0 where
  pub io : Value
  pub fd : ℤ
  pub changes : List Kevent
  pub nevents : ℕ
  pub ts : Option Timespec

-- `sizeof(struct kq_per_thread)` and `sizeof(struct kevent)` on 64 bits.
abbrev pub sizeof_kq_per_thread : ℕ
sizeof_kq_per_thread = 40

abbrev pub sizeof_kevent : ℕ
sizeof_kevent = 32

-- The header, and room for the longer of the two lists of events.
abbrev pub kpt_size : ℕ → ℕ → ℕ
kpt_size nchanges nevents =
    sizeof_kq_per_thread + sizeof_kevent * (if ltb nevents nchanges then nchanges else nevents)

abbrev pub Wait : Type 0
Wait = Option (List Kevent)

-- `expire_at` from the clock and the timeout, with its carry.
unfoldable pub expire_after : Timespec → Timespec → Timespec
expire_after now ts =
    let sec = now.tv_sec +ℤ ts.tv_sec in
    let nsec = now.tv_nsec +ℤ ts.tv_nsec in
    if ltb_ℤ (pos nano_per_sec) nsec
    then record { tv_sec = sec +ℤ pos 1; tv_nsec = nsec -ℤ pos nano_per_sec }
    else record { tv_sec = sec; tv_nsec = nsec }

-- The two tests of `kevent_resume_p` that say that the time is over.
unfoldable pub is_expired : Timespec → Timespec → Bool
is_expired now expire_at =
    ltb_ℤ expire_at.tv_sec now.tv_sec
    || (not (ltb_ℤ now.tv_sec expire_at.tv_sec) && ltb_ℤ expire_at.tv_nsec now.tv_nsec)

module _ {W : Type 0} (vm : Vm W) (sys : KqueueCalls W) where
  unfoldable pub clock : Cmd W Timespec
  clock s = let (now, w) = sys.clock_gettime s.world in done now (record s { world = w })

  unfoldable pub kq_fd_check : KqPerThread → Cmd W KqPerThread
  kq_fd_check kpt = do
    save_errno ← get_errno
    fd ← rb_sp_fileno vm kpt.io
    set_errno save_errno
    pure (record kpt { fd = fd })

  -- The buffer for `max` events.
  abbrev pub kpt_room : ℕ → ℤ → Cmd W (ℕ × ℕ)
  kpt_room cache_line max =
      if is_negative max
      then set_errno einval >> rb_sys_fail "kevent got negative events < 0"
      else rb_sp_gettlsbuf vm cache_line (sizeof_kq_per_thread + sizeof_kevent * pos_part max)

  -- The address and the size of the thread's buffer. The fields are set by the caller.
  unfoldable pub kpt_get : ℕ → ℤ → ℤ → Cmd W (ℕ × ℕ)
  kpt_get cache_line nchanges nevents =
      kpt_room cache_line (if ltb_ℤ nevents nchanges then nchanges else nevents)

  -- Any failure of kqueue(2) is taken for a shortage. FD_CLOEXEC is set where that works.
  unfoldable pub s_new : Cmd W Value
  s_new = do
    first ← syscall sys.kqueue
    fd ← (elim first [
      | some fd ↦ pure fd
      | none ↦ do
        call vm.rb_gc
        second ← syscall sys.kqueue
        elim second [ none ↦ rb_sys_fail "kqueue" | some fd ↦ pure fd ]
    ])
    flags ← syscall (vm.fcntl_getfd fd)
    (elim flags [
      | none ↦ pure tt
      | some f ↦ syscall (vm.fcntl_setfd fd (bit_or f fd_cloexec)) >> pure tt
    ])
    call (vm.rb_call_super fd)

  unfoldable pub yield_kevent : Kevent → Cmd W (Unit {0})
  yield_kevent e = call (
      vm.rb_yield_values (
        fixnum (pos e.ident)
        ∷ fixnum e.filter
        ∷ fixnum (pos e.flags)
        ∷ fixnum (pos e.fflags)
        ∷ fixnum e.event_data
        ∷ e.udata
        ∷ []))

  unfoldable pub yield_all : List Kevent → Cmd W (Unit {0})
  yield_all [] = pure tt
  yield_all (e ∷ es) = yield_kevent e >> yield_all es

  unfoldable pub kevent_result : Wait → Cmd W Value
  unfolding yield_all
  kevent_result none = do
    e ← get_errno
    if e == eintr then pure (fixnum (pos 0)) else rb_sys_fail "kevent"
  kevent_result (some es) = yield_all es >> pure (fixnum (pos (length es)))

  -- Whether to call again; by then the changes are in.
  unfoldable pub kevent_resume_p : Timespec → KqPerThread → Cmd W (Bool × KqPerThread)
  unfolding kq_fd_check clock
  kevent_resume_p expire_at kpt = do
    checked ← kq_fd_check kpt
    e ← get_errno
    if not (e == eintr)
        then pure (false, checked)
        else (let sent = record checked { changes = [] } in
            elim sent.ts [
              | none ↦ pure (true, sent)
              | some _ ↦ do
                now ← clock
                if is_expired now expire_at
                    then pure (false, sent)
                    else pure (true, record sent { ts = some (tssub expire_at now) })
            ])

  unfoldable pub nogvl_kevent : KqPerThread → Cmd W Wait
  nogvl_kevent kpt = syscall (sys.kevent kpt.fd kpt.changes kpt.nevents kpt.ts)

  -- The condition of the `do … while` of `do_kevent`, and a round of that loop.
  unfoldable pub kevent_again : Timespec → KqPerThread → Wait → Cmd W (Step KqPerThread Wait)
  kevent_again expire_at kpt (some es) = pure (finish (some es))
  kevent_again expire_at kpt none = do
    (resume, kpt') ← kevent_resume_p expire_at kpt
    pure (if resume then again kpt' else finish none)

  unfoldable pub kevent_round : Timespec → KqPerThread → Cmd W (Step KqPerThread Wait)
  unfolding nogvl_kevent
  kevent_round expire_at kpt = do n ← nogvl_kevent kpt; kevent_again expire_at kpt n

  abbrev pub expiry : Option Timespec → Cmd W Timespec
  expiry none = pure (record { tv_sec = pos 0; tv_nsec = pos 0 })
  expiry (some ts) = do now ← clock; pure (expire_after now ts)

  -- `expire_at` is read only where there is a timeout.
  unfoldable pub do_kevent : ℕ → ℕ → Value → KqPerThread → Cmd W Value
  unfolding clock
  do_kevent fuel nchanges changelist kpt = do
    changes ← (if ltb 0 nchanges then changelist_prepare vm changelist else pure [])
    expire_at ← expiry kpt.ts
    n ← loop fuel (kevent_round expire_at) (record kpt { changes = changes })
    kevent_result n

  -- `RARRAY_LENINT`: the length of an Array as an `int`, or RangeError where it is none.
  abbrev pub rarray_lenint : ℕ → Cmd W ℕ
  rarray_lenint n =
      if ltb n (2 ^ 31) then pure n else throw (range_error "integer too big to convert to int")

  abbrev pub count_changes : Value → Cmd W ℕ
  count_changes qnil = pure 0
  count_changes (structure fields) = pure 1
  count_changes (array vs) = rarray_lenint (length (to_list vs))
  count_changes _ = throw (type_error "unhandled type for kevent changelist")

  abbrev pub as_count : ℤ → Cmd W ℕ
  as_count (pos n) = pure n
  as_count (negsuc n) = throw (arg_error "nevents must be non-negative")

  -- A block and a number of events come together or not at all.
  abbrev pub count_events : Bool → Value → Cmd W ℕ
  count_events true events =
      if is_nil events
      then throw (arg_error "block given but nevents not specified")
      else (do n ← call (vm.num2int events); as_count n)
  count_events false events =
      if is_nil events then pure 0 else throw (arg_error "nevents specified but block not given")

  unfoldable pub sp_kevent : Double → ℕ → ℕ → Bool → Value → Value → Value → Value → Cmd W Value
  sp_kevent db cache_line fuel block self changelist events timeout = do
    nchanges ← count_changes changelist
    nevents ← count_events block events
    t ←
        (if is_nil timeout
          then pure none
          else (do ts ← value2timespec db vm timeout; pure (some ts)))
    (p, size) ← kpt_get cache_line (pos nchanges) (pos nevents)
    fd ← rb_sp_fileno vm self
    rb_ensure
        (do_kevent fuel nchanges changelist
          (record { io = self; fd = fd; changes = []; nevents = nevents; ts = t }))
        (rb_sp_puttlsbuf (some p))
