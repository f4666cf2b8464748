-- ===== src/Epoll.antt =====
-- ext/sleepy_penguin/epoll.c: `Epoll::IO.new`, `#epoll_ctl` and `#epoll_wait`.
pub mod Arrives
pub mod Buffers
pub mod Ends
pub mod Timeout
pub mod Setup
pub mod Total
pub mod Yields
use sleepy_penguin.Base.{
  int_of_u64, ◌∷◌, [], true, negsuc, is_negative, length, false, ◌^◌, none, ◌%◌, ◌-◌, ◌/◌, ◌+◌, pos,
  ◌==◌, ◌*◌, some, not, ltb, is_positive, pos_part, if◌then◌else◌, Bool, List, ℤ, Option, ℕ,
}
use sleepy_penguin.Ruby.{qnil, is_nil, fixnum, Vm, Value}
use sleepy_penguin.Proc.{
  rb_ensure, rb_sys_fail, arg_error, set_errno, ◌>>◌, throw, call, get_errno, ◌>>=◌, syscall, pure,
  done, Cmd, Sys,
}
use sleepy_penguin.Timespec.{Timespec}
use sleepy_penguin.Proc.Loop.{again, loop, finish, Step}
use sleepy_penguin.Util.{retry_after_gc, rb_sp_get_uflags, rb_sp_fileno, rb_sp_get_flags}
use sleepy_penguin.Tls.{rb_sp_puttlsbuf, rb_sp_gettlsbuf}
use sleepy_penguin.Base.Errno.{einval, eintr}

-- `struct epoll_event`, with the VALUE that `pack_event_data` stores in it.
pub record EpollEvent : Type 0 where
  pub events : ℕ
  pub ptr : Value

pub record EpollCalls (W : Type 0) : Type 0 where
  pub epoll_create1 : ℕ → Sys W ℤ
  pub epoll_ctl : ℤ → ℤ → ℤ → EpollEvent → Sys W (Unit {0})
  pub epoll_wait : ℤ → ℤ → ℤ → Sys W (List EpollEvent)
  pub clock_gettime : W → Timespec × W

-- `struct ep_per_thread`, but for the events that a call gives back.
pub record EpPerThread : Type 0 where
  pub io : Value
  pub fd : ℤ
  pub timeout : ℤ
  pub maxevents : ℤ

-- `sizeof(struct ep_per_thread)` and `sizeof(struct epoll_event)`, packed, on 64 bits.
abbrev pub sizeof_ep_per_thread : ℕ
sizeof_ep_per_thread = 24

abbrev pub sizeof_epoll_event : ℕ
sizeof_epoll_event = 12

-- The result of a call of epoll_wait(2): `none` is -1.
abbrev pub Wait : Type 0
Wait = Option (List EpollEvent)

unfoldable pub pack_event_data : Value → ℕ → EpollEvent
pack_event_data obj events = record { events = events; ptr = obj }

unfoldable pub unpack_event_data : EpollEvent → Value
unpack_event_data e = e.ptr

module _ {W : Type 0} (vm : Vm W) (sys : EpollCalls W) where
  -- Milliseconds of the monotonic clock, to the nearest, in a `uint64_t`.
  unfoldable pub now_ms : Cmd W ℕ
  now_ms s =
      let (now, w) = sys.clock_gettime s.world in
      done ((pos_part now.tv_sec * 1000 + (pos_part now.tv_nsec + 500000) / 1000000) % 2 ^ 64)
        (record s { world = w })

  -- Raises if the IO is closed; `errno` is saved round the check.
  unfoldable pub ep_fd_check : EpPerThread → Cmd W EpPerThread
  ep_fd_check ept = do
    save_errno ← get_errno
    fd ← rb_sp_fileno vm ept.io
    set_errno save_errno
    pure (record ept { fd = fd })

  -- The address of the thread's buffer. The fields are set by the caller.
  unfoldable pub ept_get : ℕ → ℤ → Cmd W (ℕ × ℕ)
  ept_get cache_line maxevents =
      if is_positive maxevents
      then rb_sp_gettlsbuf vm cache_line
          (sizeof_ep_per_thread + sizeof_epoll_event * pos_part maxevents)
      else set_errno einval >> rb_sys_fail "epoll_wait maxevents <= 0"

  unfoldable pub s_new : ℕ → Value → Value → Cmd W Value
  s_new cloexec c_epoll flags = do
    f ← rb_sp_get_flags vm c_epoll flags cloexec
    fd ← retry_after_gc vm (sys.epoll_create1 f) "epoll_create1"
    call (vm.rb_call_super fd)

  unfoldable pub epctl : Value → Value → Value → Value → Cmd W Value
  unfolding pack_event_data
  epctl self op io events = do
    epfd ← rb_sp_fileno vm self
    fd ← rb_sp_fileno vm io
    o ← call (vm.num2int op)
    ev ← call (vm.num2uint events)
    rv ← syscall (sys.epoll_ctl epfd o fd (pack_event_data io ev))
    elim rv [ none ↦ rb_sys_fail "epoll_ctl" | some _ ↦ pure qnil ]

  -- The block is called with the events in the order of the buffer.
  unfoldable pub yield_events : List EpollEvent → Cmd W (Unit {0})
  unfolding unpack_event_data
  yield_events [] = pure tt
  yield_events (e ∷ es) = do
    call (vm.rb_yield_values (fixnum (pos e.events) ∷ unpack_event_data e ∷ []))
    yield_events es

  unfoldable pub epwait_result : Wait → Cmd W Value
  unfolding yield_events
  epwait_result none = do
    e ← get_errno
    if e == eintr then pure (fixnum (pos 0)) else rb_sys_fail "epoll_wait"
  epwait_result (some es) = yield_events es >> pure (fixnum (pos (length es)))

  -- `now > expire_at ? 0 : (int)(expire_at - now)`, of numbers of type `uint64_t`.
  abbrev pub remaining : ℕ → ℕ → ℤ
  remaining expire_at now = if ltb expire_at now then pos 0 else int_of_u64 (expire_at - now)

  -- Whether to call again, and with what.
  unfoldable pub epoll_resume_p : ℕ → EpPerThread → Cmd W (Bool × EpPerThread)
  unfolding ep_fd_check now_ms
  epoll_resume_p expire_at ept = do
    ept' ← ep_fd_check ept
    e ← get_errno
    if not (e == eintr)
        then pure (false, ept')
        else (if is_negative ept'.timeout
            then pure (true, ept')
            else (do now ← now_ms; pure (true, record ept' { timeout = remaining expire_at now })))

  unfoldable pub nogvl_wait : EpPerThread → Cmd W Wait
  nogvl_wait ept = syscall (sys.epoll_wait ept.fd ept.maxevents ept.timeout)

  -- The condition of the `do … while` of `real_epwait`.
  unfoldable pub epwait_again : ℕ → EpPerThread → Wait → Cmd W (Step EpPerThread Wait)
  epwait_again expire_at ept (some es) = pure (finish (some es))
  epwait_again expire_at ept none = do
    (resume, ept') ← epoll_resume_p expire_at ept
    pure (if resume then again ept' else finish none)

  -- One round of that loop.
  unfoldable pub epwait_round : ℕ → EpPerThread → Cmd W (Step EpPerThread Wait)
  unfolding nogvl_wait
  epwait_round expire_at ept = do n ← nogvl_wait ept; epwait_again expire_at ept n

  abbrev pub expiry : EpPerThread → Cmd W ℕ
  expiry ept =
      if is_positive ept.timeout
      then (do now ← now_ms; pure ((now + pos_part ept.timeout) % 2 ^ 64))
      else pure 0

  unfoldable pub real_epwait : ℕ → EpPerThread → Cmd W Value
  real_epwait fuel ept = do
    expire_at ← expiry ept
    fd ← rb_sp_fileno vm ept.io
    n ← loop fuel (epwait_round expire_at) (record ept { fd = fd })
    epwait_result n

  -- `block` is `rb_block_given_p()`; `rb_need_block` raises without one.
  unfoldable pub epwait : ℕ → ℕ → Bool → Value → Value → Value → Cmd W Value
  epwait cache_line fuel block self maxevents timeout =
      if not block then throw (arg_error "no block given (yield)") else (do
        t ← (if is_nil timeout then pure (negsuc 0) else call (vm.num2int timeout))
        m ← (if is_nil maxevents then pure (pos 64) else call (vm.num2int maxevents))
        (p, size) ← ept_get cache_line m
        rb_ensure (real_epwait fuel (record { io = self; fd = pos 0; timeout = t; maxevents = m }))
            (rb_sp_puttlsbuf (some p)))

  unfoldable pub event_flags : Value → Value → Cmd W Value
  event_flags self flags = do f ← rb_sp_get_uflags vm self flags; pure (fixnum (pos f))
