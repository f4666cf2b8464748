-- ===== src/Inotify.antt =====
-- ext/sleepy_penguin/inotify.c: `Inotify.new`, `#add_watch`, `#rm_watch`, `#take`, `Event#events`;
-- `#each` is in Each.
pub mod Each
pub mod Leak
pub mod Masks
pub mod Names
pub mod Registered
pub mod Resize
pub mod Rounds
pub mod Setup
pub mod Total
pub mod Wire
use sleepy_penguin.Base.{
  is_some, ◌&&◌, pos_part, pos, is_positive, ◌==◌, bit_and, [], some, ltb, is_zero, if◌then◌else◌,
  ◌∷◌, Bool, none, map, List, String, Option, ℤ, ℕ,
}
use sleepy_penguin.Ruby.{fixnum, is_truthy, Value, Vm}
use sleepy_penguin.Proc.{
  rb_ensure, get_errno, runtime_error, rb_sys_fail, ◌>>◌, throw, syscall, pure, call, ◌>>=◌, Cmd,
  Sys,
}
use sleepy_penguin.Inotify.Wire.{decode_events, Event}
use sleepy_penguin.Util.{
  when_nonblock, rb_sp_wait, rb_sp_set_nonblock, rb_sp_get_uflags, retry_after_gc, rb_sp_fileno,
  rb_sp_get_flags,
}
use sleepy_penguin.Proc.Loop.{finish, again, loop, Step}
use sleepy_penguin.Tls.{rb_sp_puttlsbuf, rb_sp_gettlsbuf}
use sleepy_penguin.Base.Errno.{eagain, einval}

pub record InotifyCalls (W : Type 0) : Type 0 where
  pub inotify_init1 : ℕ → Sys W ℤ
  pub inotify_add_watch : ℤ → String → ℕ → Sys W ℕ
  pub inotify_rm_watch : ℤ → ℕ → Sys W ℤ
  pub read : ℤ → ℕ → Sys W (List ℕ)
  pub fionread : ℤ → Sys W ℤ

-- The `struct inread_args` of a call: its descriptor, and the buffer with its size.
pub record InreadArgs : Type 0 where
  pub fd : ℤ
  pub size : ℕ
  pub buf : ℕ

-- The events of a call: the one to return, and those for later calls (`@inotify_tmp`).
abbrev pub Taken : Type 0
Taken = Option Event × List Event

module _ {W : Type 0} (vm : Vm W) (sys : InotifyCalls W) where
  unfoldable pub s_new : ℕ → Value → Value → Cmd W (Value × List Event)
  s_new cloexec k flags = do
    f ← rb_sp_get_flags vm k flags cloexec
    fd ← retry_after_gc vm (sys.inotify_init1 f) "inotify_init1"
    rv ← call (vm.rb_call_super fd)
    pure (rv, [])

  unfoldable pub add_watch : Value → String → Value → Cmd W Value
  add_watch self pathname vmask = do
    fd ← rb_sp_fileno vm self
    mask ← rb_sp_get_uflags vm self vmask
    rc ← syscall (sys.inotify_add_watch fd pathname mask)
    elim rc [ none ↦ rb_sys_fail "inotify_add_watch" | some wd ↦ pure (fixnum (pos wd)) ]

  unfoldable pub rm_watch : Value → Value → Cmd W Value
  rm_watch self vwd = do
    wd ← call (vm.num2uint vwd)
    fd ← rb_sp_fileno vm self
    rc ← syscall (sys.inotify_rm_watch fd wd)
    elim rc [ none ↦ rb_sys_fail "inotify_rm_watch" | some r ↦ pure (fixnum r) ]

  abbrev pub inread : InreadArgs → Cmd W (Option (List ℕ))
  inread args = syscall (sys.read args.fd args.size)

  module _ (cache_line : ℕ) where
    -- The `if (newlen == 0)` and the `rb_raise` behind it, which every other length reaches.
    abbrev pub check_length : ℤ → InreadArgs → Cmd W InreadArgs
    check_length newlen args =
        if is_zero newlen
        then pure args
        else throw (runtime_error "ioctl(inotify,FIONREAD) returned negative length")

    -- A length above zero is the size of the next buffer.
    unfoldable pub resize_to : InreadArgs → ℤ → Cmd W InreadArgs
    resize_to args newlen =
        if is_positive newlen
        then (do
          rb_sp_puttlsbuf (some args.buf)
          (buf, size) ← rb_sp_gettlsbuf vm cache_line (pos_part newlen)
          check_length newlen (record args { buf = buf; size = size }))
        else check_length newlen args

    -- What follows the `ioctl`.
    abbrev pub resize_for : InreadArgs → Option ℤ → Cmd W InreadArgs
    resize_for args none = rb_sys_fail "ioctl(inotify,FIONREAD)"
    resize_for args (some newlen) = resize_to args newlen

    unfoldable pub resize_internal_buffer : InreadArgs → Cmd W InreadArgs
    resize_internal_buffer args =
        if ltb 0x10000 args.size
        then throw (runtime_error "path too long")
        else (do len ← syscall (sys.fionread args.fd); resize_for args len)

    -- The loop over the events of a read: the first is for the caller, the rest for later calls.
    abbrev pub split_events : List Event → Taken
    split_events [] = (none, [])
    split_events (e ∷ es) = (some e, es)

    -- `else if (r < 0)` and the `EINVAL` of the branch above it, by the `errno` of the read.
    unfoldable pub read_failed : Value → Bool → InreadArgs → Cmd W (Step InreadArgs Taken)
    read_failed self nonblock_p args = do
      e ← get_errno
      if e == einval
          then (do a ← resize_internal_buffer args; pure (again a))
          else (if e == eagain && nonblock_p then pure (finish (none, [])) else (do
            (rc, fd) ← rb_sp_wait vm vm.rb_io_wait_readable self
            if rc then pure (again (record args { fd = fd })) else rb_sys_fail "read(inotify)"))

    -- With no event in the bytes `rv` is still nil, and the loop goes on.
    unfoldable pub read_done :
        Value → Bool → InreadArgs → Option (List ℕ) → Cmd W (Step InreadArgs Taken)
    read_done self nonblock_p args none = read_failed self nonblock_p args
    read_done self nonblock_p args (some []) = do a ← resize_internal_buffer args; pure (again a)
    read_done self nonblock_p args (some (b ∷ bs)) =
        let (rv, es) = split_events (decode_events (b ∷ bs)) in
        pure (if is_some rv then finish (rv, es) else again args)

    -- One round of the `do … while (NIL_P(rv))`.
    unfoldable pub take_round : Value → Bool → InreadArgs → Cmd W (Step InreadArgs Taken)
    take_round self nonblock_p args = do r ← inread args; read_done self nonblock_p args r

    unfoldable pub do_take : ℕ → Value → Bool → ℤ → ℕ → Cmd W Taken
    do_take fuel self nonblock_p fd size = do
      (buf, size') ← rb_sp_gettlsbuf vm cache_line size
      loop fuel (take_round self nonblock_p) (record { fd = fd; size = size'; buf = buf })

    -- `rb_ensure` is handed `args.buf` as it is before the call: NULL.
    unfoldable pub take : ℕ → Value → List Event → Value → Cmd W Taken
    take fuel self (ev ∷ tmp) nonblock = pure (some ev, tmp)
    take fuel self [] nonblock = do
      fd ← rb_sp_fileno vm self
      when_nonblock vm nonblock fd
      rb_ensure (do_take fuel self (is_truthy nonblock) fd 128) (rb_sp_puttlsbuf none)

-- `Event#events`: the names all of whose bits are set.
unfoldable pub events : List (String × ℕ) → ℕ → List String
events [] event_mask = []
events ((sym, mask) ∷ rest) event_mask =
    if bit_and event_mask mask == mask then sym ∷ events rest event_mask else events rest event_mask
