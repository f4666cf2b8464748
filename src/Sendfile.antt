-- ===== src/Sendfile.antt =====
-- ext/sleepy_penguin/sendfile.c: the three systems that `linux_sendfile` is defined for, and `__lsf`.
pub mod Contract
pub mod Emulated
pub mod Retry
pub mod Setup
pub mod Whole
use sleepy_penguin.Base.{
  [], ◌∷◌, true, ◌||◌, ◌==◌, ◌&&◌, false, is_some, not, negsuc, pos, none, ltb, ◌+ℤ◌, List,
  if◌then◌else◌, some, Bool, ℕ, Option, ℤ,
}
use sleepy_penguin.Ruby.{fixnum, is_nil, symbol, Vm, Value}
use sleepy_penguin.Proc.{
  rb_sys_fail, set_errno, ◌>>◌, call, get_errno, done, pure, Ext, syscall, Cmd, Sys, ◌>>=◌,
}
use sleepy_penguin.Proc.Loop.{again, finish, Step, loop}
use sleepy_penguin.Util.{rb_sp_fileno}
use sleepy_penguin.Base.Errno.{enobufs, enomem, eagain, eintr}

-- `sendfile` of BSD gives its result and the bytes sent, in either case.
pub record SendfileCalls (W : Type 0) : Type 0 where
  pub sendfile : ℤ → ℤ → Option ℤ → ℕ → Sys W (ℕ × Option ℤ)
  pub bsd_sendfile : ℤ → ℤ → ℤ → ℕ → W → Option ℕ × ℕ × W
  pub lseek_cur : ℤ → ℤ → Sys W ℤ
  pub pread : ℤ → ℕ → ℤ → Sys W (List ℕ)
  pub read : ℤ → ℕ → Sys W (List ℕ)
  pub write : ℤ → List ℕ → Sys W ℕ
  pub xfree : Ext W (Unit {0})

-- The result (`none` is -1) and what `*off` holds after the call.
abbrev pub Sent : Type 0
Sent = Option ℕ × Option ℤ

abbrev pub Sender : Type 0 → Type 0
Sender W = ℤ → ℤ → Option ℤ → ℕ → Cmd W Sent

-- `if (off) *off += n`
abbrev pub advance : Option ℤ → ℕ → Option ℤ
advance none n = none
advance (some o) n = some (o +ℤ pos n)

module _ {W : Type 0} (sys : SendfileCalls W) where
  -- Linux: the system call itself.
  unfoldable pub native_sendfile : Sender W
  native_sendfile out_fd in_fd off count = do
    r ← syscall (sys.sendfile out_fd in_fd off count)
    elim r [ none ↦ pure (none, off) | some (n, off') ↦ pure (some n, off') ]

  -- FreeBSD and DragonFly: the offset is read from the file where none is given, and moved by hand.
  unfoldable pub bsd_linux_sendfile : Sender W
  bsd_linux_sendfile sockfd filefd off count = do
    offset ← (elim off [
      | some o ↦ pure o
      | none ↦ do
        r ← syscall (sys.lseek_cur filefd (pos 0))
        elim r [ none ↦ pure (negsuc 0) | some o ↦ pure o ]
    ])
    (rc, sbytes) ← bsd_call filefd sockfd offset
    if ltb 0 sbytes
        then (do
          (if is_some off
              then pure tt
              else (syscall (sys.lseek_cur filefd (pos sbytes)) >> pure tt))
          pure (some sbytes, advance off sbytes))
        else pure (rc, off)
    where
      bsd_call : ℤ → ℤ → ℤ → Cmd W (Option ℕ × ℕ)
      bsd_call f s o st =
          let (rc, sbytes, w) = sys.bsd_sendfile f s o count st.world in
          elim rc [
            | none ↦ done (some 0, sbytes) (record st { world = w })
            | some e ↦ done (none, sbytes) (record st { world = w; errno = e })
          ]

  abbrev pub max_read : ℕ → ℕ
  max_read count = if ltb 16384 count then 16384 else count

  -- One round of the `do … while (r < 0 && errno == EINTR)`.
  unfoldable pub read_round :
      ℤ → Option ℤ → ℕ → Unit {0} → Cmd W (Step (Unit {0}) (Option (List ℕ)))
  read_round filefd off n u = do
    r ← (elim off [ some o ↦ syscall (sys.pread filefd n o) | none ↦ syscall (sys.read filefd n) ])
    e ← get_errno
    pure (if not (is_some r) && e == eintr then again tt else finish r)

  -- Elsewhere: a read into a buffer and a write out of it. `free` may set `errno`.
  unfoldable pub pread_sendfile : ℕ → Sender W
  pread_sendfile fuel sockfd filefd off count = do
    r ← loop fuel (read_round filefd off (max_read count)) tt
    elim r [
      | none ↦ do err ← get_errno; call sys.xfree; set_errno err; pure (none, off)
      | some [] ↦ do err ← get_errno; call sys.xfree; set_errno err; pure (some 0, off)
      | some (b ∷ bs) ↦ do
        w ← syscall (sys.write sockfd (b ∷ bs))
        call sys.xfree
        pure (w, elim w [ none ↦ off | some n ↦ advance off n ])
    ]

  -- The choice between the three, by the macros of the system.
  unfoldable pub linux_sendfile : (on_linux on_bsd has_sendfile : Bool) → ℕ → Sender W
  linux_sendfile on_linux on_bsd has_sendfile fuel =
      if on_linux && has_sendfile
      then native_sendfile
      else (if has_sendfile && on_bsd then bsd_linux_sendfile else pread_sendfile fuel)

-- The loop variables of `lsf`.
pub record Attempt : Type 0 where
  pub off : Option ℤ
  pub retried : Bool

abbrev pub sym_wait_writable : Value
sym_wait_writable = symbol "wait_writable"

module _ {W : Type 0} (vm : Vm W) (linux_sendfile : Sender W) where
  -- One round from `again:` on. Short of memory it collects garbage and goes round once more.
  unfoldable pub lsf_round : Value → Value → ℕ → Attempt → Cmd W (Step Attempt Value)
  lsf_round dst src count a = do
    src_fd ← rb_sp_fileno vm src
    dst_fd ← rb_sp_fileno vm dst
    (bytes, off) ← linux_sendfile dst_fd src_fd a.off count
    elim bytes [
      | some n ↦ pure (finish (fixnum (pos n)))
      | none ↦ do
        e ← get_errno
        if e == eagain
            then pure (finish sym_wait_writable)
            else (if (e == enomem || e == enobufs) && not a.retried
                then call vm.rb_gc >> pure (again (record { off = off; retried = true }))
                else rb_sys_fail "sendfile")
    ]

  -- Two rounds are all there are.
  unfoldable pub lsf : Value → Value → Value → Value → Cmd W Value
  lsf dst src src_off count = do
    off ← (if is_nil src_off then pure none else (do o ← call (vm.num2long src_off); pure (some o)))
    n ← call (vm.num2ulong count)
    loop 2 (lsf_round dst src n) (record { off = off; retried = false })
