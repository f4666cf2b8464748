-- ===== src/Copy.antt =====
-- The copies inside the kernel: ext/sleepy_penguin/splice.c, cfr.c and sp_copy.h. A return of nil
-- says that the input has ended, `:EAGAIN` that the call would block.
pub mod Accounts
pub mod Ends
pub mod Setup
pub mod Total
use sleepy_penguin.Base.{pos, some, none, ◌==◌, if◌then◌else◌, String, Option, ℕ, ℤ}
use sleepy_penguin.Proc.{
  rb_sys_fail, set_errno, ◌>>◌, call, syscall, get_errno, pure, ◌>>=◌, Cmd, Sys,
}
use sleepy_penguin.Ruby.{fixnum, qnil, is_nil, symbol, Vm, Value}
use sleepy_penguin.Proc.Loop.{finish, again, loop, Step}
use sleepy_penguin.Util.{rb_sp_fileno}
use sleepy_penguin.Base.Errno.{eagain, eintr}

-- `struct copy_args`. An offset is absent for NULL; the kernel moves the one it is given.
pub record CopyArgs : Type 0 where
  pub fd_in : ℤ
  pub fd_out : ℤ
  pub off_in : Option ℤ
  pub off_out : Option ℤ
  pub len : ℕ
  pub flags : ℕ

-- What a call that succeeds gives: the bytes moved and the offsets after them.
pub record Copied : Type 0 where
  pub bytes : ℕ
  pub off_in : Option ℤ
  pub off_out : Option ℤ

pub record CopyCalls (W : Type 0) : Type 0 where
  pub splice : CopyArgs → Sys W Copied
  pub tee : ℤ → ℤ → ℕ → ℕ → Sys W ℕ
  pub copy_file_range : CopyArgs → Sys W Copied

abbrev pub sym_eagain : Value
sym_eagain = symbol "EAGAIN"

module _ {W : Type 0} (vm : Vm W) (sys : CopyCalls W) where
  -- `NIL_P(off) ? NULL : NUM2OFFT(off)`
  abbrev pub offset_arg : Value → Cmd W (Option ℤ)
  offset_arg off = if is_nil off then pure none else (do o ← call (vm.num2long off); pure (some o))

  -- `errno` is saved round the check.
  unfoldable pub check_fileno : Value → Cmd W ℤ
  check_fileno io = do
    saved_errno ← get_errno
    fd ← rb_sp_fileno vm io
    set_errno saved_errno
    pure fd

  -- The `switch (errno)` behind splice(2) and tee(2).
  unfoldable pub copy_failed : {C : Type 0} → C → String → Cmd W (Step C Value)
  copy_failed args what = do
    e ← get_errno
    if e == eintr
        then pure (again args)
        else (if e == eagain then pure (finish sym_eagain) else rb_sys_fail what)

  abbrev pub nogvl_splice : CopyArgs → Cmd W (Option Copied)
  nogvl_splice a = syscall (sys.splice a)

  abbrev pub nogvl_tee : ℤ → ℤ → ℕ → ℕ → Cmd W (Option ℕ)
  nogvl_tee fd_in fd_out len flags = syscall (sys.tee fd_in fd_out len flags)

  -- By its number where the C library has no wrapper, which is the same call.
  abbrev pub nogvl_cfr : CopyArgs → Cmd W (Option Copied)
  nogvl_cfr a = syscall (sys.copy_file_range a)

  abbrev pub moved : ℕ → Value
  moved bytes = if bytes == 0 then qnil else fixnum (pos bytes)

  unfoldable pub splice_round : Value → Value → CopyArgs → Cmd W (Step CopyArgs Value)
  unfolding copy_failed
  splice_round io_in io_out args = do
    fd_in ← check_fileno io_in
    fd_out ← check_fileno io_out
    r ← nogvl_splice (record args { fd_in = fd_in; fd_out = fd_out })
    elim r [ some c ↦ pure (finish (moved c.bytes)) | none ↦ copy_failed args "splice" ]

  -- The descriptors are set in each round.
  unfoldable pub my_splice : ℕ → Value → Value → Value → Value → Value → Value → Cmd W Value
  my_splice fuel io_in off_in io_out off_out len flags = do
    i ← offset_arg off_in
    o ← offset_arg off_out
    n ← call (vm.num2ulong len)
    f ← call (vm.num2uint flags)
    loop fuel (splice_round io_in io_out)
        (record { fd_in = pos 0; fd_out = pos 0; off_in = i; off_out = o; len = n; flags = f })

  unfoldable pub tee_round : Value → Value → ℕ × ℕ → Cmd W (Step (ℕ × ℕ) Value)
  unfolding copy_failed
  tee_round io_in io_out (len, flags) = do
    fd_in ← check_fileno io_in
    fd_out ← check_fileno io_out
    r ← nogvl_tee fd_in fd_out len flags
    elim r [ some bytes ↦ pure (finish (moved bytes)) | none ↦ copy_failed (len, flags) "tee" ]

  unfoldable pub my_tee : ℕ → Value → Value → Value → Value → Cmd W Value
  my_tee fuel io_in io_out len flags = do
    n ← call (vm.num2ulong len)
    f ← call (vm.num2uint flags)
    loop fuel (tee_round io_in io_out) (n, f)

  -- Unlike the two above this one passes 0 and EAGAIN on as they are.
  unfoldable pub cfr_round : Value → Value → CopyArgs → Cmd W (Step CopyArgs Value)
  cfr_round io_in io_out args = do
    fd_in ← rb_sp_fileno vm io_in
    fd_out ← rb_sp_fileno vm io_out
    r ← nogvl_cfr (record args { fd_in = fd_in; fd_out = fd_out })
    elim r [
      | some c ↦ pure (finish (fixnum (pos c.bytes)))
      | none ↦ do
        e ← get_errno
        if e == eintr then pure (again args) else rb_sys_fail "copy_file_range"
    ]

  unfoldable pub rb_sp_cfr : ℕ → Value → Value → Value → Value → Value → Value → Cmd W Value
  rb_sp_cfr fuel io_in off_in io_out off_out len flags = do
    i ← offset_arg off_in
    o ← offset_arg off_out
    n ← call (vm.num2ulong len)
    f ← call (vm.num2uint flags)
    loop fuel (cfr_round io_in io_out)
        (record { fd_in = pos 0; fd_out = pos 0; off_in = i; off_out = o; len = n; flags = f })
