-- ===== src/Proc.antt =====
-- A run of the extension in one native thread: `errno`, the buffers of ext/sleepy_penguin/init.c
-- with the pointer that the thread-specific key holds, and the world outside (the kernel, the Ruby
-- VM, the other threads), whose type is a parameter.
pub mod Frame
pub mod Halts
pub mod Loop
pub mod Patience
pub mod Quiet
pub mod Sat
use sleepy_penguin.Base.{ℕ, String, Bool, true, false, Option, none, some}

-- `enum rb_sp_tls_buf_type`.
pub data TlsBufType : Type 0 where
  in_use ready malloced : TlsBufType

-- `struct rb_sp_tlsbuf`, its payload left to the user of the buffer.
pub record TlsBuf : Type 0 where
  pub capa : ℕ
  pub buf_type : TlsBufType

pub record St (W : Type 0) : Type 0 where
  pub errno : ℕ
  pub heap : ℕ → Option TlsBuf
  pub slot : Option ℕ
  pub world : W

-- What `rb_raise` and its relatives raise. `foreign` is an exception of code outside the library.
pub data Exn : Type 0 where
  sys_fail : ℕ → String → Exn
  type_error arg_error runtime_error range_error : String → Exn
  no_memory : Exn
  foreign : ℕ → Exn

-- `crash` is a failed assertion or an access to freed memory.
pub data Run (W A : Type 0) : Type 0 where
  done : A → St W → Run W A
  raise : Exn → St W → Run W A
  crash : Run W A
  out_of_fuel : Run W A

abbrev pub Cmd : Type 0 → Type 0 → Type 0
Cmd W A = St W → Run W A

-- A call into Ruby may set `errno`, change the world, and raise.
pub data Reply (W A : Type 0) : Type 0 where
  yields : A → ℕ → W → Reply W A
  throws : Exn → ℕ → W → Reply W A

abbrev pub Ext : Type 0 → Type 0 → Type 0
Ext W A = ℕ → W → Reply W A

-- A system call gives a value, or -1 with an `errno`.
pub data SysReply (W A : Type 0) : Type 0 where
  gives : A → W → SysReply W A
  fails : ℕ → W → SysReply W A

abbrev pub Sys : Type 0 → Type 0 → Type 0
Sys W A = W → SysReply W A

module _ {W : Type 0} where
  abbrev pub pure : {A : Type 0} → A → Cmd W A
  pure = done

  abbrev pub and_then : {A B : Type 0} → Run W A → (A → Cmd W B) → Run W B
  and_then (done a s) k = k a s
  and_then (raise e s) k = raise e s
  and_then crash k = crash
  and_then out_of_fuel k = out_of_fuel

  infixl 5 ◌>>=◌ ◌>>◌
  abbrev pub ◌>>=◌ : {A B : Type 0} → Cmd W A → (A → Cmd W B) → Cmd W B
  m >>= k = λ s. and_then (m s) k

  abbrev pub ◌>>◌ : {A B : Type 0} → Cmd W A → Cmd W B → Cmd W B
  m >> n = m >>= λ _. n

  abbrev pub throw : {A : Type 0} → Exn → Cmd W A
  throw e s = raise e s

  -- `assert`
  abbrev pub assert : Bool → Cmd W (Unit {0})
  assert true s = done tt s
  assert false s = crash

  abbrev pub get_errno : Cmd W ℕ
  get_errno s = done s.errno s

  abbrev pub set_errno : ℕ → Cmd W (Unit {0})
  set_errno e s = done tt (record s { errno = e })

  -- `rb_sys_fail` raises for the `errno` of the moment.
  abbrev pub rb_sys_fail : {A : Type 0} → String → Cmd W A
  rb_sys_fail what s = raise (sys_fail s.errno what) s

  abbrev pub replied : {A : Type 0} → St W → Reply W A → Run W A
  replied s (yields a e w) = done a (record s { errno = e; world = w })
  replied s (throws x e w) = raise x (record s { errno = e; world = w })

  abbrev pub call : {A : Type 0} → Ext W A → Cmd W A
  call f s = replied s (f s.errno s.world)

  abbrev pub returned : {A : Type 0} → St W → SysReply W A → Run W (Option A)
  returned s (gives a w) = done (some a) (record s { world = w })
  returned s (fails e w) = done none (record s { errno = e; world = w })

  -- `none` is the result -1.
  abbrev pub syscall : {A : Type 0} → Sys W A → Cmd W (Option A)
  syscall f s = returned s (f s.world)

  abbrev pub cleaned : {A B : Type 0} → Run W A → Cmd W B → Run W A
  cleaned (done a s) m = and_then (m s) (λ _. done a)
  cleaned (raise e s) m = and_then (m s) (λ _. raise e)
  cleaned crash m = crash
  cleaned out_of_fuel m = out_of_fuel

  -- `rb_ensure`: the clean-up runs after a result and after an exception alike.
  abbrev pub rb_ensure : {A B : Type 0} → Cmd W A → Cmd W B → Cmd W A
  rb_ensure body clean s = cleaned (body s) clean
