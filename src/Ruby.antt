-- ===== src/Ruby.antt =====
-- What the C sources use of Ruby's C API (ruby.h, ruby/io.h) and of fcntl(2), which lie outside the
-- repository: values by their `TYPE`, and an interface whose functions are parameters of the model.
use sleepy_penguin.Base.{ℕ, ℤ, ◌≡◌, String, Bool, true, false, Option, none, some, List, [], ◌∷◌}
use sleepy_penguin.Proc.{TlsBuf, Ext, Sys}

-- A VALUE as the `switch (TYPE(v))` of the sources sees it. A Float is its 64-bit pattern; `file`,
-- `klass` and `object` name an object of the heap.
mutual
  pub data Value : Type 0 where
    qnil qtrue qfalse : Value
    fixnum bignum : ℤ → Value
    flonum : ℕ → Value
    symbol : String → Value
    array structure : Values → Value
    file klass object : ℕ → Value

  pub data Values : Type 0 where
    nil : Values
    item : Value → Values → Values

-- `NIL_P` and `RTEST`.
abbrev pub is_nil : Value → Bool
is_nil qnil = true
is_nil _ = false

abbrev pub is_truthy : Value → Bool
is_truthy qnil = false
is_truthy qfalse = false
is_truthy _ = true

abbrev pub is_true : Value → Bool
is_true qtrue = true
is_true _ = false

abbrev pub to_list : Values → List Value
to_list nil = []
to_list (item v vs) = v ∷ to_list vs

-- The functions of the VM that the sources call. The conversions raise where the number does not
-- fit the C type; `int_bits` is the 32-bit pattern of an `int`, for `|`.
pub record Vm (W : Type 0) : Type 0 where
  pub fix2int : Value → Ext W ℤ
  pub num2int : Value → Ext W ℤ
  pub int_bits : ℤ → ℕ
  pub num2uint : Value → Ext W ℕ
  pub num2short : Value → Ext W ℤ
  pub num2ushort : Value → Ext W ℕ
  pub num2ulong : Value → Ext W ℕ
  pub num2ull : Value → Ext W ℕ
  pub num2long : Value → Ext W ℤ
  pub rb_const_get : Value → String → Ext W Value
  pub class_of : Value → Value
  pub rb_io_get_io : Value → Ext W Value
  pub open_file_fd : Value → Ext W ℤ
  pub is_closed : Value → Ext W Value
  pub rb_gc : Ext W (Unit {0})
  pub rb_call_super : ℤ → Ext W Value
  pub rb_yield_values : List Value → Ext W (Unit {0})
  pub rb_io_wait_readable : ℤ → Ext W Bool
  pub rb_io_wait_writable : ℤ → Ext W Bool
  pub fcntl_getfd : ℤ → Sys W ℕ
  pub fcntl_setfd : ℤ → ℕ → Sys W (Unit {0})
  pub fcntl_getfl : ℤ → Sys W ℕ
  pub fcntl_setfl : ℤ → ℕ → Sys W (Unit {0})
  pub posix_memalign : ℕ → ℕ → (ℕ → Option TlsBuf) → W → Option ℕ
  pub pthread_setspecific : Option ℕ → W → Option ℕ

-- malloc(3): a new buffer does not overlay a live one.
pub record Allocates {W : Type 0} (vm : Vm W) : Type 0 where
  pub fresh :
      (align size : ℕ) (heap : ℕ → Option TlsBuf) (w : W) (p : ℕ)
      → vm.posix_memalign align size heap w ≡ some p
      → heap p ≡ none
