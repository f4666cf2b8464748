-- ===== src/Tests/World.antt =====
-- A world that is the number of interruptions still to come, a VM that raises nothing, and two
-- states of the buffers.
use sleepy_penguin.Proc.{fails, foreign, ready, throws, gives, yields, St, TlsBuf, Sys, Ext}
use sleepy_penguin.Ruby.{qnil, qfalse, klass, fixnum, Allocates, Vm, Value}
use sleepy_penguin.Base.{
  List, ap, false, true, zero, inr, inl, ◌==◌, Option-cases, pos, none, suc, if◌then◌else◌, ◌≡◌,
  arith, some, Option, pos_part, ℤ, ℕ,
}
use sleepy_penguin.Tls.Inv.{IsValid}
use sleepy_penguin.Base.Errno.{eintr}
use sleepy_penguin.Timespec.{Double}
use sleepy_penguin.Proc.Patience.{IsSpent, IsCalmSys, IsCalm}
use sleepy_penguin.Util.Ends.{CalmVm}
use sleepy_penguin.Proc.Quiet.{IsQuietSys, IsQuiet}
use sleepy_penguin.Util.Quiet.{QuietVm}

abbrev pub quietly : {W A : Type 0} → A → Ext W A
quietly a e w = yields a e w

abbrev pub int_of : Value → ℤ
int_of (fixnum n) = n
int_of _ = pos 0

abbrev pub nat_of : Value → ℕ
nat_of v = pos_part (int_of v)

-- A call that is interrupted as long as the world has interruptions left.
abbrev pub interrupted : {A : Type 0} → A → Sys ℕ A
interrupted a zero = gives a 0
interrupted a (suc n) = fails eintr n

-- Two addresses for buffers.
abbrev pub memalign : {W : Type 0} → ℕ → ℕ → (ℕ → Option TlsBuf) → W → Option ℕ
memalign align size heap w = elim (heap 1) [
  | none ↦ some 1
  | some _ ↦ elim (heap 2) [ none ↦ some 2 | some _ ↦ none ]
]

abbrev pub vm_of : (W : Type 0) → Vm W
vm_of W = record {
  fix2int = λ v. quietly (int_of v);
  num2int = λ v. quietly (int_of v);
  int_bits = λ n. pos_part n;
  num2uint = λ v. quietly (nat_of v);
  num2short = λ v. quietly (int_of v);
  num2ushort = λ v. quietly (nat_of v);
  num2ulong = λ v. quietly (nat_of v);
  num2ull = λ v. quietly (nat_of v);
  num2long = λ v. quietly (int_of v);
  rb_const_get = λ v name. quietly (fixnum (pos 1));
  class_of = λ v. klass 0;
  rb_io_get_io = λ v. quietly v;
  open_file_fd = λ v. quietly (pos 7);
  is_closed = λ v. quietly qfalse;
  rb_gc = quietly tt;
  rb_call_super = λ fd. quietly qnil;
  rb_yield_values = λ vs. quietly tt;
  rb_io_wait_readable = λ fd. quietly true;
  rb_io_wait_writable = λ fd. quietly true;
  fcntl_getfd = λ fd. gives 0;
  fcntl_setfd = λ fd flags. gives tt;
  fcntl_getfl = λ fd. gives 0;
  fcntl_setfl = λ fd flags. gives tt;
  posix_memalign = memalign;
  pthread_setspecific = λ p w. none;
}

abbrev pub vm : Vm ℕ
vm = vm_of ℕ

-- The same where a file is closed, which raises IOError.
abbrev pub closed_vm : Vm ℕ
closed_vm = record vm { open_file_fd = λ v e w. throws (foreign 1) e w }

pub memalign-fresh :
    {W : Type 0} (align size : ℕ) (heap : ℕ → Option TlsBuf) (w : W) (p : ℕ)
    → memalign align size heap w ≡ some p
    → heap p ≡ none
memalign-fresh align size heap w p e = elim (Option-cases (heap 1)) [
  | inl f ↦ ground arith
  | inr (b, f) ↦ elim (Option-cases (heap 2)) [ inl g ↦ ground arith | inr (c, g) ↦ ground arith ]
]

pub vm-Allocates : Allocates vm
vm-Allocates = record { fresh = memalign-fresh }

pub closed_vm-Allocates : Allocates closed_vm
closed_vm-Allocates = record { fresh = memalign-fresh }

abbrev pub at_rest : TlsBuf
at_rest = record { capa = 128; buf_type = ready }

abbrev pub own_heap : ℕ → Option TlsBuf
own_heap p = if 5 == p then some at_rest else none

-- A thread with a buffer of 128 bytes at rest, and two interruptions to come.
abbrev pub rested : St ℕ
rested = record { errno = 0; heap = own_heap; slot = some 5; world = 2 }

pub rested-IsValid : IsValid rested
rested-IsValid = record {
  owned = λ p b e. ground arith;
  live = λ p e. (at_rest, ground arith, λ h. cc);
}

-- No program converts a Float here.
abbrev pub double : Double
double = record {
  modf = λ d. (0, d);
  is_nonneg = λ d. true;
  neg = λ d. d;
  mul = λ a b. a;
  add = λ a b. a;
  sub = λ a b. a;
  div = λ a b. a;
  of_long = λ n. 0;
  to_long = λ d. pos 0;
  ne_long = λ d n. false;
  one = 0;
  half = 0;
  billion = 0;
}

-- The VM above with this in place of the call of the block.
abbrev pub with_block : {W : Type 0} → (List Value → Ext W (Unit {0})) → Vm W
with_block {W} block = record (vm_of W) { rb_yield_values = block }

quietly-IsCalm : {W A : Type 0} (left : W → ℕ) (a : A) → IsCalm left (quietly a)
quietly-IsCalm left a e w b e' w' h = let same : w' ≡ w = cc in omega (arith, ap left same)

pub gives-IsCalmSys : {W A : Type 0} (left : W → ℕ) (a : A) → IsCalmSys left (gives a)
gives-IsCalmSys left a =
    (λ w b w' h. let same : w' ≡ w = cc in omega (arith, ap left same), λ w e w' h. cc)

-- This VM leaves the world as it is, but for the block.
pub block_calm :
    {W : Type 0} (left : W → ℕ) (block : List Value → Ext W (Unit {0}))
    → ((vs : List Value) → IsCalm left (block vs))
    → CalmVm left (with_block block)
block_calm left block h = record {
  fix2int = λ v. quietly-IsCalm left _;
  rb_io_get_io = λ v. quietly-IsCalm left _;
  open_file_fd = λ v. quietly-IsCalm left _;
  num2int = λ v. quietly-IsCalm left _;
  num2uint = λ v. quietly-IsCalm left _;
  num2short = λ v. quietly-IsCalm left _;
  num2ushort = λ v. quietly-IsCalm left _;
  num2long = λ v. quietly-IsCalm left _;
  num2ulong = λ v. quietly-IsCalm left _;
  num2ull = λ v. quietly-IsCalm left _;
  rb_gc = quietly-IsCalm left tt;
  rb_yield_values = h;
  fcntl_getfl = λ fd. gives-IsCalmSys left 0;
  fcntl_setfl = λ fd f. gives-IsCalmSys left tt;
  rb_io_wait_readable = λ fd. quietly-IsCalm left true;
  rb_io_wait_writable = λ fd. quietly-IsCalm left true;
}

pub quietly-IsQuiet : {W V A : Type 0} (view : W → V) (a : A) → IsQuiet view (quietly a)
quietly-IsQuiet view a =
    (λ e w b e' w' h. let same : w' ≡ w = cc in ap view same, λ e w x e' w' h. cc)

pub gives-IsQuietSys : {W V A : Type 0} (view : W → V) (a : A) → IsQuietSys view (gives a)
gives-IsQuietSys view a = (λ w b w' h. let same : w' ≡ w = cc in ap view same, λ w e w' h. cc)

pub block_quiet :
    {W V : Type 0} (view : W → V) (block : List Value → Ext W (Unit {0}))
    → QuietVm view (with_block block)
block_quiet view block = record {
  fix2int = λ v. quietly-IsQuiet view _;
  rb_io_get_io = λ v. quietly-IsQuiet view _;
  open_file_fd = λ v. quietly-IsQuiet view _;
  num2ull = λ v. quietly-IsQuiet view _;
  num2long = λ v. quietly-IsQuiet view _;
  num2ulong = λ v. quietly-IsQuiet view _;
  num2uint = λ v. quietly-IsQuiet view _;
  fcntl_getfl = λ fd. gives-IsQuietSys view 0;
  fcntl_setfl = λ fd f. gives-IsQuietSys view tt;
  rb_io_wait_readable = λ fd. quietly-IsQuiet view true;
  rb_io_wait_writable = λ fd. quietly-IsQuiet view true;
}

pub vm_calm : {W : Type 0} (left : W → ℕ) → CalmVm left (vm_of W)
vm_calm left = block_calm left (λ vs. quietly tt) (λ vs. quietly-IsCalm left tt)

pub vm_quiet : {W V : Type 0} (view : W → V) → QuietVm view (vm_of W)
vm_quiet view = block_quiet view (λ vs. quietly tt)

pub vm-CalmVm : CalmVm (λ w. w) vm
vm-CalmVm = vm_calm (λ w. w)

pub interrupted-IsSpent : {A : Type 0} (a : A) → IsSpent (λ w. w) (interrupted a)
interrupted-IsSpent a zero e w' h = cc
interrupted-IsSpent a (suc n) e w' h = ground arith
