-- ===== src/Timespec.antt =====
-- ext/sleepy_penguin/value2timespec.h and the arithmetic of `struct timespec`.
pub mod Left
pub mod Subtract
use sleepy_penguin.Base.{
  ◌+ℤ◌, pos, is_negative, is_zero, is_positive, if◌then◌else◌, Bool, ◌-ℤ◌, ℕ, ℤ,
}
use sleepy_penguin.Ruby.{bignum, flonum, fixnum, Value, Vm}
use sleepy_penguin.Proc.{type_error, range_error, throw, pure, call, ◌>>=◌, Cmd}

pub record Timespec : Type 0 where
  pub tv_sec : ℤ
  pub tv_nsec : ℤ

-- The arithmetic of `double` that the header uses, on 64-bit patterns. `to_long` is the cast, and
-- `ne_long f t` is `f != t` of a `double` and a `time_t`.
pub record Double : Type 0 where
  pub modf : ℕ → ℕ × ℕ
  pub is_nonneg : ℕ → Bool
  pub neg : ℕ → ℕ
  pub mul : ℕ → ℕ → ℕ
  pub add : ℕ → ℕ → ℕ
  pub sub : ℕ → ℕ → ℕ
  pub div : ℕ → ℕ → ℕ
  pub of_long : ℤ → ℕ
  pub to_long : ℕ → ℤ
  pub ne_long : ℕ → ℤ → Bool
  pub one : ℕ
  pub half : ℕ
  pub billion : ℕ

abbrev pub nano_per_sec : ℕ
nano_per_sec = 1000000000

module _ (db : Double) where
  open db use {
    modf, is_nonneg, neg, mul, add, sub, div, of_long, to_long, ne_long, one, half, billion,
  }

  -- `(long)(d * 1e9 + 0.5)`
  unfoldable pub round_nanos : ℕ → ℤ
  round_nanos d = to_long (add (mul d billion) half)

  -- The nanoseconds, and the whole seconds as a `double`.
  unfoldable pub split_double : ℕ → ℤ × ℕ
  unfolding round_nanos
  split_double orig =
      let (d, f) = modf orig in
      if is_nonneg d
      then (round_nanos d, f)
      else (if is_positive (round_nanos (neg d))
          then (pos nano_per_sec -ℤ round_nanos (neg d), sub f one)
          else (round_nanos (neg d), f))

  module _ {W : Type 0} (vm : Vm W) where
    unfoldable pub value2timespec : Value → Cmd W Timespec
    unfolding split_double
    value2timespec (fixnum n) = do
      sec ← call (vm.num2long (fixnum n))
      pure (record { tv_sec = sec; tv_nsec = pos 0 })
    value2timespec (bignum n) = do
      sec ← call (vm.num2long (bignum n))
      pure (record { tv_sec = sec; tv_nsec = pos 0 })
    value2timespec (flonum orig) =
        let (nsec, f) = split_double orig in
        if ne_long f (to_long f)
        then throw (range_error "out of range")
        else pure (record { tv_sec = to_long f; tv_nsec = nsec })
    value2timespec _ = throw (type_error "can't convert into timespec")

  -- An Integer where there are no nanoseconds, else a Float.
  unfoldable pub timespec2num : Timespec → Value
  timespec2num ts =
      if is_zero ts.tv_nsec
      then fixnum ts.tv_sec
      else flonum (add (of_long ts.tv_sec) (div (of_long ts.tv_nsec) billion))

-- `tssub` of kqueue.c: `a - b`, with one second borrowed where the nanoseconds go below zero.
unfoldable pub tssub : Timespec → Timespec → Timespec
tssub a b =
    let nsec = a.tv_nsec -ℤ b.tv_nsec in
    let sec = a.tv_sec -ℤ b.tv_sec in
    if is_negative nsec
    then record { tv_sec = sec -ℤ pos 1; tv_nsec = nsec +ℤ pos nano_per_sec }
    else record { tv_sec = sec; tv_nsec = nsec }
