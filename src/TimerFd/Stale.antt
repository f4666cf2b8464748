-- ===== src/TimerFd/Stale.antt =====
-- The descriptor that the rounds of `expirations` read from.
use sleepy_penguin.Timespec.{Double}
use sleepy_penguin.Ruby.{Value, Vm}
use sleepy_penguin.TimerFd.{tfd_read, Expiry, expirations_round, TimerFdCalls}
use sleepy_penguin.Util.{rb_sp_fileno, rb_sp_wait}
use sleepy_penguin.Proc.{syscall, done, St}
use sleepy_penguin.Base.{refl, int_of_u64-u64_of_int, subst, arith, ◌∙◌, u64_of_int, IsInt, ◌≡◌, ℤ}
use sleepy_penguin.Proc.Loop.{here, again, Keeps, next, Rounds}
use sleepy_penguin.Proc.Sat.{Sat}

module _ {W : Type 0} (db : Double) (vm : Vm W) (sys : TimerFdCalls W) (self nonblock : Value) where
  round-buf :
      (x : Expiry) (s : St W)
      → Sat
          (Unit {0})
          (Keeps (λ y _. y.buf ≡ x.buf) (λ (_ : Value) _. Unit {0}))
          (λ _ _. Unit {0})
          (expirations_round db vm sys self nonblock x s)
  unfolding expirations_round tfd_read rb_sp_wait rb_sp_fileno
  round-buf x s = ground arith

  again-buf :
      (x y : Expiry) (s t : St W)
      → expirations_round db vm sys self nonblock x s ≡ done (again y) t
      → y.buf ≡ x.buf
  again-buf x y s t e =
      subst
        (Sat (Unit {0}) (Keeps (λ y _. y.buf ≡ x.buf) (λ (_ : Value) _. Unit {0}))
          (λ _ _. Unit {0}))
        e (round-buf x s)

  Rounds-buf :
      {x y : Expiry} {s t : St W}
      → Rounds (expirations_round db vm sys self nonblock) x s y t
      → y.buf ≡ x.buf
  Rounds-buf here = refl
  Rounds-buf (next {c} {d} {s} {t} q r) = Rounds-buf r ∙ again-buf c d s t q

  -- However many rounds `expirations` has gone, each with a descriptor that `rb_sp_wait` has looked
  -- up anew, its next read is from the descriptor that the call began with, where that is an `int`.
  pub Rounds-stale :
      (fd : ℤ) (y : Expiry) (s t : St W)
      → IsInt fd
      → Rounds
          (expirations_round db vm sys self nonblock)
          (record { fd = fd; buf = u64_of_int fd })
          s
          y
          t
      → tfd_read db vm sys y.buf t ≡ syscall (sys.read fd) t
  unfolding tfd_read
  Rounds-stale fd y s t i r = rw (Rounds-buf r, int_of_u64-u64_of_int fd i) refl
