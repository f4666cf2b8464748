-- ===== src/Util/Frame.antt =====
-- The functions of util.c leave the thread-local buffers alone.
use sleepy_penguin.Ruby.{is_truthy, Value, Vm}
use sleepy_penguin.Util.{
  when_nonblock, rb_sp_gc_for_fd, rb_sp_set_nonblock, rb_sp_wait, rb_sp_fileno,
}
use sleepy_penguin.Base.{inr, inl, Bool-cases, refl, Bool, arith, ℕ, ℤ}
use sleepy_penguin.Proc.Frame.{Frames-call, Frames-bind, Frames}
use sleepy_penguin.Proc.{Ext}

module _ {W : Type 0} (vm : Vm W) where
  pub fileno-Frames : (v : Value) → Frames (rb_sp_fileno vm v)
  unfolding rb_sp_fileno
  fileno-Frames v = record { run = λ s. ground arith }

  pub wait-Frames : (waiter : ℤ → Ext W Bool) (v : Value) → Frames (rb_sp_wait vm waiter v)
  unfolding rb_sp_wait
  wait-Frames waiter v = Frames-bind (fileno-Frames v) λ before.
      Frames-bind (Frames-call (waiter before))
        λ rc. Frames-bind (fileno-Frames v) λ fd. record { run = λ s. (refl, refl) }

  pub set_nonblock-Frames : (fd : ℤ) → Frames (rb_sp_set_nonblock vm fd)
  unfolding rb_sp_set_nonblock
  set_nonblock-Frames fd = record { run = λ s. ground arith }

  pub gc_for_fd-Frames : (e : ℕ) → Frames (rb_sp_gc_for_fd vm e)
  unfolding rb_sp_gc_for_fd
  gc_for_fd-Frames e = record { run = λ s. ground arith }

  pub when_nonblock-Frames : (nonblock : Value) (fd : ℤ) → Frames (when_nonblock vm nonblock fd)
  when_nonblock-Frames nonblock fd = record {
    run = λ s. elim (Bool-cases (is_truthy nonblock)) [
      | inl e ↦ rw e ((set_nonblock-Frames fd).run s)
      | inr e ↦ rw e (refl, refl)
    ];
  }
