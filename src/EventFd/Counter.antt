-- ===== src/EventFd/Counter.antt =====
-- What eventfd(2) promises of a counter, as an abstract machine.
pub mod History
pub mod Moves
pub mod Rounds
use sleepy_penguin.Base.{
  refl, none, inr, arith, sym, subst, inl, ap, ◌&&◌, some, ◌==◌, Bool-cases, String, pos, ◌<◌, ◌∙◌,
  Bool, ◌≤◌, ◌+◌, ◌≡◌, ℤ, ℕ,
}
use sleepy_penguin.EventFd.{getvalue, incr, getvalue_round, incr_round, failed, max, EventFdCalls}
use sleepy_penguin.Ruby.{is_truthy, qnil, fixnum, qfalse, qtrue, Value, Vm}
use sleepy_penguin.Proc.{
  throws, replied, Reply, ◌>>=◌, ◌>>◌, Cmd, yields, pure, returned, and_then, SysReply, call, fails,
  Ext, done, Run, gives, St,
}
use sleepy_penguin.Util.Quiet.{set_nonblock-Quiet, fileno-Quiet, QuietVm}
use sleepy_penguin.Util.{rb_sp_set_nonblock, rb_sp_wait, rb_sp_fileno}
use sleepy_penguin.Proc.Sat.{Sat-and_then, Sat-mono, Sat-with, Sat}
use sleepy_penguin.Proc.Quiet.{Quiet-call, IsQuiet, Seen}
use sleepy_penguin.Proc.Loop.{loop_inv, loop, finish, Keeps, Step}
use sleepy_penguin.Base.Errno.{eagain}

-- An addition, or a fetch of the whole count.
pub data Op : Type 0 where
  add : ℕ → Op
  fetch : Op

-- What an operation does to a count, and the value that a caller sees.
pub data Move : Op → ℕ → Value → ℕ → Type 0 where
  added : {v c d : ℕ} {r : Value} → r ≡ qtrue → d ≡ c + v → d ≤ max → Move (add v) c r d
  full : {v c d : ℕ} {r : Value} → r ≡ qfalse → d ≡ c → Move (add v) c r d
  fetched : {c d : ℕ} {r : Value} → r ≡ fixnum (pos c) → 0 < c → d ≡ 0 → Move fetch c r d
  empty : {c d : ℕ} {r : Value} → r ≡ qnil → d ≡ c → Move fetch c r d

-- eventfd(2) on a descriptor that is no semaphore, whose count no other thread changes.
pub record IsCounter {W : Type 0} (sys : EventFdCalls W) (count : W → ℕ) (fd : ℤ) : Type 0 where
  pub wrote :
      (v : ℕ) (w w' : W)
      → sys.write fd v w ≡ gives tt w'
      → (count w' ≡ count w + v) × (count w' ≤ max)
  pub write_failed :
      (v : ℕ) (w : W) (e : ℕ) (w' : W) → sys.write fd v w ≡ fails e w' → count w' ≡ count w
  pub was_read :
      (w : W) (n : ℕ) (w' : W)
      → sys.read fd w ≡ gives n w'
      → (n ≡ count w) × (0 < n) × (count w' ≡ 0)
  pub read_failed : (w : W) (e : ℕ) (w' : W) → sys.read fd w ≡ fails e w' → count w' ≡ count w

-- The object keeps its descriptor.
abbrev pub Holds : {W : Type 0} → Vm W → Value → ℤ → Type 0
Holds {W} vm self fd = (s : St W) (d : ℤ) (t : St W) → rb_sp_fileno vm self s ≡ done d t → d ≡ fd

-- The count of a state.
abbrev pub Same : {W : Type 0} → (W → ℕ) → ℕ → St W → Type 0
Same count n t = count t.world ≡ n
