-- ===== src/Tls/Threads.antt =====
-- The native threads of a process over one heap. Each has its own `errno` and its own value of the
-- thread-specific key of ext/sleepy_penguin/init.c; the calls of `rb_sp_gettlsbuf` and
-- `rb_sp_puttlsbuf` run under the VM's lock, one at a time, in any order.
pub mod Moves
pub mod Back
pub mod Safety
use sleepy_penguin.Base.{
  ◌≢◌, true, ◌⊎◌, some, ◌==◌, ◌≡◌, false, Bool, Option, if◌then◌else◌, none, ℕ,
}
use sleepy_penguin.Ruby.{Vm}
use sleepy_penguin.Proc.{in_use, ready, raise, Exn, done, TlsBuf, St}
use sleepy_penguin.Tls.Took.{Rooted}
use sleepy_penguin.Tls.{key_destructor, rb_sp_puttlsbuf, rb_sp_gettlsbuf}

-- The value of `f` at `i` becomes `x`.
abbrev pub set_at : {A : Type 0} → (ℕ → A) → ℕ → A → ℕ → A
set_at f i x j = if i == j then x else f j

-- The process. `held i p` is that thread `i` got `p` from `rb_sp_gettlsbuf` and has not put it back;
-- `lost p` is that a thread has ended that had `p` out, and nobody has got `p` since.
pub record Process (W : Type 0) : Type 0 where
  pub heap : ℕ → Option TlsBuf
  pub slot : ℕ → Option ℕ
  pub errno : ℕ → ℕ
  pub held : ℕ → ℕ → Bool
  pub lost : ℕ → Bool
  pub world : W

module _ {W : Type 0} where
  -- The state as thread `i` sees it.
  abbrev pub seen_by : ℕ → Process W → St W
  seen_by i x = record { errno = x.errno i; heap = x.heap; slot = x.slot i; world = x.world }

  -- The process after thread `i` has left its state as `t`.
  abbrev pub left_by : ℕ → St W → Process W → Process W
  left_by i t x = record x {
    heap = t.heap;
    slot = set_at x.slot i t.slot;
    errno = set_at x.errno i t.errno;
    world = t.world;
  }

  abbrev pub mark : ℕ → ℕ → Bool → Process W → Process W
  mark i p v x = record x { held = set_at x.held i (set_at (x.held i) p v) }

  -- Thread `i` has got `p`.
  abbrev pub grant : ℕ → ℕ → Process W → Process W
  grant i p x = record (mark i p true x) { lost = set_at x.lost p false }

  -- Thread `i` has ended: what it had out is out no more, and nobody will put it back.
  abbrev pub leave : ℕ → Process W → Process W
  leave i x = record x {
    held = set_at x.held i (λ p. false);
    lost = λ p. if x.held i p then true else x.lost p;
  }

  -- No thread has had a buffer.
  abbrev pub started : W → Process W
  started w = record {
    heap = λ p. none;
    slot = λ i. none;
    errno = λ i. 0;
    held = λ i p. false;
    lost = λ p. false;
    world = w;
  }

  module _ (vm : Vm W) (cache_line : ℕ) where
    -- A step of the process: a thread gets a buffer; or gets an exception before its buffer at rest
    -- was freed; puts back a buffer that it got; ends, whatever it has out; or does something else.
    pub data Move (x : Process W) : Process W → Type 0 where
      gets :
          (i size : ℕ) (r : ℕ × ℕ) (t : St W)
          → rb_sp_gettlsbuf vm cache_line size (seen_by i x) ≡ done r t
          → Move x (grant i r.0 (left_by i t x))
      refused :
          (i size : ℕ) (e : Exn) (t : St W)
          → rb_sp_gettlsbuf vm cache_line size (seen_by i x) ≡ raise e t
          → t.heap ≡ x.heap
          → t.slot ≡ x.slot i
          → Move x (left_by i t x)
      puts :
          (i p : ℕ) (t : St W)
          → x.held i p ≡ true
          → rb_sp_puttlsbuf (some p) (seen_by i x) ≡ done tt t
          → Move x (mark i p false (left_by i t x))
      exits :
          (i : ℕ) (t : St W)
          → key_destructor (seen_by i x) ≡ done tt t
          → Move x (leave i (left_by i t x))
      elsewhere : (i e : ℕ) (w : W) → Move x (record x { errno = set_at x.errno i e; world = w })

    -- What a process comes to.
    pub data Reach : Process W → Type 0 where
      begins : (w : W) → Reach (started w)
      moves : {x y : Process W} → Reach x → Move x y → Reach y

  -- Whose a live buffer is.
  abbrev pub Owner : Process W → ℕ → ℕ → Type 0
  Owner x p i = (x.slot i ≡ some p) ⊎ (x.held i p ≡ true)

  pub record Inv (x : Process W) : Type 0 where
    pub mine : (i : ℕ) → Rooted (seen_by i x)
    pub apart : (i j p : ℕ) → x.slot i ≡ some p → x.slot j ≡ some p → i ≡ j
    pub holds :
        (i p : ℕ)
        → x.held i p ≡ true
        → (b : TlsBuf) × (x.heap p ≡ some b)
          × (b.buf_type ≢ ready)
          × (b.buf_type ≡ in_use → x.slot i ≡ some p)
    pub alone : (i j p : ℕ) → x.held i p ≡ true → x.held j p ≡ true → i ≡ j
    pub owned :
        (p : ℕ) (b : TlsBuf) → x.heap p ≡ some b → ((i : ℕ) × Owner x p i) ⊎ (x.lost p ≡ true)
