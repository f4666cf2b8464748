-- ===== src/Tls/Dangling.antt =====
-- A request that cannot be met while the thread has a smaller buffer at rest: `free` has already run
-- when `alloc_tlsbuf` raises, and the key keeps the freed pointer.
use sleepy_penguin.Ruby.{Vm}
use sleepy_penguin.Base.{arith, none, ◌≤◌, ◌<◌, some, ◌≡◌, ℕ}
use sleepy_penguin.Tls.{update_self, uint32_max, free, alloc_tlsbuf, replace_buf, rb_sp_gettlsbuf}
use sleepy_penguin.Proc.{crash, no_memory, raise, ready, TlsBuf, St}
use sleepy_penguin.Tls.Get.{freed}

module _ {W : Type 0} (vm : Vm W) (cache_line : ℕ) where
  -- A request of `UINT32_MAX` bytes or more that meets a buffer at rest raises NoMemoryError, and
  -- leaves the thread-specific pointer at a buffer that is freed: the next request of any size is
  -- an access to freed memory.
  pub too_large-dangles :
      (s : St W) (size next : ℕ) (p : ℕ) (b : TlsBuf)
      → s.slot ≡ some p
      → s.heap p ≡ some b
      → b.buf_type ≡ ready
      → b.capa < size
      → uint32_max ≤ size
      → (t : St W) × (rb_sp_gettlsbuf vm cache_line size s ≡ raise no_memory t)
        × (t.slot ≡ some p)
        × (t.heap p ≡ none)
        × (rb_sp_gettlsbuf vm cache_line next t ≡ crash)
  unfolding rb_sp_gettlsbuf replace_buf alloc_tlsbuf free
  too_large-dangles s size next p b sl hp k small big =
      (freed s p, ground arith, sl, update_self s.heap p none, ground arith)
