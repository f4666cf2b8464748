-- ===== src/Tls.antt =====
-- The thread-local buffers of ext/sleepy_penguin/init.c. A buffer is named by its address, and the
-- `ptr` handed out is that address: `container_of` undoes the offset of the flexible array member.
pub mod Alloc
pub mod Around
pub mod Bracket
pub mod Dangling
pub mod Get
pub mod Halts
pub mod Inv
pub mod Put
pub mod Took
pub mod Threads
use sleepy_penguin.Base.{
  refl, inr, inl, ◌≢◌, ◌⊎◌, ℕ, ℤ, pos_part, is_positive, ◌+◌, ◌-◌, ◌^◌, ◌≡◌, fun_ext, arith, Bool,
  true, false, not, ◌&&◌, Option, none, some, ◌==◌, leb, if◌then◌else◌,
}
use sleepy_penguin.Proc.{
  TlsBufType, in_use, ready, malloced, TlsBuf, no_memory, done, raise, crash, Cmd, pure, ◌>>=◌,
  ◌>>◌, assert, set_errno, rb_sys_fail,
}
use sleepy_penguin.Ruby.{Vm}

abbrev pub l1_cache_line_max : ℕ
l1_cache_line_max = 128

abbrev pub uint32_max : ℕ
uint32_max = 2 ^ 32 - 1

-- `sizeof(struct rb_sp_tlsbuf)`: a `uint32_t` and an `enum`.
abbrev pub sizeof_tlsbuf : ℕ
sizeof_tlsbuf = 8

abbrev pub is_in_use : TlsBufType → Bool
is_in_use in_use = true
is_in_use _ = false

abbrev pub is_ready : TlsBufType → Bool
is_ready ready = true
is_ready _ = false

abbrev pub is_malloced : TlsBufType → Bool
is_malloced malloced = true
is_malloced _ = false

pub ready-cases : (k : TlsBufType) → (k ≡ ready) ⊎ (k ≢ ready)
ready-cases ready = inl refl
ready-cases in_use = inr (λ e. cc)
ready-cases malloced = inr (λ e. cc)

abbrev pub update : (ℕ → Option TlsBuf) → ℕ → Option TlsBuf → ℕ → Option TlsBuf
update h p c q = if p == q then c else h q

pub update_self : (h : ℕ → Option TlsBuf) (p : ℕ) (c : Option TlsBuf) → update h p c p ≡ c
update_self h p c = ground arith

pub update-update :
    (h : ℕ → Option TlsBuf) (p : ℕ) (c d : Option TlsBuf) → update (update h p c) p d ≡ update h p d
update-update h p c d = fun_ext λ q. ground arith

abbrev pub same_ptr : Option ℕ → ℕ → Bool
same_ptr none p = false
same_ptr (some q) p = q == p

-- The size of a cache line, from `sysconf` where that gives a believable number.
-- `none` is a system whose headers do not have the name.
unfoldable pub l1_cache_line_size_detect : Option ℤ → ℕ
l1_cache_line_size_detect none = l1_cache_line_max
l1_cache_line_size_detect (some tmp) =
    if is_positive tmp && leb (pos_part tmp) l1_cache_line_max
    then pos_part tmp
    else l1_cache_line_max

module _ {W : Type 0} where
  -- A read through a pointer: freed memory is a crash.
  abbrev pub load : ℕ → Cmd W TlsBuf
  load p s = elim (s.heap p) [ none ↦ crash | some b ↦ done b s ]

  abbrev pub store : ℕ → TlsBuf → Cmd W (Unit {0})
  store p b s = done tt (record s { heap = update s.heap p (some b) })

  abbrev pub release : ℕ → Cmd W (Unit {0})
  release p s = done tt (record s { heap = update s.heap p none })

  -- `free(buf)`, of a live buffer or of NULL.
  unfoldable pub free : Option ℕ → Cmd W (Unit {0})
  free none = pure tt
  free (some p) = load p >> release p

  -- `buf->buf_type = t`.
  unfoldable pub set_buf_type : ℕ → TlsBufType → Cmd W (Unit {0})
  set_buf_type p t = do b ← load p; store p (record b { buf_type = t })

  -- `RB_SP_TLS_INUSE` from here on: the end of `rb_sp_gettlsbuf`.
  unfoldable pub take_buf : ℕ → ℕ → Cmd W (ℕ × ℕ)
  unfolding set_buf_type
  take_buf p size = do set_buf_type p in_use; pure (p, size)

  abbrev pub get_slot : Cmd W (Option ℕ)
  get_slot s = done s.slot s

  abbrev clear_slot : Cmd W (Unit {0})
  clear_slot s = done tt (record s { slot = none })

  -- The end of a thread: the key is reset to NULL, and its destructor, `free`, gets what it held.
  unfoldable pub key_destructor : Cmd W (Unit {0})
  unfolding free
  key_destructor = do slot ← get_slot; clear_slot; free slot

  module _ (vm : Vm W) (cache_line : ℕ) where
    -- The type of a new buffer is not set; the callers set it before anything reads it.
    unfoldable pub alloc_tlsbuf : ℕ → Cmd W ℕ
    alloc_tlsbuf size s =
        if leb uint32_max size
        then raise no_memory s
        else elim (vm.posix_memalign cache_line (size + sizeof_tlsbuf) s.heap s.world) [
          | none ↦ raise no_memory s
          | some p ↦ done p (record s {
            heap = update s.heap p (some (record { capa = size; buf_type = malloced }));
          })
        ]

    -- The key keeps its old pointer where `pthread_setspecific` fails.
    unfoldable pub setspecific : ℕ → Cmd W (Option ℕ)
    setspecific p s = elim (vm.pthread_setspecific (some p) s.world) [
      | none ↦ done none (record s { slot = some p })
      | some err ↦ done (some err) s
    ]

    -- A first buffer for the thread, or one in place of a smaller one.
    unfoldable pub replace_buf : Option ℕ → ℕ → Cmd W (ℕ × ℕ)
    unfolding free setspecific take_buf
    replace_buf old size = do
      free old
      p ← alloc_tlsbuf size
      err ← setspecific p
      elim err [
        | none ↦ take_buf p size
        | some e ↦ free (some p) >> set_errno e >> rb_sys_fail "BUG: pthread_setspecific"
      ]

    -- A second buffer while the thread's own is out.
    unfoldable pub nested_buf : ℕ → Cmd W (ℕ × ℕ)
    unfolding set_buf_type
    nested_buf size = do p ← alloc_tlsbuf size; set_buf_type p malloced; pure (p, size)

    -- The pointer, and the size that `*size` is left with.
    unfoldable pub rb_sp_gettlsbuf : ℕ → Cmd W (ℕ × ℕ)
    rb_sp_gettlsbuf size = do
      slot ← get_slot
      elim slot [
        | none ↦ replace_buf none size
        | some p ↦ do
          b ← load p
          assert (not (is_malloced b.buf_type))
          if is_ready b.buf_type
              then (if leb size b.capa then take_buf p b.capa else replace_buf (some p) size)
              else nested_buf size
      ]

  -- The argument is NULL or a pointer that `rb_sp_gettlsbuf` returned.
  unfoldable pub rb_sp_puttlsbuf : Option ℕ → Cmd W (Unit {0})
  unfolding free set_buf_type
  rb_sp_puttlsbuf none = pure tt
  rb_sp_puttlsbuf (some p) = do
    tls ← get_slot
    b ← load p
    elim b.buf_type [
      | in_use ↦ assert (same_ptr tls p) >> set_buf_type p ready
      | ready ↦ assert false
      | malloced ↦ free (some p)
    ]
