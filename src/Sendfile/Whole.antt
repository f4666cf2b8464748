-- ===== src/Sendfile/Whole.antt =====
-- A whole call of `__lsf` with an offset, over a `linux_sendfile` that keeps its contract.
use sleepy_penguin.Base.{
  Bool, none, not, ◌&&◌, ap, ◌||◌, refl, ◌∙◌, inr, arith, inl, ◌<◌, ◌==◌, if◌then◌else◌, Bool-cases,
  Option, ◌⊎◌, drop, take, ◌++◌, true, ◌≤◌, pos, some, false, ◌≡◌, ℤ, ℕ, List,
}
use sleepy_penguin.Proc.{rb_sys_fail, ◌>>◌, ◌>>=◌, get_errno, pure, Cmd, Run, call, done, Exn, St}
use sleepy_penguin.Ruby.{fixnum, is_nil, Value, Vm}
use sleepy_penguin.Sendfile.{
  linux_sendfile, pread_sendfile, SendfileCalls, lsf, Sent, sym_wait_writable, lsf_round, Attempt,
  Sender,
}
use sleepy_penguin.Sendfile.Contract.{IsSent, Serves}
use sleepy_penguin.Proc.Sat.{Sat-mono, Sat-and_then, Sat}
use sleepy_penguin.Util.{rb_sp_fileno}
use sleepy_penguin.Proc.Loop.{again, finish, loop_total, Step, Keeps}
use sleepy_penguin.Base.Errno.{enobufs, enomem, eagain}
use sleepy_penguin.Sendfile.Emulated.{pread_sendfile-Serves, Copying}

-- What Ruby gives for the arguments of the call, and that a collection touches nothing in view.
pub record Arguments {W : Type 0} (out : W → List ℕ) (Ready : St W → Type 0) (vm : Vm W)
    (dst src src_off size : Value) (sock file : ℤ) (o count : ℕ) : Type 0 where
  pub not_nil : is_nil src_off ≡ false
  pub dst_open : (s : St W) → rb_sp_fileno vm dst s ≡ done sock s
  pub src_open : (s : St W) → rb_sp_fileno vm src s ≡ done file s
  pub offset : (s : St W) → call (vm.num2long src_off) s ≡ done (pos o) s
  pub size_of : (s : St W) → call (vm.num2ulong size) s ≡ done count s
  pub gc :
      (s : St W)
      → Ready s
      → Sat ⊥
          (λ _ t. Ready t × (out t.world ≡ out s.world))
          (λ _ t. out t.world ≡ out s.world)
          (call vm.rb_gc s)

module _ {W : Type 0} (out : W → List ℕ) (contents : List ℕ) (o count : ℕ) where
  -- The number of bytes that the socket has taken from the offset on, or that nothing could be sent.
  abbrev pub IsAnswer : St W → Value → St W → Type 0
  IsAnswer s v t =
      ((n : ℕ) × (v ≡ fixnum (pos n))
        × (n ≤ count)
        × (out t.world ≡ out s.world ++ take n (drop o contents)))
      ⊎ ((v ≡ sym_wait_writable) × (out t.world ≡ out s.world))

module _ {W : Type 0} (out : W → List ℕ) (contents : List ℕ) (Ready : St W → Type 0) (vm : Vm W)
    (sender : Sender W) (dst src src_off size : Value) (sock file : ℤ) (o count : ℕ)
    (serves : Serves out contents Ready sock file sender)
    (args : Arguments out Ready vm dst src src_off size sock file o count) where
  -- What a round that goes round again has kept.
  abbrev Kept : St W → Attempt → St W → Type 0
  Kept s a t = (a.off ≡ some (pos o)) × Ready t × (out t.world ≡ out s.world)

  abbrev Failed : St W → Exn → St W → Type 0
  Failed s x t = out t.world ≡ out s.world

  abbrev KeepsRound : St W → Attempt → Run W (Step Attempt Value) → Type 0
  KeepsRound s a r =
      Sat ⊥
        (Keeps (λ b u. Kept s b u × (a.retried ≡ false) × (b.retried ≡ true))
          (IsAnswer out contents o count s))
        (Failed s) r

  -- What a round does with the failure of the sender.
  abbrev on_failure : Attempt → Option ℤ → Cmd W (Step Attempt Value)
  on_failure a off = get_errno >>= λ e.
      if e == eagain
      then pure (finish sym_wait_writable)
      else (if (e == enomem || e == enobufs) && not a.retried
          then call vm.rb_gc >> pure (again (record { off = off; retried = true }))
          else rb_sys_fail "sendfile")

  failure-Kept :
      (s u : St W) (a : Attempt) (off : Option ℤ)
      → off ≡ some (pos o)
      → Ready u
      → out u.world ≡ out s.world
      → KeepsRound s a (on_failure a off u)
  failure-Kept s u a off e rdy same = elim (Bool-cases (u.errno == eagain)) [
    | inl f ↦ rw f (inr (refl, same))
    | inr f ↦ rw f (elim (Bool-cases ((u.errno == enomem || u.errno == enobufs) && not a.retried)) [
      | inr g ↦ rw g same
      | inl g ↦ rw g (
          Sat-and_then ⊥ (λ _ x. Ready x × (out x.world ≡ out u.world)) _ (Failed s)
            (call vm.rb_gc u) _
            (Sat-mono ⊥ ⊥ (λ _ x. Ready x × (out x.world ≡ out u.world))
              (λ _ x. Ready x × (out x.world ≡ out u.world)) (λ _ x. out x.world ≡ out u.world)
              (Failed s) (call vm.rb_gc u) (args.gc u rdy) (λ l. l) (λ _ x h. h)
              (λ _ x h. h ∙ same))
            (λ _ x h. ((e, h.0, h.1 ∙ same), ground arith, refl)))
    ])
  ]

  round-Kept :
      (s t : St W) (a : Attempt)
      → Kept s a t
      → KeepsRound s a (lsf_round vm sender dst src count a t)
  unfolding lsf_round
  round-Kept s t a (e, rdy, same) = rw (args.src_open t) (
      rw (args.dst_open t) (
        rw e (
          Sat-and_then ⊥ (λ r u. Ready u × IsSent out contents o count t r u) _ (Failed s)
            (sender sock file (some (pos o)) count t) _
            (Sat-mono ⊥ ⊥ _ _ (λ _ _. ⊥) (Failed s) (sender sock file (some (pos o)) count t)
              (serves o count t rdy) (λ l. l) (λ r u h. h) (λ x u h. absurd h))
            sent)))
    where
      sent :
          (r : Sent) (u : St W)
          → Ready u × IsSent out contents o count t r u
          → KeepsRound s a (
              (elim r.0 as (λ _. Cmd W (Step Attempt Value)) [
                | some n ↦ pure (finish (fixnum (pos n)))
                | none ↦ on_failure a r.1
              ])
                u)
      sent (some n, off) u (rd, (le, took, _)) =
          inl (n, refl, le, took ∙ ap (λ xs. xs ++ take n (drop o contents)) same)
      sent (none, off) u (rd, (took, stay)) = failure-Kept s u a off stay rd (took ∙ same)

  less :
      (s : St W) (a : Attempt) (x : Step Attempt Value) (t : St W)
      → Keeps
          (λ b u. Kept s b u × (a.retried ≡ false) × (b.retried ≡ true))
          (IsAnswer out contents o count s)
          x
          t
      → Keeps
          (λ b u. Kept s b u × ((if b.retried then 0 else 1) < (if a.retried then 0 else 1)))
          (IsAnswer out contents o count s)
          x
          t
  less s a (again b) t (k, first, second) = (k, ground arith)
  less s a (finish v) t h = h

  pub lsf-Serves :
      (s : St W)
      → Ready s
      → Sat ⊥ (IsAnswer out contents o count s) (Failed s) (lsf vm sender dst src src_off size s)
  unfolding lsf
  lsf-Serves s rdy = rw args.not_nil (
      rw (args.offset s) (
        rw (args.size_of s) (
          loop_total (lsf_round vm sender dst src count) (Kept s) (IsAnswer out contents o count s)
            (Failed s) (λ a _. if a.retried then 0 else 1)
            (λ a t k.
              Sat-mono ⊥ ⊥ _ _ (Failed s) (Failed s) (lsf_round vm sender dst src count a t)
                (round-Kept s t a k) (λ l. l) (less s a) (λ e u h. h))
            2 (record { off = some (pos o); retried = false }) s (omega arith) (refl, rdy, refl))))

module _ {W : Type 0} (left : W → ℕ) (out : W → List ℕ) (contents : List ℕ) (sock file : ℤ)
    (sys : SendfileCalls W) (kernel : Copying left out contents sock file sys) (vm : Vm W)
    (dst src src_off size : Value) (o count fuel : ℕ)
    (args : Arguments out
      (λ s. left s.world < fuel)
      vm
      dst
      src
      src_off
      size
      sock
      file
      o
      count) where
  -- `__lsf` with an offset ends without a crash on a system that is neither Linux nor BSD with sendfile(2),
  -- where there is fuel for each read that fails: it returns a number of bytes, no more than asked for, and the
  -- socket has taken so many of the file from the offset on; or :wait_writable, or it raises, and
  -- the socket has taken nothing, whatever a shortage of memory has it do again. Both IOs are open,
  -- and a garbage collection touches neither the socket nor the failures to come.
  pub lsf_emulated :
      (on_linux on_bsd has_sendfile : Bool) (s : St W)
      → on_linux && has_sendfile ≡ false
      → has_sendfile && on_bsd ≡ false
      → left s.world < fuel
      → Sat ⊥
          (IsAnswer out contents o count s)
          (λ _ t. out t.world ≡ out s.world)
          (lsf vm (linux_sendfile sys on_linux on_bsd has_sendfile fuel) dst src src_off size s)
  unfolding linux_sendfile
  lsf_emulated on_linux on_bsd has_sendfile s no_linux no_bsd m =
      rw (no_linux, no_bsd)
        (lsf-Serves out contents (λ s. left s.world < fuel) vm (pread_sendfile sys fuel) dst src
          src_off size sock file o count
          (pread_sendfile-Serves left out contents sock file sys kernel fuel) args s m)
