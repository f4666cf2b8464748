-- ===== src/Util/Nonblock.antt =====
-- What `rb_sp_set_nonblock` makes of the flags of a descriptor.
use sleepy_penguin.Base.Bits.{and-and, within_trans, or_and, within_both, or_within}
use sleepy_penguin.Base.{
  ap, inr, ◌∙◌, arith, inl, ◌==◌, is_some, bit_and, if◌then◌else◌, subst, Bool-cases, some, bit_or,
  ◌≡◌, ℤ, ℕ, sym,
}
use sleepy_penguin.Ruby.{Vm}
use sleepy_penguin.Proc.{rb_sys_fail, pure, ◌>>=◌, syscall, gives, St}
use sleepy_penguin.Util.{rb_sp_set_nonblock, add_nonblock}
use sleepy_penguin.Proc.Sat.{Sat-syscall, Sat}
use sleepy_penguin.Base.Errno.{o_nonblock}

-- What fcntl(2) promises of the flags of a descriptor: F_SETFL sets the status flags that it can
-- change, with O_NONBLOCK among them, and ignores all others, as the access mode.
pub record HasFlags {W : Type 0} (flags : W → ℕ) (vm : Vm W) (fd : ℤ) (settable : ℕ) : Type 0 where
  pub nonblock : bit_and settable o_nonblock ≡ o_nonblock
  pub got :
      (w : W) (n : ℕ) (w' : W)
      → vm.fcntl_getfl fd w ≡ gives n w'
      → (n ≡ flags w) × (flags w' ≡ flags w)
  pub set :
      (f : ℕ) (w w' : W)
      → vm.fcntl_setfl fd f w ≡ gives tt w'
      → bit_and (flags w') settable ≡ bit_and f settable
  pub ignored :
      (f : ℕ) (w w' : W) (others : ℕ)
      → vm.fcntl_setfl fd f w ≡ gives tt w'
      → bit_and settable others ≡ 0
      → bit_and (flags w') others ≡ bit_and (flags w) others

module _ {W : Type 0} (flags : W → ℕ) (vm : Vm W) (fd : ℤ) (settable : ℕ)
    (kernel : HasFlags flags vm fd settable) where
  -- O_NONBLOCK is set; of the flags that can be set no other is changed, and none of the others is.
  abbrev pub Nonblocking : ℕ → Unit {0} → St W → Type 0
  Nonblocking before _ t =
      (bit_and (flags t.world) o_nonblock ≡ o_nonblock)
      × (bit_and (flags t.world) settable ≡ bit_and (bit_or before o_nonblock) settable)
      × ((others : ℕ)
          → bit_and settable others ≡ 0
          → bit_and (flags t.world) others ≡ bit_and before others)

  setfl_lem :
      (before : ℕ) (s : St W) (w : W)
      → flags s.world ≡ before
      → vm.fcntl_setfl fd (bit_or before o_nonblock) s.world ≡ gives tt w
      → Nonblocking before tt (record s { world = w })
  setfl_lem before s w h q =
      let e = kernel.set (bit_or before o_nonblock) s.world w q in
      let there : bit_and (bit_and (flags w) settable) o_nonblock ≡ o_nonblock =
        subst (λ x. bit_and x o_nonblock ≡ o_nonblock) (sym e)
          (within_both (bit_or before o_nonblock) settable o_nonblock (or_and before o_nonblock)
            kernel.nonblock) in
      (
        within_trans (flags w) (bit_and (flags w) settable) o_nonblock (and-and (flags w) settable)
            there,
        e,
        λ others d.
            kernel.ignored (bit_or before o_nonblock) s.world w others q d
            ∙ ap (λ x. bit_and x others) h,
      )

  setfl-Nonblocking :
      (before : ℕ) (s : St W)
      → flags s.world ≡ before
      → Sat ⊥
          (Nonblocking before)
          (λ _ _. Unit {0})
          ((syscall (vm.fcntl_setfl fd (bit_or before o_nonblock)) >>= λ r.
              if is_some r then pure tt else rb_sys_fail "fcntl(F_SETFL)")
            s)
  setfl-Nonblocking before s h =
      Sat-syscall ⊥ (Nonblocking before) (λ _ _. Unit {0})
        (vm.fcntl_setfl fd (bit_or before o_nonblock)) s _ (λ a w q. setfl_lem before s w h q)
        (λ e w q. tt)

  add-Nonblocking :
      (before : ℕ) (s : St W)
      → flags s.world ≡ before
      → Sat ⊥ (Nonblocking before) (λ _ _. Unit {0}) (add_nonblock vm fd (some before) s)
  unfolding add_nonblock
  add-Nonblocking before s h = elim (Bool-cases (bit_and before o_nonblock == o_nonblock)) [
    | inl e ↦
        let there : bit_and before o_nonblock ≡ o_nonblock = ground arith in
        rw e (
          subst (λ x. bit_and x o_nonblock ≡ o_nonblock) (sym h) there,
          ap (λ x. bit_and x settable) (h ∙ sym (or_within before o_nonblock there)),
          λ others d. ap (λ x. bit_and x others) h,
        )
    | inr e ↦ rw e (setfl-Nonblocking before s h)
  ]

  -- Where `rb_sp_set_nonblock` returns, O_NONBLOCK is set on the descriptor, and no other flag has
  -- changed: not of those that F_SETFL can set, nor of the others; otherwise it raises.
  pub set_nonblock-Nonblocking :
      (s : St W)
      → Sat ⊥ (Nonblocking (flags s.world)) (λ _ _. Unit {0}) (rb_sp_set_nonblock vm fd s)
  unfolding rb_sp_set_nonblock add_nonblock
  set_nonblock-Nonblocking s =
      Sat-syscall ⊥ (Nonblocking (flags s.world)) (λ _ _. Unit {0}) (vm.fcntl_getfl fd) s
        (add_nonblock vm fd)
        (λ n w q.
          let (same, kept) = kernel.got s.world n w q in
          subst
            (λ m.
              Sat ⊥ (Nonblocking (flags s.world)) (λ _ _. Unit {0})
                (add_nonblock vm fd (some m) (record s { world = w })))
            (sym same) (add-Nonblocking (flags s.world) (record s { world = w }) kept))
        (λ e w q. tt)
