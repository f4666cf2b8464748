-- ===== src/Copy/Total.antt =====
-- Whole calls of `splice`, `tee` and `copy_file_range`.
use sleepy_penguin.Base.{◌+◌, arith, pos, inr, inl, ◌≡◌, refl, ◌<◌, ℤ, ℕ}
use sleepy_penguin.Ruby.{fixnum, Value, Vm}
use sleepy_penguin.Util.Quiet.{QuietVm}
use sleepy_penguin.Copy.{
  cfr_round, tee_round, splice_round, offset_arg, CopyArgs, rb_sp_cfr, my_tee, my_splice, CopyCalls,
}
use sleepy_penguin.Copy.Accounts.{
  cfr-Round, tee-Round, splice-Round, offset-Quiet, still_then, Still, Accounts, Moving,
}
use sleepy_penguin.Proc.{call, Run, St}
use sleepy_penguin.Util.Ends.{CalmVm}
use sleepy_penguin.Proc.Sat.{Sat-mono, Sat}
use sleepy_penguin.Proc.Patience.{IsSpent}
use sleepy_penguin.Proc.Halts.{Halts-Sat, Halts-of, Halts}
use sleepy_penguin.Copy.Ends.{cfr-Ends, tee-Ends, splice-Ends, IsNumber, IsCopied}
use sleepy_penguin.Proc.Quiet.{Quiet-call}
use sleepy_penguin.Proc.Loop.{loop_inv}

module _ {W : Type 0} (total : W → ℕ) (vm : Vm W) (quiet : QuietVm total vm) (sys : CopyCalls W)
    (moving : Moving total sys) (io_in io_out : Value) where
  splice-Accounts :
      (fuel : ℕ) (off_in off_out len flags : Value) (s : St W)
      → Sat
          (Unit {0})
          (Accounts total s)
          (λ _ t. Still total s t)
          (my_splice vm sys fuel io_in off_in io_out off_out len flags s)
  unfolding my_splice
  splice-Accounts fuel off_in off_out len flags s =
      still_then total vm quiet sys moving (Accounts total s) s s (offset_arg vm sys off_in) _
        (offset-Quiet total vm quiet sys moving off_in) refl
        λ i t ht.
          still_then total vm quiet sys moving (Accounts total s) s t (offset_arg vm sys off_out) _
            (offset-Quiet total vm quiet sys moving off_out) ht
            λ o u hu.
              still_then total vm quiet sys moving (Accounts total s) s u (call (vm.num2ulong len))
                _ (Quiet-call total _ (quiet.num2ulong len)) hu
                λ n x hx.
                  still_then total vm quiet sys moving (Accounts total s) s x
                    (call (vm.num2uint flags)) _ (Quiet-call total _ (quiet.num2uint flags)) hx
                    λ f y hy.
                      loop_inv (splice_round vm sys io_in io_out) (λ _ t. Still total s t)
                        (Accounts total s) (λ _ t. Still total s t)
                        (λ a z k. splice-Round total vm quiet sys moving io_in io_out s z a k) fuel
                        _ y hy

  tee-Accounts :
      (fuel : ℕ) (len flags : Value) (s : St W)
      → Sat
          (Unit {0})
          (Accounts total s)
          (λ _ t. Still total s t)
          (my_tee vm sys fuel io_in io_out len flags s)
  unfolding my_tee
  tee-Accounts fuel len flags s =
      still_then total vm quiet sys moving (Accounts total s) s s (call (vm.num2ulong len)) _
        (Quiet-call total _ (quiet.num2ulong len)) refl
        λ n x hx.
          still_then total vm quiet sys moving (Accounts total s) s x (call (vm.num2uint flags)) _
            (Quiet-call total _ (quiet.num2uint flags)) hx
            λ f y hy.
              loop_inv (tee_round vm sys io_in io_out) (λ _ t. Still total s t) (Accounts total s)
                (λ _ t. Still total s t)
                (λ a z k. tee-Round total vm quiet sys moving io_in io_out s z a k) fuel (n, f) y hy

  cfr-Accounts :
      (fuel : ℕ) (off_in off_out len flags : Value) (s : St W)
      → Sat
          (Unit {0})
          (Accounts total s)
          (λ _ t. Still total s t)
          (rb_sp_cfr vm sys fuel io_in off_in io_out off_out len flags s)
  unfolding rb_sp_cfr
  cfr-Accounts fuel off_in off_out len flags s =
      still_then total vm quiet sys moving (Accounts total s) s s (offset_arg vm sys off_in) _
        (offset-Quiet total vm quiet sys moving off_in) refl
        λ i t ht.
          still_then total vm quiet sys moving (Accounts total s) s t (offset_arg vm sys off_out) _
            (offset-Quiet total vm quiet sys moving off_out) ht
            λ o u hu.
              still_then total vm quiet sys moving (Accounts total s) s u (call (vm.num2ulong len))
                _ (Quiet-call total _ (quiet.num2ulong len)) hu
                λ n x hx.
                  still_then total vm quiet sys moving (Accounts total s) s x
                    (call (vm.num2uint flags)) _ (Quiet-call total _ (quiet.num2uint flags)) hx
                    λ f y hy.
                      loop_inv (cfr_round vm sys io_in io_out) (λ _ t. Still total s t)
                        (Accounts total s) (λ _ t. Still total s t)
                        (λ a z k. cfr-Round total vm quiet sys moving io_in io_out s z a k) fuel _ y
                        hy

  -- A call that ends, and whose report is right where it returns.
  ended :
      (P : Value → St W → Type 0) (r : Run W Value) (s : St W)
      → Sat (Unit {0}) (Accounts total s) (λ _ t. Still total s t) r
      → Halts P r
      → Sat ⊥ (Accounts total s) (λ _ t. Still total s t) r
  ended P r s h e =
      Sat-mono ⊥ ⊥ (λ v t. P v t × Accounts total s v t) (Accounts total s) (λ _ t. Still total s t)
        (λ _ t. Still total s t) r (Halts-Sat (Accounts total s) P (λ _ t. Still total s t) r h e)
        (λ l. l) (λ v t k. k.1) (λ x t k. k)

  module _ (left : W → ℕ) (calm : CalmVm left vm) where
    -- Where the world interrupts finitely often, and there is fuel for each interruption, `splice`
    -- ends without a crash, and what it reports is what the kernel has moved, over all its rounds: a
    -- number of bytes, or nil or :EAGAIN where nothing was moved. Where it raises, nothing was
    -- moved. Ruby moves nothing and adds no interruption; a call of splice(2) that fails moves
    -- nothing and uses one up.
    pub splice_total :
        (fuel : ℕ) (off_in off_out len flags : Value) (s : St W)
        → ((a : CopyArgs) → IsSpent left (sys.splice a))
        → left s.world < fuel
        → Sat ⊥
            (Accounts total s)
            (λ _ t. Still total s t)
            (my_splice vm sys fuel io_in off_in io_out off_out len flags s)
    splice_total fuel off_in off_out len flags s spent m =
        ended (IsCopied left vm calm sys)
          (my_splice vm sys fuel io_in off_in io_out off_out len flags s) s
          (splice-Accounts fuel off_in off_out len flags s)
          (Halts-of (IsCopied left vm calm sys) (λ _ _. Unit)
            (my_splice vm sys fuel io_in off_in io_out off_out len flags s)
            (splice-Ends left vm calm sys io_in io_out fuel off_in off_out len flags s spent m))

    -- Where the world interrupts finitely often, and there is fuel for each interruption, `tee` ends
    -- without a crash, and what it reports is what the kernel has copied, over all its rounds: a
    -- number of bytes, or nil or :EAGAIN where nothing was copied. Where it raises, nothing was
    -- copied. Ruby copies nothing and adds no interruption; a call of tee(2) that fails copies
    -- nothing and uses one up.
    pub tee_total :
        (fuel : ℕ) (len flags : Value) (s : St W)
        → ((i o : ℤ) (n f : ℕ) → IsSpent left (sys.tee i o n f))
        → left s.world < fuel
        → Sat ⊥
            (Accounts total s)
            (λ _ t. Still total s t)
            (my_tee vm sys fuel io_in io_out len flags s)
    tee_total fuel len flags s spent m =
        ended (IsCopied left vm calm sys) (my_tee vm sys fuel io_in io_out len flags s) s
          (tee-Accounts fuel len flags s)
          (Halts-of (IsCopied left vm calm sys) (λ _ _. Unit)
            (my_tee vm sys fuel io_in io_out len flags s)
            (tee-Ends left vm calm sys io_in io_out fuel len flags s spent m))

    -- The number returned is what was copied.
    abbrev pub Copies : St W → Value → St W → Type 0
    Copies s v t = (n : ℕ) × (v ≡ fixnum (pos n)) × (total t.world ≡ total s.world + n)

    counted :
        (s : St W) (v : Value) (t : St W)
        → IsNumber left vm calm sys io_in io_out v t × Accounts total s v t
        → Copies s v t
    counted s v t (_, inl c) = c
    counted s v t ((n, e), inr (inl f, _)) = absurd (ground arith)
    counted s v t ((n, e), inr (inr f, _)) = absurd (ground arith)

    -- Where the world interrupts finitely often, and there is fuel for each interruption,
    -- `copy_file_range` ends without a crash, and what it reports is what the kernel has copied,
    -- over all its rounds: a number of bytes. Where it raises, nothing was copied. Ruby copies
    -- nothing and adds no interruption; a call of copy_file_range(2) that fails copies nothing and
    -- uses one up.
    pub cfr_total :
        (fuel : ℕ) (off_in off_out len flags : Value) (s : St W)
        → ((a : CopyArgs) → IsSpent left (sys.copy_file_range a))
        → left s.world < fuel
        → Sat ⊥
            (Copies s)
            (λ _ t. Still total s t)
            (rb_sp_cfr vm sys fuel io_in off_in io_out off_out len flags s)
    cfr_total fuel off_in off_out len flags s spent m =
        let run : Run W Value = rb_sp_cfr vm sys fuel io_in off_in io_out off_out len flags s in
        Sat-mono ⊥ ⊥ (λ v t. IsNumber left vm calm sys io_in io_out v t × Accounts total s v t)
          (Copies s) (λ _ t. Still total s t) (λ _ t. Still total s t) run
          (Halts-Sat (Accounts total s) (IsNumber left vm calm sys io_in io_out)
            (λ _ t. Still total s t) run (cfr-Accounts fuel off_in off_out len flags s)
            (Halts-of (IsNumber left vm calm sys io_in io_out) (λ _ _. Unit) run
              (cfr-Ends left vm calm sys io_in io_out fuel off_in off_out len flags s spent m)))
          (λ l. l) (counted s) (λ x t k. k)
