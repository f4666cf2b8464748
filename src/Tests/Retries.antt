-- ===== src/Tests/Retries.antt =====
-- A constructor that runs out of descriptors, and a collection that frees one.
use sleepy_penguin.Tests.Load.{files, opened_files, fails_world}
use mathlib.Core.List.{Memᴰ}
use mathlib.Core.List.Memᴰ.{tail}
use sleepy_penguin.Util.Retry.{retry_after_gc-Made, Made, Unmade, Creates, Within}
use sleepy_penguin.Base.{sym, subst, ap, zero, arith, ◌∷◌, pos, suc, ◌-◌, ◌≡◌, ℤ, ℕ}
use sleepy_penguin.Proc.{Reply, fails, yields, gives, Sys}
use sleepy_penguin.Ruby.{Vm}
use sleepy_penguin.Proc.Sat.{Sat}
use sleepy_penguin.Tests.World.{rested, vm}
use sleepy_penguin.Util.{retry_after_gc}
use sleepy_penguin.Base.Errno.{emfile}

-- There may be two open descriptors.
abbrev create : Sys ℕ ℤ
create zero = gives (pos 7) 1
create (suc zero) = gives (pos 7) 2
create (suc (suc n)) = fails emfile (suc (suc n))

abbrev collecting_vm : Vm ℕ
collecting_vm = record vm { rb_gc = λ e w. yields tt e (w - 1) }

created_files : (w : ℕ) (fd : ℤ) (w' : ℕ) → create w ≡ gives fd w' → files w' ≡ fd ∷ files w
created_files zero fd w' e = opened_files 0 fd w' e
created_files (suc zero) fd w' e = opened_files 1 fd w' e
created_files (suc (suc n)) fd w' e = absurd (ground arith)

failed_files : (w : ℕ) (e : ℕ) (w' : ℕ) → create w ≡ fails e w' → files w' ≡ files w
failed_files zero e w' h = absurd (ground arith)
failed_files (suc zero) e w' h = absurd (ground arith)
failed_files (suc (suc n)) e w' h = ap files (fails_world emfile (suc (suc n)) e w' h)

fewer : (n : ℕ) → Within (files (n - 1)) (files n)
fewer zero fd m = m
fewer (suc n) fd m = tail (subst (λ k. Memᴰ fd (files k)) pred m)
  where
    pred : suc n - 1 ≡ n
    pred = omega arith

yields_world :
    (e w : ℕ) (a : Unit {0}) (e' w' : ℕ)
    → Path (Reply ℕ (Unit {0})) (yields tt e (w - 1)) (yields a e' w')
    → w' ≡ w - 1
yields_world e w a e' w' h = cc

kernel : Creates files collecting_vm create
kernel = record {
  created = created_files;
  failed = failed_files;
  collected = λ e w a e' w' h.
      subst (λ k. Within (files k) (files w)) (sym (yields_world e w a e' w' h)) (fewer w);
  no_raise = λ e w x e' w' h. cc;
}

retry_after_gc-Made_example :
    Sat ⊥
      (Made files collecting_vm create kernel "eventfd" rested)
      (Unmade files collecting_vm create kernel "eventfd" rested)
      (retry_after_gc collecting_vm create "eventfd" rested)
retry_after_gc-Made_example = retry_after_gc-Made files collecting_vm create kernel "eventfd" rested
