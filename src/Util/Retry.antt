-- ===== src/Util/Retry.antt =====
-- The descriptors of `retry_after_gc`, with which epoll.c, eventfd.c, timerfd.c and inotify.c make
-- their objects.
use mathlib.Core.List.{Memᴰ}
use sleepy_penguin.Base.{
  true, refl, false, inr, sym, some, inl, none, ◌||◌, subst, ◌≢◌, ◌==◌, if◌then◌else◌, Bool-cases,
  Bool, ℕ, ◌∷◌, String, ◌≡◌, ℤ, List,
}
use sleepy_penguin.Ruby.{Vm}
use sleepy_penguin.Proc.{
  rb_sys_fail, ◌>>=◌, throws, pure, syscall, yields, sys_fail, fails, Exn, St, gives, Sys,
}
use sleepy_penguin.Util.{retry_after_gc, rb_sp_gc_for_fd}
use sleepy_penguin.Proc.Sat.{Sat-call, Sat-and_then, Sat-syscall, Sat}
use sleepy_penguin.Base.Errno.{enomem, enfile, emfile}

-- Whatever is open in the first list is open in the second.
abbrev pub Within : List ℤ → List ℤ → Type 0
Within fds gds = (fd : ℤ) → Memᴰ fd fds → Memᴰ fd gds

-- What the kernel and the garbage collector do to the open descriptors of the process, the newest
-- first. The collector closes files that nothing refers to, and raises nothing.
pub record Creates {W : Type 0} (files : W → List ℤ) (vm : Vm W) (create : Sys W ℤ) : Type 0 where
  pub created : (w : W) (fd : ℤ) (w' : W) → create w ≡ gives fd w' → files w' ≡ fd ∷ files w
  pub failed : (w : W) (e : ℕ) (w' : W) → create w ≡ fails e w' → files w' ≡ files w
  pub collected :
      (e : ℕ) (w : W) (a : Unit {0}) (e' : ℕ) (w' : W)
      → vm.rb_gc e w ≡ yields a e' w'
      → Within (files w') (files w)
  pub no_raise : (e : ℕ) (w : W) (x : Exn) (e' : ℕ) (w' : W) → vm.rb_gc e w ≢ throws x e' w'

module _ {W : Type 0} (files : W → List ℤ) (vm : Vm W) (create : Sys W ℤ)
    (kernel : Creates files vm create) (what : String) where
  -- A descriptor is open that was not, and none else.
  abbrev pub Made : St W → ℤ → St W → Type 0
  Made s fd t = (rest : List ℤ) × (files t.world ≡ fd ∷ rest) × Within rest (files s.world)

  -- None is open that was not, and the exception is for the error of the attempt that leaves the
  -- world as it is.
  abbrev pub Unmade : St W → Exn → St W → Type 0
  Unmade s x t =
      Within (files t.world) (files s.world)
      × ((w : W) × (e : ℕ) × (create w ≡ fails e t.world) × (x ≡ sys_fail e what))

  -- After the choice to try again or not: without a collection nothing has changed.
  abbrev Chosen : St W → Bool → St W → Type 0
  Chosen s again t = Within (files t.world) (files s.world) × (again ≡ false → t ≡ s)

  gc-Chosen :
      (E : Exn → St W → Type 0) (e : ℕ) (s : St W) → Sat ⊥ (Chosen s) E (rb_sp_gc_for_fd vm e s)
  unfolding rb_sp_gc_for_fd
  gc-Chosen E e s = elim (Bool-cases (e == emfile || e == enfile || e == enomem)) [
    | inl f ↦ rw f (
        Sat-call ⊥ _ _ vm.rb_gc s _
          (λ a e' w q. (kernel.collected s.errno s.world a e' w q, λ h. cc))
          (λ x e' w q. absurd (kernel.no_raise s.errno s.world x e' w q)))
    | inr f ↦ rw f (λ fd m. m, λ h. refl)
  ]

  -- The second attempt, if any, after the collector; if none, the first failed at `t`.
  second-Made :
      (s t : St W) (again : Bool)
      → Within (files t.world) (files s.world)
      → (again ≡ false → (w : W) × (create w ≡ fails t.errno t.world))
      → Sat ⊥ (Made s) (Unmade s) (
          ((if again then syscall create else pure none) >>= λ second. elim second [
            | none ↦ rb_sys_fail what
            | some fd ↦ pure fd
          ])
            t)
  second-Made s t false h first = let (w, q) = first refl in (h, (w, t.errno, q, refl))
  second-Made s t true h first =
      Sat-syscall ⊥ (Made s) (Unmade s) create t _
        (λ fd w q. (files t.world, kernel.created t.world fd w q, h))
        (λ e w q. (
          subst (λ fs. Within fs (files s.world)) (sym (kernel.failed t.world e w q)) h,
          (t.world, e, q, refl),
        ))

  -- `retry_after_gc` ends without a crash: it gives a new descriptor, and nothing else is open that
  -- was not before; or it raises for the error that its last attempt failed with, and nothing is
  -- open that was not. Each attempt opens one descriptor or none, and the collector opens none and
  -- raises nothing.
  pub retry_after_gc-Made : (s : St W) → Sat ⊥ (Made s) (Unmade s) (retry_after_gc vm create what s)
  unfolding retry_after_gc
  retry_after_gc-Made s =
      Sat-syscall ⊥ (Made s) (Unmade s) create s _
        (λ fd w q. (files s.world, kernel.created s.world fd w q, λ gd m. m))
        (λ e w q.
          let t : St W = record s { errno = e; world = w } in
          Sat-and_then ⊥ (Chosen t) (Made s) (Unmade s) (rb_sp_gc_for_fd vm e t) _
            (gc-Chosen (Unmade s) e t)
            (λ again u h.
              second-Made s u again
                (λ fd m. subst (λ fs. Memᴰ fd fs) (kernel.failed s.world e w q) (h.0 fd m))
                (λ f.
                  subst (λ (v : St W). (w' : W) × (create w' ≡ fails v.errno v.world)) (sym (h.1 f))
                    (s.world, q))))
