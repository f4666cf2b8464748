-- ===== src/Missing/Files.antt =====
-- The descriptors that the fallbacks open and close.
use sleepy_penguin.Base.{
  ◌⊎◌, inr, inl, ◌==◌, Bool-cases, ◌∙◌, is_some, if◌then◌else◌, refl, none, some, ◌∷◌, ◌≡◌, Option,
  ℕ, ℤ, List,
}
use sleepy_penguin.Missing.{has_flag, my_epoll_create1, close_quietly, OldCalls}
use sleepy_penguin.Ruby.{Vm}
use sleepy_penguin.Proc.{sys_fail, Exn, ◌>>◌, pure, ◌>>=◌, syscall, fails, gives, St}
use sleepy_penguin.Proc.Sat.{Sat-and_then, Sat-syscall, Sat}
use sleepy_penguin.Proc.Quiet.{IsQuietSys}
use sleepy_penguin.Base.Errno.{fd_cloexec}

-- What open(2) and close(2) promise, by the list of open descriptors, the newest first. A close
-- releases the descriptor also where it fails.
pub record OpensFiles {W : Type 0} (files : W → List ℤ) (old : OldCalls W) (vm : Vm W)
    : Type 0 where
  pub epoll_created :
      (n : ℕ) (w : W) (fd : ℤ) (w' : W)
      → old.epoll_create n w ≡ gives fd w'
      → files w' ≡ fd ∷ files w
  pub epoll_failed :
      (n : ℕ) (w : W) (e : ℕ) (w' : W) → old.epoll_create n w ≡ fails e w' → files w' ≡ files w
  pub inotify_created :
      (w : W) (fd : ℤ) (w' : W) → old.inotify_init w ≡ gives fd w' → files w' ≡ fd ∷ files w
  pub inotify_failed :
      (w : W) (e : ℕ) (w' : W) → old.inotify_init w ≡ fails e w' → files w' ≡ files w
  pub closed :
      (w : W) (fd : ℤ) (rest : List ℤ) (w' : W)
      → files w ≡ fd ∷ rest
      → old.close fd w ≡ gives tt w'
      → files w' ≡ rest
  pub close_failed :
      (w : W) (fd : ℤ) (rest : List ℤ) (e : ℕ) (w' : W)
      → files w ≡ fd ∷ rest
      → old.close fd w ≡ fails e w'
      → files w' ≡ rest
  pub fcntl_setfd : (fd : ℤ) (f : ℕ) → IsQuietSys files (vm.fcntl_setfd fd f)
  pub fcntl_getfl : (fd : ℤ) → IsQuietSys files (vm.fcntl_getfl fd)
  pub fcntl_setfl : (fd : ℤ) (f : ℕ) → IsQuietSys files (vm.fcntl_setfl fd f)

module _ {W : Type 0} (files : W → List ℤ) (old : OldCalls W) (vm : Vm W)
    (kernel : OpensFiles files old vm) where
  -- What is open after a call that makes a descriptor: the new one, or nothing new.
  abbrev pub Opened : List ℤ → Option ℤ → St W → Type 0
  Opened before none t = files t.world ≡ before
  Opened before (some fd) t = files t.world ≡ fd ∷ before

  close_quietly-Sat :
      (fd : ℤ) (rest : List ℤ) (s : St W)
      → files s.world ≡ fd ∷ rest
      → Sat ⊥
          (λ _ t. (files t.world ≡ rest) × (t.errno ≡ s.errno))
          (λ _ _. ⊥)
          (close_quietly old vm fd s)
  unfolding close_quietly
  close_quietly-Sat fd rest s h =
      Sat-syscall ⊥ _ _ (old.close fd) s _ (λ a w q. (kernel.closed s.world fd rest w h q, refl))
        (λ e w q. (kernel.close_failed s.world fd rest e w h q, refl))

  -- `my_epoll_create1` leaves no descriptor open where it fails, and just the one that it returns
  -- where it succeeds; it raises nothing.
  pub epoll_create1-Opened :
      (epoll_cloexec flags : ℕ) (s : St W)
      → Sat ⊥
          (λ r t. Opened (files s.world) r t)
          (λ _ _. ⊥)
          (my_epoll_create1 old vm epoll_cloexec flags s)
  unfolding my_epoll_create1
  epoll_create1-Opened epoll_cloexec flags s =
      Sat-syscall ⊥ (Opened (files s.world)) (λ _ _. ⊥) (old.epoll_create 1024) s _
        (λ fd w q. elim (Bool-cases (flags == 0)) [
          | inl e ↦ rw e (kernel.epoll_created 1024 s.world fd w q)
          | inr e ↦ rw e (elim (Bool-cases (has_flag old vm flags epoll_cloexec)) [
            | inl f ↦ rw f (flagged fd w (kernel.epoll_created 1024 s.world fd w q))
            | inr f ↦ rw f (kernel.epoll_created 1024 s.world fd w q)
          ])
        ])
        (λ e w q. kernel.epoll_failed 1024 s.world e w q)
    where
      flagged :
          (fd : ℤ) (w : W)
          → files w ≡ fd ∷ files s.world
          → Sat ⊥
              (Opened (files s.world))
              (λ _ _. ⊥)
              ((syscall (vm.fcntl_setfd fd fd_cloexec) >>= λ set.
                  if is_some set then pure (some fd) else close_quietly old vm fd >> pure none)
                (record s { world = w }))
      flagged fd w h =
          Sat-syscall ⊥ (Opened (files s.world)) (λ _ _. ⊥) (vm.fcntl_setfd fd fd_cloexec)
            (record s { world = w }) _ (λ a w' q. (kernel.fcntl_setfd fd fd_cloexec).0 w a w' q ∙ h)
            (λ e w' q.
              Sat-and_then ⊥ (λ _ t. (files t.world ≡ files s.world) × (t.errno ≡ e))
                (Opened (files s.world)) (λ _ _. ⊥) _ _
                (close_quietly-Sat fd (files s.world) (record s { errno = e; world = w' })
                  ((kernel.fcntl_setfd fd fd_cloexec).1 w e w' q ∙ h))
                (λ _ t p. p.0))

  -- A fcntl(2) of the fallback on `fd` that fails with `e`.
  abbrev pub FcntlFails : ℤ → ℕ → Type 0
  FcntlFails fd e =
      (w : W) × (w' : W) × ((vm.fcntl_setfd fd fd_cloexec w ≡ fails e w')
        ⊎ (vm.fcntl_getfl fd w ≡ fails e w')
        ⊎ ((f : ℕ) × (vm.fcntl_setfl fd f w ≡ fails e w')))

  -- An exception of the fallback: nothing new is open, and it is for the error of a fcntl(2).
  abbrev pub Refused : List ℤ → Exn → St W → Type 0
  Refused before x t =
      (files t.world ≡ before) × ((fd : ℤ) × (e : ℕ) × FcntlFails fd e × (x ≡ sys_fail e "fcntl"))
