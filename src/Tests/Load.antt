-- ===== src/Tests/Load.antt =====
-- The theorems on the load of the extension and on the fallbacks, at concrete systems.
use text.Mathlib.Text.{◌==◌}
use mathlib.Core.List.Memᴰ.{head, tail}
use sleepy_penguin.Registry.{
  fallback, a_constant, uint2num, undeclared, binding, built, is_module, declare, const_key, key_of,
  declare_all, Registry, Build, Headers, find,
}
use sleepy_penguin.Init.{declarations, InitCalls}
use sleepy_penguin.Proc.Sat.{Sat}
use sleepy_penguin.Base.{
  sym, ◌∙◌, refl, zero, arith, ◌-◌, suc, ◌∷◌, pos, [], some, ap, ℤ, List, none, ◌≡◌, if◌then◌else◌,
  ℕ,
}
use sleepy_penguin.Missing.{
  cfr_headers, clock_headers, pipe_headers, inotify_headers, epoll_headers, my_epoll_create1,
  OldCalls,
}
use sleepy_penguin.Ruby.{fixnum, Vm}
use sleepy_penguin.Missing.Files.{epoll_create1-Opened, Opened, OpensFiles}
use sleepy_penguin.Proc.{SysReply, done, fails, and_then, gives}
use sleepy_penguin.Tests.World.{rested, vm}
use sleepy_penguin.Inotify.Registered.{row_declared, checks_registered, mask_of, row_decl}
use sleepy_penguin.Init.Table.{registered}

-- A Linux whose macros are all 1.
abbrev linux : Headers
linux macro = if macro == "HAVE_SYS_EVENT_H" then none else some (pos 1)

abbrev table_of : Build Registry → Registry
table_of (built reg) = reg
table_of (undeclared macro) = []

abbrev loaded : Registry
loaded = table_of (declare_all linux (declarations "5") [])

linux-built : declare_all linux (declarations "5") [] ≡ built loaded
unfolding declare_all declare declarations binding is_module key_of find uint2num epoll_headers
    fallback inotify_headers pipe_headers clock_headers cfr_headers
linux-built = refl

registered_example :
    find (key_of (row_decl "ACCESS" "IN_ACCESS")) loaded ≡ some (a_constant (fixnum (pos 1)))
unfolding key_of is_module binding uint2num inotify_headers fallback
registered_example =
    registered linux "5" (row_decl "ACCESS" "IN_ACCESS") [] loaded (a_constant (fixnum (pos 1)))
      (row_declared "5" "ACCESS" "IN_ACCESS" (head refl)) refl linux-built refl

checks_registered_example :
    find (const_key "SleepyPenguin::Inotify" "MODIFY") loaded
    ≡ some (a_constant (fixnum (pos (mask_of linux "IN_MODIFY"))))
checks_registered_example =
    checks_registered linux "5" [] loaded "MODIFY" "IN_MODIFY" (pos 1) (tail (head refl)) refl refl
      linux-built

abbrev init_calls : InitCalls ℕ
init_calls = record {
  pthread_key_create = λ w. (none, w);
  pthread_once = λ m s. and_then (m s) (λ _. done none);
  sysconf = λ w. some (pos 64);
}

-- A world that is the number of open descriptors, and a kernel that refuses FD_CLOEXEC.
abbrev pub files : ℕ → List ℤ
files zero = []
files (suc n) = pos 7 ∷ files n

abbrev old_calls : OldCalls ℕ
old_calls = record {
  gettimeofday = gives (pos 0, 0);
  epoll_create = λ n w. gives (pos 7) (suc w);
  inotify_init = λ w. gives (pos 7) (suc w);
  close = λ fd w. gives tt (w - 1);
}

abbrev refusing_vm : Vm ℕ
refusing_vm = record vm { fcntl_setfd = λ fd f w. fails 9 w }

gives_world : {A : Type 0} (a b : A) (v w : ℕ) → gives a v ≡ gives b w → w ≡ v
gives_world a b v w e = cc

gives_value : {A : Type 0} (a b : A) (v w : ℕ) → gives a v ≡ gives b w → b ≡ a
gives_value a b v w e = cc

pub fails_world : {A : Type 0} (d v e w : ℕ) → Path (SysReply ℕ A) (fails d v) (fails e w) → w ≡ v
fails_world d v e w q = cc

-- A new descriptor.
pub opened_files :
    (w : ℕ) (fd : ℤ) (w' : ℕ) → gives (pos 7) (suc w) ≡ gives fd w' → files w' ≡ fd ∷ files w
opened_files w fd w' e =
    ap files (gives_world (pos 7) fd (suc w) w' e)
    ∙ ap (λ d. d ∷ files w) (sym (gives_value (pos 7) fd (suc w) w' e))

closed_files :
    (w : ℕ) (fd : ℤ) (rest : List ℤ) (w' : ℕ)
    → files w ≡ fd ∷ rest
    → old_calls.close fd w ≡ gives tt w'
    → files w' ≡ rest
closed_files zero fd rest w' h e = cc
closed_files (suc n) fd rest w' h e =
    let last : w' ≡ n = omega (arith, gives_world tt tt (suc n - 1) w' e) in rw last (cc)

kernel : OpensFiles files old_calls refusing_vm
kernel = record {
  epoll_created = λ n w fd w' e. opened_files w fd w' e;
  epoll_failed = λ n w e w' h. cc;
  inotify_created = λ w fd w' e. opened_files w fd w' e;
  inotify_failed = λ w e w' h. cc;
  closed = closed_files;
  close_failed = λ w fd rest e w' h q. cc;
  fcntl_setfd = λ fd f. ((λ w a w' h. cc), λ w e w' h. ap files (fails_world 9 w e w' h));
  fcntl_getfl = λ fd. ((λ w a w' h. ap files (gives_world 0 a w w' h)), λ w e w' h. cc);
  fcntl_setfl = λ fd f. ((λ w a w' h. ap files (gives_world tt a w w' h)), λ w e w' h. cc);
}

epoll_create1-Opened_example :
    Sat ⊥
      (λ r t. Opened files old_calls refusing_vm kernel (files 2) r t)
      (λ _ _. ⊥)
      (my_epoll_create1 old_calls refusing_vm 524288 524288 rested)
epoll_create1-Opened_example =
    epoll_create1-Opened files old_calls refusing_vm kernel 524288 524288 rested
