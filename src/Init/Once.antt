-- ===== src/Init/Once.antt =====
-- The load of the extension.
use sleepy_penguin.Tls.{l1_cache_line_size_detect}
use sleepy_penguin.Init.{declarations, InitCalls}
use sleepy_penguin.Base.{negsuc, pos, ◌⊎◌, some, none, arith, ℕ, ◌≤◌, ◌≡◌, ◌<◌, ℤ, String, Option}
use sleepy_penguin.Proc.{done, sys_fail, and_then, St, Exn, Cmd}
use sleepy_penguin.Registry.{declare_all, Build, Registry, Headers}
use sleepy_penguin.Proc.Sat.{Sat}
use sleepy_penguin.Proc.Frame.{SameBufs}

pub line_bounds :
    (tmp : Option ℤ) → (0 < l1_cache_line_size_detect tmp) × (l1_cache_line_size_detect tmp ≤ 128)
unfolding l1_cache_line_size_detect
line_bounds none = (omega arith, omega arith)
line_bounds (some (pos n)) = ground arith
line_bounds (some (negsuc n)) = ground arith

module _ {W : Type 0} (sys : InitCalls W) where
  -- pthread_once(3) runs the routine at the first load, and does nothing at a later one.
  abbrev pub Once : Type 0
  Once =
      (m : Cmd W (Unit {0})) (s : St W)
      → (sys.pthread_once m s ≡ and_then (m s) (λ _. done none))
        ⊎ (sys.pthread_once m s ≡ done none s)

  -- What a load that succeeds gives.
  abbrev pub IsLoaded : String → Headers → Registry → St W → ℕ × Build Registry → St W → Type 0
  IsLoaded version h reg s (line, table) t =
      (0 < line) × (line ≤ 128) × (table ≡ declare_all h (declarations version) reg) × SameBufs s t

  -- Its exception: the key of the buffers could not be made.
  abbrev pub NoKey : St W → Exn → St W → Type 0
  NoKey s x t =
      (e : ℕ) × ((sys.pthread_key_create s.world).0 ≡ some e)
      × (x ≡ sys_fail e "pthread_key_create")
