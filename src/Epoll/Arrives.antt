-- ===== src/Epoll/Arrives.antt =====
-- The events of `epoll_wait` after interruptions.
use sleepy_penguin.Base.{[], ◌∷◌, ◌++◌, pos, ◌≡◌, List, ℕ}
use sleepy_penguin.Ruby.{Value, fixnum, Vm}
use sleepy_penguin.Epoll.{EpollEvent}
use sleepy_penguin.Proc.{yields}
use sleepy_penguin.Proc.Sat.{Sat}

-- A view of the world that lists the calls of the block that have returned, by their arguments.
abbrev pub IsLog : {W : Type 0} → (W → List (List Value)) → Vm W → Type 0
IsLog log vm =
    (vs : List Value) (e : ℕ) (w : _) (a : Unit {0}) (e' : ℕ) (w' : _)
    → vm.rb_yield_values vs e w ≡ yields a e' w'
    → log w' ≡ log w ++ (vs ∷ [])

-- What the block is to be called with for an event: its flags and the object it was added with.
abbrev pub shown : EpollEvent → List Value
shown e = fixnum (pos e.events) ∷ e.ptr ∷ []
