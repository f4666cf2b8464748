-- ===== src/Init/Table.antt =====
-- The whole table of names of the extension.
use mathlib.Core.List.{Memᴰ}
use sleepy_penguin.Registry.Lookup.{find-declared, distinct}
use sleepy_penguin.Registry.{
  key_of, find, binding, built, declare_all, is_module, Bound, Registry, Decl, Headers,
}
use sleepy_penguin.Init.{declarations}
use sleepy_penguin.Base.{some, false, refl, true, ◌≡◌, String}

-- No name is defined twice, whatever parts the system has.
all_distinct : (version : String) → distinct (declarations version) ≡ true
unfolding distinct declarations
all_distinct version = refl

-- Where the compiler accepts the registrations of all the files, every constant, class and method
-- that is registered on this system is found under its name with what its call gives it, whatever
-- the table of names before: no later registration of another file replaces it.
pub registered :
    (h : Headers) (version : String) (d : Decl) (reg reg' : Registry) (b : Bound)
    → Memᴰ d (declarations version)
    → is_module d ≡ false
    → declare_all h (declarations version) reg ≡ built reg'
    → binding h d ≡ built (some b)
    → find (key_of d) reg' ≡ some b
registered h version d reg reg' b m n e g =
    find-declared h d (declarations version) reg reg' b m (all_distinct version) n e g
