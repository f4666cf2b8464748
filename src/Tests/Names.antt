-- ===== src/Tests/Names.antt =====
-- The theorems on flags by name, on the names of events and on the table of names, at concrete calls.
use mathlib.Core.List.{Memᴰ}
use text.Mathlib.Text.{◌==◌}
use sleepy_penguin.Util.Flags.{union, symbols, HasMasks, HasConstants, get_flags-union}
use sleepy_penguin.Inotify.{events}
use sleepy_penguin.Base.{bit_and, ◌≡◌, refl, [], pos, ◌∷◌, if◌then◌else◌, ℕ, List, String}
use sleepy_penguin.Ruby.{fixnum, array, klass, Vm}
use sleepy_penguin.Util.{rb_sp_get_uflags, rb_sp_get_flags}
use sleepy_penguin.Tests.World.{rested, quietly, vm}
use sleepy_penguin.Proc.{done}
use sleepy_penguin.Inotify.Masks.{uflags-events}

-- Two constants of `SleepyPenguin::EventFD`, and the others.
abbrev value_of : String → ℕ
value_of name = if name == "NONBLOCK" then 2048 else (if name == "ACCESS" then 1 else 2)

abbrev names_vm : Vm ℕ
names_vm = record vm { rb_const_get = λ v name. quietly (fixnum (pos (value_of name))) }

abbrev two : List String
two = "NONBLOCK" ∷ "SEMAPHORE" ∷ []

names_vm-HasConstants : HasConstants names_vm (klass 3) (λ name. pos (value_of name)) two
names_vm-HasConstants = record { rb_const_get = λ name e w m. refl; num2int = λ name e w m. refl }

get_flags-union_example :
    rb_sp_get_flags names_vm (klass 3) (array (symbols two)) 524288 rested
    ≡ done (union (λ n. names_vm.int_bits (pos (value_of n))) 0 two) rested
get_flags-union_example =
    get_flags-union names_vm (klass 3) (λ name. pos (value_of name)) two 524288 rested
      names_vm-HasConstants

abbrev table : List (String × ℕ)
table = ("ACCESS", 1) ∷ ("MODIFY", 2) ∷ []

names_vm-HasMasks : HasMasks names_vm (klass 3) value_of (events table 6)
names_vm-HasMasks = record { rb_const_get = λ name e w m. refl; num2uint = λ name e w m. refl }

uflags-events_example :
    (mask : ℕ) × (rb_sp_get_uflags names_vm (klass 3) (array (symbols (events table 6))) rested
      ≡ done mask rested)
    × (bit_and 6 mask ≡ mask)
    × ((name : String) (m : ℕ) → Memᴰ (name, m) table → bit_and 6 m ≡ m → bit_and mask m ≡ m)
uflags-events_example =
    uflags-events value_of 6 names_vm (klass 3) table rested names_vm-HasMasks (refl, (refl, tt))
