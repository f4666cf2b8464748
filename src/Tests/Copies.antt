-- ===== src/Tests/Copies.antt =====
-- The theorems on copies and on the names of inotify events at concrete calls.
use mathlib.Core.List.{Memᴰ}
use sleepy_penguin.Base.{◌≡◌, [], bit_and, ◌∷◌, ◌↔◌, String, ℕ, List}
use sleepy_penguin.Inotify.{events}
use sleepy_penguin.Inotify.Names.{events_exact}

abbrev two_names : List (String × ℕ)
two_names = ("ACCESS", 1) ∷ ("MODIFY", 2) ∷ []

events_exact_example :
    Memᴰ "MODIFY" (events two_names 6)
    ↔ ((mask : ℕ) × Memᴰ ("MODIFY", mask) two_names × (bit_and 6 mask ≡ mask))
events_exact_example = events_exact two_names 6 "MODIFY"
