-- ===== src/Inotify/Masks.antt =====
-- The names of an event, given back to the library as flags.
use mathlib.Core.List.{Memᴰ}
use mathlib.Core.List.Memᴰ.{cases_cons, not-nil}
use sleepy_penguin.Base.{
  sym, ◌∙◌, ap, subst, inr, bit_or, arith, inl, ◌==◌, [], Bool-cases, ◌∷◌, ◌≡◌, bit_and, List, ℕ,
  String,
}
use sleepy_penguin.Inotify.{events}
use sleepy_penguin.Ruby.{array, Value, Vm}
use sleepy_penguin.Proc.{done, St}
use sleepy_penguin.Util.Flags.{get_uflags-union, symbols, HasMasks, union}
use sleepy_penguin.Util.{rb_sp_get_uflags}
use sleepy_penguin.Base.Bits.{or_and, within_trans, or_and_left, or_within, and_or, and-zero}
use sleepy_penguin.Inotify.Names.{events_exact}

-- The table has the values that the names have as constants.
abbrev pub AllValued : (String → ℕ) → List (String × ℕ) → Type 0
AllValued value [] = Unit {0}
AllValued value ((name, mask) ∷ rest) = (value name ≡ mask) × AllValued value rest

module _ (value : String → ℕ) (event_mask : ℕ) where
  union-events :
      (table : List (String × ℕ)) (acc : ℕ)
      → AllValued value table
      → bit_and event_mask acc ≡ acc
      → bit_and event_mask (union value acc (events table event_mask))
        ≡ union value acc (events table event_mask)
  unfolding events
  union-events [] acc a h = h
  union-events ((name, mask) ∷ rest) acc (e, a) h =
      elim (Bool-cases (bit_and event_mask mask == mask)) [
        | inl set ↦
            let within : bit_and event_mask (value name) ≡ value name = ground arith in
            rw set (
              union-events rest (bit_or acc (value name)) a
                (and_or event_mask acc (value name) h within))
        | inr not_set ↦ rw not_set (union-events rest acc a h)
      ]

  -- What is in the mask of a name that is listed is in the union.
  union-covers :
      (names : List String) (acc : ℕ)
      → (bit_and (union value acc names) acc ≡ acc)
        × ((name : String)
            → Memᴰ name names
            → bit_and (union value acc names) (value name) ≡ value name)
  union-covers [] acc = (
    subst (λ x. bit_and x acc ≡ acc) (or_within acc 0 (and-zero acc)) (or_and_left acc 0),
    λ name m. absurd (not-nil m),
  )
  union-covers (n ∷ ns) acc =
      let all : ℕ = union value (bit_or acc (value n)) ns in
      let (whole, rest) = union-covers ns (bit_or acc (value n)) in
      (
        within_trans all (bit_or acc (value n)) acc whole (or_and_left acc (value n)),
        λ name m. elim (cases_cons m) [
          | inl e ↦
              subst (λ x. bit_and all (value x) ≡ value x) (sym e)
                (within_trans all (bit_or acc (value n)) (value n) whole (or_and acc (value n)))
          | inr k ↦ rest name k
        ],
      )

  valued :
      (table : List (String × ℕ)) (name : String) (mask : ℕ)
      → AllValued value table
      → Memᴰ (name, mask) table
      → value name ≡ mask
  valued [] name mask a m = absurd (not-nil m)
  valued ((y, n) ∷ rest) name mask (e, a) m = elim (cases_cons m) [
    | inl h ↦ ap value (ap (λ p. p.0) h) ∙ e ∙ sym (ap (λ p. p.1) h)
    | inr k ↦ valued rest name mask a k
  ]

  -- Where the class has the names that `Event#events` gives for a mask as constants, with the masks
  -- of the table, these names, passed as flags to `add_watch`, stand for a mask that has all the
  -- bits of each mask of the table that is set in the event, and no bit that the event has not.
  pub uflags-events :
      {W : Type 0} (vm : Vm W) (k : Value) (table : List (String × ℕ)) (s : St W)
      → HasMasks vm k value (events table event_mask)
      → AllValued value table
      → (mask : ℕ) × (rb_sp_get_uflags vm k (array (symbols (events table event_mask))) s
          ≡ done mask s)
        × (bit_and event_mask mask ≡ mask)
        × ((name : String) (m : ℕ)
            → Memᴰ (name, m) table
            → bit_and event_mask m ≡ m
            → bit_and mask m ≡ m)
  uflags-events vm k table s c a = (
    union value 0 (events table event_mask),
    get_uflags-union vm k value (events table event_mask) s c,
    union-events table 0 a (and-zero event_mask),
    λ name m there set.
        subst (λ x. bit_and (union value 0 (events table event_mask)) x ≡ x)
          (valued table name m a there)
          ((union-covers (events table event_mask) 0).1 name
            ((events_exact table event_mask name).1 (m, there, set))),
  )
