-- ===== src/Inotify/Names.antt =====
-- What `Event#events` lists.
use mathlib.Core.List.{Memᴰ}
use mathlib.Core.List.Memᴰ.{head, tail, cases_cons, not-nil}
use sleepy_penguin.Base.{
  [], inr, sym, ap, arith, subst, inl, refl, Bool-cases, ◌⊎◌, false, true, ◌≡◌, ◌==◌, ◌↔◌, ◌∷◌,
  bit_and, String, List, ℕ,
}
use sleepy_penguin.Inotify.{events}

module _ (event_mask m : ℕ) (y : String) (rest : List (String × ℕ)) where
  listed :
      (bit_and event_mask m == m) ≡ true
      → events ((y, m) ∷ rest) event_mask ≡ y ∷ events rest event_mask
  unfolding events
  listed e = rw e refl

  passed_over :
      (bit_and event_mask m == m) ≡ false
      → events ((y, m) ∷ rest) event_mask ≡ events rest event_mask
  unfolding events
  passed_over e = rw e refl

  listed-inv :
      (sym' : String)
      → Memᴰ sym' (events ((y, m) ∷ rest) event_mask)
      → ((sym' ≡ y) × (bit_and event_mask m ≡ m)) ⊎ Memᴰ sym' (events rest event_mask)
  listed-inv sym' h = elim (Bool-cases (bit_and event_mask m == m)) [
    | inl e ↦ elim (cases_cons (subst (Memᴰ sym') (listed e) h)) [
      | inl f ↦ inl (f, ground arith)
      | inr g ↦ inr g
    ]
    | inr e ↦ inr (subst (Memᴰ sym') (passed_over e) h)
  ]

-- A name is listed where it stands in the table with a mask whose bits are all set in the event's.
events_complete :
    (table : List (String × ℕ)) (event_mask : ℕ) (name : String) (mask : ℕ)
    → Memᴰ (name, mask) table
    → bit_and event_mask mask ≡ mask
    → Memᴰ name (events table event_mask)
events_complete [] event_mask name mask h q = absurd (not-nil h)
events_complete ((y, m) ∷ rest) event_mask name mask (head e) q =
    let set : (bit_and event_mask m == m) ≡ true = ground (arith, ap (λ p. p.1) e) in
    subst (Memᴰ name) (sym (listed event_mask m y rest set)) (head (ap (λ p. p.0) e))
events_complete ((y, m) ∷ rest) event_mask name mask (tail h) q =
    let there : Memᴰ name (events rest event_mask) =
      events_complete rest event_mask name mask h q in
    elim (Bool-cases (bit_and event_mask m == m)) [
      | inl e ↦ subst (Memᴰ name) (sym (listed event_mask m y rest e)) (tail there)
      | inr e ↦ subst (Memᴰ name) (sym (passed_over event_mask m y rest e)) there
    ]

events_sound :
    (table : List (String × ℕ)) (event_mask : ℕ) (name : String)
    → Memᴰ name (events table event_mask)
    → (mask : ℕ) × Memᴰ (name, mask) table × (bit_and event_mask mask ≡ mask)
unfolding events
events_sound [] event_mask name h = absurd (not-nil h)
events_sound ((y, m) ∷ rest) event_mask name h = elim (listed-inv event_mask m y rest name h) [
  | inl (e, q) ↦ (m, head (ap (λ x. (x, m)) e), q)
  | inr g ↦ let (mask, k, q) = events_sound rest event_mask name g in (mask, tail k, q)
]

-- `Event#events` lists a name exactly where the table has it with a mask whose bits are all set in
-- the mask of the event.
pub events_exact :
    (table : List (String × ℕ)) (event_mask : ℕ) (name : String)
    → Memᴰ name (events table event_mask)
      ↔ ((mask : ℕ) × Memᴰ (name, mask) table × (bit_and event_mask mask ≡ mask))
events_exact table event_mask name = (
  events_sound table event_mask name,
  λ (mask, h, q). events_complete table event_mask name mask h q,
)
