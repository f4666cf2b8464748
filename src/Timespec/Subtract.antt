-- ===== src/Timespec/Subtract.antt =====
-- The difference of two times.
use sleepy_penguin.Timespec.{nano_per_sec, tssub, Timespec}
use sleepy_penguin.Base.{
  ◌+ℤ◌, refl, negsuc, ◌-◌, ◌-ℤ◌, ◌≤◌, ℤ, sub_ℕ, arith, neg_part, pos_part, ◌<◌, dec_le, ◌*◌, pos,
  ◌≡◌, ◌+◌, ℕ,
}

-- The nanoseconds are in their range.
abbrev pub IsNormal : Timespec → Type 0
IsNormal t = (n : ℕ) × (t.tv_nsec ≡ pos n) × (n < nano_per_sec)

-- The nanoseconds of a time are `above t` less `below t`.
abbrev pub above : Timespec → ℕ
above t = nano_per_sec * pos_part t.tv_sec + pos_part t.tv_nsec

abbrev pub below : Timespec → ℕ
below t = nano_per_sec * neg_part t.tv_sec + neg_part t.tv_nsec

sub_ℕ-parts : (p q : ℕ) → pos_part (sub_ℕ p q) + q ≡ neg_part (sub_ℕ p q) + p
sub_ℕ-parts p q = ground arith

minus-parts :
    (x y : ℤ)
    → pos_part (x -ℤ y) + (neg_part x + pos_part y) ≡ neg_part (x -ℤ y) + (pos_part x + neg_part y)
minus-parts x y = sub_ℕ-parts (pos_part x + neg_part y) (neg_part x + pos_part y)

module _ (a b : Timespec) (n m : ℕ) (e : a.tv_nsec ≡ pos n) (f : b.tv_nsec ≡ pos m) where
  no_borrow : m ≤ n → tssub a b ≡ record { tv_sec = a.tv_sec -ℤ b.tv_sec; tv_nsec = pos (n - m) }
  unfolding tssub
  no_borrow le = let h : pos n -ℤ pos m ≡ pos (n - m) = ground arith in rw (e, f, h) refl

  borrow :
      n < m
      → m < nano_per_sec
      → tssub a b
        ≡ record { tv_sec = a.tv_sec -ℤ b.tv_sec -ℤ pos 1; tv_nsec = pos (nano_per_sec + n - m) }
  unfolding tssub
  borrow lt small =
      let h : pos n -ℤ pos m ≡ negsuc (m - n - 1) = ground arith in
      let k : negsuc (m - n - 1) +ℤ pos nano_per_sec ≡ pos (nano_per_sec + n - m) = ground arith in
      rw (e, f, h) (rw k refl)

-- For two times whose nanoseconds are in range `tssub` is their difference, `(a - b) + b = a` in
-- nanoseconds, before and after 1970 alike, and its nanoseconds are in range again.
pub tssub-difference :
    (a b : Timespec)
    → IsNormal a
    → IsNormal b
    → IsNormal (tssub a b)
      × (above (tssub a b) + above b + below a ≡ above a + below (tssub a b) + below b)
tssub-difference a b (n, e, x) (m, f, y) = elim (dec_le m n) [
  | yes le ↦
      rw (no_borrow a b n m e f le, e, f)
        ((n - m, refl, omega arith), omega (arith, minus-parts a.tv_sec b.tv_sec))
  | no gt ↦
      rw (borrow a b n m e f (omega arith) y, e, f)
        (
          (nano_per_sec + n - m, refl, omega arith),
          omega (arith, minus-parts a.tv_sec b.tv_sec, minus-parts (a.tv_sec -ℤ b.tv_sec) (pos 1)),
        )
]
