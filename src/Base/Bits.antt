-- ===== src/Base/Bits.antt =====
-- Laws of the bitwise operations, by halving both numbers.
use Prim.Native.Nat.{
  ℕ, zero, suc, ◌+◌, ◌*◌, ◌/◌, ◌%◌, ◌≤◌, min, max, bit_and, bit_or, digits, bit_and-bitwise,
  bit_or-bitwise,
}
use mathlib.Core.Path.{◌≡◌, refl, ap, ◌∙◌, sym}
use native.Mathlib.Omega.{arith}

module _ (z : ℕ → ℕ) (f : ℕ → ℕ → ℕ) where
  -- The count of digits to go makes no difference once it is as large as the number.
  digits_enough : (n m a b : ℕ) → a ≤ n → a ≤ m → digits z f n a b ≡ digits z f m a b
  digits_enough zero zero a b p q = refl
  digits_enough zero (suc m) zero b p q = refl
  digits_enough zero (suc m) (suc a) b p q = absurd (omega arith)
  digits_enough (suc n) zero zero b p q = refl
  digits_enough (suc n) zero (suc a) b p q = absurd (omega arith)
  digits_enough (suc n) (suc m) zero b p q = refl
  digits_enough (suc n) (suc m) (suc a) b p q =
      ap (λ h. h * 2 + f (suc a % 2) (b % 2))
        (digits_enough n m (suc a / 2) (b / 2) (omega arith) (omega arith))

  digits_halve :
      (a b : ℕ)
      → digits z f (suc a) (suc a) b
        ≡ digits z f (suc a / 2) (suc a / 2) (b / 2) * 2 + f (suc a % 2) (b % 2)
  digits_halve a b =
      ap (λ h. h * 2 + f (suc a % 2) (b % 2))
        (digits_enough a (suc a / 2) (suc a / 2) (b / 2) (omega arith) (omega arith))

pub zero-and : (b : ℕ) → bit_and 0 b ≡ 0
zero-and b = bit_and-bitwise 0 b

pub zero-or : (b : ℕ) → bit_or 0 b ≡ b
zero-or b = bit_or-bitwise 0 b

pub and_halve : (a b : ℕ) → bit_and a b ≡ bit_and (a / 2) (b / 2) * 2 + min (a % 2) (b % 2)
and_halve zero b = omega (arith, zero-and b, zero-and (b / 2))
and_halve (suc a) b = omega (
  arith,
  bit_and-bitwise (suc a) b,
  bit_and-bitwise (suc a / 2) (b / 2),
  digits_halve (λ b. zero) min a b,
)

pub or_halve : (a b : ℕ) → bit_or a b ≡ bit_or (a / 2) (b / 2) * 2 + max (a % 2) (b % 2)
or_halve zero b = omega (arith, zero-or b, zero-or (b / 2))
or_halve (suc a) b = omega (
  arith,
  bit_or-bitwise (suc a) b,
  bit_or-bitwise (suc a / 2) (b / 2),
  digits_halve (λ b. b) max a b,
)

and_or_fuel :
    (n m a b : ℕ) → m ≤ n → bit_and m a ≡ a → bit_and m b ≡ b → bit_and m (bit_or a b) ≡ bit_or a b
and_or_fuel n zero a b h p q =
    let e : a ≡ 0 = omega (arith, zero-and a) in
    let f : b ≡ 0 = omega (arith, zero-and b) in rw (e, f) refl
and_or_fuel zero (suc m) a b h p q = absurd (omega arith)
and_or_fuel (suc n) (suc m) a b h p q =
    let e : bit_or a b / 2 ≡ bit_or (a / 2) (b / 2) = omega (arith, or_halve a b) in
    let r : bit_and (suc m) (bit_or a b)
        ≡ bit_and (suc m / 2) (bit_or (a / 2) (b / 2)) * 2 + min (suc m % 2) (bit_or a b % 2) =
      and_halve (suc m) (bit_or a b)
      ∙ ap (λ x. bit_and (suc m / 2) x * 2 + min (suc m % 2) (bit_or a b % 2)) e in
    let ih : bit_and (suc m / 2) (bit_or (a / 2) (b / 2)) ≡ bit_or (a / 2) (b / 2) =
      and_or_fuel n (suc m / 2) (a / 2) (b / 2) (omega arith) (omega (arith, and_halve (suc m) a))
        (omega (arith, and_halve (suc m) b)) in
    omega (arith, or_halve a b, and_halve (suc m) a, and_halve (suc m) b)

-- A mask that has the bits of two numbers has those of their union.
pub and_or : (m a b : ℕ) → bit_and m a ≡ a → bit_and m b ≡ b → bit_and m (bit_or a b) ≡ bit_or a b
and_or m a b p q = and_or_fuel m m a b (omega arith) p q

or_and_step :
    (a b : ℕ) → bit_and (bit_or (a / 2) (b / 2)) (b / 2) ≡ b / 2 → bit_and (bit_or a b) b ≡ b
or_and_step a b ih =
    let e : bit_or a b / 2 ≡ bit_or (a / 2) (b / 2) = omega (arith, or_halve a b) in
    let r : bit_and (bit_or a b) b
        ≡ bit_and (bit_or (a / 2) (b / 2)) (b / 2) * 2 + min (bit_or a b % 2) (b % 2) =
      and_halve (bit_or a b) b ∙ ap (λ x. bit_and x (b / 2) * 2 + min (bit_or a b % 2) (b % 2)) e in
    omega (arith, or_halve a b)

or_and_fuel : (k a b : ℕ) → a + b ≤ k → bit_and (bit_or a b) b ≡ b
or_and_fuel k zero zero h = refl
or_and_fuel zero (suc a) b h = absurd (omega arith)
or_and_fuel zero zero (suc b) h = absurd (omega arith)
or_and_fuel (suc k) zero (suc b) h =
    or_and_step zero (suc b) (or_and_fuel k 0 (suc b / 2) (omega arith))
or_and_fuel (suc k) (suc a) b h =
    or_and_step (suc a) b (or_and_fuel k (suc a / 2) (b / 2) (omega arith))

-- A union has the bits of its second part.
pub or_and : (a b : ℕ) → bit_and (bit_or a b) b ≡ b
or_and a b = or_and_fuel (a + b) a b (omega arith)

and-zero_fuel : (n a : ℕ) → a ≤ n → bit_and a 0 ≡ 0
and-zero_fuel n zero h = refl
and-zero_fuel zero (suc a) h = absurd (omega arith)
and-zero_fuel (suc n) (suc a) h =
    omega (arith, and_halve (suc a) 0, and-zero_fuel n (suc a / 2) (omega arith))

pub and-zero : (a : ℕ) → bit_and a 0 ≡ 0
and-zero a = and-zero_fuel a a (omega arith)

or_within_fuel : (n a b : ℕ) → a ≤ n → bit_and a b ≡ b → bit_or a b ≡ a
or_within_fuel n zero b h p = omega (arith, zero-and b, zero-or b)
or_within_fuel zero (suc a) b h p = absurd (omega arith)
or_within_fuel (suc n) (suc a) b h p =
    let ih : bit_or (suc a / 2) (b / 2) ≡ suc a / 2 =
      or_within_fuel n (suc a / 2) (b / 2) (omega arith) (omega (arith, and_halve (suc a) b)) in
    omega (arith, or_halve (suc a) b, and_halve (suc a) b)

-- A union with bits that are there already is no other number.
pub or_within : (a b : ℕ) → bit_and a b ≡ b → bit_or a b ≡ a
or_within a b p = or_within_fuel a a b (omega arith) p

or_and_left_fuel : (k a b : ℕ) → a ≤ k → bit_and (bit_or a b) a ≡ a
or_and_left_fuel k zero b h = and-zero (bit_or 0 b)
or_and_left_fuel zero (suc a) b h = absurd (omega arith)
or_and_left_fuel (suc k) (suc a) b h =
    let ih : bit_and (bit_or (suc a / 2) (b / 2)) (suc a / 2) ≡ suc a / 2 =
      or_and_left_fuel k (suc a / 2) (b / 2) (omega arith) in
    let e : bit_or (suc a) b / 2 ≡ bit_or (suc a / 2) (b / 2) = omega (arith, or_halve (suc a) b) in
    let r : bit_and (bit_or (suc a) b) (suc a)
        ≡ bit_and (bit_or (suc a / 2) (b / 2)) (suc a / 2) * 2
          + min (bit_or (suc a) b % 2) (suc a % 2) =
      and_halve (bit_or (suc a) b) (suc a)
      ∙ ap (λ x. bit_and x (suc a / 2) * 2 + min (bit_or (suc a) b % 2) (suc a % 2)) e in
    omega (arith, or_halve (suc a) b)

-- A union has the bits of its first part.
pub or_and_left : (a b : ℕ) → bit_and (bit_or a b) a ≡ a
or_and_left a b = or_and_left_fuel a a b (omega arith)

within_trans_fuel : (n m a b : ℕ) → m ≤ n → bit_and m a ≡ a → bit_and a b ≡ b → bit_and m b ≡ b
within_trans_fuel n zero a b h p q =
    let e : a ≡ 0 = omega (arith, zero-and a) in
    let f : bit_and a b ≡ 0 = rw e (zero-and b) in omega (arith, zero-and b)
within_trans_fuel zero (suc m) a b h p q = absurd (omega arith)
within_trans_fuel (suc n) (suc m) a b h p q =
    let ih : bit_and (suc m / 2) (b / 2) ≡ b / 2 =
      within_trans_fuel n (suc m / 2) (a / 2) (b / 2) (omega arith)
        (omega (arith, and_halve (suc m) a)) (omega (arith, and_halve a b)) in
    omega (arith, and_halve (suc m) a, and_halve a b, and_halve (suc m) b)

-- Bits that are in a mask are in every mask that has those of the first.
pub within_trans : (m a b : ℕ) → bit_and m a ≡ a → bit_and a b ≡ b → bit_and m b ≡ b
within_trans m a b p q = within_trans_fuel m m a b (omega arith) p q

and-and_fuel : (n a b : ℕ) → a ≤ n → bit_and a (bit_and a b) ≡ bit_and a b
and-and_fuel n zero b h = zero-and (bit_and 0 b) ∙ sym (zero-and b)
and-and_fuel zero (suc a) b h = absurd (omega arith)
and-and_fuel (suc n) (suc a) b h =
    let ih : bit_and (suc a / 2) (bit_and (suc a / 2) (b / 2)) ≡ bit_and (suc a / 2) (b / 2) =
      and-and_fuel n (suc a / 2) (b / 2) (omega arith) in
    let e : bit_and (suc a) b / 2 ≡ bit_and (suc a / 2) (b / 2) =
      omega (arith, and_halve (suc a) b) in
    let r : bit_and (suc a) (bit_and (suc a) b)
        ≡ bit_and (suc a / 2) (bit_and (suc a / 2) (b / 2)) * 2
          + min (suc a % 2) (bit_and (suc a) b % 2) =
      and_halve (suc a) (bit_and (suc a) b)
      ∙ ap (λ x. bit_and (suc a / 2) x * 2 + min (suc a % 2) (bit_and (suc a) b % 2)) e in
    omega (arith, and_halve (suc a) b)

-- A number has the bits of its intersections.
pub and-and : (a b : ℕ) → bit_and a (bit_and a b) ≡ bit_and a b
and-and a b = and-and_fuel a a b (omega arith)

within_both_fuel :
    (n a b c : ℕ) → a ≤ n → bit_and a c ≡ c → bit_and b c ≡ c → bit_and (bit_and a b) c ≡ c
within_both_fuel n zero b c h p q = rw (zero-and b) p
within_both_fuel zero (suc a) b c h p q = absurd (omega arith)
within_both_fuel (suc n) (suc a) b c h p q =
    let ih : bit_and (bit_and (suc a / 2) (b / 2)) (c / 2) ≡ c / 2 =
      within_both_fuel n (suc a / 2) (b / 2) (c / 2) (omega arith)
        (omega (arith, and_halve (suc a) c)) (omega (arith, and_halve b c)) in
    let e : bit_and (suc a) b / 2 ≡ bit_and (suc a / 2) (b / 2) =
      omega (arith, and_halve (suc a) b) in
    let r : bit_and (bit_and (suc a) b) c
        ≡ bit_and (bit_and (suc a / 2) (b / 2)) (c / 2) * 2 + min (bit_and (suc a) b % 2) (c % 2) =
      and_halve (bit_and (suc a) b) c
      ∙ ap (λ x. bit_and x (c / 2) * 2 + min (bit_and (suc a) b % 2) (c % 2)) e in
    omega (arith, and_halve (suc a) b, and_halve (suc a) c, and_halve b c)

-- Bits that are in two masks are in both at once.
pub within_both : (a b c : ℕ) → bit_and a c ≡ c → bit_and b c ≡ c → bit_and (bit_and a b) c ≡ c
within_both a b c p q = within_both_fuel a a b c (omega arith) p q
