-- ===== src/Prelude/Bits.antt =====
-- Single bits of a word under `&` and `|`, fields cut out by masks, and fields joined by `|`.
use Prim.Native.Nat.{
  ℕ, zero, suc, ◌+◌, ◌-◌, ◌*◌, ◌/◌, ◌%◌, ◌^◌, ◌≤◌, ◌<◌, min, max, bit_and, bit_or, digits,
  bit_and-bitwise, bit_or-bitwise,
}
use mathlib.Core.Path.{◌≡◌, refl, ap, sym, ◌∙◌}
use native.Mathlib.Nat.{pow-suc, div-div-eq-div-mul, one-le-pow, div-add-mod, mul_comm}
use native.Mathlib.Omega.{arith}

-- Any two amounts of fuel that cover `a` give the same digits.
module _ (z : ℕ → ℕ) (f : ℕ → ℕ → ℕ) where
  digits_enough : (n a b m : ℕ) → a ≤ n → a ≤ m → digits z f n a b ≡ digits z f m a b
  digits_enough zero zero b zero h k = refl
  digits_enough zero zero b (suc m) h k = refl
  digits_enough zero (suc a) b m h k = absurd (omega arith)
  digits_enough (suc n) zero b zero h k = refl
  digits_enough (suc n) zero b (suc m) h k = refl
  digits_enough (suc n) (suc a) b zero h k = absurd (omega arith)
  digits_enough (suc n) (suc a) b (suc m) h k =
      omega (arith, digits_enough n (suc a / 2) (b / 2) m (omega arith) (omega arith))

and_zero_left : (b : ℕ) → bit_and 0 b ≡ 0
and_zero_left b = bit_and-bitwise 0 b

or_zero_left : (b : ℕ) → bit_or 0 b ≡ b
or_zero_left b = bit_or-bitwise 0 b

pub and_by_digit : (a b : ℕ) → bit_and a b ≡ 2 * bit_and (a / 2) (b / 2) + min (a % 2) (b % 2)
and_by_digit zero b = omega (arith, and_zero_left b, and_zero_left (b / 2))
and_by_digit (suc a) b = omega (
  arith,
  bit_and-bitwise (suc a) b,
  bit_and-bitwise (suc a / 2) (b / 2),
  digits_enough (λ y. 0) min a (suc a / 2) (b / 2) (suc a / 2) (omega arith) (omega arith),
)

pub or_by_digit : (a b : ℕ) → bit_or a b ≡ 2 * bit_or (a / 2) (b / 2) + max (a % 2) (b % 2)
or_by_digit zero b = omega (arith, or_zero_left b, or_zero_left (b / 2))
or_by_digit (suc a) b = omega (
  arith,
  bit_or-bitwise (suc a) b,
  bit_or-bitwise (suc a / 2) (b / 2),
  digits_enough (λ y. y) max a (suc a / 2) (b / 2) (suc a / 2) (omega arith) (omega arith),
)

-- The bit of `a` at place `k`.
unfoldable pub bit_at : ℕ → ℕ → ℕ
bit_at a zero = a % 2
bit_at a (suc k) = bit_at (a / 2) k

pub bit_at-lt : (a k : ℕ) → bit_at a k < 2
unfolding bit_at
bit_at-lt a zero = omega arith
bit_at-lt a (suc k) = bit_at-lt (a / 2) k

pub bit_at-or : (k a b : ℕ) → bit_at (bit_or a b) k ≡ max (bit_at a k) (bit_at b k)
unfolding bit_at
bit_at-or zero a b = omega (arith, or_by_digit a b)
bit_at-or (suc k) a b =
    let half : bit_or a b / 2 ≡ bit_or (a / 2) (b / 2) = omega (arith, or_by_digit a b) in
    rw half (bit_at-or k (a / 2) (b / 2))

pub bit_at-and : (k a b : ℕ) → bit_at (bit_and a b) k ≡ min (bit_at a k) (bit_at b k)
unfolding bit_at
bit_at-and zero a b = omega (arith, and_by_digit a b)
bit_at-and (suc k) a b =
    let half : bit_and a b / 2 ≡ bit_and (a / 2) (b / 2) = omega (arith, and_by_digit a b) in
    rw half (bit_at-and k (a / 2) (b / 2))

and_zero_fuel : (n a : ℕ) → a ≤ n → bit_and a 0 ≡ 0
and_zero_fuel n zero h = and_zero_left 0
and_zero_fuel zero (suc a) h = absurd (omega arith)
and_zero_fuel (suc n) (suc a) h =
    omega (arith, and_by_digit (suc a) 0, and_zero_fuel n (suc a / 2) (omega arith))

pub and_zero : (a : ℕ) → bit_and a 0 ≡ 0
and_zero a = and_zero_fuel a a (omega arith)

or_zero_fuel : (n a : ℕ) → a ≤ n → bit_or a 0 ≡ a
or_zero_fuel n zero h = or_zero_left 0
or_zero_fuel zero (suc a) h = absurd (omega arith)
or_zero_fuel (suc n) (suc a) h =
    omega (arith, or_by_digit (suc a) 0, or_zero_fuel n (suc a / 2) (omega arith))

-- A mask that is shifted left by `k` reads the word shifted right by `k`.
pub and_shifted : (k a m : ℕ) → bit_and a (m * 2 ^ k) ≡ bit_and (a / 2 ^ k) m * 2 ^ k
and_shifted zero a m = ground arith
and_shifted (suc k) a m = ground (
  arith,
  and_by_digit a (m * 2 ^ suc k),
  and_shifted k (a / 2) m,
  ap (λ (t : ℕ). m * t) (pow-suc 2 k),
  pow-suc 2 k,
  ap (λ (t : ℕ). bit_and (a / 2 ^ suc k) m * t) (pow-suc 2 k),
  div-div-eq-div-mul a 2 (2 ^ k),
)

half_mask : (k : ℕ) → (2 ^ suc k - 1) / 2 ≡ 2 ^ k - 1
half_mask k = omega (arith, pow-suc 2 k, one-le-pow k 2 (omega arith))

mod_double : (a m : ℕ) → a % (m * 2) ≡ 2 * (a / 2 % m) + a % 2
mod_double a m =
    let same : a / (m * 2) ≡ a / 2 / m =
      ap (λ (t : ℕ). a / t) (mul_comm m 2) ∙ sym (div-div-eq-div-mul a 2 m) in
    omega (arith, div-add-mod a (m * 2), div-add-mod (a / 2) m, ap (λ (t : ℕ). m * t) same)

-- A mask of the `k` low bits is the remainder by `2 ^ k`.
pub and_low : (k a : ℕ) → bit_and a (2 ^ k - 1) ≡ a % 2 ^ k
and_low zero a = omega (arith, and_zero a)
and_low (suc k) a = omega (
  arith,
  and_by_digit a (2 ^ suc k - 1),
  ap (λ (t : ℕ). bit_and (a / 2) t) (half_mask k),
  and_low k (a / 2),
  pow-suc 2 k,
  one-le-pow k 2 (omega arith),
  ap (λ (t : ℕ). a % t) (pow-suc 2 k),
  mod_double a (2 ^ k),
)

-- `|` of a word shifted left by `k` and one of `k` bits is their sum.
pub or_fields : (k q r : ℕ) → r < 2 ^ k → bit_or (q * 2 ^ k) r ≡ q * 2 ^ k + r
or_fields zero q r fits = ground (arith, or_zero_fuel q q (omega arith))
or_fields (suc k) q r fits = ground (
  arith,
  or_by_digit (q * 2 ^ suc k) r,
  pow-suc 2 k,
  ap (λ (t : ℕ). q * t) (pow-suc 2 k),
  or_fields k q (r / 2) (omega (arith, pow-suc 2 k)),
)
