-- ===== src/Bitmap/Bits.antt =====
-- One bit of a long of the bitmap: what the tests and the updates with `bitMask` do to it.
use adflib.Prelude.{
  ℕ, zero, suc, ◌-◌, ◌/◌, ◌%◌, ◌^◌, ◌<◌, ◌≡◌, refl, ap, arith, bit_and, bit_or, true, not, get_or,
  ◌==◌, ==_iff, if◌then◌else◌,
}
use adflib.Prelude.Bits.{bit_at, bit_at-lt, bit_at-or, bit_at-and, and_shifted, and_low}
use native.Mathlib.Nat.{pow-suc, div-div-eq-div-mul, mul_comm}
use adflib.Prelude.Loops.{all_below, all_below_sound}
use adflib.Bitmap.{bit_mask}

abbrev mask : ℕ → ℕ
mask k = get_or bit_mask k 0

masks_table : all_below 32 (λ k. mask k == 2 ^ k) ≡ true
unfolding all_below
masks_table = refl

mask-pow : (k : ℕ) → k < 32 → mask k ≡ 2 ^ k
mask-pow k h = (==_iff _ _).0 (all_below_sound 32 (λ k. mask k == 2 ^ k) k masks_table h)

mask_bits_table :
    all_below 32 (λ k. all_below 32 (λ j. bit_at (mask k) j == (if k == j then 1 else 0))) ≡ true
unfolding all_below bit_at
mask_bits_table = refl

rest_bits_table :
    all_below 32
      (λ k. all_below 32 (λ j. bit_at (2 ^ 32 - 1 - mask k) j == (if k == j then 0 else 1)))
    ≡ true
unfolding all_below bit_at
rest_bits_table = refl

module _ (k j : ℕ) (h : k < 32) (q : j < 32) where
  bit_at-mask : bit_at (mask k) j ≡ (if k == j then 1 else 0)
  bit_at-mask =
      let row = λ (k : ℕ) (j : ℕ). bit_at (mask k) j == (if k == j then 1 else 0) in
      (==_iff _ _).0 (
        all_below_sound 32 (row k) j
          (all_below_sound 32 (λ k. all_below 32 (row k)) k mask_bits_table h) q)

  bit_at-rest : bit_at (2 ^ 32 - 1 - mask k) j ≡ (if k == j then 0 else 1)
  bit_at-rest =
      let row = λ (k : ℕ) (j : ℕ). bit_at (2 ^ 32 - 1 - mask k) j == (if k == j then 0 else 1) in
      (==_iff _ _).0 (
        all_below_sound 32 (row k) j
          (all_below_sound 32 (λ k. all_below 32 (row k)) k rest_bits_table h) q)

bit_at-shift : (k a : ℕ) → bit_at a k ≡ a / 2 ^ k % 2
unfolding bit_at
bit_at-shift zero a = ground arith
bit_at-shift (suc k) a = ground (
  arith,
  bit_at-shift k (a / 2),
  ap (λ (t : ℕ). a / t) (pow-suc 2 k),
  mul_comm 2 (2 ^ k),
  ap (λ (t : ℕ). a / t) (mul_comm 2 (2 ^ k)),
  div-div-eq-div-mul a 2 (2 ^ k),
)

-- The test of a bit.
pub and-mask : (a k : ℕ) → k < 32 → not (bit_and a (mask k) == 0) ≡ (bit_at a k == 1)
and-mask a k h = ground (
  arith,
  mask-pow k h,
  and_shifted k a 1,
  and_low 1 (a / 2 ^ k),
  bit_at-shift k a,
  ap (bit_and a) (mask-pow k h),
)

module _ (a k j : ℕ) (h : k < 32) (q : j < 32) where
  pub bit_at-or_mask : bit_at (bit_or a (mask k)) j ≡ (if k == j then 1 else bit_at a j)
  bit_at-or_mask = ground (arith, bit_at-or j a (mask k), bit_at-mask k j h q, bit_at-lt a j)

  pub bit_at-and_rest :
      bit_at (bit_and a (2 ^ 32 - 1 - mask k)) j ≡ (if k == j then 0 else bit_at a j)
  bit_at-and_rest =
      ground (arith, bit_at-and j a (2 ^ 32 - 1 - mask k), bit_at-rest k j h q, bit_at-lt a j)
