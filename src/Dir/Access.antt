-- ===== src/Dir/Access.antt =====
-- The letters of the access bits, and the bits that they stand for.
use adflib.Prelude.{
  ℕ, ◌+◌, ◌-◌, ◌*◌, ◌/◌, ◌%◌, ◌^◌, ◌≡◌, refl, ==_iff, ap, ◌∙◌, arith, Bool, true, false, Option,
  none, some, ◌>>?◌, List, get_or, bit_and, ◌==◌, if◌then◌else◌,
}
use adflib.Prelude.Loops.{all_below, all_below_sound}
use adflib.Prelude.Bits.{and_shifted, and_low}
use adflib.Dir.Entries.{access2_string}

-- The bit that a character shows at a place with this letter: `shown` for the letter, the other value for a
-- dash; any other character is wrong there.
abbrev bit_of : ℕ → ℕ → ℕ → Option ℕ
bit_of letter shown char =
    if char == letter then some shown else if char == 45 then some (1 - shown) else none

-- The bits that a string of the eight letters `hsparwed` or dashes shows: one of `rwed` is set where its
-- letter is missing, one of `hspa` where it is there.
unfoldable pub string_access : List ℕ → Option ℕ
string_access str = bit_of 100 0 (get_or str 7 0) >>? λ d. bit_of 101 0 (get_or str 6 0) >>? λ e.
    bit_of 119 0 (get_or str 5 0) >>? λ w. bit_of 114 0 (get_or str 4 0) >>? λ r.
    bit_of 97 1 (get_or str 3 0) >>? λ a. bit_of 112 1 (get_or str 2 0) >>? λ p.
    bit_of 115 1 (get_or str 1 0) >>? λ s. bit_of 104 1 (get_or str 0 0) >>? λ h.
    some (d + 2 * e + 4 * w + 8 * r + 16 * a + 32 * p + 64 * s + 128 * h)

and_one : (k acc : ℕ) → bit_and acc (1 * 2 ^ k) ≡ acc / 2 ^ k % 2 * 2 ^ k
and_one k acc = and_shifted k acc 1 ∙ ap (λ (n : ℕ). n * 2 ^ k) (and_low 1 (acc / 2 ^ k))

access2_string-low : (acc : ℕ) → access2_string acc ≡ access2_string (acc % 256)
unfolding access2_string
access2_string-low acc =
    let low = acc % 256 in
    let b0 : bit_and acc 1 ≡ bit_and low 1 = omega (arith, and_one 0 acc, and_one 0 low) in
    let b1 : bit_and acc 2 ≡ bit_and low 2 = omega (arith, and_one 1 acc, and_one 1 low) in
    let b2 : bit_and acc 4 ≡ bit_and low 4 = omega (arith, and_one 2 acc, and_one 2 low) in
    let b3 : bit_and acc 8 ≡ bit_and low 8 = omega (arith, and_one 3 acc, and_one 3 low) in
    let b4 : bit_and acc 16 ≡ bit_and low 16 = omega (arith, and_one 4 acc, and_one 4 low) in
    let b5 : bit_and acc 32 ≡ bit_and low 32 = omega (arith, and_one 5 acc, and_one 5 low) in
    let b6 : bit_and acc 64 ≡ bit_and low 64 = omega (arith, and_one 6 acc, and_one 6 low) in
    let b7 : bit_and acc 128 ≡ bit_and low 128 = omega (arith, and_one 7 acc, and_one 7 low) in
    rw (b0, b1, b2, b3, b4, b5, b6, b7) refl

shows : ℕ → Bool
shows acc = elim (string_access (access2_string acc)) [ none ↦ false | some bits ↦ bits == acc ]

all_shown : all_below 256 shows ≡ true
unfolding all_below shows string_access access2_string
all_shown = refl

shows_bits :
    (bits : Option ℕ) (acc : ℕ)
    → elim bits as (λ _. Bool) [ none ↦ false | some n ↦ n == acc ] ≡ true
    → bits ≡ some acc
shows_bits none acc e = absurd (ground (arith, e))
shows_bits (some n) acc e = ap some ((==_iff n acc).0 e)

-- The string that `adfAccess2String` gives shows the access bits 0 to 7, whatever the bits above are:
-- it has the letters `hsparwed` at their places, or dashes, and read back, with a letter of `rwed`
-- that is missing and one of `hspa` that is there as a bit that is set, it gives the bits.
pub string_access-access2_string : (acc : ℕ) → string_access (access2_string acc) ≡ some (acc % 256)
unfolding shows
string_access-access2_string acc =
    let low = acc % 256 in
    rw (access2_string-low acc) (
      shows_bits (string_access (access2_string low)) low
        (all_below_sound 256 shows low all_shown (omega arith)))
