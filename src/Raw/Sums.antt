-- ===== src/Raw/Sums.antt =====
-- The checksums of blocks: a stored sum is the sum that a reader computes, all longs of the block then
-- add up to 0, and the two ways to compute each sum agree.
use adflib.Prelude.{
  ℕ, zero, suc, ◌+◌, ◌-◌, ◌*◌, ◌/◌, ◌%◌, ◌^◌, ◌≤◌, ◌<◌, ◌≡◌, ◌≢◌, refl, sym, ◌∙◌, arith, List,
  length, ap, inl, inr, true, false, ltb, ◌==◌, ==_iff, Bool-cases, ◌⊎◌,
}
use adflib.Util.{u32, swap_uint32_from_ptr, swap_uint32_to_ptr}
use adflib.Util.ByteOrder.{IsBytes, from_ptr-to_ptr, from_ptr-to_ptr_ne, swap_uint32_from_ptr-lt}
use adflib.Raw.{
  normal_sum_loop, normal_sum, bitmap_sum_loop, bitmap_sum, boot_sum_step, boot_sum_loop, boot_sum,
  boot_sum2_step, boot_sum2_loop, boot_sum2,
}

true-false : (true ≡ false) → ⊥
true-false e = cc

apart : (i skip : ℕ) → i ≢ skip → (i * 4 + 3 < skip * 4) ⊎ (skip * 4 + 3 < i * 4)
apart i skip h = elim (Bool-cases (ltb i skip)) [
  | inl e ↦ inl (ground arith)
  | inr e ↦ inr (ground arith)
]

-- The loop does not see the long that it skips.
normal_sum_loop-to_ptr :
    (buf : List ℕ) (skip val n i acc : ℕ)
    → skip * 4 + 3 < length buf
    → normal_sum_loop (swap_uint32_to_ptr buf (skip * 4) val) skip n i acc
      ≡ normal_sum_loop buf skip n i acc
unfolding normal_sum_loop
normal_sum_loop-to_ptr buf skip val zero i acc h = refl
normal_sum_loop-to_ptr buf skip val (suc n) i acc h = elim (Bool-cases (i == skip)) [
  | inl e ↦ rw e (normal_sum_loop-to_ptr buf skip val n (i + 1) acc h)
  | inr e ↦
      let other =
        from_ptr-to_ptr_ne buf (skip * 4) val (i * 4) h
          (apart i skip (λ q. true-false (sym ((==_iff i skip).1 q) ∙ e))) in
      rw (e, other) (normal_sum_loop-to_ptr buf skip val n (i + 1) _ h)
]

normal_sum-lt : (buf : List ℕ) (offset len : ℕ) → normal_sum buf offset len < 2 ^ 32
unfolding normal_sum
normal_sum-lt buf offset len = omega arith

normal_sum-skips :
    (buf : List ℕ) (skip val len : ℕ)
    → skip * 4 + 3 < length buf
    → normal_sum (swap_uint32_to_ptr buf (skip * 4) val) (skip * 4) len
      ≡ normal_sum buf (skip * 4) len
unfolding normal_sum
normal_sum-skips buf skip val len h =
    let place : skip * 4 / 4 ≡ skip = omega arith in
    rw (place, normal_sum_loop-to_ptr buf skip val (len / 4) 0 0 h)

-- For a buffer of bytes and a long inside it, a block that is stored with its `adfNormalSum` in that
-- long passes the reader's test: the long is the sum that the reader computes.
pub normal_sum-to_ptr :
    (buf : List ℕ) (skip len : ℕ)
    → skip * 4 + 3 < length buf
    → IsBytes buf
    → let stored = swap_uint32_to_ptr buf (skip * 4) (normal_sum buf (skip * 4) len) in
      swap_uint32_from_ptr stored (skip * 4) ≡ normal_sum stored (skip * 4) len
normal_sum-to_ptr buf skip len h b =
    let sum = normal_sum buf (skip * 4) len in
    (from_ptr-to_ptr buf (skip * 4) sum h b (normal_sum-lt buf (skip * 4) len)).0
    ∙ sym (normal_sum-skips buf skip sum len h)

-- The sum of `n` longs from the `i`-th on, in 32 bits.
unfoldable pub total : List ℕ → ℕ → ℕ → ℕ
total buf zero i = 0
total buf (suc n) i = u32 (swap_uint32_from_ptr buf (i * 4) + total buf n (i + 1))

normal_sum_loop-total :
    (buf : List ℕ) (skip n i acc : ℕ)
    → skip < i
    → normal_sum_loop buf skip n i acc % 2 ^ 32 ≡ (acc + total buf n i) % 2 ^ 32
unfolding normal_sum_loop total
normal_sum_loop-total buf skip zero i acc h = omega arith
normal_sum_loop-total buf skip (suc n) i acc h =
    let past : (i == skip) ≡ false = ground arith in
    rw past (
      omega (
        arith,
        normal_sum_loop-total buf skip n (i + 1) (u32 (acc + swap_uint32_from_ptr buf (i * 4)))
            (omega arith),
      ))

normal_sum_loop-total_skip :
    (buf : List ℕ) (skip n i acc : ℕ)
    → i ≤ skip
    → skip < i + n
    → (normal_sum_loop buf skip n i acc + swap_uint32_from_ptr buf (skip * 4)) % 2 ^ 32
      ≡ (acc + total buf n i) % 2 ^ 32
unfolding normal_sum_loop total
normal_sum_loop-total_skip buf skip zero i acc h k = absurd (omega arith)
normal_sum_loop-total_skip buf skip (suc n) i acc h k = elim (Bool-cases (i == skip)) [
  | inl e ↦
      let at : i ≡ skip = (==_iff i skip).0 e in
      let own : swap_uint32_from_ptr buf (i * 4) ≡ swap_uint32_from_ptr buf (skip * 4) =
        ap (λ (j : ℕ). swap_uint32_from_ptr buf (j * 4)) at in
      rw e (omega (arith, own, normal_sum_loop-total buf skip n (i + 1) acc (omega arith)))
  | inr e ↦
      let before : i ≢ skip = λ q. true-false (sym ((==_iff i skip).1 q) ∙ e) in
      rw e (
        omega (
          arith,
          normal_sum_loop-total_skip buf skip n (i + 1)
              (u32 (acc + swap_uint32_from_ptr buf (i * 4))) (omega arith) (omega arith),
        ))
]

normal_sum_loop-lt :
    (buf : List ℕ) (skip n i acc : ℕ) → acc < 2 ^ 32 → normal_sum_loop buf skip n i acc < 2 ^ 32
unfolding normal_sum_loop
normal_sum_loop-lt buf skip zero i acc h = h
normal_sum_loop-lt buf skip (suc n) i acc h = normal_sum_loop-lt buf skip n (i + 1) _ (ground arith)

normal_sum_value :
    (buf : List ℕ) (skip len : ℕ)
    → skip < len / 4
    → (normal_sum buf (skip * 4) len + total buf (len / 4) 0) % 2 ^ 32
      ≡ swap_uint32_from_ptr buf (skip * 4)
unfolding normal_sum
normal_sum_value buf skip len h =
    let place : skip * 4 / 4 ≡ skip = omega arith in
    rw place (
      omega (
        arith,
        normal_sum_loop-total_skip buf skip (len / 4) 0 0 (omega arith) (omega arith),
        normal_sum_loop-lt buf skip (len / 4) 0 0 (omega arith),
        swap_uint32_from_ptr-lt buf (skip * 4),
      ))

total-lt : (buf : List ℕ) (n i : ℕ) → total buf n i < 2 ^ 32
unfolding total
total-lt buf zero i = omega arith
total-lt buf (suc n) i = omega arith

-- For a buffer of bytes and a long among those summed, all longs of a block that is stored with its
-- `adfNormalSum` in that long add up to 0 in 32 bits, which is the Amiga's own test of a block.
pub total-to_ptr :
    (buf : List ℕ) (skip len : ℕ)
    → skip * 4 + 3 < length buf
    → skip < len / 4
    → IsBytes buf
    → total (swap_uint32_to_ptr buf (skip * 4) (normal_sum buf (skip * 4) len)) (len / 4) 0 ≡ 0
total-to_ptr buf skip len h k b =
    let stored = swap_uint32_to_ptr buf (skip * 4) (normal_sum buf (skip * 4) len) in
    omega (
      arith,
      normal_sum_value stored skip len k,
      normal_sum-to_ptr buf skip len h b,
      total-lt stored (len / 4) 0,
      normal_sum-lt stored (skip * 4) len,
    )

bitmap_sum_loop-normal :
    (buf : List ℕ) (n i a b : ℕ)
    → 0 < i
    → a < 2 ^ 32
    → b < 2 ^ 32
    → (a + b) % 2 ^ 32 ≡ 0
    → (bitmap_sum_loop buf n i a + normal_sum_loop buf 0 n i b) % 2 ^ 32 ≡ 0
unfolding bitmap_sum_loop normal_sum_loop
bitmap_sum_loop-normal buf zero i a b p x y e = e
bitmap_sum_loop-normal buf (suc n) i a b p x y e =
    let past : (i == 0) ≡ false = ground arith in
    let d = swap_uint32_from_ptr buf (i * 4) in
    rw past (
      bitmap_sum_loop-normal buf n (i + 1) (u32 (a + 2 ^ 32 - d)) (u32 (b + d)) (omega arith)
        (omega arith) (omega arith) (omega (arith, swap_uint32_from_ptr-lt buf (i * 4))))

bitmap_sum_loop-lt : (buf : List ℕ) (n i a : ℕ) → a < 2 ^ 32 → bitmap_sum_loop buf n i a < 2 ^ 32
unfolding bitmap_sum_loop
bitmap_sum_loop-lt buf zero i a h = h
bitmap_sum_loop-lt buf (suc n) i a h = bitmap_sum_loop-lt buf n (i + 1) _ (omega arith)

normal_sum_loop-first :
    (buf : List ℕ) (n : ℕ) → normal_sum_loop buf 0 (suc n) 0 0 ≡ normal_sum_loop buf 0 n 1 0
unfolding normal_sum_loop
normal_sum_loop-first buf n = refl

-- `adfBitmapSum` is the `adfNormalSum` of a block of 512 bytes with the sum in its first long.
pub bitmap_sum-eq-normal_sum : (buf : List ℕ) → bitmap_sum buf ≡ normal_sum buf 0 512
unfolding bitmap_sum normal_sum
bitmap_sum-eq-normal_sum buf = omega (
  arith,
  bitmap_sum_loop-normal buf 127 1 0 0 (omega arith) (omega arith) (omega arith) (omega arith),
  bitmap_sum_loop-lt buf 127 1 0 (omega arith),
  normal_sum_loop-lt buf 0 127 1 0 (omega arith),
  normal_sum_loop-first buf 127,
)

boot_steps_agree :
    (s d : ℕ)
    → s < 2 ^ 32
    → d < 2 ^ 32
    → (boot_sum_step s d ≡ boot_sum2_step s d) × (boot_sum_step s d < 2 ^ 32)
unfolding boot_sum_step boot_sum2_step
boot_steps_agree s d h k = ground arith

boot_loops_agree :
    (buf : List ℕ) (n i s : ℕ) → s < 2 ^ 32 → boot_sum_loop buf n i s ≡ boot_sum2_loop buf n i s
unfolding boot_sum_loop boot_sum2_loop
boot_loops_agree buf zero i s h = refl
boot_loops_agree buf (suc n) i s h =
    let step =
      boot_steps_agree s (swap_uint32_from_ptr buf (i * 4)) h
        (swap_uint32_from_ptr-lt buf (i * 4)) in
    elim (Bool-cases (i == 1)) [
      | inl e ↦ rw e (boot_loops_agree buf n (i + 1) s h)
      | inr e ↦ rw (e, ← step.0) (boot_loops_agree buf n (i + 1) _ step.1)
    ]

-- The two ways to carry around, before the addition in `adfBootSum` and after it in `adfBootSum2`,
-- give one boot checksum.
pub boot_sum-eq-boot_sum2 : (buf : List ℕ) → boot_sum buf ≡ boot_sum2 buf
unfolding boot_sum boot_sum2
boot_sum-eq-boot_sum2 buf = rw (boot_loops_agree buf 256 0 0 (omega arith))
