-- ===== src/Dev/HdSeal.antt =====
-- Blocks of hard disks: what a writer stores for a structure of 256 bytes, and what a reader makes of it.
-- The writers sum 512 bytes, and the readers 256.
use adflib.Prelude.{
  ℕ, zero, suc, ◌+◌, ◌-◌, ◌*◌, ◌^◌, ◌≤◌, ◌<◌, ◌≡◌, ◌⊎◌, inr, refl, sym, ap, ◌∙◌, arith, true, List,
  [], ◌∷◌, ◌++◌, length, take, replicate, length-append, length-take, length-replicate, ◌==◌, ltb,
  get_or-replicate, if◌then◌else◌,
}
use adflib.Util.{byte, u32, load32, swap_uint32_from_ptr}
use adflib.Util.ByteOrder.{
  IsBytes, from_ptr-to_ptr, length-swap_uint32_to_ptr, swap_uint32_to_ptr-IsBytes,
  swap_uint32_from_ptr_value,
}
use adflib.Raw.{swap_endian, normal_sum, normal_sum_loop}
use adflib.Raw.Swap.{
  long_at, block_size, byte-swap_endian, length-swap_endian, load32-swap_endian, flip, long_at-flip,
  flip-flip,
}
use adflib.Raw.Sums.{normal_sum-to_ptr}
use adflib.Dev.Blocks.{byte-take, byte-append}
use adflib.Dev.HdBlocks.{seal_hd}

normal_sum_loop_add :
    (buf : List ℕ) (skip m n i acc : ℕ)
    → normal_sum_loop buf skip (m + n) i acc
      ≡ normal_sum_loop buf skip n (i + m) (normal_sum_loop buf skip m i acc)
unfolding normal_sum_loop
normal_sum_loop_add buf skip zero n i acc =
    let e : i + 0 ≡ i = omega arith in let e' : 0 + n ≡ n = omega arith in rw (e, e') refl
normal_sum_loop_add buf skip (suc m) n i acc =
    let e : i + suc m ≡ i + 1 + m = omega arith in
    let e' : suc m + n ≡ suc (m + n) = omega arith in
    rw (e, e') (normal_sum_loop_add buf skip m n (i + 1) _)

normal_sum_loop_zeros :
    (buf : List ℕ) (skip n i acc : ℕ)
    → acc < 2 ^ 32
    → ((j : ℕ) → i ≤ j → swap_uint32_from_ptr buf (j * 4) ≡ 0)
    → normal_sum_loop buf skip n i acc ≡ acc
unfolding normal_sum_loop
normal_sum_loop_zeros buf skip zero i acc h z = refl
normal_sum_loop_zeros buf skip (suc n) i acc h z =
    let step : (if i == skip then acc else u32 (acc + swap_uint32_from_ptr buf (i * 4))) ≡ acc =
      ground (arith, z i (omega arith)) in
    rw step (normal_sum_loop_zeros buf skip n (i + 1) acc h (λ j q. z j (omega arith)))

normal_sum_loop_same :
    (b1 b2 : List ℕ) (skip n i acc : ℕ)
    → ((j : ℕ) → j < i + n → swap_uint32_from_ptr b1 (j * 4) ≡ swap_uint32_from_ptr b2 (j * 4))
    → normal_sum_loop b1 skip n i acc ≡ normal_sum_loop b2 skip n i acc
unfolding normal_sum_loop
normal_sum_loop_same b1 b2 skip zero i acc s = refl
normal_sum_loop_same b1 b2 skip (suc n) i acc s =
    rw (s i (omega arith)) (normal_sum_loop_same b1 b2 skip n (i + 1) _ (λ j q. s j (omega arith)))

normal_sum_loop_bound :
    (buf : List ℕ) (n i acc : ℕ) → acc < 2 ^ 32 → normal_sum_loop buf 2 n i acc < 2 ^ 32
unfolding normal_sum_loop
normal_sum_loop_bound buf zero i acc h = h
normal_sum_loop_bound buf (suc n) i acc h = normal_sum_loop_bound buf n (i + 1) _ (ground arith)

take-IsBytes : (n : ℕ) (buf : List ℕ) → IsBytes buf → IsBytes (take n buf)
take-IsBytes zero buf b i = omega arith
take-IsBytes (suc n) [] b i = omega arith
take-IsBytes (suc n) (x ∷ xs) b zero = b 0
take-IsBytes (suc n) (x ∷ xs) b (suc i) = take-IsBytes n xs (λ k. b (suc k)) i

swap_uint32_from_ptr-take :
    (buf : List ℕ) (p : ℕ)
    → IsBytes buf
    → p + 3 < 256
    → swap_uint32_from_ptr (take 256 buf) p ≡ swap_uint32_from_ptr buf p
swap_uint32_from_ptr-take buf p b h =
    let front = λ (i : ℕ) (q : i < 256). byte-take 256 i buf q in
    ground (
      arith,
      swap_uint32_from_ptr_value (take 256 buf) p (take-IsBytes 256 buf b),
      swap_uint32_from_ptr_value buf p b,
      front p,
      front (p + 1),
      front (p + 2),
      front (p + 3),
    )

-- A block that is zero from byte 256 on has the same sum in its first half.
normal_sum-take :
    (buf : List ℕ)
    → IsBytes buf
    → ((i : ℕ) → 256 ≤ i → byte buf i ≡ 0)
    → normal_sum (take 256 buf) 8 256 ≡ normal_sum buf 8 512
unfolding normal_sum
normal_sum-take buf b z =
    let same = λ (j : ℕ) (q : j < 64). swap_uint32_from_ptr-take buf (j * 4) b (omega arith) in
    let rest : (j : ℕ) → 64 ≤ j → swap_uint32_from_ptr buf (j * 4) ≡ 0 = λ j q. ground (
      arith,
      swap_uint32_from_ptr_value buf (j * 4) b,
      z (j * 4),
      z (j * 4 + 1),
      z (j * 4 + 2),
      z (j * 4 + 3),
    ) in
    let first = normal_sum_loop buf 2 64 0 0 in
    let zeros : normal_sum_loop buf 2 64 64 first ≡ first =
      normal_sum_loop_zeros buf 2 64 64 first (normal_sum_loop_bound buf 64 0 0 (omega arith))
        rest in
    let halves : normal_sum_loop (take 256 buf) 2 64 0 0 ≡ first =
      normal_sum_loop_same (take 256 buf) buf 2 64 0 0 same in
    let whole : normal_sum_loop buf 2 128 0 0 ≡ normal_sum_loop buf 2 64 64 first =
      normal_sum_loop_add buf 2 64 64 0 0 in
    ap (λ (s : ℕ). u32 (2 ^ 32 - s)) (halves ∙ sym zeros ∙ sym whole)

-- A structure of 256 bytes in memory.
pub record IsHdBlock (blk : List ℕ) : Type 0 where
  pub whole : length blk ≡ 256
  pub bytes : IsBytes blk

module _ (blk : List ℕ) (t : ℕ) (b : IsHdBlock blk) (known : t ≤ 11)
    (size : block_size t ≡ 256) where
  abbrev padded : List ℕ
  padded = blk ++ replicate (512 - length blk) 0

  byte-padded : (i : ℕ) → byte padded i ≡ (if ltb i 256 then byte blk i else 0)
  byte-padded i = ground (
    arith,
    b.whole,
    byte-append blk (replicate (512 - length blk) 0) i,
    get_or-replicate {A = ℕ} (512 - length blk) 0 (i - length blk) 0,
  )

  length-padded : length padded ≡ 512
  length-padded = omega (
    arith,
    b.whole,
    length-append {0} blk (replicate (512 - length blk) 0),
    length-replicate {A = ℕ} (512 - length blk) 0,
  )

  abbrev swapped : List ℕ
  swapped = swap_endian padded t

  room : block_size t ≤ length padded
  room = omega (arith, size, length-padded)

  byte-swapped :
      (i : ℕ) → byte swapped i ≡ (if long_at t i then byte padded (flip i) else byte padded i)
  byte-swapped = byte-swap_endian padded t known room

  length-swapped : length swapped ≡ 512
  length-swapped = length-swap_endian padded t known room ∙ length-padded

  swapped-IsBytes : IsBytes swapped
  swapped-IsBytes i =
      ground
        (arith, byte-swapped i, byte-padded i, byte-padded (flip i), b.bytes i, b.bytes (flip i))

  abbrev sum : ℕ
  sum = normal_sum swapped 8 512

  sum-lt : sum < 2 ^ 32
  unfolding normal_sum
  sum-lt = omega arith

  byte-seal_hd : (i : ℕ) → (i < 8) ⊎ (11 < i) → byte (seal_hd blk t) i ≡ byte swapped i
  unfolding seal_hd
  byte-seal_hd =
      (from_ptr-to_ptr swapped 8 sum (omega (arith, length-swapped)) swapped-IsBytes sum-lt).1

  pub length-seal_hd : length (seal_hd blk t) ≡ 512
  unfolding seal_hd
  length-seal_hd = length-swap_uint32_to_ptr swapped 8 sum ∙ length-swapped

  seal_hd-IsBytes : IsBytes (seal_hd blk t)
  unfolding seal_hd
  seal_hd-IsBytes =
      swap_uint32_to_ptr-IsBytes swapped 8 sum (omega (arith, length-swapped)) swapped-IsBytes

  seal_hd_sum : swap_uint32_from_ptr (seal_hd blk t) 8 ≡ normal_sum (seal_hd blk t) 8 512
  unfolding seal_hd
  seal_hd_sum = normal_sum-to_ptr swapped 2 512 (omega (arith, length-swapped)) swapped-IsBytes

  seal_hd_tail : (i : ℕ) → 256 ≤ i → byte (seal_hd blk t) i ≡ 0
  seal_hd_tail i h = ground (
    arith,
    byte-seal_hd i (inr (omega arith)),
    byte-swapped i,
    byte-padded i,
    byte-padded (flip i),
  )

  -- What a reader has before and after the swap.
  abbrev disk : List ℕ
  disk = take 256 (seal_hd blk t)

  length-disk : length disk ≡ 256
  length-disk = omega (arith, length-take 256 (seal_hd blk t), length-seal_hd)

  enough : block_size t ≤ length disk
  enough = omega (arith, size, length-disk)

  pub unsealed_byte :
      (i : ℕ) → i < 256 → (i < 8) ⊎ (11 < i) → byte (swap_endian disk t) i ≡ byte blk i
  unsealed_byte i h out =
      let out' : (flip i < 8) ⊎ (11 < flip i) = ground (arith, out) in
      ground (
        arith,
        byte-swap_endian disk t known enough i,
        byte-take 256 i (seal_hd blk t) h,
        byte-take 256 (flip i) (seal_hd blk t) (omega arith),
        byte-seal_hd i out,
        byte-seal_hd (flip i) out',
        byte-swapped i,
        byte-swapped (flip i),
        byte-padded i,
        byte-padded (flip i),
        long_at-flip t i known,
        ap (byte padded) (flip-flip i),
      )

  pub disk_sum : long_at t 8 ≡ true → load32 (swap_endian disk t) 8 ≡ normal_sum disk 8 256
  disk_sum l =
      let sealed = seal_hd blk t in
      let disk_bytes = take-IsBytes 256 sealed seal_hd-IsBytes in
      load32-swap_endian disk t 8 known enough disk_bytes refl l
      ∙ swap_uint32_from_ptr-take sealed 8 seal_hd-IsBytes (omega arith)
      ∙ seal_hd_sum
      ∙ sym (normal_sum-take sealed seal_hd-IsBytes seal_hd_tail)
