-- ===== src/Block/Seal.antt =====
-- A sealed block, read back: its checksum is valid, and every member but the checksum has the value that
-- it was written with.
use adflib.Prelude.{
  ℕ, ◌+◌, ◌*◌, ◌/◌, ◌%◌, ◌≤◌, ◌<◌, ◌≡◌, ◌≢◌, ◌⊎◌, ◌∙◌, ap, inl, inr, arith, true, List, length,
  ==_iff,
}
use mathlib.Core.Path.{subst}
use adflib.Util.{byte, load32, swap_uint32_from_ptr, swap_uint32_to_ptr}
use adflib.Util.ByteOrder.{
  IsBytes, byte-swap_uint32_to_ptr, length-swap_uint32_to_ptr, swap_uint32_to_ptr-IsBytes,
}
use adflib.Raw.{swap_endian, normal_sum}
use adflib.Raw.Swap.{
  flip, long_at, block_size, byte-swap_endian, length-swap_endian, load32-swap_endian, long_at-flip,
  flip-flip,
}
use adflib.Raw.Sums.{normal_sum-to_ptr}
use adflib.Block.{seal, sum_is_valid}

-- A structure of a block in memory.
pub record IsBlock (m : List ℕ) : Type 0 where
  pub whole : length m ≡ 512
  pub bytes : IsBytes m

pub swap_endian-IsBytes :
    (m : List ℕ) (t : ℕ) → t ≤ 11 → block_size t ≤ length m → IsBytes m → IsBytes (swap_endian m t)
swap_endian-IsBytes m t k w b i = ground (arith, byte-swap_endian m t k w i, b i, b (flip i))

-- A type of block, and the place of the checksum among its longs.
pub record IsKind (t off : ℕ) : Type 0 where
  pub known : t ≤ 11
  pub not_boot : t ≢ 0
  pub aligned : off % 4 ≡ 0
  pub fits : off + 3 < 512
  pub long : long_at t off ≡ true

flip-outside :
    (off i : ℕ) → off % 4 ≡ 0 → (i < off) ⊎ (off + 3 < i) → (flip i < off) ⊎ (off + 3 < flip i)
flip-outside off i a (inl h) = inl (omega arith)
flip-outside off i a (inr h) = inr (omega arith)

module _ (t off : ℕ) (kind : IsKind t off) (m : List ℕ) (block : IsBlock m) where
  small : block_size t ≤ length m
  small = ground (arith, kind.not_boot, block.whole)

  swapped-length : length (swap_endian m t) ≡ 512
  swapped-length = length-swap_endian m t kind.known small ∙ block.whole

  pub seal-IsBlock : IsBlock (seal t off m)
  unfolding seal
  seal-IsBlock =
      let buf = swap_endian m t in
      let sum = normal_sum buf off 512 in
      record {
        whole = length-swap_uint32_to_ptr buf off sum ∙ swapped-length;
        bytes =
            swap_uint32_to_ptr-IsBytes buf off sum (omega (arith, swapped-length, kind.fits))
              (swap_endian-IsBytes m t kind.known small block.bytes);
      }

  small' : block_size t ≤ length (seal t off m)
  small' = ground (arith, kind.not_boot, seal-IsBlock.whole)

  sealed_sum : swap_uint32_from_ptr (seal t off m) off ≡ normal_sum (seal t off m) off 512
  unfolding seal
  sealed_sum =
      let e : off / 4 * 4 ≡ off = omega (arith, kind.aligned) in
      let buf = swap_endian m t in
      subst
        (λ (o : ℕ).
          let stored = swap_uint32_to_ptr buf o (normal_sum buf o 512) in
          swap_uint32_from_ptr stored o ≡ normal_sum stored o 512)
        e
        (normal_sum-to_ptr buf (off / 4) 512 (omega (arith, swapped-length, kind.fits))
          (swap_endian-IsBytes m t kind.known small block.bytes))

  -- The reader's test passes.
  pub seal-valid : sum_is_valid (seal t off m) (swap_endian (seal t off m) t) off ≡ true
  unfolding sum_is_valid
  seal-valid = (==_iff _ _).1 (
      load32-swap_endian (seal t off m) t off kind.known small' seal-IsBlock.bytes kind.aligned
        kind.long
      ∙ sealed_sum)

  byte-seal : (i : ℕ) → (i < off) ⊎ (off + 3 < i) → byte (seal t off m) i ≡ byte (swap_endian m t) i
  unfolding seal
  byte-seal i out = ground (
    arith,
    byte-swap_uint32_to_ptr (swap_endian m t) off (normal_sum (swap_endian m t) off 512) i
        (omega (arith, swapped-length, kind.fits)),
  )

  -- Outside the checksum the structure comes back.
  pub byte-unseal :
      (i : ℕ) → (i < off) ⊎ (off + 3 < i) → byte (swap_endian (seal t off m) t) i ≡ byte m i
  byte-unseal i out = ground (
    arith,
    byte-swap_endian (seal t off m) t kind.known small' i,
    byte-seal i out,
    byte-seal (flip i) (flip-outside off i kind.aligned out),
    byte-swap_endian m t kind.known small i,
    byte-swap_endian m t kind.known small (flip i),
    long_at-flip t i kind.known,
    ap (byte m) (flip-flip i),
  )

  pub load32-unseal :
      (i : ℕ) → (i + 3 < off) ⊎ (off + 3 < i) → load32 (swap_endian (seal t off m) t) i ≡ load32 m i
  unfolding load32
  load32-unseal i out =
      ground (arith, byte-unseal i, byte-unseal (i + 1), byte-unseal (i + 2), byte-unseal (i + 3))
