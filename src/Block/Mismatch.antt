-- ===== src/Block/Mismatch.antt =====
-- A block that is read as one kind and written as another: `adfCreateEntry` and `adfRenameEntry`
-- (src/adf_dir.c) read the root block as an entry and write it as a root block.
use adflib.Prelude.{
  ℕ, ◌+◌, ◌⊎◌, ◌≤◌, ◌<◌, ◌≡◌, refl, ◌∙◌, arith, true, false, ◌&&◌, leb, ltb, List, length,
  if◌then◌else◌,
}
use adflib.Prelude.Loops.{all_below, all_below_sound}
use adflib.Util.{byte, store32}
use adflib.Util.ByteOrder.{byte-swap_uint32_to_ptr}
use adflib.Raw.{swap_endian, normal_sum}
use adflib.Raw.Swap.{flip, long_at, in_long, byte-swap_endian, length-swap_endian}
use adflib.Block.{seal}
use adflib.Block.Seal.{IsBlock}
use adflib.Block.Members.{byte-store32}

-- The places where the root block has longs and the entry block characters.
root_not_entry :
    all_below 512 (λ i.
      if leb 328 i && ltb i 420 then long_at 1 i && (if long_at 3 i then false else true) else true)
    ≡ true
unfolding all_below in_long
root_not_entry = refl

longs : (i : ℕ) → 328 ≤ i → i < 420 → (long_at 1 i ≡ true) × (long_at 3 i ≡ false)
longs i h q = ground (
  arith,
  all_below_sound 512
      (λ i.
        if leb 328 i && ltb i 420
        then long_at 1 i && (if long_at 3 i then false else true)
        else true)
      i root_not_entry,
)

-- What a root block's writer makes of a structure that has these bytes from an entry.
pub seal-root_read_as_entry :
    (buf m : List ℕ) (i : ℕ)
    → length buf ≡ 512
    → IsBlock m
    → ((j : ℕ) → 328 ≤ j → j < 420 → byte m j ≡ byte (swap_endian buf 3) j)
    → 328 ≤ i
    → i < 420
    → byte (seal 1 20 m) i ≡ byte buf (flip i)
unfolding seal
seal-root_read_as_entry buf m i w b same h q =
    let ws : length (swap_endian m 1) ≡ 512 =
      length-swap_endian m 1 (omega arith) (omega (arith, b.whole)) ∙ b.whole in
    ground (
      arith,
      byte-swap_uint32_to_ptr (swap_endian m 1) 20 (normal_sum (swap_endian m 1) 20 512) i
          (omega (arith, ws)),
      byte-swap_endian m 1 (omega arith) (omega (arith, b.whole)) i,
      same (flip i),
      byte-swap_endian buf 3 (omega arith) (omega (arith, w)) (flip i),
      longs i h q,
      longs (flip i),
    )

-- A long outside the bitmap pointers leaves them.
pub byte-outside :
    (m : List ℕ) (p val j : ℕ)
    → IsBlock m
    → p + 3 < 512
    → (p + 3 < 328) ⊎ (419 < p)
    → 328 ≤ j
    → j < 420
    → byte (store32 m p val) j ≡ byte m j
byte-outside m p val j b fits out h q =
    ground (arith, byte-store32 m p val j (omega (arith, b.whole)), out)
