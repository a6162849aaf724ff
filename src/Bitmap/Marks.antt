-- ===== src/Bitmap/Marks.antt =====
-- The bitmap as a set of free blocks: testing, freeing and allocating a block of the volume.
use adflib.Prelude.{
  ℕ, ◌-◌, ◌%◌, ◌^◌, ◌<◌, ◌≤◌, ◌≡◌, refl, ◌∙◌, arith, bit_and, bit_or, Bool, true, false, ◌&&◌, [],
  length, get_or, set, length-set, get_or-set, get_or-set_self, get_elem?-eq-get_or, some, ◌==◌,
  ==_iff, Bool-cases, inl, inr, if◌then◌else◌,
}
use adflib.Prelude.Bits.{bit_at}
use adflib.Vol.{Volume, Bitmap}
use adflib.Bitmap.{
  n_block2bitmap_size, block_of_map, index_in_map, mask_of, long_of, with_long, is_block_free,
  set_block_free, set_block_used,
}
use adflib.Bitmap.Bits.{and-mask, bit_at-or_mask, bit_at-and_rest}

-- A bitmap that covers the volume.
pub record IsBitmap (vol : Volume) : Type 0 where
  pub sized : vol.bitmap.size ≡ n_block2bitmap_size (vol.last_block - vol.first_block - 1)
  pub tables : length vol.bitmap.table ≡ vol.bitmap.size
  pub flags : length vol.bitmap.blocks_chg ≡ vol.bitmap.size
  pub maps : (b : ℕ) → b < vol.bitmap.size → length (get_or vol.bitmap.table b []) ≡ 127

-- The blocks that the bitmap speaks of.
abbrev pub InBitmap : Volume → ℕ → Type 0
InBitmap vol n = (2 ≤ n) × (n ≤ vol.last_block - vol.first_block)

abbrev word : Bitmap → ℕ → ℕ
word bitmap n = get_or (get_or bitmap.table (block_of_map n) []) (index_in_map n) 0

-- Whether the bitmap has the block free.
abbrev pub free_in : Volume → ℕ → Bool
free_in vol n = bit_at (word vol.bitmap n) ((n - 2) % 32) == 1

module _ (vol : Volume) (w : IsBitmap vol) where
  table-in : (n : ℕ) → InBitmap vol n → block_of_map n < vol.bitmap.size
  unfolding n_block2bitmap_size
  table-in n (low, high) = ground (arith, w.sized)

  long_of-word : (n : ℕ) → InBitmap vol n → long_of vol.bitmap n ≡ some (word vol.bitmap n)
  unfolding long_of
  long_of-word n h =
      let t = table-in n h in
      let found =
        get_elem?-eq-get_or vol.bitmap.table (block_of_map n) [] (omega (arith, t, w.tables)) in
      rw found (
        get_elem?-eq-get_or (get_or vol.bitmap.table (block_of_map n) []) (index_in_map n) 0
          (omega (arith, w.maps (block_of_map n) t)))

  -- Testing a block of the volume is inside the tables.
  pub is_block_free-eq : (n : ℕ) → InBitmap vol n → is_block_free vol n ≡ some (free_in vol n)
  unfolding is_block_free
  is_block_free-eq n h =
      ground (arith, h, long_of-word n h, and-mask (word vol.bitmap n) ((n - 2) % 32) (omega arith))

module _ (bitmap : Bitmap) (n v : ℕ) (t : block_of_map n < length bitmap.table)
    (q : length (get_or bitmap.table (block_of_map n) []) ≡ 127) where
  word-with_long :
      (k : ℕ)
      → word (with_long bitmap n v) k ≡ (
          if (block_of_map n == block_of_map k) && (index_in_map n == index_in_map k)
          then v
          else word bitmap k)
  unfolding with_long
  word-with_long k =
      let b = block_of_map n in
      let old = get_or bitmap.table b [] in
      let new = set old (index_in_map n) v in
      let outer = get_or-set bitmap.table b (block_of_map k) new [] t in
      elim (Bool-cases (b == block_of_map k)) [
        | inl e ↦
            let same : b ≡ block_of_map k = (==_iff _ _).0 e in
            let inner = get_or-set old (index_in_map n) (index_in_map k) v 0 (omega (arith, q)) in
            rw (outer, e, ← same) inner
        | inr e ↦ rw (outer, e) refl
      ]

-- A block is known by its place.
place_injective :
    (n k : ℕ)
    → 2 ≤ n
    → 2 ≤ k
    → block_of_map n ≡ block_of_map k
    → index_in_map n ≡ index_in_map k
    → (n - 2) % 32 ≡ (k - 2) % 32
    → n ≡ k
place_injective n k h q b i r = omega arith

-- The bits of the other blocks stay when the long of a block gets another bit in the block's place.
module _ (vol : Volume) (w : IsBitmap vol) (n v : ℕ) (h : InBitmap vol n) (bit : ℕ)
    (updated : (j : ℕ)
      → j < 32
      → bit_at v j ≡ (if (n - 2) % 32 == j then bit else bit_at (word vol.bitmap n) j)) where
  abbrev changed : Volume
  changed = record vol { bitmap = with_long vol.bitmap n v }

  free_in-with_long :
      (k : ℕ) → InBitmap vol k → free_in changed k ≡ (if n == k then bit == 1 else free_in vol k)
  free_in-with_long k (low, high) =
      let t = table-in vol w n h in
      let (low_n, high_n) = h in
      ground (
        arith,
        word-with_long vol.bitmap n v (omega (arith, t, w.tables)) (w.maps (block_of_map n) t) k,
        updated ((k - 2) % 32) (omega arith),
        place_injective n k low_n low,
      )

  with_long-IsBitmap : IsBitmap changed
  unfolding with_long
  with_long-IsBitmap = record {
    sized = w.sized;
    tables = length-set vol.bitmap.table _ _ ∙ w.tables;
    flags = length-set vol.bitmap.blocks_chg _ _ ∙ w.flags;
    maps = λ b q. ground (
      arith,
      get_or-set vol.bitmap.table (block_of_map n) b
          (set (get_or vol.bitmap.table (block_of_map n) []) (index_in_map n) v) []
          (omega (arith, table-in vol w n h, w.tables)),
      length-set (get_or vol.bitmap.table (block_of_map n) []) (index_in_map n) v,
      w.maps b q,
      w.maps (block_of_map n) (table-in vol w n h),
    );
  }

-- `vol'` is `vol` with block `n` marked as free (`b`) or used, and the map of the block marked as changed.
pub record IsMarked (vol vol' : Volume) (n : ℕ) (b : Bool) : Type 0 where
  pub rest : vol' ≡ record vol { bitmap = vol'.bitmap }
  pub well : IsBitmap vol'
  pub bits : (k : ℕ) → InBitmap vol k → free_in vol' k ≡ (if n == k then b else free_in vol k)
  pub changed_flag : get_or vol'.bitmap.blocks_chg (block_of_map n) false ≡ true

module _ (vol : Volume) (w : IsBitmap vol) (n : ℕ) (h : InBitmap vol n) where
  flag_set : (v : ℕ) → get_or (with_long vol.bitmap n v).blocks_chg (block_of_map n) false ≡ true
  unfolding with_long
  flag_set v =
      get_or-set_self vol.bitmap.blocks_chg (block_of_map n) true false
        (omega (arith, table-in vol w n h, w.flags))

  -- On a volume whose bitmap covers it, `adfSetBlockFree` of a block of the volume from 2 on succeeds:
  -- the block is then free, no other block has changed, nothing but the bitmap has, the bitmap still
  -- covers the volume, and the block's map is marked as changed.
  pub set_block_free_lem :
      (vol' : Volume) × (set_block_free vol n ≡ some vol') × IsMarked vol vol' n true
  unfolding set_block_free
  set_block_free_lem =
      let v = bit_or (word vol.bitmap n) (mask_of n) in
      let bits = λ (j : ℕ) (q : j < 32).
        bit_at-or_mask (word vol.bitmap n) ((n - 2) % 32) j (omega arith) q in
      (
        changed vol w n v h 1 bits,
        ground (arith, h, long_of-word vol w n h),
        record {
          rest = refl;
          well = with_long-IsBitmap vol w n v h 1 bits;
          bits = free_in-with_long vol w n v h 1 bits;
          changed_flag = flag_set v;
        },
      )

  -- On a volume whose bitmap covers it, `adfSetBlockUsed` of a block of the volume from 2 on succeeds:
  -- the block is then used, no other block has changed, nothing but the bitmap has, the bitmap still
  -- covers the volume, and the block's map is marked as changed.
  pub set_block_used_lem :
      (vol' : Volume) × (set_block_used vol n ≡ some vol') × IsMarked vol vol' n false
  unfolding set_block_used
  set_block_used_lem =
      let v = bit_and (word vol.bitmap n) (2 ^ 32 - 1 - mask_of n) in
      let bits = λ (j : ℕ) (q : j < 32).
        bit_at-and_rest (word vol.bitmap n) ((n - 2) % 32) j (omega arith) q in
      (
        changed vol w n v h 0 bits,
        ground (arith, h, long_of-word vol w n h),
        record {
          rest = refl;
          well = with_long-IsBitmap vol w n v h 0 bits;
          bits = free_in-with_long vol w n v h 0 bits;
          changed_flag = flag_set v;
        },
      )
