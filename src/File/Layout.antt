-- ===== src/File/Layout.antt =====
-- The layout of a file: the two counts of its blocks agree, and a position is that of one byte of one block.
use adflib.Prelude.{
  ℕ, ◌+◌, ◌*◌, ◌/◌, ◌^◌, ◌<◌, ◌≡◌, ◌⊎◌, inl, inr, refl, arith, Option, none, some, ltb, Bool-cases,
  tests,
}
use adflib.File.{
  file_pos2datablock_index, file_size2_datablocks, file_datablocks2_extblocks, file_size2_extblocks,
  file_size2_blocks, FilePos, file_pos2_data_block, file_real_size,
}

-- The sizes that a data block has: 488 bytes under OFS, 512 under FFS.
abbrev pub IsDataSize : ℕ → Type 0
IsDataSize n = (n ≡ 488) ⊎ (n ≡ 512)

-- For each 32-bit size of a file and data blocks of 488 or 512 bytes, `adfFileRealSize` gives the
-- counts of blocks, data blocks and extension blocks of the functions in adf_file_util.h.
pub file_real_size-eq :
    (size block_size : ℕ)
    → size < 2 ^ 32
    → IsDataSize block_size
    → file_real_size size block_size ≡ (
      file_size2_blocks size block_size,
      file_size2_datablocks size block_size,
      file_size2_extblocks size block_size,
    )
unfolding file_real_size file_size2_blocks file_size2_extblocks file_size2_datablocks
    file_datablocks2_extblocks
file_real_size-eq size bs h (inl e) = rw e (ground arith)
file_real_size-eq size bs h (inr e) = rw e (ground arith)

-- The index of a data block, from its extension block, or the header, and its place in it.
abbrev pub IsPlaced : Option ℕ → ℕ → ℕ → Type 0
IsPlaced none i n = (n < 72) × (i ≡ 0)
IsPlaced (some ext) i n = n ≡ 72 + 72 * ext + i

-- What a place found for position `pos` has to be.
pub record IsPlace (pos block_size : ℕ) (p : FilePos) : Type 0 where
  pub in_block : p.pos_in_data_blk < block_size
  pub in_file : pos ≡ block_size * p.cur_data_n + p.pos_in_data_blk
  pub in_ext : p.pos_in_ext_blk < 72
  pub placed : IsPlaced p.ext_block p.pos_in_ext_blk p.cur_data_n

-- For each 32-bit position of a file and data blocks of 488 or 512 bytes, `adfFilePos2DataBlock` gives
-- the data block and the byte in it that the position is, and stands that block in the header if it is
-- one of the first 72, and otherwise at its place in its extension block; the block is the one of
-- `adfFilePos2datablockIndex`.
pub file_pos2_data_block_lem :
    (pos block_size : ℕ)
    → pos < 2 ^ 32
    → IsDataSize block_size
    → IsPlace pos block_size (file_pos2_data_block pos block_size)
      × (file_pos2datablock_index pos block_size ≡ (file_pos2_data_block pos block_size).cur_data_n)
unfolding file_pos2_data_block file_pos2datablock_index
file_pos2_data_block_lem pos bs h (inl e) = rw e (elim (Bool-cases (ltb (pos / 488) 72)) [
  | inl b ↦ rw b (
    record {
      in_block = omega arith;
      in_file = omega arith;
      in_ext = omega arith;
      placed = (omega (tests, b), refl);
    },
    refl,
  )
  | inr b ↦ rw b (
    record {
      in_block = omega arith;
      in_file = omega arith;
      in_ext = omega arith;
      placed = ground (arith, b);
    },
    refl,
  )
])
file_pos2_data_block_lem pos bs h (inr e) = rw e (elim (Bool-cases (ltb (pos / 512) 72)) [
  | inl b ↦ rw b (
    record {
      in_block = omega arith;
      in_file = omega arith;
      in_ext = omega arith;
      placed = (omega (tests, b), refl);
    },
    refl,
  )
  | inr b ↦ rw b (
    record {
      in_block = omega arith;
      in_file = omega arith;
      in_ext = omega arith;
      placed = ground (arith, b);
    },
    refl,
  )
])
