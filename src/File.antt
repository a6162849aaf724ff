-- ===== src/File.antt =====
-- src/adf_file_util.h and adf_file_util.c: how many blocks a file takes, and where a position of a file
-- lies among them. The numbers are `unsigned`.
pub mod Layout
pub mod Handle
pub mod Flush
pub mod Seek
pub mod Write
pub mod Blocks
pub mod Truncate
pub mod WriteBack
pub mod Open
pub mod Opening
pub mod Listing
pub mod Freeing
pub mod Content
pub mod Copy
pub mod Load
pub mod Next
pub mod Reading
pub mod Place
pub mod Positions
pub mod SeekInside
pub mod Seeking
use adflib.Prelude.{
  ℕ, ◌+◌, ◌-◌, ◌*◌, ◌/◌, ◌%◌, ◌^◌, Bool, true, false, Option, none, some, ltb, ◌==◌, if◌then◌else◌,
}
use adflib.Util.{u32}

abbrev pub max_datablk : ℕ
max_datablk = 72

unfoldable pub file_pos2datablock_index : ℕ → ℕ → ℕ
file_pos2datablock_index pos blocksize = pos / blocksize

unfoldable pub file_size2_datablocks : ℕ → ℕ → ℕ
file_size2_datablocks fsize blocksize =
    u32 (fsize / blocksize + (if ltb 0 (fsize % blocksize) then 1 else 0))

unfoldable pub file_datablocks2_extblocks : ℕ → ℕ
file_datablocks2_extblocks ndatablocks =
    if ltb ndatablocks 1 then 0 else (ndatablocks - 1) / max_datablk

unfoldable pub file_size2_extblocks : ℕ → ℕ → ℕ
file_size2_extblocks fsize blocksize =
    file_datablocks2_extblocks (file_size2_datablocks fsize blocksize)

unfoldable pub file_size2_blocks : ℕ → ℕ → ℕ
file_size2_blocks fsize blocksize =
    let data_blocks = file_size2_datablocks fsize blocksize in
    let ext_blocks = file_datablocks2_extblocks data_blocks in u32 (data_blocks + ext_blocks + 1)

-- The outputs of `adfFilePos2DataBlock`; its result -1 is `none`.
pub record FilePos : Type 0 where
  pub ext_block : Option ℕ
  pub pos_in_ext_blk : ℕ
  pub pos_in_data_blk : ℕ
  pub cur_data_n : ℕ

unfoldable pub file_pos2_data_block : ℕ → ℕ → FilePos
file_pos2_data_block pos block_size =
    let pos_in_data_blk = pos % block_size in
    let cur_data_n = pos / block_size in
    if ltb cur_data_n max_datablk
    then record {
      ext_block = none;
      pos_in_ext_blk = 0;
      pos_in_data_blk = pos_in_data_blk;
      cur_data_n = cur_data_n;
    }
    else (let data_size_by_ext_block = u32 (block_size * max_datablk) in
        let offset_in_ext = u32 (pos + 2 ^ 32 - data_size_by_ext_block) in
        record {
          ext_block = some (offset_in_ext / data_size_by_ext_block);
          pos_in_ext_blk = offset_in_ext / block_size % max_datablk;
          pos_in_data_blk = pos_in_data_blk;
          cur_data_n = cur_data_n;
        })

-- The result of `adfFileRealSize` with its outputs `dataN` and `extN`.
unfoldable pub file_real_size : ℕ → ℕ → ℕ × ℕ × ℕ
file_real_size size block_size =
    let full = size / block_size in
    let data_n = if size % block_size == 0 then full else u32 (full + 1) in
    let over = data_n - max_datablk in
    let ext =
      if ltb max_datablk data_n
      then (if over % max_datablk == 0 then over / max_datablk else over / max_datablk + 1)
      else 0 in
    (u32 (ext + data_n + 1), data_n, ext)
