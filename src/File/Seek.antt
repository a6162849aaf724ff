-- ===== src/File/Seek.antt =====
-- src/adf_file.c, `adfFileSeek` with its helpers, and `adfFileReadExtBlockN`. `adfFileSeek` and
-- `adfFileSeekEOF_` call each other: `depth` bounds how deep, and two levels are enough. Memory is always
-- there for `malloc`.
use adflib.Prelude.{
  ℕ, zero, suc, ◌+◌, ◌-◌, ◌/◌, ◌%◌, ◌^◌, min, false, not, ◌&&◌, List, none, some, ltb, leb, ◌==◌,
  if◌then◌else◌, ◌>>?◌, Fault,
}
use adflib.Util.{u32}
use adflib.Err.{RetCode, rc_ok, rc_error, rc_blockoutofrange, rc_blockread, is_ok, ◌>>s◌}
use adflib.Vol.{Volume, vol_is_ofs}
use adflib.Block.{Env, below}
use adflib.File.{max_datablk, FilePos, file_size2_extblocks, file_pos2_data_block}
use adflib.File.Handle.{
  AdfFile, Context, byte_size, data_block, extension, data_into, ext_into, ext_memory,
  file_read_next_block,
}
use adflib.File.Flush.{file_flush}

-- The block read last, after `n` more blocks of the chain; a chain that is too short is an error.
unfoldable pub read_ext_chain : Env → Volume → ℕ → ℕ → List ℕ → List ℕ × RetCode
read_ext_chain env vol zero n_sect fext = (fext, rc_ok)
read_ext_chain env vol (suc n) n_sect fext =
    let (fext1, rc) = ext_into env vol n_sect fext in
    let rest = read_ext_chain env vol n (extension fext1) fext1 in
    if n_sect == 0 then (fext, rc_blockread) else (if is_ok rc then rest else (fext1, rc_blockread))

-- `adfFileReadExtBlockN` into `fext`.
unfoldable pub file_read_ext_block_n : Env → AdfFile → ℕ → List ℕ → List ℕ × RetCode
file_read_ext_block_n env file ext_block fext =
    if leb (file_size2_extblocks (byte_size file.file_hdr) file.volume.datablock_size) ext_block
    then (fext, rc_blockoutofrange)
    else read_ext_chain env file.volume (suc ext_block) (extension file.file_hdr) fext

-- `file->curDataPtr = 0`, which says that the data in the buffer is not valid.
abbrev pub invalidate : AdfFile → AdfFile
invalidate file = record file { cur_data_ptr = 0 }

unfoldable pub file_seek_start : Context → AdfFile → Fault (AdfFile × RetCode)
file_seek_start ctx file =
    let start : AdfFile = record file {
      pos = 0;
      pos_in_ext_blk = 0;
      pos_in_data_blk = 0;
      n_data_block = 0;
      cur_data_ptr = 0;
    } in
    if byte_size file.file_hdr == 0
    then some (start, rc_ok)
    else (file_read_next_block ctx start >>? λ r.
        let (file1, rc) = r in some (if is_ok rc then file1 else invalidate file1, rc))

-- The last data block's bytes in use, and a position in it.
abbrev pub last_part : ℕ → ℕ → ℕ
last_part size block_size = if size % block_size == 0 then block_size else size % block_size

module _ (ctx : Context) where
  -- The end of `adfFileSeekExt_`: the data block found is read. The code of the read is not returned.
  unfoldable pub seek_block : AdfFile → AdfFile × RetCode
  seek_block file =
      let (data', rc) = data_into ctx.env file.volume file.cur_data_ptr file.current_data in
      if below file.cur_data_ptr 2 then (file, rc_error) else (
        record file {
          current_data = data';
          cur_data_ptr = if is_ok rc then file.cur_data_ptr else 0;
          n_data_block = suc file.n_data_block;
        },
        rc_ok,
      )

  -- The data block of a place in extension block `e`.
  unfoldable pub seek_in_ext : AdfFile → ℕ → AdfFile × RetCode
  seek_in_ext file e =
      let (x, rc) = file_read_ext_block_n ctx.env file e (ext_memory ctx file) in
      let file1 : AdfFile = record file { current_ext = some x } in
      if is_ok rc
      then seek_block (record file1 {
        cur_data_ptr = data_block x (max_datablk - 1 - file.pos_in_ext_blk);
        pos_in_ext_blk = suc file.pos_in_ext_blk;
      })
      else (invalidate file1, rc_error)

  unfoldable pub seek_place : AdfFile → FilePos → AdfFile × RetCode
  seek_place file place =
      let file1 : AdfFile = record file {
        pos_in_ext_blk = place.pos_in_ext_blk;
        pos_in_data_blk = place.pos_in_data_blk;
        n_data_block = place.cur_data_n;
      } in
      elim place.ext_block [
        | none ↦ seek_block (record file1 {
          cur_data_ptr = data_block file.file_hdr (max_datablk - 1 - place.cur_data_n);
        })
        | some e ↦ seek_in_ext file1 e
      ]

-- The position moved from the last byte to the end.
unfoldable pub to_eof : AdfFile → Fault (AdfFile × RetCode)
to_eof file =
    let size = byte_size file.file_hdr in
    let part = last_part size file.volume.datablock_size in
    if leb part file.volume.datablock_size
    then some (record file { pos = size; pos_in_data_blk = part }, rc_ok)
    else none

module _ (ctx : Context) (seek : AdfFile → ℕ → Fault (AdfFile × RetCode)) where
  -- The seek to the last byte is a call of `adfFileSeek`.
  unfoldable pub file_seek_eof : AdfFile → Fault (AdfFile × RetCode)
  file_seek_eof file =
      let size = byte_size file.file_hdr in
      if size == 0
      then file_seek_start ctx file
      else (seek file (size - 1) >>? λ r. r >>s λ file1. to_eof file1)

  -- The loop over the data blocks of `adfFileSeekOFS_`.
  unfoldable pub seek_ofs_loop : ℕ → AdfFile → ℕ → ℕ → Fault (AdfFile × RetCode)
  seek_ofs_loop zero file pos offset = none
  seek_ofs_loop (suc fuel) file pos offset =
      let block_size = file.volume.datablock_size in
      let size = min (pos - offset) (u32 (block_size + 2 ^ 32 - file.pos_in_data_blk)) in
      let file1 : AdfFile = record file {
        pos = u32 (file.pos + size);
        pos_in_data_blk = file.pos_in_data_blk + size;
      } in
      let here = seek_ofs_loop fuel file1 pos (offset + size) in
      if leb pos offset
      then some (file, rc_ok)
      else (if (file1.pos_in_data_blk == block_size) && ltb (offset + size) pos
          then (file_read_next_block ctx file1 >>? λ r.
              let (file2, rc) = r in
              let rest =
                seek_ofs_loop fuel (record file2 { pos_in_data_blk = 0 }) pos (offset + size) in
              if is_ok rc then rest else some (invalidate file2, rc_error))
          else here)

  unfoldable pub file_seek_ofs : AdfFile → ℕ → Fault (AdfFile × RetCode)
  file_seek_ofs file pos = file_seek_start ctx file >>? λ r.
      let file1 : AdfFile = record r.0 { pos = min pos (byte_size r.0.file_hdr) } in
      if file1.pos == byte_size file1.file_hdr
      then file_seek_eof file1
      else seek_ofs_loop (suc pos) file1 pos 0

  unfoldable pub file_seek_ext : AdfFile → ℕ → Fault (AdfFile × RetCode)
  file_seek_ext file pos =
      let file1 : AdfFile = record file { pos = min pos (byte_size file.file_hdr) } in
      if file1.pos == byte_size file.file_hdr
      then file_seek_eof file1
      else some (seek_place ctx file1 (file_pos2_data_block file1.pos file.volume.datablock_size))

-- A changed block is written before another takes its place; the code of the write is not looked at.
unfoldable pub seek_flush : Context → AdfFile → Fault AdfFile
seek_flush ctx file =
    if file.mode_write && file.current_data_block_changed
    then (file_flush ctx file >>? λ r. some (record r.0 { current_data_block_changed = false }))
    else some file

-- `adfFileSeek` where the position is not in the current block.
unfoldable pub seek_away :
    Context → (AdfFile → ℕ → Fault (AdfFile × RetCode)) → AdfFile → ℕ → Fault (AdfFile × RetCode)
seek_away ctx seek file pos = seek_flush ctx file >>? λ file1.
    if pos == 0
    then file_seek_start ctx file1
    else (file_seek_ext ctx seek file1 pos >>? λ r.
        if not (is_ok r.1) && vol_is_ofs r.0.volume then file_seek_ofs ctx seek r.0 pos else some r)

unfoldable pub file_seek : ℕ → Context → AdfFile → ℕ → Fault (AdfFile × RetCode)
file_seek zero ctx file pos = none
file_seek (suc depth) ctx file pos =
    let block_size = file.volume.datablock_size in
    let new_pos = min pos (byte_size file.file_hdr) in
    let away = seek_away ctx (file_seek depth ctx) file pos in
    if (file.pos == pos) && not (file.cur_data_ptr == 0)
    then some (file, rc_ok)
    else (if not (file.cur_data_ptr == 0) && (file.n_data_block - 1 == pos / block_size)
        then some (record file { pos = new_pos; pos_in_data_blk = new_pos % block_size }, rc_ok)
        else away)

-- A seek to the end of the file leads to one more.
abbrev pub seek_depth : ℕ
seek_depth = 2
