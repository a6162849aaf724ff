-- ===== src/File/Write.antt =====
-- src/adf_file.c, `adfFileWrite`, `adfFileCreateNextBlock` and `adfFileWriteFilled`. Memory is always there
-- for `malloc`; an index past an array, or an extension block that is not there, stops the program.
use adflib.Prelude.{
  ℕ, zero, suc, ◌+◌, ◌-◌, ◌*◌, ◌%◌, ◌^◌, min, max, true, false, not, ◌||◌, List, ◌++◌, length, take,
  drop, replicate, none, some, ltb, leb, ◌==◌, if◌then◌else◌, ◌>>?◌, Fault,
}
use adflib.Util.{u32, load32, store32}
use adflib.Err.{RetCode, rc_ok, rc_volfull, is_ok, ◌>>s◌}
use adflib.Vol.{vol_is_ofs}
use adflib.Bitmap.{get1_free_block}
use adflib.Cache.Chain.{header_key}
use adflib.File.{max_datablk}
use adflib.File.Handle.{AdfFile, Context, byte_size, data_start, file_read_next_block}
use adflib.File.Flush.{write_ext, write_current, file_flush}
use adflib.File.Seek.{invalidate}

-- `block->dataBlocks[ ADF_MAX_DATABLK - 1 - i ] = n_sect; block->highSeq++`
unfoldable pub name_block : List ℕ → ℕ → ℕ → Fault (List ℕ)
name_block block i n_sect =
    if ltb i max_datablk
    then (let named = store32 block (24 + 4 * (max_datablk - 1 - i)) n_sect in
        some (store32 named 8 (u32 (load32 named 8 + 1))))
    else none

-- A new block of the volume for a file, or its end with `ADF_RC_VOLFULL`.
unfoldable pub take_block :
    AdfFile → (AdfFile → ℕ → Fault (AdfFile × RetCode)) → Fault (AdfFile × RetCode)
take_block file next = get1_free_block file.volume >>? λ got.
    let file1 : AdfFile = record file { volume = got.0 } in
    elim got.1 [ none ↦ some (file1, rc_volfull) | some n_sect ↦ next file1 n_sect ]

-- All of `dataBlocks[]` set to 0.
abbrev pub no_blocks : List ℕ → List ℕ
no_blocks block = take 24 block ++ (replicate 288 0 ++ drop 312 block)

-- A new extension block, in `x`.
unfoldable pub new_ext : AdfFile → List ℕ → ℕ → AdfFile
new_ext file x ext_sect =
    let x1 = store32 (no_blocks x) 4 ext_sect in
    let x2 = store32 x1 500 (header_key file.file_hdr) in
    record file { current_ext = some (store32 (store32 x2 8 0) 504 0); pos_in_ext_blk = 0 }

-- The extension block for the next data block, if it needs one: the first is named in the header, another
-- in the one before, which is written. The code of that write is not looked at.
unfoldable pub create_ext : Context → AdfFile → Fault (AdfFile × RetCode)
create_ext ctx file =
    if not (file.n_data_block % max_datablk == 0)
    then some (file, rc_ok)
    else take_block file (λ file1 ext_sect.
      let linked : AdfFile = record file1 {
        current_ext = some ctx.fresh;
        file_hdr = store32 file1.file_hdr 504 ext_sect;
      } in
      if file1.n_data_block == max_datablk
      then some (new_ext linked ctx.fresh ext_sect, rc_ok)
      else (file1.current_ext >>? λ x.
          if ltb file1.n_data_block (2 * max_datablk)
          then some (new_ext file1 x ext_sect, rc_ok)
          else (let file2 = (write_ext file1 (store32 x 504 ext_sect)).0 in
              file2.current_ext >>? λ x2. some (new_ext file2 x2 ext_sect, rc_ok))))

-- The sector of the next data block, named where it belongs.
unfoldable pub create_named :
    Context → AdfFile → (AdfFile → ℕ → Fault (AdfFile × RetCode)) → Fault (AdfFile × RetCode)
create_named ctx file next =
    if ltb file.n_data_block max_datablk
    then take_block file (λ file1 n_sect.
      let hdr =
        if file1.n_data_block == 0 then store32 file1.file_hdr 16 n_sect else file1.file_hdr in
      name_block hdr file1.n_data_block n_sect >>? λ hdr1.
      next (record file1 { file_hdr = hdr1 }) n_sect)
    else (create_ext ctx file >>? λ r. r >>s λ file1. take_block file1 (λ file2 n_sect.
        file2.current_ext >>? λ x. name_block x file2.pos_in_ext_blk n_sect >>? λ x1.
        next (record file2 { current_ext = some x1; pos_in_ext_blk = suc file2.pos_in_ext_blk })
          n_sect))

-- The block in the buffer is written, if it is not the first that is made, and the buffer cleared. The
-- code of the write is not looked at.
unfoldable pub create_data : AdfFile → ℕ → AdfFile
create_data file n_sect =
    let old = leb file.volume.datablock_size file.pos in
    if vol_is_ofs file.volume
    then (let linked : AdfFile = record file {
      current_data = store32 file.current_data 16 n_sect;
    } in
        let file1 = if old then (write_current linked).0 else file in
        let data' =
          take 24 file1.current_data
          ++ (replicate file.volume.datablock_size 0
              ++ drop (24 + file.volume.datablock_size) file1.current_data) in
        let data' = store32 (store32 data' 8 (u32 (file1.n_data_block + 1))) 12 0 in
        record file1 { current_data = store32 (store32 data' 16 0) 4 (header_key file1.file_hdr) })
    else (if old then record ((write_current file).0) { current_data = replicate 512 0 } else file)

unfoldable pub file_create_next_block : Context → AdfFile → Fault (AdfFile × RetCode)
file_create_next_block ctx file = create_named ctx file (λ file1 n_sect.
    let file2 = create_data file1 n_sect in
    some (record file2 { cur_data_ptr = n_sect; n_data_block = suc file2.n_data_block }, rc_ok))

-- The step of the loop of `adfFileWrite` that goes on to another block: a new one at the end of the file,
-- and else the next.
unfoldable pub write_turn : Context → AdfFile → Fault (AdfFile × RetCode)
write_turn ctx file =
    if not (file.pos % file.volume.datablock_size == 0)
    then some (file, rc_ok)
    else (if file.pos == byte_size file.file_hdr
        then (file_create_next_block ctx file >>? λ r.
            (record r.0 { current_data_block_changed = false }, r.1) >>s λ file1.
            some (record file1 { pos_in_data_blk = 0 }, rc_ok))
        else (if not (file.pos_in_data_blk == file.volume.datablock_size)
            then some (record file { pos_in_data_blk = 0 }, rc_ok)
            else (let flushed : Fault AdfFile =
                  if file.current_data_block_changed
                  then (file_flush ctx file >>? λ r.
                      some (record r.0 { current_data_block_changed = false }))
                  else some file in
                flushed >>? λ file1. file_read_next_block ctx file1 >>? λ r. some (
                  if is_ok r.1
                  then (record r.0 { pos_in_data_blk = 0 }, rc_ok)
                  else (invalidate r.0, r.1)))))

-- `memcpy( block + at, buf, length buf )`
abbrev pub put_at : List ℕ → ℕ → List ℕ → List ℕ
put_at block at buf = take at block ++ (buf ++ drop (at + length buf) block)

-- The step that copies into the buffer, with the bytes to go.
unfoldable pub write_copy : AdfFile → List ℕ → AdfFile × ℕ
write_copy file buf =
    let size =
      min (length buf) (u32 (file.volume.datablock_size + 2 ^ 32 - file.pos_in_data_blk)) in
    let pos' = u32 (file.pos + size) in
    let in_blk = file.pos_in_data_blk + size in
    let data' =
      put_at file.current_data (data_start file.volume + file.pos_in_data_blk) (take size buf) in
    (
      record file {
        pos = pos';
        pos_in_data_blk = in_blk;
        current_data_block_changed = true;
        current_data =
            if vol_is_ofs file.volume
            then store32 data' 12 (max (load32 data' 12) in_blk)
            else data';
        file_hdr = store32 file.file_hdr 324 (max (byte_size file.file_hdr) pos');
      },
      size,
    )

-- The loop: the file, and the number of bytes that were written.
unfoldable pub write_loop : ℕ → Context → AdfFile → List ℕ → ℕ → Fault (AdfFile × ℕ)
write_loop zero ctx file buf written = none
write_loop (suc fuel) ctx file buf written =
    if length buf == 0
    then some (file, written)
    else (write_turn ctx file >>? λ r.
        let (file1, rc) = r in
        let (file2, size) = write_copy file1 buf in
        let rest = write_loop fuel ctx file2 (drop size buf) (written + size) in
        if is_ok rc then rest else some (file1, written))

unfoldable pub file_write : Context → AdfFile → List ℕ → Fault (AdfFile × ℕ)
file_write ctx file buf =
    if not file.mode_write || (length buf == 0)
    then some (file, 0)
    else write_loop (suc (length buf)) ctx file buf 0

-- `adfFileWriteFilled`, in pieces of 4096 bytes.
unfoldable pub write_filled_loop : ℕ → Context → AdfFile → ℕ → ℕ → ℕ → Fault (AdfFile × ℕ)
write_filled_loop zero ctx file fill_value size written = none
write_filled_loop (suc fuel) ctx file fill_value size written =
    let chunk_len = min size 4096 in
    if size == 0
    then some (file, written)
    else (file_write ctx file (replicate chunk_len fill_value) >>? λ r.
        let rest = write_filled_loop fuel ctx r.0 fill_value (size - chunk_len) (written + r.1) in
        if r.1 == chunk_len then rest else some (r.0, written + r.1))

unfoldable pub file_write_filled : Context → AdfFile → ℕ → ℕ → Fault (AdfFile × ℕ)
file_write_filled ctx file fill_value size = write_filled_loop (suc size) ctx file fill_value size 0
