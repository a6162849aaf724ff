-- ===== src/File/Truncate.antt =====
-- src/adf_file.c, `adfFileTruncate` and `adfFileTruncateGetBlocksToRemove`. The vector of the source is a
-- list, with its room beside it; what does not fit stops the program. The loop over the extension blocks
-- is on fuel: each turn puts one block into the vector, so that its room is enough.
use adflib.Prelude.{
  ℕ, zero, suc, ◌+◌, ◌-◌, ◌*◌, ◌/◌, ◌%◌, Bool, true, not, ◌&&◌, ◌||◌, List, [], ◌∷◌, ◌++◌, length,
  none, some, ltb, leb, ◌==◌, if◌then◌else◌, ◌>>?◌, Fault,
}
use adflib.Util.{store32}
use adflib.Err.{RetCode, rc_ok, rc_error, Result, ok, err, is_ok, ◌>>s◌, ◌>>=◌}
use adflib.Vol.{Volume, vol_is_ofs}
use adflib.Block.{Env, below, read_file_ext_block}
use adflib.Bitmap.Disk.{update_bitmap}
use adflib.File.{max_datablk, file_size2_datablocks, file_datablocks2_extblocks}
use adflib.File.Handle.{AdfFile, Context, byte_size, data_block, extension}
use adflib.File.Seek.{last_part, file_read_ext_block_n, file_seek, seek_depth}
use adflib.File.Write.{no_blocks, file_write_filled}
use adflib.File.Blocks.{set_all_free}

-- `dataBlocks[ ADF_MAX_DATABLK - i ]` for `n` values of `i`, from 1 on; outside the array it stops.
unfoldable pub blocks_from : List ℕ → ℕ → ℕ → Fault (List ℕ)
blocks_from block i zero = some []
blocks_from block i (suc n) =
    let rest = blocks_from block (suc i) n in
    if leb 1 i && leb i max_datablk
    then (rest >>? λ more. some (data_block block (max_datablk - i) ∷ more))
    else none

-- For `i` from `first` to `last`.
abbrev pub blocks_to : List ℕ → ℕ → ℕ → Fault (List ℕ)
blocks_to block first last = blocks_from block first (suc last - first)

-- The last data block that extension block `e` of a file names: its place in the array.
abbrev pub last_in_ext : ℕ → ℕ → ℕ
last_in_ext n_data e =
    if n_data - max_datablk * suc e == max_datablk then max_datablk else n_data % max_datablk

-- All blocks are in use.
abbrev pub all_in_use : List ℕ → Bool
all_in_use [] = true
all_in_use (b ∷ rest) = not (below b 1) && all_in_use rest

-- The extension blocks after the new last one, with the data blocks they name, into a vector with `room`.
unfoldable pub ext_to_remove : ℕ → ℕ → Env → Volume → ℕ → ℕ → ℕ → ℕ → Fault (Result (List ℕ))
ext_to_remove zero room env vol n_data n_ext e next_ext =
    if next_ext == 0 then some (ok []) else none
ext_to_remove (suc fuel) room env vol n_data n_ext e next_ext =
    if next_ext == 0 then some (ok []) else elim (read_file_ext_block env vol next_ext) [
      | err rc ↦ some (err rc)
      | ok ext_block ↦
          let last = if suc e == n_ext then last_in_ext n_data e else max_datablk in
          blocks_to ext_block 1 last >>? λ here.
          let used = length here + 1 in
          let rest =
            ext_to_remove fuel (room - used) env vol n_data n_ext (suc e) (extension ext_block) in
          if not (all_in_use here) || ltb room used
          then none
          else (rest >>? λ more. elim more [
            | err rc ↦ some (err rc)
            | ok m ↦ some (ok (here ++ (next_ext ∷ m)))
          ])
    ]

-- The data blocks to remove of the new last extension block `e`, counted from 0.
unfoldable pub partly_removed : List ℕ → ℕ → ℕ → ℕ → ℕ → Fault (List ℕ)
partly_removed ext_block n_old n_new ext_old ext_new =
    if ltb 0 (n_new / max_datablk) && not (n_new % max_datablk == 0)
    then (let first =
          if n_new - max_datablk * ext_new == max_datablk
          then max_datablk
          else n_new % max_datablk + 1 in
        let last = if ext_new == ext_old then last_in_ext n_old (ext_new - 1) else max_datablk in
        blocks_to ext_block first last)
    else some []

-- The vector is full, or the blocks found are not as many as the sizes tell.
unfoldable pub checked_removed : ℕ → Result (List ℕ) → Fault (Result (List ℕ))
checked_removed room (err rc) = some (err rc)
checked_removed room (ok blocks) =
    if ltb room (length blocks)
    then none
    else some (if length blocks == room then ok blocks else err rc_error)

-- The blocks of the first array that is cut, and those of the extension blocks after it.
unfoldable pub removed_after :
    Env → Volume → ℕ → ℕ → ℕ → ℕ → Fault (List ℕ) → ℕ → Fault (Result (List ℕ))
removed_after env vol room n_old ext_old ext_new first next_ext = first >>? λ here.
    ext_to_remove room (room - length here) env vol n_old ext_old ext_new next_ext >>? λ more.
    if ltb room (length here) then none else some (more >>= λ m. ok (here ++ m))

unfoldable pub truncate_get_blocks_to_remove : Context → AdfFile → ℕ → Fault (Result (List ℕ))
truncate_get_blocks_to_remove ctx file size_new =
    let vol = file.volume in
    let n_old = file_size2_datablocks (byte_size file.file_hdr) vol.datablock_size in
    let n_new = file_size2_datablocks size_new vol.datablock_size in
    let ext_old = file_datablocks2_extblocks n_old in
    let ext_new = file_datablocks2_extblocks n_new in
    let room = n_old + ext_old - (n_new + ext_new) in
    let (x, rc) = file_read_ext_block_n ctx.env file (ext_new - 1) ctx.fresh in
    if ltb (byte_size file.file_hdr) size_new || (room == 0)
    then some (ok [])
    else ((if ext_old == 0
          then (blocks_to file.file_hdr (n_new + 1) n_old >>? λ here. some (ok here))
          else if ext_new == 0
          then removed_after ctx.env vol room n_old ext_old ext_new
              (blocks_to file.file_hdr (n_new + 1) max_datablk) (extension file.file_hdr)
          else if is_ok rc
          then removed_after ctx.env vol room n_old ext_old ext_new
              (partly_removed x n_old n_new ext_old ext_new) (extension x)
          else some (err rc))
        >>? λ found. checked_removed room found)

-- `dataBlocks[ ADF_MAX_DATABLK - 1 - i ] = 0` for `n` values of `i`; outside the array it stops.
unfoldable pub clear_blocks : List ℕ → ℕ → ℕ → Fault (List ℕ)
clear_blocks block i zero = some block
clear_blocks block i (suc n) =
    let rest = clear_blocks (store32 block (24 + 4 * (max_datablk - 1 - i)) 0) (suc i) n in
    if ltb i max_datablk then rest else none

-- The array that names the new last data block, in the header or an extension block: what is behind it is
-- cleared, and the block is the last.
unfoldable pub cut_array : ℕ → ℕ → List ℕ → Fault (List ℕ)
cut_array n_old n_new block =
    let ext_old = file_datablocks2_extblocks n_old in
    let ext_new = file_datablocks2_extblocks n_new in
    let first = n_new % max_datablk in
    let last =
      if ltb ext_new ext_old || (n_old % max_datablk == 0)
      then max_datablk - 1
      else n_old % max_datablk in
    let ended = λ (b : List ℕ). some (store32 b 504 0) in
    if first == 0
    then ended block
    else (clear_blocks block first (suc last - first) >>? λ cleared.
        ended (store32 cleared 8 first))

abbrev pub cut_empty : AdfFile → AdfFile
cut_empty file =
    let hdr = no_blocks (store32 (store32 file.file_hdr 324 0) 16 0) in
    record file { file_hdr = store32 (store32 hdr 8 0) 504 0 }

-- The metadata of a file that is shortened to `size_new`, which is not 0. The new last data block is in the
-- buffer, and its extension block.
unfoldable pub cut_to : AdfFile → ℕ → Fault AdfFile
cut_to file size_new =
    let vol = file.volume in
    let n_old = file_size2_datablocks (byte_size file.file_hdr) vol.datablock_size in
    let n_new = file_size2_datablocks size_new vol.datablock_size in
    let hdr = store32 file.file_hdr 324 size_new in
    let data' =
      if vol_is_ofs vol
      then store32 (store32 file.current_data 12 (last_part size_new vol.datablock_size)) 16 0
      else file.current_data in
    let file1 : AdfFile = record file {
      file_hdr = hdr;
      current_data = data';
      current_data_block_changed = true;
    } in
    if leb n_new max_datablk
    then (cut_array n_old n_new hdr >>? λ hdr1. some (record file1 { file_hdr = hdr1 }))
    else (file.current_ext >>? λ x.
        cut_array n_old n_new x >>? λ x1. some (record file1 { current_ext = some x1 }))

unfoldable pub enlarge : Context → AdfFile → ℕ → Fault (AdfFile × RetCode)
enlarge ctx file size_new =
    let size_old = byte_size file.file_hdr in
    file_seek seek_depth ctx file size_old >>? λ r. r >>s λ file1.
    if not (file1.pos == byte_size file1.file_hdr)
    then none
    else (file_write_filled ctx file1 0 (size_new - size_old) >>? λ w.
        some (w.0, if size_new - size_old == w.1 then rc_ok else rc_error))

unfoldable pub shorten : Context → AdfFile → ℕ → Fault (AdfFile × RetCode)
shorten ctx file size_new = truncate_get_blocks_to_remove ctx file size_new >>? λ got. elim got [
  | err rc ↦ some (file, rc)
  | ok blocks ↦ file_seek seek_depth ctx file size_new >>? λ r. r >>s λ file1.
      if not (file1.pos == size_new)
      then none
      else ((if size_new == 0 then some (cut_empty file1) else cut_to file1 size_new) >>? λ file2.
          set_all_free blocks file2.volume >>? λ vol1.
          let (vol2, rc) = update_bitmap ctx.env ctx.now vol1 in
          some (record file2 { volume = vol2 }, rc))
]

unfoldable pub file_truncate : Context → AdfFile → ℕ → Fault (AdfFile × RetCode)
file_truncate ctx file size_new =
    if not file.mode_write
    then some (file, rc_error)
    else if size_new == byte_size file.file_hdr
    then file_seek seek_depth ctx file size_new
    else if ltb (byte_size file.file_hdr) size_new
    then enlarge ctx file size_new
    else shorten ctx file size_new
