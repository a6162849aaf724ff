-- ===== src/File/Flush.antt =====
-- src/adf_file.c, `adfFileFlush`: the current blocks and the header of a file are written, then the record
-- of the file in the directory cache and the bitmap. Each part is a step that returns a code.
use adflib.Prelude.{
  ℕ, false, not, ◌&&◌, ◌||◌, none, some, List, leb, ◌==◌, if◌then◌else◌, ◌>>?◌, Fault,
}
use adflib.Util.{load32, store32}
use adflib.Err.{RetCode, rc_ok, ok, err, ◌>>s◌}
use adflib.Date.{AmigaTime}
use adflib.Vol.{vol_is_ofs, vol_has_dircache}
use adflib.Block.{
  below, t_data, stamp_file_hdr, stamp_file_ext, read_entry_block, write_data_block,
  write_file_ext_block, write_file_hdr_block,
}
use adflib.Bitmap.Disk.{update_bitmap}
use adflib.Cache.Chain.{header_key, update_cache}
use adflib.File.Handle.{AdfFile, Context, byte_size}

-- `adfWriteFileExtBlock` of the current extension block.
unfoldable pub write_ext : AdfFile → List ℕ → AdfFile × RetCode
write_ext file x =
    let (vol', rc) = write_file_ext_block file.volume (header_key x) x in
    (record file { volume = vol'; current_ext = some (stamp_file_ext x) }, rc)

-- `adfWriteDataBlock` of the current data block.
unfoldable pub write_current : AdfFile → AdfFile × RetCode
write_current file =
    let (vol', rc) = write_data_block file.volume file.cur_data_ptr file.current_data in
    (
      record file {
        volume = vol';
        current_data =
            if vol_is_ofs file.volume && not (below file.cur_data_ptr 1)
            then store32 file.current_data 0 t_data
            else file.current_data;
      },
      rc,
    )

unfoldable pub flush_ext : AdfFile → AdfFile × RetCode
flush_ext file = elim file.current_ext [ none ↦ (file, rc_ok) | some x ↦ write_ext file x ]

-- The size of the data of an OFS block is set to the position in it.
unfoldable pub flush_data : AdfFile → Fault (AdfFile × RetCode)
flush_data file =
    if (byte_size file.file_hdr == 0) || (file.cur_data_ptr == 0)
    then some (file, rc_ok)
    else (if not (vol_is_ofs file.volume)
        then some (write_current file)
        else (if leb file.pos_in_data_blk file.volume.datablock_size
            then some (
                write_current (record file {
                  current_data = store32 file.current_data 12 file.pos_in_data_blk;
                }))
            else none))

unfoldable pub flush_hdr : AmigaTime → AdfFile → AdfFile × RetCode
flush_hdr now file =
    let hdr = store32 (store32 (store32 file.file_hdr 420 now.day) 424 now.min) 428 now.ticks in
    let (vol', rc) = write_file_hdr_block file.volume (header_key hdr) hdr in
    (record file { volume = vol'; file_hdr = stamp_file_hdr hdr }, rc)

unfoldable pub flush_cache : Context → AdfFile → Fault (AdfFile × RetCode)
flush_cache ctx file =
    if not (vol_has_dircache file.volume)
    then some (file, rc_ok)
    else elim (read_entry_block ctx.env file.volume (load32 file.file_hdr 500)) [
      | err rc ↦ some (file, rc)
      | ok parent ↦
          update_cache ctx.env ctx.now ctx.chain file.volume parent file.file_hdr false >>? λ r.
          some (record file { volume = r.0 }, r.1)
    ]

unfoldable pub flush_bitmap : Context → AdfFile → AdfFile × RetCode
flush_bitmap ctx file =
    let (vol', rc) = update_bitmap ctx.env ctx.now file.volume in
    (record file { volume = vol' }, rc)

unfoldable pub file_flush : Context → AdfFile → Fault (AdfFile × RetCode)
file_flush ctx file =
    if not file.mode_write
    then some (file, rc_ok)
    else (flush_ext file >>s λ file1. flush_data file1 >>? λ r. r >>s λ file2.
        flush_hdr ctx.now file2 >>s λ file3.
        flush_cache ctx file3 >>? λ s. s >>s λ file4. some (flush_bitmap ctx file4))
