-- ===== src/Dev.antt =====
-- src/adf_dev.c, adfDevReadBlock and adfDevWriteBlock, over the driver of src/adf_dev_driver_ramdisk.c.
-- The other drivers keep their blocks in files and devices of the operating system.
pub mod Blocks
pub mod Media
pub mod HdBlocks
pub mod Hd
pub mod HdCreate
pub mod Opening
pub mod HdSeal
pub mod HdTrip
use adflib.Prelude.{
  ℕ, ◌+◌, ◌-◌, ◌*◌, ◌/◌, ◌%◌, Bool, List, ◌++◌, length, take, drop, replicate, ltb, ◌==◌,
  if◌then◌else◌,
}
use adflib.Util.{u32}
use adflib.Err.{RetCode, rc_ok, rc_error, Result, ok, err, ◌>>=◌}

abbrev pub dev_block_size : ℕ
dev_block_size = 512

-- The members of `struct AdfDevice` that reading and writing use; `geometry.blockSize` is
-- `ADF_DEV_BLOCK_SIZE`, and `drv_data` is the memory that `drvData` points to.
pub record Device : Type 0 where
  pub read_only : Bool
  pub size_blocks : ℕ
  pub drv_data : List ℕ

-- `memcpy( mem + at, buf, length buf )`.
abbrev pub splice : List ℕ → ℕ → List ℕ → List ℕ
splice mem at buf = take at mem ++ (buf ++ drop (at + length buf) mem)

unfoldable pub ramdisk_read_sectors : Device → ℕ → ℕ → Result (List ℕ)
ramdisk_read_sectors dev block len =
    if ltb dev.size_blocks (u32 (block + len))
    then err rc_error
    else ok (take (u32 (dev_block_size * len)) (drop (u32 (block * dev_block_size)) dev.drv_data))

unfoldable pub ramdisk_write_sectors : Device → ℕ → ℕ → List ℕ → Device × RetCode
ramdisk_write_sectors dev block len buf =
    if ltb dev.size_blocks (u32 (block + len)) then (dev, rc_error) else (
      record dev {
        drv_data =
            splice dev.drv_data (u32 (block * dev_block_size))
              (take (u32 (dev_block_size * len)) buf);
      },
      rc_ok,
    )

unfoldable pub dev_read_block : Device → ℕ → ℕ → Result (List ℕ)
dev_read_block dev p_sect size =
    let full_blocks = size / dev_block_size in
    let remainder = size % dev_block_size in
    ramdisk_read_sectors dev p_sect full_blocks >>= λ buf.
    if remainder == 0
    then ok buf
    else (ramdisk_read_sectors dev (u32 (p_sect + full_blocks)) 1 >>= λ block_buf.
        ok (buf ++ take remainder block_buf))

-- The last, partial block, filled up with zeros.
unfoldable pub write_remainder : Device → ℕ → ℕ → List ℕ → Device × RetCode
write_remainder dev p_sect remainder rest =
    ramdisk_write_sectors dev p_sect 1
      (take remainder rest ++ replicate (dev_block_size - remainder) 0)

-- After the full blocks.
unfoldable pub finish_write : ℕ → ℕ → List ℕ → Device × RetCode → Device × RetCode
finish_write p_sect size buf (dev', rc_ok) =
    let remainder = size % dev_block_size in
    if remainder == 0
    then (dev', rc_ok)
    else write_remainder dev' (u32 (p_sect + size / dev_block_size)) remainder
        (drop (size - remainder) buf)
finish_write p_sect size buf (dev', rc) = (dev', rc)

unfoldable pub dev_write_block : Device → ℕ → ℕ → List ℕ → Device × RetCode
unfolding finish_write
dev_write_block dev p_sect size buf =
    finish_write p_sect size buf (ramdisk_write_sectors dev p_sect (size / dev_block_size) buf)
