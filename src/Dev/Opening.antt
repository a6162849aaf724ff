-- ===== src/Dev/Opening.antt =====
-- src/adf_dev.c, adfDevOpenWithDrv_: how a device that a driver has opened is classified, with the rigid
-- disk block of a hard disk. The driver's own `openDev` and `isNative` are arguments, and its
-- sectors are read as those of the ramdisk.
use adflib.Prelude.{
  Option, ℕ, Bool, not, ◌&&◌, ◌||◌, List, [], take, none, some, ltb, ◌==◌, if◌then◌else◌, Fault,
  ◌>>?◌,
}
use adflib.Util.{byte, load32}
use adflib.Raw.{swap_endian}
use adflib.Err.{rc_blocksum, Result, ok, err, ◌>>=◌}
use adflib.Dev.{Device, dev_read_block}
use adflib.Dev.Media.{
  DevGeometry, DevClass, class_unknown, class_flop, class_harddisk, class_hardfile, size_of,
  devtype_unknown, dev_type_get_geometry, dev_get_type_by_size_blocks, dev_get_type_by_geometry,
  dev_get_class_by_size_blocks,
}
use adflib.Dev.HdBlocks.{swbl_rdsk, read_rdsk_block}
use adflib.Dev.Hd.{HdDevice}
use adflib.Dev.HdCreate.{dev_size_max_blocks}
use adflib.Block.{Env}

-- The states of `rdb.status` that opening leaves; only the first is below `ADF_DEV_RDB_STATUS_EXIST`.
pub data RdbStatus : Type 0 where
  rdb_notfound rdb_exist rdb_checksumerror rdb_ok rdb_samegeometry : RdbStatus

pub record OpenDevice : Type 0 where
  pub hd : HdDevice
  pub dev_type : ℕ
  pub rdb_status : RdbStatus

-- The status, and the structure of the block where there is one, valid or not.
unfoldable pub dev_read_rdb : Env → Device → Result (RdbStatus × List ℕ)
dev_read_rdb env dev = dev_read_block dev 0 512 >>= λ block.
    if not (
      (byte block 0 == 82)
      && ((byte block 1 == 68) && ((byte block 2 == 83) && (byte block 3 == 75))))
    then ok (rdb_notfound, [])
    else (elim (read_rdsk_block env dev) [
      | ok rdsk ↦ ok (rdb_ok, rdsk)
      | err rc_blocksum ↦ ok (rdb_checksumerror, swap_endian (take 256 block) swbl_rdsk)
      | err rc ↦ ok (rdb_exist, swap_endian (take 256 block) swbl_rdsk)
    ])

-- The type and the geometry for a size.
unfoldable pub dev_set_calculated_geometry : HdDevice → Fault (Option (HdDevice × ℕ))
dev_set_calculated_geometry hd =
    let size_blocks = hd.device.size_blocks in
    let type = dev_get_type_by_size_blocks size_blocks in
    let guessed : HdDevice = record hd {
      geometry = record { cylinders = size_blocks; heads = 1; sectors = 1 };
    } in
    if not (type == devtype_unknown)
    then (dev_type_get_geometry type >>? λ g. some (some (record hd { geometry = g }, type)))
    else (elim hd.dev_class [
      | class_harddisk ↦ some (some (guessed, type))
      | class_hardfile ↦ some (some (guessed, type))
      | class_flop ↦ some none
      | class_unknown ↦ some none
    ])

unfoldable pub dev_is_geometry_valid : DevGeometry → ℕ → Bool
dev_is_geometry_valid g size_blocks = size_blocks == size_of g

unfoldable pub same_geometry : DevGeometry → List ℕ → Bool
same_geometry g rdsk =
    (g.cylinders == load32 rdsk 64)
    && ((g.heads == load32 rdsk 72) && (g.sectors == load32 rdsk 68))

-- A device with the class, geometry and type that its rigid disk block gives it.
unfoldable pub classified : HdDevice → RdbStatus → List ℕ → OpenDevice
classified hd rdb_notfound rdsk =
    let dev_class : DevClass = elim hd.dev_class [
      | class_harddisk ↦ class_hardfile
      | other ↦ other
    ] in
    record {
      hd = record hd { dev_class = dev_class };
      dev_type = dev_get_type_by_geometry hd.geometry;
      rdb_status = rdb_notfound;
    }
classified hd status rdsk =
    let same = same_geometry hd.geometry rdsk in
    let g : DevGeometry = record {
      cylinders = load32 rdsk 64;
      heads = load32 rdsk 72;
      sectors = load32 rdsk 68;
    } in
    record {
      hd = record hd { dev_class = class_harddisk; geometry = if same then hd.geometry else g };
      dev_type = dev_get_type_by_geometry (if same then hd.geometry else g);
      rdb_status = if same then rdb_samegeometry else status;
    }

unfoldable pub dev_open_checked : Env → Bool → HdDevice → ℕ → Option OpenDevice
dev_open_checked env is_native hd type =
    if not (dev_is_geometry_valid hd.geometry hd.device.size_blocks)
      && (is_native || not (type == devtype_unknown))
    then none
    else (elim (dev_read_rdb env hd.device) [
      | err rc ↦ none
      | ok got ↦
          if ltb dev_size_max_blocks hd.device.size_blocks
          then none
          else some (classified hd got.0 got.1)
    ])

-- For a native device the type is what the driver has set.
unfoldable pub dev_open_with_drv : Env → Bool → HdDevice → ℕ → Fault (Option OpenDevice)
dev_open_with_drv env is_native opened type =
    let hd : HdDevice = record opened {
      dev_class = dev_get_class_by_size_blocks opened.device.size_blocks;
    } in
    if is_native
    then some (dev_open_checked env is_native hd type)
    else (dev_set_calculated_geometry hd >>? λ set_up. elim set_up [
      | none ↦ some none
      | some got ↦ some (dev_open_checked env is_native got.0 got.1)
    ])
