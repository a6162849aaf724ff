-- ===== src/Dev/HdCreate.antt =====
-- src/adf_dev.c and adf_dev_driver_ramdisk.c: new devices; src/adf_dev_flop.c, adf_dev_hdfile.c and adf_dev_hd.c:
-- the filesystems that are made on them. What malloc's memory and local variables hold is an argument.
use adflib.Prelude.{
  Option, ℕ, zero, suc, ◌+◌, ◌-◌, ◌*◌, ◌^◌, ◌%◌, Bool, true, false, not, List, [], ◌∷◌, length, map,
  take, replicate, set as put, get_elem?, none, some, ltb, ◌==◌, if◌then◌else◌, Fault, ◌>>?◌,
}
use adflib.Util.{u32, store32}
use adflib.Err.{RetCode, rc_ok, rc_error, ◌>>s◌}
use adflib.Dev.{Device, splice}
use adflib.Dev.Media.{
  DevGeometry, class_harddisk, class_hardfile, size_of, devtype_unknown, dev_get_type_by_geometry,
  dev_get_class_by_size_blocks, dev_type_get_class,
}
use adflib.Dev.HdBlocks.{
  no_block, write_rdsk_block, write_part_block, write_fshd_block, write_lseg_block,
}
use adflib.Dev.Hd.{HdDevice}
use adflib.Vol.{Volume}
use adflib.Vol.Mount.{Memory, Format, vol_create}
use adflib.Dir.{max_name_len}
use adflib.Dir.Create.{Setting}

-- `struct AdfPartition`.
pub record Partition : Type 0 where
  pub start_cyl : ℕ
  pub len_cyl : ℕ
  pub vol_name : List ℕ
  pub vol_type : ℕ

-- `dev` is shared by the volumes of the list.
unfoldable pub with_device : HdDevice → Device → HdDevice
with_device hd dev = record hd {
  device = dev;
  vol_list = map (λ (vol : Volume). record vol { dev = dev }) hd.vol_list;
}

unfoldable pub new_format : HdDevice → ℕ → ℕ → List ℕ → ℕ → Format
new_format hd start len vol_name vol_type = record {
  per_cylinder = hd.geometry.heads * hd.geometry.sectors;
  start = start;
  len = len;
  vol_name = vol_name;
  vol_type = vol_type;
}

-- One volume over `cylinders` cylinders, and whether it was made.
unfoldable pub create_one : Memory → Setting → HdDevice → ℕ → List ℕ → ℕ → Fault (HdDevice × Bool)
create_one mem set hd cylinders vol_name vol_type =
    vol_create mem set hd.device (new_format hd 0 cylinders vol_name vol_type) >>? λ got.
    let hd1 = record hd { device = got.0.dev; vol_list = [] } in
    some (
      if got.1
      then (record hd1 { vol_list = got.0 ∷ []; n_vol = 1; mounted = true }, true)
      else (hd1, false))

unfoldable pub create_flop : Memory → Setting → HdDevice → List ℕ → ℕ → Fault (HdDevice × RetCode)
create_flop mem set hd vol_name vol_type = create_one mem set hd 80 vol_name vol_type >>? λ got.
    some (got.0, if got.1 then rc_ok else rc_error)

unfoldable pub create_hd_file :
    Memory → Setting → HdDevice → List ℕ → ℕ → Fault (HdDevice × RetCode)
create_hd_file mem set hd vol_name vol_type =
    create_one mem set hd hd.geometry.cylinders vol_name vol_type >>? λ got.
    some (if got.1 then (record got.0 { dev_class = class_hardfile }, rc_ok) else (got.0, rc_error))

unfoldable pub new_rdsk : HdDevice → List ℕ
new_rdsk hd =
    let g = hd.geometry in
    let blk1 = store32 (replicate 256 0) 132 (u32 (g.sectors * g.heads * 2 + 2 ^ 32 - 1)) in
    let blk2 = store32 (store32 blk1 136 2) 140 (u32 (g.cylinders + 2 ^ 32 - 1)) in
    let blk3 = store32 (store32 blk2 144 (u32 (g.sectors * g.heads))) 64 g.cylinders in
    let blk4 = store32 (store32 blk3 68 g.sectors) 72 g.heads in
    store32 (store32 (store32 blk4 24 no_block) 28 1) 32 (u32 (1 + hd.n_vol))

unfoldable pub new_part : DevGeometry → Partition → ℕ → List ℕ
new_part g partition next =
    let name = take max_name_len partition.vol_name in
    let part1 = put (store32 (replicate 256 0) 16 next) 36 (length name) in
    let part2 = store32 (store32 (splice part1 37 name) 140 g.heads) 148 g.sectors in
    let part3 = store32 part2 164 partition.start_cyl in
    let part4 = store32 part3 168 (u32 (partition.start_cyl + partition.len_cyl + 2 ^ 32 - 1)) in
    splice part4 192 (68 ∷ 79 ∷ 83 ∷ (partition.vol_type % 2) ∷ [])

-- The loop over the partitions, with the number of those left; fewer than that are read past the list.
unfoldable pub write_parts :
    DevGeometry → ℕ → List Partition → ℕ → Device → Fault (Device × RetCode)
write_parts g zero parts j dev = some (dev, rc_ok)
write_parts g (suc left) [] j dev = none
write_parts g (suc left) (partition ∷ parts) j dev =
    let next = if left == 0 then no_block else j + 1 in
    write_part_block dev j (new_part g partition next) >>s λ dev'.
    write_parts g left parts (j + 1) dev'

-- What `fshd` and `lseg` hold before the assignments, since they are not cleared.
pub record Uncleared : Type 0 where
  pub fshd_found : List ℕ
  pub lseg_found : List ℕ

unfoldable pub new_fshd : Uncleared → ℕ → ℕ → List ℕ
new_fshd found vol_type j =
    store32 (store32 (splice found.fshd_found 32 (68 ∷ 79 ∷ 83 ∷ vol_type ∷ [])) 16 no_block) 72
      (j + 1)

unfoldable pub create_hd_header : Uncleared → HdDevice → List Partition → Fault (Device × RetCode)
create_hd_header found hd parts =
    let j = 1 + hd.n_vol in
    write_rdsk_block hd.device (new_rdsk hd) >>s λ dev1.
    write_parts hd.geometry hd.n_vol parts 1 dev1 >>? λ listed. listed >>s λ dev2.
    get_elem? parts 0 >>? λ partition.
    write_fshd_block dev2 j (new_fshd found partition.vol_type j) >>s λ dev3.
    some (write_lseg_block dev3 (j + 1) (store32 found.lseg_found 16 no_block))

-- The volumes of all partitions. After a failed `adfVolCreate` the list is freed, and written again.
unfoldable pub create_volumes :
    Memory → Setting → HdDevice → List Partition → Device → Fault (Device × List Volume)
create_volumes mem set hd [] dev = some (dev, [])
create_volumes mem set hd (p ∷ parts) dev =
    vol_create mem set dev (new_format hd p.start_cyl p.len_cyl p.vol_name p.vol_type) >>? λ got.
    if not got.1
    then none
    else (create_volumes mem set hd parts got.0.dev >>? λ rest. some (rest.0, got.0 ∷ rest.1))

unfoldable pub create_hd :
    Memory → Setting → Uncleared → HdDevice → List Partition → Fault (HdDevice × RetCode)
create_hd mem set found hd parts = create_volumes mem set hd parts hd.device >>? λ made.
    let hd1 = record hd {
      device = made.0;
      dev_class = class_harddisk;
      vol_list = made.1;
      n_vol = length parts;
      mounted = true;
    } in
    create_hd_header found hd1 parts >>? λ got. some (with_device hd1 got.0, got.1)

-- `ramdiskCreate`; `memory n` is what `malloc( n )` gives. The size asked for is the square of the number of
-- blocks.
unfoldable pub ramdisk_create : (ℕ → List ℕ) → DevGeometry → Fault HdDevice
ramdisk_create memory g =
    let size_blocks = size_of g in
    let type = dev_get_type_by_geometry g in
    (if not (type == devtype_unknown)
      then dev_type_get_class type
      else some (dev_get_class_by_size_blocks size_blocks))
    >>? λ dev_class.
        let dev : Device = record {
          read_only = false;
          size_blocks = size_blocks;
          drv_data = memory (size_blocks * size_blocks);
        } in
        some (record {
          device = dev;
          geometry = g;
          dev_class = dev_class;
          mounted = false;
          n_vol = 0;
          vol_list = [];
        })

-- `INT32_MAX`, on a host whose `long` has 64 bits.
abbrev pub dev_size_max_blocks : ℕ
dev_size_max_blocks = 2 ^ 31 - 1

-- `adfDevCreate` of a ramdisk; `none` inside is NULL.
unfoldable pub dev_create : (ℕ → List ℕ) → DevGeometry → Fault (Option HdDevice)
dev_create memory g =
    if ltb dev_size_max_blocks (size_of g)
    then some none
    else (ramdisk_create memory g >>? λ hd. some (some hd))
