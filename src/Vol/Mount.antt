-- ===== src/Vol/Mount.antt =====
-- src/adf_vol.c: mounting, unmounting and making a volume. The volume is in the device's list; where a
-- function returns NULL the result is `false`. What an allocator gives is an argument, `Memory`.
use adflib.Prelude.{
  ℕ, ◌+◌, ◌-◌, ◌*◌, Bool, true, false, not, ◌||◌, List, ◌∷◌, ◌++◌, length, get_elem?, set as put,
  take, replicate, none, some, ◌==◌, if◌then◌else◌, ◌>>?◌, Fault,
}
use adflib.Util.{u32, store32}
use adflib.Err.{RetCode, rc_ok, rc_error, ok, err, is_ok}
use adflib.Dev.{Device}
use adflib.Vol.{
  Volume, Bitmap, BitmapMap, dos, AccessMode, mode_readonly, mode_readwrite, vol_is_dos_fs,
  vol_is_ofs, vol_calc_root_blk, vol_remount, dos_fs_has_dircache,
}
use adflib.Block.{st_root, read_root_block, write_root_block}
use adflib.Block.Boot.{write_boot_block}
use adflib.Bitmap.{bitmap_allocate, create_bitmap, get_free_blocks}
use adflib.Bitmap.Disk.{
  free_bitmap, read_bitmap, update_bitmap, write_new_bitmap, vol_bitmap_is_marked_valid,
}
use adflib.Cache.Chain.{create_empty_cache}
use adflib.Dir.{max_name_len}
use adflib.Dir.Create.{Setting}
use adflib.Dir.Check.{dir_check}

-- What allocated memory holds at first.
pub record Memory : Type 0 where
  pub map_found : ℕ → BitmapMap
  pub block_found : ℕ → ℕ
  pub chg_found : ℕ → Bool
  pub bitme : List ℕ
  pub bitmap_found : Bitmap
  pub datablock_size_found : ℕ

abbrev pub is_readwrite : AccessMode → Bool
is_readwrite mode_readwrite = true
is_readwrite mode_readonly = false

unfoldable pub vol_un_mount : Volume → Volume
vol_un_mount vol = record (free_bitmap vol) { mounted = false }

-- The volume as `adfVolMount_` sets it up before it reads the root block.
unfoldable pub set_up : Volume → AccessMode → Volume
set_up vol mode = record vol {
  mounted = true;
  datablock_size = if vol_is_ofs vol then 488 else 512;
  read_only = vol.dev.read_only || not (is_readwrite mode);
}

-- `adfVolMount_` of a volume of the list.
unfoldable pub vol_mount_one : Memory → Setting → Volume → AccessMode → Fault (Volume × Bool)
vol_mount_one mem set vol mode =
    let vol1 = set_up vol mode in
    if not (vol_is_dos_fs vol)
    then some (vol, false)
    else elim (read_root_block set.env vol1 vol1.root_block) [
      | err rc ↦ some (record vol1 { mounted = false }, false)
      | ok root ↦
          let vol2 = bitmap_allocate mem.map_found mem.block_found mem.chg_found vol1 in
          read_bitmap set.chain set.env vol2 root >>? λ got.
          let (vol3, rc) = got in
          some (
            if is_ok rc
            then (record vol3 { cur_dir_ptr = vol3.root_block }, true)
            else (vol_un_mount vol3, false))
    ]

unfoldable pub vol_check_filesystem : Setting → Volume → Fault RetCode
vol_check_filesystem set vol = dir_check set vol true vol.root_block >>? λ n_errors. some (
    if u32 (n_errors + (if vol_bitmap_is_marked_valid set.env vol then 0 else 1)) == 0
    then rc_ok
    else rc_error)

-- `adfVolMount` of a volume of the list. For reading and writing it checks the volume that it got, without
-- a test that it got one.
unfoldable pub vol_mount_checked : Memory → Setting → Volume → AccessMode → Fault (Volume × Bool)
vol_mount_checked mem set vol mode = vol_mount_one mem set vol mode_readonly >>? λ got. elim mode [
  | mode_readonly ↦ some got
  | mode_readwrite ↦
      if not got.1
      then none
      else (vol_check_filesystem set got.0 >>? λ rc.
          if not (is_ok rc)
          then some (vol_un_mount got.0, false)
          else (let (vol1, rc1) = vol_remount got.0 mode_readwrite in
              some (if is_ok rc1 then (vol1, true) else (vol_un_mount vol1, false))))
]

-- `adfVolMount` with the device's list of volumes.
unfoldable pub vol_mount :
    Memory → Setting → List Volume → ℕ → AccessMode → Fault (List Volume × Bool)
vol_mount mem set vols n_part mode = elim (get_elem? vols n_part) [
  | none ↦ elim mode [ mode_readonly ↦ some (vols, false) | mode_readwrite ↦ none ]
  | some vol ↦ vol_mount_checked mem set vol mode >>? λ got. some (put vols n_part got.0, got.1)
]

-- `adfVolCreate`: the geometry's `heads * sectors`, the first cylinder and how many, the name and the type.
pub record Format : Type 0 where
  pub per_cylinder : ℕ
  pub start : ℕ
  pub len : ℕ
  pub vol_name : List ℕ
  pub vol_type : ℕ

-- The volume that it sets up. The bitmap and the size of data blocks are not set.
unfoldable pub new_volume : Device → Bitmap → ℕ → Format → Volume
new_volume dev bitmap datablock_size format =
    let first = format.per_cylinder * format.start in
    let vol : Volume = record {
      dev = dev;
      first_block = first;
      last_block = first + format.per_cylinder * format.len - 1;
      root_block = 0;
      fs_id = dos;
      fs_type = format.vol_type;
      read_only = dev.read_only;
      datablock_size = datablock_size;
      mounted = true;
      bitmap = bitmap;
      cur_dir_ptr = 0;
    } in
    record vol { root_block = vol_calc_root_blk vol; cur_dir_ptr = vol_calc_root_blk vol }

unfoldable pub new_boot : Volume → Format → List ℕ
new_boot vol format = store32 (0 ∷ 0 ∷ 0 ∷ format.vol_type ∷ replicate 1020 0) 8 vol.root_block

unfoldable pub new_root : Setting → Format → List ℕ
new_root set format =
    let name = take max_name_len format.vol_name in
    let n = length name in
    let root = replicate 432 0 ++ (n ∷ (name ++ replicate (79 - n) 0)) in
    store32 (store32 (store32 root 484 set.now.day) 488 set.now.min) 492 set.now.ticks

-- The root block of the new volume, its cache block first; the code that the cache gives is not looked at.
unfoldable pub write_new_root : Setting → Volume → List ℕ → List ℕ → Fault (Volume × RetCode)
write_new_root set vol blk_list root = get_elem? blk_list 0 >>? λ n_root.
    if dos_fs_has_dircache vol.fs_type
    then (get_elem? blk_list 1 >>? λ n_cache.
        create_empty_cache vol (store32 (store32 root 504 0) 508 st_root) (some n_cache)
        >>? λ cached. some (write_root_block cached.0.0 n_root cached.0.1))
    else some (write_root_block vol n_root root)

-- The blocks of the root are not tested to be there: without them the list that is read was never set.
unfoldable pub vol_create : Memory → Setting → Device → Format → Fault (Volume × Bool)
vol_create mem set dev format =
    let vol = new_volume dev mem.bitmap_found mem.datablock_size_found format in
    let (vol1, rc) = write_boot_block vol (new_boot vol format) in
    if not (is_ok rc)
    then some (vol1, false)
    else (create_bitmap mem.map_found mem.block_found mem.chg_found vol1 >>? λ vol2.
        get_free_blocks vol2 (if dos_fs_has_dircache vol2.fs_type then 2 else 1) >>? λ got.
        got.1 >>? λ blk_list. write_new_root set got.0 blk_list (new_root set format) >>? λ rooted.
        if not (is_ok rooted.1)
        then some (rooted.0, false)
        else (write_new_bitmap mem.bitme set.env rooted.0 >>? λ mapped.
            if not (is_ok mapped.1)
            then some (mapped.0, false)
            else (let (vol3, rc3) = update_bitmap set.env set.now mapped.0 in
                some (if is_ok rc3 then (vol_un_mount vol3, true) else (vol3, false)))))
