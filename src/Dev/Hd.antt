-- ===== src/Dev/Hd.antt =====
-- src/adf_dev_flop.c, adf_dev_hdfile.c, adf_dev_hd.c and adf_dev.c: the volumes of floppy disks, hard files and
-- hard disks. Names of volumes are left out when they are read, allocation succeeds, and what the
-- memory of a new volume holds is an argument. A list that was freed is empty. Partitions end after
-- they begin.
use adflib.Prelude.{
  ℕ, zero, suc, ◌+◌, ◌-◌, ◌*◌, ◌/◌, ◌^◌, Bool, true, false, not, ◌&&◌, List, [], ◌∷◌, length, none,
  some, ltb, leb, ◌==◌, if◌then◌else◌, Fault, ◌>>?◌,
}
use adflib.Util.{byte, u32, load32, swap_uint32_from_ptr}
use adflib.Raw.{swap_endian}
use adflib.Err.{RetCode, rc_ok, rc_error, Result, ok, err, ◌>>=◌, is_ok}
use adflib.Dev.{Device, dev_read_block, ramdisk_read_sectors}
use adflib.Dev.Media.{
  DevGeometry, DevClass, class_unknown, class_flop, class_harddisk, class_hardfile, size_of,
}
use adflib.Dev.HdBlocks.{
  no_block, read_rdsk_block, read_part_block, read_fshd_block, read_lseg_block, swbl_fshd,
}
use adflib.Vol.{Volume, FsId, dos, pfs, other_fs, vol_is_dos_fs, vol_is_ofs, vol_calc_root_blk}
use adflib.Block.{Env, t_header, st_root, read_root_block}
use adflib.Block.Boot.{swbl_boot}

-- `struct AdfDevice`, with `drvData`, `readOnly` and `sizeBlocks` in `device`.
pub record HdDevice : Type 0 where
  pub device : Device
  pub geometry : DevGeometry
  pub dev_class : DevClass
  pub mounted : Bool
  pub n_vol : ℕ
  pub vol_list : List Volume

-- The three characters of the filesystem at the start of a boot block.
unfoldable pub fs_id_of : List ℕ → FsId
fs_id_of boot =
    if (byte boot 0 == 68) && ((byte boot 1 == 79) && (byte boot 2 == 83))
    then dos
    else if (byte boot 0 == 80) && ((byte boot 1 == 70) && (byte boot 2 == 83))
    then pfs
    else other_fs

-- A volume with the filesystem of the boot block that was read.
unfoldable pub with_fs : Volume → List ℕ → Volume
with_fs vol boot = record vol { fs_id = fs_id_of boot; fs_type = byte boot 3 }

unfoldable pub with_data_size : Volume → Volume
with_data_size vol = record vol { datablock_size = if vol_is_ofs vol then 488 else 512 }

-- Whether the root block can be read from a place. The volume is mounted for that.
unfoldable pub root_at : Env → Volume → ℕ → RetCode
root_at env vol n_root =
    elim (read_root_block env (record vol { mounted = true; root_block = n_root }) n_root) [
      | err rc ↦ rc
      | ok root ↦ rc_ok
    ]

-- The root block of a floppy disk: where the boot block says, or in the middle.
unfoldable pub flop_root : Env → Volume → ℕ → Result ℕ
flop_root env vol named =
    let middle = vol_calc_root_blk vol in
    if ltb 1 named && (ltb named (2 ^ 31) && is_ok (root_at env vol named))
    then ok named
    else elim (root_at env vol middle) [ rc_ok ↦ ok middle | rc ↦ err rc ]

unfoldable pub one_volume : HdDevice → Volume → HdDevice
one_volume hd vol = record hd { n_vol = 1; vol_list = vol ∷ [] }

unfoldable pub flop_volume : Volume → HdDevice → Volume
flop_volume found hd = record found {
  first_block = 0;
  last_block = u32 (size_of hd.geometry + 2 ^ 32 - 1);
  dev = hd.device;
  mounted = false;
}

unfoldable pub mount_flop : Env → Volume → HdDevice → HdDevice × RetCode
mount_flop env found hd = elim (dev_read_block hd.device 0 512) [
  | err rc ↦ (hd, rc)
  | ok boot ↦
      let vol = with_fs (flop_volume found hd) boot in
      if not (vol_is_dos_fs vol)
      then (one_volume hd (record vol { datablock_size = 0; root_block = no_block }), rc_ok)
      else (elim (flop_root env (with_data_size vol) (load32 (swap_endian boot swbl_boot) 8)) [
        | err rc ↦ (hd, rc)
        | ok n_root ↦ (one_volume hd (record (with_data_size vol) { root_block = n_root }), rc_ok)
      ])
]

-- Whether a block looks like a root block, as it is on the disk.
unfoldable pub looks_like_root : List ℕ → Bool
looks_like_root buf =
    (swap_uint32_from_ptr buf 0 == t_header) && (swap_uint32_from_ptr buf 508 == st_root)

-- The search of the root block downwards; the number that it leaves in `rootBlock`.
unfoldable pub search_root : Device → ℕ → Result ℕ
search_root dev zero =
    ramdisk_read_sectors dev 0 1 >>= λ buf. ok (if looks_like_root buf then 0 else no_block)
search_root dev (suc n) =
    let rest = search_root dev n in
    ramdisk_read_sectors dev (suc n) 1 >>= λ buf.
    if looks_like_root buf then ok (suc n) else if ltb 1 n then rest else ok n

unfoldable pub hd_file_volume : Volume → HdDevice → Volume
hd_file_volume found hd = record found { first_block = 0; dev = hd.device; mounted = false }

-- `dev->nVol` stays 1 where the list is freed after a failed read.
unfoldable pub mount_hd_file : Env → Volume → HdDevice → HdDevice × RetCode
mount_hd_file env found hd =
    let failed = record hd { n_vol = 1; vol_list = [] } in
    let none_left = record hd { n_vol = 0; vol_list = [] } in
    elim (dev_read_block hd.device 0 512) [
      | err rc ↦ (failed, rc)
      | ok boot ↦
          let vol = with_fs (hd_file_volume found hd) boot in
          let vol_dos = with_data_size vol in
          if not (vol_is_dos_fs vol)
          then (
            one_volume hd (record vol {
              datablock_size = 0;
              root_block = no_block;
              last_block = u32 (size_of hd.geometry + 2 ^ 32 - 1);
            }),
            rc_ok,
          )
          else (elim (search_root hd.device (hd.device.size_blocks / 2)) [
            | err rc ↦ (failed, rc)
            | ok n_root ↦
                let vol_root = record vol_dos {
                  root_block = n_root;
                  last_block = u32 (n_root * 2 + 2 ^ 32 - 1);
                } in
                if n_root == 1 then (none_left, rc_error) else (elim (root_at env vol_root n_root) [
                  | rc_ok ↦ (one_volume hd vol_root, rc_ok)
                  | rc ↦ (none_left, rc)
                ])
          ])
    ]

-- The volume of a partition, before its boot block is read.
unfoldable pub part_volume : Volume → Device → ℕ → List ℕ → Volume
part_volume found dev cyl_blocks part = record found {
  dev = dev;
  first_block = u32 (cyl_blocks * load32 part 164);
  last_block = u32 ((load32 part 168 + 1) * cyl_blocks + 2 ^ 32 - 1);
  mounted = false;
}

unfoldable pub part_root : Volume → Volume
part_root vol = record vol {
  root_block = if vol_is_dos_fs vol then vol_calc_root_blk vol else no_block;
}

module _ (env : Env) (dev : Device) where
  -- The chain of partitions: how many were counted, their volumes, and the code. A name whose length, a
  -- signed character, is negative is copied past its memory.
  unfoldable pub mount_parts : (ℕ → Volume) → ℕ → ℕ → ℕ → ℕ → Fault (ℕ × List Volume × RetCode)
  mount_parts found zero cyl_blocks next i = if next == no_block then some (i, [], rc_ok) else none
  mount_parts found (suc fuel) cyl_blocks next i =
      if next == no_block then some (i, [], rc_ok) else (elim (read_part_block env dev next) [
        | err rc ↦ some (i, [], rc)
        | ok part ↦
            let vol = part_volume (found i) dev cyl_blocks part in
            elim (dev_read_block dev vol.first_block 512) [
              | err rc ↦ some (suc i, [], rc)
              | ok boot ↦
                  if leb 128 (byte part 36)
                  then none
                  else (mount_parts found fuel cyl_blocks (load32 part 16) (suc i) >>? λ got.
                      some (got.0, part_root (with_data_size (with_fs vol boot)) ∷ got.1, got.2))
            ]
      ])

  -- The chain of filesystem headers; `segListBlock` of the last that was copied, valid or not.
  unfoldable pub walk_fshd : ℕ → ℕ → ℕ → Fault ℕ
  walk_fshd zero next seg = if next == no_block then some seg else none
  walk_fshd (suc fuel) next seg =
      if next == no_block then some seg else (elim (read_fshd_block env dev next) [
        | err rc ↦ elim (dev_read_block dev next 256) [
          | err rc1 ↦ some seg
          | ok buf ↦ some (load32 (swap_endian buf swbl_fshd) 72)
        ]
        | ok fshd ↦ walk_fshd fuel (load32 fshd 16) (load32 fshd 72)
      ])

  -- The segments are only read.
  unfoldable pub walk_lseg : ℕ → ℕ → Fault RetCode
  walk_lseg zero next = if next == no_block then some rc_ok else none
  walk_lseg (suc fuel) next =
      if next == no_block then some rc_ok else (elim (read_lseg_block env dev next) [
        | err rc ↦ some rc_ok
        | ok lseg ↦ walk_lseg fuel (load32 lseg 16)
      ])

-- Chains that do not end within `fuel` blocks give no result.
unfoldable pub mount_hd : ℕ → Env → (ℕ → Volume) → HdDevice → Fault (HdDevice × RetCode)
mount_hd fuel env found hd = elim (read_rdsk_block env hd.device) [
  | err rc ↦ some (hd, rc)
  | ok rdsk ↦ mount_parts env hd.device found fuel (load32 rdsk 144) (load32 rdsk 28) 0 >>? λ got.
      if not (is_ok got.2)
      then some (record hd { n_vol = got.0 }, got.2)
      else (walk_fshd env hd.device fuel (load32 rdsk 32) no_block >>? λ seg.
          walk_lseg env hd.device fuel seg >>? λ rc.
          some (record hd { n_vol = got.0; vol_list = got.1 }, rc_ok))
]

unfoldable pub mark_mounted : HdDevice × RetCode → HdDevice × RetCode
mark_mounted (hd, rc_ok) = (record hd { mounted = true }, rc_ok)
mark_mounted (hd, rc) = (hd, rc)

unfoldable pub dev_mount : ℕ → Env → (ℕ → Volume) → HdDevice → Fault (HdDevice × RetCode)
dev_mount fuel env found hd = elim hd.dev_class [
  | class_flop ↦ some (mark_mounted (mount_flop env (found 0) hd))
  | class_harddisk ↦ mount_hd fuel env found hd >>? λ got. some (mark_mounted got)
  | class_hardfile ↦ some (mark_mounted (mount_hd_file env (found 0) hd))
  | class_unknown ↦ some (hd, rc_error)
]

-- The volumes in the list are freed; a list that is too short is read past its end.
unfoldable pub dev_un_mount : HdDevice → Fault HdDevice
dev_un_mount hd =
    if not hd.mounted
    then some hd
    else (if ltb (length hd.vol_list) hd.n_vol
        then none
        else some (record hd { n_vol = 0; vol_list = []; mounted = false }))
