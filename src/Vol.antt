-- ===== src/Vol.antt =====
-- src/adf_vol.h and adf_vol.c: volumes, their place on the device and their blocks; src/adf_blk.h: the
-- flags of a DOS filesystem. Block numbers of a volume (`ADF_SECTNUM`, `int32_t`) are natural numbers
-- here where the source only has them at least 0, and integers where it tests the sign.
pub mod Blocks
pub mod Mount
pub mod Mounting
use adflib.Prelude.{
  ℕ, ◌+◌, ◌-◌, ◌*◌, ◌/◌, ◌%◌, ◌^◌, bit_and, Bool, true, false, not, ◌&&◌, ◌||◌, List, ltb, leb,
  ◌==◌, if◌then◌else◌,
}
use adflib.Util.{u32}
use adflib.Err.{RetCode, rc_ok, rc_error, rc_blockoutofrange, Result, ok, err}
use adflib.Dev.{Device, dev_read_block, dev_write_block}

-- `struct AdfBitmapBlock` without its checksum, which is computed when the block is written.
abbrev pub BitmapMap : Type 0
BitmapMap = List ℕ

pub record Bitmap : Type 0 where
  pub size : ℕ
  pub blocks : List ℕ
  pub table : List BitmapMap
  pub blocks_chg : List Bool

-- The three characters of `fs.id` that the library tests for.
pub data FsId : Type 0 where
  dos pfs other_fs : FsId

pub record Volume : Type 0 where
  pub dev : Device
  pub first_block : ℕ
  pub last_block : ℕ
  pub root_block : ℕ
  pub fs_id : FsId
  pub fs_type : ℕ
  pub read_only : Bool
  pub datablock_size : ℕ
  pub mounted : Bool
  pub bitmap : Bitmap
  pub cur_dir_ptr : ℕ

unfoldable pub dos_fs_is_ffs : ℕ → Bool
dos_fs_is_ffs c = not (bit_and c 1 == 0)

unfoldable pub dos_fs_is_ofs : ℕ → Bool
unfolding dos_fs_is_ffs
dos_fs_is_ofs c = not (dos_fs_is_ffs c)

unfoldable pub dos_fs_has_intl : ℕ → Bool
dos_fs_has_intl c = not (bit_and c 2 == 0)

unfoldable pub dos_fs_has_dircache : ℕ → Bool
dos_fs_has_dircache c = not (bit_and c 4 == 0)

abbrev pub vol_is_dos_fs : Volume → Bool
vol_is_dos_fs vol = elim vol.fs_id [ dos ↦ true | _ ↦ false ]

abbrev pub vol_is_pfs : Volume → Bool
vol_is_pfs vol = elim vol.fs_id [ pfs ↦ true | _ ↦ false ]

unfoldable pub vol_is_ofs : Volume → Bool
unfolding dos_fs_is_ofs
vol_is_ofs vol = vol_is_dos_fs vol && dos_fs_is_ofs vol.fs_type

unfoldable pub vol_is_ffs : Volume → Bool
unfolding dos_fs_is_ffs
vol_is_ffs vol = vol_is_dos_fs vol && dos_fs_is_ffs vol.fs_type

unfoldable pub vol_has_intl : Volume → Bool
unfolding dos_fs_has_intl
vol_has_intl vol = vol_is_dos_fs vol && dos_fs_has_intl vol.fs_type

unfoldable pub vol_has_dircache : Volume → Bool
unfolding dos_fs_has_dircache
vol_has_dircache vol = vol_is_dos_fs vol && dos_fs_has_dircache vol.fs_type

unfoldable pub vol_is_fs_valid : Volume → Bool
unfolding vol_is_ofs vol_is_ffs vol_has_intl vol_has_dircache
vol_is_fs_valid vol =
    (vol_is_ofs vol && (not (vol_has_intl vol) && not (vol_has_dircache vol)))
    || (vol_is_ffs vol || vol_is_pfs vol)

abbrev pub vol_get_size_in_blocks : Volume → ℕ
vol_get_size_in_blocks vol = vol.last_block + 1 - vol.first_block

abbrev pub vol_get_size_in_blocks_without_bootblock : Volume → ℕ
vol_get_size_in_blocks_without_bootblock vol = u32 (vol_get_size_in_blocks vol + 2 ^ 32 - 2)

unfoldable pub vol_calc_root_blk : Volume → ℕ
vol_calc_root_blk vol = (vol.last_block + 1 - vol.first_block) / 2

-- `adfVolIsSectNumValid` of a number that a block holds, as the bits of an `int32_t`.
unfoldable pub vol_is_sect_num_valid : Volume → ℕ → Bool
vol_is_sect_num_valid vol n_sect =
    ltb n_sect (2 ^ 31) && leb n_sect (vol.last_block - vol.first_block)

unfoldable pub vol_read_block : Volume → ℕ → Result (List ℕ)
vol_read_block vol n_sect =
    let p_sect = u32 (n_sect + vol.first_block) in
    if not vol.mounted
    then err rc_error
    else (if ltb p_sect vol.first_block || ltb vol.last_block p_sect
        then err rc_blockoutofrange
        else dev_read_block vol.dev p_sect 512)

unfoldable pub vol_write_block : Volume → ℕ → List ℕ → Volume × RetCode
vol_write_block vol n_sect buf =
    let p_sect = u32 (n_sect + vol.first_block) in
    if not vol.mounted
    then (vol, rc_error)
    else (if vol.read_only
        then (vol, rc_error)
        else (if ltb p_sect vol.first_block || ltb vol.last_block p_sect
            then (vol, rc_blockoutofrange)
            else (let (dev', rc) = dev_write_block vol.dev p_sect 512 buf in
                (record vol { dev = dev' }, rc))))

pub data AccessMode : Type 0 where
  mode_readonly mode_readwrite : AccessMode

-- `adfVolRemount` of a volume that is there; any other mode than these two is refused.
unfoldable pub vol_remount : Volume → AccessMode → Volume × RetCode
vol_remount vol mode_readwrite =
    if not vol.mounted
    then (vol, rc_error)
    else (if vol.dev.read_only then (vol, rc_error) else (record vol { read_only = false }, rc_ok))
vol_remount vol mode_readonly =
    if not vol.mounted then (vol, rc_error) else (record vol { read_only = true }, rc_ok)
