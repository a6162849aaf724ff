-- ===== src/Block/Boot.antt =====
-- src/adf_raw.c and adf_vol.c: the boot block, two blocks of 512 bytes at the start of a volume. Its structure is
-- the 1024 bytes in the host's memory.
use adflib.Prelude.{ℕ, Bool, not, ◌&&◌, ◌||◌, List, ◌++◌, set, take, drop, ◌==◌, if◌then◌else◌}
use adflib.Util.{byte, load32, store32, swap_uint32_to_ptr}
use adflib.Raw.{swap_endian, boot_sum}
use adflib.Err.{RetCode, rc_error, rc_blocksum, Result, ok, err, is_ok, ◌>>=◌}
use adflib.Vol.{Volume, vol_read_block, vol_write_block}
use adflib.Block.{Env}

abbrev pub swbl_boot : ℕ
swbl_boot = 0

-- `boot->data[ 0 ]`.
abbrev pub boot_data : List ℕ → ℕ
boot_data boot = byte boot 12

-- `strncmp( "DOS", boot->dosType, 3 ) == 0`.
abbrev pub is_dos_boot : List ℕ → Bool
is_dos_boot boot = (byte boot 0 == 68) && ((byte boot 1 == 79) && (byte boot 2 == 83))

unfoldable pub read_boot_block : Env → Volume → Result (List ℕ)
read_boot_block env vol = vol_read_block vol 0 >>= λ buf0. vol_read_block vol 1 >>= λ buf1.
    let buf = buf0 ++ buf1 in
    let boot = swap_endian buf swbl_boot in
    if not (is_dos_boot boot)
    then err rc_error
    else if not (boot_data boot == 0)
    then (if not (load32 boot 4 == boot_sum buf) && not env.ignore_checksum_errors
        then err rc_blocksum
        else ok boot)
    else ok boot

-- What the writer stores into the structure.
unfoldable pub stamp_boot : List ℕ → List ℕ
stamp_boot boot = set (set (set boot 0 68) 1 79) 2 83

-- The bytes that are written: with a checksum if there is boot code, or for a floppy disk.
unfoldable pub seal_boot : List ℕ → List ℕ
seal_boot boot =
    let buf = swap_endian boot swbl_boot in
    if (load32 boot 8 == 880) || not (boot_data boot == 0)
    then swap_uint32_to_ptr buf 4 (boot_sum buf)
    else buf

unfoldable pub write_boot_block : Volume → List ℕ → Volume × RetCode
write_boot_block vol boot =
    let buf = seal_boot (stamp_boot boot) in
    let (vol1, rc) = vol_write_block vol 0 (take 512 buf) in
    let (vol2, rc1) = vol_write_block vol1 1 (drop 512 buf) in
    if is_ok rc then (vol2, rc1) else (vol1, rc)

-- `adfVolInstallBootBlock`, with whether the device is a floppy disk.
unfoldable pub vol_install_boot_block : Env → Bool → Volume → List ℕ → Volume × RetCode
vol_install_boot_block env is_floppy vol code =
    if not is_floppy then (vol, rc_error) else elim (read_boot_block env vol) [
      | err rc ↦ (vol, rc)
      | ok boot ↦ write_boot_block vol (take 12 (store32 boot 8 880) ++ take 1012 (drop 12 code))
    ]
