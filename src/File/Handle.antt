-- ===== src/File/Handle.antt =====
-- src/adf_file.h and adf_file.c: an open file, its reading and seeking. The file has its volume's state;
-- `file_hdr`, `current_data` and `current_ext` are structures of 512 bytes.
use adflib.Prelude.{
  ℕ, zero, suc, ◌+◌, ◌-◌, ◌*◌, ◌^◌, min, Bool, false, not, ◌||◌, List, [], ◌++◌, length, take, drop,
  Option, none, some, ltb, ◌==◌, if◌then◌else◌, ◌>>?◌, Fault,
}
use adflib.Util.{u32, load32}
use adflib.Err.{RetCode, rc_ok, rc_error, Result, ok, err, is_ok, ◌>>s◌}
use adflib.Date.{AmigaTime}
use adflib.Raw.{swap_endian}
use adflib.Vol.{Volume, vol_read_block, vol_is_ofs}
use adflib.Block.{Env, below, swbl_data, swbl_fext, read_data_block, read_file_ext_block}
use adflib.File.{max_datablk}

pub record AdfFile : Type 0 where
  pub volume : Volume
  pub file_hdr : List ℕ
  pub current_data : List ℕ
  pub current_ext : Option (List ℕ)
  pub n_data_block : ℕ
  pub cur_data_ptr : ℕ
  pub pos : ℕ
  pub pos_in_data_blk : ℕ
  pub pos_in_ext_blk : ℕ
  pub mode_read : Bool
  pub mode_write : Bool
  pub current_data_block_changed : Bool

-- What a call finds: the environment, the time, the contents of a block of memory from `malloc`, and the
-- fuel for the chain of the directory cache blocks.
pub record Context : Type 0 where
  pub env : Env
  pub now : AmigaTime
  pub fresh : List ℕ
  pub chain : ℕ

-- Members of the structures.
abbrev pub byte_size : List ℕ → ℕ
byte_size hdr = load32 hdr 324

abbrev pub first_data : List ℕ → ℕ
first_data hdr = load32 hdr 16

abbrev pub data_block : List ℕ → ℕ → ℕ
data_block block i = load32 block (24 + 4 * i)

abbrev pub extension : List ℕ → ℕ
extension block = load32 block 504

abbrev pub next_data : List ℕ → ℕ
next_data ofs_data = load32 ofs_data 16

abbrev pub file_at_eof : AdfFile → Bool
file_at_eof file = file.pos == byte_size file.file_hdr

-- The code that a reader returns.
abbrev pub code : Result (List ℕ) → RetCode
code (ok a) = rc_ok
code (err rc) = rc

-- `adfReadDataBlock` and `adfReadFileExtBlock` into a buffer: a block with a wrong checksum is in the
-- buffer too, and a block that cannot be read leaves it.
unfoldable pub data_into : Env → Volume → ℕ → List ℕ → List ℕ × RetCode
data_into env vol n_sect old =
    let rc = code (read_data_block env vol n_sect) in
    if below n_sect 1 then (old, rc) else elim (vol_read_block vol n_sect) [
      | err e ↦ (old, rc)
      | ok buf ↦ (if vol_is_ofs vol then swap_endian buf swbl_data else buf, rc)
    ]

unfoldable pub ext_into : Env → Volume → ℕ → List ℕ → List ℕ × RetCode
ext_into env vol n_sect old =
    let rc = code (read_file_ext_block env vol n_sect) in
    elim (vol_read_block vol n_sect) [
      | err e ↦ (old, rc)
      | ok buf ↦ (swap_endian buf swbl_fext, rc)
    ]

-- `file->currentExt`, allocated if there is none.
abbrev pub ext_memory : Context → AdfFile → List ℕ
ext_memory ctx file = elim file.current_ext [ none ↦ ctx.fresh | some x ↦ x ]

unfoldable pub load_ext : Context → AdfFile → ℕ → AdfFile × RetCode
load_ext ctx file n_sect =
    let (x, rc) = ext_into ctx.env file.volume n_sect (ext_memory ctx file) in
    (
      record file {
        current_ext = some x;
        pos_in_ext_blk = if is_ok rc then 0 else file.pos_in_ext_blk;
      },
      rc,
    )

-- The extension block that the next data block is named in.
unfoldable pub ext_for_next : Context → AdfFile → Fault (AdfFile × RetCode)
ext_for_next ctx file =
    if file.n_data_block == max_datablk
    then some (load_ext ctx file (extension file.file_hdr))
    else (if file.pos_in_ext_blk == max_datablk
        then (file.current_ext >>? λ x. some (load_ext ctx file (extension x)))
        else some (file, rc_ok))

-- The end of `adfFileReadNextBlock`: block `n_sect` becomes the current one.
unfoldable pub read_at : Context → AdfFile → ℕ → AdfFile × RetCode
read_at ctx file n_sect =
    let (data', rc) = data_into ctx.env file.volume n_sect file.current_data in
    if below n_sect 2 then (file, rc_error) else (
      record file {
        current_data = data';
        cur_data_ptr = n_sect;
        n_data_block = suc file.n_data_block;
      },
      rc,
    )

-- The next data block that the current extension block names.
unfoldable pub read_in_ext : Context → AdfFile → Fault (AdfFile × RetCode)
read_in_ext ctx file =
    if ltb file.pos_in_ext_blk max_datablk
    then (file.current_ext >>? λ x. some (
        read_at ctx (record file { pos_in_ext_blk = suc file.pos_in_ext_blk })
          (data_block x (max_datablk - 1 - file.pos_in_ext_blk))))
    else none

unfoldable pub file_read_next_block : Context → AdfFile → Fault (AdfFile × RetCode)
file_read_next_block ctx file =
    if file.n_data_block == 0
    then some (read_at ctx file (first_data file.file_hdr))
    else if vol_is_ofs file.volume
    then some (read_at ctx file (next_data file.current_data))
    else if ltb file.n_data_block max_datablk
    then some (read_at ctx file (data_block file.file_hdr (max_datablk - 1 - file.n_data_block)))
    else (ext_for_next ctx file >>? λ r. r >>s λ file1. read_in_ext ctx file1)

-- Where the bytes of the file start in a data block: behind the header of an OFS block.
abbrev pub data_start : Volume → ℕ
data_start vol = if vol_is_ofs vol then 24 else 0

-- The step of the loop of `adfFileRead` that goes on to the next block.
unfoldable pub read_turn : Context → AdfFile → Fault (AdfFile × RetCode)
read_turn ctx file =
    if file.pos_in_data_blk == file.volume.datablock_size
    then (file_read_next_block ctx file >>? λ r.
        let (file1, rc) = r in
        some (
          if is_ok rc
          then (record file1 { pos_in_data_blk = 0; current_data_block_changed = false }, rc)
          else (record file1 { cur_data_ptr = 0 }, rc)))
    else some (file, rc_ok)

-- The step that copies, with `n` bytes to go.
unfoldable pub read_copy : AdfFile → ℕ → AdfFile × List ℕ
read_copy file n =
    let size = min n (u32 (file.volume.datablock_size + 2 ^ 32 - file.pos_in_data_blk)) in
    (
      record file { pos = u32 (file.pos + size); pos_in_data_blk = file.pos_in_data_blk + size },
      take size (drop (data_start file.volume + file.pos_in_data_blk) file.current_data),
    )

-- The loop, with `n` bytes to go: the file, and the bytes that were read.
unfoldable pub read_loop : ℕ → Context → AdfFile → ℕ → Fault (AdfFile × List ℕ)
read_loop zero ctx file n = none
read_loop (suc fuel) ctx file n =
    if n == 0
    then some (file, [])
    else (read_turn ctx file >>? λ r.
        let (file1, rc) = r in
        let (file2, bytes) = read_copy file1 n in
        let rest = read_loop fuel ctx file2 (n - length bytes) in
        if is_ok rc then (rest >>? λ s. some (s.0, bytes ++ s.1)) else some (file1, []))

-- The number of bytes that are left to read, of `n` asked for.
abbrev pub read_size : AdfFile → ℕ → ℕ
read_size file n =
    if ltb (byte_size file.file_hdr) (u32 (file.pos + n))
    then u32 (byte_size file.file_hdr + 2 ^ 32 - file.pos)
    else n

-- `adfFileRead`: the bytes that it puts into the buffer; their number is its result.
unfoldable pub file_read : Context → AdfFile → ℕ → Fault (AdfFile × List ℕ)
file_read ctx file n =
    if not file.mode_read || ((n == 0) || ((byte_size file.file_hdr == 0) || file_at_eof file))
    then some (file, [])
    else read_loop (suc (read_size file n)) ctx file (read_size file n)
