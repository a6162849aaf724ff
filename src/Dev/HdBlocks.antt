-- ===== src/Dev/HdBlocks.antt =====
-- src/adf_dev_hd.c and adf_blk_hd.h: the blocks that describe a hard disk and its partitions, as the bytes
-- of their structures in the host's memory.
use adflib.Prelude.{
  ℕ, ◌-◌, ◌^◌, Bool, not, ◌&&◌, List, [], ◌∷◌, ◌++◌, length, replicate, ◌==◌, if◌then◌else◌,
}
use adflib.Util.{byte, load32, store32, swap_uint32_to_ptr}
use adflib.Raw.{swap_endian, normal_sum}
use adflib.Err.{RetCode, rc_error, rc_blocksum, Result, ok, err, ◌>>=◌}
use adflib.Dev.{Device, splice, dev_read_block, dev_write_block}
use adflib.Block.{Env}

abbrev pub swbl_rdsk : ℕ
swbl_rdsk = 7

abbrev pub swbl_badb : ℕ
swbl_badb = 8

abbrev pub swbl_part : ℕ
swbl_part = 9

abbrev pub swbl_fshd : ℕ
swbl_fshd = 10

abbrev pub swbl_lseg : ℕ
swbl_lseg = 11

abbrev rdsk : List ℕ
rdsk = 82 ∷ 68 ∷ 83 ∷ 75 ∷ []

abbrev badb : List ℕ
badb = 66 ∷ 65 ∷ 68 ∷ 66 ∷ []

abbrev pub part_id : List ℕ
part_id = 80 ∷ 65 ∷ 82 ∷ 84 ∷ []

abbrev fshd : List ℕ
fshd = 70 ∷ 83 ∷ 72 ∷ 68 ∷ []

abbrev lseg : List ℕ
lseg = 76 ∷ 83 ∷ 69 ∷ 71 ∷ []

-- `-1`, which ends a list of blocks, as the bits of an `int32_t`.
abbrev pub no_block : ℕ
no_block = 2 ^ 32 - 1

-- `strncmp( blk->id, id, 4 ) == 0`.
unfoldable pub has_id : List ℕ → List ℕ → Bool
has_id blk id =
    (byte blk 0 == byte id 0)
    && ((byte blk 1 == byte id 1) && ((byte blk 2 == byte id 2) && (byte blk 3 == byte id 3)))

-- The test of the checksum of the block `buf`, whose structure is `blk`.
unfoldable pub check_sum : Env → List ℕ → List ℕ → ℕ → Result (List ℕ)
check_sum env buf blk size =
    if not (load32 blk 8 == normal_sum buf 8 size) && not env.ignore_checksum_errors
    then err rc_blocksum
    else ok blk

module _ (env : Env) (dev : Device) where
  unfoldable pub read_rdsk_block : Result (List ℕ)
  read_rdsk_block = dev_read_block dev 0 256 >>= λ buf.
      let blk = swap_endian buf swbl_rdsk in
      if not (has_id blk rdsk) then err rc_error else check_sum env buf blk 256

  unfoldable pub read_part_block : ℕ → Result (List ℕ)
  read_part_block n_sect = dev_read_block dev n_sect 256 >>= λ buf.
      let blk = swap_endian buf swbl_part in
      if not (has_id blk part_id)
      then err rc_error
      else (if not (load32 blk 132 == 128) then err rc_error else check_sum env buf blk 256)

  unfoldable pub read_fshd_block : ℕ → Result (List ℕ)
  read_fshd_block n_sect = dev_read_block dev n_sect 256 >>= λ buf.
      let blk = swap_endian buf swbl_fshd in
      if not (has_id blk fshd) then err rc_error else check_sum env buf blk 256

  unfoldable pub read_lseg_block : ℕ → Result (List ℕ)
  read_lseg_block n_sect = dev_read_block dev n_sect 512 >>= λ buf.
      let blk = swap_endian buf swbl_lseg in
      if not (has_id blk lseg) then err rc_error else check_sum env buf blk 512

  unfoldable pub read_badb_block : ℕ → Result (List ℕ)
  read_badb_block n_sect = dev_read_block dev n_sect 512 >>= λ buf.
      let blk = swap_endian buf swbl_badb in
      if not (has_id blk badb) then err rc_error else check_sum env buf blk 512

-- The block of 512 bytes that is written for a structure.
unfoldable pub seal_hd : List ℕ → ℕ → List ℕ
seal_hd blk type =
    let buf = swap_endian (blk ++ replicate (512 - length blk) 0) type in
    swap_uint32_to_ptr buf 8 (normal_sum buf 8 512)

-- The structures after the assignments of the writers.
unfoldable pub stamp_rdsk : List ℕ → List ℕ
stamp_rdsk blk =
    let blk1 = store32 (store32 (splice blk 0 rdsk) 4 64) 16 512 in
    let blk2 = store32 blk1 24 no_block in
    let blk3 = splice blk2 160 (65 ∷ 68 ∷ 70 ∷ 108 ∷ 105 ∷ 98 ∷ 32 ∷ 32 ∷ []) in
    let blk4 = splice blk3 168 (
      104 ∷ 97 ∷ 114 ∷ 100 ∷ 100 ∷ 105 ∷ 115 ∷ 107 ∷ 46 ∷ 97 ∷ 100 ∷ 102 ∷ 32 ∷ 32 ∷ 32 ∷ 32
      ∷ []) in
    splice blk4 184 (118 ∷ 49 ∷ 46 ∷ 48 ∷ [])

unfoldable pub stamp_part : List ℕ → List ℕ
stamp_part part =
    let part1 = store32 (splice part 0 part_id) 4 64 in
    store32 (store32 (store32 (store32 part1 128 16) 132 128) 144 1) 152 2

unfoldable pub stamp_fshd : List ℕ → List ℕ
stamp_fshd blk = store32 (splice blk 0 fshd) 4 64

unfoldable pub stamp_lseg : List ℕ → List ℕ
stamp_lseg blk = store32 (splice blk 0 lseg) 4 128

module _ (dev : Device) where
  unfoldable pub write_rdsk_block : List ℕ → Device × RetCode
  write_rdsk_block blk =
      if dev.read_only
      then (dev, rc_error)
      else dev_write_block dev 0 512 (seal_hd (stamp_rdsk blk) swbl_rdsk)

  unfoldable pub write_part_block : ℕ → List ℕ → Device × RetCode
  write_part_block n_sect part =
      if dev.read_only
      then (dev, rc_error)
      else dev_write_block dev n_sect 512 (seal_hd (stamp_part part) swbl_part)

  unfoldable pub write_fshd_block : ℕ → List ℕ → Device × RetCode
  write_fshd_block n_sect blk =
      if dev.read_only
      then (dev, rc_error)
      else dev_write_block dev n_sect 512 (seal_hd (stamp_fshd blk) swbl_fshd)

  unfoldable pub write_lseg_block : ℕ → List ℕ → Device × RetCode
  write_lseg_block n_sect blk =
      if dev.read_only
      then (dev, rc_error)
      else dev_write_block dev n_sect 512 (seal_hd (stamp_lseg blk) swbl_lseg)

  -- It is not implemented.
  unfoldable pub write_badb_block : ℕ → List ℕ → Device × RetCode
  write_badb_block n_sect blk = (dev, rc_error)
