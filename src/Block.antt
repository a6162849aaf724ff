-- ===== src/Block.antt =====
-- Reading and writing whole blocks of a volume: src/adf_raw.c (root and boot blocks), adf_dir.c (entries),
-- adf_file_block.c (file headers, extensions, data), adf_bitm.c (bitmap), adf_cache.c (dircache). A block
-- structure is its 512 bytes in the host's memory; a member is loaded and stored at its offset. A reader
-- gives the structure that it fills, a writer takes it; what a writer stores into the structure before it
-- writes is a function of its own. Warnings leave no trace.
pub mod Members
pub mod Seal
pub mod Stamps
pub mod Writing
pub mod Mismatch
pub mod Boot
pub mod BootTrip
use adflib.Prelude.{
  ℕ, ◌+◌, ◌-◌, ◌*◌, ◌^◌, Bool, true, false, not, ◌&&◌, ◌||◌, List, [], ◌∷◌, ◌++◌, take, drop, ltb,
  leb, ◌==◌, if◌then◌else◌,
}
use adflib.Util.{load32, store32, swap_uint32_from_ptr, swap_uint32_to_ptr}
use adflib.Raw.{swap_endian, normal_sum}
use adflib.Err.{RetCode, rc_ok, rc_error, rc_blocktype, rc_blocksum, Result, ok, err, ◌>>=◌}
use adflib.Vol.{Volume, vol_read_block, vol_write_block, vol_is_ofs}

-- `adfEnv.ignoreChecksumErrors`.
pub record Env : Type 0 where
  pub ignore_checksum_errors : Bool

abbrev pub swbl_root : ℕ
swbl_root = 1

abbrev pub swbl_data : ℕ
swbl_data = 2

abbrev pub swbl_entry : ℕ
swbl_entry = 3

abbrev pub swbl_cache : ℕ
swbl_cache = 4

abbrev pub swbl_bitmap : ℕ
swbl_bitmap = 5

abbrev pub swbl_fext : ℕ
swbl_fext = 5

abbrev pub swbl_link : ℕ
swbl_link = 6

abbrev pub t_header : ℕ
t_header = 2

abbrev pub t_data : ℕ
t_data = 8

abbrev pub t_list : ℕ
t_list = 16

abbrev pub t_dirc : ℕ
t_dirc = 33

abbrev pub st_root : ℕ
st_root = 1

abbrev pub st_dir : ℕ
st_dir = 2

-- The negative types, as the bits of an `int32_t`.
abbrev pub st_file : ℕ
st_file = 2 ^ 32 - 3

abbrev pub st_lfile : ℕ
st_lfile = 2 ^ 32 - 4

abbrev pub st_ldir : ℕ
st_ldir = 4

abbrev pub st_lsoft : ℕ
st_lsoft = 3

abbrev pub ht_size : ℕ
ht_size = 72

-- Offsets of members that several structures share.
abbrev pub check_sum_at : ℕ
check_sum_at = 20

abbrev pub sec_type_at : ℕ
sec_type_at = 508

-- `n < bound` of an `int32_t`, by its bits.
abbrev pub below : ℕ → ℕ → Bool
below n bound = leb (2 ^ 31) n || ltb n bound

-- The bytes that a writer makes of a structure: swapped, with the checksum stored at `off`.
unfoldable pub seal : ℕ → ℕ → List ℕ → List ℕ
seal t off m = let buf = swap_endian m t in swap_uint32_to_ptr buf off (normal_sum buf off 512)

-- The reader's test: the sum in the structure is the sum of the bytes that were read.
unfoldable pub sum_is_valid : List ℕ → List ℕ → ℕ → Bool
sum_is_valid buf m off = load32 m off == normal_sum buf off 512

unfoldable pub stamp_root : List ℕ → List ℕ
stamp_root root =
    let root = store32 root 0 t_header in
    let root = store32 root 4 0 in
    let root = store32 root 8 0 in
    let root = store32 root 12 ht_size in
    let root = store32 root 16 0 in
    let root = store32 root 496 0 in
    let root = store32 root 500 0 in store32 root sec_type_at st_root

unfoldable pub stamp_dir : List ℕ → List ℕ
stamp_dir dir =
    let dir = store32 dir 0 t_header in
    let dir = store32 dir 8 0 in let dir = store32 dir 12 0 in store32 dir sec_type_at st_dir

unfoldable pub stamp_file_hdr : List ℕ → List ℕ
stamp_file_hdr fhdr =
    let fhdr = store32 fhdr 0 t_header in
    let fhdr = store32 fhdr 12 0 in store32 fhdr sec_type_at st_file

unfoldable pub stamp_file_ext : List ℕ → List ℕ
stamp_file_ext fext =
    let fext = store32 fext 0 t_list in
    let fext = store32 fext sec_type_at st_file in let fext = store32 fext 12 0 in store32 fext 16 0

unfoldable pub stamp_dir_c : ℕ → List ℕ → List ℕ
stamp_dir_c n_sect dirc = store32 (store32 dirc 0 t_dirc) 4 n_sect

module _ (env : Env) (vol : Volume) (n_sect : ℕ) where
  unfoldable pub read_root_block : Result (List ℕ)
  read_root_block = vol_read_block vol n_sect >>= λ buf.
      let root = swap_endian buf swbl_root in
      if not (load32 root 0 == t_header) || not (load32 root sec_type_at == st_root)
      then err rc_blocktype
      else (if not (sum_is_valid buf root check_sum_at) && not env.ignore_checksum_errors
          then err rc_blocksum
          else ok root)

  -- An entry is swapped as a link if its secondary type, read before the swap, says so.
  unfoldable pub read_entry_block : Result (List ℕ)
  read_entry_block = vol_read_block vol n_sect >>= λ buf.
      let sec_type = swap_uint32_from_ptr buf sec_type_at in
      let ent = swap_endian buf (
        if sec_type == st_lfile || (sec_type == st_ldir || sec_type == st_lsoft)
        then swbl_link
        else swbl_entry) in
      if not (sum_is_valid buf ent check_sum_at) && not env.ignore_checksum_errors
      then err rc_blocksum
      else (if not (load32 ent 0 == t_header) then err rc_error else ok ent)

  unfoldable pub read_data_block : Result (List ℕ)
  read_data_block =
      if below n_sect 1
      then err rc_error
      else (vol_read_block vol n_sect >>= λ buf.
          if not (vol_is_ofs vol)
          then ok buf
          else (let block = swap_endian buf swbl_data in
              if not (sum_is_valid buf block check_sum_at) && not env.ignore_checksum_errors
              then err rc_blocksum
              else ok block))

  unfoldable pub read_file_ext_block : Result (List ℕ)
  read_file_ext_block = vol_read_block vol n_sect >>= λ buf.
      let fext = swap_endian buf swbl_fext in
      if not (sum_is_valid buf fext check_sum_at) && not env.ignore_checksum_errors
      then err rc_blocksum
      else ok fext

  unfoldable pub read_bitmap_block : Result (List ℕ)
  read_bitmap_block = vol_read_block vol n_sect >>= λ buf.
      let bitm = swap_endian buf swbl_bitmap in
      if not (sum_is_valid buf bitm 0) && not env.ignore_checksum_errors
      then err rc_blocksum
      else ok bitm

  unfoldable pub read_bitmap_ext_block : Result (List ℕ)
  read_bitmap_ext_block = vol_read_block vol n_sect >>= λ buf. ok (swap_endian buf swbl_bitmap)

  -- A wrong checksum, type or key only warns.
  unfoldable pub read_dir_c_block : Result (List ℕ)
  read_dir_c_block = vol_read_block vol n_sect >>= λ buf. ok (swap_endian buf swbl_cache)

module _ (vol : Volume) (n_sect : ℕ) where
  unfoldable pub write_root_block : List ℕ → Volume × RetCode
  write_root_block root = vol_write_block vol n_sect (seal swbl_root check_sum_at (stamp_root root))

  unfoldable pub write_entry_block : List ℕ → Volume × RetCode
  write_entry_block ent = vol_write_block vol n_sect (seal swbl_entry check_sum_at ent)

  -- Any failure to write is `ADF_RC_ERROR`.
  unfoldable pub write_dir_block : List ℕ → Volume × RetCode
  write_dir_block dir =
      let (vol', rc) = vol_write_block vol n_sect (seal swbl_entry check_sum_at (stamp_dir dir)) in
      (vol', elim rc [ rc_ok ↦ rc_ok | _ ↦ rc_error ])

  unfoldable pub write_file_hdr_block : List ℕ → Volume × RetCode
  write_file_hdr_block fhdr =
      vol_write_block vol n_sect (seal swbl_entry check_sum_at (stamp_file_hdr fhdr))

  unfoldable pub write_data_block : List ℕ → Volume × RetCode
  write_data_block block =
      if below n_sect 1
      then (vol, rc_error)
      else (if vol_is_ofs vol
          then vol_write_block vol n_sect (seal swbl_data check_sum_at (store32 block 0 t_data))
          else vol_write_block vol n_sect block)

  unfoldable pub write_file_ext_block : List ℕ → Volume × RetCode
  write_file_ext_block fext =
      vol_write_block vol n_sect (seal swbl_fext check_sum_at (stamp_file_ext fext))

  unfoldable pub write_bitmap_block : List ℕ → Volume × RetCode
  write_bitmap_block bitm = vol_write_block vol n_sect (seal swbl_bitmap 0 bitm)

  -- Bitmap extension blocks have no checksum.
  unfoldable pub write_bitmap_ext_block : List ℕ → Volume × RetCode
  write_bitmap_ext_block bitme = vol_write_block vol n_sect (swap_endian bitme swbl_bitmap)

  unfoldable pub write_dir_c_block : List ℕ → Volume × RetCode
  write_dir_c_block dirc =
      vol_write_block vol n_sect (seal swbl_cache check_sum_at (stamp_dir_c n_sect dirc))
