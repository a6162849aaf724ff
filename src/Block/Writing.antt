-- ===== src/Block/Writing.antt =====
-- What a writer of blocks wrote, its reader accepts and gives back, for each kind of block.
use adflib.Prelude.{ℕ, ◌+◌, ◌≤◌, ◌<◌, ◌≡◌, ◌⊎◌, refl, sym, ◌∙◌, ap, inr, arith, true, false, List}
use adflib.Util.{byte, load32, store32, swap_uint32_from_ptr}
use adflib.Raw.{swap_endian}
use adflib.Raw.Swap.{load32-swap_endian, in_long}
use adflib.Err.{RetCode, rc_ok, Result, ok}
use adflib.Vol.{Volume, vol_read_block, vol_write_block, vol_is_ofs}
use adflib.Vol.Blocks.{IsMounted, InVolume, written, vol_write_block-ok, vol_write_block-read_block}
use adflib.Block.{
  Env, seal, read_root_block, read_entry_block, read_data_block, read_file_ext_block,
  read_bitmap_block, read_dir_c_block, write_root_block, write_entry_block, write_dir_block,
  write_file_hdr_block, write_data_block, write_file_ext_block, write_bitmap_block,
  write_dir_c_block, stamp_root, stamp_dir, stamp_file_hdr, stamp_file_ext, stamp_dir_c,
}
use adflib.Block.Stamps.{
  store32-IsBlock, stamp_root-IsBlock, stamp_file_ext-IsBlock, stamp_dir_c-IsBlock,
  stamp_root-HasType, stamp_root-sec_type, IsPlain, stamp_dir-IsEntry, stamp_file_hdr-IsEntry,
}
use adflib.Block.Seal.{IsBlock, IsKind, seal-IsBlock, seal-valid, byte-unseal, load32-unseal}

-- The structure `m'` is `m` but for the checksum at `off`.
abbrev pub SameBut : ℕ → List ℕ → List ℕ → Type 0
SameBut off m m' = (i : ℕ) → (i < off) ⊎ (off + 3 < i) → byte m' i ≡ byte m i

-- The write succeeded, and reading gives the structure back.
abbrev pub ReadsBack : (Volume → Result (List ℕ)) → ℕ → List ℕ → Volume × RetCode → Type 0
ReadsBack read off m (vol', rc) =
    (rc ≡ rc_ok) × ((m' : List ℕ) × (read vol' ≡ ok m') × SameBut off m m')

written-is_ofs :
    (vol : Volume) (n : ℕ) (buf : List ℕ) → vol_is_ofs (written vol n buf) ≡ vol_is_ofs vol
unfolding vol_is_ofs
written-is_ofs vol n buf = refl

pub IsKind-root : IsKind 1 20
unfolding in_long
IsKind-root = record {
  known = omega arith;
  not_boot = omega arith;
  aligned = refl;
  fits = omega arith;
  long = refl;
}

IsKind-data : IsKind 2 20
unfolding in_long
IsKind-data = record {
  known = omega arith;
  not_boot = omega arith;
  aligned = refl;
  fits = omega arith;
  long = refl;
}

IsKind-entry : IsKind 3 20
unfolding in_long
IsKind-entry = record {
  known = omega arith;
  not_boot = omega arith;
  aligned = refl;
  fits = omega arith;
  long = refl;
}

IsKind-cache : IsKind 4 20
unfolding in_long
IsKind-cache = record {
  known = omega arith;
  not_boot = omega arith;
  aligned = refl;
  fits = omega arith;
  long = refl;
}

IsKind-fext : IsKind 5 20
unfolding in_long
IsKind-fext = record {
  known = omega arith;
  not_boot = omega arith;
  aligned = refl;
  fits = omega arith;
  long = refl;
}

IsKind-bitmap : IsKind 5 0
unfolding in_long
IsKind-bitmap = record {
  known = omega arith;
  not_boot = omega arith;
  aligned = refl;
  fits = omega arith;
  long = refl;
}

-- The reader takes a plain entry as one.
entry_sec_type : (m : List ℕ) → IsBlock m → swap_uint32_from_ptr (seal 3 20 m) 508 ≡ load32 m 508
unfolding in_long
entry_sec_type m b =
    let k = IsKind-entry in
    let c = seal-IsBlock 3 20 k m b in
    sym (load32-swap_endian (seal 3 20 m) 3 508 k.known (omega (arith, c.whole)) c.bytes refl refl)
    ∙ load32-unseal 3 20 k m b 508 (inr (omega arith))

module _ (vol : Volume) (n : ℕ) (mounted : IsMounted vol) (inside : InVolume vol n)
    (rw_vol : vol.read_only ≡ false) where
  -- A sealed structure is written and its bytes are read.
  pub sealed_write :
      (t off : ℕ)
      → IsKind t off
      → (m : List ℕ) → IsBlock m
      → (vol_write_block vol n (seal t off m) ≡ (written vol n (seal t off m), rc_ok))
        × (vol_read_block (written vol n (seal t off m)) n ≡ ok (seal t off m))
  sealed_write t off k m b =
      let whole = (seal-IsBlock t off k m b).whole in
      let w = vol_write_block-ok vol mounted n (seal t off m) inside whole rw_vol in
      let (_, back, _, _, _) =
        vol_write_block-read_block vol n (seal t off m) mounted inside whole rw_vol in
      (w, rw (sym (ap (λ (r : Volume × RetCode). r.0) w)) back)

  reads_back :
      (read : Volume → Result (List ℕ)) (t off : ℕ) (k : IsKind t off) (m : List ℕ) (b : IsBlock m)
      → read (written vol n (seal t off m)) ≡ ok (swap_endian (seal t off m) t)
      → ReadsBack read off m (vol_write_block vol n (seal t off m))
  reads_back read t off k m b r =
      rw ((sealed_write t off k m b).0) (refl, (_, r, byte-unseal t off k m b))

  module _ (env : Env) (m : List ℕ) (b : IsBlock m) where
    -- On a mounted volume that is not read-only, at a block of the volume, `adfWriteBitmapBlock` of
    -- any structure succeeds, and `adfReadBitmapBlock` then accepts the block and gives the structure,
    -- equal but for the checksum.
    pub write_bitmap_block-read :
        ReadsBack (λ v. read_bitmap_block env v n) 0 m (write_bitmap_block vol n m)
    unfolding write_bitmap_block read_bitmap_block
    write_bitmap_block-read =
        reads_back (λ v. read_bitmap_block env v n) 5 0 IsKind-bitmap m b
          (ground (arith, (sealed_write 5 0 IsKind-bitmap m b).1, seal-valid 5 0 IsKind-bitmap m b))

    -- On a mounted volume that is not read-only, at a block of the volume, `adfWriteFileExtBlock` of
    -- any structure succeeds, and `adfReadFileExtBlock` then accepts the block and gives the structure
    -- with its stamped members, equal but for the checksum.
    pub write_file_ext_block-read :
        ReadsBack
          (λ v. read_file_ext_block env v n)
          20
          (stamp_file_ext m)
          (write_file_ext_block vol n m)
    unfolding write_file_ext_block read_file_ext_block
    write_file_ext_block-read =
        let c = stamp_file_ext-IsBlock m b in
        reads_back (λ v. read_file_ext_block env v n) 5 20 IsKind-fext (stamp_file_ext m) c
          (ground (
            arith,
            (sealed_write 5 20 IsKind-fext (stamp_file_ext m) c).1,
            seal-valid 5 20 IsKind-fext (stamp_file_ext m) c,
          ))

    -- On a mounted volume that is not read-only, at a block of the volume, `adfWriteDirCBlock` of any
    -- structure succeeds, and `adfReadDirCBlock` then gives the structure with its type and its own
    -- block number, equal but for the checksum.
    pub write_dir_c_block-read :
        ReadsBack (λ v. read_dir_c_block env v n) 20 (stamp_dir_c n m) (write_dir_c_block vol n m)
    unfolding write_dir_c_block read_dir_c_block
    write_dir_c_block-read =
        let c = stamp_dir_c-IsBlock n m b in
        reads_back (λ v. read_dir_c_block env v n) 4 20 IsKind-cache (stamp_dir_c n m) c
          (ground (arith, (sealed_write 4 20 IsKind-cache (stamp_dir_c n m) c).1))

    -- On a mounted volume that is not read-only, at a block of the volume, from 1 on, of an OFS
    -- volume, `adfWriteDataBlock` of any structure succeeds, and `adfReadDataBlock` then accepts the
    -- block and gives the structure with its type stamped, equal but for the checksum.
    pub write_data_block-read :
        1 ≤ n
        → vol_is_ofs vol ≡ true
        → ReadsBack (λ v. read_data_block env v n) 20 (store32 m 0 8) (write_data_block vol n m)
    unfolding write_data_block read_data_block
    write_data_block-read pos ofs =
        let c = store32-IsBlock m 0 8 (omega arith) b in
        let sealed = seal 2 20 (store32 m 0 8) in
        let w : write_data_block vol n m ≡ vol_write_block vol n sealed =
          ground (arith, pos, ofs) in
        rw w (
          reads_back (λ v. read_data_block env v n) 2 20 IsKind-data (store32 m 0 8) c
            (ground (
              arith,
              pos,
              ofs,
              written-is_ofs vol n sealed,
              (sealed_write 2 20 IsKind-data (store32 m 0 8) c).1,
              seal-valid 2 20 IsKind-data (store32 m 0 8) c,
            )))

    -- On a mounted volume that is not read-only, at a block of the volume, `adfWriteRootBlock` of any
    -- structure succeeds, and `adfReadRootBlock` then accepts the block and gives the structure with
    -- its stamped members, equal but for the checksum.
    pub write_root_block-read :
        ReadsBack (λ v. read_root_block env v n) 20 (stamp_root m) (write_root_block vol n m)
    unfolding write_root_block read_root_block
    write_root_block-read =
        let c = stamp_root-IsBlock m b in
        reads_back (λ v. read_root_block env v n) 1 20 IsKind-root (stamp_root m) c
          (ground (
            arith,
            (sealed_write 1 20 IsKind-root (stamp_root m) c).1,
            seal-valid 1 20 IsKind-root (stamp_root m) c,
            load32-unseal 1 20 IsKind-root (stamp_root m) c 0,
            load32-unseal 1 20 IsKind-root (stamp_root m) c 508,
            (stamp_root-HasType m b).type,
            stamp_root-sec_type m b,
          ))

    -- On a mounted volume that is not read-only, at a block of the volume, `adfWriteEntryBlock` of a
    -- structure with the header type and a secondary type that is not a link's succeeds, and
    -- `adfReadEntryBlock` then accepts the block and gives the structure, equal but for the checksum.
    pub write_entry_block-read :
        load32 m 0 ≡ 2
        → IsPlain (load32 m 508)
        → ReadsBack (λ v. read_entry_block env v n) 20 m (write_entry_block vol n m)
    unfolding write_entry_block read_entry_block
    write_entry_block-read h plain =
        reads_back (λ v. read_entry_block env v n) 3 20 IsKind-entry m b
          (ground (
            arith,
            h,
            plain.not_lfile,
            plain.not_ldir,
            plain.not_lsoft,
            (sealed_write 3 20 IsKind-entry m b).1,
            seal-valid 3 20 IsKind-entry m b,
            entry_sec_type m b,
            load32-unseal 3 20 IsKind-entry m b 0,
          ))

  module _ (env : Env) (m : List ℕ) (b : IsBlock m) where
    -- On a mounted volume that is not read-only, at a block of the volume, `adfWriteDirBlock` of any
    -- structure succeeds, and `adfReadEntryBlock` then accepts the block as an entry and gives the
    -- structure with its stamped members, equal but for the checksum.
    pub write_dir_block-read :
        ReadsBack (λ v. read_entry_block env v n) 20 (stamp_dir m) (write_dir_block vol n m)
    unfolding write_dir_block write_entry_block
    write_dir_block-read =
        let e = stamp_dir-IsEntry m b in
        let back = write_entry_block-read env (stamp_dir m) e.is_block e.typed e.plain in
        let rc = back.0 in (ground (arith, rc), back.1)

    -- On a mounted volume that is not read-only, at a block of the volume, `adfWriteFileHdrBlock` of
    -- any structure succeeds, and `adfReadEntryBlock` then accepts the block as an entry and gives the
    -- structure with its stamped members, equal but for the checksum.
    pub write_file_hdr_block-read :
        ReadsBack
          (λ v. read_entry_block env v n)
          20
          (stamp_file_hdr m)
          (write_file_hdr_block vol n m)
    unfolding write_file_hdr_block write_entry_block
    write_file_hdr_block-read =
        let e = stamp_file_hdr-IsEntry m b in
        write_entry_block-read env (stamp_file_hdr m) e.is_block e.typed e.plain
