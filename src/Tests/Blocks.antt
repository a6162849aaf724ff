-- ===== src/Tests/Blocks.antt =====
-- The writers and readers of blocks, on the volume of ten blocks.
use adflib.Prelude.{
  ℕ, zero, suc, ◌<◌, refl, arith, false, List, ◌∷◌, replicate, length-replicate, get_or-replicate,
}
use adflib.Util.{byte, load32, store32}
use adflib.Vol.{vol_is_ofs, dos_fs_is_ffs}
use adflib.Block.{
  Env, read_root_block, read_entry_block, read_data_block, write_root_block, write_entry_block,
  write_data_block, stamp_root,
}
use adflib.Block.Seal.{IsBlock}
use adflib.Block.Writing.{
  ReadsBack, write_root_block-read, write_entry_block-read, write_data_block-read,
}
use adflib.Tests.Volumes.{ten_blocks, ten_blocks-IsMounted}

abbrev pub strict : Env
strict = record { ignore_checksum_errors = false }

abbrev nines : List ℕ
nines = replicate 512 9

nines-IsBlock : IsBlock nines
nines-IsBlock = record {
  whole = length-replicate {A = ℕ} 512 9;
  bytes = λ i. ground (arith, get_or-replicate {A = ℕ} 512 9 i 0);
}

write_root_block-read_example :
    ReadsBack
      (λ v. read_root_block strict v 4)
      20
      (stamp_root nines)
      (write_root_block ten_blocks 4 nines)
write_root_block-read_example =
    write_root_block-read ten_blocks 4 ten_blocks-IsMounted (omega arith) refl strict nines
      nines-IsBlock

write_data_block-read_example :
    ReadsBack
      (λ v. read_data_block strict v 4)
      20
      (store32 nines 0 8)
      (write_data_block ten_blocks 4 nines)
unfolding vol_is_ofs dos_fs_is_ffs
write_data_block-read_example =
    write_data_block-read ten_blocks 4 ten_blocks-IsMounted (omega arith) refl strict nines
      nines-IsBlock (omega arith) refl

-- A directory's block, with its two types.
abbrev small_dir : List ℕ
small_dir = 2 ∷ 0 ∷ 0 ∷ 0 ∷ replicate 508 0

small_dir-IsBlock : IsBlock small_dir
small_dir-IsBlock = record { whole = refl; bytes = small }
  where
    small : (i : ℕ) → byte small_dir i < 256
    small zero = omega arith
    small (suc zero) = omega arith
    small (suc (suc zero)) = omega arith
    small (suc (suc (suc zero))) = omega arith
    small (suc (suc (suc (suc i)))) = ground (arith, get_or-replicate {A = ℕ} 508 0 i 0)

write_entry_block-read_example :
    ReadsBack
      (λ v. read_entry_block strict v 4)
      20
      small_dir
      (write_entry_block ten_blocks 4 small_dir)
unfolding load32
write_entry_block-read_example =
    write_entry_block-read ten_blocks 4 ten_blocks-IsMounted (omega arith) refl strict small_dir
      small_dir-IsBlock refl
      (record { not_lfile = omega arith; not_ldir = omega arith; not_lsoft = omega arith })
