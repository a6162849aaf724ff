-- ===== src/Tests/Partitions.antt =====
-- Blocks of hard disks, on the device of ten blocks.
use adflib.Prelude.{ℕ, ◌≡◌, refl, arith, List, replicate, length-replicate, get_or-replicate}
use adflib.Err.{rc_ok, ok}
use adflib.Dev.HdBlocks.{stamp_part, read_part_block, write_part_block}
use adflib.Dev.HdSeal.{IsHdBlock}
use adflib.Dev.HdTrip.{SameHd, write_part_block-read}
use adflib.Tests.Volumes.{ten_blocks, ten_blocks-IsMounted}
use adflib.Tests.Blocks.{strict}

abbrev sevens_part : List ℕ
sevens_part = replicate 256 7

sevens_part-IsHdBlock : IsHdBlock sevens_part
sevens_part-IsHdBlock = record {
  whole = length-replicate {A = ℕ} 256 7;
  bytes = λ i. ground (arith, get_or-replicate {A = ℕ} 256 7 i 0);
}

write_part_block-read_example :
    let (dev', rc) = write_part_block ten_blocks.dev 1 sevens_part in
    (rc ≡ rc_ok)
    × ((part' : List ℕ) × (read_part_block strict dev' 1 ≡ ok part')
        × SameHd (stamp_part sevens_part) part')
write_part_block-read_example =
    write_part_block-read strict ten_blocks.dev 1 sevens_part ten_blocks-IsMounted.device
      (omega arith) refl sevens_part-IsHdBlock
