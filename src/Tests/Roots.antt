-- ===== src/Tests/Roots.antt =====
-- The root block as a parent, on the volume of ten blocks with a root block.
use adflib.Prelude.{
  ℕ, ◌+◌, ◌-◌, ◌*◌, ◌<◌, ◌≤◌, ◌≡◌, refl, arith, zero, suc, true, false, get_or-replicate, List, [],
  ◌∷◌, ◌++◌, replicate, length,
}
use adflib.Util.{
  byte, load32, store32, swap_uint32_at_ptr, swap_uint32_from_ptr, swap_uint16_from_ptr,
}
use adflib.Util.ByteOrder.{IsBytes}
use adflib.Raw.{swap_endian, swap_els, swap_items, swap_one, normal_sum, normal_sum_loop}
use adflib.Raw.Swap.{flip}
use adflib.Date.{AmigaTime}
use adflib.Err.{rc_ok, ok}
use adflib.Dev.Blocks.{byte-append}
use adflib.Dev.{dev_read_block, ramdisk_read_sectors}
use adflib.Vol.{Volume, vol_read_block}
use adflib.Vol.Blocks.{IsMounted}
use adflib.Block.{Env, read_entry_block, sum_is_valid}
use adflib.Block.Seal.{IsBlock}
use adflib.Dir.Create.{write_parent}
use adflib.Dir.RootMix.{write_parent-read_entry_block}
use adflib.Tests.Volumes.{ten_blocks}

abbrev root_buf : List ℕ
root_buf = 0 ∷ 0 ∷ 0 ∷ 2 ∷ (replicate 504 0 ++ (0 ∷ 0 ∷ 0 ∷ 1 ∷ []))

abbrev rooted : Volume
rooted = record ten_blocks {
  dev = record {
    read_only = false;
    size_blocks = 10;
    drv_data = replicate 2560 0 ++ (root_buf ++ replicate 2048 0);
  };
}

abbrev tolerant : Env
tolerant = record { ignore_checksum_errors = true }

abbrev epoch : AmigaTime
epoch = record { day = 0; min = 0; ticks = 0 }

rooted-IsMounted : IsMounted rooted
rooted-IsMounted = record {
  device = record { holds = refl; small = omega arith };
  is_mounted = refl;
  ordered = omega arith;
  inside = omega arith;
}

root_buf_reads :
    (vol_read_block rooted 5 ≡ ok root_buf)
    × (swap_uint32_from_ptr root_buf 508 ≡ 1)
    × (read_entry_block tolerant rooted 5 ≡ ok (swap_endian root_buf 3))
unfolding read_entry_block vol_read_block dev_read_block ramdisk_read_sectors load32 swap_endian
    swap_els swap_items swap_one swap_uint32_at_ptr swap_uint32_from_ptr swap_uint16_from_ptr
    sum_is_valid normal_sum normal_sum_loop
root_buf_reads = (refl, refl, refl)

append-IsBytes : (xs ys : List ℕ) → IsBytes xs → IsBytes ys → IsBytes (xs ++ ys)
append-IsBytes xs ys h k i = ground (arith, byte-append xs ys i, h i, k (i - length xs))

zeros : IsBytes (replicate 504 0)
zeros i = ground (arith, get_or-replicate {A = ℕ} 504 0 i 0)

root_buf-IsBlock : IsBlock root_buf
root_buf-IsBlock = record { whole = refl; bytes = small }
  where
    last : (i : ℕ) → byte (0 ∷ 0 ∷ 0 ∷ 1 ∷ []) i < 256
    last zero = omega arith
    last (suc zero) = omega arith
    last (suc (suc zero)) = omega arith
    last (suc (suc (suc zero))) = omega arith
    last (suc (suc (suc (suc i)))) = omega arith

    small : IsBytes root_buf
    small zero = omega arith
    small (suc zero) = omega arith
    small (suc (suc zero)) = omega arith
    small (suc (suc (suc zero))) = omega arith
    small (suc (suc (suc (suc i)))) =
        append-IsBytes (replicate 504 0) (0 ∷ 0 ∷ 0 ∷ 1 ∷ []) zeros last i

write_parent-read_entry_block_example :
    let (vol', rc) =
      (write_parent epoch rooted (store32 (swap_endian root_buf 3) (24 + 4 * 3) 7)).0 in
    (rc ≡ rc_ok)
    × ((buf' : List ℕ) × (vol_read_block vol' 5 ≡ ok buf')
        × ((i : ℕ) → 328 ≤ i → i < 420 → byte buf' i ≡ byte root_buf (flip i)))
write_parent-read_entry_block_example =
    write_parent-read_entry_block tolerant epoch rooted root_buf (swap_endian root_buf 3) 3 7
      rooted-IsMounted (omega arith) refl root_buf_reads.0 root_buf-IsBlock root_buf_reads.1
      root_buf_reads.2 (omega arith)
