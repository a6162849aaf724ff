-- ===== src/Tests/Volumes.antt =====
-- A volume of ten blocks, and the theorems on volumes and bitmaps for it.
use adflib.Prelude.{
  ℕ, zero, suc, ◌+◌, ◌++◌, ◌-◌, ◌*◌, ◌/◌, ◌%◌, ◌^◌, ◌<◌, ◌≤◌, ◌≡◌, ◌≢◌, ◌⊎◌, ◌↔◌, inl, inr, refl,
  arith, Bool, true, false, ◌||◌, List, [], ◌∷◌, length, take, replicate, length-replicate, get_or,
  Option, some, none, if◌then◌else◌, ◌==◌, ltb,
}
use adflib.Err.{rc_ok, ok}
use adflib.Dev.{dev_read_block, ramdisk_read_sectors}
use adflib.Dev.Blocks.{block_of}
use adflib.Vol.{Volume, dos, vol_read_block, vol_write_block, vol_has_intl, vol_has_dircache}
use adflib.Vol.Blocks.{IsMounted, InVolume, vol_write_block-read_block}
use adflib.Bitmap.{
  n_block2bitmap_size, set_block_free, set_block_used, get_free_blocks, count_free_blocks,
}
use adflib.Bitmap.Marks.{IsBitmap, InBitmap, IsMarked, free_in, set_block_used_lem}
use adflib.Bitmap.Alloc.{mem, distinct, free_list, IsAllocated, HasRoot, get_free_blocks_lem}
use adflib.Bitmap.Count.{get_free_blocks-count}
use adflib.Util.{load32, swap_uint32_at_ptr, swap_uint32_from_ptr, swap_uint16_from_ptr}
use adflib.Raw.{swap_endian, swap_els, swap_items, swap_one, normal_sum, normal_sum_loop}
use adflib.Block.{Env, read_entry_block, sum_is_valid}
use adflib.Dir.{to_upper, hash_loop, get_hash_value, name_to_entry_blk}
use adflib.Dir.Lookup.{ends, first_named, name_to_entry_blk_lem}

abbrev pub ten_blocks : Volume
ten_blocks = record {
  dev = record { read_only = false; size_blocks = 10; drv_data = replicate 5120 0 };
  first_block = 0;
  last_block = 9;
  root_block = 5;
  fs_id = dos;
  fs_type = 0;
  read_only = false;
  datablock_size = 488;
  mounted = true;
  bitmap = record {
    size = 1;
    blocks = 6 ∷ [];
    table = replicate 127 0xffff_ffff ∷ [];
    blocks_chg = false ∷ [];
  };
  cur_dir_ptr = 5;
}

pub ten_blocks-IsMounted : IsMounted ten_blocks
ten_blocks-IsMounted = record {
  device = record { holds = length-replicate {A = ℕ} 5120 0; small = omega arith };
  is_mounted = refl;
  ordered = omega arith;
  inside = omega arith;
}

one_map : (b : ℕ) → b < 1 → length (get_or ten_blocks.bitmap.table b []) ≡ 127
one_map zero h = refl
one_map (suc b) h = absurd (omega arith)

ten_blocks-IsBitmap : IsBitmap ten_blocks
unfolding n_block2bitmap_size
ten_blocks-IsBitmap = record { sized = refl; tables = refl; flags = refl; maps = one_map }

ten_blocks-HasRoot : HasRoot ten_blocks
ten_blocks-HasRoot = record { after_boot = omega arith; inside = omega arith }

-- The blocks of the two first free ones in the search order.
two_got : take 2 (free_list ten_blocks) ≡ 5 ∷ 6 ∷ []
unfolding free_list adflib.Bitmap.Scan.free_from adflib.Prelude.Bits.bit_at
two_got = refl

get_free_blocks_lem_example :
    let list = take 2 (free_list ten_blocks) in
    (distinct list ≡ true)
    × ((k : ℕ) → mem k list ≡ true → InBitmap ten_blocks k × (free_in ten_blocks k ≡ true))
    × ((2 ≤ length (free_list ten_blocks))
        → (vol' : Volume) × (get_free_blocks ten_blocks 2 ≡ some (vol', some list))
          × (length list ≡ 2)
          × IsAllocated ten_blocks vol' list)
    × (length (free_list ten_blocks) < 2 → get_free_blocks ten_blocks 2 ≡ some (ten_blocks, none))
get_free_blocks_lem_example =
    get_free_blocks_lem ten_blocks 2 ten_blocks-IsBitmap ten_blocks-HasRoot

get_free_blocks-count_example :
    (n : ℕ) × (count_free_blocks ten_blocks ≡ some n)
    × (2 ≤ n
        → (vol' : Volume) × (list : List ℕ) × (get_free_blocks ten_blocks 2
            ≡ some (vol', some list))
          × (count_free_blocks vol' ≡ some (n - 2)))
    × (n < 2 → get_free_blocks ten_blocks 2 ≡ some (ten_blocks, none))
get_free_blocks-count_example =
    get_free_blocks-count ten_blocks 2 ten_blocks-IsBitmap ten_blocks-HasRoot

set_block_used_lem_example :
    (vol' : Volume) × (set_block_used ten_blocks 7 ≡ some vol') × IsMarked ten_blocks vol' 7 false
set_block_used_lem_example =
    set_block_used_lem ten_blocks ten_blocks-IsBitmap 7 (omega arith, omega arith)

vol_write_block-read_block_example :
    let (vol', rc) = vol_write_block ten_blocks 4 (replicate 512 7) in
    (rc ≡ rc_ok)
    × (vol_read_block vol' 4 ≡ ok (replicate 512 7))
    × ((k : ℕ)
        → InVolume ten_blocks k
        → k ≢ 4
        → vol_read_block vol' k ≡ vol_read_block ten_blocks k)
    × IsMounted vol'
    × ((p : ℕ)
        → p < ten_blocks.dev.size_blocks
        → (p < ten_blocks.first_block) ⊎ (ten_blocks.last_block < p)
        → block_of vol'.dev.drv_data p ≡ block_of ten_blocks.dev.drv_data p)
vol_write_block-read_block_example =
    vol_write_block-read_block ten_blocks 4 (replicate 512 7) ten_blocks-IsMounted (omega arith)
      (length-replicate {A = ℕ} 512 7) refl

-- The block of an entry named "A", as it is on the disk.
abbrev named_block : List ℕ
named_block =
    0 ∷ 0 ∷ 0 ∷ 2 ∷ (replicate 428 0 ++ (1 ∷ 65 ∷ (replicate 74 0 ++ (0 ∷ 0 ∷ 0 ∷ 2 ∷ []))))

abbrev named : Volume
named = record ten_blocks {
  dev = record ten_blocks.dev { drv_data = replicate 2048 0 ++ (named_block ++ replicate 2560 0) };
}

abbrev lenient : Env
lenient = record { ignore_checksum_errors = true }

read_named : read_entry_block lenient named 4 ≡ ok (swap_endian named_block 3)
unfolding read_entry_block vol_read_block dev_read_block ramdisk_read_sectors load32 swap_endian
    swap_els swap_items swap_one swap_uint32_at_ptr swap_uint32_from_ptr swap_uint16_from_ptr
    sum_is_valid normal_sum normal_sum_loop
read_named = refl

-- A hash table with the entry's block in each place, and the name "a".
abbrev table : List ℕ
table = replicate 72 4

abbrev name_a : List ℕ
name_a = 97 ∷ []

name_to_entry_blk_lem_example :
    let intl = vol_has_intl named || vol_has_dircache named in
    let n_sect = get_or table (get_hash_value to_upper name_a intl) 0 in
    name_to_entry_blk 2 to_upper lenient named table name_a
    ≡ some (
        if ltb 30 (length name_a) || (n_sect == 0)
        then none
        else first_named ((4, swap_endian named_block 3) ∷ []) name_a intl 0)
unfolding get_hash_value vol_has_intl vol_has_dircache load32 swap_endian swap_els swap_items
    swap_one swap_uint32_at_ptr hash_loop to_upper
name_to_entry_blk_lem_example =
    name_to_entry_blk_lem 2 to_upper lenient named table name_a
      ((4, swap_endian named_block 3) ∷ []) (ends 4 (swap_endian named_block 3) read_named refl)
      (omega arith)
