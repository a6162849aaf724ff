-- ===== src/Tests/Recovery.antt =====
-- The deleted file of Tests.Files is recovered.
use adflib.Prelude.{
  ℕ, ◌+◌, ◌<◌, ◌≡◌, List, refl, sym, ap, ap₂, ◌∙◌, arith, true, false, [], ◌∷◌, ◌++◌, some,
  if◌then◌else◌,
}
use adflib.Prelude.Bits.{bit_at}
use adflib.Util.{load32, store32, swap_uint32_from_ptr, swap_uint16_from_ptr}
use adflib.Err.{RetCode, rc_ok, rc_error, ok, err}
use adflib.Block.{read_entry_block}
use adflib.Bitmap.Disk.{update_bitmap}
use adflib.Dev.{dev_read_block, ramdisk_read_sectors}
use adflib.Vol.{Volume, vol_read_block, vol_has_dircache, dos_fs_has_dircache}
use adflib.Bitmap.{is_block_free, long_of}
use adflib.Bitmap.Marks.{InBitmap, free_in}
use adflib.Bitmap.Alloc.{mem, IsAllocated}
use adflib.Cache.Chain.{header_key}
use adflib.File.Content.{slice, file_size}
use adflib.Dir.Create.{Setting}
use adflib.Salvage.{
  parent_is_right, check_parent, read_gen_block, mark_blocks, revert_blocks, undel_file,
  enter_again,
}
use adflib.Salvage.Undelete.{
  all_sectors, each_free, blocks_of, revert_blocks-mark_blocks, undel_file-blocks,
}
use adflib.Tests.Files.{
  small, small_volume, small_header, strict, small-IsStored, small-IsCounted, small-IsBitmap,
  small_data_n, small_ext_n, small_size,
}

abbrev salvaging : Setting
salvaging = record {
  env = strict;
  now = record { day = 0; min = 0; ticks = 0 };
  toupper = λ c. c;
  chain = 2;
}

own_block : header_key small_header ≡ 7
unfolding load32 store32
own_block = refl

three_sectors : all_sectors (blocks_of small) (header_key small_header) ≡ 3 ∷ 4 ∷ 7 ∷ []
three_sectors =
    ap₂ (λ n m. slice (λ k. k + 3) 0 n ++ (slice (λ e. 1) 0 m ++ (header_key small_header ∷ [])))
      small_data_n small_ext_n
    ∙ ap (λ n. 3 ∷ 4 ∷ n ∷ []) own_block

three_inside :
    (k : ℕ)
    → mem k (all_sectors (blocks_of small) (header_key small_header)) ≡ true
    → InBitmap small_volume k
unfolding mem
three_inside k h =
    let q : mem k (3 ∷ 4 ∷ 7 ∷ []) ≡ true = ap (λ t. mem k t) (sym three_sectors) ∙ h in
    (ground (arith, q), ground (arith, q))

no_cache : vol_has_dircache small_volume ≡ false
unfolding vol_has_dircache dos_fs_has_dircache
no_cache = refl

right_parent : parent_is_right small_volume 5 small_header ≡ some rc_ok
unfolding parent_is_right check_parent is_block_free long_of read_gen_block vol_read_block
    dev_read_block ramdisk_read_sectors load32 store32 swap_uint32_from_ptr swap_uint16_from_ptr
right_parent = refl

small_nonempty : 0 < file_size small
small_nonempty = omega (arith, small_size)

undel_file-blocks_example :
    let n = header_key small_header in
    let all = all_sectors (blocks_of small) n in
    (each_free small_volume all ≡ true
      → (vol1 : Volume) × IsAllocated small_volume vol1 all
        × ((dir parent : List ℕ) (vol2 : Volume)
            → read_entry_block strict vol1 5 ≡ ok dir
            → enter_again salvaging vol1 dir small_header ≡ some ((vol2, parent), true)
            → (undel_file salvaging small_volume 5 n small_header
                ≡ some (update_bitmap strict salvaging.now vol2))
              × ((k : ℕ)
                  → InBitmap small_volume k
                  → free_in (update_bitmap strict salvaging.now vol2).0 k
                    ≡ (if mem k all then false else free_in small_volume k)))
        × ((rc : RetCode)
            → read_entry_block strict vol1 5 ≡ err rc
            → (vol2 : Volume) × (undel_file salvaging small_volume 5 n small_header
                ≡ some (vol2, rc))
              × ((k : ℕ)
                  → InBitmap small_volume k
                  → free_in vol2 k ≡ (if mem k all then true else free_in small_volume k))))
    × (each_free small_volume all ≡ false
        → undel_file salvaging small_volume 5 n small_header ≡ some (small_volume, rc_error))
undel_file-blocks_example =
    undel_file-blocks salvaging small 5 no_cache small-IsStored small-IsCounted small-IsBitmap
      small_nonempty right_parent three_inside

-- All three blocks are free.
all_are_free : each_free small_volume (3 ∷ 4 ∷ 7 ∷ []) ≡ true
unfolding each_free bit_at
all_are_free = refl

revert_blocks-mark_blocks_example :
    (vol1 : Volume) × (vol2 : Volume) × (mark_blocks small_volume
        (blocks_of small)
        (header_key small_header)
      ≡ some vol1)
    × (revert_blocks vol1 (blocks_of small) (header_key small_header) ≡ some vol2)
    × IsAllocated small_volume vol1 (all_sectors (blocks_of small) (header_key small_header))
    × ((k : ℕ)
        → InBitmap small_volume k
        → free_in vol2 k ≡ (
            if mem k (all_sectors (blocks_of small) (header_key small_header))
            then true
            else free_in small_volume k))
revert_blocks-mark_blocks_example =
    revert_blocks-mark_blocks small_volume (blocks_of small) (header_key small_header)
      small-IsBitmap three_inside
