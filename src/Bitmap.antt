-- ===== src/Bitmap.antt =====
-- src/adf_bitm.c: the bitmap of a volume, with a bit for each block from 2 on that is set while the block
-- is free. A failed assertion and an access outside the tables are `none`.
pub mod Bits
pub mod Marks
pub mod Scan
pub mod Alloc
pub mod Count
pub mod Disk
pub mod Pages
pub mod Rebuild
use adflib.Prelude.{
  ℕ, zero, suc, ◌+◌, ◌-◌, ◌*◌, ◌/◌, ◌%◌, ◌^◌, bit_and, bit_or, Bool, true, false, not, ◌&&◌, ◌||◌,
  List, [], ◌∷◌, ◌++◌, Option, none, some, length, get_elem?, get_or, set, tabulate, ltb, leb, ◌==◌,
  if◌then◌else◌, ◌>>?◌, Fault,
}
use adflib.Vol.{Volume, Bitmap, BitmapMap, vol_get_size_in_blocks_without_bootblock}

abbrev pub bm_map_size : ℕ
bm_map_size = 127

abbrev pub bit_mask : List ℕ
bit_mask =
    0x1 ∷ 0x2 ∷ 0x4 ∷ 0x8 ∷ 0x10 ∷ 0x20 ∷ 0x40 ∷ 0x80 ∷ 0x100 ∷ 0x200 ∷ 0x400 ∷ 0x800 ∷ 0x1000
    ∷ 0x2000 ∷ 0x4000 ∷ 0x8000 ∷ 0x10000 ∷ 0x20000 ∷ 0x40000 ∷ 0x80000 ∷ 0x100000 ∷ 0x200000
    ∷ 0x400000 ∷ 0x800000 ∷ 0x1000000 ∷ 0x2000000 ∷ 0x4000000 ∷ 0x8000000 ∷ 0x10000000 ∷ 0x20000000
    ∷ 0x40000000 ∷ 0x80000000 ∷ []

unfoldable pub n_block2bitmap_size : ℕ → ℕ
n_block2bitmap_size n_block =
    let map_size = n_block / (bm_map_size * 32) in
    if n_block % (bm_map_size * 32) == 0 then map_size else map_size + 1

-- The place of a block in the bitmap: the map, the long of the map, the bit of the long.
abbrev pub block_of_map : ℕ → ℕ
block_of_map n_sect = (n_sect - 2) / (bm_map_size * 32)

abbrev pub index_in_map : ℕ → ℕ
index_in_map n_sect = (n_sect - 2) / 32 % bm_map_size

abbrev pub mask_of : ℕ → ℕ
mask_of n_sect = get_or bit_mask ((n_sect - 2) % 32) 0

-- The long of the bitmap that holds the block's bit.
unfoldable pub long_of : Bitmap → ℕ → Fault ℕ
long_of bitmap n_sect =
    get_elem? bitmap.table (block_of_map n_sect) >>? λ m. get_elem? m (index_in_map n_sect)

-- The long replaced, and its map marked as changed.
unfoldable pub with_long : Bitmap → ℕ → ℕ → Bitmap
with_long bitmap n_sect value =
    let block = block_of_map n_sect in
    record bitmap {
      table =
          set bitmap.table block (set (get_or bitmap.table block []) (index_in_map n_sect) value);
      blocks_chg = set bitmap.blocks_chg block true;
    }

unfoldable pub is_block_free : Volume → ℕ → Fault Bool
is_block_free vol n_sect =
    if ltb n_sect 2
    then none
    else (long_of vol.bitmap n_sect >>? λ long. some (not (bit_and long (mask_of n_sect) == 0)))

unfoldable pub set_block_free : Volume → ℕ → Fault Volume
set_block_free vol n_sect =
    if ltb n_sect 2 || ltb (vol.last_block - vol.first_block) n_sect
    then none
    else (long_of vol.bitmap n_sect >>? λ old_value.
        some
          (record vol { bitmap = with_long vol.bitmap n_sect (bit_or old_value (mask_of n_sect)) }))

-- `~mask` of a `uint32_t` is its difference to 2^32 - 1.
unfoldable pub set_block_used : Volume → ℕ → Fault Volume
set_block_used vol n_sect =
    if ltb n_sect 2 || ltb (vol.last_block - vol.first_block) n_sect
    then none
    else (long_of vol.bitmap n_sect >>? λ old_value. some (record vol {
      bitmap = with_long vol.bitmap n_sect (bit_and old_value (2 ^ 32 - 1 - mask_of n_sect));
    }))

-- The loop of `adfGetFreeBlocks`; it gives the filled part of `sectList`.
unfoldable pub scan : ℕ → Volume → ℕ → Bool → ℕ → List ℕ → Fault (List ℕ)
scan zero vol nb_sect disk_full block sect_list = none
scan (suc fuel) vol nb_sect disk_full block sect_list =
    if ltb (length sect_list) nb_sect && not disk_full
    then (is_block_free vol block >>? λ free.
        let at_end = block + vol.first_block == vol.last_block in
        scan fuel vol nb_sect (if at_end then false else suc block == vol.root_block)
          (if at_end then 2 else suc block) (if free then sect_list ++ (block ∷ []) else sect_list))
    else some sect_list

unfoldable pub set_blocks_used : Volume → List ℕ → Fault Volume
set_blocks_used vol [] = some vol
set_blocks_used vol (n_sect ∷ sect_list) =
    set_block_used vol n_sect >>? λ vol'. set_blocks_used vol' sect_list

-- `adfGetFreeBlocks`: the volume after it, and the blocks if all were got.
unfoldable pub get_free_blocks : Volume → ℕ → Fault (Volume × Option (List ℕ))
get_free_blocks vol nb_sect =
    scan (vol.last_block - vol.first_block + 1) vol nb_sect false vol.root_block [] >>? λ sect_list.
    if length sect_list == nb_sect
    then (set_blocks_used vol sect_list >>? λ vol'. some (vol', some sect_list))
    else some (vol, none)

-- `adfGet1FreeBlock`, which gives -1 on a full disk.
unfoldable pub get1_free_block : Volume → Fault (Volume × Option ℕ)
get1_free_block vol = get_free_blocks vol 1 >>? λ r.
    let (vol', got) = r in
    elim got [
      | none ↦ some (vol', none)
      | some sect_list ↦ get_elem? sect_list 0 >>? λ n_sect. some (vol', some n_sect)
    ]

-- The loop of `adfCountFreeBlocks` over `n` blocks from `j` on.
unfoldable pub count_free_loop : Volume → ℕ → ℕ → Fault ℕ
count_free_loop vol zero j = some 0
count_free_loop vol (suc n) j = is_block_free vol j >>? λ free.
    count_free_loop vol n (suc j) >>? λ rest. some (if free then suc rest else rest)

unfoldable pub count_free_blocks : Volume → Fault ℕ
count_free_blocks vol =
    if ltb 2 (vol.last_block - vol.first_block)
    then count_free_loop vol (vol.last_block - vol.first_block - 1) 2
    else none

-- `adfBitmapAllocate`, with the contents that the allocator happens to give.
unfoldable pub bitmap_allocate : (ℕ → BitmapMap) → (ℕ → ℕ) → (ℕ → Bool) → Volume → Volume
bitmap_allocate map_found block_found chg_found vol =
    let size = n_block2bitmap_size (vol_get_size_in_blocks_without_bootblock vol) in
    record vol {
      bitmap = record {
        size = size;
        table = tabulate size map_found;
        blocks = tabulate size block_found;
        blocks_chg = tabulate size chg_found;
      };
    }

-- The blocks from `i` on, `n` of them, set free.
unfoldable pub set_blocks_free : ℕ → ℕ → Volume → Fault Volume
set_blocks_free zero i vol = some vol
set_blocks_free (suc n) i vol = set_block_free vol i >>? λ vol'. set_blocks_free n (suc i) vol'

unfoldable pub create_bitmap : (ℕ → BitmapMap) → (ℕ → ℕ) → (ℕ → Bool) → Volume → Fault Volume
create_bitmap map_found block_found chg_found vol =
    let vol' = bitmap_allocate map_found block_found chg_found vol in
    let from = vol.first_block + 2 in
    set_blocks_free (vol.last_block - vol.first_block + 1 - from) from vol'
