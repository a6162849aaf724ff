-- ===== src/Bitmap/Rebuild.antt =====
-- src/adf_bitm.c, `adfReconstructBitmap`: the bitmap is made anew from the entries of the volume, all of them
-- by the hash tables of the directories or by their caches. Chains are on fuel, `set.chain`.
use adflib.Prelude.{
  ℕ, zero, suc, ◌-◌, ◌*◌, ◌^◌, Bool, true, not, ◌&&◌, List, [], ◌∷◌, map, set as put, tabulate,
  none, some, ltb, ◌==◌, if◌then◌else◌, ◌>>?◌, Fault,
}
use adflib.Util.{load32}
use adflib.Err.{RetCode, rc_ok, rc_error, ok, err, is_ok, ◌>>s◌}
use adflib.Vol.{Volume, vol_is_sect_num_valid}
use adflib.Block.{
  Env, st_dir, st_file, read_entry_block, read_file_ext_block, read_bitmap_ext_block,
  read_dir_c_block,
}
use adflib.Bitmap.{set_block_used, set_blocks_used, set_blocks_free}
use adflib.Bitmap.Disk.{
  bm_pages_root_size, bm_pages_ext_size, bm_page, bm_ext, free_bitmap, root_pages_asserted,
}
use adflib.File.{max_datablk}
use adflib.File.Handle.{data_block, extension}
use adflib.Cache.Chain.{next_dir_c}
use adflib.Cache.Listing.{DirList, null, cell}
use adflib.Dir.Create.{Setting}
use adflib.Dir.Remove.{is_dir_empty}
use adflib.Dir.Entries.{Entry}
use adflib.Dir.Tree.{get_r_dir_ent}

abbrev pub page_named : Volume → ℕ → ℕ → Volume
page_named vol j n_sect = record vol {
  bitmap = record vol.bitmap { blocks = put vol.bitmap.blocks j n_sect };
}

-- The loop over the root block's pages, at most `n` more; with the index that it stops at.
unfoldable pub name_root_pages : ℕ → Volume → List ℕ → ℕ → Volume × RetCode × ℕ
name_root_pages zero vol root i = (vol, rc_ok, i)
name_root_pages (suc n) vol root i =
    let bm_sect = bm_page root i in
    let vol1 = page_named vol i bm_sect in
    let rest = name_root_pages n vol1 root (suc i) in
    if ltb i vol.bitmap.size && not (bm_sect == 0)
    then (if vol_is_sect_num_valid vol1 bm_sect then rest else (free_bitmap vol1, rc_error, i))
    else (vol, rc_ok, i)

-- The pages that an extension block names.
unfoldable pub name_more_pages : ℕ → Volume → List ℕ → ℕ → ℕ → Volume × RetCode × ℕ
name_more_pages zero vol block i j = (vol, rc_ok, j)
name_more_pages (suc n) vol block i j =
    let bm_sect = load32 block (4 * i) in
    let rest = name_more_pages n (page_named vol j bm_sect) block (suc i) (suc j) in
    if ltb j vol.bitmap.size
    then (if vol_is_sect_num_valid vol bm_sect then rest else (free_bitmap vol, rc_error, j))
    else (vol, rc_ok, j)

unfoldable pub name_ext_chain : ℕ → Env → Volume → ℕ → ℕ → Fault (Volume × RetCode)
name_ext_chain zero env vol bm_ext_sect j = none
name_ext_chain (suc fuel) env vol bm_ext_sect j =
    if bm_ext_sect == 0
    then some (vol, rc_ok)
    else elim (read_bitmap_ext_block env vol bm_ext_sect) [
      | err rc ↦ some (free_bitmap vol, rc)
      | ok block ↦
          let (vol1, rc, j1) = name_more_pages bm_pages_ext_size vol block 0 j in
          let rest = name_ext_chain fuel env vol1 (load32 block 508) j1 in
          if is_ok rc then rest else some (vol1, rc)
    ]

-- `> 1` of an `int32_t`.
abbrev pub names_block : ℕ → Bool
names_block n = ltb 1 n && ltb n (2 ^ 31)

-- The data blocks that a header or an extension block names.
unfoldable pub data_blocks_set_used : List ℕ → Volume → Fault Volume
data_blocks_set_used [] vol = some vol
data_blocks_set_used (n_sect ∷ rest) vol =
    let skipped = data_blocks_set_used rest vol in
    if names_block n_sect
    then (set_block_used vol n_sect >>? λ vol1. data_blocks_set_used rest vol1)
    else skipped

abbrev pub data_sectors_of : List ℕ → List ℕ
data_sectors_of block = tabulate max_datablk (data_block block)

unfoldable pub ext_chain_set_used : ℕ → Env → Volume → ℕ → Fault (Volume × RetCode)
ext_chain_set_used zero env vol ext_block_ptr = none
ext_chain_set_used (suc fuel) env vol ext_block_ptr =
    if ext_block_ptr == 0
    then some (vol, rc_ok)
    else (set_block_used vol ext_block_ptr >>? λ vol1.
        elim (read_file_ext_block env vol1 ext_block_ptr) [
          | err rc ↦ some (vol1, rc)
          | ok fext ↦ data_blocks_set_used (data_sectors_of fext) vol1 >>? λ vol2.
              ext_chain_set_used fuel env vol2 (extension fext)
        ])

unfoldable pub bitmap_file_blocks_set_used : Setting → Volume → List ℕ → Fault (Volume × RetCode)
bitmap_file_blocks_set_used set vol fh_block =
    data_blocks_set_used (data_sectors_of fh_block) vol >>? λ vol1.
    ext_chain_set_used set.chain set.env vol1 (extension fh_block)

unfoldable pub bitmap_dir_cache_set_used : ℕ → Env → Volume → ℕ → Fault (Volume × RetCode)
bitmap_dir_cache_set_used zero env vol n_sect = none
bitmap_dir_cache_set_used (suc fuel) env vol n_sect =
    if n_sect == 0
    then some (vol, rc_ok)
    else (set_block_used vol n_sect >>? λ vol1. elim (read_dir_c_block env vol1 n_sect) [
      | err rc ↦ some (vol1, rc)
      | ok dirc ↦ bitmap_dir_cache_set_used fuel env vol1 (next_dir_c dirc)
    ])

-- The blocks of an entry besides its own.
unfoldable pub entry_blocks_set_used : Setting → Volume → Entry → ℕ → Fault (Volume × RetCode)
entry_blocks_set_used set vol entry sector =
    if entry.type == st_file
    then elim (read_entry_block set.env vol sector) [
      | err rc ↦ some (vol, rc)
      | ok fh_block ↦ bitmap_file_blocks_set_used set vol fh_block
    ]
    else if entry.type == st_dir
    then elim (read_entry_block set.env vol sector) [
      | err rc ↦ some (vol, rc)
      | ok dir_block ↦ bitmap_dir_cache_set_used set.chain set.env vol (load32 dir_block 504)
    ]
    else some (vol, rc_ok)

-- `adfBitmapListSetUsed`; a sector that was never set is a fault.
unfoldable pub bitmap_list_set_used : Setting → DirList → Volume → Fault (Volume × RetCode)
bitmap_list_set_used set null vol = some (vol, rc_ok)
bitmap_list_set_used set (cell entry subdir next) vol = entry.sector >>? λ sector.
    set_block_used vol sector >>? λ vol1. entry_blocks_set_used set vol1 entry sector >>? λ own.
    own >>s λ vol2. bitmap_list_set_used set subdir vol2 >>? λ below.
    below >>s λ vol3. bitmap_list_set_used set next vol3

-- The blocks in use, marked in a bitmap that has all others free. The code that the entries give is dropped.
unfoldable pub mark_all_used : Bool → Setting → Volume → Fault (Volume × RetCode)
mark_all_used use_dir_cache set vol = set_block_used vol vol.root_block >>? λ vol1.
    set_blocks_used vol1 vol1.bitmap.blocks >>? λ vol2.
    elim (read_entry_block set.env vol2 vol2.root_block) [
      | err rc ↦ some (vol2, rc)
      | ok root_dir ↦
          if is_dir_empty root_dir
          then some (vol2, rc_ok)
          else (get_r_dir_ent use_dir_cache set vol2 true vol2.root_block >>? λ entries.
              elim entries [
                | null ↦ some (vol2, rc_error)
                | cell entry subdir next ↦
                    bitmap_list_set_used set (cell entry subdir next) vol2 >>? λ marked.
                    some (marked.0, rc_ok)
              ])
    ]

-- The assertions make the tests of the pages that follow them pass.
unfoldable pub reconstruct_bitmap : Bool → Setting → Volume → List ℕ → Fault (Volume × RetCode)
reconstruct_bitmap use_dir_cache set vol root =
    let flags = map (λ _. true) vol.bitmap.blocks_chg in
    let vol0 = record vol { bitmap = record vol.bitmap { blocks_chg = flags } } in
    let (vol1, rc, i) = name_root_pages bm_pages_root_size vol0 root 0 in
    if not (is_ok rc)
    then some (vol1, rc)
    else if not (root_pages_asserted vol1.bitmap.size root i)
    then none
    else (name_ext_chain set.chain set.env vol1 (bm_ext root) i >>? λ named. named >>s λ vol2.
        set_blocks_free (vol2.last_block - vol2.first_block - 2) 2 vol2 >>? λ vol3.
        mark_all_used use_dir_cache set vol3)
