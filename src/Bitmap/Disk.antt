-- ===== src/Bitmap/Disk.antt =====
-- src/adf_bitm.c: the bitmap on the disk, its pages named by the root block and by bitmap extension blocks.
use adflib.Prelude.{
  ℕ, zero, suc, ◌+◌, ◌-◌, ◌*◌, ◌/◌, ◌%◌, ◌^◌, Bool, false, not, ◌&&◌, ◌||◌, List, [], ◌∷◌, map,
  get_or, set, take, tabulate, replicate, none, some, ltb, ◌==◌, if◌then◌else◌, ◌>>?◌, Fault,
}
use adflib.Util.{load32, store32}
use adflib.Err.{RetCode, rc_ok, rc_error, rc_volfull, ok, err, is_ok}
use adflib.Date.{AmigaTime}
use adflib.Vol.{Volume, BitmapMap, vol_is_sect_num_valid}
use adflib.Block.{
  Env, stamp_root, read_root_block, write_root_block, read_bitmap_block, write_bitmap_block,
  read_bitmap_ext_block, write_bitmap_ext_block,
}
use adflib.Bitmap.{bm_map_size, get_free_blocks}

abbrev pub bm_pages_root_size : ℕ
bm_pages_root_size = 25

abbrev pub bm_pages_ext_size : ℕ
bm_pages_ext_size = 127

abbrev pub bm_valid : ℕ
bm_valid = 2 ^ 32 - 1

abbrev pub bm_flag_at : ℕ
bm_flag_at = 312

-- `root->bmPages[ i ]`; the element after the last is `bmExt`.
abbrev pub bm_page : List ℕ → ℕ → ℕ
bm_page root i = load32 root (316 + 4 * i)

abbrev pub bm_ext : List ℕ → ℕ
bm_ext root = load32 root 416

-- The longs of a bitmap block in memory, and the block of such longs, its checksum not yet set.
abbrev pub map_of_block : List ℕ → BitmapMap
map_of_block bitm = tabulate bm_map_size (λ i. load32 bitm (4 + 4 * i))

unfoldable pub longs_from : List ℕ → ℕ → List ℕ → List ℕ
longs_from m p [] = m
longs_from m p (x ∷ xs) = longs_from (store32 m p x) (p + 4) xs

abbrev pub block_of_map_longs : BitmapMap → List ℕ
block_of_map_longs longs = longs_from (replicate 512 0) 4 longs

abbrev pub free_bitmap : Volume → Volume
free_bitmap vol = record vol {
  bitmap = record { size = 0; blocks = []; table = []; blocks_chg = [] };
}

abbrev with_page : Volume → ℕ → ℕ → Volume
with_page vol j n_sect = record vol {
  bitmap = record vol.bitmap { blocks = set vol.bitmap.blocks j n_sect };
}

abbrev with_map : Volume → ℕ → List ℕ → Volume
with_map vol j bitm = record vol {
  bitmap = record vol.bitmap { table = set vol.bitmap.table j (map_of_block bitm) };
}

-- One page of the bitmap, named by the root block.
unfoldable pub read_root_page : Env → Volume → ℕ → ℕ → Volume × RetCode
read_root_page env vol j bm_sect =
    let vol' = with_page vol j bm_sect in
    if vol_is_sect_num_valid vol' bm_sect
    then elim (read_bitmap_block env vol' bm_sect) [
      | err rc ↦ (free_bitmap vol', rc)
      | ok bitm ↦ (with_map vol' j bitm, rc_ok)
    ]
    else (free_bitmap vol', rc_error)

-- The loop over the root block's pages, at most `n` more; with the index that it stops at.
unfoldable pub read_root_pages : ℕ → Env → Volume → List ℕ → ℕ → Volume × RetCode × ℕ
read_root_pages zero env vol root i = (vol, rc_ok, i)
read_root_pages (suc n) env vol root i =
    let bm_sect = bm_page root i in
    let (vol', rc) = read_root_page env vol i bm_sect in
    let rest = read_root_pages n env vol' root (suc i) in
    if ltb i vol.bitmap.size && not (bm_sect == 0)
    then (if is_ok rc then rest else (vol', rc, i))
    else (vol, rc_ok, i)

-- One page named by an extension block; a wrong number leaves the bitmap allocated.
unfoldable pub read_ext_page : Env → Volume → ℕ → ℕ → Volume × RetCode
read_ext_page env vol j bm_sect =
    if vol_is_sect_num_valid vol bm_sect
    then (let vol' = with_page vol j bm_sect in
        elim (read_bitmap_block env vol' bm_sect) [
          | err rc ↦ (free_bitmap vol', rc)
          | ok bitm ↦ (with_map vol' j bitm, rc_ok)
        ])
    else (vol, rc_error)

unfoldable pub read_ext_pages : ℕ → Env → Volume → List ℕ → ℕ → ℕ → Volume × RetCode × ℕ
read_ext_pages zero env vol bm_ext_block i j = (vol, rc_ok, j)
read_ext_pages (suc n) env vol bm_ext_block i j =
    let (vol', rc) = read_ext_page env vol j (load32 bm_ext_block (4 * i)) in
    let rest = read_ext_pages n env vol' bm_ext_block (suc i) (suc j) in
    if ltb j vol.bitmap.size then (if is_ok rc then rest else (vol', rc, j)) else (vol, rc_ok, j)

-- The loop over the extension blocks; a chain longer than the fuel is `none`.
unfoldable pub read_exts : ℕ → Env → Volume → ℕ → ℕ → Fault (Volume × RetCode)
read_exts zero env vol bm_ext_sect j = none
read_exts (suc fuel) env vol bm_ext_sect j =
    if bm_ext_sect == 0
    then some (vol, rc_ok)
    else elim (read_bitmap_ext_block env vol bm_ext_sect) [
      | err rc ↦ some (free_bitmap vol, rc)
      | ok block ↦
          let (vol', rc, j') = read_ext_pages bm_pages_ext_size env vol block 0 j in
          let rest = read_exts fuel env vol' (load32 block 508) j' in
          (if is_ok rc then rest else some (vol', rc))
    ]

-- The assertions on the root block after its pages, for the index `i` that the loop stopped at.
unfoldable pub root_pages_asserted : ℕ → List ℕ → ℕ → Bool
root_pages_asserted size root i =
    ((ltb i size && not (bm_page root i == 0)) || (i == size))
    && (((ltb i size && not (bm_ext root == 0)) || (i == size))
        && (((i == size) && (bm_ext root == 0)) || ltb i size))

-- `adfReadBitmap`, with the fuel for the chain of the extension blocks.
unfoldable pub read_bitmap : ℕ → Env → Volume → List ℕ → Fault (Volume × RetCode)
read_bitmap fuel env vol root =
    let flags = map (λ _. false) vol.bitmap.blocks_chg in
    let vol0 = record vol { bitmap = record vol.bitmap { blocks_chg = flags } } in
    let (vol', rc, i) = read_root_pages bm_pages_root_size env vol0 root 0 in
    let size = vol'.bitmap.size in
    let exts = read_exts fuel env vol' (bm_ext root) i in
    if not (is_ok rc)
    then some (vol', rc)
    else (if not (root_pages_asserted size root i)
        then none
        else (if ltb i size && (bm_page root i == 0)
            then some (free_bitmap vol', rc_error)
            else (if ltb i size && (bm_ext root == 0)
                then some (free_bitmap vol', rc_error)
                else exts)))

-- The loop of `adfUpdateBitmap` over `n` maps from `i` on.
unfoldable pub write_changed : ℕ → Volume → ℕ → Volume × RetCode
write_changed zero vol i = (vol, rc_ok)
write_changed (suc n) vol i =
    let (vol', rc) =
      write_bitmap_block vol (get_or vol.bitmap.blocks i 0)
        (block_of_map_longs (get_or vol.bitmap.table i [])) in
    let written = record vol' {
      bitmap = record vol'.bitmap { blocks_chg = set vol'.bitmap.blocks_chg i false };
    } in
    let rest = write_changed n written (suc i) in
    let unchanged = write_changed n vol (suc i) in
    if get_or vol.bitmap.blocks_chg i false
    then (if is_ok rc then rest else (vol', rc))
    else unchanged

-- The root block with the bitmap marked valid and the time of its update.
abbrev pub stamp_valid : List ℕ → AmigaTime → List ℕ
stamp_valid root now =
    store32 (store32 (store32 (store32 root bm_flag_at bm_valid) 472 now.day) 476 now.min) 480
      now.ticks

-- `adfUpdateBitmap` at the time `now`.
unfoldable pub update_bitmap : Env → AmigaTime → Volume → Volume × RetCode
update_bitmap env now vol = elim (read_root_block env vol vol.root_block) [
  | err rc ↦ (vol, rc)
  | ok root ↦
      let (vol', rc) = write_root_block vol vol.root_block (store32 root bm_flag_at 0) in
      let (vol'', rc') = write_changed vol'.bitmap.size vol' 0 in
      let last =
        write_root_block vol'' vol''.root_block
          (stamp_valid (stamp_root (store32 root bm_flag_at 0)) now) in
      if is_ok rc then (if is_ok rc' then last else (vol'', rc')) else (vol', rc)
]

-- `adfVolBitmapIsMarkedValid`.
unfoldable pub vol_bitmap_is_marked_valid : Env → Volume → Bool
vol_bitmap_is_marked_valid env vol = elim (read_root_block env vol vol.root_block) [
  | err rc ↦ false
  | ok root ↦ load32 root bm_flag_at == bm_valid
]

-- `root.bmPages[ i ] = vol->bitmap.blocks[ i ] = sectList[ i ]` for each block of the list.
unfoldable pub name_pages : ℕ → List ℕ → List ℕ → List ℕ → List ℕ × List ℕ
name_pages i [] root blocks = (root, blocks)
name_pages i (n_sect ∷ list) root blocks =
    name_pages (suc i) list (store32 root (316 + 4 * i) n_sect) (set blocks i n_sect)

-- The pages of one extension block, at most `n` more: each takes `sectList[ i ]`.
unfoldable pub name_ext_pages : ℕ → List ℕ → ℕ → ℕ → ℕ → List ℕ → List ℕ → List ℕ × List ℕ × ℕ
name_ext_pages zero sect_list size i n_block bitme blocks = (bitme, blocks, n_block)
name_ext_pages (suc n) sect_list size i n_block bitme blocks =
    let n_sect = get_or sect_list i 0 in
    let rest =
      name_ext_pages n sect_list size (suc i) (suc n_block) (store32 bitme (4 * i) n_sect)
        (set blocks n_block n_sect) in
    if ltb n_block size then rest else (bitme, blocks, n_block)

-- The extension blocks, written one after the other; `bitme` is the block in memory, with what it held.
unfoldable pub write_exts : List ℕ → List ℕ → Volume → ℕ → List ℕ → Volume × RetCode
write_exts [] sect_list vol n_block bitme = (vol, rc_ok)
write_exts (k ∷ ext) sect_list vol n_block bitme =
    let (bitme1, blocks, n_block1) =
      name_ext_pages bm_pages_ext_size sect_list vol.bitmap.size 0 n_block bitme
        vol.bitmap.blocks in
    let bitme2 = store32 bitme1 508 (get_or ext 0 0) in
    let named = record vol { bitmap = record vol.bitmap { blocks = blocks } } in
    let (vol', rc) = write_bitmap_ext_block named k bitme2 in
    let rest = write_exts ext sect_list vol' n_block1 bitme2 in
    if is_ok rc then rest else (vol', rc)

-- The number of the extension blocks.
unfoldable pub n_ext_blocks : ℕ → ℕ
n_ext_blocks size =
    let over = size - bm_pages_root_size in
    if over % bm_map_size == 0 then over / bm_map_size else over / bm_map_size + 1

-- The root block with its extension pointer, written after the extension blocks.
unfoldable pub write_new_exts : List ℕ → List ℕ → List ℕ → Volume → List ℕ → Volume × RetCode
write_new_exts bitme root sect_list vol ext =
    let root' = store32 root 416 (get_or ext 0 0) in
    let (vol', rc) = write_exts ext sect_list vol bm_pages_root_size bitme in
    let written = write_root_block vol' vol'.root_block root' in
    if is_ok rc then written else (vol', rc)

-- `adfWriteNewBitmap` once it has the blocks of its pages.
unfoldable pub write_new_pages : List ℕ → List ℕ → List ℕ → Volume → Fault (Volume × RetCode)
write_new_pages bitme root sect_list vol =
    let (root1, blocks) = name_pages 0 (take bm_pages_root_size sect_list) root vol.bitmap.blocks in
    let vol1 = record vol { bitmap = record vol.bitmap { blocks = blocks } } in
    if ltb bm_pages_root_size vol.bitmap.size
    then (get_free_blocks vol1 (n_ext_blocks vol.bitmap.size) >>? λ got.
        let (vol2, list) = got in
        some (elim list [
          | none ↦ (vol2, rc_volfull)
          | some ext ↦ write_new_exts bitme root1 sect_list vol2 ext
        ]))
    else some (write_root_block vol1 vol1.root_block root1)

-- `adfWriteNewBitmap`, `bitme` being what the memory of the extension block holds at first.
unfoldable pub write_new_bitmap : List ℕ → Env → Volume → Fault (Volume × RetCode)
write_new_bitmap bitme env vol = elim (read_root_block env vol vol.root_block) [
  | err rc ↦ some (vol, rc)
  | ok root ↦ get_free_blocks vol vol.bitmap.size >>? λ got.
      let (vol1, list) = got in
      elim list [
        | none ↦ some (vol1, rc_volfull)
        | some sect_list ↦ write_new_pages bitme root sect_list vol1
      ]
]
