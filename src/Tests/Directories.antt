-- ===== src/Tests/Directories.antt =====
-- A volume with one file in its root directory, two entries that link to each other, and the theorems on
-- directories, mounting and boot blocks for it.
use adflib.Prelude.{
  ℕ, suc, ◌-◌, ◌%◌, ◌^◌, ◌<◌, sym, ◌≡◌, ◌↔◌, refl, arith, true, false, List, [], ◌∷◌, ◌++◌,
  replicate, none, some, map, ap, ◌∙◌,
}
use adflib.Util.{load32, swap_uint32_at_ptr, swap_uint32_from_ptr, swap_uint16_from_ptr}
use adflib.Raw.{swap_endian, swap_els, swap_items, swap_one, normal_sum, normal_sum_loop}
use adflib.Err.{ok, rc_ok}
use adflib.Date.{days2_date, year_loop, month_loop, year_days, is_leap}
use adflib.Dev.{dev_read_block, ramdisk_read_sectors}
use adflib.Vol.{
  Volume, Bitmap, vol_is_sect_num_valid, mode_readonly, mode_readwrite, dos, vol_read_block,
  vol_is_ofs, dos_fs_is_ofs, dos_fs_is_ffs, vol_remount,
}
use adflib.Vol.Mount.{Memory, vol_mount_checked, vol_mount_one, vol_check_filesystem, set_up}
use adflib.Vol.Mounting.{vol_mount_checked_sound}
use adflib.Block.{Env, read_entry_block, read_root_block, read_bitmap_block, sum_is_valid}
use adflib.Bitmap.{n_block2bitmap_size, bitmap_allocate}
use adflib.Bitmap.Disk.{
  vol_bitmap_is_marked_valid, read_bitmap, read_root_pages, read_root_page, root_pages_asserted,
  read_exts,
}
use adflib.Bitmap.Disk.{map_of_block}
use adflib.Dir.Create.{Setting}
use adflib.Cache.Listing.{DirList}
use adflib.Dir.Entries.{entry_read, ent_block2_entry, int_days2_date, access2_string}
use adflib.Dir.Access.{string_access, string_access-access2_string}
use adflib.Dir.Remove.{hash_table}
use adflib.Dir.Tree.{get_r_dir_ent}
use adflib.Dir.Check.{dir_check, check_sub, check_read}
use adflib.Dir.Errors.{dir_errors, count_errors, count_slots, count_chain, in_32}
use adflib.Dir.Sound.{IsTree}
use adflib.Dir.Checked.{dir_check-IsTree, get_r_dir_ent-IsTree}
use adflib.Dir.Endless.{LinksTo, chains-endless}

-- A file without blocks, with the next entry of its chain.
abbrev file_block : ℕ → List ℕ
file_block next =
    0
    ∷ 0
    ∷ 0
    ∷ 2
    ∷ (replicate 492 0 ++ (0 ∷ 0 ∷ 0 ∷ next ∷ (replicate 8 0 ++ (255 ∷ 255 ∷ 255 ∷ 253 ∷ []))))

-- The first slot of the hash table is block 4; the bitmap is valid, and in block 8.
abbrev root_block : List ℕ
root_block =
    0
    ∷ 0
    ∷ 0
    ∷ 2
    ∷ (replicate 20 0
        ++ (0
            ∷ 0
            ∷ 0
            ∷ 4
            ∷ (replicate 284 0
                ++ (255
                    ∷ 255
                    ∷ 255
                    ∷ 255
                    ∷ 0
                    ∷ 0
                    ∷ 0
                    ∷ 8
                    ∷ (replicate 188 0 ++ (0 ∷ 0 ∷ 0 ∷ 1 ∷ []))))))

abbrev tree_volume : Volume
tree_volume = record {
  dev = record {
    read_only = false;
    size_blocks = 10;
    drv_data =
        replicate 2048 0
        ++ (file_block 0 ++ (root_block ++ (file_block 7 ++ (file_block 6 ++ replicate 1024 0))));
  };
  first_block = 0;
  last_block = 9;
  root_block = 5;
  fs_id = dos;
  fs_type = 1;
  read_only = true;
  datablock_size = 512;
  mounted = true;
  bitmap = record { size = 0; blocks = []; table = []; blocks_chg = [] };
  cur_dir_ptr = 5;
}

abbrev walking : Setting
walking = record {
  env = record { ignore_checksum_errors = true };
  now = record { day = 0; min = 0; ticks = 0 };
  toupper = λ c. c;
  chain = 3;
}

no_errors : dir_errors walking tree_volume true 5 ≡ some 0
unfolding dir_errors count_errors count_slots count_chain check_sub check_read read_entry_block
    vol_read_block dev_read_block ramdisk_read_sectors load32 swap_endian swap_els swap_items
    swap_one swap_uint32_at_ptr swap_uint32_from_ptr swap_uint16_from_ptr sum_is_valid normal_sum
    normal_sum_loop entry_read ent_block2_entry int_days2_date days2_date year_loop month_loop
    year_days is_leap
no_errors = refl

dir_check-IsTree_example :
    (dir_check walking tree_volume true 5 ≡ in_32 (dir_errors walking tree_volume true 5))
    × ((dir_errors walking tree_volume true 5 ≡ some 0)
        ↔ ((list : DirList) × IsTree walking tree_volume true 513 5 list))
dir_check-IsTree_example = dir_check-IsTree walking tree_volume true 5

whole : (list : DirList) × IsTree walking tree_volume true 513 5 list
whole = (dir_check-IsTree walking tree_volume true 5).1.0 no_errors

get_r_dir_ent-IsTree_example : get_r_dir_ent false walking tree_volume true 5 ≡ some whole.0
get_r_dir_ent-IsTree_example = get_r_dir_ent-IsTree walking tree_volume true 5 whole.0 whole.1

string_access-access2_string_example : string_access (access2_string 200) ≡ some (200 % 256)
string_access-access2_string_example = string_access-access2_string 200

-- The entry in the hash table links to block 6, which links to block 7, which links to block 6.
abbrev cyclic_volume : Volume
cyclic_volume = record tree_volume {
  dev = record {
    read_only = false;
    size_blocks = 10;
    drv_data =
        replicate 2048 0
        ++ (file_block 6 ++ (root_block ++ (file_block 7 ++ (file_block 6 ++ replicate 1024 0))));
  };
}

four-LinksTo_six : LinksTo walking cyclic_volume ([] ++ (4 ∷ replicate 71 0)) 4 6
unfolding read_entry_block vol_read_block dev_read_block ramdisk_read_sectors load32 swap_endian
    swap_els swap_items swap_one swap_uint32_at_ptr swap_uint32_from_ptr swap_uint16_from_ptr
    sum_is_valid normal_sum normal_sum_loop entry_read ent_block2_entry int_days2_date days2_date
    year_loop month_loop year_days is_leap
four-LinksTo_six = record {
  entry = _;
  blk = swap_endian (file_block 6) 3;
  can_read = refl;
  links = refl;
  nonzero = omega arith;
  passes = refl;
}

six-LinksTo_seven : LinksTo walking cyclic_volume ([] ++ (4 ∷ replicate 71 0)) 6 7
unfolding read_entry_block vol_read_block dev_read_block ramdisk_read_sectors load32 swap_endian
    swap_els swap_items swap_one swap_uint32_at_ptr swap_uint32_from_ptr swap_uint16_from_ptr
    sum_is_valid normal_sum normal_sum_loop entry_read ent_block2_entry int_days2_date days2_date
    year_loop month_loop year_days is_leap
six-LinksTo_seven = record {
  entry = _;
  blk = swap_endian (file_block 7) 3;
  can_read = refl;
  links = refl;
  nonzero = omega arith;
  passes = refl;
}

seven-LinksTo_six : LinksTo walking cyclic_volume ([] ++ (4 ∷ replicate 71 0)) 7 6
unfolding read_entry_block vol_read_block dev_read_block ramdisk_read_sectors load32 swap_endian
    swap_els swap_items swap_one swap_uint32_at_ptr swap_uint32_from_ptr swap_uint16_from_ptr
    sum_is_valid normal_sum normal_sum_loop entry_read ent_block2_entry int_days2_date days2_date
    year_loop month_loop year_days is_leap
seven-LinksTo_six = record {
  entry = _;
  blk = swap_endian (file_block 6) 3;
  can_read = refl;
  links = refl;
  nonzero = omega arith;
  passes = refl;
}

cyclic_parent :
    (read_entry_block walking.env cyclic_volume 5 ≡ ok (swap_endian root_block 3))
    × (hash_table (swap_endian root_block 3) ≡ [] ++ (4 ∷ replicate 71 0))
unfolding read_entry_block vol_read_block dev_read_block ramdisk_read_sectors load32 swap_endian
    swap_els swap_items swap_one swap_uint32_at_ptr swap_uint32_from_ptr swap_uint16_from_ptr
    sum_is_valid normal_sum normal_sum_loop
cyclic_parent = (refl, refl)

chains-endless_example :
    let bounded : Setting = record walking { chain = 1000 } in
    (get_r_dir_ent false bounded cyclic_volume false 5 ≡ none)
    × (dir_check bounded cyclic_volume false 5 ≡ none)
chains-endless_example =
    chains-endless walking cyclic_volume 5 (swap_endian root_block 3) [] (replicate 71 0) 4 6 7 1000
      cyclic_parent.0 cyclic_parent.1 refl (omega arith) four-LinksTo_six six-LinksTo_seven
      seven-LinksTo_six

abbrev zeroed : Memory
zeroed = record {
  map_found = λ i. [];
  block_found = λ i. 0;
  chg_found = λ i. false;
  bitme = [];
  bitmap_found = record { size = 0; blocks = []; table = []; blocks_chg = [] };
  datablock_size_found = 0;
}

abbrev root : List ℕ
root = swap_endian root_block 1

-- The volume mounted for reading.
abbrev ro_volume : Volume
ro_volume = record tree_volume {
  bitmap = record {
    size = 1;
    blocks = 8 ∷ [];
    table = map_of_block (swap_endian (replicate 512 0) 5) ∷ [];
    blocks_chg = false ∷ [];
  };
}

-- The root block's members that mounting looks at.
root_members :
    (load32 root 316 ≡ 8)
    × (load32 root 320 ≡ 0)
    × (load32 root 416 ≡ 0)
    × (load32 root 312 ≡ 2 ^ 32 - 1)
unfolding load32 swap_endian swap_els swap_items swap_one swap_uint32_at_ptr
root_members = (refl, refl, refl, refl)

module _ (bitmap : Bitmap) where
  abbrev with_bitmap : Volume
  with_bitmap = record tree_volume { bitmap = bitmap }

  root_read : read_root_block walking.env with_bitmap 5 ≡ ok root
  unfolding read_root_block vol_read_block dev_read_block ramdisk_read_sectors load32 swap_endian
      swap_els swap_items swap_one swap_uint32_at_ptr swap_uint32_from_ptr swap_uint16_from_ptr
      sum_is_valid normal_sum normal_sum_loop
  root_read = refl

  map_read : read_bitmap_block walking.env with_bitmap 8 ≡ ok (swap_endian (replicate 512 0) 5)
  unfolding read_bitmap_block vol_read_block dev_read_block ramdisk_read_sectors load32 swap_endian
      swap_els swap_items swap_one swap_uint32_at_ptr swap_uint32_from_ptr swap_uint16_from_ptr
      sum_is_valid normal_sum normal_sum_loop
  map_read = refl

  no_errors_mounted : dir_errors walking with_bitmap true 5 ≡ some 0
  unfolding dir_errors count_errors count_slots count_chain check_sub check_read read_entry_block
      vol_read_block dev_read_block ramdisk_read_sectors load32 swap_endian swap_els swap_items
      swap_one swap_uint32_at_ptr swap_uint32_from_ptr swap_uint16_from_ptr sum_is_valid normal_sum
      normal_sum_loop entry_read ent_block2_entry int_days2_date days2_date year_loop month_loop
      year_days is_leap
  no_errors_mounted = refl

set_up_volume : Volume
set_up_volume = bitmap_allocate zeroed.map_found zeroed.block_found zeroed.chg_found tree_volume

no_exts :
    (fuel : ℕ) (env : Env) (vol : Volume) (s j : ℕ)
    → s ≡ 0
    → read_exts (suc fuel) env vol s j ≡ some (vol, rc_ok)
unfolding read_exts
no_exts fuel env vol s j z = ground (arith, z)

one_page :
    (n : ℕ) (env : Env) (vol vol1 : Volume) (r : List ℕ)
    → load32 r 316 ≡ 8
    → vol.bitmap.size ≡ 1
    → vol1.bitmap.size ≡ 1
    → read_root_page env vol 0 8 ≡ (vol1, rc_ok)
    → read_root_pages (suc (suc n)) env vol r 0 ≡ (vol1, rc_ok, 1)
unfolding read_root_pages
one_page n env vol vol1 r page size size1 e = ground (arith, page, size, size1, e)

one_map :
    (fuel : ℕ) (env : Env) (vol vol1 : Volume) (r : List ℕ)
    → load32 r 416 ≡ 0
    → vol1.bitmap.size ≡ 1
    → read_root_pages 25 env
        (record vol {
          bitmap = record vol.bitmap { blocks_chg = map (λ _. false) vol.bitmap.blocks_chg };
        })
        r
        0
      ≡ (vol1, rc_ok, 1)
    → read_bitmap (suc fuel) env vol r ≡ some (vol1, rc_ok)
unfolding read_bitmap root_pages_asserted
one_map fuel env vol vol1 r ext size e =
    ground (arith, ext, size, e, no_exts fuel env vol1 (load32 r 416) 1 ext)

-- The volume with room for a map, as it is allocated.
abbrev roomy : Bitmap
roomy = record { size = 1; blocks = 0 ∷ []; table = [] ∷ []; blocks_chg = false ∷ [] }

page_read : read_root_page walking.env (with_bitmap roomy) 0 8 ≡ (ro_volume, rc_ok)
unfolding read_root_page vol_is_sect_num_valid
page_read =
    rw (map_read (record { size = 1; blocks = 8 ∷ []; table = [] ∷ []; blocks_chg = false ∷ [] }))
      refl

allocated : set_up_volume ≡ with_bitmap roomy
unfolding set_up_volume bitmap_allocate n_block2bitmap_size
allocated = refl

bitmap_read : read_bitmap 3 walking.env set_up_volume root ≡ some (ro_volume, rc_ok)
bitmap_read =
    let (page, _, ext, _) = root_members in
    ap (λ (v : Volume). read_bitmap 3 walking.env v root) allocated
    ∙ one_map 2 walking.env (with_bitmap roomy) ro_volume root ext refl
        (one_page 23 walking.env (with_bitmap roomy) ro_volume root page refl refl page_read)

passes :
    (vol : Volume) (r : List ℕ)
    → dir_errors walking vol true vol.root_block ≡ some 0
    → read_root_block walking.env vol vol.root_block ≡ ok r
    → load32 r 312 ≡ 2 ^ 32 - 1
    → vol_check_filesystem walking vol ≡ some rc_ok
unfolding vol_check_filesystem vol_bitmap_is_marked_valid
passes vol r e q flag =
    ground (arith, e, q, flag, (dir_check-IsTree walking vol true vol.root_block).0)

mounts_one : vol_mount_one zeroed walking tree_volume mode_readonly ≡ some (ro_volume, true)
unfolding vol_mount_one set_up vol_is_ofs dos_fs_is_ofs dos_fs_is_ffs set_up_volume
mounts_one =
    rw (root_read (record { size = 0; blocks = []; table = []; blocks_chg = [] }), bitmap_read) refl

passes_check : vol_check_filesystem walking ro_volume ≡ some rc_ok
passes_check =
    let (_, _, _, flag) = root_members in
    passes ro_volume root (no_errors_mounted ro_volume.bitmap) (root_read ro_volume.bitmap) flag

abbrev rw_volume : Volume
rw_volume = record ro_volume { read_only = false }

mounts : vol_mount_checked zeroed walking tree_volume mode_readwrite ≡ some (rw_volume, true)
unfolding vol_mount_checked vol_remount
mounts = rw (mounts_one, passes_check) refl

-- No error is counted on the volume that is mounted.
few_errors :
    (vol1 : Volume) (k : ℕ)
    → vol_mount_one zeroed walking tree_volume mode_readonly ≡ some (vol1, true)
    → dir_errors walking vol1 true vol1.root_block ≡ some k
    → k < 2 ^ 32 - 1
few_errors vol1 k one counted =
    let none_counted : dir_errors walking ro_volume true 5 ≡ some 0 =
      no_errors_mounted ro_volume.bitmap in
    let same : ro_volume ≡ vol1 = ground (arith, one, mounts_one) in
    let zero_counted : dir_errors walking vol1 true vol1.root_block ≡ some 0 =
      ap (λ (v : Volume). dir_errors walking v true v.root_block) (sym same) ∙ none_counted in
    ground (arith, zero_counted, counted)

vol_mount_checked_sound_example :
    (vol1 : Volume) × (vol_mount_one zeroed walking tree_volume mode_readonly ≡ some (vol1, true))
    × (vol1.dev.read_only ≡ false)
    × (rw_volume ≡ record vol1 { read_only = false })
    × (vol_bitmap_is_marked_valid walking.env vol1 ≡ true)
    × ((list : DirList) × (get_r_dir_ent false walking vol1 true vol1.root_block ≡ some list)
        × IsTree walking vol1 true 513 vol1.root_block list)
vol_mount_checked_sound_example =
    vol_mount_checked_sound zeroed walking tree_volume rw_volume few_errors mounts
