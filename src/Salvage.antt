-- ===== src/Salvage.antt =====
-- src/adf_salv.h and adf_salv.c: entries that were deleted, and their recovery. The library is built without
-- `ADFLIB_ENABLE_SALVAGE_DIRCACHE`.
pub mod Entered
pub mod Undelete
use adflib.Prelude.{
  ℕ, zero, suc, ◌+◌, ◌-◌, ◌^◌, min, Bool, true, false, not, ◌&&◌, ◌||◌, List, [], ◌∷◌, ◌++◌, take,
  drop, Option, none, some, ltb, ◌==◌, if◌then◌else◌, ◌>>?◌, Fault,
}
use adflib.Util.{byte, load32, swap_uint32_from_ptr}
use adflib.Err.{RetCode, rc_ok, rc_error, Result, ok, err, is_ok, ◌>>=◌, ◌>>s◌}
use adflib.Vol.{Volume, vol_read_block, vol_has_dircache, vol_is_ofs}
use adflib.Block.{
  t_header, st_root, st_dir, st_file, st_lfile, st_ldir, read_entry_block, read_data_block,
  read_file_ext_block,
}
use adflib.Bitmap.{is_block_free, set_block_used, set_block_free, set_blocks_used}
use adflib.Bitmap.Disk.{update_bitmap}
use adflib.File.Blocks.{FileBlocks, get_file_blocks, set_all_free}
use adflib.Cache.Chain.{header_key, add_in_cache}
use adflib.Dir.{max_name_len, name_len}
use adflib.Dir.Create.{Setting, sec_type, create_entry}
use adflib.Dir.Entries.{strndup}

-- `struct GenBlock`; the name and the parent of a block that has none are `none`, those of another are set.
pub record GenBlock : Type 0 where
  pub sect : ℕ
  pub parent : Option ℕ
  pub type : ℕ
  pub gen_sec_type : ℕ
  pub name : Option (List ℕ)

unfoldable pub read_gen_block : Volume → ℕ → Result GenBlock
read_gen_block vol n_sect = vol_read_block vol n_sect >>= λ buf.
    let type = swap_uint32_from_ptr buf 0 in
    let sec = swap_uint32_from_ptr buf 508 in
    let named =
      (type == t_header)
      && ((sec == st_file) || ((sec == st_dir) || ((sec == st_lfile) || (sec == st_ldir)))) in
    ok (record {
      sect = n_sect;
      parent = if named then some (swap_uint32_from_ptr buf 500) else none;
      type = type;
      gen_sec_type = sec;
      name =
          if named then some (strndup (drop 433 buf) (min max_name_len (byte buf 432))) else none;
    })

-- A deleted entry is listed.
abbrev pub is_del_ent : GenBlock → Bool
is_del_ent block =
    (block.type == t_header) && ((block.gen_sec_type == st_dir) || (block.gen_sec_type == st_file))

-- The loop of `adfGetDelEnt` over `n` blocks from `i` on; a failed read makes the list NULL, `none` inside.
unfoldable pub del_ent_loop : ℕ → Volume → ℕ → Fault (Option (List GenBlock))
del_ent_loop zero vol i = some (some [])
del_ent_loop (suc n) vol i = is_block_free vol i >>? λ free.
    let rest = del_ent_loop n vol (suc i) in
    if not free then rest else elim (read_gen_block vol i) [
      | err rc ↦ some none
      | ok block ↦ rest >>? λ later. some (elim later [
        | none ↦ none
        | some list ↦ some (if is_del_ent block then block ∷ list else list)
      ])
    ]

-- `adfGetDelEnt`: it goes through the numbers of the volume's blocks on the device.
unfoldable pub get_del_ent : Volume → Fault (List GenBlock)
get_del_ent vol =
    let from = vol.first_block + 2 in
    del_ent_loop (vol.last_block + 1 - from) vol from >>? λ got.
    some (elim got [ none ↦ [] | some list ↦ list ])

unfoldable pub check_parent : Volume → ℕ → Fault RetCode
check_parent vol p_sect = is_block_free vol p_sect >>? λ free.
    if free then some rc_error else elim (read_gen_block vol p_sect) [
      | err rc ↦ some rc
      | ok block ↦ some (
          if not (block.type == t_header)
          then rc_error
          else if not (block.gen_sec_type == st_dir) && not (block.gen_sec_type == st_root)
          then rc_error
          else rc_ok)
    ]

-- The name that is copied from an entry, into 31 bytes; a longer one is written past them.
abbrev pub undel_name : List ℕ → Fault (List ℕ)
undel_name entry =
    if ltb max_name_len (name_len entry)
    then none
    else some (strndup (drop 433 entry) (name_len entry))

-- The tests of the parent that both functions start with.
unfoldable pub parent_is_right : Volume → ℕ → List ℕ → Fault RetCode
parent_is_right vol p_sect entry = check_parent vol p_sect >>? λ rc.
    some
      (if not (is_ok rc) then rc else if not (p_sect == load32 entry 500) then rc_error else rc_ok)

-- The entry is entered into its directory again, at the block that it has; `false`: it could not be.
unfoldable pub enter_again : Setting → Volume → List ℕ → List ℕ → Fault ((Volume × List ℕ) × Bool)
enter_again set vol dir entry = undel_name entry >>? λ name.
    create_entry set vol dir name (some (header_key entry)) >>? λ made.
    some (made.0, elim made.1 [ none ↦ false | some n_sect ↦ not (n_sect == 2 ^ 32 - 1) ])

-- Whether the blocks that `adfUndelDir` needs are free.
unfoldable pub dir_blocks_free : Volume → List ℕ → Fault Bool
dir_blocks_free vol entry = is_block_free vol (header_key entry) >>? λ own.
    let cache = is_block_free vol (load32 entry 504) in
    if not own then some false else if vol_has_dircache vol then cache else some true

unfoldable pub undel_dir : Setting → Volume → ℕ → List ℕ → Fault (Volume × RetCode)
undel_dir set vol p_sect entry = parent_is_right vol p_sect entry >>? λ rc.
    if not (is_ok rc)
    then some (vol, rc)
    else (dir_blocks_free vol entry >>? λ free.
        if not free then some (vol, rc_error) else elim (read_entry_block set.env vol p_sect) [
          | err rc1 ↦ some (vol, rc1)
          | ok dir ↦ set_block_used vol (header_key entry) >>? λ vol1.
              enter_again set vol1 dir entry >>? λ made.
              let ((vol2, parent), entered) = made in
              if not entered
              then some (vol2, rc_error)
              else ((if vol_has_dircache vol2
                    then (add_in_cache set.env set.now set.chain vol2 parent entry >>? λ added.
                        added >>s λ vol3.
                        set_block_used vol3 (load32 entry 504) >>? λ vol4. some (vol4, rc_ok))
                    else some (vol2, rc_ok))
                  >>? λ cached. cached >>s λ vol5. some (update_bitmap set.env set.now vol5))
        ])

-- Whether all blocks of a list are free; the tests stop at the first that is not.
unfoldable pub all_free : Volume → List ℕ → Fault Bool
all_free vol [] = some true
all_free vol (n_sect ∷ rest) = is_block_free vol n_sect >>? λ free.
    let later = all_free vol rest in if free then later else some false

-- The blocks of a file are free again, after an undelete that failed.
unfoldable pub revert_blocks : Volume → FileBlocks → ℕ → Fault Volume
revert_blocks vol blocks n_sect = set_block_free vol n_sect >>? λ vol1.
    set_all_free blocks.extens vol1 >>? λ vol2. set_all_free blocks.data_sectors vol2

unfoldable pub mark_blocks : Volume → FileBlocks → ℕ → Fault Volume
mark_blocks vol blocks n_sect = set_blocks_used vol blocks.data_sectors >>? λ vol1.
    set_blocks_used vol1 blocks.extens >>? λ vol2. set_block_used vol2 n_sect

-- The file is entered with its blocks marked.
unfoldable pub undel_marked :
    Setting → Volume → ℕ → ℕ → List ℕ → FileBlocks → Fault (Volume × RetCode)
undel_marked set vol p_sect n_sect entry blocks = elim (read_entry_block set.env vol p_sect) [
  | err rc ↦ revert_blocks vol blocks n_sect >>? λ vol1. some (vol1, rc)
  | ok dir ↦ enter_again set vol dir entry >>? λ made.
      let ((vol1, parent), entered) = made in
      if entered
      then some (update_bitmap set.env set.now vol1)
      else (revert_blocks vol1 blocks n_sect >>? λ vol2. some (vol2, rc_error))
]

unfoldable pub undel_file : Setting → Volume → ℕ → ℕ → List ℕ → Fault (Volume × RetCode)
undel_file set vol p_sect n_sect entry =
    if vol_has_dircache vol
    then some (vol, rc_error)
    else if not (n_sect == header_key entry)
    then some (vol, rc_error)
    else (parent_is_right vol p_sect entry >>? λ rc.
        if not (is_ok rc)
        then some (vol, rc)
        else (is_block_free vol n_sect >>? λ own.
            if not own
            then some (vol, rc_error)
            else (get_file_blocks set.env vol entry >>? λ got. elim got [
              | err rc1 ↦ some (vol, rc1)
              | ok blocks ↦ all_free vol (blocks.data_sectors ++ blocks.extens) >>? λ free.
                  if not free
                  then some (vol, rc_error)
                  else (mark_blocks vol blocks n_sect >>? λ vol1.
                      undel_marked set vol1 p_sect n_sect entry blocks)
            ])))

unfoldable pub undel_entry : Setting → Volume → ℕ → ℕ → Fault (Volume × RetCode)
undel_entry set vol parent n_sect = elim (read_entry_block set.env vol n_sect) [
  | err rc ↦ some (vol, rc)
  | ok entry ↦
      if sec_type entry == st_file
      then undel_file set vol parent n_sect entry
      else if sec_type entry == st_dir
      then undel_dir set vol parent entry
      else some (vol, rc_ok)
]

-- The reads of `adfCheckFile`; what is wrong in a block that can be read only warns.
unfoldable pub check_reads : (ℕ → Result (List ℕ)) → List ℕ → RetCode
check_reads read [] = rc_ok
check_reads read (n_sect ∷ rest) =
    let later = check_reads read rest in elim (read n_sect) [ err rc ↦ rc | ok block ↦ later ]

unfoldable pub check_file : Setting → Volume → List ℕ → Fault RetCode
check_file set vol file = get_file_blocks set.env vol file >>? λ got. elim got [
  | err rc ↦ some rc
  | ok blocks ↦
      let data_rc =
        if vol_is_ofs vol
        then check_reads (read_data_block set.env vol) blocks.data_sectors
        else rc_ok in
      some (
        if is_ok data_rc
        then check_reads (read_file_ext_block set.env vol) blocks.extens
        else data_rc)
]

-- `adfCheckDir` is not written yet, and gives an error.
abbrev pub check_dir : RetCode
check_dir = rc_error

unfoldable pub check_entry : Setting → Volume → ℕ → Fault RetCode
check_entry set vol n_sect = elim (read_entry_block set.env vol n_sect) [
  | err rc ↦ some rc
  | ok entry ↦
      if sec_type entry == st_file
      then check_file set vol entry
      else if sec_type entry == st_dir
      then some check_dir
      else some rc_error
]
