-- ===== src/Dir/Tree.antt =====
-- src/adf_dir.c: the entries of a directory and of its subdirectories (`adfGetRDirEntLimited` and its
-- callers), and the check of a directory (`adfDirCheckLimited`). A chain of entries and the nesting of cached
-- directories are on fuel, `set.chain`.
use adflib.Prelude.{
  ℕ, zero, suc, Bool, false, ◌&&◌, ◌||◌, List, [], ◌∷◌, Option, none, some, ◌==◌, if◌then◌else◌,
  ◌>>?◌, Fault,
}
use adflib.Err.{ok, err}
use adflib.Vol.{Volume, vol_has_dircache}
use adflib.Block.{st_dir, read_entry_block}
use adflib.Dir.{next_same_hash}
use adflib.Dir.Create.{Setting}
use adflib.Dir.Remove.{hash_table}
use adflib.Dir.Entries.{Entry, entry_read}
use adflib.Cache.Listing.{DirList, null, cell, append, get_dir_ent_cache}

-- `ADF_DIR_MAX_LEVELS`; the levels that a directory at level 0 may use are one more.
abbrev pub dir_max_levels : ℕ
dir_max_levels = 512

-- Whether one of `hashTable` is the sector.
abbrev pub in_hash_table : List ℕ → ℕ → Bool
in_hash_table [] sector = false
in_hash_table (n ∷ ht) sector = (n == sector) || in_hash_table ht sector

-- The tests of `nextSameHash` after an entry: the chain ends, or the link is refused.
abbrev pub link_is_bad : List ℕ → ℕ → ℕ → Bool
link_is_bad ht sector next = (sector == next) || in_hash_table ht next

-- What an entry's subdirectory gives: its list, if all levels are wanted and it is a directory.
abbrev sub_list : Bool → (ℕ → Fault DirList) → Entry → ℕ → Fault DirList
sub_list recurs nested entry sector =
    let sub = nested sector in if recurs && (entry.type == st_dir) then sub else some null

-- The entry's cell with the list after it; `none` inside is `return NULL`.
abbrev pub linked_cell : Entry → DirList → Option DirList → Option DirList
linked_cell entry sub none = none
linked_cell entry sub (some next) = some (cell entry sub next)

-- The inner loop, from a sector other than 0 on.
unfoldable pub list_chain :
    ℕ → Setting → Volume → Bool → (ℕ → Fault DirList) → List ℕ → ℕ → Fault (Option DirList)
list_chain zero set vol recurs nested ht sector = none
list_chain (suc fuel) set vol recurs nested ht sector = entry_read set vol sector >>? λ got.
    elim got [
      | err rc ↦ some none
      | ok (entry, blk) ↦
          let next = next_same_hash blk in
          let rest = list_chain fuel set vol recurs nested ht next in
          sub_list recurs nested entry sector >>? λ sub.
          if (next == 0) || link_is_bad ht sector next
          then some (some (cell entry sub null))
          else (rest >>? λ later. some (linked_cell entry sub later))
    ]

-- The outer loop, over the slots left of the hash table `ht`.
unfoldable pub list_slots :
    Setting → Volume → Bool → (ℕ → Fault DirList) → List ℕ → List ℕ → Fault (Option DirList)
list_slots set vol recurs nested ht [] = some (some null)
list_slots set vol recurs nested ht (sector ∷ slots) =
    let rest = list_slots set vol recurs nested ht slots in
    if sector == 0
    then rest
    else (list_chain set.chain set vol recurs nested ht sector >>? λ got. elim got [
      | none ↦ some none
      | some here ↦
          rest >>? λ later. some (elim later [ none ↦ none | some list ↦ some (append here list) ])
    ])

abbrev or_null : Option DirList → DirList
or_null none = null
or_null (some list) = list

-- `adfGetRDirEntLimited` with the levels that are left; `use_dir_cache` is `adfEnv.useDirCache`.
unfoldable pub get_r_dir_ent_limited : ℕ → Bool → Setting → Volume → Bool → ℕ → Fault DirList
get_r_dir_ent_limited zero use_dir_cache set vol recurs n_sect = some null
get_r_dir_ent_limited (suc levels) use_dir_cache set vol recurs n_sect =
    let nested = get_r_dir_ent_limited levels use_dir_cache set vol recurs in
    if use_dir_cache && vol_has_dircache vol
    then get_dir_ent_cache set.chain set vol recurs n_sect
    else elim (read_entry_block set.env vol n_sect) [
      | err rc ↦ some null
      | ok parent ↦
          list_slots set vol recurs nested (hash_table parent) (hash_table parent) >>? λ got.
          some (or_null got)
    ]

unfoldable pub get_r_dir_ent : Bool → Setting → Volume → Bool → ℕ → Fault DirList
get_r_dir_ent use_dir_cache set vol recurs n_sect =
    get_r_dir_ent_limited (suc dir_max_levels) use_dir_cache set vol recurs n_sect

unfoldable pub get_dir_ent : Bool → Setting → Volume → ℕ → Fault DirList
get_dir_ent use_dir_cache set vol n_sect = get_r_dir_ent use_dir_cache set vol false n_sect

-- The cells of one list, without those of subdirectories.
unfoldable pub count_cells : DirList → ℕ
count_cells null = 0
count_cells (cell entry subdir next) = suc (count_cells next)

unfoldable pub dir_count_entries : Bool → Setting → Volume → ℕ → Fault ℕ
dir_count_entries use_dir_cache set vol dir_ptr =
    get_dir_ent use_dir_cache set vol dir_ptr >>? λ list. some (count_cells list)
