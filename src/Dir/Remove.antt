-- ===== src/Dir/Remove.antt =====
-- src/adf_dir.c: `adfRemoveEntry` and `adfIsDirEmpty`.
use adflib.Prelude.{
  ℕ, ◌+◌, ◌*◌, Bool, true, not, ◌&&◌, List, [], ◌∷◌, tabulate, none, some, ◌==◌, if◌then◌else◌,
  ◌>>?◌, Fault,
}
use adflib.Util.{load32, store32}
use adflib.Err.{RetCode, rc_ok, rc_error, ok, err, ◌>>s◌}
use adflib.Vol.{Volume, vol_has_dircache}
use adflib.Block.{ht_size, st_dir, st_file, read_entry_block, write_entry_block}
use adflib.Bitmap.{set_block_free}
use adflib.Bitmap.Disk.{update_bitmap}
use adflib.Cache.Chain.{header_key, del_from_cache}
use adflib.Dir.{get_hash_value, next_same_hash, Found, name_to_entry_blk}
use adflib.Dir.Create.{Setting, sec_type, hash_at, is_intl}
use adflib.File.Blocks.{free_file_blocks}

-- `hashTable` of a directory.
abbrev pub hash_table : List ℕ → List ℕ
hash_table dir = tabulate ht_size (hash_at dir)

abbrev pub all_zero : List ℕ → Bool
all_zero [] = true
all_zero (n ∷ rest) = (n == 0) && all_zero rest

unfoldable pub is_dir_empty : List ℕ → Bool
is_dir_empty dir = all_zero (hash_table dir)

-- The entry is taken out of the hash table, or out of its chain: the volume, and the directory's structure.
unfoldable pub unlink : Setting → Volume → ℕ → List ℕ → List ℕ → Found → (Volume × List ℕ) × RetCode
unlink set vol p_sect parent name found =
    let next = next_same_hash found.entry in
    let hash = get_hash_value set.toupper name (is_intl vol) in
    let parent1 = store32 parent (24 + 4 * hash) next in
    let (vol1, rc) = write_entry_block vol p_sect parent1 in
    if found.n_upd_sect == 0
    then ((vol1, parent1), rc)
    else elim (read_entry_block set.env vol found.n_upd_sect) [
      | err rc1 ↦ ((vol, parent), rc1)
      | ok previous ↦
          let (vol2, rc2) = write_entry_block vol found.n_upd_sect (store32 previous 496 next) in
          ((vol2, parent), rc2)
    ]

-- The blocks of the entry are freed: those of a file, or the cache block of an empty directory.
unfoldable pub free_entry : Setting → Volume → Found → Fault (Volume × RetCode)
free_entry set vol found =
    if sec_type found.entry == st_file
    then (free_file_blocks set.env vol found.entry >>? λ r.
        r >>s λ vol1. set_block_free vol1 found.n_sect >>? λ vol2. some (vol2, rc_ok))
    else if sec_type found.entry == st_dir
    then (set_block_free vol found.n_sect >>? λ vol1.
        if vol_has_dircache vol1
        then (set_block_free vol1 (load32 found.entry 504) >>? λ vol2. some (vol2, rc_ok))
        else some (vol1, rc_ok))
    else some (vol, rc_error)

unfoldable pub remove_entry : Setting → Volume → ℕ → List ℕ → Fault (Volume × RetCode)
remove_entry set vol p_sect name = elim (read_entry_block set.env vol p_sect) [
  | err rc ↦ some (vol, rc)
  | ok parent ↦
      name_to_entry_blk set.chain set.toupper set.env vol (hash_table parent) name >>? λ got.
      elim got [
        | none ↦ some (vol, rc_error)
        | some found ↦
            let unlinked = unlink set vol p_sect parent name found in
            if (sec_type found.entry == st_dir) && not (is_dir_empty found.entry)
            then some (vol, rc_error)
            else ((unlinked.0.0, unlinked.1) >>s λ vol1. free_entry set vol1 found >>? λ freed.
                freed >>s λ vol2.
                (if vol_has_dircache vol2
                  then del_from_cache set.env set.now set.chain vol2 unlinked.0.1
                      (header_key found.entry)
                  else some (vol2, rc_ok))
                >>? λ deleted. deleted >>s λ vol3. some (update_bitmap set.env set.now vol3))
      ]
]
