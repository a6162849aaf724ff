-- ===== src/Cache/Chain.antt =====
-- src/adf_cache.c: the chain of the directory cache blocks of a directory, its records added, deleted and
-- updated. `dirc` is the block's structure, with its records from byte 24 on. A loop over the chain is on
-- fuel. What is put past the end of a block is lost here.
use adflib.Prelude.{
  ℕ, zero, suc, ◌+◌, ◌-◌, ◌^◌, Bool, not, ◌&&◌, ◌||◌, List, ◌++◌, take, drop, replicate, Option,
  none, some, ltb, leb, ◌==◌, if◌then◌else◌, ◌>>?◌, Fault,
}
use adflib.Util.{load32, store32}
use adflib.Err.{RetCode, rc_ok, rc_volfull, Result, ok, err, ◌>>s◌}
use adflib.Date.{AmigaTime}
use adflib.Vol.{Volume}
use adflib.Block.{Env, st_root, st_dir, read_dir_c_block, write_dir_c_block}
use adflib.Bitmap.{set_block_free, get1_free_block}
use adflib.Bitmap.Disk.{update_bitmap}
use adflib.Cache.{CacheEntry, get_cache_entry, put_cache_entry, entry2_cache_entry}

abbrev pub records_nb : List ℕ → ℕ
records_nb dirc = load32 dirc 12

abbrev pub next_dir_c : List ℕ → ℕ
next_dir_c dirc = load32 dirc 16

abbrev pub header_key : List ℕ → ℕ
header_key dirc = load32 dirc 4

abbrev pub records : List ℕ → List ℕ
records dirc = drop 24 dirc

abbrev pub with_records : List ℕ → List ℕ → List ℕ
with_records dirc r = take 24 dirc ++ r

-- `n < recordsNb` of two `int`, the first at least 0.
abbrev pub int_lt : ℕ → ℕ → Bool
int_lt n bound = ltb bound (2 ^ 31) && ltb n bound

-- Where a record was found: its number, its offset, the offset after it; or where the records end.
pub data Search : Type 0 where
  found : ℕ → ℕ → ℕ → Search
  missing : ℕ → Search

-- The search of a record by its header key.
unfoldable pub find_record : ℕ → List ℕ → ℕ → ℕ → ℕ → Fault (Result Search)
find_record zero dirc header n offset = none
find_record (suc fuel) dirc header n offset = elim (get_cache_entry (records dirc) offset) [
  | err rc ↦ some (if int_lt n (records_nb dirc) then err rc else ok (missing offset))
  | ok got ↦
      let rest = find_record fuel dirc header (suc n) got.1 in
      if int_lt n (records_nb dirc)
      then (if got.0.header == header then some (ok (found n offset got.1)) else rest)
      else some (ok (missing offset))
]

-- The offset after the last record.
unfoldable pub skip_records : ℕ → List ℕ → ℕ → ℕ → Fault (Result ℕ)
skip_records zero dirc n offset = none
skip_records (suc fuel) dirc n offset = elim (get_cache_entry (records dirc) offset) [
  | err rc ↦ some (if int_lt n (records_nb dirc) then err rc else ok offset)
  | ok got ↦
      let rest = skip_records fuel dirc (suc n) got.1 in
      if int_lt n (records_nb dirc) then rest else some (ok offset)
]

-- A block has less records than this: each takes 26 bytes.
abbrev pub record_fuel : ℕ
record_fuel = 20

-- The records of a block without the bytes from `from` to `upto`, filled up with zeros.
unfoldable pub without : List ℕ → ℕ → ℕ → List ℕ
without r from upto = take from r ++ (drop upto r ++ replicate (upto - from) 0)

-- The last record cleared.
unfoldable pub cleared : List ℕ → ℕ → ℕ → List ℕ
cleared r from upto = take from r ++ (replicate (upto - from) 0 ++ drop upto r)

module _ (env : Env) (now : AmigaTime) where
  -- The record found is taken out of its block, or the block out of the chain.
  unfoldable pub del_found : Volume → Option ℕ → List ℕ → ℕ → ℕ → ℕ → Fault (Volume × RetCode)
  del_found vol prev dirc n old_offset offset =
      let nb = records_nb dirc in
      let r =
        if int_lt n (nb - 1)
        then without (records dirc) old_offset offset
        else cleared (records dirc) old_offset offset in
      let shorter =
        some
          (write_dir_c_block vol (header_key dirc) (store32 (with_records dirc r) 12 (nb - 1))) in
      elim prev [
        | none ↦ shorter
        | some prev_sect ↦
            if int_lt 1 nb
            then shorter
            else (set_block_free vol (header_key dirc) >>? λ vol1.
                elim (read_dir_c_block env vol1 prev_sect) [
                  | err rc ↦ some (vol1, rc)
                  | ok prev_dirc ↦
                      write_dir_c_block vol1 prev_sect (store32 prev_dirc 16 0) >>s λ vol2.
                      some (update_bitmap env now vol2)
                ])
      ]

  -- The loop of `adfDelFromCache` over the chain.
  unfoldable pub del_from_chain : ℕ → Volume → ℕ → Option ℕ → ℕ → Fault (Volume × RetCode)
  del_from_chain zero vol header prev n_sect = none
  del_from_chain (suc fuel) vol header prev n_sect = elim (read_dir_c_block env vol n_sect) [
    | err rc ↦ some (vol, rc)
    | ok dirc ↦
        let rest = del_from_chain fuel vol header (some n_sect) (next_dir_c dirc) in
        find_record record_fuel dirc header 0 0 >>? λ search. elim search [
          | err rc ↦ some (vol, rc)
          | ok (found n old_offset offset) ↦ del_found vol prev dirc n old_offset offset
          | ok (missing offset) ↦ if next_dir_c dirc == 0 then some (vol, rc_ok) else rest
        ]
  ]

  unfoldable pub del_from_cache : ℕ → Volume → List ℕ → ℕ → Fault (Volume × RetCode)
  del_from_cache fuel vol parent header = del_from_chain fuel vol header none (load32 parent 504)

-- `parent` of a cache block of a directory; a directory of another type leaves 0.
unfoldable pub cache_parent : Volume → List ℕ → ℕ
cache_parent vol parent =
    let sec_type = load32 parent 508 in
    if sec_type == st_root
    then vol.root_block
    else if sec_type == st_dir
    then load32 parent 4
    else 0

abbrev empty_dirc : Volume → List ℕ → List ℕ
empty_dirc vol parent = store32 (replicate 512 0) 8 (cache_parent vol parent)

module _ (env : Env) (now : AmigaTime) where
  -- `adfAddInCache` at the last block of the chain, with the offset after its records: if the record has
  -- no room there, a new block is written, and the record is put into the old block all the same.
  unfoldable pub add_at_end :
      Volume → List ℕ → CacheEntry → ℕ → List ℕ → ℕ → Fault (Volume × RetCode)
  add_at_end vol parent new_entry entry_len dirc offset =
      let put = with_records dirc (put_cache_entry (records dirc) offset new_entry).0 in
      if leb (offset + entry_len) 488
      then some (write_dir_c_block vol (header_key dirc) (store32 put 12 (records_nb dirc + 1)))
      else (get1_free_block vol >>? λ got.
          let (vol1, n_cache) = got in
          elim n_cache [
            | none ↦ some (vol1, rc_volfull)
            | some sect ↦
                write_dir_c_block vol1 sect (store32 (empty_dirc vol1 parent) 12 1) >>s λ vol2.
                some (write_dir_c_block vol2 (header_key dirc) (store32 put 16 sect))
          ])

  unfoldable pub add_in_chain : ℕ → Volume → List ℕ → CacheEntry → ℕ → ℕ → Fault (Volume × RetCode)
  add_in_chain zero vol parent new_entry entry_len n_sect = none
  add_in_chain (suc fuel) vol parent new_entry entry_len n_sect =
      elim (read_dir_c_block env vol n_sect) [
        | err rc ↦ some (vol, rc)
        | ok dirc ↦
            let rest = add_in_chain fuel vol parent new_entry entry_len (next_dir_c dirc) in
            skip_records record_fuel dirc 0 0 >>? λ skipped. elim skipped [
              | err rc ↦ some (vol, rc)
              | ok offset ↦
                  if next_dir_c dirc == 0
                  then add_at_end vol parent new_entry entry_len dirc offset
                  else rest
            ]
      ]

  unfoldable pub add_in_cache : ℕ → Volume → List ℕ → List ℕ → Fault (Volume × RetCode)
  add_in_cache fuel vol parent entry =
      let (new_entry, entry_len) = entry2_cache_entry entry in
      add_in_chain fuel vol parent new_entry entry_len (load32 parent 504)

  -- A record found is replaced; a longer one is deleted and added.
  unfoldable pub update_found :
      ℕ → Volume → List ℕ → List ℕ → Bool → List ℕ → ℕ → ℕ → Fault (Volume × RetCode)
  update_found fuel vol parent entry entry_len_chg dirc old_offset offset =
      let (new_entry, n_len) = entry2_cache_entry entry in
      let o_len = offset - old_offset in
      let put = (put_cache_entry (records dirc) old_offset new_entry).0 in
      if not entry_len_chg || (o_len == n_len)
      then some (write_dir_c_block vol (header_key dirc) (with_records dirc put))
      else (if ltb n_len o_len
          then some (
              write_dir_c_block vol (header_key dirc)
                (with_records dirc (without put (old_offset + n_len) offset)))
          else (del_from_cache env now fuel vol parent (load32 entry 4) >>? λ deleted.
              deleted >>s λ vol1. add_in_cache fuel vol1 parent entry))

  unfoldable pub update_chain :
      ℕ → ℕ → Volume → List ℕ → List ℕ → Bool → ℕ → Fault (Volume × RetCode)
  update_chain zero fuel' vol parent entry entry_len_chg n_sect = none
  update_chain (suc fuel) fuel' vol parent entry entry_len_chg n_sect =
      elim (read_dir_c_block env vol n_sect) [
        | err rc ↦ some (vol, rc)
        | ok dirc ↦
            let rest = update_chain fuel fuel' vol parent entry entry_len_chg (next_dir_c dirc) in
            find_record record_fuel dirc (load32 entry 4) 0 0 >>? λ search. elim search [
              | err rc ↦ some (vol, rc)
              | ok (found n old_offset offset) ↦
                  update_found fuel' vol parent entry entry_len_chg dirc old_offset offset
                  >>? λ updated. updated >>s λ vol1. some (update_bitmap env now vol1)
              | ok (missing offset) ↦ if next_dir_c dirc == 0 then some (vol, rc_ok) else rest
            ]
      ]

  -- `adfUpdateCache`; an entry that is not found only warns.
  unfoldable pub update_cache : ℕ → Volume → List ℕ → List ℕ → Bool → Fault (Volume × RetCode)
  update_cache fuel vol parent entry entry_len_chg =
      update_chain fuel fuel vol parent entry entry_len_chg (load32 parent 504)

-- `adfCreateEmptyCache`, with -1 as `none`; the parent's structure after it, and the volume.
unfoldable pub create_empty_cache : Volume → List ℕ → Option ℕ → Fault ((Volume × List ℕ) × RetCode)
create_empty_cache vol parent n_sect =
    let put = λ (vol1 : Volume) (n_cache : ℕ).
      let parent' = if load32 parent 504 == 0 then store32 parent 504 n_cache else parent in
      let (vol2, rc) = write_dir_c_block vol1 n_cache (empty_dirc vol1 parent') in
      some ((vol2, parent'), rc) in
    elim n_sect [
      | some n_cache ↦ put vol n_cache
      | none ↦ get1_free_block vol >>? λ got.
          let (vol1, free) = got in
          elim free [ none ↦ some ((vol1, parent), rc_volfull) | some n_cache ↦ put vol1 n_cache ]
    ]
