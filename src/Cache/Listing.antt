-- ===== src/Cache/Listing.antt =====
-- src/adf_cache.c: the entries of a directory by its cache blocks (`adfGetDirEntCache`); src/adf_str.h: the
-- list of entries (`struct AdfList`), as src/adf_str.c builds it.
use adflib.Prelude.{
  ℕ, zero, suc, ◌+◌, ◌-◌, ◌/◌, ◌%◌, ◌^◌, Bool, ◌&&◌, List, Option, none, some, ltb, ◌==◌,
  if◌then◌else◌, ◌>>?◌, Fault,
}
use adflib.Util.{load32}
use adflib.Err.{ok, err}
use adflib.Vol.{Volume}
use adflib.Block.{st_dir, read_entry_block, read_dir_c_block}
use adflib.Cache.{CacheEntry, get_cache_entry}
use adflib.Cache.Chain.{records, records_nb, next_dir_c, int_lt, record_fuel}
use adflib.Dir.Create.{Setting}
use adflib.Dir.Entries.{Entry, strndup, int_days2_date}

-- `struct AdfList`: the content, the list of the subdirectory, and the next cell; NULL is `null`.
pub data DirList : Type 0 where
  null : DirList
  cell : Entry → DirList → DirList → DirList

unfoldable pub append : DirList → DirList → DirList
append null rest = rest
append (cell entry subdir next) rest = cell entry subdir (append next rest)

-- The entry that a record of the cache gives; two members of the structure stay unset.
unfoldable pub cache_entry2_entry : CacheEntry → Fault Entry
cache_entry2_entry ca = int_days2_date ca.days >>? λ date. some (record {
  type = if ltb ca.type 128 then ca.type else 2 ^ 32 - 256 + ca.type;
  name = strndup ca.name ca.n_len;
  sector = some ca.header;
  real = none;
  parent = none;
  comment = some (strndup ca.comm ca.c_len);
  size = ca.size;
  acc_bits = ca.protect;
  year = date.yy;
  month = date.mm;
  days = date.dd;
  hour = ca.mins / 60;
  mins = ca.mins % 60;
  secs = ca.ticks / 50;
})

module _ (subdir : Entry → Fault DirList) where
  -- The records of a block from the `n`-th on; `none` inside is `return NULL`.
  unfoldable pub list_records : ℕ → List ℕ → ℕ → ℕ → Fault (Option DirList)
  list_records zero dirc n offset = none
  list_records (suc fuel) dirc n offset =
      let bound = records_nb dirc in
      elim (get_cache_entry (records dirc) offset) [
        | err rc ↦ some (if int_lt n bound then none else some null)
        | ok got ↦
            let rest = list_records fuel dirc (suc n) got.1 in
            let here : Fault (Option DirList) = cache_entry2_entry got.0 >>? λ entry.
            subdir entry >>? λ sub. rest >>? λ others.
            some (elim others [ none ↦ none | some next ↦ some (cell entry sub next) ]) in
            if int_lt n bound then here else some (some null)
      ]

-- The chain of cache blocks from `n_sect` on.
unfoldable pub list_cache_blocks :
    ℕ → (Entry → Fault DirList) → Setting → Volume → ℕ → Fault (Option DirList)
list_cache_blocks zero subdir set vol n_sect = none
list_cache_blocks (suc fuel) subdir set vol n_sect = elim (read_dir_c_block set.env vol n_sect) [
  | err rc ↦ some none
  | ok dirc ↦
      let next = next_dir_c dirc in
      let rest = list_cache_blocks fuel subdir set vol next in
      list_records subdir record_fuel dirc 0 0 >>? λ got. elim got [
        | none ↦ some none
        | some here ↦
            if next == 0
            then some (some here)
            else (rest >>? λ others.
                some (elim others [ none ↦ none | some list ↦ some (append here list) ]))
      ]
]

-- `adfGetDirEntCache`; the nesting of directories is on fuel.
unfoldable pub get_dir_ent_cache : ℕ → Setting → Volume → Bool → ℕ → Fault DirList
get_dir_ent_cache zero set vol recurs dir = none
get_dir_ent_cache (suc depth) set vol recurs dir =
    let nested = get_dir_ent_cache depth set vol recurs in
    let subdir : Entry → Fault DirList = λ (entry : Entry). elim entry.sector [
      | none ↦ some null
      | some sector ↦
          let sub = nested sector in if recurs && (entry.type == st_dir) then sub else some null
    ] in
    elim (read_entry_block set.env vol dir) [
      | err rc ↦ some null
      | ok parent ↦ list_cache_blocks set.chain subdir set vol (load32 parent 504) >>? λ got.
          some (elim got [ none ↦ null | some list ↦ list ])
    ]
