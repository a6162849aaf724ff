-- ===== src/Dir/Create.antt =====
-- src/adf_dir.c: `adfCreateEntry`, `adfCreateFile` and `adfCreateDir`. A directory is its entry block. The
-- chains of the hash table are on fuel, as those of the directory cache. The functions to call on a change
-- (`adfEnv.notifyFct`) leave no trace.
use adflib.Prelude.{
  ℕ, zero, suc, ◌+◌, ◌-◌, ◌*◌, min, Bool, not, ◌||◌, List, ◌∷◌, ◌++◌, length, take, replicate,
  Option, none, some, ltb, ◌==◌, if◌then◌else◌, ◌>>?◌, Fault,
}
use adflib.Util.{load32, store32}
use adflib.Err.{RetCode, rc_ok, rc_error, ok, err, is_ok, ◌>>s◌}
use adflib.Date.{AmigaTime}
use adflib.Vol.{Volume, vol_has_intl, vol_has_dircache}
use adflib.Block.{
  Env, st_root, st_dir, st_file, stamp_root, stamp_dir, stamp_file_hdr, read_entry_block,
  write_root_block, write_dir_block, write_file_hdr_block,
}
use adflib.Bitmap.{set_block_free, get1_free_block}
use adflib.Bitmap.Disk.{update_bitmap}
use adflib.Cache.Chain.{header_key, add_in_cache, create_empty_cache}
use adflib.Dir.{max_name_len, get_hash_value, entry_is_named, next_same_hash}

-- What a call finds: the environment, the time, the C library's `toupper`, and the fuel for chains.
pub record Setting : Type 0 where
  pub env : Env
  pub now : AmigaTime
  pub toupper : ℕ → ℕ
  pub chain : ℕ

abbrev pub sec_type : List ℕ → ℕ
sec_type entry = load32 entry 508

abbrev pub hash_at : List ℕ → ℕ → ℕ
hash_at dir h = load32 dir (24 + 4 * h)

abbrev pub is_intl : Volume → Bool
is_intl vol = vol_has_intl vol || vol_has_dircache vol

-- `days`, `mins` and `ticks`, which an entry and a root block have at the same place.
abbrev pub dated : AmigaTime → List ℕ → List ℕ
dated now dir = store32 (store32 (store32 dir 420 now.day) 424 now.min) 428 now.ticks

-- The last entry of a chain; none, if one has the name or cannot be read.
unfoldable pub last_of_chain : ℕ → Env → Volume → List ℕ → ℕ → Fault (Option (List ℕ))
last_of_chain zero env vol name n_sect = none
last_of_chain (suc fuel) env vol name n_sect = elim (read_entry_block env vol n_sect) [
  | err rc ↦ some none
  | ok entry ↦
      let rest = last_of_chain fuel env vol name (next_same_hash entry) in
      if entry_is_named entry name (is_intl vol)
      then some none
      else (if next_same_hash entry == 0 then some (some entry) else rest)
]

-- The sector of the new entry: `thisSect`, or a free one.
abbrev pub entry_sect : Volume → Option ℕ → Fault (Volume × Option ℕ)
entry_sect vol this_sect = elim this_sect [
  | none ↦ get1_free_block vol
  | some n_sect ↦ some (vol, some n_sect)
]

-- The end of `adfCreateEntry`: after a failed write the sector is free again.
unfoldable pub created : Volume × RetCode → List ℕ → ℕ → Fault ((Volume × List ℕ) × Option ℕ)
created (vol, rc) dir new_sect =
    let freed = set_block_free vol new_sect in
    if is_ok rc
    then some ((vol, dir), some new_sect)
    else (freed >>? λ vol1. some ((vol1, dir), none))

-- The directory is written with the new entry as the first of its hash value.
unfoldable pub write_parent : AmigaTime → Volume → List ℕ → (Volume × RetCode) × List ℕ
write_parent now vol dir =
    if sec_type dir == st_root
    then (write_root_block vol vol.root_block (dated now dir), stamp_root (dated now dir))
    else (write_dir_block vol (header_key dir) (dated now dir), stamp_dir (dated now dir))

-- The last entry of the chain is written, with the new one after it.
unfoldable pub write_last : Volume → List ℕ → Volume × RetCode
write_last vol entry =
    if sec_type entry == st_dir
    then write_dir_block vol (header_key entry) entry
    else if sec_type entry == st_file
    then write_file_hdr_block vol (header_key entry) entry
    else (vol, rc_error)

-- The volume and the directory's structure after it, and the sector; -1 is `none`.
unfoldable pub create_entry :
    Setting → Volume → List ℕ → List ℕ → Option ℕ → Fault ((Volume × List ℕ) × Option ℕ)
create_entry set vol dir name this_sect =
    let hash = get_hash_value set.toupper name (is_intl vol) in
    if ltb max_name_len (length name)
    then some ((vol, dir), none)
    else (if hash_at dir hash == 0
        then (entry_sect vol this_sect >>? λ got. elim got.1 [
          | none ↦ some ((got.0, dir), none)
          | some new_sect ↦
              let (written, dir1) =
                write_parent set.now got.0 (store32 dir (24 + 4 * hash) new_sect) in
              created written dir1 new_sect
        ])
        else (last_of_chain set.chain set.env vol name (hash_at dir hash) >>? λ last. elim last [
          | none ↦ some ((vol, dir), none)
          | some entry ↦ entry_sect vol this_sect >>? λ got. elim got.1 [
            | none ↦ some ((got.0, dir), none)
            | some new_sect ↦ created (write_last got.0 (store32 entry 496 new_sect)) dir new_sect
          ]
        ]))

-- `nameLen` and the name of a new entry, in a structure of zeros.
abbrev pub name_fields : List ℕ → List ℕ
name_fields name =
    let n = min max_name_len (length name) in
    replicate 432 0 ++ (n ∷ (take n name ++ replicate (79 - n) 0))

unfoldable pub new_file_hdr : AmigaTime → Volume → List ℕ → List ℕ → ℕ → List ℕ
new_file_hdr now vol parent name n_sect =
    let fhdr = store32 (name_fields name) 4 n_sect in
    dated now (
      if sec_type parent == st_root
      then store32 fhdr 500 vol.root_block
      else if sec_type parent == st_dir
      then store32 fhdr 500 (header_key parent)
      else fhdr)

-- `adfCreateFile`: the volume and the header that it fills.
unfoldable pub create_file :
    Setting → Volume → ℕ → List ℕ → List ℕ → Fault ((Volume × List ℕ) × RetCode)
create_file set vol n_parent name fhdr = elim (read_entry_block set.env vol n_parent) [
  | err rc ↦ some ((vol, fhdr), rc)
  | ok dir ↦ create_entry set vol dir name none >>? λ made.
      let (vol1, parent) = made.0 in
      elim made.1 [
        | none ↦ some ((vol1, fhdr), rc_error)
        | some n_sect ↦
            let hdr = new_file_hdr set.now vol1 parent name n_sect in
            let (vol2, rc) = write_file_hdr_block vol1 n_sect hdr in
            let hdr1 = stamp_file_hdr hdr in
            ((vol2, hdr1), rc) >>s λ s.
            (if vol_has_dircache s.0
              then (add_in_cache set.env set.now set.chain s.0 parent hdr1 >>? λ added.
                  some ((added.0, hdr1), added.1))
              else some (s, rc_ok))
            >>? λ cached. cached >>s λ s1.
                let (vol3, rc1) = update_bitmap set.env set.now s1.0 in some ((vol3, hdr1), rc1)
      ]
]

unfoldable pub new_dir : AmigaTime → Volume → List ℕ → List ℕ → ℕ → List ℕ
new_dir now vol parent name n_sect =
    let dir = store32 (name_fields name) 4 n_sect in
    dated now
      (store32 dir 500 (if sec_type parent == st_root then vol.root_block else header_key parent))

-- The cache blocks of a new directory: its record in the parent, and an empty one of its own.
unfoldable pub new_dir_cache :
    Setting → Volume → List ℕ → List ℕ → Fault ((Volume × List ℕ) × RetCode)
new_dir_cache set vol parent dir =
    if not (vol_has_dircache vol)
    then some ((vol, dir), rc_ok)
    else (let typed = store32 dir 508 st_dir in
        add_in_cache set.env set.now set.chain vol parent typed >>? λ added.
        ((added.0, typed), added.1) >>s λ s. create_empty_cache s.0 s.1 none)

unfoldable pub create_dir : Setting → Volume → ℕ → List ℕ → Fault (Volume × RetCode)
create_dir set vol n_parent name = elim (read_entry_block set.env vol n_parent) [
  | err rc ↦ some (vol, rc)
  | ok dir ↦ create_entry set vol dir name none >>? λ made.
      let (vol1, parent) = made.0 in
      elim made.1 [
        | none ↦ some (vol1, rc_error)
        | some n_sect ↦
            new_dir_cache set vol1 parent (new_dir set.now vol1 parent name n_sect) >>? λ cached.
            let ((vol2, dir1), rc) = cached in
            (vol2, rc) >>s λ vol3.
            write_dir_block vol3 n_sect dir1 >>s λ vol4. some (update_bitmap set.env set.now vol4)
      ]
]
