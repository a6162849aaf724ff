-- ===== src/Dir/Rename.antt =====
-- src/adf_dir.c: the name, the access bits and the comment of an entry (`adfRenameEntry`, `adfSetEntryAccess`,
-- `adfSetEntryComment`).
use adflib.Prelude.{
  ℕ, zero, suc, ◌+◌, ◌*◌, min, Bool, true, false, ◌&&◌, List, length, take, none, some, ltb, ◌==◌,
  if◌then◌else◌, ◌>>?◌, Fault,
}
use adflib.Util.{store32}
use adflib.Err.{RetCode, rc_ok, rc_error, rc_name_too_long, Result, ok, err, ◌>>s◌}
use adflib.Dev.{splice}
use adflib.Vol.{Volume, vol_has_dircache}
use adflib.Block.{
  st_root, st_dir, st_file, stamp_root, stamp_dir, stamp_file_hdr, read_entry_block,
  write_entry_block, write_root_block, write_dir_block, write_file_hdr_block,
}
use adflib.Cache.{max_comment_len}
use adflib.Cache.Chain.{header_key, add_in_cache, del_from_cache, update_cache}
use adflib.Dir.{
  max_name_len, get_hash_value, same_bytes, entry_is_named, next_same_hash, Found,
  name_to_entry_blk,
}
use adflib.Dir.Create.{Setting, sec_type, hash_at, is_intl, dated, write_last}
use adflib.Dir.Remove.{hash_table}
use adflib.Prelude.{set as put}

-- The entry under its new name and parent, at the end of a chain.
unfoldable pub renamed : List ℕ → List ℕ → ℕ → List ℕ
renamed entry new_name n_p_sect =
    let n = min 31 (length new_name) in
    let named = splice (put entry 432 n) 433 (take n new_name) in
    store32 (store32 named 500 n_p_sect) 496 0

-- A parent is written with the time: the volume, and the structure as the writer leaves it.
unfoldable pub write_dated : Setting → Volume → ℕ → List ℕ → (Volume × List ℕ) × RetCode
write_dated set vol n_sect dir =
    let dir1 = dated set.now dir in
    if sec_type dir1 == st_root
    then (let (vol1, rc) = write_root_block vol n_sect dir1 in ((vol1, stamp_root dir1), rc))
    else (let (vol1, rc) = write_dir_block vol n_sect dir1 in ((vol1, stamp_dir dir1), rc))

-- The entry is taken out of the chain of its old name: the volume, and the old parent's structure.
unfoldable pub unlink_old : Setting → Volume → List ℕ → List ℕ → Found → (Volume × List ℕ) × RetCode
unlink_old set vol parent old_name found =
    let next = next_same_hash found.entry in
    let hash = get_hash_value set.toupper old_name (is_intl vol) in
    if found.n_upd_sect == 0
    then ((vol, store32 parent (24 + 4 * hash) next), rc_ok)
    else elim (read_entry_block set.env vol found.n_upd_sect) [
      | err rc ↦ ((vol, parent), rc)
      | ok previous ↦
          let (vol1, rc) = write_entry_block vol found.n_upd_sect (store32 previous 496 next) in
          ((vol1, parent), rc)
    ]

-- The last entry of the chain for the new name.
unfoldable pub end_of_chain : ℕ → Setting → Volume → List ℕ → ℕ → Fault (Result (List ℕ))
end_of_chain zero set vol new_name n_sect2 = none
end_of_chain (suc fuel) set vol new_name n_sect2 = elim (read_entry_block set.env vol n_sect2) [
  | err rc ↦ some (err rc)
  | ok previous ↦
      let next = next_same_hash previous in
      let rest = end_of_chain fuel set vol new_name next in
      if entry_is_named previous new_name (is_intl vol)
      then some (err rc_error)
      else if next == 0
      then some (ok previous)
      else rest
]

-- The entry is linked under its new name: the volume, and the new parent's structure.
unfoldable pub link_new :
    Setting → Volume → List ℕ → List ℕ → ℕ → Fault ((Volume × List ℕ) × RetCode)
link_new set vol n_parent new_name n_sect =
    let hash = get_hash_value set.toupper new_name (is_intl vol) in
    let first = hash_at n_parent hash in
    if first == 0
    then some ((vol, store32 n_parent (24 + 4 * hash) n_sect), rc_ok)
    else (end_of_chain set.chain set vol new_name first >>? λ got. some (elim got [
      | err rc ↦ ((vol, n_parent), rc)
      | ok previous ↦
          let (vol1, rc) = write_last vol (store32 previous 496 n_sect) in ((vol1, n_parent), rc)
    ]))

-- The directory caches of the old and the new parent.
unfoldable pub rename_in_cache :
    Setting → Volume → Bool → List ℕ → List ℕ → List ℕ → Fault (Volume × RetCode)
rename_in_cache set vol same parent n_parent entry =
    if vol_has_dircache vol
    then (if same
        then update_cache set.env set.now set.chain vol parent entry true
        else (del_from_cache set.env set.now set.chain vol parent (header_key entry) >>? λ deleted.
            deleted >>s λ vol1. add_in_cache set.env set.now set.chain vol1 n_parent entry))
    else some (vol, rc_ok)

-- The entry found moves to the directory at `n_p_sect`.
unfoldable pub move_entry :
    Setting → Volume → ℕ → List ℕ → List ℕ → ℕ → List ℕ → Found → Fault (Volume × RetCode)
move_entry set vol p_sect parent old_name n_p_sect new_name found =
    let entry = renamed found.entry new_name n_p_sect in
    write_entry_block vol found.n_sect entry >>s λ vol1.
    let unlinked = unlink_old set vol1 parent old_name found in
    (unlinked.0.0, unlinked.1) >>s λ vol2.
    let old_written = write_dated set vol2 p_sect unlinked.0.1 in
    (old_written.0.0, old_written.1) >>s λ vol3. elim (read_entry_block set.env vol3 n_p_sect) [
      | err rc ↦ some (vol3, rc)
      | ok n_parent ↦ link_new set vol3 n_parent new_name found.n_sect >>? λ new_linked.
          (new_linked.0.0, new_linked.1) >>s λ vol4.
          let new_written = write_dated set vol4 n_p_sect new_linked.0.1 in
          (new_written.0.0, new_written.1) >>s λ vol5.
          rename_in_cache set vol5 (p_sect == n_p_sect) old_written.0.1 new_written.0.1 entry
    ]

unfoldable pub rename_entry : Setting → Volume → ℕ → List ℕ → ℕ → List ℕ → Fault (Volume × RetCode)
rename_entry set vol p_sect old_name n_p_sect new_name =
    if ltb max_name_len (length new_name)
    then some (vol, rc_name_too_long)
    else if (p_sect == n_p_sect) && same_bytes old_name new_name
    then some (vol, rc_ok)
    else elim (read_entry_block set.env vol p_sect) [
      | err rc ↦ some (vol, rc)
      | ok parent ↦
          name_to_entry_blk set.chain set.toupper set.env vol (hash_table parent) old_name
          >>? λ got. elim got [
            | none ↦ some (vol, rc_error)
            | some found ↦ move_entry set vol p_sect parent old_name n_p_sect new_name found
          ]
    ]

-- The block of a changed entry is written; one that is neither a directory nor a file is left. The code
-- that the writer of a file's header returns is lost with `keep_rc` false.
unfoldable pub write_changed_entry : Volume → ℕ → List ℕ → Bool → (Volume × List ℕ) × RetCode
write_changed_entry vol n_sect entry keep_rc =
    if sec_type entry == st_dir
    then (let (vol1, rc) = write_dir_block vol n_sect entry in ((vol1, stamp_dir entry), rc))
    else if sec_type entry == st_file
    then (let (vol1, rc) = write_file_hdr_block vol n_sect entry in
        ((vol1, stamp_file_hdr entry), if keep_rc then rc else rc_ok))
    else ((vol, entry), rc_ok)

-- The two functions differ in the member that they store.
unfoldable pub change_entry :
    Setting → Volume → ℕ → List ℕ → (List ℕ → List ℕ) → Bool → Bool → Fault (Volume × RetCode)
change_entry set vol par_sect name change keep_rc comm_changes =
    elim (read_entry_block set.env vol par_sect) [
      | err rc ↦ some (vol, rc)
      | ok parent ↦
          name_to_entry_blk set.chain set.toupper set.env vol (hash_table parent) name >>? λ got.
          elim got [
            | none ↦ some (vol, rc_error)
            | some found ↦
                let written = write_changed_entry vol found.n_sect (change found.entry) keep_rc in
                (written.0.0, written.1) >>s λ vol1.
                if vol_has_dircache vol1
                then update_cache set.env set.now set.chain vol1 parent written.0.1 comm_changes
                else some (vol1, rc_ok)
          ]
    ]

unfoldable pub set_entry_access : Setting → Volume → ℕ → List ℕ → ℕ → Fault (Volume × RetCode)
set_entry_access set vol par_sect name new_acc =
    change_entry set vol par_sect name (λ entry. store32 entry 320 new_acc) false false

-- `commLen` and the comment; what is after a shorter one stays.
unfoldable pub commented : List ℕ → List ℕ → List ℕ
commented entry new_cmt =
    let n = min max_comment_len (length new_cmt) in splice (put entry 328 n) 329 (take n new_cmt)

unfoldable pub set_entry_comment : Setting → Volume → ℕ → List ℕ → List ℕ → Fault (Volume × RetCode)
set_entry_comment set vol par_sect name new_cmt =
    change_entry set vol par_sect name (λ entry. commented entry new_cmt) true true
