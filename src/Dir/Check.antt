-- ===== src/Dir/Check.antt =====
-- src/adf_dir.c: the check of a directory (`adfDirCheckLimited`, `adfDirCheck`). It counts errors in 32 bits. After a
-- failed read it goes on with the variables of the round before, here `none` while they were never set; a use
-- of an unset variable is a fault.
use adflib.Prelude.{
  ℕ, zero, suc, ◌+◌, Bool, not, ◌&&◌, ◌||◌, List, [], ◌∷◌, Option, none, some, ◌==◌, if◌then◌else◌,
  ◌>>?◌, Fault,
}
use adflib.Util.{u32, load32, swap_uint32_from_ptr}
use adflib.Raw.{swap_endian}
use adflib.Err.{ok, err}
use adflib.Vol.{Volume, vol_read_block}
use adflib.Block.{
  st_root, st_dir, st_lfile, st_ldir, st_lsoft, sec_type_at, swbl_link, swbl_entry,
  read_entry_block,
}
use adflib.Dir.{next_same_hash}
use adflib.Dir.Create.{Setting}
use adflib.Dir.Remove.{hash_table}
use adflib.Dir.Entries.{entry_read}
use adflib.Dir.Tree.{dir_max_levels, link_is_bad}

-- The structure that a failed `adfReadEntryBlock` leaves: the block, if it was read from the device.
unfoldable pub left_by_read : Volume → ℕ → Option (List ℕ) → Option (List ℕ)
left_by_read vol n_sect before = elim (vol_read_block vol n_sect) [
  | err rc ↦ before
  | ok buf ↦
      let type = swap_uint32_from_ptr buf sec_type_at in
      some (
        swap_endian buf (
          if (type == st_lfile) || ((type == st_ldir) || (type == st_lsoft))
          then swbl_link
          else swbl_entry))
]

-- A round of the inner loop for an entry: the errors so far, the type that the entry has, and its block.
unfoldable pub check_read :
    Setting → Volume → ℕ → Option (List ℕ) → Fault (ℕ × Option ℕ × Option (List ℕ))
check_read set vol sector before = entry_read set vol sector >>? λ got. elim got [
  | err rc ↦ some (1, none, left_by_read vol sector before)
  | ok (entry, blk) ↦ some (0, some entry.type, some blk)
]

-- The errors of the subdirectory; a type that was never set is a fault.
unfoldable pub check_sub : Bool → (ℕ → Fault ℕ) → Option ℕ → ℕ → Fault ℕ
check_sub recurs nested type sector =
    let sub = nested sector in
    if recurs
    then elim type [ none ↦ none | some t ↦ if t == st_dir then sub else some 0 ]
    else some 0

-- The errors of a chain from a sector other than 0 on, and the block that it leaves.
unfoldable pub check_chain :
    ℕ
    → Setting
    → Volume
    → Bool
    → (ℕ → Fault ℕ)
    → List ℕ
    → ℕ
    → Option (List ℕ)
    → Fault (ℕ × Option (List ℕ))
check_chain zero set vol recurs nested ht sector before = none
check_chain (suc fuel) set vol recurs nested ht sector before =
    check_read set vol sector before >>? λ read. check_sub recurs nested read.1 sector >>? λ sub.
    elim read.2 [
      | none ↦ none
      | some blk ↦
          let next = next_same_hash blk in
          let rest = check_chain fuel set vol recurs nested ht next (some blk) in
          if next == 0
          then some (u32 (read.0 + sub), some blk)
          else if link_is_bad ht sector next
          then some (u32 (read.0 + sub + 1), some blk)
          else (rest >>? λ later. some (u32 (read.0 + sub + later.0), later.1))
    ]

unfoldable pub check_slots :
    Setting → Volume → Bool → (ℕ → Fault ℕ) → List ℕ → List ℕ → Option (List ℕ) → Fault ℕ
check_slots set vol recurs nested ht [] before = some 0
check_slots set vol recurs nested ht (sector ∷ slots) before =
    if sector == 0
    then check_slots set vol recurs nested ht slots before
    else (check_chain set.chain set vol recurs nested ht sector before >>? λ here.
        check_slots set vol recurs nested ht slots here.1 >>? λ later. some (u32 (here.0 + later)))

-- `adfDirCheckLimited` with the levels that are left. It tests `type`, not `secType`.
unfoldable pub dir_check_limited : ℕ → Setting → Volume → Bool → ℕ → Fault ℕ
dir_check_limited zero set vol recurs n_sect = some 1
dir_check_limited (suc levels) set vol recurs n_sect =
    let nested = dir_check_limited levels set vol recurs in
    elim (read_entry_block set.env vol n_sect) [
      | err rc ↦ some 1
      | ok parent ↦
          if not (load32 parent 0 == st_root) && not (load32 parent 0 == st_dir)
          then some 1
          else check_slots set vol recurs nested (hash_table parent) (hash_table parent) none
    ]

unfoldable pub dir_check : Setting → Volume → Bool → ℕ → Fault ℕ
dir_check set vol recurs n_sect = dir_check_limited (suc dir_max_levels) set vol recurs n_sect
