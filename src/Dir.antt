-- ===== src/Dir.antt =====
-- src/adf_dir.c: names of entries, their hash values, and the search of an entry in a directory. A name is
-- its bytes without the final NUL. The C library's `toupper` is the parameter `toupper`.
pub mod Names
pub mod Lookup
pub mod Create
pub mod Remove
pub mod Entries
pub mod Tree
pub mod Check
pub mod Errors
pub mod Rename
pub mod Access
pub mod Changed
pub mod Sound
pub mod Checked
pub mod Endless
pub mod RootMix
pub mod Distinct
use adflib.Prelude.{
  ℕ, zero, suc, ◌+◌, ◌-◌, ◌*◌, ◌%◌, ◌^◌, bit_and, Bool, true, false, not, ◌&&◌, ◌||◌, List, [], ◌∷◌,
  length, map, get_or, take, drop, Option, none, some, ltb, leb, ◌==◌, if◌then◌else◌, Fault,
}
use adflib.Util.{u32, byte, load32}
use adflib.Err.{Result, ok, err}
use adflib.Vol.{Volume, vol_has_intl, vol_has_dircache}
use adflib.Block.{Env, ht_size, read_entry_block}

abbrev pub max_name_len : ℕ
max_name_len = 30

unfoldable pub intl_to_upper : ℕ → ℕ
intl_to_upper c =
    if (leb 97 c && leb c 122) || (leb 224 c && (leb c 254 && not (c == 247))) then c - 32 else c

unfoldable pub to_upper : ℕ → ℕ
to_upper c = if leb 97 c && leb c 122 then c - 32 else c

unfoldable pub str_to_upper : List ℕ → Bool → List ℕ
unfolding intl_to_upper to_upper
str_to_upper ostr intl = if intl then map intl_to_upper ostr else map to_upper ostr

-- The loop of `adfGetHashValue`.
unfoldable pub hash_loop : (ℕ → ℕ) → List ℕ → Bool → ℕ → ℕ
hash_loop toupper [] intl hash = hash
hash_loop toupper (c ∷ name) intl hash =
    let upper = if intl then intl_to_upper c else toupper c % 256 in
    hash_loop toupper name intl (bit_and (u32 (hash * 13 + upper)) 0x7ff)

unfoldable pub get_hash_value : (ℕ → ℕ) → List ℕ → Bool → ℕ
get_hash_value toupper name intl = hash_loop toupper name intl (length name) % ht_size

unfoldable pub same_bytes : List ℕ → List ℕ → Bool
same_bytes [] [] = true
same_bytes (a ∷ xs) (b ∷ ys) = (a == b) && same_bytes xs ys
same_bytes _ _ = false

-- Members of an entry block.
abbrev pub name_len : List ℕ → ℕ
name_len entry = byte entry 432

abbrev pub entry_name : List ℕ → ℕ → List ℕ
entry_name entry n = take n (drop 433 entry)

abbrev pub next_same_hash : List ℕ → ℕ
next_same_hash entry = load32 entry 496

-- The test of `adfNameToEntryBlk` for one entry.
unfoldable pub entry_is_named : List ℕ → List ℕ → Bool → Bool
entry_is_named entry name intl =
    if length name == name_len entry
    then same_bytes (str_to_upper name intl) (str_to_upper (entry_name entry (length name)) intl)
    else false

-- An entry found: its block, its contents, and the block before it in the chain.
pub record Found : Type 0 where
  pub n_sect : ℕ
  pub entry : List ℕ
  pub n_upd_sect : ℕ

-- The loop of `adfNameToEntryBlk`; -1 is `none` inside, and a chain longer than the fuel `none` outside.
unfoldable pub name_to_entry_loop : ℕ → Env → Volume → List ℕ → Bool → ℕ → ℕ → Fault (Option Found)
name_to_entry_loop zero env vol name intl n_sect upd_sect = none
name_to_entry_loop (suc fuel) env vol name intl n_sect upd_sect =
    elim (read_entry_block env vol n_sect) [
      | err rc ↦ some none
      | ok entry ↦
          let next = next_same_hash entry in
          let rest = name_to_entry_loop fuel env vol name intl next n_sect in
          if entry_is_named entry name intl
          then some (some (record { n_sect = n_sect; entry = entry; n_upd_sect = upd_sect }))
          else (if next == 0 then some none else rest)
    ]

unfoldable pub name_to_entry_blk :
    ℕ → (ℕ → ℕ) → Env → Volume → List ℕ → List ℕ → Fault (Option Found)
name_to_entry_blk fuel toupper env vol ht name =
    let intl = vol_has_intl vol || vol_has_dircache vol in
    let n_sect = get_or ht (get_hash_value toupper name intl) 0 in
    if ltb max_name_len (length name)
    then some none
    else (if n_sect == 0 then some none else name_to_entry_loop fuel env vol name intl n_sect 0)
