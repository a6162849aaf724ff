-- ===== src/Dir/Entries.antt =====
-- src/adf_dir.h, `struct AdfEntry`, and src/adf_dir.c: an entry from its block, the entries of a directory by
-- name, the current directory, and the letters of the access bits (src/adf_blk.h). Integers (`int`) stand as
-- their bits; a member that a function leaves unset is `none`. Memory is always given.
use adflib.Prelude.{
  ℕ, zero, suc, ◌+◌, ◌-◌, ◌/◌, ◌%◌, ◌^◌, min, bit_and, Bool, true, false, not, List, [], ◌∷◌, set,
  take, drop, Option, none, some, ltb, ◌==◌, if◌then◌else◌, ◌>>?◌, Fault,
}
use adflib.Util.{u32, byte, load32}
use adflib.Err.{RetCode, rc_ok, rc_error, Result, ok, err}
use adflib.Date.{YearMonthDay, days2_date}
use adflib.Vol.{Volume}
use adflib.Block.{st_dir, st_file, st_lfile, st_ldir, read_entry_block}
use adflib.Dir.{max_name_len, Found, name_to_entry_blk}
use adflib.Dir.Create.{Setting, sec_type}
use adflib.Dir.Remove.{hash_table}

pub record Entry : Type 0 where
  pub type : ℕ
  pub name : List ℕ
  pub sector : Option ℕ
  pub real : Option ℕ
  pub parent : Option ℕ
  pub comment : Option (List ℕ)
  pub size : ℕ
  pub acc_bits : ℕ
  pub year : ℕ
  pub month : ℕ
  pub days : ℕ
  pub hour : ℕ
  pub mins : ℕ
  pub secs : ℕ

-- `n / m` and `n % m` of an `int` by a positive one: towards 0.
abbrev pub int_div : ℕ → ℕ → ℕ
int_div n m = if ltb n (2 ^ 31) then n / m else u32 (2 ^ 32 - (2 ^ 32 - n) / m)

abbrev pub int_mod : ℕ → ℕ → ℕ
int_mod n m = if ltb n (2 ^ 31) then n % m else u32 (2 ^ 32 - (2 ^ 32 - n) % m)

-- `adfDays2Date` of an `int32_t`: no loop runs for a negative count.
unfoldable pub int_days2_date : ℕ → Fault YearMonthDay
int_days2_date days =
    if ltb days (2 ^ 31)
    then days2_date days
    else some (record { yy = 1978; mm = 1; dd = u32 (days + 1) })

-- `strndup( s, n )` without the final NUL.
unfoldable pub strndup : List ℕ → ℕ → List ℕ
strndup s zero = []
strndup [] (suc n) = []
strndup (c ∷ s) (suc n) = if c == 0 then [] else c ∷ strndup s n

-- Members of the block of a directory or a file.
abbrev pub entry_access : List ℕ → ℕ
entry_access blk = load32 blk 320

abbrev pub block_comment : List ℕ → List ℕ
block_comment blk = strndup (take 80 (drop 329 blk)) (min (byte blk 328) 79)

abbrev pub block_name : List ℕ → List ℕ
block_name blk = strndup (take 31 (drop 433 blk)) (min (byte blk 432) max_name_len)

-- `adfEntBlock2Entry`, with no sector.
unfoldable pub ent_block2_entry : List ℕ → Fault Entry
ent_block2_entry blk = int_days2_date (load32 blk 420) >>? λ date.
    let type = sec_type blk in
    let has_comment = if type == st_dir then true else type == st_file in
    some (record {
      type = type;
      name = block_name blk;
      sector = none;
      real = some (
          if type == st_lfile
          then load32 blk 468
          else if type == st_ldir
          then load32 blk 468
          else 0);
      parent = some (load32 blk 500);
      comment = if has_comment then some (block_comment blk) else none;
      size = if type == st_file then load32 blk 324 else 0;
      acc_bits = if has_comment then entry_access blk else 2 ^ 32 - 1;
      year = date.yy;
      month = date.mm;
      days = date.dd;
      hour = int_div (load32 blk 424) 60;
      mins = int_mod (load32 blk 424) 60;
      secs = int_div (load32 blk 428) 50;
    })

-- `adfEntryRead`: the entry, and the block that it fills.
unfoldable pub entry_read : Setting → Volume → ℕ → Fault (Result (Entry × List ℕ))
entry_read set vol n_sect = elim (read_entry_block set.env vol n_sect) [
  | err rc ↦ some (err rc)
  | ok blk ↦
      ent_block2_entry blk >>? λ entry. some (ok (record entry { sector = some n_sect }, blk))
]

-- The entry block with a name; -1 is `none` inside.
unfoldable pub get_entry_block : Setting → Volume → ℕ → List ℕ → Fault (Option Found)
get_entry_block set vol dir_ptr name = elim (read_entry_block set.env vol dir_ptr) [
  | err rc ↦ some none
  | ok parent ↦ name_to_entry_blk set.chain set.toupper set.env vol (hash_table parent) name
]

unfoldable pub get_entry_block_num : Setting → Volume → ℕ → List ℕ → Fault (Option ℕ)
get_entry_block_num set vol dir_ptr name = get_entry_block set vol dir_ptr name >>? λ got.
    some (elim got [ none ↦ none | some found ↦ some found.n_sect ])

-- `adfGetEntry`; it does not set the sector.
unfoldable pub get_entry : Setting → Volume → ℕ → List ℕ → Fault (Result Entry)
get_entry set vol dir_ptr name = get_entry_block set vol dir_ptr name >>? λ got. elim got [
  | none ↦ some (err rc_error)
  | some found ↦ ent_block2_entry found.entry >>? λ entry. some (ok entry)
]

unfoldable pub to_root_dir : Volume → Volume × RetCode
to_root_dir vol = (record vol { cur_dir_ptr = vol.root_block }, rc_ok)

-- A link leads to the block that `realEntry` gives.
unfoldable pub change_dir : Setting → Volume → List ℕ → Fault (Volume × RetCode)
change_dir set vol name = elim (read_entry_block set.env vol vol.cur_dir_ptr) [
  | err rc ↦ some (vol, rc)
  | ok parent ↦
      name_to_entry_blk set.chain set.toupper set.env vol (hash_table parent) name >>? λ got.
      elim got [
        | none ↦ some (vol, rc_error)
        | some found ↦ elim (read_entry_block set.env vol found.n_sect) [
          | err rc ↦ some (vol, rc)
          | ok entry ↦
              let real = load32 entry 468 in
              let n_sect = if real == 0 then found.n_sect else real in
              if n_sect == 2 ^ 32 - 1
              then some (vol, rc_error)
              else some (record vol { cur_dir_ptr = n_sect }, rc_ok)
        ]
      ]
]

unfoldable pub parent_dir : Setting → Volume → Volume × RetCode
parent_dir set vol =
    if vol.cur_dir_ptr == vol.root_block
    then (vol, rc_ok)
    else elim (read_entry_block set.env vol vol.cur_dir_ptr) [
      | err rc ↦ (vol, rc)
      | ok entry ↦ (record vol { cur_dir_ptr = load32 entry 500 }, rc_ok)
    ]

-- `adfAccHasD` and the others: bit `i` of the access bits.
abbrev pub acc_has : ℕ → ℕ → Bool
acc_has acc i = not (bit_and acc (2 ^ i) == 0)

abbrev pub put_if : Bool → ℕ → ℕ → List ℕ → List ℕ
put_if true i c str = set str i c
put_if false i c str = str

-- `adfAccess2String`, from "----rwed" on.
unfoldable pub access2_string : ℕ → List ℕ
access2_string acc =
    let str = 45 ∷ 45 ∷ 45 ∷ 45 ∷ 114 ∷ 119 ∷ 101 ∷ 100 ∷ [] in
    let str = put_if (acc_has acc 0) 7 45 str in
    let str = put_if (acc_has acc 1) 6 45 str in
    let str = put_if (acc_has acc 2) 5 45 str in
    let str = put_if (acc_has acc 3) 4 45 str in
    let str = put_if (acc_has acc 4) 3 97 str in
    let str = put_if (acc_has acc 5) 2 112 str in
    let str = put_if (acc_has acc 6) 1 115 str in put_if (acc_has acc 7) 0 104 str
