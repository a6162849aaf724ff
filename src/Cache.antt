-- ===== src/Cache.antt =====
-- src/adf_cache.h and adf_cache.c: the records of a directory cache block. `records` is the memory from
-- the block's records on; a position in it is an `int`.
pub mod Codec
pub mod Put
pub mod Record
pub mod Chain
pub mod Ends
pub mod Listing
use adflib.Prelude.{
  ℕ, ◌+◌, ◌-◌, ◌%◌, ◌^◌, ◌||◌, List, [], ◌∷◌, set, take, drop, ltb, ◌==◌, if◌then◌else◌,
}
use adflib.Util.{
  byte, u16, load32, swap_uint32_from_ptr, swap_uint16_from_ptr, swap_uint32_to_ptr,
  swap_uint16_to_ptr,
}
use adflib.Err.{rc_error, Result, ok, err}
use adflib.Block.{st_file}
use adflib.Dir.{max_name_len}

-- `struct AdfCacheEntry`, its strings without the final NUL; `type` is the byte of the `signed char`.
pub record CacheEntry : Type 0 where
  pub header : ℕ
  pub size : ℕ
  pub protect : ℕ
  pub days : ℕ
  pub mins : ℕ
  pub ticks : ℕ
  pub type : ℕ
  pub n_len : ℕ
  pub c_len : ℕ
  pub name : List ℕ
  pub comm : List ℕ

abbrev pub max_comment_len : ℕ
max_comment_len = 79

-- The next even position.
abbrev pub even : ℕ → ℕ
even n = if n % 2 == 0 then n else n + 1

-- `adfGetCacheEntry` at `ptr`: the entry, and the position after it.
unfoldable pub get_cache_entry : List ℕ → ℕ → Result (CacheEntry × ℕ)
get_cache_entry records ptr =
    let n_len = byte records (ptr + 23) in
    let c_len = byte records (ptr + 24 + n_len) in
    let entry : CacheEntry = record {
      header = swap_uint32_from_ptr records ptr;
      size = swap_uint32_from_ptr records (ptr + 4);
      protect = swap_uint32_from_ptr records (ptr + 8);
      days = swap_uint16_from_ptr records (ptr + 16);
      mins = swap_uint16_from_ptr records (ptr + 18);
      ticks = swap_uint16_from_ptr records (ptr + 20);
      type = byte records (ptr + 22);
      n_len = n_len;
      c_len = c_len;
      name = take n_len (drop (ptr + 24) records);
      comm = take c_len (drop (ptr + 24 + n_len + 1) records);
    } in
    if ltb (512 - 26) ptr
    then err rc_error
    else if ltb n_len 1 || ltb max_name_len n_len
    then err rc_error
    else if ltb 512 (ptr + 24 + n_len)
    then err rc_error
    else if ltb max_comment_len c_len
    then err rc_error
    else if ltb 512 (ptr + 24 + n_len + 1 + c_len)
    then err rc_error
    else ok (entry, even (ptr + 24 + n_len + 1 + c_len))

-- `memcpy( records + p, from, length from )`.
unfoldable pub put_bytes : List ℕ → ℕ → List ℕ → List ℕ
put_bytes records p [] = records
put_bytes records p (c ∷ from) = put_bytes (set records p c) (p + 1) from

-- `adfPutCacheEntry` at `ptr`: the records, and the length of the entry.
unfoldable pub put_cache_entry : List ℕ → ℕ → CacheEntry → List ℕ × ℕ
put_cache_entry records ptr c_entry =
    let r = swap_uint32_to_ptr records ptr c_entry.header in
    let r = swap_uint32_to_ptr r (ptr + 4) c_entry.size in
    let r = swap_uint32_to_ptr r (ptr + 8) c_entry.protect in
    let r = swap_uint16_to_ptr r (ptr + 16) c_entry.days in
    let r = swap_uint16_to_ptr r (ptr + 18) c_entry.mins in
    let r = swap_uint16_to_ptr r (ptr + 20) c_entry.ticks in
    let r = set r (ptr + 22) c_entry.type in
    let r = set r (ptr + 23) c_entry.n_len in
    let r = put_bytes r (ptr + 24) (take c_entry.n_len c_entry.name) in
    let r = set r (ptr + 24 + c_entry.n_len) c_entry.c_len in
    let r = put_bytes r (ptr + 24 + c_entry.n_len + 1) (take c_entry.c_len c_entry.comm) in
    let l = 25 + c_entry.n_len + c_entry.c_len in
    if l % 2 == 0 then (r, l) else (set r (ptr + l) 0, l + 1)

-- `adfEntry2CacheEntry` of an entry block: the cache entry, and its length in the records.
unfoldable pub entry2_cache_entry : List ℕ → CacheEntry × ℕ
entry2_cache_entry entry =
    let n_len = byte entry 432 in
    let c_len = byte entry 328 in
    (
      record {
        header = load32 entry 4;
        size = if load32 entry 508 == st_file then load32 entry 324 else 0;
        protect = load32 entry 320;
        days = u16 (load32 entry 420);
        mins = u16 (load32 entry 424);
        ticks = u16 (load32 entry 428);
        type = load32 entry 508 % 2 ^ 8;
        n_len = n_len;
        c_len = c_len;
        name = take n_len (drop 433 entry);
        comm = take c_len (drop 329 entry);
      },
      even (24 + n_len + 1 + c_len),
    )
