-- ===== src/Tests.antt =====
-- The theorems at concrete inputs, and runs of the modelled functions.
mod Volumes
mod Blocks
mod Files
mod Opening
mod Recovery
mod Partitions
mod Roots
mod Changes
mod Directories
use adflib.Prelude.{
  ℕ, zero, suc, ◌+◌, ◌-◌, ◌*◌, ◌/◌, ◌%◌, ◌^◌, ◌<◌, ◌≤◌, ◌≡◌, ◌≢◌, ◌⊎◌, inl, inr, refl, arith, Bool,
  true, false, ◌&&◌, List, [], ◌∷◌, length, replicate, length-replicate, get_or, get_or-replicate,
  Option, some, none, if◌then◌else◌, ◌==◌,
}
use adflib.Util.{
  byte, load32, swap_uint32, swap_uint32_from_ptr, swap_uint32_to_ptr, swap_uint32_at_ptr,
}
use adflib.Util.ByteOrder.{IsBytes, from_ptr-to_ptr, load32-at_ptr, swap_uint32_self}
use adflib.Date.{DateTime, AmigaTime, YearMonthDay, is_leap, days2_date, time2_amiga_time}
use adflib.Date.Calendar.{IsDate, day_number, days2_date_lem}
use adflib.Date.Inverse.{days2_date-day_number}
use adflib.Date.RoundTrip.{
  date_of, missed_in_year, missed_before, days2_date-time2_amiga_time, time2_amiga_time_lem,
  time2_amiga_time_late,
}
use adflib.Raw.{swap_endian, normal_sum, bitmap_sum, boot_sum, boot_sum2}
use adflib.Raw.Swap.{in_long, swap_endian_self, load32-swap_endian}
use adflib.Raw.Sums.{
  total, normal_sum-to_ptr, total-to_ptr, bitmap_sum-eq-normal_sum, boot_sum-eq-boot_sum2,
}
use adflib.Block.{seal}
use adflib.Block.Mismatch.{seal-root_read_as_entry}
use adflib.Raw.Swap.{flip}
use adflib.File.{
  file_pos2datablock_index, file_size2_datablocks, file_size2_extblocks, file_size2_blocks,
  file_pos2_data_block, file_real_size,
}
use adflib.File.Layout.{IsPlace, file_real_size-eq, file_pos2_data_block_lem}
use adflib.Err.{ok}
use adflib.Cache.{CacheEntry, get_cache_entry, put_cache_entry, entry2_cache_entry}
use adflib.Cache.Put.{IsCacheEntry}
use adflib.Cache.Record.{get_cache_entry-put_cache_entry, entry2_cache_entry-length}
use adflib.Dir.{to_upper, str_to_upper, get_hash_value}
use adflib.Dir.Names.{to_upper-to_upper, get_hash_value-same_name}
use adflib.Bitmap.Disk.{name_ext_pages, n_ext_blocks}
use adflib.Bitmap.Pages.{name_ext_pages-again, n_ext_blocks_lem}

-- A block of the byte 7.
abbrev sevens : List ℕ
sevens = replicate 512 7

sevens-length : length sevens ≡ 512
sevens-length = length-replicate {A = ℕ} 512 7

sevens-IsBytes : IsBytes sevens
sevens-IsBytes i = ground (arith, get_or-replicate {A = ℕ} 512 7 i 0)

-- 29 February 1996.
abbrev leap_day : YearMonthDay
leap_day = record { yy = 1996; mm = 2; dd = 29 }

leap_day-IsDate : IsDate leap_day
unfolding is_leap
leap_day-IsDate = record {
  year_from = omega arith;
  month_from = omega arith;
  month_to = omega arith;
  day_from = omega arith;
  day_to = omega arith;
}

abbrev leap_time : DateTime
leap_time = record { year = 96; mon = 2; day = 29; hour = 12; min = 30; sec = 15 }

-- 24 December 2024.
abbrev late_time : DateTime
late_time = record { year = 124; mon = 12; day = 24; hour = 18; min = 0; sec = 0 }

days2_date_lem_example :
    (d : YearMonthDay) × (days2_date 8000 ≡ some d) × IsDate d × (day_number d ≡ 8000)
days2_date_lem_example = days2_date_lem 8000

days2_date-time2_amiga_time_example :
    days2_date (time2_amiga_time leap_time).day ≡ some (date_of leap_time)
days2_date-time2_amiga_time_example =
    days2_date-time2_amiga_time leap_time leap_day-IsDate (omega arith) (inr (omega arith))

time2_amiga_time_late_example :
    (time2_amiga_time late_time).day
      + (if is_leap (1900 + late_time.year) && late_time.mon == 3 then 2 else 1)
    ≡ day_number (date_of late_time)
time2_amiga_time_late_example =
    time2_amiga_time_late late_time (omega arith) (omega arith) (omega arith) (omega arith)
      (omega arith)

swap_endian_self_example : swap_endian (swap_endian sevens 3) 3 ≡ sevens
swap_endian_self_example = swap_endian_self sevens 3 (omega arith) (omega (arith, sevens-length))

normal_sum-to_ptr_example :
    let stored = swap_uint32_to_ptr sevens (5 * 4) (normal_sum sevens (5 * 4) 512) in
    swap_uint32_from_ptr stored (5 * 4) ≡ normal_sum stored (5 * 4) 512
normal_sum-to_ptr_example =
    normal_sum-to_ptr sevens 5 512 (omega (arith, sevens-length)) sevens-IsBytes

file_real_size-eq_example : file_real_size 100000 488 ≡ (
  file_size2_blocks 100000 488,
  file_size2_datablocks 100000 488,
  file_size2_extblocks 100000 488,
)
file_real_size-eq_example = file_real_size-eq 100000 488 (omega arith) (inl refl)

file_pos2_data_block_lem_example :
    IsPlace 100000 512 (file_pos2_data_block 100000 512)
    × (file_pos2datablock_index 100000 512 ≡ (file_pos2_data_block 100000 512).cur_data_n)
file_pos2_data_block_lem_example = file_pos2_data_block_lem 100000 512 (omega arith) (inr refl)

-- "dir" and "DIR".
get_hash_value-same_name_example :
    (get_hash_value to_upper (100 ∷ 105 ∷ 114 ∷ []) true
      ≡ get_hash_value to_upper (68 ∷ 73 ∷ 82 ∷ []) true)
    × (get_hash_value to_upper (100 ∷ 105 ∷ 114 ∷ []) true < 72)
unfolding str_to_upper
get_hash_value-same_name_example =
    get_hash_value-same_name to_upper (100 ∷ 105 ∷ 114 ∷ []) (68 ∷ 73 ∷ 82 ∷ []) true
      to_upper-to_upper refl

-- The blocks of the list.
abbrev two_new : List ℕ
two_new = 40 ∷ 41 ∷ []

two_small : (j : ℕ) → get_or two_new j 0 < 2 ^ 32
two_small zero = omega arith
two_small (suc zero) = omega arith
two_small (suc (suc j)) = omega arith

name_ext_pages-again_example :
    let (bitme', blocks', _) = name_ext_pages 127 two_new 27 0 25 sevens (replicate 27 0) in
    (load32 bitme' (4 * 1) ≡ 41) × (get_or blocks' (25 + 1) 0 ≡ 41)
name_ext_pages-again_example =
    name_ext_pages-again two_new 27 25 sevens (replicate 27 0) 1
      (omega (arith, length-replicate {A = ℕ} 27 0)) (omega (arith, sevens-length)) two_small
      (omega arith) (omega arith)

n_ext_blocks_lem_example :
    (200 ≤ 25 + 127 * n_ext_blocks 200) × (25 + 127 * (n_ext_blocks 200 - 1) < 200)
n_ext_blocks_lem_example = n_ext_blocks_lem 200 (omega arith)

-- The record of a file "ab" with the comment "c".
abbrev record_ab : CacheEntry
record_ab = record {
  header = 882;
  size = 1000;
  protect = 0;
  days = 8000;
  mins = 10;
  ticks = 20;
  type = 253;
  n_len = 2;
  c_len = 1;
  name = 97 ∷ 98 ∷ [];
  comm = 99 ∷ [];
}

record_ab-IsCacheEntry : IsCacheEntry record_ab
record_ab-IsCacheEntry = record {
  header_fits = omega arith;
  size_fits = omega arith;
  protect_fits = omega arith;
  days_fits = omega arith;
  mins_fits = omega arith;
  ticks_fits = omega arith;
  named = omega arith;
  name_fits = omega arith;
  comm_fits = omega arith;
  name_whole = refl;
  comm_whole = refl;
}

get_cache_entry-put_cache_entry_example :
    let (records', len) = put_cache_entry (replicate 488 0) 28 record_ab in
    get_cache_entry records' 28 ≡ ok (record_ab, 28 + len)
get_cache_entry-put_cache_entry_example =
    get_cache_entry-put_cache_entry (replicate 488 0) 28 record_ab record_ab-IsCacheEntry refl
      (omega (arith, length-replicate {A = ℕ} 488 0))
      (omega (arith, length-replicate {A = ℕ} 488 0))
