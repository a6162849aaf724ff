-- ===== src/Raw.antt =====
-- src/adf_raw.c: the byte order of whole blocks, and the checksums of blocks. A block in memory is its
-- bytes; the host is little-endian (`LITT_ENDIAN`).
pub mod Swap
pub mod Sums
use adflib.Prelude.{
  ℕ, zero, suc, ◌+◌, ◌-◌, ◌*◌, ◌/◌, ◌%◌, ◌^◌, List, [], ◌∷◌, get_or, ltb, ◌==◌, if◌then◌else◌,
}
use adflib.Util.{u32, swap_uint32_from_ptr, swap_uint32_at_ptr, swap_uint16_at_ptr}

abbrev pub sw_long : ℕ
sw_long = 4

abbrev pub sw_short : ℕ
sw_short = 2

abbrev pub sw_char : ℕ
sw_char = 1

abbrev pub tot_len : ℕ
tot_len = 0

abbrev pub max_swtype : ℕ
max_swtype = 11

pub data SwapEl : Type 0 where
  el : ℕ → ℕ → SwapEl

-- `swapTable`: boot, root, data, entry, cache, bitmap, link, RDSK, BADB, PART, FSHD, LSEG.
abbrev pub swap_table : List (List SwapEl)
swap_table =
    (el sw_char 4 ∷ el sw_long 2 ∷ el sw_char 1012 ∷ el tot_len 1024 ∷ [])
    ∷ (el sw_long 108 ∷ el sw_char 40 ∷ el sw_long 10 ∷ el tot_len 512 ∷ [])
    ∷ (el sw_long 6 ∷ el sw_char 488 ∷ el tot_len 512 ∷ [])
    ∷ (el sw_long 82
        ∷ el sw_char 92
        ∷ el sw_long 3
        ∷ el sw_char 36
        ∷ el sw_long 11
        ∷ el tot_len 512
        ∷ [])
    ∷ (el sw_long 6 ∷ el tot_len 24 ∷ [])
    ∷ (el sw_long 128 ∷ el tot_len 512 ∷ [])
    ∷ (el sw_long 6
        ∷ el sw_char 64
        ∷ el sw_long 86
        ∷ el sw_char 32
        ∷ el sw_long 12
        ∷ el tot_len 512
        ∷ [])
    ∷ (el sw_char 4 ∷ el sw_long 39 ∷ el sw_char 56 ∷ el sw_long 10 ∷ el tot_len 256 ∷ [])
    ∷ (el sw_char 4 ∷ el sw_long 127 ∷ el tot_len 512 ∷ [])
    ∷ (el sw_char 4
        ∷ el sw_long 8
        ∷ el sw_char 32
        ∷ el sw_long 31
        ∷ el sw_char 4
        ∷ el sw_long 15
        ∷ el tot_len 256
        ∷ [])
    ∷ (el sw_char 4 ∷ el sw_long 7 ∷ el sw_char 4 ∷ el sw_long 55 ∷ el tot_len 256 ∷ [])
    ∷ (el sw_char 4 ∷ el sw_long 4 ∷ el sw_char 492 ∷ el tot_len 512 ∷ [])
    ∷ []

-- One round of the loop over `j`: the buffer and the offset `p` after it.
unfoldable pub swap_one : ℕ → ℕ → List ℕ → List ℕ × ℕ
swap_one type p buf =
    if type == sw_long
    then (swap_uint32_at_ptr buf p, p + 4)
    else if type == sw_short
    then (swap_uint16_at_ptr buf p, p + 2)
    else (buf, p)

unfoldable pub swap_items : ℕ → ℕ → ℕ → List ℕ → List ℕ × ℕ
swap_items type zero p buf = (buf, p)
swap_items type (suc n) p buf = let (buf', p') = swap_one type p buf in swap_items type n p' buf'

-- The loop over the elements of a row, up to `TOT_LEN`. It moves on past characters.
unfoldable pub swap_els : List SwapEl → ℕ → List ℕ → List ℕ
swap_els [] p buf = buf
swap_els (el type len ∷ els) p buf =
    let (buf', p') = (if type == sw_char then (buf, p + len) else swap_items type len p buf) in
    let rest = swap_els els p' buf' in if type == tot_len then buf else rest

-- `adfSwapEndian`. The warnings leave no trace; a type without a row changes nothing.
unfoldable pub swap_endian : List ℕ → ℕ → List ℕ
swap_endian buf type =
    if ltb max_swtype type then buf else swap_els (get_or swap_table type []) 0 buf

-- The sum of the longs but the one at `skip`, from `i` on with `n` to go.
unfoldable pub normal_sum_loop : List ℕ → ℕ → ℕ → ℕ → ℕ → ℕ
normal_sum_loop buf skip zero i newsum = newsum
normal_sum_loop buf skip (suc n) i newsum =
    normal_sum_loop buf skip n (i + 1)
      (if i == skip then newsum else u32 (newsum + swap_uint32_from_ptr buf (i * 4)))

-- `adfNormalSum`: the sum, negated in 32 bits.
unfoldable pub normal_sum : List ℕ → ℕ → ℕ → ℕ
normal_sum buf offset buf_len = u32 (2 ^ 32 - normal_sum_loop buf (offset / 4) (buf_len / 4) 0 0)

unfoldable pub bitmap_sum_loop : List ℕ → ℕ → ℕ → ℕ → ℕ
bitmap_sum_loop buf zero i new_sum = new_sum
bitmap_sum_loop buf (suc n) i new_sum =
    bitmap_sum_loop buf n (i + 1) (u32 (new_sum + 2 ^ 32 - swap_uint32_from_ptr buf (i * 4)))

-- `adfBitmapSum`: from 1 to 127.
unfoldable pub bitmap_sum : List ℕ → ℕ
bitmap_sum buf = bitmap_sum_loop buf 127 1 0

-- `if ( ( 0xffffffff - newSum ) < d ) newSum++; newSum += d;`
unfoldable pub boot_sum_step : ℕ → ℕ → ℕ
boot_sum_step new_sum d =
    u32 ((if ltb (0xffff_ffff - new_sum) d then u32 (new_sum + 1) else new_sum) + d)

unfoldable pub boot_sum_loop : List ℕ → ℕ → ℕ → ℕ → ℕ
boot_sum_loop buf zero i new_sum = new_sum
boot_sum_loop buf (suc n) i new_sum =
    boot_sum_loop buf n (i + 1)
      (if i == 1 then new_sum else boot_sum_step new_sum (swap_uint32_from_ptr buf (i * 4)))

-- `adfBootSum`: the complement of the sum with end-around carry.
unfoldable pub boot_sum : List ℕ → ℕ
boot_sum buf = 0xffff_ffff - boot_sum_loop buf 256 0 0

-- `newSum += d; if ( newSum < prevsum ) newSum++;`
unfoldable pub boot_sum2_step : ℕ → ℕ → ℕ
boot_sum2_step prevsum d =
    let new_sum = u32 (prevsum + d) in if ltb new_sum prevsum then u32 (new_sum + 1) else new_sum

unfoldable pub boot_sum2_loop : List ℕ → ℕ → ℕ → ℕ → ℕ
boot_sum2_loop buf zero i new_sum = new_sum
boot_sum2_loop buf (suc n) i new_sum =
    boot_sum2_loop buf n (i + 1)
      (if i == 1 then new_sum else boot_sum2_step new_sum (swap_uint32_from_ptr buf (i * 4)))

unfoldable pub boot_sum2 : List ℕ → ℕ
boot_sum2 buf = 0xffff_ffff - boot_sum2_loop buf 256 0 0
