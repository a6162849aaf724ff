-- ===== src/Cache/Put.antt =====
-- The bytes of a record of a directory cache block that was put.
use adflib.Prelude.{
  ℕ, ◌+◌, ◌-◌, ◌^◌, ◌<◌, ◌≤◌, ◌≡◌, ◌∙◌, ap, arith, List, length, set, get_or, take, drop,
  length-set, get_or-set, length-take, length-drop, list_ext,
}
use adflib.Util.{
  byte, swap_uint32_from_ptr, swap_uint16_from_ptr, swap_uint32_to_ptr, swap_uint16_to_ptr,
}
use adflib.Util.ByteOrder.{byte-swap_uint32_to_ptr, length-swap_uint32_to_ptr}
use adflib.Dev.Blocks.{byte-take, byte-drop}
use adflib.Cache.{CacheEntry, put_bytes, put_cache_entry}
use adflib.Cache.Codec.{
  length-put_bytes, byte-put_bytes, byte-swap_uint16_to_ptr, length-swap_uint16_to_ptr,
  swap_uint16_from_ptr-bytes, swap_uint32_from_ptr-bytes,
}

-- An entry as the program makes them.
pub record IsCacheEntry (e : CacheEntry) : Type 0 where
  pub header_fits : e.header < 2 ^ 32
  pub size_fits : e.size < 2 ^ 32
  pub protect_fits : e.protect < 2 ^ 32
  pub days_fits : e.days < 2 ^ 16
  pub mins_fits : e.mins < 2 ^ 16
  pub ticks_fits : e.ticks < 2 ^ 16
  pub named : 1 ≤ e.n_len
  pub name_fits : e.n_len ≤ 30
  pub comm_fits : e.c_len ≤ 79
  pub name_whole : length e.name ≡ e.n_len
  pub comm_whole : length e.comm ≡ e.c_len

back_lem : (i p : ℕ) → p + i - p ≡ i
back_lem i p = omega arith

module _ (records : List ℕ) (ptr : ℕ) (e : CacheEntry) (v : IsCacheEntry e)
    (room : ptr + 26 + e.n_len + e.c_len ≤ length records) where
  abbrev r1 : List ℕ
  r1 = swap_uint32_to_ptr records ptr e.header

  abbrev r2 : List ℕ
  r2 = swap_uint32_to_ptr r1 (ptr + 4) e.size

  abbrev r3 : List ℕ
  r3 = swap_uint32_to_ptr r2 (ptr + 8) e.protect

  abbrev r4 : List ℕ
  r4 = swap_uint16_to_ptr r3 (ptr + 16) e.days

  abbrev r5 : List ℕ
  r5 = swap_uint16_to_ptr r4 (ptr + 18) e.mins

  abbrev r6 : List ℕ
  r6 = swap_uint16_to_ptr r5 (ptr + 20) e.ticks

  abbrev r8 : List ℕ
  r8 = set (set r6 (ptr + 22) e.type) (ptr + 23) e.n_len

  abbrev r9 : List ℕ
  r9 = put_bytes r8 (ptr + 24) (take e.n_len e.name)

  abbrev r10 : List ℕ
  r10 = set r9 (ptr + 24 + e.n_len) e.c_len

  abbrev r11 : List ℕ
  r11 = put_bytes r10 (ptr + 24 + e.n_len + 1) (take e.c_len e.comm)

  abbrev last : List ℕ
  last = (put_cache_entry records ptr e).0

  n1 : length r1 ≡ length records
  n1 = length-swap_uint32_to_ptr records ptr e.header

  n2 : length r2 ≡ length records
  n2 = length-swap_uint32_to_ptr r1 (ptr + 4) e.size ∙ n1

  n3 : length r3 ≡ length records
  n3 = length-swap_uint32_to_ptr r2 (ptr + 8) e.protect ∙ n2

  n4 : length r4 ≡ length records
  n4 = length-swap_uint16_to_ptr r3 (ptr + 16) e.days ∙ n3

  n5 : length r5 ≡ length records
  n5 = length-swap_uint16_to_ptr r4 (ptr + 18) e.mins ∙ n4

  n6 : length r6 ≡ length records
  n6 = length-swap_uint16_to_ptr r5 (ptr + 20) e.ticks ∙ n5

  n8 : length r8 ≡ length records
  n8 =
      length-set (set r6 (ptr + 22) e.type) (ptr + 23) e.n_len
      ∙ length-set r6 (ptr + 22) e.type
      ∙ n6

  n9 : length r9 ≡ length records
  n9 = length-put_bytes (take e.n_len e.name) r8 (ptr + 24) ∙ n8

  n10 : length r10 ≡ length records
  n10 = length-set r9 (ptr + 24 + e.n_len) e.c_len ∙ n9

  taken : length (take e.n_len e.name) ≡ e.n_len
  taken = omega (arith, length-take {0} e.n_len e.name, v.name_whole)

  taken_comm : length (take e.c_len e.comm) ≡ e.c_len
  taken_comm = omega (arith, length-take {0} e.c_len e.comm, v.comm_whole)

  n11 : length r11 ≡ length records
  n11 = length-put_bytes (take e.c_len e.comm) r10 (ptr + 24 + e.n_len + 1) ∙ n10

  -- A filling zero stands after the entry.
  last-r11 : (i : ℕ) → i < ptr + 25 + e.n_len + e.c_len → byte last i ≡ byte r11 i
  unfolding put_cache_entry
  last-r11 i h =
      ground (arith, get_or-set {0} r11 (ptr + (25 + e.n_len + e.c_len)) i 0 0, n11, room)

  -- The fixed part.
  last-r8 : (i : ℕ) → i < ptr + 24 → byte last i ≡ byte r8 i
  last-r8 i h = ground (
    arith,
    last-r11 i,
    byte-put_bytes (take e.c_len e.comm) r10 (ptr + 24 + e.n_len + 1) i,
    get_or-set {0} r9 (ptr + 24 + e.n_len) i e.c_len 0,
    byte-put_bytes (take e.n_len e.name) r8 (ptr + 24) i,
    n10,
    n9,
    n8,
    taken,
    taken_comm,
    room,
  )

  last-r6 : (i : ℕ) → i < ptr + 22 → byte last i ≡ byte r6 i
  last-r6 i h = ground (
    arith,
    last-r8 i,
    get_or-set {0} (set r6 (ptr + 22) e.type) (ptr + 23) i e.n_len 0,
    get_or-set {0} r6 (ptr + 22) i e.type 0,
    length-set {0} r6 (ptr + 22) e.type,
    n6,
    room,
  )

  pub last-type : (byte last (ptr + 22) ≡ e.type) × (byte last (ptr + 23) ≡ e.n_len)
  last-type =
      let at = λ (i : ℕ). get_or-set {0} (set r6 (ptr + 22) e.type) (ptr + 23) i e.n_len 0 in
      let at' = λ (i : ℕ). get_or-set {0} r6 (ptr + 22) i e.type 0 in
      let len = length-set {0} r6 (ptr + 22) e.type in
      (
        ground (arith, last-r8 (ptr + 22), at (ptr + 22), at' (ptr + 22), len, n6, room),
        ground (arith, last-r8 (ptr + 23), at (ptr + 23), len, n6, room),
      )

  pub last-c_len : byte last (ptr + 24 + e.n_len) ≡ e.c_len
  last-c_len = ground (
    arith,
    last-r11 (ptr + 24 + e.n_len),
    byte-put_bytes (take e.c_len e.comm) r10 (ptr + 24 + e.n_len + 1) (ptr + 24 + e.n_len),
    get_or-set {0} r9 (ptr + 24 + e.n_len) (ptr + 24 + e.n_len) e.c_len 0,
    n10,
    n9,
    taken_comm,
    room,
  )

  -- What stands of the earlier stores.
  last-r5 : (i : ℕ) → i < ptr + 20 → byte last i ≡ byte r5 i
  last-r5 i h = ground (arith, last-r6 i, byte-swap_uint16_to_ptr r5 (ptr + 20) e.ticks i, n5, room)

  last-r4 : (i : ℕ) → i < ptr + 18 → byte last i ≡ byte r4 i
  last-r4 i h = ground (arith, last-r5 i, byte-swap_uint16_to_ptr r4 (ptr + 18) e.mins i, n4, room)

  last-r3 : (i : ℕ) → i < ptr + 16 → byte last i ≡ byte r3 i
  last-r3 i h = ground (arith, last-r4 i, byte-swap_uint16_to_ptr r3 (ptr + 16) e.days i, n3, room)

  last-r2 : (i : ℕ) → i < ptr + 8 → byte last i ≡ byte r2 i
  last-r2 i h =
      ground (arith, last-r3 i, byte-swap_uint32_to_ptr r2 (ptr + 8) e.protect i, n2, room)

  pub last-r1 : (i : ℕ) → i < ptr + 4 → byte last i ≡ byte r1 i
  last-r1 i h = ground (arith, last-r2 i, byte-swap_uint32_to_ptr r1 (ptr + 4) e.size i, n1, room)

  pub last-header : swap_uint32_from_ptr last ptr ≡ e.header
  last-header =
      let at = λ (i : ℕ). byte-swap_uint32_to_ptr records ptr e.header i (omega (arith, room)) in
      swap_uint32_from_ptr-bytes last ptr e.header v.header_fits
        (ground (arith, at ptr, last-r1 ptr)) (ground (arith, at (ptr + 1), last-r1 (ptr + 1)))
        (ground (arith, at (ptr + 2), last-r1 (ptr + 2)))
        (ground (arith, at (ptr + 3), last-r1 (ptr + 3)))

  pub last-size : swap_uint32_from_ptr last (ptr + 4) ≡ e.size
  last-size =
      let p = ptr + 4 in
      let at = λ (i : ℕ). byte-swap_uint32_to_ptr r1 p e.size i (omega (arith, n1, room)) in
      swap_uint32_from_ptr-bytes last p e.size v.size_fits (ground (arith, at p, last-r2 p))
        (ground (arith, at (p + 1), last-r2 (p + 1))) (ground (arith, at (p + 2), last-r2 (p + 2)))
        (ground (arith, at (p + 3), last-r2 (p + 3)))

  pub last-protect : swap_uint32_from_ptr last (ptr + 8) ≡ e.protect
  last-protect =
      let p = ptr + 8 in
      let at = λ (i : ℕ). byte-swap_uint32_to_ptr r2 p e.protect i (omega (arith, n2, room)) in
      swap_uint32_from_ptr-bytes last p e.protect v.protect_fits (ground (arith, at p, last-r3 p))
        (ground (arith, at (p + 1), last-r3 (p + 1))) (ground (arith, at (p + 2), last-r3 (p + 2)))
        (ground (arith, at (p + 3), last-r3 (p + 3)))

  pub last-days : swap_uint16_from_ptr last (ptr + 16) ≡ e.days
  last-days =
      let p = ptr + 16 in
      let at = λ (i : ℕ). byte-swap_uint16_to_ptr r3 p e.days i (omega (arith, n3, room)) in
      swap_uint16_from_ptr-bytes last p e.days v.days_fits (ground (arith, at p, last-r4 p))
        (ground (arith, at (p + 1), last-r4 (p + 1)))

  pub last-mins : swap_uint16_from_ptr last (ptr + 18) ≡ e.mins
  last-mins =
      let p = ptr + 18 in
      let at = λ (i : ℕ). byte-swap_uint16_to_ptr r4 p e.mins i (omega (arith, n4, room)) in
      swap_uint16_from_ptr-bytes last p e.mins v.mins_fits (ground (arith, at p, last-r5 p))
        (ground (arith, at (p + 1), last-r5 (p + 1)))

  pub last-ticks : swap_uint16_from_ptr last (ptr + 20) ≡ e.ticks
  last-ticks =
      let p = ptr + 20 in
      let at = λ (i : ℕ). byte-swap_uint16_to_ptr r5 p e.ticks i (omega (arith, n5, room)) in
      swap_uint16_from_ptr-bytes last p e.ticks v.ticks_fits (ground (arith, at p, last-r6 p))
        (ground (arith, at (p + 1), last-r6 (p + 1)))

  length-last : length last ≡ length records
  unfolding put_cache_entry
  length-last = ground (arith, length-set {0} r11 (ptr + (25 + e.n_len + e.c_len)) 0, n11)

  -- The strings.
  pub last-name : take e.n_len (drop (ptr + 24) last) ≡ e.name
  last-name =
      list_ext 0 (take e.n_len (drop (ptr + 24) last)) e.name
        (omega (
          arith,
          length-take {0} e.n_len (drop (ptr + 24) last),
          length-drop {0} (ptr + 24) last,
          length-last,
          v.name_whole,
          room,
        ))
        λ i below.
          let len = length-take {0} e.n_len (drop (ptr + 24) last) in
          let small : i < e.n_len = omega (arith, len) in
          ground (
            arith,
            byte-take e.n_len i (drop (ptr + 24) last) small,
            byte-drop (ptr + 24) i last,
            last-r11 (ptr + 24 + i),
            byte-put_bytes (take e.c_len e.comm) r10 (ptr + 24 + e.n_len + 1) (ptr + 24 + i),
            get_or-set {0} r9 (ptr + 24 + e.n_len) (ptr + 24 + i) e.c_len 0,
            byte-put_bytes (take e.n_len e.name) r8 (ptr + 24) (ptr + 24 + i),
            byte-take e.n_len i e.name small,
            ap (λ (t : ℕ). get_or (take e.n_len e.name) t 0) (back_lem i (ptr + 24)),
            n10,
            n9,
            n8,
            taken,
            taken_comm,
            room,
          )

  pub last-comm : take e.c_len (drop (ptr + 24 + e.n_len + 1) last) ≡ e.comm
  last-comm =
      let p = ptr + 24 + e.n_len + 1 in
      list_ext 0 (take e.c_len (drop p last)) e.comm
        (omega (
          arith,
          length-take {0} e.c_len (drop p last),
          length-drop {0} p last,
          length-last,
          v.comm_whole,
          room,
        ))
        λ i below.
          let len = length-take {0} e.c_len (drop p last) in
          let small : i < e.c_len = omega (arith, len) in
          ground (
            arith,
            byte-take e.c_len i (drop p last) small,
            byte-drop p i last,
            last-r11 (p + i),
            byte-put_bytes (take e.c_len e.comm) r10 p (p + i),
            byte-take e.c_len i e.comm small,
            ap (λ (t : ℕ). get_or (take e.c_len e.comm) t 0) (back_lem i p),
            n10,
            taken_comm,
            room,
          )
