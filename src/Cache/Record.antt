-- ===== src/Cache/Record.antt =====
-- A record of a directory cache block that is put is got back.
use adflib.Prelude.{ℕ, ◌+◌, ◌%◌, ◌≤◌, ◌≡◌, ◌∙◌, ap, arith, List, length, take, drop}
use adflib.Util.{byte, swap_uint32_from_ptr, swap_uint16_from_ptr}
use adflib.Err.{ok}
use adflib.Cache.{CacheEntry, even, get_cache_entry, put_cache_entry, entry2_cache_entry}
use adflib.Cache.Put.{
  IsCacheEntry, last-type, last-c_len, last-header, last-size, last-protect, last-days, last-mins,
  last-ticks, last-name, last-comm,
}

module _ (records : List ℕ) (ptr : ℕ) (e : CacheEntry) (v : IsCacheEntry e)
    (room : ptr + 26 + e.n_len + e.c_len ≤ length records) where
  abbrev last : List ℕ
  last = (put_cache_entry records ptr e).0

  last-n_len : byte last (ptr + 23) ≡ e.n_len
  last-n_len = (last-type records ptr e v room).1

  last-comm_len : byte last (ptr + 24 + byte last (ptr + 23)) ≡ e.c_len
  last-comm_len = rw last-n_len (last-c_len records ptr e v room)

  abbrev got : CacheEntry
  got =
      let n_len = byte last (ptr + 23) in
      let c_len = byte last (ptr + 24 + n_len) in
      record {
        header = swap_uint32_from_ptr last ptr;
        size = swap_uint32_from_ptr last (ptr + 4);
        protect = swap_uint32_from_ptr last (ptr + 8);
        days = swap_uint16_from_ptr last (ptr + 16);
        mins = swap_uint16_from_ptr last (ptr + 18);
        ticks = swap_uint16_from_ptr last (ptr + 20);
        type = byte last (ptr + 22);
        n_len = n_len;
        c_len = c_len;
        name = take n_len (drop (ptr + 24) last);
        comm = take c_len (drop (ptr + 24 + n_len + 1) last);
      }

  got-eq : got ≡ e
  got-eq =
      let header = last-header records ptr e v room in
      let size = last-size records ptr e v room in
      let protect = last-protect records ptr e v room in
      let days = last-days records ptr e v room in
      let mins = last-mins records ptr e v room in
      let ticks = last-ticks records ptr e v room in
      let type = (last-type records ptr e v room).0 in
      let name : take (byte last (ptr + 23)) (drop (ptr + 24) last) ≡ e.name =
        ap (λ (n : ℕ). take n (drop (ptr + 24) last)) last-n_len ∙ last-name records ptr e v room in
      let comm : take (byte last (ptr + 24 + byte last (ptr + 23)))
            (drop (ptr + 24 + byte last (ptr + 23) + 1) last)
          ≡ e.comm =
        ap (λ (n : ℕ). take n (drop (ptr + 24 + byte last (ptr + 23) + 1) last)) last-comm_len
        ∙ ap (λ (n : ℕ). take e.c_len (drop (ptr + 24 + n + 1) last)) last-n_len
        ∙ last-comm records ptr e v room in
      λ i. record {
        header = header i;
        size = size i;
        protect = protect i;
        days = days i;
        mins = mins i;
        ticks = ticks i;
        type = type i;
        n_len = last-n_len i;
        c_len = last-comm_len i;
        name = name i;
        comm = comm i;
      }

  get-last :
      ptr ≤ 486
      → ptr + 25 + e.n_len + e.c_len ≤ 512
      → get_cache_entry last ptr ≡ ok (e, even (ptr + 24 + e.n_len + 1 + e.c_len))
  unfolding get_cache_entry
  get-last low fits =
      let named = v.named in
      let name_fits = v.name_fits in
      let comm_fits = v.comm_fits in
      let same = got-eq in
      ground (arith, last-n_len, last-comm_len, same, named, name_fits, comm_fits)

  put-length :
      ptr % 2 ≡ 0
      → even (ptr + 24 + e.n_len + 1 + e.c_len) ≡ ptr + (put_cache_entry records ptr e).1
  unfolding put_cache_entry
  put-length h = ground arith

-- For records of at most 512 bytes, an even position with room for the record and one byte more, and
-- an entry with numbers of their widths, a name of 1 to 30 bytes and a comment of at most 79:
-- `adfGetCacheEntry` gets the entry that `adfPutCacheEntry` put, and goes on at the position further
-- by the length that the latter returned.
pub get_cache_entry-put_cache_entry :
    (records : List ℕ) (ptr : ℕ) (e : CacheEntry)
    → IsCacheEntry e
    → ptr % 2 ≡ 0
    → ptr + 26 + e.n_len + e.c_len ≤ length records
    → length records ≤ 512
    → let (records', len) = put_cache_entry records ptr e in
      get_cache_entry records' ptr ≡ ok (e, ptr + len)
get_cache_entry-put_cache_entry records ptr e v h room size =
    get-last records ptr e v room (omega arith) (omega arith)
    ∙ ap (λ (p : ℕ). ok (e, p)) (put-length records ptr e v room h)

length-put_cache_entry :
    (records : List ℕ) (ptr : ℕ) (e : CacheEntry)
    → (put_cache_entry records ptr e).1 ≡ even (24 + e.n_len + 1 + e.c_len)
unfolding put_cache_entry
length-put_cache_entry records ptr e = ground arith

-- For every entry block, the length that `adfEntry2CacheEntry` foretells for the record is the one
-- that `adfPutCacheEntry` returns for it, at each place of the records.
pub entry2_cache_entry-length :
    (entry records : List ℕ) (ptr : ℕ)
    → let (e, len) = entry2_cache_entry entry in (put_cache_entry records ptr e).1 ≡ len
unfolding entry2_cache_entry
entry2_cache_entry-length entry records ptr =
    length-put_cache_entry records ptr (entry2_cache_entry entry).0
