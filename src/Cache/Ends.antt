-- ===== src/Cache/Ends.antt =====
-- The loops over the records of a directory cache block end.
use adflib.Prelude.{ℕ, zero, suc, ◌+◌, ◌*◌, ◌≤◌, ◌≡◌, ◌≢◌, refl, arith, List, none}
use adflib.Err.{Result, ok, err}
use adflib.Cache.{CacheEntry, get_cache_entry}
use adflib.Cache.Chain.{records, find_record}

-- A record that is got starts by 486, and takes 26 bytes at least.
Advances : List ℕ → ℕ → Result (CacheEntry × ℕ) → Type 0
Advances r p (ok got) = (p ≤ 486) × (p + 26 ≤ got.1)
Advances r p (err rc) = Unit

get_cache_entry-Advances : (r : List ℕ) (p : ℕ) → Advances r p (get_cache_entry r p)
unfolding get_cache_entry Advances
get_cache_entry-Advances r p = ground arith

find_step :
    (fuel : ℕ) (dirc : List ℕ) (header n offset : ℕ) (r : Result (CacheEntry × ℕ))
    → get_cache_entry (records dirc) offset ≡ r
    → Advances (records dirc) offset r
    → ((p : ℕ) → offset ≤ 486 → offset + 26 ≤ p → find_record fuel dirc header (suc n) p ≢ none)
    → find_record (suc fuel) dirc header n offset ≢ none
unfolding find_record Advances
find_step fuel dirc header n offset (err rc) e a next = λ q. ground (arith, e, q)
find_step fuel dirc header n offset (ok g) e a next = λ q. ground (arith, e, q, next g.1 a.0 a.1)

-- In every directory cache block the search of a record from a record and an offset on ends, with fuel
-- for as many records as the 487 bytes after the offset hold at 26 bytes each: the number of records
-- that the block tells does not matter.
pub find_record_ends :
    (fuel : ℕ) (dirc : List ℕ) (header n offset : ℕ)
    → 487 ≤ offset + 26 * fuel
    → find_record (suc fuel) dirc header n offset ≢ none
find_record_ends zero dirc header n offset h =
    find_step zero dirc header n offset (get_cache_entry (records dirc) offset) refl
      (get_cache_entry-Advances (records dirc) offset) (λ p low far. absurd (omega arith))
find_record_ends (suc fuel) dirc header n offset h =
    find_step (suc fuel) dirc header n offset (get_cache_entry (records dirc) offset) refl
      (get_cache_entry-Advances (records dirc) offset)
      (λ p low far. find_record_ends fuel dirc header (suc n) p (omega arith))
