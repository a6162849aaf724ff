-- ===== src/Dir/Distinct.antt =====
-- A name that is in a directory is not entered again.
use adflib.Prelude.{
  ℕ, zero, suc, ◌<◌, ◌≡◌, refl, sym, ap, ◌∙◌, arith, false, List, length, get_or, tabulate, Option,
  none, some, ltb, ◌==◌, if◌then◌else◌, Fault,
}
use adflib.Err.{Result, ok, err}
use adflib.Vol.{Volume}
use adflib.Block.{Env, read_entry_block}
use adflib.Dir.{get_hash_value, next_same_hash, Found, name_to_entry_loop, name_to_entry_blk}
use adflib.Dir.Names.{get_hash_value-lt}
use adflib.Dir.Create.{Setting, hash_at, is_intl, last_of_chain, create_entry}
use adflib.Dir.Remove.{hash_table}

module _ (env : Env) (vol : Volume) (name : List ℕ) (f : Found) where
  -- Where the search finds the name, the way to the end of the chain stops.
  last_of_chain-step :
      (fuel n upd : ℕ) (r : Result (List ℕ))
      → read_entry_block env vol n ≡ r
      → ((m : ℕ)
          → name_to_entry_loop fuel env vol name (is_intl vol) m n ≡ some (some f)
          → last_of_chain fuel env vol name m ≡ some none)
      → name_to_entry_loop (suc fuel) env vol name (is_intl vol) n upd ≡ some (some f)
      → last_of_chain (suc fuel) env vol name n ≡ some none
  unfolding name_to_entry_loop last_of_chain
  last_of_chain-step fuel n upd (err rc) e go h = ground (arith, e)
  last_of_chain-step fuel n upd (ok entry) e go h = ground (arith, e, h, go (next_same_hash entry))

  last_of_chain-loop :
      (fuel n upd : ℕ)
      → name_to_entry_loop fuel env vol name (is_intl vol) n upd ≡ some (some f)
      → last_of_chain fuel env vol name n ≡ some none
  unfolding name_to_entry_loop
  last_of_chain-loop zero n upd h = absurd (ground (arith, h))
  last_of_chain-loop (suc fuel) n upd h =
      last_of_chain-step fuel n upd (read_entry_block env vol n) refl
        (λ m q. last_of_chain-loop fuel m n q) h

get_or-tabulate : (n i : ℕ) (g : ℕ → ℕ) → i < n → get_or (tabulate n g) i 0 ≡ g i
get_or-tabulate zero i g h = absurd (omega arith)
get_or-tabulate (suc n) zero g h = refl
get_or-tabulate (suc n) (suc i) g h = get_or-tabulate n i (λ j. g (suc j)) (omega arith)

-- The search from the first block of the hash value.
abbrev search : Setting → Volume → List ℕ → ℕ → Fault (Option Found)
search set vol name n =
    if ltb 30 (length name)
    then some none
    else (if n == 0
        then some none
        else name_to_entry_loop set.chain set.env vol name (is_intl vol) n 0)

refused :
    (set : Setting) (vol : Volume) (dir name : List ℕ) (this_sect : Option ℕ) (f : Found)
    → search set vol name (hash_at dir (get_hash_value set.toupper name (is_intl vol)))
      ≡ some (some f)
    → create_entry set vol dir name this_sect ≡ some ((vol, dir), none)
unfolding create_entry
refused set vol dir name this_sect f h =
    let n = hash_at dir (get_hash_value set.toupper name (is_intl vol)) in
    let short : ltb 30 (length name) ≡ false = ground (arith, h) in
    let some_entry : (n == 0) ≡ false = ground (arith, h) in
    let walk : last_of_chain set.chain set.env vol name n ≡ some none =
      last_of_chain-loop set.env vol name f set.chain n 0 (ground (arith, h)) in
    rw (short, some_entry, walk) refl

-- If `adfNameToEntryBlk` finds a name in the hash table of a directory, `adfCreateEntry` of this name
-- in the directory, with a sector given or not, gives -1 and changes neither the volume nor the
-- directory.
pub create_entry-found :
    (set : Setting) (vol : Volume) (dir name : List ℕ) (this_sect : Option ℕ) (f : Found)
    → name_to_entry_blk set.chain set.toupper set.env vol (hash_table dir) name ≡ some (some f)
    → create_entry set vol dir name this_sect ≡ some ((vol, dir), none)
unfolding name_to_entry_blk
create_entry-found set vol dir name this_sect f h =
    let hash = get_hash_value set.toupper name (is_intl vol) in
    let at : hash_at dir hash ≡ get_or (hash_table dir) hash 0 =
      sym (
        get_or-tabulate 72 hash (hash_at dir) (get_hash_value-lt set.toupper name (is_intl vol))) in
    refused set vol dir name this_sect f (ap (search set vol name) at ∙ h)
