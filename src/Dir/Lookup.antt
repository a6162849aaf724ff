-- ===== src/Dir/Lookup.antt =====
-- The search of an entry, against the chain of the entries of a hash value.
use adflib.Prelude.{
  ℕ, zero, suc, ◌<◌, ◌≡◌, ◌≢◌, ap, arith, Bool, true, ◌||◌, List, [], ◌∷◌, length, get_or, Option,
  none, some, ltb, ◌==◌, if◌then◌else◌,
}
use adflib.Err.{RetCode, ok, err}
use adflib.Vol.{Volume, vol_has_intl, vol_has_dircache}
use adflib.Block.{Env, read_entry_block}
use adflib.Dir.{
  get_hash_value, next_same_hash, entry_is_named, Found, name_to_entry_loop, name_to_entry_blk,
}

-- The chain of entries from a block on, as far as it can be read.
pub data IsChain (env : Env) (vol : Volume) : ℕ → List (ℕ × List ℕ) → Type 0 where
  unreadable : (n : ℕ) (rc : RetCode) → read_entry_block env vol n ≡ err rc → IsChain env vol n []
  ends :
      (n : ℕ) (entry : List ℕ)
      → read_entry_block env vol n ≡ ok entry
      → next_same_hash entry ≡ 0
      → IsChain env vol n ((n, entry) ∷ [])
  goes_on :
      (n : ℕ) (entry : List ℕ) (rest : List (ℕ × List ℕ))
      → read_entry_block env vol n ≡ ok entry
      → next_same_hash entry ≢ 0
      → IsChain env vol (next_same_hash entry) rest
      → IsChain env vol n ((n, entry) ∷ rest)

-- The first entry of a chain with the name; `upd` is the block before the chain.
unfoldable pub first_named : List (ℕ × List ℕ) → List ℕ → Bool → ℕ → Option Found
first_named [] name intl upd = none
first_named ((n, entry) ∷ rest) name intl upd =
    let later = first_named rest name intl n in
    if entry_is_named entry name intl
    then some (record { n_sect = n; entry = entry; n_upd_sect = upd })
    else later

loop-first_named :
    (env : Env) (vol : Volume) (name : List ℕ) (intl : Bool) (n : ℕ) (chain : List (ℕ × List ℕ))
    → IsChain env vol n chain
    → (fuel upd : ℕ) → length chain < fuel
    → name_to_entry_loop fuel env vol name intl n upd ≡ some (first_named chain name intl upd)
unfolding name_to_entry_loop first_named
loop-first_named env vol name intl n chain c zero upd h = absurd (omega arith)
loop-first_named env vol name intl _ _ (unreadable n rc e) (suc fuel) upd h = ground (arith, e)
loop-first_named env vol name intl _ _ (ends n entry e z) (suc fuel) upd h = ground (arith, e, z)
loop-first_named env vol name intl _ _ (goes_on n entry rest e z c) (suc fuel) upd h = ground (
  arith,
  e,
  z,
  loop-first_named env vol name intl (next_same_hash entry) rest c fuel n (omega arith),
)

-- Every entry of the chain that is found is in it and has the name.
first_named_sound :
    (chain : List (ℕ × List ℕ)) (name : List ℕ) (intl : Bool) (upd : ℕ) (f : Found)
    → first_named chain name intl upd ≡ some f
    → entry_is_named f.entry name intl ≡ true
unfolding first_named
first_named_sound [] name intl upd f e = absurd (ground (arith, e))
first_named_sound ((n, entry) ∷ rest) name intl upd f e = ground (
  arith,
  e,
  first_named_sound rest name intl n f,
  λ (g : Found) (q : some g ≡ some f).
      ap
        (λ (o : Option Found).
          entry_is_named (elim o [ none ↦ g.entry | some x ↦ x.entry ]) name intl)
        q,
)

-- With the chain of readable entries from the hash table's block for the name, and fuel for more
-- blocks than it has, `adfNameToEntryBlk` gives the first entry of the chain whose name is the same up
-- to case, with the block before it; it gives nothing if there is none, if the hash table has no
-- block, or if the name is longer than 30 bytes.
pub name_to_entry_blk_lem :
    (fuel : ℕ) (toupper : ℕ → ℕ) (env : Env) (vol : Volume) (ht name : List ℕ)
    (chain : List (ℕ × List ℕ))
    → let intl = vol_has_intl vol || vol_has_dircache vol in
      let n_sect = get_or ht (get_hash_value toupper name intl) 0 in
      IsChain env vol n_sect chain
      → length chain < fuel
      → name_to_entry_blk fuel toupper env vol ht name
        ≡ some
            (if ltb 30 (length name) || (n_sect == 0) then none else first_named chain name intl 0)
unfolding name_to_entry_blk
name_to_entry_blk_lem fuel toupper env vol ht name chain c h =
    let intl = vol_has_intl vol || vol_has_dircache vol in
    ground (
      arith,
      loop-first_named env vol name intl (get_or ht (get_hash_value toupper name intl) 0) chain c
          fuel 0 h,
    )
