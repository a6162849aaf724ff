-- ===== src/Dir/Sound.antt =====
-- A directory that the check finds no error in, against what makes a directory whole: each entry of each chain
-- can be read, no chain is longer than the bound or links back into the hash table, and each subdirectory is
-- whole in turn, at most 513 levels deep.
use adflib.Prelude.{
  ℕ, zero, suc, ◌≡◌, ◌≢◌, ◌⊎◌, inl, inr, refl, arith, Bool, true, false, ◌&&◌, List, [], ◌∷◌,
  Option, none, some, ◌==◌, Fault,
}
use adflib.Util.{load32}
use adflib.Err.{ok}
use adflib.Vol.{Volume}
use adflib.Block.{st_dir, read_entry_block}
use adflib.Dir.{next_same_hash}
use adflib.Dir.Create.{Setting}
use adflib.Dir.Remove.{hash_table}
use adflib.Dir.Entries.{Entry, entry_read}
use adflib.Cache.Listing.{DirList, null, cell, append}
use adflib.Dir.Tree.{link_is_bad, list_chain, list_slots, get_r_dir_ent_limited}
use adflib.Dir.Check.{check_read, check_sub}
use adflib.Dir.Errors.{count_chain, count_slots, count_errors}

module _ (set : Setting) (vol : Volume) (recurs : Bool) where
  module _ (Sub : ℕ → DirList → Type 0) where
    -- The list of an entry's subdirectory, or none.
    unfoldable pub SubTree : Entry → ℕ → DirList → Type 0
    SubTree entry sector sub =
        (((recurs && (entry.type == st_dir)) ≡ true) × Sub sector sub)
        ⊎ (((recurs && (entry.type == st_dir)) ≡ false) × (sub ≡ null))

    -- The entries of a chain, at most `fuel`, in the directory with the hash table `ht`.
    pub data Bucket (ht : List ℕ) : ℕ → ℕ → DirList → Type 0 where
      last :
          (fuel sector : ℕ) (entry : Entry) (blk : List ℕ) (sub : DirList)
          → entry_read set vol sector ≡ some (ok (entry, blk))
          → SubTree entry sector sub
          → next_same_hash blk ≡ 0
          → Bucket ht (suc fuel) sector (cell entry sub null)
      more :
          (fuel sector : ℕ) (entry : Entry) (blk : List ℕ) (sub list : DirList)
          → entry_read set vol sector ≡ some (ok (entry, blk))
          → SubTree entry sector sub
          → next_same_hash blk ≢ 0
          → link_is_bad ht sector (next_same_hash blk) ≡ false
          → Bucket ht fuel (next_same_hash blk) list
          → Bucket ht (suc fuel) sector (cell entry sub list)

    -- The chains of the slots, one after the other.
    pub data Slots (ht : List ℕ) : List ℕ → DirList → Type 0 where
      no_slots : Slots ht [] null
      unused :
          (sector : ℕ) (slots : List ℕ) (list : DirList)
          → sector ≡ 0
          → Slots ht slots list
          → Slots ht (sector ∷ slots) list
      used :
          (sector : ℕ) (slots : List ℕ) (here list all : DirList)
          → sector ≢ 0
          → Bucket ht set.chain sector here
          → Slots ht slots list
          → all ≡ append here list
          → Slots ht (sector ∷ slots) all

  -- The directory at a block with its entries, for the levels that are left.
  unfoldable pub IsTree : ℕ → ℕ → DirList → Type 0
  IsTree zero n list = ⊥
  IsTree (suc levels) n list =
      (parent : List ℕ) × (read_entry_block set.env vol n ≡ ok parent)
      × Slots (IsTree levels) (hash_table parent) (hash_table parent) list

  module _ {Sub : ℕ → DirList → Type 0} (nested : ℕ → Fault DirList)
      (ih : (n : ℕ) (list : DirList) → Sub n list → nested n ≡ some list) (ht : List ℕ) where
    list_chain-Bucket :
        (fuel sector : ℕ) (list : DirList)
        → Bucket Sub ht fuel sector list
        → list_chain fuel set vol recurs nested ht sector ≡ some (some list)
    unfolding list_chain SubTree
    list_chain-Bucket _ _ _ (last fuel sector entry blk sub e (inl (d, t)) z) =
        ground (arith, e, d, z, ih sector sub t)
    list_chain-Bucket _ _ _ (last fuel sector entry blk sub e (inr (d, t)) z) =
        ground (arith, e, d, z, t)
    list_chain-Bucket _ _ _ (more fuel sector entry blk sub list e (inl (d, t)) z good b) =
        ground (
          arith,
          e,
          d,
          z,
          good,
          ih sector sub t,
          list_chain-Bucket fuel (next_same_hash blk) list b,
        )
    list_chain-Bucket _ _ _ (more fuel sector entry blk sub list e (inr (d, t)) z good b) =
        ground (arith, e, d, z, good, t, list_chain-Bucket fuel (next_same_hash blk) list b)

    list_slots-Slots :
        (slots : List ℕ) (list : DirList)
        → Slots Sub ht slots list
        → list_slots set vol recurs nested ht slots ≡ some (some list)
    unfolding list_slots
    list_slots-Slots _ _ no_slots = refl
    list_slots-Slots _ _ (unused sector slots list z s) =
        ground (arith, z, list_slots-Slots slots list s)
    list_slots-Slots _ _ (used sector slots here list all z b s e) =
        ground
          (arith, z, e, list_chain-Bucket set.chain sector here b, list_slots-Slots slots list s)

  module _ {Sub : ℕ → DirList → Type 0} (nested : ℕ → Fault ℕ)
      (ih : (n : ℕ) (list : DirList) → Sub n list → nested n ≡ some 0) (ht : List ℕ) where
    count_chain-Bucket :
        (fuel sector : ℕ) (list : DirList)
        → Bucket Sub ht fuel sector list
        → (before : Option (List ℕ))
        → (left : Option (List ℕ)) × (count_chain fuel set vol recurs nested ht sector before
            ≡ some (0, left))
    unfolding count_chain check_read check_sub SubTree
    count_chain-Bucket _ _ _ (last fuel sector entry blk sub e t z) before = (
      some blk,
      elim t [
        | inl (d, s) ↦ ground (arith, e, d, z, ih sector sub s)
        | inr (d, s) ↦ ground (arith, e, d, z)
      ],
    )
    count_chain-Bucket _ _ _ (more fuel sector entry blk sub list e t z good b) before =
        let later = count_chain-Bucket fuel (next_same_hash blk) list b (some blk) in
        (
          later.0,
          elim t [
            | inl (d, s) ↦ ground (arith, e, d, z, good, ih sector sub s, later.1)
            | inr (d, s) ↦ ground (arith, e, d, z, good, later.1)
          ],
        )

    count_slots-Slots :
        (slots : List ℕ) (list : DirList)
        → Slots Sub ht slots list
        → (before : Option (List ℕ)) → count_slots set vol recurs nested ht slots before ≡ some 0
    unfolding count_slots
    count_slots-Slots _ _ no_slots before = refl
    count_slots-Slots _ _ (unused sector slots list z s) before =
        ground (arith, z, count_slots-Slots slots list s before)
    count_slots-Slots _ _ (used sector slots here list all z b s e) before =
        let first = count_chain-Bucket set.chain sector here b before in
        ground (arith, z, first.1, count_slots-Slots slots list s first.0)

  pub tree-listed :
      (levels n : ℕ) (list : DirList)
      → IsTree levels n list
      → get_r_dir_ent_limited levels false set vol recurs n ≡ some list
  unfolding get_r_dir_ent_limited IsTree
  tree-listed zero n list t = absurd t
  tree-listed (suc levels) n list (parent, e, s) =
      let nested = get_r_dir_ent_limited levels false set vol recurs in
      let slots =
        list_slots-Slots nested (tree-listed levels) (hash_table parent) (hash_table parent) list
          s in
      rw (e, slots) refl

  -- `adfReadEntryBlock` gives no block of another type than `ADF_T_HEADER`.
  read_entry_block_type :
      (n : ℕ) (ent : List ℕ) → read_entry_block set.env vol n ≡ ok ent → load32 ent 0 ≡ 2
  unfolding read_entry_block
  read_entry_block_type n ent e = ground (arith, e)

  pub tree-checked :
      (levels n : ℕ) (list : DirList)
      → IsTree levels n list
      → count_errors levels set vol recurs n ≡ some 0
  unfolding count_errors IsTree
  tree-checked zero n list t = absurd t
  tree-checked (suc levels) n list (parent, e, s) =
      let nested = count_errors levels set vol recurs in
      let slots =
        count_slots-Slots nested (tree-checked levels) (hash_table parent) (hash_table parent) list
          s none in
      ground (arith, e, read_entry_block_type n parent e, slots)
