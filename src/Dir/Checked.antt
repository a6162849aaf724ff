-- ===== src/Dir/Checked.antt =====
-- A directory without errors is whole, and its list is the entries of its tree.
use adflib.Prelude.{
  ℕ, zero, suc, ◌≡◌, ◌≢◌, ◌↔◌, ◌⊎◌, inl, inr, refl, arith, Bool, false, ◌&&◌, List, [], ◌∷◌, Option,
  none, some, ◌==◌, Fault, Bool-cases, Option-cases,
}
use adflib.Err.{Result, ok, err}
use adflib.Vol.{Volume}
use adflib.Block.{st_dir, read_entry_block}
use adflib.Dir.{next_same_hash}
use adflib.Dir.Create.{Setting}
use adflib.Dir.Remove.{hash_table}
use adflib.Dir.Entries.{Entry, entry_read}
use adflib.Cache.Listing.{DirList, null, cell, append}
use adflib.Dir.Tree.{link_is_bad, get_r_dir_ent}
use adflib.Dir.Check.{check_read, check_sub, dir_check}
use adflib.Dir.Errors.{
  count_chain, count_slots, count_errors, dir_errors, in_32, dir_check-dir_errors,
}
use adflib.Dir.Sound.{
  SubTree, Bucket, last, more, Slots, no_slots, unused, used, IsTree, tree-listed, tree-checked,
}

none-some {ℓ} : {A : Type ℓ} {a : A} → none ≡ some a → ⊥
none-some e = cc

module _ (set : Setting) (vol : Volume) (recurs : Bool) where
  -- A check that counts no error has gone through a whole chain.
  module _ {Sub : ℕ → DirList → Type 0} (nested : ℕ → Fault ℕ)
      (ih : (n : ℕ) → nested n ≡ some 0 → (list : DirList) × Sub n list) (ht : List ℕ) where
    check_sub-SubTree :
        (entry : Entry) (sector : ℕ)
        → check_sub recurs nested (some entry.type) sector ≡ some 0
        → (sub : DirList) × SubTree set vol recurs Sub entry sector sub
    unfolding check_sub SubTree
    check_sub-SubTree entry sector e = elim (Bool-cases (recurs && (entry.type == st_dir))) [
      | inl d ↦ let t = ih sector (ground (arith, e, d)) in (t.0, inl (d, t.1))
      | inr d ↦ (null, inr (d, refl))
    ]

    -- The parts of a round that counts nothing.
    pub Round : ℕ → ℕ → Entry → List ℕ → Type 0
    Round fuel sector entry blk =
        (check_sub recurs nested (some entry.type) sector ≡ some 0)
        × ((next_same_hash blk ≡ 0)
            ⊎ ((next_same_hash blk ≢ 0)
                × (link_is_bad ht sector (next_same_hash blk) ≡ false)
                × ((left : Option (List ℕ)) × (count_chain fuel set vol recurs nested ht
                        (next_same_hash blk) (some blk)
                      ≡ some (0, left)))))

    count_chain-Round :
        (fuel sector : ℕ) (before left : Option (List ℕ))
        → count_chain (suc fuel) set vol recurs nested ht sector before ≡ some (0, left)
        → (entry : Entry) × (blk : List ℕ) × (entry_read set vol sector ≡ some (ok (entry, blk)))
          × Round fuel sector entry blk
    unfolding count_chain check_read Round
    count_chain-Round fuel sector before left e = read (entry_read set vol sector) refl
      where
        Goal : Type 0
        Goal =
            (entry : Entry) × (blk : List ℕ) × (entry_read set vol sector ≡ some (ok (entry, blk)))
            × Round fuel sector entry blk

        read : (r : Fault (Result (Entry × List ℕ))) → entry_read set vol sector ≡ r → Goal
        read none q = absurd (ground (arith, e, q))
        read (some (err rc)) q = absurd (ground (arith, e, q))
        read (some (ok (entry, blk))) q =
            let next = next_same_hash blk in
            let later = count_chain fuel set vol recurs nested ht next (some blk) in
            (
              entry,
              blk,
              q,
              (
                ground (arith, e, q),
                elim (Bool-cases (next == 0)) [
                  | inl z ↦ inl (ground (arith, z))
                  | inr z ↦ elim (Option-cases later) [
                    | inl o ↦ absurd (ground (arith, e, q, z, o))
                    | inr (p, o) ↦ inr (
                      ground (arith, z),
                      ground (arith, e, q, z, o),
                      (p.1, ground (arith, e, q, z, o)),
                    )
                  ]
                ],
              ),
            )

    count_chain_sound :
        (fuel sector : ℕ) (before left : Option (List ℕ))
        → count_chain fuel set vol recurs nested ht sector before ≡ some (0, left)
        → (list : DirList) × Bucket set vol recurs Sub ht fuel sector list
    unfolding Round count_chain
    count_chain_sound zero sector before left e = absurd (none-some e)
    count_chain_sound (suc fuel) sector before left e =
        let (entry, blk, q, (s, later)) = count_chain-Round fuel sector before left e in
        let (sub, t) = check_sub-SubTree entry sector s in
        elim later [
          | inl z ↦ (cell entry sub null, last fuel sector entry blk sub q t z)
          | inr (z, good, (left1, e1)) ↦
              let (list, b) = count_chain_sound fuel (next_same_hash blk) (some blk) left1 e1 in
              (cell entry sub list, more fuel sector entry blk sub list q t z good b)
        ]

    count_slots_sound :
        (slots : List ℕ) (before : Option (List ℕ))
        → count_slots set vol recurs nested ht slots before ≡ some 0
        → (list : DirList) × Slots set vol recurs Sub ht slots list
    unfolding count_slots
    count_slots_sound [] before e = (null, no_slots)
    count_slots_sound (sector ∷ slots) before e = elim (Bool-cases (sector == 0)) [
      | inl z ↦
          let (list, s) = count_slots_sound slots before (ground (arith, e, z)) in
          (list, unused sector slots list (ground (arith, z)) s)
      | inr z ↦
          let chain = count_chain set.chain set vol recurs nested ht sector before in
          elim (Option-cases chain) [
            | inl o ↦ absurd (ground (arith, e, z, o))
            | inr ((k, left), o) ↦
                let later = count_slots set vol recurs nested ht slots left in
                elim (Option-cases later) [
                  | inl o1 ↦ absurd (ground (arith, e, z, o, o1))
                  | inr (m, o1) ↦
                      let k0 : k ≡ 0 = ground (arith, e, z, o, o1) in
                      let m0 : m ≡ 0 = ground (arith, e, z, o, o1) in
                      let (here, b) =
                        count_chain_sound set.chain sector before left (ground (arith, o, k0)) in
                      let (list, s) = count_slots_sound slots left (ground (arith, o1, m0)) in
                      let all = append here list in
                      (all, used sector slots here list all (ground (arith, z)) b s refl)
                ]
          ]
    ]

  check_sound :
      (levels n : ℕ)
      → count_errors levels set vol recurs n ≡ some 0
      → (list : DirList) × IsTree set vol recurs levels n list
  unfolding count_errors IsTree
  check_sound zero n e = absurd (ground (arith, e))
  check_sound (suc levels) n e = whole (check_sound levels) (read_entry_block set.env vol n) refl
    where
      nested : ℕ → Fault ℕ
      nested = count_errors levels set vol recurs

      whole :
          ((m : ℕ) → nested m ≡ some 0 → (list : DirList) × IsTree set vol recurs levels m list)
          → (r : Result (List ℕ)) → read_entry_block set.env vol n ≡ r
          → (list : DirList) × IsTree set vol recurs (suc levels) n list
      whole ih (err rc) q = absurd (ground (arith, e, q))
      whole ih (ok parent) q =
          let ht = hash_table parent in
          let checked : count_slots set vol recurs nested ht ht none ≡ some 0 =
            ground (arith, e, q) in
          let (list, s) = count_slots_sound nested ih ht ht none checked in (list, (parent, q, s))

  -- `adfDirCheck` of a block gives the number of its errors in 32 bits, modulo 2^32. This number is 0
  -- if, and only if, the block is a header block, of whatever secondary type, with a whole tree of
  -- entries: each entry of each chain can be read, no chain is longer than the bound or links to its
  -- own entry or back into the hash table, and, where all levels are checked, each subdirectory is
  -- whole in turn, 513 levels at most.
  pub dir_check-IsTree :
      (n : ℕ)
      → (dir_check set vol recurs n ≡ in_32 (dir_errors set vol recurs n))
        × ((dir_errors set vol recurs n ≡ some 0)
            ↔ ((list : DirList) × IsTree set vol recurs 513 n list))
  unfolding dir_errors
  dir_check-IsTree n = (
    dir_check-dir_errors set vol recurs n,
    (λ e. check_sound 513 n e, λ t. tree-checked set vol recurs 513 n t.0 t.1),
  )

  -- Of a whole directory `adfGetRDirEnt`, without the directory cache, gives the tree of its entries:
  -- the chains of the slots of the hash table one after the other, each entry with the list of its
  -- subdirectory if all levels are asked for.
  pub get_r_dir_ent-IsTree :
      (n : ℕ) (list : DirList)
      → IsTree set vol recurs 513 n list
      → get_r_dir_ent false set vol recurs n ≡ some list
  unfolding get_r_dir_ent
  get_r_dir_ent-IsTree n list t = tree-listed set vol recurs 513 n list t
