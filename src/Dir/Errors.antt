-- ===== src/Dir/Errors.antt =====
-- The errors of a directory, src/adf_dir.c: their number, without a bound, and the count of `adfDirCheck`, an
-- `unsigned int` of 32 bits, which is that number modulo 2 ^ 32.
use adflib.Prelude.{
  ℕ, zero, suc, ◌+◌, Bool, not, ◌&&◌, List, [], ◌∷◌, Option, none, some, ◌≡◌, refl, arith,
  Option-cases, ◌⊎◌, inl, inr, ◌==◌, if◌then◌else◌, ◌>>?◌, Fault,
}
use adflib.Util.{u32, load32}
use adflib.Err.{RetCode, Result, ok, err}
use adflib.Vol.{Volume}
use adflib.Block.{st_root, st_dir, read_entry_block}
use adflib.Dir.{next_same_hash}
use adflib.Dir.Create.{Setting}
use adflib.Dir.Remove.{hash_table}
use adflib.Dir.Tree.{dir_max_levels, link_is_bad}
use adflib.Dir.Check.{check_read, check_sub, check_chain, check_slots, dir_check_limited, dir_check}

-- The errors of a chain from a sector other than 0 on, and the block that it leaves.
unfoldable pub count_chain :
    ℕ
    → Setting
    → Volume
    → Bool
    → (ℕ → Fault ℕ)
    → List ℕ
    → ℕ
    → Option (List ℕ)
    → Fault (ℕ × Option (List ℕ))
count_chain zero set vol recurs nested ht sector before = none
count_chain (suc fuel) set vol recurs nested ht sector before =
    check_read set vol sector before >>? λ read. check_sub recurs nested read.1 sector >>? λ sub.
    elim read.2 [
      | none ↦ none
      | some blk ↦
          let next = next_same_hash blk in
          let rest = count_chain fuel set vol recurs nested ht next (some blk) in
          if next == 0
          then some (read.0 + sub, some blk)
          else if link_is_bad ht sector next
          then some (read.0 + sub + 1, some blk)
          else (rest >>? λ later. some (read.0 + sub + later.0, later.1))
    ]

unfoldable pub count_slots :
    Setting → Volume → Bool → (ℕ → Fault ℕ) → List ℕ → List ℕ → Option (List ℕ) → Fault ℕ
count_slots set vol recurs nested ht [] before = some 0
count_slots set vol recurs nested ht (sector ∷ slots) before =
    if sector == 0
    then count_slots set vol recurs nested ht slots before
    else (count_chain set.chain set vol recurs nested ht sector before >>? λ here.
        count_slots set vol recurs nested ht slots here.1 >>? λ later. some (here.0 + later))

-- The errors of the whole directory.
unfoldable pub count_errors : ℕ → Setting → Volume → Bool → ℕ → Fault ℕ
count_errors zero set vol recurs n_sect = some 1
count_errors (suc levels) set vol recurs n_sect =
    let nested = count_errors levels set vol recurs in
    elim (read_entry_block set.env vol n_sect) [
      | err rc ↦ some 1
      | ok parent ↦
          if not (load32 parent 0 == st_root) && not (load32 parent 0 == st_dir)
          then some 1
          else count_slots set vol recurs nested (hash_table parent) (hash_table parent) none
    ]

unfoldable pub dir_errors : Setting → Volume → Bool → ℕ → Fault ℕ
dir_errors set vol recurs n_sect = count_errors (suc dir_max_levels) set vol recurs n_sect

Result-cases : (r : Result (List ℕ)) → ((rc : RetCode) × (r ≡ err rc)) ⊎ ((a : List ℕ) × (r ≡ ok a))
Result-cases (err rc) = inl (rc, refl)
Result-cases (ok a) = inr (a, refl)

-- A count in 32 bits.
abbrev pub in_32 : Fault ℕ → Fault ℕ
in_32 errors = errors >>? λ n. some (u32 n)

abbrev chain_in_32 : Fault (ℕ × Option (List ℕ)) → Fault (ℕ × Option (List ℕ))
chain_in_32 errors = errors >>? λ n. some (u32 n.0, n.1)

module _ (set : Setting) (vol : Volume) (recurs : Bool) where
  module _ (nested exact : ℕ → Fault ℕ) (ih : (n : ℕ) → nested n ≡ in_32 (exact n))
      (ht : List ℕ) where
    check_sub-in_32 :
        (type : Option ℕ) (sector : ℕ)
        → check_sub recurs nested type sector ≡ in_32 (check_sub recurs exact type sector)
    unfolding check_sub
    check_sub-in_32 none sector = ground arith
    check_sub-in_32 (some t) sector = ground (arith, ih sector)

    check_chain-count_chain :
        (fuel sector : ℕ) (before : Option (List ℕ))
        → check_chain fuel set vol recurs nested ht sector before
          ≡ chain_in_32 (count_chain fuel set vol recurs exact ht sector before)
    unfolding check_chain count_chain
    check_chain-count_chain zero sector before = refl
    check_chain-count_chain (suc fuel) sector before =
        elim (Option-cases (check_read set vol sector before)) [
          | inl o ↦ rw o refl
          | inr (read, o) ↦ elim (Option-cases (check_sub recurs exact read.1 sector)) [
            | inl o1 ↦ ground (arith, o, o1, check_sub-in_32 read.1 sector)
            | inr (sub, o1) ↦ elim (Option-cases read.2) [
              | inl b ↦ ground (arith, o, o1, b, check_sub-in_32 read.1 sector)
              | inr (blk, b) ↦
                  let next = next_same_hash blk in
                  let later = check_chain-count_chain fuel next (some blk) in
                  elim (Option-cases (count_chain fuel set vol recurs exact ht next (some blk))) [
                    | inl o2 ↦ ground (arith, o, o1, b, o2, later, check_sub-in_32 read.1 sector)
                    | inr (n, o2) ↦
                        ground (arith, o, o1, b, o2, later, check_sub-in_32 read.1 sector)
                  ]
            ]
          ]
        ]

    check_slots-count_slots :
        (slots : List ℕ) (before : Option (List ℕ))
        → check_slots set vol recurs nested ht slots before
          ≡ in_32 (count_slots set vol recurs exact ht slots before)
    unfolding check_slots count_slots
    check_slots-count_slots [] before = refl
    check_slots-count_slots (sector ∷ slots) before =
        elim (Option-cases (count_chain set.chain set vol recurs exact ht sector before)) [
          | inl o ↦ ground (
            arith,
            o,
            check_chain-count_chain set.chain sector before,
            check_slots-count_slots slots before,
          )
          | inr (here, o) ↦ elim (Option-cases (count_slots set vol recurs exact ht slots here.1)) [
            | inl o1 ↦ ground (
              arith,
              o,
              o1,
              check_chain-count_chain set.chain sector before,
              check_slots-count_slots slots before,
              check_slots-count_slots slots here.1,
            )
            | inr (n, o1) ↦ ground (
              arith,
              o,
              o1,
              check_chain-count_chain set.chain sector before,
              check_slots-count_slots slots before,
              check_slots-count_slots slots here.1,
            )
          ]
        ]

  -- The check counts in 32 bits.
  dir_check_limited-count_errors :
      (levels n : ℕ)
      → dir_check_limited levels set vol recurs n ≡ in_32 (count_errors levels set vol recurs n)
  unfolding dir_check_limited count_errors
  dir_check_limited-count_errors zero n = refl
  dir_check_limited-count_errors (suc levels) n =
      elim (Result-cases (read_entry_block set.env vol n)) [
        | inl (rc, e) ↦ ground (arith, e)
        | inr (parent, e) ↦
            let ht = hash_table parent in
            ground (
              arith,
              e,
              check_slots-count_slots (dir_check_limited levels set vol recurs)
                  (count_errors levels set vol recurs) (dir_check_limited-count_errors levels) ht ht
                  none,
            )
      ]

  pub dir_check-dir_errors :
      (n : ℕ) → dir_check set vol recurs n ≡ in_32 (dir_errors set vol recurs n)
  unfolding dir_check dir_errors
  dir_check-dir_errors n = dir_check_limited-count_errors (suc dir_max_levels) n
