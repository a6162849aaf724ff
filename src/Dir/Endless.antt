-- ===== src/Dir/Endless.antt =====
-- Two entries of a chain that link to each other, and not into the hash table: the tests of `nextSameHash`
-- do not see them.
use adflib.Prelude.{
  ℕ, zero, suc, ◌≡◌, ◌≢◌, refl, arith, true, false, List, [], ◌∷◌, ◌++◌, Option, none, some, Fault,
}
use adflib.Util.{load32}
use adflib.Err.{ok}
use adflib.Vol.{Volume}
use adflib.Dir.{next_same_hash}
use adflib.Dir.Create.{Setting}
use adflib.Dir.Entries.{Entry, entry_read}
use adflib.Cache.Listing.{DirList}
use adflib.Block.{read_entry_block}
use adflib.Dir.Remove.{hash_table, all_zero}
use adflib.Dir.Tree.{link_is_bad, list_chain, list_slots, get_r_dir_ent, get_r_dir_ent_limited}
use adflib.Dir.Check.{check_read, check_sub, check_chain, check_slots, dir_check, dir_check_limited}

module _ (set : Setting) (vol : Volume) (ht : List ℕ) where
  -- The entry at a sector can be read, and links to another one that is not in the hash table.
  pub record LinksTo (sector next : ℕ) : Type 0 where
    pub entry : Entry
    pub blk : List ℕ
    pub can_read : entry_read set vol sector ≡ some (ok (entry, blk))
    pub links : next_same_hash blk ≡ next
    pub nonzero : next ≢ 0
    pub passes : link_is_bad ht sector next ≡ false

  module _ (nested : ℕ → Fault DirList) where
    list_goes_on :
        (fuel sector next : ℕ)
        → LinksTo sector next
        → list_chain fuel set vol false nested ht next ≡ none
        → list_chain (suc fuel) set vol false nested ht sector ≡ none
    unfolding list_chain
    list_goes_on fuel sector next l e = ground (arith, l.can_read, l.links, l.nonzero, l.passes, e)

    list_chain-endless :
        (fuel a b : ℕ)
        → LinksTo a b
        → LinksTo b a
        → list_chain fuel set vol false nested ht a ≡ none
    unfolding list_chain
    list_chain-endless zero a b l k = refl
    list_chain-endless (suc fuel) a b l k =
        list_goes_on fuel a b l (list_chain-endless fuel b a k l)

    list_chain-entered :
        (fuel h a b : ℕ)
        → LinksTo h a
        → LinksTo a b
        → LinksTo b a
        → list_chain fuel set vol false nested ht h ≡ none
    unfolding list_chain
    list_chain-entered zero h a b k l m = refl
    list_chain-entered (suc fuel) h a b k l m =
        list_goes_on fuel h a k (list_chain-endless fuel a b l m)

    list_slots-endless :
        (zeros slots : List ℕ) (h : ℕ)
        → all_zero zeros ≡ true
        → h ≢ 0
        → list_chain set.chain set vol false nested ht h ≡ none
        → list_slots set vol false nested ht (zeros ++ (h ∷ slots)) ≡ none
    unfolding list_slots
    list_slots-endless [] slots h z n e = ground (arith, n, e)
    list_slots-endless (x ∷ zeros) slots h z n e =
        ground (arith, z, list_slots-endless zeros slots h (ground (arith, z)) n e)

  module _ (counted : ℕ → Fault ℕ) where
    check_goes_on :
        (fuel sector next : ℕ) (before : Option (List ℕ))
        → (l : LinksTo sector next)
        → check_chain fuel set vol false counted ht next (some l.blk) ≡ none
        → check_chain (suc fuel) set vol false counted ht sector before ≡ none
    unfolding check_chain check_read check_sub
    check_goes_on fuel sector next before l e =
        ground (arith, l.can_read, l.links, l.nonzero, l.passes, e)

    check_chain-endless :
        (fuel a b : ℕ) (before : Option (List ℕ))
        → LinksTo a b
        → LinksTo b a
        → check_chain fuel set vol false counted ht a before ≡ none
    unfolding check_chain
    check_chain-endless zero a b before l k = refl
    check_chain-endless (suc fuel) a b before l k =
        check_goes_on fuel a b before l (check_chain-endless fuel b a (some l.blk) k l)

    check_chain-entered :
        (fuel h a b : ℕ)
        → LinksTo h a
        → LinksTo a b
        → LinksTo b a
        → (before : Option (List ℕ)) → check_chain fuel set vol false counted ht h before ≡ none
    unfolding check_chain
    check_chain-entered zero h a b k l m before = refl
    check_chain-entered (suc fuel) h a b k l m before =
        check_goes_on fuel h a before k (check_chain-endless fuel a b (some k.blk) l m)

    check_slots-endless :
        (zeros slots : List ℕ) (h : ℕ)
        → all_zero zeros ≡ true
        → h ≢ 0
        → ((before : Option (List ℕ))
            → check_chain set.chain set vol false counted ht h before ≡ none)
        → (before : Option (List ℕ))
        → check_slots set vol false counted ht (zeros ++ (h ∷ slots)) before ≡ none
    unfolding check_slots
    check_slots-endless [] slots h z n e before = ground (arith, n, e before)
    check_slots-endless (x ∷ zeros) slots h z n e before =
        ground (arith, z, check_slots-endless zeros slots h (ground (arith, z)) n e before)

header_block :
    (set : Setting) (vol : Volume) (n : ℕ) (ent : List ℕ)
    → read_entry_block set.env vol n ≡ ok ent
    → load32 ent 0 ≡ 2
unfolding read_entry_block
header_block set vol n ent e = ground (arith, e)

-- A link is one for any bound on the chains.
with_chain :
    (set : Setting) (vol : Volume) (ht : List ℕ) (fuel sector next : ℕ)
    → LinksTo set vol ht sector next
    → LinksTo (record set { chain = fuel }) vol ht sector next
unfolding entry_read
with_chain set vol ht fuel sector next l = record {
  entry = l.entry;
  blk = l.blk;
  can_read = l.can_read;
  links = l.links;
  nonzero = l.nonzero;
  passes = l.passes;
}

-- For a directory that can be read: if the first slot of its hash table that is used has an entry,
-- this entry links to `a`, and `a` and `b` link to each other, all three can be read, and neither `a`
-- nor `b` is in the hash table, then `adfGetRDirEnt` of the directory, without its cache and without
-- subdirectories, does not end after any number of rounds in a chain, and neither does `adfDirCheck`
-- of it.
pub chains-endless :
    (set : Setting) (vol : Volume) (n : ℕ) (parent zeros slots : List ℕ) (h a b fuel : ℕ)
    → read_entry_block set.env vol n ≡ ok parent
    → hash_table parent ≡ zeros ++ (h ∷ slots)
    → all_zero zeros ≡ true
    → h ≢ 0
    → LinksTo set vol (zeros ++ (h ∷ slots)) h a
    → LinksTo set vol (zeros ++ (h ∷ slots)) a b
    → LinksTo set vol (zeros ++ (h ∷ slots)) b a
    → let bounded : Setting = record set { chain = fuel } in
      (get_r_dir_ent false bounded vol false n ≡ none) × (dir_check bounded vol false n ≡ none)
unfolding get_r_dir_ent get_r_dir_ent_limited dir_check dir_check_limited
chains-endless set vol n parent zeros slots h a b fuel e t z used l0 l1 l2 =
    let bounded : Setting = record set { chain = fuel } in
    let ht = zeros ++ (h ∷ slots) in
    let k0 = with_chain set vol ht fuel h a l0 in
    let k1 = with_chain set vol ht fuel a b l1 in
    let k2 = with_chain set vol ht fuel b a l2 in
    let listed =
      list_slots-endless bounded vol ht (get_r_dir_ent_limited 512 false bounded vol false) zeros
        slots h z used (list_chain-entered bounded vol ht _ fuel h a b k0 k1 k2) in
    let checked =
      check_slots-endless bounded vol ht (dir_check_limited 512 bounded vol false) zeros slots h z
        used (check_chain-entered bounded vol ht _ fuel h a b k0 k1 k2) none in
    (rw (e, t, listed) refl, ground (arith, e, t, header_block set vol n parent e, checked))
