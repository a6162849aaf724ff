-- ===== src/Bitmap/Alloc.antt =====
-- Allocation of blocks, against the list of the free blocks in the order of the search.
use adflib.Prelude.{
  ℕ, zero, suc, ◌+◌, ◌-◌, ◌<◌, ◌≤◌, ◌≡◌, refl, ◌∙◌, ap, arith, Bool, true, false, not, ◌&&◌, ◌||◌,
  List, [], ◌∷◌, ◌++◌, length, length-take, take, none, some, ltb, leb, ◌==◌, if◌then◌else◌,
}
use adflib.Vol.{Volume}
use adflib.Bitmap.{scan, set_blocks_used, get_free_blocks}
use adflib.Bitmap.Marks.{IsBitmap, InBitmap, free_in, is_block_free-eq, set_block_used_lem}
use adflib.Bitmap.Scan.{free_from, scan_lem}

unfoldable pub mem : ℕ → List ℕ → Bool
mem k [] = false
mem k (x ∷ xs) = (x == k) || mem k xs

unfoldable pub distinct : List ℕ → Bool
distinct [] = true
distinct (x ∷ xs) = not (mem x xs) && distinct xs

-- The last block of the volume, in its own numbers.
abbrev last : Volume → ℕ
last vol = vol.last_block - vol.first_block

-- The free blocks in the order in which `adfGetFreeBlocks` looks for them.
unfoldable pub free_list : Volume → List ℕ
free_list vol =
    free_from (free_in vol) vol.root_block (suc (last vol - vol.root_block))
    ++ free_from (free_in vol) 2 (vol.root_block - 2)

-- `vol'` is `vol` with the blocks of the list used.
pub record IsAllocated (vol vol' : Volume) (list : List ℕ) : Type 0 where
  pub rest : vol' ≡ record vol { bitmap = vol'.bitmap }
  pub well : IsBitmap vol'
  pub bits :
      (k : ℕ) → InBitmap vol k → free_in vol' k ≡ (if mem k list then false else free_in vol k)

abbrev pub AllInBitmap : Volume → List ℕ → Type 0
AllInBitmap vol list = (k : ℕ) → mem k list ≡ true → InBitmap vol k

-- The place of a volume with a usable root block.
pub record HasRoot (vol : Volume) : Type 0 where
  pub after_boot : 2 < vol.root_block
  pub inside : vol.root_block ≤ vol.last_block - vol.first_block

mem-free_from :
    (f : ℕ → Bool) (p n k : ℕ) → mem k (free_from f p n) ≡ (leb p k && ltb k (p + n)) && f k
unfolding mem free_from
mem-free_from f p zero k = ground arith
mem-free_from f p (suc n) k =
    let same = λ (e : p ≡ k). ap f e in ground (arith, mem-free_from f (suc p) n k, same)

pub mem-append : (xs ys : List ℕ) (k : ℕ) → mem k (xs ++ ys) ≡ mem k xs || mem k ys
unfolding mem
mem-append [] ys k = refl
mem-append (x ∷ xs) ys k = ground (arith, mem-append xs ys k)

mem-take : (n : ℕ) (xs : List ℕ) (k : ℕ) → mem k (take n xs) ≡ true → mem k xs ≡ true
unfolding mem
mem-take zero xs k h = absurd (ground (arith, h))
mem-take (suc n) [] k h = h
mem-take (suc n) (x ∷ xs) k h = ground (arith, h, mem-take n xs k)

distinct-take : (n : ℕ) (xs : List ℕ) → distinct xs ≡ true → distinct (take n xs) ≡ true
unfolding distinct
distinct-take zero xs h = refl
distinct-take (suc n) [] h = h
distinct-take (suc n) (x ∷ xs) h = ground (arith, h, mem-take n xs x, distinct-take n xs)

distinct-free_from : (f : ℕ → Bool) (p n : ℕ) → distinct (free_from f p n) ≡ true
unfolding distinct free_from
distinct-free_from f p zero = refl
distinct-free_from f p (suc n) =
    ground (arith, distinct-free_from f (suc p) n, mem-free_from f (suc p) n p)

distinct-append :
    (xs ys : List ℕ)
    → distinct xs ≡ true
    → distinct ys ≡ true
    → ((k : ℕ) → mem k xs ≡ true → mem k ys ≡ false)
    → distinct (xs ++ ys) ≡ true
unfolding distinct mem
distinct-append [] ys h q apart = q
distinct-append (x ∷ xs) ys h q apart = ground (
  arith,
  mem-append xs ys x,
  apart x,
  distinct-append xs ys (ground (arith, h)) q (λ k m. apart k (ground (arith, m))),
)

-- The search order has no block twice.
distinct-free_list : (vol : Volume) → distinct (free_list vol) ≡ true
unfolding free_list
distinct-free_list vol =
    let f = free_in vol in
    let root = vol.root_block in
    distinct-append (free_from f root (suc (last vol - root))) (free_from f 2 (root - 2))
      (distinct-free_from f root _) (distinct-free_from f 2 _)
      (λ k h.
        ground (
          arith,
          h,
          mem-free_from f root (suc (last vol - root)) k,
          mem-free_from f 2 (root - 2) k,
        ))

-- It has every free block of the volume, and nothing else.
mem-free_list :
    (vol : Volume) (k : ℕ)
    → HasRoot vol
    → mem k (free_list vol) ≡ (leb 2 k && leb k (last vol)) && free_in vol k
unfolding free_list
mem-free_list vol k r =
    let f = free_in vol in
    let root = vol.root_block in
    ground (
      arith,
      r.after_boot,
      r.inside,
      mem-append (free_from f root (suc (last vol - root))) (free_from f 2 (root - 2)) k,
      mem-free_from f root (suc (last vol - root)) k,
      mem-free_from f 2 (root - 2) k,
    )

pub set_blocks_used_lem :
    (vol : Volume) (list : List ℕ)
    → IsBitmap vol
    → AllInBitmap vol list
    → (vol' : Volume) × (set_blocks_used vol list ≡ some vol') × IsAllocated vol vol' list
unfolding set_blocks_used mem
set_blocks_used_lem vol [] w h = (vol, refl, record { rest = refl; well = w; bits = λ k q. refl })
set_blocks_used_lem vol (n ∷ list) w h =
    let (vol1, e1, m1) = set_block_used_lem vol w n (h n (ground arith)) in
    let same : (vol1.last_block - vol1.first_block) ≡ last vol = ap last m1.rest in
    let (vol2, e2, m2) =
      set_blocks_used_lem vol1 list m1.well (λ k q. rw same (h k (ground (arith, q)))) in
    (
      vol2,
      rw e1 e2,
      record {
        rest = m2.rest ∙ ap (λ (v : Volume). record v { bitmap = vol2.bitmap }) m1.rest;
        well = m2.well;
        bits = λ k q. ground (arith, m2.bits k (rw same q), m1.bits k q);
      },
    )

module _ (vol : Volume) (nb : ℕ) (w : IsBitmap vol) (r : HasRoot vol) where
  scan-free_list :
      scan (last vol + 1) vol nb false vol.root_block [] ≡ some (take nb (free_list vol))
  unfolding free_list
  scan-free_list =
      let known =
        λ (n : ℕ) (low : 2 ≤ n) (high : n ≤ last vol). is_block_free-eq vol w n (low, high) in
      scan_lem vol (free_in vol) (last vol) nb known (ground (arith, r.inside, r.after_boot))
        r.after_boot r.inside

  listed :
      (k : ℕ) → mem k (take nb (free_list vol)) ≡ true → InBitmap vol k × (free_in vol k ≡ true)
  listed k h = ground (arith, mem-take nb (free_list vol) k h, mem-free_list vol k r)

  get_free_blocks-ok :
      nb ≤ length (free_list vol)
      → let list = take nb (free_list vol) in
        (vol' : Volume) × (get_free_blocks vol nb ≡ some (vol', some list))
        × (length list ≡ nb)
        × IsAllocated vol vol' list
  unfolding get_free_blocks
  get_free_blocks-ok h =
      let list = take nb (free_list vol) in
      let (vol', e, m) = set_blocks_used_lem vol list w (λ k q. (listed k q).0) in
      let len : length list ≡ nb = omega (arith, length-take {0} nb (free_list vol)) in
      (vol', ground (arith, scan-free_list, len, e), len, m)

  get_free_blocks-full : length (free_list vol) < nb → get_free_blocks vol nb ≡ some (vol, none)
  unfolding get_free_blocks
  get_free_blocks-full h = ground (arith, scan-free_list, length-take {0} nb (free_list vol))

-- On a volume whose bitmap covers it and whose root block stands inside it after block 2: the first
-- `nb` free blocks of the search order are distinct, free and blocks of the volume; if there are `nb`,
-- `adfGetFreeBlocks` gives them and uses these blocks and no others; if there are fewer it fails and
-- leaves the volume alone. So it always ends, within the tables, and no assertion fails.
pub get_free_blocks_lem :
    (vol : Volume) (nb : ℕ)
    → IsBitmap vol
    → HasRoot vol
    → let list = take nb (free_list vol) in
      (distinct list ≡ true)
      × ((k : ℕ) → mem k list ≡ true → InBitmap vol k × (free_in vol k ≡ true))
      × ((nb ≤ length (free_list vol))
          → (vol' : Volume) × (get_free_blocks vol nb ≡ some (vol', some list))
            × (length list ≡ nb)
            × IsAllocated vol vol' list)
      × (length (free_list vol) < nb → get_free_blocks vol nb ≡ some (vol, none))
get_free_blocks_lem vol nb w r = (
  distinct-take nb (free_list vol) (distinct-free_list vol),
  listed vol nb w r,
  get_free_blocks-ok vol nb w r,
  get_free_blocks-full vol nb w r,
)
