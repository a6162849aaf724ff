-- ===== src/Bitmap/Count.antt =====
-- The count of the free blocks, before and after an allocation.
use adflib.Prelude.{
  ℕ, zero, suc, ◌+◌, ◌-◌, ◌<◌, ◌≤◌, ◌≡◌, refl, ◌∙◌, ap, arith, Bool, true, false, List, [], ◌∷◌,
  ◌++◌, length, length-append, take, none, some, ◌==◌, if◌then◌else◌,
}
use adflib.Vol.{Volume}
use adflib.Bitmap.{get_free_blocks, count_free_loop, count_free_blocks}
use adflib.Bitmap.Marks.{IsBitmap, InBitmap, free_in, is_block_free-eq}
use adflib.Bitmap.Scan.{free_from}
use adflib.Bitmap.Alloc.{mem, distinct, free_list, IsAllocated, HasRoot, get_free_blocks_lem}

abbrev less : (ℕ → Bool) → List ℕ → ℕ → Bool
less f list k = if mem k list then false else f k

free_from-congr :
    (f g : ℕ → Bool) (p n : ℕ)
    → ((k : ℕ) → p ≤ k → k < p + n → f k ≡ g k)
    → free_from f p n ≡ free_from g p n
unfolding free_from
free_from-congr f g p zero h = refl
free_from-congr f g p (suc n) h =
    ground (arith, h p, free_from-congr f g (suc p) n (λ k q r. h k (omega arith) (omega arith)))

-- One free block less.
length-free_from_one :
    (f : ℕ → Bool) (x p n : ℕ)
    → p ≤ x
    → x < p + n
    → f x ≡ true
    → length (free_from f p n) ≡ suc (length (free_from (λ k. if x == k then false else f k) p n))
unfolding free_from
length-free_from_one f x p zero h q t = absurd (omega arith)
length-free_from_one f x p (suc n) h q t =
    let same = λ (e : x ≡ p). ap f e in
    let g = λ (k : ℕ). if x == k then false else f k in
    let later =
      λ (e : x < suc p). ap length (free_from-congr g f (suc p) n (λ k a b. ground arith)) in
    ground (arith, t, same, length-free_from_one f x (suc p) n, later)

-- The free blocks among `n` from `p` on that remain when the blocks of a list, all among them and free, are used.
length-free_from-less :
    (f : ℕ → Bool) (list : List ℕ) (p n : ℕ)
    → distinct list ≡ true
    → ((k : ℕ) → mem k list ≡ true → (p ≤ k) × (k < p + n) × (f k ≡ true))
    → length (free_from f p n) ≡ length list + length (free_from (less f list) p n)
unfolding distinct mem
length-free_from-less f [] p n d h =
    omega (arith, ap length (free_from-congr f (less f []) p n (λ k a b. refl)))
length-free_from-less f (x ∷ list) p n d h =
    let g = λ (k : ℕ). if x == k then false else f k in
    let (low, high, t) = h x (ground arith) in
    let one = length-free_from_one f x p n low high t in
    let more =
      length-free_from-less g list p n (ground (arith, d)) (λ k q. ground (arith, d, q, h k)) in
    let agree =
      ap length (free_from-congr (less g list) (less f (x ∷ list)) p n (λ k a b. ground arith)) in
    omega (arith, one, more, agree)

count_free_loop-eq :
    (vol : Volume) (n j : ℕ)
    → IsBitmap vol
    → 2 ≤ j
    → j + n ≤ suc (vol.last_block - vol.first_block)
    → count_free_loop vol n j ≡ some (length (free_from (free_in vol) j n))
unfolding count_free_loop free_from
count_free_loop-eq vol zero j w low high = refl
count_free_loop-eq vol (suc n) j w low high = ground (
  arith,
  is_block_free-eq vol w j (low, omega arith),
  count_free_loop-eq vol n (suc j) w (omega arith) (omega arith),
)

-- The number of the free blocks.
abbrev pub free_count : Volume → ℕ
free_count vol = length (free_from (free_in vol) 2 (vol.last_block - vol.first_block - 1))

count_free_blocks-eq :
    (vol : Volume) → IsBitmap vol → HasRoot vol → count_free_blocks vol ≡ some (free_count vol)
unfolding count_free_blocks
count_free_blocks-eq vol w r =
    let after = r.after_boot in
    let inside = r.inside in
    ground (
      arith,
      after,
      inside,
      count_free_loop-eq vol (vol.last_block - vol.first_block - 1) 2 w (omega arith) (omega arith),
    )

free_from-append :
    (f : ℕ → Bool) (p a b : ℕ) → free_from f p (a + b) ≡ free_from f p a ++ free_from f (p + a) b
unfolding free_from
free_from-append f p zero b =
    let e : p + 0 ≡ p = omega arith in let q : 0 + b ≡ b = omega arith in rw (e, q) refl
free_from-append f p (suc a) b =
    let e : p + suc a ≡ suc p + a = omega arith in
    let q : suc a + b ≡ suc (a + b) = omega arith in
    rw (e, q) (ground (arith, free_from-append f (suc p) a b))

-- The search order has as many blocks as are free.
length-free_list : (vol : Volume) → HasRoot vol → length (free_list vol) ≡ free_count vol
unfolding free_list
length-free_list vol r =
    let f = free_in vol in
    let root = vol.root_block in
    let last = vol.last_block - vol.first_block in
    let e : last - 1 ≡ (root - 2) + suc (last - root) = omega (arith, r.after_boot, r.inside) in
    let q : 2 + (root - 2) ≡ root = omega (arith, r.after_boot) in
    let split = free_from-append f 2 (root - 2) (suc (last - root)) in
    rw (e, split, q)
      (omega (
        arith,
        length-append {0} (free_from f root (suc (last - root))) (free_from f 2 (root - 2)),
        length-append {0} (free_from f 2 (root - 2)) (free_from f root (suc (last - root))),
      ))

count-allocated :
    (vol vol' : Volume) (list : List ℕ)
    → HasRoot vol
    → IsAllocated vol vol' list
    → distinct list ≡ true
    → ((k : ℕ) → mem k list ≡ true → InBitmap vol k × (free_in vol k ≡ true))
    → count_free_blocks vol' ≡ some (free_count vol - length list)
count-allocated vol vol' list r m d h =
    let last = vol.last_block - vol.first_block in
    let e : vol'.last_block - vol'.first_block ≡ last =
      ap (λ (v : Volume). v.last_block - v.first_block) m.rest in
    let q : vol'.root_block ≡ vol.root_block = ap (λ (v : Volume). v.root_block) m.rest in
    let r' : HasRoot vol' = record {
      after_boot = omega (arith, q, r.after_boot);
      inside = omega (arith, q, e, r.inside);
    } in
    let fewer =
      length-free_from-less (free_in vol) list 2 (last - 1) d
        (λ k t. ground (arith, h k t, r.after_boot, r.inside)) in
    let same =
      free_from-congr (free_in vol') (less (free_in vol) list) 2 (last - 1)
        (λ k a b. m.bits k (a, omega (arith, r.after_boot, r.inside))) in
    let n : free_count vol' ≡ free_count vol - length list =
      ap (λ (l : ℕ). length (free_from (free_in vol') 2 (l - 1))) e
      ∙ ap length same
      ∙ omega (arith, fewer) in
    count_free_blocks-eq vol' m.well r' ∙ ap some n

-- On a volume whose bitmap covers it and whose root block stands inside it after block 2,
-- `adfCountFreeBlocks` gives a count; `adfGetFreeBlocks` of `nb` blocks succeeds if `nb` is at most
-- the count, which is then less by `nb`, and fails with the volume as it was if `nb` is more.
pub get_free_blocks-count :
    (vol : Volume) (nb : ℕ)
    → IsBitmap vol
    → HasRoot vol
    → (n : ℕ) × (count_free_blocks vol ≡ some n)
      × (nb ≤ n
          → (vol' : Volume) × (list : List ℕ) × (get_free_blocks vol nb ≡ some (vol', some list))
            × (count_free_blocks vol' ≡ some (n - nb)))
      × (n < nb → get_free_blocks vol nb ≡ some (vol, none))
get_free_blocks-count vol nb w r =
    let (dist, free, got, full) = get_free_blocks_lem vol nb w r in
    let len = length-free_list vol r in
    (
      free_count vol,
      count_free_blocks-eq vol w r,
      (λ h.
          let (vol', e, n, m) = got (omega (arith, len)) in
          (
            vol',
            take nb (free_list vol),
            e,
            count-allocated vol vol' (take nb (free_list vol)) r m dist free
                ∙ ap (λ (t : ℕ). some (free_count vol - t)) n,
          )),
      λ h. full (omega (arith, len)),
    )
