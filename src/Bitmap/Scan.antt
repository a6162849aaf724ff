-- ===== src/Bitmap/Scan.antt =====
-- The loop of `adfGetFreeBlocks`: from the root block to the end of the volume, then from block 2 up to
-- the root block.
use adflib.Prelude.{
  ℕ, zero, suc, ◌+◌, ◌-◌, ◌<◌, ◌≤◌, ◌≡◌, refl, sym, ap, arith, Bool, false, List, [], ◌∷◌, ◌++◌,
  length, length-append, take, some, ◌==◌, if◌then◌else◌,
}
use mathlib.Core.Path.{subst}
use adflib.Vol.{Volume}
use adflib.Bitmap.{is_block_free, scan}

-- The free ones among the `n` blocks from `p` on.
unfoldable pub free_from : (ℕ → Bool) → ℕ → ℕ → List ℕ
free_from free p zero = []
free_from free p (suc n) = let rest = free_from free (suc p) n in if free p then p ∷ rest else rest

-- What the loop has when it ends, if `more` was still to be found.
abbrev found : ℕ → List ℕ → List ℕ → List ℕ
found nb list more = list ++ take (nb - length list) more

append_nil : (xs : List ℕ) → xs ++ [] ≡ xs
append_nil [] = refl
append_nil (x ∷ xs) = ap (λ (t : List ℕ). x ∷ t) (append_nil xs)

append_assoc : (xs ys zs : List ℕ) → (xs ++ ys) ++ zs ≡ xs ++ (ys ++ zs)
append_assoc [] ys zs = refl
append_assoc (x ∷ xs) ys zs = ap (λ (t : List ℕ). x ∷ t) (append_assoc xs ys zs)

take-nil : (n : ℕ) → take {A = ℕ} n [] ≡ []
take-nil zero = refl
take-nil (suc n) = refl

module _ (nb : ℕ) (list : List ℕ) where
  found-nil : found nb list [] ≡ list
  found-nil = rw (take-nil (nb - length list)) (append_nil list)

  found-done : (more : List ℕ) → nb ≤ length list → found nb list more ≡ list
  found-done more h = let e : nb - length list ≡ 0 = omega arith in rw e (append_nil list)

  found-cons :
      (x : ℕ) (more : List ℕ)
      → length list < nb
      → found nb list (x ∷ more) ≡ found nb (list ++ (x ∷ [])) more
  found-cons x more h =
      let len = length-append list (x ∷ []) in
      let e : nb - length list ≡ suc (nb - length (list ++ (x ∷ []))) = omega (arith, len) in
      rw e (sym (append_assoc list (x ∷ []) (take (nb - length (list ++ (x ∷ []))) more)))

module _ (vol : Volume) (free : ℕ → Bool) (last : ℕ) (nb : ℕ)
    (known : (n : ℕ) → 2 ≤ n → n ≤ last → is_block_free vol n ≡ some (free n))
    (end : vol.last_block ≡ last + vol.first_block) (root : 2 < vol.root_block)
    (inside : vol.root_block ≤ last) where
  -- From a block before the root block on.
  scan_low :
      (k fuel block : ℕ) (list : List ℕ)
      → 2 ≤ block
      → block + k ≡ vol.root_block
      → k < fuel
      → scan fuel vol nb (k == 0) block list ≡ some (found nb list (free_from free block k))
  unfolding scan free_from
  scan_low k zero block list low e f = absurd (omega arith)
  scan_low zero (suc fuel) block list low e f = ground (arith, found-nil nb list)
  scan_low (suc k) (suc fuel) block list low e f =
      let rest = free_from free (suc block) k in
      ground (
        arith,
        known block low (omega arith),
        end,
        found-done nb list (free_from free block (suc k)),
        found-cons nb list block rest,
        scan_low k fuel (suc block) list (omega arith) (omega arith) (omega arith),
        scan_low k fuel (suc block) (list ++ (block ∷ [])) (omega arith) (omega arith)
            (omega arith),
      )

  -- From the root block or a later block on.
  scan_high :
      (k fuel block : ℕ) (list : List ℕ)
      → vol.root_block ≤ block
      → block + k ≡ last
      → k + vol.root_block ≤ fuel
      → scan fuel vol nb false block list
        ≡ some
            (found nb list (free_from free block (suc k) ++ free_from free 2 (vol.root_block - 2)))
  unfolding scan free_from
  scan_high k zero block list low e f = absurd (omega arith)
  scan_high zero (suc fuel) block list low e f =
      let rest = free_from free 2 (vol.root_block - 2) in
      ground (
        arith,
        known block (omega arith) (omega arith),
        end,
        found-done nb list (block ∷ rest),
        found-done nb list rest,
        found-cons nb list block rest,
        scan_low (vol.root_block - 2) fuel 2 list (omega arith) (omega arith) (omega arith),
        scan_low (vol.root_block - 2) fuel 2 (list ++ (block ∷ [])) (omega arith) (omega arith)
            (omega arith),
      )
  scan_high (suc k) (suc fuel) block list low e f =
      let rest = free_from free (suc block) (suc k) ++ free_from free 2 (vol.root_block - 2) in
      ground (
        arith,
        known block (omega arith) (omega arith),
        end,
        found-done nb list (block ∷ rest),
        found-done nb list rest,
        found-cons nb list block rest,
        scan_high k fuel (suc block) list (omega arith) (omega arith) (omega arith),
        scan_high k fuel (suc block) (list ++ (block ∷ [])) (omega arith) (omega arith)
            (omega arith),
      )

  -- The whole loop, with the fuel that `adfGetFreeBlocks` is modelled with: it ends, and finds the first
  -- `nb` free blocks in its order, or all if there are fewer.
  pub scan_lem :
      scan (last + 1) vol nb false vol.root_block []
      ≡ some (
          take nb (
            free_from free vol.root_block (suc (last - vol.root_block))
            ++ free_from free 2 (vol.root_block - 2)))
  scan_lem =
      let all =
        free_from free vol.root_block (suc (last - vol.root_block))
        ++ free_from free 2 (vol.root_block - 2) in
      let e : nb - 0 ≡ nb = omega arith in
      subst (λ (t : ℕ). scan (last + 1) vol nb false vol.root_block [] ≡ some (take t all)) e
        (scan_high (last - vol.root_block) (last + 1) vol.root_block [] (omega arith) (omega arith)
          (omega arith))
