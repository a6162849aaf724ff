-- ===== src/File/Positions.antt =====
-- Positions of a file and its blocks, for the two sizes that a data block has.
use adflib.Prelude.{ℕ, suc, ◌+◌, ◌-◌, ◌*◌, ◌/◌, ◌%◌, ◌≤◌, ◌<◌, ◌≡◌, inl, inr, sym, arith}
use mathlib.Core.Path.{subst}
use adflib.File.Seek.{last_part}
use adflib.File.Content.{Stored, block_size, file_size, IsSized}

-- What holds for both sizes holds for the file's.
by_size : (P : ℕ → Type 0) (s : Stored) → IsSized s.vol → P 488 → P 512 → P (block_size s)
by_size P s (inl sized) ofs ffs = subst P (sym sized.1) ofs
by_size P s (inr sized) ofs ffs = subst P (sym sized.1) ffs

-- The end of a file is in its last block, or just behind it.
pub last_part-at :
    (s : Stored) (k q : ℕ)
    → IsSized s.vol
    → file_size s - 1 ≡ k * block_size s + q
    → q < block_size s
    → 0 < file_size s
    → file_size s ≡ k * block_size s + last_part (file_size s) (block_size s)
last_part-at s k q sized =
    by_size
      (λ n.
        file_size s - 1 ≡ k * n + q
        → q < n
        → 0 < file_size s
        → file_size s ≡ k * n + last_part (file_size s) n)
      s sized (λ at within more. ground (arith, at, within, more))
      (λ at within more. ground (arith, at, within, more))

pub last_part-le :
    (s : Stored) → IsSized s.vol → last_part (file_size s) (block_size s) ≤ block_size s
last_part-le s sized =
    by_size (λ n. last_part (file_size s) n ≤ n) s sized (ground arith) (ground arith)

-- Where the positions of block `k` are.
pub block_of :
    (s : Stored) (pos k : ℕ)
    → IsSized s.vol
    → k ≡ pos / block_size s
    → (k * block_size s ≤ pos) × (pos < suc k * block_size s)
block_of s pos k sized =
    by_size (λ n. k ≡ pos / n → (k * n ≤ pos) × (pos < suc k * n)) s sized
      (λ e. (omega (arith, e), omega (arith, e))) (λ e. (omega (arith, e), omega (arith, e)))

pub in_block :
    (s : Stored) (pos k : ℕ)
    → IsSized s.vol
    → (k * block_size s ≤ pos) × (pos < suc k * block_size s)
    → (pos ≡ k * block_size s + pos % block_size s) × (pos % block_size s < block_size s)
in_block s pos k sized =
    by_size (λ n. (k * n ≤ pos) × (pos < suc k * n) → (pos ≡ k * n + pos % n) × (pos % n < n)) s
      sized (λ h. (omega (arith, h.0, h.1), omega arith))
      (λ h. (omega (arith, h.0, h.1), omega arith))

-- A block is known by where it starts.
pub same_number :
    (s : Stored) (k k' q : ℕ)
    → IsSized s.vol
    → k * block_size s ≡ k' * block_size s + q
    → q < block_size s
    → k' ≡ k
same_number s k k' q sized =
    by_size (λ n. k * n ≡ k' * n + q → q < n → k' ≡ k) s sized
      (λ at within. omega (arith, at, within)) (λ at within. omega (arith, at, within))
