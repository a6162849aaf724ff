-- ===== src/File/Copy.antt =====
-- The bytes that `adfFileRead` copies out of one block are those of the file.
use adflib.Prelude.{
  ℕ, zero, suc, ◌+◌, ◌*◌, ◌/◌, ◌%◌, ◌≤◌, ◌<◌, ◌≡◌, inl, inr, refl, sym, ap, ap₂, ◌∙◌, arith, List,
  [], ◌∷◌, ◌++◌, length, take, drop,
}
use mathlib.Core.Path.{subst}
use adflib.Util.{byte}
use adflib.Vol.{Volume}
use adflib.File.Handle.{data_start}
use adflib.File.Content.{Stored, block_size, IsSized, content, slice}

pub length-slice : (f : ℕ → ℕ) (from n : ℕ) → length (slice f from n) ≡ n
length-slice f from zero = refl
length-slice f from (suc n) = ap suc (length-slice f (suc from) n)

-- One slice and the next are a slice.
pub slice-add :
    (f : ℕ → ℕ) (from m n : ℕ) → slice f from m ++ slice f (from + m) n ≡ slice f from (m + n)
slice-add f from zero n =
    let start : from + 0 ≡ from = omega arith in
    let whole : n ≡ 0 + n = omega arith in ap₂ (slice f) start whole
slice-add f from (suc m) n =
    let start : from + suc m ≡ suc from + m = omega arith in
    let whole : suc (m + n) ≡ suc m + n = omega arith in
    ap (λ t. f from ∷ (slice f (suc from) m ++ slice f t n)) start
    ∙ ap (λ t. f from ∷ t) (slice-add f (suc from) m n)
    ∙ ap (slice f from) whole

pub slice_ext :
    (f g : ℕ → ℕ) (from to n : ℕ)
    → ((i : ℕ) → i < n → f (from + i) ≡ g (to + i))
    → slice f from n ≡ slice g to n
slice_ext f g from to zero same = refl
slice_ext f g from to (suc n) same =
    ap₂ (λ a t. a ∷ t) (ap f (omega arith) ∙ same 0 (omega arith) ∙ ap g (omega arith))
      (slice_ext f g (suc from) (suc to) n
        (λ i h. ap f (omega arith) ∙ same (suc i) (omega arith) ∙ ap g (omega arith)))

shifted :
    (x : ℕ) (buf : List ℕ) (from n : ℕ)
    → slice (byte buf) from n ≡ slice (byte (x ∷ buf)) (suc from) n
shifted x buf from n =
    slice_ext (byte buf) (byte (x ∷ buf)) from (suc from) n (λ i small.
      let next : suc (from + i) ≡ suc from + i = omega arith in ap (byte (x ∷ buf)) next)

-- A part of a buffer is the slice of its bytes.
take-drop :
    (buf : List ℕ) (from n : ℕ)
    → from + n ≤ length buf
    → take n (drop from buf) ≡ slice (byte buf) from n
take-drop [] zero zero h = refl
take-drop [] zero (suc n) h = absurd (omega arith)
take-drop [] (suc from) n h = absurd (omega arith)
take-drop (x ∷ buf) zero zero h = refl
take-drop (x ∷ buf) zero (suc n) h =
    ap (λ t. x ∷ t) (take-drop buf 0 n (omega arith) ∙ shifted x buf 0 n)
take-drop (x ∷ buf) (suc from) n h = take-drop buf from n (omega arith) ∙ shifted x buf from n

-- The place of a byte of block `k`.
place :
    (s : Stored) (k q : ℕ)
    → IsSized s.vol
    → q < block_size s
    → ((k * block_size s + q) / block_size s ≡ k) × ((k * block_size s + q) % block_size s ≡ q)
place s k q (inl sized) h =
    subst (λ n. ((k * n + q) / n ≡ k) × ((k * n + q) % n ≡ q)) (sym (sized.1))
      (omega (arith, h, sized.1), omega (arith, h, sized.1))
place s k q (inr sized) h =
    subst (λ n. ((k * n + q) / n ≡ k) × ((k * n + q) % n ≡ q)) (sym (sized.1))
      (omega (arith, h, sized.1), omega (arith, h, sized.1))

pub header_fits : (vol : Volume) → IsSized vol → data_start vol + vol.datablock_size ≤ 512
header_fits vol (inl sized) = ground (arith, sized.0, sized.1)
header_fits vol (inr sized) = ground (arith, sized.0, sized.1)

-- What is copied out of block `k` from offset `q` on.
pub copied :
    (s : Stored) (k q n : ℕ)
    → IsSized s.vol
    → length (s.block k) ≡ 512
    → q + n ≤ block_size s
    → take n (drop (data_start s.vol + q) (s.block k)) ≡ slice (content s) (k * block_size s + q) n
copied s k q n sized whole h =
    take-drop (s.block k) (data_start s.vol + q) n (omega (arith, header_fits s.vol sized))
    ∙ slice_ext (byte (s.block k)) (content s) (data_start s.vol + q) (k * block_size s + q) n
        (λ i small.
          let at = place s k (q + i) sized (omega arith) in
          let same : k * block_size s + q + i ≡ k * block_size s + (q + i) = omega arith in
          sym (
            ap (content s) same
            ∙ ap₂ (λ a b. byte (s.block a) (data_start s.vol + b)) at.0 at.1
            ∙ ap (byte (s.block k)) (omega arith)))
