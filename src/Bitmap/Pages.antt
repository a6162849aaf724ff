-- ===== src/Bitmap/Pages.antt =====
-- The pages that `adfWriteNewBitmap` names in an extension block.
use adflib.Prelude.{
  ℕ, zero, suc, ◌+◌, ◌-◌, ◌*◌, ◌<◌, ◌≤◌, ◌≡◌, ap, arith, ◌&&◌, List, length, length-set, get_or,
  set, get_or-set, ltb, leb, inl, inr, ◌^◌, Bool-cases, ◌==◌, ==_iff, ◌∙◌, sym, if◌then◌else◌,
}
use adflib.Util.{store32, load32}
use adflib.Block.Members.{length-store32, load32-store32_self, load32-store32_ne}
use adflib.Bitmap.Disk.{name_ext_pages, n_ext_blocks}

shift_lem : (i k p : ℕ) → p < k → suc i + (k - suc p) ≡ i + (k - p)
shift_lem i k p h = omega arith

here_lem : (i k p : ℕ) → p ≡ k → i + (k - p) ≡ i
here_lem i k p h = omega arith

again_lem : (p k : ℕ) → 0 + (p + k - p) ≡ k
again_lem p k = omega arith

-- Page `k` of those that an extension block gets, for each block `n_block + k` of the bitmap's list, is the
-- block `sectList[ i + k ]`; blocks before stay.
blocks-name_ext_pages :
    (n : ℕ) (sect_list : List ℕ) (size i n_block : ℕ) (bitme blocks : List ℕ) (k : ℕ)
    → size ≤ length blocks
    → get_or (name_ext_pages n sect_list size i n_block bitme blocks).1 k 0 ≡ (
        if leb n_block k && (ltb k (n_block + n) && ltb k size)
        then get_or sect_list (i + (k - n_block)) 0
        else get_or blocks k 0)
unfolding name_ext_pages
blocks-name_ext_pages zero sect_list size i n_block bitme blocks k h = ground arith
blocks-name_ext_pages (suc n) sect_list size i n_block bitme blocks k h =
    let n_sect = get_or sect_list i 0 in
    let later =
      λ (q : n_block < k). ap (λ (t : ℕ). get_or sect_list t 0) (shift_lem i k n_block q) in
    let here = λ (q : n_block ≡ k). ap (λ (t : ℕ). get_or sect_list t 0) (here_lem i k n_block q) in
    ground (
      arith,
      later,
      here,
      length-set {0} blocks n_block n_sect,
      get_or-set {0} blocks n_block k n_sect 0,
      blocks-name_ext_pages n sect_list size (suc i) (suc n_block) (store32 bitme (4 * i) n_sect)
          (set blocks n_block n_sect) k,
    )

-- A page stored into the extension block.
load32-store32_page :
    (sect_list bitme : List ℕ) (i k : ℕ)
    → 4 * i + 3 < length bitme
    → get_or sect_list i 0 < 2 ^ 32
    → load32 (store32 bitme (4 * i) (get_or sect_list i 0)) (4 * k)
      ≡ (if i == k then get_or sect_list k 0 else load32 bitme (4 * k))
load32-store32_page sect_list bitme i k room small = elim (Bool-cases (i == k)) [
  | inl e ↦
      let q : i ≡ k = (==_iff i k).0 e in
      let n_sect = get_or sect_list i 0 in
      rw e (
        sym (ap (λ (t : ℕ). load32 (store32 bitme (4 * i) n_sect) (4 * t)) q)
        ∙ load32-store32_self bitme (4 * i) n_sect room small
        ∙ ap (λ (t : ℕ). get_or sect_list t 0) q)
  | inr e ↦ rw e (
      load32-store32_ne bitme (4 * i) (get_or sect_list i 0) room (4 * k)
        (elim (Bool-cases (ltb i k)) [
          | inl l ↦ inr (ground (arith, l))
          | inr l ↦ inl (ground (arith, l, e))
        ]))
]

-- The long `k` of the extension block is the block `sectList[ k ]`, for each page that the loop reaches.
load32-name_ext_pages :
    (n : ℕ) (sect_list : List ℕ) (size i n_block : ℕ) (bitme blocks : List ℕ) (k : ℕ)
    → 4 * (i + n) ≤ length bitme
    → ((j : ℕ) → get_or sect_list j 0 < 2 ^ 32)
    → 4 * k + 3 < length bitme
    → load32 (name_ext_pages n sect_list size i n_block bitme blocks).0 (4 * k) ≡ (
        if leb i k && (ltb k (i + n) && ltb (n_block + (k - i)) size)
        then get_or sect_list k 0
        else load32 bitme (4 * k))
unfolding name_ext_pages
load32-name_ext_pages zero sect_list size i n_block bitme blocks k h small w = ground arith
load32-name_ext_pages (suc n) sect_list size i n_block bitme blocks k h small w =
    let n_sect = get_or sect_list i 0 in
    let room : 4 * i + 3 < length bitme = omega arith in
    let same = length-store32 bitme (4 * i) n_sect in
    let rest =
      load32-name_ext_pages n sect_list size (suc i) (suc n_block) (store32 bitme (4 * i) n_sect)
        (set blocks n_block n_sect) k (omega (arith, same)) small (omega (arith, same)) in
    let page = load32-store32_page sect_list bitme i k room (small i) in
    elim (Bool-cases (ltb n_block size)) [
      | inl more ↦ rw more (ground (arith, more, rest, page))
      | inr last ↦ rw last (ground (arith, last))
    ]

-- An extension block takes the first pages of the list of new blocks again: where the bitmap has room
-- for `size` pages and the list has 32-bit numbers, for each page `k` of the block that there is, both
-- long `k` of the extension block and page `n_block + k` of the bitmap become block `k` of the list.
pub name_ext_pages-again :
    (sect_list : List ℕ) (size n_block : ℕ) (bitme blocks : List ℕ) (k : ℕ)
    → size ≤ length blocks
    → 508 ≤ length bitme
    → ((j : ℕ) → get_or sect_list j 0 < 2 ^ 32)
    → k < 127
    → n_block + k < size
    → let (bitme', blocks', _) = name_ext_pages 127 sect_list size 0 n_block bitme blocks in
      (load32 bitme' (4 * k) ≡ get_or sect_list k 0)
      × (get_or blocks' (n_block + k) 0 ≡ get_or sect_list k 0)
name_ext_pages-again sect_list size n_block bitme blocks k h w small q r = (
  ground (
    arith,
    load32-name_ext_pages 127 sect_list size 0 n_block bitme blocks k (omega arith) small
        (omega arith),
  ),
  ground (
    arith,
    blocks-name_ext_pages 127 sect_list size 0 n_block bitme blocks (n_block + k) h,
    ap (λ (t : ℕ). get_or sect_list t 0) (again_lem n_block k),
  ),
)

-- For a bitmap of more pages than the root block can name, the extension blocks are enough for the
-- others, and one less would not be.
pub n_ext_blocks_lem :
    (size : ℕ)
    → 25 < size
    → (size ≤ 25 + 127 * n_ext_blocks size) × (25 + 127 * (n_ext_blocks size - 1) < size)
unfolding n_ext_blocks
n_ext_blocks_lem size h = ground arith
