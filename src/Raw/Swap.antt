-- ===== src/Raw/Swap.antt =====
-- `adfSwapEndian`, byte by byte: where a row of the table has longs, the four bytes of each change
-- places; where it has characters, they stay.
use adflib.Prelude.{
  ℕ, zero, suc, ◌+◌, ◌-◌, ◌*◌, ◌/◌, ◌%◌, ◌≤◌, ◌<◌, ◌≡◌, refl, ◌∙◌, arith, List, [], ◌∷◌, length,
  get_or, ap, Bool, true, false, ◌&&◌, ◌||◌, leb, ltb, ◌==◌, if◌then◌else◌, list_ext,
}
use adflib.Prelude.Loops.{all_below, all_below_sound}
use adflib.Util.{byte, swap_uint32_at_ptr, swap_uint32_from_ptr, load32}
use adflib.Util.ByteOrder.{
  byte-swap_uint32_at_ptr, length-swap_uint32_at_ptr, IsBytes, swap_uint32_from_ptr_value,
}
use adflib.Raw.{
  SwapEl, el, sw_long, sw_char, tot_len, swap_table, swap_one, swap_items, swap_els, swap_endian,
}

-- The mirror place within a long.
abbrev pub flip : ℕ → ℕ
flip i = 4 * (i / 4) + (3 - i % 4)

-- Whether a row that starts at `p` has a long at place `i`.
unfoldable pub in_long : List SwapEl → ℕ → ℕ → Bool
in_long [] p i = false
in_long (el type len ∷ els) p i =
    if type == tot_len
    then false
    else if type == sw_char
    then in_long els (p + len) i
    else (leb p i && ltb i (p + 4 * len)) || in_long els (p + 4 * len) i

-- A row of longs and of characters in fours, within `size` bytes from `p` on.
unfoldable pub is_row : List SwapEl → ℕ → ℕ → Bool
is_row [] p size = true
is_row (el type len ∷ els) p size =
    if type == tot_len
    then true
    else if type == sw_char
    then (len % 4 == 0) && is_row els (p + len) size
    else (type == sw_long) && leb (p + 4 * len) size && is_row els (p + 4 * len) size

length-swap_items : (n p : ℕ) (buf : List ℕ) → length (swap_items sw_long n p buf).0 ≡ length buf
unfolding swap_items swap_one
length-swap_items zero p buf = refl
length-swap_items (suc n) p buf =
    length-swap_items n (p + 4) (swap_uint32_at_ptr buf p) ∙ length-swap_uint32_at_ptr buf p

end-swap_items : (n p : ℕ) (buf : List ℕ) → (swap_items sw_long n p buf).1 ≡ p + 4 * n
unfolding swap_items swap_one
end-swap_items zero p buf = omega arith
end-swap_items (suc n) p buf = omega (arith, end-swap_items n (p + 4) (swap_uint32_at_ptr buf p))

-- One long changes places.
at_ptr-flip :
    (buf : List ℕ) (p i : ℕ)
    → p + 3 < length buf
    → p % 4 ≡ 0
    → byte (swap_uint32_at_ptr buf p) i
      ≡ (if leb p i && ltb i (p + 4) then byte buf (flip i) else byte buf i)
at_ptr-flip buf p i h a = ground (arith, byte-swap_uint32_at_ptr buf p i h)

byte-swap_items :
    (n p : ℕ) (buf : List ℕ) (i : ℕ)
    → p + 4 * n ≤ length buf
    → p % 4 ≡ 0
    → byte (swap_items sw_long n p buf).0 i
      ≡ (if leb p i && ltb i (p + 4 * n) then byte buf (flip i) else byte buf i)
unfolding swap_items swap_one
byte-swap_items zero p buf i h a = ground arith
byte-swap_items (suc n) p buf i h a =
    let here = λ (j : ℕ). at_ptr-flip buf p j (omega arith) a in
    ground (
      arith,
      byte-swap_items n (p + 4) (swap_uint32_at_ptr buf p) i
          (omega (arith, length-swap_uint32_at_ptr buf p)) (omega arith),
      here i,
      here (flip i),
    )

length-swap_els :
    (els : List SwapEl) (p size : ℕ) (buf : List ℕ)
    → is_row els p size ≡ true
    → length (swap_els els p buf) ≡ length buf
unfolding swap_els is_row
length-swap_els [] p size buf r = refl
length-swap_els (el type len ∷ els) p size buf r = ground (
  arith,
  length-swap_els els (p + len) size buf,
  length-swap_els els (swap_items sw_long len p buf).1 size (swap_items sw_long len p buf).0,
  end-swap_items len p buf,
  length-swap_items len p buf,
)

-- No long of a row stands before its start.
in_long-before : (els : List SwapEl) (p i : ℕ) → i < p → in_long els p i ≡ false
unfolding in_long
in_long-before [] p i h = refl
in_long-before (el type len ∷ els) p i h =
    ground (arith, in_long-before els (p + len) i, in_long-before els (p + 4 * len) i)

-- What `adfSwapEndian` does to each byte, for a row that fits the buffer.
byte-swap_els :
    (els : List SwapEl) (p size : ℕ) (buf : List ℕ) (i : ℕ)
    → is_row els p size ≡ true
    → size ≤ length buf
    → p % 4 ≡ 0
    → byte (swap_els els p buf) i ≡ (if in_long els p i then byte buf (flip i) else byte buf i)
unfolding swap_els is_row in_long
byte-swap_els [] p size buf i r h a = refl
byte-swap_els (el type len ∷ els) p size buf i r h a =
    let moved = swap_items sw_long len p buf in
    ground (
      arith,
      byte-swap_els els (p + len) size buf i,
      byte-swap_els els moved.1 size moved.0 i,
      end-swap_items len p buf,
      length-swap_items len p buf,
      byte-swap_items len p buf i,
      byte-swap_items len p buf (flip i),
      in_long-before els (p + 4 * len) i,
    )

in_long-flip :
    (els : List SwapEl) (p size i : ℕ)
    → is_row els p size ≡ true
    → p % 4 ≡ 0
    → in_long els p (flip i) ≡ in_long els p i
unfolding is_row in_long
in_long-flip [] p size i r a = refl
in_long-flip (el type len ∷ els) p size i r a =
    ground (arith, in_long-flip els (p + len) size i, in_long-flip els (p + 4 * len) size i)

in_long-word :
    (els : List SwapEl) (p size i k : ℕ)
    → is_row els p size ≡ true
    → p % 4 ≡ 0
    → i % 4 ≡ 0
    → k < 4
    → in_long els p (i + k) ≡ in_long els p i
unfolding is_row in_long
in_long-word [] p size i k r a b q = refl
in_long-word (el type len ∷ els) p size i k r a b q =
    ground (arith, in_long-word els (p + len) size i k, in_long-word els (p + 4 * len) size i k)

-- The rows of the block types, each with the bytes that it covers.
rows_table :
    all_below 12 (λ t.
      is_row
        (get_or swap_table t [])
        0
        (if t == 0 then 1024 else if (t == 7) || ((t == 9) || (t == 10)) then 256 else 512))
    ≡ true
unfolding all_below is_row
rows_table = refl

-- The size of a block of each type.
abbrev pub block_size : ℕ → ℕ
block_size t = if t == 0 then 1024 else if (t == 7) || ((t == 9) || (t == 10)) then 256 else 512

row-is_row : (t : ℕ) → t ≤ 11 → is_row (get_or swap_table t []) 0 (block_size t) ≡ true
row-is_row t h =
    all_below_sound 12 (λ t. is_row (get_or swap_table t []) 0 (block_size t)) t rows_table
      (omega arith)

-- Whether the type has a long at this place of its block.
abbrev pub long_at : ℕ → ℕ → Bool
long_at t i = in_long (get_or swap_table t []) 0 i

module _ (buf : List ℕ) (t : ℕ) (known : t ≤ 11) (whole : block_size t ≤ length buf) where
  pub length-swap_endian : length (swap_endian buf t) ≡ length buf
  unfolding swap_endian
  length-swap_endian =
      ground
        (arith, length-swap_els (get_or swap_table t []) 0 (block_size t) buf (row-is_row t known))

  pub byte-swap_endian :
      (i : ℕ) → byte (swap_endian buf t) i ≡ (if long_at t i then byte buf (flip i) else byte buf i)
  unfolding swap_endian
  byte-swap_endian i = ground (
    arith,
    byte-swap_els (get_or swap_table t []) 0 (block_size t) buf i (row-is_row t known) whole refl,
  )

pub long_at-flip : (t i : ℕ) → t ≤ 11 → long_at t (flip i) ≡ long_at t i
long_at-flip t i h = in_long-flip (get_or swap_table t []) 0 (block_size t) i (row-is_row t h) refl

pub flip-flip : (i : ℕ) → flip (flip i) ≡ i
flip-flip i = omega arith

-- On a block of any of the twelve types, in a buffer of at least its size, `adfSwapEndian` is its own
-- inverse: what it makes of a block read from the disk, it turns back into that block.
pub swap_endian_self :
    (buf : List ℕ) (t : ℕ)
    → t ≤ 11
    → block_size t ≤ length buf
    → swap_endian (swap_endian buf t) t ≡ buf
swap_endian_self buf t k w =
    let once = length-swap_endian buf t k w in
    let w' : block_size t ≤ length (swap_endian buf t) = rw once w in
    list_ext 0 (swap_endian (swap_endian buf t) t) buf
      (length-swap_endian (swap_endian buf t) t k w' ∙ once)
      λ i below. ground (
        arith,
        byte-swap_endian (swap_endian buf t) t k w' i,
        byte-swap_endian buf t k w i,
        byte-swap_endian buf t k w (flip i),
        long_at-flip t i k,
        ap (byte buf) (flip-flip i),
      )

-- For bytes of a block of any type, at the place of one of its longs, the host's load after
-- `adfSwapEndian` gives the number that stands there big-endian.
pub load32-swap_endian :
    (buf : List ℕ) (t i : ℕ)
    → t ≤ 11
    → block_size t ≤ length buf
    → IsBytes buf
    → i % 4 ≡ 0
    → long_at t i ≡ true
    → load32 (swap_endian buf t) i ≡ swap_uint32_from_ptr buf i
unfolding load32
load32-swap_endian buf t i k w b a l =
    let at = λ (j : ℕ). byte-swap_endian buf t k w j in
    let same = λ (j : ℕ) (q : j < 4).
      in_long-word (get_or swap_table t []) 0 (block_size t) i j (row-is_row t k) refl a q in
    ground (
      arith,
      at i,
      at (i + 1),
      at (i + 2),
      at (i + 3),
      same 1,
      same 2,
      same 3,
      swap_uint32_from_ptr_value buf i b,
    )
