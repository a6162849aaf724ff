-- ===== src/Util/ByteOrder.antt =====
-- Writing an integer into a buffer and reading it back, and the swap in place.
use adflib.Prelude.{
  ℕ, ◌+◌, ◌*◌, ◌/◌, ◌%◌, ◌^◌, ◌<◌, bit_and, ◌≡◌, ◌⊎◌, sym, ◌∙◌, ap, arith, List, length, set,
  length-set, get_or-set, if◌then◌else◌, ◌==◌,
}
use adflib.Prelude.Bits.{and_shifted, and_low, or_fields}
use adflib.Util.{
  byte, swap_uint16, swap_uint32, swap_uint16_from_ptr, swap_uint32_from_ptr, swap_uint32_to_ptr,
  swap_uint32_at_ptr, load32,
}

abbrev pub IsBytes : List ℕ → Type 0
IsBytes buf = (i : ℕ) → byte buf i < 256

-- The byte that a mask and a shift cut out of a word.
pub mask_byte : (k v : ℕ) → bit_and v (255 * 2 ^ k) ≡ v / 2 ^ k % 256 * 2 ^ k
mask_byte k v =
    omega (arith, and_shifted k v 255, ap (λ (t : ℕ). t * 2 ^ k) (and_low 8 (v / 2 ^ k)))

byte_next : (buf : List ℕ) (p k j : ℕ) → byte buf (p + k + j) ≡ byte buf (p + (k + j))
byte_next buf p k j = ap (byte buf) (omega arith)

pub swap_uint16_from_ptr_value :
    (buf : List ℕ) (p : ℕ)
    → IsBytes buf
    → swap_uint16_from_ptr buf p ≡ byte buf p * 256 + byte buf (p + 1)
unfolding swap_uint16_from_ptr
swap_uint16_from_ptr_value buf p h =
    omega (arith, or_fields 8 (byte buf p) (byte buf (p + 1)) (h (p + 1)), h p, h (p + 1))

-- The value that a big-endian read gives.
pub swap_uint32_from_ptr_value :
    (buf : List ℕ) (p : ℕ)
    → IsBytes buf
    → swap_uint32_from_ptr buf p
      ≡ byte buf p * 2 ^ 24
        + byte buf (p + 1) * 2 ^ 16
        + byte buf (p + 2) * 2 ^ 8
        + byte buf (p + 3)
unfolding swap_uint32_from_ptr
swap_uint32_from_ptr_value buf p h =
    let hi = swap_uint16_from_ptr_value buf p h in
    let lo = swap_uint16_from_ptr_value buf (p + 2) h in
    let joined =
      or_fields 16 (swap_uint16_from_ptr buf p) (swap_uint16_from_ptr buf (p + 2))
        (omega (arith, lo, h (p + 2), h (p + 2 + 1))) in
    omega (arith, hi, lo, joined, h p, h (p + 1), h (p + 2), h (p + 2 + 1), byte_next buf p 2 1)

-- What `swap_uint32_to_ptr` leaves at each index.
pub byte-swap_uint32_to_ptr :
    (buf : List ℕ) (p val i : ℕ)
    → p + 3 < length buf
    → byte (swap_uint32_to_ptr buf p val) i ≡ (
        if i == p + 3
        then val % 256
        else if i == p + 2
        then val / 2 ^ 8 % 256
        else if i == p + 1
        then val / 2 ^ 16 % 256
        else if i == p
        then val / 2 ^ 24 % 256
        else byte buf i)
unfolding swap_uint32_to_ptr
byte-swap_uint32_to_ptr buf p val i h =
    let b0 = bit_and val 0xff00_0000 / 2 ^ 24 % 2 ^ 8 in
    let b1 = bit_and val 0x00ff_0000 / 2 ^ 16 % 2 ^ 8 in
    let b2 = bit_and val 0x0000_ff00 / 2 ^ 8 % 2 ^ 8 in
    let b3 = bit_and val 0x0000_00ff % 2 ^ 8 in
    ground (
      arith,
      length-set buf p b0,
      length-set (set buf p b0) (p + 1) b1,
      length-set (set (set buf p b0) (p + 1) b1) (p + 2) b2,
      get_or-set buf p i b0 0,
      get_or-set (set buf p b0) (p + 1) i b1 0,
      get_or-set (set (set buf p b0) (p + 1) b1) (p + 2) i b2 0,
      get_or-set (set (set (set buf p b0) (p + 1) b1) (p + 2) b2) (p + 3) i b3 0,
      mask_byte 24 val,
      mask_byte 16 val,
      mask_byte 8 val,
      mask_byte 0 val,
    )

-- `swapUint32AtPtr` reverses four bytes and leaves the rest.
pub byte-swap_uint32_at_ptr :
    (buf : List ℕ) (p i : ℕ)
    → p + 3 < length buf
    → byte (swap_uint32_at_ptr buf p) i ≡ (
        if i == p + 3
        then byte buf p
        else if i == p + 2
        then byte buf (p + 1)
        else if i == p + 1
        then byte buf (p + 2)
        else if i == p
        then byte buf (p + 3)
        else byte buf i)
unfolding swap_uint32_at_ptr
byte-swap_uint32_at_ptr buf p i h =
    let x0 = byte buf p in
    let x1 = byte buf (p + 1) in
    let x2 = byte buf (p + 2) in
    let x3 = byte buf (p + 3) in
    let one = set buf p x3 in
    let two = set one (p + 3) x0 in
    let three = set two (p + 1) (byte two (p + 2)) in
    ground (
      arith,
      length-set buf p x3,
      length-set one (p + 3) x0,
      length-set two (p + 1) (byte two (p + 2)),
      get_or-set buf p i x3 0,
      get_or-set buf p (p + 1) x3 0,
      get_or-set buf p (p + 2) x3 0,
      get_or-set one (p + 3) i x0 0,
      get_or-set one (p + 3) (p + 1) x0 0,
      get_or-set one (p + 3) (p + 2) x0 0,
      get_or-set two (p + 1) i (byte two (p + 2)) 0,
      get_or-set three (p + 2) i (byte two (p + 1)) 0,
    )

pub length-swap_uint32_at_ptr :
    (buf : List ℕ) (p : ℕ) → length (swap_uint32_at_ptr buf p) ≡ length buf
unfolding swap_uint32_at_ptr
length-swap_uint32_at_ptr buf p = simp length-set

pub length-swap_uint32_to_ptr :
    (buf : List ℕ) (p val : ℕ) → length (swap_uint32_to_ptr buf p val) ≡ length buf
unfolding swap_uint32_to_ptr
length-swap_uint32_to_ptr buf p val = simp length-set

pub swap_uint32_to_ptr-IsBytes :
    (buf : List ℕ) (p val : ℕ)
    → p + 3 < length buf
    → IsBytes buf
    → IsBytes (swap_uint32_to_ptr buf p val)
swap_uint32_to_ptr-IsBytes buf p val h hb i =
    ground (arith, byte-swap_uint32_to_ptr buf p val i h, hb i)

pub swap_uint32_at_ptr-IsBytes :
    (buf : List ℕ) (p : ℕ) → p + 3 < length buf → IsBytes buf → IsBytes (swap_uint32_at_ptr buf p)
swap_uint32_at_ptr-IsBytes buf p h hb i =
    ground
      (arith, byte-swap_uint32_at_ptr buf p i h, hb i, hb p, hb (p + 1), hb (p + 2), hb (p + 3))

-- In a buffer of bytes with room for it, a 32-bit number stored big-endian is read back, and no other
-- byte changes.
pub from_ptr-to_ptr :
    (buf : List ℕ) (p val : ℕ)
    → p + 3 < length buf
    → IsBytes buf
    → val < 2 ^ 32
    → (swap_uint32_from_ptr (swap_uint32_to_ptr buf p val) p ≡ val)
      × ((i : ℕ) → (i < p) ⊎ (p + 3 < i) → byte (swap_uint32_to_ptr buf p val) i ≡ byte buf i)
from_ptr-to_ptr buf p val h hb hv = (
  ground (
    arith,
    swap_uint32_from_ptr_value (swap_uint32_to_ptr buf p val) p
        (swap_uint32_to_ptr-IsBytes buf p val h hb),
    byte-swap_uint32_to_ptr buf p val p h,
    byte-swap_uint32_to_ptr buf p val (p + 1) h,
    byte-swap_uint32_to_ptr buf p val (p + 2) h,
    byte-swap_uint32_to_ptr buf p val (p + 3) h,
  ),
  λ i out. ground (arith, byte-swap_uint32_to_ptr buf p val i h),
)

-- In a buffer of bytes, after the four bytes at a place are reversed the host's load gives the number
-- that stood there big-endian, and the big-endian read gives the number that the host had there.
pub load32-at_ptr :
    (buf : List ℕ) (p : ℕ)
    → p + 3 < length buf
    → IsBytes buf
    → (load32 (swap_uint32_at_ptr buf p) p ≡ swap_uint32_from_ptr buf p)
      × (swap_uint32_from_ptr (swap_uint32_at_ptr buf p) p ≡ load32 buf p)
unfolding load32
load32-at_ptr buf p h hb =
    let at = λ (i : ℕ). byte-swap_uint32_at_ptr buf p i h in
    let here = swap_uint32_from_ptr_value buf p hb in
    let there =
      swap_uint32_from_ptr_value (swap_uint32_at_ptr buf p) p
        (swap_uint32_at_ptr-IsBytes buf p h hb) in
    (
      ground (arith, at p, at (p + 1), at (p + 2), at (p + 3), here),
      ground (arith, at p, at (p + 1), at (p + 2), at (p + 3), there),
    )

swap_uint16_value : (n : ℕ) → n < 2 ^ 16 → swap_uint16 n ≡ n % 256 * 256 + n / 256
unfolding swap_uint16
swap_uint16_value n h = omega (arith, or_fields 8 n (n / 2 ^ 8) (omega arith))

-- The value of `swapUint32`: the four bytes reversed.
pub swap_uint32_value :
    (n : ℕ)
    → n < 2 ^ 32
    → swap_uint32 n
      ≡ n % 256 * 2 ^ 24 + n / 2 ^ 8 % 256 * 2 ^ 16 + n / 2 ^ 16 % 256 * 2 ^ 8 + n / 2 ^ 24
unfolding swap_uint32
swap_uint32_value n h =
    let low : bit_and n 0xffff ≡ n % 2 ^ 16 = and_low 16 n in
    let lo = swap_uint16_value (n % 2 ^ 16) (omega arith) in
    let hi = swap_uint16_value (n / 2 ^ 16 % 2 ^ 16) (omega arith) in
    let fits : swap_uint16 (n % 2 ^ 16) * 2 ^ 16 % 2 ^ 32 ≡ swap_uint16 (n % 2 ^ 16) * 2 ^ 16 =
      omega (arith, lo) in
    let joined =
      or_fields 16 (swap_uint16 (n % 2 ^ 16)) (swap_uint16 (n / 2 ^ 16 % 2 ^ 16))
        (omega (arith, hi)) in
    rw (low, fits) (omega (arith, joined, lo, hi))

-- `swapUint32` of a 32-bit number is one, and is its own inverse.
pub swap_uint32_self :
    (n : ℕ) → n < 2 ^ 32 → (swap_uint32 (swap_uint32 n) ≡ n) × (swap_uint32 n < 2 ^ 32)
swap_uint32_self n h =
    let small : swap_uint32 n < 2 ^ 32 = omega (arith, swap_uint32_value n h) in
    (omega (arith, swap_uint32_value n h, swap_uint32_value (swap_uint32 n) small), small)

-- The read depends on its four bytes only.
pub swap_uint32_from_ptr_ext :
    (a b : List ℕ) (p : ℕ)
    → byte a p ≡ byte b p
    → byte a (p + 1) ≡ byte b (p + 1)
    → byte a (p + 2) ≡ byte b (p + 2)
    → byte a (p + 3) ≡ byte b (p + 3)
    → swap_uint32_from_ptr a p ≡ swap_uint32_from_ptr b p
unfolding swap_uint32_from_ptr swap_uint16_from_ptr
swap_uint32_from_ptr_ext a b p e0 e1 e2 e3 =
    let last : byte a (p + 2 + 1) ≡ byte b (p + 2 + 1) =
      byte_next a p 2 1 ∙ e3 ∙ sym (byte_next b p 2 1) in
    rw (e0, e1, e2, last)

-- A write of four bytes leaves a big-endian read elsewhere alone.
pub from_ptr-to_ptr_ne :
    (buf : List ℕ) (p val q : ℕ)
    → p + 3 < length buf
    → (q + 3 < p) ⊎ (p + 3 < q)
    → swap_uint32_from_ptr (swap_uint32_to_ptr buf p val) q ≡ swap_uint32_from_ptr buf q
from_ptr-to_ptr_ne buf p val q h apart =
    let at = λ (i : ℕ). byte-swap_uint32_to_ptr buf p val i h in
    swap_uint32_from_ptr_ext (swap_uint32_to_ptr buf p val) buf q (ground (arith, at q))
      (ground (arith, at (q + 1))) (ground (arith, at (q + 2))) (ground (arith, at (q + 3)))

pub swap_uint32_from_ptr-lt : (buf : List ℕ) (p : ℕ) → swap_uint32_from_ptr buf p < 2 ^ 32
unfolding swap_uint32_from_ptr
swap_uint32_from_ptr-lt buf p = omega arith
