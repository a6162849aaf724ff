-- ===== src/Cache/Codec.antt =====
-- The record of a directory cache block: written, and read back.
use adflib.Prelude.{
  ℕ, suc, ◌+◌, ◌-◌, ◌/◌, ◌%◌, ◌^◌, ◌<◌, ◌≤◌, ◌≡◌, refl, ◌∙◌, ap, arith, bit_and, ◌&&◌, List, [],
  ◌∷◌, length, set, get_or, length-set, get_or-set, ltb, leb, ◌==◌, if◌then◌else◌,
}
use adflib.Prelude.Bits.{or_fields, and_low}
use adflib.Util.{byte, swap_uint32_from_ptr, swap_uint16_from_ptr, swap_uint16_to_ptr}
use adflib.Util.ByteOrder.{mask_byte}
use adflib.Cache.{put_bytes}

pub length-put_bytes :
    (from : List ℕ) (records : List ℕ) (p : ℕ) → length (put_bytes records p from) ≡ length records
unfolding put_bytes
length-put_bytes [] records p = refl
length-put_bytes (c ∷ from) records p =
    length-put_bytes from (set records p c) (p + 1) ∙ length-set records p c

pub byte-put_bytes :
    (from records : List ℕ) (p i : ℕ)
    → p + length from ≤ length records
    → byte (put_bytes records p from) i
      ≡ (if leb p i && ltb i (p + length from) then get_or from (i - p) 0 else byte records i)
unfolding put_bytes
byte-put_bytes [] records p i h = ground arith
byte-put_bytes (c ∷ from) records p i h =
    let next = λ (q : p < i). ap (λ (t : ℕ). get_or (c ∷ from) t 0) (later_lem i p q) in
    let here = λ (q : p ≡ i). ap (λ (t : ℕ). get_or (c ∷ from) t 0) (here_lem i p q) in
    ground (
      arith,
      byte-put_bytes from (set records p c) (p + 1) i (omega (arith, length-set {0} records p c)),
      get_or-set {0} records p i c 0,
      next,
      here,
    )
  where
    later_lem : (i p : ℕ) → p < i → i - p ≡ suc (i - (p + 1))
    later_lem i p h = omega arith

    here_lem : (i p : ℕ) → p ≡ i → i - p ≡ 0
    here_lem i p h = omega arith

pub byte-swap_uint16_to_ptr :
    (buf : List ℕ) (p val i : ℕ)
    → p + 1 < length buf
    → byte (swap_uint16_to_ptr buf p val) i
      ≡ (if i == p + 1 then val % 256 else if i == p then val / 2 ^ 8 % 256 else byte buf i)
unfolding swap_uint16_to_ptr
byte-swap_uint16_to_ptr buf p val i h =
    let b0 = bit_and val 0xff00 / 2 ^ 8 % 2 ^ 8 in
    ground (
      arith,
      mask_byte 8 val,
      and_low 8 val,
      length-set {0} buf p b0,
      get_or-set {0} buf p i b0 0,
      get_or-set {0} (set buf p b0) (p + 1) i (bit_and val 0xff) 0,
    )

pub length-swap_uint16_to_ptr :
    (buf : List ℕ) (p val : ℕ) → length (swap_uint16_to_ptr buf p val) ≡ length buf
unfolding swap_uint16_to_ptr
length-swap_uint16_to_ptr buf p val = simp length-set

-- Two bytes as a big-endian number.
pub swap_uint16_from_ptr-bytes :
    (buf : List ℕ) (p val : ℕ)
    → val < 2 ^ 16
    → byte buf p ≡ val / 2 ^ 8 % 256
    → byte buf (p + 1) ≡ val % 256
    → swap_uint16_from_ptr buf p ≡ val
unfolding swap_uint16_from_ptr
swap_uint16_from_ptr-bytes buf p val h a b =
    rw (a, b) (omega (arith, or_fields 8 (val / 2 ^ 8 % 256) (val % 256) (omega arith)))

-- Four bytes as a big-endian number.
pub swap_uint32_from_ptr-bytes :
    (buf : List ℕ) (p val : ℕ)
    → val < 2 ^ 32
    → byte buf p ≡ val / 2 ^ 24 % 256
    → byte buf (p + 1) ≡ val / 2 ^ 16 % 256
    → byte buf (p + 2) ≡ val / 2 ^ 8 % 256
    → byte buf (p + 3) ≡ val % 256
    → swap_uint32_from_ptr buf p ≡ val
unfolding swap_uint32_from_ptr
swap_uint32_from_ptr-bytes buf p val h a b c d =
    let hi =
      swap_uint16_from_ptr-bytes buf p (val / 2 ^ 16) (omega arith) (omega (arith, a))
        (omega (arith, b)) in
    let e : byte buf (p + 2 + 1) ≡ val % 2 ^ 16 % 256 =
      ap (byte buf) (sum_lem p) ∙ d ∙ omega arith in
    let lo =
      swap_uint16_from_ptr-bytes buf (p + 2) (val % 2 ^ 16) (omega arith) (omega (arith, c)) e in
    rw (hi, lo) (omega (arith, or_fields 16 (val / 2 ^ 16) (val % 2 ^ 16) (omega arith)))
  where
    sum_lem : (p : ℕ) → p + 2 + 1 ≡ p + 3
    sum_lem p = omega arith
