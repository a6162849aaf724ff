-- ===== src/Dev/Blocks.antt =====
-- Blocks of the ramdisk: a block that was written is read back, and the others are unchanged.
use adflib.Prelude.{
  ℕ, zero, suc, ◌+◌, ◌-◌, ◌*◌, ◌^◌, ◌≤◌, ◌<◌, ◌≡◌, ◌≢◌, ◌⊎◌, refl, sym, ◌∙◌, arith, ap, List, [],
  ◌∷◌, ◌++◌, length, take, drop, ltb, leb, ◌&&◌, if◌then◌else◌, Bool-cases, inl, inr, list_ext,
  length-take, length-drop, length-append,
}
use adflib.Util.{u32, byte}
use adflib.Err.{rc_ok, rc_error, ok, err}
use adflib.Dev.{
  Device, dev_block_size, splice, ramdisk_read_sectors, ramdisk_write_sectors, dev_read_block,
  dev_write_block, finish_write,
}

pub byte-take : (n i : ℕ) (xs : List ℕ) → i < n → byte (take n xs) i ≡ byte xs i
byte-take zero i xs h = absurd (omega arith)
byte-take (suc n) i [] h = refl
byte-take (suc n) zero (x ∷ xs) h = refl
byte-take (suc n) (suc i) (x ∷ xs) h = byte-take n i xs (omega arith)

pub byte-drop : (n i : ℕ) (xs : List ℕ) → byte (drop n xs) i ≡ byte xs (n + i)
byte-drop zero i xs = ap (byte xs) (omega arith)
byte-drop (suc n) i [] = refl
byte-drop (suc n) i (x ∷ xs) =
    let e : suc n + i ≡ suc (n + i) = omega arith in rw e (byte-drop n i xs)

pub byte-append :
    (xs ys : List ℕ) (i : ℕ)
    → byte (xs ++ ys) i ≡ (if ltb i (length xs) then byte xs i else byte ys (i - length xs))
byte-append [] ys i = ground arith
byte-append (x ∷ xs) ys zero = ground arith
byte-append (x ∷ xs) ys (suc i) = ground (arith, byte-append xs ys i)

-- What `memcpy` leaves at each place, for a target inside the memory.
pub byte-splice :
    (mem : List ℕ) (at : ℕ) (buf : List ℕ) (i : ℕ)
    → at + length buf ≤ length mem
    → byte (splice mem at buf) i
      ≡ (if leb at i && ltb i (at + length buf) then byte buf (i - at) else byte mem i)
byte-splice mem at buf i h =
    let tail = drop (at + length buf) mem in
    let front : length (take at mem) ≡ at = omega (arith, length-take {0} at mem) in
    ground (
      arith,
      front,
      byte-append (take at mem) (buf ++ tail) i,
      byte-append buf tail (i - length (take at mem)),
      byte-take at i mem,
      byte-drop (at + length buf) (i - length (take at mem) - length buf) mem,
    )

pub length-splice :
    (mem : List ℕ) (at : ℕ) (buf : List ℕ)
    → at + length buf ≤ length mem
    → length (splice mem at buf) ≡ length mem
length-splice mem at buf h = omega (
  arith,
  length-append {0} (take at mem) (buf ++ drop (at + length buf) mem),
  length-append {0} buf (drop (at + length buf) mem),
  length-take {0} at mem,
  length-drop {0} (at + length buf) mem,
)

take_all : (n : ℕ) (xs : List ℕ) → length xs ≡ n → take n xs ≡ xs
take_all zero [] e = refl
take_all zero (x ∷ xs) e = absurd (omega arith)
take_all (suc n) [] e = refl
take_all (suc n) (x ∷ xs) e = ap (λ ys. x ∷ ys) (take_all n xs (omega arith))

-- The memory holds every block of the device, and is of at most 4 GiB: the offset of a block, computed in 32
-- bits, does not wrap around.
pub record IsDevice (dev : Device) : Type 0 where
  pub holds : length dev.drv_data ≡ dev_block_size * dev.size_blocks
  pub small : dev.size_blocks ≤ 2 ^ 23

-- The block `p` as the memory holds it.
abbrev pub block_of : List ℕ → ℕ → List ℕ
block_of mem p = take dev_block_size (drop (u32 (p * dev_block_size)) mem)

abbrev pub with_block : Device → ℕ → List ℕ → Device
with_block dev p buf = record dev { drv_data = splice dev.drv_data (u32 (p * dev_block_size)) buf }

module _ (dev : Device) (p : ℕ) (v : IsDevice dev) where
  pub dev_read_block-eq :
      dev_read_block dev p 512
      ≡ (if ltb dev.size_blocks (u32 (p + 1)) then err rc_error else ok (block_of dev.drv_data p))
  unfolding dev_read_block ramdisk_read_sectors
  dev_read_block-eq = ground arith

  ramdisk_write-one :
      (buf : List ℕ)
      → length buf ≡ 512
      → ramdisk_write_sectors dev p 1 buf ≡ (
          if ltb dev.size_blocks (u32 (p + 1))
          then (dev, rc_error)
          else (with_block dev p buf, rc_ok))
  unfolding ramdisk_write_sectors
  ramdisk_write-one buf e =
      ap
        (λ b.
          if ltb dev.size_blocks (u32 (p + 1))
          then (dev, rc_error)
          else (with_block dev p b, rc_ok))
        (take_all 512 buf e)

  pub dev_write_block-eq :
      (buf : List ℕ)
      → length buf ≡ 512
      → dev_write_block dev p 512 buf ≡ (
          if ltb dev.size_blocks (u32 (p + 1))
          then (dev, rc_error)
          else (with_block dev p buf, rc_ok))
  unfolding dev_write_block
  dev_write_block-eq buf e =
      ap (finish_write p 512 buf) (ramdisk_write-one buf e)
      ∙ elim (Bool-cases (ltb dev.size_blocks (u32 (p + 1)))) [ inl q ↦ rw q | inr q ↦ rw q ]

length-block_of :
    (dev : Device) (p : ℕ)
    → IsDevice dev
    → p < dev.size_blocks
    → length (block_of dev.drv_data p) ≡ 512
length-block_of dev p v h = omega (
  arith,
  length-take {0} dev_block_size (drop (u32 (p * dev_block_size)) dev.drv_data),
  length-drop {0} (u32 (p * dev_block_size)) dev.drv_data,
  v.holds,
  v.small,
)

pub with_block-IsDevice :
    (dev : Device) (p : ℕ) (buf : List ℕ)
    → IsDevice dev
    → p < dev.size_blocks
    → length buf ≡ 512
    → IsDevice (with_block dev p buf)
with_block-IsDevice dev p buf v h e = record {
  holds =
      omega (arith, length-splice dev.drv_data (u32 (p * dev_block_size)) buf, v.holds, v.small);
  small = v.small;
}

byte-block_of :
    (mem : List ℕ) (p i : ℕ)
    → i < 512
    → byte (block_of mem p) i ≡ byte mem (u32 (p * dev_block_size) + i)
byte-block_of mem p i h =
    byte-take dev_block_size i (drop (u32 (p * dev_block_size)) mem) h
    ∙ byte-drop (u32 (p * dev_block_size)) i mem

splice_inside :
    (mem : List ℕ) (at : ℕ) (buf : List ℕ) (i : ℕ)
    → at + length buf ≤ length mem
    → i < length buf
    → byte (splice mem at buf) (at + i) ≡ byte buf i
splice_inside mem at buf i h k =
    let e : at + i - at ≡ i = omega arith in
    ground (arith, byte-splice mem at buf (at + i) h, ap (byte buf) e)

splice_outside :
    (mem : List ℕ) (at : ℕ) (buf : List ℕ) (i : ℕ)
    → at + length buf ≤ length mem
    → (i < at) ⊎ (at + length buf ≤ i)
    → byte (splice mem at buf) i ≡ byte mem i
splice_outside mem at buf i h k = ground (arith, byte-splice mem at buf i h)

blocks_apart :
    (p q i : ℕ) → q ≢ p → i < 512 → (q * 512 + i < p * 512) ⊎ (p * 512 + 512 ≤ q * 512 + i)
blocks_apart p q i ne h = elim (Bool-cases (ltb q p)) [
  | inl e ↦ inl (ground arith)
  | inr e ↦ inr (ground arith)
]

module _ (dev : Device) (p : ℕ) (buf : List ℕ) (v : IsDevice dev) (h : p < dev.size_blocks)
    (e : length buf ≡ 512) where
  -- The block that was written is the one that is read.
  pub block_of-with_block_self : block_of (with_block dev p buf).drv_data p ≡ buf
  block_of-with_block_self =
      let dev' = with_block dev p buf in
      let v' = with_block-IsDevice dev p buf v h e in
      let len = length-block_of dev' p v' h in
      list_ext 0 (block_of dev'.drv_data p) buf (len ∙ sym e) λ i below.
        byte-block_of dev'.drv_data p i (omega (arith, len))
        ∙ splice_inside dev.drv_data (u32 (p * dev_block_size)) buf i
            (omega (arith, v.holds, v.small)) (omega (arith, len))

  -- No other block changes.
  pub block_of-with_block_ne :
      (q : ℕ)
      → q < dev.size_blocks
      → q ≢ p
      → block_of (with_block dev p buf).drv_data q ≡ block_of dev.drv_data q
  block_of-with_block_ne q k ne =
      let dev' = with_block dev p buf in
      let at_p : u32 (p * 512) ≡ p * 512 = omega (arith, v.small) in
      let at_q : u32 (q * 512) ≡ q * 512 = omega (arith, v.small) in
      let v' = with_block-IsDevice dev p buf v h e in
      let len = length-block_of dev' q v' k in
      list_ext 0 (block_of dev'.drv_data q) (block_of dev.drv_data q)
        (len ∙ sym (length-block_of dev q v k))
        λ i below.
          byte-block_of dev'.drv_data q i (omega (arith, len))
          ∙ splice_outside dev.drv_data (u32 (p * dev_block_size)) buf
              (u32 (q * dev_block_size) + i) (omega (arith, v.holds, v.small))
              (rw (at_p, at_q, e) (blocks_apart p q i ne (omega (arith, len))))
          ∙ sym (byte-block_of dev.drv_data q i (omega (arith, len)))
