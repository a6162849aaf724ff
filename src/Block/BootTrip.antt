-- ===== src/Block/BootTrip.antt =====
-- A boot block that was written is accepted by the reader, and comes back.
use adflib.Prelude.{
  ℕ, zero, suc, ◌+◌, ◌*◌, ◌^◌, ◌≤◌, ◌<◌, ◌≡◌, ◌⊎◌, inl, inr, refl, sym, ap, ◌∙◌, arith, Bool, false,
  not, ◌||◌, List, set, length, length-set, get_or-set, take, drop, length-take, length-drop,
  take-append-drop, ◌==◌, if◌then◌else◌, Bool-cases,
}
use adflib.Util.{byte, load32, swap_uint32_from_ptr, swap_uint32_to_ptr}
use adflib.Util.ByteOrder.{
  IsBytes, from_ptr-to_ptr, from_ptr-to_ptr_ne, length-swap_uint32_to_ptr,
  swap_uint32_to_ptr-IsBytes,
}
use adflib.Raw.{swap_endian, boot_sum, boot_sum_loop}
use adflib.Raw.Swap.{
  in_long, byte-swap_endian, length-swap_endian, load32-swap_endian, flip, long_at-flip, flip-flip,
}
use adflib.Err.{RetCode, rc_ok, ok}
use adflib.Vol.{Volume, vol_read_block, vol_write_block}
use adflib.Vol.Blocks.{
  IsMounted, InVolume, written, written-IsMounted, vol_write_block-ok, vol_write_block-read_block,
}
use adflib.Block.{Env}
use adflib.Block.Boot.{read_boot_block, stamp_boot, seal_boot, write_boot_block, boot_data}

boot_sum_loop-to_ptr :
    (buf : List ℕ) (val n i acc : ℕ)
    → 7 < length buf
    → boot_sum_loop (swap_uint32_to_ptr buf 4 val) n i acc ≡ boot_sum_loop buf n i acc
unfolding boot_sum_loop
boot_sum_loop-to_ptr buf val zero i acc h = refl
boot_sum_loop-to_ptr buf val (suc n) i acc h = elim (Bool-cases (i == 1)) [
  | inl e ↦ rw e (boot_sum_loop-to_ptr buf val n (i + 1) acc h)
  | inr e ↦
      let other = from_ptr-to_ptr_ne buf 4 val (i * 4) h (ground (arith, e)) in
      rw (e, other) (boot_sum_loop-to_ptr buf val n (i + 1) _ h)
]

-- The checksum does not depend on the long that it is stored in.
boot_sum-skips :
    (buf : List ℕ) (val : ℕ)
    → 7 < length buf
    → boot_sum (swap_uint32_to_ptr buf 4 val) ≡ boot_sum buf
unfolding boot_sum
boot_sum-skips buf val h = rw (boot_sum_loop-to_ptr buf val 256 0 0 h) refl

boot_sum-lt : (buf : List ℕ) → boot_sum buf < 2 ^ 32
unfolding boot_sum
boot_sum-lt buf = omega arith

-- A boot block in memory.
pub record IsBoot (boot : List ℕ) : Type 0 where
  pub whole : length boot ≡ 1024
  pub bytes : IsBytes boot

module _ (boot : List ℕ) (b : IsBoot boot) where
  stamp_boot-bytes :
      (i : ℕ)
      → byte (stamp_boot boot) i
        ≡ (if i == 2 then 83 else if i == 1 then 79 else if i == 0 then 68 else byte boot i)
  unfolding stamp_boot
  stamp_boot-bytes i = ground (
    arith,
    b.whole,
    length-set boot 0 68,
    length-set (set boot 0 68) 1 79,
    get_or-set boot 0 i 68 0,
    get_or-set (set boot 0 68) 1 i 79 0,
    get_or-set (set (set boot 0 68) 1 79) 2 i 83 0,
  )

  stamp_boot-IsBoot : IsBoot (stamp_boot boot)
  unfolding stamp_boot
  stamp_boot-IsBoot = record {
    whole =
        length-set (set (set boot 0 68) 1 79) 2 83
        ∙ length-set (set boot 0 68) 1 79
        ∙ length-set boot 0 68
        ∙ b.whole;
    bytes = λ i. ground (arith, stamp_boot-bytes i, b.bytes i);
  }

  -- The swapped bytes.
  swapped-IsBoot : IsBoot (swap_endian boot 0)
  swapped-IsBoot =
      let big : 1024 ≤ length boot = omega (arith, b.whole) in
      record {
        whole = length-swap_endian boot 0 (omega arith) big ∙ b.whole;
        bytes = λ i.
            ground
              (arith, byte-swap_endian boot 0 (omega arith) big i, b.bytes i, b.bytes (flip i));
      }

  -- Whether a checksum is stored.
  abbrev summed : Bool
  summed = (load32 boot 8 == 880) || not (boot_data boot == 0)

  seal_boot-IsBoot : IsBoot (seal_boot boot)
  unfolding seal_boot
  seal_boot-IsBoot =
      let buf = swap_endian boot 0 in
      let s = swapped-IsBoot in
      elim (Bool-cases summed) [
        | inl e ↦ rw e (record {
          whole = length-swap_uint32_to_ptr buf 4 (boot_sum buf) ∙ s.whole;
          bytes = swap_uint32_to_ptr-IsBytes buf 4 (boot_sum buf) (omega (arith, s.whole)) s.bytes;
        })
        | inr e ↦ rw e s
      ]

  seal_boot-byte :
      (i : ℕ) → (i < 4) ⊎ (7 < i) → byte (seal_boot boot) i ≡ byte (swap_endian boot 0) i
  unfolding seal_boot
  seal_boot-byte i out =
      let buf = swap_endian boot 0 in
      let s = swapped-IsBoot in
      let sum = boot_sum buf in
      elim (Bool-cases summed) [
        | inl e ↦
            rw e (
              (from_ptr-to_ptr buf 4 sum (omega (arith, s.whole)) s.bytes (boot_sum-lt buf)).1 i
                out)
        | inr e ↦ rw e refl
      ]

  unsealed_boot-byte :
      (i : ℕ) → (i < 4) ⊎ (7 < i) → byte (swap_endian (seal_boot boot) 0) i ≡ byte boot i
  unsealed_boot-byte i out =
      let s = seal_boot-IsBoot in
      let big : 1024 ≤ length boot = omega (arith, b.whole) in
      let big' : 1024 ≤ length (seal_boot boot) = omega (arith, s.whole) in
      let out' : (flip i < 4) ⊎ (7 < flip i) = ground (arith, out) in
      ground (
        arith,
        byte-swap_endian (seal_boot boot) 0 (omega arith) big' i,
        seal_boot-byte i out,
        seal_boot-byte (flip i) out',
        byte-swap_endian boot 0 (omega arith) big i,
        byte-swap_endian boot 0 (omega arith) big (flip i),
        long_at-flip 0 i (omega arith),
        flip-flip i,
      )

  -- With boot code, the sum is the one that the reader computes.
  unsealed_boot-sum :
      (boot_data boot == 0) ≡ false
      → load32 (swap_endian (seal_boot boot) 0) 4 ≡ boot_sum (seal_boot boot)
  unfolding seal_boot in_long
  unsealed_boot-sum code =
      let buf = swap_endian boot 0 in
      let s = swapped-IsBoot in
      let sum = boot_sum buf in
      let has_sum : seal_boot boot ≡ swap_uint32_to_ptr buf 4 sum = ground (arith, code) in
      let b' = seal_boot-IsBoot in
      load32-swap_endian (seal_boot boot) 0 4 (omega arith) (omega (arith, b'.whole)) b'.bytes refl
        refl
      ∙ ap (λ (m : List ℕ). swap_uint32_from_ptr m 4) has_sum
      ∙ (from_ptr-to_ptr buf 4 sum (omega (arith, s.whole)) s.bytes (boot_sum-lt buf)).0
      ∙ sym (boot_sum-skips buf sum (omega (arith, s.whole)))
      ∙ ap boot_sum (sym has_sum)

-- What the reader makes of the two halves of a sealed block.
read_halves :
    (env : Env) (vol : Volume) (boot : List ℕ)
    → IsBoot boot
    → byte boot 0 ≡ 68
    → byte boot 1 ≡ 79
    → byte boot 2 ≡ 83
    → vol_read_block vol 0 ≡ ok (take 512 (seal_boot boot))
    → vol_read_block vol 1 ≡ ok (drop 512 (seal_boot boot))
    → read_boot_block env vol ≡ ok (swap_endian (seal_boot boot) 0)
unfolding read_boot_block
read_halves env vol boot b d o s r0 r1 =
    let buf = seal_boot boot in
    let joined = take-append-drop 512 buf in
    let back = unsealed_boot-byte boot b in
    let d' = back 0 (inl (omega arith)) ∙ d in
    let o' = back 1 (inl (omega arith)) ∙ o in
    let s' = back 2 (inl (omega arith)) ∙ s in
    let code = back 12 (inr (omega arith)) in
    rw (r0, r1, joined)
      (elim (Bool-cases (boot_data boot == 0)) [
        | inl e ↦ ground (arith, d', o', s', code, e)
        | inr e ↦ ground (arith, d', o', s', code, e, unsealed_boot-sum boot b e)
      ])

-- The boot block that the reader gives: the structure, but for the checksum.
abbrev pub SameBoot : List ℕ → List ℕ → Type 0
SameBoot boot boot' = (i : ℕ) → (i < 4) ⊎ (7 < i) → byte boot' i ≡ byte boot i

-- On a mounted volume of at least two blocks that is not read-only, `adfWriteBootBlock` of any
-- structure of 1024 bytes succeeds, and `adfReadBootBlock` then accepts what was written, checksum
-- included if there is boot code, and gives the structure with the id "DOS" stamped, equal but for the
-- checksum.
pub write_boot_block-read :
    (env : Env) (vol : Volume) (boot : List ℕ)
    → IsMounted vol
    → InVolume vol 1
    → vol.read_only ≡ false
    → IsBoot boot
    → let (vol', rc) = write_boot_block vol boot in
      (rc ≡ rc_ok)
      × ((boot' : List ℕ) × (read_boot_block env vol' ≡ ok boot')
          × SameBoot (stamp_boot boot) boot')
unfolding write_boot_block
write_boot_block-read env vol boot m h w b =
    let stamped = stamp_boot boot in
    let b1 = stamp_boot-IsBoot boot b in
    let buf = seal_boot stamped in
    let whole = (seal_boot-IsBoot stamped b1).whole in
    let low = take 512 buf in
    let high = drop 512 buf in
    let half0 : length low ≡ 512 = omega (arith, length-take 512 buf, whole) in
    let half1 : length high ≡ 512 = omega (arith, length-drop 512 buf, whole) in
    let vol1 = written vol 0 low in
    let wrote0 = vol_write_block-ok vol m 0 low (omega arith) half0 w in
    let m1 = written-IsMounted vol m 0 low (omega arith) half0 in
    let first = vol_write_block-read_block vol 0 low m (omega arith) half0 w in
    let was0 : vol_read_block vol1 0 ≡ ok low =
      sym (ap (λ (r : Volume × RetCode). vol_read_block r.0 0) wrote0) ∙ first.1 in
    let wrote1 = vol_write_block-ok vol1 m1 1 high h half1 w in
    let second = vol_write_block-read_block vol1 1 high m1 h half1 w in
    let r0 = second.2 0 (omega arith) (omega arith) ∙ was0 in
    let stays = stamp_boot-bytes boot b in
    let accepted =
      read_halves env (vol_write_block vol1 1 high).0 stamped b1 (stays 0) (stays 1) (stays 2) r0
        second.1 in
    let both : write_boot_block vol boot ≡ vol_write_block vol1 1 high = ground (arith, wrote0) in
    rw both (second.0, (swap_endian buf 0, accepted, unsealed_boot-byte stamped b1))
