-- ===== src/Vol/Blocks.antt =====
-- Reading and writing blocks of a volume: a volume's blocks are an array of their own, writes reach no
-- block of the device outside the volume, and every refusal leaves the device alone.
use adflib.Prelude.{
  ℕ, ◌+◌, ◌-◌, ◌^◌, ◌≤◌, ◌<◌, ◌≡◌, ◌≢◌, ◌⊎◌, ◌↔◌, refl, sym, ◌∙◌, arith, ap, List, length, true,
  false, ltb,
}
use adflib.Util.{u32}
use adflib.Err.{rc_ok, rc_error, rc_blockoutofrange, ok, err}
use adflib.Dev.Blocks.{
  IsDevice, block_of, with_block, with_block-IsDevice, dev_read_block-eq, dev_write_block-eq,
  block_of-with_block_self, block_of-with_block_ne,
}
use adflib.Vol.{Volume, vol_read_block, vol_write_block, vol_is_sect_num_valid}

-- A mounted volume that lies on its device.
pub record IsMounted (vol : Volume) : Type 0 where
  pub device : IsDevice vol.dev
  pub is_mounted : vol.mounted ≡ true
  pub ordered : vol.first_block ≤ vol.last_block
  pub inside : vol.last_block < vol.dev.size_blocks

-- The blocks of the volume, as `adfVolIsSectNumValid` has it.
abbrev pub InVolume : Volume → ℕ → Type 0
InVolume vol n = n ≤ vol.last_block - vol.first_block

-- The bytes of block `n`.
abbrev pub content : Volume → ℕ → List ℕ
content vol n = block_of vol.dev.drv_data (n + vol.first_block)

-- On a mounted volume `adfVolIsSectNumValid` accepts exactly the numbers of the blocks of the volume.
pub vol_is_sect_num_valid_iff :
    (vol : Volume) (n : ℕ) → IsMounted vol → (vol_is_sect_num_valid vol n ≡ true) ↔ InVolume vol n
unfolding vol_is_sect_num_valid
vol_is_sect_num_valid_iff vol n m =
    (λ h. ground (arith, m.device, m.inside), λ h. ground (arith, m.device.small, m.inside))

module _ (vol : Volume) (m : IsMounted vol) where
  pub vol_read_block-ok : (n : ℕ) → InVolume vol n → vol_read_block vol n ≡ ok (content vol n)
  unfolding vol_read_block
  vol_read_block-ok n h =
      let small = m.device.small in
      let inside = m.inside in
      let ordered = m.ordered in
      let place : u32 (n + vol.first_block) ≡ n + vol.first_block = omega arith in
      let dev = dev_read_block-eq vol.dev (n + vol.first_block) m.device in
      let fits : ltb vol.dev.size_blocks (u32 (n + vol.first_block + 1)) ≡ false = ground arith in
      ground (arith, dev, fits, m.is_mounted)

  pub vol_read_block-out :
      (n : ℕ) → ¬ InVolume vol n → n < 2 ^ 32 → vol_read_block vol n ≡ err rc_blockoutofrange
  unfolding vol_read_block
  vol_read_block-out n h k =
      let small = m.device.small in let inside = m.inside in ground (arith, m.is_mounted, m.ordered)

-- The volume after a write of block `n`.
abbrev pub written : Volume → ℕ → List ℕ → Volume
written vol n buf = record vol { dev = with_block vol.dev (n + vol.first_block) buf }

module _ (vol : Volume) (m : IsMounted vol) (n : ℕ) (buf : List ℕ) where
  pub vol_write_block-ok :
      InVolume vol n
      → length buf ≡ 512
      → vol.read_only ≡ false
      → vol_write_block vol n buf ≡ (written vol n buf, rc_ok)
  unfolding vol_write_block
  vol_write_block-ok h e rw_vol =
      let small = m.device.small in
      let inside = m.inside in
      let ordered = m.ordered in
      let place : u32 (n + vol.first_block) ≡ n + vol.first_block = omega arith in
      let dev = dev_write_block-eq vol.dev (n + vol.first_block) m.device buf e in
      let fits : ltb vol.dev.size_blocks (u32 (n + vol.first_block + 1)) ≡ false = ground arith in
      ground (arith, dev, fits, m.is_mounted)

  -- On a mounted volume, a write to a 32-bit block number that is outside the volume, or to a volume
  -- that is read-only, is refused with `ADF_RC_ERROR` or `ADF_RC_BLOCKOUTOFRANGE` and changes nothing.
  pub vol_write_block-refused :
      n < 2 ^ 32
      → (vol.read_only ≡ true) ⊎ (¬ InVolume vol n)
      → (vol_write_block vol n buf ≡ (vol, rc_error))
        ⊎ (vol_write_block vol n buf ≡ (vol, rc_blockoutofrange))
  unfolding vol_write_block
  vol_write_block-refused k why =
      let small = m.device.small in let inside = m.inside in ground (arith, m.is_mounted, m.ordered)

  pub written-IsMounted : InVolume vol n → length buf ≡ 512 → IsMounted (written vol n buf)
  written-IsMounted h e = record {
    device =
        with_block-IsDevice vol.dev (n + vol.first_block) buf m.device
          (omega (arith, m.inside, m.ordered)) e;
    is_mounted = m.is_mounted;
    ordered = m.ordered;
    inside = m.inside;
  }

-- On a mounted volume that is not read-only, on a device of at most 4 GiB, a write of a whole block
-- inside the volume succeeds; the block then reads back as it was written, every other block of the
-- volume as before, the volume is still mounted, and no block of the device outside the volume
-- changes.
pub vol_write_block-read_block :
    (vol : Volume) (n : ℕ) (buf : List ℕ)
    → IsMounted vol
    → InVolume vol n
    → length buf ≡ 512
    → vol.read_only ≡ false
    → let (vol', rc) = vol_write_block vol n buf in
      (rc ≡ rc_ok)
      × (vol_read_block vol' n ≡ ok buf)
      × ((k : ℕ) → InVolume vol k → k ≢ n → vol_read_block vol' k ≡ vol_read_block vol k)
      × IsMounted vol'
      × ((p : ℕ)
          → p < vol.dev.size_blocks
          → (p < vol.first_block) ⊎ (vol.last_block < p)
          → block_of vol'.dev.drv_data p ≡ block_of vol.dev.drv_data p)
vol_write_block-read_block vol n buf m h e w = rw (vol_write_block-ok vol m n buf h e w) (
  refl,
  vol_read_block-ok (written vol n buf) m' n h
      ∙ ap ok (block_of-with_block_self vol.dev p buf m.device q e),
  (λ k hk ne.
      vol_read_block-ok (written vol n buf) m' k hk
      ∙ ap ok (
          block_of-with_block_ne vol.dev p buf m.device q e (k + vol.first_block)
            (omega (arith, m.inside, m.ordered)) (λ z. ne (omega arith)))
      ∙ sym (vol_read_block-ok vol m k hk)),
  m',
  λ k hk out.
      block_of-with_block_ne vol.dev p buf m.device q e k hk
        (λ z. absurd (omega (arith, m.ordered))),
)
  where
    p : ℕ
    p = n + vol.first_block

    q : p < vol.dev.size_blocks
    q = omega (arith, m.inside, m.ordered)

    m' : IsMounted (written vol n buf)
    m' = written-IsMounted vol m n buf h e
