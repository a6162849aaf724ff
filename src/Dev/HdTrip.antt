-- ===== src/Dev/HdTrip.antt =====
-- Blocks of hard disks: a partition that was written is accepted by the reader, and comes back.
use adflib.Prelude.{
  ℕ, zero, suc, ◌+◌, ◌≤◌, ◌<◌, ◌≡◌, ◌⊎◌, inl, inr, refl, ap, ◌∙◌, arith, Bool, true, false, List,
  length, take, ltb, if◌then◌else◌,
}
use adflib.Util.{byte, u32, load32, store32}
use adflib.Util.ByteOrder.{IsBytes}
use adflib.Raw.{swap_endian}
use adflib.Raw.Swap.{in_long, long_at}
use adflib.Err.{rc_ok, rc_error, ok}
use adflib.Dev.{Device, dev_read_block, dev_write_block, ramdisk_read_sectors, splice}
use adflib.Dev.Blocks.{
  IsDevice, block_of, with_block, dev_write_block-eq, byte-splice, length-splice,
  with_block-IsDevice, block_of-with_block_self,
}
use adflib.Dev.HdBlocks.{
  seal_hd, part_id, stamp_part, has_id, check_sum, read_part_block, write_part_block,
}
use adflib.Block.{Env}
use adflib.Block.Members.{
  length-store32, byte-store32, store32-IsBytes, load32-store32_self, load32-store32_ne,
}
use adflib.Dev.HdSeal.{IsHdBlock, length-seal_hd, unsealed_byte, disk_sum}

part_id-IsBytes : IsBytes part_id
part_id-IsBytes zero = omega arith
part_id-IsBytes (suc zero) = omega arith
part_id-IsBytes (suc (suc zero)) = omega arith
part_id-IsBytes (suc (suc (suc zero))) = omega arith
part_id-IsBytes (suc (suc (suc (suc i)))) = omega arith

module _ (dev : Device) (p : ℕ) (v : IsDevice dev) (h : p < dev.size_blocks) where
  dev_read_block_half : dev_read_block dev p 256 ≡ ok (take 256 (block_of dev.drv_data p))
  unfolding dev_read_block ramdisk_read_sectors
  dev_read_block_half =
      let at : u32 (p + 0) ≡ p = ground (arith, v.small) in
      let one : ltb dev.size_blocks (u32 (p + 1)) ≡ false = ground (arith, v.small) in
      let none : ltb dev.size_blocks p ≡ false = ground arith in rw (at, none, one) refl

  -- The device after a block was written to it.
  dev_write_block_whole :
      (buf : List ℕ)
      → length buf ≡ 512
      → dev_write_block dev p 512 buf ≡ (with_block dev p buf, rc_ok)
  dev_write_block_whole buf e =
      let one : ltb dev.size_blocks (u32 (p + 1)) ≡ false = ground (arith, v.small) in
      dev_write_block-eq dev p v buf e ∙ rw one refl

store32-IsHdBlock :
    (m : List ℕ) (p val : ℕ) → p + 3 < 256 → IsHdBlock m → IsHdBlock (store32 m p val)
store32-IsHdBlock m p val h b = record {
  whole = length-store32 m p val ∙ b.whole;
  bytes = store32-IsBytes m p val (omega (arith, b.whole)) b.bytes;
}

module _ (part : List ℕ) (b : IsHdBlock part) where
  abbrev named : List ℕ
  named = splice part 0 part_id

  byte-named : (i : ℕ) → byte named i ≡ (if ltb i 4 then byte part_id i else byte part i)
  byte-named i = ground (arith, byte-splice part 0 part_id i (omega (arith, b.whole)))

  named-IsHdBlock : IsHdBlock named
  named-IsHdBlock = record {
    whole = length-splice part 0 part_id (omega (arith, b.whole)) ∙ b.whole;
    bytes = λ i. ground (arith, byte-named i, b.bytes i, part_id-IsBytes i);
  }

  stamp_part-IsHdBlock : IsHdBlock (stamp_part part)
  unfolding stamp_part
  stamp_part-IsHdBlock =
      let b1 = store32-IsHdBlock named 4 64 (omega arith) named-IsHdBlock in
      let b2 = store32-IsHdBlock _ 128 16 (omega arith) b1 in
      let b3 = store32-IsHdBlock _ 132 128 (omega arith) b2 in
      let b4 = store32-IsHdBlock _ 144 1 (omega arith) b3 in
      store32-IsHdBlock _ 152 2 (omega arith) b4

  stamp_part_named : (i : ℕ) → i < 4 → byte (stamp_part part) i ≡ byte part_id i
  unfolding stamp_part
  stamp_part_named i h =
      let m1 = store32 named 4 64 in
      let m2 = store32 m1 128 16 in
      let m3 = store32 m2 132 128 in
      let m4 = store32 m3 144 1 in
      let b1 = store32-IsHdBlock named 4 64 (omega arith) named-IsHdBlock in
      let b2 = store32-IsHdBlock m1 128 16 (omega arith) b1 in
      let b3 = store32-IsHdBlock m2 132 128 (omega arith) b2 in
      let b4 = store32-IsHdBlock m3 144 1 (omega arith) b3 in
      ground (
        arith,
        byte-store32 m4 152 2 i (omega (arith, b4.whole)),
        byte-store32 m3 144 1 i (omega (arith, b3.whole)),
        byte-store32 m2 132 128 i (omega (arith, b2.whole)),
        byte-store32 m1 128 16 i (omega (arith, b1.whole)),
        byte-store32 named 4 64 i (omega (arith, named-IsHdBlock.whole)),
        byte-named i,
      )

  stamp_part_size : load32 (stamp_part part) 132 ≡ 128
  unfolding stamp_part
  stamp_part_size =
      let m1 = store32 named 4 64 in
      let m2 = store32 m1 128 16 in
      let m3 = store32 m2 132 128 in
      let m4 = store32 m3 144 1 in
      let b1 = store32-IsHdBlock named 4 64 (omega arith) named-IsHdBlock in
      let b2 = store32-IsHdBlock m1 128 16 (omega arith) b1 in
      let b3 = store32-IsHdBlock m2 132 128 (omega arith) b2 in
      let b4 = store32-IsHdBlock m3 144 1 (omega arith) b3 in
      load32-store32_ne m4 152 2 (omega (arith, b4.whole)) 132 (inl (omega arith))
      ∙ load32-store32_ne m3 144 1 (omega (arith, b3.whole)) 132 (inl (omega arith))
      ∙ load32-store32_self m2 132 128 (omega (arith, b2.whole)) (omega arith)

-- The same structure but for the checksum.
abbrev pub SameHd : List ℕ → List ℕ → Type 0
SameHd blk blk' = (i : ℕ) → i < 256 → (i < 8) ⊎ (11 < i) → byte blk' i ≡ byte blk i

load32_same :
    (blk blk' : List ℕ) (p : ℕ)
    → p + 3 < 256
    → ((i : ℕ) → i < 256 → p ≤ i → byte blk' i ≡ byte blk i)
    → load32 blk' p ≡ load32 blk p
unfolding load32
load32_same blk blk' p h same = ground (
  arith,
  same p (omega arith) (omega arith),
  same (p + 1) (omega arith) (omega arith),
  same (p + 2) (omega arith) (omega arith),
  same (p + 3) (omega arith) (omega arith),
)

part_long : long_at 9 8 ≡ true
unfolding in_long
part_long = refl

-- What the reader makes of a sealed block.
read_sealed :
    (env : Env) (dev : Device) (p : ℕ) (blk : List ℕ) (b : IsHdBlock blk)
    → IsDevice dev
    → p < dev.size_blocks
    → block_of dev.drv_data p ≡ seal_hd blk 9
    → ((i : ℕ) → i < 4 → byte blk i ≡ byte part_id i)
    → load32 blk 132 ≡ 128
    → read_part_block env dev p ≡ ok (swap_endian (take 256 (seal_hd blk 9)) 9)
unfolding read_part_block has_id check_sum
read_sealed env dev p blk b v h e id size =
    let at = unsealed_byte blk 9 b (omega arith) refl in
    let blk' = swap_endian (take 256 (seal_hd blk 9)) 9 in
    let got = dev_read_block_half dev p v h ∙ ap (λ m. ok (take 256 m)) e in
    let sum = disk_sum blk 9 b (omega arith) refl part_long in
    let is = λ (i : ℕ) (q : i < 4). at i (omega arith) (inl (omega arith)) ∙ id i q in
    let size' : load32 blk' 132 ≡ 128 =
      load32_same blk blk' 132 (omega arith) (λ i q k. at i q (inr (omega arith))) ∙ size in
    rw got (ground (arith, is 0, is 1, is 2, is 3, size', sum))

-- On a device that is not read-only, at one of its blocks, `adfWritePARTblock` of any structure of 256
-- bytes succeeds, and `adfReadPARTblock` then accepts what was written, checksum included, and gives
-- the structure with the members that the writer sets, equal but for the checksum. The writer sums 512
-- bytes, the reader 256.
pub write_part_block-read :
    (env : Env) (dev : Device) (p : ℕ) (part : List ℕ)
    → IsDevice dev
    → p < dev.size_blocks
    → dev.read_only ≡ false
    → IsHdBlock part
    → let (dev', rc) = write_part_block dev p part in
      (rc ≡ rc_ok)
      × ((part' : List ℕ) × (read_part_block env dev' p ≡ ok part')
          × SameHd (stamp_part part) part')
unfolding write_part_block
write_part_block-read env dev p part v h w b =
    let s = stamp_part part in
    let sb = stamp_part-IsHdBlock part b in
    let sealed = seal_hd s 9 in
    let whole = length-seal_hd s 9 sb (omega arith) refl in
    let wrote : write_part_block dev p part ≡ (with_block dev p sealed, rc_ok) =
      ap (λ (r : Bool). if r then (dev, rc_error) else dev_write_block dev p 512 sealed) w
      ∙ dev_write_block_whole dev p v h sealed whole in
    let dev' = with_block dev p sealed in
    let read =
      read_sealed env dev' p s sb (with_block-IsDevice dev p sealed v h whole) h
        (block_of-with_block_self dev p sealed v h whole) (stamp_part_named part b)
        (stamp_part_size part b) in
    let blk' = swap_endian (take 256 sealed) 9 in
    rw wrote (refl, (blk', read, unsealed_byte s 9 sb (omega arith) refl))
