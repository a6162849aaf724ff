-- ===== src/Dir/RootMix.antt =====
-- The root block as a parent: `adfCreateEntry` and `adfRenameEntry` (src/adf_dir.c) get it from
-- `adfReadEntryBlock`, and write it with `adfWriteRootBlock`.
use adflib.Prelude.{ℕ, ◌+◌, ◌*◌, ◌≤◌, ◌<◌, ◌≡◌, inl, inr, refl, ◌∙◌, arith, true, false, List, ◌==◌}
use adflib.Util.{byte, store32, swap_uint32_from_ptr}
use adflib.Raw.{swap_endian}
use adflib.Raw.Swap.{flip, in_long, length-swap_endian, load32-swap_endian}
use adflib.Err.{rc_ok, ok}
use adflib.Date.{AmigaTime}
use adflib.Vol.{Volume, vol_read_block}
use adflib.Vol.Blocks.{IsMounted, InVolume}
use adflib.Block.{Env, seal, st_root, read_entry_block, write_root_block, stamp_root}
use adflib.Block.Members.{load32-store32_ne}
use adflib.Block.Seal.{IsBlock, swap_endian-IsBytes}
use adflib.Block.Stamps.{store32-IsBlock, stamp_root-IsBlock}
use adflib.Block.Writing.{sealed_write, IsKind-root}
use adflib.Block.Mismatch.{seal-root_read_as_entry, byte-outside}
use adflib.Dir.Create.{dated, sec_type, write_parent}

-- The structure that is read, for a block of the root's type.
read_entry_block-root :
    (env : Env) (vol : Volume) (n : ℕ) (buf ent : List ℕ)
    → vol_read_block vol n ≡ ok buf
    → swap_uint32_from_ptr buf 508 ≡ st_root
    → read_entry_block env vol n ≡ ok ent
    → ent ≡ swap_endian buf 3
unfolding read_entry_block
read_entry_block-root env vol n buf ent e root got = ground (arith, e, root, got)

-- The members that are stored before the write leave the bitmap pointers.
module _ (ent : List ℕ) (b : IsBlock ent) (j : ℕ) (h : 328 ≤ j) (q : j < 420) where
  byte-stamp_root : byte (stamp_root ent) j ≡ byte ent j
  unfolding stamp_root
  byte-stamp_root =
      let m0 = store32 ent 0 2 in
      let b0 = store32-IsBlock ent 0 2 (omega arith) b in
      let m1 = store32 m0 4 0 in
      let b1 = store32-IsBlock m0 4 0 (omega arith) b0 in
      let m2 = store32 m1 8 0 in
      let b2 = store32-IsBlock m1 8 0 (omega arith) b1 in
      let m3 = store32 m2 12 72 in
      let b3 = store32-IsBlock m2 12 72 (omega arith) b2 in
      let m4 = store32 m3 16 0 in
      let b4 = store32-IsBlock m3 16 0 (omega arith) b3 in
      let m5 = store32 m4 496 0 in
      let b5 = store32-IsBlock m4 496 0 (omega arith) b4 in
      let m6 = store32 m5 500 0 in
      let b6 = store32-IsBlock m5 500 0 (omega arith) b5 in
      byte-outside m6 508 1 j b6 (omega arith) (inr (omega arith)) h q
      ∙ byte-outside m5 500 0 j b5 (omega arith) (inr (omega arith)) h q
      ∙ byte-outside m4 496 0 j b4 (omega arith) (inr (omega arith)) h q
      ∙ byte-outside m3 16 0 j b3 (omega arith) (inl (omega arith)) h q
      ∙ byte-outside m2 12 72 j b2 (omega arith) (inl (omega arith)) h q
      ∙ byte-outside m1 8 0 j b1 (omega arith) (inl (omega arith)) h q
      ∙ byte-outside m0 4 0 j b0 (omega arith) (inl (omega arith)) h q
      ∙ byte-outside ent 0 2 j b (omega arith) (inl (omega arith)) h q

  byte-dated : (now : AmigaTime) → byte (dated now ent) j ≡ byte ent j
  byte-dated now =
      let b1 = store32-IsBlock ent 420 now.day (omega arith) b in
      let b2 = store32-IsBlock _ 424 now.min (omega arith) b1 in
      byte-outside _ 428 now.ticks j b2 (omega arith) (inr (omega arith)) h q
      ∙ byte-outside _ 424 now.min j b1 (omega arith) (inr (omega arith)) h q
      ∙ byte-outside ent 420 now.day j b (omega arith) (inr (omega arith)) h q

dated-IsBlock : (ent : List ℕ) (now : AmigaTime) → IsBlock ent → IsBlock (dated now ent)
dated-IsBlock ent now b =
    store32-IsBlock _ 428 now.ticks (omega arith) (
      store32-IsBlock _ 424 now.min (omega arith) (store32-IsBlock ent 420 now.day (omega arith) b))

module _ (buf : List ℕ) (raw : IsBlock buf) where
  abbrev swapped : List ℕ
  swapped = swap_endian buf 3

  swapped-IsBlock : IsBlock swapped
  swapped-IsBlock = record {
    whole = length-swap_endian buf 3 (omega arith) (omega (arith, raw.whole)) ∙ raw.whole;
    bytes = swap_endian-IsBytes buf 3 (omega arith) (omega (arith, raw.whole)) raw.bytes;
  }

  sec_type-swapped : swap_uint32_from_ptr buf 508 ≡ st_root → sec_type swapped ≡ st_root
  unfolding in_long
  sec_type-swapped root =
      load32-swap_endian buf 3 508 (omega arith) (omega (arith, raw.whole)) raw.bytes refl refl
      ∙ root

-- What `adfCreateEntry` does to the root block as the parent. On a mounted volume that is not
-- read-only, whose root block on the disk is `buf`, of the root's secondary type: if
-- `adfReadEntryBlock` gives a structure of it, and a slot of the hash table in this is set, the write
-- of the parent succeeds, and each long of the bitmap pointers 3 to 24 and of the bitmap extension
-- pointer of the root block on the disk is then reversed: byte `i` of 328 to 419 is the mirrored byte
-- of the block before.
pub write_parent-read_entry_block :
    (env : Env) (now : AmigaTime) (vol : Volume) (buf ent : List ℕ) (hash new_sect : ℕ)
    → IsMounted vol
    → InVolume vol vol.root_block
    → vol.read_only ≡ false
    → vol_read_block vol vol.root_block ≡ ok buf
    → IsBlock buf
    → swap_uint32_from_ptr buf 508 ≡ st_root
    → read_entry_block env vol vol.root_block ≡ ok ent
    → hash < 72
    → let (vol', rc) = (write_parent now vol (store32 ent (24 + 4 * hash) new_sect)).0 in
      (rc ≡ rc_ok)
      × ((buf' : List ℕ) × (vol_read_block vol' vol.root_block ≡ ok buf')
          × ((i : ℕ) → 328 ≤ i → i < 420 → byte buf' i ≡ byte buf (flip i)))
unfolding write_parent write_root_block
write_parent-read_entry_block env now vol buf ent hash new_sect mounted inside rw_vol e raw root got
      small =
    let ent_eq = read_entry_block-root env vol vol.root_block buf ent e root got in
    let slot = 24 + 4 * hash in
    let read = swap_endian buf 3 in
    let b0 = swapped-IsBlock buf raw in
    let m1 = store32 read slot new_sect in
    let b1 = store32-IsBlock read slot new_sect (omega arith) b0 in
    let b2 = dated-IsBlock m1 now b1 in
    let m = stamp_root (dated now m1) in
    let b3 = stamp_root-IsBlock (dated now m1) b2 in
    let is_root : sec_type m1 ≡ st_root =
      load32-store32_ne read slot new_sect (omega (arith, b0.whole)) 508 (inr (omega arith))
      ∙ sec_type-swapped buf raw root in
    let kept = λ (j : ℕ) (h : 328 ≤ j) (q : j < 420).
      byte-stamp_root (dated now m1) b2 j h q
      ∙ byte-dated m1 b1 j h q now
      ∙ byte-outside read slot new_sect j b0 (omega arith) (inl (omega arith)) h q in
    let (w, back) = sealed_write vol vol.root_block mounted inside rw_vol 1 20 IsKind-root m b3 in
    let test : (sec_type m1 == st_root) ≡ true = ground (arith, is_root) in
    rw (ent_eq, test, w)
      (refl, (seal 1 20 m, back, λ i h q. seal-root_read_as_entry buf m i raw.whole b3 kept h q))
