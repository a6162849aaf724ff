-- ===== src/Tests/Changes.antt =====
-- The file of Tests.Opening gets other access bits; a boot block is written.
use adflib.Prelude.{
  ℕ, zero, suc, ◌≡◌, refl, inl, arith, Bool, true, false, ◌&&◌, List, [], ◌∷◌, ltb, some, replicate,
  length-replicate, get_or-replicate,
}
use adflib.Util.{load32, swap_uint32_at_ptr}
use adflib.Util.ByteOrder.{IsBytes}
use adflib.Raw.{swap_endian, swap_els, swap_items, swap_one}
use adflib.Raw.Swap.{length-swap_endian}
use adflib.Err.{rc_ok, ok}
use adflib.Vol.{Volume, vol_has_dircache, dos_fs_has_dircache}
use adflib.Vol.Blocks.{IsMounted}
use adflib.Block.{read_entry_block}
use adflib.Block.Boot.{read_boot_block, write_boot_block, stamp_boot}
use adflib.Block.BootTrip.{SameBoot, write_boot_block-read}
use adflib.Block.Seal.{IsBlock, swap_endian-IsBytes}
use adflib.Dir.Create.{sec_type}
use adflib.Dir.Rename.{set_entry_access}
use adflib.Dir.Changed.{Changeable, SameRest, set_entry_access-read}
use adflib.Tests.Volumes.{ten_blocks, ten_blocks-IsMounted}
use adflib.Tests.Opening.{
  volume, setting, hdr, dir, name_a, entry_a, header_block, read_dir, found_a,
}

every_byte : List ℕ → Bool
every_byte [] = true
every_byte (c ∷ m) = ltb c 256 && every_byte m

every_byte-IsBytes : (m : List ℕ) → every_byte m ≡ true → IsBytes m
unfolding every_byte
every_byte-IsBytes [] h i = omega arith
every_byte-IsBytes (c ∷ m) h zero = ground (arith, h)
every_byte-IsBytes (c ∷ m) h (suc i) = every_byte-IsBytes m (ground (arith, h)) i

header_bytes : every_byte header_block ≡ true
unfolding every_byte
header_bytes = refl

hdr-IsBlock : IsBlock hdr
hdr-IsBlock = record {
  whole = length-swap_endian header_block 3 (omega arith) (omega arith);
  bytes =
      swap_endian-IsBytes header_block 3 (omega arith) (omega arith)
        (every_byte-IsBytes header_block header_bytes);
}

volume-IsMounted : IsMounted volume
volume-IsMounted = record {
  device = record { holds = refl; small = omega arith };
  is_mounted = refl;
  ordered = omega arith;
  inside = omega arith;
}

entry_a-Changeable : Changeable setting volume 5 name_a entry_a
unfolding load32 swap_endian swap_els swap_items swap_one swap_uint32_at_ptr vol_has_dircache
    dos_fs_has_dircache
entry_a-Changeable = record {
  mounted = volume-IsMounted;
  inside = omega arith;
  writable = refl;
  cacheless = refl;
  parent = dir;
  parent_read = read_dir;
  is_there = found_a;
  whole = hdr-IsBlock;
  kind = inl refl;
}

set_entry_access-read_example :
    (vol' : Volume) × (m' : List ℕ) × (set_entry_access setting volume 5 name_a 240
      ≡ some (vol', rc_ok))
    × (read_entry_block setting.env vol' 4 ≡ ok m')
    × (load32 m' 320 ≡ 240)
    × (sec_type m' ≡ sec_type hdr)
    × SameRest hdr m'
set_entry_access-read_example =
    set_entry_access-read setting volume 5 name_a entry_a 240 entry_a-Changeable (omega arith)

abbrev boot_nines : List ℕ
boot_nines = replicate 1024 9

write_boot_block-read_example :
    let (vol', rc) = write_boot_block ten_blocks boot_nines in
    (rc ≡ rc_ok)
    × ((boot' : List ℕ) × (read_boot_block (record { ignore_checksum_errors = false }) vol'
          ≡ ok boot')
        × SameBoot (stamp_boot boot_nines) boot')
write_boot_block-read_example =
    write_boot_block-read (record { ignore_checksum_errors = false }) ten_blocks boot_nines
      ten_blocks-IsMounted (omega arith) refl
      (record {
        whole = length-replicate {A = ℕ} 1024 9;
        bytes = λ i. ground (arith, get_or-replicate {A = ℕ} 1024 9 i 0);
      })
