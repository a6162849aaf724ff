-- ===== src/File/Freeing.antt =====
-- The blocks of a file are freed, src/adf_file_block.c `adfFreeFileBlocks`.
use adflib.Prelude.{
  ℕ, ◌-◌, ◌<◌, ◌≡◌, refl, ap, ◌∙◌, arith, true, List, [], ◌∷◌, ◌++◌, if◌then◌else◌, some,
}
use adflib.Err.{rc_ok}
use adflib.Vol.{Volume}
use adflib.Block.{Env}
use adflib.Bitmap.Marks.{IsBitmap, InBitmap, free_in, set_block_free_lem}
use adflib.Bitmap.Alloc.{mem, mem-append, AllInBitmap}
use adflib.File.Blocks.{set_all_free, free_file_blocks}
use adflib.File.Content.{Stored, file_size, IsStored, slice}
use adflib.File.Listing.{data_blocks, exten_blocks, IsCounted, get_file_blocks-ok}

-- `vol'` is `vol` with the blocks of the list free.
pub record IsFreed (vol vol' : Volume) (list : List ℕ) : Type 0 where
  pub rest : vol' ≡ record vol { bitmap = vol'.bitmap }
  pub well : IsBitmap vol'
  pub bits :
      (k : ℕ) → InBitmap vol k → free_in vol' k ≡ (if mem k list then true else free_in vol k)

pub set_all_free_lem :
    (vol : Volume) (list : List ℕ)
    → IsBitmap vol
    → AllInBitmap vol list
    → (vol' : Volume) × (set_all_free list vol ≡ some vol') × IsFreed vol vol' list
unfolding set_all_free mem
set_all_free_lem vol [] w h = (vol, refl, record { rest = refl; well = w; bits = λ k q. refl })
set_all_free_lem vol (n ∷ list) w h =
    let (vol1, e1, m1) = set_block_free_lem vol w n (h n (ground arith)) in
    let same = ap (λ v. v.last_block - v.first_block) m1.rest in
    let (vol2, e2, m2) =
      set_all_free_lem vol1 list m1.well (λ k q. rw same (h k (ground (arith, q)))) in
    (
      vol2,
      rw e1 e2,
      record {
        rest = m2.rest ∙ ap (λ (v : Volume). record v { bitmap = vol2.bitmap }) m1.rest;
        well = m2.well;
        bits = λ k q. ground (arith, m2.bits k (rw same q), m1.bits k q);
      },
    )

-- One list freed after another.
IsFreed-append :
    (vol vol1 vol2 : Volume) (xs ys : List ℕ)
    → IsFreed vol vol1 xs
    → IsFreed vol1 vol2 ys
    → IsFreed vol vol2 (xs ++ ys)
IsFreed-append vol vol1 vol2 xs ys f g =
    let same = ap (λ v. v.last_block - v.first_block) f.rest in
    record {
      rest = g.rest ∙ ap (λ (v : Volume). record v { bitmap = vol2.bitmap }) f.rest;
      well = g.well;
      bits = λ k q. ground (arith, f.bits k q, g.bits k (rw same q), mem-append xs ys k);
    }

abbrev pub file_sectors : Stored → List ℕ
file_sectors s = slice s.sect 0 (data_blocks s) ++ slice s.ext_sect 0 (exten_blocks s)

-- For a file with bytes, whose blocks are readable and linked as AmigaDOS links them and counted in
-- their arrays, on a volume whose bitmap covers it and has these blocks: `adfFreeFileBlocks` succeeds;
-- the data blocks and extension blocks of the file are then free, every other block is as before, and
-- nothing but the bitmap has changed.
pub free_file_blocks-ok :
    (env : Env) (s : Stored)
    → IsStored env s
    → IsCounted s
    → 0 < file_size s
    → IsBitmap s.vol
    → AllInBitmap s.vol (file_sectors s)
    → (vol' : Volume) × (free_file_blocks env s.vol s.hdr ≡ some (vol', rc_ok))
      × IsFreed s.vol vol' (file_sectors s)
unfolding free_file_blocks
free_file_blocks-ok env s st counted nonempty w inside =
    let xs = slice s.sect 0 (data_blocks s) in
    let ys = slice s.ext_sect 0 (exten_blocks s) in
    let listed = get_file_blocks-ok env s st counted nonempty in
    let (vol1, e1, f1) =
      set_all_free_lem s.vol xs w (λ k q. inside k (ground (arith, q, mem-append xs ys k))) in
    let same = ap (λ v. v.last_block - v.first_block) f1.rest in
    let (vol2, e2, f2) =
      set_all_free_lem vol1 ys f1.well
        (λ k q. rw same (inside k (ground (arith, q, mem-append xs ys k)))) in
    (vol2, rw (listed, e1, e2) refl, IsFreed-append s.vol vol1 vol2 xs ys f1 f2)
