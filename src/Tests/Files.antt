-- ===== src/Tests/Files.antt =====
-- A deleted file of 600 bytes in two blocks, and the theorems on files for it.
use adflib.Prelude.{
  ℕ, zero, suc, ◌+◌, ◌-◌, ◌*◌, ◌<◌, ◌≡◌, ◌≢◌, inr, refl, sym, min, max, ◌^◌, arith, true, false,
  List, [], ◌∷◌, ◌++◌, length, length-replicate, replicate, none, some, get_or, ap, ap₂, ◌∙◌,
}
use adflib.Util.{load32, store32}
use adflib.Err.{rc_ok, ok}
use adflib.Vol.{Volume, dos, vol_read_block, vol_is_ofs, dos_fs_is_ofs, dos_fs_is_ffs}
use adflib.Dev.{dev_read_block, ramdisk_read_sectors}
use adflib.Block.{Env, read_data_block}
use adflib.Bitmap.{n_block2bitmap_size}
use adflib.Bitmap.Marks.{IsBitmap, InBitmap}
use adflib.Bitmap.Alloc.{mem}
use adflib.Cache.Chain.{header_key, find_record}
use adflib.Cache.Ends.{find_record_ends}
use adflib.File.{file_size2_datablocks, file_size2_extblocks, file_datablocks2_extblocks}
use adflib.File.Blocks.{high_seq, get_file_blocks, free_file_blocks}
use adflib.File.Listing.{data_blocks, exten_blocks, IsCounted, get_file_blocks-ok}
use adflib.File.Freeing.{IsFreed, file_sectors, free_file_blocks-ok}
use adflib.File.Handle.{AdfFile, Context, byte_size, file_read}
use adflib.File.Seek.{file_seek, seek_depth}
use adflib.File.Content.{
  Stored, block_size, file_size, HasBlock, IsStored, content, slice, IsReader,
}
use adflib.File.Write.{file_write}
use adflib.File.WriteBack.{HasRoom, file_read-file_write}
use adflib.File.Reading.{file_read-ok}
use adflib.File.Seeking.{file_seek-ok, file_read-file_seek, file_seek-block_start}

-- The root of the volume.
abbrev parent_block : List ℕ
parent_block = 0 ∷ 0 ∷ 0 ∷ 2 ∷ (replicate 504 0 ++ (0 ∷ 0 ∷ 0 ∷ 1 ∷ []))

-- The blocks 3, 4 and 7 are free.
abbrev pub small_volume : Volume
small_volume = record {
  dev = record {
    read_only = false;
    size_blocks = 10;
    drv_data =
        replicate 1536 0
        ++ (replicate 512 7 ++ (replicate 512 8 ++ (parent_block ++ replicate 2048 0)));
  };
  first_block = 0;
  last_block = 9;
  root_block = 5;
  fs_id = dos;
  fs_type = 1;
  read_only = false;
  datablock_size = 512;
  mounted = true;
  bitmap = record {
    size = 1;
    blocks = 6 ∷ [];
    table = (38 ∷ replicate 126 0) ∷ [];
    blocks_chg = false ∷ [];
  };
  cur_dir_ptr = 5;
}

-- The size, the first block, the two blocks in the table, its own block and its parent.
abbrev pub small_header : List ℕ
small_header =
    let counted = store32 (store32 (replicate 512 0) 8 2) 324 600 in
    let named = store32 (store32 (store32 counted 16 3) 308 3) 304 4 in
    store32 (store32 named 4 7) 500 5

abbrev sevens_eights : ℕ → List ℕ
sevens_eights zero = replicate 512 7
sevens_eights (suc k) = replicate 512 8

abbrev pub small : Stored
small = record {
  vol = small_volume;
  hdr = small_header;
  sect = λ k. k + 3;
  block = sevens_eights;
  ext_sect = λ e. 1;
  ext = λ e. [];
}

abbrev pub strict : Env
strict = record { ignore_checksum_errors = false }

abbrev here : Context
here = record { env = strict; now = record { day = 0; min = 0; ticks = 0 }; fresh = []; chain = 0 }

pub small_size : file_size small ≡ 600
unfolding load32 store32
small_size = refl

small_header-length : length small_header ≡ 512
unfolding store32
small_header-length = refl

two_blocks : (k : ℕ) → HasBlock small k → k < 2
two_blocks k has = omega (arith, small_size, has)

small_data : (k : ℕ) → k < 2 → read_data_block strict small_volume (k + 3) ≡ ok (sevens_eights k)
unfolding read_data_block vol_read_block dev_read_block ramdisk_read_sectors vol_is_ofs
    dos_fs_is_ofs
small_data zero h = refl
small_data (suc zero) h = refl
small_data (suc (suc k)) h = absurd (omega arith)

small_first : (k : ℕ) → k < 2 → load32 small_header (24 + 4 * (71 - k)) ≡ k + 3
unfolding load32 store32
small_first zero h = refl
small_first (suc zero) h = refl
small_first (suc (suc k)) h = absurd (omega arith)

small_whole : (k : ℕ) → length (sevens_eights k) ≡ 512
small_whole zero = length-replicate {A = ℕ} 512 7
small_whole (suc k) = length-replicate {A = ℕ} 512 8

pub small-IsStored : IsStored strict small
unfolding vol_is_ofs dos_fs_is_ofs dos_fs_is_ffs load32 store32
small-IsStored = record {
  sized = inr (refl, refl);
  size_fits = omega (arith, small_size);
  sect_range = λ k has. (omega arith, omega (arith, two_blocks k has));
  readable = λ k has. small_data k (two_blocks k has);
  whole = λ k has. small_whole k;
  first = λ has. refl;
  in_header = λ k has low. small_first k (two_blocks k has);
  linked = λ ofs. absurd (ground (arith, ofs));
  in_ext = λ e i has. absurd (omega (arith, two_blocks (72 + 72 * e + i) has));
  ext_readable = λ e has. absurd (omega (arith, two_blocks (72 + 72 * e) has));
  ext_not_zero = λ e has. absurd (omega (arith, two_blocks (72 + 72 * e) has));
  first_ext = λ has. absurd (omega (arith, two_blocks 72 has));
  next_ext = λ e has. absurd (omega (arith, two_blocks (144 + 72 * e) has));
}

-- The file at position 510, in its first block.
abbrev at_510 : AdfFile
at_510 = record {
  volume = small_volume;
  file_hdr = small_header;
  current_data = replicate 512 7;
  current_ext = none;
  n_data_block = 1;
  cur_data_ptr = 3;
  pos = 510;
  pos_in_data_blk = 510;
  pos_in_ext_blk = 0;
  mode_read = true;
  mode_write = false;
  current_data_block_changed = false;
}

at_510-IsReader : IsReader small at_510
at_510-IsReader = record {
  op = record { volume = refl; header = refl; mode = refl; clean = refl };
  in_file = omega (arith, small_size);
  placed = inr (
    0,
    record {
      on = record {
        exists = omega (arith, small_size);
        number = refl;
        sector = refl;
        buffer = refl;
        ext_block = λ _ e i at _. absurd (omega (arith, at));
      };
      at = refl;
      within = omega arith;
    },
  );
}

file_read-ok_example :
    (file1 : AdfFile) × (file_read here at_510 4
      ≡ some (file1, slice (content small) 510 (min 4 (file_size small - 510))))
    × (file1.pos ≡ min (510 + 4) (file_size small))
    × IsReader small file1
file_read-ok_example = file_read-ok here small small-IsStored at_510 4 at_510-IsReader (omega arith)

-- The bytes are two of each block.
read_over_blocks : slice (content small) 510 4 ≡ 7 ∷ 7 ∷ 8 ∷ 8 ∷ []
unfolding vol_is_ofs dos_fs_is_ofs dos_fs_is_ffs
read_over_blocks = refl

file_seek-ok_example :
    (file1 : AdfFile) × (file_seek seek_depth here at_510 700 ≡ some (file1, rc_ok))
    × (file1.pos ≡ min 700 (file_size small))
    × IsReader small file1
file_seek-ok_example = file_seek-ok here small small-IsStored at_510 700 at_510-IsReader

file_read-file_seek_example :
    (file1 file2 : AdfFile) × (file_seek seek_depth here at_510 590 ≡ some (file1, rc_ok))
    × (file_read here file1 20
        ≡ some (file2, slice (content small) 590 (min 20 (file_size small - 590))))
    × (file2.pos ≡ min (590 + 20) (file_size small))
file_read-file_seek_example =
    file_read-file_seek here small small-IsStored at_510 590 20 at_510-IsReader
      (omega (arith, small_size)) (omega arith)

small_counts : (file_size2_datablocks 600 512 ≡ 2) × (file_size2_extblocks 600 512 ≡ 0)
unfolding file_size2_datablocks file_size2_extblocks file_datablocks2_extblocks
small_counts = (refl, refl)

pub small_data_n : data_blocks small ≡ 2
small_data_n = ap (λ t. file_size2_datablocks t 512) small_size ∙ small_counts.0

pub small_ext_n : exten_blocks small ≡ 0
small_ext_n = ap (λ t. file_size2_extblocks t 512) small_size ∙ small_counts.1

small_high_seq : high_seq small_header ≡ 2
unfolding load32 store32
small_high_seq = refl

pub small-IsCounted : IsCounted small
small-IsCounted = record {
  in_header = omega (arith, small_high_seq, small_data_n);
  in_ext = λ e h. absurd (omega (arith, h, small_ext_n));
  last = λ e h. absurd (omega (arith, h, small_ext_n));
}

one_map : (b : ℕ) → b < 1 → length (get_or small_volume.bitmap.table b []) ≡ 127
one_map zero h = refl
one_map (suc b) h = absurd (omega arith)

pub small-IsBitmap : IsBitmap small_volume
unfolding n_block2bitmap_size
small-IsBitmap = record { sized = refl; tables = refl; flags = refl; maps = one_map }

get_file_blocks-ok_example :
    get_file_blocks strict small_volume small_header
    ≡ some (
        ok (record {
          header = header_key small_header;
          data_sectors = slice (λ k. k + 3) 0 (data_blocks small);
          extens = slice (λ e. 1) 0 (exten_blocks small);
        }))
get_file_blocks-ok_example =
    get_file_blocks-ok strict small small-IsStored small-IsCounted (omega (arith, small_size))

small_sectors : file_sectors small ≡ 3 ∷ 4 ∷ []
small_sectors = ap₂ (λ n m. slice (λ k. k + 3) 0 n ++ slice (λ e. 1) 0 m) small_data_n small_ext_n

small_inside : (k : ℕ) → mem k (3 ∷ 4 ∷ []) ≡ true → InBitmap small_volume k
unfolding mem
small_inside k h = (ground (arith, h), ground (arith, h))

free_file_blocks-ok_example :
    (vol' : Volume) × (free_file_blocks strict small_volume small_header ≡ some (vol', rc_ok))
    × IsFreed small_volume vol' (file_sectors small)
free_file_blocks-ok_example =
    free_file_blocks-ok strict small small-IsStored small-IsCounted (omega (arith, small_size))
      small-IsBitmap (λ k q. small_inside k (ap (λ t. mem k t) (sym small_sectors) ∙ q))

file_seek-block_start_example :
    (file1 : AdfFile) × (file_seek seek_depth here at_510 (1 * block_size small)
      ≡ some (file1, rc_ok))
    × (file1.n_data_block ≡ 2)
    × (file1.cur_data_ptr ≡ 4)
    × (file1.current_data ≡ small.block 1)
    × (file1.pos ≡ 1 * block_size small)
file_seek-block_start_example =
    file_seek-block_start here small small-IsStored at_510 1 at_510-IsReader
      (omega (arith, small_size)) (omega arith) (omega arith)

find_record_ends_example : find_record 20 (replicate 512 1) 7 0 0 ≢ none
find_record_ends_example = find_record_ends 19 (replicate 512 1) 7 0 0 (omega arith)

-- The same file open for writing too, with room for two bytes in its block.
abbrev both_ways : AdfFile
both_ways = record at_510 { mode_write = true }

counted_size : load32 (replicate 512 7) 12 < 2 ^ 32
unfolding load32
counted_size = omega arith

both_ways-HasRoom : HasRoom both_ways (1 ∷ 2 ∷ [])
both_ways-HasRoom = record {
  sized = small-IsStored.sized;
  reads = refl;
  writes = refl;
  k = 0;
  number = refl;
  loaded = λ e. omega (arith, e);
  at = refl;
  inside = omega arith;
  room = omega arith;
  some_bytes = omega arith;
  whole = length-replicate {A = ℕ} 512 7;
  whole_hdr = small_header-length;
  small = omega (arith, small_size);
  small_data = counted_size;
  fits = omega arith;
}

file_read-file_write_example :
    (file1 file2 file3 : AdfFile) × (file_write here both_ways (1 ∷ 2 ∷ []) ≡ some (file1, 2))
    × (file_seek seek_depth here file1 510 ≡ some (file2, rc_ok))
    × (file_read here file2 2 ≡ some (file3, 1 ∷ 2 ∷ []))
    × (byte_size file1.file_hdr ≡ max (byte_size both_ways.file_hdr) (510 + 2))
    × (vol_is_ofs both_ways.volume ≡ true
        → load32 file1.current_data 12 ≡ max (load32 both_ways.current_data 12) (510 + 2))
file_read-file_write_example = file_read-file_write here both_ways (1 ∷ 2 ∷ []) both_ways-HasRoom
