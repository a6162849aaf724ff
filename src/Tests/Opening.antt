-- ===== src/Tests/Opening.antt =====
-- A directory with a file named "A", of 5 bytes in one block, and the theorems on names and open files for
-- it.
use adflib.Prelude.{
  ℕ, zero, suc, ◌+◌, ◌-◌, ◌*◌, ◌<◌, ◌≡◌, inr, refl, arith, true, false, List, [], ◌∷◌, ◌++◌,
  length-replicate, replicate, none, some,
}
use adflib.Util.{load32, swap_uint32_at_ptr, swap_uint32_from_ptr, swap_uint16_from_ptr}
use adflib.Raw.{swap_endian, swap_els, swap_items, swap_one, normal_sum, normal_sum_loop}
use adflib.Err.{ok}
use adflib.Dev.{dev_read_block, ramdisk_read_sectors}
use adflib.Vol.{
  Volume, dos, vol_read_block, vol_is_ofs, dos_fs_is_ofs, dos_fs_is_ffs, vol_has_intl,
  vol_has_dircache,
}
use adflib.Block.{Env, read_entry_block, read_data_block, sum_is_valid}
use adflib.Dir.{Found, get_hash_value, hash_loop, to_upper, name_to_entry_blk}
use adflib.Dir.Create.{Setting, create_entry}
use adflib.Dir.Remove.{hash_table}
use adflib.Dir.Lookup.{ends, first_named, name_to_entry_blk_lem}
use adflib.Dir.Distinct.{create_entry-found}
use adflib.File.Handle.{AdfFile, Context}
use adflib.File.Open.{file_open}
use adflib.File.Content.{Stored, file_size, HasBlock, IsStored, IsReader}
use adflib.File.Opening.{IsNamed, file_open-ok}

-- `n` times the long 4, as it is on the disk.
abbrev fours : ℕ → List ℕ
fours zero = []
fours (suc n) = 0 ∷ 0 ∷ 0 ∷ 4 ∷ fours n

abbrev dir_block : List ℕ
dir_block =
    0 ∷ 0 ∷ 0 ∷ 2 ∷ (replicate 20 0 ++ (fours 72 ++ (replicate 196 0 ++ (0 ∷ 0 ∷ 0 ∷ 1 ∷ []))))

abbrev pub header_block : List ℕ
header_block =
    0
    ∷ 0
    ∷ 0
    ∷ 2
    ∷ 0
    ∷ 0
    ∷ 0
    ∷ 4
    ∷ 0
    ∷ 0
    ∷ 0
    ∷ 1
    ∷ 0
    ∷ 0
    ∷ 0
    ∷ 0
    ∷ 0
    ∷ 0
    ∷ 0
    ∷ 3
    ∷ (replicate 288 0
        ++ (0
            ∷ 0
            ∷ 0
            ∷ 3
            ∷ (replicate 12 0
                ++ (0
                    ∷ 0
                    ∷ 0
                    ∷ 5
                    ∷ (replicate 104 0
                        ++ (1 ∷ 65 ∷ (replicate 74 0 ++ (255 ∷ 255 ∷ 255 ∷ 253 ∷ []))))))))

abbrev pub volume : Volume
volume = record {
  dev = record {
    read_only = false;
    size_blocks = 10;
    drv_data =
        replicate 1536 0 ++ (replicate 512 7 ++ (header_block ++ (dir_block ++ replicate 2048 0)));
  };
  first_block = 0;
  last_block = 9;
  root_block = 5;
  fs_id = dos;
  fs_type = 1;
  read_only = false;
  datablock_size = 512;
  mounted = true;
  bitmap = record { size = 0; blocks = []; table = []; blocks_chg = [] };
  cur_dir_ptr = 5;
}

abbrev lenient : Env
lenient = record { ignore_checksum_errors = true }

abbrev pub setting : Setting
setting = record {
  env = lenient;
  now = record { day = 0; min = 0; ticks = 0 };
  toupper = to_upper;
  chain = 2;
}

abbrev context : Context
context = record {
  env = lenient;
  now = record { day = 0; min = 0; ticks = 0 };
  fresh = replicate 512 9;
  chain = 0;
}

abbrev pub hdr : List ℕ
hdr = swap_endian header_block 3

abbrev pub dir : List ℕ
dir = swap_endian dir_block 3

abbrev five : Stored
five = record {
  vol = volume;
  hdr = hdr;
  sect = λ k. 3;
  block = λ k. replicate 512 7;
  ext_sect = λ e. 1;
  ext = λ e. [];
}

abbrev pub name_a : List ℕ
name_a = 97 ∷ []

abbrev pub entry_a : Found
entry_a = record { n_sect = 4; entry = hdr; n_upd_sect = 0 }

pub read_dir : read_entry_block lenient volume 5 ≡ ok dir
unfolding read_entry_block vol_read_block dev_read_block ramdisk_read_sectors load32 swap_endian
    swap_els swap_items swap_one swap_uint32_at_ptr swap_uint32_from_ptr swap_uint16_from_ptr
    sum_is_valid normal_sum normal_sum_loop
read_dir = refl

read_header : read_entry_block lenient volume 4 ≡ ok hdr
unfolding read_entry_block vol_read_block dev_read_block ramdisk_read_sectors load32 swap_endian
    swap_els swap_items swap_one swap_uint32_at_ptr swap_uint32_from_ptr swap_uint16_from_ptr
    sum_is_valid normal_sum normal_sum_loop
read_header = refl

five_size : file_size five ≡ 5
unfolding load32 swap_endian swap_els swap_items swap_one swap_uint32_at_ptr
five_size = refl

pub found_a :
    name_to_entry_blk 2 to_upper lenient volume (hash_table dir) name_a ≡ some (some entry_a)
unfolding first_named adflib.Dir.entry_is_named adflib.Dir.same_bytes adflib.Dir.str_to_upper
    get_hash_value hash_loop to_upper vol_has_intl vol_has_dircache load32 swap_endian swap_els
    swap_items swap_one swap_uint32_at_ptr
found_a =
    name_to_entry_blk_lem 2 to_upper lenient volume (hash_table dir) name_a ((4, hdr) ∷ [])
      (ends 4 hdr read_header refl) (omega arith)

create_entry-found_example :
    create_entry setting volume dir name_a none ≡ some ((volume, dir), none)
create_entry-found_example = create_entry-found setting volume dir name_a none entry_a found_a

one_block : (k : ℕ) → HasBlock five k → k < 1
one_block k has = omega (arith, five_size, has)

five_data : read_data_block lenient volume 3 ≡ ok (replicate 512 7)
unfolding read_data_block vol_read_block dev_read_block ramdisk_read_sectors vol_is_ofs
    dos_fs_is_ofs dos_fs_is_ffs
five_data = refl

five_first : (load32 hdr 16 ≡ 3) × (load32 hdr 308 ≡ 3)
unfolding load32 swap_endian swap_els swap_items swap_one swap_uint32_at_ptr
five_first = (refl, refl)

in_table : (k : ℕ) → k < 1 → load32 hdr (24 + 4 * (71 - k)) ≡ 3
in_table zero h = five_first.1
in_table (suc k) h = absurd (omega arith)

five-IsStored : IsStored lenient five
unfolding vol_is_ofs dos_fs_is_ofs dos_fs_is_ffs
five-IsStored = record {
  sized = inr (refl, refl);
  size_fits = omega (arith, five_size);
  sect_range = λ k has. (omega arith, omega arith);
  readable = λ k has. five_data;
  whole = λ k has. length-replicate {A = ℕ} 512 7;
  first = λ has. five_first.0;
  in_header = λ k has low. in_table k (one_block k has);
  linked = λ ofs. absurd (ground (arith, ofs));
  in_ext = λ e i has. absurd (omega (arith, one_block (72 + 72 * e + i) has));
  ext_readable = λ e has. absurd (omega (arith, one_block (72 + 72 * e) has));
  ext_not_zero = λ e has. absurd (omega (arith, one_block (72 + 72 * e) has));
  first_ext = λ has. absurd (omega (arith, one_block 72 has));
  next_ext = λ e has. absurd (omega (arith, one_block (144 + 72 * e) has));
}

five-IsNamed : IsNamed context five five-IsStored setting name_a
unfolding load32 swap_endian swap_els swap_items swap_one swap_uint32_at_ptr
five-IsNamed = record {
  parent = dir;
  dir = read_dir;
  entry = entry_a;
  found = found_a;
  header = refl;
  allowed = refl;
  file = refl;
  no_link = refl;
}

file_open-ok_example :
    (file : AdfFile) × (file_open setting context [] volume name_a true false
      ≡ some (volume, some file))
    × (file.pos ≡ 0)
    × IsReader five file
file_open-ok_example = file_open-ok context five five-IsStored setting [] name_a five-IsNamed
