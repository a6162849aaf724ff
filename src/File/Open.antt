-- ===== src/File/Open.antt =====
-- src/adf_file.c, `adfFileOpen` and `adfFileClose`. The mode is its two flags. A file that is not opened is
-- `none` beside the volume. What stands in `entry` after a name was not found, which the memory held or the
-- search left there, is the parameter `stale`.
use adflib.Prelude.{
  ℕ, bit_and, Bool, false, not, ◌&&◌, ◌||◌, List, replicate, Option, none, some, ◌==◌,
  if◌then◌else◌, ◌>>?◌, Fault,
}
use adflib.Util.{load32}
use adflib.Err.{ok, err, is_ok}
use adflib.Vol.{Volume}
use adflib.Block.{Env, st_file, st_lfile, read_entry_block}
use adflib.Dir.{name_to_entry_blk}
use adflib.Dir.Create.{Setting, sec_type, create_file}
use adflib.Dir.Remove.{hash_table}
use adflib.File.Handle.{AdfFile, Context}
use adflib.File.Flush.{file_flush}
use adflib.File.Seek.{file_seek, seek_depth}

abbrev pub access : List ℕ → ℕ
access entry = load32 entry 320

-- The bits say that access is denied.
abbrev pub acc_has_r : ℕ → Bool
acc_has_r c = not (bit_and c 8 == 0)

abbrev pub acc_has_w : ℕ → Bool
acc_has_w c = not (bit_and c 4 == 0)

abbrev pub real_entry : List ℕ → ℕ
real_entry entry = load32 entry 468

-- The file of an entry: of a hard link, the entry that it is to. It has to be a file then.
unfoldable pub real_file : Env → Volume → List ℕ → Option (List ℕ)
real_file env vol entry =
    let checked = λ (e : List ℕ).
      if not (sec_type e == st_file) || not (real_entry e == 0) then none else some e in
    if real_entry entry == 0
    then checked entry
    else elim (read_entry_block env vol (real_entry entry)) [
      | err rc ↦ none
      | ok linked ↦ elim (read_entry_block env vol (load32 linked 500)) [
        | err rc ↦ none
        | ok parent ↦ checked linked
      ]
    ]

-- `currentData` is what the memory holds.
abbrev pub new_file : Volume → List ℕ → Bool → Bool → List ℕ → AdfFile
new_file vol hdr mode_read mode_write memory = record {
  volume = vol;
  file_hdr = hdr;
  current_data = memory;
  current_ext = none;
  n_data_block = 0;
  cur_data_ptr = 0;
  pos = 0;
  pos_in_data_blk = 0;
  pos_in_ext_blk = 0;
  mode_read = mode_read;
  mode_write = mode_write;
  current_data_block_changed = false;
}

-- The file at its start.
unfoldable pub open_entry : Context → AdfFile → Fault (Volume × Option AdfFile)
open_entry ctx file =
    file_seek seek_depth ctx file 0 >>? λ r. some (r.0.volume, if is_ok r.1 then some r.0 else none)

module _ (set : Setting) (ctx : Context) (stale : List ℕ) where
  -- A file that there is, with its entry found.
  unfoldable pub open_found : Volume → List ℕ → Bool → Bool → Fault (Volume × Option AdfFile)
  open_found vol entry mode_read mode_write =
      if (mode_read && acc_has_r (access entry)) || (mode_write && acc_has_w (access entry))
      then some (vol, none)
      else (if not (sec_type entry == st_file) && not (sec_type entry == st_lfile)
          then some (vol, none)
          else elim (real_file ctx.env vol entry) [
            | none ↦ some (vol, none)
            | some hdr ↦ open_entry ctx (new_file vol hdr mode_read mode_write ctx.fresh)
          ])

  -- A file that there is not: a new one, in a mode to write.
  unfoldable pub open_new : Volume → List ℕ → Bool → Bool → Fault (Volume × Option AdfFile)
  open_new vol name mode_read mode_write =
      if not mode_write || (mode_read && acc_has_r (access stale))
      then some (vol, none)
      else (create_file set vol vol.cur_dir_ptr name (replicate 512 0) >>? λ made.
          let ((vol1, hdr), rc) = made in
          some (
            vol1,
            if is_ok rc then some (new_file vol1 hdr mode_read mode_write ctx.fresh) else none,
          ))

  unfoldable pub file_open : Volume → List ℕ → Bool → Bool → Fault (Volume × Option AdfFile)
  file_open vol name mode_read mode_write =
      if not (mode_read || mode_write) || (mode_write && vol.dev.read_only)
      then some (vol, none)
      else elim (read_entry_block ctx.env vol vol.cur_dir_ptr) [
        | err rc ↦ some (vol, none)
        | ok parent ↦
            name_to_entry_blk set.chain set.toupper ctx.env vol (hash_table parent) name >>? λ got.
            elim got [
              | none ↦ open_new vol name mode_read mode_write
              | some found ↦ open_found vol found.entry mode_read mode_write
            ]
      ]

-- `adfFileClose` writes what is to be written; the memory is freed.
unfoldable pub file_close : Context → AdfFile → Fault Volume
file_close ctx file = file_flush ctx file >>? λ r. some r.0.volume
