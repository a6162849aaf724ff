-- ===== src/File/Opening.antt =====
-- A file that is opened for reading stands at its start.
use adflib.Prelude.{ℕ, ◌≡◌, inl, inr, refl, ap, arith, true, false, List, some, ◌==◌, Bool-cases}
use adflib.Err.{ok}
use adflib.Block.{st_file, read_entry_block}
use adflib.Dir.{Found, name_to_entry_blk}
use adflib.Dir.Create.{Setting, sec_type}
use adflib.Dir.Remove.{hash_table}
use adflib.File.Handle.{AdfFile, Context}
use adflib.File.Seek.{file_seek, seek_away, file_seek_start}
use adflib.File.Open.{
  access, acc_has_r, real_entry, real_file, new_file, open_entry, open_found, file_open,
}
use adflib.File.Content.{Stored, file_size, IsStored, IsOpen, IsReader}
use adflib.File.SeekInside.{
  Arrives, seek_start-full, seek_start-empty, seek_flush-clean, ready-IsReader,
}

module _ (ctx : Context) (s : Stored) (st : IsStored ctx.env s) where
  start-ok : (file : AdfFile) → IsOpen s file → Arrives s (file_seek_start ctx file) 0
  start-ok file op = elim (Bool-cases (file_size s == 0)) [
    | inl empty ↦ seek_start-empty ctx s st file op (ground (arith, empty))
    | inr more ↦
        let start = seek_start-full ctx s st file op (ground (arith, more)) in
        (start.0, start.1, start.2.same, ready-IsReader ctx s st start.0 0 (omega arith) start.2)
  ]

  open_entry-ok :
      (memory : List ℕ)
      → let result = open_entry ctx (new_file s.vol s.hdr true false memory) in
        (file : AdfFile) × (result ≡ some (s.vol, some file)) × (file.pos ≡ 0) × IsReader s file
  unfolding open_entry file_seek seek_away
  open_entry-ok memory =
      let file0 = new_file s.vol s.hdr true false memory in
      let op : IsOpen s file0 = record {
        volume = refl;
        header = refl;
        mode = refl;
        clean = refl;
      } in
      let start = start-ok file0 op in
      let clean = seek_flush-clean ctx s st file0 op in
      (
        start.0,
        rw (clean, start.1) (ap (λ v. some (v, some start.0)) start.3.op.volume),
        start.2,
        start.3,
      )

  -- The file is found under its name, and may be read.
  pub record IsNamed (set : Setting) (name : List ℕ) : Type 0 where
    pub parent : List ℕ
    pub dir : read_entry_block ctx.env s.vol s.vol.cur_dir_ptr ≡ ok parent
    pub entry : Found
    pub found :
        name_to_entry_blk set.chain set.toupper ctx.env s.vol (hash_table parent) name
        ≡ some (some entry)
    pub header : entry.entry ≡ s.hdr
    pub allowed : acc_has_r (access s.hdr) ≡ false
    pub file : sec_type s.hdr ≡ st_file
    pub no_link : real_entry s.hdr ≡ 0

  real_file_self :
      sec_type s.hdr ≡ st_file → real_entry s.hdr ≡ 0 → real_file ctx.env s.vol s.hdr ≡ some s.hdr
  unfolding real_file
  real_file_self file no_link =
      let is_file : (sec_type s.hdr == st_file) ≡ true = ground (arith, file) in
      let own : (real_entry s.hdr == 0) ≡ true = ground (arith, no_link) in rw (is_file, own) refl

  -- For a file whose blocks are readable and linked as AmigaDOS links them, which the search of its
  -- name in the current directory finds, and which is no link and not protected from reading:
  -- `adfFileOpen` for reading succeeds and leaves the volume alone; the file is at position 0, open
  -- without unwritten changes and well placed.
  pub file_open-ok :
      (set : Setting) (stale name : List ℕ)
      → IsNamed set name
      → (file : AdfFile) × (file_open set ctx stale s.vol name true false ≡ some (s.vol, some file))
        × (file.pos ≡ 0)
        × IsReader s file
  unfolding file_open open_found
  file_open-ok set stale name h =
      let open_it = open_entry-ok ctx.fresh in
      let is_file : (sec_type s.hdr == st_file) ≡ true = ground (arith, h.file) in
      (
        open_it.0,
        rw (h.dir, h.found, h.header, h.allowed, is_file, real_file_self h.file h.no_link)
            open_it.1,
        open_it.2,
        open_it.3,
      )
