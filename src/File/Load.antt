-- ===== src/File/Load.antt =====
-- Loading blocks of a file, and the parts of src/adf_file.c `adfFileReadNextBlock` that need no extension
-- block.
use adflib.Prelude.{
  ℕ, suc, ◌-◌, ◌<◌, ◌≡◌, refl, ap, ap₂, ◌∙◌, arith, true, false, List, ltb, ◌==◌, Option, some,
}
use adflib.Err.{rc_ok, Result, ok, err}
use adflib.Vol.{Volume, vol_read_block, vol_is_ofs}
use adflib.Block.{Env, below, read_data_block, read_file_ext_block}
use adflib.File.Handle.{
  AdfFile, Context, first_data, data_block, next_data, data_into, ext_into, read_at,
  file_read_next_block,
}
use adflib.File.Content.{Stored, HasBlock, IsStored, OnBlock, IsOpen}

into_of_data :
    (env : Env) (vol : Volume) (n : ℕ) (old d : List ℕ) (r : Result (List ℕ))
    → vol_read_block vol n ≡ r
    → read_data_block env vol n ≡ ok d
    → data_into env vol n old ≡ (d, rc_ok)
unfolding data_into read_data_block
into_of_data env vol n old d (ok buf) e h = ground (arith, e, h)
into_of_data env vol n old d (err rc) e h = ground (arith, e, h)

pub data_into-ok :
    (env : Env) (vol : Volume) (n : ℕ) (old d : List ℕ)
    → read_data_block env vol n ≡ ok d
    → data_into env vol n old ≡ (d, rc_ok)
data_into-ok env vol n old d h = into_of_data env vol n old d (vol_read_block vol n) refl h

into_of_ext :
    (env : Env) (vol : Volume) (n : ℕ) (old d : List ℕ) (r : Result (List ℕ))
    → vol_read_block vol n ≡ r
    → read_file_ext_block env vol n ≡ ok d
    → ext_into env vol n old ≡ (d, rc_ok)
unfolding ext_into read_file_ext_block
into_of_ext env vol n old d (ok buf) e h = ground (arith, e, h)
into_of_ext env vol n old d (err rc) e h = ground (arith, e, h)

pub ext_into-ok :
    (env : Env) (vol : Volume) (n : ℕ) (old d : List ℕ)
    → read_file_ext_block env vol n ≡ ok d
    → ext_into env vol n old ≡ (d, rc_ok)
ext_into-ok env vol n old d h = into_of_ext env vol n old d (vol_read_block vol n) refl h

-- The file with block `k` in the buffer, and the given extension block.
abbrev pub on_block : Stored → AdfFile → Option (List ℕ) → ℕ → ℕ → AdfFile
on_block s file ext pos_in_ext k = record file {
  current_ext = ext;
  pos_in_ext_blk = pos_in_ext;
  current_data = s.block k;
  cur_data_ptr = s.sect k;
  n_data_block = suc k;
}

module _ (ctx : Context) (s : Stored) (st : IsStored ctx.env s) where
  pub read_at-ok :
      (file : AdfFile) (k : ℕ)
      → IsOpen s file
      → HasBlock s k
      → file.n_data_block ≡ k
      → (n : ℕ) → n ≡ s.sect k
      → read_at ctx file n ≡ (on_block s file file.current_ext file.pos_in_ext_blk k, rc_ok)
  unfolding read_at
  read_at-ok file k op has number n same =
      let got =
        data_into-ok ctx.env s.vol (s.sect k) file.current_data (s.block k) (st.readable k has) in
      let range = st.sect_range k has in
      let inside : below (s.sect k) 2 ≡ false = ground (arith, range.0, range.1) in
      rw (same, op.volume, got, inside, number) refl

  -- The first block.
  pub read_next-first :
      (file : AdfFile)
      → IsOpen s file
      → HasBlock s 0
      → file.n_data_block ≡ 0
      → file_read_next_block ctx file
        ≡ some (on_block s file file.current_ext file.pos_in_ext_blk 0, rc_ok)
  unfolding file_read_next_block
  read_next-first file op has number =
      let first : first_data file.file_hdr ≡ s.sect 0 = rw (op.header) (st.first has) in
      let start : (file.n_data_block == 0) ≡ true = ground (arith, number) in
      rw (start) (ap some (read_at-ok file 0 op has number (first_data file.file_hdr) first))

  pub read_next-ofs :
      (file : AdfFile) (k : ℕ)
      → IsOpen s file
      → OnBlock s file k
      → HasBlock s (suc k)
      → vol_is_ofs s.vol ≡ true
      → file_read_next_block ctx file
        ≡ some (on_block s file file.current_ext file.pos_in_ext_blk (suc k), rc_ok)
  unfolding file_read_next_block
  read_next-ofs file k op on has ofs =
      let next : next_data file.current_data ≡ s.sect (suc k) =
        ap next_data on.buffer ∙ st.linked ofs k has in
      let ofs' : vol_is_ofs file.volume ≡ true = ap vol_is_ofs op.volume ∙ ofs in
      let not_first : (file.n_data_block == 0) ≡ false = ground (arith, on.number) in
      rw (not_first, ofs')
        (ap some (read_at-ok file (suc k) op has on.number (next_data file.current_data) next))

  pub read_next-header :
      (file : AdfFile) (k : ℕ)
      → IsOpen s file
      → OnBlock s file k
      → HasBlock s (suc k)
      → vol_is_ofs s.vol ≡ false
      → suc k < 72
      → file_read_next_block ctx file
        ≡ some (on_block s file file.current_ext file.pos_in_ext_blk (suc k), rc_ok)
  unfolding file_read_next_block
  read_next-header file k op on has ffs small =
      let next : data_block file.file_hdr (71 - file.n_data_block) ≡ s.sect (suc k) =
        ap₂ (λ h n. data_block h (71 - n)) op.header on.number ∙ st.in_header (suc k) has small in
      let ffs' : vol_is_ofs file.volume ≡ false = ap vol_is_ofs op.volume ∙ ffs in
      let not_first : (file.n_data_block == 0) ≡ false = ground (arith, on.number) in
      let low : ltb file.n_data_block 72 ≡ true = ground (arith, on.number, small) in
      rw (not_first, ffs', low)
        (ap some (
          read_at-ok file (suc k) op has on.number
            (data_block file.file_hdr (71 - file.n_data_block)) next))
