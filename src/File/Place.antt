-- ===== src/File/Place.antt =====
-- Finding the block of a position, src/adf_file.c `adfFileSeekExt_` and `adfFileReadExtBlockN`.
use adflib.Prelude.{
  ℕ, zero, suc, ◌+◌, ◌-◌, ◌*◌, ◌^◌, ◌<◌, ◌≡◌, inl, inr, refl, sym, ap, ◌∙◌, arith, false, List, leb,
  ◌==◌, Option, none, some,
}
use mathlib.Core.Path.{subst}
use adflib.Err.{RetCode, rc_ok}
use adflib.Block.{below}
use adflib.File.{
  file_size2_datablocks, file_datablocks2_extblocks, file_size2_extblocks, file_pos2_data_block,
}
use adflib.File.Layout.{IsDataSize, IsPlaced, file_pos2_data_block_lem}
use adflib.File.Handle.{AdfFile, Context, data_block, ext_memory}
use adflib.File.Seek.{read_ext_chain, file_read_ext_block_n, seek_block, seek_in_ext, seek_place}
use adflib.File.Content.{
  Stored, block_size, file_size, HasBlock, IsStored, IsOpen, IsReady, HasBlock-le,
  IsSized-IsDataSize,
}
use adflib.File.Load.{data_into-ok, ext_into-ok, on_block}

-- A block of an extension block is one of the extension blocks that the size tells.
ext_in_range :
    (size bs e : ℕ)
    → IsDataSize bs
    → size < 2 ^ 32
    → (72 + 72 * e) * bs < size
    → leb (file_size2_extblocks size bs) e ≡ false
unfolding file_size2_extblocks file_size2_datablocks file_datablocks2_extblocks
ext_in_range size bs e (inl sized) small has =
    rw sized (ground (arith, small, subst (λ n. (72 + 72 * e) * n < size) sized has))
ext_in_range size bs e (inr sized) small has =
    rw sized (ground (arith, small, subst (λ n. (72 + 72 * e) * n < size) sized has))

module _ (ctx : Context) (s : Stored) (st : IsStored ctx.env s) where
  -- The chain of extension blocks is followed to the one that is asked for.
  read_ext_chain-ok :
      (m j : ℕ) (fext : List ℕ)
      → HasBlock s (72 + 72 * (j + m))
      → read_ext_chain ctx.env s.vol (suc m) (s.ext_sect j) fext ≡ (s.ext (j + m), rc_ok)
  unfolding read_ext_chain
  read_ext_chain-ok zero j fext has =
      let here : HasBlock s (72 + 72 * j) =
        HasBlock-le s (72 + 72 * j) (72 + 72 * (j + 0)) st.sized has (omega arith) in
      let got = ext_into-ok ctx.env s.vol (s.ext_sect j) fext (s.ext j) (st.ext_readable j here) in
      let there : (s.ext_sect j == 0) ≡ false = ground (arith, st.ext_not_zero j here) in
      let same : j ≡ j + 0 = omega arith in rw (there, got) (ap (λ t. (s.ext t, rc_ok)) same)
  read_ext_chain-ok (suc m) j fext has =
      let here : HasBlock s (72 + 72 * j) =
        HasBlock-le s (72 + 72 * j) (72 + 72 * (j + suc m)) st.sized has (omega arith) in
      let two : HasBlock s (144 + 72 * j) =
        HasBlock-le s (144 + 72 * j) (72 + 72 * (j + suc m)) st.sized has (omega arith) in
      let rest_has : HasBlock s (72 + 72 * (suc j + m)) =
        HasBlock-le s (72 + 72 * (suc j + m)) (72 + 72 * (j + suc m)) st.sized has (omega arith) in
      let got = ext_into-ok ctx.env s.vol (s.ext_sect j) fext (s.ext j) (st.ext_readable j here) in
      let there : (s.ext_sect j == 0) ≡ false = ground (arith, st.ext_not_zero j here) in
      let rest = read_ext_chain-ok m (suc j) (s.ext j) rest_has in
      let same : suc j + m ≡ j + suc m = omega arith in
      rw (there, got, st.next_ext j two) (rest ∙ ap (λ t. (s.ext t, rc_ok)) same)

  read_ext_block_n-ok :
      (file : AdfFile) (e : ℕ) (fext : List ℕ)
      → IsOpen s file
      → HasBlock s (72 + 72 * e)
      → file_read_ext_block_n ctx.env file e fext ≡ (s.ext e, rc_ok)
  unfolding file_read_ext_block_n
  read_ext_block_n-ok file e fext op has =
      let sized = IsSized-IsDataSize s st.sized in
      let range : leb (file_size2_extblocks (file_size s) (block_size s)) e ≡ false =
        ext_in_range (file_size s) (block_size s) e sized st.size_fits has in
      let has' : HasBlock s (72 + 72 * (0 + e)) =
        HasBlock-le s (72 + 72 * (0 + e)) (72 + 72 * e) st.sized has (omega arith) in
      let first = st.first_ext (HasBlock-le s 72 (72 + 72 * e) st.sized has (omega arith)) in
      let same : 0 + e ≡ e = omega arith in
      rw (op.header, op.volume, range, first)
        (read_ext_chain-ok e 0 fext has' ∙ ap (λ t. (s.ext t, rc_ok)) same)

  seek_block-ok :
      (file : AdfFile) (k : ℕ)
      → IsOpen s file
      → HasBlock s k
      → file.cur_data_ptr ≡ s.sect k
      → file.n_data_block ≡ k
      → seek_block ctx file ≡ (on_block s file file.current_ext file.pos_in_ext_blk k, rc_ok)
  unfolding seek_block
  seek_block-ok file k op has sector number =
      let got =
        data_into-ok ctx.env s.vol (s.sect k) file.current_data (s.block k) (st.readable k has) in
      let range = st.sect_range k has in
      let inside : below (s.sect k) 2 ≡ false = ground (arith, range.0, range.1) in
      rw (sector, op.volume, got, inside, number) refl

  -- A block found is one that the file is ready to read.
  abbrev IsHere : (file : AdfFile) (pos k : ℕ) → Type 0
  IsHere file pos k =
      (file.pos ≡ pos)
      × (pos ≡ k * block_size s + file.pos_in_data_blk)
      × (file.pos_in_data_blk < block_size s)

  -- The seek to byte `pos` of the file.
  abbrev pub Sits : AdfFile × RetCode → ℕ → Type 0
  Sits result pos = (file : AdfFile) × (result ≡ (file, rc_ok)) × IsReady s file pos

  header_block_lem :
      (file : AdfFile) (pos k : ℕ)
      → IsOpen s file
      → HasBlock s k
      → k < 72
      → IsHere file pos k
      → file.n_data_block ≡ k
      → file.cur_data_ptr ≡ s.sect k
      → Sits (seek_block ctx file) pos
  header_block_lem file pos k op has small here number sector = (
    on_block s file file.current_ext file.pos_in_ext_blk k,
    seek_block-ok file k op has sector number,
    record {
      op = record { volume = op.volume; header = op.header; mode = op.mode; clean = op.clean };
      k = k;
      on = record {
        exists = has;
        number = refl;
        sector = refl;
        buffer = refl;
        ext_block = λ _ e i at _. absurd (omega (arith, at, small));
      };
      same = here.0;
      at = here.1;
      within = here.2;
    },
  )

  ext_block_lem :
      (file : AdfFile) (pos k e i : ℕ)
      → IsOpen s file
      → HasBlock s k
      → k ≡ 72 + 72 * e + i
      → i < 72
      → IsHere file pos k
      → file.n_data_block ≡ k
      → file.pos_in_ext_blk ≡ i
      → Sits (seek_in_ext ctx file e) pos
  unfolding seek_in_ext
  ext_block_lem file pos k e i op has at small here number in_ext =
      let has_ext = HasBlock-le s (72 + 72 * e) k st.sized has (omega (arith, at)) in
      let got = read_ext_block_n-ok file e (ext_memory ctx file) op has_ext in
      let named : data_block (s.ext e) (71 - i) ≡ s.sect k =
        st.in_ext e i (subst (HasBlock s) at has) small ∙ ap s.sect (sym at) in
      let file1 : AdfFile = record file {
        current_ext = some (s.ext e);
        cur_data_ptr = data_block (s.ext e) (71 - i);
        pos_in_ext_blk = suc i;
      } in
      let op1 : IsOpen s file1 = record {
        volume = op.volume;
        header = op.header;
        mode = op.mode;
        clean = op.clean;
      } in
      (
        on_block s file (some (s.ext e)) (suc i) k,
        rw (got, in_ext) (seek_block-ok file1 k op1 has named number),
        record {
          op = record { volume = op.volume; header = op.header; mode = op.mode; clean = op.clean };
          k = k;
          on = record {
            exists = has;
            number = refl;
            sector = refl;
            buffer = refl;
            ext_block = λ _ e1 i1 at1 small1.
                let same_e : e ≡ e1 = omega (arith, at, at1, small, small1) in
                let same_i : i ≡ i1 = omega (arith, at, at1, small, small1) in
                (ap (λ t. some (s.ext t)) same_e, ap suc same_i);
          };
          same = here.0;
          at = here.1;
          within = here.2;
        },
      )

  seek_place_lem :
      (file : AdfFile) (pos : ℕ) (ext : Option ℕ) (i q k : ℕ)
      → IsOpen s file
      → file.pos ≡ pos
      → HasBlock s k
      → i < 72
      → IsPlaced ext i k
      → pos ≡ k * block_size s + q
      → q < block_size s
      → Sits
          (seek_place ctx file
            (record { ext_block = ext; pos_in_ext_blk = i; pos_in_data_blk = q; cur_data_n = k }))
          pos
  unfolding seek_place
  seek_place_lem file pos none i q k op same has small placed at within =
      header_block_lem
        (record file {
          pos_in_ext_blk = i;
          pos_in_data_blk = q;
          n_data_block = k;
          cur_data_ptr = data_block file.file_hdr (71 - k);
        })
        pos k (record { volume = op.volume; header = op.header; mode = op.mode; clean = op.clean })
        has placed.0 (same, at, within) refl
        (ap (λ h. data_block h (71 - k)) op.header ∙ st.in_header k has placed.0)
  seek_place_lem file pos (some e) i q k op same has small placed at within =
      ext_block_lem (record file { pos_in_ext_blk = i; pos_in_data_blk = q; n_data_block = k }) pos
        k e i (record { volume = op.volume; header = op.header; mode = op.mode; clean = op.clean })
        has placed small (same, at, within) refl refl

  -- A position of the file is found: its block is read, and it is the byte there.
  pub seek_place-ok :
      (file : AdfFile) (pos : ℕ)
      → IsOpen s file
      → file.pos ≡ pos
      → pos < file_size s
      → Sits (seek_place ctx file (file_pos2_data_block pos (block_size s))) pos
  seek_place-ok file pos op same inside =
      let found_at = file_pos2_data_block pos (block_size s) in
      let place =
        file_pos2_data_block_lem pos (block_size s) (omega (arith, inside, st.size_fits))
          (IsSized-IsDataSize s st.sized) in
      let at : pos ≡ found_at.cur_data_n * block_size s + found_at.pos_in_data_blk =
        omega (arith, place.0.in_file) in
      seek_place_lem file pos found_at.ext_block found_at.pos_in_ext_blk found_at.pos_in_data_blk
        found_at.cur_data_n op same (omega (arith, at, inside)) place.0.in_ext place.0.placed at
        place.0.in_block
