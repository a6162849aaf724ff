-- ===== src/File/Next.antt =====
-- Going on to the next data block of a file, src/adf_file.c `adfFileReadNextBlock`.
use adflib.Prelude.{
  ℕ, zero, suc, ◌+◌, ◌-◌, ◌*◌, ◌/◌, ◌%◌, ◌≤◌, ◌<◌, ◌≡◌, inl, inr, refl, sym, ap, ◌∙◌, arith, true,
  false, List, ltb, ◌==◌, Bool-cases, tests, Option, some,
}
use mathlib.Core.Path.{subst}
use adflib.Err.{rc_ok}
use adflib.Vol.{vol_is_ofs}
use adflib.File.Handle.{
  AdfFile, Context, data_block, extension, file_read_next_block, load_ext, ext_for_next,
  read_in_ext,
}
use adflib.File.Load.{ext_into-ok, on_block, read_at-ok, read_next-ofs, read_next-header}
use adflib.File.Content.{Stored, HasBlock, IsStored, OnBlock, IsOpen}

module _ (ctx : Context) (s : Stored) (st : IsStored ctx.env s) where
  -- The extension block that is needed next is there.
  ext_for_next-first :
      (file : AdfFile) (k : ℕ)
      → IsOpen s file
      → OnBlock s file k
      → HasBlock s (suc k)
      → suc k ≡ 72
      → ext_for_next ctx file
        ≡ some (record file { current_ext = some (s.ext 0); pos_in_ext_blk = 0 }, rc_ok)
  unfolding ext_for_next load_ext
  ext_for_next-first file k op on has at =
      let has72 : HasBlock s 72 = subst (HasBlock s) at has in
      let full : (file.n_data_block == 72) ≡ true = ground (arith, on.number, at) in
      let sector : extension file.file_hdr ≡ s.ext_sect 0 =
        ap extension op.header ∙ st.first_ext has72 in
      let got = λ (old : List ℕ).
        ext_into-ok ctx.env s.vol (s.ext_sect 0) old (s.ext 0) (st.ext_readable 0 has72) in
      rw (full, sector, op.volume, got) refl

  ext_for_next-next :
      (file : AdfFile) (k e : ℕ)
      → IsOpen s file
      → OnBlock s file k
      → HasBlock s (suc k)
      → vol_is_ofs s.vol ≡ false
      → suc k ≡ 144 + 72 * e
      → ext_for_next ctx file
        ≡ some (record file { current_ext = some (s.ext (suc e)); pos_in_ext_blk = 0 }, rc_ok)
  unfolding ext_for_next load_ext
  ext_for_next-next file k e op on has ffs at =
      let has' : HasBlock s (144 + 72 * e) = subst (HasBlock s) at has in
      let same : 72 + 72 * suc e ≡ 144 + 72 * e = omega arith in
      let here = on.ext_block ffs e 71 (omega (arith, at)) (omega arith) in
      let later : (file.n_data_block == 72) ≡ false = ground (arith, on.number, at) in
      let full : (file.pos_in_ext_blk == 72) ≡ true = ground (arith, here.1) in
      let got = λ (old : List ℕ).
        ext_into-ok ctx.env s.vol (s.ext_sect (suc e)) old (s.ext (suc e))
          (st.ext_readable (suc e) (subst (HasBlock s) (sym same) has')) in
      rw (later, full, here.0, st.next_ext e has', op.volume, got) refl

  ext_for_next-same :
      (file : AdfFile) (k e i : ℕ)
      → OnBlock s file k
      → vol_is_ofs s.vol ≡ false
      → k ≡ 72 + 72 * e + i
      → suc i < 72
      → ext_for_next ctx file
        ≡ some (record file { current_ext = some (s.ext e); pos_in_ext_blk = suc i }, rc_ok)
  unfolding ext_for_next
  ext_for_next-same file k e i on ffs at small =
      let here = on.ext_block ffs e i at (omega arith) in
      let later : (file.n_data_block == 72) ≡ false = ground (arith, on.number, at) in
      let room : (file.pos_in_ext_blk == 72) ≡ false = ground (arith, here.1, small) in
      rw (later, room)
        (λ j. some (record file { current_ext = here.0 j; pos_in_ext_blk = here.1 j }, rc_ok))

  -- The block that an extension block names.
  read_in_ext-ok :
      (file : AdfFile) (e i : ℕ)
      → IsOpen s file
      → HasBlock s (72 + 72 * e + i)
      → i < 72
      → file.n_data_block ≡ 72 + 72 * e + i
      → file.current_ext ≡ some (s.ext e)
      → file.pos_in_ext_blk ≡ i
      → read_in_ext ctx file
        ≡ some (on_block s file (some (s.ext e)) (suc i) (72 + 72 * e + i), rc_ok)
  unfolding read_in_ext
  read_in_ext-ok file e i op has small number ext pos =
      let inside : ltb i 72 ≡ true = ground (arith, small) in
      let file1 : AdfFile = record file { current_ext = some (s.ext e); pos_in_ext_blk = suc i } in
      let op1 : IsOpen s file1 = record {
        volume = op.volume;
        header = op.header;
        mode = op.mode;
        clean = op.clean;
      } in
      rw (pos, inside, ext)
        (ap some (
          read_at-ok ctx s st file1 (72 + 72 * e + i) op1 has number (data_block (s.ext e) (71 - i))
            (st.in_ext e i has small)))

  -- The next block, with what becomes of the extension block.
  abbrev pub GoesTo : AdfFile → ℕ → Type 0
  GoesTo file k =
      (ext : Option (List ℕ)) × (pos : ℕ) × (file_read_next_block ctx file
        ≡ some (on_block s file ext pos k, rc_ok))
      × OnBlock s (on_block s file ext pos k) k

  next_in_ext :
      (file : AdfFile) (k e i : ℕ)
      → IsOpen s file
      → OnBlock s file k
      → HasBlock s (suc k)
      → vol_is_ofs s.vol ≡ false
      → suc k ≡ 72 + 72 * e + i
      → i < 72
      → ext_for_next ctx file
        ≡ some (record file { current_ext = some (s.ext e); pos_in_ext_blk = i }, rc_ok)
      → GoesTo file (suc k)
  unfolding file_read_next_block
  next_in_ext file k e i op on has ffs at small ext =
      let file1 : AdfFile = record file { current_ext = some (s.ext e); pos_in_ext_blk = i } in
      let op1 : IsOpen s file1 = record {
        volume = op.volume;
        header = op.header;
        mode = op.mode;
        clean = op.clean;
      } in
      let not_first : (file.n_data_block == 0) ≡ false = ground (arith, on.number) in
      let ffs' : vol_is_ofs file.volume ≡ false = ap vol_is_ofs op.volume ∙ ffs in
      let high : ltb file.n_data_block 72 ≡ false = ground (arith, on.number, at) in
      let read =
        read_in_ext-ok file1 e i op1 (subst (HasBlock s) at has) small (on.number ∙ at) refl refl in
      (
        some (s.ext e),
        suc i,
        rw (not_first, ffs', high, ext)
            (read ∙ ap (λ k1. some (on_block s file (some (s.ext e)) (suc i) k1, rc_ok)) (sym at)),
        record {
          exists = has;
          number = refl;
          sector = refl;
          buffer = refl;
          ext_block = λ _ e1 i1 at1 small1.
              let same_e : e ≡ e1 = omega (arith, at, at1, small, small1) in
              let same_i : i ≡ i1 = omega (arith, at, at1, small, small1) in
              (ap (λ t. some (s.ext t)) same_e, ap suc same_i);
        },
      )

  next_ffs :
      (file : AdfFile) (k : ℕ)
      → IsOpen s file
      → OnBlock s file k
      → HasBlock s (suc k)
      → vol_is_ofs s.vol ≡ false
      → GoesTo file (suc k)
  next_ffs file k op on has ffs = elim (Bool-cases (ltb (suc k) 72)) [
    | inl low ↦ (
      file.current_ext,
      file.pos_in_ext_blk,
      read_next-header ctx s st file k op on has ffs (omega (tests, low)),
      record {
        exists = has;
        number = refl;
        sector = refl;
        buffer = refl;
        ext_block = λ _ e i at small. absurd (omega (tests, low, at));
      },
    )
    | inr high ↦
        let e = (suc k - 72) / 72 in
        let i = (suc k - 72) % 72 in
        let big : 72 ≤ suc k = ground (arith, high) in
        let at : suc k ≡ 72 + 72 * e + i = omega (arith, big) in
        next_ext file k e i op on has ffs at (omega arith)
  ]
    where
      next_ext :
          (file : AdfFile) (k e i : ℕ)
          → IsOpen s file
          → OnBlock s file k
          → HasBlock s (suc k)
          → vol_is_ofs s.vol ≡ false
          → suc k ≡ 72 + 72 * e + i
          → i < 72
          → GoesTo file (suc k)
      next_ext file k zero zero op on has ffs at small =
          next_in_ext file k 0 0 op on has ffs at small
            (ext_for_next-first file k op on has (omega (arith, at)))
      next_ext file k (suc e) zero op on has ffs at small =
          next_in_ext file k (suc e) 0 op on has ffs at small
            (ext_for_next-next file k e op on has ffs (omega (arith, at)))
      next_ext file k e (suc i) op on has ffs at small =
          next_in_ext file k e (suc i) op on has ffs at small
            (ext_for_next-same file k e i on ffs (omega (arith, at)) small)

  -- From block `k` the reader goes on to block `k + 1`.
  pub read_next-ok :
      (file : AdfFile) (k : ℕ)
      → IsOpen s file
      → OnBlock s file k
      → HasBlock s (suc k)
      → GoesTo file (suc k)
  read_next-ok file k op on has = elim (Bool-cases (vol_is_ofs s.vol)) [
    | inl ofs ↦ (
      file.current_ext,
      file.pos_in_ext_blk,
      read_next-ofs ctx s st file k op on has ofs,
      record {
        exists = has;
        number = refl;
        sector = refl;
        buffer = refl;
        ext_block = λ ffs e i at small. absurd (ground (arith, ofs, ffs));
      },
    )
    | inr ffs ↦ next_ffs file k op on has ffs
  ]
