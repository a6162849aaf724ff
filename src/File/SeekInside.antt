-- ===== src/File/SeekInside.antt =====
-- Seeking in a file, src/adf_file.c `adfFileSeek`, to a position where it has a byte.
use adflib.Prelude.{
  ℕ, zero, suc, ◌-◌, ◌*◌, ◌/◌, ◌%◌, ◌≤◌, ◌<◌, ◌≡◌, ◌≢◌, ◌⊎◌, inl, inr, refl, ap, ◌∙◌, arith, Bool,
  true, false, min, not, ◌&&◌, ◌==◌, Bool-cases, some, Fault,
}
use adflib.Err.{RetCode, rc_ok}
use adflib.File.{file_pos2_data_block}
use adflib.File.Handle.{AdfFile, Context, byte_size}
use adflib.File.Seek.{file_seek_start, file_seek_ext, seek_place, seek_flush, seek_away, file_seek}
use adflib.File.Content.{
  Stored, block_size, file_size, HasBlock, IsStored, OnBlock, IsOpen, IsReady, IsReader,
  block_size-le,
}
use adflib.File.Positions.{block_of, in_block}
use adflib.File.Load.{on_block, read_next-first}
use adflib.File.Place.{seek_place-ok}

-- The file is at `pos`, ready to be read.
abbrev pub Arrives : Stored → Fault (AdfFile × RetCode) → ℕ → Type 0
Arrives s result pos =
    (file : AdfFile) × (result ≡ some (file, rc_ok)) × (file.pos ≡ pos) × IsReader s file

-- The same, with the byte at `pos` in the buffer.
abbrev pub Reaches : Stored → Fault (AdfFile × RetCode) → ℕ → Type 0
Reaches s result pos = (file : AdfFile) × (result ≡ some (file, rc_ok)) × IsReady s file pos

-- Where a seek can come from: no block is in the buffer, or one of the file.
abbrev pub CanSeek : Stored → AdfFile → Type 0
CanSeek s file = (file.cur_data_ptr ≡ 0) ⊎ ((k : ℕ) × OnBlock s file k)

module _ (ctx : Context) (s : Stored) (st : IsStored ctx.env s) where
  pub ready-IsReader :
      (file : AdfFile) (pos : ℕ) → pos ≤ file_size s → IsReady s file pos → IsReader s file
  ready-IsReader file pos h ready = record {
    op = ready.op;
    in_file = omega (arith, ready.same, h);
    placed = inr (
      ready.k,
      record { on = ready.on; at = ready.same ∙ ready.at; within = omega (arith, ready.within) },
    );
  }

  pub seek_start-full :
      (file : AdfFile) → IsOpen s file → 0 < file_size s → Reaches s (file_seek_start ctx file) 0
  unfolding file_seek_start
  seek_start-full file op more =
      let start : AdfFile = record file {
        pos = 0;
        pos_in_ext_blk = 0;
        pos_in_data_blk = 0;
        n_data_block = 0;
        cur_data_ptr = 0;
      } in
      let some_size : (byte_size file.file_hdr == 0) ≡ false = ground (arith, op.header, more) in
      let has : HasBlock s 0 = omega (arith, more) in
      let op1 : IsOpen s start = record {
        volume = op.volume;
        header = op.header;
        mode = op.mode;
        clean = op.clean;
      } in
      let got = read_next-first ctx s st start op1 has refl in
      (
        on_block s start file.current_ext 0 0,
        rw (some_size, got) refl,
        record {
          op = record { volume = op.volume; header = op.header; mode = op.mode; clean = op.clean };
          k = 0;
          on = record {
            exists = has;
            number = refl;
            sector = refl;
            buffer = refl;
            ext_block = λ _ e i at _. absurd (omega (arith, at));
          };
          same = refl;
          at = omega arith;
          within = omega (arith, (block_size-le s st.sized).0);
        },
      )

  pub seek_start-empty :
      (file : AdfFile) → IsOpen s file → file_size s ≡ 0 → Arrives s (file_seek_start ctx file) 0
  unfolding file_seek_start
  seek_start-empty file op empty =
      let no_size : (byte_size file.file_hdr == 0) ≡ true = ground (arith, op.header, empty) in
      (
        record file {
          pos = 0;
          pos_in_ext_blk = 0;
          pos_in_data_blk = 0;
          n_data_block = 0;
          cur_data_ptr = 0;
        },
        rw no_size refl,
        refl,
        record {
          op = record { volume = op.volume; header = op.header; mode = op.mode; clean = op.clean };
          in_file = omega arith;
          placed = inl empty;
        },
      )

  pub seek_flush-clean : (file : AdfFile) → IsOpen s file → seek_flush ctx file ≡ some file
  unfolding seek_flush
  seek_flush-clean file op = ground (arith, op.clean)

  module _ (seek : AdfFile → ℕ → Fault (AdfFile × RetCode)) where
    pub seek_ext-inside :
        (file : AdfFile) (pos : ℕ)
        → IsOpen s file
        → pos < file_size s
        → Reaches s (file_seek_ext ctx seek file pos) pos
    unfolding file_seek_ext
    seek_ext-inside file pos op inside =
        let low : min pos (byte_size file.file_hdr) ≡ pos = ground (arith, op.header, inside) in
        let not_end : (pos == byte_size file.file_hdr) ≡ false =
          ground (arith, op.header, inside) in
        let file1 : AdfFile = record file { pos = pos } in
        let op1 : IsOpen s file1 = record {
          volume = op.volume;
          header = op.header;
          mode = op.mode;
          clean = op.clean;
        } in
        let sought = seek_place-ok ctx s st file1 pos op1 refl inside in
        let same : file.volume.datablock_size ≡ block_size s =
          ap (λ v. v.datablock_size) op.volume in
        (
          sought.0,
          rw (low, not_end)
              (ap (λ n. some (seek_place ctx file1 (file_pos2_data_block pos n))) same
                ∙ ap some sought.1),
          sought.2,
        )

    pub seek_away-inside :
        (file : AdfFile) (pos : ℕ)
        → IsOpen s file
        → pos < file_size s
        → Reaches s (seek_away ctx seek file pos) pos
    unfolding seek_away
    seek_away-inside file zero op inside =
        let start = seek_start-full file op inside in
        (start.0, rw (seek_flush-clean file op) start.1, start.2)
    seek_away-inside file (suc pos) op inside =
        let there = seek_ext-inside file (suc pos) op inside in
        let not_start : (suc pos == 0) ≡ false = ground arith in
        (there.0, rw (seek_flush-clean file op, not_start, there.1) refl, there.2)

  abbrev pub same_block : AdfFile → ℕ → Bool
  same_block file pos =
      not (file.cur_data_ptr == 0) && (file.n_data_block - 1 == pos / file.volume.datablock_size)

  -- The file after a move inside the block in the buffer.
  abbrev pub moved_in : AdfFile → ℕ → AdfFile
  moved_in file pos = record file { pos = pos; pos_in_data_blk = pos % file.volume.datablock_size }

  pub moved_in-IsReady :
      (file : AdfFile) (pos k : ℕ)
      → IsOpen s file
      → OnBlock s file k
      → (k * block_size s ≤ pos) × (pos < suc k * block_size s)
      → IsReady s (moved_in file pos) pos
  moved_in-IsReady file pos k op on inside =
      let same : pos % file.volume.datablock_size ≡ pos % block_size s =
        ap (λ v. pos % v.datablock_size) op.volume in
      let part = in_block s pos k st.sized inside in
      record {
        op = record { volume = op.volume; header = op.header; mode = op.mode; clean = op.clean };
        k = k;
        on = record {
          exists = on.exists;
          number = on.number;
          sector = on.sector;
          buffer = on.buffer;
          ext_block = on.ext_block;
        };
        same = refl;
        at = omega (arith, part.0, same);
        within = omega (arith, part.1, same);
      }

  pub seek_inside :
      (depth : ℕ) (file : AdfFile) (pos : ℕ)
      → IsOpen s file
      → pos < file_size s
      → file.pos ≢ pos
      → CanSeek s file
      → Reaches s (file_seek (suc depth) ctx file pos) pos
  unfolding file_seek
  seek_inside depth file pos op inside elsewhere can =
      let move : (file.pos == pos) && not (file.cur_data_ptr == 0) ≡ false =
        ground (arith, elsewhere) in
      let low : min pos (byte_size file.file_hdr) ≡ pos = ground (arith, op.header, inside) in
      elim (Bool-cases (same_block file pos)) [
        | inl here ↦ elim can [
          | inl nothing ↦ absurd (ground (arith, here, nothing))
          | inr at ↦ (
            moved_in file pos,
            rw (move, here, low) refl,
            moved_in-IsReady file pos at.0 op at.1 (
                block_of s pos at.0 st.sized
                  (ground (arith, here, at.1.number) ∙ ap (λ v. pos / v.datablock_size) op.volume)),
          )
        ]
        | inr away ↦
            let there = seek_away-inside (file_seek depth ctx) file pos op inside in
            (there.0, rw (move, away) there.1, there.2)
      ]
