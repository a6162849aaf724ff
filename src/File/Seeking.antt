-- ===== src/File/Seeking.antt =====
-- Seeking in a file, src/adf_file.c `adfFileSeek`: the file is then at the position, or at its end.
use adflib.Prelude.{
  ℕ, zero, suc, ◌+◌, ◌-◌, ◌*◌, ◌/◌, ◌^◌, ◌≤◌, ◌<◌, ◌≡◌, ◌≢◌, ◌⊎◌, inl, inr, refl, sym, ap, ap₂, ◌∙◌,
  arith, true, false, min, not, ◌&&◌, ltb, leb, ◌==◌, Bool-cases, tests, some, Fault,
}
use adflib.Err.{RetCode, rc_ok}
use adflib.File.Handle.{AdfFile, Context, byte_size, file_read}
use adflib.File.Seek.{
  last_part, to_eof, file_seek_eof, file_seek_ext, seek_away, file_seek, seek_depth,
}
use adflib.File.Content.{
  Stored, block_size, file_size, HasBlock, IsStored, content, slice, OnBlock, IsOpen, IsAt,
  IsReader,
}
use adflib.File.Positions.{last_part-at, last_part-le, block_of, same_number}
use adflib.File.SeekInside.{
  Arrives, CanSeek, ready-IsReader, seek_start-full, seek_start-empty, seek_flush-clean,
  seek_away-inside, same_block, moved_in, moved_in-IsReady, seek_inside,
}
use adflib.File.Reading.{file_read-ok}

-- The seek to the end of a file that has bytes, of its parts.
seek_eof-to :
    (ctx : Context) (seek : AdfFile → ℕ → Fault (AdfFile × RetCode)) (file file1 : AdfFile)
    (size : ℕ)
    → byte_size file.file_hdr ≡ size
    → 0 < size
    → seek file (size - 1) ≡ some (file1, rc_ok)
    → file_seek_eof ctx seek file ≡ to_eof file1
unfolding file_seek_eof
seek_eof-to ctx seek file file1 size e more last =
    let some_size : (byte_size file.file_hdr == 0) ≡ false = ground (arith, e, more) in
    let last' : seek file (byte_size file.file_hdr - 1) ≡ some (file1, rc_ok) =
      ap (λ n. seek file (n - 1)) e ∙ last in
    rw (some_size, last') refl

module _ (ctx : Context) (s : Stored) (st : IsStored ctx.env s) where
  to_eof-ok :
      (file : AdfFile)
      → IsOpen s file
      → to_eof file
        ≡ some (
          record file {
            pos = file_size s;
            pos_in_data_blk = last_part (file_size s) (block_size s);
          },
          rc_ok,
        )
  unfolding to_eof
  to_eof-ok file op =
      let size : byte_size file.file_hdr ≡ file_size s = ap byte_size op.header in
      let part : last_part (byte_size file.file_hdr) file.volume.datablock_size
          ≡ last_part (file_size s) (block_size s) =
        ap₂ (λ h v. last_part (byte_size h) v.datablock_size) op.header op.volume in
      let fits : leb (last_part (byte_size file.file_hdr) file.volume.datablock_size)
            file.volume.datablock_size
          ≡ true =
        ap₂ leb part (ap (λ v. v.datablock_size) op.volume)
        ∙ ground (arith, last_part-le s st.sized) in
      rw fits (λ i. some (record file { pos = size i; pos_in_data_blk = part i }, rc_ok))

  -- The seek to the end goes to the last byte first.
  seek_eof-full :
      (depth : ℕ) (file : AdfFile)
      → IsOpen s file
      → 0 < file_size s
      → file.pos ≢ file_size s - 1
      → CanSeek s file
      → Arrives s (file_seek_eof ctx (file_seek (suc depth) ctx) file) (file_size s)
  seek_eof-full depth file op more elsewhere can =
      let size = file_size s in
      let part = last_part size (block_size s) in
      let last =
        seek_inside ctx s st depth file (size - 1) op (omega (arith, more)) elsewhere can in
      let file1 = last.0 in
      let ready = last.2 in
      let arrived : AdfFile = record file1 { pos = size; pos_in_data_blk = part } in
      (
        arrived,
        seek_eof-to ctx (file_seek (suc depth) ctx) file file1 size (ap byte_size op.header) more
              last.1
            ∙ to_eof-ok file1 ready.op,
        refl,
        record {
          op = record {
            volume = ready.op.volume;
            header = ready.op.header;
            mode = ready.op.mode;
            clean = ready.op.clean;
          };
          in_file = omega arith;
          placed = inr (
            ready.k,
            record {
              on = record {
                exists = ready.on.exists;
                number = ready.on.number;
                sector = ready.on.sector;
                buffer = ready.on.buffer;
                ext_block = ready.on.ext_block;
              };
              at = last_part-at s ready.k file1.pos_in_data_blk st.sized ready.at ready.within more;
              within = last_part-le s st.sized;
            },
          );
        },
      )

  seek_eof-ok :
      (depth : ℕ) (file : AdfFile)
      → IsOpen s file
      → file.pos ≡ file_size s
      → (file_size s ≡ 0) ⊎ ((k : ℕ) × OnBlock s file k)
      → Arrives s (file_seek_eof ctx (file_seek (suc depth) ctx) file) (file_size s)
  unfolding file_seek_eof
  seek_eof-ok depth file op at (inl empty) =
      let start = seek_start-empty ctx s st file op empty in
      let no_size : (byte_size file.file_hdr == 0) ≡ true = ground (arith, op.header, empty) in
      (start.0, rw no_size start.1, start.2 ∙ sym empty, start.3)
  seek_eof-ok depth file op at (inr on) =
      let more : 0 < file_size s = omega (arith, on.1.exists) in
      seek_eof-full depth file op more (omega (arith, at, more)) (inr on)

  -- The block in the buffer does not depend on the position.
  on_from :
      (file : AdfFile) (pos : ℕ)
      → (file_size s ≡ 0) ⊎ ((k : ℕ) × IsAt s file k)
      → (file_size s ≡ 0) ⊎ ((k : ℕ) × OnBlock s (record file { pos = pos }) k)
  on_from file pos (inl empty) = inl empty
  on_from file pos (inr at) =
      let on = at.1.on in
      inr (
        at.0,
        record {
          exists = on.exists;
          number = on.number;
          sector = on.sector;
          buffer = on.buffer;
          ext_block = on.ext_block;
        },
      )

  -- Away from the block in the buffer, at the end.
  seek_away-end :
      (depth : ℕ) (file : AdfFile) (pos : ℕ)
      → IsReader s file
      → file_size s ≤ suc pos
      → Arrives s (file_seek_ext ctx (file_seek (suc depth) ctx) file (suc pos)) (file_size s)
  unfolding file_seek_ext
  seek_away-end depth file pos reader beyond =
      let op = reader.op in
      let size : byte_size file.file_hdr ≡ file_size s = ap byte_size op.header in
      let low : min (suc pos) (byte_size file.file_hdr) ≡ file_size s =
        omega (arith, size, beyond) in
      let at_end : (file_size s == byte_size file.file_hdr) ≡ true = ground (arith, size) in
      let file1 : AdfFile = record file { pos = file_size s } in
      let op1 : IsOpen s file1 = record {
        volume = op.volume;
        header = op.header;
        mode = op.mode;
        clean = op.clean;
      } in
      let there = seek_eof-ok depth file1 op1 refl (on_from file (file_size s) reader.placed) in
      (there.0, rw (low, at_end) there.1, there.2, there.3)

  -- Away from the block in the buffer.
  seek_away-ok :
      (depth : ℕ) (file : AdfFile) (pos : ℕ)
      → IsReader s file
      → Arrives s (seek_away ctx (file_seek (suc depth) ctx) file pos) (min pos (file_size s))
  unfolding seek_away
  seek_away-ok depth file zero reader = elim reader.placed [
    | inl empty ↦
        let start = seek_start-empty ctx s st file reader.op empty in
        (
          start.0,
          rw (seek_flush-clean ctx s st file reader.op) start.1,
          start.2 ∙ omega arith,
          start.3,
        )
    | inr at ↦
        let start = seek_start-full ctx s st file reader.op (omega (arith, at.1.on.exists)) in
        (
          start.0,
          rw (seek_flush-clean ctx s st file reader.op) start.1,
          start.2.same ∙ omega arith,
          ready-IsReader ctx s st start.0 0 (omega arith) start.2,
        )
  ]
  seek_away-ok depth file (suc pos) reader =
      let clean = seek_flush-clean ctx s st file reader.op in
      let not_start : (suc pos == 0) ≡ false = ground arith in
      elim (Bool-cases (ltb (suc pos) (file_size s))) [
        | inl inside ↦
            let h : suc pos < file_size s = omega (tests, inside) in
            let there =
              seek_away-inside ctx s st (file_seek (suc depth) ctx) file (suc pos) reader.op h in
            (
              there.0,
              there.1,
              there.2.same ∙ omega (arith, h),
              ready-IsReader ctx s st there.0 (suc pos) (omega (arith, h)) there.2,
            )
        | inr beyond ↦
            let h : file_size s ≤ suc pos = ground (arith, beyond) in
            let there = seek_away-end depth file pos reader h in
            (there.0, rw (clean, not_start, there.1) refl, there.2 ∙ omega (arith, h), there.3)
      ]

  -- In the block in the buffer.
  seek_here-ok :
      (file : AdfFile) (pos : ℕ)
      → IsReader s file
      → same_block ctx s st file pos ≡ true
      → IsReader s (moved_in ctx s st file (min pos (file_size s)))
  seek_here-ok file pos reader here = elim reader.placed [
    | inl empty ↦ record {
      op = record {
        volume = reader.op.volume;
        header = reader.op.header;
        mode = reader.op.mode;
        clean = reader.op.clean;
      };
      in_file = omega arith;
      placed = inl empty;
    }
    | inr at ↦
        let k = at.0 in
        let range = block_of s pos k st.sized (
          ground (arith, here, at.1.on.number)
          ∙ ap (λ v. pos / v.datablock_size) reader.op.volume) in
        ready-IsReader ctx s st (moved_in ctx s st file (min pos (file_size s)))
          (min pos (file_size s)) (omega arith)
          (moved_in-IsReady ctx s st file (min pos (file_size s)) k reader.op at.1.on
            (omega (arith, range.0, at.1.on.exists), omega (arith, range.1)))
  ]

  -- For a file whose blocks are readable and linked as AmigaDOS links them, open without unwritten
  -- changes and well placed, `adfFileSeek` to any position succeeds, in two levels of calls at most;
  -- the file is then at the position, or at its end if the position is behind it, and again well
  -- placed.
  pub file_seek-ok :
      (file : AdfFile) (pos : ℕ)
      → IsReader s file
      → (file1 : AdfFile) × (file_seek seek_depth ctx file pos ≡ some (file1, rc_ok))
        × (file1.pos ≡ min pos (file_size s))
        × IsReader s file1
  unfolding file_seek
  file_seek-ok file pos reader =
      let low : min pos (byte_size file.file_hdr) ≡ min pos (file_size s) =
        ap (λ h. min pos (byte_size h)) reader.op.header in
      elim (Bool-cases ((file.pos == pos) && not (file.cur_data_ptr == 0))) [
        | inl there ↦
            let same : file.pos ≡ pos = ground (arith, there) in
            (file, rw there refl, omega (arith, same, reader.in_file), reader)
        | inr elsewhere ↦ elim (Bool-cases (same_block ctx s st file pos)) [
          | inl here ↦ (
            moved_in ctx s st file (min pos (file_size s)),
            rw (elsewhere, here, low) refl,
            refl,
            seek_here-ok file pos reader here,
          )
          | inr away ↦
              let there = seek_away-ok 0 file pos reader in
              (there.0, rw (elsewhere, away) there.1, there.2, there.3)
        ]
      ]

  -- For a file whose blocks are readable and linked as AmigaDOS links them, open without unwritten
  -- changes and well placed, a position of the file and a number of bytes that added to it stays below
  -- 2^32: `adfFileSeek` to the position succeeds, `adfFileRead` then gives exactly the bytes of the
  -- file from there on, as many as are asked for or left, and the file is behind them.
  pub file_read-file_seek :
      (file : AdfFile) (pos n : ℕ)
      → IsReader s file
      → pos ≤ file_size s
      → pos + n < 2 ^ 32
      → (file1 file2 : AdfFile) × (file_seek seek_depth ctx file pos ≡ some (file1, rc_ok))
        × (file_read ctx file1 n ≡ some (file2, slice (content s) pos (min n (file_size s - pos))))
        × (file2.pos ≡ min (pos + n) (file_size s))
  file_read-file_seek file pos n reader inside fits =
      let sought = file_seek-ok file pos reader in
      let at : sought.0.pos ≡ pos = omega (arith, sought.2, inside) in
      let got = file_read-ok ctx s st sought.0 n sought.3 (omega (arith, at, fits)) in
      (
        sought.0,
        got.0,
        sought.1,
        got.1 ∙ ap (λ p. some (got.0, slice (content s) p (min n (file_size s - p)))) at,
        omega (arith, got.2, at),
      )

  -- For a file whose blocks are readable and linked as AmigaDOS links them, open without unwritten
  -- changes, well placed and at another position, `adfFileSeek` to the start of a block of it, not the
  -- first, succeeds and is at that position with this block as the current one, counted and in the
  -- buffer, never the one before it.
  pub file_seek-block_start :
      (file : AdfFile) (k : ℕ)
      → IsReader s file
      → HasBlock s k
      → 0 < k
      → file.pos ≢ k * block_size s
      → (file1 : AdfFile) × (file_seek seek_depth ctx file (k * block_size s) ≡ some (file1, rc_ok))
        × (file1.n_data_block ≡ suc k)
        × (file1.cur_data_ptr ≡ s.sect k)
        × (file1.current_data ≡ s.block k)
        × (file1.pos ≡ k * block_size s)
  file_seek-block_start file k reader has later elsewhere = elim reader.placed [
    | inl empty ↦ absurd (omega (arith, has, empty))
    | inr at ↦
        let there =
          seek_inside ctx s st 1 file (k * block_size s) reader.op has elsewhere
            (inr (at.0, at.1.on)) in
        let ready = there.2 in
        let same : ready.k ≡ k =
          same_number s k ready.k there.0.pos_in_data_blk st.sized ready.at ready.within in
        (
          there.0,
          there.1,
          ready.on.number ∙ ap suc same,
          ready.on.sector ∙ ap s.sect same,
          ready.on.buffer ∙ ap s.block same,
          ready.same,
        )
  ]
