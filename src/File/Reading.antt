-- ===== src/File/Reading.antt =====
-- Reading a file, src/adf_file.c `adfFileRead`: it gives the bytes of the file from the position on.
use adflib.Prelude.{
  ℕ, zero, suc, ◌+◌, ◌-◌, ◌^◌, ◌≤◌, ◌<◌, ◌≡◌, ◌≢◌, inl, inr, refl, sym, ap, ◌∙◌, arith, true, false,
  List, min, ◌++◌, length, not, ◌||◌, ◌==◌, Bool-cases, some, Fault,
}
use mathlib.Core.Path.{subst}
use adflib.Util.{u32}
use adflib.Err.{rc_ok}
use adflib.File.Handle.{
  AdfFile, Context, byte_size, data_start, file_at_eof, read_turn, read_copy, read_loop, read_size,
  file_read,
}
use adflib.File.Content.{
  Stored, block_size, file_size, HasBlock, IsStored, content, slice, IsOpen, IsAt, IsReady,
  IsReader, block_size-le,
}
use adflib.File.Copy.{length-slice, slice-add, copied}
use adflib.File.Load.{on_block}
use adflib.File.Next.{read_next-ok}

-- One turn of the loop, of its parts.
read_loop-suc :
    (ctx : Context) (fuel n : ℕ) (file file1 file2 file3 : AdfFile) (bytes more : List ℕ)
    → read_turn ctx file ≡ some (file1, rc_ok)
    → read_copy file1 (suc n) ≡ (file2, bytes)
    → read_loop fuel ctx file2 (suc n - length bytes) ≡ some (file3, more)
    → read_loop (suc fuel) ctx file (suc n) ≡ some (file3, bytes ++ more)
unfolding read_loop
read_loop-suc ctx fuel n file file1 file2 file3 bytes more turn copy rest =
    let not_done : (suc n == 0) ≡ false = ground arith in rw (not_done, turn, copy, rest) refl

module _ (ctx : Context) (s : Stored) (st : IsStored ctx.env s) where
  -- The turn leaves some data to copy.
  read_turn-ok :
      (file : AdfFile) (k : ℕ)
      → IsOpen s file
      → IsAt s file k
      → file.pos < file_size s
      → (file1 : AdfFile) × (read_turn ctx file ≡ some (file1, rc_ok)) × IsReady s file1 file.pos
  unfolding read_turn
  read_turn-ok file k op here more =
      elim (Bool-cases (file.pos_in_data_blk == file.volume.datablock_size)) [
        | inl full ↦
            let q : file.pos_in_data_blk ≡ block_size s = ground (arith, full, op.volume) in
            let has : HasBlock s (suc k) = omega (arith, here.at, q, more) in
            let next = read_next-ok ctx s st file k op here.on has in
            let pre : AdfFile = on_block s file next.0 next.1 (suc k) in
            let file1 : AdfFile = record pre {
              pos_in_data_blk = 0;
              current_data_block_changed = false;
            } in
            (
              file1,
              rw (full, next.2) refl,
              record {
                op = record {
                  volume = op.volume;
                  header = op.header;
                  mode = op.mode;
                  clean = refl;
                };
                k = suc k;
                on = record {
                  exists = has;
                  number = refl;
                  sector = refl;
                  buffer = refl;
                  ext_block = next.3.ext_block;
                };
                same = refl;
                at = omega (arith, here.at, q);
                within = omega (arith, (block_size-le s st.sized).0);
              },
            )
        | inr part ↦
            let q : file.pos_in_data_blk < block_size s =
              ground (arith, part, here.within, op.volume) in
            (
              file,
              rw part refl,
              record { op = op; k = k; on = here.on; same = refl; at = here.at; within = q },
            )
      ]

  -- The file after the copy of `m` bytes.
  abbrev moved : AdfFile → ℕ → ℕ → AdfFile
  moved file pos m = record file { pos = pos + m; pos_in_data_blk = file.pos_in_data_blk + m }

  -- How much is copied of `n` bytes.
  abbrev part : AdfFile → ℕ → ℕ
  part file n = min n (block_size s - file.pos_in_data_blk)

  read_copy-ok :
      (file : AdfFile) (pos n : ℕ)
      → IsReady s file pos
      → pos + n ≤ file_size s
      → read_copy file n ≡ (moved file pos (part file n), slice (content s) pos (part file n))
  unfolding read_copy
  read_copy-ok file pos n ready fits =
      let q = file.pos_in_data_blk in
      let bs = block_size-le s st.sized in
      let bs_eq : file.volume.datablock_size ≡ block_size s =
        ap (λ v. v.datablock_size) ready.op.volume in
      let left : u32 (file.volume.datablock_size + 2 ^ 32 - q) ≡ block_size s - q =
        omega (arith, bs_eq, bs.1, ready.within) in
      let at : u32 (file.pos + part file n) ≡ pos + part file n =
        omega (arith, ready.same, st.size_fits, fits) in
      let start : data_start file.volume ≡ data_start s.vol = ap data_start ready.op.volume in
      let bytes =
        copied s ready.k q (part file n) st.sized (st.whole ready.k ready.on.exists)
          (omega (arith, ready.within)) in
      rw (left, at, start, ready.on.buffer, bytes, sym ready.at) refl

  -- The loop gives the bytes that are asked for, and the file stands behind them.
  Reads : Fault (AdfFile × List ℕ) → ℕ → ℕ → Type 0
  Reads result pos n =
      (file : AdfFile) × (result ≡ some (file, slice (content s) pos n))
      × (file.pos ≡ pos + n)
      × IsOpen s file
      × ((k : ℕ) × IsAt s file k)

  -- A turn and a copy, before the rest of the loop.
  read_loop-turned :
      (fuel : ℕ) (file file1 : AdfFile) (pos n : ℕ)
      → read_turn ctx file ≡ some (file1, rc_ok)
      → IsReady s file1 pos
      → pos + suc n ≤ file_size s
      → ((file2 : AdfFile) (k m : ℕ)
          → IsOpen s file2
          → IsAt s file2 k
          → file2.pos ≡ pos + m
          → 1 ≤ m
          → m ≤ suc n
          → Reads (read_loop fuel ctx file2 (suc n - m)) (pos + m) (suc n - m))
      → Reads (read_loop (suc fuel) ctx file (suc n)) pos (suc n)
  unfolding Reads
  read_loop-turned fuel file file1 pos n turn ready fits go =
      let m = part file1 (suc n) in
      let copy = read_copy-ok file1 pos (suc n) ready fits in
      let len : suc n - length (slice (content s) pos m) ≡ suc n - m =
        ap (λ t. suc n - t) (length-slice (content s) pos m) in
      let file2 = moved file1 pos m in
      let whole : m + (suc n - m) ≡ suc n = omega arith in
      let joined : slice (content s) pos m ++ slice (content s) (pos + m) (suc n - m)
          ≡ slice (content s) pos (suc n) =
        slice-add (content s) pos m (suc n - m) ∙ ap (slice (content s) pos) whole in
      let rest =
        go file2 ready.k m
          (record {
            volume = ready.op.volume;
            header = ready.op.header;
            mode = ready.op.mode;
            clean = ready.op.clean;
          })
          (record {
            on = record {
              exists = ready.on.exists;
              number = ready.on.number;
              sector = ready.on.sector;
              buffer = ready.on.buffer;
              ext_block = ready.on.ext_block;
            };
            at = omega (arith, ready.at);
            within = omega (arith, ready.within);
          })
          refl (omega (arith, ready.within)) (omega arith) in
      (
        rest.0,
        read_loop-suc ctx fuel n file file1 file2 rest.0 (slice (content s) pos m)
              (slice (content s) (pos + m) (suc n - m)) turn copy
              (ap (read_loop fuel ctx file2) len ∙ rest.1)
            ∙ ap (λ (t : List ℕ). some (rest.0, t)) joined,
        rest.2 ∙ omega arith,
        rest.3,
        rest.4,
      )

  read_loop-ok :
      (fuel : ℕ) (file : AdfFile) (k pos n : ℕ)
      → IsOpen s file
      → IsAt s file k
      → file.pos ≡ pos
      → pos + n ≤ file_size s
      → n < fuel
      → Reads (read_loop fuel ctx file n) pos n
  unfolding read_loop Reads
  read_loop-ok zero file k pos n op here same fits h = absurd (omega arith)
  read_loop-ok (suc fuel) file k pos zero op here same fits h =
      (file, refl, omega (arith, same), op, (k, here))
  read_loop-ok (suc fuel) file k pos (suc n) op here same fits h =
      let turn = read_turn-ok file k op here (omega (arith, same, fits)) in
      read_loop-turned fuel file turn.0 pos n turn.1 (subst (IsReady s turn.0) same turn.2) fits
        (λ file2 k2 m op2 here2 same2 some_read low.
          read_loop-ok fuel file2 k2 (pos + m) (suc n - m) op2 here2 same2
            (omega (arith, fits, low)) (omega (arith, h, some_read)))

  -- How much a call reads.
  abbrev amount : AdfFile → ℕ → ℕ
  amount file n = min n (file_size s - file.pos)

  read_nothing :
      (file : AdfFile) (n : ℕ)
      → IsReader s file
      → (not file.mode_read || ((n == 0) || ((byte_size file.file_hdr == 0) || file_at_eof file)))
        ≡ true
      → amount file n ≡ 0
  read_nothing file n reader nothing =
      let size : byte_size file.file_hdr ≡ file_size s = ap byte_size reader.op.header in
      ground (arith, nothing, reader.op.mode, size, reader.in_file)

  read_size-amount :
      (file : AdfFile) (n : ℕ)
      → IsReader s file
      → file.pos + n < 2 ^ 32
      → read_size file n ≡ amount file n
  read_size-amount file n reader fits =
      let size : byte_size file.file_hdr ≡ file_size s = ap byte_size reader.op.header in
      ground (arith, size, reader.in_file, st.size_fits)

  -- For a file whose blocks are readable and linked as AmigaDOS links them, open without unwritten
  -- changes and well placed, with its position and the number of bytes asked for below 2^32 together:
  -- `adfFileRead` ends and gives exactly the bytes of the file from the position on, as many as are
  -- asked for or left; the position is then behind them, and the file is again well placed.
  pub file_read-ok :
      (file : AdfFile) (n : ℕ)
      → IsReader s file
      → file.pos + n < 2 ^ 32
      → (file1 : AdfFile) × (file_read ctx file n
          ≡ some (file1, slice (content s) file.pos (min n (file_size s - file.pos))))
        × (file1.pos ≡ min (file.pos + n) (file_size s))
        × IsReader s file1
  unfolding file_read Reads
  file_read-ok file n reader fits =
      elim (Bool-cases (
        not file.mode_read || ((n == 0) || ((byte_size file.file_hdr == 0) || file_at_eof file)))) [
          | inl nothing ↦
              let none_left = read_nothing file n reader nothing in
              (
                file,
                rw nothing (ap (λ t. some (file, slice (content s) file.pos t)) (sym none_left)),
                omega (arith, none_left, reader.in_file),
                reader,
              )
          | inr something ↦
              let some_left : file_size s ≢ 0 =
                λ e. ground (arith, something, e, reader.op.header) in
              elim reader.placed [
                | inl empty ↦ absurd (some_left empty)
                | inr here ↦
                    let m = amount file n in
                    let loop =
                      read_loop-ok (suc m) file here.0 file.pos m reader.op here.1 refl
                        (omega (arith, reader.in_file)) (omega arith) in
                    (
                      loop.0,
                      rw (something, read_size-amount file n reader fits) loop.1,
                      omega (arith, loop.2, reader.in_file),
                      record {
                        op = loop.3;
                        in_file = omega (arith, loop.2, reader.in_file);
                        placed = inr loop.4;
                      },
                    )
              ]
        ]
