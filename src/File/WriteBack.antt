-- ===== src/File/WriteBack.antt =====
-- What `adfFileWrite` puts into the block in the buffer, src/adf_file.c, `adfFileRead` finds there.
use adflib.Prelude.{
  ℕ, zero, suc, ◌+◌, ◌-◌, ◌*◌, ◌/◌, ◌%◌, ◌^◌, ◌≤◌, ◌<◌, ◌≡◌, ◌≢◌, inl, inr, refl, ap, ◌∙◌, arith,
  min, max, Bool, true, false, not, ◌&&◌, ◌||◌, List, [], ◌∷◌, ◌++◌, length, length-take,
  length-append, take, drop, set, ◌==◌, if◌then◌else◌, Bool-cases, some,
}
use adflib.Dev.Blocks.{byte-take, byte-append}
use adflib.Util.{byte, u32, load32, store32}
use adflib.Err.{rc_ok}
use adflib.Vol.{vol_is_ofs}
use adflib.Block.Members.{load32-store32_self}
use adflib.File.Handle.{
  AdfFile, Context, byte_size, data_start, read_turn, read_copy, read_loop, read_size, file_read,
}
use adflib.File.Seek.{file_seek, seek_depth}
use adflib.File.Write.{put_at, write_turn, write_copy, write_loop, file_write}
use adflib.File.Content.{IsSized}
use adflib.File.Copy.{header_fits}

take-put : (buf rest : List ℕ) → take (length buf) (buf ++ rest) ≡ buf
take-put [] rest = refl
take-put (x ∷ buf) rest = ap (λ t. x ∷ t) (take-put buf rest)

drop-put :
    (block : List ℕ) (p : ℕ) (rest : List ℕ)
    → p ≤ length block
    → drop p (take p block ++ rest) ≡ rest
drop-put block zero rest h = refl
drop-put [] (suc p) rest h = absurd (omega arith)
drop-put (x ∷ block) (suc p) rest h = drop-put block p rest (omega arith)

-- What is put into a block is there.
put_at-read :
    (block : List ℕ) (p : ℕ) (buf : List ℕ)
    → p ≤ length block
    → take (length buf) (drop p (put_at block p buf)) ≡ buf
put_at-read block p buf h =
    ap (take (length buf)) (drop-put block p (buf ++ drop (p + length buf) block) h)
    ∙ take-put buf (drop (p + length buf) block)

byte_front : (xs ys : List ℕ) (i : ℕ) → i < length xs → byte (xs ++ ys) i ≡ byte xs i
byte_front xs ys i h = ground (arith, byte-append xs ys i)

byte-put_at :
    (block : List ℕ) (p : ℕ) (buf : List ℕ) (i : ℕ)
    → i < p
    → p ≤ length block
    → byte (put_at block p buf) i ≡ byte block i
byte-put_at block zero buf i h k = absurd (omega arith)
byte-put_at [] (suc p) buf i h k = absurd (omega arith)
byte-put_at (x ∷ block) (suc p) buf zero h k = refl
byte-put_at (x ∷ block) (suc p) buf (suc i) h k =
    byte_front (take p block) (buf ++ drop (suc p + length buf) (x ∷ block)) i
      (omega (arith, length-take {0} p block))
    ∙ byte-take p i block (omega arith)

drop-set : (block : List ℕ) (p i v : ℕ) → i < p → drop p (set block i v) ≡ drop p block
drop-set [] p i v h = refl
drop-set (x ∷ block) zero i v h = absurd (omega arith)
drop-set (x ∷ block) (suc p) zero v h = refl
drop-set (x ∷ block) (suc p) (suc i) v h = drop-set block p i v (omega arith)

-- A member before `p` is stored, and what stands from `p` on stays.
drop-store32 : (block : List ℕ) (p i v : ℕ) → i + 3 < p → drop p (store32 block i v) ≡ drop p block
unfolding store32
drop-store32 block p i v h =
    let one = set block i (v % 2 ^ 8) in
    let two = set one (i + 1) (v / 2 ^ 8 % 2 ^ 8) in
    let three = set two (i + 2) (v / 2 ^ 16 % 2 ^ 8) in
    drop-set three p (i + 3) (v / 2 ^ 24 % 2 ^ 8) (omega arith)
    ∙ drop-set two p (i + 2) (v / 2 ^ 16 % 2 ^ 8) (omega arith)
    ∙ drop-set one p (i + 1) (v / 2 ^ 8 % 2 ^ 8) (omega arith)
    ∙ drop-set block p i (v % 2 ^ 8) (omega arith)

-- An open file that stands inside the block in its buffer, with room for the bytes there.
pub record HasRoom (file : AdfFile) (buf : List ℕ) : Type 0 where
  pub sized : IsSized file.volume
  pub reads : file.mode_read ≡ true
  pub writes : file.mode_write ≡ true
  pub k : ℕ
  pub number : file.n_data_block ≡ suc k
  pub loaded : file.cur_data_ptr ≢ 0
  pub at : file.pos ≡ k * file.volume.datablock_size + file.pos_in_data_blk
  pub inside : 0 < file.pos_in_data_blk
  pub room : file.pos_in_data_blk + length buf ≤ file.volume.datablock_size
  pub some_bytes : 0 < length buf
  pub whole : length file.current_data ≡ 512
  pub whole_hdr : length file.file_hdr ≡ 512
  pub small : byte_size file.file_hdr < 2 ^ 32
  pub small_data : load32 file.current_data 12 < 2 ^ 32
  pub fits : file.pos + length buf < 2 ^ 32

-- The file after the write.
abbrev put : AdfFile → List ℕ → AdfFile
put file buf =
    let data' = put_at file.current_data (data_start file.volume + file.pos_in_data_blk) buf in
    let in_blk = file.pos_in_data_blk + length buf in
    record file {
      pos = file.pos + length buf;
      pos_in_data_blk = in_blk;
      current_data_block_changed = true;
      current_data =
          if vol_is_ofs file.volume then store32 data' 12 (max (load32 data' 12) in_blk) else data';
      file_hdr = store32 file.file_hdr 324 (max (byte_size file.file_hdr) (file.pos + length buf));
    }

take-all : (buf : List ℕ) → take (length buf) buf ≡ buf
take-all [] = refl
take-all (x ∷ buf) = ap (λ t. x ∷ t) (take-all buf)

length-drop_all : (buf : List ℕ) → length (drop (length buf) buf) ≡ 0
length-drop_all [] = refl
length-drop_all (x ∷ buf) = length-drop_all buf

write_loop-done :
    (fuel : ℕ) (ctx : Context) (file : AdfFile) (buf : List ℕ) (written : ℕ)
    → 0 < fuel
    → length buf ≡ 0
    → write_loop fuel ctx file buf written ≡ some (file, written)
unfolding write_loop
write_loop-done zero ctx file buf written h e = absurd (omega arith)
write_loop-done (suc fuel) ctx file buf written h e =
    let none_left : (length buf == 0) ≡ true = ground (arith, e) in rw none_left refl

read_loop-done :
    (fuel : ℕ) (ctx : Context) (file : AdfFile) (n : ℕ)
    → 0 < fuel
    → n ≡ 0
    → read_loop fuel ctx file n ≡ some (file, [])
unfolding read_loop
read_loop-done zero ctx file n h e = absurd (omega arith)
read_loop-done (suc fuel) ctx file n h e =
    let none_left : (n == 0) ≡ true = ground (arith, e) in rw none_left refl

append_nil : (xs : List ℕ) → xs ++ [] ≡ xs
append_nil [] = refl
append_nil (x ∷ xs) = ap (λ t. x ∷ t) (append_nil xs)

inside_block :
    (file : AdfFile) (k q : ℕ)
    → IsSized file.volume
    → 0 < q
    → q < file.volume.datablock_size
    → let pos = k * file.volume.datablock_size + q in
      ((pos % file.volume.datablock_size == 0) ≡ false)
      × (pos % file.volume.datablock_size ≡ q)
      × (pos / file.volume.datablock_size ≡ k)
inside_block file k q (inl sized) h within = rw (sized.1) (
  ground (arith, h, within, sized.1),
  omega (arith, within, sized.1),
  omega (arith, within, sized.1),
)
inside_block file k q (inr sized) h within = rw (sized.1) (
  ground (arith, h, within, sized.1),
  omega (arith, within, sized.1),
  omega (arith, within, sized.1),
)

module _ (ctx : Context) (file : AdfFile) (buf : List ℕ) (r : HasRoom file buf) where
  within : file.pos_in_data_blk < file.volume.datablock_size
  within = omega (arith, r.room, r.some_bytes)

  bounded : (488 ≤ file.volume.datablock_size) × (file.volume.datablock_size ≤ 512)
  bounded = elim r.sized [
    | inl e ↦ (omega (arith, e.1), omega (arith, e.1))
    | inr e ↦ (omega (arith, e.1), omega (arith, e.1))
  ]

  write_copy-room : write_copy file buf ≡ (put file buf, length buf)
  unfolding write_copy
  write_copy-room =
      let all : min (length buf) (u32 (file.volume.datablock_size + 2 ^ 32 - file.pos_in_data_blk))
          ≡ length buf =
        omega (arith, r.room, bounded.1, within) in
      let at : u32 (file.pos + length buf) ≡ file.pos + length buf = omega (arith, r.fits) in
      rw (all, take-all buf, at) refl

  write_turn-room : write_turn ctx file ≡ some (file, rc_ok)
  unfolding write_turn
  write_turn-room =
      let e = inside_block file r.k file.pos_in_data_blk r.sized r.inside within in
      let part : (file.pos % file.volume.datablock_size == 0) ≡ false =
        ap (λ p. p % file.volume.datablock_size == 0) r.at ∙ e.0 in
      rw part refl

  file_write-room : file_write ctx file buf ≡ some (put file buf, length buf)
  unfolding file_write write_loop
  file_write-room =
      let more : (length buf == 0) ≡ false = ground (arith, r.some_bytes) in
      let done =
        write_loop-done (length buf) ctx (put file buf) (drop (length buf) buf) (0 + length buf)
          r.some_bytes (length-drop_all buf) in
      let count : 0 + length buf ≡ length buf = omega arith in
      let guard : not file.mode_write || (length buf == 0) ≡ false =
        ground (arith, r.writes, r.some_bytes) in
      rw (guard, more, write_turn-room, write_copy-room)
        (done ∙ ap (λ n. some (put file buf, n)) count)

  -- The file is sought back to where the write began.
  abbrev back : AdfFile
  back =
      let pos = file.pos in
      record (put file buf) { pos = pos; pos_in_data_blk = pos % file.volume.datablock_size }

  size_after :
      byte_size (put file buf).file_hdr ≡ max (byte_size file.file_hdr) (file.pos + length buf)
  size_after =
      load32-store32_self file.file_hdr 324 (max (byte_size file.file_hdr) (file.pos + length buf))
        (omega (arith, r.whole_hdr)) (omega (arith, r.small, r.fits))

  in_part :
      (file.pos % file.volume.datablock_size ≡ file.pos_in_data_blk)
      × (file.pos / file.volume.datablock_size ≡ r.k)
  in_part =
      let e = inside_block file r.k file.pos_in_data_blk r.sized r.inside within in
      (
        ap (λ p. p % file.volume.datablock_size) r.at ∙ e.1,
        ap (λ p. p / file.volume.datablock_size) r.at ∙ e.2,
      )

  file_seek-back : file_seek seek_depth ctx (put file buf) file.pos ≡ some (back, rc_ok)
  unfolding file_seek
  file_seek-back =
      let elsewhere : (file.pos + length buf == file.pos) && not (file.cur_data_ptr == 0) ≡ false =
        ground (arith, r.some_bytes) in
      let here : not (file.cur_data_ptr == 0)
            && (file.n_data_block - 1 == file.pos / file.volume.datablock_size)
          ≡ true =
        ground (arith, r.loaded, r.number, in_part.1) in
      let low : min file.pos (byte_size (put file buf).file_hdr) ≡ file.pos =
        omega (arith, size_after) in
      rw (elsewhere, here, low) refl

  load32-put_at :
      16 ≤ data_start file.volume + file.pos_in_data_blk
      → load32 (put_at file.current_data (data_start file.volume + file.pos_in_data_blk) buf) 12
        ≡ load32 file.current_data 12
  unfolding load32
  load32-put_at h =
      let start = data_start file.volume + file.pos_in_data_blk in
      let at = λ (i : ℕ) (q : i < start).
        byte-put_at file.current_data start buf i q
          (omega (arith, header_fits file.volume r.sized, within, r.whole)) in
      ground
        (arith, at 12 (omega arith), at 13 (omega arith), at 14 (omega arith), at 15 (omega arith))

  -- The size that an OFS block counts.
  data_size_after :
      vol_is_ofs file.volume ≡ true
      → load32 (put file buf).current_data 12
        ≡ max (load32 file.current_data 12) (file.pos_in_data_blk + length buf)
  data_size_after ofs =
      let start = data_start file.volume + file.pos_in_data_blk in
      let data' = put_at file.current_data start buf in
      let v = max (load32 data' 12) (file.pos_in_data_blk + length buf) in
      let low_start : 16 ≤ start = ground (arith, ofs) in
      let same : load32 data' 12 ≡ load32 file.current_data 12 = load32-put_at low_start in
      let long : 15 < length data' = omega (
        arith,
        length-append {0} (take start file.current_data)
            (buf ++ drop (start + length buf) file.current_data),
        length-take {0} start file.current_data,
        header_fits file.volume r.sized,
        within,
        r.whole,
        low_start,
      ) in
      ap (λ (b : Bool). load32 (if b then store32 data' 12 v else data') 12) ofs
      ∙ load32-store32_self data' 12 v long (omega (arith, same, r.small_data, r.room, bounded.1))
      ∙ ap (λ n. max n (file.pos_in_data_blk + length buf)) same

  -- What stands in the buffer from the place of the write on.
  in_buffer :
      take
        (length buf)
        (drop (data_start file.volume + file.pos_in_data_blk) (put file buf).current_data)
      ≡ buf
  in_buffer =
      let start = data_start file.volume + file.pos_in_data_blk in
      let data' = put_at file.current_data start buf in
      let v = max (load32 data' 12) (file.pos_in_data_blk + length buf) in
      let low : start ≤ length file.current_data =
        omega (arith, header_fits file.volume r.sized, within, r.whole) in
      elim (Bool-cases (vol_is_ofs file.volume)) [
        | inl ofs ↦
            let behind : 15 < start = ground (arith, ofs) in
            ap
              (λ (b : Bool).
                take (length buf) (drop start (if b then store32 data' 12 v else data')))
              ofs
            ∙ ap (take (length buf)) (drop-store32 data' start 12 v behind)
            ∙ put_at-read file.current_data start buf low
        | inr ffs ↦
            ap
              (λ (b : Bool).
                take (length buf) (drop start (if b then store32 data' 12 v else data')))
              ffs
            ∙ put_at-read file.current_data start buf low
      ]

  read_turn-back : read_turn ctx back ≡ some (back, rc_ok)
  unfolding read_turn
  read_turn-back =
      let part : (file.pos % file.volume.datablock_size == file.volume.datablock_size) ≡ false =
        ground (arith, in_part.0, within) in
      rw part refl

  -- The file after the bytes are read again.
  abbrev after : AdfFile
  after = record back {
    pos = file.pos + length buf;
    pos_in_data_blk = file.pos % file.volume.datablock_size + length buf;
  }

  read_copy-back : read_copy back (length buf) ≡ (after, buf)
  unfolding read_copy
  read_copy-back =
      let q = file.pos % file.volume.datablock_size in
      let all : min (length buf) (u32 (file.volume.datablock_size + 2 ^ 32 - q)) ≡ length buf =
        omega (arith, r.room, bounded.1, within, in_part.0) in
      let at : u32 (file.pos + length buf) ≡ file.pos + length buf = omega (arith, r.fits) in
      let bytes : take (length buf) (drop (data_start file.volume + q) (put file buf).current_data)
          ≡ buf =
        ap (λ p. take (length buf) (drop (data_start file.volume + p) (put file buf).current_data))
          in_part.0
        ∙ in_buffer in
      rw (all, at) (λ i. (after, bytes i))

  read_loop-back : read_loop (suc (length buf)) ctx back (length buf) ≡ some (after, buf)
  unfolding read_loop
  read_loop-back =
      let more : (length buf == 0) ≡ false = ground (arith, r.some_bytes) in
      let done =
        read_loop-done (length buf) ctx after (length buf - length buf) r.some_bytes
          (omega arith) in
      rw (more, read_turn-back, read_copy-back, done)
        (ap (λ (t : List ℕ). some (after, t)) (append_nil buf))

  file_read-back : file_read ctx back (length buf) ≡ some (after, buf)
  unfolding file_read
  file_read-back =
      let guard : not file.mode_read
            || ((length buf == 0)
                || ((byte_size (put file buf).file_hdr == 0)
                    || (file.pos == byte_size (put file buf).file_hdr)))
          ≡ false =
        ground (arith, r.reads, r.some_bytes, size_after) in
      let size : read_size back (length buf) ≡ length buf = ground (arith, size_after, r.fits) in
      rw (guard, size) read_loop-back

  -- For a file open for reading and writing, with a block loaded, its header and its buffer of 512
  -- bytes and its size and the data size of the block below 2^32, whose position is inside the current
  -- block and behind its start, and one byte or more for which there is room in that block, and which
  -- keep the position below 2^32: `adfFileWrite` of the bytes writes them all, `adfFileSeek` back to
  -- the position succeeds, and `adfFileRead` of as many gives the bytes that were written, also where
  -- they made the file longer. After the write, the size of the file is the larger of its old one and
  -- the position behind the bytes, and in an OFS block so is the data size, with the position in the
  -- block.
  pub file_read-file_write :
      (file1 file2 file3 : AdfFile) × (file_write ctx file buf ≡ some (file1, length buf))
      × (file_seek seek_depth ctx file1 file.pos ≡ some (file2, rc_ok))
      × (file_read ctx file2 (length buf) ≡ some (file3, buf))
      × (byte_size file1.file_hdr ≡ max (byte_size file.file_hdr) (file.pos + length buf))
      × (vol_is_ofs file.volume ≡ true
          → load32 file1.current_data 12
            ≡ max (load32 file.current_data 12) (file.pos_in_data_blk + length buf))
  file_read-file_write = (
    put file buf,
    back,
    after,
    file_write-room,
    file_seek-back,
    file_read-back,
    size_after,
    data_size_after,
  )
