-- ===== src/File/Content.antt =====
-- What a file is to its readers, apart from how src/adf_file.c gets at it: its blocks on the volume, its
-- bytes, and an open file that stands at a position of it.
use adflib.Prelude.{
  ℕ, zero, suc, ◌+◌, ◌-◌, ◌*◌, ◌/◌, ◌%◌, ◌^◌, ◌≤◌, ◌<◌, ◌≡◌, ◌≢◌, ◌⊎◌, inl, inr, ap, arith, true,
  false, List, [], ◌∷◌, length, some,
}
use adflib.Util.{byte}
use adflib.Err.{ok}
use adflib.Vol.{Volume, vol_is_ofs}
use adflib.Block.{Env, read_data_block, read_file_ext_block}
use adflib.File.Layout.{IsDataSize}
use adflib.File.Handle.{
  AdfFile, byte_size, first_data, data_block, extension, next_data, data_start,
}

-- A file on a volume: its header, its data blocks and its extension blocks by their number, with the
-- sectors they are in.
pub record Stored : Type 0 where
  pub vol : Volume
  pub hdr : List ℕ
  pub sect : ℕ → ℕ
  pub block : ℕ → List ℕ
  pub ext_sect : ℕ → ℕ
  pub ext : ℕ → List ℕ

abbrev pub block_size : Stored → ℕ
block_size s = s.vol.datablock_size

abbrev pub file_size : Stored → ℕ
file_size s = byte_size s.hdr

-- The file has data in block `k`.
abbrev pub HasBlock : Stored → ℕ → Type 0
HasBlock s k = k * block_size s < file_size s

-- OFS blocks hold 488 bytes of data, FFS blocks 512.
abbrev pub IsSized : Volume → Type 0
IsSized vol =
    ((vol_is_ofs vol ≡ true) × (vol.datablock_size ≡ 488))
    ⊎ ((vol_is_ofs vol ≡ false) × (vol.datablock_size ≡ 512))

-- The blocks can be read, and lead to each other as a file of AmigaDOS has them: the first 72 data blocks
-- are named in the header, the others 72 to an extension block; under OFS each names the next, too.
pub record IsStored (env : Env) (s : Stored) : Type 0 where
  pub sized : IsSized s.vol
  pub size_fits : file_size s < 2 ^ 32
  pub sect_range : (k : ℕ) → HasBlock s k → (2 ≤ s.sect k) × (s.sect k < 2 ^ 31)
  pub readable : (k : ℕ) → HasBlock s k → read_data_block env s.vol (s.sect k) ≡ ok (s.block k)
  pub whole : (k : ℕ) → HasBlock s k → length (s.block k) ≡ 512
  pub first : HasBlock s 0 → first_data s.hdr ≡ s.sect 0
  pub in_header : (k : ℕ) → HasBlock s k → k < 72 → data_block s.hdr (71 - k) ≡ s.sect k
  pub linked :
      vol_is_ofs s.vol ≡ true
      → (k : ℕ) → HasBlock s (suc k)
      → next_data (s.block k) ≡ s.sect (suc k)
  pub in_ext :
      (e i : ℕ)
      → HasBlock s (72 + 72 * e + i)
      → i < 72
      → data_block (s.ext e) (71 - i) ≡ s.sect (72 + 72 * e + i)
  pub ext_readable :
      (e : ℕ)
      → HasBlock s (72 + 72 * e)
      → read_file_ext_block env s.vol (s.ext_sect e) ≡ ok (s.ext e)
  pub ext_not_zero : (e : ℕ) → HasBlock s (72 + 72 * e) → s.ext_sect e ≢ 0
  pub first_ext : HasBlock s 72 → extension s.hdr ≡ s.ext_sect 0
  pub next_ext : (e : ℕ) → HasBlock s (144 + 72 * e) → extension (s.ext e) ≡ s.ext_sect (suc e)

-- The byte at a position.
abbrev pub content : Stored → ℕ → ℕ
content s p = byte (s.block (p / block_size s)) (data_start s.vol + p % block_size s)

-- The `n` bytes from `from` on.
abbrev pub slice : (ℕ → ℕ) → ℕ → ℕ → List ℕ
slice f from zero = []
slice f from (suc n) = f from ∷ slice f (suc from) n

-- The block in the buffer is block `k`, and the extension block is its own, where the next is looked up
-- in it.
pub record OnBlock (s : Stored) (file : AdfFile) (k : ℕ) : Type 0 where
  pub exists : HasBlock s k
  pub number : file.n_data_block ≡ suc k
  pub sector : file.cur_data_ptr ≡ s.sect k
  pub buffer : file.current_data ≡ s.block k
  pub ext_block :
      vol_is_ofs s.vol ≡ false
      → (e i : ℕ) → k ≡ 72 + 72 * e + i
      → i < 72
      → (file.current_ext ≡ some (s.ext e)) × (file.pos_in_ext_blk ≡ suc i)

-- The file is open for reading, with no change that is not written.
pub record IsOpen (s : Stored) (file : AdfFile) : Type 0 where
  pub volume : file.volume ≡ s.vol
  pub header : file.file_hdr ≡ s.hdr
  pub mode : file.mode_read ≡ true
  pub clean : file.current_data_block_changed ≡ false

-- The position is in block `k`, which is in the buffer, or just behind it.
pub record IsAt (s : Stored) (file : AdfFile) (k : ℕ) : Type 0 where
  pub on : OnBlock s file k
  pub at : file.pos ≡ k * block_size s + file.pos_in_data_blk
  pub within : file.pos_in_data_blk ≤ block_size s

-- An open file at a position of its data; an empty file has no block for it.
pub record IsReader (s : Stored) (file : AdfFile) : Type 0 where
  pub op : IsOpen s file
  pub in_file : file.pos ≤ file_size s
  pub placed : (file_size s ≡ 0) ⊎ ((k : ℕ) × IsAt s file k)

-- The file has the byte at `pos` in the buffer, and is there.
pub record IsReady (s : Stored) (file : AdfFile) (pos : ℕ) : Type 0 where
  pub op : IsOpen s file
  pub k : ℕ
  pub on : OnBlock s file k
  pub same : file.pos ≡ pos
  pub at : pos ≡ k * block_size s + file.pos_in_data_blk
  pub within : file.pos_in_data_blk < block_size s

pub block_size-le : (s : Stored) → IsSized s.vol → (488 ≤ block_size s) × (block_size s ≤ 512)
block_size-le s (inl sized) = (omega (arith, sized.1), omega (arith, sized.1))
block_size-le s (inr sized) = (omega (arith, sized.1), omega (arith, sized.1))

-- A file that has a block has those before it.
pub HasBlock-le : (s : Stored) (a b : ℕ) → IsSized s.vol → HasBlock s b → a ≤ b → HasBlock s a
HasBlock-le s a b (inl sized) has h =
    omega (arith, sized.1, h, has, ap (λ n. a * n) sized.1, ap (λ n. b * n) sized.1)
HasBlock-le s a b (inr sized) has h =
    omega (arith, sized.1, h, has, ap (λ n. a * n) sized.1, ap (λ n. b * n) sized.1)

pub IsSized-IsDataSize : (s : Stored) → IsSized s.vol → IsDataSize (block_size s)
IsSized-IsDataSize s (inl sized) = inl sized.1
IsSized-IsDataSize s (inr sized) = inr sized.1
