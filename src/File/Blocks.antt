-- ===== src/File/Blocks.antt =====
-- src/adf_file_block.c, `adfGetFileBlocks` and `adfFreeFileBlocks`: the blocks of a file are listed and
-- freed. The vectors of the source are lists; what is put past the end of one stops the program here, so
-- that the room in the vector of the extension blocks bounds the loop over them.
use adflib.Prelude.{
  ℕ, zero, suc, ◌-◌, ◌^◌, min, not, ◌&&◌, List, [], ◌∷◌, ◌++◌, length, none, some, ltb, leb, ◌==◌,
  if◌then◌else◌, ◌>>?◌, Fault,
}
use adflib.Util.{load32}
use adflib.Err.{RetCode, rc_ok, rc_error, rc_malloc, Result, ok, err, ◌>>=◌}
use adflib.Vol.{Volume}
use adflib.Block.{Env, read_file_ext_block}
use adflib.Bitmap.{set_block_free}
use adflib.Cache.Chain.{header_key}
use adflib.File.{max_datablk, file_real_size}
use adflib.File.Handle.{byte_size, data_block, extension}

pub record FileBlocks : Type 0 where
  pub header : ℕ
  pub data_sectors : List ℕ
  pub extens : List ℕ

abbrev pub high_seq : List ℕ → ℕ
high_seq block = load32 block 8

-- `dataBlocks[ ADF_MAX_DATABLK - 1 - i ]` for `n` values of `i`; outside the array it stops.
unfoldable pub named_blocks : List ℕ → ℕ → ℕ → Fault (List ℕ)
named_blocks block i zero = some []
named_blocks block i (suc n) =
    let rest = named_blocks block (suc i) n in
    if ltb i max_datablk
    then (rest >>? λ more. some (data_block block (max_datablk - 1 - i) ∷ more))
    else none

-- The blocks that a header or an extension block names: none for a count below 0.
unfoldable pub blocks_in : List ℕ → Fault (List ℕ)
blocks_in block =
    if leb (2 ^ 31) (high_seq block)
    then some []
    else named_blocks block 0 (min 73 (high_seq block))

-- The loop over the extension blocks, with the room that is left in the two vectors: the data blocks named
-- in them, and the extension blocks.
unfoldable pub ext_blocks : ℕ → ℕ → Env → Volume → ℕ → Fault (Result (List ℕ × List ℕ))
ext_blocks zero room env vol n_sect = if n_sect == 0 then some (ok ([], [])) else none
ext_blocks (suc ext_room) room env vol n_sect =
    if n_sect == 0 then some (ok ([], [])) else elim (read_file_ext_block env vol n_sect) [
      | err rc ↦ some (err rc)
      | ok ext_block ↦ blocks_in ext_block >>? λ here.
          let rest = ext_blocks ext_room (room - length here) env vol (extension ext_block) in
          if ltb room (length here)
          then none
          else (rest >>? λ more. elim more [
            | err rc ↦ some (err rc)
            | ok m ↦ some (ok (here ++ m.0, n_sect ∷ m.1))
          ])
    ]

-- The last checks: the vectors are full.
unfoldable pub checked_blocks : ℕ → ℕ → FileBlocks → Result FileBlocks
checked_blocks data_n exten_n blocks =
    if (length blocks.data_sectors == data_n) && (length blocks.extens == exten_n)
    then ok blocks
    else err rc_error

-- A vector of no items has no memory, which is taken for a failed allocation.
unfoldable pub get_file_blocks : Env → Volume → List ℕ → Fault (Result FileBlocks)
get_file_blocks env vol entry =
    let (size, data_n, exten_n) = file_real_size (byte_size entry) vol.datablock_size in
    let all = λ (here : List ℕ) (more : List ℕ × List ℕ).
      checked_blocks data_n exten_n
        (record { header = header_key entry; data_sectors = here ++ more.0; extens = more.1 }) in
    if not (high_seq entry == min data_n max_datablk)
    then some (err rc_error)
    else if data_n == 0
    then some (err rc_malloc)
    else (blocks_in entry >>? λ here.
        if exten_n == 0
        then some (all here ([], []))
        else (ext_blocks exten_n (data_n - length here) env vol (extension entry) >>? λ more.
            some (more >>= λ m. all here m)))

unfoldable pub set_all_free : List ℕ → Volume → Fault Volume
set_all_free [] vol = some vol
set_all_free (n_sect ∷ rest) vol = set_block_free vol n_sect >>? λ vol1. set_all_free rest vol1

unfoldable pub free_file_blocks : Env → Volume → List ℕ → Fault (Volume × RetCode)
free_file_blocks env vol entry = get_file_blocks env vol entry >>? λ got. elim got [
  | err rc ↦ some (vol, rc)
  | ok blocks ↦ set_all_free blocks.data_sectors vol >>? λ vol1.
      set_all_free blocks.extens vol1 >>? λ vol2. some (vol2, rc_ok)
]
