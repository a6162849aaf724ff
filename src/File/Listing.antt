-- ===== src/File/Listing.antt =====
-- The blocks of a file are listed in order, src/adf_file_block.c `adfGetFileBlocks`.
use adflib.Prelude.{
  ℕ, zero, suc, ◌+◌, ◌-◌, ◌*◌, ◌^◌, ◌≤◌, ◌<◌, ◌≡◌, ◌⊎◌, inl, inr, refl, sym, ap, ap₂, ◌∙◌, arith,
  true, false, List, min, [], ◌∷◌, ◌++◌, length, ltb, leb, ◌==◌, Bool-cases, some,
}
use adflib.Err.{rc_malloc, ok, err}
use adflib.Block.{Env}
use adflib.Cache.Chain.{header_key}
use adflib.File.Handle.{data_block, extension}
use adflib.File.Blocks.{
  high_seq, named_blocks, blocks_in, ext_blocks, checked_blocks, get_file_blocks,
}
use adflib.File.{file_size2_datablocks, file_size2_extblocks, file_datablocks2_extblocks}
use adflib.File.Layout.{IsDataSize, file_real_size-eq}
use adflib.File.Copy.{length-slice, slice-add, slice_ext}
use adflib.File.Content.{
  Stored, block_size, file_size, HasBlock, IsStored, slice, IsSized-IsDataSize, slice,
  IsSized-IsDataSize,
}

-- The blocks that an array names.
named_blocks-slice :
    (block : List ℕ) (i n : ℕ)
    → i + n ≤ 72
    → named_blocks block i n ≡ some (slice (λ j. data_block block (71 - j)) i n)
unfolding named_blocks
named_blocks-slice block i zero h = refl
named_blocks-slice block i (suc n) h =
    let inside : ltb i 72 ≡ true = ground (arith, h) in
    rw (inside, named_blocks-slice block (suc i) n (omega (arith, h))) refl

blocks_in-ok :
    (block : List ℕ) (f : ℕ → ℕ) (from n : ℕ)
    → n ≤ 72
    → high_seq block ≡ n
    → ((i : ℕ) → i < n → data_block block (71 - i) ≡ f (from + i))
    → blocks_in block ≡ some (slice f from n)
unfolding blocks_in
blocks_in-ok block f from n small number named =
    let positive : leb (2 ^ 31) n ≡ false = ground (arith, small) in
    let all : min 73 n ≡ n = omega (arith, small) in
    let same : slice (λ j. data_block block (71 - j)) 0 n ≡ slice f from n =
      slice_ext (λ j. data_block block (71 - j)) f 0 from n
        (λ i h.
          let at : 0 + i ≡ i = omega arith in ap (λ t. data_block block (71 - t)) at ∙ named i h) in
    rw (number, positive, all) (named_blocks-slice block 0 n (omega (arith, small)) ∙ ap some same)

abbrev pub data_blocks : Stored → ℕ
data_blocks s = file_size2_datablocks (file_size s) (block_size s)

abbrev pub exten_blocks : Stored → ℕ
exten_blocks s = file_size2_extblocks (file_size s) (block_size s)

-- Each array of the file tells how many blocks it names, and the last extension block has none after it.
pub record IsCounted (s : Stored) : Type 0 where
  pub in_header : high_seq s.hdr ≡ min (data_blocks s) 72
  pub in_ext :
      (e : ℕ) → e < exten_blocks s → high_seq (s.ext e) ≡ min (data_blocks s - (72 + 72 * e)) 72
  pub last : (e : ℕ) → suc e ≡ exten_blocks s → extension (s.ext e) ≡ 0

counts_at :
    (size bs : ℕ)
    → IsDataSize bs
    → size < 2 ^ 32
    → ((k : ℕ) → k < file_size2_datablocks size bs → k * bs < size)
      × (file_size2_datablocks size bs ≤ 72 + 72 * file_size2_extblocks size bs)
      × ((e : ℕ) → e < file_size2_extblocks size bs → 72 + 72 * e < file_size2_datablocks size bs)
      × (file_size2_datablocks size bs < 2 ^ 32)
unfolding file_size2_extblocks file_size2_datablocks file_datablocks2_extblocks
counts_at size bs (inl sized) small = rw sized (
  λ k h. ground (arith, h, small),
  ground (arith, small),
  λ e h. ground (arith, h, small),
  ground arith,
)
counts_at size bs (inr sized) small = rw sized (
  λ k h. ground (arith, h, small),
  ground (arith, small),
  λ e h. ground (arith, h, small),
  ground arith,
)

-- Two slices, the second from the end of the first, or empty.
slice_joined :
    (f : ℕ → ℕ) (from c from' rest left : ℕ)
    → (rest ≡ 0) ⊎ (from' ≡ from + c)
    → c + rest ≡ left
    → slice f from c ++ slice f from' rest ≡ slice f from left
slice_joined f from c from' rest left (inl none_left) whole =
    ap (λ t. slice f from c ++ slice f from' t) none_left
    ∙ slice-add f from c 0
    ∙ ap (slice f from) (ap (λ t. c + t) (sym none_left) ∙ whole)
slice_joined f from c from' rest left (inr next) whole =
    ap (λ t. slice f from c ++ slice f t rest) next
    ∙ slice-add f from c rest
    ∙ ap (slice f from) whole

-- The vectors are as long as the size of the file tells.
checked_blocks-full :
    (s : Stored) (header : ℕ) (data_sectors extens : List ℕ)
    → data_sectors ≡ slice s.sect 0 (data_blocks s)
    → extens ≡ slice s.ext_sect 0 (exten_blocks s)
    → checked_blocks
        (data_blocks s)
        (exten_blocks s)
        (record { header = header; data_sectors = data_sectors; extens = extens })
      ≡ ok (record {
        header = header;
        data_sectors = slice s.sect 0 (data_blocks s);
        extens = slice s.ext_sect 0 (exten_blocks s);
      })
unfolding checked_blocks
checked_blocks-full s header data_sectors extens d e =
    let n : (length data_sectors == data_blocks s) ≡ true =
      ground (arith, ap (λ (t : List ℕ). length t) d, length-slice s.sect 0 (data_blocks s)) in
    let m : (length extens == exten_blocks s) ≡ true =
      ground (arith, ap (λ (t : List ℕ). length t) e, length-slice s.ext_sect 0 (exten_blocks s)) in
    rw (n, m) (λ i. ok (record { header = header; data_sectors = d i; extens = e i }))

module _ (env : Env) (s : Stored) (st : IsStored env s) (counted : IsCounted s) where
  -- The chain from extension block `e` on, with `r` of them to go.
  ext_blocks-ok :
      (r e room n_sect : ℕ)
      → e + r ≡ exten_blocks s
      → data_blocks s - (72 + 72 * e) ≤ room
      → (r ≡ 0 → n_sect ≡ 0)
      → (0 < r → n_sect ≡ s.ext_sect e)
      → ext_blocks r room env s.vol n_sect
        ≡ some
            (ok (slice s.sect (72 + 72 * e) (data_blocks s - (72 + 72 * e)), slice s.ext_sect e r))
  unfolding ext_blocks
  ext_blocks-ok zero e room n_sect at fits last named =
      let counts =
        counts_at (file_size s) (block_size s) (IsSized-IsDataSize s st.sized) st.size_fits in
      let none_left : 0 ≡ data_blocks s - (72 + 72 * e) = omega (arith, counts.1, at) in
      let ends : (n_sect == 0) ≡ true = ground (arith, last refl) in
      rw ends (ap (λ t. some (ok (slice s.sect (72 + 72 * e) t, []))) none_left)
  ext_blocks-ok (suc r) e room n_sect at fits last named =
      let counts =
        counts_at (file_size s) (block_size s) (IsSized-IsDataSize s st.sized) st.size_fits in
      let from = 72 + 72 * e in
      let left = data_blocks s - from in
      let c = min left 72 in
      let later : from < data_blocks s = counts.2 e (omega (arith, at)) in
      let has : HasBlock s from = counts.0 from later in
      let there : (s.ext_sect e == 0) ≡ false = ground (arith, st.ext_not_zero e has) in
      let named_here : (i : ℕ) → i < c → data_block (s.ext e) (71 - i) ≡ s.sect (from + i) =
        λ i h. st.in_ext e i (counts.0 (from + i) (omega (arith, h))) (omega (arith, h)) in
      let here =
        blocks_in-ok (s.ext e) s.sect from c (omega arith) (counted.in_ext e (omega (arith, at)))
          named_here in
      let len : length (slice s.sect from c) ≡ c = length-slice s.sect from c in
      let fits_here : ltb room (length (slice s.sect from c)) ≡ false = ground (arith, len, fits) in
      let next_last : r ≡ 0 → extension (s.ext e) ≡ 0 =
        λ z. counted.last e (omega (arith, at, z)) in
      let next_named : 0 < r → extension (s.ext e) ≡ s.ext_sect (suc e) = λ more.
        let next : 72 + 72 * suc e < data_blocks s = counts.2 (suc e) (omega (arith, at, more)) in
        st.next_ext e (counts.0 (144 + 72 * e) (omega (arith, next))) in
      let rest =
        ext_blocks-ok r (suc e) (room - length (slice s.sect from c)) (extension (s.ext e))
          (omega (arith, at)) (omega (arith, fits, len)) next_last next_named in
      let whole : slice s.sect from c
            ++ slice s.sect (72 + 72 * suc e) (data_blocks s - (72 + 72 * suc e))
          ≡ slice s.sect from left =
        slice_joined s.sect from c (72 + 72 * suc e) (data_blocks s - (72 + 72 * suc e)) left
          (ground arith) (omega arith) in
      rw (named (omega arith), there, st.ext_readable e has, here, fits_here, rest)
        (ap₂ (λ t h. some (ok (t, h ∷ slice s.ext_sect (suc e) r))) whole (named (omega arith)))

  -- An empty file has no data blocks, and every other file has one.
  data_blocks_zero : file_size s ≡ 0 → (data_blocks s == 0) ≡ true
  data_blocks_zero z =
      let counts =
        counts_at (file_size s) (block_size s) (IsSized-IsDataSize s st.sized) st.size_fits in
      elim (Bool-cases (data_blocks s == 0)) [
        | inl e ↦ e
        | inr e ↦ absurd (omega (arith, z, counts.0 0 (ground (arith, e))))
      ]

  data_blocks_some : 0 < file_size s → (data_blocks s == 0) ≡ false
  unfolding file_size2_datablocks
  data_blocks_some z = elim (IsSized-IsDataSize s st.sized) [
    | inl sized ↦ rw sized (ground (arith, z, st.size_fits))
    | inr sized ↦ rw sized (ground (arith, z, st.size_fits))
  ]

  get_file_blocks-empty : file_size s ≡ 0 → get_file_blocks env s.vol s.hdr ≡ some (err rc_malloc)
  unfolding get_file_blocks
  get_file_blocks-empty z =
      let sized = IsSized-IsDataSize s st.sized in
      let real = file_real_size-eq (file_size s) (block_size s) st.size_fits sized in
      let head : (high_seq s.hdr == min (data_blocks s) 72) ≡ true =
        ground (arith, counted.in_header) in
      rw (real, head, data_blocks_zero z) refl

  -- For a file with bytes, whose blocks are readable and linked as AmigaDOS links them and counted in
  -- their arrays, `adfGetFileBlocks` succeeds and gives the sectors of the data blocks in the order of
  -- the file, and those of the extension blocks in the order of their chain.
  pub get_file_blocks-ok :
      0 < file_size s
      → get_file_blocks env s.vol s.hdr
        ≡ some (
            ok (record {
              header = header_key s.hdr;
              data_sectors = slice s.sect 0 (data_blocks s);
              extens = slice s.ext_sect 0 (exten_blocks s);
            }))
  unfolding get_file_blocks
  get_file_blocks-ok nonempty =
      let sized = IsSized-IsDataSize s st.sized in
      let counts = counts_at (file_size s) (block_size s) sized st.size_fits in
      let real = file_real_size-eq (file_size s) (block_size s) st.size_fits sized in
      let c = min (data_blocks s) 72 in
      let head : (high_seq s.hdr == c) ≡ true = ground (arith, counted.in_header) in
      let here = blocks_in-ok s.hdr s.sect 0 c (omega arith) counted.in_header (λ i h.
        st.in_header i (counts.0 i (omega (arith, h))) (omega (arith, h))
        ∙ ap s.sect (omega arith)) in
      let len : length (slice s.sect 0 c) ≡ c = length-slice s.sect 0 c in
      elim (Bool-cases (exten_blocks s == 0)) [
        | inl no_ext ↦
            let none_named : exten_blocks s ≡ 0 = ground (arith, no_ext) in
            let all : slice s.sect 0 c ++ [] ≡ slice s.sect 0 (data_blocks s) =
              slice_joined s.sect 0 c 0 0 (data_blocks s) (inl refl)
                (omega (arith, counts.1, none_named)) in
            let same : [] ≡ slice s.ext_sect 0 (exten_blocks s) =
              ap (slice s.ext_sect 0) (sym none_named) in
            rw (real, head, data_blocks_some nonempty, here, no_ext)
              (ap some
                (checked_blocks-full s (header_key s.hdr) (slice s.sect 0 c ++ []) [] all same))
        | inr some_ext ↦
            let more : 0 < exten_blocks s = ground (arith, some_ext) in
            let many : 72 < data_blocks s = omega (arith, counts.2 0 more) in
            let rest_n = data_blocks s - (72 + 72 * 0) in
            let room : data_blocks s - length (slice s.sect 0 c) ≡ rest_n =
              omega (arith, len, many) in
            let first : extension s.hdr ≡ s.ext_sect 0 = st.first_ext (counts.0 72 many) in
            let chain =
              ext_blocks-ok (exten_blocks s) 0 rest_n (extension s.hdr) (omega arith) (omega arith)
                (λ z. absurd (omega (arith, z, more))) (λ _. first) in
            let all : slice s.sect 0 c ++ slice s.sect (72 + 72 * 0) rest_n
                ≡ slice s.sect 0 (data_blocks s) =
              slice_joined s.sect 0 c (72 + 72 * 0) rest_n (data_blocks s)
                (inr (omega (arith, many))) (omega (arith, many)) in
            rw (real, head, data_blocks_some nonempty, here, some_ext, room, chain)
              (ap some (
                checked_blocks-full s (header_key s.hdr)
                  (slice s.sect 0 c ++ slice s.sect (72 + 72 * 0) rest_n)
                  (slice s.ext_sect 0 (exten_blocks s)) all refl))
      ]
