-- ===== src/Salvage/Undelete.antt =====
-- The blocks of a file that is recovered, and of one that cannot be.
use adflib.Prelude.{
  ℕ, ◌-◌, ◌<◌, ◌≡◌, inl, inr, refl, sym, ap, ◌∙◌, arith, Bool, true, false, ◌&&◌, List, [], ◌∷◌,
  ◌++◌, ◌==◌, none, some, if◌then◌else◌, Fault, Bool-cases, Option-cases, ◌>>?◌,
}
use adflib.Err.{RetCode, rc_ok, rc_error, ok, err}
use adflib.Block.{read_entry_block}
use adflib.Bitmap.Disk.{update_bitmap}
use adflib.Vol.{Volume, Bitmap, BitmapMap, vol_has_dircache}
use adflib.Bitmap.{is_block_free, set_block_used, set_block_free, set_blocks_used}
use adflib.Bitmap.Marks.{IsBitmap, InBitmap, free_in, is_block_free-eq}
use adflib.Bitmap.Alloc.{mem, mem-append, AllInBitmap, IsAllocated, set_blocks_used_lem}
use adflib.Cache.Chain.{header_key}
use adflib.File.Blocks.{FileBlocks, set_all_free}
use adflib.File.Content.{Stored, file_size, IsStored, slice}
use adflib.File.Listing.{data_blocks, exten_blocks, IsCounted, get_file_blocks-ok}
use adflib.File.Freeing.{set_all_free_lem}
use adflib.Dir.Create.{Setting}
use adflib.Salvage.{
  parent_is_right, all_free, mark_blocks, revert_blocks, undel_marked, undel_file, enter_again,
}
use adflib.Salvage.Entered.{update_bitmap_table, enter_again_table}

-- Whether the blocks of a list are all free.
unfoldable pub each_free : Volume → List ℕ → Bool
each_free vol [] = true
each_free vol (n_sect ∷ rest) = if free_in vol n_sect then each_free vol rest else false

all_free-each_free :
    (vol : Volume) (list : List ℕ)
    → IsBitmap vol
    → AllInBitmap vol list
    → all_free vol list ≡ some (each_free vol list)
unfolding all_free each_free mem
all_free-each_free vol [] w h = refl
all_free-each_free vol (n ∷ list) w h = ground (
  arith,
  is_block_free-eq vol w n (h n (ground arith)),
  all_free-each_free vol list w (λ k q. h k (ground (arith, q))),
)

-- All blocks of a file, its header last.
abbrev pub all_sectors : FileBlocks → ℕ → List ℕ
all_sectors blocks n_sect = blocks.data_sectors ++ (blocks.extens ++ (n_sect ∷ []))

set_blocks_used-append :
    (vol : Volume) (xs ys : List ℕ)
    → set_blocks_used vol (xs ++ ys) ≡ (set_blocks_used vol xs >>? λ vol1. set_blocks_used vol1 ys)
unfolding set_blocks_used
set_blocks_used-append vol [] ys = refl
set_blocks_used-append vol (x ∷ xs) ys = elim (Option-cases (set_block_used vol x)) [
  | inl o ↦ rw o refl
  | inr (vol1, o) ↦ rw o (set_blocks_used-append vol1 xs ys)
]

set_all_free-append :
    (vol : Volume) (xs ys : List ℕ)
    → set_all_free (xs ++ ys) vol ≡ (set_all_free xs vol >>? λ vol1. set_all_free ys vol1)
unfolding set_all_free
set_all_free-append vol [] ys = refl
set_all_free-append vol (x ∷ xs) ys = elim (Option-cases (set_block_free vol x)) [
  | inl o ↦ rw o refl
  | inr (vol1, o) ↦ rw o (set_all_free-append vol1 xs ys)
]

bind_some : (o : Fault Volume) → (o >>? λ vol. some vol) ≡ o
bind_some none = refl
bind_some (some vol) = refl

bind_ext :
    (o : Fault Volume) (f g : Volume → Fault Volume)
    → ((vol : Volume) → f vol ≡ g vol)
    → (o >>? f) ≡ (o >>? g)
bind_ext none f g h = refl
bind_ext (some vol) f g h = h vol

module _ (vol : Volume) (blocks : FileBlocks) (n_sect : ℕ) where
  mark_blocks-all : mark_blocks vol blocks n_sect ≡ set_blocks_used vol (all_sectors blocks n_sect)
  unfolding mark_blocks set_blocks_used
  mark_blocks-all = sym (
      set_blocks_used-append vol blocks.data_sectors (blocks.extens ++ (n_sect ∷ []))
      ∙ bind_ext (set_blocks_used vol blocks.data_sectors) _ _ (λ vol1.
        set_blocks_used-append vol1 blocks.extens (n_sect ∷ [])
        ∙ bind_ext (set_blocks_used vol1 blocks.extens) _ _
            (λ vol2. bind_some (set_block_used vol2 n_sect))))

  revert_blocks-all :
      revert_blocks vol blocks n_sect
      ≡ set_all_free (n_sect ∷ (blocks.extens ++ blocks.data_sectors)) vol
  unfolding revert_blocks set_all_free
  revert_blocks-all =
      bind_ext (set_block_free vol n_sect) _ _
        (λ vol1. sym (set_all_free-append vol1 blocks.extens blocks.data_sectors))

-- On a volume whose bitmap covers it, for blocks of the volume: marking the data, extension and header
-- blocks of a file, as `adfUndelFile` does, succeeds and makes exactly these used; freeing them, as it
-- does after a failure, succeeds and leaves each of them free and every other block as it was at
-- first.
pub revert_blocks-mark_blocks :
    (vol : Volume) (blocks : FileBlocks) (n_sect : ℕ)
    → IsBitmap vol
    → AllInBitmap vol (all_sectors blocks n_sect)
    → (vol1 : Volume) × (vol2 : Volume) × (mark_blocks vol blocks n_sect ≡ some vol1)
      × (revert_blocks vol1 blocks n_sect ≡ some vol2)
      × IsAllocated vol vol1 (all_sectors blocks n_sect)
      × ((k : ℕ)
          → InBitmap vol k
          → free_in vol2 k ≡ (if mem k (all_sectors blocks n_sect) then true else free_in vol k))
unfolding mem
revert_blocks-mark_blocks vol blocks n_sect w h =
    let all = all_sectors blocks n_sect in
    let back = n_sect ∷ (blocks.extens ++ blocks.data_sectors) in
    let swapped = λ (k : ℕ). mem-append blocks.data_sectors (blocks.extens ++ (n_sect ∷ [])) k in
    let inner = λ (k : ℕ). mem-append blocks.extens (n_sect ∷ []) k in
    let behind = λ (k : ℕ). mem-append blocks.extens blocks.data_sectors k in
    let (vol1, e1, m1) = set_blocks_used_lem vol all w h in
    let same = ap (λ (v : Volume). v.last_block - v.first_block) m1.rest in
    let (vol2, e2, m2) =
      set_all_free_lem vol1 back m1.well
        (λ k q. rw same (h k (ground (arith, q, swapped k, inner k, behind k)))) in
    (
      vol1,
      vol2,
      mark_blocks-all vol blocks n_sect ∙ e1,
      revert_blocks-all vol1 blocks n_sect ∙ e2,
      m1,
      λ k q. ground (arith, m1.bits k q, m2.bits k (rw same q), swapped k, inner k, behind k),
    )

each_free-append :
    (vol : Volume) (xs ys : List ℕ)
    → each_free vol (xs ++ ys) ≡ each_free vol xs && each_free vol ys
unfolding each_free
each_free-append vol [] ys = refl
each_free-append vol (x ∷ xs) ys = ground (arith, each_free-append vol xs ys)

-- The tests of a file's blocks, header first.
free_tests :
    (vol : Volume) (xs ys : List ℕ) (n : ℕ)
    → IsBitmap vol
    → AllInBitmap vol (xs ++ (ys ++ (n ∷ [])))
    → (is_block_free vol n ≡ some (each_free vol (n ∷ [])))
      × (all_free vol (xs ++ ys) ≡ some (each_free vol (xs ++ ys)))
      × (each_free vol (xs ++ (ys ++ (n ∷ [])))
          ≡ each_free vol (xs ++ ys) && each_free vol (n ∷ []))
unfolding each_free mem
free_tests vol xs ys n w h =
    let outer = λ (k : ℕ). mem-append xs (ys ++ (n ∷ [])) k in
    let inner = λ (k : ℕ). mem-append ys (n ∷ []) k in
    let pair = λ (k : ℕ). mem-append xs ys k in
    let own = is_block_free-eq vol w n (h n (ground (arith, outer n, inner n))) in
    let one : is_block_free vol n ≡ some (each_free vol (n ∷ [])) = ground (arith, own) in
    let all =
      all_free-each_free vol (xs ++ ys) w
        (λ k q. h k (ground (arith, q, outer k, inner k, pair k))) in
    (
      one,
      all,
      ground (
        arith,
        each_free-append vol xs (ys ++ (n ∷ [])),
        each_free-append vol ys (n ∷ []),
        each_free-append vol xs ys,
      ),
    )

-- The bits are those of the bitmap's table.
table_bits :
    (vol vol' : Volume) (k : ℕ)
    → vol.bitmap.table ≡ vol'.bitmap.table
    → free_in vol k ≡ free_in vol' k
table_bits vol vol' k e =
    ap
      (λ (t : List BitmapMap).
        free_in (record vol' { bitmap = record vol'.bitmap { table = t } }) k)
      e

-- The blocks of a stored file as `adfGetFileBlocks` lists them.
abbrev pub blocks_of : Stored → FileBlocks
blocks_of s = record {
  header = header_key s.hdr;
  data_sectors = slice s.sect 0 (data_blocks s);
  extens = slice s.ext_sect 0 (exten_blocks s);
}

module _ (set : Setting) (s : Stored) (p_sect : ℕ) (no_cache : vol_has_dircache s.vol ≡ false)
    (st : IsStored set.env s) (counted : IsCounted s) (w : IsBitmap s.vol)
    (nonempty : 0 < file_size s) (right : parent_is_right s.vol p_sect s.hdr ≡ some rc_ok)
    (inside : AllInBitmap s.vol (all_sectors (blocks_of s) (header_key s.hdr))) where
  undel_file-free :
      each_free s.vol (all_sectors (blocks_of s) (header_key s.hdr)) ≡ true
      → (vol1 : Volume) → mark_blocks s.vol (blocks_of s) (header_key s.hdr) ≡ some vol1
      → undel_file set s.vol p_sect (header_key s.hdr) s.hdr
        ≡ undel_marked set vol1 p_sect (header_key s.hdr) s.hdr (blocks_of s)
  unfolding undel_file
  undel_file-free all vol1 marked =
      let n = header_key s.hdr in
      let xs = slice s.sect 0 (data_blocks s) in
      let ys = slice s.ext_sect 0 (exten_blocks s) in
      let (own, body, both) = free_tests s.vol xs ys n w inside in
      let header : is_block_free s.vol n ≡ some true = ground (arith, own, both, all) in
      let rest : all_free s.vol (xs ++ ys) ≡ some true = ground (arith, body, both, all) in
      let same : (n == n) ≡ true = ground arith in
      rw
        (
          no_cache,
          same,
          right,
          header,
          get_file_blocks-ok set.env s st counted nonempty,
          rest,
          marked,
        )
        refl

  undel_file-used :
      each_free s.vol (all_sectors (blocks_of s) (header_key s.hdr)) ≡ false
      → undel_file set s.vol p_sect (header_key s.hdr) s.hdr ≡ some (s.vol, rc_error)
  unfolding undel_file
  undel_file-used not_all =
      let n = header_key s.hdr in
      let xs = slice s.sect 0 (data_blocks s) in
      let ys = slice s.ext_sect 0 (exten_blocks s) in
      let (own, body, both) = free_tests s.vol xs ys n w inside in
      let same : (n == n) ≡ true = ground arith in
      let listed = get_file_blocks-ok set.env s st counted nonempty in
      elim (Bool-cases (each_free s.vol (n ∷ []))) [
        | inr u ↦
            let header : is_block_free s.vol n ≡ some false = ground (arith, own, u) in
            rw (no_cache, same, right, header) refl
        | inl f ↦
            let header : is_block_free s.vol n ≡ some true = ground (arith, own, f) in
            let rest : all_free s.vol (xs ++ ys) ≡ some false =
              ground (arith, body, both, f, not_all) in
            rw (no_cache, same, right, header, listed, rest) refl
      ]

  -- A file whose blocks are marked is entered: the result of the undelete, and the bits that it leaves.
  entered_bits :
      (vol1 vol2 : Volume) (dir parent : List ℕ)
      → IsAllocated s.vol vol1 (all_sectors (blocks_of s) (header_key s.hdr))
      → read_entry_block set.env vol1 p_sect ≡ ok dir
      → enter_again set vol1 dir s.hdr ≡ some ((vol2, parent), true)
      → (undel_marked set vol1 p_sect (header_key s.hdr) s.hdr (blocks_of s)
          ≡ some (update_bitmap set.env set.now vol2))
        × ((k : ℕ)
            → InBitmap s.vol k
            → free_in (update_bitmap set.env set.now vol2).0 k ≡ (
                if mem k (all_sectors (blocks_of s) (header_key s.hdr))
                then false
                else free_in s.vol k))
  unfolding undel_marked
  entered_bits vol1 vol2 dir parent m read made = (
    ground (arith, read, made),
    λ k q.
        table_bits (update_bitmap set.env set.now vol2).0 vol1 k (
          update_bitmap_table set.env set.now vol2
          ∙ ap (λ (b : Bitmap). b.table) (enter_again_table set vol1 vol2 dir parent s.hdr made))
        ∙ m.bits k q,
  )

  unread_bits :
      (vol1 vol2 : Volume) (rc : RetCode)
      → read_entry_block set.env vol1 p_sect ≡ err rc
      → revert_blocks vol1 (blocks_of s) (header_key s.hdr) ≡ some vol2
      → undel_marked set vol1 p_sect (header_key s.hdr) s.hdr (blocks_of s) ≡ some (vol2, rc)
  unfolding undel_marked
  unread_bits vol1 vol2 rc read reverted = ground (arith, read, reverted)

  -- On a volume without a directory cache whose bitmap covers it, for a file with bytes whose blocks
  -- are readable, linked and counted as AmigaDOS has them, and blocks of the volume, and with a parent
  -- that passes the tests. If its data, extension and header blocks are all free, there is the volume
  -- with exactly these marked used, so that: where the parent can be read on it and the entry is
  -- entered there again, `adfUndelFile` gives what `adfUpdateBitmap` gives of the volume with the
  -- entry, and in its bitmap exactly the file's blocks are used besides those that were; where the
  -- parent cannot be read, it fails with that code, and the file's blocks are free and every other
  -- block as before. If one of the blocks is in use, it fails with `ADF_RC_ERROR` and the volume as it
  -- was.
  pub undel_file-blocks :
      let n = header_key s.hdr in
      let all = all_sectors (blocks_of s) n in
      (each_free s.vol all ≡ true
        → (vol1 : Volume) × IsAllocated s.vol vol1 all
          × ((dir parent : List ℕ) (vol2 : Volume)
              → read_entry_block set.env vol1 p_sect ≡ ok dir
              → enter_again set vol1 dir s.hdr ≡ some ((vol2, parent), true)
              → (undel_file set s.vol p_sect n s.hdr ≡ some (update_bitmap set.env set.now vol2))
                × ((k : ℕ)
                    → InBitmap s.vol k
                    → free_in (update_bitmap set.env set.now vol2).0 k
                      ≡ (if mem k all then false else free_in s.vol k)))
          × ((rc : RetCode)
              → read_entry_block set.env vol1 p_sect ≡ err rc
              → (vol2 : Volume) × (undel_file set s.vol p_sect n s.hdr ≡ some (vol2, rc))
                × ((k : ℕ)
                    → InBitmap s.vol k
                    → free_in vol2 k ≡ (if mem k all then true else free_in s.vol k))))
      × (each_free s.vol all ≡ false → undel_file set s.vol p_sect n s.hdr ≡ some (s.vol, rc_error))
  undel_file-blocks =
      let (vol1, vol2, marked, reverted, m, freed) =
        revert_blocks-mark_blocks s.vol (blocks_of s) (header_key s.hdr) w inside in
      (
        λ all.
            let goes_on = undel_file-free all vol1 marked in
            (
              vol1,
              m,
              λ dir parent vol3 read made.
                  let (done, bits) = entered_bits vol1 vol3 dir parent m read made in
                  (goes_on ∙ done, bits),
              λ rc read. (vol2, goes_on ∙ unread_bits vol1 vol2 rc read reverted, freed),
            ),
        undel_file-used,
      )
