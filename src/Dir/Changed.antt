-- ===== src/Dir/Changed.antt =====
-- Setting the access bits of an entry, and reading the entry again.
use adflib.Prelude.{ℕ, ◌+◌, ◌^◌, ◌≤◌, ◌<◌, ◌≡◌, ◌⊎◌, inl, inr, sym, ◌∙◌, arith, false, List, some}
use adflib.Util.{byte, load32, store32}
use adflib.Err.{rc_ok, ok}
use adflib.Vol.{Volume, vol_has_dircache, vol_write_block}
use adflib.Vol.Blocks.{IsMounted, InVolume}
use adflib.Block.{
  st_file, st_dir, stamp_dir, stamp_file_hdr, read_entry_block, write_dir_block,
  write_file_hdr_block, seal,
}
use adflib.Block.Members.{byte-store32, load32-store32_self, load32-store32_ne}
use adflib.Block.Seal.{IsBlock}
use adflib.Block.Stamps.{store32-IsBlock}
use adflib.Block.Writing.{write_dir_block-read, write_file_hdr_block-read, SameBut}
use adflib.Dir.{Found, name_to_entry_blk}
use adflib.Dir.Create.{Setting, sec_type}
use adflib.Dir.Remove.{hash_table}
use adflib.Dir.Rename.{write_changed_entry, change_entry, set_entry_access}

vol_has_dircache-write :
    (vol : Volume) (n : ℕ) (buf : List ℕ)
    → vol_has_dircache (vol_write_block vol n buf).0 ≡ vol_has_dircache vol
unfolding vol_write_block vol_has_dircache
vol_has_dircache-write vol n buf = ground arith

has_dircache-write_dir :
    (vol : Volume) (n : ℕ) (m : List ℕ)
    → vol_has_dircache (write_dir_block vol n m).0 ≡ vol_has_dircache vol
unfolding write_dir_block
has_dircache-write_dir vol n m = vol_has_dircache-write vol n (seal 3 20 (stamp_dir m))

has_dircache-write_file :
    (vol : Volume) (n : ℕ) (m : List ℕ)
    → vol_has_dircache (write_file_hdr_block vol n m).0 ≡ vol_has_dircache vol
unfolding write_file_hdr_block
has_dircache-write_file vol n m = vol_has_dircache-write vol n (seal 3 20 (stamp_file_hdr m))

-- The entry that a name finds in a directory of a volume that can be written, without a directory cache.
pub record Changeable (set : Setting) (vol : Volume) (par_sect : ℕ) (name : List ℕ) (found : Found)
    : Type 0 where
  pub mounted : IsMounted vol
  pub inside : InVolume vol found.n_sect
  pub writable : vol.read_only ≡ false
  pub cacheless : vol_has_dircache vol ≡ false
  pub parent : List ℕ
  pub parent_read : read_entry_block set.env vol par_sect ≡ ok parent
  pub is_there :
      name_to_entry_blk set.chain set.toupper set.env vol (hash_table parent) name
      ≡ some (some found)
  pub whole : IsBlock found.entry
  pub kind : (sec_type found.entry ≡ st_file) ⊎ (sec_type found.entry ≡ st_dir)

-- The members after the access bits, up to the secondary type.
abbrev pub SameRest : List ℕ → List ℕ → Type 0
SameRest m m' = (i : ℕ) → 324 ≤ i → i < 508 → byte m' i ≡ byte m i

load32-same :
    (m m' : List ℕ) (p : ℕ)
    → byte m' p ≡ byte m p
    → byte m' (p + 1) ≡ byte m (p + 1)
    → byte m' (p + 2) ≡ byte m (p + 2)
    → byte m' (p + 3) ≡ byte m (p + 3)
    → load32 m' p ≡ load32 m p
unfolding load32
load32-same m m' p a b c d = omega (arith, a, b, c, d)

-- A stamp of the entry with new access bits leaves them and what comes after them.
stamp_file_hdr-stays :
    (m : List ℕ)
    → IsBlock m
    → ((i : ℕ) → 24 ≤ i → i < 508 → byte (stamp_file_hdr m) i ≡ byte m i)
      × (load32 (stamp_file_hdr m) 508 ≡ st_file)
unfolding stamp_file_hdr
stamp_file_hdr-stays m b =
    let m1 = store32 m 0 2 in
    let b1 = store32-IsBlock m 0 2 (omega arith) b in
    let m2 = store32 m1 12 0 in
    let b2 = store32-IsBlock m1 12 0 (omega arith) b1 in
    (
      λ i low high. ground (
        arith,
        low,
        high,
        byte-store32 m 0 2 i (omega (arith, b.whole)),
        byte-store32 m1 12 0 i (omega (arith, b1.whole)),
        byte-store32 m2 508 st_file i (omega (arith, b2.whole)),
      ),
      load32-store32_self m2 508 st_file (omega (arith, b2.whole)) (omega arith),
    )

stamp_dir-stays :
    (m : List ℕ)
    → IsBlock m
    → ((i : ℕ) → 24 ≤ i → i < 508 → byte (stamp_dir m) i ≡ byte m i)
      × (load32 (stamp_dir m) 508 ≡ st_dir)
unfolding stamp_dir
stamp_dir-stays m b =
    let m1 = store32 m 0 2 in
    let b1 = store32-IsBlock m 0 2 (omega arith) b in
    let m2 = store32 m1 8 0 in
    let b2 = store32-IsBlock m1 8 0 (omega arith) b1 in
    let m3 = store32 m2 12 0 in
    let b3 = store32-IsBlock m2 12 0 (omega arith) b2 in
    (
      λ i low high. ground (
        arith,
        low,
        high,
        byte-store32 m 0 2 i (omega (arith, b.whole)),
        byte-store32 m1 8 0 i (omega (arith, b1.whole)),
        byte-store32 m2 12 0 i (omega (arith, b2.whole)),
        byte-store32 m3 508 st_dir i (omega (arith, b3.whole)),
      ),
      load32-store32_self m3 508 st_dir (omega (arith, b3.whole)) (omega arith),
    )

module _ (m : List ℕ) (acc : ℕ) (b : IsBlock m) (small : acc < 2 ^ 32) where
  -- What a block that reads back as the stamped structure has.
  bits_back :
      (stamped m' : List ℕ) (type : ℕ)
      → ((i : ℕ) → 24 ≤ i → i < 508 → byte stamped i ≡ byte (store32 m 320 acc) i)
      → load32 stamped 508 ≡ type
      → SameBut 20 stamped m'
      → (load32 m' 320 ≡ acc) × (sec_type m' ≡ type) × SameRest m m'
  bits_back stamped m' type stays typed same =
      let changed = store32 m 320 acc in
      let after =
        λ (i : ℕ) (low : 24 ≤ i) (high : i < 508). same i (inr (omega arith)) ∙ stays i low high in
      let at = λ (i : ℕ) (low : 24 ≤ i) (high : i < 508). after i low high in
      (
        load32-same changed m' 320 (at 320 (omega arith) (omega arith))
              (at 321 (omega arith) (omega arith)) (at 322 (omega arith) (omega arith))
              (at 323 (omega arith) (omega arith))
            ∙ load32-store32_self m 320 acc (omega (arith, b.whole)) small,
        load32-same stamped m' 508 (same 508 (inr (omega arith))) (same 509 (inr (omega arith)))
              (same 510 (inr (omega arith))) (same 511 (inr (omega arith)))
            ∙ typed,
        λ i low high.
            at i (omega arith) high
            ∙ ground (arith, low, high, byte-store32 m 320 acc i (omega (arith, b.whole))),
      )

module _ (set : Setting) (vol : Volume) (par_sect : ℕ) (name : List ℕ) (found : Found) (acc : ℕ)
    (c : Changeable set vol par_sect name found) where
  -- The block that is written keeps the type that the entry has.
  changed_type : sec_type (store32 found.entry 320 acc) ≡ sec_type found.entry
  changed_type =
      load32-store32_ne found.entry 320 acc (omega (arith, c.whole.whole)) 508 (inr (omega arith))

  after_file :
      sec_type found.entry ≡ st_file
      → let w = write_file_hdr_block vol found.n_sect (store32 found.entry 320 acc) in
        w.1 ≡ rc_ok → set_entry_access set vol par_sect name acc ≡ some (w.0, rc_ok)
  unfolding set_entry_access change_entry write_changed_entry
  after_file f rc = ground (
    arith,
    c.parent_read,
    c.is_there,
    c.cacheless,
    changed_type,
    f,
    rc,
    has_dircache-write_file vol found.n_sect (store32 found.entry 320 acc),
  )

  after_dir :
      sec_type found.entry ≡ st_dir
      → let w = write_dir_block vol found.n_sect (store32 found.entry 320 acc) in
        w.1 ≡ rc_ok → set_entry_access set vol par_sect name acc ≡ some (w.0, rc_ok)
  unfolding set_entry_access change_entry write_changed_entry
  after_dir f rc = ground (
    arith,
    c.parent_read,
    c.is_there,
    c.cacheless,
    changed_type,
    f,
    rc,
    has_dircache-write_dir vol found.n_sect (store32 found.entry 320 acc),
  )

-- For the file or directory that a name finds in a directory, on a mounted volume without a directory
-- cache that is not read-only, with its block inside: `adfSetEntryAccess` of any 32 bits succeeds, and
-- the entry can then be read again, has these access bits and the same secondary type, and is the same
-- in all bytes from its size on, 324 to 507.
pub set_entry_access-read :
    (set : Setting) (vol : Volume) (par_sect : ℕ) (name : List ℕ) (found : Found) (acc : ℕ)
    → Changeable set vol par_sect name found
    → acc < 2 ^ 32
    → (vol' : Volume) × (m' : List ℕ) × (set_entry_access set vol par_sect name acc
        ≡ some (vol', rc_ok))
      × (read_entry_block set.env vol' found.n_sect ≡ ok m')
      × (load32 m' 320 ≡ acc)
      × (sec_type m' ≡ sec_type found.entry)
      × SameRest found.entry m'
set_entry_access-read set vol par_sect name found acc c small =
    let changed = store32 found.entry 320 acc in
    let b = store32-IsBlock found.entry 320 acc (omega arith) c.whole in
    elim c.kind [
      | inl f ↦
          let back =
            write_file_hdr_block-read vol found.n_sect c.mounted c.inside c.writable set.env changed
              b in
          let stays = stamp_file_hdr-stays changed b in
          let (m', read, same) = back.1 in
          let bits =
            bits_back found.entry acc c.whole small (stamp_file_hdr changed) m' st_file stays.0
              stays.1 same in
          let done = after_file set vol par_sect name found acc c f back.0 in
          (_, m', done, read, bits.0, bits.1 ∙ sym f, bits.2)
      | inr d ↦
          let back =
            write_dir_block-read vol found.n_sect c.mounted c.inside c.writable set.env changed b in
          let stays = stamp_dir-stays changed b in
          let (m', read, same) = back.1 in
          let bits =
            bits_back found.entry acc c.whole small (stamp_dir changed) m' st_dir stays.0 stays.1
              same in
          let done = after_dir set vol par_sect name found acc c d back.0 in
          (_, m', done, read, bits.0, bits.1 ∙ sym d, bits.2)
    ]
