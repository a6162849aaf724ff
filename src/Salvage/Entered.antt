-- ===== src/Salvage/Entered.antt =====
-- Entering a recovered file into its directory, and writing the bitmap, leave the bits of the bitmap.
use adflib.Prelude.{
  ℕ, zero, suc, ◌+◌, ◌*◌, ◌≡◌, refl, ap, ◌∙◌, arith, true, false, set, List, [], some, ◌==◌,
  Bool-cases, Option-cases, inl, inr, ◌⊎◌, get_or, length, ltb,
}
use adflib.Err.{RetCode, is_ok, Result, ok, err}
use adflib.Date.{AmigaTime}
use adflib.Vol.{Volume, Bitmap, vol_write_block}
use adflib.Block.{
  stamp_root, st_root, st_dir, st_file, Env, read_root_block, write_root_block, write_dir_block,
  write_file_hdr_block, write_bitmap_block,
}
use adflib.Bitmap.{set_block_free}
use adflib.Bitmap.Disk.{write_changed, update_bitmap, block_of_map_longs, bm_flag_at, stamp_valid}
use adflib.Util.{store32}
use adflib.Cache.Chain.{header_key}
use adflib.Dir.{max_name_len, get_hash_value}
use adflib.Dir.Create.{
  Setting, create_entry, created, write_parent, write_last, last_of_chain, is_intl, hash_at,
  sec_type,
}
use adflib.Salvage.{enter_again, undel_name}

vol_write_block_table :
    (vol : Volume) (n : ℕ) (buf : List ℕ) → (vol_write_block vol n buf).0.bitmap ≡ vol.bitmap
unfolding vol_write_block
vol_write_block_table vol n buf = ground arith

Result-cases : (r : Result (List ℕ)) → ((rc : RetCode) × (r ≡ err rc)) ⊎ ((a : List ℕ) × (r ≡ ok a))
Result-cases (err rc) = inl (rc, refl)
Result-cases (ok a) = inr (a, refl)

write_changed_table :
    (n i : ℕ) (vol : Volume) → (write_changed n vol i).0.bitmap.table ≡ vol.bitmap.table
unfolding write_changed write_bitmap_block
write_changed_table zero i vol = refl
write_changed_table (suc n) i vol =
    let k = get_or vol.bitmap.blocks i 0 in
    let w = write_bitmap_block vol k (block_of_map_longs (get_or vol.bitmap.table i [])) in
    let vol' = w.0 in
    let same : vol'.bitmap.table ≡ vol.bitmap.table =
      ap (λ (b : Bitmap). b.table) (vol_write_block_table vol k _) in
    let written = record vol' {
      bitmap = record vol'.bitmap { blocks_chg = set vol'.bitmap.blocks_chg i false };
    } in
    elim (Bool-cases (get_or vol.bitmap.blocks_chg i false)) [
      | inr c ↦ rw c (write_changed_table n (suc i) vol)
      | inl c ↦ elim (Bool-cases (is_ok w.1)) [
        | inl o ↦ rw (c, o) (write_changed_table n (suc i) written ∙ same)
        | inr o ↦ rw (c, o) same
      ]
    ]

write_root_block_table :
    (vol : Volume) (n : ℕ) (root : List ℕ) → (write_root_block vol n root).0.bitmap ≡ vol.bitmap
unfolding write_root_block
write_root_block_table vol n root = vol_write_block_table vol n _

pub update_bitmap_table :
    (env : Env) (now : AmigaTime) (vol : Volume)
    → (update_bitmap env now vol).0.bitmap.table ≡ vol.bitmap.table
unfolding update_bitmap
update_bitmap_table env now vol = elim (Result-cases (read_root_block env vol vol.root_block)) [
  | inl (rc, e) ↦ ground (arith, e)
  | inr (root, e) ↦
      let n = vol.root_block in
      let w = write_root_block vol n (store32 root bm_flag_at 0) in
      let vol' = w.0 in
      let first =
        ap (λ (b : Bitmap). b.table) (write_root_block_table vol n (store32 root bm_flag_at 0)) in
      let c = write_changed vol'.bitmap.size vol' 0 in
      let vol'' = c.0 in
      let second = write_changed_table vol'.bitmap.size 0 vol' in
      let third =
        ap (λ (b : Bitmap). b.table)
          (write_root_block_table vol'' vol''.root_block
            (stamp_valid (stamp_root (store32 root bm_flag_at 0)) now)) in
      elim (Bool-cases (is_ok w.1)) [
        | inr o ↦ ground (arith, e, o, first)
        | inl o ↦ elim (Bool-cases (is_ok c.1)) [
          | inl o1 ↦ ground (arith, e, o, o1, first, second, third)
          | inr o1 ↦ ground (arith, e, o, o1, first, second)
        ]
      ]
]

write_parent_table :
    (now : AmigaTime) (vol : Volume) (dir : List ℕ)
    → (write_parent now vol dir).0.0.bitmap ≡ vol.bitmap
unfolding write_parent write_root_block write_dir_block
write_parent_table now vol dir = elim (Bool-cases (sec_type dir == st_root)) [
  | inl e ↦ rw e (vol_write_block_table vol vol.root_block _)
  | inr e ↦ rw e (vol_write_block_table vol (header_key dir) _)
]

write_last_table : (vol : Volume) (entry : List ℕ) → (write_last vol entry).0.bitmap ≡ vol.bitmap
unfolding write_last write_dir_block write_file_hdr_block
write_last_table vol entry = elim (Bool-cases (sec_type entry == st_dir)) [
  | inl e ↦ rw e (vol_write_block_table vol (header_key entry) _)
  | inr e ↦ elim (Bool-cases (sec_type entry == st_file)) [
    | inl q ↦ rw (e, q) (vol_write_block_table vol (header_key entry) _)
    | inr q ↦ rw (e, q) refl
  ]
]

created_table :
    (w : Volume × RetCode) (dir dir' : List ℕ) (n m : ℕ) (vol' : Volume)
    → created w dir n ≡ some ((vol', dir'), some m)
    → vol' ≡ w.0
unfolding created
created_table w dir dir' n m vol' e = elim (Bool-cases (is_ok w.1)) [
  | inl o ↦ ground (arith, e, o)
  | inr o ↦ elim (Option-cases (set_block_free w.0 n)) [
    | inl f ↦ absurd (ground (arith, e, o, f))
    | inr (v, f) ↦ absurd (ground (arith, e, o, f))
  ]
]

create_entry_table :
    (set : Setting) (vol vol' : Volume) (dir dir' name : List ℕ) (n m : ℕ)
    → create_entry set vol dir name (some n) ≡ some ((vol', dir'), some m)
    → vol'.bitmap ≡ vol.bitmap
unfolding create_entry
create_entry_table set vol vol' dir dir' name n m e =
    let hash = get_hash_value set.toupper name (is_intl vol) in
    elim (Bool-cases (ltb max_name_len (length name))) [
      | inl long ↦ absurd (ground (arith, e, long))
      | inr short ↦ elim (Bool-cases (hash_at dir hash == 0)) [
        | inl z ↦
            let p = write_parent set.now vol (store32 dir (24 + 4 * hash) n) in
            let made : created p.0 p.1 n ≡ some ((vol', dir'), some m) =
              ground (arith, e, short, z) in
            ap (λ (v : Volume). v.bitmap) (created_table p.0 p.1 dir' n m vol' made)
            ∙ write_parent_table set.now vol (store32 dir (24 + 4 * hash) n)
        | inr z ↦
            let chain = last_of_chain set.chain set.env vol name (hash_at dir hash) in
            elim (Option-cases chain) [
              | inl o ↦ absurd (ground (arith, e, short, z, o))
              | inr (last, o) ↦ elim (Option-cases last) [
                | inl q ↦ absurd (ground (arith, e, short, z, o, q))
                | inr (entry, q) ↦
                    let w = write_last vol (store32 entry 496 n) in
                    let made : created w dir n ≡ some ((vol', dir'), some m) =
                      ground (arith, e, short, z, o, q) in
                    ap (λ (v : Volume). v.bitmap) (created_table w dir dir' n m vol' made)
                    ∙ write_last_table vol (store32 entry 496 n)
              ]
            ]
      ]
    ]

-- An entry that is entered again is written, and no block is taken or freed.
pub enter_again_table :
    (set : Setting) (vol vol' : Volume) (dir dir' entry : List ℕ)
    → enter_again set vol dir entry ≡ some ((vol', dir'), true)
    → vol'.bitmap ≡ vol.bitmap
unfolding enter_again
enter_again_table set vol vol' dir dir' entry e = elim (Option-cases (undel_name entry)) [
  | inl o ↦ absurd (ground (arith, e, o))
  | inr (name, o) ↦
      let made = create_entry set vol dir name (some (header_key entry)) in
      elim (Option-cases made) [
        | inl q ↦ absurd (ground (arith, e, o, q))
        | inr (got, q) ↦ elim (Option-cases got.1) [
          | inl f ↦ absurd (ground (arith, e, o, q, f))
          | inr (m, f) ↦
              create_entry_table set vol vol' dir dir' name (header_key entry) m
                (ground (arith, e, o, q, f))
        ]
      ]
]
