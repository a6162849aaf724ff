-- ===== src/Vol/Mounting.antt =====
-- What a volume that was mounted for reading and writing has passed.
use adflib.Prelude.{
  ℕ, ◌-◌, ◌^◌, ◌<◌, ◌≡◌, refl, arith, true, false, some, Option-cases, Bool-cases, ◌⊎◌, inl, inr,
}
use adflib.Err.{
  RetCode, rc_ok, rc_error, rc_malloc, rc_volfull, rc_name_too_long, rc_blocktype, rc_blocksum,
  rc_blockoutofrange, rc_blockread, is_ok,
}
use adflib.Vol.{Volume, mode_readonly, mode_readwrite, vol_remount}
use adflib.Bitmap.Disk.{vol_bitmap_is_marked_valid}
use adflib.Cache.Listing.{DirList}
use adflib.Dir.Create.{Setting}
use adflib.Dir.Errors.{dir_errors}
use adflib.Dir.Tree.{get_r_dir_ent}
use adflib.Dir.Sound.{IsTree}
use adflib.Dir.Checked.{dir_check-IsTree, get_r_dir_ent-IsTree}
use adflib.Vol.Mount.{Memory, vol_mount_one, vol_mount_checked, vol_check_filesystem}

-- With fewer than 2 ^ 32 - 1 errors the count does not wrap around.
vol_check_filesystem_sound :
    (set : Setting) (vol : Volume)
    → ((k : ℕ) → dir_errors set vol true vol.root_block ≡ some k → k < 2 ^ 32 - 1)
    → vol_check_filesystem set vol ≡ some rc_ok
    → (dir_errors set vol true vol.root_block ≡ some 0)
      × (vol_bitmap_is_marked_valid set.env vol ≡ true)
unfolding vol_check_filesystem
vol_check_filesystem_sound set vol few e =
    let counted = (dir_check-IsTree set vol true vol.root_block).0 in
    elim (Option-cases (dir_errors set vol true vol.root_block)) [
      | inl o ↦ absurd (ground (arith, e, o, counted))
      | inr (n, o) ↦ ground (arith, e, o, counted, few n o)
    ]

is_ok_cases : (rc : RetCode) → (rc ≡ rc_ok) ⊎ (is_ok rc ≡ false)
is_ok_cases rc_ok = inl refl
is_ok_cases rc_error = inr refl
is_ok_cases rc_malloc = inr refl
is_ok_cases rc_volfull = inr refl
is_ok_cases rc_name_too_long = inr refl
is_ok_cases rc_blocktype = inr refl
is_ok_cases rc_blocksum = inr refl
is_ok_cases rc_blockoutofrange = inr refl
is_ok_cases rc_blockread = inr refl

-- The steps that a volume has come through.
passed :
    (mem : Memory) (set : Setting) (vol vol' : Volume)
    → vol_mount_checked mem set vol mode_readwrite ≡ some (vol', true)
    → (vol1 : Volume) × (vol_mount_one mem set vol mode_readonly ≡ some (vol1, true))
      × (vol_check_filesystem set vol1 ≡ some rc_ok)
      × (vol_remount vol1 mode_readwrite ≡ (vol', rc_ok))
unfolding vol_mount_checked
passed mem set vol vol' e = elim (Option-cases (vol_mount_one mem set vol mode_readonly)) [
  | inl o ↦ absurd (ground (arith, e, o))
  | inr ((vol1, b), o) ↦ elim (Bool-cases b) [
    | inr f ↦ absurd (ground (arith, e, o, f))
    | inl t ↦ elim (Option-cases (vol_check_filesystem set vol1)) [
      | inl c ↦ absurd (ground (arith, e, o, t, c))
      | inr (rc, c) ↦ elim (is_ok_cases rc) [
        | inr bad ↦ absurd (ground (arith, e, o, t, c, bad))
        | inl good ↦ elim (is_ok_cases (vol_remount vol1 mode_readwrite).1) [
          | inr bad ↦ absurd (ground (arith, e, o, t, c, good, bad))
          | inl fine ↦ (
            vol1,
            ground (arith, o, t),
            ground (arith, c, good),
            ground (arith, e, o, t, c, good, fine),
          )
        ]
      ]
    ]
  ]
]

remounted :
    (vol vol' : Volume)
    → vol_remount vol mode_readwrite ≡ (vol', rc_ok)
    → (vol.dev.read_only ≡ false) × (vol' ≡ record vol { read_only = false })
unfolding vol_remount
remounted vol vol' e = elim (Bool-cases vol.mounted) [
  | inr m ↦ absurd (ground (arith, e, m))
  | inl m ↦ elim (Bool-cases vol.dev.read_only) [
    | inl r ↦ absurd (ground (arith, e, m, r))
    | inr r ↦ (r, ground (arith, e, m, r))
  ]
]

-- If `adfVolMount` of a DOS volume for reading and writing gives the volume, and its directories have
-- fewer than 2^32 - 1 errors, which the check counts in 32 bits: `adfVolMount_` has mounted it for
-- reading, on a device that is not read-only, and what is given is that volume but for its flag
-- `readOnly`, which is off; the bitmap is marked valid; and the root block has a whole tree of entries
-- with all its subdirectories (each entry of each chain can be read, no chain is longer than the bound
-- or links back into the hash table, 513 levels at most), so that `adfGetRDirEnt` without the
-- directory cache lists it.
pub vol_mount_checked_sound :
    (mem : Memory) (set : Setting) (vol vol' : Volume)
    → ((vol1 : Volume) (k : ℕ)
        → vol_mount_one mem set vol mode_readonly ≡ some (vol1, true)
        → dir_errors set vol1 true vol1.root_block ≡ some k
        → k < 2 ^ 32 - 1)
    → vol_mount_checked mem set vol mode_readwrite ≡ some (vol', true)
    → (vol1 : Volume) × (vol_mount_one mem set vol mode_readonly ≡ some (vol1, true))
      × (vol1.dev.read_only ≡ false)
      × (vol' ≡ record vol1 { read_only = false })
      × (vol_bitmap_is_marked_valid set.env vol1 ≡ true)
      × ((list : DirList) × (get_r_dir_ent false set vol1 true vol1.root_block ≡ some list)
          × IsTree set vol1 true 513 vol1.root_block list)
vol_mount_checked_sound mem set vol vol' few e =
    let (vol1, one, checked, again) = passed mem set vol vol' e in
    let (no_errors, valid) =
      vol_check_filesystem_sound set vol1 (λ k q. few vol1 k one q) checked in
    let (list, whole) = (dir_check-IsTree set vol1 true vol1.root_block).1.0 no_errors in
    let (rw_dev, same) = remounted vol1 vol' again in
    (
      vol1,
      one,
      rw_dev,
      same,
      valid,
      (list, get_r_dir_ent-IsTree set vol1 true vol1.root_block list whole, whole),
    )
