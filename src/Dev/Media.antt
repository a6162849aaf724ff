-- ===== src/Dev/Media.antt =====
-- src/adf_dev_type.h and adf_dev_type.c: the known types of devices, by their number in the table, with
-- geometry and class; names and descriptions are left out.
use adflib.Prelude.{
  ℕ, suc, ◌*◌, Bool, ◌&&◌, List, [], ◌∷◌, get_elem?, Option, none, some, ◌==◌, if◌then◌else◌, Fault,
  ◌>>?◌,
}
use adflib.Util.{u32}

pub record DevGeometry : Type 0 where
  pub cylinders : ℕ
  pub heads : ℕ
  pub sectors : ℕ

pub data DevClass : Type 0 where
  class_unknown class_flop class_harddisk class_hardfile : DevClass

pub record DevMedium : Type 0 where
  pub geometry : DevGeometry
  pub dev_class : DevClass

abbrev medium : ℕ → ℕ → ℕ → DevClass → DevMedium
medium c h s dev_class = record {
  geometry = record { cylinders = c; heads = h; sectors = s };
  dev_class = dev_class;
}

abbrev pub dev_media : List DevMedium
dev_media =
    medium 0 0 0 class_unknown
    ∷ medium 80 2 11 class_flop
    ∷ medium 40 2 11 class_flop
    ∷ medium 80 2 19 class_flop
    ∷ medium 80 2 22 class_flop
    ∷ medium 81 2 11 class_flop
    ∷ medium 82 2 11 class_flop
    ∷ medium 83 2 11 class_flop
    ∷ medium 81 2 22 class_flop
    ∷ medium 82 2 22 class_flop
    ∷ medium 83 2 22 class_flop
    ∷ medium 40 2 9 class_flop
    ∷ medium 80 2 15 class_flop
    ∷ medium 80 2 9 class_flop
    ∷ medium 80 2 18 class_flop
    ∷ medium 80 2 36 class_flop
    ∷ medium 0 0 0 class_flop
    ∷ medium 0 0 0 class_hardfile
    ∷ medium 0 0 0 class_harddisk
    ∷ medium 2891 1 68 class_harddisk
    ∷ medium 782 2 27 class_harddisk
    ∷ medium 980 10 17 class_harddisk
    ∷ []

abbrev pub devtype_unknown : ℕ
devtype_unknown = 0

-- A type outside the table fails an assertion.
unfoldable pub dev_type_get_class : ℕ → Fault DevClass
dev_type_get_class type = get_elem? dev_media type >>? λ m. some m.dev_class

unfoldable pub dev_type_get_geometry : ℕ → Fault DevGeometry
dev_type_get_geometry type = get_elem? dev_media type >>? λ m. some m.geometry

abbrev pub size_of : DevGeometry → ℕ
size_of g = u32 (u32 (g.cylinders * g.heads) * g.sectors)

-- The first medium that passes a test, with its number from `i` on.
unfoldable pub find_medium : (DevMedium → Bool) → List DevMedium → ℕ → Option (ℕ × DevMedium)
find_medium test [] i = none
find_medium test (m ∷ media) i =
    let rest = find_medium test media (suc i) in if test m then some (i, m) else rest

abbrev number_of : Option (ℕ × DevMedium) → ℕ
number_of none = devtype_unknown
number_of (some got) = got.0

unfoldable pub dev_get_type_by_size_blocks : ℕ → ℕ
dev_get_type_by_size_blocks size_blocks =
    number_of (find_medium (λ m. size_of m.geometry == size_blocks) dev_media 0)

unfoldable pub dev_get_type_by_geometry : DevGeometry → ℕ
dev_get_type_by_geometry g = number_of (
    find_medium
      (λ m.
        (m.geometry.cylinders == g.cylinders)
        && ((m.geometry.heads == g.heads) && (m.geometry.sectors == g.sectors)))
      dev_media 0)

-- A size that no medium has is taken for a hard disk.
unfoldable pub dev_get_class_by_size_blocks : ℕ → DevClass
dev_get_class_by_size_blocks size_blocks =
    elim (find_medium (λ m. size_of m.geometry == size_blocks) dev_media 0) [
      | none ↦ class_harddisk
      | some got ↦ got.1.dev_class
    ]
