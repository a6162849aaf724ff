-- ===== src/Dir/Names.antt =====
-- Upper case and hash values of names.
use adflib.Prelude.{
  ℕ, suc, ◌+◌, ◌*◌, ◌%◌, ◌<◌, ◌≡◌, refl, sym, ◌∙◌, ap, ap₂, arith, bit_and, Bool, true, false, List,
  [], ◌∷◌, length,
}
use adflib.Util.{u32}
use adflib.Dir.{intl_to_upper, to_upper, str_to_upper, hash_loop, get_hash_value}

pub get_hash_value-lt :
    (toupper : ℕ → ℕ) (name : List ℕ) (intl : Bool) → get_hash_value toupper name intl < 72
unfolding get_hash_value
get_hash_value-lt toupper name intl = omega arith

intl_to_upper-intl_to_upper : (c : ℕ) → intl_to_upper (intl_to_upper c) ≡ intl_to_upper c
unfolding intl_to_upper
intl_to_upper-intl_to_upper c = ground arith

pub to_upper-to_upper : (c : ℕ) → to_upper (to_upper c) ≡ to_upper c
unfolding to_upper
to_upper-to_upper c = ground arith

length-str_to_upper : (name : List ℕ) (intl : Bool) → length (str_to_upper name intl) ≡ length name
unfolding str_to_upper
length-str_to_upper [] true = refl
length-str_to_upper [] false = refl
length-str_to_upper (c ∷ name) true = ap suc (length-str_to_upper name true)
length-str_to_upper (c ∷ name) false = ap suc (length-str_to_upper name false)

-- A name in upper case is in upper case.
pub str_to_upper-str_to_upper :
    (name : List ℕ) (intl : Bool)
    → str_to_upper (str_to_upper name intl) intl ≡ str_to_upper name intl
unfolding str_to_upper
str_to_upper-str_to_upper [] true = refl
str_to_upper-str_to_upper [] false = refl
str_to_upper-str_to_upper (c ∷ name) true =
    ap₂ (λ (x : ℕ) (xs : List ℕ). x ∷ xs) (intl_to_upper-intl_to_upper c)
      (str_to_upper-str_to_upper name true)
str_to_upper-str_to_upper (c ∷ name) false =
    ap₂ (λ (x : ℕ) (xs : List ℕ). x ∷ xs) (to_upper-to_upper c)
      (str_to_upper-str_to_upper name false)

-- `toupper` of the C locale: it maps a letter and its capital to the same byte.
abbrev pub IsToUpper : (ℕ → ℕ) → Type 0
IsToUpper toupper = (c : ℕ) → toupper (to_upper c) ≡ toupper c

hash_loop-upper :
    (toupper : ℕ → ℕ) (name : List ℕ) (intl : Bool) (hash : ℕ)
    → IsToUpper toupper
    → hash_loop toupper (str_to_upper name intl) intl hash ≡ hash_loop toupper name intl hash
unfolding hash_loop str_to_upper
hash_loop-upper toupper [] true hash h = refl
hash_loop-upper toupper [] false hash h = refl
hash_loop-upper toupper (c ∷ name) true hash h =
    ap
      (λ (u : ℕ).
        hash_loop toupper (str_to_upper name true) true (bit_and (u32 (hash * 13 + u)) 0x7ff))
      (intl_to_upper-intl_to_upper c)
    ∙ hash_loop-upper toupper name true _ h
hash_loop-upper toupper (c ∷ name) false hash h =
    ap
      (λ (u : ℕ).
        hash_loop toupper (str_to_upper name false) false
          (bit_and (u32 (hash * 13 + u % 256)) 0x7ff))
      (h c)
    ∙ hash_loop-upper toupper name false _ h

get_hash_value-upper :
    (toupper : ℕ → ℕ) (name : List ℕ) (intl : Bool)
    → IsToUpper toupper
    → get_hash_value toupper (str_to_upper name intl) intl ≡ get_hash_value toupper name intl
unfolding get_hash_value
get_hash_value-upper toupper name intl h =
    rw (length-str_to_upper name intl)
      (ap (λ (x : ℕ). x % 72) (hash_loop-upper toupper name intl (length name) h))

-- If `toupper` maps a letter and its capital to the same byte, as in the C locale, names with the same
-- upper case have the same hash value, and it is an index of the hash table.
pub get_hash_value-same_name :
    (toupper : ℕ → ℕ) (a b : List ℕ) (intl : Bool)
    → IsToUpper toupper
    → str_to_upper a intl ≡ str_to_upper b intl
    → (get_hash_value toupper a intl ≡ get_hash_value toupper b intl)
      × (get_hash_value toupper a intl < 72)
get_hash_value-same_name toupper a b intl h e = (
  sym (get_hash_value-upper toupper a intl h)
      ∙ ap (λ (n : List ℕ). get_hash_value toupper n intl) e
      ∙ get_hash_value-upper toupper b intl h,
  get_hash_value-lt toupper a intl,
)
