-- ===== src/Block/Members.antt =====
-- Members of a structure in memory: a stored value is loaded, and the bytes elsewhere stay.
use adflib.Prelude.{
  ℕ, ◌+◌, ◌/◌, ◌%◌, ◌^◌, ◌<◌, ◌≡◌, ◌⊎◌, arith, List, length, set, length-set, get_or-set, ◌==◌,
  if◌then◌else◌,
}
use adflib.Util.{byte, load32, store32}
use adflib.Util.ByteOrder.{IsBytes}

pub length-store32 : (m : List ℕ) (p val : ℕ) → length (store32 m p val) ≡ length m
unfolding store32
length-store32 m p val = simp length-set

pub byte-store32 :
    (m : List ℕ) (p val i : ℕ)
    → p + 3 < length m
    → byte (store32 m p val) i ≡ (
        if i == p + 3
        then val / 2 ^ 24 % 256
        else if i == p + 2
        then val / 2 ^ 16 % 256
        else if i == p + 1
        then val / 2 ^ 8 % 256
        else if i == p
        then val % 256
        else byte m i)
unfolding store32
byte-store32 m p val i h =
    let b0 = val % 2 ^ 8 in
    let b1 = val / 2 ^ 8 % 2 ^ 8 in
    let b2 = val / 2 ^ 16 % 2 ^ 8 in
    let b3 = val / 2 ^ 24 % 2 ^ 8 in
    ground (
      arith,
      length-set m p b0,
      length-set (set m p b0) (p + 1) b1,
      length-set (set (set m p b0) (p + 1) b1) (p + 2) b2,
      get_or-set m p i b0 0,
      get_or-set (set m p b0) (p + 1) i b1 0,
      get_or-set (set (set m p b0) (p + 1) b1) (p + 2) i b2 0,
      get_or-set (set (set (set m p b0) (p + 1) b1) (p + 2) b2) (p + 3) i b3 0,
    )

module _ (m : List ℕ) (p val : ℕ) (h : p + 3 < length m) where
  pub store32-IsBytes : IsBytes m → IsBytes (store32 m p val)
  store32-IsBytes b i = ground (arith, byte-store32 m p val i h, b i)

  pub load32-store32_self : val < 2 ^ 32 → load32 (store32 m p val) p ≡ val
  unfolding load32
  load32-store32_self k =
      let at = λ (i : ℕ). byte-store32 m p val i h in
      ground (arith, at p, at (p + 1), at (p + 2), at (p + 3))

  pub load32-store32_ne :
      (q : ℕ) → (q + 3 < p) ⊎ (p + 3 < q) → load32 (store32 m p val) q ≡ load32 m q
  unfolding load32
  load32-store32_ne q apart =
      let at = λ (i : ℕ). byte-store32 m p val i h in
      ground (arith, at q, at (q + 1), at (q + 2), at (q + 3))
