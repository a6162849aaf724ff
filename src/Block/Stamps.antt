-- ===== src/Block/Stamps.antt =====
-- What the writers of blocks store into a structure before they write it.
use adflib.Prelude.{ℕ, ◌+◌, ◌≤◌, ◌<◌, ◌≡◌, ◌≢◌, ◌∙◌, inl, arith, List}
use adflib.Util.{load32, store32}
use adflib.Block.{
  stamp_root, stamp_dir, stamp_file_hdr, stamp_file_ext, stamp_dir_c, st_file, st_lfile, st_ldir,
  st_lsoft,
}
use adflib.Block.Members.{length-store32, store32-IsBytes, load32-store32_self, load32-store32_ne}
use adflib.Block.Seal.{IsBlock}

pub store32-IsBlock : (m : List ℕ) (p val : ℕ) → p + 3 < 512 → IsBlock m → IsBlock (store32 m p val)
store32-IsBlock m p val h b = record {
  whole = length-store32 m p val ∙ b.whole;
  bytes = store32-IsBytes m p val (omega (arith, b.whole)) b.bytes;
}

pub stamp_root-IsBlock : (m : List ℕ) → IsBlock m → IsBlock (stamp_root m)
unfolding stamp_root
stamp_root-IsBlock m b = store32-IsBlock _ 508 _ (omega arith) (
    store32-IsBlock _ 500 _ (omega arith) (
      store32-IsBlock _ 496 _ (omega arith) (
        store32-IsBlock _ 16 _ (omega arith) (
          store32-IsBlock _ 12 _ (omega arith) (
            store32-IsBlock _ 8 _ (omega arith)
              (store32-IsBlock _ 4 _ (omega arith) (store32-IsBlock _ 0 _ (omega arith) (b))))))))

pub stamp_dir-IsBlock : (m : List ℕ) → IsBlock m → IsBlock (stamp_dir m)
unfolding stamp_dir
stamp_dir-IsBlock m b = store32-IsBlock _ 508 _ (omega arith) (
    store32-IsBlock _ 12 _ (omega arith)
      (store32-IsBlock _ 8 _ (omega arith) (store32-IsBlock _ 0 _ (omega arith) (b))))

pub stamp_file_hdr-IsBlock : (m : List ℕ) → IsBlock m → IsBlock (stamp_file_hdr m)
unfolding stamp_file_hdr
stamp_file_hdr-IsBlock m b =
    store32-IsBlock _ 508 _ (omega arith)
      (store32-IsBlock _ 12 _ (omega arith) (store32-IsBlock _ 0 _ (omega arith) (b)))

pub stamp_file_ext-IsBlock : (m : List ℕ) → IsBlock m → IsBlock (stamp_file_ext m)
unfolding stamp_file_ext
stamp_file_ext-IsBlock m b = store32-IsBlock _ 16 _ (omega arith) (
    store32-IsBlock _ 12 _ (omega arith)
      (store32-IsBlock _ 508 _ (omega arith) (store32-IsBlock _ 0 _ (omega arith) (b))))

pub stamp_dir_c-IsBlock : (n : ℕ) (m : List ℕ) → IsBlock m → IsBlock (stamp_dir_c n m)
unfolding stamp_dir_c
stamp_dir_c-IsBlock n m b =
    store32-IsBlock _ 4 _ (omega arith) (store32-IsBlock _ 0 _ (omega arith) b)

-- A structure with its first long stored.
pub record HasType (m : List ℕ) : Type 0 where
  pub block : IsBlock m
  pub type : load32 m 0 ≡ 2

store32-HasType :
    (m : List ℕ) (p val : ℕ) → 4 ≤ p → p + 3 < 512 → HasType m → HasType (store32 m p val)
store32-HasType m p val h q t =
    let b = t.block in
    record {
      block = store32-IsBlock m p val q b;
      type = load32-store32_ne m p val (omega (arith, b.whole)) 0 (inl h) ∙ t.type;
    }

pub stamp_root-HasType : (m : List ℕ) → IsBlock m → HasType (stamp_root m)
unfolding stamp_root
stamp_root-HasType m b =
    let at = λ (m : List ℕ) (p val : ℕ) (h : 4 ≤ p) (q : p + 3 < 512) (t : HasType m).
      store32-HasType m p val h q t in
    at _ 508 _ (omega arith) (omega arith) (
      at _ 500 _ (omega arith) (omega arith) (
        at _ 496 _ (omega arith) (omega arith) (
          at _ 16 _ (omega arith) (omega arith) (
            at _ 12 _ (omega arith) (omega arith) (
              at _ 8 _ (omega arith) (omega arith) (
                at _ 4 _ (omega arith) (omega arith) (record {
                  block = store32-IsBlock m 0 2 (omega arith) b;
                  type = load32-store32_self m 0 2 (omega (arith, b.whole)) (omega arith);
                })))))))

pub stamp_root-sec_type : (m : List ℕ) → IsBlock m → load32 (stamp_root m) 508 ≡ 1
unfolding stamp_root
stamp_root-sec_type m b =
    load32-store32_self _ 508 1
      (omega (
        arith,
        length-store32
            (store32 (store32 (store32 (store32 (store32 (store32 m 0 2) 4 0) 8 0) 12 72) 16 0) 496
              0)
            500 0,
        length-store32 (store32 (store32 (store32 (store32 (store32 m 0 2) 4 0) 8 0) 12 72) 16 0)
            496 0,
        length-store32 (store32 (store32 (store32 (store32 m 0 2) 4 0) 8 0) 12 72) 16 0,
        length-store32 (store32 (store32 (store32 m 0 2) 4 0) 8 0) 12 72,
        length-store32 (store32 (store32 m 0 2) 4 0) 8 0,
        length-store32 (store32 m 0 2) 4 0,
        length-store32 m 0 2,
        b.whole,
      ))
      (omega arith)

-- A secondary type that is not a link's.
pub record IsPlain (t : ℕ) : Type 0 where
  pub not_lfile : t ≢ st_lfile
  pub not_ldir : t ≢ st_ldir
  pub not_lsoft : t ≢ st_lsoft

-- A structure that the reader takes as a plain entry.
pub record IsEntry (m : List ℕ) : Type 0 where
  pub is_block : IsBlock m
  pub typed : load32 m 0 ≡ 2
  pub plain : IsPlain (load32 m 508)

pub stamp_dir-IsEntry : (m : List ℕ) → IsBlock m → IsEntry (stamp_dir m)
unfolding stamp_dir
stamp_dir-IsEntry m b =
    let first : HasType (store32 m 0 2) = record {
      block = store32-IsBlock m 0 2 (omega arith) b;
      type = load32-store32_self m 0 2 (omega (arith, b.whole)) (omega arith);
    } in
    let third =
      store32-HasType _ 12 0 (omega arith) (omega arith)
        (store32-HasType _ 8 0 (omega arith) (omega arith) first) in
    let last = store32-HasType _ 508 2 (omega arith) (omega arith) third in
    let sec =
      load32-store32_self (store32 (store32 (store32 m 0 2) 8 0) 12 0) 508 2
        (omega (arith, third.block.whole)) (omega arith) in
    record {
      is_block = last.block;
      typed = last.type;
      plain = record {
        not_lfile = omega (arith, sec);
        not_ldir = omega (arith, sec);
        not_lsoft = omega (arith, sec);
      };
    }

pub stamp_file_hdr-IsEntry : (m : List ℕ) → IsBlock m → IsEntry (stamp_file_hdr m)
unfolding stamp_file_hdr
stamp_file_hdr-IsEntry m b =
    let first : HasType (store32 m 0 2) = record {
      block = store32-IsBlock m 0 2 (omega arith) b;
      type = load32-store32_self m 0 2 (omega (arith, b.whole)) (omega arith);
    } in
    let third = store32-HasType _ 12 0 (omega arith) (omega arith) first in
    let last = store32-HasType _ 508 st_file (omega arith) (omega arith) third in
    let sec =
      load32-store32_self (store32 (store32 m 0 2) 12 0) 508 st_file
        (omega (arith, third.block.whole)) (omega arith) in
    record {
      is_block = last.block;
      typed = last.type;
      plain = record {
        not_lfile = omega (arith, sec);
        not_ldir = omega (arith, sec);
        not_lsoft = omega (arith, sec);
      };
    }
