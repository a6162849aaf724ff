-- ===== src/Err.antt =====
-- src/adf_err.h: the return codes that the modelled functions give, and results with an output. Several
-- names of the enumeration share a number (`ADF_RC_BLOCKTYPE` is `ADF_RC_MALLOC`), and stand apart
-- here: which one is meant follows from the function.
use adflib.Prelude.{Bool, true, false, some, Fault}

pub data RetCode : Type 0 where
  rc_ok rc_error rc_malloc rc_volfull rc_name_too_long : RetCode
  rc_blocktype rc_blocksum rc_blockoutofrange rc_blockread : RetCode

-- A function that fills an output on `ADF_RC_OK` and returns a code otherwise.
pub data Result {ℓ} (A : Type ℓ) : Type ℓ where
  ok : A → Result A
  err : RetCode → Result A

infixl 5 ◌>>=◌
abbrev pub ◌>>=◌ {ℓ κ} : {A : Type ℓ} {B : Type κ} → Result A → (A → Result B) → Result B
ok a >>= f = f a
err e >>= f = err e

abbrev pub is_ok : RetCode → Bool
is_ok rc_ok = true
is_ok _ = false

-- `rc = ...; if ( rc != ADF_RC_OK ) return rc;` for a step that changes the state `A`, in code that may
-- stop the program.
infixl 5 ◌>>s◌
abbrev pub ◌>>s◌ : {A : Type 0} → A × RetCode → (A → Fault (A × RetCode)) → Fault (A × RetCode)
(a, rc_ok) >>s f = f a
(a, rc) >>s f = some (a, rc)
