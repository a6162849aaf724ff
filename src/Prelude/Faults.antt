-- ===== src/Prelude/Faults.antt =====
-- Code that may stop the program: `none` stands for a failed assertion, an access outside an array, or a
-- loop that does not end.
use mathlib.Core.Option.{Option, none, some}

infixl 5 ◌>>?◌
abbrev pub ◌>>?◌ {ℓ κ} : {A : Type ℓ} {B : Type κ} → Option A → (A → Option B) → Option B
none >>? f = none
some a >>? f = f a

abbrev pub Fault : Type 0 → Type 0
Fault A = Option A
