-- ===== src/Res.antt =====
-- What a Go call of the package ends in: a value, one of the errors that the files declare
-- (smt.go, deepsubtree.go, mapstore.go, bulk.go, sharded.go), or a run-time panic.
use smt.Prelude.{ℕ, ◌≡◌, List}

pub data Error : Type 0 where
  invalid_key : List ℕ → Error
  key_already_empty : Error
  bad_proof : Error
  bulk_input_mismatch : Error
  invalid_shard_count : Error
  -- an error of a store that the caller supplies
  store_failure : ℕ → Error

pub data Res {ℓ} (A : Type ℓ) : Type ℓ where
  ok : A → Res A
  err : Error → Res A
  panic : Res A

infixl 5 ◌>>=◌
abbrev pub ◌>>=◌ {ℓ κ} : {A : Type ℓ} {B : Type κ} → Res A → (A → Res B) → Res B
ok a >>= f = f a
err e >>= f = err e
panic >>= f = panic

module _ {ℓ κ} {A : Type ℓ} where
  -- The call succeeds, with a value of which `Post` holds.
  abbrev pub Returns : Res A → (A → Type κ) → Type (ℓ ⊔ κ)
  Returns call Post = (value : A) × (call ≡ ok value) × Post value
