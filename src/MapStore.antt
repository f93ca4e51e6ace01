-- ===== src/MapStore.antt =====
-- mapstore.go: the interface that the tree takes its two stores through, and what it relies on.
pub mod Dict
pub mod Simple
pub mod Fixed
pub mod Arena
use smt.Prelude.{ℕ, ◌≡◌, Bool, if◌then◌else◌, Option, none, some}
use smt.Res.{Res, ok, err, invalid_key, Returns}
use smt.Bytes.{Bytes, bytes_equal}

-- A store of states `S`: a method that changes the store returns the new state.
pub record MapStore (S : Type 0) : Type 0 where
  pub get : S → Bytes → Res Bytes
  pub set : S → Bytes → Bytes → Res S
  pub delete : S → Bytes → Res S

-- What `Get` returns: the value, or an `InvalidKeyError` with the key.
abbrev pub found : Bytes → Option Bytes → Res Bytes
found k none = err (invalid_key k)
found k (some v) = ok v

-- The contract of a store, for the keys that fit it: it is the finite map `lookup`, `Set` never
-- fails, and `Delete` fails on a missing key alone.
pub record IsMap {S : Type 0} (store : MapStore S) (Fits : Bytes → Type 0)
    (lookup : S → Bytes → Option Bytes) : Type 0 where
  pub get_lem : (s : S) (k : Bytes) → Fits k → store.get s k ≡ found k (lookup s k)
  pub set_lem :
      (s : S) (k v : Bytes)
      → Fits k
      → Returns (store.set s k v) λ s'.
        (j : Bytes) → Fits j → lookup s' j ≡ (if bytes_equal k j then some v else lookup s j)
  pub delete_lem :
      (s : S) (k v : Bytes)
      → Fits k
      → lookup s k ≡ some v
      → Returns
          (store.delete s k)
          λ s'. (j : Bytes) → Fits j → lookup s' j ≡ (if bytes_equal k j then none else lookup s j)
  pub delete_missing :
      (s : S) (k : Bytes) → Fits k → lookup s k ≡ none → store.delete s k ≡ err (invalid_key k)
