-- ===== src/Tree/Run.antt =====
-- A method of SparseMerkleTree (smt.go) as a function of the tree's state: it returns its result with
-- the state, also where it ends in an error. Calls of the two stores change that state.
use smt.Res.{Res, ok, err, panic}
use smt.Bytes.{Bytes}
use smt.MapStore.{MapStore}
use smt.Tree.{SparseMerkleTree}

abbrev pub Run {ℓ} : Type 0 → Type ℓ → Type ℓ
Run S A = S → Res A × S

-- What follows a call runs only if the call succeeded.
abbrev pub and_then {ℓ κ} :
    {S : Type 0} {A : Type ℓ} {B : Type κ} → (A → Run S B) → Res A × S → Res B × S
and_then f (ok a, s) = f a s
and_then f (err e, s) = (err e, s)
and_then f (panic, s) = (panic, s)

infixl 5 ◌>>=◌ ◌>>◌
abbrev pub ◌>>=◌ {ℓ κ} : {S : Type 0} {A : Type ℓ} {B : Type κ} → Run S A → (A → Run S B) → Run S B
◌>>=◌ m f s = and_then f (m s)

abbrev pub ◌>>◌ {ℓ} : {S : Type 0} {B : Type ℓ} → Run S (Unit {0}) → Run S B → Run S B
m >> k = m >>= λ _. k

abbrev pub return {ℓ} : {S : Type 0} {A : Type ℓ} → A → Run S A
return a s = (ok a, s)

-- A step that touches no store.
abbrev pub lift {ℓ} : {S : Type 0} {A : Type ℓ} → Res A → Run S A
lift r s = (r, s)

module _ {N V : Type 0} where
  -- The state after a call of a store that answered `r`; a failed call leaves the store as it was.
  abbrev pub after_nodes : SparseMerkleTree N V → Res N → Res (Unit {0}) × SparseMerkleTree N V
  after_nodes s (ok n) = (ok tt, record s { nodes = n })
  after_nodes s (err e) = (err e, s)
  after_nodes s panic = (panic, s)

  abbrev pub after_values : SparseMerkleTree N V → Res V → Res (Unit {0}) × SparseMerkleTree N V
  after_values s (ok v) = (ok tt, record s { values = v })
  after_values s (err e) = (err e, s)
  after_values s panic = (panic, s)

  module _ ⦃ns : MapStore N⦄ where
    abbrev pub nodes_get : Bytes → Run (SparseMerkleTree N V) Bytes
    nodes_get k s = (ns.get s.nodes k, s)

    abbrev pub nodes_set : Bytes → Bytes → Run (SparseMerkleTree N V) (Unit {0})
    nodes_set k v s = after_nodes s (ns.set s.nodes k v)

    abbrev pub nodes_delete : Bytes → Run (SparseMerkleTree N V) (Unit {0})
    nodes_delete k s = after_nodes s (ns.delete s.nodes k)

  module _ ⦃vs : MapStore V⦄ where
    abbrev pub values_get : Bytes → Run (SparseMerkleTree N V) Bytes
    values_get k s = (vs.get s.values k, s)

    abbrev pub values_set : Bytes → Bytes → Run (SparseMerkleTree N V) (Unit {0})
    values_set k v s = after_values s (vs.set s.values k v)

    abbrev pub values_delete : Bytes → Run (SparseMerkleTree N V) (Unit {0})
    values_delete k s = after_values s (vs.delete s.values k)
