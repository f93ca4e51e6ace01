-- ===== src/Trie/History.antt =====
-- Sequences of Update calls of smt.go on a new tree, where an update with the default value is a
-- deletion: they behave as a map from paths to values.
pub mod Map
pub mod Undo
use smt.Prelude.{
  ℕ, ◌≡◌, ◌≢◌, refl, sym, ap, ◌∙◌, true, false, Bool-cases, inl, inr, none, some, List, [], ◌∷◌,
  length, if◌then◌else◌, arith, Option-cases,
}
use mathlib.Core.Option.{get_or}
use mathlib.Core.Path.{subst}
use smt.Res.{Res, ok}
use smt.Bytes.{Bytes, bytes_equal, bytes_equal_iff, bytes_equal→eq}
use smt.TreeHasher.{Hasher, path, path_size}
use smt.TreeHasher.Collisions.{CollisionFree}
use smt.MapStore.{MapStore}
use smt.Tree.{SparseMerkleTree}
use smt.Tree.Run.{Run, ◌>>=◌, return}
use smt.Tree.Api.{default_value, delete, get, update, new_sparse_merkle_tree}
use smt.Trie.{Trie, empty, leaf, node, root_hash, find, WellFormed}
use smt.Trie.Walk.{HashKeyed}
use smt.Trie.Represents.{Represents, new-Represents, get-get_descend}
use smt.Trie.Insert.{insert, find-insert, Full}
use smt.Trie.Remove.{remove, find-remove}
use smt.Trie.Remove.Shape.{WellFormed-remove}
use smt.Trie.Insert.Shape.{WellFormed-insert}
use smt.Trie.Remove.Represents.{delete-Represents}
use smt.Trie.Distinct.{Within}
use smt.Trie.Canonical.{find_determines}
use smt.Trie.Update.Represents.{update-Represents}

-- The keys and values of a sequence of calls.
abbrev pub Writes : Type 0
Writes = List (Bytes × Bytes)

module _ ⦃h : Hasher⦄ where
  -- The trie after one call, and after all.
  unfoldable pub put : Trie → Bytes → Bytes → Trie
  unfolding bytes_equal
  put t key v =
      if bytes_equal v default_value then remove t (path key) 0 else insert t (path key) v 0

  unfoldable pub put_all : Trie → Writes → Trie
  unfolding put
  put_all t [] = t
  put_all t ((key, v) ∷ rest) = put_all (put t key v) rest

  -- The map from paths to values after the calls, on the map before.
  unfoldable pub written : Writes → (Bytes → Bytes) → Bytes → Bytes
  unfolding bytes_equal
  written [] m q = m q
  written ((key, v) ∷ rest) m q = written rest (λ x. if bytes_equal (path key) x then v else m x) q

  -- What the tries of all calls hash is seen.
  abbrev pub WithinAll : (Bytes → Type 0) → Trie → Writes → Type 0
  WithinAll Seen t [] = Within Seen t
  WithinAll Seen t ((key, v) ∷ rest) = Within Seen t × WithinAll Seen (put t key v) rest

  pub WithinAll-Within :
      (Seen : Bytes → Type 0) (t : Trie) (ws : Writes) → WithinAll Seen t ws → Within Seen t
  WithinAll-Within Seen t [] w = w
  WithinAll-Within Seen t ((key, v) ∷ rest) w = w.0

  module _ {N V : Type 0} ⦃ns : MapStore N⦄ ⦃vs : MapStore V⦄ where
    -- One call of `update` after the other.
    unfoldable pub update_all : Writes → Run (SparseMerkleTree N V) (Unit {0})
    unfolding update
    update_all [] = return tt
    update_all ((key, v) ∷ rest) = update key v >>= λ root. update_all rest

  pub find-put :
      (t : Trie) (key v : Bytes) (q : Bytes)
      → WellFormed 0 t
      → get_or (find (put t key v) q 0) []
        ≡ (if bytes_equal (path key) q then v else get_or (find t q 0) [])
  unfolding put
  find-put t key v q wf = elim (Bool-cases (bytes_equal v default_value)) [
    | inl e ↦
        rw (e, find-remove t (path key) q 0 wf)
          (elim (Bool-cases (bytes_equal (path key) q)) [
            | inl at ↦ rw at (sym (bytes_equal→eq v default_value e))
            | inr off ↦ rw off refl
          ])
    | inr e ↦
        rw
          (
            e,
            find-insert t (path key) v q 0 (h.length-digest key) (h.digest-IsByte key) (omega arith)
                (λ j lt. absurd (omega arith)) wf,
          )
          (elim (Bool-cases (bytes_equal (path key) q)) [
            | inl at ↦ rw at refl
            | inr off ↦ rw off refl
          ])
  ]

  written-same :
      (ws : Writes) (m m' : Bytes → Bytes) (q : Bytes)
      → ((x : Bytes) → m x ≡ m' x)
      → written ws m q ≡ written ws m' q
  unfolding written
  written-same [] m m' q e = e q
  written-same ((key, v) ∷ rest) m m' q e = written-same rest _ _ q λ x.
      elim (Bool-cases (bytes_equal (path key) x)) [ inl at ↦ rw at refl | inr off ↦ rw off (e x) ]

  pub WellFormed-put : (t : Trie) (key v : Bytes) → WellFormed 0 t → WellFormed 0 (put t key v)
  unfolding put
  WellFormed-put t key v wf = elim (Bool-cases (bytes_equal v default_value)) [
    | inl e ↦ rw e (WellFormed-remove t (path key) 0 wf)
    | inr e ↦ rw e (
        WellFormed-insert t (path key) v 0 (omega arith) (h.length-digest key) (h.digest-IsByte key)
          (λ q. ground (arith, e, bytes_equal_iff v [], q)) wf)
  ]

  -- The trie after the calls has the values of the map after them.
  find-put_all :
      (t : Trie) (ws : Writes) (q : Bytes)
      → WellFormed 0 t
      → get_or (find (put_all t ws) q 0) [] ≡ written ws (λ x. get_or (find t x 0) []) q
  unfolding put_all written
  find-put_all t [] q wf = refl
  find-put_all t ((key, v) ∷ rest) q wf =
      find-put_all (put t key v) rest q (WellFormed-put t key v wf)
      ∙ written-same rest _ _ q (λ x. find-put t key v x wf)

module _ ⦃h : Hasher⦄ {N V : Type 0} ⦃ns : MapStore N⦄ ⦃vs : MapStore V⦄ (nodes : HashKeyed ns)
    (values : HashKeyed vs) (Seen : Bytes → Type 0) (free : CollisionFree Seen) where
  -- The state stands for the trie, which is sound.
  pub record Stands (s : SparseMerkleTree N V) (t : Trie) : Type 0 where
    pub represents : Represents nodes values s t
    pub full : Full t
    pub within : Within Seen t

  pub update-put :
      (s : SparseMerkleTree N V) (t : Trie) (key v : Bytes)
      → Stands s t
      → Within Seen (put t key v)
      → (s' : SparseMerkleTree N V) × (update key v s ≡ (ok (root_hash (put t key v)), s'))
        × Stands s' (put t key v)
  update-put s t key v x =
      unfold put in
      elim (Bool-cases (bytes_equal v default_value)) [
        | inl e ↦ rw e (λ within.
            let (s', run, rep, full) =
              delete-Represents nodes values Seen free s t x.represents x.full x.within key
                within in
            (
              s',
              ap (λ w. update key w s) (bytes_equal→eq v default_value e) ∙ (unfold delete in run),
              record { represents = rep; full = full; within = within },
            ))
        | inr e ↦ rw e (λ within.
            let (s', run, rep, full) =
              update-Represents nodes values Seen free s t x.represents x.full x.within key v
                (λ q. ground (arith, e, bytes_equal_iff v [], q)) within in
            (s', run, record { represents = rep; full = full; within = within }))
      ]

  pub update_all-Stands :
      (ws : Writes) (s : SparseMerkleTree N V) (t : Trie)
      → Stands s t
      → WithinAll Seen t ws
      → (s' : SparseMerkleTree N V) × (update_all ws s ≡ (ok tt, s')) × Stands s' (put_all t ws)
  unfolding update_all put_all
  update_all-Stands [] s t x w = (s, refl, x)
  update_all-Stands ((key, v) ∷ rest) s t x w =
      let (s1, run, x1) = update-put s t key v x (WithinAll-Within Seen (put t key v) rest w.1) in
      let (s2, runs, x2) = update_all-Stands rest s1 (put t key v) x1 w.1 in (s2, rw run runs, x2)
