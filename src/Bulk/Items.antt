-- ===== src/Bulk/Items.antt =====
-- The items of a batch in bulk.go: the deletes, which run first, and the others.
use smt.Prelude.{
  ℕ, ◌≡◌, refl, ap, ◌∙◌, Bool, true, false, Bool-cases, inl, inr, Option, none, some, List, [], ◌∷◌,
  ◌++◌, if◌then◌else◌, arith, All,
}
use smt.Bytes.{Bytes, bytes_equal}
use smt.TreeHasher.{Hasher, path}
use smt.Tree.Api.{default_value}
use smt.Bulk.{BulkKv, compare, is_more, insert_kv, sort_stable, dedup, non_deletes}
use smt.Bulk.Batch.{last_value}
use smt.Bulk.Paths.{Shares}
use smt.Bulk.Target.{over}
use smt.Trie.{Trie, find, WellFormed}
use smt.Trie.Insert.{find-insert}
use smt.Trie.History.{
  put, put_all, WithinAll, WithinAll-Within, update_all, Stands, update_all-Stands, WellFormed-put,
}
use smt.Trie.History

All-insert_kv :
    (P : BulkKv → Type 0) (a : BulkKv) (kvs : List BulkKv)
    → P a
    → All P kvs
    → All P (insert_kv a kvs)
unfolding insert_kv
All-insert_kv P a [] p all = (p, tt)
All-insert_kv P a (b ∷ rest) p all = elim (Bool-cases (is_more (compare a.path b.path))) [
  | inl e ↦ rw e (all.0, All-insert_kv P a rest p all.1)
  | inr e ↦ rw e (p, all)
]

pub All-sort_stable :
    (P : BulkKv → Type 0) (kvs : List BulkKv) → All P kvs → All P (sort_stable kvs)
unfolding sort_stable
All-sort_stable P [] all = tt
All-sort_stable P (a ∷ rest) all =
    All-insert_kv P a (sort_stable rest) all.0 (All-sort_stable P rest all.1)

pub All-dedup : (P : BulkKv → Type 0) (kvs : List BulkKv) → All P kvs → All P (dedup kvs)
unfolding dedup
All-dedup P [] all = tt
All-dedup P (a ∷ []) all = all
All-dedup P (a ∷ b ∷ rest) all = elim (Bool-cases (bytes_equal a.path b.path)) [
  | inl e ↦ rw e (All-dedup P (b ∷ rest) all.1)
  | inr e ↦ rw e (all.0, All-dedup P (b ∷ rest) all.1)
]

over_later :
    (o : Option Bytes) (b : Bool) (v : Bytes) (old : Option Bytes)
    → over o (if b then some v else old)
      ≡ over (elim o [ some w ↦ some w | none ↦ if b then some v else none ]) old
over_later (some w) b v old = refl
over_later none true v old = refl
over_later none false v old = refl

-- The deletes of a batch, and its other items.
unfoldable pub deletes : History.Writes → History.Writes
unfolding bytes_equal
deletes [] = []
deletes ((key, v) ∷ rest) =
    let later = deletes rest in
    if bytes_equal v default_value then (key, default_value) ∷ later else later

unfoldable pub sets : History.Writes → History.Writes
unfolding bytes_equal
sets [] = []
sets ((key, v) ∷ rest) =
    let later = sets rest in if bytes_equal v default_value then later else (key, v) ∷ later

module _ ⦃h : Hasher⦄ where
  pub non_deletes-Shares : (g : ℕ → ℕ) (ws : History.Writes) → All (Shares g 0) (non_deletes ws)
  unfolding non_deletes
  non_deletes-Shares g [] = tt
  non_deletes-Shares g ((key, v) ∷ rest) = elim (Bool-cases (bytes_equal v default_value)) [
    | inl e ↦ rw e (non_deletes-Shares g rest)
    | inr e ↦ rw e (
      (h.length-digest key, h.digest-IsByte key, λ j lt. absurd (omega (arith, lt))),
      non_deletes-Shares g rest,
    )
  ]

  put-set :
      (t : Trie) (key v q : Bytes)
      → WellFormed 0 t
      → bytes_equal v default_value ≡ false
      → find (put t key v) q 0 ≡ (if bytes_equal (path key) q then some v else find t q 0)
  unfolding put
  put-set t key v q wf e = rw e (
      find-insert t (path key) v q 0 (h.length-digest key) (h.digest-IsByte key) (omega arith)
        (λ j lt. absurd (omega (arith, lt))) wf)

  -- The trie after the items that are no deletes has their last values over the old ones.
  pub sets-Target :
      (ws : History.Writes) (t : Trie)
      → WellFormed 0 t
      → (q : Bytes)
      → find (put_all t (sets ws)) q 0 ≡ over (last_value (non_deletes ws) q) (find t q 0)
  unfolding sets non_deletes put_all last_value
  sets-Target [] t wf q = refl
  sets-Target ((key, v) ∷ rest) t wf q = elim (Bool-cases (bytes_equal v default_value)) [
    | inl e ↦ rw e (sets-Target rest t wf q)
    | inr e ↦
        let ih = sets-Target rest (put t key v) (WellFormed-put t key v wf) q in
        let here = put-set t key v q wf e in
        rw e (
          ih
          ∙ ap (over (last_value (non_deletes rest) q)) here
          ∙ over_later (last_value (non_deletes rest) q) (bytes_equal (path key) q) v (find t q 0))
  ]

  pub put_all-append :
      (t : Trie) (xs ys : History.Writes) → put_all t (xs ++ ys) ≡ put_all (put_all t xs) ys
  unfolding put_all
  put_all-append t [] ys = refl
  put_all-append t ((key, v) ∷ rest) ys = put_all-append (put t key v) rest ys

  pub WithinAll-append :
      (Seen : Bytes → Type 0) (t : Trie) (xs ys : History.Writes)
      → WithinAll Seen t (xs ++ ys)
      → WithinAll Seen (put_all t xs) ys
  unfolding put_all
  WithinAll-append Seen t [] ys w = w
  WithinAll-append Seen t ((key, v) ∷ rest) ys w = WithinAll-append Seen (put t key v) rest ys w.1

  pub WithinAll-front :
      (Seen : Bytes → Type 0) (t : Trie) (xs ys : History.Writes)
      → WithinAll Seen t (xs ++ ys)
      → WithinAll Seen t xs
  WithinAll-front Seen t [] ys w = WithinAll-Within Seen t ys w
  WithinAll-front Seen t ((key, v) ∷ rest) ys w =
      (w.0, WithinAll-front Seen (put t key v) rest ys w.1)
