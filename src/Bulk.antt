-- ===== src/Bulk.antt =====
-- bulk.go: a batch of updates in one recursive walk. A path that has no bit left for an inner node
-- panics in getBitAtFromMSB, so that the walk recurs on the bits that are left.
pub mod Walk
pub mod Batch
pub mod Split
pub mod Paths
pub mod Target
pub mod Build
pub mod Around
pub mod Merge
pub mod Join
pub mod Apply
pub mod Items
pub mod Iterated
use smt.Prelude.{
  ℕ, zero, suc, ◌+◌, ◌/◌, Bool, true, false, not, ◌&&◌, List, [], ◌∷◌, ◌++◌, length, take, drop,
  ltb, ◌==◌, if◌then◌else◌,
}
use smt.Res.{Res, ok, err, panic, bulk_input_mismatch}
use smt.Res
use smt.Bytes.{Bytes, bytes_equal, index}
use smt.Utils.{get_bit_at_from_msb}
use smt.TreeHasher.{
  Hasher, digest, path, placeholder, is_leaf, parse_leaf, parse_node, digest_leaf, digest_node,
}
use smt.MapStore.{MapStore}
use smt.Tree.{SparseMerkleTree}
use smt.Tree.Run.{
  Run, ◌>>=◌, ◌>>◌, return, lift, nodes_get, nodes_set, nodes_delete, values_get, values_set,
}
use smt.Tree.Walk.{depth}
use smt.Tree.Api.{default_value, delete, set_root}

pub record BulkKv : Type 0 where
  pub path : Bytes
  pub value : Bytes

pub data Order : Type 0 where
  less : Order
  same : Order
  more : Order

-- `bytes.Compare`
unfoldable pub compare : Bytes → Bytes → Order
compare [] [] = same
compare [] (y ∷ ys) = less
compare (x ∷ xs) [] = more
compare (x ∷ xs) (y ∷ ys) = if ltb x y then less else (if ltb y x then more else compare xs ys)

abbrev pub is_more : Order → Bool
is_more less = false
is_more same = false
is_more more = true

-- `slices.SortStableFunc` by path: an item goes before the first that is not below it, among those
-- that came after it.
unfoldable pub insert_kv : BulkKv → List BulkKv → List BulkKv
unfolding compare
insert_kv a [] = a ∷ []
insert_kv a (b ∷ rest) =
    let later = insert_kv a rest in
    if is_more (compare a.path b.path) then b ∷ later else a ∷ b ∷ rest

unfoldable pub sort_stable : List BulkKv → List BulkKv
unfolding insert_kv
sort_stable [] = []
sort_stable (a ∷ rest) = insert_kv a (sort_stable rest)

-- "Dedup adjacent same-path entries: keep the LAST occurrence."
unfoldable pub dedup : List BulkKv → List BulkKv
unfolding bytes_equal
dedup [] = []
dedup (a ∷ []) = a ∷ []
dedup (a ∷ b ∷ rest) =
    let later = dedup (b ∷ rest) in if bytes_equal a.path b.path then later else a ∷ later

-- `sort.Search` between `i` and `j`; the rounds `fuel` suffice if they are at least `j - i`.
unfoldable pub search_loop : ℕ → (ℕ → Res Bool) → ℕ → ℕ → Res ℕ
search_loop zero test i j = ok i
search_loop (suc fuel) test i j =
    let m = (i + j) / 2 in
    let next =
      Res.◌>>=◌ (test m)
        λ yes. if yes then search_loop fuel test i m else search_loop fuel test (m + 1) j in
    if ltb i j then next else ok i

unfoldable pub search : ℕ → (ℕ → Res Bool) → Res ℕ
unfolding search_loop
search n test = search_loop n test 0 n

-- `kvs[i]` passes the test.
abbrev pub test_at : List BulkKv → (BulkKv → Res Bool) → ℕ → Res Bool
test_at kvs test i = Res.◌>>=◌ (index kvs i) test

unfoldable pub partition_by_bit : List BulkKv → ℕ → Res ℕ
unfolding search index get_bit_at_from_msb
partition_by_bit kvs i =
    if length kvs == 0
    then ok 0
    else search (length kvs)
        (test_at kvs λ kv. Res.◌>>=◌ (get_bit_at_from_msb kv.path i) λ b. ok (b == 1))

abbrev pub not_less : Order → Bool
not_less less = false
not_less same = true
not_less more = true

-- The place of a leaf's path among the items.
unfoldable pub insert_index : List BulkKv → Bytes → Res ℕ
unfolding search index compare
insert_index kvs leaf_path =
    search (length kvs) (test_at kvs λ kv. ok (not_less (compare kv.path leaf_path)))

unfoldable pub is_shadowed : List BulkKv → Bytes → Bool
unfolding bytes_equal
is_shadowed [] leaf_path = false
is_shadowed (kv ∷ rest) leaf_path =
    let later = is_shadowed rest leaf_path in if bytes_equal kv.path leaf_path then true else later

-- The keys with their values, which are as many.
unfoldable pub zip : List Bytes → List Bytes → List (Bytes × Bytes)
zip [] values = []
zip (key ∷ keys) [] = []
zip (key ∷ keys) (value ∷ values) = (key, value) ∷ zip keys values

module _ ⦃h : Hasher⦄ where
  -- The one item has the value hash given.
  unfoldable pub same_value : List BulkKv → Bytes → Bool
  unfolding bytes_equal
  same_value (kv ∷ []) value_hash = bytes_equal value_hash (digest kv.value)
  same_value kvs value_hash = false

  -- "Build the non-delete kv list", of keys with their values.
  unfoldable pub non_deletes : List (Bytes × Bytes) → List BulkKv
  unfolding bytes_equal
  non_deletes [] = []
  non_deletes ((key, value) ∷ rest) =
      let later = non_deletes rest in
      if bytes_equal value default_value
      then later
      else record { path = path key; value = value } ∷ later
