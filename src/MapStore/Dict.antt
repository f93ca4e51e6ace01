-- ===== src/MapStore/Dict.antt =====
-- A Go map with byte keys, as the stores of mapstore.go and its siblings use it.
use smt.Prelude.{◌≡◌, if◌then◌else◌, Option, none, some, List, [], ◌∷◌, arith}
use smt.Bytes.{Bytes, bytes_equal, bytes_equal_iff}

abbrev pub Dict {ℓ} : Type ℓ → Type ℓ
Dict V = List (Bytes × V)

module _ {ℓ} {V : Type ℓ} where
  -- `value, ok := m[k]`
  unfoldable pub lookup : Dict V → Bytes → Option V
  unfolding bytes_equal
  lookup [] k = none
  lookup ((j, v) ∷ m) k = if bytes_equal j k then some v else lookup m k

  -- `delete(m, k)`
  unfoldable pub remove : Dict V → Bytes → Dict V
  unfolding bytes_equal
  remove [] k = []
  remove ((j, v) ∷ m) k = if bytes_equal j k then remove m k else (j, v) ∷ remove m k

  -- `m[k] = v`
  unfoldable pub insert : Dict V → Bytes → V → Dict V
  unfolding remove
  insert m k v = (k, v) ∷ remove m k

  pub lookup-remove :
      (m : Dict V) (k j : Bytes)
      → lookup (remove m k) j ≡ (if bytes_equal k j then none else lookup m j)
  unfolding lookup remove
  lookup-remove [] k j = ground arith
  lookup-remove ((i, v) ∷ m) k j =
      ground
        (arith, lookup-remove m k j, bytes_equal_iff i k, bytes_equal_iff i j, bytes_equal_iff k j)

  pub lookup-insert :
      (m : Dict V) (k j : Bytes) (v : V)
      → lookup (insert m k v) j ≡ (if bytes_equal k j then some v else lookup m j)
  unfolding lookup insert
  lookup-insert m k j v = ground (arith, lookup-remove m k j)
