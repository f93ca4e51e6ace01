-- ===== src/MapStore/Simple.antt =====
-- SimpleMap of mapstore.go.
use smt.Prelude.{refl, Option, none, some, [], arith}
use smt.Res.{Res, ok, err, invalid_key}
use smt.Bytes.{Bytes}
use smt.MapStore.{MapStore, IsMap}
use smt.MapStore.Dict.{Dict, lookup, insert, remove, lookup-insert, lookup-remove}

pub record SimpleMap : Type 0 where
  pub m : Dict Bytes

unfoldable pub new_simple_map : SimpleMap
new_simple_map = record { m = [] }

unfoldable pub get : SimpleMap → Bytes → Res Bytes
unfolding lookup
get sm key = elim (lookup sm.m key) [ some value ↦ ok value | none ↦ err (invalid_key key) ]

unfoldable pub set : SimpleMap → Bytes → Bytes → Res SimpleMap
unfolding insert
set sm key value = ok (record { m = insert sm.m key value })

unfoldable pub delete : SimpleMap → Bytes → Res SimpleMap
unfolding lookup remove
delete sm key = elim (lookup sm.m key) [
  | some value ↦ ok (record { m = remove sm.m key })
  | none ↦ err (invalid_key key)
]

abbrev pub simple_map : MapStore SimpleMap
simple_map = record { get = get; set = set; delete = delete }

abbrev pub contents : SimpleMap → Bytes → Option Bytes
contents sm = lookup sm.m

-- `SimpleMap` keeps the contract of the interface at every key.
pub simple_map-IsMap : IsMap simple_map (λ _. Unit {0}) contents
unfolding get set delete
simple_map-IsMap = record {
  get_lem = λ s k _. ground arith;
  set_lem = λ s k v _. (record { m = insert s.m k v }, refl, λ j _. lookup-insert s.m k j v);
  delete_lem =
      λ s k v _ e. (record { m = remove s.m k }, ground arith, λ j _. lookup-remove s.m k j);
  delete_missing = λ s k _ e. ground arith;
}
