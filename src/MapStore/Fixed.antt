-- ===== src/MapStore/Fixed.antt =====
-- FixedSizeMap of mapstore_fixed.go.
use smt.Prelude.{◌≡◌, ◌≢◌, Option, none, some, [], length, ◌==◌, if◌then◌else◌, arith}
use smt.Res.{Res, ok, err, panic, invalid_key, ◌>>=◌}
use smt.Bytes.{Bytes}
use smt.MapStore.{MapStore, IsMap}
use smt.MapStore.Dict.{Dict, lookup, insert, remove, lookup-insert, lookup-remove}

pub record FixedSizeMap : Type 0 where
  pub m : Dict Bytes

unfoldable pub new_fixed_size_map : FixedSizeMap
new_fixed_size_map = record { m = [] }

-- The array of a 32-byte key holds the key's bytes.
unfoldable pub to_fixed_key : Bytes → Res Bytes
to_fixed_key key = if length key == 32 then ok key else panic

unfoldable pub get : FixedSizeMap → Bytes → Res Bytes
unfolding to_fixed_key lookup
get sm key = do
  k ← to_fixed_key key
  elim (lookup sm.m k) [ some value ↦ ok value | none ↦ err (invalid_key key) ]

unfoldable pub set : FixedSizeMap → Bytes → Bytes → Res FixedSizeMap
unfolding to_fixed_key insert
set sm key value = do k ← to_fixed_key key; ok (record { m = insert sm.m k value })

unfoldable pub delete : FixedSizeMap → Bytes → Res FixedSizeMap
unfolding to_fixed_key lookup remove
delete sm key = do
  k ← to_fixed_key key
  elim (lookup sm.m k) [
    | some value ↦ ok (record { m = remove sm.m k })
    | none ↦ err (invalid_key key)
  ]

abbrev pub fixed_size_map : MapStore FixedSizeMap
fixed_size_map = record { get = get; set = set; delete = delete }

abbrev pub contents : FixedSizeMap → Bytes → Option Bytes
contents sm = lookup sm.m

abbrev pub IsFixedKey : Bytes → Type 0
IsFixedKey k = length k ≡ 32

pub to_fixed_key_lem : (k : Bytes) → length k ≡ 32 → to_fixed_key k ≡ ok k
unfolding to_fixed_key
to_fixed_key_lem k e = ground arith

-- `FixedSizeMap` keeps the contract of the interface at the keys of 32 bytes.
pub fixed_size_map-IsMap : IsMap fixed_size_map IsFixedKey contents
unfolding get set delete
fixed_size_map-IsMap = record {
  get_lem = λ s k fits. rw (to_fixed_key_lem k fits) (ground arith);
  set_lem = λ s k v fits.
      (record { m = insert s.m k v }, rw (to_fixed_key_lem k fits), λ j _. lookup-insert s.m k j v);
  delete_lem = λ s k v fits e. (
    record { m = remove s.m k },
    rw (to_fixed_key_lem k fits) (ground arith),
    λ j _. lookup-remove s.m k j,
  );
  delete_missing = λ s k fits e. rw (to_fixed_key_lem k fits) (ground arith);
}

-- At a key of any other length every method panics.
pub fixed_size_map-panic :
    (s : FixedSizeMap) (k v : Bytes)
    → length k ≢ 32
    → (get s k ≡ panic) × (set s k v ≡ panic) × (delete s k ≡ panic)
unfolding get set delete to_fixed_key
fixed_size_map-panic s k v n = ground arith
