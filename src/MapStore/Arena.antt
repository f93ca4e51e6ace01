-- ===== src/MapStore/Arena.antt =====
-- ArenaFixedSizeMap of mapstore_arena.go: values are appended to slabs of fixed capacity, and the map
-- holds where they stand.
pub mod Slabs
pub mod Invariant
pub mod Refines
use smt.Prelude.{
  ℕ, zero, suc, ◌+◌, ◌-◌, ◌*◌, ◌%◌, ◌^◌, Bool, ◌||◌, Option, none, some, List, [], ◌∷◌, ◌++◌,
  length, take, drop, replicate, ltb, if◌then◌else◌,
}
use smt.Res.{Res, ok, err, panic, invalid_key, ◌>>=◌}
use smt.Bytes.{Bytes, index}
use smt.MapStore.{MapStore}
use smt.MapStore.Dict.{Dict, lookup, insert, remove}
use smt.MapStore.Fixed.{to_fixed_key}

-- A slice: the bytes up to its length, and its capacity. The rest of its array was never written.
pub record Slab : Type 0 where
  pub bytes : Bytes
  pub cap : ℕ

abbrev pub nil_slab : Slab
nil_slab = record { bytes = []; cap = 0 }

pub record ArenaEntry : Type 0 where
  pub slab : ℕ
  pub off : ℕ
  pub ln : ℕ

-- `cur` and the last of `slabs` share their array.
pub record ArenaFixedSizeMap : Type 0 where
  pub m : Dict ArenaEntry
  pub slabs : List Slab
  pub cur : Slab
  pub slab_size : ℕ

abbrev pub default_arena_slab_size : ℕ
default_arena_slab_size = 256 * 1024

abbrev pub uint32 : ℕ → ℕ
uint32 n = n % 2 ^ 32

unfoldable pub new_arena_fixed_size_map_with_slab_size : ℕ → ArenaFixedSizeMap
new_arena_fixed_size_map_with_slab_size slab_size = record {
  m = [];
  slabs = [];
  cur = nil_slab;
  slab_size = if ltb slab_size 64 then 64 else slab_size;
}

unfoldable pub new_arena_fixed_size_map : ArenaFixedSizeMap
unfolding new_arena_fixed_size_map_with_slab_size
new_arena_fixed_size_map = new_arena_fixed_size_map_with_slab_size default_arena_slab_size

-- `s[from:to]`, which may reach into the capacity.
unfoldable pub slice : Slab → ℕ → ℕ → Res Bytes
slice s from to =
    if ltb to from || ltb s.cap to
    then panic
    else ok (take (to - from) (drop from (s.bytes ++ replicate (s.cap - length s.bytes) 0)))

unfoldable pub read : List Slab → ArenaEntry → Res Bytes
unfolding index slice
read slabs e = do s ← index slabs e.slab; slice s e.off (uint32 (e.off + e.ln))

unfoldable pub get : ArenaFixedSizeMap → Bytes → Res Bytes
unfolding to_fixed_key lookup read
get am key = do
  k ← to_fixed_key key
  elim (lookup am.m k) [ some e ↦ read am.slabs e | none ↦ err (invalid_key key) ]

-- "Need a new slab if current one would overflow."
unfoldable pub with_room : ArenaFixedSizeMap → ℕ → ArenaFixedSizeMap
with_room am n =
    let size = if ltb am.slab_size n then n else am.slab_size in
    let fresh : Slab = record { bytes = []; cap = size } in
    if ltb am.cur.cap (length am.cur.bytes + n)
    then record am { cur = fresh; slabs = am.slabs ++ fresh ∷ [] }
    else am

-- `slabs[len(slabs)-1] = cur`
unfoldable pub assign_last : List Slab → Slab → Res (List Slab)
assign_last [] cur = panic
assign_last (s ∷ []) cur = ok (cur ∷ [])
assign_last (s ∷ t ∷ rest) cur = do later ← assign_last (t ∷ rest) cur; ok (s ∷ later)

-- The append, which the capacity allows, and the entry for it.
unfoldable pub place : ArenaFixedSizeMap → Bytes → Bytes → Res ArenaFixedSizeMap
unfolding assign_last to_fixed_key insert
place am key value = do
  let cur : Slab = record { bytes = am.cur.bytes ++ value; cap = am.cur.cap }
  slabs ← assign_last am.slabs cur
  k ← to_fixed_key key
  let entry : ArenaEntry = record {
    slab = uint32 (length slabs - 1);
    off = uint32 (length am.cur.bytes);
    ln = uint32 (length value);
  }
  ok (record { m = insert am.m k entry; slabs = slabs; cur = cur; slab_size = am.slab_size })

unfoldable pub set : ArenaFixedSizeMap → Bytes → Bytes → Res ArenaFixedSizeMap
unfolding with_room place
set am key value = place (with_room am (length value)) key value

unfoldable pub delete : ArenaFixedSizeMap → Bytes → Res ArenaFixedSizeMap
unfolding to_fixed_key lookup remove
delete am key = do
  k ← to_fixed_key key
  elim (lookup am.m k) [
    | some e ↦ ok (record am { m = remove am.m k })
    | none ↦ err (invalid_key key)
  ]

abbrev pub arena_fixed_size_map : MapStore ArenaFixedSizeMap
arena_fixed_size_map = record { get = get; set = set; delete = delete }

-- `Len`
unfoldable pub len : ArenaFixedSizeMap → ℕ
len am = length am.m

unfoldable pub total : List Slab → ℕ
total [] = 0
total (s ∷ rest) = length s.bytes + total rest

unfoldable pub slab_bytes : ArenaFixedSizeMap → ℕ
unfolding total
slab_bytes am = total am.slabs

unfoldable pub reset : ArenaFixedSizeMap → ArenaFixedSizeMap
reset am = record am { m = []; slabs = []; cur = nil_slab }
