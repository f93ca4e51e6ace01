-- ===== src/Tests/Arenas.antt =====
-- The theorems on ArenaFixedSizeMap at arenas with slabs of 64 bytes.
use smt.Prelude.{
  ◌≡◌, ◌↔◌, refl, Bool-cases, inl, inr, none, some, [], ◌∷◌, replicate, if◌then◌else◌, arith,
}
use mathlib.Core.Path.{subst}
use smt.Res.{ok, err, panic, invalid_key, Returns}
use smt.Bytes.{Bytes, bytes_equal}
use smt.MapStore.Dict.{lookup}
use smt.MapStore.Fixed.{IsFixedKey}
use smt.MapStore.Arena.{
  ArenaFixedSizeMap, ArenaEntry, Slab, new_arena_fixed_size_map_with_slab_size, get, set, delete,
}
use smt.MapStore.Arena.Invariant.{IsArena, Placed}
use smt.MapStore.Arena.Refines.{
  new_arena_fixed_size_map_with_slab_size-IsArena, set-get, set-panic, delete-get,
}

abbrev key : Bytes
key = replicate 32 7

abbrev fresh : ArenaFixedSizeMap
fresh = new_arena_fixed_size_map_with_slab_size 64

fresh-IsArena : IsArena fresh
fresh-IsArena = new_arena_fixed_size_map_with_slab_size-IsArena 64 (omega arith)

abbrev entry : ArenaEntry
entry = record { slab = 0; off = 0; ln = 3 }

abbrev slab : Slab
slab = record { bytes = 1 ∷ 2 ∷ 3 ∷ []; cap = 64 }

-- The key is set.
abbrev one : ArenaFixedSizeMap
one = record { m = (key, entry) ∷ []; slabs = slab ∷ []; cur = slab; slab_size = 64 }

one-IsArena : IsArena one
unfolding lookup
one-IsArena = record {
  last = inr refl;
  room = omega arith;
  cap_small = omega arith;
  size_small = omega arith;
  placed = λ k e at. elim (Bool-cases (bytes_equal key k)) [
    | inl same ↦
        let eq : some entry ≡ some e = rw same at at in
        subst (Placed one.slabs) (let q : entry ≡ e = cc in q)
          ((omega arith, omega arith), omega arith)
    | inr other ↦ absurd (let q : none ≡ some e = rw other at at in cc)
  ];
}

set-get_example : Returns (set one key (4 ∷ 5 ∷ [])) λ am'.
    IsArena am'
    × ((j : Bytes)
        → IsFixedKey j
        → get am' j ≡ (if bytes_equal key j then ok (4 ∷ 5 ∷ []) else get one j))
set-get_example =
    set-get one key (4 ∷ 5 ∷ []) one-IsArena refl (omega arith) (omega arith) (inr (omega arith))

set-panic_example : (set fresh key [] ≡ panic) ↔ ((fresh.slabs ≡ []) × (◌≡◌ {A = Bytes} [] []))
unfolding new_arena_fixed_size_map_with_slab_size
set-panic_example = set-panic fresh key [] fresh-IsArena refl (omega arith) (omega arith)

delete-get_example :
    (get one key ≡ err (invalid_key key) → delete one key ≡ err (invalid_key key))
    × ((v : Bytes)
        → get one key ≡ ok v
        → Returns (delete one key) λ am'.
          IsArena am'
          × ((j : Bytes)
              → IsFixedKey j
              → get am' j ≡ (if bytes_equal key j then err (invalid_key j) else get one j)))
delete-get_example = delete-get one key one-IsArena refl
