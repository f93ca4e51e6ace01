-- ===== src/MapStore/Arena/Refines.antt =====
-- ArenaFixedSizeMap of mapstore_arena.go as a store of the keys of 32 bytes.
use mathlib.Core.Option
use smt.Prelude.{
  ℕ, ◌^◌, ◌<◌, ◌≡◌, ◌≢◌, ◌↔◌, ◌⊎◌, refl, sym, ap, ◌∙◌, Bool, true, false, Bool-cases, inl, inr,
  Option, none, some, Option-cases, List, [], ◌∷◌, length, if◌then◌else◌, arith,
}
use mathlib.Core.Path.{subst}
use smt.Res.{ok, err, panic, invalid_key, Returns}
use smt.Bytes.{Bytes, bytes_equal}
use smt.MapStore.{found}
use smt.MapStore.Dict.{lookup, remove, lookup-remove}
use smt.MapStore.Fixed.{IsFixedKey, to_fixed_key_lem}
use smt.MapStore.Arena.{
  ArenaFixedSizeMap, nil_slab, new_arena_fixed_size_map_with_slab_size, reset, with_room,
  assign_last, place, get, set, delete,
}
use smt.MapStore.Arena.Slabs.{EndsIn}
use smt.MapStore.Arena.Invariant.{
  IsArena, contents, value_of, get-contents, with_room-Ready, place-Ready, kept_values,
}

pub new_arena_fixed_size_map_with_slab_size-IsArena :
    (slab_size : ℕ)
    → slab_size < 2 ^ 32
    → IsArena (new_arena_fixed_size_map_with_slab_size slab_size)
unfolding new_arena_fixed_size_map_with_slab_size lookup
new_arena_fixed_size_map_with_slab_size-IsArena slab_size small = record {
  last = inl (refl, refl);
  room = omega arith;
  cap_small = omega arith;
  size_small = ground (arith, small);
  placed = λ k e at. absurd cc;
}

pub reset-IsArena : (am : ArenaFixedSizeMap) → IsArena am → IsArena (reset am)
unfolding reset lookup
reset-IsArena am good = record {
  last = inl (refl, refl);
  room = omega arith;
  cap_small = omega arith;
  size_small = good.size_small;
  placed = λ k e at. absurd cc;
}

found_if :
    (j : Bytes) (b : Bool) (v : Bytes) (o : Option Bytes)
    → found j (if b then some v else o) ≡ (if b then ok v else found j o)
found_if j true v o = refl
found_if j false v o = refl

-- On an arena with its invariant, Set of a value under 2^32 bytes at a key of 32 bytes succeeds, if a
-- slab is there or the value is not empty, and there are less than 2^32 slabs. It keeps the invariant;
-- Get of the key then returns the value, and of any other key of 32 bytes what it returned before.
pub set-get :
    (am : ArenaFixedSizeMap) (k v : Bytes)
    → IsArena am
    → IsFixedKey k
    → length v < 2 ^ 32
    → length am.slabs < 2 ^ 32
    → (am.slabs ≢ []) ⊎ (0 < length v)
    → Returns (set am k v) λ am'.
      IsArena am'
      × ((j : Bytes) → IsFixedKey j → get am' j ≡ (if bytes_equal k j then ok v else get am j))
unfolding set
set-get am k v good fits small few nonempty =
    let (ready, grown, count, same) = with_room-Ready am (length v) good small nonempty in
    let (am', e, post) =
      place-Ready (with_room am (length v)) k v ready fits (omega (arith, count, few)) in
    let before : (j : Bytes) → contents (with_room am (length v)) j ≡ contents am j = λ j.
      ap (λ m. Option.map (value_of (with_room am (length v)).slabs) (lookup m j)) same
      ∙ kept_values am.slabs (with_room am (length v)).slabs am.m grown good.placed j in
    (
      am',
      e,
      (
        post.0,
        λ j fits'.
            get-contents am' j post.0 fits'
            ∙ ap (found j) (post.1 j)
            ∙ found_if j (bytes_equal k j) v (contents (with_room am (length v)) j)
            ∙ ap (λ r. if bytes_equal k j then ok v else r)
                (ap (found j) (before j) ∙ sym (get-contents am j good fits')),
      ),
    )

empty_or_not :
    {A : Type 0} (xs : List A) (v : Bytes) → ((xs ≡ []) × (v ≡ [])) ⊎ ((xs ≢ []) ⊎ (0 < length v))
empty_or_not [] [] = inl (refl, refl)
empty_or_not [] (b ∷ v) = inr (inr (omega arith))
empty_or_not (x ∷ xs) v = inr (inl (λ e. cc))

unset : (am : ArenaFixedSizeMap) → IsArena am → am.slabs ≡ [] → am.cur ≡ nil_slab
unset am good no_slab = elim good.last [
  | inl fresh ↦ fresh.1
  | inr last ↦ absurd (subst (λ xs. EndsIn xs am.cur) no_slab last)
]

-- On an arena with its invariant, Set at a key of 32 bytes, of a value under 2^32 bytes and with less
-- than 2^32 slabs, panics exactly if there is no slab yet and the value is empty.
pub set-panic :
    (am : ArenaFixedSizeMap) (k v : Bytes)
    → IsArena am
    → IsFixedKey k
    → length v < 2 ^ 32
    → length am.slabs < 2 ^ 32
    → (set am k v ≡ panic) ↔ ((am.slabs ≡ []) × (v ≡ []))
unfolding set with_room place assign_last
set-panic am k v good fits small few = (
  λ e. elim (empty_or_not am.slabs v) [
    | inl both ↦ both
    | inr use_slab ↦
        let (am', done, post) = set-get am k v good fits small few use_slab in
        absurd (let q : ok am' ≡ panic = sym done ∙ e in cc)
  ],
  λ (no_slab, no_value). rw (no_value, unset am good no_slab, no_slab),
)

abbrev removed : ArenaFixedSizeMap → Bytes → ArenaFixedSizeMap
removed am k = record am { m = remove am.m k }

removed-IsArena : (am : ArenaFixedSizeMap) (k : Bytes) → IsArena am → IsArena (removed am k)
removed-IsArena am k good = record {
  last = good.last;
  room = good.room;
  cap_small = good.cap_small;
  size_small = good.size_small;
  placed = λ j e at. elim (Bool-cases (bytes_equal k j)) [
    | inl same ↦
        absurd (let q : none ≡ some e = sym (rw same at (lookup-remove am.m k j)) ∙ at in cc)
    | inr other ↦ good.placed j e (sym (rw other at (lookup-remove am.m k j)) ∙ at)
  ];
}

removed-get :
    (am : ArenaFixedSizeMap) (k : Bytes)
    → IsArena am
    → (j : Bytes) → IsFixedKey j
    → get (removed am k) j ≡ (if bytes_equal k j then err (invalid_key j) else get am j)
removed-get am k good j fits =
    get-contents (removed am k) j (removed-IsArena am k good) fits
    ∙ rw (lookup-remove am.m k j, get-contents am j good fits)
        (elim (Bool-cases (bytes_equal k j)) [ inl same ↦ rw same | inr other ↦ rw other ])

-- On an arena with its invariant, Delete at a key of 32 bytes fails with the error that Get returns,
-- if Get fails. Otherwise it succeeds and keeps the invariant; Get of the key then fails, and Get of
-- any other key of 32 bytes returns what it returned before.
pub delete-get :
    (am : ArenaFixedSizeMap) (k : Bytes)
    → IsArena am
    → IsFixedKey k
    → (get am k ≡ err (invalid_key k) → delete am k ≡ err (invalid_key k))
      × ((v : Bytes)
          → get am k ≡ ok v
          → Returns (delete am k) λ am'.
            IsArena am'
            × ((j : Bytes)
                → IsFixedKey j
                → get am' j ≡ (if bytes_equal k j then err (invalid_key j) else get am j)))
unfolding delete
delete-get am k good fits =
    let fixed = to_fixed_key_lem k fits in
    let seen = get-contents am k good fits in
    elim (Option-cases (lookup am.m k)) [
      | inl e ↦ (
        λ at. ground (arith, fixed, e),
        λ v at. absurd (let q : err (invalid_key k) ≡ ok v = sym (rw e at seen) ∙ at in cc),
      )
      | inr (f, e) ↦ (
        λ at. absurd (
            let q : ok (value_of am.slabs f) ≡ err (invalid_key k) = sym (rw e at seen) ∙ at in cc),
        λ v at. (
          record am { m = remove am.m k },
          ground (arith, fixed, e),
          (removed-IsArena am k good, removed-get am k good),
        ),
      )
    ]
