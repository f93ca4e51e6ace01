-- ===== src/MapStore/Arena/Invariant.antt =====
-- What the methods of ArenaFixedSizeMap (mapstore_arena.go) keep, and the map that an arena stands for.
use smt.Prelude.{
  ℕ, suc, ◌+◌, ◌-◌, ◌^◌, ◌<◌, ◌≤◌, ◌≡◌, ◌≢◌, ◌⊎◌, refl, sym, ap, ◌∙◌, Bool-cases, inl, inr, Option,
  some, Option-cases, List, [], ◌∷◌, length, ltb, if◌then◌else◌, arith, length-append,
}
use mathlib.Core.Option
use mathlib.Core.Path.{subst}
use smt.Res.{ok, Returns}
use smt.Bytes.{Bytes, bytes_equal}
use smt.MapStore.{found}
use smt.MapStore.Dict.{Dict, lookup, insert, lookup-insert}
use smt.MapStore.Fixed.{IsFixedKey, to_fixed_key_lem}
use smt.MapStore.Arena.{
  Slab, nil_slab, ArenaEntry, ArenaFixedSizeMap, uint32, read, with_room, place, get,
}
use smt.MapStore.Arena.Slabs.{
  part, Written, Grown, part-Grown, read-part, Grown-append, Grown-refl, EndsIn, append-EndsIn,
  assign_last-Appended,
}

-- Where an entry points was written, and its fields do not wrap around.
abbrev pub Placed : List Slab → ArenaEntry → Type 0
Placed slabs e = Written slabs e.slab (e.off + e.ln) × (e.off + e.ln < 2 ^ 32)

-- What every method keeps: `cur` is the last slab, sizes are below 2^32, and the entries are placed.
pub record IsArena (am : ArenaFixedSizeMap) : Type 0 where
  pub last : ((am.slabs ≡ []) × (am.cur ≡ nil_slab)) ⊎ EndsIn am.slabs am.cur
  pub room : length am.cur.bytes ≤ am.cur.cap
  pub cap_small : am.cur.cap < 2 ^ 32
  pub size_small : am.slab_size < 2 ^ 32
  pub placed : (k : Bytes) (e : ArenaEntry) → lookup am.m k ≡ some e → Placed am.slabs e

abbrev pub value_of : List Slab → ArenaEntry → Bytes
value_of slabs e = part slabs e.slab e.off e.ln

-- The map that the arena stands for.
abbrev pub contents : ArenaFixedSizeMap → Bytes → Option Bytes
contents am k = Option.map (value_of am.slabs) (lookup am.m k)

pub get-contents :
    (am : ArenaFixedSizeMap) (k : Bytes)
    → IsArena am
    → IsFixedKey k
    → get am k ≡ found k (contents am k)
unfolding get
get-contents am k good fits =
    let fixed = to_fixed_key_lem k fits in
    elim (Option-cases (lookup am.m k)) [
      | inl e ↦ ground (arith, fixed, e)
      | inr (v, e) ↦
          let (w, small) = good.placed k v e in
          let there : read am.slabs v ≡ ok (value_of am.slabs v) =
            read-part am.slabs v.slab v.off v.ln w small in
          ground (arith, fixed, e, there)
    ]

-- The state that `place` is called in: the last slab has room for the value.
pub record Ready (am : ArenaFixedSizeMap) (n : ℕ) : Type 0 where
  pub good : IsArena am
  pub ends : EndsIn am.slabs am.cur
  pub enough : length am.cur.bytes + n ≤ am.cur.cap

-- Entries stay placed while slabs grow.
Placed-Grown : (xs ys : List Slab) (e : ArenaEntry) → Grown xs ys → Placed xs e → Placed ys e
Placed-Grown xs ys e g w = ((part-Grown xs ys e.slab e.off e.ln g w.0).0, w.1)

ends_in :
    (am : ArenaFixedSizeMap) (n : ℕ)
    → IsArena am
    → (am.slabs ≢ []) ⊎ (0 < n)
    → length am.cur.bytes + n ≤ am.cur.cap
    → EndsIn am.slabs am.cur
ends_in am n good nonempty enough = elim good.last [
  | inr last ↦ last
  | inl (none_yet, unset) ↦ elim nonempty [
    | inl some_slab ↦ absurd (some_slab none_yet)
    | inr more ↦
        let zero_cap : am.cur.cap ≡ 0 = ap (λ (s : Slab). s.cap) unset in absurd (omega arith)
  ]
]

pub with_room-Ready :
    (am : ArenaFixedSizeMap) (n : ℕ)
    → IsArena am
    → n < 2 ^ 32
    → (am.slabs ≢ []) ⊎ (0 < n)
    → Ready (with_room am n) n
      × Grown am.slabs (with_room am n).slabs
      × (length (with_room am n).slabs ≤ suc (length am.slabs))
      × ((with_room am n).m ≡ am.m)
unfolding with_room
with_room-Ready am n good small nonempty =
    elim (Bool-cases (ltb am.cur.cap (length am.cur.bytes + n))) [
      | inl full ↦
          let size = if ltb am.slab_size n then n else am.slab_size in
          let fresh : Slab = record { bytes = []; cap = size } in
          let grown = Grown-append am.slabs (fresh ∷ []) in
          let fits : 0 + n ≤ size = ground arith in
          let bound : size < 2 ^ 32 = ground (arith, small, good.size_small) in
          let last = append-EndsIn am.slabs fresh in
          rw full (
            record {
              good = record {
                last = inr last;
                room = omega arith;
                cap_small = bound;
                size_small = good.size_small;
                placed = λ k e at. Placed-Grown _ _ e grown (good.placed k e at);
              };
              ends = last;
              enough = fits;
            },
            grown,
            omega (arith, length-append am.slabs (fresh ∷ [])),
            refl,
          )
      | inr fits ↦
          let enough : length am.cur.bytes + n ≤ am.cur.cap = ground arith in
          rw fits (
            record { good = good; ends = ends_in am n good nonempty enough; enough = enough },
            Grown-refl am.slabs,
            omega arith,
            refl,
          )
    ]

-- What holds of a map's values holds after an insertion.
insert_all :
    (P : ArenaEntry → Type 0) (m : Dict ArenaEntry) (k : Bytes) (e : ArenaEntry)
    → P e
    → ((j : Bytes) (f : ArenaEntry) → lookup m j ≡ some f → P f)
    → (j : Bytes) (f : ArenaEntry) → lookup (insert m k e) j ≡ some f
    → P f
insert_all P m k e here rest j f at = elim (Bool-cases (bytes_equal k j)) [
  | inl same ↦
      let eq : some e ≡ some f = sym (rw same at (lookup-insert m k j e)) ∙ at in
      subst P (let q : e ≡ f = cc in q) here
  | inr other ↦ rest j f (sym (rw other at (lookup-insert m k j e)) ∙ at)
]

-- The values that the slabs `xs` hold are held by the slabs `ys`.
pub kept_values :
    (xs ys : List Slab) (m : Dict ArenaEntry)
    → Grown xs ys
    → ((j : Bytes) (f : ArenaEntry) → lookup m j ≡ some f → Placed xs f)
    → (j : Bytes) → Option.map (value_of ys) (lookup m j) ≡ Option.map (value_of xs) (lookup m j)
kept_values xs ys m g placed j = elim (Option-cases (lookup m j)) [
  | inl missing ↦ rw missing
  | inr (f, at) ↦ rw at (ap some (part-Grown xs ys f.slab f.off f.ln g (placed j f at).0).1)
]

-- With the entry of `v` inserted, they hold `v` beside.
inserted_value :
    (xs ys : List Slab) (m : Dict ArenaEntry) (k v : Bytes) (e : ArenaEntry)
    → Grown xs ys
    → ((j : Bytes) (f : ArenaEntry) → lookup m j ≡ some f → Placed xs f)
    → value_of ys e ≡ v
    → (j : Bytes)
    → Option.map (value_of ys) (lookup (insert m k e) j)
      ≡ (if bytes_equal k j then some v else Option.map (value_of xs) (lookup m j))
inserted_value xs ys m k v e g placed there j =
    rw (lookup-insert m k j e) (elim (Bool-cases (bytes_equal k j)) [
      | inl same ↦ rw (same, there)
      | inr other ↦ rw other (kept_values xs ys m g placed j)
    ])

pub place-Ready :
    (am : ArenaFixedSizeMap) (k v : Bytes)
    → Ready am (length v)
    → IsFixedKey k
    → length am.slabs ≤ 2 ^ 32
    → Returns (place am k v) λ am'.
      IsArena am'
      × ((j : Bytes) → contents am' j ≡ (if bytes_equal k j then some v else contents am j))
unfolding place
place-Ready am k v ready fits few =
    let (ys, e, a) = assign_last-Appended am.slabs am.cur v ready.ends ready.enough in
    let off = length am.cur.bytes in
    let small : off + length v < 2 ^ 32 = omega (arith, ready.enough, ready.good.cap_small) in
    let slab_same : uint32 (length ys - 1) ≡ a.slab = omega (arith, a.count, a.is_last, few) in
    let off_same : uint32 off ≡ off = omega (arith, small) in
    let ln_same : uint32 (length v) ≡ length v = omega (arith, small) in
    let entry : ArenaEntry = record { slab = a.slab; off = off; ln = length v } in
    rw (e, to_fixed_key_lem k fits, slab_same, off_same, ln_same)
      (
        _,
        refl,
        (
          record {
            last = inr a.last;
            room = omega (arith, ready.enough, length-append am.cur.bytes v);
            cap_small = ready.good.cap_small;
            size_small = ready.good.size_small;
            placed =
                insert_all (Placed ys) am.m k entry (a.written, small)
                  (λ j f at. Placed-Grown am.slabs ys f a.grown (ready.good.placed j f at));
          },
          inserted_value am.slabs ys am.m k v entry a.grown ready.good.placed a.there,
        ),
      )
