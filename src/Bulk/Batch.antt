-- ===== src/Bulk/Batch.antt =====
-- The batch that BulkUpdate of bulk.go hands to its walk: sorted, and the last of the items with one
-- path kept.
use smt.Prelude.{
  ◌≡◌, refl, ◌∙◌, true, false, Bool-cases, inl, inr, Option, none, some, List, [], ◌∷◌,
  if◌then◌else◌, arith,
}
use smt.Bytes.{Bytes, bytes_equal, bytes_equal→eq, bytes_equal_iff}
use smt.Bulk.{BulkKv, less, same, compare, is_more, insert_kv, sort_stable, dedup}

-- The value of the last item with a path.
unfoldable pub last_value : List BulkKv → Bytes → Option Bytes
unfolding bytes_equal
last_value [] p = none
last_value (a ∷ rest) p = elim (last_value rest p) [
  | some v ↦ some v
  | none ↦ if bytes_equal a.path p then some a.value else none
]

-- Paths that increase strictly, and paths that do not decrease.
abbrev pub Below : BulkKv → List BulkKv → Type 0
Below a [] = Unit {0}
Below a (b ∷ rest) = compare a.path b.path ≡ less

abbrev pub Increasing : List BulkKv → Type 0
Increasing [] = Unit {0}
Increasing (a ∷ rest) = Below a rest × Increasing rest

abbrev NotAbove : BulkKv → List BulkKv → Type 0
NotAbove a [] = Unit {0}
NotAbove a (b ∷ rest) = is_more (compare a.path b.path) ≡ false

abbrev Ordered : List BulkKv → Type 0
Ordered [] = Unit {0}
Ordered (a ∷ rest) = NotAbove a rest × Ordered rest

pub compare_refl : (x : Bytes) → compare x x ≡ same
unfolding compare
compare_refl [] = refl
compare_refl (a ∷ x) = ground (arith, compare_refl x)

compare_flip : (x y : Bytes) → is_more (compare x y) ≡ true → is_more (compare y x) ≡ false
unfolding compare
compare_flip [] [] h = refl
compare_flip [] (b ∷ y) h = cc
compare_flip (a ∷ x) [] h = refl
compare_flip (a ∷ x) (b ∷ y) h = ground (arith, h, compare_flip x y)

compare-less :
    (x y : Bytes) → is_more (compare x y) ≡ false → bytes_equal x y ≡ false → compare x y ≡ less
unfolding compare bytes_equal
compare-less [] [] h n = cc
compare-less [] (b ∷ y) h n = refl
compare-less (a ∷ x) [] h n = cc
compare-less (a ∷ x) (b ∷ y) h n = ground (arith, h, n, compare-less x y)

more_differs : (x y : Bytes) → is_more (compare x y) ≡ true → bytes_equal x y ≡ false
more_differs x y h = elim (Bool-cases (bytes_equal x y)) [
  | inl e ↦ absurd (
      let q : is_more (compare y y) ≡ true = rw (bytes_equal→eq x y e) at h in
      let r : is_more same ≡ true = rw (compare_refl y) at q in cc)
  | inr n ↦ n
]

insert_kv-NotAbove :
    (b a : BulkKv) (rest : List BulkKv)
    → NotAbove b rest
    → is_more (compare b.path a.path) ≡ false
    → NotAbove b (insert_kv a rest)
unfolding insert_kv
insert_kv-NotAbove b a [] h k = k
insert_kv-NotAbove b a (c ∷ rest) h k = elim (Bool-cases (is_more (compare a.path c.path))) [
  | inl e ↦ rw e h
  | inr e ↦ rw e k
]

insert_kv-Ordered : (a : BulkKv) (rest : List BulkKv) → Ordered rest → Ordered (insert_kv a rest)
unfolding insert_kv
insert_kv-Ordered a [] h = (tt, tt)
insert_kv-Ordered a (b ∷ rest) h = elim (Bool-cases (is_more (compare a.path b.path))) [
  | inl e ↦
      rw e (
        insert_kv-NotAbove b a rest h.0 (compare_flip a.path b.path e),
        insert_kv-Ordered a rest h.1,
      )
  | inr e ↦ rw e (e, h)
]

sort_stable-Ordered : (kvs : List BulkKv) → Ordered (sort_stable kvs)
unfolding sort_stable
sort_stable-Ordered [] = tt
sort_stable-Ordered (a ∷ rest) = insert_kv-Ordered a (sort_stable rest) (sort_stable-Ordered rest)

dedup-Below :
    (a b : BulkKv) (rest : List BulkKv) → compare a.path b.path ≡ less → Below a (dedup (b ∷ rest))
unfolding dedup
dedup-Below a b [] h = h
dedup-Below a b (c ∷ rest) h = elim (Bool-cases (bytes_equal b.path c.path)) [
  | inl e ↦ rw e (dedup-Below a c rest (rw (bytes_equal→eq b.path c.path e) at h))
  | inr e ↦ rw e h
]

dedup-Increasing : (kvs : List BulkKv) → Ordered kvs → Increasing (dedup kvs)
unfolding dedup
dedup-Increasing [] h = tt
dedup-Increasing (a ∷ []) h = (tt, tt)
dedup-Increasing (a ∷ b ∷ rest) h =
    let inner = dedup-Increasing (b ∷ rest) h.1 in
    elim (Bool-cases (bytes_equal a.path b.path)) [
      | inl e ↦ rw e inner
      | inr e ↦ rw e (dedup-Below a b rest (compare-less a.path b.path h.0 e), inner)
    ]

-- Neighbours with different paths may be swapped.
swap-last_value :
    (a b : BulkKv) (rest : List BulkKv) (p : Bytes)
    → bytes_equal a.path b.path ≡ false
    → last_value (b ∷ a ∷ rest) p ≡ last_value (a ∷ b ∷ rest) p
unfolding last_value
swap-last_value a b rest p n =
    ground
      (arith, n, bytes_equal_iff a.path p, bytes_equal_iff b.path p, bytes_equal_iff a.path b.path)

cons-last_value :
    (a : BulkKv) (xs ys : List BulkKv) (p : Bytes)
    → last_value xs p ≡ last_value ys p
    → last_value (a ∷ xs) p ≡ last_value (a ∷ ys) p
unfolding last_value
cons-last_value a xs ys p e = rw e

insert_kv-last_value :
    (a : BulkKv) (rest : List BulkKv) (p : Bytes)
    → last_value (insert_kv a rest) p ≡ last_value (a ∷ rest) p
unfolding insert_kv
insert_kv-last_value a [] p = refl
insert_kv-last_value a (b ∷ rest) p = elim (Bool-cases (is_more (compare a.path b.path))) [
  | inl e ↦ rw e (
      cons-last_value b _ _ p (insert_kv-last_value a rest p)
      ∙ swap-last_value a b rest p (more_differs a.path b.path e))
  | inr e ↦ rw e refl
]

sort_stable-last_value :
    (kvs : List BulkKv) (p : Bytes) → last_value (sort_stable kvs) p ≡ last_value kvs p
unfolding sort_stable
sort_stable-last_value [] p = refl
sort_stable-last_value (a ∷ rest) p =
    insert_kv-last_value a (sort_stable rest) p
    ∙ cons-last_value a (sort_stable rest) rest p (sort_stable-last_value rest p)

-- An item before one with the same path does not matter.
shadowed-last_value :
    (a b : BulkKv) (rest : List BulkKv) (p : Bytes)
    → bytes_equal a.path b.path ≡ true
    → last_value (b ∷ rest) p ≡ last_value (a ∷ b ∷ rest) p
unfolding last_value
shadowed-last_value a b rest p e =
    ground
      (arith, e, bytes_equal_iff a.path p, bytes_equal_iff b.path p, bytes_equal_iff a.path b.path)

dedup-last_value : (kvs : List BulkKv) (p : Bytes) → last_value (dedup kvs) p ≡ last_value kvs p
unfolding dedup
dedup-last_value [] p = refl
dedup-last_value (a ∷ []) p = refl
dedup-last_value (a ∷ b ∷ rest) p =
    let inner = dedup-last_value (b ∷ rest) p in
    elim (Bool-cases (bytes_equal a.path b.path)) [
      | inl e ↦ rw e (inner ∙ shadowed-last_value a b rest p e)
      | inr e ↦ rw e (cons-last_value a (dedup (b ∷ rest)) (b ∷ rest) p inner)
    ]

-- The batch that the walk gets has strictly increasing paths, so that each path occurs once, and for
-- every path it has the value that the last of the items with that path had, or none if none had it.
pub dedup-sort_stable :
    (kvs : List BulkKv)
    → Increasing (dedup (sort_stable kvs))
      × ((p : Bytes) → last_value (dedup (sort_stable kvs)) p ≡ last_value kvs p)
dedup-sort_stable kvs = (
  dedup-Increasing (sort_stable kvs) (sort_stable-Ordered kvs),
  λ p. dedup-last_value (sort_stable kvs) p ∙ sort_stable-last_value kvs p,
)
