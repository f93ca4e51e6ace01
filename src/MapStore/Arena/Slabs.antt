-- ===== src/MapStore/Arena/Slabs.antt =====
-- The slabs of mapstore_arena.go: what was written stays where it stands while slabs grow.
use smt.Prelude.{
  ℕ, zero, suc, ◌+◌, ◌-◌, ◌^◌, ◌<◌, ◌≤◌, ◌≡◌, refl, sym, ap, ◌∙◌, false, List, [], ◌∷◌, ◌++◌,
  length, take, drop, replicate, ltb, arith, length-append, length-drop, drop-append,
}
use mathlib.Core.List.{append_assoc, append-nil}
use smt.Res.{ok, Returns}
use smt.Bytes.{Bytes, index}
use smt.MapStore.Arena.{Slab, uint32, slice, read, assign_last}

module _ {ℓ} {A : Type ℓ} where
  drop-append_short : (n : ℕ) (xs ys : List A) → n ≤ length xs → drop n (xs ++ ys) ≡ drop n xs ++ ys
  drop-append_short zero xs ys h = refl
  drop-append_short (suc n) [] ys h = absurd (omega arith)
  drop-append_short (suc n) (x ∷ xs) ys h = drop-append_short n xs ys (omega arith)

  take-append_short : (n : ℕ) (xs ys : List A) → n ≤ length xs → take n (xs ++ ys) ≡ take n xs
  take-append_short zero xs ys h = refl
  take-append_short (suc n) [] ys h = absurd (omega arith)
  take-append_short (suc n) (x ∷ xs) ys h = ap (◌∷◌ x) (take-append_short n xs ys (omega arith))

  -- A part inside a list is not changed by what is appended.
  part-append :
      (off n : ℕ) (xs ys : List A)
      → off + n ≤ length xs
      → take n (drop off (xs ++ ys)) ≡ take n (drop off xs)
  part-append off n xs ys h =
      ap (take n) (drop-append_short off xs ys (omega arith))
      ∙ take-append_short n (drop off xs) ys (omega (arith, length-drop off xs))

take-length : (xs : Bytes) → take (length xs) xs ≡ xs
take-length [] = refl
take-length (x ∷ xs) = ap (◌∷◌ x) (take-length xs)

-- The part of a slab that an entry is for.
unfoldable pub part : List Slab → ℕ → ℕ → ℕ → Bytes
part [] i off n = []
part (s ∷ rest) zero off n = take n (drop off s.bytes)
part (s ∷ rest) (suc i) off n = part rest i off n

-- It was written.
abbrev pub Written : List Slab → ℕ → ℕ → Type 0
Written [] i to = ⊥
Written (s ∷ rest) zero to = (to ≤ length s.bytes) × (length s.bytes ≤ s.cap)
Written (s ∷ rest) (suc i) to = Written rest i to

-- The slabs `ys` are `xs` with bytes appended to its slabs, and with slabs appended.
abbrev pub Grown : List Slab → List Slab → Type 0
Grown [] ys = Unit {0}
Grown (x ∷ xs) [] = ⊥
Grown (x ∷ xs) (y ∷ ys) =
    ((more : Bytes) × (y.bytes ≡ x.bytes ++ more))
    × (length x.bytes ≤ x.cap → length y.bytes ≤ y.cap)
    × Grown xs ys

pub part-Grown :
    (xs ys : List Slab) (i off n : ℕ)
    → Grown xs ys
    → Written xs i (off + n)
    → Written ys i (off + n) × (part ys i off n ≡ part xs i off n)
unfolding part
part-Grown [] ys i off n g w = absurd w
part-Grown (x ∷ xs) [] i off n g w = absurd g
part-Grown (x ∷ xs) (y ∷ ys) zero off n g w =
    let (more, e) = g.0 in
    (
      (omega (arith, ap length e, length-append x.bytes more, w.0), g.1 w.1),
      ap (λ b. take n (drop off b)) e ∙ part-append off n x.bytes more w.0,
    )
part-Grown (x ∷ xs) (y ∷ ys) (suc i) off n g w = part-Grown xs ys i off n g.2 w

slice-part :
    (s : Slab) (off n : ℕ)
    → off + n ≤ length s.bytes
    → length s.bytes ≤ s.cap
    → off + n < 2 ^ 32
    → slice s off (uint32 (off + n)) ≡ ok (take n (drop off s.bytes))
unfolding slice
slice-part s off n inside room small =
    let end : uint32 (off + n) ≡ off + n = omega arith in
    let size : off + n - off ≡ n = omega arith in
    let order : ltb (off + n) off ≡ false = ground arith in
    let fits : ltb s.cap (off + n) ≡ false = ground arith in
    rw (
      end,
      order,
      fits,
      size,
      part-append off n s.bytes (replicate (s.cap - length s.bytes) 0) inside,
    )

-- What was written is read.
pub read-part :
    (slabs : List Slab) (i off n : ℕ)
    → Written slabs i (off + n)
    → off + n < 2 ^ 32
    → read slabs (record { slab = i; off = off; ln = n }) ≡ ok (part slabs i off n)
unfolding read part index
read-part [] i off n w small = absurd w
read-part (s ∷ rest) zero off n w small = slice-part s off n w.0 w.1 small
read-part (s ∷ rest) (suc i) off n w small = read-part rest i off n w small

pub Grown-append : (xs ys : List Slab) → Grown xs (xs ++ ys)
Grown-append [] ys = tt
Grown-append (x ∷ xs) ys = (([], sym (append-nil x.bytes)), λ room. room, Grown-append xs ys)

pub Grown-refl : (xs : List Slab) → Grown xs xs
Grown-refl [] = tt
Grown-refl (x ∷ xs) = (([], sym (append-nil x.bytes)), λ room. room, Grown-refl xs)

pub Grown-trans : (xs ys zs : List Slab) → Grown xs ys → Grown ys zs → Grown xs zs
Grown-trans [] ys zs g k = tt
Grown-trans (x ∷ xs) [] zs g k = absurd g
Grown-trans (x ∷ xs) (y ∷ ys) [] g k = absurd k
Grown-trans (x ∷ xs) (y ∷ ys) (z ∷ zs) g k =
    let (more, e) = g.0 in
    let (later, e') = k.0 in
    (
      (more ++ later, e' ∙ ap (λ b. b ++ later) e ∙ append_assoc x.bytes more later),
      λ room. k.1 (g.1 room),
      Grown-trans xs ys zs g.2 k.2,
    )

-- The slab `cur` is the last one.
abbrev pub EndsIn : List Slab → Slab → Type 0
EndsIn [] cur = ⊥
EndsIn (s ∷ []) cur = s ≡ cur
EndsIn (s ∷ t ∷ rest) cur = EndsIn (t ∷ rest) cur

pub append-EndsIn : (xs : List Slab) (s : Slab) → EndsIn (xs ++ s ∷ []) s
append-EndsIn [] s = refl
append-EndsIn (x ∷ []) s = refl
append-EndsIn (x ∷ y ∷ xs) s = append-EndsIn (y ∷ xs) s

cons-EndsIn : (x : Slab) (xs : List Slab) (s : Slab) → EndsIn xs s → EndsIn (x ∷ xs) s
cons-EndsIn x [] s at = absurd at
cons-EndsIn x (y ∷ xs) s at = at

-- The slabs `ys` are `xs` with `value` appended to the last one, `cur`.
pub record Appended (xs : List Slab) (cur : Slab) (value : Bytes) (ys : List Slab) : Type 0 where
  pub last : EndsIn ys (record { bytes = cur.bytes ++ value; cap = cur.cap })
  pub grown : Grown xs ys
  pub count : length ys ≡ length xs
  pub slab : ℕ
  pub is_last : suc slab ≡ length xs
  pub written : Written ys slab (length cur.bytes + length value)
  pub there : part ys slab (length cur.bytes) (length value) ≡ value

pub assign_last-Appended :
    (xs : List Slab) (cur : Slab) (value : Bytes)
    → EndsIn xs cur
    → length cur.bytes + length value ≤ cur.cap
    → Returns
        (assign_last xs (record { bytes = cur.bytes ++ value; cap = cur.cap }))
        (Appended xs cur value)
unfolding assign_last part
assign_last-Appended [] cur value at room = absurd at
assign_last-Appended (s ∷ []) cur value at room =
    let b = cur.bytes in
    let size = length-append b value in
    (
      _,
      refl,
      record {
        last = refl;
        grown =
            ((value, ap (λ (c : Slab). c.bytes ++ value) (sym at)), λ h. omega (arith, size), tt);
        count = refl;
        slab = 0;
        is_last = refl;
        written = (omega (arith, size), omega (arith, size));
        there = ap (take (length value)) (drop-append (length b) b value refl) ∙ take-length value;
      },
    )
assign_last-Appended (s ∷ t ∷ rest) cur value at room =
    let (ys, e, a) = assign_last-Appended (t ∷ rest) cur value at room in
    (
      s ∷ ys,
      rw e,
      record {
        last = cons-EndsIn s ys _ a.last;
        grown = (([], sym (append-nil s.bytes)), λ h. h, a.grown);
        count = ap suc a.count;
        slab = suc a.slab;
        is_last = ap suc a.is_last;
        written = a.written;
        there = a.there;
      },
    )
