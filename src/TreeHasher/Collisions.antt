-- ===== src/TreeHasher/Collisions.antt =====
-- What the package relies on in a cryptographic hash, for a set of data that was hashed.
use smt.Prelude.{
  ◌≡◌, ◌≢◌, refl, Bool, true, not, ◌&&◌, List, [], ◌∷◌, inl, inr, ◌⊎◌, arith, ◌||◌, ◌++◌, map, All,
}
use mathlib.Core.List.{append_assoc}
use mathlib.Core.Path.{subst}
use smt.Bytes.{Bytes, bytes_equal, bytes_equal_iff}
use smt.TreeHasher.{Hasher, digest, placeholder}

module _ ⦃h : Hasher⦄ where
  -- Among the data that `Seen` tells, no two have one digest and none has the all-zero digest.
  pub record CollisionFree (Seen : Bytes → Type 0) : Type 0 where
    pub injective : (a b : Bytes) → Seen a → Seen b → digest a ≡ digest b → a ≡ b
    pub nonzero : (a : Bytes) → Seen a → digest a ≢ placeholder

  -- A test of a finite list of data.
  abbrev pub Listed : List Bytes → Bytes → Type 0
  Listed [] a = ⊥
  Listed (x ∷ xs) a = (a ≡ x) ⊎ Listed xs a

  pub Listed-append_right :
      (front rest : List Bytes) (a : Bytes) → Listed rest a → Listed (front ++ rest) a
  Listed-append_right [] rest a m = m
  Listed-append_right (x ∷ front) rest a m = inr (Listed-append_right front rest a m)

  -- Data that was hashed one after another is listed.
  pub All-Listed :
      (front : List Bytes) (updates : List (Bytes × Bytes))
      → All (λ u. Listed (front ++ map (λ u. u.1) updates) u.1) updates
  All-Listed front [] = tt
  All-Listed front (u ∷ rest) = (
    Listed-append_right front _ u.1 (inl refl),
    subst (λ l. All (λ v. Listed l v.1) rest) (append_assoc front (u.1 ∷ []) (map (λ v. v.1) rest))
        (All-Listed (front ++ u.1 ∷ []) rest),
  )

  unfoldable pub apart_from : Bytes → List Bytes → Bool
  unfolding bytes_equal
  apart_from a [] = true
  apart_from a (x ∷ xs) =
      (bytes_equal a x || not (bytes_equal (digest a) (digest x))) && apart_from a xs

  unfoldable pub collision_free : List Bytes → List Bytes → Bool
  unfolding apart_from placeholder bytes_equal
  collision_free all [] = true
  collision_free all (x ∷ xs) =
      not (bytes_equal (digest x) placeholder) && (apart_from x all && collision_free all xs)

  apart_from_sound :
      (a b : Bytes) (xs : List Bytes)
      → apart_from a xs ≡ true
      → Listed xs b
      → digest a ≡ digest b
      → a ≡ b
  unfolding apart_from
  apart_from_sound a b [] t m e = absurd m
  apart_from_sound a b (x ∷ xs) t (inl m) e =
      ground (arith, bytes_equal_iff a x, bytes_equal_iff (digest a) (digest x))
  apart_from_sound a b (x ∷ xs) t (inr m) e = apart_from_sound a b xs (ground arith) m e

  module _ (all : List Bytes) where
    injective_of_test :
        (xs : List Bytes) (a b : Bytes)
        → collision_free all xs ≡ true
        → Listed xs a
        → Listed all b
        → digest a ≡ digest b
        → a ≡ b
    unfolding collision_free
    injective_of_test [] a b t m k e = absurd m
    injective_of_test (x ∷ xs) a b t (inl m) k e =
        apart_from_sound a b all (rw m (ground arith)) k e
    injective_of_test (x ∷ xs) a b t (inr m) k e = injective_of_test xs a b (ground arith) m k e

    nonzero_of_test :
        (xs : List Bytes) (a : Bytes)
        → collision_free all xs ≡ true
        → Listed xs a
        → digest a ≢ placeholder
    unfolding collision_free
    nonzero_of_test [] a t m e = absurd m
    nonzero_of_test (x ∷ xs) a t (inl m) e = ground (arith, bytes_equal_iff (digest x) placeholder)
    nonzero_of_test (x ∷ xs) a t (inr m) e = nonzero_of_test xs a (ground arith) m e

  pub collision_free-CollisionFree :
      (all : List Bytes) → collision_free all all ≡ true → CollisionFree (Listed all)
  collision_free-CollisionFree all t = record {
    injective = λ a b m k. injective_of_test all all a b t m k;
    nonzero = λ a m. nonzero_of_test all all a t m;
  }
