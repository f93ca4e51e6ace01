-- ===== src/Bytes.antt =====
-- Byte slices: lists of numbers, with `bytes.Equal` and the index expression.
use smt.Prelude.{
  ℕ, zero, suc, ◌<◌, ◌≡◌, refl, ◌↔◌, Bool, true, false, ◌&&◌, List, [], ◌∷◌, ◌++◌, length, take,
  replicate, ◌==◌, arith, get_or, take-append,
}
use smt.Res.{Res, ok, panic}

abbrev pub Bytes : Type 0
Bytes = List ℕ

abbrev pub IsByte : ℕ → Type 0
IsByte b = b < 256

-- `bytes.Equal`
unfoldable pub bytes_equal : Bytes → Bytes → Bool
bytes_equal [] [] = true
bytes_equal [] (y ∷ ys) = false
bytes_equal (x ∷ xs) [] = false
bytes_equal (x ∷ xs) (y ∷ ys) = x == y && bytes_equal xs ys

pub bytes_equal→eq : (xs ys : Bytes) → bytes_equal xs ys ≡ true → xs ≡ ys
unfolding bytes_equal
bytes_equal→eq [] [] h = refl
bytes_equal→eq [] (y ∷ ys) h = cc
bytes_equal→eq (x ∷ xs) [] h = cc
bytes_equal→eq (x ∷ xs) (y ∷ ys) h = ground (arith, bytes_equal→eq xs ys)

pub bytes_equal_refl : (xs : Bytes) → bytes_equal xs xs ≡ true
unfolding bytes_equal
bytes_equal_refl [] = refl
bytes_equal_refl (x ∷ xs) = ground (arith, bytes_equal_refl xs)

pub eq→bytes_equal : (xs ys : Bytes) → xs ≡ ys → bytes_equal xs ys ≡ true
eq→bytes_equal xs ys h = rw h (bytes_equal_refl ys)

pub bytes_equal_iff : (xs ys : Bytes) → (bytes_equal xs ys ≡ true) ↔ (xs ≡ ys)
bytes_equal_iff xs ys = (bytes_equal→eq xs ys, eq→bytes_equal xs ys)

-- `xs[i]`
module _ {ℓ} {A : Type ℓ} where
  unfoldable pub index : List A → ℕ → Res A
  index [] i = panic
  index (x ∷ xs) zero = ok x
  index (x ∷ xs) (suc i) = index xs i

  pub index-get_or : (xs : List A) (i : ℕ) (d : A) → i < length xs → index xs i ≡ ok (get_or xs i d)
  unfolding index
  index-get_or [] i d h = absurd (omega arith)
  index-get_or (x ∷ xs) zero d h = refl
  index-get_or (x ∷ xs) (suc i) d h = index-get_or xs i d (omega arith)

  pub index-append : (xs ys : List A) (x : A) → index (xs ++ x ∷ ys) (length xs) ≡ ok x
  unfolding index
  index-append [] ys x = refl
  index-append (z ∷ xs) ys x = index-append xs ys x

-- `b := make([]byte, n); copy(b, xs)`
unfoldable pub copy_into : ℕ → Bytes → Bytes
copy_into n xs = take n (xs ++ replicate n 0)

pub copy_into_lem : (n : ℕ) (xs : Bytes) → length xs ≡ n → copy_into n xs ≡ xs
unfolding copy_into
copy_into_lem n xs h = take-append n xs (replicate n 0) h
