-- ===== src/Common/Count.antt =====
-- How many members of a list pass a test, and what a write of one member changes.
use asas_os.Common.{
  ℕ, zero, suc, ◌+◌, ◌≤◌, ◌<◌, ◌≡◌, Bool, true, false, List, [], ◌∷◌, if◌then◌else◌, arith, get_or,
  set, length,
}

module _ {A : Type 0} (test : A → Bool) where
  abbrev pub count_if : List A → ℕ
  count_if [] = 0
  count_if (x ∷ xs) = if test x then suc (count_if xs) else count_if xs

  pub count_if-length : (xs : List A) → count_if xs ≤ length xs
  count_if-length [] = omega arith
  count_if-length (x ∷ xs) = ground (arith, count_if-length xs)

  pub count_if-set :
      (xs : List A) (i : ℕ) (v d : A)
      → i < length xs
      → count_if (set xs i v) + (if test (get_or xs i d) then 1 else 0)
        ≡ count_if xs + (if test v then 1 else 0)
  count_if-set [] i v d h = absurd (omega arith)
  count_if-set (x ∷ xs) zero v d h = ground arith
  count_if-set (x ∷ xs) (suc i) v d h = ground (arith, count_if-set xs i v d (omega arith))

  -- A member that passes the test is counted.
  pub count_if-pos :
      (xs : List A) (i : ℕ) (d : A) → test d ≡ false → test (get_or xs i d) ≡ true → 0 < count_if xs
  count_if-pos [] i d h q = absurd (ground arith)
  count_if-pos (x ∷ xs) zero d h q = ground arith
  count_if-pos (x ∷ xs) (suc i) d h q = ground (arith, count_if-pos xs i d h q)

  -- Where no member passes the test, none is counted.
  pub count_if-zero :
      (xs : List A) (d : A) → ((i : ℕ) → test (get_or xs i d) ≡ false) → count_if xs ≡ 0
  count_if-zero [] d h = omega arith
  count_if-zero (x ∷ xs) d h = ground (arith, h 0, count_if-zero xs d (λ i. h (suc i)))
