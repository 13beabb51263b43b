-- ===== src/Suite/Signing/Sorted.antt =====
-- A sorted list is determined by how often each number is in it.
use spmp.Prelude.{
  ℕ, zero, suc, ◌+◌, ◌≤◌, ◌<◌, ◌≡◌, ap, refl, arith, inl, inr, Bool-cases, leb, ltb, ◌==◌, List, [],
  ◌∷◌, length, true,
}
use spmp.Results.{ok}
use spmp.Signer.Parallel.Counting.{occurrences, within}
use spmp.Suite.Signing.{insert, sort, enumerated}

abbrev IsSorted : ℕ → List ℕ → Type 0
IsSorted low [] = Unit
IsSorted low (x ∷ xs) = (low ≤ x) × IsSorted x xs

insert-IsSorted : (x low : ℕ) (xs : List ℕ) → low ≤ x → IsSorted low xs → IsSorted low (insert x xs)
insert-IsSorted x low [] h s = (h, tt)
insert-IsSorted x low (y ∷ ys) h (h', s) = elim (Bool-cases (leb x y)) [
  | inl le ↦ rw le (h, (ground arith, s))
  | inr gt ↦ rw gt (h', insert-IsSorted x y ys (ground arith) s)
]

sort-IsSorted : (xs : List ℕ) → IsSorted 0 (sort xs)
sort-IsSorted [] = tt
sort-IsSorted (x ∷ xs) = insert-IsSorted x 0 (sort xs) (omega arith) (sort-IsSorted xs)

occurrences-insert : (k x : ℕ) (xs : List ℕ) → occurrences k (insert x xs) ≡ occurrences k (x ∷ xs)
occurrences-insert k x [] = refl
occurrences-insert k x (y ∷ ys) = elim (Bool-cases (leb x y)) [
  | inl le ↦ rw le refl
  | inr gt ↦ rw gt (omega (arith, occurrences-insert k x ys))
]

occurrences-sort : (k : ℕ) (xs : List ℕ) → occurrences k (sort xs) ≡ occurrences k xs
occurrences-sort k [] = refl
occurrences-sort k (x ∷ xs) = omega (arith, occurrences-insert k x (sort xs), occurrences-sort k xs)

-- What is below a sorted list is not in it.
below-sorted : (k low : ℕ) (xs : List ℕ) → k < low → IsSorted low xs → occurrences k xs ≡ 0
below-sorted k low [] h s = refl
below-sorted k low (x ∷ xs) h (h', s) =
    let rest = below-sorted k x xs (omega arith) s in ground arith

-- The least of the numbers behind `i` stands first.
first_next :
    (n i x : ℕ) (xs : List ℕ)
    → IsSorted x xs
    → occurrences x (x ∷ xs) ≡ within i (i + suc n) x
    → occurrences (i + 1) (x ∷ xs) ≡ within i (i + suc n) (i + 1)
    → x ≡ i + 1
first_next n i x xs s here next = elim (Bool-cases (ltb (i + 1) x)) [
  | inl past ↦ let none_there = below-sorted (i + 1) x xs (ground arith) s in absurd (ground arith)
  | inr near ↦ ground arith
]

rest_once :
    (n i k : ℕ) (xs : List ℕ)
    → occurrences k ((i + 1) ∷ xs) ≡ within i (i + suc n) k
    → occurrences k xs ≡ within (i + 1) (i + 1 + n) k
rest_once n i k xs h = ground arith

==_self : (n : ℕ) → (n == n) ≡ true
==_self n = ground arith

-- A sorted list in which each number behind `i` up to `i + n` is once counts them up.
counts_up :
    (n i low : ℕ) (xs : List ℕ)
    → IsSorted low xs
    → ((k : ℕ) → occurrences k xs ≡ within i (i + n) k)
    → (length xs ≡ n) × (enumerated i xs ≡ ok tt)
counts_up zero i low [] s once = (refl, refl)
counts_up zero i low (x ∷ xs) s once = let here = once x in absurd (ground arith)
counts_up (suc n) i low [] s once = let next = once (i + 1) in absurd (ground arith)
counts_up (suc n) i low (x ∷ xs) (h, s) once =
    let first = first_next n i x xs s (once x) (once (i + 1)) in
    let (size, counted) =
      counts_up n (i + 1) x xs s (λ k. rest_once n i k xs (rw (← first) (once k))) in
    (ap suc size, rw (first, ==_self (i + 1)) counted)

-- What is sorted of numbers that are each of those from 1 to `n` once.
pub sort-counts_up :
    (n : ℕ) (xs : List ℕ)
    → ((k : ℕ) → occurrences k xs ≡ within 0 n k)
    → (length (sort xs) ≡ n) × (enumerated 0 (sort xs) ≡ ok tt)
sort-counts_up n xs once =
    counts_up n 0 0 (sort xs) (sort-IsSorted xs) (λ k. grind (arith, occurrences-sort k xs, once k))
