-- ===== src/Signer/Parallel/Counting.antt =====
-- The nonces that calls in parallel have taken, counted.
use spmp.Prelude.{ℕ, ◌+◌, ◌≤◌, ◌≡◌, arith, List, [], ◌∷◌, ◌++◌, length}
use spmp.Prelude.{◌==◌, ltb, leb, ◌&&◌, if◌then◌else◌}
use spmp.Results.{Result, ok, err, panic, waits}
use spmp.ClientTypes.{SignedTicket}
use spmp.Signer.Parallel.{Thread, waiting, numbered, finished}

-- How often a number is in a list.
abbrev pub occurrences : ℕ → List ℕ → ℕ
occurrences k [] = 0
occurrences k (x ∷ xs) = (if x == k then 1 else 0) + occurrences k xs

abbrev pub of_result : Result ℕ → List ℕ
of_result (ok n) = n ∷ []
of_result (err e) = []
of_result panic = []
of_result waits = []

abbrev pub of_ticket : Result SignedTicket → List ℕ
of_ticket (ok t) = t.payload.nonce ∷ []
of_ticket (err e) = []
of_ticket panic = []
of_ticket waits = []

abbrev pub number_of : Thread → List ℕ
number_of (waiting c) = []
number_of (numbered c n) = of_result n
number_of (finished c n r) = of_result n

abbrev pub ticket_of : Thread → List ℕ
ticket_of (waiting c) = []
ticket_of (numbered c n) = []
ticket_of (finished c n r) = of_ticket r

abbrev pub has_taken : Thread → ℕ
has_taken (waiting c) = 0
has_taken (numbered c n) = 1
has_taken (finished c n r) = 1

-- The nonces that the calls have taken, and those of the tickets that they made.
abbrev pub numbers : List Thread → List ℕ
numbers [] = []
numbers (t ∷ ts) = number_of t ++ numbers ts

abbrev pub ticket_nonces : List Thread → List ℕ
ticket_nonces [] = []
ticket_nonces (t ∷ ts) = ticket_of t ++ ticket_nonces ts

-- How many calls are behind their `fetch_add`.
abbrev pub taken : List Thread → ℕ
taken [] = 0
taken (t ∷ ts) = has_taken t + taken ts

abbrev pub within : ℕ → ℕ → ℕ → ℕ
within low high k = if ltb low k && leb k high then 1 else 0

pub occurrences-append :
    (k : ℕ) (xs ys : List ℕ) → occurrences k (xs ++ ys) ≡ occurrences k xs + occurrences k ys
occurrences-append k [] ys = omega arith
occurrences-append k (x ∷ xs) ys = omega (arith, occurrences-append k xs ys)

pub within-split :
    (low mid high k : ℕ)
    → low ≤ mid
    → mid ≤ high
    → within low high k ≡ within low mid k + within mid high k
within-split low mid high k h h' = ground arith

pub within_self : (low k : ℕ) → within low low k ≡ 0
within_self low k = ground arith

pub has_taken-le_one : (t : Thread) → has_taken t ≤ 1
has_taken-le_one (waiting c) = omega arith
has_taken-le_one (numbered c n) = omega arith
has_taken-le_one (finished c n r) = omega arith

pub taken-le-length : (ts : List Thread) → taken ts ≤ length ts
taken-le-length [] = omega arith
taken-le-length (t ∷ ts) = omega (arith, taken-le-length ts, has_taken-le_one t)
