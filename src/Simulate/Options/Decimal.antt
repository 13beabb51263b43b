-- ===== src/Simulate/Options/Decimal.antt =====
-- Decimal numbers, printed and parsed again.
use spmp.Prelude.{
  ℕ, zero, suc, ◌+◌, ◌-◌, ◌*◌, ◌/◌, ◌%◌, ◌^◌, ◌<◌, ◌≤◌, ◌≡◌, ◌∙◌, ap, arith, refl, [], ◌∷◌, ◌++◌,
  Bytes, some, false, if◌then◌else◌, ltb, leb, ◌&&◌, lt→ltb, Bool-cases, inl, inr, length,
  length-append, bytes_eq, take,
}
use spmp.Prelude.Text.{ascii}
use spmp.Simulate.Options.{digits, unsigned, parse_or}

-- The decimal digits of a number below `10 ^ (more + 1)`.
abbrev pub decimal : ℕ → ℕ → Bytes
decimal zero n = (0x30 + n % 10) ∷ []
decimal (suc more) n =
    let before = decimal more (n / 10) in
    if ltb n 10 then (0x30 + n) ∷ [] else before ++ ((0x30 + n % 10) ∷ [])

digits-append :
    (xs ys : Bytes) (acc m : ℕ) → digits acc xs ≡ some m → digits acc (xs ++ ys) ≡ digits m ys
digits-append [] ys acc m h = let same : acc ≡ m = cc in rw same refl
digits-append (x ∷ xs) ys acc m h = elim (Bool-cases (leb 0x30 x && leb x 0x39)) [
  | inl e ↦ rw e (digits-append xs ys (acc * 10 + (x - 0x30)) m (rw e at h))
  | inr e ↦ absurd (ground arith)
]

digits-one : (acc d : ℕ) → d < 10 → digits acc ((0x30 + d) ∷ []) ≡ some (acc * 10 + d)
digits-one acc d h = ground arith

pub digits-decimal : (more n : ℕ) → n < 10 ^ suc more → digits 0 (decimal more n) ≡ some n
digits-decimal zero n h = digits-one 0 (n % 10) (omega arith) ∙ ap some (omega arith)
digits-decimal (suc more) n h = elim (Bool-cases (ltb n 10)) [
  | inl small ↦ rw small (digits-one 0 n (ground arith) ∙ ap some (omega arith))
  | inr large ↦ rw large (
      digits-append (decimal more (n / 10)) ((0x30 + n % 10) ∷ []) 0 (n / 10)
        (digits-decimal more (n / 10) (omega arith))
      ∙ digits-one (n / 10) (n % 10) (omega arith)
      ∙ ap some (omega arith))
]

decimal-nonempty : (more n : ℕ) → 1 ≤ length (decimal more n)
decimal-nonempty zero n = omega arith
decimal-nonempty (suc more) n = elim (Bool-cases (ltb n 10)) [
  | inl small ↦ rw small (omega arith)
  | inr large ↦
      rw large (omega (arith, length-append (decimal more (n / 10)) ((0x30 + n % 10) ∷ [])))
]

-- The text of a number is read as the number, without a sign.
unsigned-digits : (xs : Bytes) (n : ℕ) → 1 ≤ length xs → digits 0 xs ≡ some n → unsigned xs ≡ some n
unsigned-digits [] n h e = absurd (omega arith)
unsigned-digits (x ∷ xs) n h e = ground arith

-- Nor is it read as an option.
not_flag-digits :
    (xs : Bytes) (n : ℕ) → digits 0 xs ≡ some n → bytes_eq (take 2 xs) (ascii "--") ≡ false
not_flag-digits [] n e = refl
not_flag-digits (x ∷ xs) n e = ground arith

pub parse_or-decimal :
    (bits default n : ℕ) → n < 2 ^ bits → n < 10 ^ 39 → parse_or bits default (decimal 38 n) ≡ n
unfolding parse_or
parse_or-decimal bits default n fits short =
    rw
      (
        parse_or,
        unsigned-digits (decimal 38 n) n (decimal-nonempty 38 n) (digits-decimal 38 n short),
        lt→ltb n (2 ^ bits) fits,
      )
      refl

pub not_flag-decimal : (n : ℕ) → n < 10 ^ 39 → bytes_eq (take 2 (decimal 38 n)) (ascii "--") ≡ false
not_flag-decimal n short = not_flag-digits (decimal 38 n) n (digits-decimal 38 n short)
