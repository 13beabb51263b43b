-- ===== src/Verifier/Odds.antt =====
-- The odds that the target stands for.
use spmp.Prelude.{ℕ, ◌+◌, ◌*◌, ◌/◌, ◌^◌, ◌≤◌, ◌<◌, ◌≡◌, ◌≢◌, arith}
use spmp.Prelude.Words.{u256_max}
use spmp.Verifier.{win_target}
use native.Mathlib.Nat.{div-mul-le_self, lt-div-mul-add, mul-le-mul_left, mul-lt-mul_of_pos_left}

-- For odds strictly between 0 and 1.
pub win_target_between :
    (num denom : ℕ) → num ≢ 0 → num < denom → win_target num denom ≡ u256_max / denom * num
unfolding win_target
win_target_between num denom pos small = ground arith

-- A share of `m` by a quotient that is rounded down, in terms of the exact share.
share_bounds :
    (m num denom : ℕ)
    → 0 < num
    → num < denom
    → (m / denom * num * denom ≤ num * m)
      × (num * m < m / denom * num * denom + num * denom)
      × (m / denom * num ≤ m)
share_bounds m num denom pos small =
    let below : m / denom * denom ≤ m = div-mul-le_self m denom in
    let above : m < m / denom * denom + denom = lt-div-mul-add (omega arith) in
    let step : m / denom * num ≤ m / denom * denom = mul-le-mul_left (m / denom) (omega arith) in
    (
      omega (arith, mul-le-mul_left num below),
      omega (arith, mul-lt-mul_of_pos_left above pos),
      omega arith,
    )

-- For odds strictly between 0 and 1 the target misses the exact share num / denom of 2^256 - 1 from
-- below, by less than num: target * denom is at most num * (2^256 - 1), and less than num * denom
-- under it. The product stays below 2^256, so the multiplication does not overflow.
pub win_target_bounds :
    (num denom : ℕ)
    → num ≢ 0
    → num < denom
    → (win_target num denom * denom ≤ num * u256_max)
      × (num * u256_max < win_target num denom * denom + num * denom)
      × (win_target num denom < 2 ^ 256)
win_target_bounds num denom pos small =
    let (below, above, fits) = share_bounds u256_max num denom (omega arith) small in
    rw (win_target_between num denom pos small) (below, above, omega arith)
