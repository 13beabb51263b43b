-- ===== src/Suite.antt =====
-- The unit tests that the daemons carry along, each a function of what it draws and reads: the keys,
-- the clock, the random bytes. A failed assertion and an `unwrap` of nothing are panics.
pub mod Gatekeeper
pub mod Fuzz
pub mod Variance
pub mod Signing
pub mod Frames
pub mod Services
mod Examples
use spmp.Prelude.{Bool, true, false, ◌≡◌}
use spmp.Results.{Result, ok, panic}

-- `assert!`
abbrev pub assert : Bool → Result (Unit {0})
assert true = ok tt
assert false = panic
