-- ===== src/Net.antt =====
-- The TCP stream of tokio, which both daemons read and write. tokio is not part of the repository,
-- so its stream is a parameter: `S` stands for the state of a connection.
pub mod Laws
use spmp.Prelude.{ℕ, Bool, true, false, if◌then◌else◌, Bytes}
use spmp.Results.{Error, Result, ok, err, panic, waits}

pub record Tcp (S : Type 0) : Type 0 where
  -- `read_exact` into a buffer of that many bytes, and `write_all`
  pub read_exact : ℕ → S → Result Bytes × S
  pub write_all : Bytes → S → Result (Unit {0}) × S
  -- whether so many seconds pass before the operation that begins in this state is done
  pub elapses : ℕ → S → Bool

-- An async function on a connection: it ends as a `Result`, and leaves the connection changed.
abbrev pub Action : Type 0 → Type 0 → Type 0
Action S A = S → Result A × S

-- What never ends is cut off by a timeout too.
abbrev pub on_time_out : {A : Type 0} → Error → Result A → Result A
on_time_out e waits = err e
on_time_out e panic = panic
on_time_out e (err x) = err x
on_time_out e (ok a) = ok a

module _ {S : Type 0} {A : Type 0} where
  abbrev pub lift : Result A → Action S A
  lift r s = (r, s)

  abbrev pub pure : A → Action S A
  pure a s = (ok a, s)

  -- `timeout(secs, m).await.context(e)??`
  abbrev pub timeout : Tcp S → ℕ → Error → Action S A → Action S A
  timeout tcp secs e m s =
      let (r, s') = m s in (if tcp.elapses secs s then err e else on_time_out e r, s')

infixl 5 ◌>>=◌ ◌>>◌
abbrev pub ◌>>=◌ : {S A B : Type 0} → Action S A → (A → Action S B) → Action S B
◌>>=◌ m f s =
    let (r, s') = m s in
    elim r [ ok a ↦ f a s' | err e ↦ (err e, s') | panic ↦ (panic, s') | waits ↦ (waits, s') ]

abbrev pub ◌>>◌ : {S B : Type 0} → Action S (Unit {0}) → Action S B → Action S B
m >> k = m >>= λ _. k
