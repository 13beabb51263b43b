-- ===== src/Net/Laws.antt =====
-- The documented behaviour of a TCP stream whose peer sends finitely many bytes.
use spmp.Prelude.{ℕ, Bool, true, ◌++◌, ◌≡◌, ◌≤◌, ◌<◌, Bytes, length, take, drop, ◌⊎◌}
use spmp.Results.{ok, err, waits, unexpected_eof, io_failure}
use spmp.Net.{Tcp}

pub record TcpLaws {S : Type 0} (tcp : Tcp S) : Type 0 where
  -- what the peer sends from now on, and what it has been sent so far
  pub incoming : S → Bytes
  pub outgoing : S → Bytes
  -- the peer closes the connection after its last byte
  pub closed : S → Bool
  pub read_enough :
      (n : ℕ) (s : S)
      → n ≤ length (incoming s)
      → let (r, s') = tcp.read_exact n s in
        (r ≡ ok (take n (incoming s)))
        × (incoming s' ≡ drop n (incoming s))
        × (outgoing s' ≡ outgoing s)
  pub read_short :
      (n : ℕ) (s : S)
      → length (incoming s) < n
      → let (r, _) = tcp.read_exact n s in
        (r ≡ err unexpected_eof) ⊎ (r ≡ err io_failure) ⊎ (r ≡ waits)
  pub read_closed :
      (n : ℕ) (s : S)
      → closed s ≡ true
      → length (incoming s) < n
      → (tcp.read_exact n s).0 ≡ err unexpected_eof
  pub write_done :
      (b : Bytes) (s : S)
      → let (r, s') = tcp.write_all b s in
        r ≡ ok tt → (incoming s' ≡ incoming s) × (outgoing s' ≡ outgoing s ++ b)
