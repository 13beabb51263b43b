-- ===== src/Fixtures/Pipe.antt =====
-- A connection in memory that meets the laws of a TCP stream: what the peer has sent, and what it has
-- been sent. The peer has closed its side, and nothing takes time.
use spmp.Prelude.{
  ℕ, true, false, if◌then◌else◌, leb, ◌≡◌, ◌≤◌, ◌<◌, refl, inl, [], ◌++◌, Bytes, length, take, drop,
  le→leb, lt→not_leb,
}
use spmp.Results.{Result, ok, err, unexpected_eof}
use spmp.Net.{Tcp}
use spmp.Net.Laws.{TcpLaws}

pub record Pipe : Type 0 where
  pub unread : Bytes
  pub written : Bytes

abbrev pub read_exact : ℕ → Pipe → Result Bytes × Pipe
read_exact n p =
    if leb n (length p.unread)
    then (ok (take n p.unread), record p { unread = drop n p.unread })
    else (err unexpected_eof, record p { unread = [] })

abbrev pub tcp : Tcp Pipe
tcp = record {
  read_exact = read_exact;
  write_all = λ b p. (ok tt, record p { written = p.written ++ b });
  elapses = λ secs p. false;
}

pub read_exact-enough :
    (n : ℕ) (p : Pipe)
    → n ≤ length p.unread
    → let (r, p') = read_exact n p in
      (r ≡ ok (take n p.unread)) × (p'.unread ≡ drop n p.unread) × (p'.written ≡ p.written)
read_exact-enough n p h = rw (le→leb n (length p.unread) h) (refl, refl, refl)

pub read_exact-short :
    (n : ℕ) (p : Pipe) → length p.unread < n → (read_exact n p).0 ≡ err unexpected_eof
read_exact-short n p h = rw (lt→not_leb n (length p.unread) h)

abbrev pub tcp_laws : TcpLaws tcp
tcp_laws = record {
  incoming = λ p. p.unread;
  outgoing = λ p. p.written;
  closed = λ p. true;
  read_enough = read_exact-enough;
  read_short = λ n p h. inl (read_exact-short n p h);
  read_closed = λ n p c h. read_exact-short n p h;
  write_done = λ b p h. (refl, refl);
}

-- A connection on which so many bytes have come in and nothing was written.
abbrev pub receiving : Bytes → Pipe
receiving b = record { unread = b; written = [] }
