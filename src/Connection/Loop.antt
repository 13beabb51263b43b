-- ===== src/Connection/Loop.antt =====
-- The loop of a connection ends with its stream, and keeps the identity of the session.
use spmp.Prelude.{
  ℕ, zero, suc, ◌+◌, ◌≤◌, ◌<◌, ◌≡◌, ◌≢◌, ◌↔◌, ◌∙◌, ◌⊎◌, ◌^◌, ◌%◌, ltb, Bool-cases, inl, inr, Bool,
  true, false, refl, arith, Option, none, some, Bytes, length,
}
use spmp.Prelude.Words.{u64_max}
use spmp.Results.{Result, ok, err, panic, waits, Profile, debug, release, add_u64}
use spmp.Types.{Ticket, SessionConfig, IncomingTicketFrame}
use spmp.Net.{Tcp}
use spmp.Net.Laws.{TcpLaws}
use spmp.FrameReader.{read_frame}
use spmp.FrameReader.Bounds.{read_frame_bounds}
use spmp.FrameReader.Closed.{StaysClosed, Settles, read_frame-Settles}
use spmp.Server.{decode_ticket_frame, log_fields, on_frame}
use spmp.Server.Totality.{Returns-cases, decode_ticket_frame-Returns}
use spmp.Connection.{serve}

-- The session but for its watermark.
abbrev pub SameParty : SessionConfig → SessionConfig → Type 0
SameParty a b =
    (a.channel_id ≡ b.channel_id)
    × (a.client_address ≡ b.client_address)
    × (a.provider_seed ≡ b.provider_seed)
    × (a.provider_commitment ≡ b.provider_commitment)

add_u64-cases :
    (profile : Profile) (n : ℕ)
    → ((add_u64 profile n 1 ≡ panic) × (profile ≡ debug)) ⊎ ((m : ℕ) × (add_u64 profile n 1 ≡ ok m))
add_u64-cases debug n = elim (Bool-cases (ltb (n + 1) (2 ^ 64))) [
  | inl fits ↦ inr (n + 1, rw fits)
  | inr over ↦ inl (rw over, refl)
]
add_u64-cases release n = inr ((n + 1) % 2 ^ 64, refl)

-- A build that does not trap overflow, or no logging of INFO events.
abbrev pub Untrapped : Profile → Bool → Type 0
Untrapped profile info = (profile ≡ release) ⊎ (info ≡ false)

log_fields-cases :
    (profile : Profile) (info : Bool) (session : SessionConfig)
    → ((log_fields profile info session ≡ panic) × ¬ Untrapped profile info)
      ⊎ (log_fields profile info session ≡ ok tt)
unfolding log_fields
log_fields-cases profile true session = elim (add_u64-cases profile session.last_nonce) [
  | inl (over, trapped) ↦
      inl (rw over, λ calm. elim calm [ inl r ↦ absurd (cc) | inr off ↦ absurd (cc) ])
  | inr (n, sum) ↦ inr (rw sum)
]
log_fields-cases profile false session = inr refl

module _ (abi_decode : Bytes → Option Ticket) (frame : Bytes) (session : SessionConfig) where
  -- For a watermark within u64, the task panics on a frame exactly when overflow is trapped, INFO
  -- events are logged, the watermark is the last u64, and the frame decodes as a ticket.
  pub on_frame-panic_iff :
      (profile : Profile) (info : Bool)
      → session.last_nonce ≤ u64_max
      → (on_frame profile info abi_decode frame session ≡ panic) ↔ (
          (profile ≡ debug)
          × (info ≡ true)
          × (session.last_nonce ≡ u64_max)
          × ((incoming : IncomingTicketFrame) × (decode_ticket_frame abi_decode frame
                ≡ ok incoming)))
  unfolding on_frame log_fields
  on_frame-panic_iff debug true u64 =
      elim (Returns-cases _ (decode_ticket_frame-Returns abi_decode frame)) [
        | inl (incoming, e) ↦
            (λ h. (refl, refl, ground arith, (incoming, e)), λ (_, _, last, _). ground arith)
        | inr (x, e) ↦ (λ h. absurd (ground arith), λ (_, _, _, (i, e')). absurd (ground arith))
      ]
  on_frame-panic_iff debug false u64 =
      elim (Returns-cases _ (decode_ticket_frame-Returns abi_decode frame)) [
        | inl (incoming, e) ↦ (λ h. absurd (ground arith), λ (_, i, _, _). absurd (ground arith))
        | inr (x, e) ↦ (λ h. absurd (ground arith), λ (_, i, _, _). absurd (ground arith))
      ]
  on_frame-panic_iff release info u64 =
      elim (Returns-cases _ (decode_ticket_frame-Returns abi_decode frame)) [
        | inl (incoming, e) ↦ (λ h. absurd (ground arith), λ (d, _, _, _). absurd (ground arith))
        | inr (x, e) ↦ (λ h. absurd (ground arith), λ (d, _, _, _). absurd (ground arith))
      ]

  -- Otherwise the session goes on, with the ticket's nonce as its watermark if there was one.
  on_frame-cases :
      (profile : Profile) (info : Bool)
      → ((on_frame profile info abi_decode frame session ≡ panic) × ¬ Untrapped profile info)
        ⊎ ((session' : SessionConfig) × (on_frame profile info abi_decode frame session
              ≡ ok session')
            × SameParty session session')
  unfolding on_frame
  on_frame-cases profile info =
      elim (Returns-cases _ (decode_ticket_frame-Returns abi_decode frame)) [
        | inl (incoming, e) ↦ elim (log_fields-cases profile info session) [
          | inl (over, trapped) ↦ inl (rw (e, over, on_frame), trapped)
          | inr logged ↦ inr (
            record session { last_nonce = incoming.ticket.nonce },
            rw (e, logged, on_frame),
            (refl, refl, refl, refl),
          )
        ]
        | inr (x, e) ↦ inr (session, rw (e, on_frame), (refl, refl, refl, refl))
      ]

-- How a run of the loop ends: with the session of the same party, without waiting, and without a panic
-- where an overflow is not trapped.
abbrev Ends :
    {S : Type 0}
    → Profile
    → Bool
    → Option (Result (Unit {0}) × SessionConfig × S)
    → SessionConfig
    → Type 0
Ends profile info none session = ⊥
Ends profile info (some (end, session', s')) session =
    SameParty session session' × (end ≢ waits) × (Untrapped profile info → end ≢ panic)

Ends-SameParty :
    {S : Type 0} (profile : Profile) (info : Bool)
    (out : Option (Result (Unit {0}) × SessionConfig × S)) (a b : SessionConfig)
    → SameParty a b
    → Ends profile info out b
    → Ends profile info out a
Ends-SameParty profile info none a b same e = e
Ends-SameParty profile info (some (end, session', s')) a b (p, q, r, t) ((p', q', r', t'), w, e) =
    ((p ∙ p', q ∙ q', r ∙ r', t ∙ t'), w, e)

module _ {S : Type 0} (tcp : Tcp S) (laws : TcpLaws tcp) (stays : StaysClosed tcp laws)
    (abi_decode : Bytes → Option Ticket) (profile : Profile) (info : Bool) where
  open laws use {incoming, closed}

  serve-Ends :
      (fuel : ℕ) (session : SessionConfig) (s : S)
      → length (incoming s) < fuel
      → closed s ≡ true
      → Ends profile info (serve tcp profile info abi_decode fuel session s) session
  unfolding serve
  serve-Ends zero session s h shut = absurd (omega arith)
  serve-Ends (suc fuel) session s h shut =
      go (read_frame tcp s).0 refl (read_frame-Settles tcp laws stays s shut) (serve-Ends fuel)
    where
      calm : (read_frame tcp s).0 ≢ panic
      calm = (read_frame_bounds tcp laws s).0

      shorter :
          (frame : Bytes)
          → (read_frame tcp s).0 ≡ ok (some frame)
          → length (incoming (read_frame tcp s).1) < fuel
      shorter frame e = let (_, _, taken) = (read_frame_bounds tcp laws s).1 frame e in omega arith

      go :
          (r : Result (Option Bytes))
          → (read_frame tcp s).0 ≡ r
          → Settles tcp laws stays (r, (read_frame tcp s).1)
          → ((session' : SessionConfig) (s' : S)
              → length (incoming s') < fuel
              → closed s' ≡ true
              → Ends profile info (serve tcp profile info abi_decode fuel session' s') session')
          → Ends profile info (serve tcp profile info abi_decode (suc fuel) session s) session
      go (ok none) e c ih =
          rw (e, serve) ((refl, refl, refl, refl), λ p. absurd (cc), λ _ p. absurd (cc))
      go (ok (some frame)) e c ih = elim (on_frame-cases abi_decode frame session profile info) [
        | inl (trapped, loud) ↦
            rw (e, trapped, serve) ((refl, refl, refl, refl), λ p. absurd (cc), λ r p. loud r)
        | inr (session', step, same) ↦
            rw (e, step, serve)
              (Ends-SameParty profile info _ session session' same
                (ih session' (read_frame tcp s).1 (shorter frame e) c))
      ]
      go (err x) e c ih =
          rw (e, serve) ((refl, refl, refl, refl), λ p. absurd (cc), λ _ p. absurd (cc))
      go panic e c ih = absurd (calm e)
      go waits e c ih = absurd c

  -- A peer sends some bytes and closes the connection, and a closed connection stays closed: more
  -- rounds than these bytes are enough, the loop ends, and it does not wait for ever. The session
  -- that it ends with is that of the same party, with the same seed and commitment, and it does not
  -- panic in a release build or where INFO events are not logged.
  pub serve_ends :
      (fuel : ℕ) (session : SessionConfig) (s : S)
      → length (incoming s) < fuel
      → closed s ≡ true
      → (end : Result (Unit {0})) × (session' : SessionConfig) × (s' : S) × (serve tcp profile info
            abi_decode fuel session s
          ≡ some (end, session', s'))
        × SameParty session session'
        × (end ≢ waits)
        × (Untrapped profile info → end ≢ panic)
  serve_ends fuel session s h shut =
      found (serve tcp profile info abi_decode fuel session s) refl
        (serve-Ends fuel session s h shut)
    where
      found :
          (out : Option (Result (Unit {0}) × SessionConfig × S))
          → serve tcp profile info abi_decode fuel session s ≡ out
          → Ends profile info out session
          → (end : Result (Unit {0})) × (session' : SessionConfig) × (s' : S) × (serve tcp profile
                info abi_decode fuel session s
              ≡ some (end, session', s'))
            × SameParty session session'
            × (end ≢ waits)
            × (Untrapped profile info → end ≢ panic)
      found none e d = absurd d
      found (some (end, session', s')) e (same, awake, calm) =
          (end, session', s', e, same, awake, calm)
