-- ===== src/Escrow/Calls.antt =====
-- What the contract's calls other than a claim require and change.
use spmp.Prelude.{ℕ, ◌+◌, ◌≤◌, ◌≡◌, ◌≢◌, refl, arith, Bytes, Bool, true, false, not}
use spmp.Prelude.{
  Option, none, some, bytes_eq, bytes_eq_sound, bytes_eq_self, ltb, ◌==◌, Bool-cases, inl, inr, ◌⊎◌,
  ◌^◌, ◌%◌,
}
use spmp.Types.{B256, Address}
use spmp.Results.{Error, ok}
use spmp.Results.{
  invalid_channel, channel_already_exists, close_already_requested, close_not_requested,
  withdrawal_locked, unauthorized, invalid_provider_address, amount_must_be_positive,
  transfer_failed, refund_transfer_failed,
}
use spmp.Results.Inversion.{>>=_ok, bail_if-ok}
use spmp.Evm.{Evm, Erc20}
use spmp.EscrowTypes.{Channel, EscrowState, Event, Msg, channel_at, set_channel}
use spmp.EscrowTypes.{zero_address, withdrawal_delay, no_channel}
use spmp.EscrowTypes.{channel_withdrawn, channel_opened, channel_topped_up, close_requested}
use spmp.Escrow.{
  require_paid, get_channel_id, add_u256, open_channel, deposit, request_close, refund, withdraw,
}

pub require_paid-ok :
    {Tok : Type 0} (e : Error) (answer : Option (Bool × Tok)) (s : Tok)
    → require_paid e answer ≡ ok s
    → answer ≡ some (true, s)
require_paid-ok e none s h = absurd (cc)
require_paid-ok e (some (true, t)) s h = cc
require_paid-ok e (some (false, t)) s h = absurd (cc)

pub ok_injective {ℓ} : {A : Type ℓ} (a b : A) → ok a ≡ ok b → b ≡ a
ok_injective a b h = cc

pub bytes_ne : (xs ys : Bytes) → bytes_eq xs ys ≡ false → xs ≢ ys
bytes_ne xs ys h e = absurd (let same = bytes_eq_self ys in cc)

pub add_u256-ok : (a b n : ℕ) → add_u256 a b ≡ ok n → n ≡ a + b
add_u256-ok a b n h = ground arith

pub ne_bytes : (xs ys : Bytes) → xs ≢ ys → bytes_eq xs ys ≡ false
ne_bytes xs ys h = elim (Bool-cases (bytes_eq xs ys)) [
  | inl e ↦ absurd (h (bytes_eq_sound xs ys e))
  | inr e ↦ e
]

pub true_of_not : (b : Bool) → not b ≡ false → b ≡ true
true_of_not true h = refl
true_of_not false h = absurd (cc)

module _ (evm : Evm) {Tok : Type 0} (token : Erc20 Tok) (this : Address) where
  abbrev pub State : Type 0
  State = EscrowState Tok

  pub open_channel-ok :
      (msg : Msg) (provider : Address) (amount : ℕ) (s : State) (r : State × Event)
      → open_channel evm token this msg provider amount s ≡ ok r
      → (t : Tok) × (token.transfer_from this msg.sender this amount s.token ≡ some (true, t))
        × ((channel_at (get_channel_id evm msg.sender provider) s.channels).client ≡ zero_address)
        × (r ≡ (
          record s {
            channels =
                set_channel
                  (get_channel_id evm msg.sender provider)
                  (record {
                    client = msg.sender;
                    provider = provider;
                    balance = amount;
                    close_requested_at = 0;
                  })
                  s.channels;
            token = t;
          },
          channel_opened (get_channel_id evm msg.sender provider) msg.sender provider amount,
        ))
  unfolding open_channel
  open_channel-ok msg provider amount s r h =
      let (_, h1) = bail_if-ok (bytes_eq provider zero_address) invalid_provider_address _ r h in
      let (_, h2) = bail_if-ok (amount == 0) amount_must_be_positive _ r h1 in
      let id = get_channel_id evm msg.sender provider in
      let (free, h3) =
        bail_if-ok (not (bytes_eq (channel_at id s.channels).client zero_address))
          channel_already_exists _ r h2 in
      let answer = token.transfer_from this msg.sender this amount s.token in
      let (t, paid, h4) = >>=_ok (require_paid transfer_failed answer) _ r h3 in
      (
        t,
        require_paid-ok transfer_failed answer t paid,
        bytes_eq_sound _ zero_address (true_of_not _ free),
        ok_injective _ _ h4,
      )

  pub deposit-ok :
      (msg : Msg) (id : B256) (amount : ℕ) (s : State) (r : State × Event)
      → deposit evm token this msg id amount s ≡ ok r
      → (t : Tok) × (token.transfer_from this msg.sender this amount s.token ≡ some (true, t))
        × ((channel_at id s.channels).client ≢ zero_address)
        × (r ≡ (
          record s {
            channels =
                set_channel id
                  (record (channel_at id s.channels) {
                    balance = (channel_at id s.channels).balance + amount;
                  })
                  s.channels;
            token = t;
          },
          channel_topped_up id amount ((channel_at id s.channels).balance + amount),
        ))
  unfolding deposit
  deposit-ok msg id amount s r h =
      let channel = channel_at id s.channels in
      let (c, h1) = bail_if-ok (bytes_eq channel.client zero_address) invalid_channel _ r h in
      let (_, h2) = bail_if-ok (amount == 0) amount_must_be_positive _ r h1 in
      let (b, eb, h3) = >>=_ok (add_u256 channel.balance amount) _ r h2 in
      let sum : b ≡ channel.balance + amount = add_u256-ok channel.balance amount b eb in
      let answer = token.transfer_from this msg.sender this amount s.token in
      let (t, paid, h4) = >>=_ok (require_paid transfer_failed answer) _ r (rw sum at h3) in
      (
        t,
        require_paid-ok transfer_failed answer t paid,
        bytes_ne channel.client zero_address c,
        ok_injective _ _ h4,
      )

  pub request_close-ok :
      (msg : Msg) (id : B256) (s : State) (r : State × Event)
      → request_close evm token this msg id s ≡ ok r
      → ((channel_at id s.channels).client ≡ msg.sender)
        × ((channel_at id s.channels).close_requested_at ≡ 0)
        × (r ≡ (
          record s {
            channels =
                set_channel id
                  (record (channel_at id s.channels) {
                    close_requested_at = msg.timestamp % 2 ^ 64;
                  })
                  s.channels;
          },
          close_requested id ((msg.timestamp + withdrawal_delay) % 2 ^ 64),
        ))
  unfolding request_close
  request_close-ok msg id s r h =
      let c = channel_at id s.channels in
      let (ours, h1) = bail_if-ok (not (bytes_eq c.client msg.sender)) unauthorized _ r h in
      let (free, h2) =
        bail_if-ok (not (c.close_requested_at == 0)) close_already_requested _ r h1 in
      let (u, eu, h3) = >>=_ok (add_u256 msg.timestamp withdrawal_delay) _ r h2 in
      let sum : u ≡ msg.timestamp + withdrawal_delay =
        add_u256-ok msg.timestamp withdrawal_delay u eu in
      (
        bytes_eq_sound c.client msg.sender (true_of_not _ ours),
        ground arith,
        ok_injective _ _ (rw sum at h3),
      )

  pub refund-ok :
      (to : Address) (remaining : ℕ) (s t : Tok)
      → refund evm token this to remaining s ≡ ok t
      → ((remaining ≡ 0) × (t ≡ s)) ⊎ (token.transfer this to remaining s ≡ some (true, t))
  unfolding refund
  refund-ok to remaining s t h = elim (Bool-cases (remaining == 0)) [
    | inl e ↦ inl (ground arith, ground arith)
    | inr e ↦ inr (require_paid-ok refund_transfer_failed _ t (rw e at h))
  ]

  -- The channel is the caller's, its close was requested, and the delay has passed.
  abbrev pub Withdrawable : Msg → Channel → Type 0
  Withdrawable msg c =
      (c.client ≡ msg.sender)
      × (c.close_requested_at ≢ 0)
      × (c.close_requested_at + withdrawal_delay ≤ msg.timestamp)

  pub withdraw-ok :
      (msg : Msg) (id : B256) (s : State) (r : State × Event)
      → withdraw evm token this msg id s ≡ ok r
      → Withdrawable msg (channel_at id s.channels)
        × ((t : Tok) × (refund evm token this msg.sender (channel_at id s.channels).balance s.token
              ≡ ok t)
            × (r ≡ (
              record s { channels = set_channel id no_channel s.channels; token = t },
              channel_withdrawn id msg.sender (channel_at id s.channels).balance,
            )))
  unfolding withdraw
  withdraw-ok msg id s r h =
      let c = channel_at id s.channels in
      let (ours, h1) = bail_if-ok (not (bytes_eq c.client msg.sender)) unauthorized _ r h in
      let (requested, h2) = bail_if-ok (c.close_requested_at == 0) close_not_requested _ r h1 in
      let (late, h3) =
        bail_if-ok (ltb msg.timestamp (c.close_requested_at + withdrawal_delay)) withdrawal_locked _
          r h2 in
      let (t, paid, h4) = >>=_ok (refund evm token this msg.sender c.balance s.token) _ r h3 in
      (
        (bytes_eq_sound c.client msg.sender (true_of_not _ ours), ground arith, ground arith),
        (t, paid, ok_injective _ _ h4),
      )
