-- ===== src/Simulate/Options/Ranges.antt =====
-- What the command line can give fits the types of the source.
use spmp.Prelude.{some_injective}
use spmp.Prelude.{
  ℕ, ◌^◌, ◌<◌, ◌≡◌, arith, none, some, true, false, List, [], ◌∷◌, Bytes, ltb, inl, inr, Bool-cases,
  Option-cases,
}
use spmp.Prelude.{bytes_eq, take}
use spmp.Prelude.Text.{ascii}
use spmp.Simulate.Options.{
  Options, unsigned, parse_or, ValueFlag, num_flag, denom_flag, face_value_flag, nonce_flag,
  last_nonce_flag, iterations_flag, Switch, tamper_sig_switch, malleable_s_switch,
  tamper_nonce_switch, tamper_commitment_switch, expired_switch, value, switch, audit_arm, help_arm,
  other_arm, arm_of, set_value, set_switch, set_audit, set_audit_tickets, parse_last, parse_args,
  Arm,
}

-- u32, u64, u128, and a usize of 64 bits.
abbrev pub InRange : Options → Type 0
InRange o =
    (o.num < 2 ^ 32)
    × (o.denom < 2 ^ 32)
    × (o.face_value < 2 ^ 128)
    × (o.nonce < 2 ^ 64)
    × (o.last_nonce < 2 ^ 64)
    × (o.iterations < 2 ^ 64)
    × (o.audit_tickets < 2 ^ 64)

parse_or_bound :
    (bits default : ℕ) (arg : Bytes) → default < 2 ^ bits → parse_or bits default arg < 2 ^ bits
unfolding parse_or
parse_or_bound bits default arg h = elim (Option-cases (unsigned arg)) [
  | inl e ↦ rw (parse_or, e) h
  | inr (n, e) ↦ elim (Bool-cases (ltb n (2 ^ bits))) [
    | inl fits ↦ rw (parse_or, e, fits) (ground arith)
    | inr over ↦ rw (parse_or, e, over) h
  ]
]

set_value-InRange :
    (flag : ValueFlag) (v : Bytes) (o : Options) → InRange o → InRange (set_value flag v o)
set_value-InRange num_flag v o (_, b, c, d, e, f, g) =
    (parse_or_bound 32 1 v (omega arith), b, c, d, e, f, g)
set_value-InRange denom_flag v o (a, _, c, d, e, f, g) =
    (a, parse_or_bound 32 50 v (omega arith), c, d, e, f, g)
set_value-InRange face_value_flag v o (a, b, _, d, e, f, g) =
    (a, b, parse_or_bound 128 50_000 v (omega arith), d, e, f, g)
set_value-InRange nonce_flag v o (a, b, c, _, e, f, g) =
    (a, b, c, parse_or_bound 64 1 v (omega arith), e, f, g)
set_value-InRange last_nonce_flag v o (a, b, c, d, _, f, g) =
    (a, b, c, d, parse_or_bound 64 0 v (omega arith), f, g)
set_value-InRange iterations_flag v o (a, b, c, d, e, _, g) =
    (a, b, c, d, e, parse_or_bound 64 1 v (omega arith), g)

set_switch-InRange : (flag : Switch) (o : Options) → InRange o → InRange (set_switch flag o)
set_switch-InRange tamper_sig_switch o h = h
set_switch-InRange malleable_s_switch o h = h
set_switch-InRange tamper_nonce_switch o h = h
set_switch-InRange tamper_commitment_switch o h = h
set_switch-InRange expired_switch o h = h

set_audit_tickets-InRange : (v : Bytes) (o : Options) → InRange o → InRange (set_audit_tickets v o)
set_audit_tickets-InRange v o (a, b, c, d, e, f, _) =
    (a, b, c, d, e, f, parse_or_bound 64 10_000 v (omega arith))

parse_last-InRange :
    (arg : Bytes) (o o' : Options) → InRange o → parse_last arg o ≡ some o' → InRange o'
unfolding parse_last
parse_last-InRange arg o o' h e = go (arm_of arg) e
  where
    go :
        (arm : Arm)
        → (elim arm [
          | value flag ↦ some o
          | switch flag ↦ some (set_switch flag o)
          | audit_arm ↦ some (set_audit o)
          | help_arm ↦ none
          | other_arm ↦ some o
        ])
          ≡ some o'
        → InRange o'
    go (value flag) e = rw (← some_injective _ _ e) h
    go (switch flag) e = rw (← some_injective _ _ e) (set_switch-InRange flag o h)
    go audit_arm e = rw (← some_injective _ _ e) h
    go help_arm e = absurd (cc)
    go other_arm e = rw (← some_injective _ _ e) h

-- Whatever the arguments, options that fit their types give options that fit them, if the program goes
-- on: the numbers that are parsed are within u32, u64, u128 and a usize of 64 bits, and any other text
-- gives a default that is.
pub parse_args-InRange :
    (args : List Bytes) (o o' : Options) → InRange o → parse_args args o ≡ some o' → InRange o'
unfolding parse_args
parse_args-InRange [] o o' h e = rw (← some_injective _ _ e) h
parse_args-InRange (arg ∷ []) o o' h e = parse_last-InRange arg o o' h e
parse_args-InRange (arg ∷ next ∷ rest) o o' h e =
    (elim (arm_of arg)
        as (λ arm.
          (elim arm [
            | value flag ↦ parse_args rest (set_value flag next o)
            | switch flag ↦ parse_args (next ∷ rest) (set_switch flag o)
            | audit_arm ↦ elim (bytes_eq (take 2 next) (ascii "--")) [
              | true ↦ parse_args (next ∷ rest) (set_audit o)
              | false ↦ parse_args rest (set_audit_tickets next o)
            ]
            | help_arm ↦ none
            | other_arm ↦ parse_args (next ∷ rest) o
          ])
            ≡ some o'
          → InRange o') [
            | value flag ↦
                parse_args-InRange rest (set_value flag next o) o' (set_value-InRange flag next o h)
            | switch flag ↦
                parse_args-InRange (next ∷ rest) (set_switch flag o) o'
                  (set_switch-InRange flag o h)
            | audit_arm ↦
                elim (bytes_eq (take 2 next) (ascii "--"))
                  as (λ flagged.
                    (elim flagged [
                      | true ↦ parse_args (next ∷ rest) (set_audit o)
                      | false ↦ parse_args rest (set_audit_tickets next o)
                    ])
                      ≡ some o'
                    → InRange o') [
                      | true ↦ parse_args-InRange (next ∷ rest) (set_audit o) o' h
                      | false ↦
                          parse_args-InRange rest (set_audit_tickets next o) o'
                            (set_audit_tickets-InRange next o h)
                    ]
            | help_arm ↦ λ e. absurd (cc)
            | other_arm ↦ parse_args-InRange (next ∷ rest) o o' h
          ])
      e
