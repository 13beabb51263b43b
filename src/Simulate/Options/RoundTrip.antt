-- ===== src/Simulate/Options/RoundTrip.antt =====
-- Every run of the simulator can be asked for on its command line.
use spmp.Prelude.{
  ℕ, ◌^◌, ◌<◌, ◌≡◌, ◌∙◌, ap, arith, refl, sym, List, [], ◌∷◌, Bytes, some, Bool, true, false,
  if◌then◌else◌,
}
use spmp.Prelude.Text.{ascii}
use spmp.Simulate.Options.{
  Options, defaults, ValueFlag, num_flag, denom_flag, face_value_flag, nonce_flag, last_nonce_flag,
  iterations_flag, Switch, tamper_sig_switch, malleable_s_switch, tamper_nonce_switch,
  tamper_commitment_switch, expired_switch, value, switch, audit_arm, arm_of, set_value, set_switch,
  parse_last, parse_args,
}
use spmp.Simulate.Options.Ranges.{InRange}
use spmp.Simulate.Options.Decimal.{decimal, parse_or-decimal, not_flag-decimal}

-- A number in 39 digits at most, which are enough for a u128.
abbrev pub text_of : ℕ → Bytes
text_of n = decimal 38 n

abbrev pub optional : Bool → Bytes → List Bytes → List Bytes
optional true arg rest = arg ∷ rest
optional false arg rest = rest

abbrev pub audit_args : Bool → ℕ → List Bytes
audit_args run tickets = if run then ascii "--variance-audit" ∷ text_of tickets ∷ [] else []

-- The arguments that ask for the options.
abbrev pub args_of : Options → List Bytes
args_of o =
    ascii "--num"
    ∷ text_of o.num
    ∷ ascii "--denom"
    ∷ text_of o.denom
    ∷ ascii "--face-value"
    ∷ text_of o.face_value
    ∷ ascii "--nonce"
    ∷ text_of o.nonce
    ∷ ascii "--last-nonce"
    ∷ text_of o.last_nonce
    ∷ ascii "--iterations"
    ∷ text_of o.iterations
    ∷ optional o.tamper_sig (ascii "--tamper-sig") (
        optional o.malleable_s (ascii "--malleable-s") (
          optional o.tamper_nonce (ascii "--tamper-nonce") (
            optional o.tamper_commitment (ascii "--tamper-commitment") (
              optional o.expired (ascii "--expired")
                (audit_args o.run_variance_audit o.audit_tickets)))))

value_step :
    (flag : ValueFlag) (arg v : Bytes) (rest : List Bytes) (o : Options)
    → arm_of arg ≡ value flag
    → parse_args (arg ∷ v ∷ rest) o ≡ parse_args rest (set_value flag v o)
unfolding parse_args
value_step flag arg v rest o h = rw (parse_args, h) refl

switch_step :
    (flag : Switch) (arg : Bytes) (rest : List Bytes) (o : Options)
    → arm_of arg ≡ switch flag
    → parse_args (arg ∷ rest) o ≡ parse_args rest (set_switch flag o)
unfolding parse_args parse_last
switch_step flag arg [] o h = rw (parse_args, parse_last, h) refl
switch_step flag arg (next ∷ rest) o h = rw (parse_args, h) refl

optional_step :
    (flag : Switch) (on : Bool) (arg : Bytes) (rest : List Bytes) (o o' : Options)
    → arm_of arg ≡ switch flag
    → o' ≡ (if on then set_switch flag o else o)
    → parse_args (optional on arg rest) o ≡ parse_args rest o'
optional_step flag true arg rest o o' h e =
    switch_step flag arg rest o h ∙ ap (parse_args rest) (sym e)
optional_step flag false arg rest o o' h e = ap (parse_args rest) (sym e)

variance_audit_arm : arm_of (ascii "--variance-audit") ≡ audit_arm
unfolding arm_of
variance_audit_arm = refl

audit_step :
    (run : Bool) (tickets : ℕ) (o : Options)
    → tickets < 2 ^ 64
    → (run ≡ false → tickets ≡ 10_000)
    → o.run_variance_audit ≡ false
    → o.audit_tickets ≡ 10_000
    → parse_args (audit_args run tickets) o
      ≡ some (record o { run_variance_audit = run; audit_tickets = tickets })
unfolding parse_args
audit_step true tickets o fits idle off ten =
    rw
      (
        parse_args,
        variance_audit_arm,
        not_flag-decimal tickets (omega arith),
        parse_args,
        parse_or-decimal 64 10_000 tickets fits (omega arith),
      )
      refl
audit_step false tickets o fits idle off ten =
    ap (λ r. some r)
      (sym (
        ap (λ n. record o { run_variance_audit = false; audit_tickets = n }) (idle refl ∙ sym ten)
        ∙ ap (λ b. record o { run_variance_audit = b }) (sym off)))

-- The options with the numbers read, before the switches.
abbrev numbered : Options → Options
numbered o = record defaults {
  num = o.num;
  denom = o.denom;
  face_value = o.face_value;
  nonce = o.nonce;
  last_nonce = o.last_nonce;
  iterations = o.iterations;
}

abbrev switches : Options → List Bytes
switches o = optional o.tamper_sig (ascii "--tamper-sig") (
    optional o.malleable_s (ascii "--malleable-s") (
      optional o.tamper_nonce (ascii "--tamper-nonce") (
        optional o.tamper_commitment (ascii "--tamper-commitment") (
          optional o.expired (ascii "--expired")
            (audit_args o.run_variance_audit o.audit_tickets)))))

parse_args-numbers :
    (o : Options)
    → InRange o
    → parse_args (args_of o) defaults ≡ parse_args (switches o) (numbered o)
unfolding arm_of
parse_args-numbers o (a, b, c, d, e, f, g) =
    value_step num_flag _ (text_of o.num) _ _ refl
    ∙ value_step denom_flag _ (text_of o.denom) _ _ refl
    ∙ value_step face_value_flag _ (text_of o.face_value) _ _ refl
    ∙ value_step nonce_flag _ (text_of o.nonce) _ _ refl
    ∙ value_step last_nonce_flag _ (text_of o.last_nonce) _ _ refl
    ∙ value_step iterations_flag _ (text_of o.iterations) _ _ refl
    ∙ ap (parse_args (switches o)) (
        rw
          (
            parse_or-decimal 32 1 o.num a (omega arith),
            parse_or-decimal 32 50 o.denom b (omega arith),
            parse_or-decimal 128 50_000 o.face_value c (omega arith),
            parse_or-decimal 64 1 o.nonce d (omega arith),
            parse_or-decimal 64 0 o.last_nonce e (omega arith),
            parse_or-decimal 64 1 o.iterations f (omega arith),
          )
          refl)

set_tamper_sig :
    (on : Bool) (o : Options)
    → o.tamper_sig ≡ false
    → record o { tamper_sig = on } ≡ (if on then set_switch tamper_sig_switch o else o)
set_tamper_sig true o h = refl
set_tamper_sig false o h = ap (λ b. record o { tamper_sig = b }) (sym h)

set_malleable_s :
    (on : Bool) (o : Options)
    → o.malleable_s ≡ false
    → record o { malleable_s = on } ≡ (if on then set_switch malleable_s_switch o else o)
set_malleable_s true o h = refl
set_malleable_s false o h = ap (λ b. record o { malleable_s = b }) (sym h)

set_tamper_nonce :
    (on : Bool) (o : Options)
    → o.tamper_nonce ≡ false
    → record o { tamper_nonce = on } ≡ (if on then set_switch tamper_nonce_switch o else o)
set_tamper_nonce true o h = refl
set_tamper_nonce false o h = ap (λ b. record o { tamper_nonce = b }) (sym h)

set_tamper_commitment :
    (on : Bool) (o : Options)
    → o.tamper_commitment ≡ false
    → record o { tamper_commitment = on }
      ≡ (if on then set_switch tamper_commitment_switch o else o)
set_tamper_commitment true o h = refl
set_tamper_commitment false o h = ap (λ b. record o { tamper_commitment = b }) (sym h)

set_expired :
    (on : Bool) (o : Options)
    → o.expired ≡ false
    → record o { expired = on } ≡ (if on then set_switch expired_switch o else o)
set_expired true o h = refl
set_expired false o h = ap (λ b. record o { expired = b }) (sym h)

-- The command line that spells out options within the range of their types is parsed as these options,
-- where the number of audited tickets is the default if no audit is asked for: every run of the
-- simulator can be asked for.
pub parse_args-args_of :
    (o : Options)
    → InRange o
    → (o.run_variance_audit ≡ false → o.audit_tickets ≡ 10_000)
    → parse_args (args_of o) defaults ≡ some o
unfolding arm_of
parse_args-args_of o (a, b, c, d, e, f, g) idle =
    let o₀ = numbered o in
    let o₁ = record o₀ { tamper_sig = o.tamper_sig } in
    let o₂ = record o₁ { malleable_s = o.malleable_s } in
    let o₃ = record o₂ { tamper_nonce = o.tamper_nonce } in
    let o₄ = record o₃ { tamper_commitment = o.tamper_commitment } in
    let o₅ = record o₄ { expired = o.expired } in
    parse_args-numbers o (a, b, c, d, e, f, g)
    ∙ optional_step tamper_sig_switch o.tamper_sig _ _ o₀ o₁ refl
        (set_tamper_sig o.tamper_sig o₀ refl)
    ∙ optional_step malleable_s_switch o.malleable_s _ _ o₁ o₂ refl
        (set_malleable_s o.malleable_s o₁ refl)
    ∙ optional_step tamper_nonce_switch o.tamper_nonce _ _ o₂ o₃ refl
        (set_tamper_nonce o.tamper_nonce o₂ refl)
    ∙ optional_step tamper_commitment_switch o.tamper_commitment _ _ o₃ o₄ refl
        (set_tamper_commitment o.tamper_commitment o₃ refl)
    ∙ optional_step expired_switch o.expired _ _ o₄ o₅ refl (set_expired o.expired o₄ refl)
    ∙ audit_step o.run_variance_audit o.audit_tickets o₅ g idle refl refl
