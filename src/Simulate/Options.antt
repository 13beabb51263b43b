-- ===== src/Simulate/Options.antt =====
-- The command line of provider-daemon/src/bin/simulate.rs, `main`. An argument is its bytes, and the
-- list is that of the arguments behind the program's name.
pub mod Ranges
pub mod Decimal
pub mod RoundTrip
mod Examples
use spmp.Prelude.{
  ℕ, ◌+◌, ◌-◌, ◌*◌, ◌^◌, ◌==◌, leb, ltb, if◌then◌else◌, Bool, true, false, ◌&&◌, ◌||◌, Option, none,
  some, List, [], ◌∷◌, Bytes, bytes_eq, take,
}
use spmp.Prelude.Text.{ascii}

pub record Options : Type 0 where
  pub num : ℕ
  pub denom : ℕ
  pub face_value : ℕ
  pub nonce : ℕ
  pub last_nonce : ℕ
  pub tamper_sig : Bool
  pub malleable_s : Bool
  pub tamper_nonce : Bool
  pub tamper_commitment : Bool
  pub expired : Bool
  pub iterations : ℕ
  pub run_variance_audit : Bool
  pub audit_tickets : ℕ

abbrev pub defaults : Options
defaults = record {
  num = 1;
  denom = 50;
  face_value = 50_000;
  nonce = 1;
  last_nonce = 0;
  tamper_sig = false;
  malleable_s = false;
  tamper_nonce = false;
  tamper_commitment = false;
  expired = false;
  iterations = 1;
  run_variance_audit = false;
  audit_tickets = 10_000;
}

-- The value of decimal digits behind those that make up `acc`.
abbrev pub digits : ℕ → Bytes → Option ℕ
digits acc [] = some acc
digits acc (b ∷ bs) = if leb 0x30 b && leb b 0x39 then digits (acc * 10 + (b - 0x30)) bs else none

-- One digit at least.
abbrev pub number : Bytes → Option ℕ
number [] = none
number (b ∷ bs) = digits 0 (b ∷ bs)

-- A leading plus sign is allowed.
abbrev pub unsigned : Bytes → Option ℕ
unsigned [] = none
unsigned (b ∷ bs) = if b == 0x2B then number bs else number (b ∷ bs)

-- `arg.parse().unwrap_or(default)` on an unsigned integer of so many bits.
unfoldable pub parse_or : ℕ → ℕ → Bytes → ℕ
parse_or bits default arg = elim (unsigned arg) [
  | none ↦ default
  | some n ↦ if ltb n (2 ^ bits) then n else default
]

pub data ValueFlag : Type 0 where
  num_flag denom_flag face_value_flag nonce_flag last_nonce_flag iterations_flag : ValueFlag

pub data Switch : Type 0 where
  tamper_sig_switch malleable_s_switch tamper_nonce_switch : Switch
  tamper_commitment_switch expired_switch : Switch

pub data Arm : Type 0 where
  value : ValueFlag → Arm
  switch : Switch → Arm
  audit_arm help_arm other_arm : Arm

-- The patterns of the `match`, in their order.
unfoldable pub arm_of : Bytes → Arm
arm_of arg =
    if bytes_eq arg (ascii "--num")
    then value num_flag
    else if bytes_eq arg (ascii "--denom")
    then value denom_flag
    else if bytes_eq arg (ascii "--face-value")
    then value face_value_flag
    else if bytes_eq arg (ascii "--nonce")
    then value nonce_flag
    else if bytes_eq arg (ascii "--last-nonce")
    then value last_nonce_flag
    else if bytes_eq arg (ascii "--tamper-sig")
    then switch tamper_sig_switch
    else if bytes_eq arg (ascii "--malleable-s")
    then switch malleable_s_switch
    else if bytes_eq arg (ascii "--tamper-nonce")
    then switch tamper_nonce_switch
    else if bytes_eq arg (ascii "--tamper-commitment")
    then switch tamper_commitment_switch
    else if bytes_eq arg (ascii "--expired")
    then switch expired_switch
    else if bytes_eq arg (ascii "--iterations")
    then value iterations_flag
    else if bytes_eq arg (ascii "--variance-audit") || bytes_eq arg (ascii "--audit")
    then audit_arm
    else if bytes_eq arg (ascii "--help") || bytes_eq arg (ascii "-h")
    then help_arm
    else other_arm

abbrev pub set_value : ValueFlag → Bytes → Options → Options
set_value num_flag v o = record o { num = parse_or 32 1 v }
set_value denom_flag v o = record o { denom = parse_or 32 50 v }
set_value face_value_flag v o = record o { face_value = parse_or 128 50_000 v }
set_value nonce_flag v o = record o { nonce = parse_or 64 1 v }
set_value last_nonce_flag v o = record o { last_nonce = parse_or 64 0 v }
set_value iterations_flag v o = record o { iterations = parse_or 64 1 v }

abbrev pub set_switch : Switch → Options → Options
set_switch tamper_sig_switch o = record o { tamper_sig = true }
set_switch malleable_s_switch o = record o { malleable_s = true }
set_switch tamper_nonce_switch o = record o { tamper_nonce = true }
set_switch tamper_commitment_switch o = record o { tamper_commitment = true }
set_switch expired_switch o = record o { expired = true }

abbrev pub set_audit : Options → Options
set_audit o = record o { run_variance_audit = true }

abbrev pub set_audit_tickets : Bytes → Options → Options
set_audit_tickets v o = record o { run_variance_audit = true; audit_tickets = parse_or 64 10_000 v }

-- The last argument: there is none behind it to take as a value.
unfoldable pub parse_last : Bytes → Options → Option Options
parse_last arg o = elim (arm_of arg) [
  | value flag ↦ some o
  | switch flag ↦ some (set_switch flag o)
  | audit_arm ↦ some (set_audit o)
  | help_arm ↦ none
  | other_arm ↦ some o
]

-- The loop over the arguments; `none` where `--help` ends the program.
unfoldable pub parse_args : List Bytes → Options → Option Options
parse_args [] o = some o
parse_args (arg ∷ []) o = parse_last arg o
parse_args (arg ∷ next ∷ rest) o = elim (arm_of arg) [
  | value flag ↦ parse_args rest (set_value flag next o)
  | switch flag ↦ parse_args (next ∷ rest) (set_switch flag o)
  | audit_arm ↦ elim (bytes_eq (take 2 next) (ascii "--")) [
    | true ↦ parse_args (next ∷ rest) (set_audit o)
    | false ↦ parse_args rest (set_audit_tickets next o)
  ]
  | help_arm ↦ none
  | other_arm ↦ parse_args (next ∷ rest) o
]

-- What `main` goes on to do.
pub data Mode : Type 0 where
  usage : Mode
  variance_audit : ℕ → ℕ → ℕ → ℕ → Mode
  single_or_bench : Options → Mode

unfoldable pub main : List Bytes → Mode
main args = elim (parse_args args defaults) [
  | none ↦ usage
  | some o ↦
      if o.run_variance_audit
      then variance_audit o.num o.denom o.face_value o.audit_tickets
      else single_or_bench o
]
