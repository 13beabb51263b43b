-- ===== src/Simulate/Options/Examples.antt =====
-- Command lines of the simulator.
use spmp.Prelude.{◌≡◌, refl, arith, some, true, [], ◌∷◌}
use spmp.Prelude.Text.{ascii}
use spmp.Simulate.Options.{
  Options, defaults, parse_or, arm_of, parse_last, parse_args, single_or_bench, main,
}
use spmp.Simulate.Options.Ranges.{InRange}
use spmp.Simulate.Options.RoundTrip.{args_of, parse_args-args_of}

abbrev asked : Options
asked = record defaults { num = 3; denom = 7; expired = true }

asked-InRange : InRange asked
asked-InRange = ground arith

-- A value that does not parse is taken all the same, here the next option's name.
swallowed_test :
    main (ascii "--num" ∷ ascii "--expired" ∷ ascii "--nonce" ∷ ascii "+5" ∷ ascii "--denom" ∷ [])
    ≡ single_or_bench (record defaults { nonce = 5 })
unfolding main parse_args parse_last arm_of parse_or
swallowed_test = refl

parse_args-args_of_example : parse_args (args_of asked) defaults ≡ some asked
parse_args-args_of_example = parse_args-args_of asked asked-InRange (λ e. refl)

abbrev large : Options
large = record defaults { denom = 50; iterations = 7 }

large_parsed :
    parse_args
      (ascii "--denom" ∷ ascii "4294967296" ∷ ascii "--iterations" ∷ ascii "7" ∷ [])
      defaults
    ≡ some large
unfolding parse_args parse_last arm_of parse_or
large_parsed = refl
