-- ===== src/Examples/Wire.antt =====
-- The wire format of options.
use lobaro_coap.Common.{ℕ, zero, suc, ◌≡◌, refl, arith, List, [], ◌∷◌, ◌++◌, none, some, length}
use lobaro_coap.Platform.{ok, malloc}
use lobaro_coap.OptionList.{new_option, append_option_to_list, append_option_to_list_end}
use lobaro_coap.OptionWire.{
  option_nibble, extended_bytes, pack_option, pack_options, pack_options_from_list, Parsed,
  check_length, parse_length, parse_fields, parse_round, parse_loop, extended_field,
  parse_options_from_raw,
}
use lobaro_coap.OptionWire.RoundTrip.{
  marked, payload_at, granted_times, parse_options_from_raw-pack_options_from_list,
}
use lobaro_coap.OptionWire.Termination.{parse_options_from_raw_ends}
use lobaro_coap.OptionWire.Overrun.{AgreeBelow, parse_options_from_raw_agree}
use lobaro_coap.OptionWire.WellFormed.{AccountedOrLost, parse_options_from_raw-Accounted}
use lobaro_coap.Examples.{granting, refusing, fresh_mem, two_options, memory_of, Holds-memory_of}

-- An option with a long delta and a long value, and a payload.
abbrev sample : List ℕ
sample = 0xbd ∷ 0x02 ∷ 0xff ∷ []

packed :
    pack_options_from_list two_options ≡ (0xb2 ∷ b'a' ∷ b'b' ∷ 0x43 ∷ b'x' ∷ b'=' ∷ b'1' ∷ [], 7)
unfolding pack_options_from_list pack_options pack_option option_nibble extended_bytes
packed = refl

parse_options_from_raw-pack_options_from_list_example :
    parse_options_from_raw granting
      (memory_of ((pack_options_from_list two_options).0 ++ marked (7 ∷ 8 ∷ [])) 0)
      (length ((pack_options_from_list two_options).0 ++ marked (7 ∷ 8 ∷ [])))
      []
      fresh_mem
    ≡ some (
      ok,
      payload_at (length (pack_options_from_list two_options).0) (7 ∷ 8 ∷ []),
      two_options,
      granted_times 2 fresh_mem,
    )
unfolding pack_options_from_list pack_options pack_option option_nibble extended_bytes
parse_options_from_raw-pack_options_from_list_example =
    parse_options_from_raw-pack_options_from_list two_options (7 ∷ 8 ∷ []) granting
      (memory_of ((pack_options_from_list two_options).0 ++ marked (7 ∷ 8 ∷ [])) 0) fresh_mem
      (λ k n. refl) (omega arith, (omega arith, tt))
      ((omega arith, omega arith), ((omega arith, omega arith), tt))
      (Holds-memory_of ((pack_options_from_list two_options).0 ++ marked (7 ∷ 8 ∷ [])) 0)
      (omega arith)

parse_options_from_raw_ends_example :
    (r : Parsed) × (parse_options_from_raw refusing (memory_of sample 0) 3 [] fresh_mem ≡ some r)
parse_options_from_raw_ends_example =
    parse_options_from_raw_ends refusing (memory_of sample 0) 3 [] fresh_mem (omega arith)

-- The length of the option's extension lies behind the input.
parse_options_from_raw_agree_example :
    parse_options_from_raw granting (memory_of sample 0) 1 [] fresh_mem
    ≡ parse_options_from_raw granting (memory_of (0xbd ∷ []) 9) 1 [] fresh_mem
parse_options_from_raw_agree_example =
    parse_options_from_raw_agree granting (memory_of sample 0) (memory_of (0xbd ∷ []) 9) 1 []
      fresh_mem same (omega arith)
  where
    same : AgreeBelow 1 (memory_of sample 0) (memory_of (0xbd ∷ []) 9)
    same zero h = refl
    same (suc i) h = absurd (omega arith)

parse_options_from_raw-Accounted_example :
    AccountedOrLost 0 (ok, none, new_option 11 (b'a' ∷ []) ∷ [], granted_times 1 fresh_mem)
unfolding parse_options_from_raw parse_loop parse_round parse_fields parse_length check_length
    extended_field append_option_to_list append_option_to_list_end malloc
parse_options_from_raw-Accounted_example =
    parse_options_from_raw-Accounted granting (memory_of (0xb1 ∷ b'a' ∷ []) 0) 2 fresh_mem
      (ok, none, new_option 11 (b'a' ∷ []) ∷ [], granted_times 1 fresh_mem) refl
