-- ===== src/OptionWire/Termination.antt =====
-- The loop of parse_OptionsFromRaw ends.
use lobaro_coap.Common.{
  ℕ, zero, suc, ◌+◌, ◌/◌, ◌%◌, ◌≤◌, ◌<◌, ◌≡◌, ◌∙◌, refl, List, [], ◌∷◌, Option, none, some, ltb,
  arith, inl, inr, Bool-cases, Option-cases, ◌==◌, ◌⊎◌,
}
use lobaro_coap.Platform.{ok, parse_message_format_error, Platform, Mem}
use lobaro_coap.OptionList.{CoapOption, append_option_to_list}
use lobaro_coap.OptionWire.{
  u16, Memory, read, extended_field, Round, bad, payload, option, check_length, parse_length,
  parse_fields, parse_round, Parsed, is_ok, parse_loop, parse_options_from_raw,
}

pub Round-cases :
    (r : Round)
    → (r ≡ bad)
      ⊎ (((at : ℕ) × (r ≡ payload at))
          ⊎ ((delta : ℕ) × (at : ℕ) × (len : ℕ) × (r ≡ option delta at len)))
Round-cases bad = inl refl
Round-cases (payload at) = inr (inl (at, refl))
Round-cases (option delta at len) = inr (inr (delta, at, len, refl))

-- A field takes two more bytes at most.
pub extended_field-offset :
    (src : Memory) (offset field v next : ℕ)
    → offset + 2 < 65536
    → extended_field src offset field ≡ some (v, next)
    → (offset ≤ next) × (next ≤ offset + 2)
unfolding extended_field
extended_field-offset src offset field v next h e = ground arith

check_length-option :
    (src_length delta len offset d at l : ℕ)
    → check_length src_length delta (len, offset) ≡ option d at l
    → (at ≡ offset) × (l ≡ len) × (d ≡ delta) × (len ≤ 1034) × (offset + len ≤ src_length)
unfolding check_length
check_length-option src_length delta len offset d at l e = ground arith

parse_length-option :
    (src : Memory) (src_length field delta offset d at l : ℕ)
    → offset + 2 < 65536
    → parse_length src src_length field (delta, offset) ≡ option d at l
    → (offset ≤ at) × (d ≡ delta) × (l ≤ 1034) × (at + l ≤ src_length)
unfolding parse_length
parse_length-option src src_length field delta offset d at l h e =
    elim (Option-cases (extended_field src offset field)) [
      | inl missing ↦ absurd (ground (arith, missing))
      | inr ((v, next), found) ↦ ground (
        arith,
        extended_field-offset src offset field v next h found,
        check_length-option src_length delta v next d at l,
      )
    ]

-- Where a round takes an option, its value lies behind the current offset and within the input.
pub parse_round-option :
    (src : Memory) (src_length offset d at l : ℕ)
    → offset < src_length
    → src_length ≤ 65531
    → parse_round src src_length offset ≡ option d at l
    → (offset < at) × (l ≤ 1034) × (at + l ≤ src_length)
unfolding parse_round parse_fields
parse_round-option src src_length offset d at l inside small e =
    elim (Option-cases (extended_field src (u16 (offset + 1)) (src offset / 16))) [
      | inl missing ↦ absurd (ground (arith, missing))
      | inr ((v, next), found) ↦ ground (
        arith,
        extended_field-offset src (u16 (offset + 1)) (src offset / 16) v next (omega arith) found,
        parse_length-option src src_length (src offset % 16) v next d at l,
      )
    ]

-- The next round of the loop, which a round that takes an option leads to.
abbrev next_loop : Platform → Memory → ℕ → ℕ → List CoapOption → Mem → ℕ → ℕ → ℕ → ℕ → Option Parsed
next_loop p src src_length last opts m fuel delta at len =
    let (r, opts', m') = append_option_to_list p opts (u16 (delta + last)) (read src at len) m in
    parse_loop p src src_length fuel (u16 (at + len)) (u16 (delta + last)) opts' m'

-- A round ends the loop, or takes an option and leads to the next round.
pub parse_loop_cases :
    (p : Platform) (src : Memory) (src_length fuel offset last : ℕ) (opts : List CoapOption)
    (m : Mem)
    → ((r : Parsed) × (parse_loop p src src_length (suc fuel) offset last opts m ≡ some r))
      ⊎ ((delta : ℕ) × (at : ℕ) × (len : ℕ) × (offset < src_length)
          × (parse_round src src_length offset ≡ option delta at len)
          × (parse_loop p src src_length (suc fuel) offset last opts m
              ≡ next_loop p src src_length last opts m fuel delta at len))
unfolding parse_loop
parse_loop_cases p src src_length fuel offset last opts m =
    elim (Bool-cases (ltb offset src_length)) [
      | inr outside ↦ inl ((ok, none, opts, m), rw (outside, parse_loop))
      | inl inside ↦ elim (Round-cases (parse_round src src_length offset)) [
        | inl is_bad ↦
            inl ((parse_message_format_error, none, opts, m), rw (inside, is_bad, parse_loop))
        | inr (inl (at, is_payload)) ↦
            inl ((ok, some at, opts, m), rw (inside, is_payload, parse_loop))
        | inr (inr (delta, at, len, is_option)) ↦
            elim (Bool-cases
              (is_ok (append_option_to_list p opts (u16 (delta + last)) (read src at len) m).0)) [
                | inl granted ↦ inr (
                  delta,
                  at,
                  len,
                  ground (arith, inside),
                  is_option,
                  rw (inside, is_option, granted, parse_loop),
                )
                | inr refused ↦
                    let (r, opts', m') =
                      append_option_to_list p opts (u16 (delta + last)) (read src at len) m in
                    inl ((r, none, opts', m'), rw (inside, is_option, refused, parse_loop))
              ]
      ]
    ]

parse_loop_ends :
    (fuel offset last : ℕ) (opts : List CoapOption) (m : Mem) (p : Platform) (src : Memory)
    (src_length : ℕ)
    → src_length ≤ 65531
    → offset ≤ src_length
    → src_length < offset + fuel
    → (r : Parsed) × (parse_loop p src src_length fuel offset last opts m ≡ some r)
parse_loop_ends zero offset last opts m p src src_length small inside enough = absurd (omega arith)
parse_loop_ends (suc fuel) offset last opts m p src src_length small inside enough =
    elim (parse_loop_cases p src src_length fuel offset last opts m) [
      | inl done ↦ done
      | inr (delta, at, len, within, round, step) ↦
          let b = parse_round-option src src_length offset delta at len within small round in
          let (r, e) =
            parse_loop_ends fuel (u16 (at + len)) (u16 (delta + last)) _ _ p src src_length small
              (omega (arith, b)) (omega (arith, b, enough, small)) in
          (r, step ∙ e)
    ]

-- On inputs of at most 65531 bytes the loop ends, whatever the memory holds and `malloc` answers.
-- A datagram's options are never longer, as its header takes four bytes.
pub parse_options_from_raw_ends :
    (p : Platform) (src : Memory) (src_length : ℕ) (opts : List CoapOption) (m : Mem)
    → src_length ≤ 65531
    → (r : Parsed) × (parse_options_from_raw p src src_length opts m ≡ some r)
unfolding parse_options_from_raw
parse_options_from_raw_ends p src src_length (o ∷ os) m small = (_, refl)
parse_options_from_raw_ends p src src_length [] m small = elim (Bool-cases (src_length == 0)) [
  | inl empty ↦ ((ok, none, [], m), rw empty)
  | inr some_bytes ↦
      rw some_bytes (
        parse_loop_ends (src_length + 1) 0 0 [] m p src src_length small (omega arith)
          (omega arith))
]
