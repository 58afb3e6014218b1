-- ===== src/OptionWire/PayloadInside.antt =====
-- A payload that parse_OptionsFromRaw finds lies within its input.
use lobaro_coap.Common.{
  ℕ, zero, suc, ◌+◌, ◌/◌, ◌%◌, ◌<◌, ◌≡◌, ◌≢◌, List, [], none, some, ltb, arith, inl, inr,
  Bool-cases, Option-cases, ◌==◌,
}
use mathlib.Core.Path.{subst}
use mathlib.Core.Option.{some-injective}
use lobaro_coap.Platform.{Platform, Mem}
use lobaro_coap.OptionList.{CoapOption, append_option_to_list}
use lobaro_coap.OptionWire.{
  u16, Memory, read, is_ok, Parsed, extended_field, check_length, parse_length, parse_round,
  parse_fields, parse_loop, parse_options_from_raw, payload,
}
use lobaro_coap.OptionWire.Termination.{Round-cases}

-- A payload that the parser finds lies within its input.
abbrev pub PayloadInside : ℕ → Parsed → Type 0
PayloadInside n (r, none, opts, m) = Unit {0}
PayloadInside n (r, some at, opts, m) = at < n

parse_length-payload :
    (src : Memory) (src_length field delta offset at : ℕ)
    → parse_length src src_length field (delta, offset) ≢ payload at
unfolding parse_length check_length
parse_length-payload src src_length field delta offset at e =
    elim (Option-cases (extended_field src offset field)) [
      | inl missing ↦ absurd (ground (arith, missing))
      | inr ((v, next), found) ↦ ground (arith, found)
    ]

parse_fields-payload :
    (src : Memory) (src_length byte offset at : ℕ)
    → parse_fields src src_length byte offset ≢ payload at
unfolding parse_fields
parse_fields-payload src src_length byte offset at e =
    elim (Option-cases (extended_field src (u16 (offset + 1)) (byte / 16))) [
      | inl missing ↦ absurd (ground (arith, missing))
      | inr ((v, next), found) ↦
          ground (arith, found, parse_length-payload src src_length (byte % 16) v next at)
    ]

parse_round-payload :
    (src : Memory) (src_length offset at : ℕ)
    → parse_round src src_length offset ≡ payload at
    → at < src_length
unfolding parse_round
parse_round-payload src src_length offset at e =
    ground (arith, parse_fields-payload src src_length (src offset) offset at)

parse_loop-payload :
    (fuel offset last : ℕ) (opts : List CoapOption) (m : Mem) (p : Platform) (src : Memory)
    (src_length : ℕ) (out : Parsed)
    → parse_loop p src src_length fuel offset last opts m ≡ some out
    → PayloadInside src_length out
unfolding parse_loop
parse_loop-payload zero offset last opts m p src src_length out e = cc
parse_loop-payload (suc fuel) offset last opts m p src src_length out e =
    elim (Bool-cases (ltb offset src_length)) [
      | inr outside ↦
          subst (PayloadInside src_length) (some-injective _ out (rw (outside, parse_loop) at e)) tt
      | inl within ↦ elim (Round-cases (parse_round src src_length offset)) [
        | inl is_bad ↦
            subst (PayloadInside src_length)
              (some-injective _ out (rw (within, is_bad, parse_loop) at e)) tt
        | inr (inl (at, is_payload)) ↦
            subst (PayloadInside src_length)
              (some-injective _ out (rw (within, is_payload, parse_loop) at e))
              (parse_round-payload src src_length offset at is_payload)
        | inr (inr (delta, at, len, is_option)) ↦
            let number = u16 (delta + last) in
            elim (Bool-cases (is_ok (append_option_to_list p opts number (read src at len) m).0)) [
              | inl granted ↦
                  parse_loop-payload fuel _ _ _ _ p src src_length out
                    (rw (within, is_option, granted, parse_loop) at e)
              | inr refused ↦
                  subst (PayloadInside src_length)
                    (some-injective _ out (rw (within, is_option, refused, parse_loop) at e)) tt
            ]
      ]
    ]

pub parse_options_from_raw-payload :
    (p : Platform) (src : Memory) (src_length : ℕ) (m : Mem) (out : Parsed)
    → parse_options_from_raw p src src_length [] m ≡ some out
    → PayloadInside src_length out
unfolding parse_options_from_raw
parse_options_from_raw-payload p src src_length m out e = elim (Bool-cases (src_length == 0)) [
  | inl empty ↦ subst (PayloadInside src_length) (some-injective _ out (rw empty at e)) tt
  | inr bytes ↦ parse_loop-payload (src_length + 1) 0 0 [] m p src src_length out (rw bytes at e)
]
