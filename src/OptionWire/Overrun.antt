-- ===== src/OptionWire/Overrun.antt =====
-- parse_OptionsFromRaw reads the extensions of an option's delta and length without a check, up to
-- four bytes past its input. What it finds there has no influence.
use lobaro_coap.Common.{
  ℕ, zero, suc, ◌+◌, ◌-◌, ◌*◌, ◌^◌, bit_or, ◌/◌, ◌%◌, ◌≤◌, ◌<◌, ◌≡◌, ◌∙◌, refl, sym, ap, true,
  false, List, [], ◌∷◌, Option, none, some, ltb, arith, inl, inr, Bool-cases, Option-cases, ◌==◌,
  ◌⊎◌, if◌then◌else◌,
}
use lobaro_coap.Platform.{ok, Platform, Mem}
use lobaro_coap.OptionList.{CoapOption, append_option_to_list}
use lobaro_coap.OptionWire.{
  u16, Memory, read, extended_field, bad, payload, check_length, parse_length, parse_fields,
  parse_round, is_ok, parse_loop, parse_options_from_raw,
}
use lobaro_coap.OptionWire.Termination.{Round-cases, extended_field-offset, parse_round-option}

-- The memories hold the same bytes in the first `n` places.
abbrev pub AgreeBelow : ℕ → Memory → Memory → Type 0
AgreeBelow n src src' = (i : ℕ) → i < n → src i ≡ src' i

check_length_past :
    (src_length delta len offset : ℕ)
    → src_length < offset
    → check_length src_length delta (len, offset) ≡ bad
unfolding check_length
check_length_past src_length delta len offset h = ground arith

-- Past the end of the input an option is refused, whatever its length field says.
parse_length_past :
    (src : Memory) (src_length field delta offset : ℕ)
    → src_length < offset
    → offset + 2 < 65536
    → parse_length src src_length field (delta, offset) ≡ bad
unfolding parse_length
parse_length_past src src_length field delta offset past h =
    elim (Option-cases (extended_field src offset field)) [
      | inl missing ↦ rw (missing, parse_length)
      | inr ((v, next), found) ↦
          rw (found, parse_length)
            (check_length_past src_length delta v next
              (omega (arith, extended_field-offset src offset field v next h found)))
    ]

-- A field is read alike from both memories, or ends past the input.
abbrev FieldsAgree : ℕ → Option (ℕ × ℕ) → Option (ℕ × ℕ) → Type 0
FieldsAgree src_length f f' =
    (f ≡ f')
    ⊎ ((v : ℕ) × (v' : ℕ) × (next : ℕ) × (src_length < next)
        × (f ≡ some (v, next))
        × (f' ≡ some (v', next)))

extended_field_agree :
    (src src' : Memory) (src_length offset field : ℕ)
    → AgreeBelow src_length src src'
    → offset + 2 < 65536
    → FieldsAgree src_length (extended_field src offset field) (extended_field src' offset field)
unfolding extended_field
extended_field_agree src src' src_length offset field agree h =
    elim (Bool-cases (ltb (offset + 1) src_length)) [
      | inl inside ↦ inl (
          rw (agree offset (ground (arith, inside)), agree (offset + 1) (ground (arith, inside)))
            refl)
      | inr outside ↦ elim (Bool-cases (field == 14)) [
        | inl long ↦ inr (
          u16 (bit_or (src offset * 2 ^ 8) (src (offset + 1)) + 269),
          u16 (bit_or (src' offset * 2 ^ 8) (src' (offset + 1)) + 269),
          offset + 2,
          ground (arith, outside),
          ground (arith, long),
          ground (arith, long),
        )
        | inr no_long ↦ elim (Bool-cases (ltb offset src_length)) [
          | inl within ↦ inl (ground (arith, no_long, agree offset))
          | inr past ↦ elim (Bool-cases (field == 13)) [
            | inl short ↦ inr (
              src offset + 13,
              src' offset + 13,
              offset + 1,
              ground (arith, past),
              ground (arith, short),
              ground (arith, short),
            )
            | inr no_short ↦ inl (ground (arith, no_short, no_long))
          ]
        ]
      ]
    ]

parse_length_agree :
    (src src' : Memory) (src_length field delta offset : ℕ)
    → AgreeBelow src_length src src'
    → offset + 2 < 65536
    → parse_length src src_length field (delta, offset)
      ≡ parse_length src' src_length field (delta, offset)
unfolding parse_length
parse_length_agree src src' src_length field delta offset agree h =
    elim (extended_field_agree src src' src_length offset field agree h) [
      | inl same ↦ ap (λ f. elim f [ none ↦ bad | some g ↦ check_length src_length delta g ]) same
      | inr (v, v', next, past, e, e') ↦
          rw (e, e', parse_length)
            (check_length_past src_length delta v next past
              ∙ sym (check_length_past src_length delta v' next past))
    ]

parse_fields_agree :
    (src src' : Memory) (src_length byte offset : ℕ)
    → AgreeBelow src_length src src'
    → offset < src_length
    → src_length ≤ 65531
    → parse_fields src src_length byte offset ≡ parse_fields src' src_length byte offset
unfolding parse_fields
parse_fields_agree src src' src_length byte offset agree inside small =
    elim (extended_field_agree src src' src_length (u16 (offset + 1)) (byte / 16) agree
      (omega arith)) [
        | inl same ↦ elim (Option-cases (extended_field src' (u16 (offset + 1)) (byte / 16))) [
          | inl missing ↦ rw (same, missing, parse_fields)
          | inr ((v, next), found) ↦
              rw (same, found, parse_fields)
                (parse_length_agree src src' src_length (byte % 16) v next agree (
                  omega (
                    arith,
                    extended_field-offset src' (u16 (offset + 1)) (byte / 16) v next (omega arith)
                        found,
                  )))
        ]
        | inr (v, v', next, past, e, e') ↦
            let bound =
              extended_field-offset src (u16 (offset + 1)) (byte / 16) v next (omega arith) e in
            rw (e, e', parse_fields)
              (parse_length_past src src_length (byte % 16) v next past (omega (arith, bound))
                ∙ sym (
                    parse_length_past src' src_length (byte % 16) v' next past
                      (omega (arith, bound))))
      ]

-- Within the input, a round goes alike on both memories.
pub parse_round_agree :
    (src src' : Memory) (src_length offset : ℕ)
    → AgreeBelow src_length src src'
    → offset < src_length
    → src_length ≤ 65531
    → parse_round src src_length offset ≡ parse_round src' src_length offset
unfolding parse_round
parse_round_agree src src' src_length offset agree inside small = rw (agree offset inside) (
    ap
      (λ r.
        if src' offset == 0xff
        then (if ltb (src_length - offset) 2 then bad else payload (offset + 1))
        else r)
      (parse_fields_agree src src' src_length (src' offset) offset agree inside small))

pub read_agree :
    (src src' : Memory) (src_length at len : ℕ)
    → AgreeBelow src_length src src'
    → at + len ≤ src_length
    → read src at len ≡ read src' at len
read_agree src src' src_length at zero agree h = refl
read_agree src src' src_length at (suc len) agree h =
    rw (agree at (omega arith), read_agree src src' src_length (at + 1) len agree (omega arith))

parse_loop_agree :
    (fuel offset last : ℕ) (opts : List CoapOption) (m : Mem) (p : Platform) (src src' : Memory)
    (src_length : ℕ)
    → AgreeBelow src_length src src'
    → src_length ≤ 65531
    → parse_loop p src src_length fuel offset last opts m
      ≡ parse_loop p src' src_length fuel offset last opts m
unfolding parse_loop
parse_loop_agree zero offset last opts m p src src' src_length agree small = refl
parse_loop_agree (suc fuel) offset last opts m p src src' src_length agree small =
    elim (Bool-cases (ltb offset src_length)) [
      | inr outside ↦ rw (outside, parse_loop)
      | inl within ↦
          let inside : offset < src_length = ground (arith, within) in
          let same = parse_round_agree src src' src_length offset agree inside small in
          elim (Round-cases (parse_round src' src_length offset)) [
            | inl is_bad ↦ rw (within, same, is_bad, parse_loop)
            | inr (inl (at, is_payload)) ↦ rw (within, same, is_payload, parse_loop)
            | inr (inr (delta, at, len, is_option)) ↦
                let bytes =
                  read_agree src src' src_length at len agree
                    (parse_round-option src' src_length offset delta at len inside small
                      is_option).2 in
                let append =
                  λ (values : List ℕ). append_option_to_list p opts (u16 (delta + last)) values m in
                elim (Bool-cases (is_ok (append (read src at len)).0)) [
                  | inl granted ↦
                      let granted' : is_ok (append (read src' at len)).0 ≡ true =
                        rw bytes at granted in
                      rw (within, same, is_option, granted, granted', parse_loop)
                        (rw bytes (parse_loop_agree fuel _ _ _ _ p src src' src_length agree small))
                  | inr refused ↦
                      let refused' : is_ok (append (read src' at len)).0 ≡ false =
                        rw bytes at refused in
                      rw (within, same, is_option, refused, refused', parse_loop) (rw bytes)
                ]
          ]
    ]

-- On inputs of at most 65531 bytes, parse_OptionsFromRaw gives the same result, options and
-- payload position for any two memories with the same input: what lies behind it has no influence.
pub parse_options_from_raw_agree :
    (p : Platform) (src src' : Memory) (src_length : ℕ) (opts : List CoapOption) (m : Mem)
    → AgreeBelow src_length src src'
    → src_length ≤ 65531
    → parse_options_from_raw p src src_length opts m
      ≡ parse_options_from_raw p src' src_length opts m
unfolding parse_options_from_raw
parse_options_from_raw_agree p src src' src_length (o ∷ os) m agree small = refl
parse_options_from_raw_agree p src src' src_length [] m agree small =
    ap (if◌then◌else◌ (src_length == 0) (some (ok, none, [], m)))
      (parse_loop_agree (src_length + 1) 0 0 [] m p src src' src_length agree small)
