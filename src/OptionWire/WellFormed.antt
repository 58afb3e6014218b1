-- ===== src/OptionWire/WellFormed.antt =====
-- What parse_OptionsFromRaw leaves behind on any input: the options are well formed, and every
-- block that it allocated is a node of the list.
use lobaro_coap.Common.{
  ℕ, zero, suc, ◌+◌, ◌/◌, ◌%◌, ◌≤◌, ◌<◌, ◌≡◌, ◌⊎◌, refl, ap, true, false, List, [], ◌∷◌, Option,
  none, some, ltb, leb, arith, inl, inr, length, All, Bool-cases, Option-cases, ◌==◌,
}
use lobaro_coap.Platform.{ok, parse_message_format_error, err_out_of_memory, Platform, Mem}
use lobaro_coap.OptionList.{CoapOption, new_option, append_option_to_list}
use lobaro_coap.OptionList.Order.{
  AscendsFrom, kept, insert_option, insert_option-AscendsFrom, append_option_to_list-insert_option,
  append_option_to_list-kept,
}
use lobaro_coap.OptionList.Allocation.{length-insert_option}
use lobaro_coap.OptionWire.{
  u16, Memory, read, extended_field, option, check_length, parse_length, parse_fields, parse_round,
  Parsed, is_ok, parse_loop, parse_options_from_raw,
}
use mathlib.Core.Path.{subst}
use mathlib.Core.Option.{some-injective}
use lobaro_coap.OptionWire.Termination.{Round-cases}

pub length-read : (src : Memory) (at n : ℕ) → length (read src at n) ≡ n
length-read src at zero = refl
length-read src at (suc n) = ap suc (length-read src (at + 1) n)

-- A value that a round takes is at most 1034 bytes long.
parse_length_bound :
    (src : Memory) (src_length field delta offset d at l : ℕ)
    → parse_length src src_length field (delta, offset) ≡ option d at l
    → l ≤ 1034
unfolding parse_length check_length
parse_length_bound src src_length field delta offset d at l e =
    elim (Option-cases (extended_field src offset field)) [
      | inl missing ↦ absurd (ground (arith, missing))
      | inr ((v, next), found) ↦ ground (arith, found)
    ]

parse_round_bound :
    (src : Memory) (src_length offset d at l : ℕ)
    → parse_round src src_length offset ≡ option d at l
    → l ≤ 1034
unfolding parse_round parse_fields
parse_round_bound src src_length offset d at l e =
    elim (Option-cases (extended_field src (u16 (offset + 1)) (src offset / 16))) [
      | inl missing ↦ absurd (ground (arith, missing))
      | inr ((v, next), found) ↦
          ground (arith, found, parse_length_bound src src_length (src offset % 16) v next d at l)
    ]

-- The rule for the loop: an invariant `P` of the list and the allocator that every append keeps,
-- and that gives the postcondition `Q` wherever the loop ends.
module _ {ℓ κ} (P : List CoapOption → Mem → Type ℓ) (Q : Parsed → Type κ) (p : Platform)
    (keep : (opts : List CoapOption) (m : Mem) (number : ℕ) (value : List ℕ)
      → number < 65536
      → length value ≤ 1034
      → P opts m
      → let (r, opts', m') = append_option_to_list p opts number value m in
        (is_ok r ≡ true → P opts' m') × (is_ok r ≡ false → Q (r, none, opts', m')))
    (reject : (opts : List CoapOption) (m : Mem)
      → P opts m
      → Q (parse_message_format_error, none, opts, m))
    (accept : (at : Option ℕ) (opts : List CoapOption) (m : Mem)
      → P opts m
      → Q (ok, at, opts, m)) where
  parse_loop_inv :
      (fuel offset last : ℕ) (opts : List CoapOption) (m : Mem) (src : Memory) (src_length : ℕ)
      (out : Parsed)
      → P opts m
      → parse_loop p src src_length fuel offset last opts m ≡ some out
      → Q out
  unfolding parse_loop
  parse_loop_inv zero offset last opts m src src_length out h e = cc
  parse_loop_inv (suc fuel) offset last opts m src src_length out h e =
      elim (Bool-cases (ltb offset src_length)) [
        | inr outside ↦
            subst Q (some-injective _ out (rw (outside, parse_loop) at e)) (accept none opts m h)
        | inl within ↦ elim (Round-cases (parse_round src src_length offset)) [
          | inl is_bad ↦
              subst Q (some-injective _ out (rw (within, is_bad, parse_loop) at e))
                (reject opts m h)
          | inr (inl (at, is_payload)) ↦
              subst Q (some-injective _ out (rw (within, is_payload, parse_loop) at e))
                (accept (some at) opts m h)
          | inr (inr (delta, at, len, is_option)) ↦
              let number = u16 (delta + last) in
              let value = read src at len in
              let step =
                keep opts m number value (omega arith)
                  (omega (
                    arith,
                    length-read src at len,
                    parse_round_bound src src_length offset delta at len is_option,
                  ))
                  h in
              elim (Bool-cases (is_ok (append_option_to_list p opts number value m).0)) [
                | inl granted ↦
                    parse_loop_inv fuel _ _ _ _ src src_length out (step.0 granted)
                      (rw (within, is_option, granted, parse_loop) at e)
                | inr refused ↦
                    subst Q
                      (some-injective _ out (rw (within, is_option, refused, parse_loop) at e))
                      (step.1 refused)
              ]
        ]
      ]

-- The invariant of the loop, from `base` blocks before it: each node of the list is one block, the
-- list ascends, and each option fits the wire format.
abbrev pub Accounted : ℕ → List CoapOption → Mem → Type 0
Accounted base opts m =
    (m.live ≡ base + length opts)
    × AscendsFrom 0 opts
    × All (λ o. (o.number < 65536) × (length o.value ≤ 1034)) opts

-- What holds where it ends: the same, unless an option number wrapped around when memory ran out
-- and CoAP_AppendOptionToList lost the list.
abbrev pub AccountedOrLost : ℕ → Parsed → Type 0
AccountedOrLost base (r, at, opts, m) =
    Accounted base opts m ⊎ ((r ≡ err_out_of_memory) × (opts ≡ []) × (base ≤ m.live))

All-insert_option {κ} :
    (P : CoapOption → Type κ) (o : CoapOption) (xs : List CoapOption)
    → P o
    → All P xs
    → All P (insert_option o xs)
unfolding insert_option
All-insert_option P o [] h a = (h, tt)
All-insert_option P o (x ∷ xs) h a = elim (Bool-cases (leb x.number o.number)) [
  | inl le ↦ rw le (a.0, All-insert_option P o xs h a.1)
  | inr gt ↦ rw gt (h, a)
]

kept_cases :
    (number : ℕ) (opts : List CoapOption) → (kept number opts ≡ opts) ⊎ (kept number opts ≡ [])
unfolding kept
kept_cases number [] = inl refl
kept_cases number (o ∷ os) = ground arith

append-Accounted :
    (p : Platform) (base : ℕ) (opts : List CoapOption) (m : Mem) (number : ℕ) (value : List ℕ)
    → number < 65536
    → length value ≤ 1034
    → Accounted base opts m
    → let (r, opts', m') = append_option_to_list p opts number value m in
      (is_ok r ≡ true → Accounted base opts' m')
      × (is_ok r ≡ false → AccountedOrLost base (r, none, opts', m'))
append-Accounted p base opts m number value small short (live, asc, wire) =
    elim (Bool-cases (p.grants m.mallocs (p.sizeof_option + length value))) [
      | inl g ↦ rw (append_option_to_list-insert_option p opts number value m g) (
        λ _. (
          omega (arith, live, length-insert_option (new_option number value) opts),
          insert_option-AscendsFrom 0 (new_option number value) opts (omega arith) asc,
          All-insert_option _ (new_option number value) opts (small, short) wire,
        ),
        λ no. cc no,
      )
      | inr g ↦ rw (append_option_to_list-kept p opts number value m g) (
        λ no. cc no,
        λ _. elim (kept_cases number opts) [
          | inl all ↦ inl (rw all (live, asc, wire))
          | inr lost ↦ inr (refl, lost, omega (arith, live))
        ],
      )
    ]

-- On any input, where parse_OptionsFromRaw ends: the options ascend by number, the numbers fit 16
-- bits, no value is longer than 1034 bytes, and each block that was allocated is a node of the
-- list. The one exception is a list that was lost when memory ran out.
pub parse_options_from_raw-Accounted :
    (p : Platform) (src : Memory) (src_length : ℕ) (m : Mem) (out : Parsed)
    → parse_options_from_raw p src src_length [] m ≡ some out
    → AccountedOrLost m.live out
unfolding parse_options_from_raw
parse_options_from_raw-Accounted p src src_length m out e = elim (Bool-cases (src_length == 0)) [
  | inl empty ↦ subst (AccountedOrLost m.live) (some-injective _ out (rw empty at e)) (inl start)
  | inr bytes ↦
      parse_loop_inv (Accounted m.live) (AccountedOrLost m.live) p (append-Accounted p m.live)
        (λ opts m' h. inl h) (λ at opts m' h. inl h) (src_length + 1) 0 0 [] m src src_length out
        start (rw bytes at e)
]
  where
    start : Accounted m.live [] m
    start = (omega arith, tt, tt)
