-- ===== src/Message/Allocation.antt =====
-- What CoAP_ParseMessageFromDatagram leaves behind on any datagram: no block is lost, and a message
-- that it returns is well formed.
use lobaro_coap.Common.{
  ℕ, ◌+◌, ◌-◌, ◌%◌, ◌≤◌, ◌≡◌, refl, false, [], Option, none, some, ltb, arith, ◌⊎◌, inl, inr,
  length, Bool-cases, Option-cases, ◌==◌,
}
use mathlib.Core.Path.{subst}
use mathlib.Core.Option.{some-injective}
use lobaro_coap.Platform.{ok, err_out_of_memory, Platform, Mem, malloc, refused_mem}
use lobaro_coap.OptionList.Order.{AscendsFrom}
use lobaro_coap.OptionList.Allocation.{free_option_list-live}
use lobaro_coap.OptionWire.{u16, Memory, is_ok, Parsed, parse_options_from_raw}
use lobaro_coap.OptionWire.WellFormed.{
  AccountedOrLost, length-read, parse_options_from_raw-Accounted,
}
use lobaro_coap.Message.{
  Message, ParsedMessage, check_header, header_msg, copy_msg, parse_payload, after_options,
  parse_body, parse_message_from_datagram,
}

-- A message that stands in `m`, where `base` blocks were allocated before it.
abbrev pub Stands : ℕ → Message → Mem → Type 0
Stands base msg m =
    (m.live ≡ base + 1 + length msg.options)
    × AscendsFrom 0 msg.options
    × (length msg.payload ≡ msg.payload_length)
    × (msg.payload_length ≤ 1024)

-- How the parser ends: with a message, or with an error, no message and no block. Where memory ran
-- out, the blocks of a list that CoAP_AppendOptionToList lost may remain.
abbrev pub Settled : ℕ → ParsedMessage → Type 0
Settled base (r, found, m) =
    ((msg : Message) × (r ≡ ok) × (found ≡ some msg) × Stands base msg m)
    ⊎ ((is_ok r ≡ false)
        × (found ≡ none)
        × ((m.live ≡ base) ⊎ ((r ≡ err_out_of_memory) × (base ≤ m.live))))

copy_msg-Settled :
    (p : Platform) (now : ℕ) (src : Memory) (from : ℕ) (msg : Message) (m : Mem) (base : ℕ)
    → m.live ≡ base + length msg.options
    → AscendsFrom 0 msg.options
    → msg.payload_length ≤ 1024
    → Settled base (copy_msg p now src from msg m)
unfolding copy_msg malloc
copy_msg-Settled p now src from msg m base live asc fits =
    elim (Bool-cases (p.grants m.mallocs (p.sizeof_message + msg.payload_length))) [
      | inl g ↦ rw g (
          inl (
            _,
            refl,
            refl,
            (omega (arith, live), asc, length-read src from msg.payload_length, fits),
          ))
      | inr g ↦ rw g (
          inr (
            refl,
            refl,
            inl (omega (arith, live, (free_option_list-live msg.options (refused_mem m)).1)),
          ))
    ]

parse_payload-Settled :
    (at : Option ℕ) (p : Platform) (now : ℕ) (src : Memory) (src_length offset : ℕ) (msg : Message)
    (m : Mem) (base : ℕ)
    → m.live ≡ base + length msg.options
    → AscendsFrom 0 msg.options
    → msg.payload_length ≤ 1024
    → Settled base (parse_payload p now src src_length offset msg at m)
unfolding parse_payload
parse_payload-Settled none p now src src_length offset msg m base live asc fits =
    copy_msg-Settled p now src 0 msg m base live asc fits
parse_payload-Settled (some at) p now src src_length offset msg m base live asc fits =
    elim (Bool-cases (ltb 1024 (u16 (src_length + 131072 - (offset + at))))) [
      | inl much ↦
          rw much
            (inr (refl, refl, inl (omega (arith, live, (free_option_list-live msg.options m).1))))
      | inr few ↦
          rw few (copy_msg-Settled p now src (offset + at) _ m base live asc (ground (arith, few)))
    ]

after_options-Settled :
    (parsed : Parsed) (p : Platform) (now : ℕ) (src : Memory) (src_length offset : ℕ)
    (msg : Message) (base : ℕ)
    → msg.payload_length ≤ 1024
    → AccountedOrLost base parsed
    → Settled base (after_options p now src src_length offset msg parsed)
unfolding after_options
after_options-Settled (r, at, opts, m) p now src src_length offset msg base fits
      (inl (live, asc, wire)) =
    elim (Bool-cases (is_ok r)) [
      | inl good ↦ rw good (
          parse_payload-Settled at p now src src_length offset (record msg { options = opts }) m
            base live asc fits)
      | inr e ↦ rw e (inr (e, refl, inl (omega (arith, live, (free_option_list-live opts m).1))))
    ]
after_options-Settled (r, at, opts, m) p now src src_length offset msg base fits
      (inr (oom, lost, more)) =
    rw (oom, lost)
      (inr (refl, refl, inr (refl, omega (arith, more, (free_option_list-live [] m).1))))

parse_body-Settled :
    (p : Platform) (now : ℕ) (src : Memory) (src_length : ℕ) (m : Mem) (out : ParsedMessage)
    → parse_body p now src src_length m ≡ some out
    → Settled m.live out
unfolding parse_body header_msg
parse_body-Settled p now src src_length m out e = elim (Bool-cases (src_length == 4 + src 0 % 16)) [
  | inl short ↦
      subst (Settled m.live) (some-injective _ out (rw (short, parse_body) at e))
        (copy_msg-Settled p now src 0 _ m m.live (omega arith) tt (omega arith))
  | inr more ↦
      elim (Option-cases (
        parse_options_from_raw p (λ i. src (4 + src 0 % 16 + i))
          (u16 (src_length + 65536 - (4 + src 0 % 16))) [] m)) [
            | inl endless ↦ let no : none ≡ some out = rw (more, endless, parse_body) at e in cc no
            | inr (parsed, found) ↦
                subst (Settled m.live) (some-injective _ out (rw (more, found, parse_body) at e)) (
                  after_options-Settled parsed p now src src_length _ _ m.live (omega arith)
                    (parse_options_from_raw-Accounted p _ _ m parsed found))
          ]
]

-- On any datagram on which CoAP_ParseMessageFromDatagram ends: either it succeeds with a message
-- whose options ascend, whose payload has the stated length, at most 1024 bytes, and it has
-- allocated just the message and its options; or it fails with no message and no block more than
-- before. Only where memory ran out may blocks of a lost option list remain.
pub parse_message_from_datagram-Settled :
    (p : Platform) (now : ℕ) (src : Memory) (src_length : ℕ) (m : Mem) (out : ParsedMessage)
    → parse_message_from_datagram p now src src_length m ≡ some out
    → Settled m.live out
unfolding parse_message_from_datagram
parse_message_from_datagram-Settled p now src src_length m out e =
    elim (Bool-cases (is_ok (check_header src src_length))) [
      | inr refused ↦
          subst (Settled m.live)
            (some-injective _ out (rw (refused, parse_message_from_datagram) at e))
            (inr (refused, refl, inl refl))
      | inl good ↦ elim (Bool-cases (src_length == 4)) [
        | inl alone ↦
            subst (Settled m.live)
              (some-injective _ out (rw (good, alone, parse_message_from_datagram) at e))
              (copy_msg-Settled p now src 0 (header_msg src) m m.live
                (unfold header_msg in omega arith) (unfold header_msg in tt)
                (unfold header_msg in omega arith))
        | inr more ↦
            parse_body-Settled p now src src_length m out
              (rw (good, more, parse_message_from_datagram) at e)
      ]
    ]
