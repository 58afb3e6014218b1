-- ===== src/Message/Overread.antt =====
-- Which bytes CoAP_ParseMessageFromDatagram depends on: the datagram's, unless its token is
-- truncated.
use lobaro_coap.Common.{
  ℕ, ◌+◌, ◌-◌, ◌%◌, ◌≤◌, ◌<◌, ◌≡◌, ◌∙◌, refl, sym, ap, true, false, [], none, some, ltb, arith, ◌⊎◌,
  inl, inr, Bool-cases, ◌==◌,
}
use mathlib.Core.Path.{subst}
use lobaro_coap.Platform.{Platform, Mem}
use lobaro_coap.OptionWire.{u16, Memory, is_ok, Parsed, parse_options_from_raw}
use lobaro_coap.OptionWire.Termination.{parse_options_from_raw_ends}
use lobaro_coap.OptionWire.Overrun.{AgreeBelow, read_agree, parse_options_from_raw_agree}
use lobaro_coap.Message.RoundTrip.Payload.{parse_body_options}
use lobaro_coap.Message.{
  Message, ParsedMessage, check_header, header_msg, read_token, copy_msg, parse_payload,
  after_options, parse_body, parse_message_from_datagram,
}
use lobaro_coap.OptionWire.PayloadInside.{PayloadInside, parse_options_from_raw-payload}

read_token_agree :
    (src src' : Memory) (n : ℕ)
    → AgreeBelow n src src'
    → 4 + src 0 % 16 ≤ n
    → read_token src ≡ read_token src'
unfolding read_token
read_token_agree src src' n agree h =
    rw (read_agree src src' n 4 (src 0 % 16) agree h, agree 0 (omega (arith, h)))

pub header_agree :
    (src src' : Memory) (n : ℕ)
    → AgreeBelow n src src'
    → 4 ≤ n
    → (check_header src n ≡ check_header src' n) × (header_msg src ≡ header_msg src')
unfolding check_header header_msg
header_agree src src' n agree h =
    rw
      (
        agree 0 (omega (arith, h)),
        agree 1 (omega (arith, h)),
        agree 2 (omega (arith, h)),
        agree 3 (omega (arith, h)),
      )
      (refl, refl)

after_options_agree :
    (parsed : Parsed) (p : Platform) (now : ℕ) (src src' : Memory) (src_length offset : ℕ)
    (msg : Message)
    → AgreeBelow src_length src src'
    → offset ≤ src_length
    → src_length < 65536
    → PayloadInside (src_length - offset) parsed
    → msg.payload_length ≡ 0
    → after_options p now src src_length offset msg parsed
      ≡ after_options p now src' src_length offset msg parsed
unfolding after_options parse_payload copy_msg
after_options_agree (r, none, opts, m) p now src src' src_length offset msg agree h small inside e =
    rw e
after_options_agree (r, some at, opts, m) p now src src' src_length offset msg agree h small inside
      e =
    rw (
      read_agree src src' src_length (offset + at) (u16 (src_length + 131072 - (offset + at))) agree
        (omega (arith, h, small, inside)))

header_msg-empty : (src : Memory) → (header_msg src).payload_length ≡ 0
unfolding header_msg
header_msg-empty src = refl

copy_msg-empty :
    (p : Platform) (now : ℕ) (src src' : Memory) (msg : Message) (m : Mem)
    → msg.payload_length ≡ 0
    → copy_msg p now src 0 msg m ≡ copy_msg p now src' 0 msg m
unfolding copy_msg
copy_msg-empty p now src src' msg m e = rw e

-- The options of a datagram whose token is there, in both memories.
parse_body_options_agree :
    (p : Platform) (now : ℕ) (src src' : Memory) (src_length : ℕ) (m : Mem) (parsed : Parsed)
    → AgreeBelow src_length src src'
    → 4 + src 0 % 16 ≤ src_length
    → src_length < 65536
    → (src_length == 4 + src 0 % 16) ≡ false
    → parse_options_from_raw p
        (λ i. src (4 + src 0 % 16 + i))
        (u16 (src_length + 65536 - (4 + src 0 % 16)))
        []
        m
      ≡ some parsed
    → parse_body p now src src_length m ≡ parse_body p now src' src_length m
parse_body_options_agree p now src src' src_length m parsed agree there small more found =
    let t = src 0 % 16 in
    let size : u16 (src_length + 65536 - (4 + t)) ≡ src_length - (4 + t) =
      omega (arith, there, small) in
    let first = agree 0 (omega (arith, there)) in
    let found' : parse_options_from_raw p (λ i. src' (4 + t + i))
          (u16 (src_length + 65536 - (4 + t))) [] m
        ≡ some parsed =
      sym (
        parse_options_from_raw_agree p (λ i. src (4 + t + i)) (λ i. src' (4 + t + i))
          (u16 (src_length + 65536 - (4 + t))) [] m
          (λ i h. agree (4 + t + i) (omega (arith, h, there, small))) (omega (arith, there, small)))
      ∙ found in
    let inside : PayloadInside (src_length - (4 + t)) parsed =
      subst (λ n. PayloadInside n parsed) size
        (parse_options_from_raw-payload p (λ i. src (4 + t + i))
          (u16 (src_length + 65536 - (4 + t))) m parsed found) in
    parse_body_options p now src src_length m parsed more found
    ∙ ap some (
        after_options_agree parsed p now src src' src_length (4 + t)
          (record (header_msg src) { token = read_token src }) agree there small inside
          (header_msg-empty src)
        ∙ rw (
          first,
          (header_agree src src' src_length agree (omega (arith, there))).1,
          read_token_agree src src' src_length agree there,
        ))
    ∙ sym
        (parse_body_options p now src' src_length m parsed (rw first at more) (rw first at found'))

parse_body_agree :
    (p : Platform) (now : ℕ) (src src' : Memory) (src_length : ℕ) (m : Mem)
    → AgreeBelow src_length src src'
    → 4 + src 0 % 16 ≤ src_length
    → src_length < 65536
    → parse_body p now src src_length m ≡ parse_body p now src' src_length m
unfolding parse_body
parse_body_agree p now src src' src_length m agree there small =
    elim (Bool-cases (src_length == 4 + src 0 % 16)) [
      | inl short ↦
          let short' : (src_length == 4 + src' 0 % 16) ≡ true =
            rw (agree 0 (omega (arith, there))) at short in
          rw
            (
              short,
              short',
              (header_agree src src' src_length agree (omega (arith, there))).1,
              read_token_agree src src' src_length agree there,
            )
            (ap some (copy_msg-empty p now src src' _ m (header_msg-empty src')))
      | inr more ↦
          let (parsed, found) =
            parse_options_from_raw_ends p (λ i. src (4 + src 0 % 16 + i))
              (u16 (src_length + 65536 - (4 + src 0 % 16))) [] m (omega (arith, there, small)) in
          parse_body_options_agree p now src src' src_length m parsed agree there small more found
    ]

-- A datagram that is as long as its token says: its header alone, or with the whole token.
abbrev pub TokenIsThere : Memory → ℕ → Type 0
TokenIsThere src src_length = (src_length ≡ 4) ⊎ (4 + src 0 % 16 ≤ src_length)

-- For every datagram whose token is not truncated, CoAP_ParseMessageFromDatagram depends on the
-- bytes of the datagram alone: for two memories that hold the same datagram, the result, the
-- message and the allocator are the same.
pub parse_message_from_datagram_agree :
    (p : Platform) (now : ℕ) (src src' : Memory) (src_length : ℕ) (m : Mem)
    → AgreeBelow src_length src src'
    → src_length < 65536
    → TokenIsThere src src_length
    → parse_message_from_datagram p now src src_length m
      ≡ parse_message_from_datagram p now src' src_length m
unfolding parse_message_from_datagram
parse_message_from_datagram_agree p now src src' src_length m agree small there =
    elim (Bool-cases (ltb src_length 4)) [
      | inl short ↦ unfold check_header in rw short
      | inr long ↦
          let (check, head) = header_agree src src' src_length agree (ground (arith, long)) in
          elim (Bool-cases (is_ok (check_header src' src_length))) [
            | inr refused ↦ rw (check, refused)
            | inl good ↦ elim (Bool-cases (src_length == 4)) [
              | inl alone ↦
                  rw (check, good, alone, head)
                    (ap some (copy_msg-empty p now src src' _ m (header_msg-empty src')))
              | inr more ↦
                  rw (check, good, more)
                    (parse_body_agree p now src src' src_length m agree
                      (ground (arith, more, there)) small)
            ]
          ]
    ]

parse_body_ends :
    (p : Platform) (now : ℕ) (src : Memory) (src_length : ℕ) (m : Mem)
    → src_length < 65536
    → 4 + src 0 % 16 ≤ src_length
    → (out : ParsedMessage) × (parse_body p now src src_length m ≡ some out)
unfolding parse_body
parse_body_ends p now src src_length m small there =
    elim (Bool-cases (src_length == 4 + src 0 % 16)) [
      | inl short ↦
          (copy_msg p now src 0 (record (header_msg src) { token = read_token src }) m, rw short)
      | inr more ↦
          let (parsed, found) =
            parse_options_from_raw_ends p (λ i. src (4 + src 0 % 16 + i))
              (u16 (src_length + 65536 - (4 + src 0 % 16))) [] m (omega (arith, there, small)) in
          (_, parse_body_options p now src src_length m parsed more found)
    ]

-- For every datagram whose token is not truncated, CoAP_ParseMessageFromDatagram returns, whatever
-- the memory behind the datagram holds and `malloc` answers.
pub parse_message_from_datagram_ends :
    (p : Platform) (now : ℕ) (src : Memory) (src_length : ℕ) (m : Mem)
    → src_length < 65536
    → TokenIsThere src src_length
    → (out : ParsedMessage) × (parse_message_from_datagram p now src src_length m ≡ some out)
unfolding parse_message_from_datagram
parse_message_from_datagram_ends p now src src_length m small there =
    elim (Bool-cases (is_ok (check_header src src_length))) [
      | inr refused ↦ ((check_header src src_length, none, m), rw refused)
      | inl good ↦ elim (Bool-cases (src_length == 4)) [
        | inl alone ↦ (copy_msg p now src 0 (header_msg src) m, rw (good, alone))
        | inr more ↦
            rw (good, more)
              (parse_body_ends p now src src_length m small (ground (arith, more, there)))
      ]
    ]
