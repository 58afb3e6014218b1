-- ===== src/Message/Truncated.antt =====
-- A datagram that ends within its token.
use lobaro_coap.Common.{
  ℕ, ◌+◌, ◌-◌, ◌%◌, ◌≤◌, ◌<◌, ◌≡◌, ◌∙◌, true, false, [], none, some, ltb, arith, ◌==◌,
}
use native.Mathlib.Nat.{add-zero}
use lobaro_coap.Platform.{ok, parse_message_format_error, parse_too_much_payload, Platform, Mem}
use lobaro_coap.OptionList.{free_option_list}
use lobaro_coap.OptionWire.{
  u16, Memory, extended_field, parse_round, parse_fields, parse_loop, parse_options_from_raw,
}
use lobaro_coap.OptionWire.Overrun.{AgreeBelow}
use lobaro_coap.Message.RoundTrip.Payload.{parse_body_options}
use lobaro_coap.Message.{
  check_header, header_msg, parse_payload, after_options, parse_body, parse_message_from_datagram,
}
use lobaro_coap.Message.Overread.{header_agree}

first_byte_ff :
    (p : Platform) (src : Memory) (src_length : ℕ) (m : Mem)
    → src 0 ≡ 0xff
    → 2 ≤ src_length
    → parse_options_from_raw p src src_length [] m ≡ some (ok, some 1, [], m)
unfolding parse_options_from_raw parse_loop parse_round
first_byte_ff p src src_length m b h = ground (arith, b, h)

first_byte_f0 :
    (p : Platform) (src : Memory) (src_length : ℕ) (m : Mem)
    → src 0 ≡ 0xf0
    → 2 ≤ src_length
    → parse_options_from_raw p src src_length [] m ≡ some (parse_message_format_error, none, [], m)
unfolding parse_options_from_raw parse_loop parse_round parse_fields extended_field
first_byte_f0 p src src_length m b h = ground (arith, b, h)

-- A datagram that is longer than its header and has a good one.
parse_message_body :
    (p : Platform) (now : ℕ) (src : Memory) (src_length : ℕ) (m : Mem)
    → check_header src src_length ≡ ok
    → 4 < src_length
    → parse_message_from_datagram p now src src_length m ≡ parse_body p now src src_length m
unfolding parse_message_from_datagram
parse_message_body p now src src_length m good long =
    let more : (src_length == 4) ≡ false = ground (arith, long) in rw (good, more)

-- A datagram with a good header that ends within its token: CoAP_ParseMessageFromDatagram takes
-- bytes behind it for options. Where two memories hold the same such datagram and the byte behind
-- the stated token is 0xff in the one and 0xf0 in the other, the parser answers the one with
-- COAP_PARSE_TOO_MUCH_PAYLOAD and the other with COAP_PARSE_MESSAGE_FORMAT_ERROR.
pub parse_message_from_datagram_overreads :
    (p : Platform) (now : ℕ) (src src' : Memory) (src_length : ℕ) (m : Mem)
    → AgreeBelow src_length src src'
    → check_header src src_length ≡ ok
    → 4 < src_length
    → src_length < 4 + src 0 % 16
    → src (4 + src 0 % 16) ≡ 0xff
    → src' (4 + src 0 % 16) ≡ 0xf0
    → (parse_message_from_datagram p now src src_length m ≡ some (parse_too_much_payload, none, m))
      × (parse_message_from_datagram p now src' src_length m
          ≡ some (parse_message_format_error, none, m))
unfolding after_options parse_payload header_msg free_option_list
parse_message_from_datagram_overreads p now src src' src_length m agree good long cut marker
      broken =
    let t = src 0 % 16 in
    let more : (src_length == 4 + t) ≡ false = ground (arith, cut) in
    let first : src 0 ≡ src' 0 = agree 0 (omega (arith, long)) in
    let good' = rw (header_agree src src' src_length agree (omega (arith, long))).0 at good in
    let much : ltb 1024 (u16 (src_length + 131072 - (4 + t + 1))) ≡ true =
      ground (arith, long, cut) in
    (
      parse_message_body p now src src_length m good long
          ∙ parse_body_options p now src src_length m _ more (
              first_byte_ff p (λ i. src (4 + t + i)) (u16 (src_length + 65536 - (4 + t))) m
                (rw add-zero marker) (omega (arith, long, cut)))
          ∙ rw much,
      parse_message_body p now src' src_length m good' long
          ∙ parse_body_options p now src' src_length m _ (rw first at more) (
              rw first at (
                first_byte_f0 p (λ i. src' (4 + t + i)) (u16 (src_length + 65536 - (4 + t))) m
                  (rw add-zero broken) (omega (arith, long, cut)))),
    )
