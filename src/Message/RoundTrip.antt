-- ===== src/Message/RoundTrip.antt =====
-- What CoAP_BuildDatagram wrote, CoAP_ParseMessageFromDatagram reads back.
pub mod Header
pub mod Payload
use lobaro_coap.Common.{
  ℕ, zero, suc, ◌+◌, ◌-◌, ◌*◌, ◌%◌, ◌≤◌, ◌<◌, ◌≡◌, ◌≢◌, ◌∙◌, refl, sym, ap, true, false, List, [],
  ◌∷◌, ◌++◌, Option, none, some, arith, length, length-append, take, length-take, replicate, inl,
  inr, Bool-cases, ◌==◌, if◌then◌else◌, ltb, All,
}
use mathlib.Core.Path.{subst}
use mathlib.Core.List.{append_assoc}
use native.Mathlib.Nat.{add-zero}
use lobaro_coap.Platform.{ok, Platform, Mem, malloc, Plentiful, granted_mem}
use lobaro_coap.OptionList.{CoapOption}
use lobaro_coap.OptionList.Order.{AscendsFrom}
use lobaro_coap.OptionWire.{
  u16, Memory, Parsed, read, pack_options, pack_options_from_list, parse_options_from_raw,
}
use lobaro_coap.OptionWire.RoundTrip.{
  IsWireOption, marked, payload_at, granted_times, length-pack_options_ge,
  parse_options_from_raw-pack_options_from_list,
}
use lobaro_coap.OptionWire.RoundTrip.Fields.{Holds, Holds-split, read-Holds}
use lobaro_coap.Message.{
  MessageType, Token, Message, ParsedMessage, no_token, empty_code, init_to_empty_reset_msg,
  check_header, header_msg, read_token, copy_msg, parse_payload, after_options, parse_body,
  parse_message_from_datagram, build_header, build_payload, build_with_token, build_datagram,
}
use Header.{IsWireCode, header-build_header, padded_token, read_token-Holds}
use Payload.{
  received, before_payload, copy_msg-granted, parse_payload-marked, Holds-shift, marked-take,
  build_payload-marked, parse_body_options,
}

-- A message that can be sent: its fields are in the ranges of the wire format.
pub record IsSendable (msg : Message) : Type 0 where
  pub code_sent : IsWireCode msg.code
  pub code_full : msg.code ≢ empty_code
  pub id_fits : msg.message_id < 65536
  pub token_size : length msg.token.bytes ≡ 8
  pub token_fits : msg.token.len ≤ 8
  pub ascending : AscendsFrom 0 msg.options
  pub option_sizes : All IsWireOption msg.options
  pub payload_there : msg.payload_length ≤ length msg.payload
  pub payload_fits : msg.payload_length ≤ 1024

-- What the receiver gets of a message that was sent.
abbrev pub delivered : ℕ → Message → Message
delivered now msg =
    received now msg.type msg.code msg.message_id (padded_token msg.token) msg.options
      (take msg.payload_length msg.payload)

-- The bytes of a message that has a code, part by part.
build_datagram-parts :
    (msg : Message)
    → IsSendable msg
    → (build_datagram msg).0
      ≡ build_header msg msg.token.len
        ++ (take msg.token.len msg.token.bytes
            ++ (pack_options 0 msg.options ++ marked (take msg.payload_length msg.payload)))
unfolding build_datagram build_with_token pack_options_from_list
build_datagram-parts msg s = ground (arith, s.code_full, build_payload-marked msg s.payload_there)

length-build_header : (msg : Message) (n : ℕ) → length (build_header msg n) ≡ 4
unfolding build_header
length-build_header msg n = refl

-- The options and the payload behind the token.
abbrev rest_of : Message → List ℕ
rest_of msg = pack_options 0 msg.options ++ marked (take msg.payload_length msg.payload)

no_rest :
    (os : List CoapOption) (content : List ℕ)
    → length (pack_options 0 os ++ marked content) ≡ 0
    → (os ≡ []) × (content ≡ [])
no_rest [] [] h = (refl, refl)
no_rest [] (b ∷ bs) h =
    absurd (omega (arith, h, length-append (pack_options 0 []) (marked (b ∷ bs))))
no_rest (o ∷ os) content h = absurd (
    omega (
      arith,
      h,
      length-append (pack_options 0 (o ∷ os)) (marked content),
      length-pack_options_ge (o ∷ os) 0,
    ))

parse_rest_options :
    (p : Platform) (src : Memory) (msg : Message) (m : Mem)
    → Plentiful p
    → IsSendable msg
    → 4 + msg.token.len + length (rest_of msg) < 65536
    → src 0 % 16 ≡ msg.token.len
    → Holds src (4 + msg.token.len) (rest_of msg)
    → parse_options_from_raw p
        (λ i. src (4 + src 0 % 16 + i))
        (u16 (4 + msg.token.len + length (rest_of msg) + 65536 - (4 + src 0 % 16)))
        []
        m
      ≡ some (
        ok,
        payload_at (length (pack_options 0 msg.options)) (take msg.payload_length msg.payload),
        msg.options,
        granted_times (length msg.options) m,
      )
unfolding pack_options_from_list
parse_rest_options p src msg m plenty s small tkl holds =
    let size : u16 (4 + msg.token.len + length (rest_of msg) + 65536 - (4 + msg.token.len))
        ≡ length (rest_of msg) =
      omega (arith, small) in
    rw (tkl, size)
      (parse_options_from_raw-pack_options_from_list msg.options
        (take msg.payload_length msg.payload) p (λ i. src (4 + msg.token.len + i)) m plenty
        s.ascending s.option_sizes
        (Holds-shift src (4 + msg.token.len) 0 (rest_of msg)
          (subst (λ k. Holds src k (rest_of msg)) (omega arith) holds))
        (omega (arith, small)))

-- The options and the payload are parsed, where there are some.
parse_rest :
    (p : Platform) (now : ℕ) (src : Memory) (msg : Message) (m : Mem)
    → Plentiful p
    → IsSendable msg
    → 4 + msg.token.len + length (rest_of msg) < 65536
    → length (rest_of msg) ≢ 0
    → src 0 % 16 ≡ msg.token.len
    → read_token src ≡ padded_token msg.token
    → header_msg src ≡ record init_to_empty_reset_msg {
      type = msg.type;
      code = msg.code;
      message_id = msg.message_id;
    }
    → Holds src (4 + msg.token.len) (rest_of msg)
    → parse_body p now src (4 + msg.token.len + length (rest_of msg)) m
      ≡ some (ok, some (delivered now msg), granted_mem (granted_times (length msg.options) m))
unfolding after_options
parse_rest p now src msg m plenty s small more tkl tok head holds =
    let content = take msg.payload_length msg.payload in
    let total = length-append (pack_options 0 msg.options) (marked content) in
    let (here, later) =
      Holds-split src (4 + msg.token.len) (pack_options 0 msg.options) (marked content) holds in
    parse_body_options p now src (4 + msg.token.len + length (rest_of msg)) m _
      (ground (arith, more, tkl)) (parse_rest_options p src msg m plenty s small tkl holds)
    ∙ rw (tkl, tok, head)
        (ap some (
          parse_payload-marked content p now src (4 + msg.token.len + length (rest_of msg))
            (4 + msg.token.len) (length (pack_options 0 msg.options)) msg.type msg.code
            msg.message_id (padded_token msg.token) msg.options
            (granted_times (length msg.options) m) plenty (omega (arith, total)) small
            (omega
              (arith, length-take msg.payload_length msg.payload s.payload_there, s.payload_fits))
            later))

-- The parser from the token on.
parse_body-sent :
    (p : Platform) (now : ℕ) (src : Memory) (msg : Message) (m : Mem)
    → Plentiful p
    → IsSendable msg
    → 4 + msg.token.len + length (rest_of msg) < 65536
    → src 0 % 16 ≡ msg.token.len
    → read_token src ≡ padded_token msg.token
    → header_msg src ≡ record init_to_empty_reset_msg {
      type = msg.type;
      code = msg.code;
      message_id = msg.message_id;
    }
    → Holds src (4 + msg.token.len) (rest_of msg)
    → parse_body p now src (4 + msg.token.len + length (rest_of msg)) m
      ≡ some (ok, some (delivered now msg), granted_mem (granted_times (length msg.options) m))
unfolding parse_body
parse_body-sent p now src msg m plenty s small tkl tok head holds =
    elim (Bool-cases (length (rest_of msg) == 0)) [
      | inr more ↦
          parse_rest p now src msg m plenty s small (ground (arith, more)) tkl tok head holds
      | inl empty ↦
          let (no_options, no_content) =
            no_rest msg.options (take msg.payload_length msg.payload) (ground (arith, empty)) in
          let same : (4 + msg.token.len + length (rest_of msg) == 4 + src 0 % 16) ≡ true =
            ground (arith, empty, tkl) in
          rw (same, tok, head, no_options, no_content, add-zero, add-zero)
            (ap some (
              copy_msg-granted p now src 0
                (before_payload msg.type msg.code msg.message_id (padded_token msg.token) []) m
                plenty))
    ]

padded_token_empty : (t : Token) → t.len ≡ 0 → padded_token t ≡ no_token
padded_token_empty t e = rw e

-- The datagram is a header alone, or has more.
parse_sent :
    (p : Platform) (now : ℕ) (src : Memory) (msg : Message) (m : Mem)
    → Plentiful p
    → IsSendable msg
    → 4 + msg.token.len + length (rest_of msg) < 65536
    → (check_header src (4 + msg.token.len + length (rest_of msg)) ≡ ok)
      × (src 0 % 16 ≡ msg.token.len)
      × (header_msg src ≡ record init_to_empty_reset_msg {
        type = msg.type;
        code = msg.code;
        message_id = msg.message_id;
      })
    → read_token src ≡ padded_token msg.token
    → Holds src (4 + msg.token.len) (rest_of msg)
    → parse_message_from_datagram p now src (4 + msg.token.len + length (rest_of msg)) m
      ≡ some (ok, some (delivered now msg), granted_mem (granted_times (length msg.options) m))
unfolding parse_message_from_datagram
parse_sent p now src msg m plenty s small (good, tkl, head) tok holds =
    elim (Bool-cases (4 + msg.token.len + length (rest_of msg) == 4)) [
      | inr more ↦
          rw (good, more) (parse_body-sent p now src msg m plenty s small tkl tok head holds)
      | inl alone ↦
          let (no_options, no_content) =
            no_rest msg.options (take msg.payload_length msg.payload) (ground (arith, alone)) in
          let no_bytes : msg.token.len ≡ 0 = ground (arith, alone) in
          rw
            (
              good,
              alone,
              head,
              no_options,
              no_content,
              add-zero,
              add-zero,
              padded_token_empty msg.token no_bytes,
            )
            (ap some (
              copy_msg-granted p now src 0
                (before_payload msg.type msg.code msg.message_id no_token []) m plenty))
    ]

build_datagram-size :
    (msg : Message)
    → IsSendable msg
    → length (build_datagram msg).0 ≡ 4 + msg.token.len + length (rest_of msg)
build_datagram-size msg s = omega (
  arith,
  ap length (build_datagram-parts msg s),
  length-append (build_header msg msg.token.len)
      (take msg.token.len msg.token.bytes ++ rest_of msg),
  length-append (take msg.token.len msg.token.bytes) (rest_of msg),
  length-build_header msg msg.token.len,
  length-take msg.token.len msg.token.bytes (omega (arith, s.token_fits, s.token_size)),
)

-- Where the memory holds the datagram that CoAP_BuildDatagram wrote for a sendable message, and
-- `malloc` refuses nothing, CoAP_ParseMessageFromDatagram, called with the size that
-- CoAP_BuildDatagram stored, succeeds: it returns the message with the same type, code, message id,
-- token, options and payload, stamped with the clock, and allocates one block for each option and
-- one for the message.
pub parse_message_from_datagram-build_datagram :
    (p : Platform) (now : ℕ) (src : Memory) (msg : Message) (m : Mem)
    → Plentiful p
    → IsSendable msg
    → length (build_datagram msg).0 < 65536
    → Holds src 0 (build_datagram msg).0
    → parse_message_from_datagram p now src (build_datagram msg).1 m
      ≡ some (ok, some (delivered now msg), granted_mem (granted_times (length msg.options) m))
unfolding build_header
parse_message_from_datagram-build_datagram p now src msg m plenty s small holds =
    let n = msg.token.len in
    let size = build_datagram-size msg s in
    let (head, rest) =
      Holds-split src 0 (build_header msg n) (take n msg.token.bytes ++ rest_of msg)
        (subst (Holds src 0) (build_datagram-parts msg s) holds) in
    let (token, later) = Holds-split src 4 (take n msg.token.bytes) (rest_of msg) rest in
    let header =
      header-build_header src msg n (4 + n + length (rest_of msg)) s.token_fits (omega arith)
        s.code_sent s.id_fits head in
    let tok = read_token-Holds src msg.token header.1 s.token_size s.token_fits token in
    let taken = length-take n msg.token.bytes (omega (arith, s.token_fits, s.token_size)) in
    let stored : (build_datagram msg).1 ≡ 4 + n + length (rest_of msg) =
      unfold build_datagram in omega (arith, size, small) in
    rw stored (
      parse_sent p now src msg m plenty s (omega (arith, size, small)) header tok
        (subst (λ k. Holds src k (rest_of msg)) (omega (arith, taken)) later))
