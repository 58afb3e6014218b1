-- ===== src/Message/RoundTrip/Header.antt =====
-- The four header bytes and the token, as CoAP_BuildDatagram writes and the parser reads them.
use lobaro_coap.Common.{
  ℕ, ◌+◌, ◌-◌, ◌*◌, ◌/◌, ◌%◌, ◌^◌, ◌≤◌, ◌<◌, ◌≡◌, ◌∙◌, ◌≢◌, ap, refl, bit_or, ◌++◌, arith, length,
  take, length-take, replicate,
}
use lobaro_coap.Common.Bits.{bit_or-shift}
use lobaro_coap.Platform.{ok}
use lobaro_coap.OptionWire.{Memory, read}
use lobaro_coap.OptionWire.RoundTrip.Fields.{Holds, read-Holds}
use lobaro_coap.Message.{
  MessageType, con, non, ack, rst, type_bits, type_of_bits, Token, Message, init_to_empty_reset_msg,
  check_header, header_msg, read_token, build_header,
}

type_of_bits-type_bits : (t : MessageType) → type_of_bits (type_bits t) ≡ t
unfolding type_of_bits type_bits
type_of_bits-type_bits con = refl
type_of_bits-type_bits non = refl
type_of_bits-type_bits ack = refl
type_of_bits-type_bits rst = refl

type_bits-bound : (t : MessageType) → type_bits t < 4
unfolding type_bits
type_bits-bound con = omega arith
type_bits-bound non = omega arith
type_bits-bound ack = omega arith
type_bits-bound rst = omega arith

first_byte_sum :
    (t : MessageType) (n : ℕ)
    → n ≤ 8
    → bit_or (bit_or (1 * 2 ^ 6) (type_bits t * 2 ^ 4)) (n % 16) ≡ 64 + type_bits t * 16 + n
first_byte_sum t n h =
    let joined : bit_or (1 * 2 ^ 6) (type_bits t * 2 ^ 4) ≡ (4 + type_bits t) * 2 ^ 4 =
      omega (arith, bit_or-shift 6 1 (type_bits t * 2 ^ 4) (omega (arith, type_bits-bound t))) in
    rw joined (omega (arith, bit_or-shift 4 (4 + type_bits t) (n % 16) (omega arith)))

-- A code that CoAP_ParseMessageFromDatagram accepts: a byte whose class is not reserved.
abbrev pub IsWireCode : ℕ → Type 0
IsWireCode code = (code < 256) × (code / 32 ≢ 1) × (code / 32 ≢ 6) × (code / 32 ≢ 7)

-- A header that was built is read back.
pub header-build_header :
    (src : Memory) (msg : Message) (n src_length : ℕ)
    → n ≤ 8
    → 4 ≤ src_length
    → IsWireCode msg.code
    → msg.message_id < 65536
    → Holds src 0 (build_header msg n)
    → (check_header src src_length ≡ ok)
      × (src 0 % 16 ≡ n)
      × (header_msg src ≡ record init_to_empty_reset_msg {
        type = msg.type;
        code = msg.code;
        message_id = msg.message_id;
      })
unfolding build_header check_header header_msg
header-build_header src msg n src_length h long code mid (b0, (b1, (b2, (b3, _)))) =
    let first = first_byte_sum msg.type n h in
    let bound = type_bits-bound msg.type in
    let type : type_of_bits (src 0 % 64 / 16) ≡ msg.type =
      ap type_of_bits (omega (arith, b0, first, bound)) ∙ type_of_bits-type_bits msg.type in
    let id : bit_or (src 2 * 2 ^ 8) (src 3) ≡ msg.message_id =
      omega (arith, b2, b3, bit_or-shift 8 (src 2) (src 3) (omega (arith, b3))) in
    (
      ground (arith, b0, b1, first, bound),
      omega (arith, b0, first, bound),
      rw (type, id) (ground (arith, b1)),
    )

-- The token of a received message: the bytes that count, and zeros behind them.
abbrev pub padded_token : Token → Token
padded_token t = record t { bytes = take t.len t.bytes ++ replicate (8 - t.len) 0 }

pub read_token-Holds :
    (src : Memory) (t : Token)
    → src 0 % 16 ≡ t.len
    → length t.bytes ≡ 8
    → t.len ≤ 8
    → Holds src 4 (take t.len t.bytes)
    → read_token src ≡ padded_token t
unfolding read_token
read_token-Holds src t e size fits holds =
    let bytes : read src 4 t.len ≡ take t.len t.bytes =
      rw (length-take t.len t.bytes (omega arith)) at
        (read-Holds src 4 (take t.len t.bytes) holds) in
    rw (e, bytes)
