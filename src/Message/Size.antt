-- ===== src/Message/Size.antt =====
-- CoAP_GetRawSizeOfMessage against CoAP_BuildDatagram.
use lobaro_coap.Common.{
  ℕ, ◌+◌, ◌≤◌, ◌<◌, ◌≡◌, ◌++◌, arith, length, length-append, take, length-take, ◌==◌, if◌then◌else◌,
}
use lobaro_coap.OptionWire.{pack_options_from_list}
use lobaro_coap.OptionWire.Size.{needed_mem_4_pack_options-pack_options_from_list}
use lobaro_coap.Message.{
  Message, build_header, build_payload, build_with_token, build_datagram, get_raw_size_of_message,
}

-- A token has at most eight bytes, and the payload as many as the message says.
pub record IsSized (msg : Message) : Type 0 where
  pub token_size : length msg.token.bytes ≡ 8
  pub token_fits : msg.token.len ≤ 8
  pub payload_there : msg.payload_length ≤ length msg.payload

length-build_payload :
    (msg : Message)
    → msg.payload_length ≤ length msg.payload
    → length (build_payload msg) ≡ (if msg.payload_length == 0 then 0 else msg.payload_length + 1)
unfolding build_payload
length-build_payload msg h = ground (arith, length-take msg.payload_length msg.payload h)

pub length-build_with_token :
    (msg : Message) (n : ℕ)
    → n ≤ length msg.token.bytes
    → length (build_with_token msg n)
      ≡ 4 + n + length (pack_options_from_list msg.options).0 + length (build_payload msg)
unfolding build_with_token build_header
length-build_with_token msg n h = omega (
  arith,
  length-append (take n msg.token.bytes)
      ((pack_options_from_list msg.options).0 ++ build_payload msg),
  length-append (pack_options_from_list msg.options).0 (build_payload msg),
  length-take n msg.token.bytes h,
)

-- The buffer that CoAP_SendMsg allocates by CoAP_GetRawSizeOfMessage holds exactly the bytes that
-- CoAP_BuildDatagram writes, for every message whose options take fewer than 65536 bytes.
pub get_raw_size_of_message-build_datagram :
    (msg : Message)
    → IsSized msg
    → length (pack_options_from_list msg.options).0 < 65536
    → get_raw_size_of_message msg ≡ length (build_datagram msg).0
unfolding get_raw_size_of_message build_datagram pack_options_from_list
get_raw_size_of_message-build_datagram msg s small = ground (
  arith,
  needed_mem_4_pack_options-pack_options_from_list msg.options,
  length-build_with_token msg msg.token.len,
  length-build_with_token (record msg { payload_length = 0 }) 0,
  length-build_payload msg,
  length-build_payload (record msg { payload_length = 0 }),
)
