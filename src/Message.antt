-- ===== src/Message.antt =====
-- CoAP_Message_t of src/liblobaro_coap.h and its datagram: CoAP_ParseMessageFromDatagram,
-- CoAP_BuildDatagram and CoAP_GetRawSizeOfMessage of src/coap_message.c.
pub mod Size
pub mod RoundTrip
pub mod Allocation
pub mod Overread
pub mod Truncated
pub mod Create
use lobaro_coap.Common.{
  ℕ, zero, suc, ◌+◌, ◌-◌, ◌*◌, ◌/◌, ◌%◌, ◌^◌, bit_or, Bool, true, false, ◌&&◌, ◌||◌, not, List, [],
  ◌∷◌, ◌++◌, Option, none, some, if◌then◌else◌, ltb, leb, ◌==◌, length, take, replicate, get_or,
}
use lobaro_coap.Platform.{
  CoapResult, ok, parse_datagram_too_short, parse_unkown_coap_version, parse_message_format_error,
  parse_too_much_payload, err_out_of_memory, Platform, Mem, malloc, free,
}
use lobaro_coap.OptionList.{CoapOption, free_option_list}
use lobaro_coap.OptionWire.{
  u16, Memory, read, is_ok, Parsed, parse_options_from_raw, pack_options_from_list,
  needed_mem_4_pack_options,
}

-- CoAP_MessageType_t.
pub data MessageType : Type 0 where
  con non ack rst : MessageType

unfoldable pub type_bits : MessageType → ℕ
type_bits con = 0
type_bits non = 1
type_bits ack = 2
type_bits rst = 3

-- The type of two bits.
unfoldable pub type_of_bits : ℕ → MessageType
type_of_bits zero = con
type_of_bits (suc zero) = non
type_of_bits (suc (suc zero)) = ack
type_of_bits (suc (suc (suc n))) = rst

-- CoAP_Token_t: `Length` and the array `Token` of eight bytes.
pub record Token : Type 0 where
  pub len : ℕ
  pub bytes : List ℕ

abbrev pub no_token : Token
no_token = record { len = 0; bytes = replicate 8 0 }

-- CoAP_Message_t, a code being its byte. The bytes behind the pointer `Payload` are a list, empty
-- for NULL. `pResource` is not part of the model: nothing in the stack reads it.
pub record Message : Type 0 where
  pub timestamp : ℕ
  pub type : MessageType
  pub code : ℕ
  pub message_id : ℕ
  pub payload_length : ℕ
  pub payload_buf_size : ℕ
  pub token : Token
  pub options : List CoapOption
  pub payload : List ℕ

-- The codes that the code compares with.
abbrev pub empty_code : ℕ
empty_code = 0

abbrev pub req_last : ℕ
req_last = 7

abbrev pub resp_first_2_00 : ℕ
resp_first_2_00 = 64

-- CoAP_InitToEmptyResetMsg.
abbrev pub init_to_empty_reset_msg : Message
init_to_empty_reset_msg = record {
  timestamp = 0;
  type = rst;
  code = empty_code;
  message_id = 0;
  payload_length = 0;
  payload_buf_size = 0;
  token = no_token;
  options = [];
  payload = [];
}

-- CoAP_TokenEqual.
unfoldable pub bytes_equal_below : ℕ → List ℕ → List ℕ → Bool
bytes_equal_below zero xs ys = true
bytes_equal_below (suc n) [] ys = true
bytes_equal_below (suc n) (x ∷ xs) [] = true
bytes_equal_below (suc n) (x ∷ xs) (y ∷ ys) = (x == y) && bytes_equal_below n xs ys

unfoldable pub token_equal : Token → Token → Bool
token_equal a b = if a.len == b.len then bytes_equal_below a.len a.bytes b.bytes else false

-- CoAP_MsgIsRequest and CoAP_MsgIsResponse.
unfoldable pub msg_is_request : Message → Bool
msg_is_request msg = not (msg.code == empty_code) && leb msg.code req_last

unfoldable pub msg_is_response : Message → Bool
msg_is_response msg = not (msg.code == empty_code) && leb resp_first_2_00 msg.code

-- The checks of CoAP_ParseMessageFromDatagram on the length and the first two bytes.
unfoldable pub check_header : Memory → ℕ → CoapResult
check_header src src_length =
    let code_class = src 1 / 32 in
    if ltb src_length 4
    then parse_datagram_too_short
    else (if not (src 0 / 64 == 1)
        then parse_unkown_coap_version
        else (if ltb 8 (src 0 % 16)
            then parse_message_format_error
            else (if code_class == 1 || (code_class == 6 || code_class == 7)
                then parse_message_format_error
                else ok)))

-- What the four header bytes set, before the token is read.
unfoldable pub header_msg : Memory → Message
header_msg src = record init_to_empty_reset_msg {
  type = type_of_bits (src 0 % 64 / 16);
  code = src 1;
  message_id = bit_or (src 2 * 2 ^ 8) (src 3);
}

-- The token loop: it does not look at the datagram's length.
unfoldable pub read_token : Memory → Token
read_token src =
    let n = src 0 % 16 in record { len = n; bytes = read src 4 n ++ replicate (8 - n) 0 }

-- The result, the message if there is one, and the allocator.
abbrev pub ParsedMessage : Type 0
ParsedMessage = CoapResult × Option Message × Mem

-- From START_MSG_COPY_LABEL on. `now` is the clock, `from` where the payload begins.
unfoldable pub copy_msg : Platform → ℕ → Memory → ℕ → Message → Mem → ParsedMessage
copy_msg p now src from msg m =
    let (granted, m') = malloc p (p.sizeof_message + msg.payload_length) m in
    if granted
    then (ok, some (record msg { payload = read src from msg.payload_length; timestamp = now }), m')
    else (err_out_of_memory, none, (free_option_list msg.options m').1)

-- After the options, whose section began at `offset`: the payload, if any. The subtraction is one
-- of ints, and its result is stored in a uint16_t.
unfoldable pub parse_payload :
    Platform → ℕ → Memory → ℕ → ℕ → Message → Option ℕ → Mem → ParsedMessage
parse_payload p now src src_length offset msg none m = copy_msg p now src 0 msg m
parse_payload p now src src_length offset msg (some at) m =
    let n = u16 (src_length + 131072 - (offset + at)) in
    if ltb 1024 n
    then (parse_too_much_payload, none, (free_option_list msg.options m).1)
    else copy_msg p now src (offset + at) (record msg { payload_length = n; payload_buf_size = n })
        m

-- After parse_OptionsFromRaw.
unfoldable pub after_options : Platform → ℕ → Memory → ℕ → ℕ → Message → Parsed → ParsedMessage
after_options p now src src_length offset msg (r, at, opts, m) =
    if is_ok r
    then parse_payload p now src src_length offset (record msg { options = opts }) at m
    else (r, none, (free_option_list opts m).1)

-- From the token on. The length that is passed to parse_OptionsFromRaw is a uint16_t.
unfoldable pub parse_body : Platform → ℕ → Memory → ℕ → Mem → Option ParsedMessage
parse_body p now src src_length m =
    let msg = record (header_msg src) { token = read_token src } in
    let offset = 4 + src 0 % 16 in
    if src_length == offset
    then some (copy_msg p now src 0 msg m)
    else (elim (parse_options_from_raw p (λ i. src (offset + i)) (u16 (src_length + 65536 - offset))
        [] m) [
          | none ↦ none
          | some parsed ↦ some (after_options p now src src_length offset msg parsed)
        ])

-- CoAP_ParseMessageFromDatagram. `none` is a loop over the options that has not ended.
unfoldable pub parse_message_from_datagram : Platform → ℕ → Memory → ℕ → Mem → Option ParsedMessage
parse_message_from_datagram p now src src_length m =
    if is_ok (check_header src src_length)
    then (if src_length == 4
        then some (copy_msg p now src 0 (header_msg src) m)
        else parse_body p now src src_length m)
    else some (check_header src src_length, none, m)

-- The first four bytes of CoAP_BuildDatagram.
unfoldable pub build_header : Message → ℕ → List ℕ
build_header msg token_length =
    bit_or (bit_or (1 * 2 ^ 6) (type_bits msg.type * 2 ^ 4)) (token_length % 16)
    ∷ (msg.code % 256)
    ∷ (msg.message_id / 256 % 256)
    ∷ (msg.message_id % 256)
    ∷ []

-- The payload marker and the payload.
unfoldable pub build_payload : Message → List ℕ
build_payload msg =
    if msg.payload_length == 0 then [] else 0xff ∷ take msg.payload_length msg.payload

unfoldable pub build_with_token : Message → ℕ → List ℕ
build_with_token msg token_length =
    build_header msg token_length
    ++ (take token_length msg.token.bytes
        ++ ((pack_options_from_list msg.options).0 ++ build_payload msg))

-- CoAP_BuildDatagram: the bytes, what it stores in `*pDestArrSize`, and the message, whose payload
-- is dropped under the code 0.00.
unfoldable pub build_datagram : Message → List ℕ × ℕ × Message
build_datagram msg =
    let msg' = if msg.code == empty_code then record msg { payload_length = 0 } else msg in
    let bytes = build_with_token msg' (if msg.code == empty_code then 0 else msg.token.len) in
    (bytes, u16 (length bytes), msg')

-- CoAP_GetRawSizeOfMessage.
unfoldable pub get_raw_size_of_message : Message → ℕ
get_raw_size_of_message msg =
    4
    + needed_mem_4_pack_options msg.options
    + (if msg.code == empty_code
        then 0
        else (if msg.payload_length == 0 then 0 else msg.payload_length + 1) + msg.token.len)
