-- ===== src/Message/Create.antt =====
-- How messages are made and freed: CoAP_CreateMessage, CoAP_free_Message, the payload of a message
-- (CoAP_addNewPayloadToMessage) and CoAP_MsgIsOlderThan of src/coap_message.c.
use lobaro_coap.Common.{
  ℕ, ◌+◌, Bool, List, [], ◌++◌, Option, none, some, if◌then◌else◌, ltb, leb, ◌==◌, length, take,
  drop, replicate,
}
use lobaro_coap.Platform.{CoapResult, ok, err_out_of_memory, Platform, Mem, malloc, free}
use lobaro_coap.Time.{u32, time_after}
use lobaro_coap.OptionWire.{u16}
use lobaro_coap.OptionList.{free_option_list}
use lobaro_coap.Message.{MessageType, con, non, ack, Token, Message, init_to_empty_reset_msg}

-- CoAP_MsgIsOlderThan at the time `now`.
unfoldable pub msg_is_older_than : ℕ → Message → ℕ → Bool
msg_is_older_than now msg timespan = time_after now (u32 (msg.timestamp + timespan))

-- The payload buffer of a new message: zeros, but for the initial content.
unfoldable pub initial_payload : List ℕ → ℕ → List ℕ
initial_payload content size =
    if size == 0 then [] else content ++ drop (length content) (replicate size 0)

-- CoAP_CreateMessage. The initial content stands for the pointer and the length; where the
-- pointer is NULL the content is empty.
unfoldable pub create_message :
    Platform → MessageType → ℕ → ℕ → List ℕ → ℕ → Token → Mem → Option Message × Mem
create_message p type code id content size token m =
    let (granted, m') = malloc p (p.sizeof_message + size) m in
    if ltb size (length content)
    then (none, m)
    else (if granted
        then (
          some (record init_to_empty_reset_msg {
            type = type;
            code = code;
            message_id = id;
            token = token;
            payload_length = length content;
            payload_buf_size = size;
            payload = initial_payload content size;
          }),
          m',
        )
        else (none, m'))

-- CoAP_free_Message, which does nothing for NULL. CoAP_free_MsgPayload returns at once, so that
-- a payload outside of the message stays allocated.
unfoldable pub free_message : Option Message → Mem → Mem
free_message none m = m
free_message (some msg) m = free (free_option_list msg.options m).1

-- CoAP_getRespMsgType.
abbrev pub get_resp_msg_type : MessageType → MessageType
get_resp_msg_type con = ack
get_resp_msg_type _ = non

abbrev pub max_payload_size : ℕ
max_payload_size = 1024

-- CoAP_addNewPayloadToMessage of a message that is there. The call of `malloc` is not tested: the
-- copy writes through what it returned, and the model describes the case that it is a block.
unfoldable pub add_new_payload_to_message :
    Platform → Message → List ℕ → Mem → CoapResult × Message × Mem
add_new_payload_to_message p msg bytes m =
    let size = length bytes in
    if ltb max_payload_size size
    then (err_out_of_memory, msg, m)
    else (if size == 0
        then (ok, record msg { payload_length = 0 }, m)
        else (if leb size msg.payload_buf_size
            then (
              ok,
              record msg { payload_length = size; payload = bytes ++ drop size msg.payload },
              m,
            )
            else (
              ok,
              record msg { payload_length = size; payload_buf_size = size; payload = bytes },
              (malloc p size m).1,
            )))

-- CoAP_addTextPayload of a string without its end, whose length is cast to a uint16_t.
unfoldable pub add_text_payload : Platform → Message → List ℕ → Mem → CoapResult × Message × Mem
add_text_payload p msg str m = add_new_payload_to_message p msg (take (u16 (length str)) str) m
