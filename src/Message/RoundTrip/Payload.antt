-- ===== src/Message/RoundTrip/Payload.antt =====
-- The options and the payload of a message on their way through CoAP_BuildDatagram and
-- CoAP_ParseMessageFromDatagram.
use lobaro_coap.Common.{
  ℕ, zero, suc, ◌+◌, ◌-◌, ◌%◌, ◌≤◌, ◌<◌, ◌≡◌, ◌∙◌, refl, false, List, [], ◌∷◌, some, arith, length,
  take, ◌==◌, if◌then◌else◌, ltb,
}
use mathlib.Core.Path.{subst}
use lobaro_coap.Platform.{ok, Platform, Mem, malloc, Plentiful, granted_mem}
use lobaro_coap.OptionList.{CoapOption}
use lobaro_coap.OptionWire.{u16, Memory, Parsed, read, parse_options_from_raw}
use lobaro_coap.OptionWire.RoundTrip.{marked, payload_at}
use lobaro_coap.OptionWire.RoundTrip.Fields.{Holds, read-Holds}
use lobaro_coap.Message.{
  MessageType, Token, Message, init_to_empty_reset_msg, header_msg, read_token, copy_msg,
  parse_payload, after_options, parse_body, build_payload,
}

-- A message as the receiver sees it at the time `now`.
abbrev pub received : ℕ → MessageType → ℕ → ℕ → Token → List CoapOption → List ℕ → Message
received now type code id token opts content = record {
  timestamp = now;
  type = type;
  code = code;
  message_id = id;
  payload_length = length content;
  payload_buf_size = length content;
  token = token;
  options = opts;
  payload = content;
}

abbrev pub before_payload : MessageType → ℕ → ℕ → Token → List CoapOption → Message
before_payload type code id token opts = record init_to_empty_reset_msg {
  type = type;
  code = code;
  message_id = id;
  token = token;
  options = opts;
}

pub copy_msg-granted :
    (p : Platform) (now : ℕ) (src : Memory) (from : ℕ) (msg : Message) (m : Mem)
    → Plentiful p
    → copy_msg p now src from msg m ≡ (
      ok,
      some (record msg { payload = read src from msg.payload_length; timestamp = now }),
      granted_mem m,
    )
unfolding copy_msg malloc
copy_msg-granted p now src from msg m plenty =
    rw (plenty m.mallocs (p.sizeof_message + msg.payload_length))

-- The payload behind the options is found and copied.
pub parse_payload-marked :
    (content : List ℕ) (p : Platform) (now : ℕ) (src : Memory) (src_length offset at : ℕ)
    (type : MessageType) (code id : ℕ) (token : Token) (opts : List CoapOption) (m : Mem)
    → Plentiful p
    → offset + at + length (marked content) ≡ src_length
    → src_length < 65536
    → length content ≤ 1024
    → Holds src (offset + at) (marked content)
    → parse_payload p now src src_length offset
        (before_payload type code id token opts)
        (payload_at at content)
        m
      ≡ (ok, some (received now type code id token opts content), granted_mem m)
unfolding parse_payload
parse_payload-marked [] p now src src_length offset at type code id token opts m plenty size small
      fits holds =
    copy_msg-granted p now src 0 (before_payload type code id token opts) m plenty
parse_payload-marked (b ∷ bs) p now src src_length offset at type code id token opts m plenty size
      small fits holds =
    let n : u16 (src_length + 131072 - (offset + (at + 1))) ≡ length (b ∷ bs) =
      omega (arith, size) in
    let few : ltb 1024 (length (b ∷ bs)) ≡ false = ground (arith, fits) in
    let bytes : read src (offset + (at + 1)) (length (b ∷ bs)) ≡ b ∷ bs =
      read-Holds src _ (b ∷ bs) (subst (λ k. Holds src k (b ∷ bs)) (omega arith) holds.1) in
    rw (n, few) (copy_msg-granted p now src (offset + (at + 1)) _ m plenty ∙ rw bytes)

pub Holds-shift :
    (src : Memory) (k at : ℕ) (xs : List ℕ) → Holds src (k + at) xs → Holds (λ i. src (k + i)) at xs
Holds-shift src k at [] h = tt
Holds-shift src k at (x ∷ xs) h =
    (h.0, Holds-shift src k (at + 1) xs (subst (λ j. Holds src j xs) (omega arith) h.1))

pub marked-take :
    (n : ℕ) (xs : List ℕ)
    → n ≤ length xs
    → (if n == 0 then [] else 0xff ∷ take n xs) ≡ marked (take n xs)
marked-take zero xs h = refl
marked-take (suc n) [] h = absurd (omega arith)
marked-take (suc n) (x ∷ xs) h = ground arith

pub build_payload-marked :
    (msg : Message)
    → msg.payload_length ≤ length msg.payload
    → build_payload msg ≡ marked (take msg.payload_length msg.payload)
unfolding build_payload
build_payload-marked msg h = marked-take msg.payload_length msg.payload h

-- parse_OptionsFromRaw has returned.
pub parse_body_options :
    (p : Platform) (now : ℕ) (src : Memory) (src_length : ℕ) (m : Mem) (parsed : Parsed)
    → (src_length == 4 + src 0 % 16) ≡ false
    → parse_options_from_raw p
        (λ i. src (4 + src 0 % 16 + i))
        (u16 (src_length + 65536 - (4 + src 0 % 16)))
        []
        m
      ≡ some parsed
    → parse_body p now src src_length m
      ≡ some (
          after_options p now src src_length
            (4 + src 0 % 16)
            (record (header_msg src) { token = read_token src })
            parsed)
unfolding parse_body
parse_body_options p now src src_length m parsed h e = rw (h, e)
