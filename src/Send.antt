-- ===== src/Send.antt =====
-- What the stack sends: the socket table of src/interface/network/net_Socket.c, the message ids and
-- tokens, CoAP_SendMsg and its callers in src/coap_message.c.
pub mod Sockets
pub mod Outcomes
pub mod Delivery
use lobaro_coap.Common.{
  ℕ, zero, suc, ◌+◌, ◌%◌, Bool, true, false, ◌&&◌, List, [], ◌∷◌, Option, none, some, if◌then◌else◌,
  leb, ◌==◌, replicate,
}
use lobaro_coap.Platform.{
  CoapResult, ok, not_found, err_out_of_memory, err_network, Platform, Mem, malloc, free,
}
use lobaro_coap.Endpoint.{Endpoint}
use lobaro_coap.OptionWire.{u16}
use lobaro_coap.Message.{
  MessageType, con, ack, Token, Message, init_to_empty_reset_msg, build_datagram,
  get_raw_size_of_message,
}
use lobaro_coap.Message.Create.{create_message, get_resp_msg_type}

-- CoAP_Socket_t: the handle as a number, and whether a transmit function `Tx` is set.
pub record Socket : Type 0 where
  pub handle : ℕ
  pub has_tx : Bool
  pub alive : Bool

-- NetPacket_t on its way to the transmit function of a socket, with its data as a list.
pub record Packet : Type 0 where
  pub socket : ℕ
  pub remote_ep : Endpoint
  pub size : ℕ
  pub bytes : List ℕ

-- What the application and the compiler provide: the allocator, the transmit functions and sizes.
-- `transmits log packet` says whether the packet is accepted, after the packets of the log were
-- handed over, each with the answer it got; the latest one comes first.
pub record System : Type 0 where
  pub platform : Platform
  pub transmits : List (Packet × Bool) → Packet → Bool
  pub sizeof_interaction : ℕ
  pub sizeof_observer : ℕ

-- The state that sending uses: the allocator, the application's clock, `MId` and `currToken`, the
-- socket table, and the packets that were handed to transmit functions.
pub record World : Type 0 where
  pub mem : Mem
  pub now : ℕ
  pub message_id : ℕ
  pub curr_token : ℕ
  pub sockets : List Socket
  pub log : List (Packet × Bool)

abbrev pub max_active_sockets : ℕ
max_active_sockets = 5

-- SocketCtrl after its initialisation: no socket is alive.
abbrev pub no_sockets : List Socket
no_sockets = replicate max_active_sockets (record { handle = 0; has_tx = false; alive = false })

-- AllocSocket followed by the assignment of the handle, as in CoAP_NewSocket: the table with the
-- socket, or `none` for the NULL of a full table. The caller sets `Tx` afterwards.
unfoldable pub alloc_socket : ℕ → List Socket → Option (List Socket)
alloc_socket handle [] = none
alloc_socket handle (s ∷ ss) =
    let rest = alloc_socket handle ss in
    if s.alive
    then (elim rest [ none ↦ none | some ss' ↦ some (s ∷ ss') ])
    else some (record { handle = handle; has_tx = false; alive = true } ∷ ss)

-- RetrieveSocket.
unfoldable pub retrieve_socket : List Socket → ℕ → Option Socket
retrieve_socket [] handle = none
retrieve_socket (s ∷ ss) handle =
    let rest = retrieve_socket ss handle in if s.alive && (s.handle == handle) then some s else rest

-- CoAP_InitIds, with the two numbers that the application's `rand` returns.
unfoldable pub init_ids : ℕ → ℕ → World → World
init_ids r r' w = record w { message_id = r % 65536; curr_token = r' % 256 }

-- CoAP_GetNextMid: `MId` is a uint16_t.
unfoldable pub get_next_mid : World → ℕ × World
get_next_mid w = let id = u16 (w.message_id + 1) in (id, record w { message_id = id })

-- CoAP_GenerateToken: `currToken` is a uint8_t.
unfoldable pub generate_token : World → Token × World
generate_token w =
    let t = (w.curr_token + 1) % 256 in
    (record { len = 1; bytes = t ∷ replicate 7 0 }, record w { curr_token = t })

-- CoAP_getRespMsgID.
unfoldable pub get_resp_msg_id : Message → World → ℕ × World
get_resp_msg_id req w = elim req.type [ con ↦ (req.message_id, w) | _ ↦ get_next_mid w ]

-- CoAP_AllocRespMsg.
unfoldable pub alloc_resp_msg : System → Message → ℕ → ℕ → World → Option Message × World
alloc_resp_msg sys req code size w =
    let (id, w') = get_resp_msg_id req w in
    let (msg, m) =
      create_message sys.platform (get_resp_msg_type req.type) code id [] size req.token w'.mem in
    (msg, record w' { mem = m })

-- The buffer of CoAP_SendMsg: sixteen bytes on the stack, or a block.
unfoldable pub alloc_buffer : System → ℕ → World → Bool × World
alloc_buffer sys size w =
    let (granted, m) = malloc sys.platform size w.mem in
    if leb size 16 then (true, w) else (granted, record w { mem = m })

unfoldable pub free_buffer : ℕ → World → World
free_buffer size w = if leb size 16 then w else record w { mem = free w.mem }

-- The rest of CoAP_SendMsg, from the serialisation of the message on.
unfoldable pub hand_over : System → Message → ℕ → Endpoint → World → CoapResult × Message × World
hand_over sys msg socket receiver w =
    let size = u16 (get_raw_size_of_message msg) in
    let (bytes, written, msg') = build_datagram msg in
    let packet : Packet = record {
      socket = socket;
      remote_ep = receiver;
      size = size;
      bytes = bytes;
    } in
    let sent = sys.transmits w.log packet in
    let w' = free_buffer size (record w { log = (packet, sent) ∷ w.log }) in
    if sent then (ok, record msg' { timestamp = w.now }, w') else (err_network, msg', w')

-- CoAP_SendMsg: its result, the message as it leaves it, and the state.
unfoldable pub send_msg : System → Message → ℕ → Endpoint → World → CoapResult × Message × World
send_msg sys msg socket receiver w = elim (retrieve_socket w.sockets socket) [
  | none ↦ (not_found, msg, w)
  | some s ↦
      let (granted, w') = alloc_buffer sys (u16 (get_raw_size_of_message msg)) w in
      if s.has_tx
      then (if granted then hand_over sys msg socket receiver w' else (err_out_of_memory, msg, w'))
      else (not_found, msg, w)
]

-- CoAP_SendEmptyAck, CoAP_SendShortResp and CoAP_SendEmptyRST: the message is on the stack.
unfoldable pub send_empty_ack : System → ℕ → ℕ → Endpoint → World → CoapResult × World
send_empty_ack sys id socket receiver w =
    let (r, msg, w') =
      send_msg sys (record init_to_empty_reset_msg { type = ack; message_id = id }) socket receiver
        w in
    (r, w')

unfoldable pub send_short_resp :
    System → MessageType → ℕ → ℕ → Token → ℕ → Endpoint → World → CoapResult × World
send_short_resp sys type code id token socket receiver w =
    let (r, msg, w') =
      send_msg sys
        (record init_to_empty_reset_msg {
          type = type;
          message_id = id;
          code = code;
          token = token;
        })
        socket receiver w in
    (r, w')

unfoldable pub send_empty_rst : System → ℕ → ℕ → Endpoint → World → CoapResult × World
send_empty_rst sys id socket receiver w =
    let (r, msg, w') =
      send_msg sys (record init_to_empty_reset_msg { message_id = id }) socket receiver w in
    (r, w')
