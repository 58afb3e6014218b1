-- ===== src/Send/Outcomes.antt =====
-- What CoAP_SendMsg does on every branch: its result, the packet, the memory and the time stamp.
use lobaro_coap.Common.{ℕ, ◌≡◌, ◌≢◌, ◌⊎◌, true, false, ◌∷◌, arith}
use lobaro_coap.Platform.{ok, malloc, free}
use lobaro_coap.OptionWire.{u16}
use lobaro_coap.Endpoint.{Endpoint}
use lobaro_coap.Message.{Message, build_datagram, get_raw_size_of_message}
use lobaro_coap.Send.{Packet, System, World, alloc_buffer, free_buffer, hand_over, send_msg}

-- The packet of a message.
abbrev pub packet_of : Message → ℕ → Endpoint → Packet
packet_of msg socket receiver = record {
  socket = socket;
  remote_ep = receiver;
  size = u16 (get_raw_size_of_message msg);
  bytes = (build_datagram msg).0;
}

-- CoAP_SendMsg changes nothing of the state but the allocator's count of calls and the log: every
-- block that it allocates is freed again, on every branch.
pub send_msg-live :
    (sys : System) (msg : Message) (socket : ℕ) (receiver : Endpoint) (w : World)
    → let (r, msg', w') = send_msg sys msg socket receiver w in
      (w'.mem.live ≡ w.mem.live)
      × ((w'.now ≡ w.now)
          × ((w'.message_id ≡ w.message_id)
              × ((w'.curr_token ≡ w.curr_token) × (w'.sockets ≡ w.sockets))))
unfolding send_msg hand_over alloc_buffer free_buffer malloc free
send_msg-live sys msg socket receiver w = ground arith

-- CoAP_SendMsg returns COAP_OK exactly where the transmit function of the socket accepted the
-- message's datagram, and the message is then stamped with the clock. Otherwise no packet was
-- accepted, and the message keeps its time stamp.
pub send_msg-log :
    (sys : System) (msg : Message) (socket : ℕ) (receiver : Endpoint) (w : World)
    → let (r, msg', w') = send_msg sys msg socket receiver w in
      ((r ≡ ok)
        × ((w'.log ≡ (packet_of msg socket receiver, true) ∷ w.log) × (msg'.timestamp ≡ w.now)))
      ⊎ ((r ≢ ok)
          × (((w'.log ≡ w.log) ⊎ (w'.log ≡ (packet_of msg socket receiver, false) ∷ w.log))
              × (msg'.timestamp ≡ msg.timestamp)))
unfolding send_msg hand_over alloc_buffer free_buffer malloc free build_datagram
send_msg-log sys msg socket receiver w = ground arith
