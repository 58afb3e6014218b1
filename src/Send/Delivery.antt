-- ===== src/Send/Delivery.antt =====
-- A message that CoAP_SendMsg sent is what CoAP_ParseMessageFromDatagram finds in the packet.
use lobaro_coap.Common.{
  ℕ, ◌<◌, ◌≡◌, ◌∙◌, refl, sym, ap, true, List, ◌∷◌, some, length, arith, inl, inr, Bool,
}
use lobaro_coap.Platform.{ok, Platform, Mem, Plentiful, granted_mem}
use lobaro_coap.Endpoint.{Endpoint}
use lobaro_coap.OptionWire.{u16, Memory, pack_options_from_list}
use lobaro_coap.OptionWire.RoundTrip.{granted_times}
use lobaro_coap.OptionWire.RoundTrip.Fields.{Holds}
use lobaro_coap.Message.{Message, build_datagram, parse_message_from_datagram}
use lobaro_coap.Message.Size.{
  IsSized, length-build_with_token, get_raw_size_of_message-build_datagram,
}
use lobaro_coap.Message.RoundTrip.{
  IsSendable, delivered, parse_message_from_datagram-build_datagram,
}
use lobaro_coap.Send.{Packet, System, World, send_msg}
use lobaro_coap.Send.Outcomes.{packet_of, send_msg-log}

packed_small :
    (msg : Message)
    → IsSendable msg
    → length (build_datagram msg).0 < 65536
    → length (pack_options_from_list msg.options).0 < 65536
unfolding build_datagram
packed_small msg s small = ground (arith, s.code_full, length-build_with_token msg msg.token.len)

packet-size :
    (msg : Message) (socket : ℕ) (receiver : Endpoint)
    → IsSendable msg
    → length (build_datagram msg).0 < 65536
    → (packet_of msg socket receiver).size ≡ (build_datagram msg).1
packet-size msg socket receiver s small =
    let sized : IsSized msg = record {
      token_size = s.token_size;
      token_fits = s.token_fits;
      payload_there = s.payload_there;
    } in
    let raw = get_raw_size_of_message-build_datagram msg sized (packed_small msg s small) in
    let stored : (build_datagram msg).1 ≡ u16 (length (build_datagram msg).0) =
      unfold build_datagram in refl in
    ap u16 raw ∙ sym stored

-- Where CoAP_SendMsg returned COAP_OK for a sendable message of fewer than 65536 bytes, the packet
-- that it handed over last is parsed back, by a peer whose `malloc` refuses nothing, to the message
-- with the same type, code, message id, token, options and payload.
pub send_msg-parse_message_from_datagram :
    (sys : System) (msg : Message) (socket : ℕ) (receiver : Endpoint) (w : World) (packet : Packet)
    (rest : List (Packet × Bool)) (peer : Platform) (now : ℕ) (src : Memory) (m : Mem)
    → IsSendable msg
    → length (build_datagram msg).0 < 65536
    → (send_msg sys msg socket receiver w).0 ≡ ok
    → (send_msg sys msg socket receiver w).2.log ≡ (packet, true) ∷ rest
    → Plentiful peer
    → Holds src 0 packet.bytes
    → parse_message_from_datagram peer now src packet.size m
      ≡ some (ok, some (delivered now msg), granted_mem (granted_times (length msg.options) m))
send_msg-parse_message_from_datagram sys msg socket receiver w packet rest peer now src m s small
      sent logged plenty holds =
    elim (send_msg-log sys msg socket receiver w) [
      | inr bad ↦ absurd (bad.0 sent)
      | inl good ↦
          let same : packet_of msg socket receiver ≡ packet = cc (good.1.0, logged) in
          let received : Holds src 0 (build_datagram msg).0 = rw (← same) at holds in
          rw (← same, packet-size msg socket receiver s small)
            (parse_message_from_datagram-build_datagram peer now src msg m plenty s small received)
    ]
