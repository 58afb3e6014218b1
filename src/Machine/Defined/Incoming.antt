-- ===== src/Machine/Defined/Incoming.antt =====
-- CoAP_HandleIncomingPacket of src/coap_main.c returns and follows no NULL pointer.
use lobaro_coap.Machine.Sound.{handled}
use lobaro_coap.Common.{
  Bool, ℕ, ◌+◌, ◌-◌, ◌%◌, ◌≤◌, ◌≡◌, refl, List, [], ◌∷◌, Option, none, some, arith, inl, inr, All,
  Option-cases,
}
use lobaro_coap.Endpoint.{Endpoint}
use lobaro_coap.Platform.{Platform, Mem}
use lobaro_coap.OptionWire.{Memory, u16}
use lobaro_coap.OptionWire.Termination.{parse_options_from_raw_ends}
use lobaro_coap.Message.{Message, parse_body, parse_message_from_datagram}
use lobaro_coap.Resource.{Resource}
use lobaro_coap.Machine.Sound.Reachable.{Reachable, Reachable-AllSound}
use lobaro_coap.Send.{System}
use lobaro_coap.Resource.Find.{find_resource_by_uri-FoundFirst}
use lobaro_coap.Interaction.{
  start_new_server_interaction, MetaInfo, Interaction, ack_send,
  find_interaction_by_message_id_and_ep,
}
use lobaro_coap.Machine.{Coap, with_mem, store}
use lobaro_coap.Interaction.Duplicates.{find_duplicate-cases}
use lobaro_coap.Machine.Start.{start_server}
use lobaro_coap.Machine.Duplicates.{IsSound-HasRequest}
use lobaro_coap.Machine.Incoming.{
  take_request, Origin, piggybacked, acknowledge, find_client, take_response, dispatch,
  wake_interaction, accept_message, find_and_accept, handle_message, handle_incoming_packet,
}
use lobaro_coap.Machine.Sound.{IsSound, AllSound}
use lobaro_coap.Machine.Sound.Incoming.{FoundSound, All-find, store-AllSound}
use lobaro_coap.Machine.Defined.{Returns}

piggybacked-Returns :
    (n : List Bool) (c : Coap) (x : Interaction) (msg : Message)
    → IsSound n x
    → Returns (piggybacked c x msg)
unfolding piggybacked
piggybacked-Returns n c x msg s = ground (arith, s)

acknowledge-Returns :
    (n : List Bool) (c : Coap) (found : Option Interaction) (msg : Message)
    → FoundSound n found
    → Returns (acknowledge c found msg)
unfolding acknowledge FoundSound
acknowledge-Returns n c none msg s = refl
acknowledge-Returns n c (some x) msg s =
    let x' : Interaction = record x { res_confirm_state = ack_send } in
    let s' : IsSound n x' = ground (arith, s) in
    let answered = piggybacked-Returns n (store c x') x' msg s' in ground (arith, answered)

find_client-Returns :
    (n : List Bool) (xs : List Interaction) (msg : Message) (ep : Endpoint)
    → All (IsSound n) xs
    → Returns (find_client xs msg ep)
unfolding find_client
find_client-Returns n [] msg ep a = refl
find_client-Returns n (x ∷ xs) msg ep (s, a) =
    let rest = find_client-Returns n xs msg ep a in ground (arith, s, rest)

take_response-Returns :
    (sys : System) (c : Coap) (msg : Message) (from : Origin)
    → AllSound c
    → Returns (take_response sys c msg from)
unfolding take_response
take_response-Returns sys c msg from a =
    let found = find_client-Returns (handled c.resources) c.interactions msg from.ep a in
    ground (arith, found)

start_server-Returns :
    (sys : System) (c : Coap) (msg : Message) (res socket : ℕ) (ep : Endpoint) (meta : MetaInfo)
    → AllSound c
    → Returns (start_server sys c msg res socket ep meta)
unfolding start_server start_new_server_interaction
start_server-Returns sys c msg res socket ep meta a =
    let has = IsSound-HasRequest (handled c.resources) c.interactions a in
    elim (find_duplicate-cases c.interactions msg.message_id socket ep has) [
      | inl (x, found, first) ↦ ground (arith, found)
      | inr (nobody, fresh) ↦ ground (arith, nobody)
    ]

take_request-Returns :
    (sys : System) (c : Coap) (msg : Message) (from : Origin) (res : ℕ)
    → AllSound c
    → Returns (take_request sys c msg from res)
unfolding take_request
take_request-Returns sys c msg from res a =
    let started = start_server-Returns sys c msg res from.socket from.ep from.meta a in
    ground (arith, started)

dispatch-Returns :
    (sys : System) (c : Coap) (msg : Message) (from : Origin) (res : Option ℕ)
    (found : Option Interaction)
    → AllSound c
    → FoundSound (handled c.resources) found
    → Returns (dispatch sys c msg from res found)
unfolding dispatch
dispatch-Returns sys c msg from none found a s =
    let acknowledged = acknowledge-Returns (handled c.resources) c found msg s in
    let taken = take_response-Returns sys c msg from a in ground (arith, acknowledged, taken)
dispatch-Returns sys c msg from (some i) found a s =
    let acknowledged = acknowledge-Returns (handled c.resources) c found msg s in
    let taken = take_request-Returns sys c msg from i a in ground (arith, acknowledged, taken)

accept_message-Returns :
    (sys : System) (c : Coap) (msg : Message) (from : Origin) (res : Option ℕ)
    → AllSound c
    → Returns (accept_message sys c msg from res)
unfolding accept_message wake_interaction FoundSound
accept_message-Returns sys c msg from res a =
    elim (Option-cases
      (find_interaction_by_message_id_and_ep c.interactions msg.message_id from.ep)) [
        | inl nobody ↦
            let taken = dispatch-Returns sys c msg from res none a tt in
            ground (arith, nobody, taken)
        | inr (x, there) ↦
            let s =
              All-find (IsSound (handled c.resources)) c.interactions msg.message_id from.ep x there
                a in
            let x' : Interaction = record x { sleep_until = 0 } in
            let s' : IsSound (handled c.resources) x' = ground (arith, s) in
            let taken =
              dispatch-Returns sys (store c x') msg from res (some x') (store-AllSound c x' a s')
                s' in
            ground (arith, there, taken)
      ]

pub handle_message-Returns :
    (sys : System) (c : Coap) (msg : Message) (from : Origin)
    → AllSound c
    → Returns (handle_message sys c msg from)
unfolding handle_message find_and_accept
handle_message-Returns sys c msg from a =
    let (res, found, first) = find_resource_by_uri-FoundFirst c.resources msg.options in
    let request = accept_message-Returns sys c msg from res a in
    let other = accept_message-Returns sys c msg from none a in
    ground (arith, found, request, other)

-- A datagram that does not end within its token.
parse_message-Returns :
    (p : Platform) (now : ℕ) (src : Memory) (size : ℕ) (m : Mem)
    → 4 + src 0 % 16 ≤ size
    → size ≤ 65531
    → Returns (parse_message_from_datagram p now src size m)
unfolding parse_message_from_datagram parse_body
parse_message-Returns p now src size m whole small =
    let offset = 4 + src 0 % 16 in
    let n = u16 (size + 65536 - offset) in
    let fits : n ≤ 65531 = ground arith in
    let (r, parsed) = parse_options_from_raw_ends p (λ i. src (offset + i)) n [] m fits in
    ground (arith, parsed)

-- In every reachable state CoAP_HandleIncomingPacket returns, for any bytes of at most 65531 that
-- do not end within the token that the first of them announces: no loop over options or resources
-- runs on, and no NULL pointer is followed.
pub handle_incoming_packet-Reachable :
    (sys : System) (rs : List Resource) {c : Coap} (src : Memory) (size : ℕ) (from : Origin)
    → Reachable sys rs c
    → 4 + src 0 % 16 ≤ size
    → size ≤ 65531
    → (c' : Coap) × (handle_incoming_packet sys c src size from ≡ some c')
unfolding handle_incoming_packet
handle_incoming_packet-Reachable sys rs {c} src size from reached whole small =
    let a = Reachable-AllSound sys rs reached in
    let ends = parse_message-Returns sys.platform c.world.now src size c.world.mem whole small in
    elim (Option-cases
      (parse_message_from_datagram sys.platform c.world.now src size c.world.mem)) [
        | inl lost ↦ ground (arith, lost, ends)
        | inr ((r, parsed, m), is) ↦ elim (Option-cases parsed) [
          | inl bad ↦ (with_mem c m, rw (is, bad, handle_incoming_packet) refl)
          | inr (msg, good) ↦
              let handled = handle_message-Returns sys (with_mem c m) msg from a in
              elim (Option-cases (handle_message sys (with_mem c m) msg from)) [
                | inl lost ↦ ground (arith, lost, handled)
                | inr (c', taken) ↦ (c', rw (is, good, taken, handle_incoming_packet) refl)
              ]
        ]
      ]
