-- ===== src/Machine/Sound/Packet.antt =====
-- CoAP_HandleIncomingPacket keeps all interactions sound: the way of a packet to the interactions.
use lobaro_coap.Machine.Sound.{handled, flag}
use lobaro_coap.Common.{
  ℕ, ◌≡◌, refl, true, false, ◌&&◌, Option, none, some, inl, inr, arith, ◌==◌, Bool-cases,
  Option-cases,
}
use mathlib.Core.Option.{some-injective}
use lobaro_coap.OptionWire.{Memory}
use lobaro_coap.OptionList.{check_for_unknown_critical_option}
use lobaro_coap.Endpoint.{Endpoint}
use lobaro_coap.Message.{
  MessageType, ack, rst, Message, empty_code, msg_is_request, parse_message_from_datagram,
}
use lobaro_coap.Resource.{resource_at, find_resource_by_uri}
use lobaro_coap.Platform.{CoapResult, ok, err_out_of_memory}
use lobaro_coap.Send.{System}
use lobaro_coap.Interaction.{Interaction, is_con, find_interaction_by_message_id_and_ep}
use lobaro_coap.Machine.{Coap, with_mem}
use lobaro_coap.Machine.Start.{start_server}
use lobaro_coap.Machine.Incoming.{
  Origin, end_message, answer_and_end, reset_and_end, is_ignored, answer_not_found, reject_option,
  request_taken, take_request, take_response, dispatch, wake_interaction, accept_message,
  has_handler, find_and_accept, handle_message, handle_incoming_packet,
}
use lobaro_coap.Machine.Sound.{IsSound, AllSound, AllSoundAfter}
use lobaro_coap.Machine.Sound.Resources.{resource_at-flag}
use lobaro_coap.Machine.Sound.Start.{start_server-AllSound}
use lobaro_coap.Machine.Sound.Incoming.{
  All-find, store-AllSound, FoundSound, acknowledge-AllSound, reset-AllSound,
  take_response-AllSound,
}

request_taken-AllSound :
    (sys : System) (c : Coap) (msg : Message) (from : Origin) (r : CoapResult)
    → AllSound c
    → AllSound (request_taken sys c msg from r)
unfolding request_taken answer_and_end end_message
request_taken-AllSound sys c msg from ok a = a
request_taken-AllSound sys c msg from err_out_of_memory a = elim (Bool-cases (is_con msg.type)) [
  | inl confirmable ↦ rw (confirmable, request_taken) a
  | inr plain ↦ rw (plain, request_taken) a
]
request_taken-AllSound sys c msg from _ a = a

take_request-AllSound :
    (sys : System) (c : Coap) (msg : Message) (from : Origin) (res : ℕ)
    → AllSound c
    → flag (handled c.resources) res ≡ true
    → AllSoundAfter (take_request sys c msg from res)
unfolding take_request
take_request-AllSound sys c msg from res a there =
    elim (Option-cases (start_server sys c msg res from.socket from.ep from.meta)) [
      | inl broken ↦ rw (broken, take_request) tt
      | inr ((r, c'), started) ↦
          rw (started, take_request)
            (request_taken-AllSound sys c' msg from r (
              start_server-AllSound sys c c' msg res from.socket from.ep from.meta r started a
                there))
    ]

dispatch-AllSound :
    (sys : System) (c : Coap) (msg : Message) (from : Origin) (res : Option ℕ)
    (found : Option Interaction)
    → AllSound c
    → FoundSound (handled c.resources) found
    → ((i : ℕ) → res ≡ some i → flag (handled c.resources) i ≡ true)
    → AllSoundAfter (dispatch sys c msg from res found)
unfolding dispatch
dispatch-AllSound sys c msg from res found a s there = by_type msg.type refl
  where
    taken :
        (r : Option ℕ)
        → res ≡ r
        → AllSoundAfter (elim r [
          | some i ↦ take_request sys c msg from i
          | none ↦ take_response sys c msg from
        ])
    taken none e = take_response-AllSound sys c msg from a
    taken (some i) e = take_request-AllSound sys c msg from i a (there i e)

    by_type : (t : MessageType) → msg.type ≡ t → AllSoundAfter (dispatch sys c msg from res found)
    by_type rst e = rw (e, dispatch) (reset-AllSound c found msg a s)
    by_type ack e = rw (e, dispatch) (acknowledge-AllSound c found msg a s)
    by_type _ e = rw (e, dispatch) (taken res refl)

wake_interaction-AllSound :
    (c : Coap) (id : ℕ) (ep : Endpoint)
    → AllSound c
    → AllSound (wake_interaction c id ep).0
      × (FoundSound (handled (wake_interaction c id ep).0.resources) (wake_interaction c id ep).1
          × (handled (wake_interaction c id ep).0.resources ≡ handled c.resources))
unfolding wake_interaction FoundSound
wake_interaction-AllSound c id ep a =
    elim (Option-cases (find_interaction_by_message_id_and_ep c.interactions id ep)) [
      | inl nobody ↦ rw (nobody, wake_interaction) (a, (tt, refl))
      | inr (x, found) ↦
          let s = All-find _ c.interactions id ep x found a in
          let x' : Interaction = record x { sleep_until = 0 } in
          let s' : IsSound (handled c.resources) x' = ground (arith, s) in
          rw (found, wake_interaction) (store-AllSound c x' a s', (s', refl))
    ]

accept_message-AllSound :
    (sys : System) (c : Coap) (msg : Message) (from : Origin) (res : Option ℕ)
    → AllSound c
    → ((i : ℕ) → res ≡ some i → flag (handled c.resources) i ≡ true)
    → AllSoundAfter (accept_message sys c msg from res)
unfolding accept_message reject_option answer_and_end reset_and_end end_message
accept_message-AllSound sys c msg from res a there =
    let (a', (s, same)) = wake_interaction-AllSound c msg.message_id from.ep a in
    elim (Bool-cases (check_for_unknown_critical_option msg.options == 0)) [
      | inl known ↦
          rw (known, accept_message)
            (dispatch-AllSound sys _ msg from res _ a' s (λ i e. rw same (there i e)))
      | inr unknown ↦ elim (Bool-cases (is_con msg.type)) [
        | inr plain ↦ rw (unknown, plain, accept_message) a
        | inl confirmable ↦ elim (Bool-cases (msg_is_request msg)) [
          | inl request ↦ rw (unknown, confirmable, request, accept_message) a
          | inr response ↦ rw (unknown, confirmable, response, accept_message) a
        ]
      ]
    ]

has_handler-flag :
    (c : Coap) (res : Option ℕ) (i : ℕ)
    → has_handler c res ≡ true
    → res ≡ some i
    → flag (handled c.resources) i ≡ true
unfolding has_handler
has_handler-flag c none i h e = absurd (cc e)
has_handler-flag c (some j) i h e = elim (Option-cases (resource_at c.resources j)) [
  | inl nowhere ↦ absurd (let clash : false ≡ true = rw (nowhere, has_handler) at h in cc clash)
  | inr (r, there) ↦ elim (Option-cases r.handler) [
    | inl unset ↦
        absurd (let clash : false ≡ true = rw (there, unset, has_handler) at h in cc clash)
    | inr (handler, set) ↦
        rw (← some-injective j i e) (resource_at-flag c.resources j r there (rw (set) refl))
  ]
]

find_and_accept-AllSound :
    (sys : System) (c : Coap) (msg : Message) (from : Origin)
    → AllSound c
    → AllSoundAfter (find_and_accept sys c msg from)
unfolding find_and_accept answer_not_found answer_and_end end_message
find_and_accept-AllSound sys c msg from a =
    elim (Option-cases (find_resource_by_uri c.resources msg.options)) [
      | inl endless ↦ rw (endless, find_and_accept) tt
      | inr (res, found) ↦ elim (Bool-cases (has_handler c res)) [
        | inl served ↦
            rw (found, served, find_and_accept)
              (accept_message-AllSound sys c msg from res a
                (λ i e. has_handler-flag c res i served e))
        | inr idle ↦ elim (Bool-cases (is_con msg.type)) [
          | inl confirmable ↦ rw (found, idle, confirmable, find_and_accept) a
          | inr plain ↦ rw (found, idle, plain, find_and_accept) a
        ]
      ]
    ]

handle_message-AllSound :
    (sys : System) (c : Coap) (msg : Message) (from : Origin)
    → AllSound c
    → AllSoundAfter (handle_message sys c msg from)
unfolding handle_message reset_and_end end_message
handle_message-AllSound sys c msg from a =
    elim (Bool-cases (is_con msg.type && (msg.code == empty_code))) [
      | inl ping ↦ rw (ping, handle_message) a
      | inr other ↦ elim (Bool-cases (is_ignored msg)) [
        | inl ignored ↦ rw (other, ignored, handle_message) a
        | inr good ↦ elim (Bool-cases (msg_is_request msg)) [
          | inl request ↦
              rw (other, good, request, handle_message) (find_and_accept-AllSound sys c msg from a)
          | inr response ↦
              rw (other, good, response, handle_message)
                (accept_message-AllSound sys c msg from none a
                  (λ i e. absurd (let clash : none ≡ some i = e in cc clash)))
        ]
      ]
    ]

-- CoAP_HandleIncomingPacket keeps all interactions sound, whatever bytes arrive.
pub handle_incoming_packet-AllSound :
    (sys : System) (c : Coap) (src : Memory) (size : ℕ) (from : Origin)
    → AllSound c
    → AllSoundAfter (handle_incoming_packet sys c src size from)
unfolding handle_incoming_packet
handle_incoming_packet-AllSound sys c src size from a =
    elim (Option-cases
      (parse_message_from_datagram sys.platform c.world.now src size c.world.mem)) [
        | inl endless ↦ rw (endless, handle_incoming_packet) tt
        | inr ((r, parsed, m), is) ↦ elim (Option-cases parsed) [
          | inl bad ↦ rw (is, bad, handle_incoming_packet) a
          | inr (msg, good) ↦
              rw (is, good, handle_incoming_packet)
                (handle_message-AllSound sys (with_mem c m) msg from a)
        ]
      ]
