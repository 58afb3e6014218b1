-- ===== src/Machine/Client.antt =====
-- The state machine of a client's interaction: SendReq and handleClientInteraction.
use lobaro_coap.Common.{ℕ, ◌+◌, ◌%◌, ◌∷◌, Option, none, some, if◌then◌else◌}
use lobaro_coap.Platform.{CoapResult, waiting, retry}
use lobaro_coap.OptionWire.{is_ok}
use lobaro_coap.Message.{con, Message}
use lobaro_coap.Send.{System, send_msg}
use lobaro_coap.Interaction.{
  InteractionState, Interaction, ready_to_request, waiting_response, handle_response,
}
use lobaro_coap.Machine.{
  Coap, enable_ack_timeout, store, enqueue_last_interaction, delete_interaction, check_req_status,
}

-- After a request was sent.
unfoldable pub request_sent_as : ℕ → Message → Interaction → Interaction
request_sent_as now msg x = elim msg.type [ con ↦ enable_ack_timeout now x | _ ↦ x ]

-- SendReq. Its result is used by no caller.
unfoldable pub send_req : System → Coap → Interaction → InteractionState → Option Coap
send_req sys c x next_state = elim x.req_msg [
  | none ↦ none
  | some msg ↦
      let (r, msg', w) = send_msg sys msg x.socket_handle x.remote_ep c.world in
      let c' = record c { world = w } in
      if is_ok r
      then some (
          enqueue_last_interaction c'
            (record (request_sent_as w.now msg' x) { req_msg = some msg'; state = next_state }))
      else some (delete_interaction c' (record x { req_msg = some msg' }))
]

-- A call of the interaction's `RespCB`, if it has one, with a response or NULL.
unfoldable pub call_back : Coap → Interaction → Option Message → Coap
call_back c x resp = elim x.resp_cb [
  | none ↦ c
  | some f ↦ record c {
    callbacks =
        record { callback = f; resp = resp; req = x.req_msg; sender = x.remote_ep } ∷ c.callbacks;
  }
]

-- The case COAP_RETRY of handleClientInteraction.
unfoldable pub retry_request : System → Coap → Interaction → Option Coap
retry_request sys c x = elim x.req_msg [
  | none ↦ none
  | some msg ↦
      let (r, msg', w) = send_msg sys msg x.socket_handle x.remote_ep c.world in
      let c' = record c { world = w } in
      let x' = record x { req_msg = some msg' } in
      if is_ok r
      then some (
          store c' (
            enable_ack_timeout w.now
              (record x' { retrans_counter = (x.retrans_counter + 1) % 256 })))
      else some (delete_interaction (call_back c' x' none) x')
]

-- The switch on the status of the request.
unfoldable pub on_request_status : System → Coap → Interaction → CoapResult → Option Coap
on_request_status sys c x status = elim status [
  | waiting ↦ some (enqueue_last_interaction c x)
  | retry ↦ retry_request sys c x
  | _ ↦ some (delete_interaction (call_back c x none) x)
]

-- handleClientInteraction.
unfoldable pub handle_client_interaction : System → Coap → Interaction → Option Coap
handle_client_interaction sys c x = elim x.state [
  | ready_to_request ↦ send_req sys c x waiting_response
  | waiting_response ↦ elim (check_req_status c.world.now x) [
    | none ↦ none
    | some status ↦ on_request_status sys c x status
  ]
  | handle_response ↦ some (delete_interaction (call_back c x x.resp_msg) x)
  | _ ↦ some (delete_interaction (call_back c x none) x)
]
