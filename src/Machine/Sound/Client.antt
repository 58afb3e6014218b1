-- ===== src/Machine/Sound/Client.antt =====
-- The client's state machine keeps all interactions sound.
use lobaro_coap.Machine.Sound.{handled}
use lobaro_coap.Common.{
  List, Bool, ℕ, ◌+◌, ◌≤◌, ◌≡◌, refl, ap, ◌∙◌, Option, none, some, arith, inl, inr, Bool-cases,
  Option-cases,
}
use lobaro_coap.Platform.{CoapResult, waiting, retry}
use lobaro_coap.OptionWire.{is_ok}
use lobaro_coap.Message.{Message}
use lobaro_coap.Send.{System, send_msg}
use lobaro_coap.Interaction.{
  Interaction, InteractionState, role_client, waiting_response, ready_to_request, handle_response,
}
use lobaro_coap.Machine.{Coap, enable_ack_timeout, max_retransmit, check_req_status, request_status}
use lobaro_coap.Machine.Client.{
  request_sent_as, send_req, call_back, retry_request, on_request_status, handle_client_interaction,
}
use lobaro_coap.Machine.Sound.{
  IsSound, AllSound, AllSoundAfter, All-store, enqueue_last_interaction-AllSound,
  delete_interaction-AllSound,
}

request_sent-IsSound :
    (n : List Bool) (now : ℕ) (msg : Message) (x : Interaction)
    → IsSound n x
    → x.role ≡ role_client
    → IsSound n
        (record (request_sent_as now msg x) { req_msg = some msg; state = waiting_response })
unfolding request_sent_as enable_ack_timeout
request_sent-IsSound n now msg x s client = ground arith

send_req-AllSound :
    (sys : System) (c : Coap) (x : Interaction)
    → AllSound c
    → IsSound (handled c.resources) x
    → x.role ≡ role_client
    → AllSoundAfter (send_req sys c x waiting_response)
unfolding send_req
send_req-AllSound sys c x a s client = elim (Option-cases x.req_msg) [
  | inl missing ↦ rw (missing, send_req) tt
  | inr (msg, there) ↦
      let (r, msg', w) = send_msg sys msg x.socket_handle x.remote_ep c.world in
      let c' : Coap = record c { world = w } in
      elim (Bool-cases (is_ok r)) [
        | inl sent ↦
            rw (there, sent, send_req)
              (enqueue_last_interaction-AllSound c' _ a
                (request_sent-IsSound (handled c.resources) w.now msg' x s client))
        | inr failed ↦ rw (there, failed, send_req) (delete_interaction-AllSound c' _ a)
      ]
]

call_back-AllSound :
    (c : Coap) (x : Interaction) (resp : Option Message)
    → AllSound c
    → AllSound (call_back c x resp)
unfolding call_back
call_back-AllSound c x resp a = elim (Option-cases x.resp_cb) [
  | inl nobody ↦ rw (nobody, call_back) a
  | inr (f, there) ↦ rw (there, call_back) a
]

retry_request-AllSound :
    (sys : System) (c : Coap) (x : Interaction)
    → AllSound c
    → IsSound (handled c.resources) x
    → x.retrans_counter + 1 ≤ max_retransmit
    → AllSoundAfter (retry_request sys c x)
unfolding retry_request enable_ack_timeout
retry_request-AllSound sys c x a s few = elim (Option-cases x.req_msg) [
  | inl missing ↦ rw (missing, retry_request) tt
  | inr (msg, there) ↦
      let (r, msg', w) = send_msg sys msg x.socket_handle x.remote_ep c.world in
      let c' : Coap = record c { world = w } in
      let x' : Interaction = record x { req_msg = some msg' } in
      elim (Bool-cases (is_ok r)) [
        | inl sent ↦
            rw (there, sent, retry_request) (All-store _ c.interactions _ a (ground (arith, few)))
        | inr failed ↦
            rw (there, failed, retry_request)
              (delete_interaction-AllSound (call_back c' x' none) x'
                (call_back-AllSound c' x' none a))
      ]
]

-- COAP_RETRY is the status of a request only where it was sent again fewer than three times.
pub request_status-retry :
    (now : ℕ) (x : Interaction)
    → check_req_status now x ≡ some retry
    → x.retrans_counter + 1 ≤ max_retransmit
unfolding check_req_status request_status
request_status-retry now x e = ground arith

on_request_status-AllSound :
    (sys : System) (c : Coap) (x : Interaction) (status : CoapResult)
    → AllSound c
    → IsSound (handled c.resources) x
    → (status ≡ retry → x.retrans_counter + 1 ≤ max_retransmit)
    → AllSoundAfter (on_request_status sys c x status)
unfolding on_request_status
on_request_status-AllSound sys c x waiting a s few = enqueue_last_interaction-AllSound c x a s
on_request_status-AllSound sys c x retry a s few = retry_request-AllSound sys c x a s (few refl)
on_request_status-AllSound sys c x _ a s few =
    delete_interaction-AllSound (call_back c x none) x (call_back-AllSound c x none a)

-- handleClientInteraction keeps all interactions sound.
pub handle_client_interaction-AllSound :
    (sys : System) (c : Coap) (x : Interaction)
    → AllSound c
    → IsSound (handled c.resources) x
    → x.role ≡ role_client
    → AllSoundAfter (handle_client_interaction sys c x)
unfolding handle_client_interaction
handle_client_interaction-AllSound sys c x a s client = by_state x.state refl
  where
    by_state :
        (st : InteractionState) → x.state ≡ st → AllSoundAfter (handle_client_interaction sys c x)
    by_state ready_to_request e =
        rw (e, handle_client_interaction) (send_req-AllSound sys c x a s client)
    by_state waiting_response e = elim (Option-cases (check_req_status c.world.now x)) [
      | inl missing ↦ rw (e, missing, handle_client_interaction) tt
      | inr (status, is) ↦
          rw (e, is, handle_client_interaction)
            (on_request_status-AllSound sys c x status a s
              (λ again. request_status-retry c.world.now x (is ∙ ap some again)))
    ]
    by_state handle_response e =
        rw (e, handle_client_interaction)
          (delete_interaction-AllSound _ x (call_back-AllSound c x x.resp_msg a))
    by_state _ e =
        rw (e, handle_client_interaction)
          (delete_interaction-AllSound _ x (call_back-AllSound c x none a))
