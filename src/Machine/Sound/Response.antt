-- ===== src/Machine/Sound/Response.antt =====
-- Sending responses, and looking after a response that was sent, keep all interactions sound.
use lobaro_coap.Machine.Sound.{handled}
use lobaro_coap.Common.{
  List, Bool, ℕ, ◌+◌, ◌≤◌, ◌≡◌, true, false, some, arith, inl, inr, Bool-cases, Option-cases,
}
use lobaro_coap.Platform.{CoapResult, retry}
use lobaro_coap.OptionWire.{is_ok}
use lobaro_coap.Message.{Message}
use lobaro_coap.Send.{System, send_msg}
use lobaro_coap.Interaction.{Interaction, InteractionState}
use lobaro_coap.Machine.{
  Coap, enable_ack_timeout, max_retransmit, response_sent_as, send_resp, check_resp_status,
  response_status, retry_response,
}
use lobaro_coap.Machine.Incoming.{is_client}
use lobaro_coap.Machine.Sound.{
  IsSound, AllSound, AllSoundAfter, fits, All-store, enqueue_last_interaction-AllSound,
  delete_interaction-AllSound,
}

response_sent-IsSound :
    (n : List Bool) (now : ℕ) (msg : Message) (x : Interaction) (next_state : InteractionState)
    → IsSound n x
    → is_client x.role ≡ false
    → fits x.role next_state ≡ true
    → IsSound n (record (response_sent_as now msg x) { resp_msg = some msg; state = next_state })
unfolding response_sent_as enable_ack_timeout
response_sent-IsSound n now msg x next_state s served fit = ground arith

-- SendResp of an interaction of a server or of a notification.
pub send_resp-AllSound :
    (sys : System) (c : Coap) (x : Interaction) (next_state : InteractionState)
    → AllSound c
    → IsSound (handled c.resources) x
    → is_client x.role ≡ false
    → fits x.role next_state ≡ true
    → AllSoundAfter (send_resp sys c x next_state)
unfolding send_resp
send_resp-AllSound sys c x next_state a s served fit = elim (Option-cases x.resp_msg) [
  | inl missing ↦ rw (missing, send_resp) tt
  | inr (msg, there) ↦
      let (r, msg', w) = send_msg sys msg x.socket_handle x.remote_ep c.world in
      let c' : Coap = record c { world = w } in
      elim (Bool-cases (is_ok r)) [
        | inl sent ↦
            rw (there, sent, send_resp)
              (enqueue_last_interaction-AllSound c' _ a
                (response_sent-IsSound (handled c.resources) w.now msg' x next_state s served fit))
        | inr failed ↦ rw (there, failed, send_resp) (delete_interaction-AllSound c' _ a)
      ]
]

pub retry_response-AllSound :
    (sys : System) (c : Coap) (x : Interaction)
    → AllSound c
    → IsSound (handled c.resources) x
    → x.retrans_counter + 1 ≤ max_retransmit
    → AllSoundAfter (retry_response sys c x)
unfolding retry_response enable_ack_timeout
retry_response-AllSound sys c x a s few = elim (Option-cases x.resp_msg) [
  | inl missing ↦ rw (missing, retry_response) tt
  | inr (msg, there) ↦
      let (r, msg', w) = send_msg sys msg x.socket_handle x.remote_ep c.world in
      let c' : Coap = record c { world = w } in
      elim (Bool-cases (is_ok r)) [
        | inl sent ↦
            rw (there, sent, retry_response) (All-store _ c.interactions _ a (ground (arith, few)))
        | inr failed ↦ rw (there, failed, retry_response) (delete_interaction-AllSound c' _ a)
      ]
]

-- CheckRespStatus keeps the interaction sound, and answers COAP_RETRY only where the response was
-- sent again fewer than three times.
pub check_resp_status-IsSound :
    (n : List Bool) (now : ℕ) (x x' : Interaction) (status : CoapResult)
    → check_resp_status now x ≡ some (status, x')
    → IsSound n x
    → IsSound n x' × (x'.role ≡ x.role)
unfolding check_resp_status response_status
check_resp_status-IsSound n now x x' status e s = ground arith

pub check_resp_status-retry :
    (now : ℕ) (x x' : Interaction)
    → check_resp_status now x ≡ some (retry, x')
    → x'.retrans_counter + 1 ≤ max_retransmit
unfolding check_resp_status response_status
check_resp_status-retry now x x' e = ground arith
