-- ===== src/Machine/Defined.antt =====
-- CoAP_doWork follows no NULL pointer.
pub mod Notify
pub mod Server
pub mod Incoming
pub mod Work
use lobaro_coap.Machine.Sound.{handled}
use lobaro_coap.Common.{
  ℕ, ◌+◌, ◌≡◌, ◌∙◌, refl, ap, zero, suc, Bool, true, false, ◌&&◌, ◌||◌, not, List, [], ◌∷◌, Option,
  none, some, if◌then◌else◌, length, ltb, ◌==◌, arith, inl, inr, All, Bool-cases, Option-cases,
}
use mathlib.Core.Path.{subst}
use lobaro_coap.Platform.{
  CoapResult, waiting, retry, ok, holding_back, err_out_of_attempts, err_remote_rst, Plentiful,
  malloc,
}
use lobaro_coap.Time.{time_after}
use lobaro_coap.OptionWire.{is_ok}
use lobaro_coap.Endpoint.{Endpoint, ep_are_equal}
use lobaro_coap.Observe.{get_observe_option_from_msg}
use lobaro_coap.Message.{Message, Token, empty_code, token_equal}
use lobaro_coap.Message.Create.{create_message, msg_is_older_than}
use lobaro_coap.Observer.{observer_at}
use lobaro_coap.Resource.{
  Resource, HandlerResult, Handler, handler_ok, handler_postpone, handler_error, resource_at,
}
use lobaro_coap.Send.{System, World, get_resp_msg_id, alloc_resp_msg, send_empty_ack}
use lobaro_coap.Interaction.{
  Interaction, InteractionState, InteractionRole, is_con, is_server, role_server, role_client,
  role_notification, role_not_set, ready_to_request, waiting_response, handle_response,
  ready_to_notify, notification_sent, handle_request, resource_postpone_empty_ack_sent,
  response_sent, response_waiting_leisure,
}
use lobaro_coap.Machine.{
  Coap, with_mem, resource_of, send_resp, retry_response, check_resp_status, check_req_status,
  response_status, set_sleep_interaction, is_ack_send,
}
use lobaro_coap.Machine.Client.{
  send_req, retry_request, on_request_status, handle_client_interaction,
}
use lobaro_coap.Machine.Observation.{
  is_notification, remove_interactions_observer, find_pending, deregister_observer,
  register_observer, handle_observation_in_req,
}
use lobaro_coap.Machine.Notify.{
  after_notifier, refresh_notification, retry_notification, finish_notification,
  give_up_notification, on_notification_status, handle_notify_interaction,
}
use lobaro_coap.Machine.Incoming.{is_client}
use lobaro_coap.Machine.Sound.{IsSound, AllSound, is_some, within}

-- A handler that returns, and follows no pointer that leads nowhere.
abbrev pub Returns {ℓ} : {A : Type ℓ} → Option A → Type 0
Returns o = is_some o ≡ true

pub handle_client_interaction-Returns :
    (sys : System) (c : Coap) (x : Interaction)
    → IsSound (handled c.resources) x
    → x.role ≡ role_client
    → Returns (handle_client_interaction sys c x)
unfolding handle_client_interaction send_req retry_request on_request_status check_req_status
handle_client_interaction-Returns sys c x s client = ground (arith, s, client)

pub resource_at-Returns :
    (rs : List Resource) (i : ℕ) → ltb i (length (handled rs)) ≡ true → Returns (resource_at rs i)
unfolding resource_at
resource_at-Returns [] i h = ground (arith, h)
resource_at-Returns (r ∷ rs) zero h = refl
resource_at-Returns (r ∷ rs) (suc i) h = resource_at-Returns rs i (ground (arith, h))

pub resource_of-Returns :
    (c : Coap) (x : Interaction)
    → IsSound (handled c.resources) x
    → is_client x.role ≡ false
    → Returns (resource_of c x)
unfolding resource_of
resource_of-Returns c x s other = elim (Option-cases x.res) [
  | inl nowhere ↦ ground (arith, s, other, nowhere)
  | inr (i, there) ↦
      let inside : ltb i (length (handled c.resources)) ≡ true = ground (arith, s, other, there) in
      rw (there, resource_of) (resource_at-Returns c.resources i inside)
]

pub send_resp-Returns :
    (sys : System) (c : Coap) (x : Interaction) (st : InteractionState)
    → is_some x.resp_msg ≡ true
    → Returns (send_resp sys c x st)
unfolding send_resp
send_resp-Returns sys c x st h = ground (arith, h)

pub retry_response-Returns :
    (sys : System) (c : Coap) (x : Interaction)
    → is_some x.resp_msg ≡ true
    → Returns (retry_response sys c x)
unfolding retry_response
retry_response-Returns sys c x h = ground (arith, h)

pub remove_interactions_observer-Returns :
    (c : Coap) (x : Interaction) (token : Token)
    → Returns (resource_of c x)
    → Returns (remove_interactions_observer c x token)
unfolding remove_interactions_observer
remove_interactions_observer-Returns c x token h = ground (arith, h)

pub check_resp_status-Returns :
    (now : ℕ) (x : Interaction) → is_some x.resp_msg ≡ true → Returns (check_resp_status now x)
unfolding check_resp_status
check_resp_status-Returns now x h = ground (arith, h)

-- What a handler reads of an interaction is not changed by the look at its response.
pub check_resp_status-same :
    (now : ℕ) (x x' : Interaction) (status : CoapResult)
    → check_resp_status now x ≡ some (status, x')
    → (x'.resp_msg ≡ x.resp_msg)
      × ((x'.res ≡ x.res)
          × ((x'.observer ≡ x.observer)
              × (x'.update_pending_notification ≡ x.update_pending_notification)))
unfolding check_resp_status response_status
check_resp_status-same now x x' status e = ground (arith, e)
