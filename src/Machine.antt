-- ===== src/Machine.antt =====
-- The protocol machine of src/coap_main.c: the state of the whole stack, and the steps that its
-- handlers share, from src/coap_interaction.c and src/coap_main.c. A result `none` of a handler says
-- that the code follows a pointer that is NULL or leads to no node; the clock stands still during
-- one call.
pub mod Client
pub mod Observation
pub mod Notify
pub mod Server
pub mod Start
pub mod Incoming
pub mod Work
pub mod Retransmission
pub mod Sound
pub mod Acknowledged
pub mod Dangling
pub mod Duplicates
pub mod Defined
use lobaro_coap.Common.{
  ℕ, zero, suc, ◌+◌, ◌*◌, ◌%◌, ◌==◌, Bool, true, false, ◌||◌, List, [], ◌∷◌, Option, none, some,
  if◌then◌else◌, ltb,
}
use lobaro_coap.Platform.{
  CoapResult, ok, err_argument, err_remote_rst, err_out_of_attempts, err_timeout, waiting,
  holding_back, retry, Platform, Mem, malloc, free,
}
use lobaro_coap.Time.{u32, time_after}
use lobaro_coap.OptionWire.{is_ok}
use lobaro_coap.Endpoint.{Endpoint}
use lobaro_coap.Message.{con, non, ack, rst, Message}
use lobaro_coap.Message.Create.{msg_is_older_than, free_message}
use lobaro_coap.Resource.{Resource, resource_at, set_resource}
use lobaro_coap.Send.{System, World, send_msg}
use lobaro_coap.Interaction.{
  InteractionState, Interaction, ConfirmationState, ack_send, rst_send,
  unlink_interaction_from_list, unlink_interaction_from_list_by_handle,
  move_interaction_to_list_end,
}

-- A call of a client's CoAP_RespHandler_fn_t, which calls nothing that changes the state.
pub record Callback : Type 0 where
  pub callback : ℕ
  pub resp : Option Message
  pub req : Option Message
  pub sender : Endpoint

-- CoAP_t `CoAP` with its list `pInteractions`, the list `pResList`, what sending uses, and the
-- callbacks that were made, the latest one first.
pub record Coap : Type 0 where
  pub interactions : List Interaction
  pub resources : List Resource
  pub world : World
  pub callbacks : List Callback

abbrev pub ack_timeout_seconds : ℕ
ack_timeout_seconds = 8

abbrev pub max_retransmit : ℕ
max_retransmit = 3

abbrev pub holdtime_after_non_transaction_end : ℕ
holdtime_after_non_transaction_end = 0

abbrev pub client_max_resp_wait_time : ℕ
client_max_resp_wait_time = 45

-- The exponential backoff of CoAP_EnableAckTimeout.
unfoldable pub backoff : ℕ → ℕ → ℕ
backoff zero wait = wait
backoff (suc n) wait = backoff n (u32 (wait * 2))

-- CoAP_EnableAckTimeout without COAP_EXPLICIT_TIMEOUT0.
unfoldable pub enable_ack_timeout : ℕ → Interaction → Interaction
enable_ack_timeout now x = record x {
  ack_timeout = u32 (now + backoff x.retrans_counter ack_timeout_seconds);
}

-- CoAP_SetSleepInteraction.
unfoldable pub set_sleep_interaction : ℕ → Interaction → ℕ → Interaction
set_sleep_interaction now x seconds = record x { sleep_until = u32 (now + seconds) }

-- An assignment through the pointer to an interaction that stays where it is.
unfoldable pub store_interaction : List Interaction → Interaction → List Interaction
store_interaction [] x = []
store_interaction (y ∷ ys) x =
    let rest = store_interaction ys x in if y.address == x.address then x ∷ ys else y ∷ rest

abbrev pub store : Coap → Interaction → Coap
store c x = record c { interactions = store_interaction c.interactions x }

-- CoAP_EnqueueLastInteraction.
unfoldable pub enqueue_last_interaction : Coap → Interaction → Coap
enqueue_last_interaction c x = record c {
  interactions = move_interaction_to_list_end c.interactions x;
}

-- CoAP_FreeInteraction.
unfoldable pub free_interaction : Interaction → Mem → Mem
free_interaction x m = free (free_message x.resp_msg (free_message x.req_msg m))

-- CoAP_DeleteInteraction: where the node is in the list it is taken out and freed.
unfoldable pub delete_interaction : Coap → Interaction → Coap
delete_interaction c x =
    let (rest, found) = unlink_interaction_from_list c.interactions x.address in
    elim found [
      | none ↦ c
      | some y ↦ record c {
        interactions = rest;
        world = record c.world { mem = free_interaction x c.world.mem };
      }
    ]

-- CoAP_ResetInteractionByHandle.
unfoldable pub reset_interaction_by_handle : Coap → ℕ → ℕ → Endpoint → CoapResult × Coap
reset_interaction_by_handle c id socket ep =
    let (r, rest, found) = unlink_interaction_from_list_by_handle c.interactions id socket ep in
    elim found [
      | none ↦ (r, c)
      | some y ↦ (
        r,
        record c {
          interactions = rest;
          world = record c.world { mem = free_interaction y c.world.mem };
        },
      )
    ]

-- A block of the allocator: its place, which no other block ever has, or NULL.
unfoldable pub alloc_node : Platform → ℕ → Mem → Option ℕ × Mem
alloc_node p size m =
    let (granted, m') = malloc p size m in (if granted then some m.mallocs else none, m')

abbrev pub with_mem : Coap → Mem → Coap
with_mem c m = record c { world = record c.world { mem = m } }

-- The resource of an interaction, where the pointer leads to one.
unfoldable pub resource_of : Coap → Interaction → Option Resource
resource_of c x = elim x.res [ none ↦ none | some i ↦ resource_at c.resources i ]

-- An assignment through the pointer to the resource of an interaction.
unfoldable pub set_resource_of : Coap → Interaction → Resource → Coap
set_resource_of c x r = elim x.res [
  | none ↦ c
  | some i ↦ record c { resources = set_resource c.resources i r }
]

abbrev pub is_ack_send : ConfirmationState → Bool
is_ack_send ack_send = true
is_ack_send _ = false

abbrev pub is_rst_send : ConfirmationState → Bool
is_rst_send rst_send = true
is_rst_send _ = false

-- After a response was sent.
unfoldable pub response_sent_as : ℕ → Message → Interaction → Interaction
response_sent_as now msg x = elim msg.type [
  | ack ↦ record x { req_confirm_state = ack_send }
  | con ↦ enable_ack_timeout now x
  | _ ↦ x
]

-- SendResp. Its result is used by no caller.
unfoldable pub send_resp : System → Coap → Interaction → InteractionState → Option Coap
send_resp sys c x next_state = elim x.resp_msg [
  | none ↦ none
  | some msg ↦
      let (r, msg', w) = send_msg sys msg x.socket_handle x.remote_ep c.world in
      let c' = record c { world = w } in
      if is_ok r
      then some (
          enqueue_last_interaction c'
            (record (response_sent_as w.now msg' x) { resp_msg = some msg'; state = next_state }))
      else some (delete_interaction c' (record x { resp_msg = some msg' }))
]

-- The part of CheckRespStatus and of CheckReqStatus that counts the attempts at a confirmable
-- message, once its timeout is over.
abbrev pub next_attempt : Interaction → CoapResult
next_attempt x = if ltb max_retransmit (x.retrans_counter + 1) then err_out_of_attempts else retry

-- CheckRespStatus of a response that is there and was not reset.
unfoldable pub response_status : ℕ → Message → Interaction → CoapResult × Interaction
response_status now msg x = elim msg.type [
  | con ↦
      if is_ack_send x.res_confirm_state
      then (ok, x)
      else (if time_after now x.ack_timeout
          then (next_attempt x, x)
          else (waiting, record x { sleep_until = x.ack_timeout }))
  | rst ↦ (err_argument, x)
  | _ ↦
      (if msg_is_older_than now msg holdtime_after_non_transaction_end then ok else holding_back, x)
]

-- CheckRespStatus.
unfoldable pub check_resp_status : ℕ → Interaction → Option (CoapResult × Interaction)
check_resp_status now x =
    if is_rst_send x.res_confirm_state
    then some (err_remote_rst, x)
    else (elim x.resp_msg [ none ↦ none | some msg ↦ some (response_status now msg x) ])

-- CheckReqStatus of a request that was not reset.
unfoldable pub request_status : ℕ → Message → Interaction → CoapResult
request_status now msg x =
    let late = msg_is_older_than now msg client_max_resp_wait_time in
    elim msg.type [
      | con ↦
          if is_ack_send x.req_confirm_state
          then (if late then err_timeout else waiting)
          else (if time_after now x.ack_timeout then next_attempt x else waiting)
      | _ ↦ if late then err_timeout else waiting
    ]

-- CheckReqStatus.
unfoldable pub check_req_status : ℕ → Interaction → Option CoapResult
check_req_status now x =
    if is_rst_send x.req_confirm_state
    then some err_remote_rst
    else (elim x.req_msg [ none ↦ none | some msg ↦ some (request_status now msg x) ])

-- The case COAP_RETRY of a response, in handleServerInteraction and, after the representation may
-- have been refreshed, in handleNotifyInteraction.
unfoldable pub retry_response : System → Coap → Interaction → Option Coap
retry_response sys c x = elim x.resp_msg [
  | none ↦ none
  | some msg ↦
      let (r, msg', w) = send_msg sys msg x.socket_handle x.remote_ep c.world in
      let c' = record c { world = w } in
      let x' = record x { resp_msg = some msg' } in
      if is_ok r
      then some (
          store c' (
            enable_ack_timeout w.now
              (record x' { retrans_counter = (x.retrans_counter + 1) % 256 })))
      else some (delete_interaction c' x')
]
