-- ===== src/Machine/Server.antt =====
-- The state machine of a server's interaction: handleServerInteraction.
use lobaro_coap.Common.{
  ℕ, ◌+◌, ◌-◌, ◌*◌, ◌/◌, ◌%◌, ◌^◌, ◌==◌, Bool, true, false, ◌&&◌, ◌||◌, not, [], ◌∷◌, Option, none,
  some, if◌then◌else◌, leb,
}
use lobaro_coap.Platform.{CoapResult, waiting, holding_back, retry}
use lobaro_coap.OptionWire.{is_ok}
use lobaro_coap.OptionList.{append_option_to_list}
use lobaro_coap.Observe.{add_observe_option_to_msg}
use lobaro_coap.Message.{con, ack, Message, empty_code}
use lobaro_coap.Message.Create.{msg_is_older_than}
use lobaro_coap.Resource.{
  HandlerResult, handler_ok, handler_postpone, handler_error, Handler, Resource,
}
use lobaro_coap.Send.{System, World, get_next_mid, alloc_resp_msg, send_empty_ack}
use lobaro_coap.Interaction.{
  InteractionState, MetaInfo, Interaction, ack_send, is_con, handle_request,
  resource_postpone_empty_ack_sent, response_sent, response_waiting_leisure, meta_info_multicast,
  meta_info_rf_path,
}
use lobaro_coap.Machine.{
  Coap, with_mem, set_sleep_interaction, enqueue_last_interaction, delete_interaction, resource_of,
  is_ack_send, send_resp, check_resp_status, retry_response,
}
use lobaro_coap.Machine.Observation.{handle_observation_in_req}

abbrev pub default_leisure : ℕ
default_leisure = 5

abbrev pub postpone_wait_time_sek : ℕ
postpone_wait_time_sek = 3

abbrev pub postpone_max_wait_time : ℕ
postpone_max_wait_time = 30

abbrev pub prefered_payload_size : ℕ
prefered_payload_size = 64

abbrev pub req_get : ℕ
req_get = 1

abbrev pub req_fetch : ℕ
req_fetch = 5

-- CODE of a class and a detail.
abbrev pub code_of : ℕ → ℕ → ℕ
code_of class detail = class * 32 + detail

abbrev pub is_multicast : MetaInfo → Bool
is_multicast meta_info_multicast = true
is_multicast _ = false

abbrev pub is_handle_request : InteractionState → Bool
is_handle_request handle_request = true
is_handle_request _ = false

-- Whether the resource does not allow the method of a request: the bit 1 << code is not set.
unfoldable pub method_refused : Resource → ℕ → Bool
method_refused r code = (leb 1 code && leb code 7) && (r.opts.allowed_methods / 2 ^ code % 2 == 0)

-- The answer 4.05. The response is not tested for NULL.
unfoldable pub refuse_method : System → Coap → Interaction → Message → Option Coap
refuse_method sys c x req =
    let (resp, w) = alloc_resp_msg sys req (code_of 4 5) 0 c.world in
    send_resp sys (record c { world = w }) (record x { resp_msg = resp }) response_sent

-- The type and the message id of the response to a confirmable request.
unfoldable pub set_response_type : Interaction → Message → Message → World → Message × World
set_response_type x req resp w =
    let (id, w') = get_next_mid w in
    if is_con req.type
    then (if is_ack_send x.req_confirm_state
        then (record resp { type = con; message_id = id }, w')
        else (record resp { type = ack }, w))
    else (resp, w)

-- The custom option 10000 for a request that came over a radio path.
unfoldable pub add_path_option : System → Interaction → Message → World → Message × World
add_path_option sys x resp w = elim x.req_meta_info [
  | meta_info_rf_path hops rssi ↦
      let (r, opts, m) =
        append_option_to_list sys.platform resp.options 10000
          (hops % 256 ∷ (2 ^ 32 - rssi) % 256 ∷ []) w.mem in
      (record resp { options = opts }, record w { mem = m })
  | _ ↦ (resp, w)
]

-- The observe option in the response to a request that may start an observation.
unfoldable pub answer_observation :
    System → Coap → Interaction → Message → Message → Option (Coap × Message)
answer_observation sys c x req resp =
    if ((req.code == req_get) || (req.code == req_fetch)) && (resp.code == code_of 2 5)
    then (elim (handle_observation_in_req sys c x) [
      | none ↦ none
      | some (result, c') ↦
          let (r, opts, m) = add_observe_option_to_msg sys.platform resp.options 0 c'.world.mem in
          if is_ok result
          then some (with_mem c' m, record resp { options = opts })
          else some (c', resp)
    ])
    else some (c, resp)

-- From the response's type on, up to the sending.
unfoldable pub finish_response : System → Coap → Interaction → Message → Message → Option Coap
finish_response sys c x req resp =
    let (resp', w) = set_response_type x req resp c.world in
    let (resp'', w') = add_path_option sys x resp' w in
    elim (answer_observation sys (record c { world = w' }) x req resp'') [
      | none ↦ none
      | some (c', answer) ↦ send_resp sys c' (record x { resp_msg = some answer }) response_sent
    ]

-- The interaction sleeps until the resource is asked again.
abbrev pub postpone : Coap → Interaction → Coap
postpone c x =
    enqueue_last_interaction c (set_sleep_interaction c.world.now x postpone_wait_time_sek)

-- The case HANDLER_POSTPONE: an empty acknowledgement first, then a limit on the waiting time.
unfoldable pub postpone_response : System → Coap → Interaction → Message → Message → Option Coap
postpone_response sys c x req resp =
    let (r, w) = send_empty_ack sys req.message_id x.socket_handle x.remote_ep c.world in
    let c' = record c { world = w } in
    if is_con req.type && not (is_ack_send x.req_confirm_state)
    then (if is_ok r
        then some (
            postpone c'
              (record x { req_confirm_state = ack_send; state = resource_postpone_empty_ack_sent }))
        else some (delete_interaction c' x))
    else (if msg_is_older_than c.world.now req postpone_max_wait_time
        then finish_response sys c x req (record resp { code = code_of 5 3 })
        else some (postpone c x))

-- After the call of the resource's handler, by its result; `x` holds the response.
unfoldable pub after_handler :
    System → Coap → Interaction → Message → HandlerResult → Message → Option Coap
after_handler sys c x req result resp = elim result [
  | handler_ok ↦
      if resp.code == empty_code
      then finish_response sys c x req (record resp { code = code_of 2 5 })
      else finish_response sys c x req resp
  | handler_error ↦
      if resp.code == empty_code
      then (if is_multicast x.req_meta_info
          then some (delete_interaction c (record x { resp_msg = some resp }))
          else finish_response sys c x req (record resp { code = code_of 5 0 }))
      else finish_response sys c x req resp
  | handler_postpone ↦ postpone_response sys c (record x { resp_msg = some resp }) req resp
]

-- The response that the handler is called with: the one that is there from an earlier call, or a
-- new one.
unfoldable pub prepare_response : System → Interaction → Message → World → Option Message × World
prepare_response sys x req w = elim x.resp_msg [
  | some resp ↦ (some resp, w)
  | none ↦ alloc_resp_msg sys req empty_code prefered_payload_size w
]

-- The call of the handler. Where no response could be allocated it is called with NULL, which it is
-- taken to leave without an effect, and the interaction is deleted.
unfoldable pub call_handler : System → Coap → Interaction → Message → Handler → Option Coap
call_handler sys c x req handler =
    let (prepared, w) = prepare_response sys x req c.world in
    let c' = record c { world = w } in
    elim prepared [
      | none ↦ some (delete_interaction c' x)
      | some resp ↦
          let (result, resp', m) = handler req resp w.mem in
          after_handler sys (with_mem c' m) x req result resp'
    ]

-- The request is processed, after the tests for multicast.
unfoldable pub process_request : System → Coap → Interaction → Message → Option Coap
process_request sys c x req = elim (resource_of c x) [
  | none ↦ none
  | some r ↦
      if method_refused r req.code
      then refuse_method sys c x req
      else (elim r.handler [ none ↦ none | some handler ↦ call_handler sys c x req handler ])
]

-- The first branch of handleServerInteraction.
unfoldable pub serve_request : System → Coap → Interaction → Option Coap
serve_request sys c x = elim x.req_msg [
  | none ↦ none
  | some req ↦
      if is_multicast x.req_meta_info
      then (if is_con req.type
          then some (delete_interaction c x)
          else (if is_handle_request x.state
              then some (
                  enqueue_last_interaction c (
                    set_sleep_interaction c.world.now
                      (record x { state = response_waiting_leisure }) default_leisure))
              else process_request sys c x req))
      else process_request sys c x req
]

unfoldable pub on_response_status : System → Coap → Interaction → CoapResult → Option Coap
on_response_status sys c x status = elim status [
  | waiting ↦ some (enqueue_last_interaction c x)
  | holding_back ↦ some (enqueue_last_interaction c x)
  | retry ↦ retry_response sys c x
  | _ ↦ some (delete_interaction c x)
]

-- handleServerInteraction.
unfoldable pub handle_server_interaction : System → Coap → Interaction → Option Coap
handle_server_interaction sys c x = elim x.state [
  | handle_request ↦ serve_request sys c x
  | resource_postpone_empty_ack_sent ↦ serve_request sys c x
  | response_waiting_leisure ↦ serve_request sys c x
  | response_sent ↦ elim (check_resp_status c.world.now x) [
    | none ↦ none
    | some (status, x') ↦ on_response_status sys c x' status
  ]
  | _ ↦ some c
]
