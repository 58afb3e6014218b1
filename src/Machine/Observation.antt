-- ===== src/Machine/Observation.antt =====
-- Observations that a request starts or ends: CoAP_HandleObservationInReq and
-- CoAP_RemoveInteractionsObserver of src/coap_interaction.c.
use lobaro_coap.Common.{
  ℕ, ◌==◌, Bool, true, false, ◌&&◌, ◌||◌, List, [], ◌∷◌, Option, none, some, if◌then◌else◌,
}
use lobaro_coap.Platform.{
  CoapResult, ok, err_argument, err_not_found, err_out_of_memory, bad_option_val, Platform, Mem,
}
use lobaro_coap.OptionWire.{is_ok}
use lobaro_coap.OptionList.{CoapOption, Outcome, append_option_to_list}
use lobaro_coap.Observe.{opt_num_observe, get_observe_option_from_msg}
use lobaro_coap.Uri.{opt_num_uri_query}
use lobaro_coap.Endpoint.{Endpoint, ep_are_equal}
use lobaro_coap.Message.{Token, Message, token_equal}
use lobaro_coap.Observer.{
  Observer, free_observer, append_observer_to_list, delete_same_observer,
  remove_observer_from_resource,
}
use lobaro_coap.Resource.{Resource}
use lobaro_coap.Send.{System}
use lobaro_coap.Interaction.{InteractionRole, Interaction, role_notification}
use lobaro_coap.Machine.{
  Coap, alloc_node, with_mem, delete_interaction, resource_of, set_resource_of,
}

-- CoAP_RemoveInteractionsObserver. Its result is used by no caller.
unfoldable pub remove_interactions_observer : Coap → Interaction → Token → Option Coap
remove_interactions_observer c x token = elim (resource_of c x) [
  | none ↦ none
  | some r ↦
      let (result, observers, m) =
        remove_observer_from_resource r.observers x.socket_handle x.remote_ep token c.world.mem in
      some (with_mem (set_resource_of c x (record r { observers = observers })) m)
]

-- The loop that copies the relevant options of a request: the result, the options of the new
-- observer and the memory.
unfoldable pub copy_observer_options : Platform → List CoapOption → List CoapOption → Mem → Outcome
copy_observer_options p [] opts m = (ok, opts, m)
copy_observer_options p (o ∷ os) opts m =
    let (r, opts', m') =
      if (o.number == opt_num_uri_query) || (o.number == opt_num_observe)
      then append_option_to_list p opts o.number o.value m
      else (ok, opts, m) in
    let rest = copy_observer_options p os opts' m' in
    if is_ok r then rest else (err_out_of_memory, opts', m')

-- The client registers: the new observer takes the place of one at the same socket and endpoint.
unfoldable pub register_observer :
    System → Coap → Interaction → Message → Resource → CoapResult × Coap
register_observer sys c x req r =
    let (block, m) = alloc_node sys.platform sys.sizeof_observer c.world.mem in
    elim block [
      | none ↦ (err_out_of_memory, with_mem c m)
      | some address ↦
          let (copied, opts, m') = copy_observer_options sys.platform req.options [] m in
          let new : Observer = record {
            address = address;
            ep = x.remote_ep;
            socket_handle = x.socket_handle;
            token = req.token;
            opt_list = opts;
          } in
          let (others, m'') = delete_same_observer r.observers x.socket_handle x.remote_ep m' in
          if is_ok copied
          then (
            ok,
            with_mem
                (set_resource_of c x (record r { observers = append_observer_to_list others new }))
                m'',
          )
          else (err_out_of_memory, with_mem c (free_observer new m'))
    ]

abbrev pub is_notification : InteractionRole → Bool
is_notification role_notification = true
is_notification _ = false

-- The search for a pending notification to abort; the outer `none` is a notification without a
-- response message.
unfoldable pub find_pending : List Interaction → Token → ℕ → Endpoint → Option (Option Interaction)
find_pending [] token socket ep = some none
find_pending (y ∷ ys) token socket ep =
    let rest = find_pending ys token socket ep in
    if is_notification y.role
    then (elim y.resp_msg [
      | none ↦ none
      | some msg ↦
          if token_equal msg.token token
            && ((y.socket_handle == socket) && ep_are_equal y.remote_ep ep)
          then some (some y)
          else rest
    ])
    else rest

-- The client deregisters. The result is COAP_ERR_NOT_FOUND in every case.
unfoldable pub deregister_observer : Coap → Interaction → Message → Option (CoapResult × Coap)
deregister_observer c x req = elim (remove_interactions_observer c x req.token) [
  | none ↦ none
  | some c' ↦ elim (find_pending c'.interactions req.token x.socket_handle x.remote_ep) [
    | none ↦ none
    | some none ↦ some (err_not_found, c')
    | some (some y) ↦ some (err_not_found, delete_interaction c' y)
  ]
]

-- CoAP_HandleObservationInReq.
unfoldable pub handle_observation_in_req : System → Coap → Interaction → Option (CoapResult × Coap)
handle_observation_in_req sys c x = elim x.req_msg [
  | none ↦ some (err_argument, c)
  | some req ↦ elim (resource_of c x) [
    | none ↦ none
    | some r ↦ elim r.notifier [
      | none ↦ some (err_not_found, c)
      | some notifier ↦
          let (result, val) = get_observe_option_from_msg req.options in
          if is_ok result
          then (if val == 0
              then some (register_observer sys c x req r)
              else (if val == 1 then deregister_observer c x req else some (bad_option_val, c)))
          else some (result, c)
    ]
  ]
]
