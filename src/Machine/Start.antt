-- ===== src/Machine/Start.antt =====
-- How interactions begin in the machine: CoAP_StartNewRequest, CoAP_StartNewServerInteraction and
-- CoAP_StartNotifyInteractions of src/coap_interaction.c, CoAP_NotifyResourceObservers of
-- src/coap_resource.c.
use lobaro_coap.Common.{
  ℕ, ◌+◌, ◌%◌, ◌==◌, Bool, true, false, ◌&&◌, ◌||◌, List, [], ◌∷◌, Option, none, some,
  if◌then◌else◌, ltb, leb, length, take,
}
use lobaro_coap.Platform.{CoapResult, ok, err_argument, err_existing, err_out_of_memory, Mem, free}
use lobaro_coap.Time.{u32}
use lobaro_coap.Observe.{add_observe_option_to_msg}
use lobaro_coap.OptionWire.{u16}
use lobaro_coap.Uri.{append_uri_options_from_string}
use lobaro_coap.Endpoint.{Endpoint, ep_are_equal}
use lobaro_coap.Message.{con, non, Message, empty_code, req_last, token_equal}
use lobaro_coap.Message.Create.{create_message, free_message}
use lobaro_coap.Observer.{Observer}
use lobaro_coap.Resource.{handler_ok, Resource, Notifier, resource_at, set_resource}
use lobaro_coap.Send.{System, get_next_mid, generate_token, send_empty_ack}
use lobaro_coap.Interaction.{
  MetaInfo, Interaction, append_interaction_to_list, start_new_client_interaction,
  start_new_server_interaction, role_notification, ready_to_notify, unconfirmed, meta_info_none,
}
use lobaro_coap.Machine.{Coap, with_mem, alloc_node, store}
use lobaro_coap.Machine.Observation.{is_notification}
use lobaro_coap.Machine.Server.{code_of, prefered_payload_size}

-- CoAP_StartNewClientInteraction with its allocation, which follows the test of the argument.
unfoldable pub start_client : System → Coap → Message → ℕ → Endpoint → Option ℕ → CoapResult × Coap
start_client sys c msg socket ep cb =
    let (block, m) = alloc_node sys.platform sys.sizeof_interaction c.world.mem in
    let (r, xs) = start_new_client_interaction block c.interactions msg socket ep cb in
    elim r [
      | err_argument ↦ (err_argument, c)
      | result ↦ (result, with_mem (record c { interactions = xs }) m)
    ]

-- CoAP_StartNewRequest after the test of its code, and CoAP_StartNewGetRequest, which has no
-- payload. `uri` and `payload` are those of the arguments; the size of the payload, a size_t, becomes
-- a uint16_t.
unfoldable pub start_request :
    System → Coap → ℕ → List ℕ → List ℕ → ℕ → Endpoint → Option ℕ → CoapResult × Coap
start_request sys c code uri payload socket ep cb =
    let (id, w) = get_next_mid c.world in
    let (token, w') = generate_token w in
    let size = u16 (length payload) in
    let (created, m) =
      create_message sys.platform con code id (take size payload) size token w'.mem in
    let c' = record c { world = record w' { mem = m } } in
    elim created [
      | none ↦ (err_out_of_memory, c')
      | some msg ↦
          let (r, opts, m') =
            append_uri_options_from_string sys.platform msg.options (some uri) m in
          start_client sys (with_mem c' m') (record msg { options = opts }) socket ep cb
    ]

-- CoAP_StartNewGetRequest.
unfoldable pub start_new_get_request :
    System → Coap → List ℕ → ℕ → Endpoint → Option ℕ → CoapResult × Coap
start_new_get_request sys c uri socket ep cb = start_request sys c 1 uri [] socket ep cb

-- CoAP_StartNewRequest.
unfoldable pub start_new_request :
    System → Coap → ℕ → List ℕ → List ℕ → ℕ → Endpoint → Option ℕ → CoapResult × Coap
start_new_request sys c code uri payload socket ep cb =
    if (code == empty_code) || ltb req_last code
    then (err_argument, c)
    else start_request sys c code uri payload socket ep cb

-- What CoAP_StartNewServerInteraction leaves behind, by the result, the list and whether an empty
-- acknowledgement is repeated. `m` is the allocator after the node was asked for.
unfoldable pub server_started :
    System
    → Coap
    → Message
    → ℕ
    → Endpoint
    → Mem
    → CoapResult
    → List Interaction
    → Bool
    → CoapResult × Coap
server_started sys c msg socket ep m r xs again =
    let (sent, w) = send_empty_ack sys msg.message_id socket ep c.world in
    elim r [
      | err_argument ↦ (err_argument, c)
      | err_existing ↦ (err_existing, if again then record c { world = w } else c)
      | result ↦ (result, with_mem (record c { interactions = xs }) m)
    ]

-- CoAP_StartNewServerInteraction with its allocation, which follows the search for a duplicate, and
-- the empty acknowledgement that it may repeat.
unfoldable pub start_server :
    System → Coap → Message → ℕ → ℕ → Endpoint → MetaInfo → Option (CoapResult × Coap)
start_server sys c msg res socket ep meta =
    let (block, m) = alloc_node sys.platform sys.sizeof_interaction c.world.mem in
    elim (start_new_server_interaction block c.interactions msg res socket ep meta) [
      | none ↦ none
      | some (r, xs, again) ↦ some (server_started sys c msg socket ep m r xs again)
    ]

-- What the search for a pending notification of the resource to the observer tests.
unfoldable pub is_ongoing : Interaction → ℕ → Observer → Bool
is_ongoing x res o =
    let same : Bool = elim x.res [ none ↦ false | some i ↦ i == res ] in
    is_notification x.role
    && (same && ((x.socket_handle == o.socket_handle) && ep_are_equal x.remote_ep o.ep))

-- The first such notification.
unfoldable pub find_ongoing : List Interaction → ℕ → Observer → Option Interaction
find_ongoing [] res o = none
find_ongoing (x ∷ xs) res o =
    let rest = find_ongoing xs res o in if is_ongoing x res o then some x else rest

-- The node of a notification that is ready.
abbrev pub new_notification : ℕ → ℕ → Observer → Message → Interaction
new_notification address res o msg = record {
  address = address;
  role = role_notification;
  state = ready_to_notify;
  res = some res;
  observer = some o.address;
  remote_ep = o.ep;
  socket_handle = o.socket_handle;
  update_pending_notification = false;
  retrans_counter = 0;
  ack_timeout = 0;
  sleep_until = 0;
  req_msg = none;
  req_confirm_state = unconfirmed;
  req_meta_info = meta_info_none;
  resp_msg = some msg;
  res_confirm_state = unconfirmed;
  resp_cb = none;
}

-- Every twentieth notification is confirmable.
abbrev pub lazily_confirmable : ℕ → Message → Message
lazily_confirmable update_cnt msg =
    if update_cnt % 20 == 0
    then record msg { type = elim msg.type [ non ↦ con | other ↦ other ] }
    else msg

-- Whether CoAP_RemoveObserverFromResource comes to compare endpoints.
unfoldable pub compares_endpoint : List Observer → ℕ → Message → Bool
compares_endpoint [] socket msg = false
compares_endpoint (o ∷ os) socket msg =
    (token_equal msg.token o.token && (socket == o.socket_handle))
    || compares_endpoint os socket msg

-- The notification after the notifier succeeded. For a code from 4.00 on the endpoint that is
-- compared is that of `pIA`, which is NULL there; without a comparison the node is only lost.
unfoldable pub add_notification :
    System → Coap → ℕ → ℕ → Resource → Observer → Message → Option Coap
add_notification sys c address res r o msg =
    let (result, opts, m) =
      add_observe_option_to_msg sys.platform msg.options r.update_cnt c.world.mem in
    if leb (code_of 4 0) msg.code
    then (if compares_endpoint r.observers o.socket_handle msg then none else some c)
    else some (
        with_mem
          (record c {
            interactions = append_interaction_to_list c.interactions (
                new_notification address res o
                  (lazily_confirmable r.update_cnt (record msg { options = opts })));
          })
          m)

-- The call of the notifier for a new message, if there are both.
unfoldable pub notify :
    System → Coap → ℕ → ℕ → Resource → Observer → Option Message → Option Notifier → Option Coap
notify sys c address res r o none notifier = some (with_mem c (free c.world.mem))
notify sys c address res r o (some msg) none =
    some (with_mem c (free (free_message (some msg) c.world.mem)))
notify sys c address res r o (some msg) (some notifier) =
    let (result, msg', m) = notifier o msg c.world.mem in
    elim result [
      | handler_ok ↦ add_notification sys (with_mem c m) address res r o msg'
      | _ ↦ some (with_mem c (free (free_message (some msg') m)))
    ]

-- A round of the loop of CoAP_StartNotifyInteractions.
unfoldable pub notify_observer :
    System → Coap → ℕ → Resource → Observer → Option (CoapResult × Coap)
notify_observer sys c res r o = elim (find_ongoing c.interactions res o) [
  | some x ↦ some (ok, store c (record x { update_pending_notification = true; sleep_until = 0 }))
  | none ↦
      let (block, m) = alloc_node sys.platform sys.sizeof_interaction c.world.mem in
      let (id, w) = get_next_mid c.world in
      let (created, m') =
        create_message sys.platform con (code_of 2 5) id [] prefered_payload_size o.token m in
      elim block [
        | none ↦ some (err_out_of_memory, with_mem c m)
        | some address ↦
            elim (notify sys (with_mem (record c { world = w }) m') address res r o created
              r.notifier) [ none ↦ none | some c' ↦ some (ok, c') ]
      ]
]

-- The loop over the observers; the list does not change on the way.
unfoldable pub notify_loop :
    System → Coap → ℕ → Resource → List Observer → Option (CoapResult × Coap)
notify_loop sys c res r [] = some (ok, c)
notify_loop sys c res r (o ∷ os) = elim (notify_observer sys c res r o) [
  | none ↦ none
  | some (result, c') ↦ elim result [
    | ok ↦ notify_loop sys c' res r os
    | failure ↦ some (failure, c')
  ]
]

-- CoAP_StartNotifyInteractions.
unfoldable pub start_notify_interactions : System → Coap → ℕ → Option (CoapResult × Coap)
start_notify_interactions sys c res = elim (resource_at c.resources res) [
  | none ↦ none
  | some r ↦ notify_loop sys c res r r.observers
]

-- CoAP_NotifyResourceObservers: `UpdateCnt` is a uint32_t.
unfoldable pub notify_resource_observers : System → Coap → ℕ → Option Coap
notify_resource_observers sys c res = elim (resource_at c.resources res) [
  | none ↦ none
  | some r ↦
      let r' = record r { update_cnt = u32 (r.update_cnt + 1) } in
      elim (start_notify_interactions sys (record c { resources = set_resource c.resources res r' })
        res) [ none ↦ none | some (result, c') ↦ some c' ]
]
