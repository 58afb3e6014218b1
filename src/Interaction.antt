-- ===== src/Interaction.antt =====
-- The list of interactions, and how one begins: src/coap_interaction.c.
pub mod Lists
pub mod Duplicates
use lobaro_coap.Common.{
  ℕ, zero, suc, ◌+◌, Bool, true, false, ◌&&◌, ◌||◌, not, List, [], ◌∷◌, ◌++◌, Option, none, some,
  if◌then◌else◌, ◌==◌,
}
use lobaro_coap.Platform.{CoapResult, ok, not_found, err_argument, err_existing, err_out_of_memory}
use lobaro_coap.Message.{MessageType, con, Message, msg_is_request}
use lobaro_coap.Endpoint.{Endpoint, ep_are_equal}

-- CoAP_InteractionRole_t.
pub data InteractionRole : Type 0 where
  role_not_set role_client role_server role_notification : InteractionRole

-- CoAP_InteractionState_t.
pub data InteractionState : Type 0 where
  not_set handle_request resource_postpone_empty_ack_sent response_sent response_waiting_leisure :
      InteractionState
  ready_to_notify notification_sent ready_to_request waiting_response handle_response finished :
      InteractionState

-- CoAP_ConfirmationState_t; its NOT_SET is `unconfirmed`.
pub data ConfirmationState : Type 0 where
  unconfirmed ack_send rst_send : ConfirmationState

-- MetaInfo_t of src/liblobaro_coap.h: its type, and for a radio path the hop count and the signal
-- strength, an int32_t as its 32 bits.
pub data MetaInfo : Type 0 where
  meta_info_none meta_info_multicast : MetaInfo
  meta_info_rf_path : ℕ → ℕ → MetaInfo

-- CoAP_Interaction_t, with `address` for the place of the node, which the code compares, and
-- numbers for the places of a resource, an observer, a socket and a callback. `RespMetaInfo`, which
-- nothing reads, is left out.
pub record Interaction : Type 0 where
  pub address : ℕ
  pub role : InteractionRole
  pub state : InteractionState
  pub res : Option ℕ
  pub observer : Option ℕ
  pub remote_ep : Endpoint
  pub socket_handle : ℕ
  pub update_pending_notification : Bool
  pub retrans_counter : ℕ
  pub ack_timeout : ℕ
  pub sleep_until : ℕ
  pub req_msg : Option Message
  pub req_confirm_state : ConfirmationState
  pub req_meta_info : MetaInfo
  pub resp_msg : Option Message
  pub res_confirm_state : ConfirmationState
  pub resp_cb : Option ℕ

abbrev pub is_server : InteractionRole → Bool
is_server role_server = true
is_server _ = false

abbrev pub is_con : MessageType → Bool
is_con con = true
is_con _ = false

abbrev pub is_postponed : InteractionState → Bool
is_postponed resource_postpone_empty_ack_sent = true
is_postponed _ = false

-- CoAP_UnlinkInteractionFromList: the list and the node that was taken out.
unfoldable pub unlink_interaction_from_list :
    List Interaction → ℕ → List Interaction × Option Interaction
unlink_interaction_from_list [] address = ([], none)
unlink_interaction_from_list (x ∷ xs) address =
    let (rest, found) = unlink_interaction_from_list xs address in
    if x.address == address then (xs, some x) else (x ∷ rest, found)

-- Whether a message is there and has an id.
unfoldable pub has_message_id : Option Message → ℕ → Bool
has_message_id none id = false
has_message_id (some msg) id = msg.message_id == id

-- CoAP_UnlinkInteractionFromListByHandle.
unfoldable pub unlink_interaction_from_list_by_handle :
    List Interaction → ℕ → ℕ → Endpoint → CoapResult × List Interaction × Option Interaction
unlink_interaction_from_list_by_handle [] id socket ep = (not_found, [], none)
unlink_interaction_from_list_by_handle (x ∷ xs) id socket ep =
    let (r, rest, found) = unlink_interaction_from_list_by_handle xs id socket ep in
    if (x.socket_handle == socket)
      && ((has_message_id x.req_msg id || has_message_id x.resp_msg id)
          && ep_are_equal x.remote_ep ep)
    then (ok, xs, some x)
    else (r, x ∷ rest, found)

-- CoAP_AppendInteractionToList of a node; the loop goes to the last one.
unfoldable pub append_interaction_to_list : List Interaction → Interaction → List Interaction
append_interaction_to_list [] x = x ∷ []
append_interaction_to_list (y ∷ ys) x = y ∷ append_interaction_to_list ys x

-- CoAP_MoveInteractionToListEnd. Its loop does not stop at the node, which stands in the list once.
unfoldable pub move_interaction_to_list_end : List Interaction → Interaction → List Interaction
move_interaction_to_list_end xs x =
    append_interaction_to_list (unlink_interaction_from_list xs x.address).0 x

-- CoAP_FindInteractionByMessageIdAndEp.
unfoldable pub find_interaction_by_message_id_and_ep :
    List Interaction → ℕ → Endpoint → Option Interaction
find_interaction_by_message_id_and_ep [] id ep = none
find_interaction_by_message_id_and_ep (x ∷ xs) id ep =
    let rest = find_interaction_by_message_id_and_ep xs id ep in
    if (has_message_id x.resp_msg id || has_message_id x.req_msg id) && ep_are_equal ep x.remote_ep
    then some x
    else rest

-- A node as CoAP_AllocNewInteraction and the two functions below fill it.
abbrev pub new_interaction :
    ℕ
    → InteractionRole
    → InteractionState
    → Option ℕ
    → Endpoint
    → ℕ
    → Message
    → MetaInfo
    → Option ℕ
    → Interaction
new_interaction address role state res ep socket req meta cb = record {
  address = address;
  role = role;
  state = state;
  res = res;
  observer = none;
  remote_ep = ep;
  socket_handle = socket;
  update_pending_notification = false;
  retrans_counter = 0;
  ack_timeout = 0;
  sleep_until = 0;
  req_msg = some req;
  req_confirm_state = unconfirmed;
  req_meta_info = meta;
  resp_msg = none;
  res_confirm_state = unconfirmed;
  resp_cb = cb;
}

-- CoAP_StartNewClientInteraction. `block` is the node that `malloc` returned, or NULL, and the
-- message is there.
unfoldable pub start_new_client_interaction :
    Option ℕ → List Interaction → Message → ℕ → Endpoint → Option ℕ → CoapResult × List Interaction
start_new_client_interaction block xs req socket ep cb =
    if not (msg_is_request req) then (err_argument, xs) else (elim block [
      | none ↦ (err_out_of_memory, xs)
      | some address ↦ (
        ok,
        append_interaction_to_list xs (
            new_interaction address role_client ready_to_request none ep socket req meta_info_none
              cb),
      )
    ])

-- What the duplicate search of CoAP_StartNewServerInteraction tests of an interaction; `none` is a
-- server's interaction at the socket without a request message, whose NULL pointer the code follows.
unfoldable pub is_duplicate : Interaction → ℕ → ℕ → Endpoint → Option Bool
is_duplicate x id socket ep =
    if is_server x.role && (x.socket_handle == socket)
    then (elim x.req_msg [
      | none ↦ none
      | some req ↦ some ((req.message_id == id) && ep_are_equal x.remote_ep ep)
    ])
    else some false

-- The first duplicate; the outer `none` is a NULL pointer that is followed.
unfoldable pub find_duplicate : List Interaction → ℕ → ℕ → Endpoint → Option (Option Interaction)
find_duplicate [] id socket ep = some none
find_duplicate (x ∷ xs) id socket ep =
    let rest = find_duplicate xs id socket ep in
    elim (is_duplicate x id socket ep) [
      | none ↦ none
      | some twin ↦ if twin then some (some x) else rest
    ]

-- Whether another empty acknowledgement is sent for a duplicate.
unfoldable pub repeats_ack : Interaction → Bool
repeats_ack x = elim x.req_msg [ none ↦ false | some req ↦ is_con req.type && is_postponed x.state ]

-- CoAP_StartNewServerInteraction: the result, the list, and whether CoAP_SendEmptyAck is called.
unfoldable pub start_new_server_interaction :
    Option ℕ
    → List Interaction
    → Message
    → ℕ
    → ℕ
    → Endpoint
    → MetaInfo
    → Option (CoapResult × List Interaction × Bool)
start_new_server_interaction block xs req res socket ep meta =
    if not (msg_is_request req)
    then some (err_argument, xs, false)
    else (elim (find_duplicate xs req.message_id socket ep) [
      | none ↦ none
      | some (some x) ↦ some (err_existing, xs, repeats_ack x)
      | some none ↦ elim block [
        | none ↦ some (err_out_of_memory, xs, false)
        | some address ↦ some (
          ok,
          append_interaction_to_list xs (
              new_interaction address role_server handle_request (some res) ep socket req meta
                none),
          false,
        )
      ]
    ])
