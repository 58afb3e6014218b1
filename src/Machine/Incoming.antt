-- ===== src/Machine/Incoming.antt =====
-- CoAP_HandleIncomingPacket of src/coap_main.c, without the debugging option that drops packets.
use lobaro_coap.Common.{
  ℕ, ◌==◌, Bool, true, false, ◌&&◌, not, List, [], ◌∷◌, Option, none, some, if◌then◌else◌,
}
use lobaro_coap.Platform.{CoapResult, ok, err_out_of_memory}
use lobaro_coap.OptionWire.{is_ok, Memory}
use lobaro_coap.OptionList.{check_for_unknown_critical_option}
use lobaro_coap.Endpoint.{Endpoint, ep_are_equal}
use lobaro_coap.Message.{
  MessageType, con, non, ack, rst, Message, empty_code, msg_is_request, token_equal,
  parse_message_from_datagram,
}
use lobaro_coap.Message.Create.{free_message}
use lobaro_coap.Resource.{resource_at, find_resource_by_uri}
use lobaro_coap.Send.{System, get_next_mid, send_short_resp, send_empty_rst}
use lobaro_coap.Interaction.{
  InteractionRole, InteractionState, MetaInfo, Interaction, is_con,
  find_interaction_by_message_id_and_ep, role_client, waiting_response, handle_response, ack_send,
  rst_send,
}
use lobaro_coap.Machine.{Coap, with_mem, store}
use lobaro_coap.Machine.Server.{code_of}
use lobaro_coap.Machine.Start.{start_server}

-- Where a packet came from: the socket, the endpoint and the meta information.
pub record Origin : Type 0 where
  pub socket : ℕ
  pub ep : Endpoint
  pub meta : MetaInfo

-- The label END: the message is freed.
unfoldable pub end_message : Coap → Message → Coap
end_message c msg = with_mem c (free_message (some msg) c.world.mem)

-- A short response to the message's sender, whose result is not used, and the label END.
unfoldable pub answer_and_end : System → Coap → Message → Origin → MessageType → ℕ → ℕ → Coap
answer_and_end sys c msg from type code id =
    let (r, w) = send_short_resp sys type code id msg.token from.socket from.ep c.world in
    end_message (record c { world = w }) msg

-- A reset and the label END.
unfoldable pub reset_and_end : System → Coap → Message → Origin → Coap
reset_and_end sys c msg from =
    let (r, w) = send_empty_rst sys msg.message_id from.socket from.ep c.world in
    end_message (record c { world = w }) msg

-- The combinations of type and code that are silently ignored.
unfoldable pub is_ignored : Message → Bool
is_ignored msg = elim msg.type [
  | con ↦ false
  | ack ↦ msg_is_request msg
  | rst ↦ not (msg.code == empty_code)
  | non ↦ msg.code == empty_code
]

-- The answer 4.04.
unfoldable pub answer_not_found : System → Coap → Message → Origin → Coap
answer_not_found sys c msg from =
    let (id, w) = get_next_mid c.world in
    if is_con msg.type
    then answer_and_end sys c msg from ack (code_of 4 4) msg.message_id
    else answer_and_end sys (record c { world = w }) msg from non (code_of 4 4) id

-- A message with an unknown critical option.
unfoldable pub reject_option : System → Coap → Message → Origin → Coap
reject_option sys c msg from =
    if is_con msg.type
    then (if msg_is_request msg
        then answer_and_end sys c msg from ack (code_of 4 2) msg.message_id
        else reset_and_end sys c msg from)
    else end_message c msg

abbrev pub is_client : InteractionRole → Bool
is_client role_client = true
is_client _ = false

abbrev pub is_waiting_response : InteractionState → Bool
is_waiting_response waiting_response = true
is_waiting_response _ = false

abbrev pub takes_response : InteractionState → Bool
takes_response waiting_response = true
takes_response handle_response = true
takes_response _ = false

-- The response is attached to the client's interaction, and an older one is freed.
unfoldable pub attach_response : Coap → Interaction → Message → Coap
attach_response c x msg =
    with_mem (store c (record x { resp_msg = some msg; state = handle_response }))
      (free_message x.resp_msg c.world.mem)

-- A piggybacked response to the interaction of its message id.
unfoldable pub piggybacked : Coap → Interaction → Message → Option Coap
piggybacked c x msg =
    if is_client x.role
    then (elim x.req_msg [
      | none ↦ none
      | some req ↦
          if token_equal req.token msg.token && is_waiting_response x.state
          then some (attach_response c x msg)
          else some (end_message c msg)
    ])
    else some (end_message c msg)

-- The case ACK, for the interaction that was found.
unfoldable pub acknowledge : Coap → Option Interaction → Message → Option Coap
acknowledge c none msg = some (end_message c msg)
acknowledge c (some x) msg =
    let x' = record x { res_confirm_state = ack_send } in
    if msg.code == empty_code
    then some (end_message (store c x') msg)
    else piggybacked (store c x') x' msg

-- The case RST.
unfoldable pub reset : Coap → Option Interaction → Message → Coap
reset c none msg = end_message c msg
reset c (some x) msg = end_message (store c (record x { res_confirm_state = rst_send })) msg

-- After CoAP_StartNewServerInteraction, by its result.
unfoldable pub request_taken : System → Coap → Message → Origin → CoapResult → Coap
request_taken sys c msg from r = elim r [
  | ok ↦ c
  | err_out_of_memory ↦
      if is_con msg.type
      then answer_and_end sys c msg from ack (code_of 5 0) msg.message_id
      else end_message c msg
  | _ ↦ end_message c msg
]

-- A request, for the resource at a place.
unfoldable pub take_request : System → Coap → Message → Origin → ℕ → Option Coap
take_request sys c msg from res = elim (start_server sys c msg res from.socket from.ep from.meta) [
  | none ↦ none
  | some (r, c') ↦ some (request_taken sys c' msg from r)
]

-- The client's interaction that a separate response belongs to; the outer `none` is a client's
-- interaction without a request.
unfoldable pub find_client : List Interaction → Message → Endpoint → Option (Option Interaction)
find_client [] msg ep = some none
find_client (x ∷ xs) msg ep =
    let rest = find_client xs msg ep in
    if is_client x.role
    then (elim x.req_msg [
      | none ↦ none
      | some req ↦
          if token_equal req.token msg.token && ep_are_equal ep x.remote_ep
          then some (some x)
          else rest
    ])
    else rest

-- The acknowledgement of a confirmable separate response.
unfoldable pub confirm_response : System → Coap → Interaction → Message → Origin → Coap
confirm_response sys c x msg from =
    let (r, w) =
      send_short_resp sys ack empty_code msg.message_id msg.token from.socket from.ep c.world in
    let c' = record c { world = w } in
    if is_con msg.type
    then (if is_ok r then store c' (record x { res_confirm_state = ack_send }) else c')
    else c

-- A separate response. Where the interaction takes none, nothing holds the message afterwards.
unfoldable pub take_response : System → Coap → Message → Origin → Option Coap
take_response sys c msg from = elim (find_client c.interactions msg from.ep) [
  | none ↦ none
  | some none ↦ some (answer_and_end sys c msg from rst empty_code msg.message_id)
  | some (some x) ↦
      if takes_response x.state
      then some (
          confirm_response sys (attach_response c x msg)
            (record x { resp_msg = some msg; state = handle_response }) msg from)
      else some (confirm_response sys c x msg from)
]

-- The switch on the type of the message. `res` is the resource of a request.
unfoldable pub dispatch :
    System → Coap → Message → Origin → Option ℕ → Option Interaction → Option Coap
dispatch sys c msg from res found = elim msg.type [
  | rst ↦ some (reset c found msg)
  | ack ↦ acknowledge c found msg
  | _ ↦ elim res [ some i ↦ take_request sys c msg from i | none ↦ take_response sys c msg from ]
]

-- The interaction of the message id, which is woken up, and the list after that.
unfoldable pub wake_interaction : Coap → ℕ → Endpoint → Coap × Option Interaction
wake_interaction c id ep = elim (find_interaction_by_message_id_and_ep c.interactions id ep) [
  | none ↦ (c, none)
  | some x ↦ let x' = record x { sleep_until = 0 } in (store c x', some x')
]

-- From the check of the critical options on.
unfoldable pub accept_message : System → Coap → Message → Origin → Option ℕ → Option Coap
accept_message sys c msg from res =
    let (c', found) = wake_interaction c msg.message_id from.ep in
    if check_for_unknown_critical_option msg.options == 0
    then dispatch sys c' msg from res found
    else some (reject_option sys c msg from)

-- Whether there is a resource with a handler at a place.
unfoldable pub has_handler : Coap → Option ℕ → Bool
has_handler c none = false
has_handler c (some i) = elim (resource_at c.resources i) [
  | none ↦ false
  | some r ↦ elim r.handler [ none ↦ false | some h ↦ true ]
]

-- A request finds its resource first.
unfoldable pub find_and_accept : System → Coap → Message → Origin → Option Coap
find_and_accept sys c msg from = elim (find_resource_by_uri c.resources msg.options) [
  | none ↦ none
  | some res ↦
      if has_handler c res
      then accept_message sys c msg from res
      else some (answer_not_found sys c msg from)
]

-- What follows the parsing of the datagram.
unfoldable pub handle_message : System → Coap → Message → Origin → Option Coap
handle_message sys c msg from =
    if is_con msg.type && (msg.code == empty_code)
    then some (reset_and_end sys c msg from)
    else (if is_ignored msg
        then some (end_message c msg)
        else (if msg_is_request msg
            then find_and_accept sys c msg from
            else accept_message sys c msg from none))

-- CoAP_HandleIncomingPacket of a packet of `size` bytes at `src`.
unfoldable pub handle_incoming_packet : System → Coap → Memory → ℕ → Origin → Option Coap
handle_incoming_packet sys c src size from =
    elim (parse_message_from_datagram sys.platform c.world.now src size c.world.mem) [
      | none ↦ none
      | some (r, parsed, m) ↦ elim parsed [
        | none ↦ some (with_mem c m)
        | some msg ↦ handle_message sys (with_mem c m) msg from
      ]
    ]
