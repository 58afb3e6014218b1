-- ===== src/Machine/Notify.antt =====
-- The state machine of a notification: handleNotifyInteraction, with the advanced transmission of
-- RFC 7641.
use lobaro_coap.Common.{ℕ, false, Option, none, some, if◌then◌else◌}
use lobaro_coap.Platform.{
  CoapResult, ok, waiting, holding_back, retry, err_out_of_attempts, err_remote_rst,
}
use lobaro_coap.Observe.{remove_observe_option_from_msg, update_observe_option_in_msg}
use lobaro_coap.Message.{Message}
use lobaro_coap.Observer.{observer_at}
use lobaro_coap.Resource.{HandlerResult, handler_error}
use lobaro_coap.Send.{System, get_next_mid}
use lobaro_coap.Interaction.{Interaction, ready_to_notify, notification_sent, unconfirmed}
use lobaro_coap.Machine.{
  Coap, with_mem, enqueue_last_interaction, delete_interaction, resource_of, send_resp,
  check_resp_status, retry_response,
}
use lobaro_coap.Machine.Observation.{remove_interactions_observer}

-- What follows the call of the notifier, by its result.
unfoldable pub after_notifier :
    System → Coap → Interaction → ℕ → HandlerResult → Message → Option (Coap × Message)
after_notifier sys c x update_cnt result msg = elim result [
  | handler_error ↦
      let (r, opts, m) = remove_observe_option_from_msg msg.options c.world.mem in
      elim (remove_interactions_observer (with_mem c m) x msg.token) [
        | none ↦ none
        | some c' ↦ some (c', record msg { options = opts })
      ]
  | _ ↦
      let (r, opts, m) =
        update_observe_option_in_msg sys.platform msg.options update_cnt c.world.mem in
      some (with_mem c m, record msg { options = opts })
]

-- The notifier makes a fresh representation under a new message id. It is called with the pointer
-- to the observer: `none` where it is NULL or the observer was freed.
unfoldable pub refresh_notification :
    System → Coap → Interaction → Message → Option (Coap × Message)
refresh_notification sys c x msg =
    let (id, w) = get_next_mid c.world in
    elim (resource_of c x) [
      | none ↦ none
      | some r ↦ elim r.notifier [
        | none ↦ none
        | some notifier ↦ elim x.observer [
          | none ↦ none
          | some address ↦ elim (observer_at r.observers address) [
            | none ↦ none
            | some o ↦
                let (result, msg', m) = notifier o (record msg { message_id = id }) w.mem in
                after_notifier sys (with_mem (record c { world = w }) m) x r.update_cnt result msg'
          ]
        ]
      ]
    ]

-- The case COAP_RETRY. The type of the message is kept.
unfoldable pub retry_notification : System → Coap → Interaction → Option Coap
retry_notification sys c x =
    if x.update_pending_notification
    then (elim x.resp_msg [
      | none ↦ none
      | some msg ↦ elim (refresh_notification sys c x msg) [
        | none ↦ none
        | some (c', msg') ↦ retry_response sys c' (record x {
          update_pending_notification = false;
          resp_msg = some (record msg' { type = msg.type });
        })
      ]
    ])
    else retry_response sys c x

-- The interaction begins anew with a fresh message.
abbrev pub renewed : Interaction → Message → Interaction
renewed x msg = record x {
  state = ready_to_notify;
  retrans_counter = 0;
  update_pending_notification = false;
  res_confirm_state = unconfirmed;
  resp_msg = some msg;
}

-- The case COAP_OK: a notification that was updated meanwhile is sent anew.
unfoldable pub finish_notification : System → Coap → Interaction → Option Coap
finish_notification sys c x =
    if x.update_pending_notification
    then (elim x.resp_msg [
      | none ↦ none
      | some msg ↦ elim (refresh_notification sys c x msg) [
        | none ↦ none
        | some (c', msg') ↦ some (enqueue_last_interaction c' (renewed x msg'))
      ]
    ])
    else some (delete_interaction c x)

-- The cases COAP_ERR_OUT_OF_ATTEMPTS and COAP_ERR_REMOTE_RST: the observer is removed.
unfoldable pub give_up_notification : Coap → Interaction → Option Coap
give_up_notification c x = elim x.resp_msg [
  | none ↦ none
  | some msg ↦ elim (remove_interactions_observer c x msg.token) [
    | none ↦ none
    | some c' ↦ some (delete_interaction c' x)
  ]
]

unfoldable pub on_notification_status : System → Coap → Interaction → CoapResult → Option Coap
on_notification_status sys c x status = elim status [
  | waiting ↦ some (enqueue_last_interaction c x)
  | holding_back ↦ some (enqueue_last_interaction c x)
  | retry ↦ retry_notification sys c x
  | ok ↦ finish_notification sys c x
  | err_out_of_attempts ↦ give_up_notification c x
  | err_remote_rst ↦ give_up_notification c x
  | _ ↦ some (delete_interaction c x)
]

-- handleNotifyInteraction.
unfoldable pub handle_notify_interaction : System → Coap → Interaction → Option Coap
handle_notify_interaction sys c x = elim x.state [
  | ready_to_notify ↦ send_resp sys c x notification_sent
  | notification_sent ↦ elim (check_resp_status c.world.now x) [
    | none ↦ none
    | some (status, x') ↦ on_notification_status sys c x' status
  ]
  | _ ↦ some c
]
