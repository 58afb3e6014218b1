-- ===== src/Machine/Sound/Work.antt =====
-- The server's state machine and CoAP_doWork keep all interactions sound.
use lobaro_coap.Machine.Sound.{handled}
use lobaro_coap.Common.{
  ◌+◌, ◌≤◌, ◌≡◌, ◌∙◌, refl, ap, List, All, [], ◌∷◌, some, inl, inr, arith, Bool-cases, Option-cases,
}
use lobaro_coap.Platform.{CoapResult, waiting, holding_back, retry}
use lobaro_coap.Time.{time_after}
use lobaro_coap.Message.{Message}
use lobaro_coap.Send.{System, alloc_resp_msg}
use lobaro_coap.Interaction.{
  Interaction, InteractionRole, InteractionState, is_con, role_server, role_client,
  role_notification, role_not_set, handle_request, resource_postpone_empty_ack_sent, response_sent,
  response_waiting_leisure,
}
use lobaro_coap.Machine.{
  Coap, max_retransmit, send_resp, set_sleep_interaction, resource_of, check_resp_status,
}
use lobaro_coap.Machine.Server.{
  code_of, is_multicast, is_handle_request, method_refused, refuse_method, process_request,
  serve_request, on_response_status, handle_server_interaction,
}
use lobaro_coap.Machine.Work.{handle_interaction, do_work}
use lobaro_coap.Machine.Sound.{
  IsSound, AllSound, AllSoundAfter, enqueue_last_interaction-AllSound, delete_interaction-AllSound,
}
use lobaro_coap.Machine.Sound.Response.{
  send_resp-AllSound, retry_response-AllSound, check_resp_status-IsSound, check_resp_status-retry,
}
use lobaro_coap.Machine.Sound.Server.{with_resp-IsSound, call_handler-AllSound}
use lobaro_coap.Machine.Sound.Client.{handle_client_interaction-AllSound}
use lobaro_coap.Machine.Sound.Notify.{handle_notify_interaction-AllSound}

refuse_method-AllSound :
    (sys : System) (c : Coap) (x : Interaction) (req : Message)
    → AllSound c
    → IsSound (handled c.resources) x
    → x.role ≡ role_server
    → AllSoundAfter (refuse_method sys c x req)
unfolding refuse_method send_resp
refuse_method-AllSound sys c x req a s serves =
    let (resp, w) = alloc_resp_msg sys req (code_of 4 5) 0 c.world in
    let c' : Coap = record c { world = w } in
    elim (Option-cases resp) [
      | inl refused ↦ rw (refused, refuse_method, send_resp) tt
      | inr (msg, granted) ↦
          rw (granted, refuse_method)
            (send_resp-AllSound sys c' (record x { resp_msg = some msg }) response_sent a
              (with_resp-IsSound (handled c.resources) x msg s) (ground arith) (ground arith))
    ]

process_request-AllSound :
    (sys : System) (c : Coap) (x : Interaction) (req : Message)
    → AllSound c
    → IsSound (handled c.resources) x
    → x.role ≡ role_server
    → AllSoundAfter (process_request sys c x req)
unfolding process_request
process_request-AllSound sys c x req a s serves = elim (Option-cases (resource_of c x)) [
  | inl nowhere ↦ rw (nowhere, process_request) tt
  | inr (r, there) ↦ elim (Bool-cases (method_refused r req.code)) [
    | inl refused ↦
        rw (there, refused, process_request) (refuse_method-AllSound sys c x req a s serves)
    | inr allowed ↦ elim (Option-cases r.handler) [
      | inl idle ↦ rw (there, allowed, idle, process_request) tt
      | inr (handler, ready) ↦
          rw (there, allowed, ready, process_request)
            (call_handler-AllSound sys c x req handler a s serves)
    ]
  ]
]

serve_request-AllSound :
    (sys : System) (c : Coap) (x : Interaction)
    → AllSound c
    → IsSound (handled c.resources) x
    → x.role ≡ role_server
    → AllSoundAfter (serve_request sys c x)
unfolding serve_request set_sleep_interaction
serve_request-AllSound sys c x a s serves = elim (Option-cases x.req_msg) [
  | inl missing ↦ rw (missing, serve_request) tt
  | inr (req, there) ↦
      let go = process_request-AllSound sys c x req a s serves in
      elim (Bool-cases (is_multicast x.req_meta_info)) [
        | inr alone ↦ rw (there, alone, serve_request) go
        | inl many ↦ elim (Bool-cases (is_con req.type)) [
          | inl confirmable ↦
              rw (there, many, confirmable, serve_request) (delete_interaction-AllSound c x a)
          | inr plain ↦ elim (Bool-cases (is_handle_request x.state)) [
            | inr again ↦ rw (there, many, plain, again, serve_request) go
            | inl first ↦
                rw (there, many, plain, first, serve_request)
                  (enqueue_last_interaction-AllSound c _ a (ground (arith, s, serves)))
          ]
        ]
      ]
]

on_response_status-AllSound :
    (sys : System) (c : Coap) (x : Interaction) (status : CoapResult)
    → AllSound c
    → IsSound (handled c.resources) x
    → (status ≡ retry → x.retrans_counter + 1 ≤ max_retransmit)
    → AllSoundAfter (on_response_status sys c x status)
unfolding on_response_status
on_response_status-AllSound sys c x waiting a s few = enqueue_last_interaction-AllSound c x a s
on_response_status-AllSound sys c x holding_back a s few = enqueue_last_interaction-AllSound c x a s
on_response_status-AllSound sys c x retry a s few = retry_response-AllSound sys c x a s (few refl)
on_response_status-AllSound sys c x _ a s few = delete_interaction-AllSound c x a

-- handleServerInteraction keeps all interactions sound.
handle_server_interaction-AllSound :
    (sys : System) (c : Coap) (x : Interaction)
    → AllSound c
    → IsSound (handled c.resources) x
    → x.role ≡ role_server
    → AllSoundAfter (handle_server_interaction sys c x)
unfolding handle_server_interaction
handle_server_interaction-AllSound sys c x a s serves = by_state x.state refl
  where
    by_state :
        (st : InteractionState) → x.state ≡ st → AllSoundAfter (handle_server_interaction sys c x)
    by_state handle_request e =
        rw (e, handle_server_interaction) (serve_request-AllSound sys c x a s serves)
    by_state resource_postpone_empty_ack_sent e =
        rw (e, handle_server_interaction) (serve_request-AllSound sys c x a s serves)
    by_state response_waiting_leisure e =
        rw (e, handle_server_interaction) (serve_request-AllSound sys c x a s serves)
    by_state response_sent e = elim (Option-cases (check_resp_status c.world.now x)) [
      | inl missing ↦ rw (e, missing, handle_server_interaction) tt
      | inr ((status, x'), is) ↦
          let (s', same) =
            check_resp_status-IsSound (handled c.resources) c.world.now x x' status is s in
          rw (e, is, handle_server_interaction)
            (on_response_status-AllSound sys c x' status a s' (λ again.
              check_resp_status-retry c.world.now x x' (is ∙ ap (λ t. some (t, x')) again)))
    ]
    by_state _ e = rw (e, handle_server_interaction) a

handle_interaction-AllSound :
    (sys : System) (c : Coap) (x : Interaction)
    → AllSound c
    → IsSound (handled c.resources) x
    → AllSoundAfter (handle_interaction sys c x)
unfolding handle_interaction
handle_interaction-AllSound sys c x a s = by_role x.role refl
  where
    by_role : (r : InteractionRole) → x.role ≡ r → AllSoundAfter (handle_interaction sys c x)
    by_role role_server e =
        rw (e, handle_interaction) (handle_server_interaction-AllSound sys c x a s e)
    by_role role_notification e =
        rw (e, handle_interaction) (handle_notify_interaction-AllSound sys c x a s e)
    by_role role_client e =
        rw (e, handle_interaction) (handle_client_interaction-AllSound sys c x a s e)
    by_role role_not_set e = rw (e, handle_interaction) a

-- CoAP_doWork keeps all interactions sound, whatever is sent, allocated and answered by handlers
-- and notifiers.
pub do_work-AllSound : (sys : System) (c : Coap) → AllSound c → AllSoundAfter (do_work sys c)
unfolding do_work
do_work-AllSound sys c a = by_list c.interactions refl
  where
    by_list : (xs : List Interaction) → c.interactions ≡ xs → AllSoundAfter (do_work sys c)
    by_list [] e = rw (e, do_work) a
    by_list (x ∷ xs) e =
        let all : All (IsSound (handled c.resources)) (x ∷ xs) = rw e at a in
        elim (Bool-cases (time_after x.sleep_until c.world.now)) [
          | inl sleeps ↦ rw (e, sleeps, do_work) (enqueue_last_interaction-AllSound c x a all.0)
          | inr awake ↦ rw (e, awake, do_work) (handle_interaction-AllSound sys c x a all.0)
        ]
