-- ===== src/Machine/Sound/Server.antt =====
-- A server's response keeps all interactions sound: from the call of the resource's handler on.
use lobaro_coap.Machine.Sound.{handled}
use lobaro_coap.Common.{
  List, Bool, ◌≡◌, refl, ◌&&◌, ◌||◌, not, Option, none, some, inl, inr, ◌==◌, arith, Bool-cases,
  Option-cases,
}
use mathlib.Core.Path.{subst}
use lobaro_coap.OptionWire.{is_ok}
use lobaro_coap.Message.{Message, empty_code}
use lobaro_coap.Message.Create.{msg_is_older_than}
use lobaro_coap.Resource.{HandlerResult, handler_ok, handler_postpone, handler_error, Handler}
use lobaro_coap.Send.{System, send_empty_ack}
use lobaro_coap.Interaction.{Interaction, is_con, role_server, response_sent}
use lobaro_coap.Machine.{Coap, with_mem, set_sleep_interaction, is_ack_send}
use lobaro_coap.Machine.Observation.{handle_observation_in_req}
use lobaro_coap.Machine.Server.{
  code_of, req_get, req_fetch, is_multicast, postpone_max_wait_time, set_response_type,
  add_path_option, answer_observation, finish_response, postpone, postpone_response, after_handler,
  prepare_response, call_handler,
}
use lobaro_coap.Machine.Sound.{
  IsSound, AllSound, AllSoundAfter, enqueue_last_interaction-AllSound, delete_interaction-AllSound,
}
use lobaro_coap.Machine.Sound.Response.{send_resp-AllSound}
use lobaro_coap.Machine.Sound.Observation.{Carried, CarriedAfter, handle_observation_in_req-Carried}

-- What the answer to an observation leaves behind.
CarriedWith : Coap → Option (Coap × Message) → Type 0
CarriedWith c none = Unit {0}
CarriedWith c (some (c', msg)) = Carried c c'

answer_observation-Carried :
    (sys : System) (c : Coap) (x : Interaction) (req resp : Message)
    → AllSound c
    → CarriedWith c (answer_observation sys c x req resp)
unfolding answer_observation CarriedWith
answer_observation-Carried sys c x req resp a =
    elim (Bool-cases
      (((req.code == req_get) || (req.code == req_fetch)) && (resp.code == code_of 2 5))) [
        | inr other ↦ rw (other, answer_observation) (a, refl)
        | inl asked ↦ elim (Option-cases (handle_observation_in_req sys c x)) [
          | inl lost ↦ rw (asked, lost, answer_observation) tt
          | inr ((result, c'), is) ↦
              let kept : Carried c c' =
                subst (CarriedAfter c) is (handle_observation_in_req-Carried sys c x a) in
              elim (Bool-cases (is_ok result)) [
                | inl good ↦ rw (asked, is, good, answer_observation) kept
                | inr bad ↦ rw (asked, is, bad, answer_observation) kept
              ]
        ]
      ]

pub with_resp-IsSound :
    (n : List Bool) (x : Interaction) (resp : Message)
    → IsSound n x
    → IsSound n (record x { resp_msg = some resp })
with_resp-IsSound n x resp s = ground (arith, s)

finish_response-AllSound :
    (sys : System) (c : Coap) (x : Interaction) (req resp : Message)
    → AllSound c
    → IsSound (handled c.resources) x
    → x.role ≡ role_server
    → AllSoundAfter (finish_response sys c x req resp)
unfolding finish_response CarriedWith
finish_response-AllSound sys c x req resp a s serves =
    let (resp', w) = set_response_type x req resp c.world in
    let (resp'', w') = add_path_option sys x resp' w in
    let c' : Coap = record c { world = w' } in
    elim (Option-cases (answer_observation sys c' x req resp'')) [
      | inl lost ↦ rw (lost, finish_response) tt
      | inr ((c'', answer), is) ↦
          let (a', same) : Carried c' c'' =
            subst (CarriedWith c') is (answer_observation-Carried sys c' x req resp'' a) in
          rw (is, finish_response)
            (send_resp-AllSound sys c'' (record x { resp_msg = some answer }) response_sent a'
              (rw same (with_resp-IsSound (handled c.resources) x answer s)) (ground arith)
              (ground arith))
    ]

postpone-AllSound :
    (c : Coap) (x : Interaction)
    → AllSound c
    → IsSound (handled c.resources) x
    → AllSound (postpone c x)
unfolding set_sleep_interaction
postpone-AllSound c x a s = enqueue_last_interaction-AllSound c _ a (ground (arith, s))

postpone_response-AllSound :
    (sys : System) (c : Coap) (x : Interaction) (req resp : Message)
    → AllSound c
    → IsSound (handled c.resources) x
    → x.role ≡ role_server
    → AllSoundAfter (postpone_response sys c x req resp)
unfolding postpone_response
postpone_response-AllSound sys c x req resp a s serves =
    elim (Bool-cases (is_con req.type && not (is_ack_send x.req_confirm_state))) [
      | inl first ↦
          let (r, w) = send_empty_ack sys req.message_id x.socket_handle x.remote_ep c.world in
          let c' : Coap = record c { world = w } in
          elim (Bool-cases (is_ok r)) [
            | inl sent ↦
                rw (first, sent, postpone_response)
                  (postpone-AllSound c' _ a (ground (arith, s, serves)))
            | inr failed ↦
                rw (first, failed, postpone_response) (delete_interaction-AllSound c' x a)
          ]
      | inr again ↦ elim (Bool-cases (msg_is_older_than c.world.now req postpone_max_wait_time)) [
        | inl late ↦
            rw (again, late, postpone_response) (finish_response-AllSound sys c x req _ a s serves)
        | inr early ↦ rw (again, early, postpone_response) (postpone-AllSound c x a s)
      ]
    ]

after_handler-AllSound :
    (sys : System) (c : Coap) (x : Interaction) (req : Message) (result : HandlerResult)
    (resp : Message)
    → AllSound c
    → IsSound (handled c.resources) x
    → x.role ≡ role_server
    → AllSoundAfter (after_handler sys c x req result resp)
unfolding after_handler
after_handler-AllSound sys c x req handler_ok resp a s serves =
    elim (Bool-cases (resp.code == empty_code)) [
      | inl forgot ↦ rw (forgot, after_handler) (finish_response-AllSound sys c x req _ a s serves)
      | inr set ↦ rw (set, after_handler) (finish_response-AllSound sys c x req resp a s serves)
    ]
after_handler-AllSound sys c x req handler_error resp a s serves =
    elim (Bool-cases (resp.code == empty_code)) [
      | inl forgot ↦ elim (Bool-cases (is_multicast x.req_meta_info)) [
        | inl silent ↦ rw (forgot, silent, after_handler) (delete_interaction-AllSound c _ a)
        | inr alone ↦
            rw (forgot, alone, after_handler) (finish_response-AllSound sys c x req _ a s serves)
      ]
      | inr set ↦ rw (set, after_handler) (finish_response-AllSound sys c x req resp a s serves)
    ]
after_handler-AllSound sys c x req handler_postpone resp a s serves =
    postpone_response-AllSound sys c (record x { resp_msg = some resp }) req resp a
      (with_resp-IsSound (handled c.resources) x resp s) serves

pub call_handler-AllSound :
    (sys : System) (c : Coap) (x : Interaction) (req : Message) (handler : Handler)
    → AllSound c
    → IsSound (handled c.resources) x
    → x.role ≡ role_server
    → AllSoundAfter (call_handler sys c x req handler)
unfolding call_handler
call_handler-AllSound sys c x req handler a s serves =
    let (prepared, w) = prepare_response sys x req c.world in
    let c' : Coap = record c { world = w } in
    elim (Option-cases prepared) [
      | inl refused ↦ rw (refused, call_handler) (delete_interaction-AllSound c' x a)
      | inr (resp, granted) ↦
          let (result, resp', m) = handler req resp w.mem in
          rw (granted, call_handler)
            (after_handler-AllSound sys (with_mem c' m) x req result resp' a s serves)
    ]
