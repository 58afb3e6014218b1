-- ===== src/Machine/Defined/Server.antt =====
-- A server's interaction follows no NULL pointer.
use lobaro_coap.Machine.Sound.{handled}
use lobaro_coap.Common.{
  ℕ, ◌+◌, ◌≡◌, refl, Bool, true, false, List, [], ◌∷◌, none, some, arith, inl, inr, All, Bool-cases,
  Option-cases,
}
use lobaro_coap.Platform.{Plentiful, malloc}
use lobaro_coap.Endpoint.{Endpoint}
use lobaro_coap.Message.{Message, Token}
use lobaro_coap.Message.Create.{create_message}
use lobaro_coap.Resource.{HandlerResult, Handler, handler_ok, handler_postpone, handler_error}
use lobaro_coap.Send.{System, get_resp_msg_id, alloc_resp_msg}
use lobaro_coap.Interaction.{Interaction, role_server, response_sent}
use lobaro_coap.Machine.{Coap, with_mem, resource_of, check_resp_status}
use lobaro_coap.Machine.Observation.{
  remove_interactions_observer, find_pending, deregister_observer, handle_observation_in_req,
}
use lobaro_coap.Machine.Sound.{IsSound, AllSound, needs_resp, is_some}
use lobaro_coap.Machine.Defined.{
  Returns, send_resp-Returns, retry_response-Returns, remove_interactions_observer-Returns,
  check_resp_status-Returns, check_resp_status-same,
}
use lobaro_coap.Machine.Sound.Notify.{Keeps-AllSound, remove_interactions_observer-Keeps}
use lobaro_coap.Machine.Server.{
  code_of, refuse_method, set_response_type, add_path_option, answer_observation, finish_response,
  postpone_response, after_handler, prepare_response, call_handler, process_request, serve_request,
  on_response_status, handle_server_interaction,
}

-- A list in which every notification has its message.
find_pending-Returns :
    (n : List Bool) (ys : List Interaction) (token : Token) (socket : ℕ) (ep : Endpoint)
    → All (IsSound n) ys
    → Returns (find_pending ys token socket ep)
unfolding find_pending
find_pending-Returns n [] token socket ep a = refl
find_pending-Returns n (y ∷ ys) token socket ep (s, a) =
    let rest = find_pending-Returns n ys token socket ep a in ground (arith, s, rest)

deregister_observer-Returns :
    (c : Coap) (x : Interaction) (req : Message)
    → AllSound c
    → Returns (resource_of c x)
    → Returns (deregister_observer c x req)
unfolding deregister_observer
deregister_observer-Returns c x req a there =
    let removed = remove_interactions_observer-Returns c x req.token there in
    elim (Option-cases (remove_interactions_observer c x req.token)) [
      | inl lost ↦ ground (arith, lost, removed)
      | inr (c', kept) ↦
          let pending =
            find_pending-Returns (handled c'.resources) c'.interactions req.token x.socket_handle
              x.remote_ep
              (Keeps-AllSound c c' (remove_interactions_observer-Keeps c c' x req.token kept) a) in
          ground (arith, kept, pending)
    ]

handle_observation_in_req-Returns :
    (sys : System) (c : Coap) (x : Interaction)
    → AllSound c
    → Returns (resource_of c x)
    → Returns (handle_observation_in_req sys c x)
unfolding handle_observation_in_req
handle_observation_in_req-Returns sys c x a there = elim (Option-cases x.req_msg) [
  | inl missing ↦ ground (arith, missing)
  | inr (req, asked) ↦
      let d = deregister_observer-Returns c x req a there in ground (arith, asked, there, d)
]

answer_observation-Returns :
    (sys : System) (c : Coap) (x : Interaction) (req resp : Message)
    → AllSound c
    → Returns (resource_of c x)
    → Returns (answer_observation sys c x req resp)
unfolding answer_observation
answer_observation-Returns sys c x req resp a there =
    let observed = handle_observation_in_req-Returns sys c x a there in ground (arith, observed)

finish_response-Returns :
    (sys : System) (c : Coap) (x : Interaction) (req resp : Message)
    → AllSound c
    → Returns (resource_of c x)
    → Returns (finish_response sys c x req resp)
unfolding finish_response resource_of
finish_response-Returns sys c x req resp a there =
    let (resp', w) = set_response_type x req resp c.world in
    let (resp'', w') = add_path_option sys x resp' w in
    let c' : Coap = record c { world = w' } in
    let answered = answer_observation-Returns sys c' x req resp'' a there in
    elim (Option-cases (answer_observation sys c' x req resp'')) [
      | inl lost ↦ ground (arith, lost, answered)
      | inr ((c'', answer), found) ↦
          let sent =
            send_resp-Returns sys c'' (record x { resp_msg = some answer }) response_sent refl in
          rw (found, finish_response) sent
    ]

after_handler-Returns :
    (sys : System) (c : Coap) (x : Interaction) (req : Message) (result : HandlerResult)
    (resp : Message)
    → AllSound c
    → Returns (resource_of c x)
    → Returns (after_handler sys c x req result resp)
unfolding after_handler postpone_response resource_of
after_handler-Returns sys c x req result resp a there =
    let plain = finish_response-Returns sys c x req resp a there in
    let content =
      finish_response-Returns sys c x req (record resp { code = code_of 2 5 }) a there in
    let failed = finish_response-Returns sys c x req (record resp { code = code_of 5 0 }) a there in
    let late =
      finish_response-Returns sys c (record x { resp_msg = some resp }) req
        (record resp { code = code_of 5 3 }) a there in
    elim result [
      | handler_ok ↦ ground (arith, plain, content)
      | handler_error ↦ ground (arith, plain, failed)
      | handler_postpone ↦ ground (arith, late)
    ]

refuse_method-Returns :
    (sys : System) (c : Coap) (x : Interaction) (req : Message)
    → Plentiful sys.platform
    → Returns (refuse_method sys c x req)
unfolding refuse_method alloc_resp_msg create_message malloc
refuse_method-Returns sys c x req plenty =
    let (id, w) = get_resp_msg_id req c.world in
    let there = plenty w.mem.mallocs (sys.platform.sizeof_message + 0) in
    let (resp, w') = alloc_resp_msg sys req (code_of 4 5) 0 c.world in
    let answered : is_some resp ≡ true = rw (there) refl in
    send_resp-Returns sys (record c { world = w' }) (record x { resp_msg = resp }) response_sent
      answered

call_handler-Returns :
    (sys : System) (c : Coap) (x : Interaction) (req : Message) (handler : Handler)
    → AllSound c
    → Returns (resource_of c x)
    → Returns (call_handler sys c x req handler)
unfolding call_handler resource_of
call_handler-Returns sys c x req handler a there =
    let (prepared, w) = prepare_response sys x req c.world in
    let c' : Coap = record c { world = w } in
    elim (Option-cases prepared) [
      | inl missing ↦ rw (missing, call_handler) refl
      | inr (resp, new) ↦
          let (result, resp', m) = handler req resp w.mem in
          let handled = after_handler-Returns sys (with_mem c' m) x req result resp' a there in
          rw (new, call_handler) handled
    ]

-- The resource of an interaction has a handler.
abbrev pub is_handled : Coap → Interaction → Bool
is_handled c x = elim (resource_of c x) [ none ↦ false | some r ↦ is_some r.handler ]

process_request-Returns :
    (sys : System) (c : Coap) (x : Interaction) (req : Message)
    → AllSound c
    → Plentiful sys.platform
    → is_handled c x ≡ true
    → Returns (process_request sys c x req)
unfolding process_request
process_request-Returns sys c x req a plenty handled =
    let refused = refuse_method-Returns sys c x req plenty in
    elim (Option-cases (resource_of c x)) [
      | inl nowhere ↦ ground (arith, nowhere, handled)
      | inr (r, there) ↦
          let present : Returns (resource_of c x) = rw (there) refl in
          elim (Option-cases r.handler) [
            | inl none_set ↦ ground (arith, there, none_set, handled)
            | inr (handler, set) ↦
                let called = call_handler-Returns sys c x req handler a present in
                ground (arith, there, set, refused, called)
          ]
    ]

serve_request-Returns :
    (sys : System) (c : Coap) (x : Interaction)
    → AllSound c
    → Plentiful sys.platform
    → is_some x.req_msg ≡ true
    → is_handled c x ≡ true
    → Returns (serve_request sys c x)
unfolding serve_request
serve_request-Returns sys c x a plenty asked handled = elim (Option-cases x.req_msg) [
  | inl missing ↦ ground (arith, asked, missing)
  | inr (req, there) ↦
      let processed = process_request-Returns sys c x req a plenty handled in
      ground (arith, there, processed)
]

response_sent-Returns :
    (sys : System) (c : Coap) (x : Interaction)
    → is_some x.resp_msg ≡ true
    → x.state ≡ response_sent
    → Returns (handle_server_interaction sys c x)
unfolding handle_server_interaction on_response_status
response_sent-Returns sys c x h sent =
    let checked = check_resp_status-Returns c.world.now x h in
    elim (Option-cases (check_resp_status c.world.now x)) [
      | inl lost ↦ ground (arith, lost, checked)
      | inr ((status, x'), found) ↦
          let (resp, rest) = check_resp_status-same c.world.now x x' status found in
          let again = retry_response-Returns sys c x' (rw (resp) h) in
          ground (arith, sent, found, again)
    ]

pub handle_server_interaction-Returns :
    (sys : System) (c : Coap) (x : Interaction)
    → AllSound c
    → IsSound (handled c.resources) x
    → Plentiful sys.platform
    → x.role ≡ role_server
    → is_handled c x ≡ true
    → Returns (handle_server_interaction sys c x)
unfolding handle_server_interaction
handle_server_interaction-Returns sys c x a s plenty served handled =
    let answered =
      serve_request-Returns sys c x a plenty (s.req_there (ground (arith, served))) handled in
    elim (Bool-cases (needs_resp x.role x.state)) [
      | inl needed ↦
          response_sent-Returns sys c x (s.resp_there needed) (ground (arith, served, needed))
      | inr quiet ↦ ground (arith, s, served, quiet, answered)
    ]
