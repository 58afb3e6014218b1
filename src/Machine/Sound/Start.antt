-- ===== src/Machine/Sound/Start.antt =====
-- The start of interactions keeps all interactions sound.
use lobaro_coap.Machine.Sound.{handled, flag, flag-within}
use lobaro_coap.Common.{
  take, some, none, false, ℕ, ◌≡◌, refl, ap, Bool, true, ◌||◌, List, Option, length, inl, inr,
  arith, ltb, All, ◌==◌, Bool-cases, Option-cases,
}
use lobaro_coap.Platform.{Mem, CoapResult, err_argument, err_existing}
use mathlib.Core.Path.{subst}
use mathlib.Core.Option.{some-injective}
use lobaro_coap.Endpoint.{Endpoint}
use lobaro_coap.Message.{con, Message, empty_code, req_last, msg_is_request}
use lobaro_coap.OptionWire.{u16}
use lobaro_coap.Message.Create.{create_message}
use lobaro_coap.Send.{System, get_next_mid, generate_token}
use lobaro_coap.Interaction.{
  Interaction, MetaInfo, find_duplicate, start_new_client_interaction, start_new_server_interaction,
}
use lobaro_coap.Interaction.Lists.{All-append_interaction_to_list}
use lobaro_coap.Machine.{Coap, alloc_node}
use lobaro_coap.Machine.Start.{
  server_started, start_client, start_request, start_new_request, start_server,
}
use lobaro_coap.Machine.Sound.{IsSound, AllSound}

started_server :
    (n : List Bool) (block : Option ℕ) (xs xs' : List Interaction) (msg : Message) (res socket : ℕ)
    (ep : Endpoint) (meta : MetaInfo) (r : CoapResult) (again : Bool)
    → start_new_server_interaction block xs msg res socket ep meta ≡ some (r, xs', again)
    → All (IsSound n) xs
    → flag n res ≡ true
    → All (IsSound n) xs'
unfolding start_new_server_interaction
started_server n block xs xs' msg res socket ep meta r again e a there =
    elim (Bool-cases (msg_is_request msg)) [
      | inr other ↦
          subst (λ t. All (IsSound n) t.1)
            (some-injective _ _ (rw (other, start_new_server_interaction) at e)) a
      | inl request ↦ elim (Option-cases (find_duplicate xs msg.message_id socket ep)) [
        | inl broken ↦ absurd (
            let clash : none ≡ some (r, xs', again) =
              rw (request, broken, start_new_server_interaction) at e in
            cc clash)
        | inr (found, is) ↦ elim (Option-cases found) [
          | inr (x, twin) ↦
              subst (λ t. All (IsSound n) t.1)
                (some-injective _ _ (rw (request, is, twin, start_new_server_interaction) at e)) a
          | inl fresh ↦ elim (Option-cases block) [
            | inl refused ↦
                subst (λ t. All (IsSound n) t.1)
                  (some-injective _ _
                    (rw (request, is, fresh, refused, start_new_server_interaction) at e))
                  a
            | inr (address, granted) ↦
                subst (λ t. All (IsSound n) t.1)
                  (some-injective _ _
                    (rw (request, is, fresh, granted, start_new_server_interaction) at e))
                  (All-append_interaction_to_list _ xs _ a
                    (ground (arith, there, flag-within n res there)))
          ]
        ]
      ]
    ]

server_started-AllSound :
    (sys : System) (c : Coap) (msg : Message) (socket : ℕ) (ep : Endpoint) (m : Mem)
    (r : CoapResult) (xs : List Interaction) (again : Bool)
    → AllSound c
    → All (IsSound (handled c.resources)) xs
    → AllSound (server_started sys c msg socket ep m r xs again).1
unfolding server_started
server_started-AllSound sys c msg socket ep m err_argument xs again a s = a
server_started-AllSound sys c msg socket ep m err_existing xs true a s = a
server_started-AllSound sys c msg socket ep m err_existing xs false a s = a
server_started-AllSound sys c msg socket ep m _ xs again a s = s

-- CoAP_StartNewServerInteraction keeps all interactions sound.
pub start_server-AllSound :
    (sys : System) (c c' : Coap) (msg : Message) (res socket : ℕ) (ep : Endpoint) (meta : MetaInfo)
    (r : CoapResult)
    → start_server sys c msg res socket ep meta ≡ some (r, c')
    → AllSound c
    → flag (handled c.resources) res ≡ true
    → AllSound c'
unfolding start_server
start_server-AllSound sys c c' msg res socket ep meta r e a there =
    let (block, m) = alloc_node sys.platform sys.sizeof_interaction c.world.mem in
    elim (Option-cases (start_new_server_interaction block c.interactions msg res socket ep meta)) [
      | inl broken ↦
          absurd (let clash : none ≡ some (r, c') = rw (broken, start_server) at e in cc clash)
      | inr ((r', xs, again), started) ↦
          let same = some-injective _ (r, c') (rw (started, start_server) at e) in
          subst AllSound (ap (λ t. t.1) same) (
            server_started-AllSound sys c msg socket ep m r' xs again a (
              started_server (handled c.resources) block c.interactions xs msg res socket ep meta r'
                again started a there))
    ]

started_client :
    (n : List Bool) (block : Option ℕ) (xs : List Interaction) (msg : Message) (socket : ℕ)
    (ep : Endpoint) (cb : Option ℕ)
    → All (IsSound n) xs
    → All (IsSound n) (start_new_client_interaction block xs msg socket ep cb).1
unfolding start_new_client_interaction
started_client n block xs msg socket ep cb a = elim (Bool-cases (msg_is_request msg)) [
  | inr other ↦ rw (other, start_new_client_interaction) a
  | inl request ↦ elim (Option-cases block) [
    | inl refused ↦ rw (request, refused, start_new_client_interaction) a
    | inr (address, granted) ↦
        rw (request, granted, start_new_client_interaction)
          (All-append_interaction_to_list _ xs _ a (ground arith))
  ]
]

start_client-AllSound :
    (sys : System) (c : Coap) (msg : Message) (socket : ℕ) (ep : Endpoint) (cb : Option ℕ)
    → AllSound c
    → AllSound (start_client sys c msg socket ep cb).1
unfolding start_client
start_client-AllSound sys c msg socket ep cb a =
    by_result (start_new_client_interaction block c.interactions msg socket ep cb) refl
  where
    block : Option ℕ
    block = (alloc_node sys.platform sys.sizeof_interaction c.world.mem).0

    by_result :
        (t : CoapResult × List Interaction)
        → start_new_client_interaction block c.interactions msg socket ep cb ≡ t
        → AllSound (start_client sys c msg socket ep cb).1
    by_result (err_argument, xs) e = rw (e, start_client) a
    by_result (_, xs) e =
        rw (e, start_client)
          (started_client (handled c.resources) block c.interactions msg socket ep cb a)

-- CoAP_StartNewRequest keeps all interactions sound.
pub start_new_request-AllSound :
    (sys : System) (c : Coap) (code : ℕ) (uri payload : List ℕ) (socket : ℕ) (ep : Endpoint)
    (cb : Option ℕ)
    → AllSound c
    → AllSound (start_new_request sys c code uri payload socket ep cb).1
unfolding start_new_request start_request
start_new_request-AllSound sys c code uri payload socket ep cb a =
    let (id, w) = get_next_mid c.world in
    let (token, w') = generate_token w in
    elim (Bool-cases ((code == empty_code) || ltb req_last code)) [
      | inl bad ↦ rw (bad, start_new_request) a
      | inr good ↦
          elim (Option-cases
            (create_message sys.platform con code id (take (u16 (length payload)) payload)
              (u16 (length payload)) token w'.mem).0) [
                | inl refused ↦ rw (good, refused, start_new_request, start_request) a
                | inr (msg, made) ↦
                    rw (good, made, start_new_request, start_request)
                      (start_client-AllSound sys _ _ socket ep cb a)
              ]
    ]
