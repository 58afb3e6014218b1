-- ===== src/Machine/Sound/Incoming.antt =====
-- CoAP_HandleIncomingPacket keeps all interactions sound.
use lobaro_coap.Machine.Sound.{handled}
use lobaro_coap.Common.{
  Bool, ℕ, ◌≡◌, ◌∙◌, ap, true, ◌&&◌, ◌||◌, List, [], ◌∷◌, Option, none, some, inl, inr, arith, All,
  ◌==◌, Bool-cases, Option-cases,
}
use mathlib.Core.Path.{subst}
use mathlib.Core.Option.{some-injective}
use lobaro_coap.OptionWire.{is_ok}
use lobaro_coap.Endpoint.{Endpoint, ep_are_equal}
use lobaro_coap.Message.{ack, Message, empty_code, token_equal}
use lobaro_coap.Send.{System, send_short_resp}
use lobaro_coap.Interaction.{
  Interaction, is_con, has_message_id, find_interaction_by_message_id_and_ep, ack_send,
}
use lobaro_coap.Machine.{Coap, store}
use lobaro_coap.Machine.Incoming.{
  Origin, answer_and_end, end_message, is_client, is_waiting_response, takes_response,
  attach_response, piggybacked, acknowledge, reset, find_client, confirm_response, take_response,
}
use lobaro_coap.Machine.Sound.{IsSound, AllSound, AllSoundAfter, All-store}

pub All-find {κ} :
    (P : Interaction → Type κ) (xs : List Interaction) (id : ℕ) (ep : Endpoint) (y : Interaction)
    → find_interaction_by_message_id_and_ep xs id ep ≡ some y
    → All P xs
    → P y
unfolding find_interaction_by_message_id_and_ep
All-find P [] id ep y e a = absurd (cc e)
All-find P (x ∷ xs) id ep y e a =
    elim (Bool-cases (
      (has_message_id x.resp_msg id || has_message_id x.req_msg id)
      && ep_are_equal ep x.remote_ep)) [
        | inl here ↦
            let same : some x ≡ some y = rw (here, find_interaction_by_message_id_and_ep) at e in
            subst P (some-injective x y same) a.0
        | inr there ↦
            All-find P xs id ep y (rw (there, find_interaction_by_message_id_and_ep) at e) a.1
      ]

-- What CoAP_HandleIncomingPacket finds for a separate response is a client's interaction.
found_client {κ} :
    (P : Interaction → Type κ) (xs : List Interaction) (msg : Message) (ep : Endpoint)
    (y : Interaction)
    → find_client xs msg ep ≡ some (some y)
    → All P xs
    → P y × (is_client y.role ≡ true)
unfolding find_client
found_client P [] msg ep y e a = absurd (cc e)
found_client P (x ∷ xs) msg ep y e a = elim (Bool-cases (is_client x.role)) [
  | inr other ↦ found_client P xs msg ep y (rw (other, find_client) at e) a.1
  | inl client ↦ elim (Option-cases x.req_msg) [
    | inl missing ↦
        absurd
          (let clash : none ≡ some (some y) = rw (client, missing, find_client) at e in cc clash)
    | inr (req, there) ↦
        elim (Bool-cases (token_equal req.token msg.token && ep_are_equal ep x.remote_ep)) [
          | inl here ↦
              let same : some (some x) ≡ some (some y) =
                rw (client, there, here, find_client) at e in
              subst (λ z. P z × (is_client z.role ≡ true))
                (some-injective x y (some-injective _ _ same)) (a.0, client)
          | inr further ↦
              found_client P xs msg ep y (rw (client, there, further, find_client) at e) a.1
        ]
  ]
]

-- An interaction that is woken up, or that a confirmation or a response reached.
pub store-AllSound :
    (c : Coap) (x : Interaction)
    → AllSound c
    → IsSound (handled c.resources) x
    → AllSound (store c x)
store-AllSound c x a s = All-store _ c.interactions x a s

attach_response-AllSound :
    (c : Coap) (x : Interaction) (msg : Message)
    → AllSound c
    → IsSound (handled c.resources) x
    → is_client x.role ≡ true
    → AllSound (attach_response c x msg)
unfolding attach_response
attach_response-AllSound c x msg a s client = store-AllSound c _ a (ground (arith, s, client))

piggybacked-AllSound :
    (c : Coap) (x : Interaction) (msg : Message)
    → AllSound c
    → IsSound (handled c.resources) x
    → AllSoundAfter (piggybacked c x msg)
unfolding piggybacked end_message
piggybacked-AllSound c x msg a s = elim (Bool-cases (is_client x.role)) [
  | inr other ↦ rw (other, piggybacked) a
  | inl client ↦ elim (Option-cases x.req_msg) [
    | inl missing ↦ rw (client, missing, piggybacked) tt
    | inr (req, there) ↦
        elim (Bool-cases (token_equal req.token msg.token && is_waiting_response x.state)) [
          | inl waits ↦
              rw (client, there, waits, piggybacked) (attach_response-AllSound c x msg a s client)
          | inr other ↦ rw (client, there, other, piggybacked) a
        ]
  ]
]

-- The interaction that was found for a message id, if any.
unfoldable pub FoundSound : List Bool → Option Interaction → Type 0
FoundSound n none = Unit {0}
FoundSound n (some x) = IsSound n x

pub acknowledge-AllSound :
    (c : Coap) (found : Option Interaction) (msg : Message)
    → AllSound c
    → FoundSound (handled c.resources) found
    → AllSoundAfter (acknowledge c found msg)
unfolding acknowledge end_message FoundSound
acknowledge-AllSound c none msg a s = a
acknowledge-AllSound c (some x) msg a s =
    let x' : Interaction = record x { res_confirm_state = ack_send } in
    let s' : IsSound (handled c.resources) x' = ground (arith, s) in
    let a' = store-AllSound c x' a s' in
    elim (Bool-cases (msg.code == empty_code)) [
      | inl empty ↦ rw (empty, acknowledge) a'
      | inr response ↦ rw (response, acknowledge) (piggybacked-AllSound (store c x') x' msg a' s')
    ]

pub reset-AllSound :
    (c : Coap) (found : Option Interaction) (msg : Message)
    → AllSound c
    → FoundSound (handled c.resources) found
    → AllSound (reset c found msg)
unfolding reset end_message FoundSound
reset-AllSound c none msg a s = a
reset-AllSound c (some x) msg a s = store-AllSound c _ a (ground (arith, s))

confirm_response-AllSound :
    (sys : System) (c : Coap) (x : Interaction) (msg : Message) (from : Origin)
    → AllSound c
    → IsSound (handled c.resources) x
    → AllSound (confirm_response sys c x msg from)
unfolding confirm_response
confirm_response-AllSound sys c x msg from a s = elim (Bool-cases (is_con msg.type)) [
  | inr plain ↦ rw (plain, confirm_response) a
  | inl confirmable ↦
      elim (Bool-cases (
        is_ok
          (send_short_resp sys ack empty_code msg.message_id msg.token from.socket from.ep
            c.world).0)) [
              | inl sent ↦
                  rw (confirmable, sent, confirm_response)
                    (All-store _ c.interactions _ a (ground (arith, s)))
              | inr failed ↦ rw (confirmable, failed, confirm_response) a
            ]
]

pub take_response-AllSound :
    (sys : System) (c : Coap) (msg : Message) (from : Origin)
    → AllSound c
    → AllSoundAfter (take_response sys c msg from)
unfolding take_response end_message answer_and_end attach_response
take_response-AllSound sys c msg from a =
    elim (Option-cases (find_client c.interactions msg from.ep)) [
      | inl broken ↦ rw (broken, take_response) tt
      | inr (found, is) ↦ elim (Option-cases found) [
        | inl nobody ↦ rw (is, nobody, take_response) a
        | inr (x, there) ↦
            let (s, client) = found_client _ c.interactions msg from.ep x (is ∙ ap some there) a in
            elim (Bool-cases (takes_response x.state)) [
              | inl takes ↦
                  rw (is, there, takes, take_response)
                    (confirm_response-AllSound sys (attach_response c x msg) _ msg from
                      (attach_response-AllSound c x msg a s client) (ground (arith, s, client)))
              | inr late ↦
                  rw (is, there, late, take_response)
                    (confirm_response-AllSound sys c x msg from a s)
            ]
      ]
    ]
