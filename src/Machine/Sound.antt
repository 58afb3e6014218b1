-- ===== src/Machine/Sound.antt =====
-- What holds of every interaction between two calls of the stack: its state belongs to its role,
-- the messages that the role needs in that state are there, its resource exists and, for a server,
-- has a handler, and the number of its retransmissions is limited. Here: the invariant, and the
-- operations on the list.
pub mod Client
pub mod Response
pub mod Notify
pub mod Observation
pub mod Server
pub mod Work
pub mod Incoming
pub mod Resources
pub mod Start
pub mod Publish
pub mod Packet
pub mod Reachable
use lobaro_coap.Common.{
  ℕ, zero, suc, ◌≤◌, ◌≡◌, ◌∙◌, ap, sym, refl, Bool, true, false, List, [], ◌∷◌, Option, none, some,
  ltb, ◌==◌, length, arith, All, inl, inr, Bool-cases, Option-cases,
}
use lobaro_coap.Message.{Message}
use mathlib.Core.Option.{some-injective}
use lobaro_coap.Resource.{Resource, resource_at, set_resource}
use lobaro_coap.Send.{System}
use lobaro_coap.Interaction.{
  InteractionRole, InteractionState, Interaction, is_server, unconfirmed,
  unlink_interaction_from_list, role_client, role_server, role_notification, handle_request,
  resource_postpone_empty_ack_sent, response_sent, response_waiting_leisure, ready_to_notify,
  notification_sent, ready_to_request, waiting_response, handle_response,
}
use lobaro_coap.Interaction.Lists.{All-unlink, All-move}
use lobaro_coap.Machine.{
  Coap, max_retransmit, store_interaction, enqueue_last_interaction, delete_interaction,
  set_resource_of, resource_of,
}
use lobaro_coap.Machine.Observation.{is_notification}
use lobaro_coap.Machine.Incoming.{is_client}

-- The states of a role.
abbrev pub fits : InteractionRole → InteractionState → Bool
fits role_server handle_request = true
fits role_server resource_postpone_empty_ack_sent = true
fits role_server response_sent = true
fits role_server response_waiting_leisure = true
fits role_notification ready_to_notify = true
fits role_notification notification_sent = true
fits role_client ready_to_request = true
fits role_client waiting_response = true
fits role_client handle_response = true
fits _ _ = false

-- Where a response message is needed.
abbrev pub needs_resp : InteractionRole → InteractionState → Bool
needs_resp role_notification _ = true
needs_resp role_server response_sent = true
needs_resp role_client handle_response = true
needs_resp _ _ = false

abbrev pub is_some {ℓ} : {A : Type ℓ} → Option A → Bool
is_some none = false
is_some (some a) = true

-- For every resource whether it has a handler.
abbrev pub handled : List Resource → List Bool
handled [] = []
handled (r ∷ rs) = is_some r.handler ∷ handled rs

abbrev pub flag : List Bool → ℕ → Bool
flag [] i = false
flag (b ∷ bs) zero = b
flag (b ∷ bs) (suc i) = flag bs i

-- The resource is there.
abbrev pub within : List Bool → Option ℕ → Bool
within n none = false
within n (some i) = ltb i (length n)

-- The resource is there and has a handler.
abbrev pub handled_at : List Bool → Option ℕ → Bool
handled_at n none = false
handled_at n (some i) = flag n i

pub flag-within : (n : List Bool) (i : ℕ) → flag n i ≡ true → ltb i (length n) ≡ true
flag-within [] i h = absurd (cc h)
flag-within (b ∷ bs) zero h = ground arith
flag-within (b ∷ bs) (suc i) h = ground (arith, flag-within bs i h)

-- An interaction where `n` tells of the resources which have a handler.
pub record IsSound (n : List Bool) (x : Interaction) : Type 0 where
  pub state_fits : fits x.role x.state ≡ true
  pub counter_capped : x.retrans_counter ≤ max_retransmit
  pub req_there : is_notification x.role ≡ false → is_some x.req_msg ≡ true
  pub resp_there : needs_resp x.role x.state ≡ true → is_some x.resp_msg ≡ true
  pub res_there : is_client x.role ≡ false → within n x.res ≡ true
  pub handler_there : is_server x.role ≡ true → handled_at n x.res ≡ true
  pub unconfirmed_client : is_client x.role ≡ true → x.req_confirm_state ≡ unconfirmed

-- All interactions of the stack are sound.
abbrev pub AllSound : Coap → Type 0
AllSound c = All (IsSound (handled c.resources)) c.interactions

-- The same for what a handler returns, where it returns a state.
abbrev pub AllSoundAfter : Option Coap → Type 0
AllSoundAfter none = Unit {0}
AllSoundAfter (some c) = AllSound c

pub All-store {κ} :
    (P : Interaction → Type κ) (xs : List Interaction) (x : Interaction)
    → All P xs
    → P x
    → All P (store_interaction xs x)
unfolding store_interaction
All-store P [] x a p = tt
All-store P (y ∷ ys) x a p = elim (Bool-cases (y.address == x.address)) [
  | inl here ↦ rw here (p, a.1)
  | inr there ↦ rw there (a.0, All-store P ys x a.1 p)
]

pub enqueue_last_interaction-AllSound :
    (c : Coap) (x : Interaction)
    → AllSound c
    → IsSound (handled c.resources) x
    → AllSound (enqueue_last_interaction c x)
unfolding enqueue_last_interaction
enqueue_last_interaction-AllSound c x a s = All-move _ c.interactions x a s

pub delete_interaction-AllSound :
    (c : Coap) (x : Interaction) → AllSound c → AllSound (delete_interaction c x)
unfolding delete_interaction
delete_interaction-AllSound c x a =
    elim (Option-cases (unlink_interaction_from_list c.interactions x.address).1) [
      | inl missing ↦ rw (missing, delete_interaction) a
      | inr (y, found) ↦ rw (found, delete_interaction) (All-unlink _ c.interactions x.address a)
    ]

-- A resource is replaced by one with the same handler.
pub handled-set_resource :
    (rs : List Resource) (i : ℕ) (r r' : Resource)
    → resource_at rs i ≡ some r
    → r'.handler ≡ r.handler
    → handled (set_resource rs i r') ≡ handled rs
unfolding set_resource resource_at
handled-set_resource [] i r r' e same = refl
handled-set_resource (x ∷ xs) zero r r' e same =
    ap (λ (b : Bool). b ∷ handled xs)
      (ap is_some (same ∙ ap (λ (q : Resource). q.handler) (sym (some-injective x r e))))
handled-set_resource (x ∷ xs) (suc i) r r' e same =
    ap (λ bs. is_some x.handler ∷ bs) (handled-set_resource xs i r r' e same)

pub handled-set_resource_of :
    (c : Coap) (x : Interaction) (r r' : Resource)
    → resource_of c x ≡ some r
    → r'.handler ≡ r.handler
    → handled (set_resource_of c x r').resources ≡ handled c.resources
unfolding set_resource_of resource_of
handled-set_resource_of c x r r' e same = elim (Option-cases x.res) [
  | inl nowhere ↦ rw (nowhere, set_resource_of) refl
  | inr (i, there) ↦
      rw (there, set_resource_of)
        (handled-set_resource c.resources i r r' (rw (there, resource_of) at e) same)
]
