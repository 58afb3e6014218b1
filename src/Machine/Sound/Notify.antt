-- ===== src/Machine/Sound/Notify.antt =====
-- The state machine of a notification keeps all interactions sound.
use lobaro_coap.Machine.Sound.{handled}
use lobaro_coap.Common.{
  ℕ, ◌+◌, ◌≤◌, ◌≡◌, ◌∙◌, refl, ap, Bool, true, false, ◌⊎◌, if◌then◌else◌, Option, none, some, arith,
  inl, inr, Option-cases,
}
use lobaro_coap.Platform.{
  CoapResult, Mem, ok, waiting, holding_back, retry, err_out_of_attempts, err_remote_rst,
}
use mathlib.Core.Path.{subst}
use mathlib.Core.Option.{some-injective}
use lobaro_coap.Observer.{observer_at}
use lobaro_coap.Observe.{remove_observe_option_from_msg}
use lobaro_coap.Message.{Message, Token}
use lobaro_coap.Resource.{HandlerResult, handler_error, Resource}
use lobaro_coap.Send.{System}
use lobaro_coap.Interaction.{
  Interaction, InteractionState, role_notification, ready_to_notify, notification_sent,
}
use lobaro_coap.Machine.{
  retry_response, enqueue_last_interaction, Coap, max_retransmit, with_mem, resource_of,
  set_resource_of, check_resp_status,
}
use lobaro_coap.Machine.Observation.{remove_interactions_observer}
use lobaro_coap.Machine.Notify.{
  after_notifier, refresh_notification, retry_notification, finish_notification,
  give_up_notification, on_notification_status, handle_notify_interaction, renewed,
}
use lobaro_coap.Machine.Sound.{
  IsSound, AllSound, AllSoundAfter, enqueue_last_interaction-AllSound, delete_interaction-AllSound,
  handled-set_resource_of,
}
use lobaro_coap.Machine.Sound.Response.{
  send_resp-AllSound, retry_response-AllSound, check_resp_status-IsSound, check_resp_status-retry,
}

-- A change of resources and of the world that leaves the interactions and the number of resources.
pub record Keeps (c c' : Coap) : Type 0 where
  pub interactions_same : c'.interactions ≡ c.interactions
  pub resources_same : handled c'.resources ≡ handled c.resources

pub Keeps-AllSound : (c c' : Coap) → Keeps c c' → AllSound c → AllSound c'
Keeps-AllSound c c' k a = rw (k.interactions_same, k.resources_same) a

set_resource_of-interactions :
    (c : Coap) (x : Interaction) (r : Resource)
    → (set_resource_of c x r).interactions ≡ c.interactions
unfolding set_resource_of
set_resource_of-interactions c x r = elim (Option-cases x.res) [
  | inl nowhere ↦ rw (nowhere, set_resource_of) refl
  | inr (i, there) ↦ rw (there, set_resource_of) refl
]

pub set_resource_of-Keeps :
    (c : Coap) (x : Interaction) (r r' : Resource) (m : Mem)
    → resource_of c x ≡ some r
    → r'.handler ≡ r.handler
    → Keeps c (with_mem (set_resource_of c x r') m)
set_resource_of-Keeps c x r r' m there same = record {
  interactions_same = set_resource_of-interactions c x r';
  resources_same = handled-set_resource_of c x r r' there same;
}

pub remove_interactions_observer-Keeps :
    (c c' : Coap) (x : Interaction) (token : Token)
    → remove_interactions_observer c x token ≡ some c'
    → Keeps c c'
unfolding remove_interactions_observer
remove_interactions_observer-Keeps c c' x token e = elim (Option-cases (resource_of c x)) [
  | inl nowhere ↦
      absurd
        (let clash : none ≡ some c' = rw (nowhere, remove_interactions_observer) at e in cc clash)
  | inr (r, there) ↦
      subst (Keeps c) (some-injective _ c' (rw (there, remove_interactions_observer) at e))
        (set_resource_of-Keeps c x r _ _ there refl)
]

after_notifier-Keeps :
    (sys : System) (c c' : Coap) (x : Interaction) (update_cnt : ℕ) (result : HandlerResult)
    (msg msg' : Message)
    → after_notifier sys c x update_cnt result msg ≡ some (c', msg')
    → Keeps c c'
unfolding after_notifier
after_notifier-Keeps sys c c' x update_cnt handler_error msg msg' e =
    let m = (remove_observe_option_from_msg msg.options c.world.mem).2 in
    elim (Option-cases (remove_interactions_observer (with_mem c m) x msg.token)) [
      | inl lost ↦
          absurd (let clash : none ≡ some (c', msg') = rw (lost, after_notifier) at e in cc clash)
      | inr (c'', made) ↦
          let same = some-injective _ (c', msg') (rw (made, after_notifier) at e) in
          let kept = remove_interactions_observer-Keeps (with_mem c m) c'' x msg.token made in
          subst (Keeps c) (ap (λ r. r.0) same) (record {
            interactions_same = kept.interactions_same;
            resources_same = kept.resources_same;
          })
    ]
after_notifier-Keeps sys c c' x update_cnt _ msg msg' e =
    subst (Keeps c) (ap (λ r. r.0) (some-injective _ (c', msg') e))
      (record { interactions_same = refl; resources_same = refl })

refresh_notification-Keeps :
    (sys : System) (c c' : Coap) (x : Interaction) (msg msg' : Message)
    → refresh_notification sys c x msg ≡ some (c', msg')
    → Keeps c c'
unfolding refresh_notification
refresh_notification-Keeps sys c c' x msg msg' e = elim (Option-cases (resource_of c x)) [
  | inl nowhere ↦
      absurd
        (let clash : none ≡ some (c', msg') = rw (nowhere, refresh_notification) at e in cc clash)
  | inr (r, there) ↦ elim (Option-cases r.notifier) [
    | inl silent ↦ absurd (
        let clash : none ≡ some (c', msg') = rw (there, silent, refresh_notification) at e in
        cc clash)
    | inr (notifier, speaks) ↦ elim (Option-cases x.observer) [
      | inl unobserved ↦ absurd (
          let clash : none ≡ some (c', msg') =
            rw (there, speaks, unobserved, refresh_notification) at e in
          cc clash)
      | inr (address, points) ↦ elim (Option-cases (observer_at r.observers address)) [
        | inl freed ↦ absurd (
            let clash : none ≡ some (c', msg') =
              rw (there, speaks, points, freed, refresh_notification) at e in
            cc clash)
        | inr (o, is) ↦
            let kept =
              after_notifier-Keeps sys _ c' x r.update_cnt _ _ msg'
                (rw (there, speaks, points, is, refresh_notification) at e) in
            record {
              interactions_same = kept.interactions_same;
              resources_same = kept.resources_same;
            }
      ]
    ]
  ]
]

either :
    (b : Bool) (p q : Option Coap)
    → AllSoundAfter p
    → AllSoundAfter q
    → AllSoundAfter (if b then p else q)
either true p q hp hq = hp
either false p q hp hq = hq

retry_notification-AllSound :
    (sys : System) (c : Coap) (x : Interaction)
    → AllSound c
    → IsSound (handled c.resources) x
    → x.role ≡ role_notification
    → x.retrans_counter + 1 ≤ max_retransmit
    → AllSoundAfter (retry_notification sys c x)
unfolding retry_notification
retry_notification-AllSound sys c x a s notifies few =
    either x.update_pending_notification _ _ (refreshed (Option-cases x.resp_msg))
      (retry_response-AllSound sys c x a s few)
  where
    refreshed :
        (x.resp_msg ≡ none) ⊎ ((msg : Message) × (x.resp_msg ≡ some msg))
        → AllSoundAfter (elim x.resp_msg [
          | none ↦ none
          | some msg ↦ elim (refresh_notification sys c x msg) [
            | none ↦ none
            | some (c', msg') ↦ retry_response sys c' (record x {
              update_pending_notification = false;
              resp_msg = some (record msg' { type = msg.type });
            })
          ]
        ])
    refreshed (inl missing) = rw missing tt
    refreshed (inr (msg, there)) = elim (Option-cases (refresh_notification sys c x msg)) [
      | inl lost ↦ rw (there, lost) tt
      | inr ((c', msg'), made) ↦
          let k = refresh_notification-Keeps sys c c' x msg msg' made in
          let x' : Interaction = record x {
            update_pending_notification = false;
            resp_msg = some (record msg' { type = msg.type });
          } in
          let s' : IsSound (handled c'.resources) x' = rw k.resources_same (ground (arith, s)) in
          rw (there, made) (retry_response-AllSound sys c' x' (Keeps-AllSound c c' k a) s' few)
    ]

finish_notification-AllSound :
    (sys : System) (c : Coap) (x : Interaction)
    → AllSound c
    → IsSound (handled c.resources) x
    → x.role ≡ role_notification
    → AllSoundAfter (finish_notification sys c x)
unfolding finish_notification
finish_notification-AllSound sys c x a s notifies =
    either x.update_pending_notification _ _ (refreshed (Option-cases x.resp_msg))
      (delete_interaction-AllSound c x a)
  where
    refreshed :
        (x.resp_msg ≡ none) ⊎ ((msg : Message) × (x.resp_msg ≡ some msg))
        → AllSoundAfter (elim x.resp_msg [
          | none ↦ none
          | some msg ↦ elim (refresh_notification sys c x msg) [
            | none ↦ none
            | some (c', msg') ↦ some (enqueue_last_interaction c' (renewed x msg'))
          ]
        ])
    refreshed (inl missing) = rw missing tt
    refreshed (inr (msg, there)) = elim (Option-cases (refresh_notification sys c x msg)) [
      | inl lost ↦ rw (there, lost) tt
      | inr ((c', msg'), made) ↦
          let k = refresh_notification-Keeps sys c c' x msg msg' made in
          let s' : IsSound (handled c'.resources) (renewed x msg') =
            rw k.resources_same (ground (arith, s)) in
          rw (there, made)
            (enqueue_last_interaction-AllSound c' (renewed x msg') (Keeps-AllSound c c' k a) s')
    ]

give_up_notification-AllSound :
    (c : Coap) (x : Interaction) → AllSound c → AllSoundAfter (give_up_notification c x)
unfolding give_up_notification
give_up_notification-AllSound c x a = elim (Option-cases x.resp_msg) [
  | inl missing ↦ rw (missing, give_up_notification) tt
  | inr (msg, there) ↦ elim (Option-cases (remove_interactions_observer c x msg.token)) [
    | inl lost ↦ rw (there, lost, give_up_notification) tt
    | inr (c', made) ↦
        rw (there, made, give_up_notification)
          (delete_interaction-AllSound c' x
            (Keeps-AllSound c c' (remove_interactions_observer-Keeps c c' x msg.token made) a))
  ]
]

on_notification_status-AllSound :
    (sys : System) (c : Coap) (x : Interaction) (status : CoapResult)
    → AllSound c
    → IsSound (handled c.resources) x
    → x.role ≡ role_notification
    → (status ≡ retry → x.retrans_counter + 1 ≤ max_retransmit)
    → AllSoundAfter (on_notification_status sys c x status)
unfolding on_notification_status
on_notification_status-AllSound sys c x waiting a s notifies few =
    enqueue_last_interaction-AllSound c x a s
on_notification_status-AllSound sys c x holding_back a s notifies few =
    enqueue_last_interaction-AllSound c x a s
on_notification_status-AllSound sys c x retry a s notifies few =
    retry_notification-AllSound sys c x a s notifies (few refl)
on_notification_status-AllSound sys c x ok a s notifies few =
    finish_notification-AllSound sys c x a s notifies
on_notification_status-AllSound sys c x err_out_of_attempts a s notifies few =
    give_up_notification-AllSound c x a
on_notification_status-AllSound sys c x err_remote_rst a s notifies few =
    give_up_notification-AllSound c x a
on_notification_status-AllSound sys c x _ a s notifies few = delete_interaction-AllSound c x a

-- handleNotifyInteraction keeps all interactions sound.
pub handle_notify_interaction-AllSound :
    (sys : System) (c : Coap) (x : Interaction)
    → AllSound c
    → IsSound (handled c.resources) x
    → x.role ≡ role_notification
    → AllSoundAfter (handle_notify_interaction sys c x)
unfolding handle_notify_interaction
handle_notify_interaction-AllSound sys c x a s notifies = by_state x.state refl
  where
    by_state :
        (st : InteractionState) → x.state ≡ st → AllSoundAfter (handle_notify_interaction sys c x)
    by_state ready_to_notify e =
        rw (e, handle_notify_interaction)
          (send_resp-AllSound sys c x notification_sent a s (ground arith) (ground arith))
    by_state notification_sent e = elim (Option-cases (check_resp_status c.world.now x)) [
      | inl missing ↦ rw (e, missing, handle_notify_interaction) tt
      | inr ((status, x'), is) ↦
          let (s', same) =
            check_resp_status-IsSound (handled c.resources) c.world.now x x' status is s in
          rw (e, is, handle_notify_interaction)
            (on_notification_status-AllSound sys c x' status a s' (same ∙ notifies) (λ again.
              check_resp_status-retry c.world.now x x' (is ∙ ap (λ t. some (t, x')) again)))
    ]
    by_state _ e = rw (e, handle_notify_interaction) a
