-- ===== src/Machine/Defined/Notify.antt =====
-- A notification follows no NULL pointer and no pointer to a freed observer.
use lobaro_coap.Machine.Sound.{handled}
use lobaro_coap.Common.{
  ℕ, ◌≡◌, refl, Bool, true, false, ◌&&◌, none, some, arith, inl, inr, Bool-cases, Option-cases,
}
use lobaro_coap.Platform.{CoapResult}
use lobaro_coap.Message.{Message}
use lobaro_coap.Observer.{observer_at}
use lobaro_coap.Resource.{HandlerResult}
use lobaro_coap.Send.{System}
use lobaro_coap.Interaction.{Interaction, role_notification, notification_sent}
use lobaro_coap.Machine.{Coap, resource_of, check_resp_status}
use lobaro_coap.Machine.Observation.{remove_interactions_observer}
use lobaro_coap.Machine.Notify.{
  after_notifier, refresh_notification, retry_notification, finish_notification,
  give_up_notification, on_notification_status, handle_notify_interaction,
}
use lobaro_coap.Machine.Sound.{IsSound, is_some}
use lobaro_coap.Machine.Defined.{
  Returns, resource_of-Returns, send_resp-Returns, retry_response-Returns,
  check_resp_status-Returns, check_resp_status-same,
}

give_up_notification-Returns :
    (c : Coap) (x : Interaction)
    → is_some x.resp_msg ≡ true
    → Returns (resource_of c x)
    → Returns (give_up_notification c x)
unfolding give_up_notification remove_interactions_observer
give_up_notification-Returns c x h there = ground (arith, h, there)

-- What a notification that is to be refreshed needs: a notifier, and an observer that is not freed.
abbrev pub can_refresh : Coap → Interaction → Bool
can_refresh c x = elim (resource_of c x) [
  | none ↦ false
  | some r ↦ elim x.observer [
    | none ↦ false
    | some address ↦ is_some r.notifier && is_some (observer_at r.observers address)
  ]
]

after_notifier-Returns :
    (sys : System) (c : Coap) (x : Interaction) (update_cnt : ℕ) (result : HandlerResult)
    (msg : Message)
    → Returns (resource_of c x)
    → Returns (after_notifier sys c x update_cnt result msg)
unfolding after_notifier remove_interactions_observer resource_of
after_notifier-Returns sys c x update_cnt result msg there = ground (arith, there)

refresh_notification-Returns :
    (sys : System) (c : Coap) (x : Interaction) (msg : Message)
    → can_refresh c x ≡ true
    → Returns (refresh_notification sys c x msg)
unfolding refresh_notification after_notifier remove_interactions_observer resource_of
refresh_notification-Returns sys c x msg h = ground (arith, h)

retry_notification-Returns :
    (sys : System) (c : Coap) (x : Interaction)
    → is_some x.resp_msg ≡ true
    → (x.update_pending_notification ≡ true → can_refresh c x ≡ true)
    → Returns (retry_notification sys c x)
unfolding retry_notification
retry_notification-Returns sys c x h fresh = elim (Bool-cases x.update_pending_notification) [
  | inr settled ↦ let again = retry_response-Returns sys c x h in ground (arith, settled, again)
  | inl pending ↦ elim (Option-cases x.resp_msg) [
    | inl missing ↦ ground (arith, h, missing)
    | inr (msg, there) ↦
        let refreshed = refresh_notification-Returns sys c x msg (fresh pending) in
        elim (Option-cases (refresh_notification sys c x msg)) [
          | inl lost ↦ ground (arith, refreshed, lost)
          | inr ((c', msg'), new) ↦
              rw (pending, there, new, retry_notification) (retry_response-Returns sys c' _ refl)
        ]
  ]
]

finish_notification-Returns :
    (sys : System) (c : Coap) (x : Interaction)
    → is_some x.resp_msg ≡ true
    → (x.update_pending_notification ≡ true → can_refresh c x ≡ true)
    → Returns (finish_notification sys c x)
unfolding finish_notification
finish_notification-Returns sys c x h fresh = elim (Bool-cases x.update_pending_notification) [
  | inr settled ↦ rw (settled, finish_notification) refl
  | inl pending ↦ elim (Option-cases x.resp_msg) [
    | inl missing ↦ ground (arith, h, missing)
    | inr (msg, there) ↦
        let refreshed = refresh_notification-Returns sys c x msg (fresh pending) in
        elim (Option-cases (refresh_notification sys c x msg)) [
          | inl lost ↦ ground (arith, refreshed, lost)
          | inr ((c', msg'), new) ↦ rw (pending, there, new, finish_notification) refl
        ]
  ]
]

on_notification_status-Returns :
    (sys : System) (c : Coap) (x : Interaction) (status : CoapResult)
    → is_some x.resp_msg ≡ true
    → Returns (resource_of c x)
    → (x.update_pending_notification ≡ true → can_refresh c x ≡ true)
    → Returns (on_notification_status sys c x status)
unfolding on_notification_status
on_notification_status-Returns sys c x status h there fresh =
    let again = retry_notification-Returns sys c x h fresh in
    let done = finish_notification-Returns sys c x h fresh in
    let up = give_up_notification-Returns c x h there in ground (arith, again, done, up)

on_notification_status-checked :
    (sys : System) (c : Coap) (x x' : Interaction) (status : CoapResult)
    → check_resp_status c.world.now x ≡ some (status, x')
    → is_some x.resp_msg ≡ true
    → Returns (resource_of c x)
    → (x.update_pending_notification ≡ true → can_refresh c x ≡ true)
    → Returns (on_notification_status sys c x' status)
unfolding resource_of
on_notification_status-checked sys c x x' status found h there fresh =
    let (resp, (res, (obs, upd))) = check_resp_status-same c.world.now x x' status found in
    let h' : is_some x'.resp_msg ≡ true = rw (resp) h in
    let there' : Returns (resource_of c x') = ground (arith, res, there) in
    on_notification_status-Returns sys c x' status h' there'
      (λ p. ground (arith, res, obs, fresh (rw (← upd) p)))

pub handle_notify_interaction-Returns :
    (sys : System) (c : Coap) (x : Interaction)
    → IsSound (handled c.resources) x
    → x.role ≡ role_notification
    → (x.update_pending_notification ≡ true → can_refresh c x ≡ true)
    → Returns (handle_notify_interaction sys c x)
unfolding handle_notify_interaction
handle_notify_interaction-Returns sys c x s notification fresh =
    let h : is_some x.resp_msg ≡ true = ground (arith, s, notification) in
    let there : Returns (resource_of c x) =
      resource_of-Returns c x s (ground (arith, notification)) in
    let sent = send_resp-Returns sys c x notification_sent h in
    let checked = check_resp_status-Returns c.world.now x h in
    elim (Option-cases (check_resp_status c.world.now x)) [
      | inl lost ↦ ground (arith, lost, checked)
      | inr ((status, x'), found) ↦
          let go = on_notification_status-checked sys c x x' status found h there fresh in
          ground (arith, sent, found, go)
    ]
