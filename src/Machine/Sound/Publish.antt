-- ===== src/Machine/Sound/Publish.antt =====
-- CoAP_NotifyResourceObservers keeps all interactions sound.
use lobaro_coap.Machine.Sound.{handled}
use lobaro_coap.Common.{
  ℕ, ◌+◌, ◌≡◌, ◌∙◌, refl, true, List, [], ◌∷◌, Option, none, some, length, inl, inr, arith, ltb,
  leb, All, Bool-cases, Option-cases,
}
use mathlib.Core.Path.{subst}
use mathlib.Core.Option.{some-injective}
use lobaro_coap.Platform.{CoapResult, ok}
use lobaro_coap.Message.{con, Message}
use lobaro_coap.Message.Create.{create_message}
use lobaro_coap.Observer.{Observer}
use lobaro_coap.Resource.{HandlerResult, handler_ok, Resource, Notifier, resource_at, set_resource}
use lobaro_coap.Send.{System, get_next_mid}
use lobaro_coap.Interaction.{Interaction}
use lobaro_coap.Interaction.Lists.{All-append_interaction_to_list}
use lobaro_coap.Machine.{Coap, alloc_node, with_mem}
use lobaro_coap.Machine.Server.{code_of, prefered_payload_size}
use lobaro_coap.Machine.Start.{
  is_ongoing, find_ongoing, compares_endpoint, add_notification, notify, notify_observer,
  notify_loop, start_notify_interactions, notify_resource_observers,
}
use lobaro_coap.Time.{u32}
use lobaro_coap.Machine.Sound.Observation.{Carried, CarriedAfter}
use lobaro_coap.Machine.Sound.Resources.{resource_at-length}
use lobaro_coap.Machine.Sound.{AllSound, AllSoundAfter, All-store, handled-set_resource}

-- What a step that may not return leaves behind.
CarriedState : Coap → Option Coap → Type 0
CarriedState c none = Unit {0}
CarriedState c (some c') = Carried c c'

-- An interaction that is found is in the list.
found_ongoing {κ} :
    (P : Interaction → Type κ) (xs : List Interaction) (res : ℕ) (o : Observer) (y : Interaction)
    → find_ongoing xs res o ≡ some y
    → All P xs
    → P y
unfolding find_ongoing
found_ongoing P [] res o y e a = absurd (cc e)
found_ongoing P (x ∷ xs) res o y e a = elim (Bool-cases (is_ongoing x res o)) [
  | inl here ↦
      let same : some x ≡ some y = rw (here, find_ongoing) at e in
      subst P (some-injective x y same) a.0
  | inr there ↦ found_ongoing P xs res o y (rw (there, find_ongoing) at e) a.1
]

add_notification-Carried :
    (sys : System) (c : Coap) (address res : ℕ) (r : Resource) (o : Observer) (msg : Message)
    → AllSound c
    → ltb res (length (handled c.resources)) ≡ true
    → CarriedState c (add_notification sys c address res r o msg)
unfolding add_notification CarriedState
add_notification-Carried sys c address res r o msg a there =
    elim (Bool-cases (leb (code_of 4 0) msg.code)) [
      | inl failed ↦ elim (Bool-cases (compares_endpoint r.observers o.socket_handle msg)) [
        | inl crash ↦ rw (failed, crash, add_notification) tt
        | inr lost ↦ rw (failed, lost, add_notification) (a, refl)
      ]
      | inr good ↦
          rw (good, add_notification)
            (All-append_interaction_to_list _ c.interactions _ a (ground (arith, there)), refl)
    ]

notify-Carried :
    (sys : System) (c : Coap) (address res : ℕ) (r : Resource) (o : Observer) (msg : Option Message)
    (notifier : Option Notifier)
    → AllSound c
    → ltb res (length (handled c.resources)) ≡ true
    → CarriedState c (notify sys c address res r o msg notifier)
unfolding notify CarriedState
notify-Carried sys c address res r o none notifier a there = (a, refl)
notify-Carried sys c address res r o (some msg) none a there = (a, refl)
notify-Carried sys c address res r o (some msg) (some notifier) a there =
    by_result (notifier o msg c.world.mem).0 refl
  where
    by_result :
        (h : HandlerResult)
        → (notifier o msg c.world.mem).0 ≡ h
        → CarriedState c (notify sys c address res r o (some msg) (some notifier))
    by_result handler_ok e =
        rw (e, notify) (add_notification-Carried sys _ address res r o _ a there)
    by_result _ e = rw (e, notify) (a, refl)

notify_observer-Carried :
    (sys : System) (c : Coap) (res : ℕ) (r : Resource) (o : Observer)
    → AllSound c
    → ltb res (length (handled c.resources)) ≡ true
    → CarriedAfter c (notify_observer sys c res r o)
unfolding notify_observer CarriedState
notify_observer-Carried sys c res r o a there =
    let (block, m) = alloc_node sys.platform sys.sizeof_interaction c.world.mem in
    let (id, w) = get_next_mid c.world in
    let (created, m') =
      create_message sys.platform con (code_of 2 5) id [] prefered_payload_size o.token m in
    let c' : Coap = with_mem (record c { world = w }) m' in
    elim (Option-cases (find_ongoing c.interactions res o)) [
      | inr (x, found) ↦
          let s = found_ongoing _ c.interactions res o x found a in
          rw (found, notify_observer) (All-store _ c.interactions _ a (ground (arith, s)), refl)
      | inl fresh ↦ elim (Option-cases block) [
        | inl refused ↦ rw (fresh, refused, notify_observer) (a, refl)
        | inr (address, granted) ↦
            elim (Option-cases (notify sys c' address res r o created r.notifier)) [
              | inl lost ↦ rw (fresh, granted, lost, notify_observer) tt
              | inr (c'', is) ↦
                  let kept : Carried c' c'' =
                    subst (CarriedState c') is
                      (notify-Carried sys c' address res r o created r.notifier a there) in
                  rw (fresh, granted, is, notify_observer) kept
            ]
      ]
    ]

-- A round and the rest of the loop, by the round's result.
notify_round :
    (sys : System) (c c' : Coap) (res : ℕ) (r : Resource) (o : Observer) (os : List Observer)
    (result : CoapResult)
    → notify_observer sys c res r o ≡ some (result, c')
    → Carried c c'
    → CarriedAfter c' (notify_loop sys c' res r os)
    → CarriedAfter c (notify_loop sys c res r (o ∷ os))
unfolding notify_loop
notify_round sys c c' res r o os ok is kept later =
    elim (Option-cases (notify_loop sys c' res r os)) [
      | inl lost ↦ rw (is, lost, notify_loop) tt
      | inr ((last, c''), rest) ↦
          let (a'', same') : Carried c' c'' = subst (CarriedAfter c') rest later in
          rw (is, rest, notify_loop) (a'', same' ∙ kept.1)
    ]
notify_round sys c c' res r o os _ is kept later = rw (is, notify_loop) kept

notify_loop-Carried :
    (os : List Observer) (sys : System) (c : Coap) (res : ℕ) (r : Resource)
    → AllSound c
    → ltb res (length (handled c.resources)) ≡ true
    → CarriedAfter c (notify_loop sys c res r os)
unfolding notify_loop
notify_loop-Carried [] sys c res r a there = (a, refl)
notify_loop-Carried (o ∷ os) sys c res r a there =
    elim (Option-cases (notify_observer sys c res r o)) [
      | inl lost ↦ rw (lost, notify_loop) tt
      | inr ((result, c'), is) ↦
          let kept : Carried c c' =
            subst (CarriedAfter c) is (notify_observer-Carried sys c res r o a there) in
          notify_round sys c c' res r o os result is kept
            (notify_loop-Carried os sys c' res r kept.0 (rw kept.1 there))
    ]

start_notify_interactions-Carried :
    (sys : System) (c : Coap) (res : ℕ)
    → AllSound c
    → CarriedAfter c (start_notify_interactions sys c res)
unfolding start_notify_interactions
start_notify_interactions-Carried sys c res a = elim (Option-cases (resource_at c.resources res)) [
  | inl nowhere ↦ rw (nowhere, start_notify_interactions) tt
  | inr (r, there) ↦
      rw (there, start_notify_interactions)
        (notify_loop-Carried r.observers sys c res r a (resource_at-length c.resources res r there))
]

-- CoAP_NotifyResourceObservers keeps all interactions sound, where the notifier returns.
pub notify_resource_observers-AllSound :
    (sys : System) (c : Coap) (res : ℕ)
    → AllSound c
    → AllSoundAfter (notify_resource_observers sys c res)
unfolding notify_resource_observers
notify_resource_observers-AllSound sys c res a = elim (Option-cases (resource_at c.resources res)) [
  | inl nowhere ↦ rw (nowhere, notify_resource_observers) tt
  | inr (r, there) ↦
      let r' : Resource = record r { update_cnt = u32 (r.update_cnt + 1) } in
      let c' : Coap = record c { resources = set_resource c.resources res r' } in
      let a' : AllSound c' = rw (handled-set_resource c.resources res r r' there refl) a in
      elim (Option-cases (start_notify_interactions sys c' res)) [
        | inl lost ↦ rw (there, lost, notify_resource_observers) tt
        | inr ((result, c''), is) ↦
            let kept : Carried c' c'' =
              subst (CarriedAfter c') is (start_notify_interactions-Carried sys c' res a') in
            rw (there, is, notify_resource_observers) kept.0
      ]
]
