-- ===== src/Machine/Sound/Observation.antt =====
-- The treatment of observations in a request keeps all interactions sound.
use lobaro_coap.Machine.Sound.{handled}
use lobaro_coap.Common.{
  ℕ, ◌≡◌, ◌∙◌, refl, [], Option, none, some, if◌then◌else◌, inl, inr, Bool-cases, Option-cases,
  ◌==◌,
}
use lobaro_coap.Platform.{CoapResult, bad_option_val}
use lobaro_coap.OptionWire.{is_ok}
use lobaro_coap.Observe.{get_observe_option_from_msg}
use lobaro_coap.Message.{Message}
use lobaro_coap.Resource.{Resource}
use lobaro_coap.Send.{System}
use lobaro_coap.Interaction.{Interaction, unlink_interaction_from_list}
use lobaro_coap.Machine.{Coap, alloc_node, delete_interaction, resource_of}
use lobaro_coap.Machine.Observation.{
  copy_observer_options, register_observer, find_pending, deregister_observer,
  remove_interactions_observer, handle_observation_in_req,
}
use lobaro_coap.Machine.Sound.{AllSound, delete_interaction-AllSound}
use lobaro_coap.Machine.Sound.Notify.{
  Keeps, Keeps-AllSound, set_resource_of-Keeps, remove_interactions_observer-Keeps,
}

-- The interactions are sound after a step, and there are as many resources as before.
abbrev pub Carried : Coap → Coap → Type 0
Carried c c' = AllSound c' × (handled c'.resources ≡ handled c.resources)

-- The same for a step that may not return.
abbrev pub CarriedAfter : Coap → Option (CoapResult × Coap) → Type 0
CarriedAfter c none = Unit {0}
CarriedAfter c (some (r, c')) = Carried c c'

Keeps-Carried : (c c' : Coap) → Keeps c c' → AllSound c → Carried c c'
Keeps-Carried c c' k a = (Keeps-AllSound c c' k a, k.resources_same)

delete_interaction-Carried :
    (c : Coap) (x : Interaction) → AllSound c → Carried c (delete_interaction c x)
unfolding delete_interaction
delete_interaction-Carried c x a = (delete_interaction-AllSound c x a, same)
  where
    same : handled (delete_interaction c x).resources ≡ handled c.resources
    same = elim (Option-cases (unlink_interaction_from_list c.interactions x.address).1) [
      | inl missing ↦ rw (missing, delete_interaction) refl
      | inr (y, found) ↦ rw (found, delete_interaction) refl
    ]

register_observer-Carried :
    (sys : System) (c : Coap) (x : Interaction) (req : Message) (r : Resource)
    → AllSound c
    → resource_of c x ≡ some r
    → Carried c (register_observer sys c x req r).1
unfolding register_observer
register_observer-Carried sys c x req r a there =
    elim (Option-cases (alloc_node sys.platform sys.sizeof_observer c.world.mem).0) [
      | inl refused ↦ rw (refused, register_observer) (a, refl)
      | inr (address, granted) ↦
          let m = (alloc_node sys.platform sys.sizeof_observer c.world.mem).1 in
          elim (Bool-cases (is_ok (copy_observer_options sys.platform req.options [] m).0)) [
            | inl copied ↦
                rw (granted, copied, register_observer)
                  (Keeps-Carried c _ (set_resource_of-Keeps c x r _ c.world.mem there refl) a)
            | inr failed ↦ rw (granted, failed, register_observer) (a, refl)
          ]
    ]

deregister_observer-Carried :
    (c : Coap) (x : Interaction) (req : Message)
    → AllSound c
    → CarriedAfter c (deregister_observer c x req)
unfolding deregister_observer
deregister_observer-Carried c x req a =
    elim (Option-cases (remove_interactions_observer c x req.token)) [
      | inl lost ↦ rw (lost, deregister_observer) tt
      | inr (c', made) ↦
          let (a', same) =
            Keeps-Carried c c' (remove_interactions_observer-Keeps c c' x req.token made) a in
          elim (Option-cases (find_pending c'.interactions req.token x.socket_handle x.remote_ep)) [
            | inl broken ↦ rw (made, broken, deregister_observer) tt
            | inr (found, is) ↦ elim (Option-cases found) [
              | inl nobody ↦ rw (made, is, nobody, deregister_observer) (a', same)
              | inr (y, pending) ↦
                  let (a'', same') = delete_interaction-Carried c' y a' in
                  rw (made, is, pending, deregister_observer) (a'', same' ∙ same)
            ]
          ]
    ]

-- CoAP_HandleObservationInReq keeps all interactions sound.
pub handle_observation_in_req-Carried :
    (sys : System) (c : Coap) (x : Interaction)
    → AllSound c
    → CarriedAfter c (handle_observation_in_req sys c x)
unfolding handle_observation_in_req
handle_observation_in_req-Carried sys c x a = elim (Option-cases x.req_msg) [
  | inl missing ↦ rw (missing, handle_observation_in_req) (a, refl)
  | inr (req, there) ↦ elim (Option-cases (resource_of c x)) [
    | inl nowhere ↦ rw (there, nowhere, handle_observation_in_req) tt
    | inr (r, found) ↦ elim (Option-cases r.notifier) [
      | inl silent ↦ rw (there, found, silent, handle_observation_in_req) (a, refl)
      | inr (notifier, speaks) ↦
          rw (there, found, speaks, handle_observation_in_req)
            (branches req r found (get_observe_option_from_msg req.options))
    ]
  ]
]
  where
    branches :
        (req : Message) (r : Resource)
        → resource_of c x ≡ some r
        → (o : CoapResult × ℕ)
        → CarriedAfter c (
            if is_ok o.0
            then (if o.1 == 0
                then some (register_observer sys c x req r)
                else (if o.1 == 1 then deregister_observer c x req else some (bad_option_val, c)))
            else some (o.0, c))
    branches req r found o = elim (Bool-cases (is_ok o.0)) [
      | inr bad ↦ rw bad (a, refl)
      | inl good ↦ elim (Bool-cases (o.1 == 0)) [
        | inl registers ↦ rw (good, registers) (register_observer-Carried sys c x req r a found)
        | inr other ↦ elim (Bool-cases (o.1 == 1)) [
          | inl leaves ↦ rw (good, other, leaves) (deregister_observer-Carried c x req a)
          | inr unknown ↦ rw (good, other, unknown) (a, refl)
        ]
      ]
    ]
