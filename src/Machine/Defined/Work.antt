-- ===== src/Machine/Defined/Work.antt =====
-- CoAP_doWork of src/coap_main.c follows no NULL pointer and no pointer to a freed node.
use lobaro_coap.Machine.Sound.{handled}
use lobaro_coap.Common.{
  ◌≡◌, refl, Bool, true, false, ℕ, zero, suc, none, ◌&&◌, not, List, [], ◌∷◌, some, arith, inl, inr,
  All, Option-cases,
}
use lobaro_coap.Platform.{Plentiful}
use lobaro_coap.Send.{System}
use lobaro_coap.Interaction.{
  Interaction, InteractionRole, role_server, role_client, role_notification, role_not_set,
}
use lobaro_coap.Machine.{Coap, resource_of}
use lobaro_coap.Machine.Observation.{is_notification}
use lobaro_coap.Machine.Work.{handle_interaction, do_work}
use lobaro_coap.Machine.Sound.{IsSound, AllSound, flag, is_some}
use lobaro_coap.Machine.Sound.Reachable.{Reachable, Reachable-AllSound}
use lobaro_coap.Resource.{Resource, resource_at}
use lobaro_coap.Machine.Defined.{Returns, handle_client_interaction-Returns}
use lobaro_coap.Machine.Defined.Notify.{handle_notify_interaction-Returns}
use lobaro_coap.Machine.Defined.Server.{is_handled, handle_server_interaction-Returns}

-- No update of a notification that is under way is left to be sent.
abbrev pub is_settled : Interaction → Bool
is_settled x = not (is_notification x.role && x.update_pending_notification)

flag-handler :
    (rs : List Resource) (i : ℕ)
    → flag (handled rs) i ≡ true
    → elim (resource_at rs i) [ none ↦ false | some r ↦ is_some r.handler ] ≡ true
unfolding resource_at
flag-handler [] i h = absurd (cc h)
flag-handler (r ∷ rs) zero h = h
flag-handler (r ∷ rs) (suc i) h = flag-handler rs i h

-- The resource of a server's interaction has a handler.
sound_is_handled :
    (c : Coap) (x : Interaction)
    → IsSound (handled c.resources) x
    → x.role ≡ role_server
    → is_handled c x ≡ true
unfolding resource_of
sound_is_handled c x s server = elim (Option-cases x.res) [
  | inl nowhere ↦ ground (arith, s, server, nowhere)
  | inr (i, there) ↦
      let set : flag (handled c.resources) i ≡ true = ground (arith, s, server, there) in
      rw (there, resource_of) (flag-handler c.resources i set)
]

handle_interaction-Returns :
    (sys : System) (c : Coap) (x : Interaction)
    → AllSound c
    → IsSound (handled c.resources) x
    → Plentiful sys.platform
    → is_settled x ≡ true
    → Returns (handle_interaction sys c x)
unfolding handle_interaction
handle_interaction-Returns sys c x a s plenty settled = go x.role refl
  where
    go : (role : InteractionRole) → x.role ≡ role → Returns (handle_interaction sys c x)
    go role_server is_role =
        let answered =
          handle_server_interaction-Returns sys c x a s plenty is_role
            (sound_is_handled c x s is_role) in
        ground (arith, is_role, answered)
    go role_notification is_role =
        let notified =
          handle_notify_interaction-Returns sys c x s is_role
            (λ p. ground (arith, settled, is_role, p)) in
        ground (arith, is_role, notified)
    go role_client is_role =
        let asked = handle_client_interaction-Returns sys c x s is_role in
        ground (arith, is_role, asked)
    go role_not_set is_role = ground (arith, s, is_role)

do_work-Returns :
    (sys : System) (c : Coap) (xs : List Interaction)
    → c.interactions ≡ xs
    → AllSound c
    → All (IsSound (handled c.resources)) xs
    → Plentiful sys.platform
    → All (λ x. is_settled x ≡ true) xs
    → Returns (do_work sys c)
unfolding do_work
do_work-Returns sys c [] e a _ plenty _ = ground (arith, e)
do_work-Returns sys c (x ∷ xs) e a (s, _) plenty (settled, _) =
    let done = handle_interaction-Returns sys c x a s plenty settled in ground (arith, e, done)

-- In every reachable state, where the allocator refuses nothing and no notification that is under
-- way has an update that is left to be sent, CoAP_doWork returns: no handler follows a NULL pointer
-- to a message, a resource or a resource's handler, in any state of the three state machines.
pub do_work-Reachable :
    (sys : System) (rs : List Resource) {c : Coap}
    → Reachable sys rs c
    → Plentiful sys.platform
    → All (λ x. is_settled x ≡ true) c.interactions
    → (c' : Coap) × (do_work sys c ≡ some c')
do_work-Reachable sys rs {c} reached plenty settled =
    let a = Reachable-AllSound sys rs reached in
    let done = do_work-Returns sys c c.interactions refl a a plenty settled in
    elim (Option-cases (do_work sys c)) [
      | inl lost ↦ ground (arith, lost, done)
      | inr found ↦ found
    ]
