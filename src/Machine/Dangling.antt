-- ===== src/Machine/Dangling.antt =====
-- The observer that a notification points at, after its client registered anew.
use lobaro_coap.Common.{
  ℕ, zero, suc, Bool-cases, ◌≡◌, ◌≢◌, refl, sym, true, List, [], ◌∷◌, none, some, arith, inl, inr,
}
use mathlib.Core.Path.{subst}
use lobaro_coap.Platform.{ok, err_out_of_memory, Mem, malloc}
use lobaro_coap.OptionWire.{is_ok}
use lobaro_coap.Endpoint.{Endpoint}
use lobaro_coap.Message.{Message}
use lobaro_coap.Observer.{
  Observer, append_observer_to_list, delete_same_observer, find_same_observer,
  unlink_observer_from_list, observer_at, is_at,
}
use lobaro_coap.Resource.{Resource, Notifier, resource_at, set_resource}
use lobaro_coap.Send.{System}
use lobaro_coap.Interaction.{Interaction}
use lobaro_coap.Machine.{Coap, alloc_node, with_mem, resource_of, set_resource_of}
use lobaro_coap.Machine.Observation.{register_observer, copy_observer_options}
use lobaro_coap.Machine.Notify.{refresh_notification}

-- After the registration of a new observer at the place of the only one, that one is no more.
replaced :
    (o new : Observer) (socket : ℕ) (ep : Endpoint) (m : Mem)
    → is_at socket ep o ≡ true
    → new.address ≢ o.address
    → observer_at
        (append_observer_to_list (delete_same_observer (o ∷ []) socket ep m).0 new)
        o.address
      ≡ none
unfolding delete_same_observer find_same_observer unlink_observer_from_list append_observer_to_list
    observer_at
replaced o new socket ep m here apart = ground (arith, here, apart)

resource_at-set_resource :
    (rs : List Resource) (i : ℕ) (r r' : Resource)
    → resource_at rs i ≡ some r
    → resource_at (set_resource rs i r') i ≡ some r'
unfolding resource_at set_resource
resource_at-set_resource [] i r r' e = absurd (cc e)
resource_at-set_resource (x ∷ xs) zero r r' e = refl
resource_at-set_resource (x ∷ xs) (suc i) r r' e = resource_at-set_resource xs i r r' e

-- The state after a registration that succeeded.
registered :
    (sys : System) (c : Coap) (x : Interaction) (req : Message) (r : Resource) (o : Observer)
    → r.observers ≡ o ∷ []
    → is_at x.socket_handle x.remote_ep o ≡ true
    → c.world.mem.mallocs ≢ o.address
    → (register_observer sys c x req r).0 ≡ ok
    → (observers : List Observer) × (m : Mem) × ((register_observer sys c x req r).1
        ≡ with_mem (set_resource_of c x (record r { observers = observers })) m)
      × (observer_at observers o.address ≡ none)
unfolding register_observer alloc_node
registered sys c x req r o alone here fresh good =
    let m0 = (malloc sys.platform sys.sizeof_observer c.world.mem).1 in
    let (copied, opts, m) = copy_observer_options sys.platform req.options [] m0 in
    let new : Observer = record {
      address = c.world.mem.mallocs;
      ep = x.remote_ep;
      socket_handle = x.socket_handle;
      token = req.token;
      opt_list = opts;
    } in
    let (others, m') = delete_same_observer r.observers x.socket_handle x.remote_ep m in
    elim (Bool-cases (malloc sys.platform sys.sizeof_observer c.world.mem).0) [
      | inr refused ↦ absurd (
          let clash : err_out_of_memory ≡ ok =
            rw (refused, register_observer, alloc_node) at good in
          cc clash)
      | inl granted ↦ elim (Bool-cases (is_ok copied)) [
        | inr failed ↦ absurd (
            let clash : err_out_of_memory ≡ ok =
              rw (granted, failed, register_observer, alloc_node) at good in
            cc clash)
        | inl done ↦ (
          append_observer_to_list others new,
          m',
          rw (granted, done, register_observer, alloc_node) refl,
          rw alone (replaced o new x.socket_handle x.remote_ep m here fresh),
        )
      ]
    ]

-- Where a client registers for a resource whose only observer is at its socket and endpoint, and
-- the registration succeeds, the old observer is freed while a notification may point at it: when
-- that notification has to be refreshed afterwards, the notifier is called with a pointer that leads
-- to no observer.
pub refresh_notification-register_observer :
    (sys : System) (c : Coap) (x y : Interaction) (req msg : Message) (r : Resource) (o : Observer)
    (i : ℕ) (notifier : Notifier)
    → x.res ≡ some i
    → y.res ≡ some i
    → y.observer ≡ some o.address
    → resource_at c.resources i ≡ some r
    → r.notifier ≡ some notifier
    → r.observers ≡ o ∷ []
    → is_at x.socket_handle x.remote_ep o ≡ true
    → c.world.mem.mallocs ≢ o.address
    → (register_observer sys c x req r).0 ≡ ok
    → refresh_notification sys (register_observer sys c x req r).1 y msg ≡ none
unfolding refresh_notification resource_of set_resource_of
refresh_notification-register_observer sys c x y req msg r o i notifier at_x at_y points at_i speaks
      alone here fresh good =
    let (observers, m, left, freed) = registered sys c x req r o alone here fresh good in
    let r' : Resource = record r { observers = observers } in
    let found : resource_of (with_mem (set_resource_of c x r') m) y ≡ some r' =
      rw (at_y, at_x, resource_of, set_resource_of)
        (resource_at-set_resource c.resources i r r' at_i) in
    let lost : refresh_notification sys (with_mem (set_resource_of c x r') m) y msg ≡ none =
      rw (found, speaks, points, freed, refresh_notification) refl in
    subst (λ d. refresh_notification sys d y msg ≡ none) (sym left) lost
