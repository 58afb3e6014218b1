-- ===== src/Observer.antt =====
-- The observers of a resource and their list: CoAP_Observer_t of src/liblobaro_coap.h, its list
-- operations in src/option-types/coap_option_observe.c, and CoAP_RemoveObserverFromResource of
-- src/coap_resource.c.
pub mod Places
use lobaro_coap.Common.{
  ℕ, Bool, true, false, ◌&&◌, List, [], ◌∷◌, Option, none, some, if◌then◌else◌, ◌==◌,
}
use lobaro_coap.Platform.{CoapResult, removed, err_not_found, Mem, free}
use lobaro_coap.Endpoint.{Endpoint, ep_are_equal}
use lobaro_coap.OptionList.{CoapOption, free_option_list}
use lobaro_coap.Message.{Token, token_equal}

-- CoAP_Observer_t, with `address` for the place of the node. `FailCount`, which only the save format
-- uses, is left out.
pub record Observer : Type 0 where
  pub address : ℕ
  pub ep : Endpoint
  pub socket_handle : ℕ
  pub token : Token
  pub opt_list : List CoapOption

-- CoAP_FreeObserver.
unfoldable pub free_observer : Observer → Mem → Mem
free_observer o m = free (free_option_list o.opt_list m).1

-- CoAP_AppendObserverToList of a node; the loop goes to the last one.
unfoldable pub append_observer_to_list : List Observer → Observer → List Observer
append_observer_to_list [] x = x ∷ []
append_observer_to_list (y ∷ ys) x = y ∷ append_observer_to_list ys x

-- CoAP_UnlinkObserverFromList, which frees the node where it is told to, as its callers do.
unfoldable pub unlink_observer_from_list : List Observer → ℕ → Mem → List Observer × Mem
unlink_observer_from_list [] address m = ([], m)
unlink_observer_from_list (x ∷ xs) address m =
    let (rest, m') = unlink_observer_from_list xs address m in
    if x.address == address then (xs, free_observer x m) else (x ∷ rest, m')

-- What CoAP_RemoveObserverFromResource looks for.
unfoldable pub find_observer : List Observer → ℕ → Endpoint → Token → Option Observer
find_observer [] socket ep token = none
find_observer (x ∷ xs) socket ep token =
    let rest = find_observer xs socket ep token in
    if token_equal token x.token && ((socket == x.socket_handle) && ep_are_equal ep x.ep)
    then some x
    else rest

-- CoAP_RemoveObserverFromResource.
unfoldable pub remove_observer_from_resource :
    List Observer → ℕ → Endpoint → Token → Mem → CoapResult × List Observer × Mem
remove_observer_from_resource xs socket ep token m = elim (find_observer xs socket ep token) [
  | none ↦ (err_not_found, xs, m)
  | some x ↦ let (xs', m') = unlink_observer_from_list xs x.address m in (removed, xs', m')
]

-- An observer at a socket and an endpoint, whatever its token.
abbrev pub is_at : ℕ → Endpoint → Observer → Bool
is_at socket ep x = (socket == x.socket_handle) && ep_are_equal ep x.ep

-- The loop of CoAP_HandleObservationInReq that deletes an existing observer.
unfoldable pub find_same_observer : List Observer → ℕ → Endpoint → Option Observer
find_same_observer [] socket ep = none
find_same_observer (x ∷ xs) socket ep =
    let rest = find_same_observer xs socket ep in if is_at socket ep x then some x else rest

unfoldable pub delete_same_observer : List Observer → ℕ → Endpoint → Mem → List Observer × Mem
delete_same_observer xs socket ep m = elim (find_same_observer xs socket ep) [
  | none ↦ (xs, m)
  | some x ↦ unlink_observer_from_list xs x.address m
]

-- The node at a place, which a pointer is followed to.
unfoldable pub observer_at : List Observer → ℕ → Option Observer
observer_at [] address = none
observer_at (x ∷ xs) address =
    let rest = observer_at xs address in if x.address == address then some x else rest
