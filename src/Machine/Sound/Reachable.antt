-- ===== src/Machine/Sound/Reachable.antt =====
-- Every state that the stack reaches from its start is sound.
use lobaro_coap.Common.{ℕ, ◌≡◌, List, [], some, Option}
use mathlib.Core.Path.{subst}
use lobaro_coap.OptionWire.{Memory}
use lobaro_coap.Endpoint.{Endpoint}
use lobaro_coap.Resource.{Resource}
use lobaro_coap.Send.{System, World}
use lobaro_coap.Machine.{Coap}
use lobaro_coap.Machine.Start.{start_new_request, notify_resource_observers}
use lobaro_coap.Machine.Incoming.{Origin, handle_incoming_packet}
use lobaro_coap.Machine.Work.{do_work, clear_pending_interactions}
use lobaro_coap.Machine.Sound.{AllSound, AllSoundAfter}
use lobaro_coap.Machine.Sound.Start.{start_new_request-AllSound}
use lobaro_coap.Machine.Sound.Publish.{notify_resource_observers-AllSound}
use lobaro_coap.Machine.Sound.Packet.{handle_incoming_packet-AllSound}
use lobaro_coap.Machine.Sound.Work.{do_work-AllSound}

-- The steps of the stack: the calls of the application and of the network, and what happens between
-- them to the clock, the allocator and the sockets.
pub data Step (sys : System) : Coap → Coap → Type 0 where
  works : {c c' : Coap} → do_work sys c ≡ some c' → Step sys c c'
  receives :
      {c c' : Coap} (src : Memory) (size : ℕ) (from : Origin)
      → handle_incoming_packet sys c src size from ≡ some c'
      → Step sys c c'
  requests :
      (c : Coap) (code : ℕ) (uri payload : List ℕ) (socket : ℕ) (ep : Endpoint) (cb : Option ℕ)
      → Step sys c (start_new_request sys c code uri payload socket ep cb).1
  publishes :
      {c c' : Coap} (res : ℕ) → notify_resource_observers sys c res ≡ some c' → Step sys c c'
  clears : (c : Coap) → Step sys c (clear_pending_interactions c)
  elapses : (c : Coap) (w : World) → Step sys c (record c { world = w })

-- The states that are reached with the resources that were created.
pub data Reachable (sys : System) (rs : List Resource) : Coap → Type 0 where
  start :
      (w : World)
      → Reachable sys rs (record { interactions = []; resources = rs; world = w; callbacks = [] })
  next : {c c' : Coap} → Reachable sys rs c → Step sys c c' → Reachable sys rs c'

Step-AllSound : (sys : System) {c c' : Coap} → Step sys c c' → AllSound c → AllSound c'
Step-AllSound sys {c} (works e) a = subst AllSoundAfter e (do_work-AllSound sys c a)
Step-AllSound sys {c} (receives src size from e) a =
    subst AllSoundAfter e (handle_incoming_packet-AllSound sys c src size from a)
Step-AllSound sys (requests c code uri payload socket ep cb) a =
    start_new_request-AllSound sys c code uri payload socket ep cb a
Step-AllSound sys {c} (publishes res e) a =
    subst AllSoundAfter e (notify_resource_observers-AllSound sys c res a)
Step-AllSound sys (clears c) a = unfold clear_pending_interactions in tt
Step-AllSound sys (elapses c w) a = a

-- In every reachable state all interactions are sound: the state belongs to the role, requests and
-- responses are there where the role needs them, the resource exists and, for a server, has a
-- handler, no message is sent again more than three times, and no client's interaction ever learns
-- that its request was acknowledged.
pub Reachable-AllSound :
    (sys : System) (rs : List Resource) {c : Coap} → Reachable sys rs c → AllSound c
Reachable-AllSound sys rs (start w) = tt
Reachable-AllSound sys rs (next reached step) =
    Step-AllSound sys step (Reachable-AllSound sys rs reached)
