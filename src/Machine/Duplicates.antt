-- ===== src/Machine/Duplicates.antt =====
-- What CoAP_HandleIncomingPacket does with a request whose resource was found: duplicates are
-- answered by no new interaction.
use lobaro_coap.Common.{
  ℕ, ◌≡◌, Bool, List, [], ◌∷◌, ◌++◌, none, some, if◌then◌else◌, arith, All, inl, inr, Option-cases,
}
use lobaro_coap.Platform.{CoapResult}
use lobaro_coap.Message.{Message}
use lobaro_coap.Resource.{Resource}
use lobaro_coap.Send.{System, send_empty_ack}
use lobaro_coap.Interaction.{Interaction, role_server, handle_request, new_interaction, repeats_ack}
use lobaro_coap.Interaction.Duplicates.{HasRequest}
use lobaro_coap.Machine.{Coap, alloc_node}
use lobaro_coap.Machine.Start.{server_started}
use lobaro_coap.Machine.Incoming.{Origin, end_message, request_taken}
use lobaro_coap.Machine.Sound.{IsSound}
use lobaro_coap.Machine.Sound.Reachable.{Reachable}

pub IsSound-HasRequest :
    (n : List Bool) (xs : List Interaction) → All (IsSound n) xs → All HasRequest xs
IsSound-HasRequest n [] a = tt
IsSound-HasRequest n (x ∷ xs) (s, a) = (
  (λ server. elim (Option-cases x.req_msg) [
    | inl missing ↦ ground (arith, s, server, missing)
    | inr found ↦ found
  ]),
  IsSound-HasRequest n xs a,
)

-- The interaction that a request starts.
abbrev pub serving : Coap → Message → Origin → ℕ → Interaction
serving c msg from res =
    new_interaction c.world.mem.mallocs role_server handle_request (some res) from.ep from.socket
      msg from.meta none

-- The state after a request whose twin is served: an empty acknowledgement may be repeated, and the
-- message is freed.
abbrev pub answered_again : System → Coap → Message → Origin → Interaction → Coap
answered_again sys c msg from x =
    end_message
      (if repeats_ack x
        then record c { world = (send_empty_ack sys msg.message_id from.socket from.ep c.world).1 }
        else c)
      msg

-- The interactions of a state, with the resources and callbacks of another one.
abbrev HasInteractions : Coap → List Interaction → Coap → Type 0
HasInteractions c xs c' =
    ((c'.resources ≡ c.resources) × (c'.callbacks ≡ c.callbacks)) × (c'.interactions ≡ xs)

module _ (sys : System) (c : Coap) (msg : Message) (from : Origin) (res : ℕ) where
  -- The state that the result of CoAP_StartNewServerInteraction leads to.
  abbrev taken_as : CoapResult → List Interaction → Bool → Coap
  taken_as r xs again =
      let m = (alloc_node sys.platform sys.sizeof_interaction c.world.mem).1 in
      let (r', c') = server_started sys c msg from.socket from.ep m r xs again in
      request_taken sys c' msg from r'

  -- The list after a request that no interaction serves.
  abbrev pub extended : List Interaction
  extended =
      if sys.platform.grants c.world.mem.mallocs sys.sizeof_interaction
      then c.interactions ++ (serving c msg from res ∷ [])
      else c.interactions
