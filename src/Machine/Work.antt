-- ===== src/Machine/Work.antt =====
-- CoAP_doWork of src/coap_main.c: one step for the interaction at the head of the list.
use lobaro_coap.Common.{[], ◌∷◌, List, Option, some, if◌then◌else◌}
use lobaro_coap.Platform.{Mem}
use lobaro_coap.Time.{time_after}
use lobaro_coap.Send.{System}
use lobaro_coap.Interaction.{Interaction, role_server, role_client, role_notification, role_not_set}
use lobaro_coap.Machine.{Coap, enqueue_last_interaction, free_interaction}
use lobaro_coap.Machine.Client.{handle_client_interaction}
use lobaro_coap.Machine.Notify.{handle_notify_interaction}
use lobaro_coap.Machine.Server.{handle_server_interaction}

-- The switch on the role.
unfoldable pub handle_interaction : System → Coap → Interaction → Option Coap
handle_interaction sys c x = elim x.role [
  | role_server ↦ handle_server_interaction sys c x
  | role_notification ↦ handle_notify_interaction sys c x
  | role_client ↦ handle_client_interaction sys c x
  | role_not_set ↦ some c
]

-- CoAP_doWork.
unfoldable pub do_work : System → Coap → Option Coap
do_work sys c = elim c.interactions [
  | [] ↦ some c
  | x ∷ xs ↦
      if time_after x.sleep_until c.world.now
      then some (enqueue_last_interaction c x)
      else handle_interaction sys c x
]

-- CoAP_ClearInteractions.
unfoldable pub free_interactions : List Interaction → Mem → Mem
free_interactions [] m = m
free_interactions (x ∷ xs) m = free_interactions xs (free_interaction x m)

-- CoAP_ClearPendingInteractions.
unfoldable pub clear_pending_interactions : Coap → Coap
clear_pending_interactions c = record c {
  interactions = [];
  world = record c.world { mem = free_interactions c.interactions c.world.mem };
}
