-- ===== src/Machine/Acknowledged.antt =====
-- What an acknowledgement or a reset from the server does to a client's request.
use lobaro_coap.Common.{ℕ, Bool, if◌then◌else◌, List, ◌∷◌}
use lobaro_coap.Endpoint.{Endpoint}
use lobaro_coap.Message.{Message}
use lobaro_coap.Interaction.{Interaction, ack_send, rst_send}
use lobaro_coap.Machine.{Coap}
use lobaro_coap.Machine.Incoming.{end_message}

-- The interaction that was woken up and that holds the confirmation of the server.
abbrev pub confirmed : Bool → Interaction → Interaction
confirmed by_reset x = record x {
  sleep_until = 0;
  res_confirm_state = if by_reset then rst_send else ack_send;
}

-- The stack at a later time.
abbrev pub at_time : ℕ → Coap → Coap
at_time now c = record c { world = record c.world { now = now } }

-- After an empty acknowledgement, or a reset, of the request of the first interaction.
abbrev pub after_confirmation : Bool → Coap → Interaction → List Interaction → Message → Coap
after_confirmation by_reset c x xs msg =
    end_message (record c { interactions = confirmed by_reset x ∷ xs }) msg
