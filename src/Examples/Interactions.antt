-- ===== src/Examples/Interactions.antt =====
-- Lists of interactions.
use lobaro_coap.Common.{◌≡◌, arith, [], ◌∷◌, none, some}
use lobaro_coap.Message.{con, Message, no_token}
use lobaro_coap.Endpoint.{ipv4, Endpoint}
use lobaro_coap.Interaction.{
  meta_info_none, Interaction, role_client, role_server, ready_to_request, handle_request,
  new_interaction, move_interaction_to_list_end,
}
use lobaro_coap.Interaction.Lists.{move_interaction_to_list_end-there}

abbrev pub remote : Endpoint
remote = record { net_type = ipv4; net_addr = 10 ∷ 0 ∷ 0 ∷ 1 ∷ []; net_port = 5683 }

-- A confirmable GET.
abbrev pub get_request : Message
get_request = record {
  timestamp = 0;
  type = con;
  code = 1;
  message_id = 7;
  payload_length = 0;
  payload_buf_size = 0;
  token = no_token;
  options = [];
  payload = [];
}

abbrev pub served : Interaction
served =
    new_interaction 100 role_server handle_request (some 1) remote 3 get_request meta_info_none none

abbrev pub asked : Interaction
asked =
    new_interaction 200 role_client ready_to_request none remote 3 get_request meta_info_none none

move_interaction_to_list_end-there_example :
    move_interaction_to_list_end (asked ∷ served ∷ asked ∷ []) served ≡ asked ∷ asked ∷ served ∷ []
move_interaction_to_list_end-there_example =
    move_interaction_to_list_end-there (asked ∷ []) served (asked ∷ []) (ground arith)
