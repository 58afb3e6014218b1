-- ===== src/Examples/Machines.antt =====
-- States of the whole stack.
use lobaro_coap.Common.{true, All, ℕ, ◌≡◌, refl, arith, [], ◌∷◌, Option, none, some}
use lobaro_coap.Platform.{malloc}
use lobaro_coap.Endpoint.{ep_are_equal, same_bytes}
use lobaro_coap.Message.{
  msg_is_request, ack, Message, no_token, check_header, parse_message_from_datagram, empty_code,
}
use lobaro_coap.Observer.{Observer, append_observer_to_list, delete_same_observer}
use lobaro_coap.Observer.Places.{OneEach, append_observer_to_list-OneEach}
use lobaro_coap.Resource.{handler_ok, Notifier, Resource, resource_at, find_resource_by_uri}
use lobaro_coap.Resource.Find.{FoundFirst, find_resource_by_uri-FoundFirst}
use lobaro_coap.Interaction.{
  waiting_response, start_new_client_interaction, append_interaction_to_list, Interaction,
  meta_info_none, new_interaction, role_server, handle_request,
}
use lobaro_coap.Machine.{Coap, alloc_node}
use lobaro_coap.Machine.Observation.{copy_observer_options, register_observer}
use lobaro_coap.Machine.Notify.{refresh_notification}
use lobaro_coap.Machine.Start.{start_request, start_client, start_new_request, new_notification}
use lobaro_coap.Machine.Incoming.{Origin, take_request, handle_message, handle_incoming_packet}
use lobaro_coap.OptionWire.{Memory}
use lobaro_coap.OptionList.{check_for_unknown_critical_option}
use lobaro_coap.Machine.Dangling.{refresh_notification-register_observer}
use lobaro_coap.Machine.Retransmission.{asking, only, expirations, GaveUp, expirations-GaveUp}
use lobaro_coap.Machine.Sound.{AllSound}
use lobaro_coap.Machine.Work.{do_work}
use lobaro_coap.Machine.Defined.Incoming.{handle_incoming_packet-Reachable}
use lobaro_coap.Machine.Defined.Work.{is_settled, do_work-Reachable}
use lobaro_coap.Machine.Sound.Reachable.{
  Reachable, start, next, requests, receives, Reachable-AllSound,
}
use lobaro_coap.Examples.{fresh_mem, two_options, path_ab, memory_of}
use lobaro_coap.Examples.Interactions.{remote, get_request, asked}
use lobaro_coap.Examples.Sending.{open_network, first_world}

-- An observer at the remote endpoint on socket 3, and one that registers there.
abbrev old_observer : Observer
old_observer = record {
  address = 50;
  ep = remote;
  socket_handle = 3;
  token = no_token;
  opt_list = [];
}

abbrev new_observer : Observer
new_observer = record {
  address = 51;
  ep = remote;
  socket_handle = 3;
  token = no_token;
  opt_list = [];
}

append_observer_to_list-OneEach_example : OneEach (
    append_observer_to_list
      (delete_same_observer (old_observer ∷ []) 3 remote fresh_mem).0
      new_observer)
append_observer_to_list-OneEach_example =
    append_observer_to_list-OneEach (old_observer ∷ []) new_observer fresh_mem (tt, tt)
      (ground arith, tt)

abbrev silent : Notifier
silent = λ o msg m. (handler_ok, msg, m)

-- A resource "ab" with an observer.
abbrev observed : Resource
observed = record {
  description = [];
  update_cnt = 0;
  opts = record { cf = 0; allowed_methods = 2; etag = 0 };
  uri = path_ab ∷ [];
  observers = old_observer ∷ [];
  handler = some (λ req resp m. (handler_ok, resp, m));
  notifier = some silent;
}

find_resource_by_uri-FoundFirst_example :
    (found : Option ℕ) × (find_resource_by_uri (observed ∷ []) two_options ≡ some found)
    × FoundFirst (observed ∷ []) two_options found
find_resource_by_uri-FoundFirst_example =
    find_resource_by_uri-FoundFirst (observed ∷ []) two_options

abbrev idle : Coap
idle = record { interactions = []; resources = observed ∷ []; world = first_world; callbacks = [] }

-- A request of the client, and a datagram that is too short.
abbrev after_request : Coap
after_request = (start_new_request open_network idle 1 (b'/' ∷ b'a' ∷ []) [] 7 remote (some 1)).1

too_short :
    handle_incoming_packet open_network after_request
      (memory_of [] 0)
      3
      (record { socket = 7; ep = remote; meta = meta_info_none })
    ≡ some after_request
unfolding handle_incoming_packet parse_message_from_datagram check_header
too_short = refl

Reachable-AllSound_example : AllSound after_request
Reachable-AllSound_example = Reachable-AllSound open_network (observed ∷ []) (
    next (next (start first_world) (requests idle 1 (b'/' ∷ b'a' ∷ []) [] 7 remote (some 1))) (
      receives (memory_of [] 0) 3 (record { socket = 7; ep = remote; meta = meta_info_none })
        too_short))

abbrev origin_7 : Origin
origin_7 = record { socket = 7; ep = remote; meta = meta_info_none }

-- A confirmable GET of the resource "ab" under the message id 7, and the state after it.
abbrev get_packet : Memory
get_packet = memory_of (64 ∷ 1 ∷ 0 ∷ 7 ∷ 178 ∷ b'a' ∷ b'b' ∷ []) 255

abbrev after_packet : Coap
after_packet = elim (handle_incoming_packet open_network idle get_packet 7 origin_7) [
  | none ↦ idle
  | some c ↦ c
]

packet_taken : handle_incoming_packet open_network idle get_packet 7 origin_7 ≡ some after_packet
unfolding handle_incoming_packet parse_message_from_datagram check_header
    lobaro_coap.Message.parse_body lobaro_coap.OptionWire.parse_options_from_raw
    lobaro_coap.OptionWire.parse_loop lobaro_coap.OptionWire.parse_round
    lobaro_coap.OptionWire.parse_fields lobaro_coap.OptionWire.extended_field
    lobaro_coap.OptionWire.parse_length lobaro_coap.OptionWire.check_length
    lobaro_coap.OptionList.append_option_to_list lobaro_coap.OptionList.append_option_to_list_end
    malloc lobaro_coap.Message.after_options lobaro_coap.Message.parse_payload
    lobaro_coap.Message.copy_msg lobaro_coap.Message.header_msg lobaro_coap.Message.read_token
    lobaro_coap.Message.type_of_bits handle_message lobaro_coap.Machine.Incoming.is_ignored
    msg_is_request lobaro_coap.Machine.Incoming.find_and_accept find_resource_by_uri
    lobaro_coap.Uri.uri_options_are_equal lobaro_coap.Uri.compare_paths lobaro_coap.Uri.skip_to_path
    lobaro_coap.OptionList.options_are_equal lobaro_coap.OptionList.bytes_are_equal resource_at
    lobaro_coap.Machine.Incoming.has_handler lobaro_coap.Machine.Incoming.accept_message
    lobaro_coap.Machine.Incoming.wake_interaction
    lobaro_coap.Interaction.find_interaction_by_message_id_and_ep check_for_unknown_critical_option
    lobaro_coap.OptionList.option_known lobaro_coap.Machine.Incoming.dispatch take_request
    lobaro_coap.Machine.Start.start_server lobaro_coap.Interaction.start_new_server_interaction
    lobaro_coap.Interaction.find_duplicate alloc_node lobaro_coap.Machine.Start.server_started
    lobaro_coap.Machine.Incoming.request_taken append_interaction_to_list
packet_taken = refl

abbrev packet_Reachable : Reachable open_network (observed ∷ []) after_packet
packet_Reachable = next (start first_world) (receives get_packet 7 origin_7 packet_taken)

packet_settled : All (λ x. is_settled x ≡ true) after_packet.interactions
unfolding handle_incoming_packet parse_message_from_datagram check_header
    lobaro_coap.Message.parse_body lobaro_coap.OptionWire.parse_options_from_raw
    lobaro_coap.OptionWire.parse_loop lobaro_coap.OptionWire.parse_round
    lobaro_coap.OptionWire.parse_fields lobaro_coap.OptionWire.extended_field
    lobaro_coap.OptionWire.parse_length lobaro_coap.OptionWire.check_length
    lobaro_coap.OptionList.append_option_to_list lobaro_coap.OptionList.append_option_to_list_end
    malloc lobaro_coap.Message.after_options lobaro_coap.Message.parse_payload
    lobaro_coap.Message.copy_msg lobaro_coap.Message.header_msg lobaro_coap.Message.read_token
    lobaro_coap.Message.type_of_bits handle_message lobaro_coap.Machine.Incoming.is_ignored
    msg_is_request lobaro_coap.Machine.Incoming.find_and_accept find_resource_by_uri
    lobaro_coap.Uri.uri_options_are_equal lobaro_coap.Uri.compare_paths lobaro_coap.Uri.skip_to_path
    lobaro_coap.OptionList.options_are_equal lobaro_coap.OptionList.bytes_are_equal resource_at
    lobaro_coap.Machine.Incoming.has_handler lobaro_coap.Machine.Incoming.accept_message
    lobaro_coap.Machine.Incoming.wake_interaction
    lobaro_coap.Interaction.find_interaction_by_message_id_and_ep check_for_unknown_critical_option
    lobaro_coap.OptionList.option_known lobaro_coap.Machine.Incoming.dispatch take_request
    lobaro_coap.Machine.Start.start_server lobaro_coap.Interaction.start_new_server_interaction
    lobaro_coap.Interaction.find_duplicate alloc_node lobaro_coap.Machine.Start.server_started
    lobaro_coap.Machine.Incoming.request_taken append_interaction_to_list
packet_settled = (refl, tt)

do_work-Reachable_example : (c' : Coap) × (do_work open_network after_packet ≡ some c')
do_work-Reachable_example =
    do_work-Reachable open_network (observed ∷ []) packet_Reachable (λ k n. refl) packet_settled

-- A confirmable GET without options.
handle_incoming_packet-Reachable_example :
    (c' : Coap) × (handle_incoming_packet open_network after_request
        (memory_of (64 ∷ 1 ∷ 0 ∷ 9 ∷ []) 255)
        4
        (record { socket = 7; ep = remote; meta = meta_info_none })
      ≡ some c')
handle_incoming_packet-Reachable_example =
    handle_incoming_packet-Reachable open_network (observed ∷ [])
      (memory_of (64 ∷ 1 ∷ 0 ∷ 9 ∷ []) 255) 4
      (record { socket = 7; ep = remote; meta = meta_info_none })
      (next (start first_world) (requests idle 1 (b'/' ∷ b'a' ∷ []) [] 7 remote (some 1)))
      (omega arith) (omega arith)

expirations-GaveUp_example :
    (c' : Coap) × (expirations open_network 4 (only idle (asking asked get_request 1 0 108))
      ≡ some c')
    × GaveUp 1 idle c'
expirations-GaveUp_example =
    expirations-GaveUp 4 open_network idle asked get_request 1 0 108 refl (omega arith) refl
      (omega arith) (omega arith)

-- The empty acknowledgement of the request.
abbrev empty_ack : Message
empty_ack = record get_request { type = ack; code = empty_code }

-- A client's request that was sent and waits for its response.
abbrev waiting_asked : Interaction
waiting_asked = record asked { state = waiting_response; ack_timeout = 108 }

-- The client registers again, while a notification to it is under way.
abbrev registering : Interaction
registering =
    new_interaction 100 role_server handle_request (some 0) remote 3 get_request meta_info_none none

abbrev notifying : Interaction
notifying = new_notification 60 0 old_observer get_request

refresh_notification-register_observer_example :
    refresh_notification open_network
      (register_observer open_network idle registering get_request observed).1
      notifying
      get_request
    ≡ none
unfolding register_observer alloc_node malloc copy_observer_options ep_are_equal same_bytes
    resource_at
refresh_notification-register_observer_example =
    refresh_notification-register_observer open_network idle registering notifying get_request
      get_request observed old_observer 0 silent refl refl refl refl refl refl refl (ground arith)
      refl
