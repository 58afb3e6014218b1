-- ===== src/Examples/Sending.antt =====
-- Times, sockets and sent messages.
use lobaro_coap.Common.{
  ltb, leb, false, ◌+◌, ◌-◌, ◌^◌, ◌≡◌, ◌⊎◌, ◌≢◌, refl, arith, true, false, List, [], ◌∷◌, some,
}
use lobaro_coap.Platform.{ok, granted_mem, malloc, free}
use lobaro_coap.Time.{u32, overflows, time_after}
use lobaro_coap.Time.Window.{stretch, time_after-stretch}
use lobaro_coap.OptionWire.{
  option_nibble, extended_bytes, pack_option, pack_options, pack_options_from_list,
  needed_mem_4_pack_options, needed_mem_loop, needed_extension,
}
use lobaro_coap.OptionWire.RoundTrip.{granted_times}
use lobaro_coap.Message.{
  type_bits, build_header, build_payload, build_with_token, build_datagram, get_raw_size_of_message,
  parse_message_from_datagram,
}
use lobaro_coap.Message.RoundTrip.{delivered}
use lobaro_coap.Send.{
  Socket, System, World, alloc_socket, retrieve_socket, alloc_buffer, free_buffer, hand_over,
  send_msg,
}
use lobaro_coap.Send.Sockets.{count_alive, alloc_socket-retrieve_socket}
use lobaro_coap.Send.Outcomes.{packet_of, send_msg-live, send_msg-log}
use lobaro_coap.Send.Delivery.{send_msg-parse_message_from_datagram}
use lobaro_coap.Examples.{granting, fresh_mem, memory_of, Holds-memory_of}
use lobaro_coap.Examples.Messages.{post, post-IsSendable}
use lobaro_coap.Examples.Interactions.{remote}

-- A network that takes every packet, and the state at the start, with one socket.
abbrev pub open_network : System
open_network = record {
  platform = granting;
  transmits = λ log packet. true;
  sizeof_interaction = 128;
  sizeof_observer = 64;
}

abbrev pub socket_7 : Socket
socket_7 = record { handle = 7; has_tx = true; alive = true }

abbrev pub first_world : World
first_world = record {
  mem = fresh_mem;
  now = 100;
  message_id = 0;
  curr_token = 0;
  sockets = socket_7 ∷ [];
  log = [];
}

-- Two times at the change of the clock's sign.
time_after-stretch_example :
    ((stretch (2 ^ 31 + 5) ≡ stretch (2 ^ 31 - 5))
      × ((overflows (u32 (2 ^ 31 + 5)) (u32 (2 ^ 31 - 5)) ≡ false)
          × (time_after (u32 (2 ^ 31 + 5)) (u32 (2 ^ 31 - 5)) ≡ leb (2 ^ 31 - 5) (2 ^ 31 + 5))))
    ⊎ ((¬ (stretch (2 ^ 31 + 5) ≡ stretch (2 ^ 31 - 5)))
        × ((overflows (u32 (2 ^ 31 + 5)) (u32 (2 ^ 31 - 5)) ≡ true)
            × (time_after (u32 (2 ^ 31 + 5)) (u32 (2 ^ 31 - 5)) ≡ ltb (2 ^ 31 + 5) (2 ^ 31 - 5))))
time_after-stretch_example =
    time_after-stretch (2 ^ 31 + 5) (2 ^ 31 - 5) (omega arith) (omega arith)

abbrev one_socket : List Socket
one_socket = socket_7 ∷ record { handle = 0; has_tx = false; alive = false } ∷ []

abbrev two_sockets : List Socket
two_sockets = socket_7 ∷ record { handle = 9; has_tx = false; alive = true } ∷ []

alloc_socket-retrieve_socket_example :
    (count_alive two_sockets ≡ 2)
    × ((retrieve_socket two_sockets 9 ≡ some (record { handle = 9; has_tx = false; alive = true }))
        × (retrieve_socket two_sockets 7 ≡ retrieve_socket one_socket 7))
unfolding alloc_socket retrieve_socket
alloc_socket-retrieve_socket_example =
    alloc_socket-retrieve_socket 9 7 one_socket two_sockets refl refl (ground arith)

send_msg-live_example :
    let (r, msg', w') = send_msg open_network post 7 remote first_world in
    (w'.mem.live ≡ 0)
    × ((w'.now ≡ 100)
        × ((w'.message_id ≡ 0) × ((w'.curr_token ≡ 0) × (w'.sockets ≡ socket_7 ∷ []))))
send_msg-live_example = send_msg-live open_network post 7 remote first_world

send_msg-log_example :
    let (r, msg', w') = send_msg open_network post 7 remote first_world in
    ((r ≡ ok) × ((w'.log ≡ (packet_of post 7 remote, true) ∷ []) × (msg'.timestamp ≡ 100)))
    ⊎ ((r ≢ ok)
        × (((w'.log ≡ []) ⊎ (w'.log ≡ (packet_of post 7 remote, false) ∷ []))
            × (msg'.timestamp ≡ 0)))
send_msg-log_example = send_msg-log open_network post 7 remote first_world

send_msg-parse_message_from_datagram_example :
    parse_message_from_datagram granting 99
      (memory_of (packet_of post 7 remote).bytes 0)
      (packet_of post 7 remote).size
      fresh_mem
    ≡ some (ok, some (delivered 99 post), granted_mem (granted_times 2 fresh_mem))
unfolding send_msg hand_over alloc_buffer free_buffer retrieve_socket malloc free build_datagram
    build_with_token build_header build_payload type_bits pack_options_from_list pack_options
    pack_option option_nibble extended_bytes get_raw_size_of_message needed_mem_4_pack_options
    needed_mem_loop needed_extension
send_msg-parse_message_from_datagram_example =
    send_msg-parse_message_from_datagram open_network post 7 remote first_world
      (packet_of post 7 remote) [] granting 99 (memory_of (packet_of post 7 remote).bytes 0)
      fresh_mem post-IsSendable (omega arith) refl refl (λ k n. refl)
      (Holds-memory_of (packet_of post 7 remote).bytes 0)
