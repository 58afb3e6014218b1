-- ===== src/Examples/Types.antt =====
-- The kinds of options, and endpoints.
use lobaro_coap.Common.{
  ◌-◌, ◌^◌, ◌≤◌, ◌<◌, ◌≡◌, ◌↔◌, ◌⊎◌, inr, refl, arith, Bool, true, false, List, [], ◌∷◌, ◌++◌, some,
  length,
}
use lobaro_coap.Platform.{ok, Mem}
use lobaro_coap.OptionList.{CoapOption, new_option, find_option_by_number}
use lobaro_coap.OptionWire.RoundTrip.{granted_times}
use lobaro_coap.UintOption.{uint_bytes, get_uint_from_option}
use lobaro_coap.UintOption.RoundTrip.{get_uint_from_option-uint_bytes}
use lobaro_coap.Observe.{update_observe_option_in_msg, get_observe_option_from_msg}
use lobaro_coap.Observe.Update.{update_observe_option_in_msg-get}
use lobaro_coap.Uri.{
  append_uri_options_from_string, uri_options_are_equal, equals_char, starts_with, strip_equal,
  get_uri_query_val, get_uri_query_val_from_msg,
}
use lobaro_coap.Uri.Parse.{render_uri, append_uri_options_from_string-render_uri}
use lobaro_coap.Uri.Equal.{paths_of, uri_options_are_equal_iff}
use lobaro_coap.Uri.Query.{get_uri_query_val_from_msg-named}
use lobaro_coap.Blockwise.{
  block_2, add_blk_option_to_msg, get_block_option_from_msg, remove_all_block_options_from_msg,
}
use lobaro_coap.Blockwise.RoundTrip.{sized, add_blk_option_to_msg-get}
use lobaro_coap.Blockwise.Remove.{remove_all_block_options_from_msg-others}
use lobaro_coap.ContentFormat.{add_accept_option_to_msg, get_accept_option_val_from_msg}
use lobaro_coap.ContentFormat.Accept.{add_accept_option_to_msg-get}
use lobaro_coap.ETag.{add64_bit_etag_option_to_msg, get64_bit_etag_option_from_msg}
use lobaro_coap.ETag.RoundTrip.{add64_bit_etag_option_to_msg-get64}
use lobaro_coap.Endpoint.{ipv4, Endpoint, ep_are_equal}
use lobaro_coap.Endpoint.Equal.{identity, ep_are_equal_iff}
use lobaro_coap.Examples.{granting, fresh_mem, path_ab, query_x, two_options}

get_uint_from_option-uint_bytes_example :
    (get_uint_from_option (some (new_option 12 (uint_bytes 300))) 0 ≡ (ok, 300))
    × (length (uint_bytes 300) ≤ 4)
    × (300 < 256 ^ length (uint_bytes 300))
    × ((length (uint_bytes 300) ≡ 0) ⊎ (256 ^ (length (uint_bytes 300) - 1) ≤ 300))
get_uint_from_option-uint_bytes_example = get_uint_from_option-uint_bytes 12 300 0 (omega arith)

-- A list with an observe option.
abbrev observed : List CoapOption
observed = new_option 6 (9 ∷ []) ∷ path_ab ∷ []

update_observe_option_in_msg-get_example :
    let (r, os', m') = update_observe_option_in_msg granting observed 70000 fresh_mem in
    (r ≡ ok) × (get_observe_option_from_msg os' ≡ (ok, 70000))
update_observe_option_in_msg-get_example =
    update_observe_option_in_msg-get granting observed 70000 fresh_mem (λ k n. refl)
      (omega arith, (omega arith, tt)) (omega arith)

append_uri_options_from_string-render_uri_example :
    append_uri_options_from_string granting []
      (some (render_uri ((b'a' ∷ b'b' ∷ []) ∷ []) ((b'x' ∷ b'=' ∷ b'1' ∷ []) ∷ [])))
      fresh_mem
    ≡ (ok, two_options, granted_times 1 (granted_times 1 fresh_mem))
append_uri_options_from_string-render_uri_example =
    append_uri_options_from_string-render_uri ((b'a' ∷ b'b' ∷ []) ∷ [])
      ((b'x' ∷ b'=' ∷ b'1' ∷ []) ∷ []) granting [] fresh_mem (λ k n. refl)
      ((omega arith, omega arith, ground arith), tt) ((omega arith, omega arith, ground arith), tt)
      tt

uri_options_are_equal_iff_example :
    (b : Bool) × (uri_options_are_equal two_options (path_ab ∷ []) ≡ some b)
    × ((b ≡ true) ↔ (paths_of two_options ≡ paths_of (path_ab ∷ [])))
uri_options_are_equal_iff_example = uri_options_are_equal_iff two_options (path_ab ∷ [])

get_uri_query_val_from_msg-named_example :
    get_uri_query_val_from_msg true
      (two_options ++ (new_option 15 (b'c' ∷ b'=' ∷ b'9' ∷ []) ∷ []))
      (b'c' ∷ [])
    ≡ some (b'9' ∷ [], 1)
unfolding get_uri_query_val_from_msg get_uri_query_val starts_with equals_char strip_equal
get_uri_query_val_from_msg-named_example =
    get_uri_query_val_from_msg-named true two_options (b'c' ∷ []) (b'9' ∷ []) [] (omega arith) refl

add_blk_option_to_msg-get_example :
    let (r, os', m') =
      add_blk_option_to_msg granting two_options (sized block_2 6 true 5000) fresh_mem in
    (r ≡ ok)
    × (get_block_option_from_msg os' block_2 (sized 0 0 false 0) ≡ (ok, sized block_2 6 true 5000))
unfolding find_option_by_number
add_blk_option_to_msg-get_example =
    add_blk_option_to_msg-get granting two_options block_2 6 true 5000 fresh_mem (sized 0 0 false 0)
      (inr refl) (omega arith) (omega arith) refl (omega arith, (omega arith, tt)) refl

remove_all_block_options_from_msg-others_example :
    (m' : Mem) × (remove_all_block_options_from_msg
        (query_x ∷ new_option 23 [] ∷ new_option 23 (8 ∷ []) ∷ [])
        block_2
        fresh_mem
      ≡ some (ok, query_x ∷ [], m'))
    × (m'.live ≡ 0 - 2)
remove_all_block_options_from_msg-others_example =
    remove_all_block_options_from_msg-others
      (query_x ∷ new_option 23 [] ∷ new_option 23 (8 ∷ []) ∷ []) block_2 fresh_mem

-- The content format 300, which is 0x012c, is read as 0x2c01.
add_accept_option_to_msg-get_example :
    let (r, os', m') = add_accept_option_to_msg granting two_options 300 fresh_mem in
    (r ≡ ok) × (get_accept_option_val_from_msg os' ≡ 0x2c01)
add_accept_option_to_msg-get_example =
    add_accept_option_to_msg-get granting two_options 300 fresh_mem refl (omega arith) refl

abbrev server_ep : Endpoint
server_ep = record { net_type = ipv4; net_addr = 192 ∷ 168 ∷ 0 ∷ 1 ∷ []; net_port = 5683 }

-- The same address with other bytes in the rest of the union.
abbrev padded_ep : Endpoint
padded_ep = record server_ep { net_addr = 192 ∷ 168 ∷ 0 ∷ 1 ∷ 77 ∷ [] }

ep_are_equal_iff_example :
    (ep_are_equal server_ep padded_ep ≡ true) ↔ (identity server_ep ≡ identity padded_ep)
ep_are_equal_iff_example = ep_are_equal_iff server_ep padded_ep

add64_bit_etag_option_to_msg-get64_example :
    let (r, os', m') =
      add64_bit_etag_option_to_msg granting two_options 9223372036854775813 fresh_mem in
    (r ≡ ok) × (get64_bit_etag_option_from_msg os' 9 ≡ (ok, 9223372036854775813))
add64_bit_etag_option_to_msg-get64_example =
    add64_bit_etag_option_to_msg-get64 granting two_options 9223372036854775813 9 fresh_mem refl
      (omega arith) refl
