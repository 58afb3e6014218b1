-- ===== src/ContentFormat.antt =====
-- Content format and accept options: src/option-types/coap_option_cf.c.
pub mod Accept
use lobaro_coap.Common.{
  ℕ, ◌*◌, ◌^◌, bit_or, not, List, [], ◌∷◌, Option, none, some, if◌then◌else◌, ◌==◌,
}
use lobaro_coap.Platform.{Platform, Mem}
use lobaro_coap.OptionList.{CoapOption, Outcome}
use lobaro_coap.UintOption.{append_uint_option_to_list}

-- OPT_NUM_CONTENT_FORMAT and OPT_NUM_ACCEPT.
abbrev pub opt_num_content_format : ℕ
opt_num_content_format = 12

abbrev pub opt_num_accept : ℕ
opt_num_accept = 17

-- CoAP_AddCfOptionToMsg and CoAP_AddAcceptOptionToMsg.
unfoldable pub add_cf_option_to_msg : Platform → List CoapOption → ℕ → Mem → Outcome
add_cf_option_to_msg p opts format m =
    append_uint_option_to_list p opts opt_num_content_format format m

unfoldable pub add_accept_option_to_msg : Platform → List CoapOption → ℕ → Mem → Outcome
add_accept_option_to_msg p opts format m = append_uint_option_to_list p opts opt_num_accept format m

-- The value of CoAP_GetAcceptOptionVal by the bytes of the option.
unfoldable pub accept_of_bytes : List ℕ → ℕ
accept_of_bytes [] = 0
accept_of_bytes (a ∷ []) = a
accept_of_bytes (a ∷ b ∷ []) = bit_or a (b * 2 ^ 8)
accept_of_bytes (a ∷ b ∷ c ∷ rest) = 0

-- CoAP_GetAcceptOptionVal; `none` is NULL.
unfoldable pub get_accept_option_val : Option CoapOption → ℕ
get_accept_option_val none = 0
get_accept_option_val (some o) =
    if not (o.number == opt_num_accept) then 0 else accept_of_bytes o.value

-- The loop of CoAP_GetAcceptOptionValFromMsg: the last accept option counts.
unfoldable pub accept_loop : List CoapOption → ℕ → ℕ
accept_loop [] val = val
accept_loop (o ∷ os) val =
    accept_loop os
      (if not (o.number == opt_num_accept) then val else get_accept_option_val (some o))

-- CoAP_GetAcceptOptionValFromMsg.
unfoldable pub get_accept_option_val_from_msg : List CoapOption → ℕ
get_accept_option_val_from_msg os = accept_loop os 0
