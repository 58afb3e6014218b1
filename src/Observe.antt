-- ===== src/Observe.antt =====
-- The observe option: AddObserveOptionToMsg, RemoveObserveOptionFromMsg, UpdateObserveOptionInMsg
-- and GetObserveOptionFromMsg of src/option-types/coap_option_observe.c. They use of the message
-- its option list alone.
pub mod Update
use lobaro_coap.Common.{
  ℕ, zero, suc, ◌*◌, ◌/◌, ◌%◌, ◌^◌, bit_or, List, [], ◌∷◌, Option, none, some, if◌then◌else◌, ltb,
  ◌==◌, map,
}
use lobaro_coap.Platform.{CoapResult, ok, not_found, bad_option_val, Platform, Mem}
use lobaro_coap.OptionList.{CoapOption, Outcome, append_option_to_list, remove_option_from_list}

-- OPT_NUM_OBSERVE.
abbrev pub opt_num_observe : ℕ
opt_num_observe = 6

-- The bytes of AddObserveOptionToMsg: three at most.
unfoldable pub observe_bytes : ℕ → List ℕ
observe_bytes val =
    if ltb 0xffff val
    then val / 2 ^ 16 % 256 ∷ val / 2 ^ 8 % 256 ∷ val % 256 ∷ []
    else (if ltb 0xff val
        then val / 2 ^ 8 % 256 ∷ val % 256 ∷ []
        else (if ltb 0 val then val % 256 ∷ [] else []))

-- AddObserveOptionToMsg.
unfoldable pub add_observe_option_to_msg : Platform → List CoapOption → ℕ → Mem → Outcome
add_observe_option_to_msg p opts val m =
    append_option_to_list p opts opt_num_observe (observe_bytes val) m

-- The position of the first option of a number.
unfoldable pub position_of : ℕ → List CoapOption → Option ℕ
position_of number [] = none
position_of number (o ∷ os) =
    let rest = position_of number os in
    if o.number == number then some 0 else elim rest [ none ↦ none | some i ↦ some (suc i) ]

-- RemoveObserveOptionFromMsg.
unfoldable pub remove_observe_option_from_msg : List CoapOption → Mem → Outcome
remove_observe_option_from_msg opts m = elim (position_of opt_num_observe opts) [
  | none ↦ (not_found, opts, m)
  | some i ↦ let (opts', m') = remove_option_from_list opts i m in (ok, opts', m')
]

-- UpdateObserveOptionInMsg.
unfoldable pub update_observe_option_in_msg : Platform → List CoapOption → ℕ → Mem → Outcome
update_observe_option_in_msg p opts val m =
    let (r, opts', m') = remove_observe_option_from_msg opts m in
    add_observe_option_to_msg p opts' val m'

-- What GetObserveOptionFromMsg makes of an observe option's value: the result and `*val`.
unfoldable pub observe_value : List ℕ → CoapResult × ℕ
observe_value [] = (ok, 0)
observe_value (a ∷ []) = (ok, a)
observe_value (a ∷ b ∷ []) = (ok, bit_or (a * 2 ^ 8) b)
observe_value (a ∷ b ∷ c ∷ []) = (ok, bit_or (bit_or (a * 2 ^ 16) (b * 2 ^ 8)) c)
observe_value (a ∷ b ∷ c ∷ d ∷ rest) = (bad_option_val, 0)

-- GetObserveOptionFromMsg.
unfoldable pub get_observe_option_from_msg : List CoapOption → CoapResult × ℕ
get_observe_option_from_msg [] = (not_found, 0)
get_observe_option_from_msg (o ∷ os) =
    let rest = get_observe_option_from_msg os in
    if o.number == opt_num_observe then observe_value o.value else rest
