-- ===== src/Blockwise.antt =====
-- Blockwise transfer: AddBlkOptionToMsg, GetBlockOptionFromMsg, RemoveAllBlockOptionsFromMsg and
-- CoAP_SetPayload_CheckBlockOpt of src/option-types/coap_option_blockwise.c.
pub mod RoundTrip
pub mod Remove
use lobaro_coap.Common.{
  ℕ, zero, suc, ◌+◌, ◌-◌, ◌*◌, ◌/◌, ◌%◌, ◌^◌, bit_or, Bool, true, false, ◌&&◌, ◌||◌, not, List, [],
  ◌∷◌, ◌++◌, Option, none, some, if◌then◌else◌, ltb, leb, ◌==◌, length, take, drop,
}
use lobaro_coap.Platform.{
  CoapResult, ok, not_found, err_not_found, err_wrong_option, parse_message_format_error, Platform,
  Mem,
}
use lobaro_coap.OptionList.{CoapOption, Outcome, append_option_to_list, remove_option_from_list}
use lobaro_coap.Observe.{position_of}

-- CoAP_blockwise_option_type_t.
abbrev pub block_1 : ℕ
block_1 = 27

abbrev pub block_2 : ℕ
block_2 = 23

-- CoAP_blockwise_option_t. The size is a number, as in the C enum.
pub record BlockwiseOption : Type 0 where
  pub type : ℕ
  pub block_size : ℕ
  pub more_flag : Bool
  pub block_num : ℕ

-- The loop of AddBlkOptionToMsg: `i | OptionValue` for the highest bit `i` of `szxCalc`, from bit
-- `n - 1` on, and `OptionValue` for none.
unfoldable pub highest_bit : ℕ → ℕ → ℕ
highest_bit zero szx = 0
highest_bit (suc n) szx = let rest = highest_bit n szx in if szx / 2 ^ n % 2 == 1 then n else rest

-- `OptionValue` of AddBlkOptionToMsg, in 32 bits; the shift of the size is stored in a uint8_t.
unfoldable pub block_value : BlockwiseOption → ℕ
block_value b =
    let szx = highest_bit 7 (b.block_size / 2 ^ 4 % 256) in
    bit_or (b.block_num * 2 ^ 4 % 2 ^ 32) (bit_or (if b.more_flag then 8 else 0) szx)

-- The bytes that AddBlkOptionToMsg writes.
unfoldable pub block_bytes : BlockwiseOption → List ℕ
block_bytes b =
    let v = block_value b in
    if b.block_num == 0 && (b.block_size == 16 && not b.more_flag)
    then []
    else (if ltb b.block_num 16
        then v % 256 ∷ []
        else (if ltb b.block_num 4096
            then v / 2 ^ 8 % 256 ∷ v % 256 ∷ []
            else v / 2 ^ 16 % 256 ∷ v / 2 ^ 8 % 256 ∷ v % 256 ∷ []))

-- AddBlkOptionToMsg.
unfoldable pub add_blk_option_to_msg : Platform → List CoapOption → BlockwiseOption → Mem → Outcome
add_blk_option_to_msg p opts b m =
    if not (b.type == block_1) && not (b.type == block_2)
    then (err_wrong_option, opts, m)
    else append_option_to_list p opts b.type (block_bytes b) m

-- The decoding of an option value of one to three bytes in GetBlockOptionFromMsg: the result and
-- `*BlkOption`, where the type is set already.
unfoldable pub block_of_value : BlockwiseOption → ℕ → CoapResult × BlockwiseOption
block_of_value old v = if v % 8 == 7 then (parse_message_format_error, old) else (
  ok,
  record old { block_size = 2 ^ (v % 8 + 4); more_flag = v / 8 % 2 == 1; block_num = v / 2 ^ 4 },
)

unfoldable pub block_of_bytes : BlockwiseOption → List ℕ → CoapResult × BlockwiseOption
block_of_bytes old [] = (ok, record old { block_size = 16; more_flag = false; block_num = 0 })
block_of_bytes old (a ∷ []) = block_of_value old a
block_of_bytes old (a ∷ b ∷ []) = block_of_value old (bit_or (a * 2 ^ 8) b)
block_of_bytes old (a ∷ b ∷ c ∷ []) =
    block_of_value old (bit_or (bit_or (a * 2 ^ 16) (b * 2 ^ 8)) c)
block_of_bytes old (a ∷ b ∷ c ∷ d ∷ rest) = (parse_message_format_error, old)

-- GetBlockOptionFromMsg.
unfoldable pub get_block_option_from_msg :
    List CoapOption → ℕ → BlockwiseOption → CoapResult × BlockwiseOption
get_block_option_from_msg [] type old = (err_not_found, old)
get_block_option_from_msg (o ∷ os) type old =
    let rest = get_block_option_from_msg os type old in
    if o.number == type then block_of_bytes (record old { type = type }) o.value else rest

-- RemoveAllBlockOptionsFromMsg, on fuel for its `goto`: whether one was found, the list, the
-- allocator. `none` is a loop that has not ended.
unfoldable pub remove_all_loop :
    ℕ → List CoapOption → ℕ → Bool → Mem → Option (Bool × List CoapOption × Mem)
remove_all_loop zero opts type found m = none
remove_all_loop (suc fuel) opts type found m = elim (position_of type opts) [
  | none ↦ some (found, opts, m)
  | some i ↦
      let (opts', m') = remove_option_from_list opts i m in remove_all_loop fuel opts' type true m'
]

-- Each round takes a node out of the list.
unfoldable pub remove_all_block_options_from_msg : List CoapOption → ℕ → Mem → Option Outcome
remove_all_block_options_from_msg opts type m =
    elim (remove_all_loop (length opts + 1) opts type false m) [
      | none ↦ none
      | some (found, opts', m') ↦ some (if found then ok else not_found, opts', m')
    ]
