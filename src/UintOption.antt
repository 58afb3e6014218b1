-- ===== src/UintOption.antt =====
-- Options with an unsigned integer for a value, and the parts of a block option's value:
-- CoAP_AppendUintOptionToList, CoAP_GetUintFromOption, CoAP_DecodeSzx, CoAP_EncodeSzx,
-- CoAP_PackBlockParameter and CoAP_UnpackBlockParameter of src/coap_options.c.
pub mod RoundTrip
use lobaro_coap.Common.{
  ℕ, ◌+◌, ◌*◌, ◌/◌, ◌%◌, ◌^◌, bit_or, Bool, List, [], ◌∷◌, Option, none, some, if◌then◌else◌, ltb,
  leb, ◌==◌,
}
use lobaro_coap.Platform.{CoapResult, ok, err_argument, Platform, Mem}
use lobaro_coap.OptionList.{CoapOption, Outcome, append_option_to_list}

-- What CoAP_AppendUintOptionToList puts into `wBuf`: the bytes from the highest that counts on.
unfoldable pub uint_bytes : ℕ → List ℕ
uint_bytes val =
    if val == 0
    then []
    else (if leb val 0xff
        then val % 256 ∷ []
        else (if leb val 0xffff
            then val / 2 ^ 8 % 256 ∷ val % 256 ∷ []
            else (if leb val 0xffffff
                then val / 2 ^ 16 % 256 ∷ val / 2 ^ 8 % 256 ∷ val % 256 ∷ []
                else val / 2 ^ 24 % 256 ∷ val / 2 ^ 16 % 256 ∷ val / 2 ^ 8 % 256 ∷ val % 256 ∷ [])))

-- CoAP_AppendUintOptionToList.
unfoldable pub append_uint_option_to_list : Platform → List CoapOption → ℕ → ℕ → Mem → Outcome
append_uint_option_to_list p opts number val m =
    append_option_to_list p opts number (uint_bytes val) m

-- The value of up to four bytes; `none` is a longer one.
unfoldable pub uint_of_bytes : List ℕ → Option ℕ
uint_of_bytes [] = some 0
uint_of_bytes (a ∷ []) = some a
uint_of_bytes (a ∷ b ∷ []) = some (bit_or b (a * 2 ^ 8))
uint_of_bytes (a ∷ b ∷ c ∷ []) = some (bit_or (bit_or c (b * 2 ^ 8)) (a * 2 ^ 16))
uint_of_bytes (a ∷ b ∷ c ∷ d ∷ []) =
    some (bit_or (bit_or (bit_or d (c * 2 ^ 8)) (b * 2 ^ 16)) (a * 2 ^ 24))
uint_of_bytes (a ∷ b ∷ c ∷ d ∷ e ∷ rest) = none

-- CoAP_GetUintFromOption: the result, and what `*value` holds, which was `old`. NULL for the option
-- is `none`.
unfoldable pub get_uint_from_option : Option CoapOption → ℕ → CoapResult × ℕ
get_uint_from_option none old = (err_argument, old)
get_uint_from_option (some o) old = elim (uint_of_bytes o.value) [
  | none ↦ (err_argument, old)
  | some v ↦ (ok, v)
]

-- CoAP_DecodeSzx.
unfoldable pub decode_szx : ℕ → ℕ
decode_szx szx = if ltb 6 szx then 0 else 2 ^ (szx + 4)

-- CoAP_EncodeSzx.
unfoldable pub encode_szx : ℕ → ℕ
encode_szx blocksize =
    if blocksize == 1024
    then 6
    else (if blocksize == 512
        then 5
        else (if blocksize == 256
            then 4
            else (if blocksize == 128
                then 3
                else (if blocksize == 64 then 2 else (if blocksize == 32 then 1 else 0)))))

-- CoAP_PackBlockParameter, in 32 bits.
unfoldable pub pack_block_parameter : ℕ → Bool → ℕ → ℕ
pack_block_parameter num more szx =
    let v = num * 2 ^ 4 % 2 ^ 32 in bit_or (if more then bit_or v 8 else v) szx

-- CoAP_UnpackBlockParameter: `*num`, `*m` and `*szx`. Masks are written as remainders.
unfoldable pub unpack_block_parameter : ℕ → ℕ × Bool × ℕ
unpack_block_parameter v = (v / 2 ^ 4, v / 8 % 2 == 1, v % 8)
