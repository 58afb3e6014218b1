-- ===== src/UintOption/RoundTrip.antt =====
-- Values of options are read back as they were written.
use lobaro_coap.Common.{
  ℕ, zero, suc, ◌+◌, ◌-◌, ◌*◌, ◌/◌, ◌%◌, ◌^◌, ◌≤◌, ◌<◌, ◌≡◌, ◌⊎◌, bit_or, refl, Bool, true, false,
  some, arith, length,
}
use lobaro_coap.Common.Bits.{bit_or-shift, shift-bit_or}
use lobaro_coap.Platform.{ok}
use lobaro_coap.OptionList.{new_option}
use lobaro_coap.UintOption.{
  uint_bytes, uint_of_bytes, get_uint_from_option, decode_szx, encode_szx, pack_block_parameter,
  unpack_block_parameter,
}

three_bytes :
    (a b c : ℕ)
    → b < 256
    → c < 256
    → bit_or (bit_or c (b * 2 ^ 8)) (a * 2 ^ 16) ≡ a * 65536 + b * 256 + c
three_bytes a b c hb hc =
    rw (shift-bit_or 8 c b (omega (arith, hc)))
      (omega (arith, shift-bit_or 16 (b * 2 ^ 8 + c) a (omega (arith, hb, hc))))

four_bytes :
    (a b c d : ℕ)
    → b < 256
    → c < 256
    → d < 256
    → bit_or (bit_or (bit_or d (c * 2 ^ 8)) (b * 2 ^ 16)) (a * 2 ^ 24)
      ≡ a * 16777216 + b * 65536 + c * 256 + d
four_bytes a b c d hb hc hd =
    rw (three_bytes b c d hc hd)
      (omega (arith, shift-bit_or 24 (b * 65536 + c * 256 + d) a (omega (arith, hb, hc, hd))))

uint_of_bytes-uint_bytes : (val : ℕ) → val < 2 ^ 32 → uint_of_bytes (uint_bytes val) ≡ some val
unfolding uint_of_bytes uint_bytes
uint_of_bytes-uint_bytes val h = ground (
  arith,
  shift-bit_or 8 (val % 256) (val / 2 ^ 8 % 256),
  three_bytes (val / 2 ^ 16 % 256) (val / 2 ^ 8 % 256) (val % 256),
  four_bytes (val / 2 ^ 24 % 256) (val / 2 ^ 16 % 256) (val / 2 ^ 8 % 256) (val % 256),
)

-- CoAP_GetUintFromOption reads back every 32-bit value from the option that
-- CoAP_AppendUintOptionToList makes of it, and the option's value is the shortest that holds it:
-- `256 ^ n` is above the value exactly where `n` is the length at least.
pub get_uint_from_option-uint_bytes :
    (number val old : ℕ)
    → val < 2 ^ 32
    → (get_uint_from_option (some (new_option number (uint_bytes val))) old ≡ (ok, val))
      × (length (uint_bytes val) ≤ 4)
      × (val < 256 ^ length (uint_bytes val))
      × ((length (uint_bytes val) ≡ 0) ⊎ (256 ^ (length (uint_bytes val) - 1) ≤ val))
unfolding get_uint_from_option
get_uint_from_option-uint_bytes number val old h = (
  rw (uint_of_bytes-uint_bytes val h, get_uint_from_option),
  unfold uint_bytes in ground arith,
  unfold uint_bytes in ground arith,
  unfold uint_bytes in ground arith,
)

encode_szx-below : (szx : ℕ) → szx ≤ 6 → encode_szx (2 ^ (szx + 4)) ≡ szx
unfolding encode_szx
encode_szx-below zero h = refl
encode_szx-below (suc zero) h = refl
encode_szx-below (suc (suc zero)) h = refl
encode_szx-below (suc (suc (suc zero))) h = refl
encode_szx-below (suc (suc (suc (suc zero)))) h = refl
encode_szx-below (suc (suc (suc (suc (suc zero))))) h = refl
encode_szx-below (suc (suc (suc (suc (suc (suc zero)))))) h = refl
encode_szx-below (suc (suc (suc (suc (suc (suc (suc n))))))) h = absurd (omega arith)

-- CoAP_EncodeSzx gives back the exponent of every size that CoAP_DecodeSzx makes of one, and the
-- exponent 7, which is reserved, has the size 0.
pub encode_szx-decode_szx :
    (szx : ℕ)
    → ((szx ≤ 6) × (encode_szx (decode_szx szx) ≡ szx)) ⊎ ((6 < szx) × (decode_szx szx ≡ 0))
unfolding decode_szx
encode_szx-decode_szx szx = ground (arith, encode_szx-below szx)

-- CoAP_UnpackBlockParameter gives back the block number, the more flag and the size exponent that
-- CoAP_PackBlockParameter packed, for numbers of 28 bits and exponents of 3 bits.
pub unpack_block_parameter-pack_block_parameter :
    (num : ℕ) (more : Bool) (szx : ℕ)
    → num < 2 ^ 28
    → szx < 8
    → unpack_block_parameter (pack_block_parameter num more szx) ≡ (num, more, szx)
unfolding unpack_block_parameter pack_block_parameter
unpack_block_parameter-pack_block_parameter num false szx hn hs =
    let v : num * 2 ^ 4 % 2 ^ 32 ≡ num * 2 * 2 ^ 3 = omega (arith, hn) in
    rw (v, bit_or-shift 3 (num * 2) szx hs) (ground (arith, hs, hn))
unpack_block_parameter-pack_block_parameter num true szx hn hs =
    let v : num * 2 ^ 4 % 2 ^ 32 ≡ num * 2 ^ 4 = omega (arith, hn) in
    let w : num * 2 ^ 4 + 8 ≡ (num * 2 + 1) * 2 ^ 3 = omega arith in
    rw (v, bit_or-shift 4 num 8 (omega arith), w, bit_or-shift 3 (num * 2 + 1) szx hs)
      (ground (arith, hs, hn))
