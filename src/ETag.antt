-- ===== src/ETag.antt =====
-- The ETag option: src/option-types/coap_option_ETag.c, but for AddETagOptionToMsg, which writes
-- the same four bytes for every payload.
pub mod RoundTrip
use lobaro_coap.Common.{
  ℕ, zero, suc, ◌+◌, ◌*◌, ◌/◌, ◌%◌, ◌^◌, ◌||◌, bit_or, List, [], ◌∷◌, if◌then◌else◌, ltb, ◌==◌,
  length,
}
use lobaro_coap.Platform.{CoapResult, ok, not_found, bad_option_len, Platform, Mem}
use lobaro_coap.OptionWire.{is_ok}
use lobaro_coap.OptionList.{CoapOption, Outcome, append_option_to_list}

abbrev pub opt_num_etag : ℕ
opt_num_etag = 4

-- The loop of Add64BitETagOptionToMsg: the low byte first, up to the last one that counts. The
-- rounds that are left are the first argument.
unfoldable pub etag_loop : ℕ → ℕ → List ℕ
etag_loop zero val = []
etag_loop (suc n) val =
    let rest = etag_loop n (val / 2 ^ 8) in
    if val / 2 ^ 8 == 0 then val % 256 ∷ [] else val % 256 ∷ rest

-- Add64BitETagOptionToMsg of a uint64_t.
unfoldable pub add64_bit_etag_option_to_msg : Platform → List CoapOption → ℕ → Mem → Outcome
add64_bit_etag_option_to_msg p opts val m =
    append_option_to_list p opts opt_num_etag (etag_loop 8 (val % 2 ^ 64)) m

-- GetETagOptionFromMsg: the result, and the bytes that it writes to `val`.
unfoldable pub get_etag_option_from_msg : List CoapOption → CoapResult × List ℕ
get_etag_option_from_msg [] = (not_found, 0 ∷ [])
get_etag_option_from_msg (o ∷ os) =
    let rest = get_etag_option_from_msg os in
    if o.number == opt_num_etag
    then (if (length o.value == 0) || ltb 8 (length o.value)
        then (bad_option_len, 0 ∷ [])
        else (ok, o.value))
    else rest

-- The loop of Get64BitETagOptionFromMsg from the byte `i` on.
unfoldable pub etag_value : ℕ → ℕ → List ℕ → ℕ
etag_value i val [] = val
etag_value i val (b ∷ bs) = etag_value (i + 1) (bit_or val (b * 2 ^ (i * 8))) bs

-- Get64BitETagOptionFromMsg: the result, and what `*pVal` holds, which was `old`.
unfoldable pub get64_bit_etag_option_from_msg : List CoapOption → ℕ → CoapResult × ℕ
get64_bit_etag_option_from_msg opts old =
    let (r, bytes) = get_etag_option_from_msg opts in
    if is_ok r then (r, etag_value 0 0 bytes) else (r, old)
