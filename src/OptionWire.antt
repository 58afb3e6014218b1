-- ===== src/OptionWire.antt =====
-- The wire format of options: pack_OptionsFromList, CoAP_NeededMem4PackOptions and
-- parse_OptionsFromRaw of src/coap_options.c.
pub mod Size
pub mod Termination
pub mod Overrun
pub mod RoundTrip
pub mod WellFormed
pub mod PayloadInside
use lobaro_coap.Common.{
  ℕ, zero, suc, ◌+◌, ◌-◌, ◌*◌, ◌/◌, ◌%◌, ◌^◌, bit_or, Bool, true, false, List, [], ◌∷◌, ◌++◌,
  Option, none, some, if◌then◌else◌, ltb, ◌==◌, length,
}
use lobaro_coap.Platform.{CoapResult, ok, err_argument, parse_message_format_error, Platform, Mem}
use lobaro_coap.OptionList.{CoapOption, append_option_to_list}

abbrev pub u16 : ℕ → ℕ
u16 x = x % 65536

-- The half of an option's first byte for a delta or a length, and the bytes that extend it.
unfoldable pub option_nibble : ℕ → ℕ
option_nibble v = if ltb v 13 then v else (if ltb v 269 then 13 else 14)

unfoldable pub extended_bytes : ℕ → List ℕ
extended_bytes v =
    if ltb v 13
    then []
    else (if ltb v 269
        then (v % 256 + 256 - 13) % 256 ∷ []
        else ((v - 269) / 256 % 256) ∷ ((v - 269) % 256) ∷ [])

-- One round of pack_OptionsFromList: the bytes that it writes, front to back.
unfoldable pub pack_option : ℕ → CoapOption → List ℕ
pack_option last o =
    let delta = u16 (o.number + 65536 - last) in
    let len = length o.value in
    bit_or (option_nibble delta * 16) (option_nibble len)
    ∷ (extended_bytes delta ++ (extended_bytes len ++ o.value))

unfoldable pub pack_options : ℕ → List CoapOption → List ℕ
pack_options last [] = []
pack_options last (o ∷ os) = pack_option last o ++ pack_options o.number os

-- pack_OptionsFromList: the bytes, and what it stores in `*pBytesWritten`.
unfoldable pub pack_options_from_list : List CoapOption → List ℕ × ℕ
pack_options_from_list os = let bytes = pack_options 0 os in (bytes, u16 (length bytes))

-- What `offset` grows by for a delta or a length in CoAP_NeededMem4PackOptions.
unfoldable pub needed_extension : ℕ → ℕ
needed_extension v = if ltb v 13 then 0 else (if ltb v 269 then 1 else 2)

unfoldable pub needed_mem_loop : ℕ → ℕ → List CoapOption → ℕ
needed_mem_loop offset last [] = offset
needed_mem_loop offset last (o ∷ os) =
    let delta = u16 (o.number + 65536 - last) in
    let len = length o.value in
    needed_mem_loop (u16 (offset + 1 + needed_extension delta + needed_extension len + len))
      o.number os

-- CoAP_NeededMem4PackOptions.
unfoldable pub needed_mem_4_pack_options : List CoapOption → ℕ
needed_mem_4_pack_options os = needed_mem_loop 0 0 os

-- The memory from a pointer on: also what lies behind the end of the datagram.
abbrev pub Memory : Type 0
Memory = ℕ → ℕ

abbrev pub read : Memory → ℕ → ℕ → List ℕ
read src at zero = []
read src at (suc n) = src at ∷ read src (at + 1) n

-- The value of a delta or length field and the offset behind it; `none` is the field 15.
unfoldable pub extended_field : Memory → ℕ → ℕ → Option (ℕ × ℕ)
extended_field src offset field =
    if field == 13
    then some (src offset + 13, u16 (offset + 1))
    else (if field == 14
        then some (u16 (bit_or (src offset * 2 ^ 8) (src (offset + 1)) + 269), u16 (offset + 2))
        else (if field == 15 then none else some (field, offset)))

-- How a round of the loop of parse_OptionsFromRaw goes on.
pub data Round : Type 0 where
  bad : Round
  payload : ℕ → Round
  option : ℕ → ℕ → ℕ → Round

-- The checks on an option of length `len` whose value starts at `offset`. The C subtraction
-- `srcLength - offset` is one of ints and may be negative.
unfoldable pub check_length : ℕ → ℕ → ℕ × ℕ → Round
check_length src_length delta (len, offset) =
    if ltb 1034 len
    then bad
    else (if ltb src_length (offset + len) then bad else option delta offset len)

unfoldable pub parse_length : Memory → ℕ → ℕ → ℕ × ℕ → Round
parse_length src src_length field (delta, offset) = elim (extended_field src offset field) [
  | none ↦ bad
  | some f ↦ check_length src_length delta f
]

-- An option whose first byte stands at `offset`.
unfoldable pub parse_fields : Memory → ℕ → ℕ → ℕ → Round
parse_fields src src_length byte offset = elim (extended_field src (u16 (offset + 1)) (byte / 16)) [
  | none ↦ bad
  | some f ↦ parse_length src src_length (byte % 16) f
]

-- One round at an offset below `srcLength`.
unfoldable pub parse_round : Memory → ℕ → ℕ → Round
parse_round src src_length offset =
    if src offset == 0xff
    then (if ltb (src_length - offset) 2 then bad else payload (offset + 1))
    else parse_fields src src_length (src offset) offset

-- The result, the offset of the payload if there is one, the options and the allocator.
abbrev pub Parsed : Type 0
Parsed = CoapResult × Option ℕ × List CoapOption × Mem

abbrev pub is_ok : CoapResult → Bool
is_ok ok = true
is_ok _ = false

-- The loop, on fuel: `none` is a loop that has not ended.
unfoldable pub parse_loop :
    Platform → Memory → ℕ → ℕ → ℕ → ℕ → List CoapOption → Mem → Option Parsed
parse_loop p src src_length zero offset last opts m = none
parse_loop p src src_length (suc fuel) offset last opts m = elim (ltb offset src_length) [
  | false ↦ some (ok, none, opts, m)
  | true ↦ elim (parse_round src src_length offset) [
    | bad ↦ some (parse_message_format_error, none, opts, m)
    | payload at ↦ some (ok, some at, opts, m)
    | option delta at len ↦
        let number = u16 (delta + last) in
        let (r, opts', m') = append_option_to_list p opts number (read src at len) m in
        elim (is_ok r) [
          | true ↦ parse_loop p src src_length fuel (u16 (at + len)) number opts' m'
          | false ↦ some (r, none, opts', m')
        ]
  ]
]

-- parse_OptionsFromRaw. A round takes a byte at least, so `srcLength + 1` rounds end the loop
-- unless `offset` wraps around.
unfoldable pub parse_options_from_raw :
    Platform → Memory → ℕ → List CoapOption → Mem → Option Parsed
parse_options_from_raw p src src_length (o ∷ os) m = some (err_argument, none, o ∷ os, m)
parse_options_from_raw p src src_length [] m =
    if src_length == 0
    then some (ok, none, [], m)
    else parse_loop p src src_length (src_length + 1) 0 0 [] m
