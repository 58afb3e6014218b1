-- ===== src/OptionWire/Size.antt =====
-- CoAP_NeededMem4PackOptions against pack_OptionsFromList.
use lobaro_coap.Common.{ℕ, ◌+◌, ◌-◌, ◌<◌, ◌≡◌, List, [], ◌∷◌, ◌++◌, arith, length, length-append}
use lobaro_coap.OptionList.{CoapOption}
use lobaro_coap.OptionWire.{
  u16, extended_bytes, pack_option, pack_options, pack_options_from_list, needed_extension,
  needed_mem_loop, needed_mem_4_pack_options,
}

pub length-extended_bytes : (v : ℕ) → length (extended_bytes v) ≡ needed_extension v
unfolding extended_bytes needed_extension
length-extended_bytes v = ground arith

pub length-pack_option :
    (last : ℕ) (o : CoapOption)
    → length (pack_option last o)
      ≡ 1
        + needed_extension (u16 (o.number + 65536 - last))
        + needed_extension (length o.value)
        + length o.value
unfolding pack_option
length-pack_option last o = omega (
  arith,
  length-append (extended_bytes (u16 (o.number + 65536 - last)))
      (extended_bytes (length o.value) ++ o.value),
  length-append (extended_bytes (length o.value)) o.value,
  length-extended_bytes (length o.value),
  length-extended_bytes (u16 (o.number + 65536 - last)),
)

needed_mem_loop-length :
    (offset last : ℕ) (os : List CoapOption)
    → u16 (needed_mem_loop offset last os) ≡ u16 (offset + length (pack_options last os))
unfolding needed_mem_loop pack_options
needed_mem_loop-length offset last [] = omega arith
needed_mem_loop-length offset last (o ∷ os) =
    let delta = u16 (o.number + 65536 - last) in
    let len = length o.value in
    omega (
      arith,
      needed_mem_loop-length
          (u16 (offset + 1 + needed_extension delta + needed_extension len + len)) o.number os,
      length-append (pack_option last o) (pack_options o.number os),
      length-pack_option last o,
    )

needed_mem_loop-bound :
    (os : List CoapOption) (offset last : ℕ)
    → offset < 65536
    → needed_mem_loop offset last os < 65536
unfolding needed_mem_loop
needed_mem_loop-bound [] offset last h = h
needed_mem_loop-bound (o ∷ os) offset last h = needed_mem_loop-bound os _ o.number (omega arith)

-- For every list of options the estimate is what pack_OptionsFromList reports as written.
pub needed_mem_4_pack_options-pack_options_from_list :
    (os : List CoapOption) → needed_mem_4_pack_options os ≡ (pack_options_from_list os).1
unfolding needed_mem_4_pack_options pack_options_from_list
needed_mem_4_pack_options-pack_options_from_list os =
    omega (arith, needed_mem_loop-length 0 0 os, needed_mem_loop-bound os 0 0)
