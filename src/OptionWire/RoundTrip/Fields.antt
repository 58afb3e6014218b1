-- ===== src/OptionWire/RoundTrip/Fields.antt =====
-- One option: its first byte, its extended fields and its value.
use lobaro_coap.Common.{
  ℕ, ◌+◌, ◌-◌, ◌*◌, ◌/◌, ◌%◌, ◌≤◌, ◌<◌, ◌≡◌, refl, bit_or, false, List, [], ◌∷◌, ◌++◌, some, ◌==◌,
  arith, length, length-append,
}
use mathlib.Core.Path.{subst}
use lobaro_coap.Common.Bits.{bit_or-shift}
use lobaro_coap.OptionList.{CoapOption}
use lobaro_coap.OptionWire.{
  u16, option_nibble, extended_bytes, pack_option, Memory, read, extended_field, option,
  check_length, parse_length, parse_fields, parse_round,
}

-- The memory holds the bytes from an offset on.
abbrev pub Holds : Memory → ℕ → List ℕ → Type 0
Holds src at [] = Unit {0}
Holds src at (b ∷ bs) = (src at ≡ b) × Holds src (at + 1) bs

pub Holds-split :
    (src : Memory) (at : ℕ) (xs ys : List ℕ)
    → Holds src at (xs ++ ys)
    → Holds src at xs × Holds src (at + length xs) ys
Holds-split src at [] ys h = (tt, subst (λ k. Holds src k ys) (omega arith) h)
Holds-split src at (x ∷ xs) ys h =
    let (hx, hy) = Holds-split src (at + 1) xs ys h.1 in
    ((h.0, hx), subst (λ k. Holds src k ys) (omega arith) hy)

pub read-Holds :
    (src : Memory) (at : ℕ) (xs : List ℕ) → Holds src at xs → read src at (length xs) ≡ xs
read-Holds src at [] h = refl
read-Holds src at (x ∷ xs) h = ground (arith, read-Holds src (at + 1) xs)

option_nibble-bound : (v : ℕ) → option_nibble v ≤ 14
unfolding option_nibble
option_nibble-bound v = ground arith

-- An extended field reads back the value that it encodes.
pub extended_field-extended_bytes :
    (src : Memory) (offset v : ℕ)
    → v < 65536
    → offset + 2 < 65536
    → Holds src offset (extended_bytes v)
    → extended_field src offset (option_nibble v) ≡ some (v, offset + length (extended_bytes v))
unfolding extended_field option_nibble extended_bytes
extended_field-extended_bytes src offset v hv ho h =
    ground (arith, bit_or-shift 8 ((v - 269) / 256) ((v - 269) % 256))

-- The two halves of the first byte.
first_byte :
    (d l : ℕ)
    → d ≤ 14
    → l ≤ 14
    → (bit_or (d * 16) l / 16 ≡ d)
      × (bit_or (d * 16) l % 16 ≡ l)
      × ((bit_or (d * 16) l == 0xff) ≡ false)
first_byte d l hd hl = ground (arith, bit_or-shift 4 d l)

-- Where the value of an option begins that is packed at `at`.
abbrev pub value_offset : ℕ → ℕ → CoapOption → ℕ
value_offset at last o =
    at + 1 + length (extended_bytes (o.number - last)) + length (extended_bytes (length o.value))

delta_no_wrap :
    (last : ℕ) (o : CoapOption)
    → last ≤ o.number
    → o.number < 65536
    → u16 (o.number + 65536 - last) ≡ o.number - last
delta_no_wrap last o h k = omega arith

length-extended_bytes_le : (v : ℕ) → length (extended_bytes v) ≤ 2
unfolding extended_bytes
length-extended_bytes_le v = ground arith

-- The parts of a packed option in memory.
pub pack_option-parts :
    (src : Memory) (at last : ℕ) (o : CoapOption)
    → last ≤ o.number
    → o.number < 65536
    → Holds src at (pack_option last o)
    → (src at ≡ bit_or (option_nibble (o.number - last) * 16) (option_nibble (length o.value)))
      × Holds src (at + 1) (extended_bytes (o.number - last))
      × Holds src
          (at + 1 + length (extended_bytes (o.number - last)))
          (extended_bytes (length o.value))
      × Holds src (value_offset at last o) o.value
unfolding pack_option
pack_option-parts src at last o h k holds =
    let (first, rest) = (rw (delta_no_wrap last o h k) at holds) in
    let (delta, rest') = Holds-split src (at + 1) (extended_bytes (o.number - last)) _ rest in
    let (len, value) = Holds-split src _ (extended_bytes (length o.value)) o.value rest' in
    (first, delta, len, value)

pub length-pack_option_offset :
    (at last : ℕ) (o : CoapOption)
    → last ≤ o.number
    → o.number < 65536
    → at + length (pack_option last o) ≡ value_offset at last o + length o.value
unfolding pack_option
length-pack_option_offset at last o h k = rw (delta_no_wrap last o h k) (
    omega (
      arith,
      length-append (extended_bytes (o.number - last)) (extended_bytes (length o.value) ++ o.value),
      length-append (extended_bytes (length o.value)) o.value,
    ))

-- A round of the parser reads back one packed option.
pub parse_round-pack_option :
    (src : Memory) (src_length at last : ℕ) (o : CoapOption)
    → last ≤ o.number
    → o.number < 65536
    → length o.value ≤ 1034
    → value_offset at last o + length o.value ≤ src_length
    → src_length ≤ 65531
    → Holds src at (pack_option last o)
    → parse_round src src_length at
      ≡ option (o.number - last) (value_offset at last o) (length o.value)
unfolding parse_round parse_fields parse_length check_length
parse_round-pack_option src src_length at last o h k len fits small holds =
    let (first, delta, ext, value) = pack_option-parts src at last o h k holds in
    let fb =
      first_byte (option_nibble (o.number - last)) (option_nibble (length o.value))
        (option_nibble-bound _) (option_nibble-bound _) in
    ground (
      arith,
      first,
      fb,
      length-extended_bytes_le (o.number - last),
      extended_field-extended_bytes src (at + 1) (o.number - last) (omega arith) (omega arith)
          delta,
      extended_field-extended_bytes src (at + 1 + length (extended_bytes (o.number - last)))
          (length o.value) (omega arith) (omega (arith, length-extended_bytes_le (o.number - last)))
          ext,
    )
