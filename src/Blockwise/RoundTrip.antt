-- ===== src/Blockwise/RoundTrip.antt =====
-- A block option that was put into a message is read from it.
use lobaro_coap.Common.{
  ℕ, zero, suc, ◌+◌, ◌*◌, ◌/◌, ◌%◌, ◌^◌, ◌≤◌, ◌<◌, ◌≡◌, ◌⊎◌, refl, bit_or, Bool, true, false, ◌&&◌,
  not, List, [], ◌∷◌, Option, none, some, if◌then◌else◌, ltb, ◌==◌, arith, length, inl, inr,
  Bool-cases,
}
use lobaro_coap.Common.Bits.{bit_or-shift}
use lobaro_coap.Platform.{CoapResult, ok, err_not_found, Platform, Mem}
use lobaro_coap.OptionList.{CoapOption, find_option_by_number}
use lobaro_coap.OptionList.Order.{AscendsFrom}
use lobaro_coap.OptionList.Lookup.{append_option_to_list-find}
use lobaro_coap.Blockwise.{
  block_1, block_2, BlockwiseOption, highest_bit, block_value, block_bytes, add_blk_option_to_msg,
  block_of_value, block_of_bytes, get_block_option_from_msg,
}

highest_bit-power : (szx : ℕ) → szx ≤ 6 → highest_bit 7 (2 ^ (szx + 4) / 2 ^ 4 % 256) ≡ szx
unfolding highest_bit
highest_bit-power zero h = refl
highest_bit-power (suc zero) h = refl
highest_bit-power (suc (suc zero)) h = refl
highest_bit-power (suc (suc (suc zero))) h = refl
highest_bit-power (suc (suc (suc (suc zero)))) h = refl
highest_bit-power (suc (suc (suc (suc (suc zero))))) h = refl
highest_bit-power (suc (suc (suc (suc (suc (suc zero)))))) h = refl
highest_bit-power (suc (suc (suc (suc (suc (suc (suc n))))))) h = absurd (omega arith)

low_bits :
    (more : Bool) (szx : ℕ)
    → szx ≤ 6
    → bit_or (if more then 8 else 0) szx ≡ (if more then 8 else 0) + szx
low_bits false szx h = omega (arith, bit_or-shift 3 0 szx (omega arith))
low_bits true szx h = omega (arith, bit_or-shift 3 1 szx (omega arith))

-- A size that the wire format has, by its exponent.
abbrev pub sized : ℕ → ℕ → Bool → ℕ → BlockwiseOption
sized type szx more num = record {
  type = type;
  block_size = 2 ^ (szx + 4);
  more_flag = more;
  block_num = num;
}

block_value-sized :
    (type szx : ℕ) (more : Bool) (num : ℕ)
    → szx ≤ 6
    → num < 2 ^ 20
    → block_value (sized type szx more num) ≡ num * 16 + ((if more then 8 else 0) + szx)
unfolding block_value
block_value-sized type szx more num hs hn =
    let shifted : num * 2 ^ 4 % 2 ^ 32 ≡ num * 2 ^ 4 = omega (arith, hn) in
    rw (highest_bit-power szx hs, low_bits more szx hs, shifted)
      (bit_or-shift 4 num _ (ground (arith, hs)))

power_is_16 : (szx : ℕ) → szx ≤ 6 → (2 ^ (szx + 4) == 16) ≡ (szx == 0)
power_is_16 zero h = refl
power_is_16 (suc zero) h = refl
power_is_16 (suc (suc zero)) h = refl
power_is_16 (suc (suc (suc zero))) h = refl
power_is_16 (suc (suc (suc (suc zero)))) h = refl
power_is_16 (suc (suc (suc (suc (suc zero))))) h = refl
power_is_16 (suc (suc (suc (suc (suc (suc zero)))))) h = refl
power_is_16 (suc (suc (suc (suc (suc (suc (suc n))))))) h = absurd (omega arith)

block_of_value-sized :
    (old : BlockwiseOption) (szx : ℕ) (more : Bool) (num : ℕ)
    → szx ≤ 6
    → block_of_value old (num * 16 + ((if more then 8 else 0) + szx))
      ≡ (ok, sized old.type szx more num)
unfolding block_of_value
block_of_value-sized old szx false num hs =
    let exponent : (num * 16 + (0 + szx)) % 8 ≡ szx = omega (arith, hs) in
    let number : (num * 16 + (0 + szx)) / 2 ^ 4 ≡ num = omega (arith, hs) in
    let flag : ((num * 16 + (0 + szx)) / 8 % 2 == 1) ≡ false = ground (arith, hs) in
    let legal : (szx == 7) ≡ false = ground (arith, hs) in rw (exponent, number, flag, legal) refl
block_of_value-sized old szx true num hs =
    let exponent : (num * 16 + (8 + szx)) % 8 ≡ szx = omega (arith, hs) in
    let number : (num * 16 + (8 + szx)) / 2 ^ 4 ≡ num = omega (arith, hs) in
    let flag : ((num * 16 + (8 + szx)) / 8 % 2 == 1) ≡ true = ground (arith, hs) in
    let legal : (szx == 7) ≡ false = ground (arith, hs) in rw (exponent, number, flag, legal) refl

-- One to three bytes join to the value that they were cut from.
two_bytes : (v : ℕ) → v < 65536 → bit_or (v / 2 ^ 8 % 256 * 2 ^ 8) (v % 256) ≡ v
two_bytes v h = omega (arith, bit_or-shift 8 (v / 2 ^ 8 % 256) (v % 256) (omega arith))

three_bytes :
    (v : ℕ)
    → v < 16777216
    → bit_or (bit_or (v / 2 ^ 16 % 256 * 2 ^ 16) (v / 2 ^ 8 % 256 * 2 ^ 8)) (v % 256) ≡ v
three_bytes v h =
    let high : bit_or (v / 2 ^ 16 % 256 * 2 ^ 16) (v / 2 ^ 8 % 256 * 2 ^ 8) ≡ v / 2 ^ 8 * 2 ^ 8 =
      omega (arith, bit_or-shift 16 (v / 2 ^ 16 % 256) (v / 2 ^ 8 % 256 * 2 ^ 8) (omega arith)) in
    rw high (omega (arith, bit_or-shift 8 (v / 2 ^ 8) (v % 256) (omega arith)))

block_of_bytes-value :
    (old : BlockwiseOption) (szx : ℕ) (more : Bool) (num v : ℕ)
    → szx ≤ 6
    → num < 2 ^ 20
    → v ≡ num * 16 + ((if more then 8 else 0) + szx)
    → block_of_value old v ≡ (ok, sized old.type szx more num)
    → block_of_bytes old (
        if ltb num 16
        then v % 256 ∷ []
        else (if ltb num 4096
            then v / 2 ^ 8 % 256 ∷ v % 256 ∷ []
            else v / 2 ^ 16 % 256 ∷ v / 2 ^ 8 % 256 ∷ v % 256 ∷ []))
      ≡ (ok, sized old.type szx more num)
unfolding block_of_bytes
block_of_bytes-value old szx more num v hs hn e good =
    let small : (if more then 8 else 0) + szx < 16 = ground (arith, hs) in
    elim (Bool-cases (ltb num 16)) [
      | inl one ↦ let same : v % 256 ≡ v = ground (arith, one, e, small) in rw (one, same) good
      | inr more_bytes ↦ elim (Bool-cases (ltb num 4096)) [
        | inl two ↦ rw (more_bytes, two, two_bytes v (ground (arith, two, e, small))) good
        | inr three ↦ rw (more_bytes, three, three_bytes v (omega (arith, hn, e, small))) good
      ]
    ]

block_of_bytes-block_bytes :
    (old : BlockwiseOption) (szx : ℕ) (more : Bool) (num : ℕ)
    → szx ≤ 6
    → num < 2 ^ 20
    → block_of_bytes old (block_bytes (sized old.type szx more num))
      ≡ (ok, sized old.type szx more num)
unfolding block_bytes
block_of_bytes-block_bytes old szx more num hs hn =
    let bytes =
      block_of_bytes-value old szx more num (block_value (sized old.type szx more num)) hs hn
        (block_value-sized old.type szx more num hs hn)
        (rw (block_value-sized old.type szx more num hs hn)
          (block_of_value-sized old szx more num hs)) in
    rw (power_is_16 szx hs) (zero_or_bytes num szx more _ bytes)
  where
    zero_or_bytes :
        (num szx : ℕ) (more : Bool) (bs : List ℕ)
        → block_of_bytes old bs ≡ (ok, sized old.type szx more num)
        → block_of_bytes old (if num == 0 && (szx == 0 && not more) then [] else bs)
          ≡ (ok, sized old.type szx more num)
    zero_or_bytes zero zero false bs e = unfold block_of_bytes in refl
    zero_or_bytes zero zero true bs e = e
    zero_or_bytes zero (suc szx) more bs e =
        let differs : (suc szx == 0) ≡ false = ground arith in rw differs e
    zero_or_bytes (suc num) szx more bs e =
        let differs : (suc num == 0) ≡ false = ground arith in rw differs e

abbrev block_found : ℕ → BlockwiseOption → Option CoapOption → CoapResult × BlockwiseOption
block_found type old none = (err_not_found, old)
block_found type old (some o) = block_of_bytes (record old { type = type }) o.value

get_block-find :
    (os : List CoapOption) (type : ℕ) (old : BlockwiseOption)
    → get_block_option_from_msg os type old ≡ block_found type old (find_option_by_number os type)
unfolding get_block_option_from_msg find_option_by_number
get_block-find [] type old = refl
get_block-find (o ∷ os) type old = ground (arith, get_block-find os type old)

-- In an ascending list with no such option yet, and where `malloc` grants the node,
-- AddBlkOptionToMsg succeeds with a Block1 or Block2 option of one of the seven sizes and a number
-- of 20 bits, and GetBlockOptionFromMsg then gives back its size, its more flag and its number.
pub add_blk_option_to_msg-get :
    (p : Platform) (os : List CoapOption) (type szx : ℕ) (more : Bool) (num : ℕ) (m : Mem)
    (old : BlockwiseOption)
    → (type ≡ block_1) ⊎ (type ≡ block_2)
    → szx ≤ 6
    → num < 2 ^ 20
    → p.grants m.mallocs (p.sizeof_option + length (block_bytes (sized type szx more num))) ≡ true
    → AscendsFrom 0 os
    → find_option_by_number os type ≡ none
    → let (r, os', m') = add_blk_option_to_msg p os (sized type szx more num) m in
      (r ≡ ok) × (get_block_option_from_msg os' type old ≡ (ok, sized type szx more num))
unfolding add_blk_option_to_msg
add_blk_option_to_msg-get p os type szx more num m old kind hs hn g asc fresh =
    let (good, found, mem) =
      append_option_to_list-find p os type (block_bytes (sized type szx more num)) m g asc fresh in
    let known : (not (type == block_1) && not (type == block_2)) ≡ false = ground (arith, kind) in
    rw known (
      good,
      rw (get_block-find _ type old, found)
          (block_of_bytes-block_bytes (record old { type = type }) szx more num hs hn),
    )
