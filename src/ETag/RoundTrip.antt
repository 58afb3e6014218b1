-- ===== src/ETag/RoundTrip.antt =====
-- A 64-bit ETag that was added is read back.
use lobaro_coap.Common.{
  ℕ, zero, suc, ◌+◌, ◌*◌, ◌/◌, ◌%◌, ◌^◌, ◌<◌, ◌≤◌, ◌≡◌, ◌∙◌, refl, ap, true, List, [], ◌∷◌, ◌==◌,
  arith, length, Bool-cases, inl, inr, bit_or,
}
use lobaro_coap.Common.Bits.{shift-bit_or}
use lobaro_coap.Platform.{ok, Platform, Mem}
use lobaro_coap.OptionList.{CoapOption, new_option}
use lobaro_coap.OptionList.Order.{append_option_to_list-insert_option, insert_option}
use lobaro_coap.OptionList.Lookup.{count_of}
use native.Mathlib.Nat.{pow-suc}
use lobaro_coap.ETag.{
  opt_num_etag, etag_loop, etag_value, add64_bit_etag_option_to_msg, get_etag_option_from_msg,
  get64_bit_etag_option_from_msg,
}

length-etag_loop :
    (n v : ℕ) → (1 ≤ length (etag_loop (suc n) v)) × (length (etag_loop (suc n) v) ≤ suc n)
unfolding etag_loop
length-etag_loop zero v = ground arith
length-etag_loop (suc n) v = let rest = length-etag_loop n (v / 2 ^ 8) in ground (arith, rest)

next_power : (i : ℕ) → 2 ^ ((i + 1) * 8) ≡ 256 * 2 ^ (i * 8)
next_power i =
    let split : (i + 1) * 8 ≡ suc (7 + i * 8) = omega arith in
    rw (split) (
      ground (
        arith,
        pow-suc 2 (7 + i * 8),
        pow-suc 2 (6 + i * 8),
        pow-suc 2 (5 + i * 8),
        pow-suc 2 (4 + i * 8),
        pow-suc 2 (3 + i * 8),
        pow-suc 2 (2 + i * 8),
        pow-suc 2 (1 + i * 8),
        pow-suc 2 (i * 8),
      ))

-- One round: the byte comes above what was read.
one_round : (i acc b : ℕ) → acc < 2 ^ (i * 8) → b < 256 → b * 2 ^ (i * 8) + acc < 2 ^ ((i + 1) * 8)
one_round i acc b small byte = rw (next_power i) (grind arith)

regroup : (q b s acc : ℕ) → q * (256 * s) + (b * s + acc) ≡ (256 * q + b) * s + acc
regroup q b s acc = grind arith

etag_value-etag_loop :
    (n i acc v : ℕ)
    → acc < 2 ^ (i * 8)
    → v < 2 ^ (suc n * 8)
    → etag_value i acc (etag_loop (suc n) v) ≡ v * 2 ^ (i * 8) + acc
unfolding etag_loop etag_value
etag_value-etag_loop zero i acc v small fits =
    let whole : v % 256 ≡ v = omega arith in
    let last : (v / 2 ^ 8 == 0) ≡ true = ground arith in
    rw (last, etag_loop, whole) (shift-bit_or (i * 8) acc v small)
etag_value-etag_loop (suc n) i acc v small fits = elim (Bool-cases (v / 2 ^ 8 == 0)) [
  | inl last ↦
      let whole : v % 256 ≡ v = ground arith in
      rw (last, etag_loop, whole) (shift-bit_or (i * 8) acc v small)
  | inr more ↦
      let power : 2 ^ (suc (suc n) * 8) ≡ 256 * 2 ^ (suc n * 8) =
        let same : suc (suc n) ≡ suc n + 1 = omega arith in
        ap (λ (k : ℕ). 2 ^ (k * 8)) same ∙ next_power (suc n) in
      let quotient : v / 256 < 2 ^ (suc n * 8) = omega arith in
      let above = one_round i acc (v % 256) small (omega arith) in
      let rest =
        etag_value-etag_loop n (i + 1) (v % 256 * 2 ^ (i * 8) + acc) (v / 256) above quotient in
      let whole : 256 * (v / 256) + v % 256 ≡ v = omega arith in
      let later = etag_loop (suc n) (v / 256) in
      let step : etag_value i acc (etag_loop (suc (suc n)) v)
          ≡ etag_value (i + 1) (bit_or acc (v % 256 * 2 ^ (i * 8))) later =
        rw (more, etag_loop) refl in
      step
      ∙ ap (λ (a : ℕ). etag_value (i + 1) a later) (shift-bit_or (i * 8) acc (v % 256) small)
      ∙ rest
      ∙ ap (λ (t : ℕ). v / 256 * t + (v % 256 * 2 ^ (i * 8) + acc)) (next_power i)
      ∙ regroup (v / 256) (v % 256) (2 ^ (i * 8)) acc
      ∙ ap (λ (t : ℕ). t * 2 ^ (i * 8) + acc) whole
]

-- The first ETag option of a list that has no other.
etag-insert_option :
    (os : List CoapOption) (value : List ℕ)
    → count_of opt_num_etag os ≡ 0
    → 1 ≤ length value
    → length value ≤ 8
    → get_etag_option_from_msg (insert_option (new_option opt_num_etag value) os) ≡ (ok, value)
unfolding get_etag_option_from_msg insert_option
etag-insert_option [] value none_there some_there short = ground (arith, some_there, short)
etag-insert_option (o ∷ os) value none_there some_there short =
    let rest =
      λ (n : count_of opt_num_etag os ≡ 0). etag-insert_option os value n some_there short in
    ground (arith, none_there, some_there, short, rest)

-- In a list without an ETag option, and where `malloc` grants the node, Add64BitETagOptionToMsg
-- succeeds for every value of 64 bits, and Get64BitETagOptionFromMsg then reads that value.
pub add64_bit_etag_option_to_msg-get64 :
    (p : Platform) (os : List CoapOption) (val old : ℕ) (m : Mem)
    → p.grants m.mallocs (p.sizeof_option + length (etag_loop 8 val)) ≡ true
    → val < 2 ^ 64
    → count_of opt_num_etag os ≡ 0
    → let (r, os', m') = add64_bit_etag_option_to_msg p os val m in
      (r ≡ ok) × (get64_bit_etag_option_from_msg os' old ≡ (ok, val))
unfolding add64_bit_etag_option_to_msg get64_bit_etag_option_from_msg
add64_bit_etag_option_to_msg-get64 p os val old m g small none_there =
    let (some_there, short) = length-etag_loop 7 val in
    let found = etag-insert_option os (etag_loop 8 val) none_there some_there short in
    let value = etag_value-etag_loop 7 0 0 val (omega arith) small in
    let fits : val % 2 ^ 64 ≡ val = omega arith in
    rw (fits, append_option_to_list-insert_option p os opt_num_etag (etag_loop 8 val) m g, found)
      (refl, ap (λ (t : ℕ). (ok, t)) (value ∙ omega arith))
