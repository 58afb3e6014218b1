-- ===== src/Observe/Update.antt =====
-- A sequence number that was put into a message is read from it.
use lobaro_coap.Common.{
  ℕ, zero, suc, ◌+◌, ◌*◌, ◌/◌, ◌%◌, ◌^◌, ◌≤◌, ◌<◌, ◌≡◌, ◌∙◌, refl, ap, bit_or, true, List, [], ◌∷◌,
  Option, none, some, ◌==◌, arith, length, inl, inr, Bool-cases, Option-cases,
}
use mathlib.Core.Option.{some-injective}
use lobaro_coap.Common.Bits.{bit_or-shift}
use lobaro_coap.Platform.{CoapResult, ok, not_found, Platform, Mem, Plentiful, free}
use lobaro_coap.OptionList.{CoapOption, find_option_by_number, remove_option_from_list}
use lobaro_coap.OptionList.Order.{AscendsFrom}
use lobaro_coap.OptionList.Lookup.{append_option_to_list-find, count_of, find-count_of}
use lobaro_coap.Observe.{
  opt_num_observe, observe_bytes, add_observe_option_to_msg, position_of,
  remove_observe_option_from_msg, update_observe_option_in_msg, observe_value,
  get_observe_option_from_msg,
}

three_bytes :
    (a b c : ℕ)
    → b < 256
    → c < 256
    → bit_or (bit_or (a * 2 ^ 16) (b * 2 ^ 8)) c ≡ a * 65536 + b * 256 + c
three_bytes a b c hb hc =
    let high : bit_or (a * 2 ^ 16) (b * 2 ^ 8) ≡ (a * 256 + b) * 2 ^ 8 =
      omega (arith, bit_or-shift 16 a (b * 2 ^ 8) (omega (arith, hb))) in
    rw high (omega (arith, bit_or-shift 8 (a * 256 + b) c (omega (arith, hc))))

observe_value-observe_bytes : (val : ℕ) → observe_value (observe_bytes val) ≡ (ok, val % 2 ^ 24)
unfolding observe_value observe_bytes
observe_value-observe_bytes val = ground (
  arith,
  bit_or-shift 8 (val / 2 ^ 8 % 256) (val % 256),
  three_bytes (val / 2 ^ 16 % 256) (val / 2 ^ 8 % 256) (val % 256),
)

abbrev value_found : Option CoapOption → CoapResult × ℕ
value_found none = (not_found, 0)
value_found (some o) = observe_value o.value

get_observe-find :
    (os : List CoapOption)
    → get_observe_option_from_msg os ≡ value_found (find_option_by_number os opt_num_observe)
unfolding get_observe_option_from_msg find_option_by_number
get_observe-find [] = refl
get_observe-find (o ∷ os) = ground (arith, get_observe-find os)

-- In a list with no observe option, where `malloc` grants the node.
pub add_observe_option_to_msg-get :
    (p : Platform) (os : List CoapOption) (val : ℕ) (m : Mem)
    → p.grants m.mallocs (p.sizeof_option + length (observe_bytes val)) ≡ true
    → AscendsFrom 0 os
    → find_option_by_number os opt_num_observe ≡ none
    → let (r, os', m') = add_observe_option_to_msg p os val m in
      (r ≡ ok) × (get_observe_option_from_msg os' ≡ (ok, val % 2 ^ 24))
unfolding add_observe_option_to_msg
add_observe_option_to_msg-get p os val m g asc fresh =
    let (good, found, mem) =
      append_option_to_list-find p os opt_num_observe (observe_bytes val) m g asc fresh in
    (good, rw (get_observe-find _, found) (observe_value-observe_bytes val))

pub position_of-none :
    (number : ℕ) (os : List CoapOption) → position_of number os ≡ none → count_of number os ≡ 0
unfolding position_of
position_of-none number [] e = refl
position_of-none number (o ∷ os) e = elim (Bool-cases (o.number == number)) [
  | inl here ↦ absurd (let no : some 0 ≡ none = rw (here, position_of) at e in cc no)
  | inr there ↦ elim (Option-cases (position_of number os)) [
    | inl rest ↦ ground (arith, there, position_of-none number os rest)
    | inr (i, rest) ↦
        absurd (let no : some (suc i) ≡ none = rw (there, rest, position_of) at e in cc no)
  ]
]

pub position_of-some :
    (number : ℕ) (os : List CoapOption) (i : ℕ) (m : Mem)
    → position_of number os ≡ some i
    → (suc (count_of number (remove_option_from_list os i m).0) ≡ count_of number os)
      × ((remove_option_from_list os i m).1.mallocs ≡ m.mallocs)
unfolding position_of remove_option_from_list free
position_of-some number [] i m e = absurd (cc e)
position_of-some number (o ∷ os) zero m e = elim (Bool-cases (o.number == number)) [
  | inl here ↦ (ground (arith, here), refl)
  | inr there ↦ absurd (elim (Option-cases (position_of number os)) [
    | inl rest ↦ let no : none ≡ some 0 = rw (there, rest, position_of) at e in cc no
    | inr (j, rest) ↦
        let no : some (suc j) ≡ some 0 = rw (there, rest, position_of) at e in
        ground (arith, some-injective (suc j) 0 no)
  ])
]
position_of-some number (o ∷ os) (suc i) m e = elim (Bool-cases (o.number == number)) [
  | inl here ↦
      let no : some 0 ≡ some (suc i) = rw (here, position_of) at e in
      absurd (omega (arith, some-injective 0 (suc i) no))
  | inr there ↦ elim (Option-cases (position_of number os)) [
    | inl rest ↦ absurd (let no : none ≡ some (suc i) = rw (there, rest, position_of) at e in cc no)
    | inr (j, rest) ↦
        let same : some (suc j) ≡ some (suc i) = rw (there, rest, position_of) at e in
        ground (
          arith,
          there,
          position_of-some number os i m
              (rest ∙ ap some (omega (arith, some-injective (suc j) (suc i) same))),
        )
  ]
]

AscendsFrom-mono :
    (low low' : ℕ) (os : List CoapOption) → low ≤ low' → AscendsFrom low' os → AscendsFrom low os
AscendsFrom-mono low low' [] h a = tt
AscendsFrom-mono low low' (o ∷ os) h a = (omega (arith, h, a.0), a.1)

remove_option_from_list-AscendsFrom :
    (low : ℕ) (os : List CoapOption) (i : ℕ) (m : Mem)
    → AscendsFrom low os
    → AscendsFrom low (remove_option_from_list os i m).0
unfolding remove_option_from_list
remove_option_from_list-AscendsFrom low [] i m a = a
remove_option_from_list-AscendsFrom low (o ∷ os) zero m a = AscendsFrom-mono low o.number os a.0 a.1
remove_option_from_list-AscendsFrom low (o ∷ os) (suc i) m a =
    (a.0, remove_option_from_list-AscendsFrom o.number os i m a.1)

-- In an ascending list with at most one observe option, and where `malloc` refuses nothing,
-- UpdateObserveOptionInMsg succeeds, and GetObserveOptionFromMsg then reads the lowest 24 bits of
-- the number that was put in.
pub update_observe_option_in_msg-get :
    (p : Platform) (os : List CoapOption) (val : ℕ) (m : Mem)
    → Plentiful p
    → AscendsFrom 0 os
    → count_of opt_num_observe os ≤ 1
    → let (r, os', m') = update_observe_option_in_msg p os val m in
      (r ≡ ok) × (get_observe_option_from_msg os' ≡ (ok, val % 2 ^ 24))
unfolding update_observe_option_in_msg remove_observe_option_from_msg
update_observe_option_in_msg-get p os val m plenty asc single =
    elim (Option-cases (position_of opt_num_observe os)) [
      | inl absent ↦
          rw (absent, update_observe_option_in_msg, remove_observe_option_from_msg)
            (add_observe_option_to_msg-get p os val m (plenty _ _) asc
              (find-count_of opt_num_observe os (position_of-none opt_num_observe os absent)))
      | inr (i, present) ↦
          rw (present, update_observe_option_in_msg, remove_observe_option_from_msg)
            (add_observe_option_to_msg-get p (remove_option_from_list os i m).0 val
              (remove_option_from_list os i m).1 (plenty _ _)
              (remove_option_from_list-AscendsFrom 0 os i m asc)
              (find-count_of opt_num_observe (remove_option_from_list os i m).0
                (omega (arith, single, position_of-some opt_num_observe os i m present))))
    ]
