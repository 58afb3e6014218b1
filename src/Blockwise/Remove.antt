-- ===== src/Blockwise/Remove.antt =====
-- RemoveAllBlockOptionsFromMsg ends and removes every option of its type.
use lobaro_coap.Common.{
  ℕ, zero, suc, ◌+◌, ◌-◌, ◌≤◌, ◌<◌, ◌≡◌, ◌∙◌, refl, ap, Bool, true, false, List, [], ◌∷◌, none,
  some, if◌then◌else◌, ◌==◌, arith, length, inl, inr, Bool-cases, Option-cases,
}
use mathlib.Core.Option.{some-injective}
use lobaro_coap.Platform.{ok, not_found, Mem, free}
use lobaro_coap.OptionList.{CoapOption, remove_option_from_list}
use lobaro_coap.OptionList.Lookup.{count_of}
use lobaro_coap.Observe.{position_of}
use lobaro_coap.Observe.Update.{position_of-none, position_of-some}
use lobaro_coap.Blockwise.{remove_all_loop, remove_all_block_options_from_msg}

-- The options of other numbers.
abbrev pub others : ℕ → List CoapOption → List CoapOption
others number [] = []
others number (o ∷ os) = if o.number == number then others number os else o ∷ others number os

others-none : (number : ℕ) (os : List CoapOption) → count_of number os ≡ 0 → others number os ≡ os
others-none number [] e = refl
others-none number (o ∷ os) e = ground (arith, others-none number os)

others-remove :
    (number : ℕ) (os : List CoapOption) (i : ℕ) (m : Mem)
    → position_of number os ≡ some i
    → (others number (remove_option_from_list os i m).0 ≡ others number os)
      × ((remove_option_from_list os i m).1.live ≡ m.live - 1)
unfolding position_of remove_option_from_list free
others-remove number [] i m e = absurd (cc e)
others-remove number (o ∷ os) i m e = elim (Bool-cases (o.number == number)) [
  | inl here ↦
      let first : some 0 ≡ some i = rw (here, position_of) at e in
      rw (← some-injective 0 i first) (rw here refl, refl)
  | inr there ↦ elim (Option-cases (position_of number os)) [
    | inl rest ↦ absurd (let no : none ≡ some i = rw (there, rest, position_of) at e in cc no)
    | inr (j, rest) ↦
        let later : some (suc j) ≡ some i = rw (there, rest, position_of) at e in
        let (same, live) = others-remove number os j m rest in
        rw (← some-injective (suc j) i later) (rw (there, same) refl, live)
  ]
]

count_of-length : (number : ℕ) (os : List CoapOption) → count_of number os ≤ length os
count_of-length number [] = omega arith
count_of-length number (o ∷ os) = ground (arith, count_of-length number os)

-- Whether the loop has found an option, in this round or before.
abbrev found_after : Bool → ℕ → Bool
found_after found zero = found
found_after found (suc n) = true

remove_all_loop-others :
    (fuel : ℕ) (os : List CoapOption) (number : ℕ) (found : Bool) (m : Mem)
    → count_of number os < fuel
    → (m' : Mem) × (remove_all_loop fuel os number found m
        ≡ some (found_after found (count_of number os), others number os, m'))
      × (m'.live ≡ m.live - count_of number os)
unfolding remove_all_loop
remove_all_loop-others zero os number found m enough = absurd (omega arith)
remove_all_loop-others (suc fuel) os number found m enough =
    elim (Option-cases (position_of number os)) [
      | inl absent ↦
          let none_left = position_of-none number os absent in
          (
            m,
            rw (absent, remove_all_loop, none_left, others-none number os none_left) refl,
            omega (arith, none_left),
          )
      | inr (i, present) ↦
          let fewer = (position_of-some number os i m present).0 in
          let (same, live) = others-remove number os i m present in
          let (m', e, live') =
            remove_all_loop-others fuel (remove_option_from_list os i m).0 number true
              (remove_option_from_list os i m).1 (omega (arith, fewer, enough)) in
          (
            m',
            rw (present, remove_all_loop, ← fewer, ← same)
                (e
                  ∙ ap (λ b. some (b, others number (remove_option_from_list os i m).0, m'))
                      (still_found (count_of number (remove_option_from_list os i m).0) found)),
            omega (arith, live, live', fewer),
          )
    ]
  where
    still_found : (n : ℕ) (f : Bool) → found_after true n ≡ found_after f (suc n)
    still_found zero f = refl
    still_found (suc n) f = refl

-- RemoveAllBlockOptionsFromMsg ends on every list: what is left are the options of other numbers,
-- each removed one is freed, and the result is COAP_OK where there was one and COAP_NOT_FOUND where
-- there was none.
pub remove_all_block_options_from_msg-others :
    (os : List CoapOption) (type : ℕ) (m : Mem)
    → (m' : Mem) × (remove_all_block_options_from_msg os type m
        ≡ some (if count_of type os == 0 then not_found else ok, others type os, m'))
      × (m'.live ≡ m.live - count_of type os)
unfolding remove_all_block_options_from_msg
remove_all_block_options_from_msg-others os type m =
    let (m', e, live) =
      remove_all_loop-others (length os + 1) os type false m
        (omega (arith, count_of-length type os)) in
    (
      m',
      rw (e, remove_all_block_options_from_msg)
          (ap (λ r. some (r, others type os, m')) (result (count_of type os))),
      live,
    )
  where
    result :
        (n : ℕ)
        → (if found_after false n then ok else not_found) ≡ (if n == 0 then not_found else ok)
    result zero = refl
    result (suc n) = ground arith
