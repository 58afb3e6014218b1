-- ===== src/OptionList/Search.antt =====
-- What the searches through an option list find.
use lobaro_coap.Common.{
  ℕ, ◌%◌, ◌<◌, ◌≡◌, ◌≢◌, ◌↔◌, ◌⊎◌, refl, sym, ◌∙◌, true, List, [], ◌∷◌, ◌++◌, Option, none, some,
  if◌then◌else◌, ◌==◌, arith, length, inl, inr, All,
}
use lobaro_coap.OptionList.{
  CoapOption, find_option_by_number, known_options, option_known, check_for_unknown_critical_option,
  bytes_are_equal, options_are_equal,
}
use lobaro_coap.OptionList.Order.{insert_option, AscendsFrom}

find_below :
    (low number : ℕ) (xs : List CoapOption)
    → number < low
    → AscendsFrom low xs
    → find_option_by_number xs number ≡ none
unfolding find_option_by_number
find_below low number [] h a = refl
find_below low number (x ∷ xs) h a = ground (arith, find_below x.number number xs)

-- The first of two results that is there.
abbrev pub first_of_two : Option CoapOption → CoapOption → Option CoapOption
first_of_two none o = some o
first_of_two (some x) o = some x

find-insert_option_low :
    (low : ℕ) (o : CoapOption) (xs : List CoapOption) (number : ℕ)
    → AscendsFrom low xs
    → find_option_by_number (insert_option o xs) number ≡ (
        if o.number == number
        then first_of_two (find_option_by_number xs number) o
        else find_option_by_number xs number)
unfolding find_option_by_number insert_option
find-insert_option_low low o [] number a = refl
find-insert_option_low low o (x ∷ xs) number a =
    ground (arith, find-insert_option_low x.number o xs number a.1, find_below x.number number xs)

-- In an ascending list, CoAP_FindOptionByNumber does not see an option of another number that was
-- inserted, and finds one of its own number only if the list had none before.
pub find_option_by_number-insert_option :
    (o : CoapOption) (xs : List CoapOption) (number : ℕ)
    → AscendsFrom 0 xs
    → find_option_by_number (insert_option o xs) number ≡ (
        if o.number == number
        then first_of_two (find_option_by_number xs number) o
        else find_option_by_number xs number)
find_option_by_number-insert_option o xs number a = find-insert_option_low 0 o xs number a

-- An option that the receiver must understand and does not: odd, and not in KNOWN_OPTIONS.
abbrev pub IsUnknownCritical : CoapOption → Type 0
IsUnknownCritical o = (o.number % 2 ≡ 1) × All (λ k. o.number ≢ k) known_options

IsUnknownCritical-cases : (o : CoapOption) → IsUnknownCritical o ⊎ (¬ IsUnknownCritical o)
IsUnknownCritical-cases o = ground arith

check_rejects :
    (o : CoapOption) (os : List CoapOption)
    → IsUnknownCritical o
    → check_for_unknown_critical_option (o ∷ os) ≡ o.number
unfolding check_for_unknown_critical_option option_known
check_rejects o os c = ground arith

check_passes :
    (o : CoapOption) (os : List CoapOption)
    → ¬ IsUnknownCritical o
    → check_for_unknown_critical_option (o ∷ os) ≡ check_for_unknown_critical_option os
unfolding check_for_unknown_critical_option option_known
check_passes o os c = ground arith

-- CoAP_CheckForUnknownCriticalOption returns 0 exactly where no option is unknown and critical.
pub check_for_unknown_critical_option-zero :
    (os : List CoapOption)
    → (check_for_unknown_critical_option os ≡ 0) ↔ All (λ o. ¬ IsUnknownCritical o) os
check_for_unknown_critical_option-zero [] =
    (λ _. tt, λ _. unfold check_for_unknown_critical_option in refl)
check_for_unknown_critical_option-zero (o ∷ os) = elim (IsUnknownCritical-cases o) [
  | inl c ↦ (λ e. absurd (omega (arith, check_rejects o os c, c.0)), λ h. absurd (h.0 c))
  | inr n ↦
      let rest = check_for_unknown_critical_option-zero os in
      (λ e. (n, rest.0 (sym (check_passes o os n) ∙ e)), λ h. check_passes o os n ∙ rest.1 h.1)
]

-- Where there is one, it returns the number of the first.
pub check_for_unknown_critical_option-first :
    (front back : List CoapOption) (o : CoapOption)
    → All (λ x. ¬ IsUnknownCritical x) front
    → IsUnknownCritical o
    → check_for_unknown_critical_option (front ++ (o ∷ back)) ≡ o.number
check_for_unknown_critical_option-first [] back o h c = check_rejects o back c
check_for_unknown_critical_option-first (x ∷ front) back o h c =
    check_passes x (front ++ (o ∷ back)) h.0
    ∙ check_for_unknown_critical_option-first front back o h.1 c

bytes_are_equal_iff :
    (xs ys : List ℕ) → length xs ≡ length ys → (bytes_are_equal xs ys ≡ true) ↔ (xs ≡ ys)
unfolding bytes_are_equal
bytes_are_equal_iff [] [] h = ground arith
bytes_are_equal_iff [] (y ∷ ys) h = absurd (omega arith)
bytes_are_equal_iff (x ∷ xs) [] h = absurd (omega arith)
bytes_are_equal_iff (x ∷ xs) (y ∷ ys) h = ground (arith, bytes_are_equal_iff xs ys)

-- CoAP_OptionsAreEqual decides equality of two option pointers: both NULL, or the same number and
-- the same bytes.
pub options_are_equal_iff : (a b : Option CoapOption) → (options_are_equal a b ≡ true) ↔ (a ≡ b)
unfolding options_are_equal
options_are_equal_iff none none = ground arith
options_are_equal_iff none (some b) = ground arith
options_are_equal_iff (some a) none = ground arith
options_are_equal_iff (some a) (some b) = ground (arith, bytes_are_equal_iff a.value b.value)
