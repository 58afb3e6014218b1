-- ===== src/OptionList/Lookup.antt =====
-- An option that CoAP_AppendOptionToList added is the one that a search for its number finds, and
-- how many options of a number a list has.
use lobaro_coap.Common.{
  ℕ, suc, ◌+◌, ◌≡◌, refl, true, List, [], ◌∷◌, none, some, if◌then◌else◌, ◌==◌, arith, length,
}
use lobaro_coap.Platform.{ok, Platform, Mem, granted_mem}
use lobaro_coap.OptionList.{CoapOption, new_option, append_option_to_list, find_option_by_number}
use lobaro_coap.OptionList.Order.{AscendsFrom, append_option_to_list-insert_option}
use lobaro_coap.OptionList.Search.{find_option_by_number-insert_option}

-- Where `malloc` grants the node.
pub append_option_to_list-find :
    (p : Platform) (opts : List CoapOption) (number : ℕ) (buf : List ℕ) (m : Mem)
    → p.grants m.mallocs (p.sizeof_option + length buf) ≡ true
    → AscendsFrom 0 opts
    → find_option_by_number opts number ≡ none
    → let (r, opts', m') = append_option_to_list p opts number buf m in
      (r ≡ ok)
      × (find_option_by_number opts' number ≡ some (new_option number buf))
      × (m' ≡ granted_mem m)
append_option_to_list-find p opts number buf m g asc fresh =
    let same : (number == number) ≡ true = ground arith in
    rw (append_option_to_list-insert_option p opts number buf m g) (
      refl,
      rw (find_option_by_number-insert_option (new_option number buf) opts number asc, fresh, same)
          refl,
      refl,
    )

abbrev pub count_of : ℕ → List CoapOption → ℕ
count_of number [] = 0
count_of number (o ∷ os) =
    if o.number == number then suc (count_of number os) else count_of number os

pub find-count_of :
    (number : ℕ) (os : List CoapOption)
    → count_of number os ≡ 0
    → find_option_by_number os number ≡ none
unfolding find_option_by_number
find-count_of number [] h = refl
find-count_of number (o ∷ os) h = ground (arith, find-count_of number os)
