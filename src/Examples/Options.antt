-- ===== src/Examples/Options.antt =====
-- The option list.
use lobaro_coap.Common.{◌≡◌, ◌↔◌, ◌⊎◌, refl, arith, [], ◌∷◌, length, All}
use lobaro_coap.Platform.{ok, err_out_of_memory, granted_mem, malloc}
use lobaro_coap.OptionList.{
  new_option, skip_le, insert_between, append_option_to_list, check_for_unknown_critical_option,
}
use lobaro_coap.OptionList.Order.{
  insert_option, AscendsFrom, append_option_to_list-insert_option,
  append_option_to_list-AscendsFrom, kept,
}
use lobaro_coap.OptionList.Allocation.{append_option_to_list-live, append_option_to_list_leaks}
use lobaro_coap.OptionList.Search.{IsUnknownCritical, check_for_unknown_critical_option-zero}
use lobaro_coap.Examples.{granting, refusing, fresh_mem, path_ab, query_x, two_options}

two_options-AscendsFrom : AscendsFrom 0 two_options
two_options-AscendsFrom = (omega arith, (omega arith, tt))

append_option_to_list-insert_option_example :
    append_option_to_list granting two_options 12 (40 ∷ []) fresh_mem
    ≡ (ok, insert_option (new_option 12 (40 ∷ [])) two_options, granted_mem fresh_mem)
append_option_to_list-insert_option_example =
    append_option_to_list-insert_option granting two_options 12 (40 ∷ []) fresh_mem refl

-- The same call, run.
append_between :
    append_option_to_list granting two_options 12 (40 ∷ []) fresh_mem
    ≡ (ok, path_ab ∷ new_option 12 (40 ∷ []) ∷ query_x ∷ [], granted_mem fresh_mem)
unfolding append_option_to_list skip_le insert_between malloc
append_between = refl

append_option_to_list-AscendsFrom_example :
    AscendsFrom 0 (append_option_to_list granting two_options 12 (40 ∷ []) fresh_mem).1
append_option_to_list-AscendsFrom_example =
    append_option_to_list-AscendsFrom granting two_options 12 (40 ∷ []) fresh_mem
      two_options-AscendsFrom

append_option_to_list-live_example :
    let (r, opts', m') = append_option_to_list refusing two_options 12 [] fresh_mem in
    ((r ≡ ok) × (length opts' ≡ 3) × (m'.live ≡ 1))
    ⊎ ((r ≡ err_out_of_memory) × (opts' ≡ kept 12 two_options) × (m'.live ≡ 0))
append_option_to_list-live_example = append_option_to_list-live refusing two_options 12 [] fresh_mem

append_option_to_list_leaks_example :
    let (r, opts', m') =
      append_option_to_list refusing two_options 6 [] (record { mallocs = 2; live = 2 }) in
    (r ≡ err_out_of_memory) × (opts' ≡ []) × (m'.live ≡ 2)
append_option_to_list_leaks_example =
    append_option_to_list_leaks refusing path_ab (query_x ∷ []) 6 []
      (record { mallocs = 2; live = 2 }) refl (omega arith)

check_for_unknown_critical_option-zero_example :
    (check_for_unknown_critical_option two_options ≡ 0)
    ↔ All (λ o. ¬ IsUnknownCritical o) two_options
check_for_unknown_critical_option-zero_example = check_for_unknown_critical_option-zero two_options
