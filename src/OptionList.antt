-- ===== src/OptionList.antt =====
-- The linked list of options of src/coap_options.c, as a list in its order.
-- A CoAP_option_t is its number and the bytes that `Value` points to; its field `Length` is the
-- number of these bytes.
pub mod Order
pub mod Allocation
pub mod Search
pub mod Lookup
use lobaro_coap.Common.{
  ℕ, zero, suc, ◌+◌, ◌%◌, Bool, true, false, ◌&&◌, List, [], ◌∷◌, ◌++◌, Option, none, some,
  if◌then◌else◌, leb, ◌==◌, length,
}
use lobaro_coap.Platform.{CoapResult, ok, err_out_of_memory, Platform, Mem, malloc, free}

-- CoAP_option_t.
pub record CoapOption : Type 0 where
  pub number : ℕ
  pub value : List ℕ

-- What an operation leaves behind: its result, the list and the allocator.
abbrev pub Outcome : Type 0
Outcome = CoapResult × List CoapOption × Mem

abbrev pub new_option : ℕ → List ℕ → CoapOption
new_option number buf = record { number = number; value = buf }

-- append_OptionToListEnd: a list that is empty and one that is not differ only in the pointer
-- that takes the new node.
unfoldable pub append_option_to_list_end : Platform → List CoapOption → ℕ → List ℕ → Mem → Outcome
append_option_to_list_end p opts number buf m =
    let (granted, m') = malloc p (p.sizeof_option + length buf) m in
    if granted
    then (ok, opts ++ (new_option number buf ∷ []), m')
    else (err_out_of_memory, opts, m')

-- The first loop of CoAP_AppendOptionToList: the nodes it walks past, and those from `pOption` on.
unfoldable pub skip_le : ℕ → List CoapOption → List CoapOption × List CoapOption
skip_le number [] = ([], [])
skip_le number (o ∷ os) =
    let (before, rest) = skip_le number os in
    if leb o.number number then (o ∷ before, rest) else ([], o ∷ os)

-- The three cases after that loop. In the second one the list's head is overwritten by what
-- `malloc` returned before that is tested.
unfoldable pub insert_between :
    Platform → List CoapOption → List CoapOption → ℕ → List ℕ → Mem → Outcome
insert_between p before [] number buf m = append_option_to_list_end p before number buf m
insert_between p [] (o ∷ rest) number buf m =
    let (granted, m') = malloc p (p.sizeof_option + length buf) m in
    if granted then (ok, new_option number buf ∷ o ∷ rest, m') else (err_out_of_memory, [], m')
insert_between p (b ∷ before) (o ∷ rest) number buf m =
    let (granted, m') = malloc p (p.sizeof_option + length buf) m in
    if granted
    then (ok, (b ∷ before) ++ (new_option number buf ∷ o ∷ rest), m')
    else (err_out_of_memory, (b ∷ before) ++ (o ∷ rest), m')

-- CoAP_AppendOptionToList.
unfoldable pub append_option_to_list : Platform → List CoapOption → ℕ → List ℕ → Mem → Outcome
append_option_to_list p [] number buf m = append_option_to_list_end p [] number buf m
append_option_to_list p (o ∷ os) number buf m =
    let (before, rest) = skip_le number (o ∷ os) in insert_between p before rest number buf m

-- CoAP_CopyOptionToList.
unfoldable pub copy_option_to_list : Platform → List CoapOption → CoapOption → Mem → Outcome
copy_option_to_list p opts o m = append_option_to_list p opts o.number o.value m

-- CoAP_RemoveOptionFromList. The node is given by its position; a position past the end is a
-- pointer to no node of the list.
unfoldable pub remove_option_from_list : List CoapOption → ℕ → Mem → List CoapOption × Mem
remove_option_from_list [] i m = ([], m)
remove_option_from_list (o ∷ os) zero m = (os, free m)
remove_option_from_list (o ∷ os) (suc i) m =
    let (os', m') = remove_option_from_list os i m in (o ∷ os', m')

-- CoAP_FreeOptionList: the loop frees every node behind the first, which is freed last.
unfoldable pub free_rest : List CoapOption → Mem → Mem
free_rest [] m = m
free_rest (o ∷ os) m = free_rest os (free m)

unfoldable pub free_option_list : List CoapOption → Mem → List CoapOption × Mem
free_option_list [] m = ([], m)
free_option_list (o ∷ os) m = ([], free (free_rest os m))

-- CoAP_FindOptionByNumber.
unfoldable pub find_option_by_number : List CoapOption → ℕ → Option CoapOption
find_option_by_number [] number = none
find_option_by_number (o ∷ os) number =
    let rest = find_option_by_number os number in if o.number == number then some o else rest

-- KNOWN_OPTIONS: uri-path, block2, block1, etag, content-format, uri-query and accept.
abbrev pub known_options : List ℕ
known_options = 11 ∷ 23 ∷ 27 ∷ 4 ∷ 12 ∷ 15 ∷ 17 ∷ []

-- The inner loop of CoAP_CheckForUnknownCriticalOption; its `continue` does not end it.
unfoldable pub option_known : ℕ → List ℕ → Bool → Bool
option_known number [] known = known
option_known number (k ∷ ks) known = option_known number ks (if number == k then true else known)

-- CoAP_CheckForUnknownCriticalOption. OPT_FLAG_CRITICAL is the lowest bit.
unfoldable pub check_for_unknown_critical_option : List CoapOption → ℕ
check_for_unknown_critical_option [] = 0
check_for_unknown_critical_option (o ∷ os) =
    let rest = check_for_unknown_critical_option os in
    if option_known o.number known_options false
    then rest
    else (if o.number % 2 == 1 then o.number else rest)

-- The byte loop of CoAP_OptionsAreEqual, over two values of one length.
unfoldable pub bytes_are_equal : List ℕ → List ℕ → Bool
bytes_are_equal [] ys = true
bytes_are_equal (x ∷ xs) [] = true
bytes_are_equal (x ∷ xs) (y ∷ ys) = (x == y) && bytes_are_equal xs ys

-- CoAP_OptionsAreEqual; `none` is NULL.
unfoldable pub options_are_equal : Option CoapOption → Option CoapOption → Bool
options_are_equal none none = true
options_are_equal none (some b) = false
options_are_equal (some a) none = false
options_are_equal (some a) (some b) =
    if length a.value == length b.value
    then (if a.number == b.number then bytes_are_equal a.value b.value else false)
    else false
