-- ===== src/Uri.antt =====
-- URI options: src/option-types/coap_option_uri.c. A C string is the list of its bytes before the
-- terminating zero.
pub mod Parse
pub mod Equal
pub mod Query
use lobaro_coap.Common.{
  ℕ, zero, suc, ◌+◌, ◌-◌, ◌*◌, ◌%◌, ◌^◌, Bool, true, false, ◌&&◌, ◌||◌, not, List, [], ◌∷◌, ◌++◌,
  Option, none, some, if◌then◌else◌, ltb, leb, ◌==◌, length, take, drop,
}
use lobaro_coap.Platform.{CoapResult, ok, err_argument, Platform, Mem}
use lobaro_coap.OptionList.{CoapOption, append_option_to_list, options_are_equal}
use lobaro_coap.OptionWire.{u16}

-- OPT_NUM_URI_PATH and OPT_NUM_URI_QUERY.
abbrev pub opt_num_uri_path : ℕ
opt_num_uri_path = 11

abbrev pub opt_num_uri_query : ℕ
opt_num_uri_query = 15

-- What the parsers do with a part of the string: they append an option and ignore the result. The
-- length, a uint32_t, becomes a uint16_t.
unfoldable pub append_part : Platform → List CoapOption → ℕ → List ℕ → Mem → List CoapOption × Mem
append_part p opts number part m =
    let (r, opts', m') = append_option_to_list p opts number (take (u16 (length part)) part) m in
    (opts', m')

-- The loop of ParseUriQueryFromStringToOption. `part` holds the `cnt` bytes from
-- `pCurUriPartBegin` on, which end where `QueryStr` points to.
unfoldable pub parse_uri_query :
    Platform → List ℕ → List ℕ → List CoapOption → Mem → List CoapOption × Mem
parse_uri_query p [] [] opts m = (opts, m)
parse_uri_query p [] (b ∷ part) opts m = append_part p opts opt_num_uri_query (b ∷ part) m
parse_uri_query p (c ∷ cs) [] opts m = elim (c == b'&') [
  | true ↦ parse_uri_query p cs [] opts m
  | false ↦ parse_uri_query p cs (c ∷ []) opts m
]
parse_uri_query p (c ∷ cs) (b ∷ part) opts m = elim (c == b'&') [
  | true ↦
      let (opts', m') = append_part p opts opt_num_uri_query (b ∷ part) m in
      parse_uri_query p cs [] opts' m'
  | false ↦ parse_uri_query p cs ((b ∷ part) ++ (c ∷ [])) opts m
]

-- The loop of CoAP_AppendUriOptionsFromString.
unfoldable pub parse_uri_path :
    Platform → List ℕ → List ℕ → List CoapOption → Mem → List CoapOption × Mem
parse_uri_path p [] [] opts m = (opts, m)
parse_uri_path p [] (b ∷ part) opts m = append_part p opts opt_num_uri_path (b ∷ part) m
parse_uri_path p (c ∷ cs) [] opts m = elim (c == b'/' || (c == b' ' || c == b'?')) [
  | true ↦ elim (c == b'?') [
    | true ↦ parse_uri_query p cs [] opts m
    | false ↦ parse_uri_path p cs [] opts m
  ]
  | false ↦ parse_uri_path p cs (c ∷ []) opts m
]
parse_uri_path p (c ∷ cs) (b ∷ part) opts m = elim (c == b'/' || (c == b' ' || c == b'?')) [
  | true ↦
      let (opts', m') = append_part p opts opt_num_uri_path (b ∷ part) m in
      elim (c == b'?') [
        | true ↦ parse_uri_query p cs [] opts' m'
        | false ↦ parse_uri_path p cs [] opts' m'
      ]
  | false ↦ parse_uri_path p cs ((b ∷ part) ++ (c ∷ [])) opts m
]

-- CoAP_AppendUriOptionsFromString; `none` is NULL.
unfoldable pub append_uri_options_from_string :
    Platform → List CoapOption → Option (List ℕ) → Mem → CoapResult × List CoapOption × Mem
append_uri_options_from_string p opts none m = (err_argument, opts, m)
append_uri_options_from_string p opts (some str) m =
    let (opts', m') = parse_uri_path p str [] opts m in (ok, opts', m')

-- An inner loop of CoAP_UriOptionsAreEqual: to the next path option.
unfoldable pub skip_to_path : List CoapOption → List CoapOption
skip_to_path [] = []
skip_to_path (o ∷ os) = if o.number == opt_num_uri_path then o ∷ os else skip_to_path os

abbrev pub head_option : List CoapOption → Option CoapOption
head_option [] = none
head_option (o ∷ os) = some o

abbrev pub next_options : List CoapOption → List CoapOption
next_options [] = []
next_options (o ∷ os) = os

abbrev pub is_null : List CoapOption → Bool
is_null [] = true
is_null (o ∷ os) = false

-- The outer loop of CoAP_UriOptionsAreEqual, on fuel: `none` is a loop that has not ended.
unfoldable pub compare_paths : ℕ → List CoapOption → List CoapOption → Option Bool
compare_paths zero xs ys = none
compare_paths (suc fuel) xs ys =
    let rest =
      compare_paths fuel (next_options (skip_to_path xs)) (next_options (skip_to_path ys)) in
    if is_null xs && is_null ys
    then some true
    else (if not (options_are_equal (head_option (skip_to_path xs)) (head_option (skip_to_path ys)))
        then some false
        else rest)

-- CoAP_UriOptionsAreEqual. A round takes a node at least, so as many rounds as the lists have nodes,
-- and one to see that they are empty, end the loop.
unfoldable pub uri_options_are_equal : List CoapOption → List CoapOption → Option Bool
uri_options_are_equal xs ys = compare_paths (length xs + length ys + 1) xs ys

-- The comparison of a byte with a plain char, both as an int: where the platform's char is signed,
-- one from 128 on is negative, and no byte is equal to it.
unfoldable pub equals_char : Bool → ℕ → ℕ → Bool
equals_char char_signed b c = (b == c) && not (char_signed && leb 128 c)

-- The prefix loop of CoAP_GetUriQueryVal.
unfoldable pub starts_with : Bool → List ℕ → List ℕ → Bool
starts_with char_signed [] value = true
starts_with char_signed (c ∷ prefix) [] = false
starts_with char_signed (c ∷ prefix) (b ∷ value) =
    equals_char char_signed b c && starts_with char_signed prefix value

-- An equal sign behind the prefix is not part of the value.
unfoldable pub strip_equal : List ℕ → List ℕ
strip_equal [] = []
strip_equal (b ∷ value) = if b == b'=' then value else b ∷ value

-- CoAP_GetUriQueryVal with a place for the length: the bytes that the result points to and
-- `*pValueLen`, or NULL. `char_signed` says of the platform whether its plain char is signed.
unfoldable pub get_uri_query_val : Bool → Option CoapOption → List ℕ → Option (List ℕ × ℕ)
get_uri_query_val char_signed none prefix = none
get_uri_query_val char_signed (some o) prefix =
    let rest = strip_equal (drop (length prefix) o.value) in
    if not (o.number == opt_num_uri_query)
    then none
    else (if length o.value == 0 || ltb 255 (length o.value)
        then none
        else (if leb (length o.value) (length prefix)
            then none
            else (if starts_with char_signed prefix o.value
                then some (rest, length rest % 256)
                else none)))

-- CoAP_GetUriQueryValFromMsg.
unfoldable pub get_uri_query_val_from_msg : Bool → List CoapOption → List ℕ → Option (List ℕ × ℕ)
get_uri_query_val_from_msg char_signed [] prefix = none
get_uri_query_val_from_msg char_signed (o ∷ os) prefix =
    let rest = get_uri_query_val_from_msg char_signed os prefix in
    elim (get_uri_query_val char_signed (some o) prefix) [ none ↦ rest | some v ↦ some v ]
