-- ===== src/Uri/Query.antt =====
-- The value of a query option `name=value`.
use lobaro_coap.Common.{
  ℕ, suc, ◌+◌, ◌<◌, ◌≡◌, refl, Bool, true, false, ◌&&◌, ◌||◌, leb, if◌then◌else◌, List, [], ◌∷◌,
  ◌++◌, none, some, arith, length, length-append, drop-length-append, Bool-cases, Option-cases, inl,
  inr,
}
use lobaro_coap.OptionList.{CoapOption, new_option}
use lobaro_coap.Uri.{
  opt_num_uri_query, equals_char, starts_with, strip_equal, get_uri_query_val,
  get_uri_query_val_from_msg,
}

-- Whether a name has a character that is negative as a signed char.
abbrev pub has_negative : List ℕ → Bool
has_negative [] = false
has_negative (c ∷ name) = leb 128 c || has_negative name

starts_with-append :
    (char_signed : Bool) (prefix value : List ℕ)
    → (char_signed && has_negative prefix) ≡ false
    → starts_with char_signed prefix (prefix ++ value) ≡ true
unfolding starts_with equals_char
starts_with-append char_signed [] value h = refl
starts_with-append char_signed (c ∷ prefix) value h =
    let rest = starts_with-append char_signed prefix value (ground (arith, h)) in
    ground (arith, h, rest)

starts_with-negative :
    (prefix value : List ℕ) → has_negative prefix ≡ true → starts_with true prefix value ≡ false
unfolding starts_with equals_char
starts_with-negative [] value h = absurd (cc h)
starts_with-negative (c ∷ prefix) [] h = refl
starts_with-negative (c ∷ prefix) (b ∷ value) h = elim (Bool-cases (leb 128 c)) [
  | inl negative ↦ ground (arith, negative)
  | inr ascii ↦
      let rest = starts_with-negative prefix value (ground (arith, h, ascii)) in
      ground (arith, rest)
]

get_uri_query_val-named :
    (char_signed : Bool) (name value : List ℕ)
    → length name + length value < 255
    → (char_signed && has_negative name) ≡ false
    → get_uri_query_val char_signed
        (some (new_option opt_num_uri_query (name ++ (b'=' ∷ value))))
        name
      ≡ some (value, length value)
unfolding get_uri_query_val strip_equal
get_uri_query_val-named char_signed name value small plain =
    let fits : length (name ++ (b'=' ∷ value)) ≡ length name + suc (length value) =
      length-append name (b'=' ∷ value) in
    rw
      (
        drop-length-append name (b'=' ∷ value),
        starts_with-append char_signed name (b'=' ∷ value) plain,
        fits,
      )
      (ground (arith, small))

get_uri_query_val-negative :
    (o : CoapOption) (name : List ℕ)
    → has_negative name ≡ true
    → get_uri_query_val true (some o) name ≡ none
unfolding get_uri_query_val
get_uri_query_val-negative o name h =
    let other = starts_with-negative name o.value h in ground (arith, other)

get_uri_query_val_from_msg-negative :
    (os : List CoapOption) (name : List ℕ)
    → has_negative name ≡ true
    → get_uri_query_val_from_msg true os name ≡ none
unfolding get_uri_query_val_from_msg
get_uri_query_val_from_msg-negative [] name h = refl
get_uri_query_val_from_msg-negative (o ∷ os) name h =
    rw (get_uri_query_val-negative o name h, get_uri_query_val_from_msg)
      (get_uri_query_val_from_msg-negative os name h)

found_behind :
    (char_signed : Bool) (before : List CoapOption) (name value : List ℕ) (after : List CoapOption)
    → length name + length value < 255
    → (char_signed && has_negative name) ≡ false
    → get_uri_query_val_from_msg char_signed before name ≡ none
    → get_uri_query_val_from_msg char_signed
        (before ++ (new_option opt_num_uri_query (name ++ (b'=' ∷ value)) ∷ after))
        name
      ≡ some (value, length value)
unfolding get_uri_query_val_from_msg
found_behind char_signed [] name value after small plain fresh =
    rw (get_uri_query_val-named char_signed name value small plain, get_uri_query_val_from_msg) refl
found_behind char_signed (o ∷ before) name value after small plain fresh =
    elim (Option-cases (get_uri_query_val char_signed (some o) name)) [
      | inl other ↦
          rw (other, get_uri_query_val_from_msg)
            (found_behind char_signed before name value after small plain
              (rw (other, get_uri_query_val_from_msg) at fresh))
      | inr (v, found) ↦
          absurd (
            let wrong : some v ≡ none = rw (found, get_uri_query_val_from_msg) at fresh in cc wrong)
    ]

-- Where no option before it has the name for a prefix, CoAP_GetUriQueryValFromMsg finds the value
-- of the option "name=value" and its length, for options of at most 255 bytes; but where the
-- platform's char is signed, it finds no option at all for a name with a byte from 128 on.
pub get_uri_query_val_from_msg-named :
    (char_signed : Bool) (before : List CoapOption) (name value : List ℕ) (after : List CoapOption)
    → length name + length value < 255
    → get_uri_query_val_from_msg char_signed before name ≡ none
    → get_uri_query_val_from_msg char_signed
        (before ++ (new_option opt_num_uri_query (name ++ (b'=' ∷ value)) ∷ after))
        name
      ≡ (if char_signed && has_negative name then none else some (value, length value))
get_uri_query_val_from_msg-named true before name value after small fresh =
    elim (Bool-cases (has_negative name)) [
      | inl negative ↦ rw (negative) (get_uri_query_val_from_msg-negative _ name negative)
      | inr plain ↦ rw (plain) (found_behind true before name value after small plain fresh)
    ]
get_uri_query_val_from_msg-named false before name value after small fresh =
    found_behind false before name value after small refl fresh
