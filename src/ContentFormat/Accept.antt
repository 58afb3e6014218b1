-- ===== src/ContentFormat/Accept.antt =====
-- What is read of an accept option that was written.
use lobaro_coap.Common.{
  ℕ, ◌+◌, ◌*◌, ◌/◌, ◌%◌, ◌^◌, ◌<◌, ◌≡◌, ◌∙◌, refl, true, false, List, [], ◌∷◌, if◌then◌else◌, ltb,
  leb, ◌==◌, arith, length, Bool-cases, inl, inr,
}
use lobaro_coap.Common.Bits.{shift-bit_or}
use lobaro_coap.Platform.{ok, Platform, Mem}
use lobaro_coap.OptionList.{CoapOption, new_option}
use lobaro_coap.OptionList.Order.{append_option_to_list-insert_option, insert_option}
use lobaro_coap.OptionList.Lookup.{count_of}
use lobaro_coap.UintOption.{uint_bytes, append_uint_option_to_list}
use lobaro_coap.ContentFormat.{
  opt_num_accept, add_accept_option_to_msg, accept_of_bytes, get_accept_option_val, accept_loop,
  get_accept_option_val_from_msg,
}

-- A content format as it is read: with its two bytes exchanged where it has two.
abbrev pub read_back : ℕ → ℕ
read_back format = if ltb format 256 then format else format % 256 * 256 + format / 256

accept_of_bytes-uint_bytes :
    (format : ℕ) → format < 65536 → accept_of_bytes (uint_bytes format) ≡ read_back format
unfolding accept_of_bytes uint_bytes
accept_of_bytes-uint_bytes format h =
    ground (arith, h, shift-bit_or 8 (format / 2 ^ 8 % 256) (format % 256))

no_accept :
    (o : CoapOption) (os : List CoapOption)
    → count_of opt_num_accept (o ∷ os) ≡ 0
    → ((o.number == opt_num_accept) ≡ false) × (count_of opt_num_accept os ≡ 0)
no_accept o os e = ground (arith, e)

accept_loop-none :
    (os : List CoapOption) (val : ℕ) → count_of opt_num_accept os ≡ 0 → accept_loop os val ≡ val
unfolding accept_loop
accept_loop-none [] val e = refl
accept_loop-none (o ∷ os) val e =
    let (other, rest) = no_accept o os e in rw other (accept_loop-none os val rest)

accept_loop-insert_option :
    (os : List CoapOption) (value : List ℕ) (val : ℕ)
    → count_of opt_num_accept os ≡ 0
    → accept_loop (insert_option (new_option opt_num_accept value) os) val ≡ accept_of_bytes value
unfolding accept_loop insert_option get_accept_option_val
accept_loop-insert_option [] value val none_there = refl
accept_loop-insert_option (o ∷ os) value val none_there =
    let (other, rest) = no_accept o os none_there in
    elim (Bool-cases (leb o.number opt_num_accept)) [
      | inl before ↦ rw (before, other, accept_loop) (accept_loop-insert_option os value val rest)
      | inr behind ↦ rw behind (accept_loop-none (o ∷ os) (accept_of_bytes value) none_there)
    ]

-- In a list without an accept option, and where `malloc` grants the node,
-- CoAP_AddAcceptOptionToMsg succeeds, and CoAP_GetAcceptOptionValFromMsg then reads a content format
-- below 256 as it was written, and one of two bytes with its bytes exchanged.
pub add_accept_option_to_msg-get :
    (p : Platform) (os : List CoapOption) (format : ℕ) (m : Mem)
    → p.grants m.mallocs (p.sizeof_option + length (uint_bytes format)) ≡ true
    → format < 65536
    → count_of opt_num_accept os ≡ 0
    → let (r, os', m') = add_accept_option_to_msg p os format m in
      (r ≡ ok) × (get_accept_option_val_from_msg os' ≡ read_back format)
unfolding add_accept_option_to_msg append_uint_option_to_list get_accept_option_val_from_msg
add_accept_option_to_msg-get p os format m g small none_there =
    rw (append_option_to_list-insert_option p os opt_num_accept (uint_bytes format) m g) (
      refl,
      accept_loop-insert_option os (uint_bytes format) 0 none_there
          ∙ accept_of_bytes-uint_bytes format small,
    )
