-- ===== src/Examples/Messages.antt =====
-- Messages and datagrams.
use lobaro_coap.Common.{
  ℕ, zero, suc, ◌≡◌, inr, refl, arith, List, [], ◌∷◌, none, some, length, replicate,
}
use lobaro_coap.Platform.{
  ok, parse_too_much_payload, parse_message_format_error, parse_unkown_coap_version, granted_mem,
}
use lobaro_coap.OptionWire.{
  option_nibble, extended_bytes, pack_option, pack_options, pack_options_from_list,
}
use lobaro_coap.OptionWire.RoundTrip.{granted_times}
use lobaro_coap.OptionWire.Overrun.{AgreeBelow}
use lobaro_coap.Message.{
  con, type_bits, Message, ParsedMessage, check_header, build_header, build_payload,
  build_with_token, build_datagram, get_raw_size_of_message, parse_message_from_datagram,
}
use lobaro_coap.Message.Size.{get_raw_size_of_message-build_datagram}
use lobaro_coap.Message.RoundTrip.{
  IsSendable, delivered, parse_message_from_datagram-build_datagram,
}
use lobaro_coap.Message.Allocation.{Settled, parse_message_from_datagram-Settled}
use lobaro_coap.Message.Overread.{
  parse_message_from_datagram_agree, parse_message_from_datagram_ends,
}
use lobaro_coap.Message.Truncated.{parse_message_from_datagram_overreads}
use lobaro_coap.Examples.{granting, refusing, fresh_mem, two_options, memory_of, Holds-memory_of}

-- A confirmable POST to ab?x=1 with a token of two bytes and the payload 7, 8.
abbrev pub post : Message
post = record {
  timestamp = 0;
  type = con;
  code = 2;
  message_id = 0x1234;
  payload_length = 2;
  payload_buf_size = 2;
  token = record { len = 2; bytes = 0xaa ∷ 0xbb ∷ replicate 6 0 };
  options = two_options;
  payload = 7 ∷ 8 ∷ [];
}

abbrev post_bytes : List ℕ
post_bytes =
    0x42 ∷ 0x02 ∷ 0x12 ∷ 0x34 ∷ 0xaa ∷ 0xbb ∷ 0xb2 ∷ b'a' ∷ b'b' ∷ 0x43 ∷ b'x' ∷ b'=' ∷ b'1' ∷ 0xff
    ∷ 7 ∷ 8 ∷ []

pub post-IsSendable : IsSendable post
post-IsSendable = record {
  code_sent = (omega arith, ground arith, ground arith, ground arith);
  code_full = ground arith;
  id_fits = omega arith;
  token_size = refl;
  token_fits = omega arith;
  ascending = (omega arith, (omega arith, tt));
  option_sizes = ((omega arith, omega arith), ((omega arith, omega arith), tt));
  payload_there = omega arith;
  payload_fits = omega arith;
}

built : (build_datagram post).0 ≡ post_bytes
unfolding build_datagram build_with_token build_header build_payload type_bits
    pack_options_from_list pack_options pack_option option_nibble extended_bytes
built = refl

parse_message_from_datagram-build_datagram_example :
    parse_message_from_datagram granting 99
      (memory_of (build_datagram post).0 0)
      (build_datagram post).1
      fresh_mem
    ≡ some (ok, some (delivered 99 post), granted_mem (granted_times 2 fresh_mem))
unfolding build_datagram build_with_token build_header build_payload type_bits
    pack_options_from_list pack_options pack_option option_nibble extended_bytes
parse_message_from_datagram-build_datagram_example =
    parse_message_from_datagram-build_datagram granting 99 (memory_of (build_datagram post).0 0)
      post fresh_mem (λ k n. refl) post-IsSendable (omega arith)
      (Holds-memory_of (build_datagram post).0 0)

get_raw_size_of_message-build_datagram_example :
    get_raw_size_of_message post ≡ length (build_datagram post).0
unfolding pack_options_from_list pack_options pack_option option_nibble extended_bytes
get_raw_size_of_message-build_datagram_example =
    get_raw_size_of_message-build_datagram post
      (record { token_size = refl; token_fits = omega arith; payload_there = omega arith })
      (omega arith)

-- A datagram of another version.
parse_message_from_datagram-Settled_example : Settled 0 (parse_unkown_coap_version, none, fresh_mem)
unfolding parse_message_from_datagram check_header
parse_message_from_datagram-Settled_example =
    parse_message_from_datagram-Settled granting 99 (memory_of (0 ∷ 0 ∷ 0 ∷ 0 ∷ []) 0) 4 fresh_mem
      (parse_unkown_coap_version, none, fresh_mem) refl

-- A header that promises two bytes of token, with them and an option.
abbrev with_token : List ℕ
with_token = 0x42 ∷ 0x02 ∷ 0x12 ∷ 0x34 ∷ 0xaa ∷ 0xbb ∷ 0xb0 ∷ []

parse_message_from_datagram_agree_example :
    parse_message_from_datagram granting 99 (memory_of with_token 0) 7 fresh_mem
    ≡ parse_message_from_datagram granting 99 (memory_of with_token 5) 7 fresh_mem
parse_message_from_datagram_agree_example =
    parse_message_from_datagram_agree granting 99 (memory_of with_token 0) (memory_of with_token 5)
      7 fresh_mem (same with_token) (omega arith) (inr (omega arith))
  where
    same : (bs : List ℕ) → AgreeBelow (length bs) (memory_of bs 0) (memory_of bs 5)
    same [] i h = absurd (omega arith)
    same (b ∷ bs) zero h = refl
    same (b ∷ bs) (suc i) h = same bs i (omega (arith, h))

parse_message_from_datagram_ends_example :
    (out : ParsedMessage) × (parse_message_from_datagram refusing 99
        (memory_of with_token 0)
        7
        fresh_mem
      ≡ some out)
parse_message_from_datagram_ends_example =
    parse_message_from_datagram_ends refusing 99 (memory_of with_token 0) 7 fresh_mem (omega arith)
      (inr (omega arith))

-- The same header with one byte of the token.
abbrev cut_token : List ℕ
cut_token = 0x42 ∷ 0x02 ∷ 0x12 ∷ 0x34 ∷ 0xaa ∷ []

parse_message_from_datagram_overreads_example :
    (parse_message_from_datagram granting 99 (memory_of cut_token 0xff) 5 fresh_mem
      ≡ some (parse_too_much_payload, none, fresh_mem))
    × (parse_message_from_datagram granting 99 (memory_of cut_token 0xf0) 5 fresh_mem
        ≡ some (parse_message_format_error, none, fresh_mem))
unfolding check_header
parse_message_from_datagram_overreads_example =
    parse_message_from_datagram_overreads granting 99 (memory_of cut_token 0xff)
      (memory_of cut_token 0xf0) 5 fresh_mem (same cut_token) refl (omega arith) (omega arith) refl
      refl
  where
    same : (bs : List ℕ) → AgreeBelow (length bs) (memory_of bs 0xff) (memory_of bs 0xf0)
    same [] i h = absurd (omega arith)
    same (b ∷ bs) zero h = refl
    same (b ∷ bs) (suc i) h = same bs i (omega (arith, h))
