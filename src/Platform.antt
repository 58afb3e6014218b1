-- ===== src/Platform.antt =====
-- What the stack takes from its surroundings: the result codes of src/liblobaro_coap.h and the
-- allocator of src/coap_mem.c, which calls the `malloc` and `free` of the application's CoAP_API_t.
use lobaro_coap.Common.{ℕ, ◌+◌, ◌-◌, ◌≡◌, Bool, true, if◌then◌else◌}

-- CoAP_Result_t.
pub data CoapResult : Type 0 where
  ok not_found parse_datagram_too_short parse_unkown_coap_version : CoapResult
  parse_message_format_error parse_too_many_options parse_too_long_option : CoapResult
  parse_too_much_payload pack_too_many_options pack_too_long_option : CoapResult
  err_argument err_socket err_network err_out_of_memory err_too_long_uri_path : CoapResult
  err_not_found err_wrong_option err_existing is_true is_false err_wrong_request : CoapResult
  bad_option_val bad_option_len removed err_unknown err_remote_rst : CoapResult
  err_out_of_attempts err_timeout waiting holding_back retry : CoapResult

-- A platform: `grants k n` says whether call number `k` of the application's `malloc`, for `n`
-- bytes, returns a block. The sizes are those of the C compiler.
pub record Platform : Type 0 where
  pub grants : ℕ → ℕ → Bool
  pub sizeof_option : ℕ
  pub sizeof_message : ℕ

-- The calls of `malloc` so far, and the blocks that are allocated and not freed.
pub record Mem : Type 0 where
  pub mallocs : ℕ
  pub live : ℕ

-- CoAP_malloc: whether a block was returned, and the allocator after the call.
unfoldable pub malloc : Platform → ℕ → Mem → Bool × Mem
malloc p n m =
    let granted = p.grants m.mallocs n in
    (granted, record m { mallocs = m.mallocs + 1; live = if granted then m.live + 1 else m.live })

-- CoAP_free of a block.
unfoldable pub free : Mem → Mem
free m = record m { live = m.live - 1 }

-- The allocator after a call of `malloc` that returned a block, and after one that did not.
abbrev pub granted_mem : Mem → Mem
granted_mem m = record { mallocs = m.mallocs + 1; live = m.live + 1 }

abbrev pub refused_mem : Mem → Mem
refused_mem m = record m { mallocs = m.mallocs + 1 }

-- `malloc` refuses nothing.
abbrev pub Plentiful : Platform → Type 0
Plentiful p = (k n : ℕ) → p.grants k n ≡ true
