-- ===== src/OptionWire/RoundTrip.antt =====
-- What pack_OptionsFromList wrote, parse_OptionsFromRaw reads back.
pub mod Fields
use lobaro_coap.Common.{
  ℕ, zero, suc, ◌+◌, ◌-◌, ◌*◌, ◌≤◌, ◌<◌, ◌≡◌, ◌≢◌, refl, sym, ap, ◌∙◌, true, false, List, [], ◌∷◌,
  ◌++◌, Option, none, some, ltb, leb, arith, length, length-append, All, ◌==◌, Bool-cases, inl, inr,
}
use lobaro_coap.Platform.{CoapResult, ok, Platform, Mem, Plentiful, granted_mem}
use lobaro_coap.OptionList.{CoapOption, Outcome, new_option, append_option_to_list}
use lobaro_coap.OptionList.Order.{insert_option, AscendsFrom, append_option_to_list-insert_option}
use lobaro_coap.OptionWire.{
  u16, extended_bytes, pack_option, pack_options, pack_options_from_list, Memory, read, option,
  payload, parse_round, parse_loop, Parsed, parse_options_from_raw,
}
use Fields.{
  Holds, Holds-split, read-Holds, value_offset, pack_option-parts, length-pack_option_offset,
  parse_round-pack_option,
}
use mathlib.Core.List.{append_assoc, append-nil}
use native.Mathlib.Nat.{add-zero, add_assoc}

-- An option that the wire format can carry: its number is a uint16_t and its value is not too long.
abbrev pub IsWireOption : CoapOption → Type 0
IsWireOption o = (o.number < 65536) × (length o.value ≤ 1034)

-- What follows the options in a datagram: nothing, or the payload behind its marker.
abbrev pub marked : List ℕ → List ℕ
marked [] = []
marked (b ∷ bs) = 0xff ∷ b ∷ bs

abbrev pub payload_at : ℕ → List ℕ → Option ℕ
payload_at at [] = none
payload_at at (b ∷ bs) = some (at + 1)

-- The allocator after `k` calls of `malloc` that returned a block.
abbrev pub granted_times : ℕ → Mem → Mem
granted_times k m = record { mallocs = m.mallocs + k; live = m.live + k }

pub insert_option-end :
    (o : CoapOption) (xs : List CoapOption)
    → All (λ x. x.number ≤ o.number) xs
    → insert_option o xs ≡ xs ++ (o ∷ [])
unfolding insert_option
insert_option-end o [] h = refl
insert_option-end o (x ∷ xs) h = ground (arith, insert_option-end o xs)

pub All-number_mono :
    (a b : ℕ) (xs : List CoapOption)
    → a ≤ b
    → All (λ x. x.number ≤ a) xs
    → All (λ x. x.number ≤ b) xs
All-number_mono a b [] h l = tt
All-number_mono a b (x ∷ xs) h l = (omega (arith, l.0), All-number_mono a b xs h l.1)

pub All-number-snoc :
    (o : CoapOption) (xs : List CoapOption)
    → All (λ x. x.number ≤ o.number) xs
    → All (λ x. x.number ≤ o.number) (xs ++ (o ∷ []))
All-number-snoc o [] h = (omega arith, tt)
All-number-snoc o (x ∷ xs) h = (h.0, All-number-snoc o xs h.1)

-- A round that reads an option, where `malloc` grants its node.
pub parse_loop_option :
    (p : Platform) (src : Memory) (src_length fuel offset last : ℕ) (opts : List CoapOption)
    (m : Mem) (delta at len : ℕ)
    → Plentiful p
    → ltb offset src_length ≡ true
    → parse_round src src_length offset ≡ option delta at len
    → parse_loop p src src_length (suc fuel) offset last opts m
      ≡ parse_loop p src src_length fuel
          (u16 (at + len))
          (u16 (delta + last))
          (insert_option (new_option (u16 (delta + last)) (read src at len)) opts)
          (granted_mem m)
unfolding parse_loop
parse_loop_option p src src_length fuel offset last opts m delta at len plenty h r =
    rw (h, r, granted, parse_loop)
      (ap
        (λ (t : Outcome).
          parse_loop p src src_length fuel (u16 (at + len)) (u16 (delta + last)) t.1 t.2)
        granted)
  where
    granted : append_option_to_list p opts (u16 (delta + last)) (read src at len) m ≡ (
      ok,
      insert_option (new_option (u16 (delta + last)) (read src at len)) opts,
      granted_mem m,
    )
    granted =
        append_option_to_list-insert_option p opts (u16 (delta + last)) (read src at len) m
          (plenty _ _)

parse_loop_end :
    (p : Platform) (src : Memory) (fuel offset last : ℕ) (opts : List CoapOption) (m : Mem)
    (content : List ℕ)
    → Holds src offset (marked content)
    → parse_loop p src (offset + length (marked content)) (suc fuel) offset last opts m
      ≡ some (ok, payload_at offset content, opts, m)
unfolding parse_loop parse_round
parse_loop_end p src fuel offset last opts m [] h = ground arith
parse_loop_end p src fuel offset last opts m (b ∷ bs) h = ground arith

result_step :
    (xs ys : List ℕ) (offset : ℕ) (content : List ℕ) (done : List CoapOption) (o : CoapOption)
    (os : List CoapOption) (m : Mem)
    → ◌≡◌ {A = Parsed}
        (
          ok,
          payload_at (offset + length xs + length ys) content,
          (done ++ (o ∷ [])) ++ os,
          granted_times (length os) (granted_mem m),
        )
        (
          ok,
          payload_at (offset + length (xs ++ ys)) content,
          done ++ (o ∷ os),
          granted_times (length (o ∷ os)) m,
        )
result_step xs ys offset content done o os m =
    rw (append_assoc, length-append, add_assoc) (ground arith)

parse_loop-pack_options :
    (os : List CoapOption) (p : Platform) (src : Memory) (src_length fuel offset last : ℕ)
    (done : List CoapOption) (m : Mem) (content : List ℕ)
    → Plentiful p
    → AscendsFrom last os
    → All IsWireOption os
    → All (λ x. x.number ≤ last) done
    → Holds src offset (pack_options last os ++ marked content)
    → offset + length (pack_options last os ++ marked content) ≡ src_length
    → src_length ≤ 65531
    → length os < fuel
    → parse_loop p src src_length fuel offset last done m
      ≡ some (
        ok,
        payload_at (offset + length (pack_options last os)) content,
        done ++ os,
        granted_times (length os) m,
      )
unfolding pack_options
parse_loop-pack_options os p src src_length zero offset last done m content plenty asc wire below
      holds size small f =
    absurd (omega arith)
parse_loop-pack_options [] p src src_length (suc fuel) offset last done m content plenty asc wire
      below holds size small f =
    rw (append-nil, ← size, add-zero, add-zero, add-zero)
      (parse_loop_end p src fuel offset last done m content holds)
parse_loop-pack_options (o ∷ os) p src src_length (suc fuel) offset last done m content plenty asc
      wire below holds size small f =
    let holds' : Holds src offset
        (pack_option last o ++ (pack_options o.number os ++ marked content)) =
      rw append_assoc at holds in
    let (here, later) = Holds-split src offset (pack_option last o) _ holds' in
    let value = (pack_option-parts src offset last o asc.0 wire.0.0 here).3 in
    let size' = length-pack_option_offset offset last o asc.0 wire.0.0 in
    let split = length-append (pack_option last o) (pack_options o.number os) in
    let total = length-append (pack_option last o ++ pack_options o.number os) (marked content) in
    let inside : value_offset offset last o + length o.value ≤ src_length =
      omega (arith, size, size', split, total) in
    let next : u16 (value_offset offset last o + length o.value)
        ≡ offset + length (pack_option last o) =
      omega (arith, size', inside) in
    let same : u16 (o.number - last + last) ≡ o.number = omega (arith, asc.0, wire.0.0) in
    parse_loop_option p src src_length fuel offset last done m _ _ _ plenty (ground (arith, inside))
      (parse_round-pack_option src src_length offset last o asc.0 wire.0.0 wire.0.1 inside small
        here)
    ∙ rw
        (
          next,
          same,
          read-Holds src _ o.value value,
          insert_option-end o done (All-number_mono last o.number done asc.0 below),
        )
        (parse_loop-pack_options os p src src_length fuel (offset + length (pack_option last o))
            o.number (done ++ (o ∷ [])) (granted_mem m) content plenty asc.1 wire.1
            (All-number-snoc o done (All-number_mono last o.number done asc.0 below)) later
            (omega (
              arith,
              size,
              total,
              split,
              length-append (pack_options o.number os) (marked content),
            ))
            small (omega (arith, f))
          ∙ ap some (
              result_step (pack_option last o) (pack_options o.number os) offset content done o os
                m))

pub length-pack_options_ge :
    (os : List CoapOption) (last : ℕ) → length os ≤ length (pack_options last os)
unfolding pack_options pack_option
length-pack_options_ge [] last = omega arith
length-pack_options_ge (o ∷ os) last = omega (
  arith,
  length-append (pack_option last o) (pack_options o.number os),
  length-pack_options_ge os o.number,
)

parse_nonempty :
    (os : List CoapOption) (content : List ℕ) (p : Platform) (src : Memory) (m : Mem)
    (src_length : ℕ)
    → Plentiful p
    → AscendsFrom 0 os
    → All IsWireOption os
    → Holds src 0 (pack_options 0 os ++ marked content)
    → length (pack_options 0 os ++ marked content) ≡ src_length
    → src_length ≤ 65531
    → src_length ≢ 0
    → parse_options_from_raw p src src_length [] m
      ≡ some (ok, payload_at (length (pack_options 0 os)) content, os, granted_times (length os) m)
unfolding parse_options_from_raw
parse_nonempty os content p src m src_length plenty asc wire holds size small nonempty = ground (
  arith,
  parse_loop-pack_options os p src src_length (src_length + 1) 0 0 [] m content plenty asc wire tt
      holds (omega (arith, size)) small
      (omega (
        arith,
        size,
        length-pack_options_ge os 0,
        length-append (pack_options 0 os) (marked content),
      )),
)

-- Where the memory holds what pack_OptionsFromList wrote for an ascending list of options with
-- values of at most 1034 bytes, and behind that a payload or nothing, in 65531 bytes at most, and
-- `malloc` refuses nothing, parse_OptionsFromRaw succeeds with that list, finds the payload, and
-- allocates one block for each option.
pub parse_options_from_raw-pack_options_from_list :
    (os : List CoapOption) (content : List ℕ) (p : Platform) (src : Memory) (m : Mem)
    → Plentiful p
    → AscendsFrom 0 os
    → All IsWireOption os
    → Holds src 0 ((pack_options_from_list os).0 ++ marked content)
    → length ((pack_options_from_list os).0 ++ marked content) ≤ 65531
    → parse_options_from_raw p src (length ((pack_options_from_list os).0 ++ marked content)) [] m
      ≡ some (
        ok,
        payload_at (length (pack_options_from_list os).0) content,
        os,
        granted_times (length os) m,
      )
unfolding pack_options_from_list
parse_options_from_raw-pack_options_from_list [] [] p src m plenty asc wire holds small =
    unfold parse_options_from_raw pack_options in ground arith
parse_options_from_raw-pack_options_from_list [] (b ∷ bs) p src m plenty asc wire holds small =
    parse_nonempty [] (b ∷ bs) p src m _ plenty asc wire holds refl small
      (unfold pack_options in omega arith)
parse_options_from_raw-pack_options_from_list (o ∷ os) content p src m plenty asc wire holds small =
    parse_nonempty (o ∷ os) content p src m _ plenty asc wire holds refl small (
      omega (
        arith,
        length-pack_options_ge (o ∷ os) 0,
        length-append (pack_options 0 (o ∷ os)) (marked content),
      ))
