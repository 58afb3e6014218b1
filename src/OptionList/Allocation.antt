-- ===== src/OptionList/Allocation.antt =====
-- The blocks of an option list: which calls allocate and free them, and which lose them.
use lobaro_coap.Common.{
  ℕ, zero, suc, ◌+◌, ◌-◌, ◌≤◌, ◌<◌, ◌≡◌, ◌⊎◌, refl, false, List, [], ◌∷◌, arith, length, inl, inr,
  Bool-cases,
}
use lobaro_coap.Platform.{ok, err_out_of_memory, Platform, Mem, free}
use lobaro_coap.OptionList.{
  CoapOption, new_option, append_option_to_list, remove_option_from_list, free_rest,
  free_option_list,
}
use lobaro_coap.OptionList.Order.{
  insert_option, kept, append_option_to_list-insert_option, append_option_to_list-kept,
}

pub length-insert_option :
    (o : CoapOption) (xs : List CoapOption) → length (insert_option o xs) ≡ suc (length xs)
unfolding insert_option
length-insert_option o [] = refl
length-insert_option o (x ∷ xs) = ground (arith, length-insert_option o xs)

-- CoAP_AppendOptionToList allocates a block exactly where it succeeds, and that block is the new
-- node of the list.
pub append_option_to_list-live :
    (p : Platform) (opts : List CoapOption) (number : ℕ) (buf : List ℕ) (m : Mem)
    → let (r, opts', m') = append_option_to_list p opts number buf m in
      ((r ≡ ok) × (length opts' ≡ suc (length opts)) × (m'.live ≡ suc m.live))
      ⊎ ((r ≡ err_out_of_memory) × (opts' ≡ kept number opts) × (m'.live ≡ m.live))
append_option_to_list-live p opts number buf m =
    elim (Bool-cases (p.grants m.mallocs (p.sizeof_option + length buf))) [
      | inl g ↦
          rw (append_option_to_list-insert_option p opts number buf m g)
            (inl (refl, length-insert_option (new_option number buf) opts, omega arith))
      | inr g ↦ rw (append_option_to_list-kept p opts number buf m g) (inr (refl, refl, refl))
    ]

-- The leak: where `malloc` refuses an option that is smaller than all of a list that is not
-- empty, the caller's list becomes empty while all its blocks stay allocated.
pub append_option_to_list_leaks :
    (p : Platform) (o : CoapOption) (os : List CoapOption) (number : ℕ) (buf : List ℕ) (m : Mem)
    → p.grants m.mallocs (p.sizeof_option + length buf) ≡ false
    → number < o.number
    → let (r, opts', m') = append_option_to_list p (o ∷ os) number buf m in
      (r ≡ err_out_of_memory) × (opts' ≡ []) × (m'.live ≡ m.live)
unfolding kept
append_option_to_list_leaks p o os number buf m g h =
    rw (append_option_to_list-kept p (o ∷ os) number buf m g) (refl, ground arith, refl)

free_rest-live : (os : List CoapOption) (m : Mem) → (free_rest os m).live ≡ m.live - length os
unfolding free_rest free
free_rest-live [] m = omega arith
free_rest-live (o ∷ os) m = omega (arith, free_rest-live os (free m))

-- CoAP_FreeOptionList empties the list and frees one block for each of its nodes.
pub free_option_list-live :
    (os : List CoapOption) (m : Mem)
    → let (os', m') = free_option_list os m in (os' ≡ []) × (m'.live ≡ m.live - length os)
unfolding free_option_list free
free_option_list-live [] m = (refl, omega arith)
free_option_list-live (o ∷ os) m = (refl, omega (arith, free_rest-live os m))

-- CoAP_RemoveOptionFromList takes the node at the position out of the list and frees its block.
-- A pointer to no node of the list changes nothing.
pub remove_option_from_list-live :
    (os : List CoapOption) (i : ℕ) (m : Mem)
    → let (os', m') = remove_option_from_list os i m in
      ((i < length os) × (suc (length os') ≡ length os) × (m'.live ≡ m.live - 1))
      ⊎ ((length os ≤ i) × (os' ≡ os) × (m'.live ≡ m.live))
unfolding remove_option_from_list free
remove_option_from_list-live [] i m = inr (omega arith, refl, refl)
remove_option_from_list-live (o ∷ os) zero m = inl (omega arith, refl, refl)
remove_option_from_list-live (o ∷ os) (suc i) m =
    ground (arith, remove_option_from_list-live os i m)
