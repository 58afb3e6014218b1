-- ===== src/OptionList/Order.antt =====
-- CoAP_AppendOptionToList against a plain insertion: the list stays ascending by number.
use lobaro_coap.Common.{
  ℕ, ◌+◌, ◌≤◌, ◌≡◌, ◌≢◌, refl, ap, ◌∙◌, true, false, List, [], ◌∷◌, ◌++◌, if◌then◌else◌, leb, arith,
  length, inl, inr, Bool-cases,
}
use lobaro_coap.Platform.{ok, err_out_of_memory, Platform, Mem, malloc, granted_mem, refused_mem}
use lobaro_coap.OptionList.{
  CoapOption, new_option, append_option_to_list_end, skip_le, insert_between, append_option_to_list,
}
use mathlib.Core.List.{Perm, append-nil}
use mathlib.Core.List.Perm

-- Behind all options of the same or a smaller number.
unfoldable pub insert_option : CoapOption → List CoapOption → List CoapOption
insert_option o [] = o ∷ []
insert_option o (x ∷ xs) = if leb x.number o.number then x ∷ insert_option o xs else o ∷ x ∷ xs

-- Ascending by number, from `low` on.
abbrev pub AscendsFrom : ℕ → List CoapOption → Type 0
AscendsFrom low [] = Unit {0}
AscendsFrom low (o ∷ os) = (low ≤ o.number) × AscendsFrom o.number os

pub insert_option-AscendsFrom :
    (low : ℕ) (o : CoapOption) (xs : List CoapOption)
    → low ≤ o.number
    → AscendsFrom low xs
    → AscendsFrom low (insert_option o xs)
unfolding insert_option
insert_option-AscendsFrom low o [] h a = (h, tt)
insert_option-AscendsFrom low o (x ∷ xs) h a =
    ground (arith, insert_option-AscendsFrom x.number o xs)

pub insert_option-perm :
    (o : CoapOption) (xs : List CoapOption) → Perm (o ∷ xs) (insert_option o xs)
unfolding insert_option
insert_option-perm o [] = Perm.refl (o ∷ [])
insert_option-perm o (x ∷ xs) = elim (Bool-cases (leb x.number o.number)) [
  | inl e ↦ rw e (Perm.trans (Perm.swap x o xs) (Perm.cons x (insert_option-perm o xs)))
  | inr e ↦ rw e (Perm.refl (o ∷ x ∷ xs))
]

-- The loop splits the list where the insertion takes place.
pub skip_le-append :
    (number : ℕ) (xs : List CoapOption) → (skip_le number xs).0 ++ (skip_le number xs).1 ≡ xs
unfolding skip_le
skip_le-append number [] = refl
skip_le-append number (x ∷ xs) = ground (arith, skip_le-append number xs)

skip_le-insert_option :
    (o : CoapOption) (xs : List CoapOption)
    → (skip_le o.number xs).0 ++ (o ∷ (skip_le o.number xs).1) ≡ insert_option o xs
unfolding skip_le insert_option
skip_le-insert_option o [] = refl
skip_le-insert_option o (x ∷ xs) = ground (arith, skip_le-insert_option o xs)

insert_between-granted :
    (p : Platform) (before rest : List CoapOption) (number : ℕ) (buf : List ℕ) (m : Mem)
    → p.grants m.mallocs (p.sizeof_option + length buf) ≡ true
    → insert_between p before rest number buf m
      ≡ (ok, before ++ (new_option number buf ∷ rest), granted_mem m)
unfolding insert_between append_option_to_list_end malloc
insert_between-granted p before [] number buf m g = rw g
insert_between-granted p [] (o ∷ rest) number buf m g = rw g
insert_between-granted p (b ∷ before) (o ∷ rest) number buf m g = rw g

-- Where `malloc` grants the node, CoAP_AppendOptionToList succeeds, allocates one block, and
-- inserts the option behind all options of the same or a smaller number.
pub append_option_to_list-insert_option :
    (p : Platform) (opts : List CoapOption) (number : ℕ) (buf : List ℕ) (m : Mem)
    → p.grants m.mallocs (p.sizeof_option + length buf) ≡ true
    → append_option_to_list p opts number buf m
      ≡ (ok, insert_option (new_option number buf) opts, granted_mem m)
unfolding append_option_to_list
append_option_to_list-insert_option p [] number buf m g =
    unfold append_option_to_list_end malloc insert_option in rw g
append_option_to_list-insert_option p (o ∷ os) number buf m g =
    insert_between-granted p _ _ number buf m g
    ∙ ap (λ l. (ok, l, granted_mem m)) (skip_le-insert_option (new_option number buf) (o ∷ os))

-- What a refused call leaves of the list: all of it, or nothing where the new option is smaller
-- than the first one.
unfoldable pub kept : ℕ → List CoapOption → List CoapOption
kept number [] = []
kept number (o ∷ os) = if leb o.number number then o ∷ os else []

insert_between-refused :
    (p : Platform) (before rest : List CoapOption) (number : ℕ) (buf : List ℕ) (m : Mem)
    → p.grants m.mallocs (p.sizeof_option + length buf) ≡ false
    → before ≢ []
    → insert_between p before rest number buf m ≡ (err_out_of_memory, before ++ rest, refused_mem m)
unfolding insert_between append_option_to_list_end malloc
insert_between-refused p before [] number buf m g h = rw (g, append-nil)
insert_between-refused p [] (o ∷ rest) number buf m g h = absurd (h refl)
insert_between-refused p (b ∷ before) (o ∷ rest) number buf m g h = rw g

-- Where `malloc` refuses the node, CoAP_AppendOptionToList reports that memory is out, and the
-- list is unchanged, but for one case: where the new option would have become the first of a list
-- that is not empty, the list is lost.
pub append_option_to_list-kept :
    (p : Platform) (opts : List CoapOption) (number : ℕ) (buf : List ℕ) (m : Mem)
    → p.grants m.mallocs (p.sizeof_option + length buf) ≡ false
    → append_option_to_list p opts number buf m
      ≡ (err_out_of_memory, kept number opts, refused_mem m)
unfolding append_option_to_list kept
append_option_to_list-kept p [] number buf m g = unfold append_option_to_list_end malloc in rw g
append_option_to_list-kept p (o ∷ os) number buf m g = elim (Bool-cases (leb o.number number)) [
  | inl e ↦
      unfold skip_le in
      rw (
        e,
        insert_between-refused p (o ∷ (skip_le number os).0) (skip_le number os).1 number buf m g
            (λ c. cc),
        skip_le-append number os,
      )
  | inr e ↦ unfold skip_le insert_between malloc in rw (e, g)
]

kept-AscendsFrom :
    (number : ℕ) (opts : List CoapOption) → AscendsFrom 0 opts → AscendsFrom 0 (kept number opts)
unfolding kept
kept-AscendsFrom number [] a = a
kept-AscendsFrom number (o ∷ os) a = ground arith

-- Whatever `malloc` answers, an ascending list stays ascending.
pub append_option_to_list-AscendsFrom :
    (p : Platform) (opts : List CoapOption) (number : ℕ) (buf : List ℕ) (m : Mem)
    → AscendsFrom 0 opts
    → AscendsFrom 0 (append_option_to_list p opts number buf m).1
append_option_to_list-AscendsFrom p opts number buf m a =
    elim (Bool-cases (p.grants m.mallocs (p.sizeof_option + length buf))) [
      | inl g ↦
          rw (append_option_to_list-insert_option p opts number buf m g)
            (insert_option-AscendsFrom 0 (new_option number buf) opts (omega arith) a)
      | inr g ↦
          rw (append_option_to_list-kept p opts number buf m g) (kept-AscendsFrom number opts a)
    ]
