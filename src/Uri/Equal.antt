-- ===== src/Uri/Equal.antt =====
-- When CoAP_UriOptionsAreEqual finds two option lists equal.
use lobaro_coap.Common.{
  ℕ, zero, suc, ◌+◌, ◌<◌, ◌≡◌, ◌↔◌, ◌∙◌, refl, sym, ap, Bool, true, false, ◌&&◌, List, [], ◌∷◌,
  Option, some, if◌then◌else◌, ◌==◌, arith, length, inl, inr, ◌⊎◌, Bool-cases,
}
use mathlib.Core.Option.{some-injective}
use lobaro_coap.OptionList.{CoapOption, options_are_equal}
use lobaro_coap.OptionList.Search.{options_are_equal_iff}
use lobaro_coap.Uri.{
  opt_num_uri_path, skip_to_path, head_option, next_options, is_null, compare_paths,
  uri_options_are_equal,
}

-- The path options of a list.
abbrev pub paths_of : List CoapOption → List CoapOption
paths_of [] = []
paths_of (o ∷ os) = if o.number == opt_num_uri_path then o ∷ paths_of os else paths_of os

-- Where a search for a path option ends: at the end of a list without one, or at the first one.
skip-cases :
    (os : List CoapOption)
    → ((skip_to_path os ≡ []) × (paths_of os ≡ []))
      ⊎ ((o : CoapOption) × (rest : List CoapOption) × (skip_to_path os ≡ o ∷ rest)
          × (paths_of os ≡ o ∷ paths_of rest)
          × (length rest < length os))
unfolding skip_to_path
skip-cases [] = inl (refl, refl)
skip-cases (o ∷ os) = elim (Bool-cases (o.number == opt_num_uri_path)) [
  | inl path ↦ rw path (inr (o, os, refl, refl, omega arith))
  | inr other ↦ elim (skip-cases os) [
    | inl (end, no_path) ↦ rw other (inl (end, no_path))
    | inr (x, rest, found, paths, shorter) ↦
        rw other (inr (x, rest, found, paths, omega (arith, shorter)))
  ]
]

-- The loop has ended, and its answer says whether the lists have the same path options.
abbrev Verdict : Option Bool → List CoapOption → List CoapOption → Type 0
Verdict r xs ys = (b : Bool) × (r ≡ some b) × ((b ≡ true) ↔ (paths_of xs ≡ paths_of ys))

not_null :
    (xs ys : List CoapOption) → (is_null xs && is_null ys) ≡ false → 0 < length xs + length ys
not_null [] [] e = absurd (cc e)
not_null [] (y ∷ ys) e = omega arith
not_null (x ∷ xs) ys e = omega arith

-- A round on lists that are not both empty, by what the two searches found.
compare_round :
    (fuel : ℕ) (xs ys : List CoapOption)
    → (is_null xs && is_null ys) ≡ false
    → ((us vs : List CoapOption)
        → length us + length vs < fuel
        → Verdict (compare_paths fuel us vs) us vs)
    → length xs + length ys < suc fuel
    → Verdict (compare_paths (suc fuel) xs ys) xs ys
unfolding compare_paths options_are_equal
compare_round fuel xs ys busy rounds enough = elim (skip-cases xs) [
  | inl (end, no_path) ↦ elim (skip-cases ys) [
    | inl (end', no_path') ↦
        let (b, e, iff) = rounds [] [] (omega (arith, not_null xs ys busy, enough)) in
        (b, rw (busy, end, end', compare_paths) e, rw (no_path, no_path') iff)
    | inr (y, ys', found', paths', shorter') ↦ (
      false,
      rw (busy, end, found', compare_paths) refl,
      rw (no_path, paths') (λ no. cc no, λ no. cc no),
    )
  ]
  | inr (x, xs', found, paths, shorter) ↦ elim (skip-cases ys) [
    | inl (end', no_path') ↦ (
      false,
      rw (busy, found, end', compare_paths) refl,
      rw (paths, no_path') (λ no. cc no, λ no. cc no),
    )
    | inr (y, ys', found', paths', shorter') ↦
        elim (Bool-cases (options_are_equal (some x) (some y))) [
          | inl same ↦
              let (b, e, iff) = rounds xs' ys' (omega (arith, shorter, shorter', enough)) in
              (
                b,
                rw (busy, found, found', same, compare_paths) e,
                rw (paths, paths')
                    (
                      λ h.
                          rw
                            (
                              some-injective x y ((options_are_equal_iff (some x) (some y)).0 same),
                              iff.0 h,
                            )
                            refl,
                      λ t. iff.1 (ap next_options t),
                    ),
              )
          | inr differ ↦ (
            false,
            rw (busy, found, found', differ, compare_paths) refl,
            rw (paths, paths')
                (
                  λ no. cc no,
                  λ t. sym differ ∙ (options_are_equal_iff (some x) (some y)).1 (ap head_option t),
                ),
          )
        ]
  ]
]

compare_paths_iff :
    (fuel : ℕ) (xs ys : List CoapOption)
    → length xs + length ys < fuel
    → Verdict (compare_paths fuel xs ys) xs ys
compare_paths_iff zero xs ys enough = absurd (omega arith)
compare_paths_iff (suc fuel) [] [] enough =
    (true, unfold compare_paths in refl, (λ _. refl, λ _. refl))
compare_paths_iff (suc fuel) [] (y ∷ ys) enough =
    compare_round fuel [] (y ∷ ys) refl (λ us vs h. compare_paths_iff fuel us vs h) enough
compare_paths_iff (suc fuel) (x ∷ xs) ys enough =
    compare_round fuel (x ∷ xs) ys refl (λ us vs h. compare_paths_iff fuel us vs h) enough

-- CoAP_UriOptionsAreEqual ends on every two lists, and its answer is true exactly where they have
-- the same path options in the same order, whatever other options stand between them.
pub uri_options_are_equal_iff :
    (xs ys : List CoapOption)
    → (b : Bool) × (uri_options_are_equal xs ys ≡ some b)
      × ((b ≡ true) ↔ (paths_of xs ≡ paths_of ys))
unfolding uri_options_are_equal
uri_options_are_equal_iff xs ys = compare_paths_iff (length xs + length ys + 1) xs ys (omega arith)
