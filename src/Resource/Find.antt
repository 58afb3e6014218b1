-- ===== src/Resource/Find.antt =====
-- What CoAP_FindResourceByUri finds.
use lobaro_coap.Common.{
  ℕ, zero, suc, ◌≡◌, ◌≢◌, refl, sym, ◌∙◌, true, false, List, [], ◌∷◌, Option, none, some, length,
  inl, inr, Bool-cases,
}
use lobaro_coap.OptionList.{CoapOption}
use lobaro_coap.Uri.Equal.{paths_of, uri_options_are_equal_iff}
use lobaro_coap.Resource.{Resource, resource_at, find_resource_by_uri}

-- No resource in front of a place has the path.
abbrev pub NoneBefore : ℕ → List Resource → List CoapOption → Type 0
NoneBefore zero rs options = Unit {0}
NoneBefore (suc i) [] options = Unit {0}
NoneBefore (suc i) (r ∷ rs) options = (paths_of r.uri ≢ paths_of options) × NoneBefore i rs options

-- What it means to find the first resource of a path.
abbrev pub FoundFirst : List Resource → List CoapOption → Option ℕ → Type 0
FoundFirst rs options none = NoneBefore (length rs) rs options
FoundFirst rs options (some i) =
    (r : Resource) × (resource_at rs i ≡ some r)
    × ((paths_of r.uri ≡ paths_of options) × NoneBefore i rs options)

-- CoAP_FindResourceByUri ends, and finds the first resource of the list whose path options are
-- those of the request, in the same order; it returns NULL exactly where no resource has them.
pub find_resource_by_uri-FoundFirst :
    (rs : List Resource) (options : List CoapOption)
    → (found : Option ℕ) × (find_resource_by_uri rs options ≡ some found)
      × FoundFirst rs options found
unfolding find_resource_by_uri resource_at
find_resource_by_uri-FoundFirst [] options = (none, refl, tt)
find_resource_by_uri-FoundFirst (r ∷ rs) options =
    let (b, decided, means) = uri_options_are_equal_iff r.uri options in
    let (later, ends, spec) = find_resource_by_uri-FoundFirst rs options in
    elim (Bool-cases b) [
      | inl same ↦
          (some 0, rw (decided, same, find_resource_by_uri) refl, (r, refl, (means.0 same, tt)))
      | inr other ↦
          let differ : paths_of r.uri ≢ paths_of options =
            λ e. (let clash : false ≡ true = sym other ∙ means.1 e in cc clash) in
          further later ends spec other differ
    ]
  where
    further :
        (later : Option ℕ)
        → find_resource_by_uri rs options ≡ some later
        → FoundFirst rs options later
        → (uri_options_are_equal_iff r.uri options).0 ≡ false
        → paths_of r.uri ≢ paths_of options
        → (found : Option ℕ) × (find_resource_by_uri (r ∷ rs) options ≡ some found)
          × FoundFirst (r ∷ rs) options found
    further none ends spec other differ = (
      none,
      rw ((uri_options_are_equal_iff r.uri options).1, other, ends, find_resource_by_uri) refl,
      (differ, spec),
    )
    further (some i) ends (x, at, (same, before)) other differ = (
      some (suc i),
      rw ((uri_options_are_equal_iff r.uri options).1, other, ends, find_resource_by_uri) refl,
      (x, at, (same, (differ, before))),
    )
