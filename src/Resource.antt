-- ===== src/Resource.antt =====
-- The resources of src/coap_resource.c: CoAP_Res_t, how resources are created, freed and found. The
-- functions of the application that serve a resource are part of its record.
pub mod Find
use lobaro_coap.Common.{
  ℕ, zero, suc, ◌+◌, ◌==◌, Bool, true, false, List, [], ◌∷◌, ◌++◌, Option, none, some,
  if◌then◌else◌, length,
}
use lobaro_coap.Platform.{Platform, Mem, malloc, free}
use lobaro_coap.OptionList.{CoapOption, free_option_list}
use lobaro_coap.Uri.{append_uri_options_from_string, uri_options_are_equal}
use lobaro_coap.Message.{Message}
use lobaro_coap.Observer.{Observer}

-- CoAP_HandlerResult_t.
pub data HandlerResult : Type 0 where
  handler_ok handler_postpone handler_error : HandlerResult

-- A CoAP_ResourceHandler_fPtr_t: the request and the response as it is called with, the result and
-- the response as it leaves it, and what it does to the memory. It may change every part of the
-- response, but not the pointer to it. It calls nothing that changes the state of the stack.
abbrev pub Handler : Type 0
Handler = Message → Message → Mem → HandlerResult × Message × Mem

-- A CoAP_ResourceNotifier_fPtr_t.
abbrev pub Notifier : Type 0
Notifier = Observer → Message → Mem → HandlerResult × Message × Mem

-- CoAP_ResOpts_t.
pub record ResOpts : Type 0 where
  pub cf : ℕ
  pub allowed_methods : ℕ
  pub etag : ℕ

-- CoAP_Res_t. The place of a resource is its number in the list `pResList`, from which no resource
-- is ever taken. An empty description is NULL.
pub record Resource : Type 0 where
  pub description : List ℕ
  pub update_cnt : ℕ
  pub opts : ResOpts
  pub uri : List CoapOption
  pub observers : List Observer
  pub handler : Option Handler
  pub notifier : Option Notifier

-- The resource at a place.
unfoldable pub resource_at : List Resource → ℕ → Option Resource
resource_at [] i = none
resource_at (r ∷ rs) zero = some r
resource_at (r ∷ rs) (suc i) = resource_at rs i

-- An assignment through the pointer to the resource at a place.
unfoldable pub set_resource : List Resource → ℕ → Resource → List Resource
set_resource [] i r' = []
set_resource (r ∷ rs) zero r' = r' ∷ rs
set_resource (r ∷ rs) (suc i) r' = r ∷ set_resource rs i r'

-- CoAP_AppendResourceToList of a resource; the loop goes to the last one.
unfoldable pub append_resource_to_list : List Resource → Resource → List Resource
append_resource_to_list [] x = x ∷ []
append_resource_to_list (y ∷ ys) x = y ∷ append_resource_to_list ys x

-- CoAP_FreeResource: the description, which may be NULL, and the resource.
unfoldable pub free_resource : Resource → Mem → Mem
free_resource r m =
    let m' = (free_option_list r.uri m).1 in
    elim r.description [ [] ↦ free m' | b ∷ bs ↦ free (free m') ]

-- The block of a description. The call of `malloc` is not tested, and the model describes the case
-- that it returns one.
unfoldable pub alloc_description : Platform → List ℕ → Mem → Mem
alloc_description p [] m = m
alloc_description p (b ∷ bs) m = (malloc p (length (b ∷ bs) + 1) m).1

-- CoAP_CreateResource: the place of the resource, or NULL, the list and the memory. `uri` and
-- `description` are strings without their end, and NULL is `none` and the empty description.
unfoldable pub create_resource :
    Platform
    → ℕ
    → Option (List ℕ)
    → List ℕ
    → ResOpts
    → Option Handler
    → Option Notifier
    → List Resource
    → Mem
    → Option ℕ × List Resource × Mem
create_resource p sizeof_resource uri description opts handler notifier rs m =
    let (granted, m') = malloc p sizeof_resource m in
    let (r, path, m'') =
      append_uri_options_from_string p [] uri (alloc_description p description m') in
    if opts.allowed_methods == 0
    then (none, rs, m)
    else (if granted
        then (
          some (length rs),
          append_resource_to_list rs (record {
            description = description;
            update_cnt = 0;
            opts = opts;
            uri = path;
            observers = [];
            handler = handler;
            notifier = notifier;
          }),
          m'',
        )
        else (none, rs, m'))

-- CoAP_FindResourceByUri in the list: the place of the resource, or NULL; `none` is a comparison of
-- options that does not end.
unfoldable pub find_resource_by_uri : List Resource → List CoapOption → Option (Option ℕ)
find_resource_by_uri [] options = some none
find_resource_by_uri (r ∷ rs) options =
    let rest = find_resource_by_uri rs options in
    elim (uri_options_are_equal r.uri options) [
      | none ↦ none
      | some true ↦ some (some 0)
      | some false ↦ elim rest [
        | none ↦ none
        | some none ↦ some none
        | some (some i) ↦ some (some (suc i))
      ]
    ]
