-- ===== src/Uri/Parse.antt =====
-- A URI that is written out is parsed back into its parts.
use lobaro_coap.Common.{
  ℕ, ◌≤◌, ◌<◌, ◌≡◌, ◌≢◌, ◌∙◌, refl, ap, List, [], ◌∷◌, ◌++◌, map, some, arith, length, take, All,
}
use mathlib.Core.List.{append_assoc, append-nil}
use native.Mathlib.Nat.{add-zero, add_assoc}
use lobaro_coap.Platform.{ok, Platform, Mem, Plentiful, granted_mem}
use lobaro_coap.OptionList.{CoapOption, new_option}
use lobaro_coap.OptionList.Order.{append_option_to_list-insert_option}
use lobaro_coap.OptionWire.{u16}
use lobaro_coap.OptionWire.RoundTrip.{
  granted_times, insert_option-end, All-number-snoc, All-number_mono,
}
use lobaro_coap.Uri.{
  opt_num_uri_path, opt_num_uri_query, append_part, parse_uri_query, parse_uri_path,
  append_uri_options_from_string,
}

-- A part of a path or a query: it has a byte, and none of those that end it.
abbrev pub IsPathPart : List ℕ → Type 0
IsPathPart part =
    (0 < length part) × (length part < 65536) × All (λ c. (c ≢ b'/') × (c ≢ b' ') × (c ≢ b'?')) part

abbrev pub IsQueryPart : List ℕ → Type 0
IsQueryPart part = (0 < length part) × (length part < 65536) × All (λ c. c ≢ b'&') part

-- "/a/b?x&y" of the parts "a" and "b" of the path and "x" and "y" of the query.
abbrev pub render_with : ℕ → List (List ℕ) → List ℕ
render_with c [] = []
render_with c (part ∷ parts) = c ∷ (part ++ render_with c parts)

abbrev pub render_query : List (List ℕ) → List ℕ
render_query [] = []
render_query (part ∷ parts) = b'?' ∷ (part ++ render_with b'&' parts)

abbrev pub render_uri : List (List ℕ) → List (List ℕ) → List ℕ
render_uri path query = render_with b'/' path ++ render_query query

take-length : (xs : List ℕ) → take (length xs) xs ≡ xs
take-length [] = refl
take-length (x ∷ xs) = ap (λ t. x ∷ t) (take-length xs)

take_all : (part : List ℕ) → length part < 65536 → take (u16 (length part)) part ≡ part
take_all part h =
    let same : u16 (length part) ≡ length part = omega (arith, h) in rw same (take-length part)

append_part-end :
    (p : Platform) (opts : List CoapOption) (number : ℕ) (part : List ℕ) (m : Mem)
    → Plentiful p
    → length part < 65536
    → All (λ o. o.number ≤ number) opts
    → append_part p opts number part m ≡ (opts ++ (new_option number part ∷ []), granted_mem m)
unfolding append_part
append_part-end p opts number part m plenty small below =
    rw
      (
        take_all part small,
        append_option_to_list-insert_option p opts number part m (plenty _ _),
        insert_option-end (new_option number part) opts below,
      )
      refl

query_part :
    (cs : List ℕ) (p : Platform) (rest part : List ℕ) (opts : List CoapOption) (m : Mem)
    → All (λ c. c ≢ b'&') cs
    → parse_uri_query p (cs ++ rest) part opts m ≡ parse_uri_query p rest (part ++ cs) opts m
unfolding parse_uri_query
query_part [] p rest part opts m h = rw append-nil refl
query_part (c ∷ cs) p rest [] opts m h =
    ground (arith, h.0, query_part cs p rest (c ∷ []) opts m h.1)
query_part (c ∷ cs) p rest (b ∷ part) opts m h = ground (
  arith,
  h.0,
  query_part cs p rest ((b ∷ part) ++ (c ∷ [])) opts m h.1,
  append_assoc (b ∷ part) (c ∷ []) cs,
)

-- The list and the allocator after the parts were added.
abbrev added : ℕ → List (List ℕ) → List CoapOption → Mem → List CoapOption × Mem
added number parts opts m = (opts ++ map (new_option number) parts, granted_times (length parts) m)

added-cons :
    (number : ℕ) (part : List ℕ) (parts : List (List ℕ)) (opts : List CoapOption) (m : Mem)
    → added number parts (opts ++ (new_option number part ∷ [])) (granted_mem m)
      ≡ added number (part ∷ parts) opts m
added-cons number part parts opts m = rw (append_assoc, add_assoc, add_assoc) (ground arith)

query_step :
    (p : Platform) (cs : List ℕ) (b : ℕ) (part : List ℕ) (opts : List CoapOption) (m : Mem)
    {out : List CoapOption × Mem}
    → append_part p opts opt_num_uri_query (b ∷ part) m ≡ out
    → parse_uri_query p (b'&' ∷ cs) (b ∷ part) opts m ≡ parse_uri_query p cs [] out.0 out.1
unfolding parse_uri_query
query_step p cs b part opts m e = ap (λ t. parse_uri_query p cs [] t.0 t.1) e

query_parts :
    (qs : List (List ℕ)) (p : Platform) (b : ℕ) (part : List ℕ) (opts : List CoapOption) (m : Mem)
    → Plentiful p
    → length (b ∷ part) < 65536
    → All IsQueryPart qs
    → All (λ o. o.number ≤ opt_num_uri_query) opts
    → parse_uri_query p (render_with b'&' qs) (b ∷ part) opts m
      ≡ added opt_num_uri_query ((b ∷ part) ∷ qs) opts m
unfolding parse_uri_query
query_parts [] p b part opts m plenty small parts below =
    append_part-end p opts opt_num_uri_query (b ∷ part) m plenty small below
query_parts ([] ∷ qs) p b part opts m plenty small parts below = absurd (omega (arith, parts.0.0))
query_parts ((c ∷ cs) ∷ qs) p b part opts m plenty small parts below =
    query_step p (c ∷ (cs ++ render_with b'&' qs)) b part opts m
      (append_part-end p opts opt_num_uri_query (b ∷ part) m plenty small below)
    ∙ query_part (c ∷ cs) p (render_with b'&' qs) []
        (opts ++ (new_option opt_num_uri_query (b ∷ part) ∷ [])) (granted_mem m) parts.0.2
    ∙ query_parts qs p c cs _ (granted_mem m) plenty parts.0.1 parts.1
        (All-number-snoc (new_option opt_num_uri_query (b ∷ part)) opts below)
    ∙ added-cons opt_num_uri_query (b ∷ part) ((c ∷ cs) ∷ qs) opts m

-- A query at the end of the string, behind its question mark.
whole_query :
    (qs : List (List ℕ)) (p : Platform) (opts : List CoapOption) (m : Mem)
    → Plentiful p
    → All IsQueryPart qs
    → All (λ o. o.number ≤ opt_num_uri_query) opts
    → parse_uri_path p (render_query qs) [] opts m ≡ added opt_num_uri_query qs opts m
unfolding parse_uri_path
whole_query [] p opts m plenty parts below = rw (append-nil, add-zero, add-zero) refl
whole_query ([] ∷ qs) p opts m plenty parts below = absurd (omega (arith, parts.0.0))
whole_query ((c ∷ cs) ∷ qs) p opts m plenty parts below =
    query_part (c ∷ cs) p (render_with b'&' qs) [] opts m parts.0.2
    ∙ query_parts qs p c cs opts m plenty parts.0.1 parts.1 below

path_part :
    (cs : List ℕ) (p : Platform) (rest part : List ℕ) (opts : List CoapOption) (m : Mem)
    → All (λ c. (c ≢ b'/') × (c ≢ b' ') × (c ≢ b'?')) cs
    → parse_uri_path p (cs ++ rest) part opts m ≡ parse_uri_path p rest (part ++ cs) opts m
unfolding parse_uri_path
path_part [] p rest part opts m h = rw append-nil refl
path_part (c ∷ cs) p rest [] opts m h = ground (arith, h.0, path_part cs p rest (c ∷ []) opts m h.1)
path_part (c ∷ cs) p rest (b ∷ part) opts m h = ground (
  arith,
  h.0,
  path_part cs p rest ((b ∷ part) ++ (c ∷ [])) opts m h.1,
  append_assoc (b ∷ part) (c ∷ []) cs,
)

-- The list and the allocator after a path and a query were added.
abbrev added_both : List (List ℕ) → List (List ℕ) → List CoapOption → Mem → List CoapOption × Mem
added_both ps qs opts m =
    let (opts', m') = added opt_num_uri_path ps opts m in added opt_num_uri_query qs opts' m'

-- A part of the path ends at a question mark or at the end of the string.
path_end :
    (qs : List (List ℕ)) (p : Platform) (b : ℕ) (part : List ℕ) (opts : List CoapOption) (m : Mem)
    → Plentiful p
    → length (b ∷ part) < 65536
    → All IsQueryPart qs
    → All (λ o. o.number ≤ opt_num_uri_path) opts
    → parse_uri_path p (render_query qs) (b ∷ part) opts m ≡ added_both ((b ∷ part) ∷ []) qs opts m
unfolding parse_uri_path
path_end [] p b part opts m plenty small parts below =
    append_part-end p opts opt_num_uri_path (b ∷ part) m plenty small below
    ∙ rw (append-nil, add-zero, add-zero) refl
path_end ([] ∷ qs) p b part opts m plenty small parts below = absurd (omega (arith, parts.0.0))
path_end ((c ∷ cs) ∷ qs) p b part opts m plenty small parts below =
    ap (λ t. parse_uri_query p (c ∷ (cs ++ render_with b'&' qs)) [] t.0 t.1)
      (append_part-end p opts opt_num_uri_path (b ∷ part) m plenty small below)
    ∙ query_part (c ∷ cs) p (render_with b'&' qs) []
        (opts ++ (new_option opt_num_uri_path (b ∷ part) ∷ [])) (granted_mem m) parts.0.2
    ∙ query_parts qs p c cs _ (granted_mem m) plenty parts.0.1 parts.1 (
        All-number_mono opt_num_uri_path opt_num_uri_query _ (omega arith)
          (All-number-snoc (new_option opt_num_uri_path (b ∷ part)) opts below))

path_parts :
    (ps : List (List ℕ)) (qs : List (List ℕ)) (p : Platform) (b : ℕ) (part : List ℕ)
    (opts : List CoapOption) (m : Mem)
    → Plentiful p
    → length (b ∷ part) < 65536
    → All IsPathPart ps
    → All IsQueryPart qs
    → All (λ o. o.number ≤ opt_num_uri_path) opts
    → parse_uri_path p (render_with b'/' ps ++ render_query qs) (b ∷ part) opts m
      ≡ added_both ((b ∷ part) ∷ ps) qs opts m
unfolding parse_uri_path
path_parts [] qs p b part opts m plenty small paths queries below =
    path_end qs p b part opts m plenty small queries below
path_parts ([] ∷ ps) qs p b part opts m plenty small paths queries below =
    absurd (omega (arith, paths.0.0))
path_parts ((c ∷ cs) ∷ ps) qs p b part opts m plenty small paths queries below =
    ap (λ t. parse_uri_path p (c ∷ ((cs ++ render_with b'/' ps) ++ render_query qs)) [] t.0 t.1)
      (append_part-end p opts opt_num_uri_path (b ∷ part) m plenty small below)
    ∙ ap
        (λ t.
          parse_uri_path p (c ∷ t) [] (opts ++ (new_option opt_num_uri_path (b ∷ part) ∷ []))
            (granted_mem m))
        (append_assoc cs (render_with b'/' ps) (render_query qs))
    ∙ path_part (c ∷ cs) p (render_with b'/' ps ++ render_query qs) [] _ (granted_mem m) paths.0.2
    ∙ path_parts ps qs p c cs _ (granted_mem m) plenty paths.0.1 paths.1 queries
        (All-number-snoc (new_option opt_num_uri_path (b ∷ part)) opts below)
    ∙ ap (λ t. added opt_num_uri_query qs t.0 t.1)
        (added-cons opt_num_uri_path (b ∷ part) ((c ∷ cs) ∷ ps) opts m)

-- For every URI "/a/b?x&y" of path parts without `/`, ` ` and `?` and query parts without `&`, each
-- of 1 to 65535 bytes, and where `malloc` refuses nothing, CoAP_AppendUriOptionsFromString adds one
-- option for each part, in their order, behind options of numbers up to that of a path, and
-- allocates a block for each.
pub append_uri_options_from_string-render_uri :
    (path query : List (List ℕ)) (p : Platform) (opts : List CoapOption) (m : Mem)
    → Plentiful p
    → All IsPathPart path
    → All IsQueryPart query
    → All (λ o. o.number ≤ opt_num_uri_path) opts
    → append_uri_options_from_string p opts (some (render_uri path query)) m ≡ (
      ok,
      (opts ++ map (new_option opt_num_uri_path) path) ++ map (new_option opt_num_uri_query) query,
      granted_times (length query) (granted_times (length path) m),
    )
unfolding append_uri_options_from_string parse_uri_path
append_uri_options_from_string-render_uri path query p opts m plenty paths queries below =
    ap (λ t. (ok, t.0, t.1)) (parsed path paths)
  where
    parsed :
        (ps : List (List ℕ))
        → All IsPathPart ps
        → parse_uri_path p (render_uri ps query) [] opts m ≡ added_both ps query opts m
    parsed [] a =
        whole_query query p opts m plenty queries
          (All-number_mono opt_num_uri_path opt_num_uri_query opts (omega arith) below)
        ∙ rw (append-nil, add-zero, add-zero) refl
    parsed ([] ∷ ps) a = absurd (omega (arith, a.0.0))
    parsed ((c ∷ cs) ∷ ps) a =
        ap (λ t. parse_uri_path p (c ∷ t) [] opts m)
          (append_assoc cs (render_with b'/' ps) (render_query query))
        ∙ path_part (c ∷ cs) p (render_with b'/' ps ++ render_query query) [] opts m a.0.2
        ∙ path_parts ps query p c cs opts m plenty a.0.1 a.1 queries below
