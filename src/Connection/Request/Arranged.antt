-- ===== src/Connection/Request/Arranged.antt =====
-- src/connection.ts: the order in which the headers of a request stand.
use browsercore_http.Common.{
  ◌≡◌, refl, sym, ap, ◌∙◌, arith, true, not, Option, none, some, List, [], ◌∷◌, ◌++◌, Text,
  text_eq_refl, is_none, All, append_assoc,
}
use browsercore_http.Common.Dict.{Headers, has, IsMap, has-get}
use browsercore_http.Connection.Request.{
  Http2Options, Http2Request, pseudo_sources, set_ordered, set_pseudo, seen_names, set_regular,
  build_request_headers,
}
use browsercore_http.Connection.Request.Lookup.{
  get-set_pseudo, includes_name-seen_names, pseudo_sources-IsMap,
}
use browsercore_http.Connection.Request.Loops.{
  picked, unpicked, arrange, IsOrder, Apart, set_all_lem, set_ordered_lem, Rest, set_unseen_lem,
  set_unlisted_lem, Free-Apart, Apart-nil, Rest-set_ordered,
}

-- Every name of a part is in the whole.
abbrev Within : Headers → Headers → Type 0
Within part source = All (λ entry. has entry.0 source ≡ true) part

Within-more :
    (part source : Headers) (n v : Text) → Within part source → Within part ((n, v) ∷ source)
unfolding has
Within-more [] source n v h = tt
Within-more (entry ∷ part) source n v (here, h) =
    (ground (arith, here), Within-more part source n v h)

Within-self : (source : Headers) → Within source source
unfolding has
Within-self [] = tt
Within-self ((n, v) ∷ source) =
    (ground (arith, text_eq_refl n), Within-more source source n v (Within-self source))

seen_same :
    (order : List Text) (source part : Headers)
    → Within part source
    → unpicked (seen_names order source) part ≡ unpicked order part
seen_same order source [] h = refl
seen_same order source ((n, v) ∷ part) (here, h) = ground (
  arith,
  includes_name-seen_names n order source,
  has-get n source,
  here,
  seen_same order source part h,
)

Rest-seen :
    (order : List Text) (source part m : Headers)
    → Within part source
    → Rest order part m
    → Rest (seen_names order source) part m
Rest-seen order source [] m h rest = tt
Rest-seen order source ((n, v) ∷ part) m (here, h) (one, rest) = (
  ground (arith, includes_name-seen_names n order source, has-get n source, here, one),
  Rest-seen order source part m h rest,
)

set_pseudo_lem :
    (order : Option (List Text)) (source : Headers)
    → IsOrder order
    → IsMap source
    → set_pseudo order source [] ≡ arrange order source
unfolding set_pseudo
set_pseudo_lem none source d h = set_all_lem source [] h (Apart-nil source)
set_pseudo_lem (some order) source d h =
    let rest = Rest-set_ordered order source source [] (Apart-nil source) in
    set_unlisted_lem order source (set_ordered order source []) h rest
    ∙ set_unseen_lem order source (set_ordered order source []) h rest
    ∙ ap (λ m. m ++ unpicked order source)
        (set_ordered_lem order source [] d (Free-Apart order source [] (Apart-nil source)))

set_regular_lem :
    (order : Option (List Text)) (source m : Headers)
    → IsOrder order
    → IsMap source
    → Apart source m
    → set_regular order source m ≡ m ++ arrange order source
unfolding set_regular
set_regular_lem none source m d h apart = set_all_lem source m h apart
set_regular_lem (some order) source m d h apart =
    let rest = Rest-set_ordered order source source m apart in
    set_unseen_lem (seen_names order source) source (set_ordered order source m) h
      (Rest-seen order source source (set_ordered order source m) (Within-self source) rest)
    ∙ ap (◌++◌ (set_ordered order source m)) (seen_same order source source (Within-self source))
    ∙ ap (λ l. l ++ unpicked order source)
        (set_ordered_lem order source m d (Free-Apart order source m apart))
    ∙ append_assoc m (picked order source) (unpicked order source)

Apart-set_pseudo :
    (order : Option (List Text)) (source part : Headers)
    → IsMap source
    → Apart part source
    → Apart part (set_pseudo order source [])
Apart-set_pseudo order source [] h apart = tt
Apart-set_pseudo order source ((n, v) ∷ part) h (here, apart) = (
  has-get n (set_pseudo order source [])
      ∙ ap (λ (o : Option Text). not (is_none o)) (get-set_pseudo n order source h)
      ∙ sym (has-get n source)
      ∙ here,
  Apart-set_pseudo order source part h apart,
)

-- Where no order names a header twice, and no regular header is named like a pseudo-header, the
-- headers of a request are: the pseudo-headers that their order names, in its order, then the
-- other pseudo-headers in the order of RFC 7540, then the regular headers that their order
-- names, in its order, then the others in the order that the caller gave them.
pub build_request_headers_lem :
    (options : Http2Options) (req : Http2Request)
    → IsOrder options.pseudo_header_order
    → IsOrder options.header_order
    → IsMap req.headers
    → Apart req.headers (pseudo_sources req)
    → build_request_headers options req
      ≡ arrange options.pseudo_header_order (pseudo_sources req)
        ++ arrange options.header_order req.headers
unfolding build_request_headers
build_request_headers_lem options req pseudo regular h apart =
    let source = pseudo_sources req in
    let front = options.pseudo_header_order in
    set_regular_lem options.header_order req.headers (set_pseudo front source []) regular h
      (Apart-set_pseudo front source req.headers (pseudo_sources-IsMap req) apart)
    ∙ ap (λ m. m ++ arrange options.header_order req.headers)
        (set_pseudo_lem front source pseudo (pseudo_sources-IsMap req))
