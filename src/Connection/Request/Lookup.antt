-- ===== src/Connection/Request/Lookup.antt =====
-- src/connection.ts: what the headers of a request hold, whatever order is asked for.
use browsercore_http.Common.{
  ◌≡◌, refl, ap, ◌∙◌, arith, true, not, ◌&&◌, Option, none, some, List, [], ◌∷◌, if◌then◌else◌,
  Text, text_eq, text_eq→eq, inl, inr, Option-cases, is_none,
}
use browsercore_http.Common.Dict.{Headers, get, has, set, IsMap, get-set, has-get}
use browsercore_http.Connection.Request.{
  Http2Options, Http2Request, pseudo_sources, includes_name, set_all, set_ordered, set_unlisted,
  set_pseudo, seen_names, set_unseen, set_regular, build_request_headers,
}

-- The first of two values that is there.
abbrev pub prefer {ℓ} : {A : Type ℓ} → Option A → Option A → Option A
prefer none o = o
prefer (some a) o = some a

get_same : (j k : Text) (m : Headers) → text_eq j k ≡ true → get j m ≡ get k m
get_same j k m h = rw (text_eq→eq j k h)

includes_name_same :
    (j k : Text) (order : List Text)
    → text_eq j k ≡ true
    → includes_name j order ≡ includes_name k order
includes_name_same j k order h = rw (text_eq→eq j k h)

get-set_all :
    (k : Text) (source m : Headers)
    → IsMap source
    → get k (set_all source m) ≡ prefer (get k source) (get k m)
unfolding set_all get
get-set_all k [] m h = refl
get-set_all k ((n, v) ∷ source) m h = ground (
  arith,
  get-set_all k source (set n v m) h.1,
  get-set k n v m,
  has-get n source,
  get_same n k source,
)

pub get-set_ordered :
    (k : Text) (order : List Text) (source m : Headers)
    → get k (set_ordered order source m)
      ≡ (if includes_name k order then prefer (get k source) (get k m) else get k m)
unfolding set_ordered includes_name
get-set_ordered k [] source m = refl
get-set_ordered k (n ∷ order) source m = elim (Option-cases (get n source)) [
  | inl none_ ↦ ground (arith, none_, get-set_ordered k order source m, get_same n k source)
  | inr (v, found) ↦ ground (
    arith,
    found,
    get-set_ordered k order source (set n v m),
    get-set k n v m,
    get_same n k source,
  )
]

get-set_unlisted :
    (k : Text) (order : List Text) (source m : Headers)
    → IsMap source
    → get k (set_unlisted order source m)
      ≡ prefer (get k m) (if includes_name k order then none else get k source)
unfolding set_unlisted get
get-set_unlisted k order [] m h = ground arith
get-set_unlisted k order ((n, v) ∷ source) m h = ground (
  arith,
  get-set_unlisted k order source (set n v m) h.1,
  get-set_unlisted k order source m h.1,
  get-set k n v m,
  has-get n m,
  has-get n source,
  get_same n k source,
  get_same n k m,
  includes_name_same n k order,
)

pub includes_name-seen_names :
    (k : Text) (order : List Text) (source : Headers)
    → includes_name k (seen_names order source)
      ≡ includes_name k order && not (is_none (get k source))
unfolding includes_name seen_names
includes_name-seen_names k [] source = refl
includes_name-seen_names k (n ∷ order) source =
    ground (arith, includes_name-seen_names k order source, get_same n k source)

get-set_unseen :
    (k : Text) (seen : List Text) (source m : Headers)
    → IsMap source
    → get k (set_unseen seen source m)
      ≡ (if includes_name k seen then get k m else prefer (get k source) (get k m))
unfolding set_unseen get
get-set_unseen k seen [] m h = ground arith
get-set_unseen k seen ((n, v) ∷ source) m h = ground (
  arith,
  get-set_unseen k seen source (set n v m) h.1,
  get-set_unseen k seen source m h.1,
  get-set k n v m,
  has-get n source,
  get_same n k source,
  includes_name_same n k seen,
)

pub get-set_pseudo :
    (k : Text) (order : Option (List Text)) (source : Headers)
    → IsMap source
    → get k (set_pseudo order source []) ≡ get k source
unfolding set_pseudo get
get-set_pseudo k none source h = ground (arith, get-set_all k source [] h)
get-set_pseudo k (some order) source h = ground (
  arith,
  get-set_unlisted k order source (set_ordered order source []) h,
  get-set_ordered k order source [],
)

get-set_regular :
    (k : Text) (order : Option (List Text)) (source m : Headers)
    → IsMap source
    → get k (set_regular order source m) ≡ prefer (get k source) (get k m)
unfolding set_regular
get-set_regular k none source m h = get-set_all k source m h
get-set_regular k (some order) source m h = ground (
  arith,
  get-set_unseen k (seen_names order source) source (set_ordered order source m) h,
  includes_name-seen_names k order source,
  get-set_ordered k order source m,
)

pub pseudo_sources-IsMap : (req : Http2Request) → IsMap (pseudo_sources req)
unfolding has text_eq
pseudo_sources-IsMap req = (refl, (refl, (refl, (refl, tt))))

-- Under every pair of orders, a name is looked up in the headers of a request as in the headers that
-- the caller gave, and as a pseudo-header where those do not have it: the orders add, lose and
-- change nothing.
pub get-build_request_headers :
    (options : Http2Options) (req : Http2Request) (k : Text)
    → IsMap req.headers
    → get k (build_request_headers options req)
      ≡ prefer (get k req.headers) (get k (pseudo_sources req))
unfolding build_request_headers
get-build_request_headers options req k h =
    get-set_regular k options.header_order req.headers _ h
    ∙ ap (prefer (get k req.headers)) (
        get-set_pseudo k options.pseudo_header_order (pseudo_sources req)
          (pseudo_sources-IsMap req))
