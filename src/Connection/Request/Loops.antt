-- ===== src/Connection/Request/Loops.antt =====
-- src/connection.ts: what each loop of `buildRequestHeaders` makes of the headers in front of it.
use browsercore_http.Common.{
  ◌≡◌, refl, sym, ◌∙◌, arith, true, false, not, ◌&&◌, Option, none, some, List, [], ◌∷◌, ◌++◌,
  if◌then◌else◌, Text, text_eq, text_eq→eq, inl, inr, Bool-cases, Option-cases, All, append_assoc,
  append-nil,
}
use browsercore_http.Common.Dict.{
  Headers, get, has, IsMap, set_fresh, has-append, has-get, text_eq_comm,
}
use browsercore_http.Connection.Request.{
  includes_name, set_all, set_ordered, set_unlisted, set_unseen,
}
use browsercore_http.Connection.Request.Lookup.{get-set_ordered}

-- The entries that an order names, in its order, and the others, in theirs.
abbrev pub picked : List Text → Headers → Headers
picked [] source = []
picked (name ∷ order) source = elim (get name source) [
  | none ↦ picked order source
  | some value ↦ (name, value) ∷ picked order source
]

abbrev pub unpicked : List Text → Headers → Headers
unpicked order [] = []
unpicked order ((name, value) ∷ source) =
    if includes_name name order
    then unpicked order source
    else (name, value) ∷ unpicked order source

abbrev pub arrange : Option (List Text) → Headers → Headers
arrange none source = source
arrange (some order) source = picked order source ++ unpicked order source

abbrev pub IsDistinct : List Text → Type 0
IsDistinct [] = Unit {0}
IsDistinct (name ∷ order) = (includes_name name order ≡ false) × IsDistinct order

abbrev pub IsOrder : Option (List Text) → Type 0
IsOrder none = Unit {0}
IsOrder (some order) = IsDistinct order

-- No name of the one map is in the other.
abbrev pub Apart : Headers → Headers → Type 0
Apart source m = All (λ entry. has entry.0 m ≡ false) source

-- A name of the order that the source has is not in the map yet.
abbrev pub Free : List Text → Headers → Headers → Type 0
Free order source m = All (λ n. (has n source && has n m) ≡ false) order

has-extended :
    (k n v : Text) (m : Headers)
    → text_eq n k ≡ false
    → has k m ≡ false
    → has k (m ++ ((n, v) ∷ [])) ≡ false
unfolding has
has-extended k n v m other old = ground (arith, has-append k m ((n, v) ∷ []), other, old)

Free-extended :
    (order : List Text) (source m : Headers) (n v : Text)
    → includes_name n order ≡ false
    → Free order source m
    → Free order source (m ++ ((n, v) ∷ []))
unfolding has includes_name
Free-extended [] source m n v new h = tt
Free-extended (k ∷ order) source m n v new (free, h) = (
  ground (arith, has-append k m ((n, v) ∷ []), text_eq_comm n k, new, free),
  Free-extended order source m n v (ground (arith, new)) h,
)

Apart-extended :
    (source m : Headers) (n v : Text)
    → has n source ≡ false
    → Apart source m
    → Apart source (m ++ ((n, v) ∷ []))
unfolding has
Apart-extended [] m n v new h = tt
Apart-extended ((k, w) ∷ source) m n v new (free, h) = (
  ground (arith, has-append k m ((n, v) ∷ []), text_eq_comm n k, new, free),
  Apart-extended source m n v (ground (arith, new)) h,
)

pub set_all_lem :
    (source m : Headers) → IsMap source → Apart source m → set_all source m ≡ m ++ source
unfolding set_all
set_all_lem [] m h free = sym (append-nil m)
set_all_lem ((n, v) ∷ source) m (new, h) (here, free) = rw (set_fresh n v m here) (
    set_all_lem source (m ++ ((n, v) ∷ [])) h (Apart-extended source m n v new free)
    ∙ append_assoc m ((n, v) ∷ []) source)

pub set_ordered_lem :
    (order : List Text) (source m : Headers)
    → IsDistinct order
    → Free order source m
    → set_ordered order source m ≡ m ++ picked order source
unfolding set_ordered
set_ordered_lem [] source m h free = sym (append-nil m)
set_ordered_lem (n ∷ order) source m (new, h) (here, free) = elim (Option-cases (get n source)) [
  | inl none_ ↦ rw (set_ordered, picked, none_) (set_ordered_lem order source m h free)
  | inr (v, found) ↦
      let absent : has n m ≡ false = ground (arith, has-get n source, found, here) in
      rw (set_ordered, picked, found, set_fresh n v m absent)
        (set_ordered_lem order source (m ++ ((n, v) ∷ [])) h
            (Free-extended order source m n v new free)
          ∙ append_assoc m ((n, v) ∷ []) (picked order source))
]

-- The entries that no order names are not in the map yet.
abbrev pub Rest : List Text → Headers → Headers → Type 0
Rest order source m =
    All (λ entry. (not (includes_name entry.0 order) && has entry.0 m) ≡ false) source

Rest-extended :
    (order : List Text) (source m : Headers) (n v : Text)
    → has n source ≡ false
    → Rest order source m
    → Rest order source (m ++ ((n, v) ∷ []))
unfolding has
Rest-extended order [] m n v new h = tt
Rest-extended order ((k, w) ∷ source) m n v new (free, h) = (
  ground (arith, has-append k m ((n, v) ∷ []), text_eq_comm n k, new, free),
  Rest-extended order source m n v (ground (arith, new)) h,
)

pub set_unseen_lem :
    (seen : List Text) (source m : Headers)
    → IsMap source
    → Rest seen source m
    → set_unseen seen source m ≡ m ++ unpicked seen source
unfolding set_unseen
set_unseen_lem seen [] m h rest = sym (append-nil m)
set_unseen_lem seen ((n, v) ∷ source) m (new, h) (here, rest) =
    elim (Bool-cases (includes_name n seen)) [
      | inl old ↦ rw (set_unseen, old) (set_unseen_lem seen source m h rest)
      | inr fresh ↦
          let absent : has n m ≡ false = ground (arith, here, fresh) in
          rw (set_unseen, fresh, set_fresh n v m absent)
            (set_unseen_lem seen source (m ++ ((n, v) ∷ [])) h
                (Rest-extended seen source m n v new rest)
              ∙ append_assoc m ((n, v) ∷ []) (unpicked seen source))
    ]

-- With nothing in the way, the two loops over what is left are the same.
pub set_unlisted_lem :
    (order : List Text) (source m : Headers)
    → IsMap source
    → Rest order source m
    → set_unlisted order source m ≡ set_unseen order source m
unfolding set_unlisted set_unseen
set_unlisted_lem order [] m h rest = refl
set_unlisted_lem order ((n, v) ∷ source) m (new, h) (here, rest) =
    elim (Bool-cases (includes_name n order)) [
      | inl old ↦ rw (set_unlisted, set_unseen, old) (set_unlisted_lem order source m h rest)
      | inr fresh ↦
          let absent : has n m ≡ false = ground (arith, here, fresh) in
          rw (set_unlisted, set_unseen, fresh, absent, set_fresh n v m absent)
            (set_unlisted_lem order source (m ++ ((n, v) ∷ [])) h
              (Rest-extended order source m n v new rest))
    ]

has_same : (j k : Text) (m : Headers) → text_eq j k ≡ true → has j m ≡ has k m
has_same j k m h = rw (text_eq→eq j k h)

Apart-has : (n : Text) (source m : Headers) → Apart source m → (has n source && has n m) ≡ false
unfolding has
Apart-has n [] m h = refl
Apart-has n ((k, v) ∷ source) m (here, h) =
    ground (arith, here, Apart-has n source m h, has_same k n m)

pub Free-Apart : (order : List Text) (source m : Headers) → Apart source m → Free order source m
Free-Apart [] source m h = tt
Free-Apart (n ∷ order) source m h = (Apart-has n source m h, Free-Apart order source m h)

pub Apart-nil : (source : Headers) → Apart source []
unfolding has
Apart-nil [] = tt
Apart-nil (entry ∷ source) = (refl, Apart-nil source)

pub Rest-set_ordered :
    (order : List Text) (source part m : Headers)
    → Apart part m
    → Rest order part (set_ordered order source m)
Rest-set_ordered order source [] m h = tt
Rest-set_ordered order source ((k, v) ∷ part) m (here, h) = (
  ground (
    arith,
    has-get k (set_ordered order source m),
    get-set_ordered k order source m,
    has-get k m,
    here,
  ),
  Rest-set_ordered order source part m h,
)
