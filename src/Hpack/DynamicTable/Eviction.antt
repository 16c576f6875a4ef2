-- ===== src/Hpack/DynamicTable/Eviction.antt =====
-- src/hpack/dynamic-table.ts: the size of the table is what its entries add up to, and eviction
-- keeps the longest run of newest entries that fits.
use browsercore_http.Common.{
  ℕ, zero, suc, ◌+◌, ◌-◌, ◌≤◌, ◌<◌, ◌≡◌, refl, ap, ◌∙◌, arith, Option, none, some, List, [], ◌∷◌,
  ◌++◌, ltb, leb, if◌then◌else◌, length, length-append, Text, ◌⊎◌, inl, inr, Bool-cases,
}
use browsercore_http.Hpack.StaticTable.{Entry, entry}
use browsercore_http.Hpack.DynamicTable.{
  DynamicTable, entry_size, pop, evict_loop, evict_to_fit, add, set_limit,
}

abbrev pub total_size : List Entry → ℕ
total_size [] = 0
total_size (e ∷ es) = entry_size e + total_size es

-- `currentSize` is the total of the entries.
abbrev pub IsSized : DynamicTable → Type 0
IsSized t = t.current_size ≡ total_size t.entries

-- RFC 7541: the longest run of newest entries within the budget.
unfoldable pub keep_newest : ℕ → List Entry → List Entry
keep_newest budget [] = []
keep_newest budget (e ∷ es) =
    let rest = keep_newest (budget - entry_size e) es in
    if leb (entry_size e) budget then e ∷ rest else []

total_size-append : (xs ys : List Entry) → total_size (xs ++ ys) ≡ total_size xs + total_size ys
total_size-append [] ys = omega arith
total_size-append (x ∷ xs) ys = omega (arith, total_size-append xs ys)

keep_newest_all :
    (budget : ℕ) (es : List Entry) → total_size es ≤ budget → keep_newest budget es ≡ es
unfolding keep_newest
keep_newest_all budget [] h = refl
keep_newest_all budget (e ∷ es) h = ground (arith, keep_newest_all (budget - entry_size e) es)

keep_newest_drop :
    (budget : ℕ) (front : List Entry) (last : Entry)
    → budget < total_size (front ++ (last ∷ []))
    → keep_newest budget (front ++ (last ∷ [])) ≡ keep_newest budget front
unfolding keep_newest
keep_newest_drop budget [] last h = ground arith
keep_newest_drop budget (e ∷ front) last h =
    ground (arith, keep_newest_drop (budget - entry_size e) front last)

pub keep_newest-le : (budget : ℕ) (es : List Entry) → total_size (keep_newest budget es) ≤ budget
unfolding keep_newest
keep_newest-le budget [] = omega arith
keep_newest-le budget (e ∷ es) = ground (arith, keep_newest-le (budget - entry_size e) es)

-- `pop` splits the last entry off.
abbrev Pops : List Entry → Option (Entry × List Entry) → Type 0
Pops es r =
    ((es ≡ []) × (r ≡ none))
    ⊎ ((last : Entry) × (front : List Entry) × (es ≡ front ++ (last ∷ []))
        × (r ≡ some (last, front)))

pop-Pops : (es : List Entry) → Pops es (pop es)
unfolding pop
pop-Pops [] = inl (refl, refl)
pop-Pops (e ∷ es) = inr (elim (pop-Pops es) [
  | inl (x, y) ↦ (e, [], rw x, rw y)
  | inr (last, front, x, y) ↦ (last, e ∷ front, ap (λ l. e ∷ l) x, rw y)
])

nil_of_length : (es : List Entry) → length es ≤ 0 → es ≡ []
nil_of_length [] h = refl
nil_of_length (e ∷ es) h = absurd (omega arith)

nothing : (budget : ℕ) → keep_newest budget [] ≡ []
unfolding keep_newest
nothing budget = refl

shrink :
    (last : Entry) (front : List Entry) (t : DynamicTable)
    → t.entries ≡ front ++ (last ∷ [])
    → (total_size t.entries ≡ total_size front + entry_size last)
      × (length t.entries ≡ length front + 1)
shrink last front t x =
    rw x (omega (arith, total_size-append front (last ∷ [])), length-append front (last ∷ []))

evict_loop_lem :
    (fuel budget : ℕ) (t : DynamicTable)
    → IsSized t
    → length t.entries ≤ fuel
    → IsSized (evict_loop fuel budget t)
      × ((evict_loop fuel budget t).entries ≡ keep_newest budget t.entries)
      × ((evict_loop fuel budget t).max_size ≡ t.max_size)
unfolding evict_loop
evict_loop_lem zero budget t sized room =
    let e = nil_of_length t.entries room in
    ground (arith, e, ap (keep_newest budget) e, nothing budget)
evict_loop_lem (suc fuel) budget t sized room = elim (Bool-cases (ltb budget t.current_size)) [
  | inr small ↦ ground (arith, keep_newest_all budget t.entries)
  | inl large ↦ elim (pop-Pops t.entries) [
    | inl (x, y) ↦ ground (arith, x, y)
    | inr (last, front, x, y) ↦ ground (
      arith,
      x,
      y,
      large,
      shrink last front t x,
      keep_newest_drop budget front last,
      evict_loop_lem fuel budget
          (record t { entries = front; current_size = t.current_size - entry_size last }),
    )
  ]
]

-- After eviction the table is sized, and holds the longest run of newest entries within the budget.
pub evict_to_fit_lem :
    (budget : ℕ) (t : DynamicTable)
    → IsSized t
    → IsSized (evict_to_fit budget t)
      × ((evict_to_fit budget t).entries ≡ keep_newest budget t.entries)
      × ((evict_to_fit budget t).max_size ≡ t.max_size)
unfolding evict_to_fit
evict_to_fit_lem budget t sized = evict_loop_lem (length t.entries) budget t sized (omega arith)

-- What `add` leaves room for: the limit, or the new entry alone where that is larger.
abbrev pub add_budget : Text → Text → DynamicTable → ℕ
add_budget name value t =
    if leb (entry_size (entry name value)) t.max_size
    then t.max_size
    else entry_size (entry name value)

-- On a table whose size is the total of its entries, `add` puts the new entry in front, keeps the
-- longest run of older entries for which there is room behind it, leaves the limit alone, and
-- gives a table whose size is the total of its entries and within that room.
pub add_lem :
    (name value : Text) (t : DynamicTable)
    → IsSized t
    → IsSized (add name value t)
      × ((add name value t).entries
          ≡ entry name value
            ∷ keep_newest (add_budget name value t - entry_size (entry name value)) t.entries)
      × ((add name value t).max_size ≡ t.max_size)
      × ((add name value t).current_size ≤ add_budget name value t)
add_lem name value t sized =
    (after.0, after.1 ∙ front, after.2, omega (arith, after.0, ap total_size after.1, small))
  where
    grown : DynamicTable
    grown = record t {
      entries = entry name value ∷ t.entries;
      current_size = t.current_size + entry_size (entry name value);
    }

    after :
        IsSized (add name value t)
        × ((add name value t).entries ≡ keep_newest (add_budget name value t) grown.entries)
        × ((add name value t).max_size ≡ t.max_size)
    after = unfold add in evict_to_fit_lem (add_budget name value t) grown (omega (arith, sized))

    small :
        total_size (keep_newest (add_budget name value t) grown.entries) ≤ add_budget name value t
    small = keep_newest-le (add_budget name value t) grown.entries

    front :
        keep_newest (add_budget name value t) grown.entries
        ≡ entry name value
          ∷ keep_newest (add_budget name value t - entry_size (entry name value)) t.entries
    front = unfold keep_newest in ground arith

-- On a table whose size is the total of its entries, `setLimit` installs the limit, keeps the
-- longest run of newest entries within it, and gives a table whose size is the total of its
-- entries and at most the limit.
pub set_limit_lem :
    (new_limit : ℕ) (t : DynamicTable)
    → IsSized t
    → IsSized (set_limit new_limit t)
      × ((set_limit new_limit t).entries ≡ keep_newest new_limit t.entries)
      × ((set_limit new_limit t).max_size ≡ new_limit)
      × ((set_limit new_limit t).current_size ≤ new_limit)
set_limit_lem new_limit t sized = (
  after.0,
  after.1,
  after.2,
  omega (arith, after.0, ap total_size after.1, keep_newest-le new_limit t.entries),
)
  where
    after :
        IsSized (set_limit new_limit t)
        × ((set_limit new_limit t).entries ≡ keep_newest new_limit t.entries)
        × ((set_limit new_limit t).max_size ≡ new_limit)
    after = unfold set_limit in evict_to_fit_lem new_limit (record t { max_size = new_limit }) sized
