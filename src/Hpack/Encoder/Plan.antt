-- ===== src/Hpack/Encoder/Plan.antt =====
-- src/hpack/encoder.ts: an index that `planHeader` finds stands for the entry that it was sought for.
use browsercore_http.Common.{
  ℕ, suc, ◌+◌, ◌-◌, ◌≤◌, ◌<◌, ◌≡◌, refl, ap, arith, ◌&&◌, some, List, [], ◌∷◌, length, Text, inl,
  inr, get_elem?, text_eq, text_eq→eq, Bool-cases,
}
use browsercore_http.Hpack.StaticTable.{Entry, static_table, static_table_length}
use browsercore_http.Hpack.DynamicTable.{DynamicTable, static, resolve_index}
use browsercore_http.Hpack.DynamicTable.Lookup.{static_table_length_lem}
use browsercore_http.Hpack.Encoder.{
  find_exact_from, find_name_from, find_static_exact_index, find_static_name_index,
}

-- The entry stands `j` places behind the index that the search began with.
abbrev FoundAt : ℕ → ℕ → List Entry → (Entry → Type 0) → Type 0
FoundAt index k es P =
    (j : ℕ) × (e : Entry) × (k ≡ index + j) × (j < length es) × (get_elem? es j ≡ some e) × P e

later :
    {P : Entry → Type 0} (index k : ℕ) (x : Entry) (es : List Entry)
    → FoundAt (index + 1) k es P
    → FoundAt index k (x ∷ es) P
later index k x es (j, e, at, below, found, p) = (suc j, e, omega arith, omega arith, found, p)

find_name_from-FoundAt :
    (index : ℕ) (es : List Entry) (name : Text) (k : ℕ)
    → find_name_from index es name ≡ some k
    → FoundAt index k es (λ e. e.name ≡ name)
unfolding find_name_from
find_name_from-FoundAt index [] name k h = absurd (cc)
find_name_from-FoundAt index (x ∷ es) name k h = elim (Bool-cases (text_eq x.name name)) [
  | inl hit ↦ (0, x, ground arith, omega arith, refl, text_eq→eq x.name name hit)
  | inr miss ↦ later index k x es (find_name_from-FoundAt (index + 1) es name k (ground arith))
]

find_exact_from-FoundAt :
    (index : ℕ) (es : List Entry) (name value : Text) (k : ℕ)
    → find_exact_from index es name value ≡ some k
    → FoundAt index k es (λ e. (e.name ≡ name) × (e.value ≡ value))
unfolding find_exact_from
find_exact_from-FoundAt index [] name value k h = absurd (cc)
find_exact_from-FoundAt index (x ∷ es) name value k h =
    elim (Bool-cases (text_eq x.name name && text_eq x.value value)) [
      | inl hit ↦ (
        0,
        x,
        ground arith,
        omega arith,
        refl,
        (text_eq→eq x.name name (ground arith), text_eq→eq x.value value (ground arith)),
      )
      | inr miss ↦
          later index k x es (find_exact_from-FoundAt (index + 1) es name value k (ground arith))
    ]

-- An index of the static table resolves to its entry, whatever the dynamic table holds.
resolve_static :
    (j : ℕ) (e : Entry) (t : DynamicTable)
    → j < 61
    → get_elem? static_table j ≡ some e
    → resolve_index (1 + j) t ≡ some (record { source = static; name = e.name; value = e.value })
unfolding resolve_index
resolve_static j e t below found =
    ground (arith, static_table_length_lem, ap (get_elem? static_table) (back j))
  where
    back : (i : ℕ) → 1 + i - 1 ≡ i
    back i = omega arith

static_length : length static_table ≡ 61
unfolding static_table_length
static_length = static_table_length_lem

-- The index of a name is at least 1 and resolves to an entry of that name in every decoder's table.
pub resolve_index-find_static_name_index :
    (name : Text) (t : DynamicTable) (k : ℕ)
    → find_static_name_index name ≡ some k
    → (value : Text) × (resolve_index k t
        ≡ some (record { source = static; name = name; value = value }))
      × (1 ≤ k)
unfolding find_static_name_index
resolve_index-find_static_name_index name t k h =
    let (j, e, at, below, found, same) = find_name_from-FoundAt 1 static_table name k h in
    (
      e.value,
      ground (arith, at, same, resolve_static j e t (omega (arith, static_length)) found),
      omega arith,
    )

-- The index of a name and value resolves to both in every decoder's table.
pub resolve_index-find_static_exact_index :
    (name value : Text) (t : DynamicTable) (k : ℕ)
    → find_static_exact_index name value ≡ some k
    → resolve_index k t ≡ some (record { source = static; name = name; value = value })
unfolding find_static_exact_index
resolve_index-find_static_exact_index name value t k h =
    let (j, e, at, below, found, same) = find_exact_from-FoundAt 1 static_table name value k h in
    ground (arith, at, same, resolve_static j e t (omega (arith, static_length)) found)
