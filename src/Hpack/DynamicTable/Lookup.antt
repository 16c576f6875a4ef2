-- ===== src/Hpack/DynamicTable/Lookup.antt =====
-- src/hpack/dynamic-table.ts: how `resolveIndex` numbers the entries of both tables. The comment at
-- the top of that file gives the newest entry the highest index; the code gives it the lowest of
-- the dynamic table, as RFC 7541 does, and the code is what is modelled.
use browsercore_http.Common.{
  ℕ, zero, suc, ◌+◌, ◌-◌, ◌≤◌, ◌≡◌, refl, sym, ap, ◌∙◌, arith, none, some, List, [], ◌∷◌, Text, ◌⊎◌,
  inl, inr, get_elem?,
}
use browsercore_http.Hpack.StaticTable.{Entry, entry, static_table_length}
use browsercore_http.Hpack.DynamicTable.{
  DynamicTable, dynamic, add, resolve_index, resolved_in, entry_size,
}
use browsercore_http.Hpack.DynamicTable.Eviction.{IsSized, keep_newest, add_lem, add_budget}

pub static_table_length_lem : static_table_length ≡ 61
unfolding static_table_length
static_table_length_lem = refl

-- What survives an eviction keeps its place.
get_elem?-keep_newest :
    (budget k : ℕ) (es : List Entry)
    → (get_elem? (keep_newest budget es) k ≡ none)
      ⊎ (get_elem? (keep_newest budget es) k ≡ get_elem? es k)
unfolding keep_newest
get_elem?-keep_newest budget k [] = inr refl
get_elem?-keep_newest budget zero (e ∷ es) = ground arith
get_elem?-keep_newest budget (suc k) (e ∷ es) =
    ground (arith, get_elem?-keep_newest (budget - entry_size e) k es)

back : (k : ℕ) → 62 + k - static_table_length - 1 + 1 - 1 ≡ k
back k = omega (arith, static_table_length_lem)

next : (k : ℕ) → 63 + k ≡ 62 + suc k
next k = omega arith

resolve_dynamic :
    (k : ℕ) (t : DynamicTable)
    → resolve_index (62 + k) t ≡ resolved_in dynamic (get_elem? t.entries k)
unfolding resolve_index
resolve_dynamic k t = ground (arith, static_table_length_lem, ap (get_elem? t.entries) (back k))

-- On a table whose size is the total of its entries, index 62 is the entry that was just added,
-- and the entry that was at 62 + k is at 63 + k from then on, or
-- evicted. What an index up to 61 resolves to does not change.
pub resolve_index-add :
    (name value : Text) (t : DynamicTable) (k i : ℕ)
    → IsSized t
    → i ≤ 61
    → (resolve_index 62 (add name value t)
        ≡ some (record { source = dynamic; name = name; value = value }))
      × ((resolve_index (63 + k) (add name value t) ≡ none)
          ⊎ (resolve_index (63 + k) (add name value t) ≡ resolve_index (62 + k) t))
      × (resolve_index i (add name value t) ≡ resolve_index i t)
resolve_index-add name value t k i sized low = (
  resolve_dynamic 0 (add name value t) ∙ rw listed (unfold resolved_in in refl),
  older,
  unfold resolve_index in ground (arith, static_table_length_lem),
)
  where
    room : ℕ
    room = add_budget name value t - entry_size (entry name value)

    listed : (add name value t).entries ≡ entry name value ∷ keep_newest room t.entries
    listed = (add_lem name value t sized).1

    at :
        resolve_index (63 + k) (add name value t)
        ≡ resolved_in dynamic (get_elem? (keep_newest room t.entries) k)
    at =
        ap (λ (i : ℕ). resolve_index i (add name value t)) (next k)
        ∙ resolve_dynamic (suc k) (add name value t)
        ∙ ap (λ (es : List Entry). resolved_in dynamic (get_elem? es (suc k))) listed

    older :
        (resolve_index (63 + k) (add name value t) ≡ none)
        ⊎ (resolve_index (63 + k) (add name value t) ≡ resolve_index (62 + k) t)
    older = elim (get_elem?-keep_newest room k t.entries) [
      | inl gone ↦ inl (at ∙ rw gone (unfold resolved_in in refl))
      | inr same ↦ inr (at ∙ ap (resolved_in dynamic) same ∙ sym (resolve_dynamic k t))
    ]
