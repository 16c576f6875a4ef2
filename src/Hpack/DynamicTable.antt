-- ===== src/Hpack/DynamicTable.antt =====
-- src/hpack/dynamic-table.ts: the bounded table of header fields, newest entry first.
pub mod Eviction
pub mod Lookup
use browsercore_http.Common.{
  ℕ, zero, suc, ◌+◌, ◌-◌, Bool, true, false, ◌&&◌, Option, none, some, List, [], ◌∷◌, ltb, leb,
  ◌==◌, if◌then◌else◌, length, get_elem?, Text,
}
use browsercore_http.Hpack.StaticTable.{
  Entry, entry, static_table, static_table_length, table_entry_overhead,
}

abbrev pub default_table_size_limit : ℕ
default_table_size_limit = 4096

pub record DynamicTable : Type 0 where
  pub entries : List Entry
  pub current_size : ℕ
  pub max_size : ℕ

unfoldable pub new_table : ℕ → DynamicTable
new_table limit = record { entries = []; current_size = 0; max_size = limit }

-- `name.length + value.length + TABLE_ENTRY_OVERHEAD`.
unfoldable pub entry_size : Entry → ℕ
entry_size e = length e.name + length e.value + table_entry_overhead

unfoldable pub get : DynamicTable → ℕ → Option Entry
get t index = get_elem? t.entries (index - 1)

-- `Array.prototype.pop`: the last entry and the entries before it.
unfoldable pub pop : List Entry → Option (Entry × List Entry)
pop [] = none
pop (e ∷ es) = elim (pop es) [ none ↦ some (e, []) | some (last, front) ↦ some (last, e ∷ front) ]

-- The loop of `evictToFit`; a round takes an entry, so the number of entries is fuel enough.
unfoldable pub evict_loop : ℕ → ℕ → DynamicTable → DynamicTable
unfolding entry_size pop
evict_loop zero budget t = t
evict_loop (suc fuel) budget t =
    if ltb budget t.current_size
    then (elim (pop t.entries) [
      | none ↦ t
      | some (removed, front) ↦
          evict_loop fuel budget
            (record t { entries = front; current_size = t.current_size - entry_size removed })
    ])
    else t

unfoldable pub evict_to_fit : ℕ → DynamicTable → DynamicTable
unfolding evict_loop
evict_to_fit budget t = evict_loop (length t.entries) budget t

unfoldable pub add : Text → Text → DynamicTable → DynamicTable
unfolding evict_to_fit entry_size
add name value t =
    let added = entry_size (entry name value) in
    let grown : DynamicTable = record t {
      entries = entry name value ∷ t.entries;
      current_size = t.current_size + added;
    } in
    evict_to_fit (if leb added t.max_size then t.max_size else added) grown

unfoldable pub set_limit : ℕ → DynamicTable → DynamicTable
unfolding evict_to_fit
set_limit new_limit t = evict_to_fit new_limit (record t { max_size = new_limit })

pub data Source : Type 0 where
  static dynamic : Source

-- `ResolvedHeader`.
pub record Resolved : Type 0 where
  pub source : Source
  pub name : Text
  pub value : Text

unfoldable pub resolved_in : Source → Option Entry → Option Resolved
resolved_in source none = none
resolved_in source (some e) = some (record { source = source; name = e.name; value = e.value })

unfoldable pub resolve_index : ℕ → DynamicTable → Option Resolved
unfolding resolved_in get
resolve_index index dynamic_table =
    if index == 0
    then none
    else if leb index static_table_length
    then resolved_in static (get_elem? static_table (index - 1))
    else (let dynamic_index = index - static_table_length - 1 in
        resolved_in dynamic (get dynamic_table (dynamic_index + 1)))
