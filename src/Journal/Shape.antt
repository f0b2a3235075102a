-- ===== src/Journal/Shape.antt =====
-- What `_walk_json` of team/power_journal.py lets pass, described apart from it: the kinds of values,
-- their number of nodes, and their height.
use shimpz_drivers.Prelude.{ℕ, ◌+◌, suc, Bool, true, false, ◌&&◌, if◌then◌else◌, leb}
use shimpz_drivers.Value.{
  Value, float, list, tuple, dict, object, Items, nil, cons, Entries, end, entry,
}
use shimpz_drivers.Journal.Json.{is_finite, is_str}

abbrev pub larger : ℕ → ℕ → ℕ
larger m n = if leb m n then n else m

-- A value is JSON if it has only finite numbers, and lists and dicts whose keys are strings.
unfoldable mutual
  pub is_json : Value → Bool
  is_json (float bits) = is_finite bits
  is_json (list items) = items_json items
  is_json (dict entries) = entries_json entries
  is_json (tuple items) = false
  is_json object = false
  is_json _ = true

  pub items_json : Items → Bool
  items_json nil = true
  items_json (cons item items) = is_json item && items_json items

  pub entries_json : Entries → Bool
  entries_json end = true
  entries_json (entry key item entries) = is_str key && (is_json item && entries_json entries)

unfoldable mutual
  pub nodes : Value → ℕ
  nodes (list items) = suc (items_nodes items)
  nodes (dict entries) = suc (entries_nodes entries)
  nodes _ = 1

  pub items_nodes : Items → ℕ
  items_nodes nil = 0
  items_nodes (cons item items) = nodes item + items_nodes items

  pub entries_nodes : Entries → ℕ
  entries_nodes end = 0
  entries_nodes (entry key item entries) = nodes item + entries_nodes entries

unfoldable mutual
  pub height : Value → ℕ
  height (list items) = items_height items
  height (dict entries) = entries_height entries
  height _ = 0

  pub items_height : Items → ℕ
  items_height nil = 0
  items_height (cons item items) = larger (suc (height item)) (items_height items)

  pub entries_height : Entries → ℕ
  entries_height end = 0
  entries_height (entry key item entries) = larger (suc (height item)) (entries_height entries)
