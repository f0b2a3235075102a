-- ===== src/Journal/Json.antt =====
-- `_walk_json` and `_canonical_result` of team/power_journal.py: the bounds on a Power result.
use shimpz_drivers.Prelude.{
  ℕ, ◌+◌, ◌-◌, ◌/◌, ◌%◌, ◌^◌, Bool, true, false, Option, none, some, String, Result, ok, err, ◌>>=◌,
  ◌>>◌, require, reject, ltb, ◌==◌, eq_nat, eq_string, ◌||◌, not, if◌then◌else◌, length,
}
use shimpz_drivers.Prelude.Text.{codes}
use shimpz_drivers.Value.{
  Value, null, bool, int, float, str, list, tuple, dict, object, Items, nil, cons, Entries, end,
  entry,
}
use shimpz_drivers.Journal.State.{JournalError, conflict, corruption, Codec}

abbrev pub max_json_depth : ℕ
max_json_depth = 32

abbrev pub max_json_nodes : ℕ
max_json_nodes = 4096

-- math.isfinite: the exponent bits of a double are not all set
abbrev pub is_finite : ℕ → Bool
is_finite bits = not (bits / 2 ^ 52 % 2 ^ 11 == 2047)

-- `budget[0] -= 1; if budget[0] < 0 or depth > MAX_JSON_DEPTH: raise`; the budget that is left
unfoldable pub spend : ℕ → ℕ → Result JournalError ℕ
spend depth budget =
    if budget == 0 || ltb max_json_depth depth then err conflict else ok (budget - 1)

-- isinstance(key, str)
abbrev pub is_str : Value → Bool
is_str (str s) = true
is_str _ = false

-- An encoder that raises TypeError, ValueError, ...
abbrev pub or_conflict : Option String → Result JournalError String
or_conflict none = err conflict
or_conflict (some encoded) = ok encoded

-- _walk_json: the budget that the walk leaves
unfoldable mutual
  pub walk_json : ℕ → ℕ → Value → Result JournalError ℕ
  walk_json depth budget null = spend depth budget
  walk_json depth budget (bool b) = spend depth budget
  walk_json depth budget (int z) = spend depth budget
  walk_json depth budget (str s) = spend depth budget
  walk_json depth budget (float bits) = do
    left ← spend depth budget
    if is_finite bits then ok left else err conflict
  walk_json depth budget (list items) = do
    left ← spend depth budget
    walk_items (depth + 1) left items
  walk_json depth budget (dict entries) = do
    left ← spend depth budget
    walk_entries (depth + 1) left entries
  walk_json depth budget (tuple items) = do left ← spend depth budget; err conflict
  walk_json depth budget object = do left ← spend depth budget; err conflict

  pub walk_items : ℕ → ℕ → Items → Result JournalError ℕ
  walk_items depth budget nil = ok budget
  walk_items depth budget (cons item items) = do
    left ← walk_json depth budget item
    walk_items depth left items

  pub walk_entries : ℕ → ℕ → Entries → Result JournalError ℕ
  walk_entries depth budget end = ok budget
  walk_entries depth budget (entry key item entries) = do
    require (is_str key) conflict
    left ← walk_json depth budget item
    walk_entries depth left entries

-- `len(encoded)`, in bytes
abbrev pub byte_length : String → ℕ
byte_length raw = length (codes raw)

-- _canonical_result
unfoldable pub canonical_result : Codec → ℕ → Value → Result JournalError String
canonical_result codec max_bytes value = do
  walk_json 0 max_json_nodes value
  encoded ← or_conflict (codec.dumps value)
  reject (ltb max_bytes (byte_length encoded)) conflict
  ok encoded

-- PowerJournal._decode_result; `none` is a column that holds no bytes
unfoldable pub decode_result : Codec → ℕ → Option String → Result JournalError Value
decode_result codec max_result_bytes none = err corruption
decode_result codec max_result_bytes (some raw) =
    if ltb max_result_bytes (byte_length raw) then err corruption else elim (codec.loads raw) [
      | none ↦ err corruption
      | some result ↦ elim (canonical_result codec max_result_bytes result) [
        | err e ↦ err corruption
        | ok encoded ↦ if encoded == raw then ok result else err corruption
      ]
    ]
