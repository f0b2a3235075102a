-- ===== src/Journal/State.antt =====
-- The values that team/power_journal.py passes around, and the checks of their form.
use shimpz_drivers.Prelude.{
  ℕ, Bool, false, ◌&&◌, Option, List, [], ◌∷◌, String, Result, ok, err, ◌>>=◌, ◌>>◌, require,
  reject, ltb, leb, ◌==◌, eq_string, eq_nat, ◌||◌, if◌then◌else◌, length, all, is_distinct,
}
use shimpz_drivers.Prelude.Text.{codes, is_lower, is_upper, is_digit, is_hex64}
use shimpz_drivers.Value.{Value}

pub data JournalError : Type 0 where
  failed conflict uncertain corruption : JournalError

-- The canonical JSON encoding, its decoder, and the SHA-256 digest, in hexadecimal, of the canonical
-- JSON of a batch: of its generation, its thread and its operations. Bytes are code points below 256.
pub record Codec : Type 0 where
  pub dumps : Value → Option String
  pub loads : String → Option Value
  pub batch_digest : String → String → List (String × String) → String

pub record Operation : Type 0 where
  pub interrupt_id : String
  pub fingerprint : String

pub record Batch : Type 0 where
  pub generation : String
  pub fingerprint : String
  pub operations : List Operation

pub record Execution : Type 0 where
  pub execute : Bool
  pub result : Option Value

-- dataclass equality
abbrev pub same_operation : Operation → Operation → Bool
same_operation a b = a.interrupt_id == b.interrupt_id && a.fingerprint == b.fingerprint

abbrev is_id_char : ℕ → Bool
is_id_char c =
    is_lower c
    || is_upper c
    || is_digit c
    || c == b'.'
    || c == b'_'
    || c == b':'
    || c == b'/'
    || c == b'-'

-- [A-Za-z0-9][A-Za-z0-9._:/-]{0,255}
unfoldable pub is_safe_id : String → Bool
is_safe_id s = elim (codes s) [
  | [] ↦ false
  | c ∷ cs ↦ (is_lower c || is_upper c || is_digit c) && leb (length cs) 255 && all is_id_char cs
]

-- _safe_id
unfoldable pub safe_id : String → Result JournalError String
safe_id s = if is_safe_id s then ok s else err conflict

-- _operation
unfoldable pub check_operation : Operation → Result JournalError Operation
unfolding safe_id
check_operation value = do
  safe_id value.interrupt_id
  require (is_hex64 value.fingerprint) conflict
  ok value

unfoldable pub check_operations : List Operation → Result JournalError (List Operation)
check_operations [] = ok []
check_operations (item ∷ items) = do
  first ← check_operation item
  rest ← check_operations items
  ok (first ∷ rest)

abbrev pub interrupt_ids : List Operation → List String
interrupt_ids [] = []
interrupt_ids (o ∷ os) = o.interrupt_id ∷ interrupt_ids os

abbrev pub contracts : List Operation → List (String × String)
contracts [] = []
contracts (o ∷ os) = (o.interrupt_id, o.fingerprint) ∷ contracts os

-- PowerJournal._batch
unfoldable pub make_batch : Codec → ℕ → String → String → List Operation → Result JournalError Batch
unfolding safe_id check_operations
make_batch codec max_operations generation thread_id operations = do
  safe_generation ← safe_id generation
  safe_thread ← safe_id thread_id
  selected ← check_operations operations
  reject (length selected == 0 || ltb max_operations (length selected)) conflict
  require (is_distinct (interrupt_ids selected)) conflict
  ok (record {
    generation = safe_generation;
    fingerprint = codec.batch_digest safe_generation safe_thread (contracts selected);
    operations = selected;
  })

-- PowerJournal._validate_handle
unfoldable pub validate_handle : Batch → Result JournalError Batch
unfolding safe_id check_operations
validate_handle batch = do
  safe_id batch.generation
  require (is_hex64 batch.fingerprint) conflict
  reject (length batch.operations == 0) conflict
  check_operations batch.operations
  require (is_distinct (interrupt_ids batch.operations)) conflict
  ok batch

-- `operation in batch.operations`
unfoldable pub belongs : Operation → List Operation → Bool
belongs o [] = false
belongs o (x ∷ xs) = same_operation x o || belongs o xs
