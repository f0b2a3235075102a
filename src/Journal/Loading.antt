-- ===== src/Journal/Loading.antt =====
-- The journal of team/power_journal.py, how a method opens a transaction on it, and how the methods
-- load and move the rows of a batch.
use shimpz_drivers.Prelude.{
  ℕ, suc, all, Bool, true, false, ◌&&◌, not, Option, none, some, List, [], ◌∷◌, String, Result, ok,
  err, require, ◌==◌, eq_string, eq_nat, if◌then◌else◌, length,
}
use shimpz_drivers.Sql.{
  Connection, Raised, sqlite_error, stop_iteration, raised, Sql, pure, lift, next, reject, ◌>>=◌,
  ◌>>◌, relabel, query, execute_one,
}
use shimpz_drivers.Journal.State.{
  JournalError, failed, conflict, corruption, Operation, Batch, check_operation, contracts,
  validate_handle, belongs,
}
use shimpz_drivers.Journal.Tables.{
  OpState, unknown, BatchRow, OpRow, Tables, state_eq, find_batch, select_operations, update_op,
}

pub record Journal : Type 0 where
  pub max_generations : ℕ
  pub max_operations : ℕ
  pub max_result_bytes : ℕ
  pub closed : Bool
  pub connection : Connection Tables

abbrev pub Statements : Type 0 → Type 0
Statements A = Sql Tables JournalError A

-- `except (sqlite3.Error, PowerJournalError, StopIteration)`
abbrev pub translate : Raised JournalError → JournalError
translate sqlite_error = failed
translate stop_iteration = corruption
translate (raised e) = e

-- `self._ensure_open()`, and a block on the connection under the guard
unfoldable pub guarded :
    {A : Type 0}
    → Journal
    → (Connection Tables → Result JournalError A × Connection Tables)
    → Result JournalError A × Journal
guarded j block =
    if j.closed
    then (err failed, j)
    else let (r, c) = block j.connection in (r, record j { connection = c })

-- the rows' (interrupt_id, fingerprint), and whether their ordinals count from `n`
abbrev pub row_contracts : List OpRow → List (String × String)
row_contracts [] = []
row_contracts (r ∷ rs) = (r.interrupt_id, r.fingerprint) ∷ row_contracts rs

abbrev pub same_contracts : List (String × String) → List (String × String) → Bool
same_contracts [] [] = true
same_contracts ((i, f) ∷ xs) ((j, g) ∷ ys) = i == j && f == g && same_contracts xs ys
same_contracts _ _ = false

abbrev pub counts_from : ℕ → List OpRow → Bool
counts_from n [] = true
counts_from n (r ∷ rs) = r.ordinal == n && counts_from (suc n) rs

abbrev pub is_known : OpRow → Bool
is_known r = not (state_eq r.state unknown)

-- The test of `_load_batch` on what its two queries gave.
unfoldable pub is_loaded : Batch → BatchRow → List OpRow → Bool
is_loaded batch row rows =
    row.fingerprint == batch.fingerprint
    && row.operation_count == length batch.operations
    && same_contracts (row_contracts rows) (contracts batch.operations)
    && counts_from 0 rows
    && all is_known rows

-- _load_batch; a query that fails is raised as corruption
unfoldable pub corrupt_unless : {A : Type 0} → Statements A → Statements A
unfolding relabel
corrupt_unless m c = relabel corruption (m c)

-- `if row is None: raise`
abbrev pub or_stale : Option BatchRow → Result JournalError BatchRow
or_stale none = err conflict
or_stale (some row) = ok row

unfoldable pub load_batch : Batch → Statements (List OpRow)
unfolding ◌>>=◌ corrupt_unless query is_loaded
load_batch batch = do
  row ← corrupt_unless (query (λ t. find_batch batch.generation t.batches))
  rows ← corrupt_unless (query (select_operations batch.generation))
  found ← lift (or_stale row)
  reject (not (is_loaded batch found rows)) conflict
  pure rows

-- `row[1] == operation.interrupt_id`
unfoldable pub find_interrupt : String → List OpRow → Option OpRow
find_interrupt i [] = none
find_interrupt i (r ∷ rs) = if r.interrupt_id == i then some r else find_interrupt i rs

-- The checks that `begin`, `complete` and `suspend` make before they open a transaction.
unfoldable pub check_call : Batch → Operation → Result JournalError (Unit {0})
unfolding validate_handle check_operation belongs
check_call batch operation = elim (validate_handle batch) [
  | err e ↦ err e
  | ok _ ↦ elim (check_operation operation) [
    | err e ↦ err e
    | ok _ ↦ require (belongs operation batch.operations) conflict
  ]
]

abbrev pub is_some : Option String → Bool
is_some none = false
is_some (some _) = true

-- `existing == encoded`
abbrev pub holds : Option String → String → Bool
holds none encoded = false
holds (some raw) encoded = raw == encoded

-- The persisted row of the operation.
unfoldable pub load_operation : Batch → Operation → Statements OpRow
unfolding ◌>>=◌ load_batch find_interrupt
load_operation batch operation = do
  rows ← load_batch batch
  next (find_interrupt operation.interrupt_id rows)

-- UPDATE, and the check that it changed one row
unfoldable pub move_operation :
    Batch → Operation → OpState → OpState → (Option String → Option String) → Statements (Unit {0})
unfolding execute_one
move_operation batch operation from to column =
    execute_one (update_op batch.generation operation.interrupt_id from to column) conflict
