-- ===== src/Journal/Store.antt =====
-- The methods of `PowerJournal` in team/power_journal.py. Each returns its result, or the error that
-- it raises, beside the journal that it leaves.
use shimpz_drivers.Prelude.{
  ℕ, all, Bool, true, false, not, Option, none, some, List, [], ◌∷◌, String, Result, ok, err, leb,
  ◌==◌, ◌/=◌, eq_string, eq_nat, if◌then◌else◌, length,
}
use shimpz_drivers.Value.{Value}
use shimpz_drivers.Sql.{
  Connection, Raised, sqlite_error, stop_iteration, raised, pure, raise, lift, reject, ◌>>=◌, ◌>>◌,
  query, execute, execute_one, transact, begin_immediate, commit_or, rollback,
}
use shimpz_drivers.Journal.State.{
  JournalError, failed, conflict, uncertain, corruption, Codec, Operation, Batch, Execution,
  safe_id, make_batch, validate_handle,
}
use shimpz_drivers.Journal.Json.{canonical_result, decode_result}
use shimpz_drivers.Journal.Tables.{
  OpState, prepared, executing, completed, BatchRow, OpRow, Tables, state_eq, find_batch,
  insert_batch, insert_ops, delete_generation, delete_batch,
}
use shimpz_drivers.Journal.Loading.{
  Journal, Statements, translate, guarded, load_batch, check_call, is_some, holds, load_operation,
  move_operation,
}

-- What `prepare_batch` does with the row that it found for the generation.
unfoldable pub prepare_row : ℕ → Batch → Option BatchRow → Statements (Unit {0})
unfolding ◌>>=◌ load_batch query execute
prepare_row max_generations batch (some row) =
    if row.fingerprint == batch.fingerprint then (do load_batch batch; pure tt) else raise conflict
prepare_row max_generations batch none = do
  count ← query (λ t. length t.batches)
  reject (leb max_generations count) conflict
  execute (
      insert_batch (record {
        generation = batch.generation;
        fingerprint = batch.fingerprint;
        operation_count = length batch.operations;
      }))
  execute (insert_ops batch.generation 0 batch.operations)

unfoldable pub prepare_block : ℕ → Batch → Statements Batch
unfolding ◌>>=◌ prepare_row query
prepare_block max_generations batch = do
  row ← query (λ t. find_batch batch.generation t.batches)
  prepare_row max_generations batch row
  pure batch

unfoldable pub prepare_batch :
    Codec → String → String → List Operation → Journal → Result JournalError Batch × Journal
unfolding make_batch guarded transact prepare_block
prepare_batch codec generation thread_id operations j =
    elim (make_batch codec j.max_operations generation thread_id operations) [
      | err e ↦ (err e, j)
      | ok batch ↦ guarded j (transact failed translate (prepare_block j.max_generations batch))
    ]

-- What `begin` does in each state of the operation.
unfoldable pub begin_state :
    Codec → ℕ → Batch → Operation → OpState → Option String → Statements Execution
unfolding ◌>>=◌ decode_result move_operation
begin_state codec max_result_bytes batch operation executing raw = raise uncertain
begin_state codec max_result_bytes batch operation completed raw = do
  result ← lift (decode_result codec max_result_bytes raw)
  pure (record { execute = false; result = some result })
begin_state codec max_result_bytes batch operation _ raw = do
  reject (is_some raw) corruption
  move_operation batch operation prepared executing (λ r. r)
  pure (record { execute = true; result = none })

unfoldable pub begin_block : Codec → ℕ → Batch → Operation → Statements Execution
unfolding ◌>>=◌ load_operation begin_state
begin_block codec max_result_bytes batch operation = do
  persisted ← load_operation batch operation
  begin_state codec max_result_bytes batch operation persisted.state persisted.result

unfoldable pub begin : Codec → Batch → Operation → Journal → Result JournalError Execution × Journal
unfolding check_call guarded transact begin_block
begin codec batch operation j = elim (check_call batch operation) [
  | err e ↦ (err e, j)
  | ok _ ↦
      guarded j (transact failed translate (begin_block codec j.max_result_bytes batch operation))
]

-- What `complete` does in each state of the operation.
unfoldable pub complete_state :
    Batch → Operation → String → OpState → Option String → Statements (Unit {0})
unfolding ◌>>=◌ move_operation
complete_state batch operation encoded completed existing =
    reject (not (holds existing encoded)) conflict
complete_state batch operation encoded executing existing = do
  reject (is_some existing) conflict
  move_operation batch operation executing completed (λ _. some encoded)
complete_state batch operation encoded _ existing = raise conflict

unfoldable pub complete_block : Batch → Operation → String → Statements (Unit {0})
unfolding ◌>>=◌ load_operation complete_state
complete_block batch operation encoded = do
  persisted ← load_operation batch operation
  complete_state batch operation encoded persisted.state persisted.result

unfoldable pub complete :
    Codec → Batch → Operation → Value → Journal → Result JournalError (Unit {0}) × Journal
unfolding check_call canonical_result guarded transact complete_block
complete codec batch operation result j = elim (check_call batch operation) [
  | err e ↦ (err e, j)
  | ok _ ↦ elim (canonical_result codec j.max_result_bytes result) [
    | err e ↦ (err e, j)
    | ok encoded ↦ guarded j (transact failed translate (complete_block batch operation encoded))
  ]
]

-- What `suspend` does in each state of the operation.
unfoldable pub suspend_state : Batch → Operation → OpState → Option String → Statements (Unit {0})
unfolding ◌>>=◌ move_operation
suspend_state batch operation prepared none = pure tt
suspend_state batch operation executing existing = do
  reject (is_some existing) conflict
  move_operation batch operation executing prepared (λ r. r)
suspend_state batch operation _ existing = raise conflict

unfoldable pub suspend_block : Batch → Operation → Statements (Unit {0})
unfolding ◌>>=◌ load_operation suspend_state
suspend_block batch operation = do
  persisted ← load_operation batch operation
  suspend_state batch operation persisted.state persisted.result

unfoldable pub suspend : Batch → Operation → Journal → Result JournalError (Unit {0}) × Journal
unfolding check_call guarded transact suspend_block
suspend batch operation j = elim (check_call batch operation) [
  | err e ↦ (err e, j)
  | ok _ ↦ guarded j (transact failed translate (suspend_block batch operation))
]

-- `for operation in operations: self._decode_result(operation[4])`
unfoldable pub decode_all : Codec → ℕ → List OpRow → Result JournalError (Unit {0})
decode_all codec max_result_bytes [] = ok tt
decode_all codec max_result_bytes (r ∷ rs) =
    let rest = decode_all codec max_result_bytes rs in
    elim (decode_result codec max_result_bytes r.result) [ err e ↦ err e | ok _ ↦ rest ]

abbrev pub is_completed : OpRow → Bool
is_completed r = state_eq r.state completed

unfoldable pub deliver_row : Codec → ℕ → Batch → Option BatchRow → Statements (Unit {0})
unfolding ◌>>=◌ load_batch decode_all execute_one
deliver_row codec max_result_bytes batch none = pure tt
deliver_row codec max_result_bytes batch (some row) = do
  reject (row.fingerprint /= batch.fingerprint) conflict
  rows ← load_batch batch
  reject (not (all is_completed rows)) conflict
  lift (decode_all codec max_result_bytes rows)
  execute_one (delete_batch batch.generation batch.fingerprint) conflict

unfoldable pub deliver_block : Codec → ℕ → Batch → Statements (Unit {0})
unfolding ◌>>=◌ query deliver_row
deliver_block codec max_result_bytes batch = do
  row ← query (λ t. find_batch batch.generation t.batches)
  deliver_row codec max_result_bytes batch row

unfoldable pub delivered : Codec → Batch → Journal → Result JournalError (Unit {0}) × Journal
unfolding validate_handle guarded transact deliver_block
delivered codec batch j = elim (validate_handle batch) [
  | err e ↦ (err e, j)
  | ok _ ↦ guarded j (transact failed translate (deliver_block codec j.max_result_bytes batch))
]

-- `purge`, whose handler takes `sqlite3.Error` alone: what `_commit` raises passes it by
unfoldable pub purge_handler :
    Result (Raised JournalError) (Unit {0}) × Connection Tables
    → Result JournalError (Unit {0}) × Connection Tables
unfolding rollback
purge_handler (ok a, c) = (ok a, c)
purge_handler (err sqlite_error, c) = (err failed, rollback c)
purge_handler (err stop_iteration, c) = (err failed, c)
purge_handler (err (raised e), c) = (err e, c)

unfoldable pub purge_begun :
    String
    → Result (Raised JournalError) (Unit {0}) × Connection Tables
    → Result JournalError (Unit {0}) × Connection Tables
unfolding purge_handler ◌>>=◌ execute commit_or
purge_begun generation (ok _, c) =
    purge_handler ((do execute (delete_generation generation); commit_or failed) c)
purge_begun generation (err _, c) = (err failed, c)

unfoldable pub purge : String → Journal → Result JournalError (Unit {0}) × Journal
unfolding safe_id guarded begin_immediate purge_begun
purge generation j = elim (safe_id generation) [
  | err e ↦ (err e, j)
  | ok safe_generation ↦ guarded j (λ c. purge_begun safe_generation (begin_immediate c))
]
