-- ===== src/Journal/Examples.antt =====
-- The theorems on the journal at concrete inputs, and tests.
use shimpz_drivers.Prelude.{
  ◌≤◌, ◌≡◌, ◌≢◌, refl, arith, Bool, true, false, Option, none, some, List, [], ◌∷◌, String, ok, err,
  eq_string, eq_nat, if◌then◌else◌, length,
}
use shimpz_drivers.Value.{Value}
use shimpz_drivers.Sql.{
  ◌>>=◌, relabel, query, execute, execute_one, transact, begin_immediate, faulty, tables, store,
  continue, select_changes, commit, handle, after_begin, commit_or, rollback,
}
use shimpz_drivers.Journal.State.{
  failed, conflict, Codec, Operation, Batch, is_safe_id, safe_id, check_operation, check_operations,
  make_batch, validate_handle, belongs,
}
use shimpz_drivers.Journal.Json.{canonical_result, decode_result}
use shimpz_drivers.Journal.Tables.{
  OpState, prepared, executing, completed, find_batch, find_op, select_operations,
  insert_by_ordinal, order_by_ordinal, of_generation, has_ordinal, insert_batch, insert_op,
  insert_ops, update_op, set_matching, count_matching, without_batch, without_ops,
  delete_generation, delete_batch,
}
use shimpz_drivers.Journal.Loading.{
  Journal, guarded, is_loaded, corrupt_unless, load_batch, find_interrupt, check_call,
  load_operation, move_operation,
}
use shimpz_drivers.Journal.Store.{
  prepare_row, prepare_block, prepare_batch, begin_state, begin_block, begin, complete_state,
  complete_block, complete, suspend_state, suspend_block, suspend, decode_all, deliver_row,
  deliver_block, delivered, purge_handler, purge_begun, purge,
}
use shimpz_drivers.Journal.History.{prepares, begins, completes, delivers, step, run, raises}
use shimpz_drivers.Journal.Json.{spend, walk_json, walk_items, walk_entries}
use shimpz_drivers.Journal.Bounds.{is_small_json, encoded_within, canonical_result-bounds}
use shimpz_drivers.Journal.Once.{begin-once}
use shimpz_drivers.Journal.Atomic.{raises-unchanged}
use shimpz_drivers.Journal.Delivery.{DeliveredAll, delivered-completed}
use shimpz_drivers.Journal.Capacity.{run-Within}
use shimpz_drivers.Journal.Wedged.{purge-wedges}
use shimpz_drivers.Value.{str, list, null, tuple, cons, nil}
use shimpz_drivers.Prelude.Text.{is_hex64}

abbrev digest : String
digest = "0123456789abcdef0123456789abcdef0123456789abcdef0123456789abcdef"

abbrev encode : Value → Option String
encode (str s) = some s
encode null = some "null"
encode _ = none

-- An encoding of texts, in the place of JSON.
abbrev texts : Codec
texts = record { dumps = encode; loads = λ s. some (str s); batch_digest = λ g t os. digest }

abbrev ship : Operation
ship = record { interrupt_id = "ship"; fingerprint = digest }

abbrev journal_at : List Bool → Journal
journal_at faults = record {
  max_generations = 2;
  max_operations = 8;
  max_result_bytes = 16;
  closed = false;
  connection = record {
    durable = record { batches = []; operations = [] };
    working = none;
    changes = 0;
    faults = faults;
  };
}

abbrev batch : Batch
batch = record { generation = "g1"; fingerprint = digest; operations = ship ∷ [] }

-- A journal that holds `batch`.
abbrev holding : OpState → Option String → List Bool → Journal
holding state result faults = record {
  max_generations = 2;
  max_operations = 8;
  max_result_bytes = 16;
  closed = false;
  connection = record {
    durable = record {
      batches = record { generation = "g1"; fingerprint = digest; operation_count = 1 } ∷ [];
      operations =
          record {
            generation = "g1";
            ordinal = 0;
            interrupt_id = "ship";
            fingerprint = digest;
            state = state;
            result = result;
          }
          ∷ [];
    };
    working = none;
    changes = 0;
    faults = faults;
  };
}

begin-starts :
    (begin texts batch ship (holding prepared none [])).0
    ≡ ok (record { execute = true; result = none })
unfolding relabel faulty tables store rollback continue ◌>>=◌ begin_immediate query execute
    select_changes execute_one commit commit_or handle after_begin transact is_safe_id safe_id
    check_operation check_operations make_batch validate_handle belongs is_hex64 find_batch
    insert_by_ordinal order_by_ordinal of_generation has_ordinal select_operations insert_batch
    find_op insert_op insert_ops count_matching set_matching update_op without_batch without_ops
    delete_generation delete_batch guarded is_loaded corrupt_unless load_batch find_interrupt
    check_call load_operation move_operation spend walk_json walk_items walk_entries
    canonical_result decode_result prepare_row prepare_block prepare_batch begin_state begin_block
    begin complete_state complete_block complete suspend_state suspend_block suspend decode_all
    deliver_row deliver_block delivered purge_handler purge_begun purge step run raises
begin-starts = refl

begin-replays :
    (begin texts batch ship (
      run texts
        (completes batch ship (str "sent") ∷ [])
        (begin texts batch ship (holding prepared none [])).1)).0
    ≡ ok (record { execute = false; result = some (str "sent") })
unfolding relabel faulty tables store rollback continue ◌>>=◌ begin_immediate query execute
    select_changes execute_one commit commit_or handle after_begin transact is_safe_id safe_id
    check_operation check_operations make_batch validate_handle belongs is_hex64 find_batch
    insert_by_ordinal order_by_ordinal of_generation has_ordinal select_operations insert_batch
    find_op insert_op insert_ops count_matching set_matching update_op without_batch without_ops
    delete_generation delete_batch guarded is_loaded corrupt_unless load_batch find_interrupt
    check_call load_operation move_operation spend walk_json walk_items walk_entries
    canonical_result decode_result prepare_row prepare_block prepare_batch begin_state begin_block
    begin complete_state complete_block complete suspend_state suspend_block suspend decode_all
    deliver_row deliver_block delivered purge_handler purge_begun purge step run raises
begin-replays = refl

begin-once_example : false ≡ false
begin-once_example =
    begin-once texts batch batch ship ship (holding prepared none [])
      (completes batch ship (str "sent") ∷ []) begin-starts refl (tt, tt) refl refl begin-replays

-- The commit of `complete` fails.
complete-failed :
    raises texts
      (completes batch ship (str "sent"))
      (holding executing none (false ∷ false ∷ false ∷ false ∷ false ∷ true ∷ []))
    ≡ some failed
unfolding relabel faulty tables store rollback continue ◌>>=◌ begin_immediate query execute
    select_changes execute_one commit commit_or handle after_begin transact is_safe_id safe_id
    check_operation check_operations make_batch validate_handle belongs is_hex64 find_batch
    insert_by_ordinal order_by_ordinal of_generation has_ordinal select_operations insert_batch
    find_op insert_op insert_ops count_matching set_matching update_op without_batch without_ops
    delete_generation delete_batch guarded is_loaded corrupt_unless load_batch find_interrupt
    check_call load_operation move_operation spend walk_json walk_items walk_entries
    canonical_result decode_result prepare_row prepare_block prepare_batch begin_state begin_block
    begin complete_state complete_block complete suspend_state suspend_block suspend decode_all
    deliver_row deliver_block delivered purge_handler purge_begun purge step run raises
complete-failed = refl

raises-unchanged_example :
    (step texts (completes batch ship (str "sent")) (
      holding executing none
        (false ∷ false ∷ false ∷ false ∷ false ∷ true ∷ []))).connection.durable
    ≡ (holding executing none []).connection.durable
raises-unchanged_example =
    raises-unchanged texts (completes batch ship (str "sent"))
      (holding executing none (false ∷ false ∷ false ∷ false ∷ false ∷ true ∷ [])) complete-failed

delivered-returns : (delivered texts batch (holding completed (some "sent") [])).0 ≡ ok tt
unfolding relabel faulty tables store rollback continue ◌>>=◌ begin_immediate query execute
    select_changes execute_one commit commit_or handle after_begin transact is_safe_id safe_id
    check_operation check_operations make_batch validate_handle belongs is_hex64 find_batch
    insert_by_ordinal order_by_ordinal of_generation has_ordinal select_operations insert_batch
    find_op insert_op insert_ops count_matching set_matching update_op without_batch without_ops
    delete_generation delete_batch guarded is_loaded corrupt_unless load_batch find_interrupt
    check_call load_operation move_operation spend walk_json walk_items walk_entries
    canonical_result decode_result prepare_row prepare_block prepare_batch begin_state begin_block
    begin complete_state complete_block complete suspend_state suspend_block suspend decode_all
    deliver_row deliver_block delivered purge_handler purge_begun purge step run raises
delivered-returns = refl

batch-found :
    find_batch "g1" (holding completed (some "sent") []).connection.durable.batches
    ≡ some (record { generation = "g1"; fingerprint = digest; operation_count = 1 })
unfolding find_batch
batch-found = refl

delivered-completed_example :
    DeliveredAll texts 16 batch
      (holding completed (some "sent") []).connection.durable
      (delivered texts batch (holding completed (some "sent") [])).1.connection.durable
delivered-completed_example =
    delivered-completed texts batch (holding completed (some "sent") []) delivered-returns
      batch-found

run-Within_example :
    length
      (run texts
        (prepares "g2" "t" (ship ∷ []) ∷ prepares "g3" "t" (ship ∷ []) ∷ [])
        (holding prepared none [])).connection.durable.batches
    ≤ 2
run-Within_example =
    run-Within texts (prepares "g2" "t" (ship ∷ []) ∷ prepares "g3" "t" (ship ∷ []) ∷ [])
      (holding prepared none []) (omega arith)

safe_g1 : is_safe_id "g1" ≡ true
unfolding is_safe_id
safe_g1 = refl

purge-wedges_example :
    raises texts (begins batch ship) (
      run texts
        (delivers batch ∷ [])
        (purge "g1" (holding prepared none (false ∷ false ∷ true ∷ false ∷ []))).1)
    ≢ none
purge-wedges_example =
    purge-wedges texts "g1" (holding prepared none (false ∷ false ∷ true ∷ false ∷ [])) []
      (delivers batch ∷ []) (begins batch ship) safe_g1 refl refl refl

canonical_result-bounds_example : canonical_result texts 16 (list (cons (tuple nil) nil)) ≡ (
    if is_small_json (list (cons (tuple nil) nil))
    then encoded_within 16 (encode (list (cons (tuple nil) nil)))
    else err conflict)
canonical_result-bounds_example = canonical_result-bounds texts 16 (list (cons (tuple nil) nil))
