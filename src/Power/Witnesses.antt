-- ===== src/Power/Witnesses.antt =====
-- More theorems on Powers at concrete inputs.
use shimpz_drivers.Prelude.{
  ℕ, List, [], ◌∷◌, ◌≡◌, refl, arith, Option, none, some, ok, true, false, ◌&&◌, ◌||◌, String, any,
  ltb, eq_string, eq_nat,
}
use shimpz_drivers.Prelude.Int.{pos}
use shimpz_drivers.Prelude.Dict
use shimpz_drivers.Prelude.Text.{is_hex64}
use shimpz_drivers.Prelude.Actions.{after, ◌>>=◌}
use shimpz_drivers.Value.{Value, null, int, str, list, dict, nil, cons, end, entry}
use shimpz_drivers.Sql.{
  relabel, query, execute, execute_one, transact, begin_immediate, faulty, tables, store, continue,
  select_changes, commit, handle, after_begin, commit_or, rollback,
}
use shimpz_drivers.Sql as Sql
use shimpz_drivers.Chat.State.{result, PowerRequest}
use shimpz_drivers.Journal.State.{
  Codec, Operation, Batch, is_safe_id, safe_id, check_operation, check_operations, make_batch,
  validate_handle, belongs,
}
use shimpz_drivers.Journal.Json.{
  canonical_result, decode_result, spend, walk_json, walk_items, walk_entries,
}
use shimpz_drivers.Journal.Tables.{
  prepared, find_batch, find_op, select_operations, insert_by_ordinal, order_by_ordinal,
  of_generation, has_ordinal, insert_batch, insert_op, insert_ops, update_op, set_matching,
  count_matching, without_batch, without_ops, delete_generation, delete_batch,
}
use shimpz_drivers.Journal.Loading.{
  guarded, is_loaded, corrupt_unless, load_batch, find_interrupt, check_call, load_operation,
  move_operation,
}
use shimpz_drivers.Journal.Store.{
  begin_state, begin_block, begin, complete_state, complete_block, complete,
}
use shimpz_drivers.Journal.History.{run}
use shimpz_drivers.Power.Secrets.{
  contains_secret, nonempty_values, leaks, is_any, protected_rpc_values, project_rpc_result,
  inspected, valid, visit, decode_rpc_response,
}
use shimpz_drivers.Power.Scan.{contains_secret_lem, project_rpc_result-private, texts, nesting}
use shimpz_drivers.Power.Generations.{
  power_operation, Metadata, is_connected, is_configured, private_generations,
}
use shimpz_drivers.Power.Usable.{Bound, private_generations-Bound}
use shimpz_drivers.Prelude.{all, if◌then◌else◌}
use shimpz_drivers.Power.Batch.{
  PowerBatchStrategy, PowerBatch, on_world, on_journal, executes, operation, prepared_batch,
  record_answer, decided, invoke,
}
use shimpz_drivers.Power.Once.{invoke-once}
use shimpz_drivers.Power.Exchange.{
  Exchange, rpc_exchange, rpc_exchange-ok, run_exec, send_and_read, conclude, exit_number,
}

abbrev secrets : Dict.Dict String
secrets = ("key", "s3cret") ∷ ("empty", "") ∷ []

abbrev echo : Value
echo = list (cons (str "the s3cret is out") nil)

contains_secret_lem_example : contains_secret echo secrets ≡ (
    is_any (nonempty_values secrets)
    && (ltb 32 (nesting echo) || any (leaks (nonempty_values secrets)) (texts echo)))
contains_secret_lem_example = contains_secret_lem echo secrets

found_out : contains_secret echo secrets ≡ true
unfolding contains_secret visit
found_out = refl

projected_ok :
    project_rpc_result (λ n. "0") (result (str "fine")) secrets [] (str "42" ∷ []) valid
    ≡ ok (record { value = str "fine"; suspended = false })
unfolding project_rpc_result contains_secret visit protected_rpc_values Dict.get Dict.put
projected_ok = refl

project_rpc_result-private_example :
    any
      (leaks (nonempty_values (protected_rpc_values (λ n. "0") secrets [] (str "42" ∷ []))))
      (texts (inspected (result (str "fine"))))
    ≡ false
project_rpc_result-private_example =
    project_rpc_result-private (λ n. "0") (result (str "fine")) secrets [] (str "42" ∷ []) valid
      projected_ok

-- A Docker whose exec exits with 0 and prints nothing.
abbrev docker : Exchange (Unit {0}) (Unit {0}) (Unit {0})
docker = record {
  exec_create = λ w. (ok "exec", w);
  exec_start = λ i w. (ok tt, w);
  sock = λ stream. some tt;
  sendall = λ s b w. (ok tt, w);
  shutdown = λ s w. (ok tt, w);
  read_rpc_frames = λ s w. (ok ([], []), w);
  exec_inspect = λ i w. (ok (int (pos 0)), w);
  fail_stop = λ w. w;
  cancelled = λ w. (false, w);
  close_stream = λ s w. w;
}

abbrev response : List ℕ → Option Value
response raw = some (dict (entry (str "result") (str "sent") end))

answered : rpc_exchange docker [] response false tt ≡ (ok (result (str "sent")), tt)
unfolding rpc_exchange run_exec send_and_read conclude decode_rpc_response ◌>>=◌ after
answered = refl

rpc_exchange-ok_example :
    (exec_id : String) × (stdout : List ℕ) × (details : Value) × (u : Unit {0}) × (run_exec docker
        [] tt
      ≡ (ok (exec_id, (stdout, [])), u))
    × (docker.exec_inspect exec_id u ≡ (ok details, tt))
    × (exit_number docker [] details ≡ some (pos 0))
    × (decode_rpc_response response stdout ≡ some (result (str "sent")))
rpc_exchange-ok_example =
    rpc_exchange-ok docker [] response false tt tt (result (str "sent")) answered

abbrev fingerprint : String
fingerprint = "0123456789abcdef0123456789abcdef0123456789abcdef0123456789abcdef"

abbrev encode : Value → Option String
encode (str s) = some s
encode _ = some "null"

-- An encoding of texts, in the place of JSON.
abbrev texts_codec : Codec
texts_codec = record {
  dumps = encode;
  loads = λ s. some (str s);
  batch_digest = λ g t os. fingerprint;
}

abbrev ship : Operation
ship = record { interrupt_id = "ship"; fingerprint = fingerprint }

abbrev one_batch : Batch
one_batch = record { generation = "g1"; fingerprint = fingerprint; operations = ship ∷ [] }

abbrev strategy : PowerBatchStrategy (Unit {0}) (Unit {0})
strategy = record {
  binding_identity = λ a w. (ok (str "container", str "image"), w);
  execute = λ r w. (ok (result (str "sent")), w);
  preflight = λ r w. (ok tt, w);
  secret_generations = λ r w. (ok [], w);
  account_generations = λ r w. (ok [], w);
}

abbrev request : PowerRequest
request = record { interrupt_id = "ship"; assistant_id = "mail"; power = "send"; input = null }

abbrev ready : PowerBatch (Unit {0})
ready = record {
  world = tt;
  journal = record {
    max_generations = 2;
    max_operations = 8;
    max_result_bytes = 16;
    closed = false;
    connection = record {
      durable = record {
        batches = record { generation = "g1"; fingerprint = fingerprint; operation_count = 1 } ∷ [];
        operations =
            record {
              generation = "g1";
              ordinal = 0;
              interrupt_id = "ship";
              fingerprint = fingerprint;
              state = prepared;
              result = none;
            }
            ∷ [];
      };
      working = none;
      changes = 0;
      faults = [];
    };
  };
  opened = true;
  batch = some one_batch;
  operations = ("ship", ship) ∷ [];
  executed = [];
}

abbrev invoked : PowerBatch (Unit {0})
invoked =
    (invoke texts_codec (λ v. some "{}") (λ s. fingerprint) "g1" "t" (("mail", tt) ∷ []) strategy
      none request ready).1

invoked_executed : invoked.executed ≡ "ship" ∷ []
unfolding invoke prepared_batch operation power_operation on_world on_journal executes decided
    record_answer ◌>>=◌ after Dict.get relabel faulty tables store rollback continue Sql.◌>>=◌
    begin_immediate query execute select_changes execute_one commit commit_or handle after_begin
    transact is_safe_id safe_id check_operation check_operations make_batch validate_handle belongs
    is_hex64 find_batch insert_by_ordinal order_by_ordinal of_generation has_ordinal
    select_operations insert_batch find_op insert_op insert_ops count_matching set_matching
    update_op without_batch without_ops delete_generation delete_batch guarded is_loaded
    corrupt_unless load_batch find_interrupt check_call load_operation move_operation spend
    walk_json walk_items walk_entries canonical_result decode_result begin_state begin_block begin
    complete_state complete_block complete
invoked_executed = refl

invoked_batch : invoked.batch ≡ some one_batch
unfolding invoke prepared_batch operation power_operation on_world on_journal executes decided
    record_answer ◌>>=◌ after Dict.get relabel faulty tables store rollback continue Sql.◌>>=◌
    begin_immediate query execute select_changes execute_one commit commit_or handle after_begin
    transact is_safe_id safe_id check_operation check_operations make_batch validate_handle belongs
    is_hex64 find_batch insert_by_ordinal order_by_ordinal of_generation has_ordinal
    select_operations insert_batch find_op insert_op insert_ops count_matching set_matching
    update_op without_batch without_ops delete_generation delete_batch guarded is_loaded
    corrupt_unless load_batch find_interrupt check_call load_operation move_operation spend
    walk_json walk_items walk_entries canonical_result decode_result begin_state begin_block begin
    complete_state complete_block complete
invoked_batch = refl

invoke-once_example :
    (invoke texts_codec
      (λ v. some "{}")
      (λ s. fingerprint)
      "g1"
      "t"
      (("mail", tt) ∷ [])
      strategy
      none
      request
      invoked).1.executed
    ≡ invoked.executed
unfolding run
invoke-once_example =
    invoke-once texts_codec (λ v. some "{}") (λ s. fingerprint) "g1" "t" (("mail", tt) ∷ [])
      strategy none (λ r w payload h. ground (arith, h)) request request ready invoked one_batch
      one_batch [] refl (λ h. ground (arith, h, invoked_executed)) invoked_batch refl refl tt refl

abbrev key : Metadata
key = record { id = "key"; status = null; configured = Value.bool true; generation = int (pos 2) }

usable : private_generations (key ∷ []) false ≡ ok (("key", 2) ∷ [])
unfolding private_generations
usable = refl

private_generations-Bound_example :
    (all (λ item. if false then is_connected item else is_configured item) (key ∷ []) ≡ true)
    × Bound (key ∷ []) (("key", 2) ∷ [])
private_generations-Bound_example =
    private_generations-Bound (key ∷ []) false (("key", 2) ∷ []) usable
