-- ===== src/Power/Batch.antt =====
-- `PowerBatch` of team/power_execution.py over the journal of `Journal`. The strategy, which reaches
-- the Assistants and the stores of private state, acts on a world and may raise. The ghost `executed`
-- lists the requests that the strategy was told to execute, the last one first.
use shimpz_drivers.Prelude.{
  ℕ, Bool, true, false, not, Option, none, some, List, [], ◌∷◌, String, Result, ok, err,
  if◌then◌else◌, ◌==◌, eq_string,
}
use shimpz_drivers.Prelude.Dict
use shimpz_drivers.Prelude.Dict.{Dict}
use shimpz_drivers.Prelude.Actions.{Action, pure, refuse, lift, reraised, ◌>>=◌, ◌>>◌}
use shimpz_drivers.Value.{Value}
use shimpz_drivers.Chat.State.{PowerRequest, Answer, result, rpc_suspension}
use shimpz_drivers.Journal.State.{
  JournalError, conflict, Codec, Operation, Batch, Execution, same_operation, interrupt_ids,
}
use shimpz_drivers.Journal.Loading.{Journal}
use shimpz_drivers.Journal.Store.{prepare_batch, begin, complete, suspend, delivered}
use shimpz_drivers.Power.Generations.{power_operation}

-- What the journal raises, and what the strategy raises.
pub data BatchError : Type 0 where
  journal_error : JournalError → BatchError
  strategy_error : BatchError

-- A call of the strategy.
abbrev pub Call : Type 0 → Type 0 → Type 0
Call W A = Action W BatchError A

pub record PowerBatchStrategy (W A : Type 0) : Type 0 where
  pub binding_identity : A → Call W (Value × Value)
  pub execute : PowerRequest → Call W Answer
  pub preflight : PowerRequest → Call W (Unit {0})
  pub secret_generations : PowerRequest → Call W (List (String × ℕ))
  pub account_generations : PowerRequest → Call W (List (String × ℕ))

-- `opened` is whether `_journal` is not None.
pub record PowerBatch (W : Type 0) : Type 0 where
  pub world : W
  pub journal : Journal
  pub opened : Bool
  pub batch : Option Batch
  pub operations : Dict Operation
  pub executed : List String

-- The result of a call of the strategy, or of the journal.
unfoldable pub on_world : {W A : Type 0} → Call W A → Action (PowerBatch W) BatchError A
on_world f s = let (r, w) = f s.world in (r, record s { world = w })

unfoldable pub on_journal :
    {W A : Type 0}
    → (Journal → Result JournalError A × Journal)
    → Action (PowerBatch W) BatchError A
on_journal f s = let (r, j) = reraised journal_error (f s.journal) in (r, record s { journal = j })

-- The answer of `self._strategy.execute(request)`.
unfoldable pub executes :
    {W A : Type 0} → PowerBatchStrategy W A → PowerRequest → Action (PowerBatch W) BatchError Answer
executes strategy request s =
    let (r, w) = strategy.execute request s.world in
    (r, record s { world = w; executed = request.interrupt_id ∷ s.executed })

-- A dict of operations by interrupt, and the interrupts of requests.
abbrev pub operations_by_id : List Operation → Dict Operation → Dict Operation
operations_by_id [] d = d
operations_by_id (o ∷ os) d = operations_by_id os (Dict.put o.interrupt_id o d)

abbrev pub request_ids : List PowerRequest → List String
request_ids [] = []
request_ids (r ∷ rs) = r.interrupt_id ∷ request_ids rs

abbrev pub same_ids : List String → List String → Bool
same_ids [] [] = true
same_ids (x ∷ xs) (y ∷ ys) = if x == y then same_ids xs ys else false
same_ids _ _ = false

abbrev pub found : {A : Type 0} → Option A → Result BatchError A
found none = err (journal_error conflict)
found (some a) = ok a

-- `generation`, `thread_id`, `bindings`, `strategy` and `journal` of the constructor; `source` is
-- none where the constructor is given a journal, and else opens it.
module _ {W A : Type 0} (codec : Codec) (dumps : Value → Option String) (sha256 : String → String)
    (generation thread_id : String) (bindings : Dict A) (strategy : PowerBatchStrategy W A)
    (source : Option (Journal × W → Result BatchError (Unit {0}) × (Journal × W))) where
  -- PowerBatch._operation
  unfoldable pub operation : PowerRequest → Action (PowerBatch W) BatchError Operation
  operation request = do
    active ← lift (found (Dict.get request.assistant_id bindings))
    on_world (strategy.preflight request)
    identity ← on_world (strategy.binding_identity active)
    secrets ← on_world (strategy.secret_generations request)
    accounts ← on_world (strategy.account_generations request)
    λ s.
        reraised journal_error
          (power_operation dumps sha256 request identity.0 identity.1 secrets accounts, s)

  unfoldable pub each_operation :
      List PowerRequest → Action (PowerBatch W) BatchError (List Operation)
  each_operation [] = pure []
  each_operation (request ∷ requests) = do
    first ← operation request
    rest ← each_operation requests
    pure (first ∷ rest)

  abbrev pub is_some : {B : Type 0} → Option B → Bool
  is_some none = false
  is_some (some b) = true

  abbrev pub opened_by :
      PowerBatch W
      → Result BatchError (Unit {0}) × (Journal × W)
      → Result BatchError (Unit {0}) × PowerBatch W
  opened_by s (err e, (j, w)) = (err e, record s { journal = j; world = w })
  opened_by s (ok _, (j, w)) = (ok tt, record s { journal = j; world = w; opened = true })

  -- `if self._journal is None: self._journal = self._journal_source()`
  unfoldable pub open_journal : Action (PowerBatch W) BatchError (Unit {0})
  open_journal s =
      if s.opened
      then (ok tt, s)
      else elim source [ none ↦ (ok tt, s) | some opens ↦ opened_by s (opens (s.journal, s.world)) ]

  unfoldable pub remember : Batch → List Operation → Action (PowerBatch W) BatchError (Unit {0})
  remember batch operations s =
      (ok tt, record s { batch = some batch; operations = operations_by_id operations [] })

  -- PowerBatch.prepare
  unfoldable pub prepare : List PowerRequest → Action (PowerBatch W) BatchError (Unit {0})
  prepare requests = do
    λ s. refuse (is_some s.batch) (journal_error conflict) s
    operations ← each_operation requests
    open_journal
    batch ← on_journal (prepare_batch codec generation thread_id operations)
    remember batch operations

  -- The batch that is prepared, on a journal that is open.
  unfoldable pub prepared_batch : Action (PowerBatch W) BatchError Batch
  prepared_batch s = if s.opened then (found s.batch, s) else (err (journal_error conflict), s)

  -- `invoke` once the answer of the Power is there.
  unfoldable pub record_answer :
      Batch → Operation → Answer → Action (PowerBatch W) BatchError Answer
  record_answer batch o (rpc_suspension payload) = do
    on_journal (suspend batch o)
    pure (rpc_suspension payload)
  record_answer batch o (result value) = do
    on_journal (complete codec batch o value)
    pure (result value)

  abbrev pub replayed : Option Value → Answer
  replayed none = result Value.null
  replayed (some value) = result value

  -- `invoke` once the journal has decided.
  unfoldable pub decided :
      PowerRequest → Batch → Operation → Execution → Action (PowerBatch W) BatchError Answer
  decided request batch o decision =
      if decision.execute
      then (executes strategy request >>= record_answer batch o)
      else pure (replayed decision.result)

  -- PowerBatch.invoke
  unfoldable pub invoke : PowerRequest → Action (PowerBatch W) BatchError Answer
  invoke request = do
    batch ← prepared_batch
    o ← λ s. (found (Dict.get request.interrupt_id s.operations), s)
    current ← operation request
    refuse (not (same_operation current o)) (journal_error conflict)
    decision ← on_journal (begin codec batch o)
    decided request batch o decision

  abbrev pub closes : Bool → Bool
  closes opened = elim source [ none ↦ opened | some _ ↦ false ]

  -- PowerBatch.delivered
  unfoldable pub deliver : List PowerRequest → Action (PowerBatch W) BatchError (Unit {0})
  deliver requests = do
    batch ← prepared_batch
    refuse (not (same_ids (request_ids requests) (interrupt_ids batch.operations)))
        (journal_error conflict)
    on_journal (delivered codec batch)
    λ s. (ok tt, record s { batch = none; operations = []; opened = closes s.opened })
