-- ===== src/Chat/Drive.antt =====
-- `_validate_batch`, `_drive` and the three entry points of team/chat_orchestrator.py.
use shimpz_drivers.Prelude.{
  ℕ, suc, zero, ◌-◌, Bool, true, false, not, Option, none, some, List, [], ◌∷◌, ◌++◌, String,
  Result, ok, err, ◌==◌, eq_string, eq_nat,
}
use shimpz_drivers.Value.{Value, Entries}
use shimpz_drivers.Chat.State.{
  ChatError, violated, stopped, RuntimePower, RuntimeAssistant, PowerRequest, Status, completed,
  power_required, RuntimeTurn, InvokedPower, ChatContinuation, HumanInteraction, Ending, outcome,
  suspension, Answer, result, rpc_suspension, prepares, invokes, resumes, delivers, Strategy,
  Runtime, Chat, pure, raise, reject, lift, outside, logged, ◌>>=◌, ◌>>◌,
}
use shimpz_drivers.Chat.Requests.{
  interrupts, is_disjoint, contracts_of, is_mapping, check_kind, sorted, max_power_rounds,
}

-- How the loop over a batch can end.
pub data BatchEnd : Type 0 where
  finished : List (String × Value) → List InvokedPower → BatchEnd
  asks : PowerRequest → Entries → BatchEnd

module _ {W : Type 0} (declared : List RuntimeAssistant) (runtime : Runtime W)
    (strategy : Strategy W) where
  -- The second loop of `_validate_batch`.
  unfoldable pub validated : List (PowerRequest × RuntimePower) → Chat W (List PowerRequest)
  unfolding ◌>>=◌ outside
  validated [] = pure []
  validated ((request, power) ∷ contracts) = do
    safe_input ← outside (strategy.validate_power request.assistant_id power.id request.input)
    reject (not (is_mapping safe_input)) violated
    rest ← validated contracts
    pure (
        record {
          interrupt_id = request.interrupt_id;
          assistant_id = request.assistant_id;
          power = power.id;
          input = safe_input;
        }
        ∷ rest)

  abbrev pub is_empty : List PowerRequest → Bool
  is_empty [] = true
  is_empty (_ ∷ _) = false

  unfoldable pub validate_batch : List PowerRequest → Chat W (List PowerRequest)
  unfolding ◌>>=◌ contracts_of validated
  validate_batch requests = do
    reject (is_empty requests) violated
    contracts ← lift (contracts_of declared [] requests)
    validated contracts

  unfoldable pub check_cancelled : Chat W (Unit {0})
  unfolding ◌>>=◌ outside
  check_cancelled = do stop ← outside strategy.cancelled; reject stop stopped

  -- What the loop over a batch does with the answer of a Power; one that asks for a person ends it.
  unfoldable pub take_answer :
      (List (String × Value) → List InvokedPower → Chat W BatchEnd)
      → PowerRequest
      → List (String × Value)
      → List InvokedPower
      → Answer
      → Chat W BatchEnd
  unfolding ◌>>=◌ check_kind
  take_answer next_request request results invoked (rpc_suspension payload) = do
    lift (check_kind payload)
    pure (asks request payload)
  take_answer next_request request results invoked (result value) =
      next_request (results ++ (request.interrupt_id, value) ∷ [])
        (invoked ++ record { assistant_id = request.assistant_id; power = request.power } ∷ [])

  -- `for request in batch`
  unfoldable pub invoke_each :
      List PowerRequest → List (String × Value) → List InvokedPower → Chat W BatchEnd
  unfolding ◌>>=◌ outside logged check_cancelled take_answer
  invoke_each [] results invoked = pure (finished results invoked)
  invoke_each (request ∷ requests) results invoked = do
    check_cancelled
    outside strategy.validate_context
    answer ← logged (invokes request) (strategy.invoke_power request)
    take_answer (invoke_each requests) request results invoked answer

  -- The end of a round: the results go to the Brain, and the next round follows.
  unfoldable pub finish :
      (RuntimeTurn → List String → List InvokedPower → Chat W Ending)
      → List PowerRequest
      → List String
      → List InvokedPower
      → List (String × Value)
      → List InvokedPower
      → Chat W Ending
  unfolding ◌>>=◌ outside logged
  finish next_round batch seen invoked results batch_invoked = do
    outside strategy.validate_context
    resumed ← logged (resumes results) (runtime.resume results)
    reject (repeats resumed) violated
    logged (delivers batch) (strategy.batch_delivered batch)
    next_round resumed all_seen (invoked ++ batch_invoked)
    where
      all_seen : List String
      all_seen = interrupts batch ++ seen

      repeats : RuntimeTurn → Bool
      repeats turn = elim turn.status [
        | completed ↦ false
        | power_required ↦ not (is_disjoint all_seen (interrupts turn.powers))
      ]

  abbrev pub suspended_at :
      ℕ
      → RuntimeTurn
      → List String
      → List InvokedPower
      → List PowerRequest
      → Option HumanInteraction
      → Ending
  suspended_at round turn seen invoked batch interaction =
      suspension
        (record {
          turn = turn;
          seen_interrupts = sorted seen;
          invoked = invoked;
          round_index = round;
        })
        batch interaction

  -- What follows the loop over the batch.
  unfoldable pub after_batch :
      (RuntimeTurn → List String → List InvokedPower → Chat W Ending)
      → ℕ
      → RuntimeTurn
      → List String
      → List InvokedPower
      → List PowerRequest
      → BatchEnd
      → Chat W Ending
  unfolding finish
  after_batch next_round round turn seen invoked batch (asks request payload) = pure (
      suspended_at round turn seen invoked batch
        (some (record { request = request; payload = payload })))
  after_batch next_round round turn seen invoked batch (finished results batch_invoked) =
      finish next_round batch seen invoked results batch_invoked

  unfoldable pub run_batch :
      (RuntimeTurn → List String → List InvokedPower → Chat W Ending)
      → ℕ
      → RuntimeTurn
      → List String
      → List InvokedPower
      → List PowerRequest
      → Bool
      → Chat W Ending
  unfolding ◌>>=◌ logged invoke_each after_batch
  run_batch next_round round turn seen invoked batch true =
      pure (suspended_at round turn seen invoked batch none)
  run_batch next_round round turn seen invoked batch false = do
    logged (prepares batch) (strategy.prepare_batch batch)
    ended ← invoke_each batch [] []
    after_batch next_round round turn seen invoked batch ended

  -- A round with Powers.
  unfoldable pub power_round :
      (RuntimeTurn → List String → List InvokedPower → Chat W Ending)
      → ℕ
      → RuntimeTurn
      → List String
      → List InvokedPower
      → Chat W Ending
  unfolding ◌>>=◌ outside validate_batch run_batch
  power_round next_round round turn seen invoked = do
    reject (round == max_power_rounds) violated
    outside strategy.validate_context
    batch ← validate_batch turn.powers
    reject (not (is_disjoint seen (interrupts batch))) violated
    pause ← outside (strategy.pause_before_batch batch)
    run_batch next_round round turn seen invoked batch pause

  unfoldable pub one_round :
      (RuntimeTurn → List String → List InvokedPower → Chat W Ending)
      → ℕ
      → RuntimeTurn
      → List String
      → List InvokedPower
      → Status
      → Chat W Ending
  unfolding ◌>>=◌ outside power_round
  one_round next_round round turn seen invoked completed = do
    outside strategy.validate_context
    pure (outcome turn.reply invoked)
  one_round next_round round turn seen invoked power_required =
      power_round next_round round turn seen invoked

  -- The rounds `max_power_rounds + 1 - left` and on.
  unfoldable pub rounds : ℕ → RuntimeTurn → List String → List InvokedPower → Chat W Ending
  unfolding ◌>>=◌ check_cancelled one_round
  rounds zero turn seen invoked = raise violated
  rounds (suc left) turn seen invoked = do
    check_cancelled
    one_round (rounds left) (max_power_rounds - left) turn seen invoked turn.status

  -- _drive
  unfoldable pub drive : ChatContinuation → Chat W Ending
  unfolding rounds
  drive continuation =
      rounds (suc max_power_rounds - continuation.round_index) continuation.turn
        continuation.seen_interrupts continuation.invoked

  unfoldable pub run_until_pause : String → Chat W Ending
  unfolding ◌>>=◌ outside check_cancelled drive
  run_until_pause message = do
    check_cancelled
    outside strategy.validate_context
    turn ← outside (runtime.start message)
    drive (record { turn = turn; seen_interrupts = []; invoked = []; round_index = 0 })

  abbrev pub only_outcome : Ending → Result ChatError (String × List InvokedPower)
  only_outcome (outcome reply powers) = ok (reply, powers)
  only_outcome (suspension _ _ _) = err violated

  unfoldable pub run : String → Chat W (String × List InvokedPower)
  unfolding ◌>>=◌ run_until_pause
  run message = do ended ← run_until_pause message; lift (only_outcome ended)
