-- ===== src/Chat/Examples.antt =====
-- The theorems on a turn at concrete inputs, and tests.
use shimpz_drivers.Prelude.{
  ◌-◌, ◌+◌, ◌≤◌, ℕ, ◌≡◌, refl, false, [], ◌∷◌, String, ok, suc, eq_string, arith,
}
use shimpz_drivers.Value.{str, dict, null, end}
use shimpz_drivers.Chat.State.{
  RuntimeAssistant, PowerRequest, completed, power_required, RuntimeTurn, InvokedPower,
  ChatContinuation, result, Strategy, Runtime, outside, logged, after, ◌>>=◌,
}
use shimpz_drivers.Chat.Requests.{find_power, find_declared, contracts_of}
use shimpz_drivers.Chat.Drive.{
  validated, validate_batch, check_cancelled, take_answer, invoke_each, finish, after_batch,
  run_batch, power_round, one_round, rounds, drive, run_until_pause, run,
}
use shimpz_drivers.Chat.Batch.{invoked_ids, InvokedOnce}
use shimpz_drivers.Chat.Distinct.{Covered}
use shimpz_drivers.Chat.Rounds.{resumed, drive-resumed}
use shimpz_drivers.Chat.Turn.{drive-once, run-once}

abbrev mail : RuntimeAssistant
mail = record {
  id = "mail";
  powers = record { id = "send"; summary = "sends"; input_schema = null } ∷ [];
}

abbrev request : String → PowerRequest
request i = record { interrupt_id = i; assistant_id = "mail"; power = "send"; input = dict end }

abbrev asking : RuntimeTurn
asking = record { status = power_required; reply = ""; powers = request "i1" ∷ request "i2" ∷ [] }

-- A Brain that asks for two Powers and is then done; its world counts the times that it resumed.
abbrev brain : Runtime ℕ
brain = record {
  start = λ message w. (ok asking, w);
  resume = λ results w. (ok (record { status = completed; reply = "sent"; powers = [] }), suc w);
}

abbrev obliging : Strategy ℕ
obliging = record {
  validate_power = λ assistant power input w. (ok input, w);
  invoke_power = λ r w. (ok (result (str "done")), w);
  prepare_batch = λ batch w. (ok tt, w);
  batch_delivered = λ batch w. (ok tt, w);
  pause_before_batch = λ batch w. (ok false, w);
  cancelled = λ w. (ok false, w);
  validate_context = λ w. (ok tt, w);
}

abbrev send : InvokedPower
send = record { assistant_id = "mail"; power = "send" }

run-sent :
    (run (mail ∷ []) brain obliging "hello" (record { world = 0; log = [] })).0
    ≡ ok ("sent", send ∷ send ∷ [])
unfolding find_power find_declared contracts_of validated validate_batch check_cancelled take_answer
    invoke_each finish after_batch run_batch power_round one_round rounds drive run_until_pause run
    outside logged after ◌>>=◌
run-sent = refl

run-once_example :
    InvokedOnce (run (mail ∷ []) brain obliging "hello" (record { world = 0; log = [] })).1.log
run-once_example = run-once (mail ∷ []) brain obliging "hello" 0

abbrev paused : ChatContinuation
paused = record { turn = asking; seen_interrupts = "i0" ∷ []; invoked = send ∷ []; round_index = 1 }

paused-Covered : Covered ("i0" ∷ []) []
unfolding invoked_ids
paused-Covered = record { once = refl; known = λ i m. absurd (ground arith) }

drive-once_example :
    InvokedOnce (drive (mail ∷ []) brain obliging paused (record { world = 0; log = [] })).1.log
drive-once_example =
    drive-once (mail ∷ []) brain obliging paused (record { world = 0; log = [] }) paused-Covered

drive-resumed_example :
    resumed (drive (mail ∷ []) brain obliging paused (record { world = 0; log = [] })).1.log
    ≤ resumed [] + (8 - 1)
drive-resumed_example =
    drive-resumed (mail ∷ []) brain obliging paused (record { world = 0; log = [] })
