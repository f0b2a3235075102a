-- ===== src/Chat/Turn.antt =====
-- A turn of team/chat_orchestrator.py invokes no interrupt twice.
use shimpz_drivers.Prelude.{
  ℕ, suc, zero, ◌-◌, ◌≡◌, refl, sym, subst, List, [], String, Result, ok, err, eq_nat, eq_string,
}
use shimpz_drivers.Chat.State.{
  ChatError, RuntimeAssistant, Status, completed, power_required, RuntimeTurn, InvokedPower,
  ChatContinuation, Ending, Event, Env, Strategy, Runtime, Chat, ◌>>=◌,
}
use shimpz_drivers.Chat.Requests.{max_power_rounds}
use shimpz_drivers.Chat.Drive.{only_outcome, one_round, rounds, drive, run_until_pause, run}
use shimpz_drivers.Chat.Ends.{Ends, Ends-outside, Ends-lift, Ends-bind}
use shimpz_drivers.Chat.Batch.{invoked_ids, InvokedOnce, check_cancelled-log}
use shimpz_drivers.Chat.Distinct.{Covered, Good, GoodRounds, power_round-Good}

module _ {W : Type 0} (declared : List RuntimeAssistant) (runtime : Runtime W)
    (strategy : Strategy W) where
  one_round-Good :
      (next_round : RuntimeTurn → List String → List InvokedPower → Chat W Ending)
      (go : GoodRounds next_round) (round : ℕ) (turn : RuntimeTurn) (seen : List String)
      (invoked : List InvokedPower) (status : Status) (s : Env W)
      → Covered seen s.log
      → Ends Good InvokedOnce
          (one_round declared runtime strategy next_round round turn seen invoked status s)
  unfolding one_round ◌>>=◌
  one_round-Good next_round go round turn seen invoked completed s h =
      Ends-bind (λ u l. InvokedOnce l) Good InvokedOnce _ _
        (Ends-outside (λ u l. InvokedOnce l) InvokedOnce strategy.validate_context s (λ u. h.once)
          h.once)
        (λ u s1 h1. h1)
  one_round-Good next_round go round turn seen invoked power_required s h =
      power_round-Good declared runtime strategy next_round go round turn seen invoked s h

  rounds-Good : (left : ℕ) → GoodRounds (rounds declared runtime strategy left)
  unfolding rounds ◌>>=◌
  rounds-Good zero turn seen invoked s h = h.once
  rounds-Good (suc left) turn seen invoked s h =
      Ends-bind (λ u l. l ≡ s.log) Good InvokedOnce _ _
        (check_cancelled-log declared runtime strategy InvokedOnce s h.once)
        (λ u s1 e1.
          one_round-Good (rounds declared runtime strategy left) (rounds-Good left)
            (max_power_rounds - left) turn seen invoked turn.status s1
            (subst (Covered seen) (sym e1) h))

  ended-once :
      {A : Type 0} (p : Result ChatError A × Env W)
      → Ends (λ a l. InvokedOnce l) InvokedOnce p
      → InvokedOnce p.1.log
  ended-once (ok a, s) h = h
  ended-once (err e, s) h = h

  -- However a continued turn ends, by a result, a pause, an error of the Brain or a cancellation, no
  -- interrupt was invoked twice, if that was so before and the continuation names all interrupts that
  -- were invoked.
  pub drive-once :
      (continuation : ChatContinuation) (s : Env W)
      → Covered continuation.seen_interrupts s.log
      → InvokedOnce (drive declared runtime strategy continuation s).1.log
  unfolding drive
  drive-once continuation s h = ended-once _ (
      rounds-Good (suc max_power_rounds - continuation.round_index) continuation.turn
        continuation.seen_interrupts continuation.invoked s h)

  -- However a turn ends, it has invoked no interrupt twice.
  pub run-once :
      (message : String) (w : W)
      → InvokedOnce (run declared runtime strategy message (record { world = w; log = [] })).1.log
  unfolding run run_until_pause drive ◌>>=◌ invoked_ids
  run-once message w =
      let s : Env W = record { world = w; log = [] } in
      let N : Unit {0} → List Event → Type 0 = λ u l. l ≡ [] in
      let none_yet : InvokedOnce [] = refl in
      let fine : (l : List Event) → l ≡ [] → InvokedOnce l =
        λ l e. subst InvokedOnce (sym e) none_yet in
      ended-once _ (
        Ends-bind Good (λ a l. InvokedOnce l) InvokedOnce _ _
          (Ends-bind N Good InvokedOnce _ _
            (check_cancelled-log declared runtime strategy InvokedOnce s none_yet)
            (λ u s1 e1.
              Ends-bind N Good InvokedOnce _ _
                (Ends-outside N InvokedOnce strategy.validate_context s1 (λ u. e1) (fine s1.log e1))
                (λ u s2 e2.
                  Ends-bind (λ turn l. l ≡ []) Good InvokedOnce _ _
                    (Ends-outside (λ turn l. l ≡ []) InvokedOnce (runtime.start message) s2
                      (λ turn. e2) (fine s2.log e2))
                    (λ turn s3 e3. rounds-Good (suc max_power_rounds - 0) turn [] [] s3 (
                      subst (Covered []) (sym e3)
                        (record { once = none_yet; known = λ i m. m }))))))
          (λ ending s4 h4.
            Ends-lift (λ a l. InvokedOnce l) InvokedOnce
              (only_outcome declared runtime strategy ending) s4 (λ a q. h4) h4))
