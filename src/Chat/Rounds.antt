-- ===== src/Chat/Rounds.antt =====
-- How often the loop of team/chat_orchestrator.py resumes the Brain.
use shimpz_drivers.Prelude.{
  ℕ, suc, zero, ◌+◌, ◌-◌, ◌≤◌, ◌≡◌, ◌∙◌, sym, subst, arith, Bool, true, false, not, List, [], ◌∷◌,
  ◌++◌, String, Result, ok, err, ◌==◌, eq_nat, eq_string, is_distinct, Bool-cases, inl, inr,
}
use shimpz_drivers.Value.{Value}
use shimpz_drivers.Chat.State.{
  ChatError, violated, RuntimeAssistant, PowerRequest, Status, completed, power_required,
  RuntimeTurn, InvokedPower, ChatContinuation, Ending, Event, prepares, invokes, resumes, delivers,
  Env, Strategy, Runtime, Chat, ◌>>=◌,
}
use shimpz_drivers.Chat.Requests.{max_power_rounds, interrupts, is_disjoint}
use shimpz_drivers.Chat.Drive.{
  BatchEnd, finished, asks, invoke_each, finish, after_batch, run_batch, power_round, one_round,
  rounds, drive,
}
use shimpz_drivers.Chat.Ends.{Ends, Ends-weaken, Ends-outside, Ends-logged, Ends-reject, Ends-bind}
use shimpz_drivers.Chat.Batch.{validate_batch-distinct, check_cancelled-log, take_answer-Ends}

-- The number of times that the Brain was resumed.
unfoldable pub resumed : List Event → ℕ
resumed [] = 0
resumed (resumes r ∷ es) = suc (resumed es)
resumed (_ ∷ es) = resumed es

abbrev AtMost : {A : Type 0} → ℕ → A → List Event → Type 0
AtMost n x l = resumed l ≤ n

abbrev Below : ℕ → List Event → Type 0
Below n l = resumed l ≤ n

module _ {W : Type 0} (declared : List RuntimeAssistant) (runtime : Runtime W)
    (strategy : Strategy W) where
  invoke_each-Below :
      (rs : List PowerRequest) (results : List (String × Value)) (invoked : List InvokedPower)
      (n : ℕ) (s : Env W)
      → resumed s.log ≤ n
      → Ends (AtMost n) (Below n) (invoke_each declared runtime strategy rs results invoked s)
  unfolding invoke_each ◌>>=◌ resumed
  invoke_each-Below [] results invoked n s h = h
  invoke_each-Below (r ∷ rs) results invoked n s h =
      Ends-bind (λ u l. l ≡ s.log) (AtMost n) (Below n) _ _
        (check_cancelled-log declared runtime strategy (Below n) s h)
        (λ u s1 e1.
          Ends-bind (AtMost n) (AtMost n) (Below n) _ _
            (Ends-outside (AtMost n) (Below n) strategy.validate_context s1
              (λ v. subst (Below n) (sym e1) h) (subst (Below n) (sym e1) h))
            (λ v s2 h2.
              Ends-bind (AtMost n) (AtMost n) (Below n) _ _
                (Ends-logged (AtMost n) (Below n) (invokes r) (strategy.invoke_power r) s2 (λ a. h2)
                  h2)
                (λ a s3 h3.
                  take_answer-Ends declared runtime strategy (AtMost n) (Below n)
                    (invoke_each declared runtime strategy rs) r results invoked a s3 h3 (λ x y. h3)
                    (λ x y. invoke_each-Below rs x y n s3 h3))))

  module _ (next_round : RuntimeTurn → List String → List InvokedPower → Chat W Ending) (m n : ℕ)
      (room : suc n ≤ m)
      (go : (turn : RuntimeTurn) (seen : List String) (invoked : List InvokedPower) (s : Env W)
        → resumed s.log ≤ suc n
        → Ends (AtMost m) (Below m) (next_round turn seen invoked s)) where
    finish-Below :
        (batch : List PowerRequest) (seen : List String) (invoked : List InvokedPower)
        (results : List (String × Value)) (batch_invoked : List InvokedPower) (s : Env W)
        → resumed s.log ≤ n
        → Ends
            (AtMost m)
            (Below m)
            (finish declared runtime strategy next_round batch seen invoked results batch_invoked s)
    unfolding finish ◌>>=◌ resumed
    finish-Below batch seen invoked results batch_invoked s h =
        Ends-bind (AtMost n) (AtMost m) (Below m) _ _
          (Ends-outside (AtMost n) (Below m) strategy.validate_context s (λ u. h)
            (omega (arith, h, room)))
          (λ u s1 h1.
            Ends-bind (AtMost (suc n)) (AtMost m) (Below m) _ _
              (Ends-logged (AtMost (suc n)) (Below m) (resumes results) (runtime.resume results) s1
                (λ turn. omega (arith, h1)) (omega (arith, h1, room)))
              (λ turn s2 h2.
                Ends-bind (AtMost (suc n)) (AtMost m) (Below m) _ _
                  (Ends-reject (AtMost (suc n)) (Below m) _ _ s2 (λ q. h2)
                    (omega (arith, h2, room)))
                  (λ v s3 h3.
                    Ends-bind (AtMost (suc n)) (AtMost m) (Below m) _ _
                      (Ends-logged (AtMost (suc n)) (Below m) (delivers batch)
                        (strategy.batch_delivered batch) s3 (λ w. h3) (omega (arith, h3, room)))
                      (λ w s4 h4.
                        go turn (interrupts batch ++ seen) (invoked ++ batch_invoked) s4 h4))))

    run_batch-Below :
        (round : ℕ) (turn : RuntimeTurn) (seen : List String) (invoked : List InvokedPower)
        (batch : List PowerRequest) (pause : Bool) (s : Env W)
        → resumed s.log ≤ n
        → Ends
            (AtMost m)
            (Below m)
            (run_batch declared runtime strategy next_round round turn seen invoked batch pause s)
    unfolding run_batch ◌>>=◌ after_batch resumed
    run_batch-Below round turn seen invoked batch true s h = omega (arith, h, room)
    run_batch-Below round turn seen invoked batch false s h =
        Ends-bind (AtMost n) (AtMost m) (Below m) _ _
          (Ends-logged (AtMost n) (Below m) (prepares batch) (strategy.prepare_batch batch) s
            (λ u. h) (omega (arith, h, room)))
          (λ u s1 h1.
            Ends-bind (AtMost n) (AtMost m) (Below m) _ _
              (Ends-weaken (AtMost n) (AtMost n) (Below n) (Below m) _ (λ x l b. b)
                (λ l b. omega (arith, b, room)) (invoke_each-Below batch [] [] n s1 h1))
              (λ x s2 h2. ended x s2 h2))
      where
        ended :
            (x : BatchEnd) (s2 : Env W)
            → resumed s2.log ≤ n
            → Ends (AtMost m) (Below m) (
                after_batch declared runtime strategy next_round round turn seen invoked batch x s2)
        ended (asks request payload) s2 h2 = omega (arith, h2, room)
        ended (finished results batch_invoked) s2 h2 =
            finish-Below batch seen invoked results batch_invoked s2 h2

    after_limit-Below :
        (round : ℕ) (turn : RuntimeTurn) (seen : List String) (invoked : List InvokedPower)
        (s : Env W)
        → resumed s.log ≤ n
        → Ends
            (AtMost m)
            (Below m)
            (power_round declared runtime strategy next_round round turn seen invoked s)
    unfolding power_round ◌>>=◌
    after_limit-Below round turn seen invoked s h =
        let fine : (l : List Event) → resumed l ≤ n → resumed l ≤ m =
          λ l b. omega (arith, b, room) in
        Ends-bind (AtMost n) (AtMost m) (Below m) _ _
          (Ends-reject (AtMost n) (Below m) (round == max_power_rounds) violated s (λ q. h)
            (fine s.log h))
          (λ u s1 h1.
            Ends-bind (AtMost n) (AtMost m) (Below m) _ _
              (Ends-outside (AtMost n) (Below m) strategy.validate_context s1 (λ u. h1)
                (fine s1.log h1))
              (λ u s2 h2.
                Ends-bind (λ batch l. (is_distinct (interrupts batch) ≡ true) × (l ≡ s2.log))
                  (AtMost m) (Below m) _ _
                  (validate_batch-distinct declared runtime strategy turn.powers (Below m) s2
                    (fine s2.log h2))
                  (λ batch s3 e3.
                    let h3 : resumed s3.log ≤ n = subst (Below n) (sym e3.1) h2 in
                    Ends-bind (AtMost n) (AtMost m) (Below m) _ _
                      (Ends-reject (AtMost n) (Below m) (not (is_disjoint seen (interrupts batch)))
                        violated s3 (λ q. h3) (fine s3.log h3))
                      (λ v s4 h4.
                        Ends-bind (AtMost n) (AtMost m) (Below m) _ _
                          (Ends-outside (AtMost n) (Below m) (strategy.pause_before_batch batch) s4
                            (λ p. h4) (fine s4.log h4))
                          (λ pause s5 h5.
                            run_batch-Below round turn seen invoked batch pause s5 h5)))))

  -- At the limit of rounds nothing more is called.
  limit-Below :
      (next_round : RuntimeTurn → List String → List InvokedPower → Chat W Ending) (m round : ℕ)
      (turn : RuntimeTurn) (seen : List String) (invoked : List InvokedPower) (s : Env W)
      → (round == max_power_rounds) ≡ true
      → resumed s.log ≤ m
      → Ends
          (AtMost m)
          (Below m)
          (power_round declared runtime strategy next_round round turn seen invoked s)
  unfolding power_round ◌>>=◌
  limit-Below next_round m round turn seen invoked s at h =
      Ends-bind (λ u l. true ≡ false) (AtMost m) (Below m) _ _
        (Ends-reject (λ u l. true ≡ false) (Below m) (round == max_power_rounds) violated s
          (λ q. sym at ∙ q) h)
        (λ u s1 impossible. absurd (ground (arith, impossible)))

  one_round-Below :
      (next_round : RuntimeTurn → List String → List InvokedPower → Chat W Ending) (m n round : ℕ)
      (turn : RuntimeTurn) (seen : List String) (invoked : List InvokedPower) (status : Status)
      (s : Env W)
      → n ≤ m
      → ((round == max_power_rounds) ≡ false → suc n ≤ m)
      → ((turn : RuntimeTurn) (seen : List String) (invoked : List InvokedPower) (s : Env W)
          → resumed s.log ≤ suc n
          → (round == max_power_rounds) ≡ false
          → Ends (AtMost m) (Below m) (next_round turn seen invoked s))
      → resumed s.log ≤ n
      → Ends
          (AtMost m)
          (Below m)
          (one_round declared runtime strategy next_round round turn seen invoked status s)
  unfolding one_round ◌>>=◌
  one_round-Below next_round m n round turn seen invoked completed s low room go h =
      Ends-bind (AtMost m) (AtMost m) (Below m) _ _
        (Ends-outside (AtMost m) (Below m) strategy.validate_context s (λ u. omega (arith, h, low))
          (omega (arith, h, low)))
        (λ u s1 h1. h1)
  one_round-Below next_round m n round turn seen invoked power_required s low room go h =
      elim (Bool-cases (round == max_power_rounds)) [
        | inl at ↦ limit-Below next_round m round turn seen invoked s at (omega (arith, h, low))
        | inr before ↦
            after_limit-Below next_round m n (room before) (λ t x i s' b. go t x i s' b before)
              round turn seen invoked s h
      ]

  rounds-Below :
      (left m n : ℕ) (turn : RuntimeTurn) (seen : List String) (invoked : List InvokedPower)
      (s : Env W)
      → n + left ≤ suc m
      → n ≤ m
      → resumed s.log ≤ n
      → Ends (AtMost m) (Below m) (rounds declared runtime strategy left turn seen invoked s)
  unfolding rounds ◌>>=◌
  rounds-Below zero m n turn seen invoked s fit low h = omega (arith, h, low)
  rounds-Below (suc left) m n turn seen invoked s fit low h =
      Ends-bind (λ u l. l ≡ s.log) (AtMost m) (Below m) _ _
        (check_cancelled-log declared runtime strategy (Below m) s (omega (arith, h, low)))
        (λ u s1 e1.
          one_round-Below (rounds declared runtime strategy left) m n (max_power_rounds - left) turn
            seen invoked turn.status s1 low (λ q. room q)
            (λ t x i s2 b q. rounds-Below left m (suc n) t x i s2 (omega (arith, fit)) (room q) b)
            (subst (Below n) (sym e1) h))
    where
      room : (max_power_rounds - left == max_power_rounds) ≡ false → suc n ≤ m
      room q = ground (arith, fit, q)

  ended-Below :
      {A : Type 0} (n : ℕ) (p : Result ChatError A × Env W)
      → Ends (AtMost n) (Below n) p
      → resumed p.1.log ≤ n
  ended-Below n (ok a, s) h = h
  ended-Below n (err e, s) h = h

  -- However a started or continued turn ends, it has resumed the Brain no more than once for each
  -- round that its continuation has left of the eight.
  pub drive-resumed :
      (continuation : ChatContinuation) (s : Env W)
      → resumed (drive declared runtime strategy continuation s).1.log
        ≤ resumed s.log + (8 - continuation.round_index)
  unfolding drive
  drive-resumed continuation s =
      let n = resumed s.log in
      let m = resumed s.log + (8 - continuation.round_index) in
      ended-Below m _ (
        rounds-Below (suc max_power_rounds - continuation.round_index) m n continuation.turn
          continuation.seen_interrupts continuation.invoked s (omega arith) (omega arith)
          (omega arith))
