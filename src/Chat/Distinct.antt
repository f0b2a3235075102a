-- ===== src/Chat/Distinct.antt =====
-- The loop of team/chat_orchestrator.py invokes no interrupt twice, over all its rounds.
use shimpz_drivers.Prelude.{
  ℕ, ◌≡◌, refl, sym, subst, ◌∙◌, arith, Bool, true, false, not, ◌||◌, List, [], ◌∷◌, ◌++◌, String,
  ◌==◌, eq_nat, eq_string, contains, is_distinct, str_iff, Bool-cases, inl, inr,
}
use shimpz_drivers.Value.{Value}
use shimpz_drivers.Chat.State.{
  violated, RuntimeAssistant, PowerRequest, RuntimeTurn, InvokedPower, Ending, Event, prepares,
  resumes, delivers, Env, Strategy, Runtime, Chat, ◌>>=◌,
}
use shimpz_drivers.Chat.Requests.{max_power_rounds, interrupts, is_disjoint}
use shimpz_drivers.Chat.Drive.{
  BatchEnd, finished, asks, finish, after_batch, run_batch, power_round,
}
use shimpz_drivers.Chat.Ends.{Ends, Ends-outside, Ends-logged, Ends-reject, Ends-bind}
use shimpz_drivers.Chat.Batch.{
  invoked_ids, InvokedOnce, Ready, Within, validate_batch-distinct, invoke_each-Within,
}

-- No interrupt was invoked twice, and none outside of `seen`.
pub record Covered (seen : List String) (l : List Event) : Type 0 where
  pub once : InvokedOnce l
  pub known : (i : String) → contains i (invoked_ids l) ≡ true → contains i seen ≡ true

contains-append :
    (i : String) (xs ys : List String) → contains i (xs ++ ys) ≡ (contains i xs || contains i ys)
contains-append i [] ys = refl
contains-append i (x ∷ xs) ys = ground (arith, contains-append i xs ys)

disjoint-apart :
    (seen is : List String) (i : String)
    → is_disjoint seen is ≡ true
    → contains i is ≡ true
    → contains i seen ≡ false
disjoint-apart seen [] i d m = absurd (ground arith)
disjoint-apart seen (x ∷ is) i d m = elim (Bool-cases (x == i)) [
  | inl e ↦
      let same : x ≡ i = (str_iff x i).0 e in
      subst (λ y. contains y seen ≡ false) same (ground arith)
  | inr ne ↦ disjoint-apart seen is i (ground arith) (ground arith)
]

Covered-resumes :
    {seen : List String} (r : List (String × Value)) (l : List Event)
    → Covered seen l
    → Covered seen (resumes r ∷ l)
unfolding invoked_ids
Covered-resumes r l h = record { once = h.once; known = h.known }

Covered-delivers :
    {seen : List String} (b : List PowerRequest) (l : List Event)
    → Covered seen l
    → Covered seen (delivers b ∷ l)
unfolding invoked_ids
Covered-delivers b l h = record { once = h.once; known = h.known }

Covered-Ready :
    (seen : List String) (batch : List PowerRequest) (l : List Event)
    → Covered seen l
    → is_distinct (interrupts batch) ≡ true
    → is_disjoint seen (interrupts batch) ≡ true
    → Ready (interrupts batch) (prepares batch ∷ l)
unfolding invoked_ids
Covered-Ready seen batch l h d a = record {
  once = h.once;
  distinct = d;
  apart = λ i m. ground (arith, h.known i, disjoint-apart seen (interrupts batch) i a m);
}

Within-Covered :
    (seen : List String) (batch : List PowerRequest) (l k : List Event)
    → Covered seen l
    → Within (invoked_ids (prepares batch ∷ l)) (interrupts batch) k
    → Covered (interrupts batch ++ seen) k
unfolding invoked_ids
Within-Covered seen batch l k h w = record {
  once = w.once;
  known = λ i m. contains-append i (interrupts batch) seen ∙ ground (arith, w.known i m, h.known i);
}

abbrev pub Good : Ending → List Event → Type 0
Good x l = InvokedOnce l

abbrev pub GoodRounds :
    {W : Type 0} → (RuntimeTurn → List String → List InvokedPower → Chat W Ending) → Type 0
GoodRounds {W} next_round =
    (turn : RuntimeTurn) (seen : List String) (invoked : List InvokedPower) (s : Env W)
    → Covered seen s.log
    → Ends Good InvokedOnce (next_round turn seen invoked s)

module _ {W : Type 0} (declared : List RuntimeAssistant) (runtime : Runtime W)
    (strategy : Strategy W) where
  module _ (next_round : RuntimeTurn → List String → List InvokedPower → Chat W Ending)
      (go : GoodRounds next_round) where
    finish-Good :
        (batch : List PowerRequest) (seen : List String) (invoked : List InvokedPower)
        (results : List (String × Value)) (batch_invoked : List InvokedPower) (s : Env W)
        → Covered (interrupts batch ++ seen) s.log
        → Ends Good InvokedOnce
            (finish declared runtime strategy next_round batch seen invoked results batch_invoked s)
    unfolding finish ◌>>=◌
    finish-Good batch seen invoked results batch_invoked s h =
        let C : Unit {0} → List Event → Type 0 = λ u l. Covered (interrupts batch ++ seen) l in
        Ends-bind C Good InvokedOnce _ _
          (Ends-outside C InvokedOnce strategy.validate_context s (λ u. h) h.once)
          (λ u s1 h1.
            Ends-bind (λ turn l. Covered (interrupts batch ++ seen) l) Good InvokedOnce _ _
              (Ends-logged (λ turn l. Covered (interrupts batch ++ seen) l) InvokedOnce
                (resumes results) (runtime.resume results) s1
                (λ turn. Covered-resumes results s1.log h1)
                (Covered-resumes results s1.log h1).once)
              (λ turn s2 h2.
                Ends-bind C Good InvokedOnce _ _
                  (Ends-reject C InvokedOnce _ _ s2 (λ q. h2) h2.once)
                  (λ v s3 h3.
                    Ends-bind C Good InvokedOnce _ _
                      (Ends-logged C InvokedOnce (delivers batch) (strategy.batch_delivered batch)
                        s3 (λ w. Covered-delivers batch s3.log h3)
                        (Covered-delivers batch s3.log h3).once)
                      (λ w s4 h4.
                        go turn (interrupts batch ++ seen) (invoked ++ batch_invoked) s4 h4))))

    run_batch-Good :
        (round : ℕ) (turn : RuntimeTurn) (seen : List String) (invoked : List InvokedPower)
        (batch : List PowerRequest) (pause : Bool) (s : Env W)
        → Covered seen s.log
        → is_distinct (interrupts batch) ≡ true
        → is_disjoint seen (interrupts batch) ≡ true
        → Ends Good InvokedOnce
            (run_batch declared runtime strategy next_round round turn seen invoked batch pause s)
    unfolding run_batch ◌>>=◌ after_batch
    run_batch-Good round turn seen invoked batch true s h d a = h.once
    run_batch-Good round turn seen invoked batch false s h d a =
        let ready = Covered-Ready seen batch s.log h d a in
        Ends-bind (λ u l. l ≡ prepares batch ∷ s.log) Good InvokedOnce _ _
          (Ends-logged (λ u l. l ≡ prepares batch ∷ s.log) InvokedOnce (prepares batch)
            (strategy.prepare_batch batch) s (λ u. refl) ready.once)
          (λ u s1 e1.
            Ends-bind (λ x k. Within (invoked_ids (prepares batch ∷ s.log)) (interrupts batch) k)
              Good InvokedOnce _ _
              (invoke_each-Within declared runtime strategy batch [] [] s1 (prepares batch ∷ s.log)
                e1 ready)
              (λ x s2 w. ended x s2 (Within-Covered seen batch s.log s2.log h w)))
      where
        ended :
            (x : BatchEnd) (s2 : Env W)
            → Covered (interrupts batch ++ seen) s2.log
            → Ends Good InvokedOnce (
                after_batch declared runtime strategy next_round round turn seen invoked batch x s2)
        ended (asks request payload) s2 c = c.once
        ended (finished results batch_invoked) s2 c =
            finish-Good batch seen invoked results batch_invoked s2 c

    pub power_round-Good :
        (round : ℕ) (turn : RuntimeTurn) (seen : List String) (invoked : List InvokedPower)
        (s : Env W)
        → Covered seen s.log
        → Ends Good InvokedOnce
            (power_round declared runtime strategy next_round round turn seen invoked s)
    unfolding power_round ◌>>=◌
    power_round-Good round turn seen invoked s h =
        let C : Unit {0} → List Event → Type 0 = λ u l. Covered seen l in
        Ends-bind C Good InvokedOnce _ _
          (Ends-reject C InvokedOnce (round == max_power_rounds) violated s (λ q. h) h.once)
          (λ u s1 h1.
            Ends-bind C Good InvokedOnce _ _
              (Ends-outside C InvokedOnce strategy.validate_context s1 (λ u. h1) h1.once)
              (λ u s2 h2.
                Ends-bind (λ batch l. (is_distinct (interrupts batch) ≡ true) × (l ≡ s2.log)) Good
                  InvokedOnce _ _
                  (validate_batch-distinct declared runtime strategy turn.powers InvokedOnce s2
                    h2.once)
                  (λ batch s3 e3.
                    let h3 : Covered seen s3.log = subst (Covered seen) (sym e3.1) h2 in
                    Ends-bind (λ u l. (is_disjoint seen (interrupts batch) ≡ true) × Covered seen l)
                      Good InvokedOnce _ _
                      (Ends-reject
                        (λ u l. (is_disjoint seen (interrupts batch) ≡ true) × Covered seen l)
                        InvokedOnce (not (is_disjoint seen (interrupts batch))) violated s3
                        (λ q. (ground arith, h3)) h3.once)
                      (λ v s4 h4.
                        Ends-bind (λ pause l. Covered seen l) Good InvokedOnce _ _
                          (Ends-outside (λ pause l. Covered seen l) InvokedOnce
                            (strategy.pause_before_batch batch) s4 (λ p. h4.1) h4.1.once)
                          (λ pause s5 h5.
                            run_batch-Good round turn seen invoked batch pause s5 h5 e3.0 h4.0)))))
