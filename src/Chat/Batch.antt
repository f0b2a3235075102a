-- ===== src/Chat/Batch.antt =====
-- A batch of team/chat_orchestrator.py: its interrupts are distinct, and each is invoked at most once.
use shimpz_drivers.Prelude.{
  ◌≡◌, refl, sym, subst, ap, ◌∙◌, arith, true, false, not, ◌||◌, List, [], ◌∷◌, String, ok,
  eq_string, contains, is_distinct, str_iff, str_refl, Bool-cases, Option-cases, Result-cases, inl,
  inr,
}
use shimpz_drivers.Value.{Value, Entries}
use shimpz_drivers.Chat.State.{
  RuntimePower, RuntimeAssistant, PowerRequest, InvokedPower, Answer, result, rpc_suspension, Event,
  invokes, Env, Strategy, Runtime, Chat, ◌>>=◌,
}
use shimpz_drivers.Chat.Requests.{interrupts, find_declared, contracts_of, is_mapping, check_kind}
use shimpz_drivers.Chat.Drive.{
  validated, validate_batch, is_empty, check_cancelled, BatchEnd, asks, take_answer, invoke_each,
}
use shimpz_drivers.Chat.Ends.{
  Ends, Ends-weaken, Ends-outside, Ends-logged, Ends-reject, Ends-lift, Ends-bind,
}

abbrev pub contract_ids : List (PowerRequest × RuntimePower) → List String
contract_ids [] = []
contract_ids (c ∷ cs) = c.0.interrupt_id ∷ contract_ids cs

-- The interrupts of the Powers that were invoked, the newest first.
unfoldable pub invoked_ids : List Event → List String
invoked_ids [] = []
invoked_ids (invokes r ∷ es) = r.interrupt_id ∷ invoked_ids es
invoked_ids (_ ∷ es) = invoked_ids es

-- No interrupt was invoked twice.
abbrev pub InvokedOnce : List Event → Type 0
InvokedOnce l = is_distinct (invoked_ids l) ≡ true

absent-distinct :
    (i : String) (is : List String)
    → is_distinct is ≡ true
    → contains i is ≡ false
    → is_distinct (i ∷ is) ≡ true
absent-distinct i is d a = ground arith

pub contracts_of-distinct :
    (declared : List RuntimeAssistant) (seen : List String) (rs : List PowerRequest)
    {cs : List (PowerRequest × RuntimePower)}
    → contracts_of declared seen rs ≡ ok cs
    → (is_distinct (contract_ids cs) ≡ true)
      × ((i : String) → contains i (contract_ids cs) ≡ true → contains i seen ≡ false)
unfolding contracts_of
contracts_of-distinct declared seen [] {cs} h =
    let made : cs ≡ [] = ground arith in (rw made refl, λ i m. absurd (ground (arith, made)))
contracts_of-distinct declared seen (r ∷ rs) {cs} h =
    elim (Option-cases (find_declared r.assistant_id r.power declared)) [
      | inl e ↦ absurd (ground arith)
      | inr (power, e) ↦ elim (Bool-cases (contains r.interrupt_id seen)) [
        | inl old ↦ absurd (ground arith)
        | inr new ↦ elim (Result-cases (contracts_of declared (r.interrupt_id ∷ seen) rs)) [
          | inl (x, q) ↦ absurd (ground arith)
          | inr (rest, q) ↦
              let made : cs ≡ (r, power) ∷ rest = ground arith in
              let (d, m) = contracts_of-distinct declared (r.interrupt_id ∷ seen) rs q in
              let a : contains r.interrupt_id (contract_ids rest) ≡ false =
                ground (arith, m r.interrupt_id, str_refl r.interrupt_id) in
              (
                rw made (absent-distinct r.interrupt_id (contract_ids rest) d a),
                λ i k. ground (arith, m i, str_iff r.interrupt_id i, made),
              )
        ]
      ]
    ]

-- A batch of these interrupts may be invoked after the log `l`.
pub record Ready (ids : List String) (l : List Event) : Type 0 where
  pub once : InvokedOnce l
  pub distinct : is_distinct ids ≡ true
  pub apart : (i : String) → contains i ids ≡ true → contains i (invoked_ids l) ≡ false

-- No interrupt was invoked twice, and none but those of `old` and `ids`.
pub record Within (old ids : List String) (l : List Event) : Type 0 where
  pub once : InvokedOnce l
  pub known :
      (i : String) → contains i (invoked_ids l) ≡ true → (contains i old || contains i ids) ≡ true

Ready-invokes :
    (r : PowerRequest) (ids : List String) (l : List Event)
    → Ready (r.interrupt_id ∷ ids) l
    → Ready ids (invokes r ∷ l)
unfolding invoked_ids
Ready-invokes r ids l h =
    let first : contains r.interrupt_id ids ≡ false = let d = h.distinct in ground arith in
    record {
      once =
          absent-distinct r.interrupt_id (invoked_ids l) h.once
            (h.apart r.interrupt_id (ground (arith, str_refl r.interrupt_id)));
      distinct = let d = h.distinct in ground arith;
      apart = λ i m. ground (arith, h.apart i, first, str_iff r.interrupt_id i);
    }

Within-invokes :
    (r : PowerRequest) (ids : List String) (l l' : List Event)
    → Within (invoked_ids (invokes r ∷ l)) ids l'
    → Within (invoked_ids l) (r.interrupt_id ∷ ids) l'
unfolding invoked_ids
Within-invokes r ids l l' h = record { once = h.once; known = λ i m. ground (arith, h.known i) }

Ready-Within : (ids : List String) (l : List Event) → Ready ids l → Within (invoked_ids l) ids l
Ready-Within ids l h = record { once = h.once; known = λ i m. ground arith }

module _ {W : Type 0} (declared : List RuntimeAssistant) (runtime : Runtime W)
    (strategy : Strategy W) where
  validated-interrupts :
      (cs : List (PowerRequest × RuntimePower)) (Bad : List Event → Type 0) (s : Env W)
      → Bad s.log
      → Ends
          (λ batch l. (interrupts batch ≡ contract_ids cs) × (l ≡ s.log))
          Bad
          (validated declared runtime strategy cs s)
  unfolding validated ◌>>=◌
  validated-interrupts [] Bad s bad = (refl, refl)
  validated-interrupts ((request, power) ∷ cs) Bad s bad =
      let id = request.interrupt_id in
      Ends-bind (λ v l. l ≡ s.log) _ Bad _ _
        (Ends-outside (λ v l. l ≡ s.log) Bad
          (strategy.validate_power request.assistant_id power.id request.input) s (λ v. refl) bad)
        (λ v s1 e1.
          Ends-bind (λ u l. l ≡ s.log) _ Bad _ _
            (Ends-reject (λ u l. l ≡ s.log) Bad (not (is_mapping v)) _ s1 (λ q. e1)
              (subst Bad (sym e1) bad))
            (λ u s2 e2.
              Ends-bind (λ batch l. (interrupts batch ≡ contract_ids cs) × (l ≡ s2.log)) _ Bad _ _
                (validated-interrupts cs Bad s2 (subst Bad (sym e2) bad))
                (λ batch s3 e3. (ap (λ is. id ∷ is) e3.0, e3.1 ∙ e2))))

  pub validate_batch-distinct :
      (rs : List PowerRequest) (Bad : List Event → Type 0) (s : Env W)
      → Bad s.log
      → Ends
          (λ batch l. (is_distinct (interrupts batch) ≡ true) × (l ≡ s.log))
          Bad
          (validate_batch declared runtime strategy rs s)
  unfolding validate_batch ◌>>=◌
  validate_batch-distinct rs Bad s bad =
      Ends-bind (λ u l. l ≡ s.log) _ Bad _ _
        (Ends-reject (λ u l. l ≡ s.log) Bad (is_empty declared runtime strategy rs) _ s (λ q. refl)
          bad)
        (λ u s1 e1.
          Ends-bind (λ cs l. (contracts_of declared [] rs ≡ ok cs) × (l ≡ s.log)) _ Bad _ _
            (Ends-lift _ Bad (contracts_of declared [] rs) s1 (λ cs q. (q, e1))
              (subst Bad (sym e1) bad))
            (λ cs s2 e2.
              Ends-weaken (λ batch l. (interrupts batch ≡ contract_ids cs) × (l ≡ s2.log)) _ Bad Bad
                _
                (λ batch l h. (rw (h.0) (contracts_of-distinct declared [] rs e2.0).0, h.1 ∙ e2.1))
                (λ l b. b) (validated-interrupts cs Bad s2 (subst Bad (sym e2.1) bad))))

  pub check_cancelled-log :
      (Bad : List Event → Type 0) (s : Env W)
      → Bad s.log
      → Ends (λ u l. l ≡ s.log) Bad (check_cancelled declared runtime strategy s)
  unfolding check_cancelled ◌>>=◌
  check_cancelled-log Bad s bad =
      Ends-bind (λ b l. l ≡ s.log) _ Bad _ _
        (Ends-outside (λ b l. l ≡ s.log) Bad strategy.cancelled s (λ b. refl) bad)
        (λ b s1 e1. Ends-reject (λ u l. l ≡ s.log) Bad b _ s1 (λ q. e1) (subst Bad (sym e1) bad))

  pub take_answer-Ends :
      (Post : BatchEnd → List Event → Type 0) (Bad : List Event → Type 0)
      (next_request : List (String × Value) → List InvokedPower → Chat W BatchEnd)
      (r : PowerRequest) (results : List (String × Value)) (invoked : List InvokedPower)
      (a : Answer) (s : Env W)
      → Bad s.log
      → ((request : PowerRequest) (payload : Entries) → Post (asks request payload) s.log)
      → ((results' : List (String × Value)) (invoked' : List InvokedPower)
          → Ends Post Bad (next_request results' invoked' s))
      → Ends Post Bad (take_answer declared runtime strategy next_request r results invoked a s)
  unfolding take_answer ◌>>=◌
  take_answer-Ends Post Bad next_request r results invoked (rpc_suspension payload) s bad stop go =
      Ends-bind (λ u l. l ≡ s.log) Post Bad _ _
        (Ends-lift (λ u l. l ≡ s.log) Bad (check_kind payload) s (λ u q. refl) bad)
        (λ u s1 e1. subst (Post (asks r payload)) (sym e1) (stop r payload))
  take_answer-Ends Post Bad next_request r results invoked (result v) s bad stop go = go _ _

  pub invoke_each-Within :
      (rs : List PowerRequest) (results : List (String × Value)) (invoked : List InvokedPower)
      (s : Env W) (l : List Event)
      → s.log ≡ l
      → Ready (interrupts rs) l
      → Ends
          (λ x k. Within (invoked_ids l) (interrupts rs) k)
          InvokedOnce
          (invoke_each declared runtime strategy rs results invoked s)
  unfolding invoke_each ◌>>=◌
  invoke_each-Within [] results invoked s l e h =
      subst (Within (invoked_ids l) []) (sym e) (Ready-Within [] l h)
  invoke_each-Within (r ∷ rs) results invoked s l e h =
      let fine : InvokedOnce s.log = subst InvokedOnce (sym e) h.once in
      Ends-bind (λ u k. k ≡ s.log) _ InvokedOnce _ _ (check_cancelled-log InvokedOnce s fine)
        (λ u s1 e1.
          Ends-bind (λ v k. k ≡ s.log) _ InvokedOnce _ _
            (Ends-outside (λ v k. k ≡ s.log) InvokedOnce strategy.validate_context s1 (λ v. e1)
              (subst InvokedOnce (sym e1) fine))
            (λ v s2 e2.
              Ends-bind (λ a k. k ≡ invokes r ∷ l) _ InvokedOnce _ _
                (Ends-logged (λ a k. k ≡ invokes r ∷ l) InvokedOnce (invokes r)
                  (strategy.invoke_power r) s2 (λ a. ap (λ k. invokes r ∷ k) (e2 ∙ e))
                  (subst (λ k. InvokedOnce (invokes r ∷ k)) (sym (e2 ∙ e))
                    (Ready-invokes r (interrupts rs) l h).once))
                (λ a s3 e3. answered a s3 e3 (λ results' invoked'.
                  invoke_each-Within rs results' invoked' s3 (invokes r ∷ l) e3
                    (Ready-invokes r (interrupts rs) l h)))))
    where
      ready : Ready (interrupts rs) (invokes r ∷ l)
      ready = Ready-invokes r (interrupts rs) l h

      answered :
          (a : Answer) (s3 : Env W)
          → s3.log ≡ invokes r ∷ l
          → ((results' : List (String × Value)) (invoked' : List InvokedPower)
              → Ends
                  (λ x k. Within (invoked_ids (invokes r ∷ l)) (interrupts rs) k)
                  InvokedOnce
                  (invoke_each declared runtime strategy rs results' invoked' s3))
          → Ends
              (λ x k. Within (invoked_ids l) (interrupts (r ∷ rs)) k)
              InvokedOnce
              (take_answer declared runtime strategy
                (invoke_each declared runtime strategy rs)
                r
                results
                invoked
                a
                s3)
      answered a s3 e3 go =
          take_answer-Ends (λ x k. Within (invoked_ids l) (interrupts (r ∷ rs)) k) InvokedOnce
            (invoke_each declared runtime strategy rs) r results invoked a s3
            (subst InvokedOnce (sym e3) ready.once)
            (λ request payload. subst (Within (invoked_ids l) (interrupts (r ∷ rs))) (sym e3) (
              Within-invokes r (interrupts rs) l (invokes r ∷ l)
                (Ready-Within (interrupts rs) (invokes r ∷ l) ready)))
            (λ results' invoked'.
              Ends-weaken (λ x k. Within (invoked_ids (invokes r ∷ l)) (interrupts rs) k) _
                InvokedOnce InvokedOnce _ (λ x k w. Within-invokes r (interrupts rs) l k w)
                (λ k b. b) (go results' invoked'))
