-- ===== src/Power/Quiet.antt =====
-- The parts of a call of `PowerBatch` of team/power_execution.py that leave the journal alone.
use shimpz_drivers.Prelude.{
  ℕ, ◌≡◌, refl, sym, ap, ◌∙◌, subst, arith, Bool, true, false, not, Option, none, some, List, [],
  ◌∷◌, String, Result, ok, err, if◌then◌else◌, ◌==◌, eq_string, Result-cases, Option-cases, inl,
  inr,
}
use shimpz_drivers.Prelude as R
use shimpz_drivers.Prelude.Dict.{Dict}
use shimpz_drivers.Prelude.Actions.{Action, reraised, after, ◌>>=◌}
use shimpz_drivers.Value.{Value}
use shimpz_drivers.Chat.State.{PowerRequest}
use shimpz_drivers.Journal.State.{JournalError, Codec, Operation}
use shimpz_drivers.Journal.Loading.{Journal}
use shimpz_drivers.Power.Generations.{power_operation, text_of, of_encoded}
use shimpz_drivers.Power.Batch.{
  BatchError, journal_error, Call, PowerBatchStrategy, PowerBatch, on_world, operation,
}
use shimpz_drivers.Power.ReadBounds.{action_cases}

pub record Same {W : Type 0} (s t : PowerBatch W) : Type 0 where
  pub journal : t.journal ≡ s.journal
  pub batch : t.batch ≡ s.batch
  pub operations : t.operations ≡ s.operations
  pub executed : t.executed ≡ s.executed

pub Same-refl : {W : Type 0} (s : PowerBatch W) → Same s s
Same-refl s = record { journal = refl; batch = refl; operations = refl; executed = refl }

pub Same-trans : {W : Type 0} (s t u : PowerBatch W) → Same s t → Same t u → Same s u
Same-trans s t u p q = record {
  journal = q.journal ∙ p.journal;
  batch = q.batch ∙ p.batch;
  operations = q.operations ∙ p.operations;
  executed = q.executed ∙ p.executed;
}

-- The action changes the world at most.
abbrev pub IsQuiet : {W A : Type 0} → Action (PowerBatch W) BatchError A → Type 0
IsQuiet {W} m = (s : PowerBatch W) → Same s (m s).1

-- What the action returns satisfies the predicate.
abbrev pub Yields : {S E A : Type 0} → (A → Type 0) → Action S E A → Type 0
Yields {S} {E} {A} P m = (s t : S) (a : A) → m s ≡ (ok a, t) → P a

pub bind-IsQuiet :
    {W A B : Type 0} (m : Action (PowerBatch W) BatchError A)
    (f : A → Action (PowerBatch W) BatchError B)
    → IsQuiet m
    → ((a : A) → IsQuiet (f a))
    → IsQuiet (m >>= f)
unfolding ◌>>=◌ after
bind-IsQuiet m f q r s = elim (action_cases (m s)) [
  | inl (e, t, p) ↦ rw p (subst (λ r. Same s r.1) p (q s))
  | inr (a, t, p) ↦ rw p (Same-trans s t (f a t).1 (subst (λ r. Same s r.1) p (q s)) (r a t))
]

pub bind-Yields :
    {S E A B : Type 0} (P : B → Type 0) (m : Action S E A) (f : A → Action S E B)
    → ((a : A) → Yields P (f a))
    → Yields P (m >>= f)
unfolding ◌>>=◌ after
bind-Yields P m f y s t b h = elim (action_cases (m s)) [
  | inl (e, u, p) ↦ absurd (ground (arith, h, p))
  | inr (a, u, p) ↦ y a u t b (sym (ap (λ r. after r f) p) ∙ h)
]

reraised-Same :
    {W A : Type 0} (s : PowerBatch W) (r : Result JournalError A)
    → Same s (reraised journal_error (r, s)).1
reraised-Same s (ok a) = Same-refl s
reraised-Same s (err e) = Same-refl s

reraised_ok :
    {W A : Type 0} (s t : PowerBatch W) (r : Result JournalError A) (a : A)
    → reraised journal_error (r, s) ≡ (ok a, t)
    → r ≡ ok a
reraised_ok s t (ok b) a h = ground (arith, h)
reraised_ok s t (err e) a h = absurd (ground (arith, h))

pub on_world-IsQuiet : {W A : Type 0} (f : Call W A) → IsQuiet (on_world f)
unfolding on_world
on_world-IsQuiet f s = record { journal = refl; batch = refl; operations = refl; executed = refl }

-- What a chain that returns has returned before.
pub bind_ok :
    {E A B : Type 0} (r : Result E A) (f : A → Result E B) (b : B)
    → (R.◌>>=◌ r f) ≡ ok b
    → (a : A) × (r ≡ ok a) × (f a ≡ ok b)
bind_ok (ok a) f b h = (a, refl, h)
bind_ok (err e) f b h = absurd (ground (arith, h))

-- The operation that power_operation makes has the request's interrupt.
power_operation_id :
    (dumps : Value → Option String) (sha256 : String → String) (request : PowerRequest)
    (container image : Value) (secrets accounts : List (String × ℕ)) (o : Operation)
    → power_operation dumps sha256 request container image secrets accounts ≡ ok o
    → o.interrupt_id ≡ request.interrupt_id
unfolding power_operation
power_operation_id dumps sha256 request container image secrets accounts o h =
    let (c, p, k) = bind_ok (text_of container) _ o h in
    let (i, q, l) = bind_ok (text_of image) _ o k in encoded_id sha256 request.interrupt_id _ o l
  where
    encoded_id :
        (sha : String → String) (interrupt_id : String) (encoded : Option String) (a : Operation)
        → of_encoded sha interrupt_id encoded ≡ ok a
        → a.interrupt_id ≡ interrupt_id
    encoded_id sha interrupt_id none a k = absurd (ground (arith, k))
    encoded_id sha interrupt_id (some encoded) a k = ground (arith, k)

module _ {W A : Type 0} (codec : Codec) (dumps : Value → Option String) (sha256 : String → String)
    (generation thread_id : String) (bindings : Dict A) (strategy : PowerBatchStrategy W A)
    (source : Option (Journal × W → Result BatchError (Unit {0}) × (Journal × W))) where
  pub operation-IsQuiet :
      (request : PowerRequest)
      → IsQuiet (operation codec dumps sha256 generation thread_id bindings strategy source request)
  unfolding operation
  operation-IsQuiet request =
      bind-IsQuiet _ _ (λ s. Same-refl s)
        (λ active. bind-IsQuiet _ _ (on_world-IsQuiet (strategy.preflight request)) (λ _.
          bind-IsQuiet _ _ (on_world-IsQuiet (strategy.binding_identity active)) (λ identity.
            bind-IsQuiet _ _ (on_world-IsQuiet (strategy.secret_generations request)) (λ secrets.
              bind-IsQuiet _ _ (on_world-IsQuiet (strategy.account_generations request))
                (λ accounts s. reraised-Same s _)))))

  pub operation-Yields :
      (request : PowerRequest)
      → Yields
          (λ (o : Operation). o.interrupt_id ≡ request.interrupt_id)
          (operation codec dumps sha256 generation thread_id bindings strategy source request)
  unfolding operation
  operation-Yields request = bind-Yields _ _ _ (λ active. bind-Yields _ _ _ (λ _.
      bind-Yields _ _ _ (λ identity. bind-Yields _ _ _ (λ secrets.
        bind-Yields _ _ _ (λ accounts s t o h.
          power_operation_id dumps sha256 request identity.0 identity.1 secrets accounts o
            (reraised_ok s t _ o h))))))
