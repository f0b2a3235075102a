-- ===== src/Power/Once.antt =====
-- `PowerBatch.invoke` of team/power_execution.py tells the strategy to execute at most once.
use shimpz_drivers.Prelude.{
  ◌≡◌, ◌≢◌, refl, sym, ap, ◌∙◌, subst, subst₂, arith, true, not, Option, some, List, [], ◌∷◌, ◌++◌,
  String, Result, ok, err, eq_string, Result-cases, Bool-cases, inl, inr, str_iff,
}
use shimpz_drivers.Prelude.Dict
use shimpz_drivers.Prelude.Dict.{Dict}
use shimpz_drivers.Prelude.Actions.{Action, refuse, after, ◌>>=◌, ◌>>◌}
use shimpz_drivers.Value.{Value}
use shimpz_drivers.Chat.State.{PowerRequest, Answer, result, rpc_suspension}
use shimpz_drivers.Journal.State.{conflict, Codec, Operation, Batch, Execution, same_operation}
use shimpz_drivers.Journal.Loading.{Journal}
use shimpz_drivers.Journal.Store.{begin, complete}
use shimpz_drivers.Journal.History as History
use shimpz_drivers.Journal.History.{run, step, AllRetain}
use shimpz_drivers.Journal.Once.{begin-once}
use shimpz_drivers.Power.Batch.{
  BatchError, journal_error, PowerBatchStrategy, PowerBatch, on_journal, executes, found, operation,
  prepared_batch, record_answer, decided, invoke,
}
use shimpz_drivers.Power.Quiet.{Same, Same-refl, Same-trans, operation-IsQuiet, operation-Yields}
use shimpz_drivers.Power.ReadBounds.{action_cases}

run-append :
    (codec : Codec) (cs ds : List History.Call) (j : Journal)
    → run codec (cs ++ ds) j ≡ run codec ds (run codec cs j)
unfolding run
run-append codec [] ds j = refl
run-append codec (c ∷ cs) ds j = run-append codec cs ds (step codec c j)

append-AllRetain :
    (g i : String) (cs ds : List History.Call)
    → AllRetain g i cs
    → AllRetain g i ds
    → AllRetain g i (cs ++ ds)
append-AllRetain g i [] ds p q = q
append-AllRetain g i (c ∷ cs) ds p q = (p.0, append-AllRetain g i cs ds p.1 q)

-- Whether the call told the strategy to execute: if so, `begin` had said to.
pub data Invoked {W : Type 0} (codec : Codec) (request : PowerRequest) (s t : PowerBatch W)
    : Type 0 where
  skips : t.executed ≡ s.executed → Invoked codec request s t
  starts :
      (b : Batch) (o : Operation) (x : Execution) (cs : List History.Call)
      → s.batch ≡ some b
      → o.interrupt_id ≡ request.interrupt_id
      → (begin codec b o s.journal).0 ≡ ok x
      → x.execute ≡ true
      → AllRetain b.generation o.interrupt_id cs
      → t.journal ≡ run codec cs (begin codec b o s.journal).1
      → Invoked codec request s t

some_eq : {A : Type 0} {o : Option A} {a b : A} → o ≡ some a → o ≡ some b → a ≡ b
some_eq p q = ground (arith, p, q)

twice :
    {W : Type 0} {codec : Codec} (request again : PowerRequest) (s t u v : PowerBatch W)
    (b c : Batch) (cs : List History.Call)
    → s.batch ≡ some b
    → t.batch ≡ some c
    → c.generation ≡ b.generation
    → again.interrupt_id ≡ request.interrupt_id
    → u.executed ≢ s.executed
    → AllRetain b.generation request.interrupt_id cs
    → t.journal ≡ run codec cs u.journal
    → Invoked codec request s u
    → Invoked codec again t v
    → v.executed ≡ t.executed
twice request again s t u v b c cs hb hc hg ha started retained hj _ (skips e) = e
twice request again s t u v b c cs hb hc hg ha started retained hj (skips e) _ = absurd (started e)
twice {codec = codec} request again s t u v b c cs hb hc hg ha started retained hj
      (starts b' o x ds kb ko kx ks kr kj) (starts c' p y es lb lp ly lt lr lj) =
    let first = some_eq kb hb in
    let second = some_eq lb hc in
    let same_batch : c'.generation ≡ b'.generation =
      ap (λ (z : Batch). z.generation) second ∙ hg ∙ sym (ap (λ (z : Batch). z.generation) first) in
    let later : t.journal ≡ run codec (ds ++ cs) (begin codec b' o s.journal).1 =
      hj ∙ ap (run codec cs) kj ∙ sym (run-append codec ds cs (begin codec b' o s.journal).1) in
    let kept : AllRetain b'.generation o.interrupt_id cs =
      subst₂ (λ g i. AllRetain g i cs) (sym (ap (λ (z : Batch). z.generation) first)) (sym ko)
        retained in
    let stays =
      begin-once codec b' c' o p s.journal (ds ++ cs) kx ks
        (append-AllRetain b'.generation o.interrupt_id ds cs kr kept) same_batch (lp ∙ ha ∙ sym ko)
        (subst (λ j. (begin codec c' p j).0 ≡ ok y) later ly) in
    absurd (ground (arith, stays, lt))

module _ {W A : Type 0} (codec : Codec) (dumps : Value → Option String) (sha256 : String → String)
    (generation thread_id : String) (bindings : Dict A) (strategy : PowerBatchStrategy W A)
    (source : Option (Journal × W → Result BatchError (Unit {0}) × (Journal × W)))
    (no_suspension : (request : PowerRequest) (w : W) (payload : _)
      → (strategy.execute request w).0 ≢ ok (rpc_suspension payload)) where
  -- What follows the answer of a Power that does not suspend.
  recorded :
      (b : Batch) (o : Operation) (v : Value) (s : PowerBatch W)
      → (record_answer codec dumps sha256 generation thread_id bindings strategy source b o
          (result v)
          s).1.journal
        ≡ (complete codec b o v s.journal).1
  unfolding record_answer on_journal ◌>>=◌ after
  recorded b o v s = elim (action_cases (complete codec b o v s.journal)) [
    | inl (e, j, p) ↦ rw p refl
    | inr (_, j, p) ↦ rw p refl
  ]

  decided-Invoked :
      (request : PowerRequest) (b : Batch) (o : Operation) (x : Execution) (s t : PowerBatch W)
      → s.batch ≡ some b
      → o.interrupt_id ≡ request.interrupt_id
      → (begin codec b o s.journal).0 ≡ ok x
      → t.journal ≡ (begin codec b o s.journal).1
      → t.executed ≡ s.executed
      → Invoked codec request s
          (decided codec dumps sha256 generation thread_id bindings strategy source request b o x
            t).1
  unfolding decided executes ◌>>=◌ after step run
  decided-Invoked request b o x s t hb ho hx hj he = elim (Bool-cases x.execute) [
    | inr no_start ↦ rw no_start (skips he)
    | inl start ↦ rw start (elim (action_cases (strategy.execute request t.world)) [
      | inl (e, w, p) ↦ rw p (starts b o x [] hb ho hx start tt hj)
      | inr (result v, w, p) ↦ rw p (
          starts b o x (History.completes b o v ∷ []) hb ho hx start (tt, tt)
            (recorded b o v _ ∙ ap (λ j. (complete codec b o v j).1) hj))
      | inr (rpc_suspension payload, w, p) ↦
          absurd (no_suspension request t.world payload (ap (λ r. r.0) p))
    ])
  ]

  -- `invoke` after its operation is computed, in the state that this leaves.
  abbrev checks :
      PowerRequest → Batch → Operation → Operation → Action (PowerBatch W) BatchError Answer
  checks request b o current = do
    refuse (not (same_operation current o)) (journal_error conflict)
    decision ← on_journal (begin codec b o)
    decided codec dumps sha256 generation thread_id bindings strategy source request b o decision

  checks-Invoked :
      (request : PowerRequest) (b : Batch) (o current : Operation) (s t : PowerBatch W)
      → s.batch ≡ some b
      → current.interrupt_id ≡ request.interrupt_id
      → Same s t
      → Invoked codec request s (checks request b o current t).1
  unfolding on_journal ◌>>=◌ after
  checks-Invoked request b o current s t hb hi same = elim (Bool-cases (same_operation current o)) [
    | inr other ↦ rw other (skips same.executed)
    | inl equal ↦ rw equal (elim (action_cases (begin codec b o t.journal)) [
      | inl (e, j, p) ↦ rw p (skips same.executed)
      | inr (x, j, p) ↦ rw p (
          decided-Invoked request b o x s _ hb
            (ground (arith, equal, hi, str_iff current.interrupt_id o.interrupt_id))
            (subst (λ k. (begin codec b o k).0 ≡ ok x) same.journal (ap (λ r. r.0) p))
            (subst (λ k. j ≡ (begin codec b o k).1) same.journal (sym (ap (λ r. r.1) p)))
            same.executed)
    ])
  ]

  quiet :
      (request : PowerRequest) (s t : PowerBatch W) (r : Result BatchError Operation)
      → operation codec dumps sha256 generation thread_id bindings strategy source request s
        ≡ (r, t)
      → Same s t
  quiet request s t r p =
      subst (λ (x : Result BatchError Operation × PowerBatch W). Same s x.1) p
        (operation-IsQuiet codec dumps sha256 generation thread_id bindings strategy source request
          s)

  prepared_batch_lem :
      (s t : PowerBatch W) (r : Result BatchError Batch)
      → prepared_batch codec dumps sha256 generation thread_id bindings strategy source s ≡ (r, t)
      → Same s t × ((b : Batch) → r ≡ ok b → s.batch ≡ some b)
  unfolding prepared_batch
  prepared_batch_lem s t r h =
      let same : s ≡ t = ground (arith, h) in
      (subst (Same s) same (Same-refl s), λ b k. ground (arith, h, k))

  invoke-Invoked :
      (request : PowerRequest) (s : PowerBatch W)
      → Invoked codec request s
          (invoke codec dumps sha256 generation thread_id bindings strategy source request s).1
  unfolding invoke ◌>>=◌ after
  invoke-Invoked request s =
      elim (action_cases
        (prepared_batch codec dumps sha256 generation thread_id bindings strategy source s)) [
          | inl (e, t, p) ↦ rw p (skips (prepared_batch_lem s t (err e) p).0.executed)
          | inr (b, t, p) ↦
              rw p (elim (Result-cases (found (Dict.get request.interrupt_id t.operations))) [
                | inl (e, k) ↦ rw k (skips (prepared_batch_lem s t (ok b) p).0.executed)
                | inr (o, k) ↦
                    rw k
                      (elim (action_cases (
                        operation codec dumps sha256 generation thread_id bindings strategy source
                          request t)) [
                            | inl (d, u, q) ↦ rw q (
                                skips
                                  (Same-trans s t u (prepared_batch_lem s t (ok b) p).0
                                    (quiet request t u (err d) q)).executed)
                            | inr (current, u, q) ↦ rw q (
                                checks-Invoked request b o current s u
                                  ((prepared_batch_lem s t (ok b) p).1 b refl)
                                  (operation-Yields codec dumps sha256 generation thread_id bindings
                                    strategy source request t u current q)
                                  (Same-trans s t u (prepared_batch_lem s t (ok b) p).0
                                    (quiet request t u (ok current) q)))
                          ])
              ])
        ]

  -- For a strategy whose Powers never suspend: if `invoke` told it to execute a request, then in every
  -- later state of that batch's generation, `invoke` of a request with the same interrupt does not,
  -- whatever was called on the journal in between and whichever statements of SQLite failed, as long
  -- as the operation is not suspended and its generation neither delivered nor purged.
  pub invoke-once :
      (request again : PowerRequest) (s t : PowerBatch W) (b c : Batch) (cs : List History.Call)
      → s.batch ≡ some b
      → (invoke codec dumps sha256 generation thread_id bindings strategy source request
          s).1.executed
        ≢ s.executed
      → t.batch ≡ some c
      → c.generation ≡ b.generation
      → again.interrupt_id ≡ request.interrupt_id
      → AllRetain b.generation request.interrupt_id cs
      → t.journal
        ≡ run codec cs
            (invoke codec dumps sha256 generation thread_id bindings strategy source request
              s).1.journal
      → (invoke codec dumps sha256 generation thread_id bindings strategy source again t).1.executed
        ≡ t.executed
  invoke-once request again s t b c cs hb started hc hg ha retained hj =
      twice request again s t _ _ b c cs hb hc hg ha started retained hj (invoke-Invoked request s)
        (invoke-Invoked again t)
