-- ===== src/Journal/Effects.antt =====
-- What the methods of team/power_journal.py make durable: the effect of their transaction when they
-- return, and nothing when they raise.
use shimpz_drivers.Prelude.{
  ℕ, ◌≡◌, refl, sym, subst, ap, ◌∙◌, arith, some, List, String, Result, ok, err, eq_string, eq_nat,
  inl, inr, Bool-cases, Result-cases,
}
use shimpz_drivers.Value.{Value}
use shimpz_drivers.Sql.{
  Connection, Raised, sqlite_error, stop_iteration, raised, Sql, pure, raise, lift, next, reject,
  ◌>>=◌, ◌>>◌, relabel, query, execute, execute_one, transact, begin_immediate, commit_or, rollback,
}
use shimpz_drivers.Sql
use shimpz_drivers.Sql.Durable.{Ended, Runs, Runs-execute, Runs-weaken}
use shimpz_drivers.Sql.Transaction.{Settled, transact-Settled}
use shimpz_drivers.Journal.State.{
  JournalError, failed, conflict, Codec, Operation, Batch, is_safe_id, safe_id, make_batch,
  validate_handle,
}
use shimpz_drivers.Journal.Json.{canonical_result}
use shimpz_drivers.Journal.Tables.{Tables, delete_generation}
use shimpz_drivers.Journal.Loading.{Journal, Statements, translate, guarded, check_call}
use shimpz_drivers.Journal.Store.{
  prepare_block, prepare_batch, begin_block, begin, complete_block, complete, suspend_block,
  suspend, deliver_block, delivered, purge_handler, purge_begun, purge,
}
use shimpz_drivers.Sql.Transaction.{
  refused, committed, commit_or-Committed, rollback-durable, begin_immediate-Begun,
  Begun as TransactionBegun,
}
use shimpz_drivers.Journal.Blocks.{Begun}
use shimpz_drivers.Journal.Steps.{
  Completed, Suspended, begin_block-Runs, complete_block-Runs, suspend_block-Runs,
}
use shimpz_drivers.Journal.Batches.{Prepared, Delivered, prepare_block-Runs, deliver_block-Runs}

-- How a method on the journal `j` can end.
abbrev pub Effect :
    {A : Type 0}
    → (Tables → A → Tables → Type 0)
    → Journal
    → Result JournalError A × Journal
    → Type 0
Effect R j (ok a, j') = R j.connection.durable a j'.connection.durable
Effect R j (err e, j') = j'.connection.durable ≡ j.connection.durable

module _ {A : Type 0} (R : Tables → A → Tables → Type 0) (j : Journal) where
  guarded-Effect :
      (block : Connection Tables → Result JournalError A × Connection Tables)
      → Settled R j.connection.durable (block j.connection)
      → Effect R j (guarded j block)
  unfolding guarded
  guarded-Effect block s = elim (Bool-cases j.closed) [
    | inl shut ↦
        let q : guarded j block ≡ (err failed, j) = ground arith in subst (Effect R j) (sym q) refl
    | inr open_now ↦
        let q : guarded j block
            ≡ ((block j.connection).0, record j { connection = (block j.connection).1 }) =
          ground arith in
        subst (Effect R j) (sym q) (settled (block j.connection) s)
  ]
    where
      settled :
          (p : Result JournalError A × Connection Tables)
          → Settled R j.connection.durable p
          → Effect R j (p.0, record j { connection = p.1 })
      settled (ok a, c) s = s.0
      settled (err e, c) s = s

  -- A method that is one transaction.
  transact-Effect :
      (block : Statements A)
      → Runs R block
      → Effect R j (guarded j (transact failed translate block))
  transact-Effect block r =
      guarded-Effect (transact failed translate block)
        (transact-Settled failed translate r j.connection)

abbrev pub PreparedBy :
    Codec → String → String → List Operation → Journal → Tables → Batch → Tables → Type 0
PreparedBy codec generation thread_id operations j t b t' =
    (make_batch codec j.max_operations generation thread_id operations ≡ ok b)
    × Prepared j.max_generations b t t'

pub prepare_batch-Effect :
    (codec : Codec) (generation thread_id : String) (operations : List Operation) (j : Journal)
    → Effect
        (PreparedBy codec generation thread_id operations j)
        j
        (prepare_batch codec generation thread_id operations j)
unfolding prepare_batch
prepare_batch-Effect codec generation thread_id operations j =
    elim (Result-cases (make_batch codec j.max_operations generation thread_id operations)) [
      | inl (e, q) ↦ rw (q, prepare_batch) refl
      | inr (batch, q) ↦
          let run : prepare_batch codec generation thread_id operations j
              ≡ guarded j (transact failed translate (prepare_block j.max_generations batch)) =
            rw (q, prepare_batch) refl in
          subst (Effect (PreparedBy codec generation thread_id operations j) j) (sym run) (
            transact-Effect (PreparedBy codec generation thread_id operations j) j
              (prepare_block j.max_generations batch)
              (Runs-weaken
                (λ t t' b h. (
                  q ∙ ap ok (sym h.0),
                  subst (λ x. Prepared j.max_generations x t t') (sym h.0) h.1,
                ))
                (prepare_block-Runs j.max_generations batch)))
    ]

pub begin-Effect :
    (codec : Codec) (batch : Batch) (o : Operation) (j : Journal)
    → Effect (Begun codec j.max_result_bytes batch o) j (begin codec batch o j)
unfolding begin
begin-Effect codec batch o j = elim (Result-cases (check_call batch o)) [
  | inl (e, q) ↦ rw (q, begin) refl
  | inr (_, q) ↦
      rw (q, begin)
        (transact-Effect _ j (begin_block codec j.max_result_bytes batch o)
          (begin_block-Runs codec j.max_result_bytes batch o))
]

abbrev pub CompletedBy :
    Codec → Batch → Operation → Value → Journal → Tables → Unit {0} → Tables → Type 0
CompletedBy codec batch o v j t b t' =
    (encoded : String) × (canonical_result codec j.max_result_bytes v ≡ ok encoded)
    × Completed batch o encoded t t'

pub complete-Effect :
    (codec : Codec) (batch : Batch) (o : Operation) (v : Value) (j : Journal)
    → Effect (CompletedBy codec batch o v j) j (complete codec batch o v j)
unfolding complete
complete-Effect codec batch o v j = elim (Result-cases (check_call batch o)) [
  | inl (e, q) ↦ rw (q, complete) refl
  | inr (_, q) ↦ elim (Result-cases (canonical_result codec j.max_result_bytes v)) [
    | inl (e, p) ↦
        let run : complete codec batch o v j ≡ (err e, j) = rw (q, complete) (rw p refl) in
        subst (Effect (CompletedBy codec batch o v j) j) (sym run) refl
    | inr (encoded, p) ↦
        let run : complete codec batch o v j
            ≡ guarded j (transact failed translate (complete_block batch o encoded)) =
          rw (q, complete) (rw p refl) in
        subst (Effect (CompletedBy codec batch o v j) j) (sym run) (
          transact-Effect (CompletedBy codec batch o v j) j (complete_block batch o encoded)
            (Runs-weaken (λ t t' b h. (encoded, p, h)) (complete_block-Runs batch o encoded)))
  ]
]

pub suspend-Effect :
    (batch : Batch) (o : Operation) (j : Journal)
    → Effect (λ t b t'. Suspended batch o t t') j (suspend batch o j)
unfolding suspend
suspend-Effect batch o j = elim (Result-cases (check_call batch o)) [
  | inl (e, q) ↦ rw (q, suspend) refl
  | inr (_, q) ↦
      rw (q, suspend) (transact-Effect _ j (suspend_block batch o) (suspend_block-Runs batch o))
]

pub delivered-Effect :
    (codec : Codec) (batch : Batch) (j : Journal)
    → Effect (λ t b t'. Delivered codec j.max_result_bytes batch t t') j (delivered codec batch j)
unfolding delivered
delivered-Effect codec batch j = elim (Result-cases (validate_handle batch)) [
  | inl (e, q) ↦ rw (q, delivered) refl
  | inr (_, q) ↦
      rw (q, delivered)
        (transact-Effect _ j (deliver_block codec j.max_result_bytes batch)
          (deliver_block-Runs codec j.max_result_bytes batch))
]

abbrev pub Purged : String → Tables → Unit {0} → Tables → Type 0
Purged generation t b t' = (n : ℕ) × (delete_generation generation t ≡ some (t', n))

purge_handled :
    (generation : String) (d : Tables)
    (p : Result (Raised JournalError) (Unit {0}) × Connection Tables)
    → Ended (Purged generation d) d p
    → Settled (Purged generation) d (purge_handler (Sql.continue p (λ _. commit_or failed)))
unfolding purge_handler Sql.continue
purge_handled generation d (ok _, c) (same, (t, at, r)) = elim (commit_or-Committed failed c t at) [
  | refused c' q s ↦ rw (q, purge_handler) (s ∙ same)
  | committed c' q s w ↦ rw (q, purge_handler) ((r.0, rw s r.1), w)
]
purge_handled generation d (err sqlite_error, c) (same, (t, at)) = rollback-durable c ∙ same
purge_handled generation d (err stop_iteration, c) (same, (t, at)) = same
purge_handled generation d (err (raised e), c) (same, (t, at)) = same

purge_begun-Settled :
    (generation : String) (d : Tables)
    (p : Result (Raised JournalError) (Unit {0}) × Connection Tables)
    → TransactionBegun d p
    → Settled (Purged generation) d (purge_begun generation p)
unfolding purge_begun ◌>>=◌
purge_begun-Settled generation d (ok _, c) (same, at) =
    purge_handled generation d (execute (delete_generation generation) c) (
      subst
        (λ x.
          Ended {E = JournalError} (Purged generation d) x
            (execute (delete_generation generation) c))
        same ((Runs-execute (delete_generation generation)).at c d at))
purge_begun-Settled generation d (err _, c) same = same

pub purge-Effect :
    (generation : String) (j : Journal) → Effect (Purged generation) j (purge generation j)
unfolding purge
purge-Effect generation j = elim (Bool-cases (is_safe_id generation)) [
  | inl safe ↦
      let run : purge generation j ≡ guarded j (λ c. purge_begun generation (begin_immediate c)) =
        unfold safe_id in ground arith in
      subst (Effect (Purged generation) j) (sym run) (
        guarded-Effect (Purged generation) j (λ c. purge_begun generation (begin_immediate c))
          (purge_begun-Settled generation j.connection.durable (begin_immediate j.connection)
            (begin_immediate-Begun JournalError j.connection)))
  | inr unsafe ↦
      let run : purge generation j ≡ (err conflict, j) = unfold safe_id in ground arith in
      subst (Effect (Purged generation) j) (sym run) refl
]
