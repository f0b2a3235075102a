-- ===== src/Journal/Wedged.antt =====
-- What `purge` leaves where COMMIT fails and SQLite keeps the transaction open: team/power_journal.py:594 catches `sqlite3.Error` alone, and
-- `_commit` raises `PowerJournalError`.
use shimpz_drivers.Prelude.{
  ℕ, ◌≡◌, ◌≢◌, refl, sym, subst, ap, ◌∙◌, arith, Bool, true, false, Option, none, some, List, [],
  ◌∷◌, String, Result, err, eq_string, eq_nat, inl, inr, Bool-cases, Option-cases, Result-cases,
}
use shimpz_drivers.Value.{Value}
use shimpz_drivers.Sql.{
  Connection, sqlite_error, ◌>>=◌, relabel, execute, transact, begin_immediate, faulty, after_begin,
  tables, store, commit, uncommitted, continue, commit_or,
}
use shimpz_drivers.Journal.State.{
  JournalError, failed, Codec, Operation, Batch, is_safe_id, safe_id, make_batch, validate_handle,
}
use shimpz_drivers.Journal.Json.{canonical_result}
use shimpz_drivers.Journal.Tables.{Tables, find_batch, delete_generation}
use shimpz_drivers.Journal.Loading.{Journal, Statements, translate, guarded, check_call}
use shimpz_drivers.Journal.Store.{
  prepare_block, prepare_batch, begin_block, begin, complete_block, complete, suspend_block,
  suspend, deliver_block, delivered, purge_handler, purge_begun, purge,
}
use shimpz_drivers.Journal.History.{
  Call, prepares, begins, suspends, completes, delivers, purges, step, run, error_of, raises,
}

-- A journal whose connection is inside a transaction between two calls.
abbrev pub IsStuck : Journal → Type 0
IsStuck j = j.connection.working ≢ none

begin_immediate-stuck :
    (c : Connection Tables)
    → c.working ≢ none
    → (x : Connection Tables) × (begin_immediate {E = JournalError} c ≡ (err sqlite_error, x))
      × (x.working ≡ c.working)
unfolding begin_immediate faulty
begin_immediate-stuck c h = elim (Option-cases c.working) [
  | inl e ↦ absurd (h e)
  | inr (t, e) ↦ stuck t e (c.faults) refl
]
  where
    stuck :
        (t : Tables)
        → c.working ≡ some t
        → (fs : List Bool) → c.faults ≡ fs
        → (x : Connection Tables) × (begin_immediate {E = JournalError} c ≡ (err sqlite_error, x))
          × (x.working ≡ c.working)
    stuck t e [] f = (c, ground arith, refl)
    stuck t e (true ∷ fs) f = (record c { faults = fs }, ground arith, refl)
    stuck t e (false ∷ fs) f = (record c { faults = fs }, ground arith, refl)

-- How a call can end on a stuck journal.
abbrev pub Stays : {A : Type 0} → Result JournalError A × Journal → Type 0
Stays p = (error_of p.0 ≢ none) × IsStuck p.1

error-some : (e : JournalError) → ◌≢◌ {A = Option JournalError} (some e) none
error-some e h = absurd (ground arith)

module _ (j : Journal) (h : IsStuck j) where
  guarded-Stays :
      {A : Type 0} (block : Connection Tables → Result JournalError A × Connection Tables)
      → ((x : Connection Tables) × (block j.connection ≡ (err failed, x))
          × (x.working ≡ j.connection.working))
      → Stays (guarded j block)
  unfolding guarded
  guarded-Stays block (x, e, w) = elim (Bool-cases j.closed) [
    | inl shut ↦
        let q : guarded j block ≡ (err failed, j) = ground arith in
        subst Stays (sym q) (error-some failed, h)
    | inr open_now ↦
        let q : guarded j block ≡ (err failed, record j { connection = x }) = ground (arith, e) in
        subst Stays (sym q) (error-some failed, λ n. h (sym w ∙ n))
  ]

  transact-Stays :
      {A : Type 0} (body : Statements A) → Stays (guarded j (transact failed translate body))
  unfolding transact after_begin
  transact-Stays body =
      let (x, e, w) = begin_immediate-stuck j.connection h in
      guarded-Stays (transact failed translate body) (x, rw (e, transact, after_begin) refl, w)

  purge-Stays :
      (generation : String) → Stays (guarded j (λ c. purge_begun generation (begin_immediate c)))
  unfolding purge_begun
  purge-Stays generation =
      let (x, e, w) = begin_immediate-stuck j.connection h in
      guarded-Stays (λ c. purge_begun generation (begin_immediate c))
        (x, rw (e, purge_begun) refl, w)

prepare_batch-Stays :
    (codec : Codec) (generation thread : String) (operations : List Operation) (j : Journal)
    → IsStuck j
    → Stays (prepare_batch codec generation thread operations j)
unfolding prepare_batch
prepare_batch-Stays codec generation thread operations j h =
    elim (Result-cases (make_batch codec j.max_operations generation thread operations)) [
      | inl (e, q) ↦ rw (q, prepare_batch) (error-some e, h)
      | inr (batch, q) ↦
          rw (q, prepare_batch) (transact-Stays j h (prepare_block j.max_generations batch))
    ]

begin-Stays :
    (codec : Codec) (batch : Batch) (o : Operation) (j : Journal)
    → IsStuck j
    → Stays (begin codec batch o j)
unfolding begin
begin-Stays codec batch o j h = elim (Result-cases (check_call batch o)) [
  | inl (e, q) ↦ rw (q, begin) (error-some e, h)
  | inr (_, q) ↦ rw (q, begin) (transact-Stays j h (begin_block codec j.max_result_bytes batch o))
]

suspend-Stays :
    (batch : Batch) (o : Operation) (j : Journal) → IsStuck j → Stays (suspend batch o j)
unfolding suspend
suspend-Stays batch o j h = elim (Result-cases (check_call batch o)) [
  | inl (e, q) ↦ rw (q, suspend) (error-some e, h)
  | inr (_, q) ↦ rw (q, suspend) (transact-Stays j h (suspend_block batch o))
]

complete-Stays :
    (codec : Codec) (batch : Batch) (o : Operation) (v : Value) (j : Journal)
    → IsStuck j
    → Stays (complete codec batch o v j)
unfolding complete
complete-Stays codec batch o v j h = elim (Result-cases (check_call batch o)) [
  | inl (e, q) ↦ rw (q, complete) (error-some e, h)
  | inr (_, q) ↦ elim (Result-cases (canonical_result codec j.max_result_bytes v)) [
    | inl (e, p) ↦ rw (q, complete) (rw p (error-some e, h))
    | inr (encoded, p) ↦
        rw (q, complete) (rw p (transact-Stays j h (complete_block batch o encoded)))
  ]
]

delivered-Stays :
    (codec : Codec) (batch : Batch) (j : Journal) → IsStuck j → Stays (delivered codec batch j)
unfolding delivered
delivered-Stays codec batch j h = elim (Result-cases (validate_handle batch)) [
  | inl (e, q) ↦ rw (q, delivered) (error-some e, h)
  | inr (_, q) ↦
      rw (q, delivered) (transact-Stays j h (deliver_block codec j.max_result_bytes batch))
]

purge_call-Stays : (generation : String) (j : Journal) → IsStuck j → Stays (purge generation j)
unfolding purge
purge_call-Stays generation j h = elim (Result-cases (safe_id generation)) [
  | inl (e, q) ↦ rw (q, purge) (error-some e, h)
  | inr (g, q) ↦ rw (q, purge) (purge-Stays j h g)
]

call-Stays :
    (codec : Codec) (c : Call) (j : Journal)
    → IsStuck j
    → (raises codec c j ≢ none) × IsStuck (step codec c j)
unfolding raises step
call-Stays codec (prepares generation thread operations) =
    prepare_batch-Stays codec generation thread operations
call-Stays codec (begins batch o) = begin-Stays codec batch o
call-Stays codec (suspends batch o) = suspend-Stays batch o
call-Stays codec (completes batch o v) = complete-Stays codec batch o v
call-Stays codec (delivers batch) = delivered-Stays codec batch
call-Stays codec (purges generation) = purge_call-Stays generation

run-IsStuck : (codec : Codec) (cs : List Call) (j : Journal) → IsStuck j → IsStuck (run codec cs j)
unfolding run
run-IsStuck codec [] j h = h
run-IsStuck codec (c ∷ cs) j h = run-IsStuck codec cs (step codec c j) (call-Stays codec c j h).1

-- `purge` whose BEGIN and DELETE succeed, and whose COMMIT fails and leaves the transaction open.
abbrev faulted : Tables → ℕ → List Bool → Connection Tables
faulted d n later = record {
  durable = d;
  working = none;
  changes = n;
  faults = false ∷ false ∷ true ∷ false ∷ later;
}

purge_begun-open :
    (generation : String) (d : Tables) (n : ℕ) (later : List Bool)
    → (purge_begun generation (begin_immediate (faulted d n later))).1.working ≢ none
unfolding purge_begun begin_immediate faulty execute tables store commit_or commit uncommitted
    relabel ◌>>=◌ continue purge_handler delete_generation find_batch
purge_begun-open generation d n later = elim (Option-cases (find_batch generation d.batches)) [
  | inl idle ↦ rw idle (λ h. absurd (ground arith))
  | inr (b, busy) ↦ rw busy (λ h. absurd (ground arith))
]

purge-IsStuck :
    (generation : String) (j : Journal) (later : List Bool)
    → is_safe_id generation ≡ true
    → j.closed ≡ false
    → j.connection.working ≡ none
    → j.connection.faults ≡ false ∷ false ∷ true ∷ false ∷ later
    → IsStuck (purge generation j).1
unfolding purge guarded safe_id
purge-IsStuck generation j later g o w f =
    let same : j.connection ≡ faulted j.connection.durable j.connection.changes later =
      ground arith in
    let run : purge generation j ≡ (
      (purge_begun generation (begin_immediate j.connection)).0,
      record j { connection = (purge_begun generation (begin_immediate j.connection)).1 },
    ) =
      ground arith in
    subst IsStuck (sym (ap (λ p. p.1) run)) (
      subst (λ c. (purge_begun generation (begin_immediate c)).1.working ≢ none) (sym same)
        (purge_begun-open generation j.connection.durable j.connection.changes later))

-- After a `purge` of a safe generation, on an open journal outside a transaction, whose BEGIN and
-- DELETE succeed and whose COMMIT fails with the transaction left open, as SQLite leaves it when it is
-- busy, every later call of a method raises, after any calls.
pub purge-wedges :
    (codec : Codec) (generation : String) (j : Journal) (later : List Bool) (cs : List Call)
    (c : Call)
    → is_safe_id generation ≡ true
    → j.closed ≡ false
    → j.connection.working ≡ none
    → j.connection.faults ≡ false ∷ false ∷ true ∷ false ∷ later
    → raises codec c (run codec cs (purge generation j).1) ≢ none
purge-wedges codec generation j later cs c g o w f =
    (call-Stays codec c (run codec cs (purge generation j).1)
      (run-IsStuck codec cs (purge generation j).1 (purge-IsStuck generation j later g o w f))).0
