-- ===== src/Journal/Capacity.antt =====
-- The bound on the batches that the journal of team/power_journal.py holds.
use shimpz_drivers.Prelude.{
  ℕ, suc, ◌≤◌, ◌≡◌, refl, sym, subst, ◌∙◌, arith, false, some, List, [], ◌∷◌, ◌++◌, String, Result,
  ok, err, leb, eq_string, eq_nat, length, length-append, inl, inr, Bool-cases, Option-cases,
  Result-cases,
}
use shimpz_drivers.Sql.{Connection, transact, begin_immediate}
use shimpz_drivers.Journal.State.{
  JournalError, failed, Codec, Operation, Batch, Execution, safe_id, make_batch, validate_handle,
}
use shimpz_drivers.Journal.Json.{canonical_result}
use shimpz_drivers.Journal.Tables.{
  BatchRow, Tables, find_batch, insert_batch, insert_op, insert_ops, without_batch,
  delete_generation, delete_batch,
}
use shimpz_drivers.Journal.Loading.{Journal, translate, guarded, check_call}
use shimpz_drivers.Journal.Store.{
  prepare_block, prepare_batch, begin_block, begin, complete_block, complete, suspend_block,
  suspend, deliver_block, delivered, purge_begun, purge,
}
use shimpz_drivers.Journal.Blocks.{Begun, starts, replays}
use shimpz_drivers.Journal.Steps.{Completed, records, confirms, Suspended}
use shimpz_drivers.Journal.Batches.{Prepared, batch_row, again, inserts, Delivered, gone, deletes}
use shimpz_drivers.Journal.Effects.{
  Effect, PreparedBy, CompletedBy, Purged, prepare_batch-Effect, begin-Effect, complete-Effect,
  suspend-Effect, delivered-Effect, purge-Effect,
}
use shimpz_drivers.Journal.History.{
  Call, prepares, begins, suspends, completes, delivers, purges, step, run,
}

-- Rows of the table `batches` that a transaction leaves, against those that it found.
length-without : (g : String) (bs : List BatchRow) → length (without_batch g bs) ≤ length bs
unfolding without_batch
length-without g [] = omega arith
length-without g (b ∷ bs) = ground (arith, length-without g bs)

insert_ops-batches :
    (g : String) (n : ℕ) (os : List Operation) (t t' : Tables) {k : ℕ}
    → insert_ops g n os t ≡ some (t', k)
    → t'.batches ≡ t.batches
unfolding insert_ops insert_op
insert_ops-batches g n [] t t' h = ground arith
insert_ops-batches g n (o ∷ os) t t' {k} h = elim (Option-cases (insert_op g n o t)) [
  | inl e ↦ absurd (ground arith)
  | inr (t1, e) ↦
      let rest : insert_ops g (suc n) os t1 ≡ some (t', k) = ground arith in
      let same : t1.batches ≡ t.batches = ground arith in
      insert_ops-batches g (suc n) os t1 t' {k = k} rest ∙ same
]

deleted-le :
    (generation : String) {n : ℕ} (t t' : Tables)
    → delete_generation generation t ≡ some (t', n)
    → length t'.batches ≤ length t.batches
unfolding delete_generation
deleted-le generation {n} t t' e = elim (Option-cases (find_batch generation t.batches)) [
  | inl idle ↦ ground arith
  | inr (b, busy) ↦
      let left : t'.batches ≡ without_batch generation t.batches = ground arith in
      rw left (length-without generation t.batches)
]

-- Within the limit.
abbrev pub Within : ℕ → Tables → Type 0
Within limit t = length t.batches ≤ limit

Prepared-Within :
    (limit : ℕ) (batch : Batch) (t t' : Tables)
    → Prepared limit batch t t'
    → Within limit t
    → Within limit t'
Prepared-Within limit batch t t' (again rows l) h = subst (Within limit) (sym l.same) h
Prepared-Within limit batch t t' (inserts t1 n k idle room x y) h =
    let same = insert_ops-batches batch.generation 0 batch.operations t1 t' {k = k} y in
    rw same (inserted room x)
  where
    inserted :
        leb limit (length t.batches) ≡ false
        → insert_batch (batch_row batch) t ≡ some (t1, n)
        → length t1.batches ≤ limit
    inserted full e =
        let added : t1.batches ≡ t.batches ++ batch_row batch ∷ [] =
          unfold insert_batch in ground arith in
        rw added (rw (length-append t.batches (batch_row batch ∷ [])) (ground arith))

-- No transaction but that of `prepare_batch` adds a batch.
Effect-Within :
    {A : Type 0} (R : Tables → A → Tables → Type 0) (j : Journal)
    (p : Result JournalError A × Journal)
    → ((x : A) (t' : Tables)
        → R j.connection.durable x t'
        → Within j.max_generations j.connection.durable
        → Within j.max_generations t')
    → Effect R j p
    → Within j.max_generations j.connection.durable
    → Within j.max_generations p.1.connection.durable
Effect-Within R j (ok x, j') keep e h = keep x j'.connection.durable e h
Effect-Within R j (err _, j') keep e h = subst (Within j.max_generations) (sym e) h

Begun-Within :
    (codec : Codec) (limit n : ℕ) (batch : Batch) (o : Operation) (x : Execution) (t t' : Tables)
    → Begun codec limit batch o t x t'
    → Within n t
    → Within n t'
Begun-Within codec limit n batch o x t t' (starts e m) h =
    subst (λ s. length s.batches ≤ n) (sym m.after) h
Begun-Within codec limit n batch o x t t' (replays r v f e s d) h =
    subst (Within n) (sym f.loaded.same) h

Completed-Within :
    (n : ℕ) (batch : Batch) (o : Operation) (encoded : String) (t t' : Tables)
    → Completed batch o encoded t t'
    → Within n t
    → Within n t'
Completed-Within n batch o encoded t t' (records m) h =
    subst (λ s. length s.batches ≤ n) (sym m.after) h
Completed-Within n batch o encoded t t' (confirms r f s e) h =
    subst (Within n) (sym f.loaded.same) h

Suspended-Within :
    (n : ℕ) (batch : Batch) (o : Operation) (t t' : Tables)
    → Suspended batch o t t'
    → Within n t
    → Within n t'
Suspended-Within n batch o t t' (inl m) h = subst (λ s. length s.batches ≤ n) (sym m.after) h
Suspended-Within n batch o t t' (inr p) h = subst (Within n) (sym p) h

deleted-Within :
    (generation : String) (n : ℕ) {k : ℕ} (t t' : Tables)
    → delete_generation generation t ≡ some (t', k)
    → Within n t
    → Within n t'
deleted-Within generation n {k} t t' e h =
    let fewer = deleted-le generation {n = k} t t' e in omega (arith, fewer, h)

Delivered-Within :
    (codec : Codec) (limit n : ℕ) (batch : Batch) (t t' : Tables)
    → Delivered codec limit batch t t'
    → Within n t
    → Within n t'
Delivered-Within codec limit n batch t t' (gone e p) h = subst (Within n) (sym p) h
Delivered-Within codec limit n batch t t' (deletes rows l c d e) h =
    deleted-Within batch.generation n {k = 1} t t' (unfold delete_batch in ground arith) h

step-Within :
    (codec : Codec) (c : Call) (j : Journal)
    → Within j.max_generations j.connection.durable
    → Within j.max_generations (step codec c j).connection.durable
unfolding step
step-Within codec (prepares generation thread operations) j =
    Effect-Within (PreparedBy codec generation thread operations j) j
      (prepare_batch codec generation thread operations j)
      (λ b t' p. Prepared-Within j.max_generations b j.connection.durable t' p.1)
      (prepare_batch-Effect codec generation thread operations j)
step-Within codec (begins batch o) j =
    Effect-Within (Begun codec j.max_result_bytes batch o) j (begin codec batch o j)
      (λ x t' p.
        Begun-Within codec j.max_result_bytes j.max_generations batch o x j.connection.durable t' p)
      (begin-Effect codec batch o j)
step-Within codec (suspends batch o) j =
    Effect-Within (λ t x t'. Suspended batch o t t') j (suspend batch o j)
      (λ x t' p. Suspended-Within j.max_generations batch o j.connection.durable t' p)
      (suspend-Effect batch o j)
step-Within codec (completes batch o v) j =
    Effect-Within (CompletedBy codec batch o v j) j (complete codec batch o v j)
      (λ x t' p. Completed-Within j.max_generations batch o p.0 j.connection.durable t' p.2)
      (complete-Effect codec batch o v j)
step-Within codec (delivers batch) j =
    Effect-Within (λ t x t'. Delivered codec j.max_result_bytes batch t t') j
      (delivered codec batch j)
      (λ x t' p.
        Delivered-Within codec j.max_result_bytes j.max_generations batch j.connection.durable t' p)
      (delivered-Effect codec batch j)
step-Within codec (purges generation) j =
    Effect-Within (Purged generation) j (purge generation j)
      (λ x t' p. deleted-Within generation j.max_generations {k = p.0} j.connection.durable t' p.1)
      (purge-Effect generation j)

-- The limit is a constant of the journal.
guarded-limit :
    {A : Type 0} (j : Journal)
    (block : Connection Tables → Result JournalError A × Connection Tables)
    → (guarded j block).1.max_generations ≡ j.max_generations
unfolding guarded
guarded-limit j block = elim (Bool-cases j.closed) [
  | inl shut ↦ rw shut refl
  | inr open_now ↦ rw open_now refl
]

step-limit :
    (codec : Codec) (c : Call) (j : Journal) → (step codec c j).max_generations ≡ j.max_generations
unfolding step prepare_batch begin suspend complete delivered purge
step-limit codec (prepares generation thread operations) j =
    elim (Result-cases (make_batch codec j.max_operations generation thread operations)) [
      | inl (e, q) ↦ rw (q, step, prepare_batch) refl
      | inr (batch, q) ↦
          rw (q, step, prepare_batch)
            (guarded-limit j (transact failed translate (prepare_block j.max_generations batch)))
    ]
step-limit codec (begins batch o) j = elim (Result-cases (check_call batch o)) [
  | inl (e, q) ↦ rw (q, step, begin) refl
  | inr (_, q) ↦
      rw (q, step, begin)
        (guarded-limit j (transact failed translate (begin_block codec j.max_result_bytes batch o)))
]
step-limit codec (suspends batch o) j = elim (Result-cases (check_call batch o)) [
  | inl (e, q) ↦ rw (q, step, suspend) refl
  | inr (_, q) ↦
      rw (q, step, suspend) (guarded-limit j (transact failed translate (suspend_block batch o)))
]
step-limit codec (completes batch o v) j = elim (Result-cases (check_call batch o)) [
  | inl (e, q) ↦ rw (q, step, complete) refl
  | inr (_, q) ↦ elim (Result-cases (canonical_result codec j.max_result_bytes v)) [
    | inl (e, p) ↦ rw (q, step, complete) (rw p refl)
    | inr (encoded, p) ↦
        rw (q, step, complete)
          (rw p (guarded-limit j (transact failed translate (complete_block batch o encoded))))
  ]
]
step-limit codec (delivers batch) j = elim (Result-cases (validate_handle batch)) [
  | inl (e, q) ↦ rw (q, step, delivered) refl
  | inr (_, q) ↦
      rw (q, step, delivered)
        (guarded-limit j (transact failed translate (deliver_block codec j.max_result_bytes batch)))
]
step-limit codec (purges generation) j = elim (Result-cases (safe_id generation)) [
  | inl (e, q) ↦ rw (q, step, purge) refl
  | inr (g, q) ↦ rw (q, step, purge) (guarded-limit j (λ c. purge_begun g (begin_immediate c)))
]

-- A journal that starts within its limit of batches stays within that limit through every sequence
-- of calls, whichever statements fail.
pub run-Within :
    (codec : Codec) (cs : List Call) (j : Journal)
    → Within j.max_generations j.connection.durable
    → Within j.max_generations (run codec cs j).connection.durable
unfolding run
run-Within codec [] j h = h
run-Within codec (c ∷ cs) j h =
    let same = step-limit codec c j in
    subst (λ n. Within n (run codec cs (step codec c j)).connection.durable) same
      (run-Within codec cs (step codec c j) (
        subst (λ n. Within n (step codec c j).connection.durable) (sym same)
          (step-Within codec c j h)))
