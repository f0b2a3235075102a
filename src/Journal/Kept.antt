-- ===== src/Journal/Kept.antt =====
-- A started operation of team/power_journal.py stays armed in every history that retains it.
use shimpz_drivers.Prelude.{
  ℕ, ◌≡◌, refl, sym, subst, ◌∙◌, arith, false, ◌&&◌, Option, some, List, [], ◌∷◌, String, Result,
  ok, err, ◌==◌, eq_string, eq_nat, inl, inr, Option-cases,
}
use shimpz_drivers.Journal.State.{JournalError, Codec, Operation, Batch, Execution}
use shimpz_drivers.Journal.Tables.{
  OpState, prepared, Tables, state_eq, find_batch, insert_batch, without_ops, delete_generation,
  delete_batch,
}
use shimpz_drivers.Journal.Loading.{Journal}
use shimpz_drivers.Journal.Blocks.{Moved, Begun, starts, replays}
use shimpz_drivers.Journal.Steps.{Completed, records, confirms, Suspended}
use shimpz_drivers.Journal.Batches.{Prepared, again, inserts, Delivered, gone, deletes}
use shimpz_drivers.Journal.Effects.{
  Effect, PreparedBy, CompletedBy, Purged, prepare_batch-Effect, begin-Effect, complete-Effect,
  suspend-Effect, delivered-Effect, purge-Effect,
}
use shimpz_drivers.Journal.Rows.{
  Armed, count-set_le, count-set_other, find_op-set, count-without, find_op-without,
  insert_ops-Armed,
}
use shimpz_drivers.Journal.History.{
  Call, prepares, begins, suspends, completes, delivers, purges, step, run, Retains, AllRetain,
}

module _ (g i : String) where
  Moved-Armed :
      {g' i' : String} {from to : OpState} {column : Option String → Option String} (t t' : Tables)
      → state_eq to prepared ≡ false
      → Moved g' i' from to column t t'
      → Armed g i t
      → Armed g i t'
  Moved-Armed {g'} {i'} {from} {to} {column} t t' h m a = rw m.after (record {
    none_prepared =
        let few = count-set_le g i g' i' from to column t.operations h in
        omega (arith, few, a.none_prepared);
    recorded = find_op-set g i g' i' from to column t.operations a.recorded;
  })

  Moved-elsewhere-Armed :
      {g' i' : String} {from to : OpState} {column : Option String → Option String} (t t' : Tables)
      → (g' == g && i' == i) ≡ false
      → Moved g' i' from to column t t'
      → Armed g i t
      → Armed g i t'
  Moved-elsewhere-Armed {g'} {i'} {from} {to} {column} t t' h m a = rw m.after (record {
    none_prepared = count-set_other g i g' i' from to column t.operations h ∙ a.none_prepared;
    recorded = find_op-set g i g' i' from to column t.operations a.recorded;
  })

  Prepared-Armed :
      (limit : ℕ) (batch : Batch) (t t' : Tables)
      → Prepared limit batch t t'
      → Armed g i t
      → Armed g i t'
  Prepared-Armed limit batch t t' (again rows l) a = subst (Armed g i) (sym l.same) a
  Prepared-Armed limit batch t t' (inserts t1 n k idle room x y) a =
      insert_ops-Armed g i batch.generation 0 batch.operations t1 t' {k = k} y
        (record { none_prepared = rw kept a.none_prepared; recorded = rw kept a.recorded })
    where
      kept : t1.operations ≡ t.operations
      kept = unfold insert_batch in ground arith

  deleted-Armed :
      (generation : String) {n : ℕ} (t t' : Tables)
      → (generation == g) ≡ false
      → delete_generation generation t ≡ some (t', n)
      → Armed g i t
      → Armed g i t'
  unfolding delete_generation
  deleted-Armed generation {n} t t' h e a = elim (Option-cases (find_batch generation t.batches)) [
    | inl idle ↦ subst (Armed g i) (ground arith) a
    | inr (b, busy) ↦
        let left : t'.operations ≡ without_ops generation t.operations = ground arith in
        record {
          none_prepared = rw left (count-without g i generation t.operations h ∙ a.none_prepared);
          recorded = rw left (rw (find_op-without g i generation t.operations h) a.recorded);
        }
  ]

  Delivered-Armed :
      (codec : Codec) (limit : ℕ) (batch : Batch) (t t' : Tables)
      → (batch.generation == g) ≡ false
      → Delivered codec limit batch t t'
      → Armed g i t
      → Armed g i t'
  Delivered-Armed codec limit batch t t' h (gone e p) a = subst (Armed g i) (sym p) a
  Delivered-Armed codec limit batch t t' h (deletes rows l c d e) a =
      deleted-Armed batch.generation {n = 1} t t' h (unfold delete_batch in ground arith) a

  -- Every way in which a method can end keeps what each effect of it keeps.
  Effect-Armed :
      {A : Type 0} (R : Tables → A → Tables → Type 0) (j : Journal)
      (p : Result JournalError A × Journal)
      → ((x : A) (t' : Tables)
          → R j.connection.durable x t'
          → Armed g i j.connection.durable
          → Armed g i t')
      → Effect R j p
      → Armed g i j.connection.durable
      → Armed g i p.1.connection.durable
  Effect-Armed R j (ok x, j') keep e a = keep x j'.connection.durable e a
  Effect-Armed R j (err _, j') keep e a = subst (Armed g i) (sym e) a

  Begun-Armed :
      (codec : Codec) (limit : ℕ) (batch : Batch) (o : Operation) (x : Execution) (t t' : Tables)
      → Begun codec limit batch o t x t'
      → Armed g i t
      → Armed g i t'
  Begun-Armed codec limit batch o x t t' (starts e m) a = Moved-Armed t t' refl m a
  Begun-Armed codec limit batch o x t t' (replays r v f e s d) a =
      subst (Armed g i) (sym f.loaded.same) a

  Completed-Armed :
      (batch : Batch) (o : Operation) (encoded : String) (t t' : Tables)
      → Completed batch o encoded t t'
      → Armed g i t
      → Armed g i t'
  Completed-Armed batch o encoded t t' (records m) a = Moved-Armed t t' refl m a
  Completed-Armed batch o encoded t t' (confirms r f s e) a =
      subst (Armed g i) (sym f.loaded.same) a

  Suspended-Armed :
      (batch : Batch) (o : Operation) (t t' : Tables)
      → (batch.generation == g && o.interrupt_id == i) ≡ false
      → Suspended batch o t t'
      → Armed g i t
      → Armed g i t'
  Suspended-Armed batch o t t' h (inl m) a = Moved-elsewhere-Armed t t' h m a
  Suspended-Armed batch o t t' h (inr p) a = subst (Armed g i) (sym p) a

  step-Armed :
      (codec : Codec) (c : Call) (j : Journal)
      → Retains g i c
      → Armed g i j.connection.durable
      → Armed g i (step codec c j).connection.durable
  unfolding step
  step-Armed codec (prepares generation thread operations) j r =
      Effect-Armed (PreparedBy codec generation thread operations j) j _
        (λ b t' p. Prepared-Armed j.max_generations b j.connection.durable t' p.1)
        (prepare_batch-Effect codec generation thread operations j)
  step-Armed codec (begins batch o) j r =
      Effect-Armed (Begun codec j.max_result_bytes batch o) j _
        (λ x t' p. Begun-Armed codec j.max_result_bytes batch o x j.connection.durable t' p)
        (begin-Effect codec batch o j)
  step-Armed codec (suspends batch o) j r =
      Effect-Armed (λ t x t'. Suspended batch o t t') j _
        (λ x t' p. Suspended-Armed batch o j.connection.durable t' r p) (suspend-Effect batch o j)
  step-Armed codec (completes batch o v) j r =
      Effect-Armed (CompletedBy codec batch o v j) j _
        (λ x t' p. Completed-Armed batch o p.0 j.connection.durable t' p.2)
        (complete-Effect codec batch o v j)
  step-Armed codec (delivers batch) j r =
      Effect-Armed (λ t x t'. Delivered codec j.max_result_bytes batch t t') j _
        (λ x t' p. Delivered-Armed codec j.max_result_bytes batch j.connection.durable t' r p)
        (delivered-Effect codec batch j)
  step-Armed codec (purges generation) j r =
      Effect-Armed (Purged generation) j _
        (λ x t' p. deleted-Armed generation {n = p.0} j.connection.durable t' r p.1)
        (purge-Effect generation j)

  pub run-Armed :
      (codec : Codec) (cs : List Call) (j : Journal)
      → AllRetain g i cs
      → Armed g i j.connection.durable
      → Armed g i (run codec cs j).connection.durable
  unfolding run
  run-Armed codec [] j r a = a
  run-Armed codec (c ∷ cs) j r a =
      run-Armed codec cs (step codec c j) r.1 (step-Armed codec c j r.0 a)
