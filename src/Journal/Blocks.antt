-- ===== src/Journal/Blocks.antt =====
-- What the blocks of statements of team/power_journal.py do to the tables when they return.
use shimpz_drivers.Prelude.{
  ℕ, ◌≡◌, refl, sym, subst, subst₂, ap, ◌∙◌, arith, Bool, true, false, not, Option, none, some,
  List, String, ok, eq_string, eq_nat, inl, inr, ◌⊎◌,
}
use shimpz_drivers.Value.{Value}
use shimpz_drivers.Sql.{pure, reject, ◌>>◌}
use shimpz_drivers.Sql.Durable.{
  Runs, Runs-pure, Runs-raise, Runs-lift, Runs-next, Runs-query, Runs-execute_one, Runs-reject,
  Runs-bind, Runs-weaken, Runs-relabel,
}
use shimpz_drivers.Journal.State.{
  JournalError, conflict, uncertain, corruption, Codec, Operation, Batch, Execution,
}
use shimpz_drivers.Journal.Json.{decode_result}
use shimpz_drivers.Journal.Tables.{
  OpState, prepared, executing, completed, unknown, BatchRow, OpRow, Tables, find_batch,
  select_operations, update_op, set_matching, count_matching,
}
use shimpz_drivers.Journal.Loading.{
  or_stale, is_loaded, load_batch, find_interrupt, is_some, load_operation, move_operation,
}
use shimpz_drivers.Journal.Store.{begin_state}

abbrev pub Same : {A : Type 0} → Tables → A → Tables → Type 0
Same t a t' = t' ≡ t

-- `rows` are the operations of the batch, which the tables hold as the handle describes it.
pub record Loaded (batch : Batch) (t : Tables) (rows : List OpRow) (t' : Tables) : Type 0 where
  pub same : t' ≡ t
  pub rows_of : rows ≡ select_operations batch.generation t
  pub row : BatchRow
  pub found : find_batch batch.generation t.batches ≡ some row
  pub agrees : is_loaded batch row rows ≡ true

not-false : (b : Bool) → not b ≡ false → b ≡ true
not-false b h = ground arith

or_stale-ok : (o : Option BatchRow) {row : BatchRow} → or_stale o ≡ ok row → o ≡ some row
or_stale-ok o h = ground arith

pub load_batch-Runs : (batch : Batch) → Runs (Loaded batch) (load_batch batch)
unfolding load_batch
load_batch-Runs batch = Runs-weaken collect (
    Runs-bind _ _ (Runs-relabel corruption _ (Runs-query (λ (t : Tables). find_batch g t.batches)))
      (λ row. Runs-bind _ _ (Runs-relabel corruption _ (Runs-query (select_operations g))) (λ rows.
        Runs-bind _ _ (Runs-lift (or_stale row)) (λ found.
          Runs-bind _ _ (Runs-reject (not (is_loaded batch found rows)) conflict)
            (λ _. Runs-pure rows)))))
  where
    g : String
    g = batch.generation

    collect :
        (t t' : Tables) (a : List OpRow)
        → (row : Option BatchRow) × (t1 : Tables) × ((row ≡ find_batch g t.batches) × (t1 ≡ t))
          × ((rows : List OpRow) × (t2 : Tables) × ((rows ≡ select_operations g t1) × (t2 ≡ t1))
              × ((found : BatchRow) × (t3 : Tables) × ((or_stale row ≡ ok found) × (t3 ≡ t2))
                  × (Unit {0}
                      × (t4 : Tables) × ((not (is_loaded batch found rows) ≡ false) × (t4 ≡ t3))
                      × ((a ≡ rows) × (t' ≡ t4)))))
        → Loaded batch t a t'
    collect t t' a
          (
            row,
            t1,
            (pr, p1),
            (rows, t2, (prs, p2), (found, t3, (pf, p3), (_, t4, (pl, p4), (pa, p5)))),
          ) =
        record {
          same = p5 ∙ p4 ∙ p3 ∙ p2 ∙ p1;
          rows_of = pa ∙ prs ∙ ap (select_operations g) p1;
          row = found;
          found = sym pr ∙ or_stale-ok row pf;
          agrees = subst (λ x. is_loaded batch found x ≡ true) (sym pa) (not-false _ pl);
        }

-- The operation `i` of the generation `g` moved from `from` to `to`, and nothing else changed.
pub record Moved (g i : String) (from to : OpState) (column : Option String → Option String)
    (t t' : Tables) : Type 0 where
  pub once : count_matching g i from t.operations ≡ 1
  pub after : t' ≡ record t { operations = set_matching g i from to column t.operations }

pub move_operation-Runs :
    (batch : Batch) (o : Operation) (from to : OpState) (column : Option String → Option String)
    → Runs
        (λ t b t'. Moved batch.generation o.interrupt_id from to column t t')
        (move_operation batch o from to column)
unfolding move_operation
move_operation-Runs batch o from to column =
    Runs-weaken moved
      (Runs-execute_one (update_op batch.generation o.interrupt_id from to column) conflict)
  where
    moved :
        (t t' : Tables) (a : Unit {0})
        → update_op batch.generation o.interrupt_id from to column t ≡ some (t', 1)
        → Moved batch.generation o.interrupt_id from to column t t'
    moved t t' a h = unfold update_op in record { once = ground arith; after = ground arith }

-- The row of the operation among the loaded rows.
pub record Found (batch : Batch) (o : Operation) (t : Tables) (r : OpRow) (t' : Tables)
    : Type 0 where
  pub rows : List OpRow
  pub loaded : Loaded batch t rows t'
  pub at : find_interrupt o.interrupt_id rows ≡ some r

pub load_operation-Runs :
    (batch : Batch) (o : Operation) → Runs (Found batch o) (load_operation batch o)
unfolding load_operation
load_operation-Runs batch o =
    Runs-weaken collect (
      Runs-bind _ _ (load_batch-Runs batch)
        (λ rows. Runs-next (find_interrupt o.interrupt_id rows)))
  where
    collect :
        (t t' : Tables) (r : OpRow)
        → (rows : List OpRow) × (t1 : Tables) × Loaded batch t rows t1
          × ((find_interrupt o.interrupt_id rows ≡ some r) × (t' ≡ t1))
        → Found batch o t r t'
    collect t t' r (rows, t1, l, (e, p)) = record {
      rows = rows;
      loaded = subst (Loaded batch t rows) (sym p) l;
      at = e;
    }

-- How `begin` can return.
pub data Begun (codec : Codec) (limit : ℕ) (batch : Batch) (o : Operation) (t : Tables)
    (x : Execution) (t' : Tables) : Type 0 where
  starts :
      x.execute ≡ true
      → Moved batch.generation o.interrupt_id prepared executing (λ r. r) t t'
      → Begun codec limit batch o t x t'
  replays :
      (r : OpRow) (v : Value)
      → Found batch o t r t'
      → x ≡ record { execute = false; result = some v }
      → r.state ≡ completed
      → decode_result codec limit r.result ≡ ok v
      → Begun codec limit batch o t x t'

module _ (codec : Codec) (limit : ℕ) (batch : Batch) (o : Operation) where
  abbrev pub StartsState : Tables → Execution → Tables → Type 0
  StartsState t x t' =
      (x.execute ≡ true) × Moved batch.generation o.interrupt_id prepared executing (λ r. r) t t'

  begin_prepared-Runs :
      (raw : Option String) (e : JournalError)
      → Runs StartsState (do
        reject (is_some raw) e
        move_operation batch o prepared executing (λ r. r)
        pure (record { execute = true; result = none }))
  begin_prepared-Runs raw e = Runs-weaken collect (
      Runs-bind _ _ (Runs-reject (is_some raw) e) (λ _.
        Runs-bind _ _ (move_operation-Runs batch o prepared executing (λ r. r))
          (λ _. Runs-pure (record { execute = true; result = none }))))
    where
      collect :
          (t t' : Tables) (x : Execution)
          → Unit {0}
            × (t1 : Tables) × ((is_some raw ≡ false) × (t1 ≡ t))
            × (Unit {0}
                × (t2 : Tables) × Moved batch.generation o.interrupt_id prepared executing
                    (λ r. r)
                    t1
                    t2
                × ((x ≡ record { execute = true; result = none }) × (t' ≡ t2)))
          → StartsState t x t'
      collect t t' x (_, t1, (_, p), (_, t2, m, (e, q))) = (
        ap (λ (y : Execution). y.execute) e,
        subst₂ (Moved batch.generation o.interrupt_id prepared executing (λ r. r)) p (sym q) m,
      )

  pub begin_state-Runs :
      (state : OpState) (raw : Option String)
      → Runs
          (λ t x t'.
            StartsState t x t'
            ⊎ ((v : Value) × (state ≡ completed)
                × (x ≡ record { execute = false; result = some v })
                × (decode_result codec limit raw ≡ ok v)
                × (t' ≡ t)))
          (begin_state codec limit batch o state raw)
  unfolding begin_state
  begin_state-Runs executing raw = Runs-weaken (λ t t' a h. absurd h) (Runs-raise uncertain)
  begin_state-Runs completed raw = Runs-weaken collect (
      Runs-bind _ _ (Runs-lift (decode_result codec limit raw))
        (λ v. Runs-pure (record { execute = false; result = some v })))
    where
      collect :
          (t t' : Tables) (x : Execution)
          → (v : Value) × (t1 : Tables) × ((decode_result codec limit raw ≡ ok v) × (t1 ≡ t))
            × ((x ≡ record { execute = false; result = some v }) × (t' ≡ t1))
          → StartsState t x t'
            ⊎ ((v : Value) × (completed ≡ completed)
                × (x ≡ record { execute = false; result = some v })
                × (decode_result codec limit raw ≡ ok v)
                × (t' ≡ t))
      collect t t' x (v, t1, (d, p), (e, q)) = inr (v, refl, e, d, q ∙ p)
  begin_state-Runs prepared raw =
      Runs-weaken (λ t t' a h. inl h) (begin_prepared-Runs raw corruption)
  begin_state-Runs unknown raw =
      Runs-weaken (λ t t' a h. inl h) (begin_prepared-Runs raw corruption)
