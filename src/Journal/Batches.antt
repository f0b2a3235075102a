-- ===== src/Journal/Batches.antt =====
-- What preparing and delivering a batch in team/power_journal.py does to the tables.
use shimpz_drivers.Prelude.{
  ℕ, all, ◌≡◌, refl, sym, subst, subst₂, ◌∙◌, Bool, true, false, not, Option, none, some, List, ok,
  leb, ◌==◌, ◌/=◌, eq_string, eq_nat, length, inl, inr, ◌⊎◌, Bool-cases,
}
use shimpz_drivers.Sql.Durable.{
  Runs, Runs-pure, Runs-raise, Runs-lift, Runs-query, Runs-execute, Runs-execute_one, Runs-reject,
  Runs-bind, Runs-weaken,
}
use shimpz_drivers.Journal.State.{conflict, Codec, Batch}
use shimpz_drivers.Journal.Tables.{
  BatchRow, OpRow, Tables, find_batch, insert_batch, insert_ops, delete_batch,
}
use shimpz_drivers.Journal.Store.{
  prepare_row, prepare_block, decode_all, is_completed, deliver_row, deliver_block,
}
use shimpz_drivers.Journal.Blocks.{Loaded, load_batch-Runs}

abbrev pub batch_row : Batch → BatchRow
batch_row batch = record {
  generation = batch.generation;
  fingerprint = batch.fingerprint;
  operation_count = length batch.operations;
}

-- How `prepare_batch` can return.
pub data Prepared (limit : ℕ) (batch : Batch) (t t' : Tables) : Type 0 where
  again : (rows : List OpRow) → Loaded batch t rows t' → Prepared limit batch t t'
  inserts :
      (t1 : Tables) (n k : ℕ)
      → find_batch batch.generation t.batches ≡ none
      → leb limit (length t.batches) ≡ false
      → insert_batch (batch_row batch) t ≡ some (t1, n)
      → insert_ops batch.generation 0 batch.operations t1 ≡ some (t', k)
      → Prepared limit batch t t'

module _ (limit : ℕ) (batch : Batch) where
  abbrev RowPrepared : Option BatchRow → Tables → Tables → Type 0
  RowPrepared row t t' =
      ((rows : List OpRow) × Loaded batch t rows t')
      ⊎ ((row ≡ none)
          × (leb limit (length t.batches) ≡ false)
          × ((t1 : Tables) × (n : ℕ) × (k : ℕ) × (insert_batch (batch_row batch) t ≡ some (t1, n))
              × (insert_ops batch.generation 0 batch.operations t1 ≡ some (t', k))))

  prepare_row-Runs :
      (row : Option BatchRow) → Runs (λ t b t'. RowPrepared row t t') (prepare_row limit batch row)
  unfolding prepare_row
  prepare_row-Runs (some row) = elim (Bool-cases (row.fingerprint == batch.fingerprint)) [
    | inl same ↦
        rw (same, prepare_row)
          (Runs-weaken loaded (Runs-bind _ _ (load_batch-Runs batch) (λ rows. Runs-pure tt)))
    | inr other ↦ rw (other, prepare_row) (Runs-weaken (λ t t' b h. absurd h) (Runs-raise conflict))
  ]
    where
      loaded :
          (t t' : Tables) (b : Unit {0})
          → (rows : List OpRow) × (t1 : Tables) × Loaded batch t rows t1 × ((b ≡ tt) × (t' ≡ t1))
          → RowPrepared (some row) t t'
      loaded t t' b (rows, t1, l, (_, p)) = inl (rows, subst (Loaded batch t rows) (sym p) l)
  prepare_row-Runs none = Runs-weaken collect (
      Runs-bind _ _ (Runs-query (λ (t : Tables). length t.batches)) (λ count.
        Runs-bind _ _ (Runs-reject (leb limit count) conflict) (λ _.
          Runs-bind _ _ (Runs-execute (insert_batch (batch_row batch)))
            (λ _. Runs-execute (insert_ops batch.generation 0 batch.operations)))))
    where
      collect :
          (t t' : Tables) (b : Unit {0})
          → (count : ℕ) × (t1 : Tables) × ((count ≡ length t.batches) × (t1 ≡ t))
            × (Unit {0}
                × (t2 : Tables) × ((leb limit count ≡ false) × (t2 ≡ t1))
                × (Unit {0}
                    × (t3 : Tables) × ((n : ℕ) × (insert_batch (batch_row batch) t2 ≡ some (t3, n)))
                    × ((k : ℕ) × (insert_ops batch.generation 0 batch.operations t3
                          ≡ some (t', k)))))
          → RowPrepared none t t'
      collect t t' b (count, t1, (c, p1), (_, t2, (l, p2), (_, t3, (n, e), (k, f)))) = inr (
        refl,
        subst (λ x. leb limit x ≡ false) c l,
        (t3, n, k, subst (λ x. insert_batch (batch_row batch) x ≡ some (t3, n)) (p2 ∙ p1) e, f),
      )

  pub prepare_block-Runs :
      Runs (λ t b t'. (b ≡ batch) × Prepared limit batch t t') (prepare_block limit batch)
  unfolding prepare_block
  prepare_block-Runs = Runs-weaken collect (
      Runs-bind _ _ (Runs-query (λ (t : Tables). find_batch batch.generation t.batches))
        (λ row. Runs-bind _ _ (prepare_row-Runs row) (λ _. Runs-pure batch)))
    where
      settle :
          (t t' : Tables) (row : Option BatchRow)
          → row ≡ find_batch batch.generation t.batches
          → RowPrepared row t t'
          → Prepared limit batch t t'
      settle t t' row e (inl (rows, l)) = again rows l
      settle t t' row e (inr (idle, room, (t1, n, k, x, y))) =
          inserts t1 n k (sym e ∙ idle) room x y

      collect :
          (t t' : Tables) (b : Batch)
          → (row : Option BatchRow) × (t1 : Tables) × ((row ≡ find_batch batch.generation t.batches)
              × (t1 ≡ t))
            × (Unit {0} × (t2 : Tables) × RowPrepared row t1 t2 × ((b ≡ batch) × (t' ≡ t2)))
          → (b ≡ batch) × Prepared limit batch t t'
      collect t t' b (row, t1, (e, p), (_, t2, s, (q, p2))) =
          (q, settle t t' row e (subst₂ (RowPrepared row) p (sym p2) s))

-- How `delivered` can return.
pub data Delivered (codec : Codec) (limit : ℕ) (batch : Batch) (t t' : Tables) : Type 0 where
  gone : find_batch batch.generation t.batches ≡ none → t' ≡ t → Delivered codec limit batch t t'
  deletes :
      (rows : List OpRow)
      → Loaded batch t rows t
      → all is_completed rows ≡ true
      → decode_all codec limit rows ≡ ok tt
      → delete_batch batch.generation batch.fingerprint t ≡ some (t', 1)
      → Delivered codec limit batch t t'

module _ (codec : Codec) (limit : ℕ) (batch : Batch) where
  abbrev RowDelivered : Option BatchRow → Tables → Tables → Type 0
  RowDelivered row t t' =
      ((row ≡ none) × (t' ≡ t))
      ⊎ ((rows : List OpRow) × Loaded batch t rows t
          × (all is_completed rows ≡ true)
          × (decode_all codec limit rows ≡ ok tt)
          × (delete_batch batch.generation batch.fingerprint t ≡ some (t', 1)))

  deliver_row-Runs :
      (row : Option BatchRow)
      → Runs (λ t b t'. RowDelivered row t t') (deliver_row codec limit batch row)
  unfolding deliver_row
  deliver_row-Runs none = Runs-weaken (λ t t' b h. inl (refl, h.1)) (Runs-pure tt)
  deliver_row-Runs (some row) = Runs-weaken collect (
      Runs-bind _ _ (Runs-reject (row.fingerprint /= batch.fingerprint) conflict) (λ _.
        Runs-bind _ _ (load_batch-Runs batch) (λ rows.
          Runs-bind _ _ (Runs-reject (not (all is_completed rows)) conflict) (λ _.
            Runs-bind _ _ (Runs-lift (decode_all codec limit rows))
              (λ _. Runs-execute_one (delete_batch batch.generation batch.fingerprint) conflict)))))
    where
      not_not : (b : Bool) → not b ≡ false → b ≡ true
      not_not true h = refl
      not_not false h = cc

      unit_eq : (x : Unit {0}) → x ≡ tt
      unit_eq x = refl

      collect :
          (t t' : Tables) (b : Unit {0})
          → Unit {0}
            × (t1 : Tables) × (((row.fingerprint /= batch.fingerprint) ≡ false) × (t1 ≡ t))
            × ((rows : List OpRow) × (t2 : Tables) × Loaded batch t1 rows t2
                × (Unit {0}
                    × (t3 : Tables) × ((not (all is_completed rows) ≡ false) × (t3 ≡ t2))
                    × ((u : Unit {0}) × (t4 : Tables) × ((decode_all codec limit rows ≡ ok u)
                          × (t4 ≡ t3))
                        × (delete_batch batch.generation batch.fingerprint t4 ≡ some (t', 1)))))
          → RowDelivered (some row) t t'
      collect t t' b (_, t1, (_, p1), (rows, t2, l, (_, t3, (c, p3), (u, t4, (d, p4), e)))) =
          let q : t4 ≡ t = p4 ∙ p3 ∙ l.same ∙ p1 in
          inr (
            rows,
            subst₂ (λ x y. Loaded batch x rows y) p1 (l.same ∙ p1) l,
            not_not _ c,
            d,
            subst (λ x. delete_batch batch.generation batch.fingerprint x ≡ some (t', 1)) q e,
          )

  pub deliver_block-Runs :
      Runs (λ t b t'. Delivered codec limit batch t t') (deliver_block codec limit batch)
  unfolding deliver_block
  deliver_block-Runs = Runs-weaken collect (
      Runs-bind _ _ (Runs-query (λ (t : Tables). find_batch batch.generation t.batches))
        (λ row. deliver_row-Runs row))
    where
      settle :
          (t t' : Tables) (row : Option BatchRow)
          → row ≡ find_batch batch.generation t.batches
          → RowDelivered row t t'
          → Delivered codec limit batch t t'
      settle t t' row e (inl (idle, p)) = gone (sym e ∙ idle) p
      settle t t' row e (inr (rows, l, c, d, x)) = deletes rows l c d x

      collect :
          (t t' : Tables) (b : Unit {0})
          → (row : Option BatchRow) × (t1 : Tables) × ((row ≡ find_batch batch.generation t.batches)
              × (t1 ≡ t))
            × RowDelivered row t1 t'
          → Delivered codec limit batch t t'
      collect t t' b (row, t1, (e, p), s) =
          settle t t' row e (subst (λ x. RowDelivered row x t') p s)
