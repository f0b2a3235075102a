-- ===== src/Journal/Delivery.antt =====
-- What `delivered` of team/power_journal.py deletes, and when.
use shimpz_drivers.Prelude.{
  ℕ, all, ◌≡◌, refl, subst, arith, true, none, some, List, [], ◌∷◌, String, Result, ok, err,
  eq_string, eq_nat,
}
use shimpz_drivers.Journal.State.{JournalError, Codec, Batch}
use shimpz_drivers.Journal.Tables.{
  BatchRow, OpRow, Tables, find_batch, select_operations, of_generation, order_by_ordinal,
  without_batch, without_ops, delete_generation, delete_batch,
}
use shimpz_drivers.Journal.Loading.{Journal}
use shimpz_drivers.Journal.Store.{decode_all, is_completed, delivered}
use shimpz_drivers.Journal.Batches.{Delivered, gone, deletes}
use shimpz_drivers.Journal.Effects.{Effect, delivered-Effect}

of_generation-without : (g : String) (rs : List OpRow) → of_generation g (without_ops g rs) ≡ []
unfolding of_generation without_ops
of_generation-without g [] = refl
of_generation-without g (r ∷ rs) = ground (arith, of_generation-without g rs)

find_batch-without : (g : String) (bs : List BatchRow) → find_batch g (without_batch g bs) ≡ none
unfolding find_batch without_batch
find_batch-without g [] = refl
find_batch-without g (b ∷ bs) = ground (arith, find_batch-without g bs)

deleted-gone :
    (g fingerprint : String) (t t' : Tables) {row : BatchRow}
    → find_batch g t.batches ≡ some row
    → delete_batch g fingerprint t ≡ some (t', 1)
    → (find_batch g t'.batches ≡ none) × (select_operations g t' ≡ [])
unfolding delete_batch delete_generation select_operations order_by_ordinal
deleted-gone g fingerprint t t' {row} f h =
    let b : t'.batches ≡ without_batch g t.batches = ground arith in
    let o : t'.operations ≡ without_ops g t.operations = ground arith in
    (rw b (find_batch-without g t.batches), rw o (rw (of_generation-without g t.operations) refl))

-- The delivery of all the operations that `t` records of the batch, which leaves `t'`.
abbrev pub DeliveredAll : Codec → ℕ → Batch → Tables → Tables → Type 0
DeliveredAll codec limit batch t t' =
    (all is_completed (select_operations batch.generation t) ≡ true)
    × (decode_all codec limit (select_operations batch.generation t) ≡ ok tt)
    × (find_batch batch.generation t'.batches ≡ none)
    × (select_operations batch.generation t' ≡ [])

deletes-DeliveredAll :
    (codec : Codec) (limit : ℕ) (batch : Batch) (t t' : Tables) {row : BatchRow}
    → find_batch batch.generation t.batches ≡ some row
    → Delivered codec limit batch t t'
    → DeliveredAll codec limit batch t t'
deletes-DeliveredAll codec limit batch t t' f (gone e p) = absurd (ground (arith, e, f))
deletes-DeliveredAll codec limit batch t t' {row} f (deletes rows l c d e) =
    let (no_batch, no_rows) =
      deleted-gone batch.generation batch.fingerprint t t' {row = row} f e in
    (
      subst (λ rs. all is_completed rs ≡ true) l.rows_of c,
      subst (λ rs. decode_all codec limit rs ≡ ok tt) l.rows_of d,
      no_batch,
      no_rows,
    )

returned-DeliveredAll :
    (codec : Codec) (batch : Batch) (j : Journal) {row : BatchRow}
    (p : Result JournalError (Unit {0}) × Journal)
    → p.0 ≡ ok tt
    → find_batch batch.generation j.connection.durable.batches ≡ some row
    → Effect (λ t x t'. Delivered codec j.max_result_bytes batch t t') j p
    → DeliveredAll codec j.max_result_bytes batch j.connection.durable p.1.connection.durable
returned-DeliveredAll codec batch j {row} (ok _, j') q f s =
    deletes-DeliveredAll codec j.max_result_bytes batch j.connection.durable j'.connection.durable
      {row = row} f s
returned-DeliveredAll codec batch j (err e, j') q f s = absurd (ground (arith, q))

-- If `delivered` returns for a batch whose generation the journal holds, then every recorded
-- operation of the generation was completed with a result that still decodes, and afterwards neither
-- the batch nor any of its operations is left.
pub delivered-completed :
    (codec : Codec) (batch : Batch) (j : Journal) {row : BatchRow}
    → (delivered codec batch j).0 ≡ ok tt
    → find_batch batch.generation j.connection.durable.batches ≡ some row
    → DeliveredAll codec j.max_result_bytes batch j.connection.durable
        (delivered codec batch j).1.connection.durable
delivered-completed codec batch j {row} h f =
    returned-DeliveredAll codec batch j {row = row} (delivered codec batch j) h f
      (delivered-Effect codec batch j)
