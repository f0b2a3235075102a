-- ===== src/Journal/Tables.antt =====
-- The two tables of team/power_journal.py and its SQL statements. A row of `operations` is deleted
-- with its batch by the foreign key (`ON DELETE CASCADE`, `PRAGMA foreign_keys = ON`); a statement
-- that a constraint of the schema refuses is `none`.
use shimpz_drivers.Prelude.{
  ℕ, suc, Bool, true, false, ◌&&◌, ◌||◌, Option, none, some, List, [], ◌∷◌, ◌++◌, String, leb, ◌==◌,
  eq_string, eq_nat, if◌then◌else◌,
}
use shimpz_drivers.Journal.State.{Operation}

-- The values of the `state` column; `unknown` is any text that the schema's CHECK refuses.
pub data OpState : Type 0 where
  prepared executing completed unknown : OpState

abbrev pub state_eq : OpState → OpState → Bool
state_eq prepared prepared = true
state_eq executing executing = true
state_eq completed completed = true
state_eq unknown unknown = true
state_eq _ _ = false

pub record BatchRow : Type 0 where
  pub generation : String
  pub fingerprint : String
  pub operation_count : ℕ

pub record OpRow : Type 0 where
  pub generation : String
  pub ordinal : ℕ
  pub interrupt_id : String
  pub fingerprint : String
  pub state : OpState
  pub result : Option String

pub record Tables : Type 0 where
  pub batches : List BatchRow
  pub operations : List OpRow

-- SELECT ... FROM batches WHERE generation = ?
unfoldable pub find_batch : String → List BatchRow → Option BatchRow
find_batch g [] = none
find_batch g (b ∷ bs) = if b.generation == g then some b else find_batch g bs

-- The row of the primary key (generation, interrupt_id).
unfoldable pub find_op : String → String → List OpRow → Option OpRow
find_op g i [] = none
find_op g i (r ∷ rs) = if r.generation == g && r.interrupt_id == i then some r else find_op g i rs

unfoldable pub insert_by_ordinal : OpRow → List OpRow → List OpRow
insert_by_ordinal r [] = r ∷ []
insert_by_ordinal r (x ∷ xs) =
    if leb r.ordinal x.ordinal then r ∷ x ∷ xs else x ∷ insert_by_ordinal r xs

unfoldable pub order_by_ordinal : List OpRow → List OpRow
order_by_ordinal [] = []
order_by_ordinal (r ∷ rs) = insert_by_ordinal r (order_by_ordinal rs)

unfoldable pub of_generation : String → List OpRow → List OpRow
of_generation g [] = []
of_generation g (r ∷ rs) =
    let rest = of_generation g rs in if r.generation == g then r ∷ rest else rest

-- SELECT ... FROM operations WHERE generation = ? ORDER BY ordinal
unfoldable pub select_operations : String → Tables → List OpRow
select_operations g t = order_by_ordinal (of_generation g t.operations)

unfoldable pub has_ordinal : String → ℕ → List OpRow → Bool
has_ordinal g n [] = false
has_ordinal g n (r ∷ rs) = (r.generation == g && r.ordinal == n) || has_ordinal g n rs

-- INSERT INTO batches VALUES (?, ?, ?)
unfoldable pub insert_batch : BatchRow → Tables → Option (Tables × ℕ)
insert_batch b t = elim (find_batch b.generation t.batches) [
  | some _ ↦ none
  | none ↦
      if b.operation_count == 0 then none else some (record t { batches = t.batches ++ b ∷ [] }, 1)
]

-- INSERT INTO operations VALUES (?, ?, ?, ?, 'prepared', NULL)
unfoldable pub insert_op : String → ℕ → Operation → Tables → Option Tables
insert_op g n o t = elim (find_op g o.interrupt_id t.operations) [
  | some _ ↦ none
  | none ↦
      if has_ordinal g n t.operations
      then none
      else some (record t {
        operations =
            t.operations
            ++ record {
              generation = g;
              ordinal = n;
              interrupt_id = o.interrupt_id;
              fingerprint = o.fingerprint;
              state = prepared;
              result = none;
            }
              ∷ [];
      })
]

-- The same for each operation of a batch, in order: `executemany` over `enumerate(operations)`.
unfoldable pub insert_ops : String → ℕ → List Operation → Tables → Option (Tables × ℕ)
insert_ops g n [] t = some (t, n)
insert_ops g n (o ∷ os) t = elim (insert_op g n o t) [
  | none ↦ none
  | some t' ↦ insert_ops g (suc n) os t'
]

-- WHERE generation = ? AND interrupt_id = ? AND state = ?
abbrev pub row_matches : String → String → OpState → OpRow → Bool
row_matches g i from r = r.generation == g && r.interrupt_id == i && state_eq r.state from

unfoldable pub count_matching : String → String → OpState → List OpRow → ℕ
count_matching g i from [] = 0
count_matching g i from (r ∷ rs) =
    let n = count_matching g i from rs in if row_matches g i from r then suc n else n

unfoldable pub set_matching :
    String → String → OpState → OpState → (Option String → Option String) → List OpRow → List OpRow
set_matching g i from to column [] = []
set_matching g i from to column (r ∷ rs) =
    (if row_matches g i from r then record r { state = to; result = column r.result } else r)
    ∷ set_matching g i from to column rs

-- UPDATE operations SET state = `to` WHERE ...; `column` says what becomes of the result
unfoldable pub update_op :
    String
    → String
    → OpState
    → OpState
    → (Option String → Option String)
    → Tables
    → Option (Tables × ℕ)
update_op g i from to column t = some (
  record t { operations = set_matching g i from to column t.operations },
  count_matching g i from t.operations,
)

unfoldable pub without_batch : String → List BatchRow → List BatchRow
without_batch g [] = []
without_batch g (b ∷ bs) =
    let rest = without_batch g bs in if b.generation == g then rest else b ∷ rest

unfoldable pub without_ops : String → List OpRow → List OpRow
without_ops g [] = []
without_ops g (r ∷ rs) = let rest = without_ops g rs in if r.generation == g then rest else r ∷ rest

-- DELETE FROM batches WHERE generation = ?
unfoldable pub delete_generation : String → Tables → Option (Tables × ℕ)
delete_generation g t = elim (find_batch g t.batches) [
  | none ↦ some (t, 0)
  | some _ ↦
      some (
        record t { batches = without_batch g t.batches; operations = without_ops g t.operations },
        1,
      )
]

-- DELETE FROM batches WHERE generation = ? AND fingerprint = ?
unfoldable pub delete_batch : String → String → Tables → Option (Tables × ℕ)
unfolding delete_generation
delete_batch g fingerprint t = elim (find_batch g t.batches) [
  | none ↦ some (t, 0)
  | some b ↦ if b.fingerprint == fingerprint then delete_generation g t else some (t, 0)
]
