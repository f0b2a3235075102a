-- ===== src/Journal/Steps.antt =====
-- What each transaction of team/power_journal.py does to the tables when it returns.
use shimpz_drivers.Prelude.{
  ℕ, ◌≡◌, refl, sym, subst, arith, Bool, false, not, Option, none, some, String, ok, eq_string,
  eq_nat, inl, inr, ◌⊎◌, str_iff,
}
use shimpz_drivers.Value.{Value}
use shimpz_drivers.Sql.{reject, ◌>>◌}
use shimpz_drivers.Sql.Durable.{Runs, Runs-pure, Runs-raise, Runs-reject, Runs-bind, Runs-weaken}
use shimpz_drivers.Journal.State.{JournalError, conflict, Codec, Operation, Batch, Execution}
use shimpz_drivers.Journal.Json.{decode_result}
use shimpz_drivers.Journal.Tables.{OpState, prepared, executing, completed, unknown, OpRow, Tables}
use shimpz_drivers.Journal.Loading.{is_some, holds, move_operation}
use shimpz_drivers.Journal.Store.{
  begin_block, complete_state, complete_block, suspend_state, suspend_block,
}
use shimpz_drivers.Journal.Blocks.{
  Moved, Found, Begun, starts, replays, StartsState, load_operation-Runs, move_operation-Runs,
  begin_state-Runs,
}

pub begin_block-Runs :
    (codec : Codec) (limit : ℕ) (batch : Batch) (o : Operation)
    → Runs (Begun codec limit batch o) (begin_block codec limit batch o)
unfolding begin_block
begin_block-Runs codec limit batch o = Runs-weaken collect (
    Runs-bind _ _ (load_operation-Runs batch o)
      (λ r. begin_state-Runs codec limit batch o r.state r.result))
  where
    finish :
        (t t1 t' : Tables) (r : OpRow) (x : Execution)
        → Found batch o t r t1
        → StartsState codec limit batch o t1 x t'
          ⊎ ((v : Value) × (r.state ≡ completed)
              × (x ≡ record { execute = false; result = some v })
              × (decode_result codec limit r.result ≡ ok v)
              × (t' ≡ t1))
        → Begun codec limit batch o t x t'
    finish t t1 t' r x f (inl (e, m)) = starts e (
        subst (λ y. Moved batch.generation o.interrupt_id prepared executing (λ c. c) y t')
          f.loaded.same m)
    finish t t1 t' r x f (inr (v, s, e, d, q)) =
        replays r v (subst (Found batch o t r) (sym q) f) e s d

    collect :
        (t t' : Tables) (x : Execution)
        → (r : OpRow) × (t1 : Tables) × Found batch o t r t1
          × (StartsState codec limit batch o t1 x t'
              ⊎ ((v : Value) × (r.state ≡ completed)
                  × (x ≡ record { execute = false; result = some v })
                  × (decode_result codec limit r.result ≡ ok v)
                  × (t' ≡ t1)))
        → Begun codec limit batch o t x t'
    collect t t' x (r, t1, f, s) = finish t t1 t' r x f s

-- A block of a state that checks and then moves the operation.
checked_move-Runs :
    (batch : Batch) (o : Operation) (from to : OpState) (column : Option String → Option String)
    (test : Bool) (e : JournalError)
    → Runs
        (λ t b t'. (test ≡ false) × Moved batch.generation o.interrupt_id from to column t t')
        (do reject test e; move_operation batch o from to column)
checked_move-Runs batch o from to column test e =
    Runs-weaken collect
      (Runs-bind _ _ (Runs-reject test e) (λ _. move_operation-Runs batch o from to column))
  where
    collect :
        (t t' : Tables) (b : Unit {0})
        → Unit {0}
          × (t1 : Tables) × ((test ≡ false) × (t1 ≡ t))
          × Moved batch.generation o.interrupt_id from to column t1 t'
        → (test ≡ false) × Moved batch.generation o.interrupt_id from to column t t'
    collect t t' b (_, t1, (h, p), m) =
        (h, subst (λ y. Moved batch.generation o.interrupt_id from to column y t') p m)

-- How `complete` can return.
pub data Completed (batch : Batch) (o : Operation) (encoded : String) (t t' : Tables) : Type 0 where
  records :
      Moved batch.generation o.interrupt_id executing completed (λ _. some encoded) t t'
      → Completed batch o encoded t t'
  confirms :
      (r : OpRow)
      → Found batch o t r t'
      → r.state ≡ completed
      → r.result ≡ some encoded
      → Completed batch o encoded t t'

complete_state-Runs :
    (batch : Batch) (o : Operation) (encoded : String) (state : OpState) (existing : Option String)
    → Runs
        (λ t b t'.
          Moved batch.generation o.interrupt_id executing completed (λ _. some encoded) t t'
          ⊎ ((state ≡ completed) × (existing ≡ some encoded) × (t' ≡ t)))
        (complete_state batch o encoded state existing)
unfolding complete_state
complete_state-Runs batch o encoded completed existing =
    Runs-weaken collect (Runs-reject (not (holds existing encoded)) conflict)
  where
    collect :
        (t t' : Tables) (b : Unit {0})
        → (not (holds existing encoded) ≡ false) × (t' ≡ t)
        → Moved batch.generation o.interrupt_id executing completed (λ _. some encoded) t t'
          ⊎ ((completed ≡ completed) × (existing ≡ some encoded) × (t' ≡ t))
    collect t t' b (h, p) = inr (refl, same existing h, p)
      where
        same : (raw : Option String) → not (holds raw encoded) ≡ false → raw ≡ some encoded
        same none q = absurd (ground arith)
        same (some raw) q = ground (arith, str_iff raw encoded)
complete_state-Runs batch o encoded executing existing =
    Runs-weaken (λ t t' b h. inl h.1)
      (checked_move-Runs batch o executing completed (λ _. some encoded) (is_some existing)
        conflict)
complete_state-Runs batch o encoded prepared existing =
    Runs-weaken (λ t t' b h. absurd h) (Runs-raise conflict)
complete_state-Runs batch o encoded unknown existing =
    Runs-weaken (λ t t' b h. absurd h) (Runs-raise conflict)

pub complete_block-Runs :
    (batch : Batch) (o : Operation) (encoded : String)
    → Runs (λ t b t'. Completed batch o encoded t t') (complete_block batch o encoded)
unfolding complete_block
complete_block-Runs batch o encoded = Runs-weaken collect (
    Runs-bind _ _ (load_operation-Runs batch o)
      (λ r. complete_state-Runs batch o encoded r.state r.result))
  where
    collect :
        (t t' : Tables) (b : Unit {0})
        → (r : OpRow) × (t1 : Tables) × Found batch o t r t1
          × (Moved batch.generation o.interrupt_id executing completed (λ _. some encoded) t1 t'
              ⊎ ((r.state ≡ completed) × (r.result ≡ some encoded) × (t' ≡ t1)))
        → Completed batch o encoded t t'
    collect t t' b (r, t1, f, inl m) = records (
        subst
          (λ y. Moved batch.generation o.interrupt_id executing completed (λ _. some encoded) y t')
          f.loaded.same m)
    collect t t' b (r, t1, f, inr (s, e, p)) = confirms r (subst (Found batch o t r) (sym p) f) s e

-- How `suspend` can return.
abbrev pub Suspended : Batch → Operation → Tables → Tables → Type 0
Suspended batch o t t' =
    Moved batch.generation o.interrupt_id executing prepared (λ r. r) t t' ⊎ (t' ≡ t)

suspend_state-Runs :
    (batch : Batch) (o : Operation) (state : OpState) (existing : Option String)
    → Runs (λ t b t'. Suspended batch o t t') (suspend_state batch o state existing)
unfolding suspend_state
suspend_state-Runs batch o prepared none = Runs-weaken (λ t t' b h. inr h.1) (Runs-pure tt)
suspend_state-Runs batch o prepared (some raw) =
    Runs-weaken (λ t t' b h. absurd h) (Runs-raise conflict)
suspend_state-Runs batch o executing existing =
    Runs-weaken (λ t t' b h. inl h.1)
      (checked_move-Runs batch o executing prepared (λ r. r) (is_some existing) conflict)
suspend_state-Runs batch o completed existing =
    Runs-weaken (λ t t' b h. absurd h) (Runs-raise conflict)
suspend_state-Runs batch o unknown existing =
    Runs-weaken (λ t t' b h. absurd h) (Runs-raise conflict)

pub suspend_block-Runs :
    (batch : Batch) (o : Operation)
    → Runs (λ t b t'. Suspended batch o t t') (suspend_block batch o)
unfolding suspend_block
suspend_block-Runs batch o =
    Runs-weaken collect (
      Runs-bind _ _ (load_operation-Runs batch o)
        (λ r. suspend_state-Runs batch o r.state r.result))
  where
    collect :
        (t t' : Tables) (b : Unit {0})
        → (r : OpRow) × (t1 : Tables) × Found batch o t r t1 × Suspended batch o t1 t'
        → Suspended batch o t t'
    collect t t' b (r, t1, f, s) = subst (λ y. Suspended batch o y t') f.loaded.same s
