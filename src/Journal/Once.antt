-- ===== src/Journal/Once.antt =====
-- The side effect of an operation of team/power_journal.py is started at most once.
use shimpz_drivers.Prelude.{
  ℕ, ◌≡◌, ◌≢◌, refl, sym, subst, subst₂, ap, arith, true, false, none, List, [], ◌∷◌, String,
  Result, ok, err, eq_string, eq_nat,
}
use shimpz_drivers.Journal.State.{JournalError, Codec, Operation, Batch, Execution}
use shimpz_drivers.Journal.Tables.{prepared, executing, OpRow, Tables, find_op, count_matching}
use shimpz_drivers.Journal.Loading.{Journal}
use shimpz_drivers.Journal.Store.{begin}
use shimpz_drivers.Journal.Blocks.{Begun, starts, replays}
use shimpz_drivers.Journal.Effects.{Effect, begin-Effect}
use shimpz_drivers.Journal.Rows.{Armed, count-set_self, find_op-set}
use shimpz_drivers.Journal.History.{Call, run, AllRetain}
use shimpz_drivers.Journal.Kept.{run-Armed}

-- `begin` reads its effect off an equation.
begin-ok :
    (codec : Codec) (batch : Batch) (o : Operation) (j : Journal) (x : Execution)
    (p : Result JournalError Execution × Journal)
    → Effect (Begun codec j.max_result_bytes batch o) j p
    → p.0 ≡ ok x
    → Begun codec j.max_result_bytes batch o j.connection.durable x p.1.connection.durable
begin-ok codec batch o j x (ok y, j') e h =
    subst (λ z. Begun codec j.max_result_bytes batch o j.connection.durable z j'.connection.durable)
      (ground arith) e
begin-ok codec batch o j x (err y, j') e h = absurd (ground arith)

find_op-counted :
    (g i : String) (rs : List OpRow) → count_matching g i prepared rs ≢ 0 → find_op g i rs ≢ none
unfolding count_matching find_op
find_op-counted g i [] h e = absurd (h refl)
find_op-counted g i (r ∷ rs) h e = ground (arith, find_op-counted g i rs)

-- The journal that started the operation has armed it.
started-Armed :
    (codec : Codec) (limit : ℕ) (batch : Batch) (o : Operation) (x : Execution) (t t' : Tables)
    → Begun codec limit batch o t x t'
    → x.execute ≡ true
    → Armed batch.generation o.interrupt_id t'
started-Armed codec limit batch o x t t' (starts e m) h = rw m.after (record {
  none_prepared =
      count-set_self batch.generation o.interrupt_id executing (λ r. r) t.operations refl;
  recorded =
      find_op-set batch.generation o.interrupt_id batch.generation o.interrupt_id prepared executing
        (λ r. r) t.operations
        (find_op-counted batch.generation o.interrupt_id t.operations (λ z. omega (arith, m.once)));
})
started-Armed codec limit batch o x t t' (replays r v f e s d) h = absurd (ground (arith, e, h))

-- `begin` does not start an armed operation.
Armed-not_started :
    (codec : Codec) (limit : ℕ) (batch : Batch) (o : Operation) (x : Execution) (t t' : Tables)
    → Begun codec limit batch o t x t'
    → Armed batch.generation o.interrupt_id t
    → x.execute ≡ false
Armed-not_started codec limit batch o x t t' (starts e m) a =
    absurd (omega (arith, m.once, a.none_prepared))
Armed-not_started codec limit batch o x t t' (replays r v f e s d) a =
    ap (λ (y : Execution). y.execute) e

-- At most once: after `begin` has told the caller to execute an operation, no later `begin` of the
-- operation of that generation and interrupt says so, whatever was called in between and whichever
-- statements of SQLite failed, as long as the operation is not suspended and its generation neither
-- delivered nor purged.
pub begin-once :
    (codec : Codec) (batch other : Batch) (o p : Operation) (j : Journal) {x y : Execution}
    (cs : List Call)
    → (begin codec batch o j).0 ≡ ok x
    → x.execute ≡ true
    → AllRetain batch.generation o.interrupt_id cs
    → other.generation ≡ batch.generation
    → p.interrupt_id ≡ o.interrupt_id
    → (begin codec other p (run codec cs (begin codec batch o j).1)).0 ≡ ok y
    → y.execute ≡ false
begin-once codec batch other o p j {x} {y} cs h started r eg ei k =
    let j' = run codec cs (begin codec batch o j).1 in
    let first =
      begin-ok codec batch o j x (begin codec batch o j) (begin-Effect codec batch o j) h in
    let armed =
      run-Armed batch.generation o.interrupt_id codec cs (begin codec batch o j).1 r
        (started-Armed codec j.max_result_bytes batch o x j.connection.durable _ first started) in
    let second =
      begin-ok codec other p j' y (begin codec other p j') (begin-Effect codec other p j') k in
    Armed-not_started codec j'.max_result_bytes other p y j'.connection.durable _ second
      (subst₂ (λ g i. Armed g i j'.connection.durable) (sym eg) (sym ei) armed)
