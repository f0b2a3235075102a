-- ===== src/Sql.antt =====
-- The SQLite connection that team/power_journal.py and team/assistant_human/approval_grants.py keep,
-- as its documentation describes it: `isolation_level=None`, so a statement outside a transaction
-- commits by itself, and one inside it becomes durable by COMMIT. Which statements fail is an input,
-- `faults`: one entry for each statement that is executed, `true` where it raises `sqlite3.Error`. A
-- COMMIT that fails takes one more: `false` where SQLite keeps the transaction open, as it does when
-- the file is busy, and `true` where it ends the transaction by itself, as after an I/O error. A
-- failing statement before COMMIT leaves the transaction to the ROLLBACK of the handler.
pub mod Durable
pub mod Transaction
use shimpz_drivers.Prelude.{
  ℕ, Bool, true, false, Option, none, some, List, [], ◌∷◌, Result, ok, err, ◌/=◌, eq_nat,
}

pub record Connection (T : Type 0) : Type 0 where
  pub durable : T
  pub working : Option T
  pub changes : ℕ
  pub faults : List Bool

-- What a block of statements raises: `sqlite3.Error`, `StopIteration`, or an error of the caller.
pub data Raised (E : Type 0) : Type 0 where
  sqlite_error stop_iteration : Raised E
  raised : E → Raised E

abbrev pub Sql : Type 0 → Type 0 → Type 0 → Type 0
Sql T E A = Connection T → Result (Raised E) A × Connection T

unfoldable pub relabel : {E A B : Type 0} → E → Result (Raised E) A × B → Result (Raised E) A × B
relabel e (ok a, c) = (ok a, c)
relabel e (err _, c) = (err (raised e), c)

module _ {T : Type 0} where
  -- Takes the next entry of `faults`; statements past its end succeed.
  unfoldable pub faulty : Connection T → Bool × Connection T
  faulty c = elim c.faults [ [] ↦ (false, c) | f ∷ rest ↦ (f, record c { faults = rest }) ]

  -- The tables that a statement sees.
  unfoldable pub tables : Connection T → T
  tables c = elim c.working [ none ↦ c.durable | some t ↦ t ]

  unfoldable pub store : T → Connection T → Connection T
  store t c = elim c.working [
    | none ↦ record c { durable = t }
    | some _ ↦ record c { working = some t }
  ]

  -- `with suppress(sqlite3.Error): ... ROLLBACK`
  unfoldable pub rollback : Connection T → Connection T
  unfolding faulty
  rollback c =
      let (fault, c') = faulty c in elim fault [ true ↦ c' | false ↦ record c' { working = none } ]

  -- What a COMMIT that fails leaves: the transaction stays open, or SQLite has ended it.
  unfoldable pub uncommitted : Connection T → Connection T
  unfolding faulty
  uncommitted c =
      let (itself, c') = faulty c in
      elim itself [ true ↦ record c' { working = none } | false ↦ c' ]

module _ {T E : Type 0} where
  abbrev pub pure : {A : Type 0} → A → Sql T E A
  pure a c = (ok a, c)

  abbrev pub raise : {A : Type 0} → E → Sql T E A
  raise e c = (err (raised e), c)

  unfoldable pub continue :
      {A B : Type 0}
      → Result (Raised E) A × Connection T
      → (A → Sql T E B)
      → Result (Raised E) B × Connection T
  continue (ok a, c) f = f a c
  continue (err e, c) f = (err e, c)

  infixl 5 ◌>>=◌ ◌>>◌
  unfoldable pub ◌>>=◌ : {A B : Type 0} → Sql T E A → (A → Sql T E B) → Sql T E B
  unfolding continue
  ◌>>=◌ m f c = continue (m c) f

  abbrev pub ◌>>◌ : {A B : Type 0} → Sql T E A → Sql T E B → Sql T E B
  m >> k = m >>= λ _. k

  abbrev pub lift : {A : Type 0} → Result E A → Sql T E A
  lift (ok a) c = (ok a, c)
  lift (err e) c = (err (raised e), c)

  -- `next(...)` over an iterator that may be empty
  abbrev pub next : {A : Type 0} → Option A → Sql T E A
  next (some a) c = (ok a, c)
  next none c = (err stop_iteration, c)

  -- `if test: raise e`
  abbrev pub reject : Bool → E → Sql T E (Unit {0})
  reject true e = raise e
  reject false e = pure tt

  -- BEGIN IMMEDIATE
  unfoldable pub begin_immediate : Sql T E (Unit {0})
  unfolding faulty
  begin_immediate c =
      let (fault, c') = faulty c in
      elim fault [
        | true ↦ (err sqlite_error, c')
        | false ↦ elim c'.working [
          | none ↦ (ok tt, record c' { working = some c'.durable })
          | some _ ↦ (err sqlite_error, c')
        ]
      ]

  -- A query.
  unfoldable pub query : {A : Type 0} → (T → A) → Sql T E A
  unfolding faulty tables
  query f c =
      let (fault, c') = faulty c in
      elim fault [ true ↦ (err sqlite_error, c') | false ↦ (ok (f (tables c')), c') ]

  -- A statement that writes: the new tables and the count of changed rows, or `none` where a
  -- constraint fails.
  unfoldable pub execute : (T → Option (T × ℕ)) → Sql T E (Unit {0})
  unfolding faulty tables store
  execute f c =
      let (fault, c') = faulty c in
      elim fault [
        | true ↦ (err sqlite_error, c')
        | false ↦ elim (f (tables c')) [
          | none ↦ (err sqlite_error, c')
          | some (t, n) ↦ (ok tt, store t (record c' { changes = n }))
        ]
      ]

  -- SELECT changes()
  unfoldable pub select_changes : Sql T E ℕ
  unfolding faulty
  select_changes c =
      let (fault, c') = faulty c in
      elim fault [ true ↦ (err sqlite_error, c') | false ↦ (ok c'.changes, c') ]

  -- A statement that must change one row: `if SELECT changes() != 1: raise e`
  unfoldable pub execute_one : (T → Option (T × ℕ)) → E → Sql T E (Unit {0})
  unfolding ◌>>=◌ execute select_changes
  execute_one f e = do execute f; changed ← select_changes; reject (changed /= 1) e

  -- COMMIT
  unfoldable pub commit : Sql T E (Unit {0})
  unfolding faulty uncommitted
  commit c =
      let (fault, c') = faulty c in
      elim fault [
        | true ↦ (err sqlite_error, uncommitted c')
        | false ↦ elim c'.working [
          | none ↦ (err sqlite_error, c')
          | some t ↦ (ok tt, record c' { durable = t; working = none })
        ]
      ]

  -- `self._commit()`: a failing COMMIT is raised as the caller's own error
  unfoldable pub commit_or : E → Sql T E (Unit {0})
  unfolding commit relabel
  commit_or e c = relabel e (commit c)

  -- The handler: ROLLBACK, and a translation of what was raised.
  unfoldable pub handle :
      {A : Type 0} → (Raised E → E) → Result (Raised E) A × Connection T → Result E A × Connection T
  unfolding rollback
  handle translate (ok a, c) = (ok a, c)
  handle translate (err e, c) = (err (translate e), rollback c)

  -- The shape of the transactions of the two stores: BEGIN IMMEDIATE, before the `try`; inside it
  -- the block, which ends in COMMIT on each path that returns; and the handler.
  unfoldable pub after_begin :
      {A : Type 0}
      → E
      → (Raised E → E)
      → Sql T E A
      → Result (Raised E) (Unit {0}) × Connection T
      → Result E A × Connection T
  unfolding handle commit_or ◌>>=◌
  after_begin failed translate body (ok _, c) =
      handle translate ((do a ← body; commit_or failed; pure a) c)
  after_begin failed translate body (err _, c) = (err failed, c)

  unfoldable pub transact :
      {A : Type 0} → E → (Raised E → E) → Sql T E A → Connection T → Result E A × Connection T
  unfolding after_begin begin_immediate
  transact failed translate body c = after_begin failed translate body (begin_immediate c)
