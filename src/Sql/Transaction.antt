-- ===== src/Sql/Transaction.antt =====
-- All or nothing: a transaction that returns has committed what its block did to the durable tables,
-- and one that raises, wherever a statement failed, has changed nothing durable.
use shimpz_drivers.Prelude.{
  ◌≡◌, refl, subst, none, some, Result, ok, err, arith, inl, inr, Bool-cases, ◌∙◌, Option-cases,
}
use shimpz_drivers.Sql.{
  Connection, Raised, sqlite_error, Sql, pure, continue, ◌>>=◌, faulty, commit, rollback,
  begin_immediate, commit_or, handle, after_begin, transact, uncommitted,
}
use shimpz_drivers.Sql.Durable.{Ended, Runs, faulty-Advanced}

-- How a transaction over the durable tables `d` can settle.
abbrev pub Settled :
    {T E A : Type 0} → (T → A → T → Type 0) → T → Result E A × Connection T → Type 0
Settled R d (ok a, c) = R d a c.durable × (c.working ≡ none)
Settled R d (err e, c) = c.durable ≡ d

uncommitted-durable : {T : Type 0} (c : Connection T) → (uncommitted c).durable ≡ c.durable
unfolding uncommitted
uncommitted-durable c = ground (arith, faulty-Advanced c)

pub rollback-durable : {T : Type 0} (c : Connection T) → (rollback c).durable ≡ c.durable
unfolding rollback
rollback-durable c = ground (arith, faulty-Advanced c)

abbrev pub Begun : {T E : Type 0} → T → Result (Raised E) (Unit {0}) × Connection T → Type 0
Begun d (ok _, c) = (c.durable ≡ d) × (c.working ≡ some d)
Begun d (err _, c) = c.durable ≡ d

module _ {T : Type 0} (E : Type 0) where
  pub begin_immediate-Begun : (c : Connection T) → Begun c.durable (begin_immediate {E = E} c)
  unfolding begin_immediate
  begin_immediate-Begun c =
      let s = faulty-Advanced c in
      elim (Bool-cases (faulty c).0) [
        | inl e ↦
            let q : begin_immediate {E = E} c ≡ (err sqlite_error, (faulty c).1) = ground arith in
            rw (q, Begun) s.durable
        | inr e ↦ elim (Option-cases c.working) [
          | inl idle ↦
              let q : begin_immediate {E = E} c
                  ≡ (ok tt, record (faulty c).1 { working = some (faulty c).1.durable }) =
                ground (arith, s) in
              rw (q, Begun) (ground (arith, s), ground (arith, s))
          | inr (t, busy) ↦
              let q : begin_immediate {E = E} c ≡ (err sqlite_error, (faulty c).1) =
                ground (arith, s) in
              rw (q, Begun) s.durable
        ]
      ]

module _ {T E A : Type 0} where
  commit-Settled :
      (R : T → A → T → Type 0) (failed : E) (translate : Raised E → E) (a : A) (d t : T)
      (c : Connection T)
      → c.durable ≡ d
      → c.working ≡ some t
      → R d a t
      → Settled R d (handle translate (continue (commit_or failed c) (λ _. pure a)))
  unfolding commit_or commit handle continue
  commit-Settled R failed translate a d t c same at r =
      let s = faulty-Advanced c in
      elim (Bool-cases (faulty c).0) [
        | inl e ↦
            let q : commit_or failed c ≡ (err (Raised.raised failed), uncommitted (faulty c).1) =
              ground arith in
            rw (q, Settled)
              (rollback-durable (uncommitted (faulty c).1)
                ∙ uncommitted-durable (faulty c).1
                ∙ s.durable
                ∙ same)
        | inr e ↦
            let q : commit_or failed c
                ≡ (ok tt, record (faulty c).1 { durable = t; working = none }) =
              ground (arith, s) in
            rw (q, Settled) (r, refl)
      ]

  block-Settled :
      (R : T → A → T → Type 0) (failed : E) (translate : Raised E → E) (d : T)
      (p : Result (Raised E) A × Connection T)
      → Ended (R d) d p
      → Settled R d
          (handle translate (continue p (λ a. commit_or failed >>= λ (_ : Unit {0}). pure a)))
  unfolding handle continue ◌>>=◌
  block-Settled R failed translate d (ok a, c) (same, (t, at, r)) =
      commit-Settled R failed translate a d t c same at r
  block-Settled R failed translate d (err e, c) (same, (t, at)) = rollback-durable c ∙ same

  after_begin-Settled :
      {R : T → A → T → Type 0} (failed : E) (translate : Raised E → E) {body : Sql T E A}
      → Runs R body
      → (d : T) (p : Result (Raised E) (Unit {0}) × Connection T) → Begun d p
      → Settled R d (after_begin failed translate body p)
  unfolding after_begin
  after_begin-Settled {R} failed translate {body} r d (ok _, c) (same, at) =
      block-Settled R failed translate d (body c)
        (subst (λ x. Ended (R d) x (body c)) same (r.at c d at))
  after_begin-Settled {R} failed translate {body} r d (err _, c) same = same

  pub transact-Settled :
      {R : T → A → T → Type 0} (failed : E) (translate : Raised E → E) {body : Sql T E A}
      → Runs R body
      → (c : Connection T) → Settled R c.durable (transact failed translate body c)
  unfolding transact
  transact-Settled failed translate r c =
      after_begin-Settled failed translate r c.durable (begin_immediate c)
        (begin_immediate-Begun E c)

-- How a COMMIT that is raised as `e` can go.
pub data Committed {T E : Type 0} (e : E) (c : Connection T) (t : T) : Type 0 where
  refused :
      (c' : Connection T)
      → commit_or e c ≡ (err (Raised.raised e), c')
      → c'.durable ≡ c.durable
      → Committed e c t
  committed :
      (c' : Connection T)
      → commit_or e c ≡ (ok tt, c')
      → c'.durable ≡ t
      → c'.working ≡ none
      → Committed e c t

pub commit_or-Committed :
    {T E : Type 0} (e : E) (c : Connection T) (t : T) → c.working ≡ some t → Committed e c t
unfolding commit_or commit
commit_or-Committed e c t h =
    let s = faulty-Advanced c in
    elim (Bool-cases (faulty c).0) [
      | inl q ↦
          refused (uncommitted (faulty c).1) (ground arith)
            (uncommitted-durable (faulty c).1 ∙ s.durable)
      | inr q ↦
          committed (record (faulty c).1 { durable = t; working = none }) (ground (arith, s)) refl
            refl
    ]
