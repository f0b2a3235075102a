-- ===== src/Grants/Revoking.antt =====
-- What the revocations of team/assistant_human/approval_grants.py make durable, and what `is_granted`
-- returns.
use shimpz_drivers.Prelude.{
  ℕ, ◌≡◌, ◌⊎◌, refl, ap, ◌∙◌, subst, arith, Bool, true, false, ◌&&◌, ◌||◌, not, Option, none, List,
  [], ◌∷◌, String, Result, ok, err, eq_nat, eq_string, length, select, Bool-cases, inl, inr,
}
use shimpz_drivers.Value.{Value, str, int}
use shimpz_drivers.Prelude.Int.{pos}
use shimpz_drivers.Sql.{
  Connection, sqlite_error, continue, ◌>>=◌, query, execute, faulty, tables, store,
}
use shimpz_drivers.Sql.Durable.{faulty-Advanced}
use shimpz_drivers.Grants.Grant.{GrantError, not_revoked, unreadable, Grant, same_grant, identity}
use shimpz_drivers.Grants.Rows.{has_row, alone, delete, delete_rows, of_team, of_assistant}
use shimpz_drivers.Grants.Canonical.{RawGrant, canonical_of, released, team_identity}
use shimpz_drivers.Grants.Store.{
  Store, guarded, grant_many, is_granted, revoke_assistant, revoke_team, revoke_all,
}
use shimpz_drivers.Grants.Effects.{
  same_grant_iff, guarded_closed, guarded_open, Granting, grant_many-Granting,
}

ok_eq : {A : Type 0} {r : Result GrantError A} {a b : A} → r ≡ ok a → r ≡ ok b → a ≡ b
ok_eq p q = ground (arith, p, q)

has_row-select :
    (test : Grant → Bool) (g : Grant) (rows : List Grant)
    → has_row g (select (λ r. not (test r)) rows) ≡ (has_row g rows && not (test g))
unfolding has_row
has_row-select test g [] = refl
has_row-select test g (r ∷ rows) = elim (Bool-cases (same_grant r g)) [
  | inl e ↦
      let same : test r ≡ test g = ap test ((same_grant_iff r g).0 e) in
      ground (arith, has_row-select test g rows, e, same)
  | inr e ↦ ground (arith, has_row-select test g rows, e)
]

-- A statement that deletes outside a transaction fails and changes nothing, or deletes the rows.
Deleted : (Grant → Bool) → List Grant → Result GrantError ℕ × Connection (List Grant) → Type 0
Deleted test rows (ok n, c) = c.durable ≡ select (λ r. not (test r)) rows
Deleted test rows (err e, c) = c.durable ≡ rows

kept_rows : (Grant → Bool) → Connection (List Grant) → Connection (List Grant)
kept_rows test c = record (faulty c).1 {
  durable = select (λ r. not (test r)) c.durable;
  changes = length (select test c.durable);
}

execute_delete :
    (test : Grant → Bool) (c : Connection (List Grant))
    → c.working ≡ none
    → (execute {E = GrantError} (delete test) c ≡ (err sqlite_error, (faulty c).1))
      ⊎ (execute {E = GrantError} (delete test) c ≡ (ok tt, kept_rows test c))
unfolding execute kept_rows
execute_delete test c h =
    let s = faulty-Advanced c in
    let seen : tables (faulty c).1 ≡ c.durable = unfold tables in ground (arith, s, h) in
    let idle : (faulty c).1.working ≡ none = s.working ∙ h in
    elim (Bool-cases (faulty c).0) [
      | inl e ↦ inl (rw (e, execute) refl)
      | inr e ↦ inr (rw (e, execute) (rw seen (unfold store in rw idle refl)))
    ]

delete_rows-Deleted :
    (test : Grant → Bool) (c : Connection (List Grant))
    → c.working ≡ none
    → Deleted test c.durable (alone not_revoked (delete_rows test) c)
unfolding Deleted alone delete_rows ◌>>=◌ continue kept_rows
delete_rows-Deleted test c h = elim (execute_delete test c h) [
  | inl e ↦ rw e (faulty-Advanced c).durable
  | inr e ↦ rw e refl
]

-- What a revocation leaves: the grants that pass the test are gone and no others, or nothing changed.
pub Revoked : (Grant → Bool) → Store → Result GrantError ℕ × Store → Type 0
Revoked test s (ok n, t) =
    (g : Grant) → has_row g t.connection.durable ≡ (has_row g s.connection.durable && not (test g))
Revoked test s (err e, t) = t.connection.durable ≡ s.connection.durable

Deleted-Revoked :
    (test : Grant → Bool) (s : Store) (r : Result GrantError ℕ × Connection (List Grant))
    → Deleted test s.connection.durable r
    → Revoked test s (r.0, record s { connection = r.1 })
unfolding Deleted Revoked
Deleted-Revoked test s (ok n, c) h =
    λ g. ap (has_row g) h ∙ has_row-select test g s.connection.durable
Deleted-Revoked test s (err e, c) h = h

guarded-Revoked :
    (test : Grant → Bool) (s : Store)
    → s.connection.working ≡ none
    → Revoked test s (guarded s (alone not_revoked (delete_rows test)))
guarded-Revoked test s h = elim (Bool-cases s.is_closed) [
  | inl e ↦ rw (guarded_closed s (alone not_revoked (delete_rows test)) e) (unfold Revoked in refl)
  | inr e ↦ rw (guarded_open s (alone not_revoked (delete_rows test)) e) (
      Deleted-Revoked test s (alone not_revoked (delete_rows test) s.connection)
        (delete_rows-Deleted test s.connection h))
]

-- Outside a transaction, for identifiers that pass the checks, whichever statement fails: if
-- revoke_team returns, then the durable grants of
-- that Team are gone and no others, and if it raises, the durable grants are unchanged; the same holds
-- of revoke_assistant for the grants of its Team and Assistant, and of revoke_all for all.
pub revoke-Revoked :
    (is_space : ℕ → Bool) (team_id assistant_id : Value) (s : Store)
    → s.connection.working ≡ none
    → ((team : String)
        → team_identity is_space team_id ≡ ok team
        → Revoked (of_team team) s (revoke_team is_space team_id s))
      × ((g : Grant)
          → identity is_space team_id assistant_id (str "power") (str released) (int (pos 0)) ≡ ok g
          → Revoked
              (of_assistant g.team_id g.assistant_id)
              s
              (revoke_assistant is_space team_id assistant_id s))
      × Revoked (λ g. true) s (revoke_all s)
unfolding revoke_team revoke_assistant revoke_all
revoke-Revoked is_space team_id assistant_id s h = (
  λ team e. rw (e, revoke_team) (guarded-Revoked (of_team team) s h),
  λ g e. rw (e, revoke_assistant) (guarded-Revoked (of_assistant g.team_id g.assistant_id) s h),
  guarded-Revoked (λ g. true) s h,
)

row_read :
    (row : Grant) (c : Connection (List Grant))
    → c.working ≡ none
    → c.faults ≡ []
    → (alone unreadable (query (has_row row)) c).0 ≡ ok (has_row row c.durable)
unfolding alone query faulty tables
row_read row c i j = ground (arith, i, j)

-- A store that is open, outside a transaction, whose next statement does not fail.
is_granted_lem :
    (is_space : ℕ → Bool) (team assistant power image ordinal : Value) (s : Store) (g : Grant)
    → identity is_space team assistant power image ordinal ≡ ok g
    → s.is_closed ≡ false
    → s.connection.working ≡ none
    → s.connection.faults ≡ []
    → (is_granted is_space team assistant power image ordinal s).0
      ≡ ok (has_row g s.connection.durable)
unfolding is_granted
is_granted_lem is_space team assistant power image ordinal s g p o w f =
    rw (p, is_granted)
      (ap (λ r. r.0) (guarded_open s (alone unreadable (query (has_row g))) o)
        ∙ row_read g s.connection w f)

-- After grant_many returned: is_granted of checked arguments, if its statement does not fail, returns
-- whether their grant was durable before or is one of the batch.
pub is_granted-grant_many :
    (is_space : ℕ → Bool) (items : List (Option RawGrant)) (s t : Store)
    (team assistant power image ordinal : Value) (g : Grant) (canonical : List Grant)
    → grant_many is_space items s ≡ (ok tt, t)
    → canonical_of is_space items ≡ ok canonical
    → identity is_space team assistant power image ordinal ≡ ok g
    → t.connection.faults ≡ []
    → (is_granted is_space team assistant power image ordinal t).0
      ≡ ok (has_row g s.connection.durable || has_row g canonical)
is_granted-grant_many is_space items s t team assistant power image ordinal g canonical h p q f =
    let (same, p', given, idle, ready) =
      subst (Granting is_space items s) h (grant_many-Granting is_space items s) in
    let eq : same ≡ canonical = ok_eq p' p in
    is_granted_lem is_space team assistant power image ordinal t g q ready idle f
    ∙ ap ok (given.rows g ∙ ap (λ l. has_row g s.connection.durable || has_row g l) eq)
