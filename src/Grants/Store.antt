-- ===== src/Grants/Store.antt =====
-- `ApprovalGrantStore` of team/assistant_human/approval_grants.py, over the SQLite of `Sql`; the lock
-- makes each method one step.
use shimpz_drivers.Prelude.{
  ℕ, Bool, true, false, ◌&&◌, Option, List, Result, ok, err, require, ◌>>◌, if◌then◌else◌, leb,
  eq_nat, eq_string, select,
}
use shimpz_drivers.Value.{Value, str, int}
use shimpz_drivers.Prelude.Int.{pos}
use shimpz_drivers.Sql.{Connection, query, transact}
use shimpz_drivers.Grants.Grant.{
  GrantError, capacity_invalid, closed, unreadable, not_listed, not_stored, not_revoked, Grant,
  identity,
}
use shimpz_drivers.Grants.Rows.{
  has_row, translate, alone, grant_block, delete_rows, sorted, of_team, of_assistant,
}
use shimpz_drivers.Grants.Canonical.{RawGrant, released, canonical_of, team_identity, reread}

pub record Store : Type 0 where
  pub max_grants : ℕ
  pub is_closed : Bool
  pub connection : Connection (List Grant)

abbrev pub Outcome : Type 0 → Type 0
Outcome A = Result GrantError A × Store

-- __init__, over a connection that is open
unfoldable pub new_store : ℕ → Connection (List Grant) → Result GrantError Store
new_store max_grants connection = do
  require (leb 1 max_grants && leb max_grants 65536) capacity_invalid
  ok (record { max_grants = max_grants; is_closed = false; connection = connection })

-- `self._ensure_open()`, then statements
unfoldable pub guarded :
    {A : Type 0}
    → Store
    → (Connection (List Grant) → Result GrantError A × Connection (List Grant))
    → Outcome A
guarded s block =
    if s.is_closed
    then (err closed, s)
    else let (r, c) = block s.connection in (r, record s { connection = c })

module _ (is_space : ℕ → Bool) where
  unfoldable pub grant_many : List (Option RawGrant) → Store → Outcome (Unit {0})
  grant_many items s = elim (canonical_of is_space items) [
    | err e ↦ (err e, s)
    | ok canonical ↦
        guarded s (transact not_stored (translate not_stored) (grant_block s.max_grants canonical))
  ]

  unfoldable pub is_granted : Value → Value → Value → Value → Value → Store → Outcome Bool
  is_granted team_id assistant_id power_id image ordinal s =
      elim (identity is_space team_id assistant_id power_id image ordinal) [
        | err e ↦ (err e, s)
        | ok g ↦ guarded s (alone unreadable (query (has_row g)))
      ]

  abbrev pub listed : Outcome (List Grant) → Outcome (List Grant)
  listed (err e, s) = (err e, s)
  listed (ok rows, s) = (reread is_space rows, s)

  unfoldable pub list_team : Value → Store → Outcome (List Grant)
  list_team team_id s = elim (team_identity is_space team_id) [
    | err e ↦ (err e, s)
    | ok team ↦
        listed (guarded s (alone not_listed (query (λ rows. sorted (select (of_team team) rows)))))
  ]

  unfoldable pub revoke_assistant : Value → Value → Store → Outcome ℕ
  revoke_assistant team_id assistant_id s =
      elim (identity is_space team_id assistant_id (str "power") (str released) (int (pos 0))) [
        | err e ↦ (err e, s)
        | ok g ↦ guarded s (alone not_revoked (delete_rows (of_assistant g.team_id g.assistant_id)))
      ]

  unfoldable pub revoke_team : Value → Store → Outcome ℕ
  revoke_team team_id s = elim (team_identity is_space team_id) [
    | err e ↦ (err e, s)
    | ok team ↦ guarded s (alone not_revoked (delete_rows (of_team team)))
  ]

unfoldable pub revoke_all : Store → Outcome ℕ
revoke_all s = guarded s (alone not_revoked (delete_rows (λ g. true)))

-- close
unfoldable pub close : Store → Store
close s = record s { is_closed = true }
