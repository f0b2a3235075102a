-- ===== src/Grants/Rows.antt =====
-- The statements of team/assistant_human/approval_grants.py on the table `grants`, a list of rows.
use shimpz_drivers.Prelude.{
  ℕ, ◌+◌, Bool, true, false, ◌&&◌, ◌||◌, not, Option, some, List, [], ◌∷◌, ◌++◌, String, Result, ok,
  err, if◌then◌else◌, ltb, ◌==◌, eq_nat, eq_string, length, select,
}
use shimpz_drivers.Prelude.Text.{codes}
use shimpz_drivers.Sql.{Connection, Raised, raised, Sql, pure, reject, ◌>>=◌, ◌>>◌, query, execute}
use shimpz_drivers.Grants.Grant.{GrantError, capacity_reached, Grant, same_grant}

abbrev pub Statements : Type 0 → Type 0
Statements A = Sql (List Grant) GrantError A

-- SELECT 1 ... WHERE the five columns are those of a grant
unfoldable pub has_row : Grant → List Grant → Bool
has_row g [] = false
has_row g (row ∷ rows) = same_grant row g || has_row g rows

-- `except sqlite3.Error: raise ApprovalGrantError`; an ApprovalGrantError passes
abbrev pub translate : GrantError → Raised GrantError → GrantError
translate e (raised d) = d
translate e _ = e

-- A statement outside a transaction, and the error that stands for sqlite3.Error.
unfoldable pub alone :
    {A : Type 0}
    → GrantError
    → Statements A
    → Connection (List Grant)
    → Result GrantError A × Connection (List Grant)
alone e m c = let (r, d) = m c in (elim r [ ok a ↦ ok a | err x ↦ err (translate e x) ], d)

-- How many of the grants have no row: one SELECT for each.
unfoldable pub count_missing : List Grant → Statements ℕ
count_missing [] = pure 0
count_missing (g ∷ gs) = do
  present ← query (has_row g)
  more ← count_missing gs
  pure ((if present then 0 else 1) + more)

-- INSERT OR IGNORE INTO grants
abbrev pub insert : Grant → List Grant → Option (List Grant × ℕ)
insert g rows = if has_row g rows then some (rows, 0) else some (rows ++ (g ∷ []), 1)

-- executemany
unfoldable pub insert_all : List Grant → Statements (Unit {0})
insert_all [] = pure tt
insert_all (g ∷ gs) = do execute (insert g); insert_all gs

-- The statements of grant_many between BEGIN IMMEDIATE and COMMIT.
unfoldable pub grant_block : ℕ → List Grant → Statements (Unit {0})
grant_block max_grants canonical = do
  current ← query length
  missing ← count_missing canonical
  reject (ltb max_grants (current + missing)) capacity_reached
  insert_all canonical

-- DELETE FROM grants WHERE the row passes a test; the count is `cursor.rowcount`
abbrev pub delete : (Grant → Bool) → List Grant → Option (List Grant × ℕ)
delete test rows = some (select (λ g. not (test g)) rows, length (select test rows))

unfoldable pub delete_rows : (Grant → Bool) → Statements ℕ
delete_rows test = do execute (delete test); λ c. (ok c.changes, c)

pub data Ordering : Type 0 where
  same before past : Ordering

-- ORDER BY assistant_id, power_id, image, ordinal: texts by their code points
abbrev pub text_order : List ℕ → List ℕ → Ordering
text_order [] [] = same
text_order [] (d ∷ ds) = before
text_order (c ∷ cs) [] = past
text_order (c ∷ cs) (d ∷ ds) =
    if ltb c d then before else if ltb d c then past else text_order cs ds

abbrev pub either : Ordering → Ordering → Ordering
either same o = o
either before o = before
either past o = past

abbrev pub is_past : Ordering → Bool
is_past past = true
is_past _ = false

unfoldable pub comes_after : Grant → Grant → Bool
comes_after a b = is_past (
    either (text_order (codes a.assistant_id) (codes b.assistant_id)) (
      either (text_order (codes a.power_id) (codes b.power_id)) (
        either (text_order (codes a.image) (codes b.image))
          (text_order (a.ordinal ∷ []) (b.ordinal ∷ [])))))

unfoldable pub insert_sorted : Grant → List Grant → List Grant
insert_sorted g [] = g ∷ []
insert_sorted g (row ∷ rows) =
    if comes_after g row then row ∷ insert_sorted g rows else g ∷ row ∷ rows

unfoldable pub sorted : List Grant → List Grant
sorted [] = []
sorted (g ∷ gs) = insert_sorted g (sorted gs)

abbrev pub of_team : String → Grant → Bool
of_team team g = g.team_id == team

abbrev pub of_assistant : String → String → Grant → Bool
of_assistant team assistant g = g.team_id == team && g.assistant_id == assistant
