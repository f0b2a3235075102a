-- ===== src/Grants/Canonical.antt =====
-- The arguments of the methods of team/assistant_human/approval_grants.py, checked.
use shimpz_drivers.Prelude.{
  ℕ, Bool, true, false, ◌&&◌, not, Option, none, some, List, [], ◌∷◌, String, Result, ok, err,
  require, ◌>>=◌, ◌>>◌, if◌then◌else◌, eq_nat, eq_string,
}
use shimpz_drivers.Value.{Value, str, int}
use shimpz_drivers.Prelude.Int.{pos}
use shimpz_drivers.Grants.Grant.{GrantError, batch_invalid, Grant, identity}
use shimpz_drivers.Grants.Rows.{has_row}

-- A Grant that a caller made, whose fields are not checked yet.
pub record RawGrant : Type 0 where
  pub team_id : Value
  pub assistant_id : Value
  pub power_id : Value
  pub image : Value
  pub ordinal : Value

-- `isinstance(item, Grant)` of every item: `none` is any other object
abbrev pub grants_of : List (Option RawGrant) → Option (List RawGrant)
grants_of [] = some []
grants_of (none ∷ items) = none
grants_of (some g ∷ items) =
    let rest = grants_of items in elim rest [ none ↦ none | some gs ↦ some (g ∷ gs) ]

-- `len(set(canonical)) == len(canonical)`
abbrev pub is_distinct : List Grant → Bool
is_distinct [] = true
is_distinct (g ∷ gs) = not (has_row g gs) && is_distinct gs

abbrev pub is_empty : {A : Type 0} → List A → Bool
is_empty [] = true
is_empty (_ ∷ _) = false

abbrev pub released : String
released = "release@sha256:0000000000000000000000000000000000000000000000000000000000000000"

module _ (is_space : ℕ → Bool) where
  abbrev pub each_identity : List RawGrant → Result GrantError (List Grant)
  each_identity [] = ok []
  each_identity (g ∷ gs) = do
    first ← identity is_space g.team_id g.assistant_id g.power_id g.image g.ordinal
    rest ← each_identity gs
    ok (first ∷ rest)

  -- The checks of grant_many before it takes the lock.
  unfoldable pub canonical_of : List (Option RawGrant) → Result GrantError (List Grant)
  canonical_of items = elim (grants_of items) [
    | none ↦ err batch_invalid
    | some raw ↦ if is_empty raw then err batch_invalid else (do
      canonical ← each_identity raw
      require (is_distinct canonical) batch_invalid
      ok canonical)
  ]

  -- The Team of a call that names no grant.
  unfoldable pub team_identity : Value → Result GrantError String
  team_identity team_id = do
    g ← identity is_space team_id (str "assistant") (str "power") (str released) (int (pos 0))
    ok g.team_id

  -- `_identity(*row)` of every row
  abbrev pub reread : List Grant → Result GrantError (List Grant)
  reread [] = ok []
  reread (g ∷ gs) = do
    first ←
        identity is_space (str g.team_id) (str g.assistant_id) (str g.power_id) (str g.image)
          (int (pos g.ordinal))
    rest ← reread gs
    ok (first ∷ rest)
