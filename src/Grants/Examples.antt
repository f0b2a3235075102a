-- ===== src/Grants/Examples.antt =====
-- The theorems on grants at concrete inputs.
use shimpz_drivers.Prelude.{
  ℕ, ◌≡◌, refl, Bool, true, false, ◌||◌, none, some, List, [], ◌∷◌, String, ok,
}
use shimpz_drivers.Prelude.Int.{pos}
use shimpz_drivers.Prelude.Text.{is_team_id}
use shimpz_drivers.Value.{str, int}
use shimpz_drivers.Sql.{
  continue, ◌>>=◌, query, execute, transact, faulty, tables, store, begin_immediate, after_begin,
  handle, commit_or, commit, relabel, rollback,
}
use shimpz_drivers.Grants.Grant.{Grant, same_grant, identity}
use shimpz_drivers.Grants.Rows.{
  has_row, count_missing, insert_all, grant_block, of_team, of_assistant,
}
use shimpz_drivers.Grants.Canonical.{RawGrant, released, canonical_of, team_identity}
use shimpz_drivers.Grants.Store.{
  Store, guarded, grant_many, is_granted, revoke_team, revoke_assistant, revoke_all,
}
use shimpz_drivers.Grants.Effects.{Granting, grant_many-Granting}
use shimpz_drivers.Grants.Revoking.{Revoked, revoke-Revoked, is_granted-grant_many}

abbrev is_space : ℕ → Bool
is_space c = false

abbrev image : String
image = "mail@sha256:0123456789abcdef0123456789abcdef0123456789abcdef0123456789abcdef"

abbrev send : Grant
send = record {
  team_id = "team";
  assistant_id = "mail";
  power_id = "send";
  image = image;
  ordinal = 3;
}

abbrev raw_send : RawGrant
raw_send = record {
  team_id = str "team";
  assistant_id = str "mail";
  power_id = str "send";
  image = str image;
  ordinal = int (pos 3);
}

abbrev with_rows : List Grant → Store
with_rows rows = record {
  max_grants = 2;
  is_closed = false;
  connection = record { durable = rows; working = none; changes = 0; faults = [] };
}

abbrev after_send : Store
after_send = record (with_rows (send ∷ [])) {
  connection = record { durable = send ∷ []; working = none; changes = 1; faults = [] };
}

checked :
    identity is_space (str "team") (str "mail") (str "send") (str image) (int (pos 3)) ≡ ok send
unfolding identity is_team_id
checked = refl

checked_all : canonical_of is_space (some raw_send ∷ []) ≡ ok (send ∷ [])
unfolding canonical_of identity is_team_id has_row
checked_all = refl

granted_send : grant_many is_space (some raw_send ∷ []) (with_rows []) ≡ (ok tt, after_send)
unfolding grant_many canonical_of identity is_team_id has_row guarded transact after_begin
    begin_immediate faulty grant_block count_missing insert_all query execute tables store continue
    ◌>>=◌ commit_or commit relabel handle rollback same_grant
granted_send = refl

grant_many-Granting_example :
    Granting is_space
      (some raw_send ∷ [])
      (with_rows [])
      (grant_many is_space (some raw_send ∷ []) (with_rows []))
grant_many-Granting_example = grant_many-Granting is_space (some raw_send ∷ []) (with_rows [])

is_granted-grant_many_example :
    (is_granted is_space
      (str "team")
      (str "mail")
      (str "send")
      (str image)
      (int (pos 3))
      after_send).0
    ≡ ok (has_row send [] || has_row send (send ∷ []))
is_granted-grant_many_example =
    is_granted-grant_many is_space (some raw_send ∷ []) (with_rows []) after_send (str "team")
      (str "mail") (str "send") (str image) (int (pos 3)) send (send ∷ []) granted_send checked_all
      checked refl

revoke-Revoked_example :
    ((team : String)
      → team_identity is_space (str "team") ≡ ok team
      → Revoked (of_team team) after_send (revoke_team is_space (str "team") after_send))
    × ((g : Grant)
        → identity is_space (str "team") (str "mail") (str "power") (str released) (int (pos 0))
          ≡ ok g
        → Revoked
            (of_assistant g.team_id g.assistant_id)
            after_send
            (revoke_assistant is_space (str "team") (str "mail") after_send))
    × Revoked (λ g. true) after_send (revoke_all after_send)
revoke-Revoked_example = revoke-Revoked is_space (str "team") (str "mail") after_send refl
