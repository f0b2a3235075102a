-- ===== src/Grants/Grant.antt =====
-- `Grant` and the checks of `_identity` in team/assistant_human/approval_grants.py. Which characters
-- Python's `\s` matches is a parameter.
use shimpz_drivers.Prelude.{
  ℕ, ◌-◌, Bool, true, false, ◌&&◌, ◌||◌, not, Option, none, some, List, [], ◌∷◌, String, Result, ok,
  err, ◌>>=◌, if◌then◌else◌, ltb, leb, ◌==◌, eq_nat, eq_string, length, all,
}
use shimpz_drivers.Prelude.Int.{is_between, to_ℕ}
use shimpz_drivers.Prelude.Text.{codes, is_lower, is_digit, is_hex, is_team_id}
use shimpz_drivers.Value.{Value, str, int}

-- ApprovalGrantError by what it says.
pub data GrantError : Type 0 where
  team_invalid assistant_invalid power_invalid release_invalid ordinal_invalid : GrantError
  batch_invalid capacity_invalid capacity_reached closed unreadable not_listed not_stored
        not_revoked :
      GrantError

pub record Grant : Type 0 where
  pub team_id : String
  pub assistant_id : String
  pub power_id : String
  pub image : String
  pub ordinal : ℕ

-- dataclass equality, and that of the primary key
unfoldable pub same_grant : Grant → Grant → Bool
same_grant a b =
    a.team_id == b.team_id
    && a.assistant_id == b.assistant_id
    && a.power_id == b.power_id
    && a.image == b.image
    && a.ordinal == b.ordinal

abbrev pub is_alnum : ℕ → Bool
is_alnum c = is_lower c || is_digit c

abbrev pub is_separator : ℕ → Bool
is_separator c = c == b'.' || c == b'_' || c == b'-'

-- `[a-z0-9]*(?:[._-][a-z0-9]+)*\Z`, or after a separator `[a-z0-9]+(?:[._-][a-z0-9]+)*\Z`
abbrev pub is_tail : Bool → List ℕ → Bool
is_tail after_separator [] = not after_separator
is_tail after_separator (c ∷ cs) =
    (is_alnum c && is_tail false cs) || (is_separator c && not after_separator && is_tail true cs)

-- _COMPONENT_ID
abbrev pub is_component : List ℕ → Bool
is_component [] = false
is_component (c ∷ cs) = is_lower c && is_tail false cs

-- `@sha256:[0-9a-f]{64}\Z`
abbrev pub follows : List ℕ → List ℕ → Option (List ℕ)
follows [] text = some text
follows (c ∷ cs) [] = none
follows (c ∷ cs) (d ∷ ds) = if c == d then follows cs ds else none

abbrev pub is_digest : List ℕ → Bool
is_digest text = elim (follows (codes "@sha256:") text) [
  | none ↦ false
  | some rest ↦ length rest == 64 && all is_hex rest
]

module _ (is_space : ℕ → Bool) where
  abbrev pub is_image_char : ℕ → Bool
  is_image_char c = not (is_space c) && leb 32 c && not (c == 127)

  -- `[^\s\x00-\x1f\x7f]{n,512}@sha256:...` after 512 - left characters; `some_read` is whether one is
  -- read.
  abbrev pub is_image_rest : ℕ → Bool → List ℕ → Bool
  is_image_rest left some_read [] = false
  is_image_rest left some_read (c ∷ cs) =
      (some_read && is_digest (c ∷ cs))
      || (ltb 0 left && is_image_char c && is_image_rest (left - 1) true cs)

  -- _IMAGE
  abbrev pub is_image : List ℕ → Bool
  is_image cs = is_image_rest 512 false cs

  abbrev pub text_if : (List ℕ → Bool) → GrantError → Value → Result GrantError String
  text_if test e (str s) = if test (codes s) then ok s else err e
  text_if test e _ = err e

  abbrev pub team_of : Value → Result GrantError String
  team_of (str s) = if is_team_id s then ok s else err team_invalid
  team_of _ = err team_invalid

  abbrev pub ordinal_of : Value → Result GrantError ℕ
  ordinal_of (int z) = if is_between 0 63 z then ok (to_ℕ z) else err ordinal_invalid
  ordinal_of _ = err ordinal_invalid

  -- _identity
  unfoldable pub identity : Value → Value → Value → Value → Value → Result GrantError Grant
  identity team_id assistant_id power_id image ordinal = do
    team ← team_of team_id
    assistant ← text_if (λ cs. leb (length cs) 80 && is_component cs) assistant_invalid assistant_id
    power ← text_if (λ cs. leb (length cs) 80 && is_component cs) power_invalid power_id
    release ← text_if is_image release_invalid image
    number ← ordinal_of ordinal
    ok (record {
      team_id = team;
      assistant_id = assistant;
      power_id = power;
      image = release;
      ordinal = number;
    })
