-- ===== src/Pkce/Bindings.antt =====
-- What a consent is bound to in team/oauth_pkce_challenges.py: the checks of the identifiers, and the
-- map from bindings to states. SHA-256 is a parameter.
use shimpz_drivers.Prelude.{
  ℕ, Bool, true, false, ◌&&◌, ◌||◌, not, Option, none, some, List, [], ◌∷◌, ◌++◌, String, Result,
  ok, err, ◌>>=◌, if◌then◌else◌, ltb, leb, ◌==◌, eq_nat, eq_string, length, any, all,
}
use shimpz_drivers.Prelude.Text.{codes, is_lower, is_upper, is_digit, matches, is_team_id}
use shimpz_drivers.Value.{Value, str}

-- OAuthChallengeError, apart by its message, and OAuthChallengeNotFoundError.
pub data PkceError : Type 0 where
  session_invalid team_invalid component_invalid not_found : PkceError
  intent_invalid pending_exists capacity_reached session_capacity team_capacity : PkceError
  settings_invalid draws_ended : PkceError

-- A session binding: a text, bytes, or another object.
pub data Session : Type 0 where
  text : String → Session
  bytes : List ℕ → Session
  other : Session

-- `value.encode("ascii")`
abbrev pub encoded : Session → Option (List ℕ)
encoded (text s) = if all (λ c. ltb c 128) (codes s) then some (codes s) else none
encoded (bytes b) = some b
encoded other = none

-- _session_digest; the digest is over b"shimpz-oauth-session-v1\0" and the binding
unfoldable pub session_digest : (List ℕ → String) → Session → Result PkceError String
session_digest sha256 value = elim (encoded value) [
  | none ↦ err session_invalid
  | some b ↦
      if not (leb 16 (length b) && leb (length b) 2048) || any (λ c. leb c 32 || leb 127 c) b
      then err session_invalid
      else ok (sha256 (codes "shimpz-oauth-session-v1" ++ (0 ∷ b)))
]

-- _team_id
unfoldable pub team_of : Value → Result PkceError String
team_of (str s) = if is_team_id s then ok s else err team_invalid
team_of _ = err team_invalid

abbrev pub is_alnum : ℕ → Bool
is_alnum c = is_lower c || is_digit c

-- `[a-z0-9]*(?:-[a-z0-9]+)*\Z`, or after a dash `[a-z0-9]+(?:-[a-z0-9]+)*\Z`
abbrev pub is_tail : Bool → List ℕ → Bool
is_tail after_dash [] = not after_dash
is_tail after_dash (c ∷ cs) =
    (is_alnum c && is_tail false cs) || (c == b'-' && not after_dash && is_tail true cs)

-- _COMPONENT_ID
abbrev pub is_component : List ℕ → Bool
is_component [] = false
is_component (c ∷ cs) = is_lower c && is_tail false cs

-- _component_id
unfoldable pub component_id : Value → Result PkceError String
component_id (str s) =
    if leb (length (codes s)) 64 && is_component (codes s) then ok s else err component_invalid
component_id _ = err component_invalid

-- _state
unfoldable pub state_of : Value → Result PkceError String
state_of (str s) =
    if matches (λ c. is_lower c || is_upper c || is_digit c || c == b'_' || c == b'-') 43 43 s
    then ok s
    else err not_found
state_of _ = err not_found

pub record Binding : Type 0 where
  pub session : String
  pub team : String
  pub assistant : String
  pub account : String

unfoldable pub same_binding : Binding → Binding → Bool
same_binding a b =
    a.session == b.session
    && a.team == b.team
    && a.assistant == b.assistant
    && a.account == b.account

-- OAuthPKCEChallengeStore._binding
unfoldable pub binding_of :
    (List ℕ → String) → Session → Value → Value → Value → Result PkceError Binding
binding_of sha256 session_binding team_id assistant_id account_id = do
  session ← session_digest sha256 session_binding
  team ← team_of team_id
  assistant ← component_id assistant_id
  account ← component_id account_id
  ok (record { session = session; team = team; assistant = assistant; account = account })

-- The dict `_by_binding`.
abbrev pub Bound : Type 0
Bound = List (Binding × String)

unfoldable pub bound_state : Binding → Bound → Option String
bound_state b [] = none
bound_state b ((c, s) ∷ rest) = if same_binding c b then some s else bound_state b rest

unfoldable pub bind : Binding → String → Bound → Bound
bind b state [] = (b, state) ∷ []
bind b state ((c, s) ∷ rest) =
    if same_binding c b then (b, state) ∷ rest else (c, s) ∷ bind b state rest

unfoldable pub unbind : Binding → Bound → Bound
unbind b [] = []
unbind b ((c, s) ∷ rest) =
    let kept = unbind b rest in if same_binding c b then kept else (c, s) ∷ kept
