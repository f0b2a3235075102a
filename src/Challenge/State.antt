-- ===== src/Challenge/State.antt =====
-- The state of team/challenge_store.py, its identifiers, and `_expire`.
use shimpz_drivers.Prelude.{
  ℕ, Bool, false, ◌&&◌, Option, none, some, List, [], ◌∷◌, String, Result, ok, err, ◌>>◌, require,
  leb, ◌==◌, eq_string, if◌then◌else◌,
}
use shimpz_drivers.Prelude.Dict
use shimpz_drivers.Prelude.Dict.{Dict}
use shimpz_drivers.Prelude.Int.{is_between, to_ℕ}
use shimpz_drivers.Prelude.Text.{is_team_id, is_hex32}
use shimpz_drivers.Value.{Value, str, int}

pub data ChallengeError : Type 0 where
  capacity_invalid ttl_invalid : ChallengeError
  team_invalid metadata_required team_busy capacity_reached restore_invalid : ChallengeError
  unavailable : ChallengeError
  commit_raised : String → ChallengeError

-- nanoseconds
abbrev pub second : ℕ
second = 1_000_000_000

abbrev pub max_pending_challenges : ℕ
max_pending_challenges = 32

abbrev pub default_ttl_seconds : ℕ
default_ttl_seconds = 300

-- PendingChallenge: `C` is the metadata shown to the user, `P` the continuation it releases.
pub record Challenge (C P : Type 0) : Type 0 where
  pub id : String
  pub team_id : String
  pub expires_at : ℕ
  pub challenge_payload : C
  pub payload : P

pub record Store (C P : Type 0) : Type 0 where
  pub payload_validator : C → Bool
  pub capacity : ℕ
  pub ttl : ℕ
  pub pending : Dict (Challenge C P)
  pub by_team : Dict String

abbrev pub Outcome : Type 0 → Type 0 → Type 0 → Type 0
Outcome C P A = Result ChallengeError A × Store C P

-- _team_id
unfoldable pub check_team_id : Value → Result ChallengeError String
check_team_id (str s) = if is_team_id s then ok s else err team_invalid
check_team_id _ = err team_invalid

-- _challenge_id
unfoldable pub check_challenge_id : Value → Result ChallengeError String
check_challenge_id (str s) = if is_hex32 s then ok s else err unavailable
check_challenge_id _ = err unavailable

-- `type(value) is int and 1 <= value <= ttl`, and its value
unfoldable pub remaining_ok : ℕ → Value → Bool
remaining_ok ttl (int z) = is_between 1 ttl z
remaining_ok ttl _ = false

unfoldable pub remaining_of : Value → ℕ
remaining_of (int z) = to_ℕ z
remaining_of _ = 0

-- secrets.token_hex(16), drawn again while it names a pending challenge; `none` when the draws end
unfoldable pub fresh {ℓ} : {V : Type ℓ} → List String → Dict V → Option String
fresh [] pending = none
fresh (draw ∷ draws) pending =
    let again = fresh draws pending in if Dict.has draw pending then again else some draw

-- `if self._by_team.get(team) == identifier: self._by_team.pop(team, None)`
unfoldable pub unlink : String → String → Dict String → Dict String
unlink team identifier by_team = elim (Dict.get team by_team) [
  | none ↦ by_team
  | some found ↦ if found == identifier then Dict.remove team by_team else by_team
]

module _ {C P : Type 0} where
  -- __init__
  unfoldable pub new_store : (C → Bool) → ℕ → ℕ → Result ChallengeError (Store C P)
  new_store payload_validator capacity ttl_seconds = do
    require (leb 1 capacity && leb capacity 1024) capacity_invalid
    require (leb 30 ttl_seconds && leb ttl_seconds 900) ttl_invalid
    ok (record {
      payload_validator = payload_validator;
      capacity = capacity;
      ttl = ttl_seconds;
      pending = [];
      by_team = [];
    })

  -- `self._pending.pop(identifier)` and the release of the Team that the identifier holds
  unfoldable pub release : String → String → Store C P → Store C P
  unfolding unlink
  release team identifier s = record s {
    pending = Dict.remove identifier s.pending;
    by_team = unlink team identifier s.by_team;
  }

  unfoldable pub expired_ids : ℕ → Dict (Challenge C P) → List String
  expired_ids now [] = []
  expired_ids now ((identifier, item) ∷ rest) =
      let ids = expired_ids now rest in if leb item.expires_at now then identifier ∷ ids else ids

  unfoldable pub forget_one : String → Store C P → Store C P
  unfolding release
  forget_one identifier s = elim (Dict.get identifier s.pending) [
    | none ↦ s
    | some challenge ↦ release challenge.team_id identifier s
  ]

  unfoldable pub forget_each : List String → Store C P → Store C P
  forget_each [] s = s
  forget_each (identifier ∷ ids) s = forget_each ids (forget_one identifier s)

  -- _expire
  unfoldable pub expire : ℕ → Store C P → Store C P
  expire now s = forget_each (expired_ids now s.pending) s

  -- _available
  unfoldable pub available : String → String → Store C P → Result ChallengeError (Challenge C P)
  available team identifier s = elim (Dict.get identifier s.pending) [
    | none ↦ err unavailable
    | some challenge ↦ if challenge.team_id == team then ok challenge else err unavailable
  ]

  unfoldable pub insert : Challenge C P → Store C P → Store C P
  insert challenge s = record s {
    pending = Dict.put challenge.id challenge s.pending;
    by_team = Dict.put challenge.team_id challenge.id s.by_team;
  }
