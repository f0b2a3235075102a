-- ===== src/Challenge/Store.antt =====
-- The methods of `ChallengeStore` in team/challenge_store.py. Each method returns its result, or the
-- exception it raises, beside the store that it leaves: what `_expire` dropped stays dropped when
-- the method raises. The time is an argument, and the lock makes each method one step.
use shimpz_drivers.Prelude.{
  ℕ, ◌+◌, ◌*◌, Bool, false, ◌||◌, not, Option, none, some, List, [], String, Result, ok, err, ◌>>=◌,
  leb, eq_string, if◌then◌else◌, length,
}
use shimpz_drivers.Prelude.Dict
use shimpz_drivers.Prelude.Dict.{Dict}
use shimpz_drivers.Value.{Value}
use shimpz_drivers.Challenge.State.{
  ChallengeError, metadata_required, team_busy, capacity_reached, restore_invalid, commit_raised,
  second, Challenge, Store, Outcome, check_team_id, check_challenge_id, remaining_ok, remaining_of,
  fresh, release, expire, available, insert,
}

-- The two identifiers that `get`, `restore` and `claim_after` check first.
unfoldable pub check_ids : Value → Value → Result ChallengeError (String × String)
check_ids team_id challenge_id = do
  team ← check_team_id team_id
  identifier ← check_challenge_id challenge_id
  ok (team, identifier)

module _ {C P : Type 0} where
  -- What `create` does under the lock, after `_expire`.
  unfoldable pub create_locked :
      ℕ → List String → String → C → P → Store C P → Outcome C P (Option (Challenge C P))
  unfolding insert
  create_locked now draws team shown payload s =
      if Dict.has team s.by_team
      then (err team_busy, s)
      else if leb s.capacity (length s.pending)
      then (err capacity_reached, s)
      else elim (fresh draws s.pending) [
        | none ↦ (ok none, s)
        | some identifier ↦
            let challenge : Challenge C P = record {
              id = identifier;
              team_id = team;
              expires_at = now + s.ttl * second;
              challenge_payload = shown;
              payload = payload;
            } in
            (ok (some challenge), insert challenge s)
      ]

  -- create; `ok none` stands for draws that run out, where the source draws again
  unfoldable pub create :
      ℕ → List String → Value → C → P → Store C P → Outcome C P (Option (Challenge C P))
  unfolding create_locked
  create now draws team_id shown payload s = elim (check_team_id team_id) [
    | err e ↦ (err e, s)
    | ok team ↦
        if s.payload_validator shown
        then create_locked now draws team shown payload (expire now s)
        else (err metadata_required, s)
  ]

  unfoldable pub get : ℕ → Value → Value → Store C P → Outcome C P (Challenge C P)
  unfolding check_ids
  get now team_id challenge_id s = elim (check_ids team_id challenge_id) [
    | err e ↦ (err e, s)
    | ok (team, identifier) ↦ let s' = expire now s in (available team identifier s', s')
  ]

  unfoldable pub restore_locked :
      ℕ → String → String → ℕ → C → P → Store C P → Outcome C P (Challenge C P)
  unfolding insert
  restore_locked now team identifier remaining shown payload s =
      if Dict.has team s.by_team || Dict.has identifier s.pending
      then (err team_busy, s)
      else if leb s.capacity (length s.pending)
      then (err capacity_reached, s)
      else let challenge : Challenge C P = record {
        id = identifier;
        team_id = team;
        expires_at = now + remaining * second;
        challenge_payload = shown;
        payload = payload;
      } in
        (ok challenge, insert challenge s)

  unfoldable pub restore :
      ℕ → Value → Value → Value → C → P → Store C P → Outcome C P (Challenge C P)
  unfolding check_ids restore_locked remaining_ok remaining_of
  restore now team_id challenge_id remaining_seconds shown payload s =
      elim (check_ids team_id challenge_id) [
        | err e ↦ (err e, s)
        | ok (team, identifier) ↦
            if not (remaining_ok s.ttl remaining_seconds) || not (s.payload_validator shown)
            then (err restore_invalid, s)
            else restore_locked now team identifier (remaining_of remaining_seconds) shown payload
                (expire now s)
      ]

  unfoldable pub current : ℕ → Value → Store C P → Outcome C P (Option (Challenge C P))
  current now team_id s = elim (check_team_id team_id) [
    | err e ↦ (err e, s)
    | ok team ↦
        let s' = expire now s in
        (
          elim (Dict.get team s'.by_team) [
            | none ↦ ok none
            | some identifier ↦ ok (Dict.get identifier s'.pending)
          ],
          s',
        )
  ]

  unfoldable pub claim_locked :
      String → String → (Challenge C P → Option String) → Store C P → Outcome C P (Challenge C P)
  claim_locked team identifier commit s = elim (available team identifier s) [
    | err e ↦ (err e, s)
    | ok challenge ↦ elim (commit challenge) [
      | some raised ↦ (err (commit_raised raised), s)
      | none ↦ (ok challenge, release team identifier s)
    ]
  ]

  -- `commit` is the controller's transaction, called with the challenge: the exception that it raises,
  -- which a text names, or `none` where it returns
  unfoldable pub claim_after :
      ℕ → Value → Value → (Challenge C P → Option String) → Store C P → Outcome C P (Challenge C P)
  unfolding check_ids claim_locked available release
  claim_after now team_id challenge_id commit s = elim (check_ids team_id challenge_id) [
    | err e ↦ (err e, s)
    | ok (team, identifier) ↦ claim_locked team identifier commit (expire now s)
  ]

  unfoldable pub claim : ℕ → Value → Value → Store C P → Outcome C P (Challenge C P)
  unfolding claim_after
  claim now team_id challenge_id s = claim_after now team_id challenge_id (λ _. none) s

  unfoldable pub cancel_team : Value → Store C P → Outcome C P Bool
  cancel_team team_id s = elim (check_team_id team_id) [
    | err e ↦ (err e, s)
    | ok team ↦ elim (Dict.get team s.by_team) [
      | none ↦ (ok false, s)
      | some identifier ↦ (
        ok (Dict.has identifier s.pending),
        record s {
          pending = Dict.remove identifier s.pending;
          by_team = Dict.remove team s.by_team;
        },
      )
    ]
  ]

  unfoldable pub cancel_all : Store C P → ℕ × Store C P
  cancel_all s = (length s.pending, record s { pending = []; by_team = [] })
