-- ===== src/Turns/State.antt =====
-- The maps of the active turns, and the blocks that read and change them.
use shimpz_drivers.Prelude.{
  Bool, true, false, ◌&&◌, ◌||◌, Option, none, some, ◌∷◌, List, String, ◌==◌, eq_string,
  if◌then◌else◌, Result, ok, err, contains, select, not,
}
use shimpz_drivers.Prelude.Dict
use shimpz_drivers.Prelude.Dict.{Dict}

-- ApiError, by its HTTP status
pub data TurnError : Type 0 where
  conflict not_found : TurnError

pub record Turns : Type 0 where
  pub chat_locks : List String
  pub active_chat_tokens : Dict String
  pub active_chat_container_ids : Dict String
  pub active_power_container_ids : Dict (String × String)
  pub blocked_power_workloads : List (String × String)
  pub cancelled_chat_tokens : List String

-- set.discard
abbrev pub discard : String → List String → List String
discard x = select (λ y. not (y == x))

-- `_exclusive_chat_turn`: the lock of the Team, then the entries of the turn. `ready` is what the
-- authorization and the status of the container give.
unfoldable pub enter_turn :
    String → String → String → Result TurnError (Unit {0}) → Turns → Result TurnError Turns
enter_turn team_id token container_id ready s =
    if contains team_id s.chat_locks then err conflict else elim ready [
      | err e ↦ err e
      | ok _ ↦ ok (record s {
        chat_locks = team_id ∷ s.chat_locks;
        active_chat_tokens = Dict.put team_id token s.active_chat_tokens;
        active_chat_container_ids = Dict.put team_id container_id s.active_chat_container_ids;
      })
    ]

-- its `finally`
unfoldable pub leave_turn : String → String → Turns → Turns
leave_turn team_id token s = record s {
  chat_locks = discard team_id s.chat_locks;
  active_chat_tokens = Dict.remove team_id s.active_chat_tokens;
  active_chat_container_ids = Dict.remove team_id s.active_chat_container_ids;
  active_power_container_ids = Dict.remove team_id s.active_power_container_ids;
  cancelled_chat_tokens = discard token s.cancelled_chat_tokens;
}

-- _token_cancelled
unfoldable pub token_cancelled : String → Turns → Bool
token_cancelled token s = contains token s.cancelled_chat_tokens

abbrev pub is_text : Option String → String → Bool
is_text none t = false
is_text (some s) t = s == t

-- _commit_chat_terminal
unfoldable pub commit_chat_terminal : String → String → Turns → Bool × Turns
commit_chat_terminal team_id token s =
    if contains token s.cancelled_chat_tokens
    then (false, s)
    else if is_text (Dict.get team_id s.active_chat_tokens) token
    then (
      true,
      record s {
        active_chat_tokens = Dict.remove team_id s.active_chat_tokens;
        active_chat_container_ids = Dict.remove team_id s.active_chat_container_ids;
      },
    )
    else (true, s)

-- The block of `_stop_chat` under the guard: the token that it cancels.
unfoldable pub stop_turn : String → String → Turns → Result TurnError (Option String) × Turns
stop_turn team_id container_id s = elim (Dict.get team_id s.active_chat_tokens) [
  | none ↦ (ok none, s)
  | some token ↦
      if is_text (Dict.get team_id s.active_chat_container_ids) container_id
      then (ok (some token), record s { cancelled_chat_tokens = token ∷ s.cancelled_chat_tokens })
      else (err not_found, s)
]

-- _register_active_power
unfoldable pub register_active_power : String → String → String → Turns → Result TurnError Turns
register_active_power team_id token container_id s =
    if not (is_text (Dict.get team_id s.active_chat_tokens) token)
      || contains token s.cancelled_chat_tokens
    then err conflict
    else if Dict.has team_id s.active_power_container_ids
    then err conflict
    else ok (record s {
      active_power_container_ids =
          Dict.put team_id (token, container_id) s.active_power_container_ids;
    })

abbrev pub is_power : Option (String × String) → String → String → Bool
is_power none token container_id = false
is_power (some (t, c)) token container_id = t == token && c == container_id

-- _release_active_power
unfoldable pub release_active_power : String → String → String → Turns → Turns
release_active_power team_id token container_id s =
    if is_power (Dict.get team_id s.active_power_container_ids) token container_id
    then record s { active_power_container_ids = Dict.remove team_id s.active_power_container_ids }
    else s

abbrev discard_token : Option String → List String → List String
discard_token none tokens = tokens
discard_token (some token) tokens = discard token tokens

-- _clear_team_id_runtime_state
unfoldable pub clear_team_id_runtime_state : String → Turns → Turns
clear_team_id_runtime_state team_id s = record s {
  active_chat_tokens = Dict.remove team_id s.active_chat_tokens;
  active_chat_container_ids = Dict.remove team_id s.active_chat_container_ids;
  active_power_container_ids = Dict.remove team_id s.active_power_container_ids;
  blocked_power_workloads =
      select (λ (b : String × String). not (b.0 == team_id)) s.blocked_power_workloads;
  cancelled_chat_tokens =
      discard_token (Dict.get team_id s.active_chat_tokens) s.cancelled_chat_tokens;
}
