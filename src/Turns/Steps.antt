-- ===== src/Turns/Steps.antt =====
-- Interleavings of the turns of all Teams: a step is one block under the guard. A World has, beside
-- the maps, what the theorems speak of: the turns that run, and the tokens that were ever drawn,
-- stopped and committed.
use shimpz_drivers.Prelude.{
  Bool, true, false, ◌&&◌, ◌||◌, not, ◌≡◌, refl, arith, Option, some, [], ◌∷◌, List, String, ◌==◌,
  eq_string, if◌then◌else◌, Result, ok, contains, str_iff,
}
use shimpz_drivers.Turns.State.{
  Turns, TurnError, enter_turn, leave_turn, commit_chat_terminal, stop_turn, register_active_power,
  release_active_power, clear_team_id_runtime_state, discard,
}

pub record World : Type 0 where
  pub turns : Turns
  pub running : List (String × String)
  pub drawn : List String
  pub stopped : List String
  pub committed : List String

-- The turn of the Team with the token is between its start and its end.
unfoldable pub runs : String → String → List (String × String) → Bool
runs team token [] = false
runs team token ((a, b) ∷ rs) = (a == team && b == token) || runs team token rs

unfoldable pub drop_turn : String → String → List (String × String) → List (String × String)
drop_turn team token [] = []
drop_turn team token ((a, b) ∷ rs) =
    let rest = drop_turn team token rs in if a == team && b == token then rest else (a, b) ∷ rest

abbrev pub with_accepted : Result TurnError (Option String) → List String → List String
with_accepted (ok (some token)) tokens = token ∷ tokens
with_accepted _ tokens = tokens

abbrev pub with_committed : Bool → String → List String → List String
with_committed true token tokens = token ∷ tokens
with_committed false token tokens = tokens

-- A turn draws a token that was not drawn before; it commits, registers Powers and ends only while
-- it runs. Anyone stops a Team at any time. The destroy of a Team, which holds its chat lock, clears
-- what is left of it: no turn has the lock then.
pub data Step (w : World) : World → Type 0 where
  enters :
      (team token container : String) (t : Turns)
      → contains token w.drawn ≡ false
      → enter_turn team token container (ok tt) w.turns ≡ ok t
      → Step w
          (record w { turns = t; running = (team, token) ∷ w.running; drawn = token ∷ w.drawn })
  leaves :
      (team token : String)
      → runs team token w.running ≡ true
      → Step w (record w {
        turns = leave_turn team token w.turns;
        running = drop_turn team token w.running;
      })
  commits :
      (team token : String)
      → runs team token w.running ≡ true
      → Step w (record w {
        turns = (commit_chat_terminal team token w.turns).1;
        committed = with_committed (commit_chat_terminal team token w.turns).0 token w.committed;
      })
  stops :
      (team container : String)
      → Step w (record w {
        turns = (stop_turn team container w.turns).1;
        stopped = with_accepted (stop_turn team container w.turns).0 w.stopped;
      })
  registers :
      (team token container : String) (t : Turns)
      → register_active_power team token container w.turns ≡ ok t
      → Step w (record w { turns = t })
  releases :
      (team token container : String)
      → Step w (record w { turns = release_active_power team token container w.turns })
  clears :
      (team : String)
      → contains team w.turns.chat_locks ≡ false
      → Step w (record w { turns = clear_team_id_runtime_state team w.turns })

pub data Reaches (w : World) : World → Type 0 where
  here : Reaches w w
  later : (v u : World) → Reaches w v → Step v u → Reaches w u

abbrev pub idle : World
idle = record {
  turns = record {
    chat_locks = [];
    active_chat_tokens = [];
    active_chat_container_ids = [];
    active_power_container_ids = [];
    blocked_power_workloads = [];
    cancelled_chat_tokens = [];
  };
  running = [];
  drawn = [];
  stopped = [];
  committed = [];
}

pub contains-discard :
    (t x : String) (l : List String) → contains t (discard x l) ≡ (contains t l && not (x == t))
contains-discard t x [] = refl
contains-discard t x (y ∷ l) =
    ground (arith, contains-discard t x l, str_iff y x, str_iff y t, str_iff x t)

pub runs-drop_turn :
    (team token a b : String) (rs : List (String × String))
    → runs a b (drop_turn team token rs) ≡ (runs a b rs && not (team == a && token == b))
unfolding runs drop_turn
runs-drop_turn team token a b [] = refl
runs-drop_turn team token a b ((c, d) ∷ rs) = ground (
  arith,
  runs-drop_turn team token a b rs,
  str_iff c team,
  str_iff d token,
  str_iff c a,
  str_iff d b,
  str_iff team a,
  str_iff token b,
)
