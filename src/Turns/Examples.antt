-- ===== src/Turns/Examples.antt =====
-- Concrete interleavings of the turns.
use shimpz_drivers.Prelude.{true, false, ◌≡◌, refl, ok, [], ◌∷◌, String, contains, eq_string}
use shimpz_drivers.Prelude.Dict
use shimpz_drivers.Turns.State.{Turns, enter_turn, commit_chat_terminal, stop_turn}
use shimpz_drivers.Turns.Steps.{World, Reaches, here, later, enters, stops, idle, runs}
use shimpz_drivers.Turns.Reach.{stop_excludes_commit, one_turn_per_team}

abbrev entered_turns : Turns
entered_turns = record {
  chat_locks = "a" ∷ [];
  active_chat_tokens = ("a", "t") ∷ [];
  active_chat_container_ids = ("a", "c") ∷ [];
  active_power_container_ids = [];
  blocked_power_workloads = [];
  cancelled_chat_tokens = [];
}

entered : enter_turn "a" "t" "c" (ok tt) idle.turns ≡ ok entered_turns
unfolding enter_turn Dict.put
entered = refl

abbrev running_world : World
running_world = record {
  turns = entered_turns;
  running = ("a", "t") ∷ [];
  drawn = "t" ∷ [];
  stopped = [];
  committed = [];
}

abbrev stopped_world : World
stopped_world = record running_world {
  turns = record entered_turns { cancelled_chat_tokens = "t" ∷ [] };
  stopped = "t" ∷ [];
}

running_reached : Reaches idle running_world
running_reached = later idle running_world here (enters "a" "t" "c" entered_turns refl entered)

stopped_reached : Reaches idle stopped_world
unfolding stop_turn Dict.get
stopped_reached = later running_world stopped_world running_reached (stops "a" "c")

stop_excludes_commit_example :
    (contains "t" stopped_world.committed ≡ false)
    × ((team : String)
        → runs team "t" stopped_world.running ≡ true
        → (commit_chat_terminal team "t" stopped_world.turns).0 ≡ false)
stop_excludes_commit_example = stop_excludes_commit stopped_world "t" stopped_reached refl

one_turn_per_team_example :
    ((team s t : String)
      → runs team s stopped_world.running ≡ true
      → runs team t stopped_world.running ≡ true
      → s ≡ t)
    × ((a b t : String)
        → runs a t stopped_world.running ≡ true
        → runs b t stopped_world.running ≡ true
        → a ≡ b)
one_turn_per_team_example = one_turn_per_team stopped_world stopped_reached
