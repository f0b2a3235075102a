-- ===== src/Turns/Invariant.antt =====
-- No turn is both stopped and committed, in any interleaving.
use shimpz_drivers.Prelude.{
  true, false, ◌≡◌, arith, some, String, eq_string, contains, str_iff, Bool-cases, Option-cases,
  inl, inr,
}
use shimpz_drivers.Prelude.Dict
use shimpz_drivers.Prelude.Dict.{get-put, get-remove}
use shimpz_drivers.Turns.State.{leave_turn, commit_chat_terminal, stop_turn, is_text}
use shimpz_drivers.Turns.Steps.{
  World, runs, drop_turn, with_accepted, with_committed, idle, contains-discard, runs-drop_turn,
}

pub record IsValid (w : World) : Type 0 where
  pub active_runs :
      (team t : String)
      → Dict.get team w.turns.active_chat_tokens ≡ some t
      → runs team t w.running ≡ true
  pub active_open :
      (team t : String)
      → Dict.get team w.turns.active_chat_tokens ≡ some t
      → contains t w.committed ≡ false
  pub marked :
      (team t : String)
      → runs team t w.running ≡ true
      → contains t w.stopped ≡ true
      → contains t w.turns.cancelled_chat_tokens ≡ true
  pub run_drawn : (team t : String) → runs team t w.running ≡ true → contains t w.drawn ≡ true
  pub stopped_drawn : (t : String) → contains t w.stopped ≡ true → contains t w.drawn ≡ true
  pub committed_drawn : (t : String) → contains t w.committed ≡ true → contains t w.drawn ≡ true
  pub one_team : (a b t : String) → runs a t w.running ≡ true → runs b t w.running ≡ true → a ≡ b
  pub held :
      (team t : String) → runs team t w.running ≡ true → contains team w.turns.chat_locks ≡ true
  pub one_turn :
      (team s t : String) → runs team s w.running ≡ true → runs team t w.running ≡ true → s ≡ t
  pub decided : (t : String) → contains t w.stopped ≡ true → contains t w.committed ≡ false

pub idle-IsValid : IsValid idle
unfolding Dict.get runs
idle-IsValid = record {
  active_runs = λ team t h. absurd (ground (arith, h));
  active_open = λ team t h. absurd (ground (arith, h));
  marked = λ team t h. absurd (ground (arith, h));
  run_drawn = λ team t h. absurd (ground (arith, h));
  stopped_drawn = λ t h. absurd (ground (arith, h));
  committed_drawn = λ t h. absurd (ground (arith, h));
  one_team = λ a b t h. absurd (ground (arith, h));
  held = λ team t h. absurd (ground (arith, h));
  one_turn = λ team s t h. absurd (ground (arith, h));
  decided = λ t h. absurd (ground (arith, h));
}

pub stop_turn-IsValid :
    (team container : String) (w : World)
    → IsValid w
    → IsValid (record w {
      turns = (stop_turn team container w.turns).1;
      stopped = with_accepted (stop_turn team container w.turns).0 w.stopped;
    })
unfolding stop_turn
stop_turn-IsValid team container w v =
    elim (Option-cases (Dict.get team w.turns.active_chat_tokens)) [
      | inl e ↦ rw (e, stop_turn) v
      | inr (token, e) ↦
          elim (Bool-cases (is_text (Dict.get team w.turns.active_chat_container_ids) container)) [
            | inr other ↦ rw (e, stop_turn) (rw other v)
            | inl same ↦
                rw (e, stop_turn)
                  (rw same (record {
                    active_runs = v.active_runs;
                    active_open = v.active_open;
                    marked = λ a t h k. ground (arith, v.marked a t, str_iff token t);
                    run_drawn = v.run_drawn;
                    stopped_drawn = λ t h. ground (
                      arith,
                      v.stopped_drawn t,
                      str_iff token t,
                      v.run_drawn team token (v.active_runs team token e),
                    );
                    committed_drawn = v.committed_drawn;
                    one_team = v.one_team;
                    held = v.held;
                    one_turn = v.one_turn;
                    decided = λ t h.
                        ground (arith, v.decided t, str_iff token t, v.active_open team token e);
                  }))
          ]
    ]

pub leave_turn-IsValid :
    (team token : String) (w : World)
    → IsValid w
    → runs team token w.running ≡ true
    → IsValid (record w {
      turns = leave_turn team token w.turns;
      running = drop_turn team token w.running;
    })
unfolding leave_turn
leave_turn-IsValid team token w v r = record {
  active_runs = λ a t h. ground (
    arith,
    get-remove team a w.turns.active_chat_tokens,
    v.active_runs a t,
    str_iff team a,
    runs-drop_turn team token a t w.running,
  );
  active_open = λ a t h.
      ground
        (arith, get-remove team a w.turns.active_chat_tokens, v.active_open a t, str_iff team a);
  marked = λ a t h k. ground (
    arith,
    runs-drop_turn team token a t w.running,
    v.marked a t,
    contains-discard t token w.turns.cancelled_chat_tokens,
    str_iff token t,
    str_iff team a,
    v.one_team a team t,
  );
  run_drawn = λ a t h. ground (arith, runs-drop_turn team token a t w.running, v.run_drawn a t);
  stopped_drawn = v.stopped_drawn;
  committed_drawn = v.committed_drawn;
  one_team = λ a b t h k. ground (
    arith,
    runs-drop_turn team token a t w.running,
    runs-drop_turn team token b t w.running,
    v.one_team a b t,
  );
  held = λ a t h. ground (
    arith,
    runs-drop_turn team token a t w.running,
    v.held a t,
    contains-discard a team w.turns.chat_locks,
    str_iff team a,
    str_iff token t,
    v.one_turn a token t,
  );
  one_turn = λ a s t h k. ground (
    arith,
    runs-drop_turn team token a s w.running,
    runs-drop_turn team token a t w.running,
    v.one_turn a s t,
  );
  decided = v.decided;
}

pub commit_chat_terminal-IsValid :
    (team token : String) (w : World)
    → IsValid w
    → runs team token w.running ≡ true
    → IsValid (record w {
      turns = (commit_chat_terminal team token w.turns).1;
      committed = with_committed (commit_chat_terminal team token w.turns).0 token w.committed;
    })
unfolding commit_chat_terminal
commit_chat_terminal-IsValid team token w v r =
    elim (Bool-cases (contains token w.turns.cancelled_chat_tokens)) [
      | inl cancelled ↦ rw (commit_chat_terminal, cancelled) v
      | inr free ↦ elim (Bool-cases (is_text (Dict.get team w.turns.active_chat_tokens) token)) [
        | inl same ↦
            rw (commit_chat_terminal, free)
              (rw same (record {
                active_runs = λ a t h.
                    ground (arith, get-remove team a w.turns.active_chat_tokens, v.active_runs a t);
                active_open = λ a t h. ground (
                  arith,
                  get-remove team a w.turns.active_chat_tokens,
                  v.active_open a t,
                  str_iff token t,
                  v.active_runs a t,
                  v.one_team a team t,
                  str_iff team a,
                  r,
                );
                marked = v.marked;
                run_drawn = v.run_drawn;
                stopped_drawn = v.stopped_drawn;
                committed_drawn = λ t h.
                    ground (arith, v.committed_drawn t, str_iff token t, v.run_drawn team token r);
                one_team = v.one_team;
                held = v.held;
                one_turn = v.one_turn;
                decided =
                    λ t h. ground (arith, v.decided t, str_iff token t, v.marked team token r);
              }))
        | inr other ↦
            rw (commit_chat_terminal, free)
              (rw other (record {
                active_runs = v.active_runs;
                active_open = λ a t h. ground (
                  arith,
                  v.active_open a t,
                  str_iff token t,
                  v.active_runs a t,
                  v.one_team a team t,
                  str_iff team a,
                  r,
                );
                marked = v.marked;
                run_drawn = v.run_drawn;
                stopped_drawn = v.stopped_drawn;
                committed_drawn = λ t h.
                    ground (arith, v.committed_drawn t, str_iff token t, v.run_drawn team token r);
                one_team = v.one_team;
                held = v.held;
                one_turn = v.one_turn;
                decided =
                    λ t h. ground (arith, v.decided t, str_iff token t, v.marked team token r);
              }))
      ]
    ]
