-- ===== src/Turns/Reach.antt =====
-- The invariant of the turns in every world that the steps reach, and what it says of Stop.
use shimpz_drivers.Prelude.{
  true, false, ◌≡◌, sym, arith, some, ◌∷◌, String, ◌==◌, eq_string, if◌then◌else◌, ok, contains,
  str_iff, ap, ◌∙◌, none, Option-cases, inl, inr,
}
use shimpz_drivers.Prelude.Dict
use shimpz_drivers.Prelude.Dict.{get-put, get-remove}
use shimpz_drivers.Turns.State.{
  Turns, enter_turn, commit_chat_terminal, register_active_power, release_active_power,
  clear_team_id_runtime_state,
}
use shimpz_drivers.Turns.Steps.{
  World, runs, Step, enters, leaves, commits, stops, registers, releases, clears, Reaches, here,
  later, idle,
}
use shimpz_drivers.Turns.Invariant.{
  IsValid, idle-IsValid, stop_turn-IsValid, leave_turn-IsValid, commit_chat_terminal-IsValid,
}

-- What the start of a turn leaves.
enter_turn_lem :
    (team token container : String) (s t : Turns)
    → enter_turn team token container (ok tt) s ≡ ok t
    → (contains team s.chat_locks ≡ false)
      × (t.chat_locks ≡ team ∷ s.chat_locks)
      × (t.active_chat_tokens ≡ Dict.put team token s.active_chat_tokens)
      × (t.cancelled_chat_tokens ≡ s.cancelled_chat_tokens)
unfolding enter_turn
enter_turn_lem team token container s t h = ground arith

enter_turn-IsValid :
    (team token container : String) (t : Turns) (w : World)
    → IsValid w
    → contains token w.drawn ≡ false
    → enter_turn team token container (ok tt) w.turns ≡ ok t
    → IsValid (record w { turns = t; running = (team, token) ∷ w.running; drawn = token ∷ w.drawn })
unfolding runs
enter_turn-IsValid team token container t w v new h =
    let f = enter_turn_lem team token container w.turns t h in
    let at : (a : String)
        → Dict.get a t.active_chat_tokens
          ≡ (if team == a then some token else Dict.get a w.turns.active_chat_tokens) =
      λ a. ap (Dict.get a) f.2 ∙ get-put team a token w.turns.active_chat_tokens in
    record {
      active_runs =
          λ a s k. ground (arith, at a, v.active_runs a s, str_iff team a, str_iff token s);
      active_open =
          λ a s k. ground (arith, at a, v.active_open a s, v.committed_drawn token, str_iff team a);
      marked = λ a s k m.
          ground (arith, f, v.marked a s, str_iff team a, str_iff token s, v.stopped_drawn s);
      run_drawn = λ a s k. ground (arith, v.run_drawn a s, str_iff token s);
      stopped_drawn = λ s k. ground (arith, v.stopped_drawn s);
      committed_drawn = λ s k. ground (arith, v.committed_drawn s);
      one_team = λ a b s k m. ground (
        arith,
        v.one_team a b s,
        str_iff team a,
        str_iff team b,
        str_iff token s,
        v.run_drawn a s,
        v.run_drawn b s,
      );
      held = λ a s k. ground (arith, f, v.held a s, str_iff team a);
      one_turn = λ a r s k m. ground (
        arith,
        f,
        v.one_turn a r s,
        str_iff team a,
        str_iff token r,
        str_iff token s,
        v.held a r,
        v.held a s,
      );
      decided = v.decided;
    }

-- The maps that the invariant speaks of are the same.
record Agrees (s t : Turns) : Type 0 where
  locks : t.chat_locks ≡ s.chat_locks
  tokens : t.active_chat_tokens ≡ s.active_chat_tokens
  cancelled : t.cancelled_chat_tokens ≡ s.cancelled_chat_tokens

register_active_power-Agrees :
    (team token container : String) (s t : Turns)
    → register_active_power team token container s ≡ ok t
    → Agrees s t
unfolding register_active_power
register_active_power-Agrees team token container s t h = record {
  locks = ground arith;
  tokens = ground arith;
  cancelled = ground arith;
}

release_active_power-Agrees :
    (team token container : String) (s : Turns)
    → Agrees s (release_active_power team token container s)
unfolding release_active_power
release_active_power-Agrees team token container s = record {
  locks = ground arith;
  tokens = ground arith;
  cancelled = ground arith;
}

Agrees-IsValid :
    (t : Turns) (w : World) → IsValid w → Agrees w.turns t → IsValid (record w { turns = t })
Agrees-IsValid t w v g = record {
  active_runs = λ a s h. v.active_runs a s (sym (ap (Dict.get a) g.tokens) ∙ h);
  active_open = λ a s h. v.active_open a s (sym (ap (Dict.get a) g.tokens) ∙ h);
  marked = λ a s h k. ap (contains s) g.cancelled ∙ v.marked a s h k;
  run_drawn = v.run_drawn;
  stopped_drawn = v.stopped_drawn;
  committed_drawn = v.committed_drawn;
  one_team = v.one_team;
  held = λ a s h. ap (contains a) g.locks ∙ v.held a s h;
  one_turn = v.one_turn;
  decided = v.decided;
}

clear-IsValid :
    (team : String) (w : World)
    → IsValid w
    → contains team w.turns.chat_locks ≡ false
    → IsValid (record w { turns = clear_team_id_runtime_state team w.turns })
unfolding clear_team_id_runtime_state
clear-IsValid team w v free =
    let cleared : (a : String)
        → Dict.get a (Dict.remove team w.turns.active_chat_tokens)
          ≡ (if team == a then none else Dict.get a w.turns.active_chat_tokens) =
      λ a. get-remove team a w.turns.active_chat_tokens in
    record {
      active_runs = λ a t h. ground (arith, cleared a, v.active_runs a t);
      active_open = λ a t h. ground (arith, cleared a, v.active_open a t);
      marked = λ a t h k. elim (Option-cases (Dict.get team w.turns.active_chat_tokens)) [
        | inl idle_team ↦ rw idle_team (v.marked a t h k)
        | inr (token, e) ↦
            absurd (ground (arith, free, v.held team token (v.active_runs team token e)))
      ];
      run_drawn = v.run_drawn;
      stopped_drawn = v.stopped_drawn;
      committed_drawn = v.committed_drawn;
      one_team = v.one_team;
      held = v.held;
      one_turn = v.one_turn;
      decided = v.decided;
    }

Step-IsValid : (w u : World) → IsValid w → Step w u → IsValid u
Step-IsValid w _ v (enters team token container t new h) =
    enter_turn-IsValid team token container t w v new h
Step-IsValid w _ v (leaves team token r) = leave_turn-IsValid team token w v r
Step-IsValid w _ v (commits team token r) = commit_chat_terminal-IsValid team token w v r
Step-IsValid w _ v (stops team container) = stop_turn-IsValid team container w v
Step-IsValid w _ v (registers team token container t h) =
    Agrees-IsValid t w v (register_active_power-Agrees team token container w.turns t h)
Step-IsValid w _ v (releases team token container) =
    Agrees-IsValid (release_active_power team token container w.turns) w v
      (release_active_power-Agrees team token container w.turns)
Step-IsValid w _ v (clears team free) = clear-IsValid team w v free

Reaches-IsValid : (w u : World) → IsValid w → Reaches w u → IsValid u
Reaches-IsValid w _ v here = v
Reaches-IsValid w u v (later m _ r s) = Step-IsValid m u (Reaches-IsValid w m v r) s

-- In every world that the steps reach from the empty state, for every token: if a Stop has
-- accepted it, then its turn has not committed and does not commit while it runs: the commit
-- returns false.
pub stop_excludes_commit :
    (w : World) (t : String)
    → Reaches idle w
    → contains t w.stopped ≡ true
    → (contains t w.committed ≡ false)
      × ((team : String)
          → runs team t w.running ≡ true
          → (commit_chat_terminal team t w.turns).0 ≡ false)
unfolding commit_chat_terminal
stop_excludes_commit w t r h =
    let v = Reaches-IsValid idle w idle-IsValid r in
    (v.decided t h, λ team k. ground (arith, v.marked team t k h))

-- In every world that the steps reach from the empty state, two turns that run for one Team have
-- the same token, and no token runs for two Teams.
pub one_turn_per_team :
    (w : World)
    → Reaches idle w
    → ((team s t : String) → runs team s w.running ≡ true → runs team t w.running ≡ true → s ≡ t)
      × ((a b t : String) → runs a t w.running ≡ true → runs b t w.running ≡ true → a ≡ b)
one_turn_per_team w r = let v = Reaches-IsValid idle w idle-IsValid r in (v.one_turn, v.one_team)
