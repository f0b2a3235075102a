-- ===== src/Pkce/Calls.antt =====
-- Histories of the store of team/oauth_pkce_challenges.py, and the invariant that each call keeps.
use shimpz_drivers.Prelude.{
  ℕ, ◌≡◌, arith, Bool, List, [], ◌∷◌, String, Result, ok, eq_nat, eq_string, Result-cases, inl, inr,
}
use shimpz_drivers.Prelude.Dict
use shimpz_drivers.Prelude.Dict.{Dict, get-put, get-remove}
use shimpz_drivers.Value.{Value}
use shimpz_drivers.Pkce.Bindings.{PkceError, Session, session_digest, team_of, state_of, binding_of}
use shimpz_drivers.Pkce.Store.{
  Intent, PendingChallenge, Store, new_store, states_of, expire, in_session, of_team,
  matches_binding, cancelled, create, claim, claim_callback, cancel_session, cancel_team,
  cancel_all,
}
use shimpz_drivers.Pkce.Valid.{
  IsValid, remove_each-IsValid, expire-IsValid, create_locked-IsValid, claim_locked-IsValid,
}

-- A call of a method of the store.
pub data Call : Type 0 where
  creates : ℕ → List String → String → Session → Value → Value → Value → Value → Value → Call
  claims : ℕ → Value → Session → Value → Value → Value → Call
  calls_back : ℕ → Value → Session → Call
  cancels_session : Session → Call
  cancels_team : Value → Call
  cancels_all : Call

cancelled-IsValid :
    (test : PendingChallenge → Bool) (s : Store) → IsValid s → IsValid (cancelled test s).1
cancelled-IsValid test s v = remove_each-IsValid (states_of test s.pending) s v

new_store-IsValid :
    (capacity per_session per_team ttl : ℕ) {s : Store}
    → new_store capacity per_session per_team ttl ≡ ok s
    → IsValid s
unfolding new_store states_of Dict.get
new_store-IsValid capacity per_session per_team ttl {s} h =
    let q : s.pending ≡ [] = ground (arith, h) in
    record {
      bounded = ground (arith, q);
      session_bounded = λ digest. ground (arith, q);
      team_bounded = λ team. ground (arith, q);
      linked = λ k c e. absurd (ground (arith, q, e));
    }

module _ (sha256 : List ℕ → String) (s256 : String → String)
    (account_intent : Value → Value → Result PkceError Intent) where
  -- The store that a call leaves, whether it returns or raises.
  unfoldable pub step : Call → Store → Store
  step (creates now draws verifier session team assistant account provider scopes) s =
      (create sha256 s256 account_intent now draws verifier session team assistant account provider
        scopes s).1
  step (claims now state session team assistant account) s =
      (claim sha256 s256 account_intent now state session team assistant account s).1
  step (calls_back now state session) s =
      (claim_callback sha256 s256 account_intent now state session s).1
  step (cancels_session session) s = (cancel_session sha256 s256 account_intent session s).1
  step (cancels_team team) s = (cancel_team sha256 s256 account_intent team s).1
  step cancels_all s = (cancel_all sha256 s256 account_intent s).1

  unfoldable pub run : List Call → Store → Store
  run [] s = s
  run (c ∷ cs) s = run cs (step c s)

  create-IsValid :
      (now : ℕ) (draws : List String) (verifier : String) (session : Session)
      (team assistant account provider scopes : Value) (s : Store)
      → IsValid s
      → IsValid
          (create sha256 s256 account_intent now draws verifier session team assistant account
            provider scopes s).1
  unfolding create
  create-IsValid now draws verifier session team assistant account provider scopes s v =
      elim (Result-cases (binding_of sha256 session team assistant account)) [
        | inl (e, p) ↦ rw (p, create) v
        | inr (b, p) ↦ elim (Result-cases (account_intent provider scopes)) [
          | inl (e, q) ↦ rw (p, create) (rw q v)
          | inr (intent, q) ↦
              rw (p, create)
                (rw q (
                  create_locked-IsValid s256 now draws verifier b intent (expire now s)
                    (expire-IsValid now s v)))
        ]
      ]

  claim-IsValid :
      (now : ℕ) (state : Value) (session : Session) (team assistant account : Value) (s : Store)
      → IsValid s
      → IsValid (claim sha256 s256 account_intent now state session team assistant account s).1
  unfolding claim
  claim-IsValid now state session team assistant account s v =
      elim (Result-cases (state_of state)) [
        | inl (e, p) ↦ rw (p, claim) v
        | inr (i, p) ↦ elim (Result-cases (binding_of sha256 session team assistant account)) [
          | inl (e, q) ↦ rw (p, claim) (rw q v)
          | inr (b, q) ↦
              rw (p, claim)
                (rw q (
                  claim_locked-IsValid i (matches_binding b) (expire now s)
                    (expire-IsValid now s v)))
        ]
      ]

  claim_callback-IsValid :
      (now : ℕ) (state : Value) (session : Session) (s : Store)
      → IsValid s
      → IsValid (claim_callback sha256 s256 account_intent now state session s).1
  unfolding claim_callback
  claim_callback-IsValid now state session s v = elim (Result-cases (state_of state)) [
    | inl (e, p) ↦ rw (p, claim_callback) v
    | inr (i, p) ↦ elim (Result-cases (session_digest sha256 session)) [
      | inl (e, q) ↦ rw (p, claim_callback) (rw q v)
      | inr (d, q) ↦
          rw (p, claim_callback)
            (rw q (claim_locked-IsValid i (in_session d) (expire now s) (expire-IsValid now s v)))
    ]
  ]

  cancel_session-IsValid :
      (session : Session) (s : Store)
      → IsValid s
      → IsValid (cancel_session sha256 s256 account_intent session s).1
  unfolding cancel_session
  cancel_session-IsValid session s v = elim (Result-cases (session_digest sha256 session)) [
    | inl (e, p) ↦ rw (p, cancel_session) v
    | inr (d, p) ↦ rw (p, cancel_session) (cancelled-IsValid (in_session d) s v)
  ]

  cancel_team-IsValid :
      (team : Value) (s : Store)
      → IsValid s
      → IsValid (cancel_team sha256 s256 account_intent team s).1
  unfolding cancel_team
  cancel_team-IsValid team s v = elim (Result-cases (team_of team)) [
    | inl (e, p) ↦ rw (p, cancel_team) v
    | inr (t, p) ↦ rw (p, cancel_team) (cancelled-IsValid (of_team t) s v)
  ]

  step-IsValid : (c : Call) (s : Store) → IsValid s → IsValid (step c s)
  unfolding step cancel_all states_of Dict.get
  step-IsValid (creates now draws verifier session team assistant account provider scopes) s v =
      create-IsValid now draws verifier session team assistant account provider scopes s v
  step-IsValid (claims now state session team assistant account) s v =
      claim-IsValid now state session team assistant account s v
  step-IsValid (calls_back now state session) s v = claim_callback-IsValid now state session s v
  step-IsValid (cancels_session session) s v = cancel_session-IsValid session s v
  step-IsValid (cancels_team team) s v = cancel_team-IsValid team s v
  step-IsValid cancels_all s v = record {
    bounded = omega arith;
    session_bounded = λ digest. omega arith;
    team_bounded = λ team. omega arith;
    linked = λ k c e. absurd (ground (arith, e));
  }

  kept-IsValid : (cs : List Call) (s : Store) → IsValid s → IsValid (run cs s)
  unfolding run
  kept-IsValid [] s v = v
  kept-IsValid (c ∷ cs) s v = kept-IsValid cs (step c s) (step-IsValid c s v)

  -- After any calls on a new store: no more challenges are pending than the capacity, than the limit
  -- of each session and than that of each Team allow, and `_by_binding` names each pending challenge
  -- under its binding, so that no two have the same.
  pub run-IsValid :
      (capacity per_session per_team ttl : ℕ) (s : Store) (cs : List Call)
      → new_store capacity per_session per_team ttl ≡ ok s
      → IsValid (run cs s)
  run-IsValid capacity per_session per_team ttl s cs h =
      kept-IsValid cs s (new_store-IsValid capacity per_session per_team ttl h)
