-- ===== src/Pkce/Store.antt =====
-- `OAuthPKCEChallengeStore` of team/oauth_pkce_challenges.py. The lock makes each method one step; the
-- time is an argument in nanoseconds, and so are the tokens that `secrets` draws.
use shimpz_drivers.Prelude.{
  ℕ, ◌+◌, ◌*◌, Bool, true, false, ◌&&◌, Option, none, some, List, [], ◌∷◌, String, Result, ok, err,
  ◌>>◌, require, if◌then◌else◌, leb, ◌==◌, eq_nat, eq_string, length,
}
use shimpz_drivers.Prelude.Dict
use shimpz_drivers.Prelude.Dict.{Dict}
use shimpz_drivers.Value.{Value}
use shimpz_drivers.Challenge.State.{fresh, second}
use shimpz_drivers.Pkce.Bindings.{
  PkceError, not_found, pending_exists, capacity_reached, session_capacity, team_capacity,
  settings_invalid, draws_ended, Session, session_digest, team_of, state_of, Binding, binding_of,
  Bound, bound_state, bind, unbind,
}

-- What `oauth_providers.account_intent` gives.
pub record Intent : Type 0 where
  pub provider_id : String
  pub pkce_method : String
  pub scopes : List String

pub record OAuthAuthorizationChallenge : Type 0 where
  pub state : String
  pub provider_id : String
  pub scopes : List String
  pub code_challenge : String
  pub code_challenge_method : String
  pub expires_in : ℕ

pub record OAuthExchange : Type 0 where
  pub provider_id : String
  pub scopes : List String
  pub code_verifier : String
  pub team_id : String
  pub assistant_id : String
  pub account_id : String

pub record PendingChallenge : Type 0 where
  pub shown : OAuthAuthorizationChallenge
  pub session_digest : String
  pub team_id : String
  pub assistant_id : String
  pub account_id : String
  pub code_verifier : String
  pub expires_at : ℕ

pub record Store : Type 0 where
  pub capacity : ℕ
  pub per_session : ℕ
  pub per_team : ℕ
  pub ttl : ℕ
  pub pending : Dict PendingChallenge
  pub by_binding : Bound

abbrev pub Outcome : Type 0 → Type 0
Outcome A = Result PkceError A × Store

-- __init__
unfoldable pub new_store : ℕ → ℕ → ℕ → ℕ → Result PkceError Store
new_store capacity per_session per_team ttl_seconds = do
  require (leb 1 capacity && leb capacity 1024) settings_invalid
  require (leb 1 per_session && leb per_session capacity) settings_invalid
  require (leb 1 per_team && leb per_team capacity) settings_invalid
  require (leb 30 ttl_seconds && leb ttl_seconds 900) settings_invalid
  ok (record {
    capacity = capacity;
    per_session = per_session;
    per_team = per_team;
    ttl = ttl_seconds;
    pending = [];
    by_binding = [];
  })

abbrev pub binding_held : PendingChallenge → Binding
binding_held c = record {
  session = c.session_digest;
  team = c.team_id;
  assistant = c.assistant_id;
  account = c.account_id;
}

-- `if self._by_binding.get(binding) == state: self._by_binding.pop(binding, None)`
unfoldable pub unlink : Binding → String → Bound → Bound
unlink b state bound = elim (bound_state b bound) [
  | none ↦ bound
  | some s ↦ if s == state then unbind b bound else bound
]

-- _remove
unfoldable pub remove : String → Store → Store
remove state s = elim (Dict.get state s.pending) [
  | none ↦ s
  | some challenge ↦ record s {
    pending = Dict.remove state s.pending;
    by_binding = unlink (binding_held challenge) state s.by_binding;
  }
]

-- The states of the pending challenges that pass a test, and their removal one by one.
unfoldable pub states_of : (PendingChallenge → Bool) → Dict PendingChallenge → List String
states_of test [] = []
states_of test ((state, challenge) ∷ rest) =
    let states = states_of test rest in if test challenge then state ∷ states else states

unfoldable pub remove_each : List String → Store → Store
remove_each [] s = s
remove_each (state ∷ states) s = remove_each states (remove state s)

-- _expire
unfoldable pub expire : ℕ → Store → Store
expire now s = remove_each (states_of (λ c. leb c.expires_at now) s.pending) s

abbrev pub in_session : String → PendingChallenge → Bool
in_session digest c = c.session_digest == digest

abbrev pub of_team : String → PendingChallenge → Bool
of_team team c = c.team_id == team

abbrev pub has_binding : Option String → Bool
has_binding none = false
has_binding (some s) = true

-- The challenge that `create` stores.
abbrev pub made : String → String → String → ℕ → ℕ → Intent → Binding → PendingChallenge
made state verifier code_challenge now ttl intent b = record {
  shown = record {
    state = state;
    provider_id = intent.provider_id;
    scopes = intent.scopes;
    code_challenge = code_challenge;
    code_challenge_method = intent.pkce_method;
    expires_in = ttl;
  };
  session_digest = b.session;
  team_id = b.team;
  assistant_id = b.assistant;
  account_id = b.account;
  code_verifier = verifier;
  expires_at = now + ttl * second;
}

unfoldable pub insert : Binding → PendingChallenge → Store → Store
insert b c s = record s {
  pending = Dict.put c.shown.state c s.pending;
  by_binding = bind b c.shown.state s.by_binding;
}

-- `create` under the lock, after `_expire`; `s256` is the base64url digest of a verifier.
unfoldable pub create_locked :
    (String → String)
    → ℕ
    → List String
    → String
    → Binding
    → Intent
    → Store
    → Outcome OAuthAuthorizationChallenge
create_locked s256 now draws verifier b intent s =
    if has_binding (bound_state b s.by_binding)
    then (err pending_exists, s)
    else if leb s.capacity (length s.pending)
    then (err capacity_reached, s)
    else if leb s.per_session (length (states_of (in_session b.session) s.pending))
    then (err session_capacity, s)
    else if leb s.per_team (length (states_of (of_team b.team) s.pending))
    then (err team_capacity, s)
    else elim (fresh draws s.pending) [
      | none ↦ (err draws_ended, s)
      | some state ↦
          let c = made state verifier (s256 verifier) now s.ttl intent b in
          (ok c.shown, insert b c s)
    ]

abbrev pub exchange_of : PendingChallenge → OAuthExchange
exchange_of c = record {
  provider_id = c.shown.provider_id;
  scopes = c.shown.scopes;
  code_verifier = c.code_verifier;
  team_id = c.team_id;
  assistant_id = c.assistant_id;
  account_id = c.account_id;
}

-- The end of `claim` and of `claim_callback`: the challenge, if it is there and passes the test.
unfoldable pub claim_locked : String → (PendingChallenge → Bool) → Store → Outcome OAuthExchange
claim_locked identifier test s = elim (Dict.get identifier s.pending) [
  | none ↦ (err not_found, s)
  | some challenge ↦
      if test challenge
      then (ok (exchange_of challenge), remove identifier s)
      else (err not_found, s)
]

abbrev pub matches_binding : Binding → PendingChallenge → Bool
matches_binding b c =
    c.session_digest == b.session
    && c.team_id == b.team
    && c.assistant_id == b.assistant
    && c.account_id == b.account

abbrev pub cancelled : (PendingChallenge → Bool) → Store → Outcome ℕ
cancelled test s =
    (ok (length (states_of test s.pending)), remove_each (states_of test s.pending) s)

module _ (sha256 : List ℕ → String) (s256 : String → String)
    (account_intent : Value → Value → Result PkceError Intent) where
  unfoldable pub create :
      ℕ
      → List String
      → String
      → Session
      → Value
      → Value
      → Value
      → Value
      → Value
      → Store
      → Outcome OAuthAuthorizationChallenge
  create now draws verifier session team_id assistant_id account_id provider_id scopes s =
      elim (binding_of sha256 session team_id assistant_id account_id) [
        | err e ↦ (err e, s)
        | ok b ↦ elim (account_intent provider_id scopes) [
          | err e ↦ (err e, s)
          | ok intent ↦ create_locked s256 now draws verifier b intent (expire now s)
        ]
      ]

  unfoldable pub claim : ℕ → Value → Session → Value → Value → Value → Store → Outcome OAuthExchange
  claim now state session team_id assistant_id account_id s = elim (state_of state) [
    | err e ↦ (err e, s)
    | ok identifier ↦ elim (binding_of sha256 session team_id assistant_id account_id) [
      | err e ↦ (err e, s)
      | ok b ↦ claim_locked identifier (matches_binding b) (expire now s)
    ]
  ]

  unfoldable pub claim_callback : ℕ → Value → Session → Store → Outcome OAuthExchange
  claim_callback now state session s = elim (state_of state) [
    | err e ↦ (err e, s)
    | ok identifier ↦ elim (session_digest sha256 session) [
      | err e ↦ (err e, s)
      | ok digest ↦ claim_locked identifier (in_session digest) (expire now s)
    ]
  ]

  unfoldable pub cancel_session : Session → Store → Outcome ℕ
  cancel_session session s = elim (session_digest sha256 session) [
    | err e ↦ (err e, s)
    | ok digest ↦ cancelled (in_session digest) s
  ]

  unfoldable pub cancel_team : Value → Store → Outcome ℕ
  cancel_team team_id s = elim (team_of team_id) [
    | err e ↦ (err e, s)
    | ok team ↦ cancelled (of_team team) s
  ]

  unfoldable pub cancel_all : Store → ℕ × Store
  cancel_all s = (length s.pending, record s { pending = []; by_binding = [] })
