-- ===== src/Pkce/Once.antt =====
-- A consent of team/oauth_pkce_challenges.py is used once: after a claim, its state is dead until it is
-- drawn again.
use shimpz_drivers.Prelude.{
  ℕ, ◌<◌, ◌≡◌, ◌≢◌, sym, ap, ◌∙◌, subst, arith, Bool, false, none, some, List, [], ◌∷◌, String,
  Result, ok, eq_nat, eq_string, str_iff, contains, Result-cases, Option-cases, inl, inr, refl,
}
use shimpz_drivers.Prelude.Dict
use shimpz_drivers.Prelude.Dict.{Dict, get-put}
use shimpz_drivers.Value.{Value}
use shimpz_drivers.Challenge.State.{fresh}
use shimpz_drivers.Challenge.OneUse.{fresh-contains}
use shimpz_drivers.Pkce.Bindings.{
  PkceError, Session, session_digest, team_of, state_of, Binding, binding_of,
}
use shimpz_drivers.Pkce.Store.{
  Intent, OAuthExchange, exchange_of, PendingChallenge, Store, remove, states_of, expire, insert,
  made, in_session, of_team, matches_binding, claim_locked, create_locked, create, claim,
  claim_callback, cancel_session, cancel_team, cancel_all,
}
use shimpz_drivers.Pkce.Expiry.{
  removed, remove_stays, none_stays, expire_kept, claim_locked_ok, claim_locked_missing,
  expired_none,
}
use shimpz_drivers.Pkce.Calls.{
  Call, creates, claims, calls_back, cancels_session, cancels_team, cancels_all, step, run,
}

-- The call draws no challenge under the state `i`.
abbrev pub Avoids : String → Call → Type 0
Avoids i (creates now draws verifier session team assistant account provider scopes) =
    contains i draws ≡ false
Avoids i _ = Unit

abbrev pub AllAvoid : String → List Call → Type 0
AllAvoid i [] = Unit
AllAvoid i (c ∷ cs) = Avoids i c × AllAvoid i cs

abbrev Absent : String → Store → Type 0
Absent i s = Dict.get i s.pending ≡ none

claim_locked-Absent :
    (i j : String) (test : PendingChallenge → Bool) (s : Store)
    → Absent i s
    → Absent i (claim_locked j test s).1
unfolding claim_locked
claim_locked-Absent i j test s h = ground (arith, remove_stays j i s h)

create_locked-Absent :
    (i : String) (s256 : String → String) (now : ℕ) (draws : List String) (verifier : String)
    (b : Binding) (intent : Intent) (s : Store)
    → contains i draws ≡ false
    → Absent i s
    → Absent i (create_locked s256 now draws verifier b intent s).1
unfolding create_locked insert
create_locked-Absent i s256 now draws verifier b intent s again h =
    elim (Option-cases (fresh draws s.pending)) [
      | inl e ↦ ground (arith, h)
      | inr (drawn, e) ↦ ground (
        arith,
        h,
        again,
        fresh-contains draws s.pending drawn e,
        str_iff drawn i,
        get-put drawn i (made drawn verifier (s256 verifier) now s.ttl intent b) s.pending,
      )
    ]

ok_eq : {r : Result PkceError String} {a b : String} → r ≡ ok a → r ≡ ok b → a ≡ b
ok_eq p q = ground (arith, p, q)

module _ (sha256 : List ℕ → String) (s256 : String → String)
    (account_intent : Value → Value → Result PkceError Intent) where
  step-Absent :
      (i : String) (c : Call) (s : Store)
      → Avoids i c
      → Absent i s
      → Absent i (step sha256 s256 account_intent c s)
  unfolding step create claim claim_callback cancel_session cancel_team cancel_all
  step-Absent i (creates now draws verifier session team assistant account provider scopes) s a h =
      elim (Result-cases (binding_of sha256 session team assistant account)) [
        | inl (e, p) ↦ rw (p, step, create) h
        | inr (b, p) ↦ elim (Result-cases (account_intent provider scopes)) [
          | inl (e, q) ↦ rw (p, step, create) (rw q h)
          | inr (intent, q) ↦
              rw (p, step, create)
                (rw q (
                  create_locked-Absent i s256 now draws verifier b intent (expire now s) a
                    (expired_none now i s h)))
        ]
      ]
  step-Absent i (claims now state session team assistant account) s a h =
      elim (Result-cases (state_of state)) [
        | inl (e, p) ↦ rw (p, step, claim) h
        | inr (j, p) ↦ elim (Result-cases (binding_of sha256 session team assistant account)) [
          | inl (e, q) ↦ rw (p, step, claim) (rw q h)
          | inr (b, q) ↦
              rw (p, step, claim)
                (rw q (
                  claim_locked-Absent i j (matches_binding b) (expire now s)
                    (expired_none now i s h)))
        ]
      ]
  step-Absent i (calls_back now state session) s a h = elim (Result-cases (state_of state)) [
    | inl (e, p) ↦ rw (p, step, claim_callback) h
    | inr (j, p) ↦ elim (Result-cases (session_digest sha256 session)) [
      | inl (e, q) ↦ rw (p, step, claim_callback) (rw q h)
      | inr (d, q) ↦
          rw (p, step, claim_callback)
            (rw q (claim_locked-Absent i j (in_session d) (expire now s) (expired_none now i s h)))
    ]
  ]
  step-Absent i (cancels_session session) s a h =
      elim (Result-cases (session_digest sha256 session)) [
        | inl (e, p) ↦ rw (p, step, cancel_session) h
        | inr (d, p) ↦
            rw (p, step, cancel_session) (none_stays (states_of (in_session d) s.pending) i s h)
      ]
  step-Absent i (cancels_team team) s a h = elim (Result-cases (team_of team)) [
    | inl (e, p) ↦ rw (p, step, cancel_team) h
    | inr (t, p) ↦ rw (p, step, cancel_team) (none_stays (states_of (of_team t) s.pending) i s h)
  ]
  step-Absent i cancels_all s a h = unfold Dict.get in refl

  run-Absent :
      (i : String) (cs : List Call) (s : Store)
      → AllAvoid i cs
      → Absent i s
      → Absent i (run sha256 s256 account_intent cs s)
  unfolding run
  run-Absent i [] s a h = h
  run-Absent i (c ∷ cs) s a h =
      run-Absent i cs (step sha256 s256 account_intent c s) a.1 (step-Absent i c s a.0 h)

  claim_callback_ok :
      (now : ℕ) (state : Value) (session : Session) (s t : Store) (x : OAuthExchange)
      → claim_callback sha256 s256 account_intent now state session s ≡ (ok x, t)
      → (i : String) × (d : String) × (state_of state ≡ ok i)
        × (session_digest sha256 session ≡ ok d)
        × (claim_locked i (in_session d) (expire now s) ≡ (ok x, t))
  unfolding claim_callback
  claim_callback_ok now state session s t x h = elim (Result-cases (state_of state)) [
    | inl (e, p) ↦ absurd (ground (arith, h, p))
    | inr (i, p) ↦ elim (Result-cases (session_digest sha256 session)) [
      | inl (e, q) ↦ absurd (ground (arith, h, p, q))
      | inr (d, q) ↦ (i, d, p, q, ground (arith, h, p, q))
    ]
  ]

  -- No claim of a state that is not pending returns.
  claim_callback_dead :
      (now : ℕ) (state : Value) (i : String) (session : Session) (s : Store)
      → state_of state ≡ ok i
      → Absent i s
      → (y : OAuthExchange)
      → (claim_callback sha256 s256 account_intent now state session s).0 ≢ ok y
  unfolding claim_callback
  claim_callback_dead now state i session s p h y =
      elim (Result-cases (session_digest sha256 session)) [
        | inl (e, q) ↦ rw (p, claim_callback) (rw q (λ z. ground (arith, z)))
        | inr (d, q) ↦
            rw (p, claim_callback)
              (rw q
                (claim_locked_missing i (in_session d) (expire now s) (expired_none now i s h) y))
      ]

  claim_dead :
      (now : ℕ) (state : Value) (i : String) (session : Session) (team assistant account : Value)
      (s : Store)
      → state_of state ≡ ok i
      → Absent i s
      → (y : OAuthExchange)
      → (claim sha256 s256 account_intent now state session team assistant account s).0 ≢ ok y
  unfolding claim
  claim_dead now state i session team assistant account s p h y =
      elim (Result-cases (binding_of sha256 session team assistant account)) [
        | inl (e, q) ↦ rw (p, claim) (rw q (λ z. ground (arith, z)))
        | inr (b, q) ↦
            rw (p, claim)
              (rw q (
                claim_locked_missing i (matches_binding b) (expire now s) (expired_none now i s h)
                  y))
      ]

  -- If claim_callback returns an exchange, then it is that of the challenge pending under the state,
  -- which had not expired, and whose stored digest of a session is that of the given session. After
  -- any further calls none of which draws that state again, neither claim_callback nor claim returns
  -- for it, at any time, for any session, Team, Assistant and account.
  pub claim_callback-once :
      (now later : ℕ) (state : Value) (i : String) (session again : Session)
      (team assistant account : Value) (s t : Store) (x y : OAuthExchange) (cs : List Call)
      → claim_callback sha256 s256 account_intent now state session s ≡ (ok x, t)
      → state_of state ≡ ok i
      → AllAvoid i cs
      → ((c : PendingChallenge) × (Dict.get i s.pending ≡ some c)
          × (session_digest sha256 session ≡ ok c.session_digest)
          × (now < c.expires_at)
          × (x ≡ exchange_of c))
        × ((claim_callback sha256 s256 account_intent later state again
              (run sha256 s256 account_intent cs t)).0
            ≢ ok y)
        × ((claim sha256 s256 account_intent later state again team assistant account
              (run sha256 s256 account_intent cs t)).0
            ≢ ok y)
  claim_callback-once now later state i session again team assistant account s t x y cs h named a =
      let (j, d, p, q, k) = claim_callback_ok now state session s t x h in
      let (c, e, m, f, g) = claim_locked_ok j (in_session d) (expire now s) t x k in
      let (was, live) = expire_kept now j s c e in
      let same : j ≡ i = ok_eq p named in
      let gone : Absent i t =
        subst (λ u. Absent i u) (sym g)
          (subst (λ z. Absent z (remove j (expire now s))) same (removed j (expire now s))) in
      let dead = run-Absent i cs t a gone in
      (
        (
          c,
          subst (λ z. Dict.get z s.pending ≡ some c) same was,
          q ∙ ap ok (sym ((str_iff c.session_digest d).0 m)),
          live,
          f,
        ),
        claim_callback_dead later state i again (run sha256 s256 account_intent cs t) named dead y,
        claim_dead later state i again team assistant account (run sha256 s256 account_intent cs t)
            named dead y,
      )
