-- ===== src/Pkce/Examples.antt =====
-- The theorems on OAuth consents at concrete inputs.
use shimpz_drivers.Prelude.{
  ℕ, ◌<◌, ◌≡◌, ◌≢◌, refl, List, [], ◌∷◌, String, Result, ok, some, eq_string,
}
use shimpz_drivers.Prelude.Dict
use shimpz_drivers.Value.{Value, str}
use shimpz_drivers.Pkce.Bindings.{
  PkceError, text, session_digest, state_of, bound_state, unbind, same_binding,
}
use shimpz_drivers.Pkce.Store.{
  Intent, PendingChallenge, exchange_of, Store, new_store, claim_callback, claim, claim_locked,
  expire, remove, remove_each, unlink, states_of,
}
use shimpz_drivers.Pkce.Valid.{IsValid}
use shimpz_drivers.Pkce.Calls.{Call, creates, claims, calls_back, run, run-IsValid}
use shimpz_drivers.Pkce.Once.{claim_callback-once}

abbrev digest : List ℕ → String
digest _ = "digest"

abbrev intent : Value → Value → Result PkceError Intent
intent _ _ = ok (record { provider_id = "google"; pkce_method = "S256"; scopes = [] })

abbrev new : Store
new = record {
  capacity = 2;
  per_session = 1;
  per_team = 1;
  ttl = 60;
  pending = [];
  by_binding = [];
}

built : new_store 2 1 1 60 ≡ ok new
unfolding new_store
built = refl

abbrev state : String
state = "abcdefghijklmnopqrstuvwxyz0123456789ABCDEFG"

abbrev consent : PendingChallenge
consent = record {
  shown = record {
    state = state;
    provider_id = "google";
    scopes = [];
    code_challenge = "challenge";
    code_challenge_method = "S256";
    expires_in = 60;
  };
  session_digest = "digest";
  team_id = "team";
  assistant_id = "mail";
  account_id = "google";
  code_verifier = "verifier";
  expires_at = 60_000_000_000;
}

abbrev pending_one : Store
pending_one = record new {
  pending = (state, consent) ∷ [];
  by_binding =
      (record { session = "digest"; team = "team"; assistant = "mail"; account = "google" }, state)
      ∷ [];
}

abbrev calls : List Call
calls =
    creates 0 (state ∷ []) "verifier" (text "0123456789abcdef") (str "team") (str "mail")
      (str "google") (str "google") (str "scopes")
    ∷ calls_back 5 (str state) (text "0123456789abcdef")
    ∷ []

run-IsValid_example : IsValid (run digest (λ v. "challenge") intent calls new)
run-IsValid_example = run-IsValid digest (λ v. "challenge") intent 2 1 1 60 new calls built

returned :
    claim_callback digest
      (λ v. "challenge")
      intent
      5
      (str state)
      (text "0123456789abcdef")
      pending_one
    ≡ (ok (exchange_of consent), new)
unfolding claim_callback state_of session_digest expire remove_each states_of claim_locked Dict.get
    remove unlink unbind bound_state same_binding Dict.remove
returned = refl

-- Another consent of the same session, and a claim of the used state.
abbrev later_calls : List Call
later_calls =
    creates 6 ("fresh" ∷ []) "verifier" (text "0123456789abcdef") (str "team") (str "mail")
      (str "google") (str "google") (str "scopes")
    ∷ claims 7 (str state) (text "0123456789abcdef") (str "team") (str "mail") (str "google")
    ∷ []

pending_under : state_of (str state) ≡ ok state
unfolding state_of
pending_under = refl

claim_callback-once_example :
    ((c : PendingChallenge) × (Dict.get state pending_one.pending ≡ some c)
      × (session_digest digest (text "0123456789abcdef") ≡ ok c.session_digest)
      × (5 < c.expires_at)
      × (exchange_of consent ≡ exchange_of c))
    × ((claim_callback digest
          (λ v. "challenge")
          intent
          8
          (str state)
          (text "0123456789abcdef")
          (run digest (λ v. "challenge") intent later_calls new)).0
        ≢ ok (exchange_of consent))
    × ((claim digest
          (λ v. "challenge")
          intent
          8
          (str state)
          (text "0123456789abcdef")
          (str "team")
          (str "mail")
          (str "google")
          (run digest (λ v. "challenge") intent later_calls new)).0
        ≢ ok (exchange_of consent))
claim_callback-once_example =
    claim_callback-once digest (λ v. "challenge") intent 5 8 (str state) state
      (text "0123456789abcdef") (text "0123456789abcdef") (str "team") (str "mail") (str "google")
      pending_one new (exchange_of consent) (exchange_of consent) later_calls returned pending_under
      (refl, (tt, tt))
