-- ===== src/Pkce/Expiry.antt =====
-- What is left in the store of team/oauth_pkce_challenges.py by `_remove`, `_expire` and a claim.
use shimpz_drivers.Prelude.{
  ℕ, ◌<◌, ◌≡◌, ◌≢◌, subst, arith, Bool, true, none, some, List, [], ◌∷◌, String, ok, leb, ◌==◌,
  eq_nat, eq_string, str_iff, str_refl, Bool-cases, Option-cases, inl, inr, contains,
}
use shimpz_drivers.Prelude.Dict
use shimpz_drivers.Prelude.Dict.{Dict, get-put, get-remove}
use shimpz_drivers.Pkce.Store.{
  OAuthExchange, exchange_of, PendingChallenge, Store, remove, states_of, remove_each, expire,
  claim_locked,
}

-- `expire` removes, and adds nothing.
get-remove_one :
    (k j : String) (s : Store) {c : PendingChallenge}
    → Dict.get j (remove k s).pending ≡ some c
    → Dict.get j s.pending ≡ some c
unfolding remove
get-remove_one k j s h = ground (arith, h, get-remove k j s.pending)

get-remove_each :
    (l : List String) (j : String) (s : Store) {c : PendingChallenge}
    → Dict.get j (remove_each l s).pending ≡ some c
    → Dict.get j s.pending ≡ some c
unfolding remove_each
get-remove_each [] j s h = h
get-remove_each (k ∷ l) j s h = get-remove_one k j s (get-remove_each l j (remove k s) h)

pub removed : (k : String) (s : Store) → Dict.get k (remove k s).pending ≡ none
unfolding remove
removed k s = ground (arith, get-remove k k s.pending, str_refl k)

pub remove_stays :
    (k j : String) (s : Store)
    → Dict.get j s.pending ≡ none
    → Dict.get j (remove k s).pending ≡ none
unfolding remove
remove_stays k j s h = ground (arith, h, get-remove k j s.pending)

pub none_stays :
    (l : List String) (j : String) (s : Store)
    → Dict.get j s.pending ≡ none
    → Dict.get j (remove_each l s).pending ≡ none
none_stays l j s h = elim (Option-cases (Dict.get j (remove_each l s).pending)) [
  | inl e ↦ e
  | inr (c, e) ↦ absurd (ground (arith, h, get-remove_each l j s e))
]

listed_removed :
    (l : List String) (j : String) (s : Store)
    → contains j l ≡ true
    → Dict.get j (remove_each l s).pending ≡ none
unfolding remove_each
listed_removed [] j s h = absurd (ground (arith, h))
listed_removed (k ∷ l) j s h = elim (Bool-cases (k == j)) [
  | inl e ↦
      none_stays l j (remove k s)
        (subst (λ i. Dict.get i (remove k s).pending ≡ none) ((str_iff k j).0 e) (removed k s))
  | inr e ↦ listed_removed l j (remove k s) (ground (arith, h, e))
]

get-listed :
    (test : PendingChallenge → Bool) (j : String) (d : Dict PendingChallenge) (c : PendingChallenge)
    → Dict.get j d ≡ some c
    → test c ≡ true
    → contains j (states_of test d) ≡ true
unfolding Dict.get states_of
get-listed test j [] c h t = absurd (ground (arith, h))
get-listed test j ((k, e) ∷ d) c h t = ground (arith, h, t, get-listed test j d c, str_iff k j)

-- What `expire` keeps was pending, and has not expired.
pub expire_kept :
    (now : ℕ) (j : String) (s : Store) (c : PendingChallenge)
    → Dict.get j (expire now s).pending ≡ some c
    → (Dict.get j s.pending ≡ some c) × (now < c.expires_at)
unfolding expire
expire_kept now j s c h =
    let was = get-remove_each _ j s h in
    elim (Bool-cases (leb c.expires_at now)) [
      | inl old ↦ absurd (
          ground (
            arith,
            h,
            listed_removed _ j s (get-listed (λ e. leb e.expires_at now) j s.pending c was old),
          ))
      | inr live ↦ (was, ground (arith, live))
    ]

pub claim_locked_ok :
    (identifier : String) (test : PendingChallenge → Bool) (s t : Store) (x : OAuthExchange)
    → claim_locked identifier test s ≡ (ok x, t)
    → (c : PendingChallenge) × (Dict.get identifier s.pending ≡ some c)
      × (test c ≡ true)
      × (x ≡ exchange_of c)
      × (t ≡ remove identifier s)
unfolding claim_locked
claim_locked_ok identifier test s t x h = elim (Option-cases (Dict.get identifier s.pending)) [
  | inl e ↦ absurd (ground (arith, h, e))
  | inr (c, e) ↦ elim (Bool-cases (test c)) [
    | inl k ↦ (c, e, k, ground (arith, h, e, k), ground (arith, h, e, k))
    | inr k ↦ absurd (ground (arith, h, e, k))
  ]
]

pub claim_locked_missing :
    (identifier : String) (test : PendingChallenge → Bool) (s : Store)
    → Dict.get identifier s.pending ≡ none
    → (x : OAuthExchange) → (claim_locked identifier test s).0 ≢ ok x
unfolding claim_locked
claim_locked_missing identifier test s e x = λ h. ground (arith, e, h)

pub expired_none :
    (now : ℕ) (j : String) (s : Store)
    → Dict.get j s.pending ≡ none
    → Dict.get j (expire now s).pending ≡ none
unfolding expire
expired_none now j s h = none_stays _ j s h
