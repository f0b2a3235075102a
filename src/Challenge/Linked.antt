-- ===== src/Challenge/Linked.antt =====
-- The invariant that joins the two dicts of a challenge store, and what the pieces of its methods
-- do to it.
use shimpz_drivers.Prelude.{
  ℕ, ◌≤◌, ◌≡◌, ◌≢◌, refl, false, Option, none, some, List, [], ◌∷◌, String, arith, leb, ◌==◌,
  eq_string, if◌then◌else◌, length, str_iff, contains, Option-cases, Bool-cases, inl, inr, ◌∙◌,
}
use shimpz_drivers.Prelude.Dict
use shimpz_drivers.Prelude.Dict.{
  Dict, get-put, get-remove, length-remove-le, length-put-le, IsUnique, remove-IsUnique,
  put-IsUnique,
}
use shimpz_drivers.Challenge.State.{
  Challenge, Store, unlink, release, forget_one, forget_each, expired_ids, expire, insert,
}

pub get-unlink :
    (t i u : String) (d : Dict String)
    → Dict.get t d ≡ some i
    → Dict.get u (unlink t i d) ≡ (if t == u then none else Dict.get u d)
unfolding unlink
get-unlink t i u d h = ground (arith, get-remove t u d, str_iff i i)

module _ {C P : Type 0} where
  -- Each Team with an entry in `by_team` has one pending challenge, that which the entry names, and
  -- each pending challenge is filed under its identifier and named by the entry of its Team.
  pub record Linked (s : Store C P) : Type 0 where
    pub unique : IsUnique s.pending
    pub id_of : (i : String) (c : Challenge C P) → Dict.get i s.pending ≡ some c → c.id ≡ i
    pub team_of :
        (i : String) (c : Challenge C P)
        → Dict.get i s.pending ≡ some c
        → Dict.get c.team_id s.by_team ≡ some i
    pub owner_of :
        (t i : String)
        → Dict.get t s.by_team ≡ some i
        → (c : Challenge C P) × (Dict.get i s.pending ≡ some c) × (c.team_id ≡ t)

  -- `s'` is `s` less the challenge `i` and the entry of the Team `t`.
  pub record Removed (i t : String) (s s' : Store C P) : Type 0 where
    pub unique : IsUnique s.pending → IsUnique s'.pending
    pub pending :
        (k : String) → Dict.get k s'.pending ≡ (if i == k then none else Dict.get k s.pending)
    pub by_team :
        (u : String) → Dict.get u s'.by_team ≡ (if t == u then none else Dict.get u s.by_team)

  module _ {i t : String} {c : Challenge C P} (s s' : Store C P) where
    pub Removed-Linked :
        Dict.get i s.pending ≡ some c → c.team_id ≡ t → Removed i t s s' → Linked s → Linked s'
    Removed-Linked h e r v = record {
      unique = r.unique v.unique;
      id_of = λ k d p. ground (arith, r.pending k, v.id_of k d);
      team_of = λ k d p. ground (
        arith,
        r.pending k,
        r.by_team d.team_id,
        v.team_of k d,
        v.team_of i c,
        str_iff i k,
        str_iff t d.team_id,
      );
      owner_of = λ u k p.
          let old : Dict.get u s.by_team ≡ some k = ground (arith, r.by_team u) in
          let other : t ≢ u = λ q. ground (arith, r.by_team u, str_iff t u) in
          let (d, at, owner) = v.owner_of u k old in
          (d, ground (arith, r.pending k, str_iff i k, other), owner);
    }

  pub release-Removed :
      (i : String) (c : Challenge C P) (s : Store C P)
      → Dict.get i s.pending ≡ some c
      → Linked s
      → Removed i c.team_id s (release c.team_id i s)
  unfolding release
  release-Removed i c s h v = record {
    unique = remove-IsUnique i s.pending;
    pending = λ k. get-remove i k s.pending;
    by_team = λ u. get-unlink c.team_id i u s.by_team (v.team_of i c h);
  }

  pub release-Linked :
      (i : String) (c : Challenge C P) (s : Store C P)
      → Dict.get i s.pending ≡ some c
      → Linked s
      → Linked (release c.team_id i s)
  release-Linked i c s h v =
      Removed-Linked s (release c.team_id i s) h refl (release-Removed i c s h v) v

  forget_one-Linked : (i : String) (s : Store C P) → Linked s → Linked (forget_one i s)
  unfolding forget_one
  forget_one-Linked i s v = elim (Option-cases (Dict.get i s.pending)) [
    | inl gone ↦ rw (gone, forget_one) v
    | inr (c, at) ↦ rw (at, forget_one) (release-Linked i c s at v)
  ]

  forget_each-Linked : (ids : List String) (s : Store C P) → Linked s → Linked (forget_each ids s)
  unfolding forget_each
  forget_each-Linked [] s v = v
  forget_each-Linked (i ∷ ids) s v =
      forget_each-Linked ids (forget_one i s) (forget_one-Linked i s v)

  pub expire-Linked : (now : ℕ) (s : Store C P) → Linked s → Linked (expire now s)
  unfolding expire
  expire-Linked now s v = forget_each-Linked (expired_ids now s.pending) s v

  get-forget_one :
      (i k : String) (s : Store C P)
      → Dict.get k (forget_one i s).pending ≡ (if i == k then none else Dict.get k s.pending)
  unfolding forget_one
  get-forget_one i k s = ground (arith, get-remove i k s.pending, str_iff i k)

  get-forget_each :
      (ids : List String) (s : Store C P) (k : String)
      → Dict.get k (forget_each ids s).pending
        ≡ (if contains k ids then none else Dict.get k s.pending)
  unfolding forget_each
  get-forget_each [] s k = refl
  get-forget_each (i ∷ ids) s k =
      ground (arith, get-forget_one i k s, get-forget_each ids (forget_one i s) k)

  -- No challenge comes back by `_expire`.
  pub expire-absent :
      (now : ℕ) (s : Store C P) (k : String)
      → Dict.get k s.pending ≡ none
      → Dict.get k (expire now s).pending ≡ none
  unfolding expire
  expire-absent now s k h = ground (arith, get-forget_each (expired_ids now s.pending) s k)

  -- What the clock leaves of an entry.
  abbrev pub live : ℕ → Option (Challenge C P) → Option (Challenge C P)
  live now none = none
  live now (some c) = if leb c.expires_at now then none else some c

  expired_ids-absent :
      (now : ℕ) (d : Dict (Challenge C P)) (k : String)
      → Dict.get k d ≡ none
      → contains k (expired_ids now d) ≡ false
  unfolding expired_ids Dict.get
  expired_ids-absent now [] k h = refl
  expired_ids-absent now ((i, c) ∷ d) k h = ground (arith, expired_ids-absent now d k)

  expired_ids-live :
      (now : ℕ) (d : Dict (Challenge C P)) (k : String)
      → IsUnique d
      → (if contains k (expired_ids now d) then none else Dict.get k d) ≡ live now (Dict.get k d)
  unfolding expired_ids Dict.get
  expired_ids-live now [] k u = refl
  expired_ids-live now ((i, c) ∷ d) k u =
      ground (arith, str_iff i k, expired_ids-absent now d k, expired_ids-live now d k u.1)

  -- `_expire` drops exactly the entries whose time has come.
  pub pending-expire :
      (now : ℕ) (s : Store C P) (k : String)
      → Linked s
      → Dict.get k (expire now s).pending ≡ live now (Dict.get k s.pending)
  unfolding expire
  pending-expire now s k v =
      get-forget_each (expired_ids now s.pending) s k ∙ expired_ids-live now s.pending k v.unique

  -- `s'` is `s` with no more challenges, under the same configuration.
  pub record Shrunk (s s' : Store C P) : Type 0 where
    pub payload_validator : s'.payload_validator ≡ s.payload_validator
    pub capacity : s'.capacity ≡ s.capacity
    pub ttl : s'.ttl ≡ s.ttl
    pub fewer : length s'.pending ≤ length s.pending

  forget_one-Shrunk : (i : String) (s : Store C P) → Shrunk s (forget_one i s)
  unfolding forget_one
  forget_one-Shrunk i s = ground (arith, length-remove-le i s.pending)

  forget_each-Shrunk : (ids : List String) (s : Store C P) → Shrunk s (forget_each ids s)
  unfolding forget_each
  forget_each-Shrunk [] s = ground arith
  forget_each-Shrunk (i ∷ ids) s =
      ground (arith, forget_one-Shrunk i s, forget_each-Shrunk ids (forget_one i s))

  pub expire-Shrunk : (now : ℕ) (s : Store C P) → Shrunk s (expire now s)
  unfolding expire
  expire-Shrunk now s = forget_each-Shrunk (expired_ids now s.pending) s

  pub insert-Linked :
      (c : Challenge C P) (s : Store C P)
      → Dict.get c.id s.pending ≡ none
      → Dict.get c.team_id s.by_team ≡ none
      → Linked s
      → Linked (insert c s)
  unfolding insert
  insert-Linked c s new idle v = record {
    unique = put-IsUnique c.id c s.pending v.unique;
    id_of = λ k d p. ground (arith, get-put c.id k c s.pending, v.id_of k d, str_iff c.id k);
    team_of = λ k d p. ground (
      arith,
      get-put c.id k c s.pending,
      get-put c.team_id d.team_id c.id s.by_team,
      v.team_of k d,
      str_iff c.id k,
      str_iff c.team_id d.team_id,
    );
    owner_of = λ u k p. owner u k p;
  }
    where
      owner :
          (u k : String)
          → Dict.get u (insert c s).by_team ≡ some k
          → (d : Challenge C P) × (Dict.get k (insert c s).pending ≡ some d) × (d.team_id ≡ u)
      owner u k p = elim (Bool-cases (c.team_id == u)) [
        | inl e ↦ (
          c,
          ground (
            arith,
            e,
            get-put c.id k c s.pending,
            get-put c.team_id u c.id s.by_team,
            str_iff c.id k,
          ),
          (str_iff c.team_id u).0 e,
        )
        | inr e ↦
            let old : Dict.get u s.by_team ≡ some k =
              ground (arith, e, get-put c.team_id u c.id s.by_team) in
            let (d, at, own) = v.owner_of u k old in
            (d, ground (arith, get-put c.id k c s.pending, str_iff c.id k), own)
      ]
