-- ===== src/Challenge/History.antt =====
-- Histories of a challenge store: any calls of its methods, at any times, with any arguments.
use shimpz_drivers.Prelude.{
  ℕ, ◌≡◌, refl, subst, Bool, List, [], ◌∷◌, String, arith, ok, eq_string, Option-cases, Bool-cases,
  Result-cases, inl, inr, ◌||◌, not, Option,
}
use shimpz_drivers.Prelude.Dict
use shimpz_drivers.Prelude.Dict.{
  Dict, get-put, get-remove, get_of_not_has, get_of_has, has_of_get, length-remove-le,
  length-put-le, IsUnique, remove-IsUnique, put-IsUnique,
}
use shimpz_drivers.Value.{Value}
use shimpz_drivers.Challenge.State.{
  Challenge, Store, check_team_id, remaining_ok, remaining_of, new_store, expire,
}
use shimpz_drivers.Challenge.Store.{
  check_ids, create, get, restore, current, claim_after, cancel_team, cancel_all,
}
use shimpz_drivers.Challenge.Valid.{
  IsValid, expire-IsValid, create_locked-IsValid, restore_locked-IsValid, claim_locked-IsValid,
  Removed-IsValid,
}

-- A call of a method. `claims` is `claim_after`, of which `claim` is an instance.
pub data Call (C P : Type 0) : Type 0 where
  creates : ℕ → List String → Value → C → P → Call C P
  gets : ℕ → Value → Value → Call C P
  asks : ℕ → Value → Call C P
  restores : ℕ → Value → Value → Value → C → P → Call C P
  claims : ℕ → Value → Value → (Challenge C P → Option String) → Call C P
  cancels : Value → Call C P
  clears : Call C P

module _ {C P : Type 0} where
  -- The store that a call leaves, whether it returns or raises.
  unfoldable pub step : Call C P → Store C P → Store C P
  step (creates now draws team shown payload) s = (create now draws team shown payload s).1
  step (gets now team challenge) s = (get now team challenge s).1
  step (asks now team) s = (current now team s).1
  step (restores now team challenge left shown payload) s =
      (restore now team challenge left shown payload s).1
  step (claims now team challenge commit) s = (claim_after now team challenge commit s).1
  step (cancels team) s = (cancel_team team s).1
  step clears s = (cancel_all s).1

  unfoldable pub run : List (Call C P) → Store C P → Store C P
  run [] s = s
  run (c ∷ cs) s = run cs (step c s)

  empty-IsValid : (s : Store C P) → IsValid (record s { pending = []; by_team = [] })
  unfolding Dict.get
  empty-IsValid s = record {
    linked = record {
      unique = tt;
      id_of = λ i c h. absurd (ground arith);
      team_of = λ i c h. absurd (ground arith);
      owner_of = λ t i h. absurd (ground arith);
    };
    bounded = omega arith;
  }

  pub create-IsValid :
      (now : ℕ) (draws : List String) (team : Value) (shown : C) (payload : P) (s : Store C P)
      → IsValid s
      → IsValid (create now draws team shown payload s).1
  unfolding create
  create-IsValid now draws team shown payload s v = elim (Result-cases (check_team_id team)) [
    | inl (e, r) ↦ rw (r, create) v
    | inr (t, r) ↦
        rw (r, create)
          (elim (Bool-cases (s.payload_validator shown)) [
            | inl fine ↦ rw fine (
                create_locked-IsValid now draws t shown payload (expire now s)
                  (expire-IsValid now s v))
            | inr bare ↦ rw bare v
          ])
  ]

  get-IsValid :
      (now : ℕ) (team challenge : Value) (s : Store C P)
      → IsValid s
      → IsValid (get now team challenge s).1
  unfolding get
  get-IsValid now team challenge s v = elim (Result-cases (check_ids team challenge)) [
    | inl (e, r) ↦ rw (r, get) v
    | inr (t, r) ↦ rw (r, get) (expire-IsValid now s v)
  ]

  current-IsValid :
      (now : ℕ) (team : Value) (s : Store C P) → IsValid s → IsValid (current now team s).1
  unfolding current
  current-IsValid now team s v = elim (Result-cases (check_team_id team)) [
    | inl (e, r) ↦ rw (r, current) v
    | inr (t, r) ↦ rw (r, current) (expire-IsValid now s v)
  ]

  restore-IsValid :
      (now : ℕ) (team challenge left : Value) (shown : C) (payload : P) (s : Store C P)
      → IsValid s
      → IsValid (restore now team challenge left shown payload s).1
  unfolding restore
  restore-IsValid now team challenge left shown payload s v =
      elim (Result-cases (check_ids team challenge)) [
        | inl (e, r) ↦ rw (r, restore) v
        | inr ((t, i), r) ↦
            rw (r, restore)
              (elim (Bool-cases
                (not (remaining_ok s.ttl left) || not (s.payload_validator shown))) [
                  | inl wrong ↦ rw wrong v
                  | inr fine ↦ rw fine (
                      restore_locked-IsValid now t i (remaining_of left) shown payload
                        (expire now s) (expire-IsValid now s v))
                ])
      ]

  pub claim_after-IsValid :
      (now : ℕ) (team challenge : Value) (commit : Challenge C P → Option String) (s : Store C P)
      → IsValid s
      → IsValid (claim_after now team challenge commit s).1
  unfolding claim_after
  claim_after-IsValid now team challenge commit s v =
      elim (Result-cases (check_ids team challenge)) [
        | inl (e, r) ↦ rw (r, claim_after) v
        | inr ((t, i), r) ↦
            rw (r, claim_after)
              (claim_locked-IsValid t i commit (expire now s) (expire-IsValid now s v))
      ]

  cancel_team-IsValid : (team : Value) (s : Store C P) → IsValid s → IsValid (cancel_team team s).1
  unfolding cancel_team
  cancel_team-IsValid team s v = elim (Result-cases (check_team_id team)) [
    | inl (e, r) ↦ rw (r, cancel_team) v
    | inr (t, r) ↦
        rw (r, cancel_team)
          (elim (Option-cases (Dict.get t s.by_team)) [
            | inl idle ↦ rw idle v
            | inr (i, busy) ↦
                let (c, at, own) = v.linked.owner_of t i busy in
                rw busy (
                  Removed-IsValid s _ at own
                    (record {
                      unique = remove-IsUnique i s.pending;
                      pending = λ k. get-remove i k s.pending;
                      by_team = λ u. get-remove t u s.by_team;
                    })
                    (record {
                      payload_validator = refl;
                      capacity = refl;
                      ttl = refl;
                      fewer = length-remove-le i s.pending;
                    })
                    v)
          ])
  ]

  -- Every call, whatever it returns or raises, keeps the two dicts joined and within the capacity.
  pub step-IsValid : (c : Call C P) (s : Store C P) → IsValid s → IsValid (step c s)
  unfolding step
  step-IsValid (creates now draws team shown payload) s v =
      create-IsValid now draws team shown payload s v
  step-IsValid (gets now team challenge) s v = get-IsValid now team challenge s v
  step-IsValid (asks now team) s v = current-IsValid now team s v
  step-IsValid (restores now team challenge left shown payload) s v =
      restore-IsValid now team challenge left shown payload s v
  step-IsValid (claims now team challenge commit) s v =
      claim_after-IsValid now team challenge commit s v
  step-IsValid (cancels team) s v = cancel_team-IsValid team s v
  step-IsValid clears s v = unfold cancel_all in empty-IsValid s

  pub run-IsValid : (cs : List (Call C P)) (s : Store C P) → IsValid s → IsValid (run cs s)
  unfolding run
  run-IsValid [] s v = v
  run-IsValid (c ∷ cs) s v = run-IsValid cs (step c s) (step-IsValid c s v)

  -- Whatever is called on a new store, in any order and at any times, each Team has at most one
  -- pending challenge, `by_team` and `pending` name one another, and no more than `capacity`
  -- challenges are pending.
  pub run-new_store-IsValid :
      (validator : C → Bool) (capacity ttl : ℕ) {s : Store C P} (cs : List (Call C P))
      → new_store validator capacity ttl ≡ ok s
      → IsValid (run cs s)
  unfolding new_store
  run-new_store-IsValid validator capacity ttl {s = s} cs made =
      run-IsValid cs s (subst IsValid made_as (empty-IsValid begun))
    where
      begun : Store C P
      begun = record {
        payload_validator = validator;
        capacity = capacity;
        ttl = ttl;
        pending = [];
        by_team = [];
      }

      made_as : begun ≡ s
      made_as = ground arith
