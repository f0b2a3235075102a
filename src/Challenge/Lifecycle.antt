-- ===== src/Challenge/Lifecycle.antt =====
-- What a challenge can be used for, and for how long.
use shimpz_drivers.Prelude.{
  ℕ, ◌<◌, ◌≡◌, true, some, String, arith, ok, eq_string, str_iff, Result-cases, inl, inr, Option,
}
use shimpz_drivers.Prelude.Dict
use shimpz_drivers.Prelude.Dict.{
  Dict, get-put, get-remove, get_of_not_has, get_of_has, has_of_get, length-remove-le,
  length-put-le, IsUnique, remove-IsUnique, put-IsUnique,
}
use shimpz_drivers.Value.{Value, str}
use shimpz_drivers.Challenge.State.{
  Challenge, Store, check_team_id, check_challenge_id, release, expire, available,
}
use shimpz_drivers.Challenge.Store.{check_ids, get, claim_locked, claim_after}
use shimpz_drivers.Challenge.Linked.{Linked, pending-expire}
use shimpz_drivers.Prelude.Text.{is_team_id, is_hex32}
use shimpz_drivers.Challenge.Valid.{IsValid}

pub check_team_id-ok :
    (v : Value) {t : String} → check_team_id v ≡ ok t → (v ≡ str t) × (is_team_id t ≡ true)
unfolding check_team_id
check_team_id-ok (str s) h = ground arith
check_team_id-ok _ h = absurd (ground arith)

pub check_challenge_id-ok :
    (v : Value) {i : String} → check_challenge_id v ≡ ok i → (v ≡ str i) × (is_hex32 i ≡ true)
unfolding check_challenge_id
check_challenge_id-ok (str s) h = ground arith
check_challenge_id-ok _ h = absurd (ground arith)

pub check_ids-ok :
    (u v : Value) {t i : String}
    → check_ids u v ≡ ok (t, i)
    → (u ≡ str t) × (v ≡ str i) × (is_team_id t ≡ true) × (is_hex32 i ≡ true)
unfolding check_ids
check_ids-ok u v h = elim (Result-cases (check_team_id u)) [
  | inl (e, r) ↦ absurd (ground arith)
  | inr (t, r) ↦ elim (Result-cases (check_challenge_id v)) [
    | inl (e, q) ↦ absurd (ground arith)
    | inr (i, q) ↦ ground (arith, check_team_id-ok u r, check_challenge_id-ok v q)
  ]
]

module _ {C P : Type 0} where
  pub available-ok :
      (t i : String) (s : Store C P) {c : Challenge C P}
      → available t i s ≡ ok c
      → (Dict.get i s.pending ≡ some c) × (c.team_id ≡ t)
  unfolding available
  available-ok t i s {c} h = ground (arith, str_iff c.team_id t)

  -- An entry that outlived `_expire` was there before, and its time has not come.
  pub expire-get :
      (now : ℕ) (s : Store C P) (i : String) {c : Challenge C P}
      → Linked s
      → Dict.get i (expire now s).pending ≡ some c
      → (Dict.get i s.pending ≡ some c) × (now < c.expires_at)
  expire-get now s i v h = ground (arith, pending-expire now s i v)

  -- In a store that keeps its invariant, what `get` returns is the pending challenge of the identifier
  -- that was given, it belongs to the Team that asks, and its time has not come.
  pub get_sound :
      (now : ℕ) (team challenge : Value) (s : Store C P) {c : Challenge C P}
      → IsValid s
      → (get now team challenge s).0 ≡ ok c
      → (team ≡ str c.team_id)
        × (challenge ≡ str c.id)
        × (Dict.get c.id s.pending ≡ some c)
        × (now < c.expires_at)
  unfolding get
  get_sound now team challenge s {c} v h = elim (Result-cases (check_ids team challenge)) [
    | inl (e, r) ↦ absurd (ground arith)
    | inr ((t, i), r) ↦
        let ids = check_ids-ok team challenge r in
        let found = available-ok t i (expire now s) {c = c} (ground arith) in
        let kept = expire-get now s i v.linked found.0 in
        let named = v.linked.id_of i _ kept.0 in
        (ground arith, ground arith, ground arith, ground arith)
  ]

  -- How a claim that returns went.
  pub record Claimed (now : ℕ) (team challenge : Value) (s s' : Store C P) (c : Challenge C P)
      : Type 0 where
    pub of_team : team ≡ str c.team_id
    pub of_id : challenge ≡ str c.id
    pub was : Dict.get c.id s.pending ≡ some c
    pub in_time : now < c.expires_at
    pub after : s' ≡ release c.team_id c.id (expire now s)

  pub claim_after-Claimed :
      (now : ℕ) (team challenge : Value) (commit : Challenge C P → Option String) (s : Store C P)
      {c : Challenge C P}
      → IsValid s
      → (claim_after now team challenge commit s).0 ≡ ok c
      → Claimed now team challenge s (claim_after now team challenge commit s).1 c
  unfolding claim_after claim_locked
  claim_after-Claimed now team challenge commit s {c} v h =
      elim (Result-cases (check_ids team challenge)) [
        | inl (e, r) ↦ absurd (ground arith)
        | inr ((t, i), r) ↦ elim (Result-cases (available t i (expire now s))) [
          | inl (e, q) ↦ absurd (ground arith)
          | inr (d, q) ↦
              let same : d ≡ c = ground arith in
              let ids = check_ids-ok team challenge r in
              let found = available-ok t i (expire now s) {c = d} q in
              let kept = expire-get now s i v.linked found.0 in
              let named = v.linked.id_of i d kept.0 in
              record {
                of_team = ground arith;
                of_id = ground arith;
                was = ground arith;
                in_time = ground arith;
                after = ground arith;
              }
        ]
      ]
