-- ===== src/Challenge/OneUse.antt =====
-- A challenge is used once: after a claim, its identifier is dead until it is minted again.
use shimpz_drivers.Prelude.{
  ℕ, ◌+◌, ◌*◌, ◌≡◌, ◌≢◌, refl, true, false, none, some, List, [], ◌∷◌, String, arith, ok, ◌==◌,
  eq_string, str_iff, str_refl, str_ne, contains, Option-cases, Result-cases, inl, inr, Option,
}
use shimpz_drivers.Prelude.Dict
use shimpz_drivers.Prelude.Dict.{
  Dict, get-put, get-remove, get_of_not_has, get_of_has, has_of_get, length-remove-le,
  length-put-le, IsUnique, remove-IsUnique, put-IsUnique,
}
use shimpz_drivers.Value.{Value, str}
use shimpz_drivers.Challenge.State.{
  second, Challenge, Store, check_team_id, remaining_of, fresh, release, expire, available, insert,
}
use shimpz_drivers.Challenge.Store.{
  check_ids, create_locked, create, get, restore_locked, restore, current, claim_locked,
  claim_after, cancel_team, cancel_all,
}
use shimpz_drivers.Challenge.Linked.{expire-absent}
use shimpz_drivers.Challenge.Valid.{IsValid}
use shimpz_drivers.Challenge.History.{
  Call, creates, gets, asks, restores, claims, cancels, clears, run, step,
}
use shimpz_drivers.Challenge.Lifecycle.{check_ids-ok, claim_after-Claimed}

pub fresh-contains {ℓ} :
    {V : Type ℓ} (draws : List String) (d : Dict V) (i : String)
    → fresh draws d ≡ some i
    → contains i draws ≡ true
unfolding fresh
fresh-contains [] d i h = absurd (ground arith)
fresh-contains (draw ∷ draws) d i h = ground (arith, str_iff draw i, fresh-contains draws d i)

module _ {C P : Type 0} where
  -- The call brings no challenge with the identifier `i` into the store.
  abbrev pub Avoids : String → Call C P → Type 0
  Avoids i (creates now draws team shown payload) = contains i draws ≡ false
  Avoids i (restores now team challenge left shown payload) = challenge ≢ str i
  Avoids i _ = Unit

  abbrev pub AllAvoid : String → List (Call C P) → Type 0
  AllAvoid i [] = Unit
  AllAvoid i (c ∷ cs) = Avoids i c × AllAvoid i cs

  abbrev Absent : String → Store C P → Type 0
  Absent i s = Dict.get i s.pending ≡ none

  insert-Absent :
      (i : String) (c : Challenge C P) (s : Store C P)
      → (c.id == i) ≡ false
      → Absent i s
      → Absent i (insert c s)
  unfolding insert
  insert-Absent i c s other h = ground (arith, get-put c.id i c s.pending)

  create_locked-Absent :
      (i : String) (now : ℕ) (draws : List String) (team : String) (shown : C) (payload : P)
      (s : Store C P)
      → contains i draws ≡ false
      → Absent i s
      → Absent i (create_locked now draws team shown payload s).1
  unfolding create_locked
  create_locked-Absent i now draws team shown payload s other h =
      elim (Option-cases (fresh draws s.pending)) [
        | inl e ↦ rw e (ground arith)
        | inr (j, e) ↦ rw e (
            ground (
              arith,
              fresh-contains draws s.pending j e,
              str_iff j i,
              insert-Absent i
                  (record {
                    id = j;
                    team_id = team;
                    expires_at = now + s.ttl * second;
                    challenge_payload = shown;
                    payload = payload;
                  })
                  s,
            ))
      ]

  restore_locked-Absent :
      (i : String) (now : ℕ) (team j : String) (left : ℕ) (shown : C) (payload : P) (s : Store C P)
      → (j == i) ≡ false
      → Absent i s
      → Absent i (restore_locked now team j left shown payload s).1
  unfolding restore_locked
  restore_locked-Absent i now team j left shown payload s other h = ground (
    arith,
    insert-Absent i
        (record {
          id = j;
          team_id = team;
          expires_at = now + left * second;
          challenge_payload = shown;
          payload = payload;
        })
        s,
  )

  claim_locked-Absent :
      (i t j : String) (commit : Challenge C P → Option String) (s : Store C P)
      → Absent i s
      → Absent i (claim_locked t j commit s).1
  unfolding claim_locked release
  claim_locked-Absent i t j commit s h = ground (arith, get-remove j i s.pending)

  step-Absent :
      (i : String) (c : Call C P) (s : Store C P) → Avoids i c → Absent i s → Absent i (step c s)
  unfolding step create get current restore claim_after cancel_team cancel_all
  step-Absent i (creates now draws team shown payload) s a h =
      elim (Result-cases (check_team_id team)) [
        | inl (e, r) ↦ rw (r, step, create) h
        | inr (t, r) ↦
            rw (r, step, create)
              (ground (
                arith,
                create_locked-Absent i now draws t shown payload (expire now s) a
                    (expire-absent now s i h),
              ))
      ]
  step-Absent i (restores now team challenge left shown payload) s a h =
      elim (Result-cases (check_ids team challenge)) [
        | inl (e, r) ↦ rw (r, step, restore) h
        | inr ((t, j), r) ↦
            let other : j ≢ i = λ same. a (rw (← same) (check_ids-ok team challenge r).1) in
            rw (r, step, restore)
              (ground (
                arith,
                restore_locked-Absent i now t j (remaining_of left) shown payload (expire now s)
                    (str_ne other) (expire-absent now s i h),
              ))
      ]
  step-Absent i (gets now team challenge) s a h = ground (arith, expire-absent now s i h)
  step-Absent i (asks now team) s a h = ground (arith, expire-absent now s i h)
  step-Absent i (claims now team challenge commit) s a h =
      elim (Result-cases (check_ids team challenge)) [
        | inl (e, r) ↦ rw (r, step, claim_after) h
        | inr ((t, j), r) ↦
            rw (r, step, claim_after)
              (claim_locked-Absent i t j commit (expire now s) (expire-absent now s i h))
      ]
  step-Absent i (cancels team) s a h = elim (Result-cases (check_team_id team)) [
    | inl (e, r) ↦ rw (r, step, cancel_team) h
    | inr (t, r) ↦ elim (Option-cases (Dict.get t s.by_team)) [
      | inl e ↦ rw (r, step, cancel_team) (rw e h)
      | inr (j, e) ↦ rw (r, step, cancel_team) (rw e (ground (arith, get-remove j i s.pending)))
    ]
  ]
  step-Absent i clears s a h = unfold Dict.get in refl

  run-Absent :
      (i : String) (cs : List (Call C P)) (s : Store C P)
      → AllAvoid i cs
      → Absent i s
      → Absent i (run cs s)
  unfolding run
  run-Absent i [] s a h = h
  run-Absent i (c ∷ cs) s a h = run-Absent i cs (step c s) a.1 (step-Absent i c s a.0 h)

  claim_after-Absent :
      (now : ℕ) (team challenge : Value) (commit : Challenge C P → Option String) (s : Store C P)
      {c : Challenge C P}
      → IsValid s
      → (claim_after now team challenge commit s).0 ≡ ok c
      → Absent c.id (claim_after now team challenge commit s).1
  claim_after-Absent now team challenge commit s {c} v h =
      let done = claim_after-Claimed now team challenge commit s v h in
      rw done.after (unfold release in rw get-remove (rw str_refl))

  -- A claim of an identifier that is not pending does not return, whatever Team asks.
  claim_after-dead :
      (now : ℕ) (team challenge : Value) {i : String} (commit : Challenge C P → Option String)
      (s : Store C P)
      → challenge ≡ str i
      → Absent i s
      → (c : Challenge C P) → (claim_after now team challenge commit s).0 ≢ ok c
  unfolding claim_after claim_locked available
  claim_after-dead now team challenge {i} commit s e h c q =
      elim (Result-cases (check_ids team challenge)) [
        | inl (_, r) ↦ ground arith
        | inr ((t, j), r) ↦ ground (arith, check_ids-ok team challenge r, expire-absent now s i h)
      ]

  -- One use: once a challenge has been claimed in a store that keeps its invariant, no later claim of
  -- its identifier returns, by any Team, at any time and after any calls, unless one of these mints or
  -- restores that identifier.
  pub claim_after-once :
      (now later : ℕ) (team challenge other : Value) (commit again : Challenge C P → Option String)
      (s : Store C P) {c : Challenge C P} (cs : List (Call C P))
      → IsValid s
      → (claim_after now team challenge commit s).0 ≡ ok c
      → AllAvoid c.id cs
      → (d : Challenge C P)
      → (claim_after later other challenge again
          (run cs (claim_after now team challenge commit s).1)).0
        ≢ ok d
  claim_after-once now later team challenge other commit again s {c} cs v h a =
      let done = claim_after-Claimed now team challenge commit s v h in
      claim_after-dead later other challenge again _ done.of_id
        (run-Absent c.id cs _ a (claim_after-Absent now team challenge commit s v h))
