-- ===== src/Challenge/Window.antt =====
-- How long a challenge lives, and what a failed commit leaves.
use shimpz_drivers.Prelude.{
  ℕ, ◌+◌, ◌*◌, ◌<◌, ◌≡◌, sym, subst, true, some, List, String, arith, ok, err, ltb, leb, eq_string,
  if◌then◌else◌, str_iff, str_refl, Option-cases, Result-cases, inl, inr, ◌∙◌, Option, refl, none,
  ◌==◌,
}
use shimpz_drivers.Prelude.Dict
use shimpz_drivers.Prelude.Dict.{
  Dict, get-put, get-remove, get_of_not_has, get_of_has, has_of_get, length-remove-le,
  length-put-le, IsUnique, remove-IsUnique, put-IsUnique,
}
use shimpz_drivers.Value.{Value, str}
use shimpz_drivers.Challenge.State.{
  unavailable, commit_raised, second, Challenge, Store, Outcome, check_team_id, check_challenge_id,
  fresh, expire, available, insert,
}
use shimpz_drivers.Challenge.Store.{
  check_ids, create_locked, create, get, claim_locked, claim_after,
}
use shimpz_drivers.Challenge.Linked.{
  Linked, release-Removed, expire-Linked, pending-expire, expire-Shrunk,
}
use shimpz_drivers.Prelude.Text.{is_team_id, is_hex32}
use shimpz_drivers.Challenge.Valid.{IsValid}
use shimpz_drivers.Challenge.History.{create-IsValid}
use shimpz_drivers.Challenge.Lifecycle.{available-ok}

module _ {C P : Type 0} where
  -- How a `create` that returns went.
  record Created (now : ℕ) (t : String) (s s' : Store C P) (c : Challenge C P) : Type 0 where
    named : is_team_id t ≡ true
    of_team : c.team_id ≡ t
    until : c.expires_at ≡ now + s.ttl * second
    after : s' ≡ insert c (expire now s)

  create-Created :
      (now : ℕ) (draws : List String) (t : String) (shown : C) (payload : P) (s : Store C P)
      {c : Challenge C P}
      → (create now draws (str t) shown payload s).0 ≡ ok (some c)
      → Created now t s (create now draws (str t) shown payload s).1 c
  unfolding create create_locked check_team_id
  create-Created now draws t shown payload s {c} h =
      let ttl = (expire-Shrunk now s).ttl in
      elim (Option-cases (fresh draws (expire now s).pending)) [
        | inl e ↦ absurd (ground arith)
        | inr (i, e) ↦ record {
          named = ground arith;
          of_team = ground arith;
          until = ground arith;
          after = ground arith;
        }
      ]

  get-insert : (c : Challenge C P) (s : Store C P) → Dict.get c.id (insert c s).pending ≡ some c
  unfolding insert
  get-insert c s = rw get-put (rw str_refl)

  get_inserted :
      (later : ℕ) (c : Challenge C P) (s : Store C P)
      → Linked (insert c s)
      → is_team_id c.team_id ≡ true
      → is_hex32 c.id ≡ true
      → (get later (str c.team_id) (str c.id) (insert c s)).0
        ≡ (if leb c.expires_at later then err unavailable else ok c)
  unfolding get check_ids check_team_id check_challenge_id available
  get_inserted later c s v team_fine id_fine =
      ground (
        arith,
        get-insert c s,
        pending-expire later (insert c s) c.id v,
        str_iff c.team_id c.team_id,
      )

  -- A challenge that `create` returned, on a store that keeps its invariant, is what `get` returns for
  -- its Team and identifier at each time before its limit, `ttl` seconds after its creation, and from
  -- then on it is unavailable, if its identifier has the form of a drawn one.
  pub create-get :
      (now later : ℕ) (draws : List String) (t : String) (shown : C) (payload : P) (s : Store C P)
      {c : Challenge C P}
      → IsValid s
      → (create now draws (str t) shown payload s).0 ≡ ok (some c)
      → is_hex32 c.id ≡ true
      → (get later (str t) (str c.id) (create now draws (str t) shown payload s).1).0
        ≡ (if ltb later (now + s.ttl * second) then ok c else err unavailable)
  create-get now later draws t shown payload s {c} v h id_fine =
      let made = create-Created now draws t shown payload s {c = c} h in
      let kept = create-IsValid now draws (str t) shown payload s v in
      let linked = subst Linked made.after kept.linked in
      let fine = subst (λ u. is_team_id u ≡ true) (sym made.of_team) made.named in
      let found = get_inserted later c (expire now s) linked fine id_fine in
      rw (made.after, ← made.of_team) (found ∙ ground (arith, made.until))

  -- What a claim of the challenge `c`, found in the store `s`, gives beside what its commit does.
  abbrev pub Settles :
      Option String → Challenge C P → Store C P → Outcome C P (Challenge C P) → Type 0
  Settles (some raised) c s (r, t) = (r ≡ err (commit_raised raised)) × (t ≡ s)
  Settles none c s (r, t) =
      (r ≡ ok c)
      × ((i : String) → Dict.get i t.pending ≡ (if c.id == i then none else Dict.get i s.pending))
      × ((u : String)
          → Dict.get u t.by_team ≡ (if c.team_id == u then none else Dict.get u s.by_team))

  -- What a claim gives beside what `get` gives.
  abbrev pub Claims :
      (Challenge C P → Option String)
      → Outcome C P (Challenge C P)
      → Outcome C P (Challenge C P)
      → Type 0
  Claims commit (err e, s) claimed = claimed ≡ (err e, s)
  Claims commit (ok c, s) claimed = Settles (commit c) c s claimed

  -- In a store that keeps its invariant: where `get` raises, `claim_after` at the same time raises the
  -- same and leaves the same store. Where `get` finds a challenge and the commit of it raises,
  -- `claim_after` raises what the commit raises and leaves the store that `get` leaves; where the
  -- commit returns, it returns the challenge and leaves that store less the challenge and the entry of
  -- its Team, with all other challenges and entries as they were.
  pub claim_after-Claims :
      (now : ℕ) (team challenge : Value) (commit : Challenge C P → Option String) (s : Store C P)
      → IsValid s
      → Claims commit (get now team challenge s) (claim_after now team challenge commit s)
  unfolding get claim_after claim_locked
  claim_after-Claims now team challenge commit s v =
      elim (Result-cases (check_ids team challenge)) [
        | inl (e, r) ↦ rw (r, get, claim_after) refl
        | inr ((t, i), r) ↦ elim (Result-cases (available t i (expire now s))) [
          | inl (e, q) ↦ rw (r, get, claim_after) (rw (q, claim_locked) refl)
          | inr (c, q) ↦
              let linked = expire-Linked now s v.linked in
              let found = available-ok t i (expire now s) {c = c} q in
              let left = release-Removed i c (expire now s) found.0 linked in
              elim (Option-cases (commit c)) [
                | inr (x, p) ↦
                    rw (r, get, claim_after) (rw (q, claim_locked) (rw (p, Settles) (refl, refl)))
                | inl p ↦
                    rw (r, get, claim_after)
                      (rw (q, claim_locked)
                        (rw (p, Settles)
                          (rw (linked.id_of i c found.0, ← found.1)
                            (refl, left.pending, left.by_team))))
              ]
        ]
      ]

  -- In a store that keeps its invariant, a commit that raises leaves the challenge that `get` found:
  -- until its time comes, it can be found as before.
  pub get-claim_after_raised :
      (now later : ℕ) (team challenge : Value) (commit : Challenge C P → Option String)
      (s : Store C P) {c : Challenge C P} {x : String}
      → IsValid s
      → (get now team challenge s).0 ≡ ok c
      → commit c ≡ some x
      → later < c.expires_at
      → (get later team challenge (claim_after now team challenge commit s).1).0 ≡ ok c
  unfolding get claim_after claim_locked
  get-claim_after_raised now later team challenge commit s {c} {x} v h raised time =
      elim (Result-cases (check_ids team challenge)) [
        | inl (e, r) ↦ absurd (ground arith)
        | inr ((t, i), r) ↦
            let found = available-ok t i (expire now s) {c = c} (ground arith) in
            let left : (claim_after now team challenge commit s).1 ≡ expire now s = ground arith in
            rw (r, get)
              (rw left (
                unfold available in
                ground (
                  arith,
                  pending-expire later (expire now s) i (expire-Linked now s v.linked),
                  str_iff c.team_id t,
                )))
      ]
