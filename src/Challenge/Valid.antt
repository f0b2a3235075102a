-- ===== src/Challenge/Valid.antt =====
-- Every method of a challenge store keeps its two dicts joined and its size within the capacity.
use shimpz_drivers.Prelude.{
  ℕ, ◌≤◌, ◌≡◌, false, none, some, List, [], ◌∷◌, String, arith, ok, err, leb, ◌==◌, eq_string,
  length, str_iff, Option-cases, Bool-cases, ◌⊎◌, inl, inr, ◌||◌, Option,
}
use shimpz_drivers.Prelude.Dict
use shimpz_drivers.Prelude.Dict.{
  Dict, get-put, get-remove, get_of_not_has, get_of_has, has_of_get, length-remove-le,
  length-put-le, IsUnique, remove-IsUnique, put-IsUnique,
}
use shimpz_drivers.Challenge.State.{
  unavailable, Challenge, Store, fresh, release, expire, available, insert,
}
use shimpz_drivers.Challenge.Store.{create_locked, restore_locked, claim_locked}
use shimpz_drivers.Challenge.Linked.{
  Linked, Removed, Removed-Linked, release-Linked, expire-Linked, Shrunk, expire-Shrunk,
  insert-Linked,
}

pub fresh-absent {ℓ} :
    {V : Type ℓ} (draws : List String) (d : Dict V) (i : String)
    → fresh draws d ≡ some i
    → Dict.get i d ≡ none
unfolding fresh Dict.has
fresh-absent [] d i h = ground arith
fresh-absent (draw ∷ draws) d i h = ground (arith, fresh-absent draws d i)

module _ {C P : Type 0} where
  pub record IsValid (s : Store C P) : Type 0 where
    pub linked : Linked s
    pub bounded : length s.pending ≤ s.capacity

  pub expire-IsValid : (now : ℕ) (s : Store C P) → IsValid s → IsValid (expire now s)
  expire-IsValid now s v = record {
    linked = expire-Linked now s v.linked;
    bounded = let e = expire-Shrunk now s in omega (arith, e.fewer, e.capacity, v.bounded);
  }

  insert-IsValid :
      (c : Challenge C P) (s : Store C P)
      → Dict.get c.id s.pending ≡ none
      → Dict.get c.team_id s.by_team ≡ none
      → leb s.capacity (length s.pending) ≡ false
      → IsValid s
      → IsValid (insert c s)
  insert-IsValid c s new idle room v = record {
    linked = insert-Linked c s new idle v.linked;
    bounded = unfold insert in ground (arith, length-put-le c.id c s.pending);
  }

  release-IsValid :
      (i : String) (c : Challenge C P) (s : Store C P)
      → Dict.get i s.pending ≡ some c
      → IsValid s
      → IsValid (release c.team_id i s)
  release-IsValid i c s at v = record {
    linked = release-Linked i c s at v.linked;
    bounded = unfold release in ground (arith, length-remove-le i s.pending);
  }

  pub create_locked-IsValid :
      (now : ℕ) (draws : List String) (team : String) (shown : C) (payload : P) (s : Store C P)
      → IsValid s
      → IsValid (create_locked now draws team shown payload s).1
  unfolding create_locked
  create_locked-IsValid now draws team shown payload s v =
      elim (Bool-cases (Dict.has team s.by_team)) [
        | inl busy ↦ rw busy v
        | inr idle ↦ rw idle (elim (Bool-cases (leb s.capacity (length s.pending))) [
          | inl full ↦ rw full v
          | inr room ↦ rw room (elim (Option-cases (fresh draws s.pending)) [
            | inl e ↦ rw e v
            | inr (i, e) ↦ rw e (
                insert-IsValid _ s (fresh-absent draws s.pending i e)
                  (get_of_not_has team s.by_team idle) room v)
          ])
        ])
      ]

  pub restore_locked-IsValid :
      (now : ℕ) (team i : String) (left : ℕ) (shown : C) (payload : P) (s : Store C P)
      → IsValid s
      → IsValid (restore_locked now team i left shown payload s).1
  unfolding restore_locked
  restore_locked-IsValid now team i left shown payload s v =
      elim (Bool-cases (Dict.has team s.by_team || Dict.has i s.pending)) [
        | inl busy ↦ rw busy v
        | inr idle ↦ rw idle (elim (Bool-cases (leb s.capacity (length s.pending))) [
          | inl full ↦ rw full v
          | inr room ↦ rw room (
              insert-IsValid _ s (get_of_not_has i s.pending (ground arith))
                (get_of_not_has team s.by_team (ground arith)) room v)
        ])
      ]

  pub available_cases :
      (t i : String) (s : Store C P)
      → (available t i s ≡ err unavailable)
        ⊎ ((c : Challenge C P) × (available t i s ≡ ok c)
            × (Dict.get i s.pending ≡ some c)
            × (c.team_id ≡ t))
  unfolding available
  available_cases t i s = elim (Option-cases (Dict.get i s.pending)) [
    | inl e ↦ inl (rw (e, available))
    | inr (c, e) ↦ elim (Bool-cases (c.team_id == t)) [
      | inl own ↦ inr (c, rw (e, own, available), e, (str_iff c.team_id t).0 own)
      | inr other ↦ inl (rw (e, other, available))
    ]
  ]

  pub claim_locked-IsValid :
      (t i : String) (commit : Challenge C P → Option String) (s : Store C P)
      → IsValid s
      → IsValid (claim_locked t i commit s).1
  unfolding claim_locked
  claim_locked-IsValid t i commit s v = elim (available_cases t i s) [
    | inl e ↦ rw (e, claim_locked) v
    | inr (c, e, at, own) ↦
        rw (e, claim_locked)
          (elim (Option-cases (commit c)) [
            | inl done ↦ rw (done, ← own) (release-IsValid i c s at v)
            | inr (_, raised) ↦ rw raised v
          ])
  ]

  -- Less one challenge and the entry of its Team.
  pub Removed-IsValid :
      {i t : String} {c : Challenge C P} (s s' : Store C P)
      → Dict.get i s.pending ≡ some c
      → c.team_id ≡ t
      → Removed i t s s'
      → Shrunk s s'
      → IsValid s
      → IsValid s'
  Removed-IsValid s s' at own r e v = record {
    linked = Removed-Linked s s' at own r v.linked;
    bounded = omega (arith, e.fewer, e.capacity, v.bounded);
  }
