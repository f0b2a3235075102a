-- ===== src/Pkce/Valid.antt =====
-- The invariant of the store of team/oauth_pkce_challenges.py.
use shimpz_drivers.Prelude.{
  ℕ, ◌+◌, ◌≤◌, ◌<◌, ◌≡◌, ◌↔◌, refl, sym, ap, ◌∙◌, subst, arith, Bool, true, none, some, List, [],
  ◌∷◌, String, if◌then◌else◌, leb, ◌==◌, eq_nat, eq_string, length, str_iff, Bool-cases,
  Option-cases, inl, inr,
}
use shimpz_drivers.Prelude.Dict
use shimpz_drivers.Prelude.Dict.{Dict, get-put, get-remove, length-put-le, length-remove-le}
use shimpz_drivers.Challenge.State.{fresh}
use shimpz_drivers.Pkce.Bindings.{Binding, same_binding, Bound, bound_state, bind, unbind}
use shimpz_drivers.Pkce.Store.{
  Intent, PendingChallenge, Store, binding_held, unlink, remove, states_of, remove_each, expire,
  in_session, of_team, has_binding, made, insert, create_locked, claim_locked,
}

same_binding_iff : (a b : Binding) → (same_binding a b ≡ true) ↔ (a ≡ b)
unfolding same_binding
same_binding_iff a b = ground (
  arith,
  str_iff a.session b.session,
  str_iff a.team b.team,
  str_iff a.assistant b.assistant,
  str_iff a.account b.account,
)

bound_state-bind :
    (b c : Binding) (state : String) (m : Bound)
    → bound_state c (bind b state m) ≡ (if same_binding b c then some state else bound_state c m)
unfolding bound_state bind
bound_state-bind b c state [] = refl
bound_state-bind b c state ((a, s) ∷ m) = ground (
  arith,
  bound_state-bind b c state m,
  same_binding_iff a b,
  same_binding_iff a c,
  same_binding_iff b c,
)

bound_state-unbind :
    (b c : Binding) (m : Bound)
    → bound_state c (unbind b m) ≡ (if same_binding b c then none else bound_state c m)
unfolding bound_state unbind
bound_state-unbind b c [] = ground arith
bound_state-unbind b c ((a, s) ∷ m) = ground (
  arith,
  bound_state-unbind b c m,
  same_binding_iff a b,
  same_binding_iff a c,
  same_binding_iff b c,
)

count-remove :
    (test : PendingChallenge → Bool) (k : String) (d : Dict PendingChallenge)
    → length (states_of test (Dict.remove k d)) ≤ length (states_of test d)
unfolding states_of Dict.remove
count-remove test k [] = omega arith
count-remove test k ((j, c) ∷ d) = ground (arith, count-remove test k d)

count-put :
    (test : PendingChallenge → Bool) (k : String) (c : PendingChallenge) (d : Dict PendingChallenge)
    → length (states_of test (Dict.put k c d))
      ≤ (if test c then 1 else 0) + length (states_of test d)
unfolding states_of Dict.put
count-put test k c [] = ground arith
count-put test k c ((j, e) ∷ d) = ground (arith, count-put test k c d)

pub record IsValid (s : Store) : Type 0 where
  pub bounded : length s.pending ≤ s.capacity
  pub session_bounded :
      (digest : String) → length (states_of (in_session digest) s.pending) ≤ s.per_session
  pub team_bounded : (team : String) → length (states_of (of_team team) s.pending) ≤ s.per_team
  pub linked :
      (k : String) (c : PendingChallenge)
      → Dict.get k s.pending ≡ some c
      → bound_state (binding_held c) s.by_binding ≡ some k

pub remove-IsValid : (state : String) (s : Store) → IsValid s → IsValid (remove state s)
unfolding remove unlink
remove-IsValid state s v = elim (Option-cases (Dict.get state s.pending)) [
  | inl e ↦ subst IsValid (sym (ground (arith, e))) v
  | inr (c, e) ↦
      let q : remove state s ≡ record s {
        pending = Dict.remove state s.pending;
        by_binding = unbind (binding_held c) s.by_binding;
      } =
        ground (arith, e, v.linked state c e, str_iff state state) in
      subst IsValid (sym q) (record {
        bounded = omega (arith, v.bounded, length-remove-le state s.pending);
        session_bounded = λ digest.
            omega
              (arith, v.session_bounded digest, count-remove (in_session digest) state s.pending);
        team_bounded =
            λ team. omega (arith, v.team_bounded team, count-remove (of_team team) state s.pending);
        linked = λ k d h. ground (
          arith,
          h,
          e,
          get-remove state k s.pending,
          v.linked state c,
          v.linked k d,
          bound_state-unbind (binding_held c) (binding_held d) s.by_binding,
          same_binding_iff (binding_held c) (binding_held d),
          str_iff state k,
        );
      })
]

pub remove_each-IsValid : (l : List String) (s : Store) → IsValid s → IsValid (remove_each l s)
unfolding remove_each
remove_each-IsValid [] s v = v
remove_each-IsValid (k ∷ l) s v = remove_each-IsValid l (remove k s) (remove-IsValid k s v)

pub expire-IsValid : (now : ℕ) (s : Store) → IsValid s → IsValid (expire now s)
unfolding expire
expire-IsValid now s v = remove_each-IsValid _ s v

linked_after :
    (b : Binding) (state k : String) (c d : PendingChallenge) (s : Store)
    → binding_held c ≡ b
    → IsValid s
    → bound_state b s.by_binding ≡ none
    → (if state == k then some c else Dict.get k s.pending) ≡ some d
    → bound_state (binding_held d) (bind b state s.by_binding) ≡ some k
linked_after b state k c d s held v free h = elim (Bool-cases (state == k)) [
  | inl e ↦
      let same : c ≡ d = ground (arith, h, e) in
      let of_b : b ≡ binding_held d = sym held ∙ ap binding_held same in
      ground (
        arith,
        bound_state-bind b (binding_held d) state s.by_binding,
        of_b,
        e,
        str_iff state k,
        same_binding_iff b (binding_held d),
      )
  | inr e ↦
      let old : bound_state (binding_held d) s.by_binding ≡ some k =
        v.linked k d (ground (arith, h, e)) in
      ground (
        arith,
        bound_state-bind b (binding_held d) state s.by_binding,
        old,
        free,
        same_binding_iff b (binding_held d),
      )
]

pub insert-IsValid :
    (state verifier challenge : String) (now ttl : ℕ) (intent : Intent) (b : Binding) (s : Store)
    → IsValid s
    → bound_state b s.by_binding ≡ none
    → Dict.get state s.pending ≡ none
    → length s.pending < s.capacity
    → length (states_of (in_session b.session) s.pending) < s.per_session
    → length (states_of (of_team b.team) s.pending) < s.per_team
    → IsValid (insert b (made state verifier challenge now ttl intent b) s)
unfolding insert
insert-IsValid state verifier challenge now ttl intent b s v free unused room session_room
      team_room =
    let c = made state verifier challenge now ttl intent b in
    record {
      bounded = omega (arith, room, length-put-le state c s.pending);
      session_bounded = λ digest. ground (
        arith,
        v.session_bounded digest,
        session_room,
        str_iff b.session digest,
        count-put (in_session digest) state c s.pending,
      );
      team_bounded = λ team. ground (
        arith,
        v.team_bounded team,
        team_room,
        str_iff b.team team,
        count-put (of_team team) state c s.pending,
      );
      linked =
          λ k d h. linked_after b state k c d s refl v free (sym (get-put state k c s.pending) ∙ h);
    }

fresh-unused :
    {V : Type 0} (draws : List String) (d : Dict V) (state : String)
    → fresh draws d ≡ some state
    → Dict.get state d ≡ none
unfolding fresh Dict.has
fresh-unused [] d state h = absurd (ground (arith, h))
fresh-unused (x ∷ xs) d state h = ground (arith, h, fresh-unused xs d state)

pub create_locked-IsValid :
    (s256 : String → String) (now : ℕ) (draws : List String) (verifier : String) (b : Binding)
    (intent : Intent) (s : Store)
    → IsValid s
    → IsValid (create_locked s256 now draws verifier b intent s).1
unfolding create_locked
create_locked-IsValid s256 now draws verifier b intent s v =
    elim (Bool-cases (has_binding (bound_state b s.by_binding))) [
      | inl e ↦ rw e v
      | inr free ↦ rw free (elim (Bool-cases (leb s.capacity (length s.pending))) [
        | inl e ↦ rw e v
        | inr room ↦
            rw room
              (elim (Bool-cases
                (leb s.per_session (length (states_of (in_session b.session) s.pending)))) [
                  | inl e ↦ rw e v
                  | inr session_room ↦
                      rw session_room
                        (elim (Bool-cases
                          (leb s.per_team (length (states_of (of_team b.team) s.pending)))) [
                            | inl e ↦ rw e v
                            | inr team_room ↦
                                rw team_room (elim (Option-cases (fresh draws s.pending)) [
                                  | inl e ↦ rw e v
                                  | inr (state, e) ↦ rw e (
                                      insert-IsValid state verifier (s256 verifier) now s.ttl intent
                                        b s v (ground (arith, free))
                                        (fresh-unused draws s.pending state e)
                                        (ground (arith, room)) (ground (arith, session_room))
                                        (ground (arith, team_room)))
                                ])
                          ])
                ])
      ])
    ]

pub claim_locked-IsValid :
    (identifier : String) (test : PendingChallenge → Bool) (s : Store)
    → IsValid s
    → IsValid (claim_locked identifier test s).1
unfolding claim_locked
claim_locked-IsValid identifier test s v = elim (Option-cases (Dict.get identifier s.pending)) [
  | inl e ↦ rw (e, claim_locked) v
  | inr (c, e) ↦ elim (Bool-cases (test c)) [
    | inl t ↦ rw (e, claim_locked) (rw t (remove-IsValid identifier s v))
    | inr t ↦ rw (e, claim_locked) (rw t v)
  ]
]
