-- ===== src/Challenge/Examples.antt =====
-- The theorems on challenges at concrete inputs, and tests.
use shimpz_drivers.Prelude.{
  ℕ, ◌<◌, ◌≡◌, ◌≢◌, refl, subst, ap, Bool, Option, none, some, List, [], ◌∷◌, String, arith, ok,
  err, ltb, eq_string,
}
use shimpz_drivers.Prelude.Dict
use shimpz_drivers.Prelude.Dict.{
  Dict, get-put, get-remove, get_of_not_has, get_of_has, has_of_get, length-remove-le,
  length-put-le, IsUnique, remove-IsUnique, put-IsUnique,
}
use shimpz_drivers.Value.{str}
use shimpz_drivers.Challenge.State.{
  unavailable, Challenge, Store, Outcome, check_team_id, check_challenge_id, fresh, new_store,
  expire, available, insert,
}
use shimpz_drivers.Challenge.Store.{
  check_ids, create_locked, create, get, claim_locked, claim_after,
}
use shimpz_drivers.Prelude.Text.{is_team_id, is_hex32}
use shimpz_drivers.Challenge.State.{forget_one, forget_each, expired_ids}
use shimpz_drivers.Challenge.Valid.{IsValid}
use shimpz_drivers.Challenge.History.{
  Call, creates, claims, clears, run, run-new_store-IsValid, create-IsValid,
}
use shimpz_drivers.Challenge.Lifecycle.{get_sound}
use shimpz_drivers.Challenge.OneUse.{claim_after-once}
use shimpz_drivers.Challenge.Window.{create-get, Claims, claim_after-Claims, get-claim_after_raised}

abbrev positive : ℕ → Bool
positive n = ltb 0 n

abbrev draw_a : String
draw_a = "00000000000000000000000000000001"

abbrev draw_b : String
draw_b = "00000000000000000000000000000002"

-- A commit that returns, and one that raises.
abbrev quiet : Challenge ℕ ℕ → Option String
quiet _ = none

abbrev broken : Challenge ℕ ℕ → Option String
broken _ = some "database is locked"

abbrev empty : Store ℕ ℕ
empty = record { payload_validator = positive; capacity = 2; ttl = 30; pending = []; by_team = [] }

new_store-empty : new_store positive 2 30 ≡ ok empty
unfolding new_store
new_store-empty = refl

abbrev script : List (Call ℕ ℕ)
script =
    creates 0 (draw_a ∷ []) (str "red") 1 7 ∷ claims 5 (str "red") (str draw_a) quiet ∷ clears ∷ []

run-new_store-IsValid_example : IsValid (run script empty)
run-new_store-IsValid_example = run-new_store-IsValid positive 2 30 script new_store-empty

-- Team red has the challenge `draw_a`, created at time 0.
abbrev waiting : Challenge ℕ ℕ
waiting = record {
  id = draw_a;
  team_id = "red";
  expires_at = 30_000_000_000;
  challenge_payload = 1;
  payload = 7;
}

abbrev one : Store ℕ ℕ
one = record empty { pending = (draw_a, waiting) ∷ []; by_team = ("red", draw_a) ∷ [] }

empty-IsValid : IsValid empty
unfolding run
empty-IsValid = run-new_store-IsValid positive 2 30 [] new_store-empty

create-one : create 0 (draw_a ∷ []) (str "red") 1 7 empty ≡ (ok (some waiting), one)
unfolding create create_locked check_team_id is_team_id expire expired_ids forget_each forget_one
    fresh insert Dict.has Dict.get Dict.put
create-one = refl

get-one : (get 29_000_000_000 (str "red") (str draw_a) one).0 ≡ ok waiting
unfolding get check_ids check_team_id check_challenge_id is_team_id is_hex32 available expire
    expired_ids forget_each forget_one Dict.has Dict.get Dict.put
get-one = refl

-- Another Team does not get it.
get_other : (get 0 (str "blue") (str draw_a) one).0 ≡ err unavailable
unfolding get check_ids check_team_id check_challenge_id is_team_id is_hex32 available expire
    expired_ids forget_each forget_one Dict.has Dict.get Dict.put
get_other = refl

claim_one : (claim_after 5 (str "red") (str draw_a) quiet one).0 ≡ ok waiting
unfolding claim_after claim_locked check_ids check_team_id check_challenge_id is_team_id is_hex32
    available expire expired_ids forget_each forget_one Dict.has Dict.get Dict.put
claim_one = refl

create_one_result : (create 0 (draw_a ∷ []) (str "red") 1 7 empty).0 ≡ ok (some waiting)
create_one_result = ap (λ (o : Outcome ℕ ℕ (Option (Challenge ℕ ℕ))). o.0) create-one

one-IsValid : IsValid one
one-IsValid =
    subst IsValid (ap (λ (o : Outcome ℕ ℕ (Option (Challenge ℕ ℕ))). o.1) create-one)
      (create-IsValid 0 (draw_a ∷ []) (str "red") 1 7 empty empty-IsValid)

get_sound_example :
    (str "red" ≡ str waiting.team_id)
    × (str draw_a ≡ str waiting.id)
    × (Dict.get waiting.id one.pending ≡ some waiting)
    × (29_000_000_000 < waiting.expires_at)
get_sound_example = get_sound 29_000_000_000 (str "red") (str draw_a) one one-IsValid get-one

claim_after-once_example :
    (claim_after 6 (str "blue") (str draw_a) quiet (
      run
        (creates 6 (draw_b ∷ []) (str "blue") 1 8 ∷ [])
        (claim_after 5 (str "red") (str draw_a) quiet one).1)).0
    ≢ ok waiting
claim_after-once_example =
    claim_after-once 5 6 (str "red") (str draw_a) (str "blue") quiet quiet one
      (creates 6 (draw_b ∷ []) (str "blue") 1 8 ∷ []) one-IsValid claim_one (refl, tt) waiting

create-get_example :
    (get 30_000_000_000 (str "red") (str draw_a) (create 0 (draw_a ∷ []) (str "red") 1 7 empty).1).0
    ≡ err unavailable
create-get_example =
    create-get 0 30_000_000_000 (draw_a ∷ []) "red" 1 7 empty empty-IsValid create_one_result
      (unfold is_hex32 in refl)

claim_after-Claims_example :
    Claims broken
      (get 29_000_000_000 (str "red") (str draw_a) one)
      (claim_after 29_000_000_000 (str "red") (str draw_a) broken one)
claim_after-Claims_example =
    claim_after-Claims 29_000_000_000 (str "red") (str draw_a) broken one one-IsValid

get-claim_after_raised_example :
    (get 29_000_000_001
      (str "red")
      (str draw_a)
      (claim_after 29_000_000_000 (str "red") (str draw_a) broken one).1).0
    ≡ ok waiting
get-claim_after_raised_example =
    get-claim_after_raised 29_000_000_000 29_000_000_001 (str "red") (str draw_a) broken one
      one-IsValid get-one refl (omega arith)
