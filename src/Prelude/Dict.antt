-- ===== src/Prelude/Dict.antt =====
-- Python's `dict` with text keys, as the list of its items in insertion order.
use Prim.Native.Nat.{◌+◌, ◌≤◌}
use Prim.Native.String.{String}
use mathlib.Core.Path.{◌≡◌, refl}
use mathlib.Core.Bool.{Bool, true, false}
use mathlib.Core.Option.{Option, none, some}
use mathlib.Core.List.{List, [], ◌∷◌}
use native.Mathlib.Omega.{arith}
use shimpz_drivers.Prelude.Tests.{if◌then◌else◌, ◌==◌, eq_string, str_iff}
use shimpz_drivers.Prelude.Lists.{length}

abbrev pub Dict {ℓ} : Type ℓ → Type ℓ
Dict V = List (String × V)

module _ {ℓ} {V : Type ℓ} where
  -- d.get(k)
  unfoldable pub get : String → Dict V → Option V
  get k [] = none
  get k ((j, v) ∷ d) = if j == k then some v else get k d

  -- k in d
  unfoldable pub has : String → Dict V → Bool
  has k d = elim (get k d) [ none ↦ false | some v ↦ true ]

  -- d[k] = v: a new key goes to the end, an old one keeps its place
  unfoldable pub put : String → V → Dict V → Dict V
  put k v [] = (k, v) ∷ []
  put k v ((j, w) ∷ d) = if j == k then (k, v) ∷ d else (j, w) ∷ put k v d

  -- d.pop(k, None), del d[k]
  unfoldable pub remove : String → Dict V → Dict V
  remove k [] = []
  remove k ((j, v) ∷ d) = let rest = remove k d in if j == k then rest else (j, v) ∷ rest

  -- {k: v for k, v in d.items() if test(k, v)}
  unfoldable pub restrict : (String → V → Bool) → Dict V → Dict V
  restrict test [] = []
  restrict test ((j, v) ∷ d) =
      let rest = restrict test d in if test j v then (j, v) ∷ rest else rest

  pub get-put :
      (k j : String) (v : V) (d : Dict V) → get j (put k v d) ≡ (if k == j then some v else get j d)
  unfolding get put
  get-put k j v [] = refl
  get-put k j v ((i, w) ∷ d) =
      ground (arith, str_iff k j, str_iff i k, str_iff i j, get-put k j v d)

  pub get-remove :
      (k j : String) (d : Dict V) → get j (remove k d) ≡ (if k == j then none else get j d)
  unfolding get remove
  get-remove k j [] = ground arith
  get-remove k j ((i, w) ∷ d) =
      ground (arith, str_iff k j, str_iff i k, str_iff i j, get-remove k j d)

  pub get_of_not_has : (k : String) (d : Dict V) → has k d ≡ false → get k d ≡ none
  unfolding has
  get_of_not_has k d h = ground arith

  pub get_of_has : (k : String) (d : Dict V) → has k d ≡ true → (v : V) × (get k d ≡ some v)
  unfolding has
  get_of_has k d h = ground arith

  pub has_of_get : (k : String) (d : Dict V) {v : V} → get k d ≡ some v → has k d ≡ true
  unfolding has
  has_of_get k d h = ground arith

  pub length-put-le : (k : String) (v : V) (d : Dict V) → length (put k v d) ≤ length d + 1
  unfolding put
  length-put-le k v [] = omega arith
  length-put-le k v ((j, w) ∷ d) = ground (arith, length-put-le k v d)

  pub length-put_old :
      (k : String) (v w : V) (d : Dict V) → get k d ≡ some w → length (put k v d) ≡ length d
  unfolding get put
  length-put_old k v w [] h = ground arith
  length-put_old k v w ((j, u) ∷ d) h = ground (arith, length-put_old k v w d)

  pub length-remove-le : (k : String) (d : Dict V) → length (remove k d) ≤ length d
  unfolding remove
  length-remove-le k [] = omega arith
  length-remove-le k ((j, w) ∷ d) = ground (arith, length-remove-le k d)

  pub length-restrict-le :
      (test : String → V → Bool) (d : Dict V) → length (restrict test d) ≤ length d
  unfolding restrict
  length-restrict-le test [] = omega arith
  length-restrict-le test ((j, w) ∷ d) = ground (arith, length-restrict-le test d)

module _ {ℓ} {V : Type ℓ} where
  -- No key is there twice, as in every Python dict.
  abbrev pub IsUnique : Dict V → Type ℓ
  IsUnique [] = Unit
  IsUnique ((k, v) ∷ d) = (get k d ≡ none) × IsUnique d

  pub put-IsUnique : (k : String) (v : V) (d : Dict V) → IsUnique d → IsUnique (put k v d)
  unfolding put
  put-IsUnique k v [] u = (unfold get in refl, tt)
  put-IsUnique k v ((j, w) ∷ d) u =
      ground (arith, str_iff j k, str_iff k j, get-put k j v d, put-IsUnique k v d u.1)

  pub remove-IsUnique : (k : String) (d : Dict V) → IsUnique d → IsUnique (remove k d)
  unfolding remove
  remove-IsUnique k [] u = tt
  remove-IsUnique k ((j, w) ∷ d) u = ground (arith, get-remove k j d, remove-IsUnique k d u.1)

pub ruleset dict_laws = (get-put, get-remove)
