-- ===== src/Limits/Window.antt =====
-- What the rate limiter of team/runtime_state.py admits in one window, and when it admits again.
use shimpz_drivers.Prelude.{
  ℕ, ◌<◌, ◌≡◌, refl, arith, Bool, false, Option, none, some, [], ◌∷◌, String, ◌==◌, eq_nat,
  eq_string, str_iff, Bool-cases, inl, inr,
}
use shimpz_drivers.Prelude.Dict
use shimpz_drivers.Prelude.Dict.{Dict, IsUnique, get-put, put-IsUnique}
use shimpz_drivers.Limits.Limiter.{Limiter, is_last, refresh, count_in}

-- The count of the key in the bucket.
unfoldable pub used : String → ℕ → Limiter → ℕ
unfolding count_in
used key bucket l = count_in bucket (Dict.get key l.counts)

-- Every stored count is of the last bucket, and each key is stored once.
abbrev pub AllOf : Option ℕ → Dict (ℕ × ℕ) → Type 0
AllOf last [] = Unit
AllOf last ((k, v) ∷ d) = (last ≡ some v.0) × AllOf last d

pub record IsValid (l : Limiter) : Type 0 where
  pub unique : IsUnique l.counts
  pub current : AllOf l.last_bucket l.counts
  pub width : 0 < l.window_seconds
  pub positive : 0 < l.limit

restrict-AllOf :
    (bucket : ℕ) (d : Dict (ℕ × ℕ))
    → AllOf (some bucket) (Dict.restrict (λ key value. value.0 == bucket) d)
unfolding Dict.restrict
restrict-AllOf bucket [] = tt
restrict-AllOf bucket ((k, v) ∷ d) = ground (arith, restrict-AllOf bucket d)

get-restrict_absent :
    (k : String) (test : String → ℕ × ℕ → Bool) (d : Dict (ℕ × ℕ))
    → Dict.get k d ≡ none
    → Dict.get k (Dict.restrict test d) ≡ none
unfolding Dict.get Dict.restrict
get-restrict_absent k test [] h = refl
get-restrict_absent k test ((j, v) ∷ d) h = ground (arith, get-restrict_absent k test d)

restrict-IsUnique :
    (test : String → ℕ × ℕ → Bool) (d : Dict (ℕ × ℕ)) → IsUnique d → IsUnique (Dict.restrict test d)
unfolding Dict.restrict
restrict-IsUnique test [] u = tt
restrict-IsUnique test ((k, v) ∷ d) u =
    ground (arith, restrict-IsUnique test d u.1, get-restrict_absent k test d u.0)

pub put-AllOf :
    (bucket : ℕ) (key : String) (n : ℕ) (d : Dict (ℕ × ℕ))
    → AllOf (some bucket) d
    → AllOf (some bucket) (Dict.put key (bucket, n) d)
unfolding Dict.put
put-AllOf bucket key n [] a = (refl, tt)
put-AllOf bucket key n ((j, v) ∷ d) a = ground (arith, put-AllOf bucket key n d a.1)

-- A count that is not of the last bucket is 0.
pub used_other :
    (key : String) (bucket : ℕ) (last : Option ℕ) (d : Dict (ℕ × ℕ))
    → AllOf last d
    → is_last last bucket ≡ false
    → count_in bucket (Dict.get key d) ≡ 0
unfolding count_in Dict.get
used_other key bucket last [] a h = refl
used_other key bucket last ((j, v) ∷ d) a h = ground (arith, used_other key bucket last d a.1 h)

-- The refreshed limiter is of the bucket.
pub refresh_lem :
    (bucket : ℕ) (l : Limiter)
    → IsValid l
    → IsValid (refresh bucket l)
      × ((refresh bucket l).last_bucket ≡ some bucket)
      × ((refresh bucket l).limit ≡ l.limit)
      × ((refresh bucket l).window_seconds ≡ l.window_seconds)
unfolding refresh
refresh_lem bucket l v = elim (Bool-cases (is_last l.last_bucket bucket)) [
  | inl same ↦ ground arith
  | inr new ↦
      let d = Dict.restrict (λ key value. value.0 == bucket) l.counts in
      let kept : refresh bucket l ≡ record l { counts = d; last_bucket = some bucket } =
        ground arith in
      rw kept (
        record {
          unique = restrict-IsUnique (λ key value. value.0 == bucket) l.counts v.unique;
          current = restrict-AllOf bucket l.counts;
          width = v.width;
          positive = v.positive;
        },
        refl,
        refl,
        refl,
      )
]

-- The count of a key in the bucket of the call survives the refresh.
used-restrict :
    (key : String) (bucket : ℕ) (d : Dict (ℕ × ℕ))
    → IsUnique d
    → count_in bucket (Dict.get key (Dict.restrict (λ k value. value.0 == bucket) d))
      ≡ count_in bucket (Dict.get key d)
unfolding count_in Dict.get Dict.restrict
used-restrict key bucket [] u = refl
used-restrict key bucket ((j, v) ∷ d) u = ground (
  arith,
  used-restrict key bucket d u.1,
  get-restrict_absent j (λ k value. value.0 == bucket) d u.0,
  str_iff j key,
)

pub used-refresh :
    (key : String) (bucket : ℕ) (l : Limiter)
    → IsValid l
    → used key bucket (refresh bucket l) ≡ used key bucket l
unfolding used refresh
used-refresh key bucket l v = elim (Bool-cases (is_last l.last_bucket bucket)) [
  | inl same ↦ ground arith
  | inr new ↦ ground (arith, used-restrict key bucket l.counts v.unique)
]
