-- ===== src/Limits/Examples.antt =====
-- The theorems on rate limiters at concrete inputs, and tests.
use shimpz_drivers.Prelude.{
  ℕ, ◌+◌, ◌*◌, ◌≤◌, ◌≡◌, ◌≢◌, refl, arith, some, none, [], ◌∷◌, List, String, ok,
}
use shimpz_drivers.Prelude.Dict
use shimpz_drivers.Limits.Limiter.{
  Limiter, second, new_limiter, bucket_of, refresh, count_in, retry_after, consume_in, consume,
}
use shimpz_drivers.Limits.Window.{IsValid}
use shimpz_drivers.Limits.Retry.{admitted, admitted-le-limit, retry-admitted}

abbrev two_a_minute : Limiter
two_a_minute = record { limit = 2; window_seconds = 60; counts = []; last_bucket = none }

made : new_limiter 2 60 ≡ ok two_a_minute
unfolding new_limiter
made = refl

abbrev calls : List (String × ℕ)
calls = ("a", 0) ∷ ("a", 5) ∷ ("b", 6) ∷ ("a", 7) ∷ ("a", 61_000_000_000) ∷ []

admitted_two : admitted "a" 0 calls two_a_minute ≡ 2
unfolding admitted consume bucket_of refresh consume_in count_in Dict.get Dict.put Dict.restrict
admitted_two = refl

admitted-le-limit_example : admitted "a" 0 calls two_a_minute ≤ 2
admitted-le-limit_example = admitted-le-limit 2 60 "a" 0 calls made (omega arith)

abbrev full : Limiter
full = record { limit = 2; window_seconds = 60; counts = ("a", (0, 2)) ∷ []; last_bucket = some 0 }

full-IsValid : IsValid full
unfolding Dict.get
full-IsValid = record {
  unique = (refl, tt);
  current = (refl, tt);
  width = omega arith;
  positive = omega arith;
}

refused : (consume "a" 7 full).0 ≢ 0
unfolding consume bucket_of refresh consume_in count_in retry_after Dict.get
refused h = absurd (omega (arith, h))

retry-admitted_example :
    ((consume "a" 7 full).0 ≤ 60)
    × ((consume "a" (7 + (consume "a" 7 full).0 * second) (consume "a" 7 full).1).0 ≡ 0)
retry-admitted_example = retry-admitted "a" 7 full full-IsValid refused
