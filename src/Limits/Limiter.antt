-- ===== src/Limits/Limiter.antt =====
-- The state of a rate limiter of team/runtime_state.py, and its operations.
use shimpz_drivers.Prelude.{
  ℕ, ◌+◌, ◌-◌, ◌*◌, ◌/◌, max, Bool, false, ◌||◌, Option, none, some, [], String, leb, ltb, ◌==◌,
  ◌/=◌, eq_nat, eq_string, if◌then◌else◌, Result, ok, err,
}
use shimpz_drivers.Prelude.Dict
use shimpz_drivers.Prelude.Dict.{Dict}

-- ValueError
pub data LimiterError : Type 0 where
  not_positive : LimiterError

abbrev pub second : ℕ
second = 1_000_000_000

pub record Limiter : Type 0 where
  pub limit : ℕ
  pub window_seconds : ℕ
  pub counts : Dict (ℕ × ℕ)
  pub last_bucket : Option ℕ

-- __init__
unfoldable pub new_limiter : ℕ → ℕ → Result LimiterError Limiter
new_limiter limit window_seconds =
    if ltb limit 1 || ltb window_seconds 1
    then err not_positive
    else ok
        (record { limit = limit; window_seconds = window_seconds; counts = []; last_bucket = none })

-- math.floor(current / self.window_seconds)
unfoldable pub bucket_of : Limiter → ℕ → ℕ
bucket_of l now = now / (l.window_seconds * second)

abbrev pub is_last : Option ℕ → ℕ → Bool
is_last none bucket = false
is_last (some last) bucket = last == bucket

-- A new bucket forgets the counts of the others.
unfoldable pub refresh : ℕ → Limiter → Limiter
refresh bucket l = if is_last l.last_bucket bucket then l else record l {
  counts = Dict.restrict (λ key value. value.0 == bucket) l.counts;
  last_bucket = some bucket;
}

-- `self._counts.get(key, (bucket, 0))`, and 0 for a count of another bucket
unfoldable pub count_in : ℕ → Option (ℕ × ℕ) → ℕ
count_in bucket none = 0
count_in bucket (some (stored_bucket, count)) = if stored_bucket /= bucket then 0 else count

-- max(1, math.ceil(boundary - current))
unfoldable pub retry_after : Limiter → ℕ → ℕ → ℕ
retry_after l bucket now =
    max 1 (((bucket + 1) * (l.window_seconds * second) - now + (second - 1)) / second)

unfoldable pub consume_in : String → ℕ → ℕ → Limiter → ℕ × Limiter
unfolding count_in retry_after
consume_in key bucket now l =
    let count = count_in bucket (Dict.get key l.counts) in
    if leb l.limit count
    then (retry_after l bucket now, l)
    else (0, record l { counts = Dict.put key (bucket, count + 1) l.counts })

unfoldable pub consume : String → ℕ → Limiter → ℕ × Limiter
unfolding bucket_of refresh consume_in
consume key now l = let bucket = bucket_of l now in consume_in key bucket now (refresh bucket l)
