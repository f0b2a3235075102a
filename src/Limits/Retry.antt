-- ===== src/Limits/Retry.antt =====
-- The limit of the rate limiter of team/runtime_state.py, and the retry time that it gives.
use native.Mathlib.Nat.{le-div_iff_mul-le, div-mul-le_self}
use shimpz_drivers.Prelude.{
  ℕ, suc, ◌+◌, ◌*◌, ◌/◌, ◌≤◌, ◌<◌, ◌≡◌, ◌≢◌, refl, sym, subst, arith, false, ◌&&◌, none, [], ◌∷◌,
  List, String, ltb, ◌==◌, eq_nat, eq_string, str_iff, if◌then◌else◌, Bool-cases, inl, inr, ok, ◌⊎◌,
}
use shimpz_drivers.Prelude.Dict
use shimpz_drivers.Prelude.Dict.{Dict, IsUnique, get-put, put-IsUnique}
use shimpz_drivers.Limits.Limiter.{
  Limiter, second, new_limiter, bucket_of, is_last, refresh, count_in, retry_after, consume,
}
use shimpz_drivers.Limits.Window.{used, IsValid, used_other, refresh_lem}
use shimpz_drivers.Limits.Admission.{consume_in_lem, consume-IsValid, consume_same, consume_other}

-- The bucket is monotone in the time, and it ends at its boundary.
bucket_of-le :
    (l : Limiter) (t now : ℕ) → 0 < l.window_seconds → t ≤ now → bucket_of l t ≤ bucket_of l now
unfolding bucket_of
bucket_of-le l t now w h =
    let p : 0 < l.window_seconds * second = omega (arith, w) in
    let low = div-mul-le_self t (l.window_seconds * second) in
    (le-div_iff_mul-le {k = l.window_seconds * second} {x = t / (l.window_seconds * second)}
        {y = now} p).1
      (omega (arith, low, h))

bucket_of-same :
    (l m : Limiter) (t : ℕ) → l.window_seconds ≡ m.window_seconds → bucket_of l t ≡ bucket_of m t
unfolding bucket_of
bucket_of-same l m t e = rw e refl

-- The calls are in the order of their times, which are not before `t`.
abbrev pub InOrder : ℕ → List (String × ℕ) → Type 0
InOrder t [] = Unit
InOrder t ((key, now) ∷ calls) = (t ≤ now) × InOrder now calls

-- How many calls with the key in the bucket are admitted.
unfoldable pub admitted : String → ℕ → List (String × ℕ) → Limiter → ℕ
unfolding consume bucket_of
admitted key bucket [] l = 0
admitted key bucket ((k, now) ∷ calls) l =
    let rest = admitted key bucket calls (consume k now l).1 in
    if k == key && bucket_of l now == bucket && (consume k now l).0 == 0 then suc rest else rest

-- Past a bucket none of its calls is left.
admitted_past :
    (key : String) (bucket t : ℕ) (calls : List (String × ℕ)) (l : Limiter)
    → IsValid l
    → InOrder t calls
    → bucket < bucket_of l t
    → admitted key bucket calls l ≡ 0
unfolding admitted
admitted_past key bucket t [] l v o h = refl
admitted_past key bucket t ((k, now) ∷ calls) l v o h =
    let (w, last, limit, width) = consume-IsValid k now l v in
    let later : bucket_of l t ≤ bucket_of l now = bucket_of-le l t now v.width o.0 in
    let same = bucket_of-same (consume k now l).1 l now width in
    let rest =
      admitted_past key bucket now calls (consume k now l).1 w o.1
        (omega (arith, later, same, h)) in
    ground arith

admitted-used-le :
    (key : String) (bucket t : ℕ) (calls : List (String × ℕ)) (l : Limiter)
    → IsValid l
    → InOrder t calls
    → used key bucket l ≤ l.limit
    → (bucket_of l t < bucket → used key bucket l ≡ 0)
    → admitted key bucket calls l + used key bucket l ≤ l.limit
unfolding admitted
admitted-used-le key bucket t [] l v o few early = omega arith
admitted-used-le key bucket t ((k, now) ∷ calls) l v o few early =
    let l' = (consume k now l).1 in
    let (w, last, limit, width) = consume-IsValid k now l v in
    let later : bucket_of l t ≤ bucket_of l now = bucket_of-le l t now v.width o.0 in
    let same : bucket_of l' now ≡ bucket_of l now = bucket_of-same l' l now width in
    elim (Bool-cases (bucket_of l now == bucket)) [
      | inl at ↦
          let here : bucket_of l now ≡ bucket = ground arith in
          let step =
            subst
              (λ b.
                (((consume k now l).0 ≡ 0)
                  × (used k b l < l.limit)
                  × (used key b l' ≡ (if k == key then used key b l + 1 else used key b l)))
                ⊎ (((consume k now l).0 ≢ 0)
                    × (l.limit ≤ used k b l)
                    × (used key b l' ≡ used key b l)))
              here (consume_same k key now l v) in
          let ih = admitted-used-le key bucket now calls l' w o.1 in
          elim step [
            | inl (zero_now, room, count) ↦ elim (Bool-cases (k == key)) [
              | inl me ↦
                  let k_key : k ≡ key = (str_iff k key).0 me in
                  let room' : used key bucket l < l.limit =
                    subst (λ x. used x bucket l < l.limit) k_key room in
                  let r = ih (ground arith) (λ b. absurd (omega (arith, b, same, here))) in
                  ground arith
              | inr another ↦
                  let r = ih (ground arith) (λ b. absurd (omega (arith, b, same, here))) in
                  ground arith
            ]
            | inr (refused, full, count) ↦
                let r = ih (ground arith) (λ b. absurd (omega (arith, b, same, here))) in
                ground arith
          ]
      | inr off ↦
          let ne : bucket_of l now ≢ bucket = λ e. ground arith in
          let gone : used key bucket l' ≡ 0 = consume_other k key now bucket l v ne in
          elim (Bool-cases (ltb (bucket_of l now) bucket)) [
            | inl before ↦
                let r =
                  admitted-used-le key bucket now calls l' w o.1 (omega (arith, gone))
                    (λ b. gone) in
                let none_used = early (ground arith) in ground arith
            | inr past ↦
                let r = admitted_past key bucket now calls l' w o.1 (ground (arith, ne)) in
                ground arith
          ]
    ]

new_limiter-IsValid :
    (limit window : ℕ) {l : Limiter}
    → new_limiter limit window ≡ ok l
    → IsValid l × (l.limit ≡ limit) × ((k : String) (b : ℕ) → used k b l ≡ 0)
unfolding new_limiter used count_in Dict.get
new_limiter-IsValid limit window {l} h =
    let made : l
        ≡ record { limit = limit; window_seconds = window; counts = []; last_bucket = none } =
      ground arith in
    rw made (
      record { unique = tt; current = tt; width = ground arith; positive = ground arith },
      refl,
      λ k b. refl,
    )

-- In each window a new limiter admits each key at most `limit` times, whatever the other keys do, if
-- the times of the calls never go back.
pub admitted-le-limit :
    (limit window : ℕ) {l : Limiter} (key : String) (bucket : ℕ) (calls : List (String × ℕ))
    → new_limiter limit window ≡ ok l
    → InOrder 0 calls
    → admitted key bucket calls l ≤ limit
admitted-le-limit limit window {l} key bucket calls h o =
    let (v, same, unused) = new_limiter-IsValid limit window h in
    let zero_used = unused key bucket in
    let r = admitted-used-le key bucket 0 calls l v o (omega (arith, zero_used)) (λ b. zero_used) in
    omega (arith, r, same, zero_used)

boundary-passed :
    (l : Limiter) (now r : ℕ)
    → 0 < l.window_seconds
    → retry_after l (bucket_of l now) now ≤ r
    → bucket_of l now < bucket_of l (now + r * second)
unfolding bucket_of retry_after
boundary-passed l now r w h =
    let width = l.window_seconds * second in
    let p : 0 < width = omega (arith, w) in
    let b = now / width in
    let edge = (b + 1) * width in
    let long : edge ≤ now + r * second = ground (arith, h) in
    let over = (le-div_iff_mul-le {k = width} {x = b + 1} {y = now + r * second} p).1 long in
    omega (arith, over)

retry-le-window :
    (l : Limiter) (now : ℕ)
    → 0 < l.window_seconds
    → retry_after l (bucket_of l now) now ≤ l.window_seconds
unfolding bucket_of retry_after
retry-le-window l now w =
    let width = l.window_seconds * second in
    let low : now / width * width ≤ now = div-mul-le_self now width in
    let next : (now / width + 1) * width ≡ now / width * width + width = grind arith in
    ground (arith, low, next)

-- What a refused call returns.
refused-retry :
    (key : String) (now : ℕ) (l : Limiter)
    → IsValid l
    → (consume key now l).0 ≢ 0
    → (consume key now l).0 ≡ retry_after l (bucket_of l now) now
unfolding consume
refused-retry key now l v refused =
    let b = bucket_of l now in
    let (w, last, limit, width) = refresh_lem b l v in
    elim (consume_in_lem key b now (refresh b l) w last) [
      | inl (full, e) ↦ rw e (unfold retry_after in rw width refl)
      | inr (room, e) ↦ absurd (refused (rw e refl))
    ]

-- In a limiter that keeps its invariant: a refused call is told a number of seconds to wait, at most
-- the window, and once that time has passed, the same call on the limiter that it left is admitted.
pub retry-admitted :
    (key : String) (now : ℕ) (l : Limiter)
    → IsValid l
    → (consume key now l).0 ≢ 0
    → ((consume key now l).0 ≤ l.window_seconds)
      × ((consume key (now + (consume key now l).0 * second) (consume key now l).1).0 ≡ 0)
retry-admitted key now l v refused = (
  subst (λ r. r ≤ l.window_seconds) (sym told) (retry-le-window l now v.width),
  elim (consume_same key key later l' w) [
    | inl (admits, room, count) ↦ admits
    | inr (again, full, count) ↦
        let limit = used_other key (bucket_of l' later) l'.last_bucket l'.counts w.current fresh in
        let p = w.positive in absurd (unfold used in omega (arith, full, limit, p))
  ],
)
  where
    l' : Limiter
    l' = (consume key now l).1

    later : ℕ
    later = now + (consume key now l).0 * second

    told : (consume key now l).0 ≡ retry_after l (bucket_of l now) now
    told = refused-retry key now l v refused

    w : IsValid l'
    w = (consume-IsValid key now l v).0

    fresh : is_last l'.last_bucket (bucket_of l' later) ≡ false
    fresh =
        let (w, last, limit, width) = consume-IsValid key now l v in
        let passed = boundary-passed l now (consume key now l).0 v.width (omega (arith, told)) in
        let same = bucket_of-same l' l later width in rw last (ground (arith, passed, same))
