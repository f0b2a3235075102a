-- ===== src/Limits/Admission.antt =====
-- How many calls of `consume` of team/runtime_state.py are admitted in one window.
use shimpz_drivers.Prelude.{
  ℕ, ◌+◌, ◌≤◌, ◌<◌, ◌≡◌, ◌≢◌, refl, sym, subst, arith, Option, some, String, leb, ◌==◌, eq_nat,
  eq_string, str_iff, if◌then◌else◌, Bool-cases, inl, inr, ◌⊎◌,
}
use shimpz_drivers.Prelude.Dict
use shimpz_drivers.Prelude.Dict.{Dict, IsUnique, get-put, put-IsUnique}
use shimpz_drivers.Limits.Limiter.{
  Limiter, bucket_of, refresh, count_in, retry_after, consume_in, consume,
}
use shimpz_drivers.Limits.Window.{
  used, IsValid, AllOf, refresh_lem, used-refresh, put-AllOf, used_other,
}

-- What a call does to a refreshed limiter.
pub consume_in_lem :
    (key : String) (bucket now : ℕ) (l : Limiter)
    → IsValid l
    → l.last_bucket ≡ some bucket
    → ((l.limit ≤ used key bucket l)
        × (consume_in key bucket now l ≡ (retry_after l bucket now, l)))
      ⊎ ((used key bucket l < l.limit)
          × (consume_in key bucket now l
              ≡ (0, record l { counts = Dict.put key (bucket, used key bucket l + 1) l.counts })))
unfolding consume_in used
consume_in_lem key bucket now l v e =
    elim (Bool-cases (leb l.limit (count_in bucket (Dict.get key l.counts)))) [
      | inl full ↦ inl (ground arith, ground arith)
      | inr room ↦ inr (ground arith, ground arith)
    ]

pub consume-IsValid :
    (key : String) (now : ℕ) (l : Limiter)
    → IsValid l
    → IsValid (consume key now l).1
      × ((consume key now l).1.last_bucket ≡ some (bucket_of l now))
      × ((consume key now l).1.limit ≡ l.limit)
      × ((consume key now l).1.window_seconds ≡ l.window_seconds)
unfolding consume
consume-IsValid key now l v =
    let b = bucket_of l now in
    let (w, last, limit, width) = refresh_lem b l v in
    elim (consume_in_lem key b now (refresh b l) w last) [
      | inl (full, e) ↦ rw e (w, last, limit, width)
      | inr (room, e) ↦ rw e (
        record {
          unique = put-IsUnique key (b, used key b (refresh b l) + 1) (refresh b l).counts w.unique;
          current =
              subst
                (λ (o : Option ℕ).
                  AllOf o (Dict.put key (b, used key b (refresh b l) + 1) (refresh b l).counts))
                (sym last)
                (put-AllOf b key (used key b (refresh b l) + 1) (refresh b l).counts
                  (subst (λ (o : Option ℕ). AllOf o (refresh b l).counts) last w.current));
          width = w.width;
          positive = w.positive;
        },
        last,
        limit,
        width,
      )
    ]

-- A call of the bucket is admitted and counted, or refused and not counted.
pub consume_same :
    (key k : String) (now : ℕ) (l : Limiter)
    → IsValid l
    → (let b = bucket_of l now in
        (((consume key now l).0 ≡ 0)
          × (used key b l < l.limit)
          × (used k b (consume key now l).1 ≡ (if key == k then used k b l + 1 else used k b l)))
        ⊎ (((consume key now l).0 ≢ 0)
            × (l.limit ≤ used key b l)
            × (used k b (consume key now l).1 ≡ used k b l)))
unfolding consume
consume_same key k now l v =
    let b = bucket_of l now in
    let (w, last, limit, width) = refresh_lem b l v in
    let same = used-refresh key b l v in
    let same_k = used-refresh k b l v in
    elim (consume_in_lem key b now (refresh b l) w last) [
      | inl (full, e) ↦
          inr (
            rw e (unfold retry_after in ground arith),
            omega (arith, full, same, limit),
            rw e same_k,
          )
      | inr (room, e) ↦ inl (
        rw e refl,
        omega (arith, room, same, limit),
        rw e (
            unfold used count_in in
            ground (
              arith,
              get-put key k (b, used key b (refresh b l) + 1) (refresh b l).counts,
              str_iff key k,
              same,
              same_k,
            )),
      )
    ]

-- After a call of another bucket the count is 0.
pub consume_other :
    (key k : String) (now bucket : ℕ) (l : Limiter)
    → IsValid l
    → bucket_of l now ≢ bucket
    → used k bucket (consume key now l).1 ≡ 0
unfolding used
consume_other key k now bucket l v ne =
    let (w, last, limit, width) = consume-IsValid key now l v in
    used_other k bucket (consume key now l).1.last_bucket (consume key now l).1.counts w.current
      (rw last (ground (arith, ne)))
