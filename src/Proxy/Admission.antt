-- ===== src/Proxy/Admission.antt =====
-- How many requests the proxy of app-egress/app.py serves at once.
use shimpz_drivers.Prelude.{
  ℕ, ◌+◌, ◌-◌, ◌≤◌, ◌≡◌, refl, sym, ◌∙◌, subst, arith, true, false, some, List, [], ◌∷◌, String, ok,
  eq_nat, eq_string, length, contains, str_iff,
}
use shimpz_drivers.Prelude.Dict
use shimpz_drivers.Prelude.Dict.{Dict, get-put, get-remove}
use shimpz_drivers.Proxy.Slots.{
  Slots, new_slots, count_of, acquire_request_slot, release_request_slot,
}
use shimpz_drivers.Proxy.Counts.{
  occurrences, drop_one, count_of-put, occurrences-drop_one, length-drop_one, acquired, refused,
  released, get-with_remaining, count_of-with_remaining, count_of_present, occurs, releasable,
}

-- The slots, and the source of each request that is served.
pub record Service : Type 0 where
  pub slots : Slots
  pub served : List String

-- A request arrives, and is admitted or refused; or one that is served ends.
pub data Step (w : Service) : Service → Type 0 where
  admits :
      (source : String) (s : Slots)
      → acquire_request_slot source w.slots ≡ (true, s)
      → Step w (record { slots = s; served = source ∷ w.served })
  refuses :
      (source : String) (s : Slots)
      → acquire_request_slot source w.slots ≡ (false, s)
      → Step w (record w { slots = s })
  ends :
      (source : String) (s : Slots)
      → contains source w.served ≡ true
      → release_request_slot source w.slots ≡ ok s
      → Step w (record { slots = s; served = drop_one source w.served })

pub data Reaches (w : Service) : Service → Type 0 where
  here : Reaches w w
  later : (v u : Service) → Reaches w v → Step v u → Reaches w u

pub record IsValid (max_concurrency max_source : ℕ) (w : Service) : Type 0 where
  pub total : w.slots.free + length w.served ≡ max_concurrency
  pub limit : w.slots.max_source_concurrency ≡ max_source
  pub counted :
      (source : String) → count_of source w.slots.source_counts ≡ occurrences source w.served
  pub bounded : (source : String) → occurrences source w.served ≤ max_source
  pub positive : (source : String) (n : ℕ) → Dict.get source w.slots.source_counts ≡ some n → 1 ≤ n

admitted-IsValid :
    (max_concurrency max_source : ℕ) (source : String) (s : Slots) (w : Service)
    → IsValid max_concurrency max_source w
    → acquire_request_slot source w.slots ≡ (true, s)
    → IsValid max_concurrency max_source (record { slots = s; served = source ∷ w.served })
unfolding occurrences
admitted-IsValid max_concurrency max_source source s w v h =
    let (room, source_room, q) = acquired source w.slots s h in
    let before = w.slots.source_counts in
    subst
      (λ x. IsValid max_concurrency max_source (record { slots = x; served = source ∷ w.served }))
      (sym q)
      (record {
        total = omega (arith, v.total, room);
        limit = v.limit;
        counted = λ a. ground (
          arith,
          count_of-put source a (count_of source before + 1) before,
          v.counted a,
          v.counted source,
          str_iff source a,
        );
        bounded = λ a.
            ground (arith, v.bounded a, v.counted source, source_room, v.limit, str_iff source a);
        positive = λ a n e. ground (
          arith,
          get-put source a (count_of source before + 1) before,
          e,
          v.positive a n,
          str_iff source a,
        );
      })

ended-IsValid :
    (max_concurrency max_source : ℕ) (source : String) (s : Slots) (w : Service)
    → IsValid max_concurrency max_source w
    → contains source w.served ≡ true
    → release_request_slot source w.slots ≡ ok s
    → IsValid max_concurrency max_source (record { slots = s; served = drop_one source w.served })
ended-IsValid max_concurrency max_source source s w v serves h =
    let (n, e, q) = released source w.slots s h in
    let before = w.slots.source_counts in
    let own : n ≡ occurrences source w.served =
      sym (count_of_present source n before e) ∙ v.counted source in
    let some_left = v.positive source n e in
    subst
      (λ x.
        IsValid max_concurrency max_source
          (record { slots = x; served = drop_one source w.served }))
      (sym q)
      (record {
        total = omega (arith, v.total, length-drop_one source w.served serves);
        limit = v.limit;
        counted = λ a. ground (
          arith,
          count_of-with_remaining source a (n - 1) before,
          v.counted a,
          own,
          str_iff source a,
          occurrences-drop_one source a w.served serves,
        );
        bounded = λ a. ground (arith, v.bounded a, occurrences-drop_one source a w.served serves);
        positive = λ a k f. ground (
          arith,
          get-with_remaining source a (n - 1) before,
          f,
          v.positive a k,
          str_iff source a,
        );
      })

Step-IsValid :
    (max_concurrency max_source : ℕ) (w u : Service)
    → IsValid max_concurrency max_source w
    → Step w u
    → IsValid max_concurrency max_source u
Step-IsValid m n w _ v (admits source s h) = admitted-IsValid m n source s w v h
Step-IsValid m n w _ v (refuses source s h) =
    subst (λ x. IsValid m n (record w { slots = x })) (sym (refused source w.slots s h)) v
Step-IsValid m n w _ v (ends source s k h) = ended-IsValid m n source s w v k h

Reaches-IsValid :
    (max_concurrency max_source : ℕ) (w u : Service)
    → IsValid max_concurrency max_source w
    → Reaches w u
    → IsValid max_concurrency max_source u
Reaches-IsValid m n w _ v here = v
Reaches-IsValid m n w u v (later x _ r s) = Step-IsValid m n x u (Reaches-IsValid m n w x v r) s

new_slots-IsValid :
    (limit max_concurrency max_source : ℕ) (s : Slots)
    → new_slots limit max_concurrency max_source ≡ ok s
    → IsValid max_concurrency max_source (record { slots = s; served = [] })
unfolding new_slots count_of occurrences Dict.get
new_slots-IsValid limit max_concurrency max_source s h =
    let q : s ≡ record {
      free = max_concurrency;
      max_source_concurrency = max_source;
      source_counts = [];
    } =
      ground (arith, h) in
    subst (λ x. IsValid max_concurrency max_source (record { slots = x; served = [] })) (sym q)
      (record {
        total = omega arith;
        limit = refl;
        counted = λ a. refl;
        bounded = λ a. omega arith;
        positive = λ a n e. absurd (ground (arith, e));
      })

-- From a new server, in every service that arrivals and ends of requests reach: at most
-- `max_concurrency` requests are served, of each source at most `max_source_concurrency`, a request
-- that is served can always release its slot, and when none is served all slots are free.
pub served-le-max_concurrency :
    (limit max_concurrency max_source : ℕ) (s : Slots) (w : Service)
    → new_slots limit max_concurrency max_source ≡ ok s
    → Reaches (record { slots = s; served = [] }) w
    → (length w.served ≤ max_concurrency)
      × ((source : String) → occurrences source w.served ≤ max_source)
      × ((source : String)
          → contains source w.served ≡ true
          → (t : Slots) × (release_request_slot source w.slots ≡ ok t))
      × (w.served ≡ [] → w.slots.free ≡ max_concurrency)
served-le-max_concurrency limit m n s w h r =
    let v =
      Reaches-IsValid m n (record { slots = s; served = [] }) w (new_slots-IsValid limit m n s h)
        r in
    (
      omega (arith, v.total),
      v.bounded,
      λ source k. releasable source w.slots (occurs source w.served k) (v.counted source),
      λ e. ground (arith, v.total, e),
    )
