-- ===== src/Proxy/Counts.antt =====
-- What an admission and a release of app-egress/app.py do to the counts of the sources.
use shimpz_drivers.Prelude.{
  ℕ, ◌+◌, ◌-◌, ◌≤◌, ◌<◌, ◌≡◌, refl, arith, true, false, none, some, List, [], ◌∷◌, String, ok,
  if◌then◌else◌, leb, ◌==◌, eq_nat, eq_string, length, contains, str_iff, Bool-cases, Option-cases,
  inl, inr,
}
use shimpz_drivers.Prelude.Dict
use shimpz_drivers.Prelude.Dict.{Dict, get-put, get-remove}
use shimpz_drivers.Proxy.Slots.{
  Slots, count_of, acquire_request_slot, with_remaining, release_request_slot,
}

unfoldable pub occurrences : String → List String → ℕ
occurrences x [] = 0
occurrences x (y ∷ ys) = (if y == x then 1 else 0) + occurrences x ys

unfoldable pub drop_one : String → List String → List String
drop_one x [] = []
drop_one x (y ∷ ys) = if y == x then ys else y ∷ drop_one x ys

pub count_of-put :
    (a b : String) (n : ℕ) (d : Dict ℕ)
    → count_of b (Dict.put a n d) ≡ (if a == b then n else count_of b d)
unfolding count_of
count_of-put a b n d = ground (arith, get-put a b n d)

pub occurrences-drop_one :
    (x y : String) (l : List String)
    → contains x l ≡ true
    → occurrences y l ≡ (if x == y then 1 else 0) + occurrences y (drop_one x l)
unfolding occurrences drop_one
occurrences-drop_one x y [] h = absurd (ground (arith, h))
occurrences-drop_one x y (z ∷ l) h =
    ground (arith, h, occurrences-drop_one x y l, str_iff z x, str_iff z y, str_iff x y)

pub length-drop_one :
    (x : String) (l : List String) → contains x l ≡ true → length l ≡ length (drop_one x l) + 1
unfolding drop_one
length-drop_one x [] h = absurd (ground (arith, h))
length-drop_one x (z ∷ l) h = ground (arith, h, length-drop_one x l)

pub acquired :
    (source : String) (s t : Slots)
    → acquire_request_slot source s ≡ (true, t)
    → (1 ≤ s.free)
      × (count_of source s.source_counts < s.max_source_concurrency)
      × (t ≡ record s {
        free = s.free - 1;
        source_counts = Dict.put source (count_of source s.source_counts + 1) s.source_counts;
      })
unfolding acquire_request_slot
acquired source s t h = elim (Bool-cases (s.free == 0)) [
  | inl e ↦ absurd (ground (arith, h, e))
  | inr e ↦ elim (Bool-cases (leb s.max_source_concurrency (count_of source s.source_counts))) [
    | inl k ↦ absurd (ground (arith, h, e, k))
    | inr k ↦ (ground (arith, e), ground (arith, k), ground (arith, h, e, k))
  ]
]

pub refused : (source : String) (s t : Slots) → acquire_request_slot source s ≡ (false, t) → t ≡ s
unfolding acquire_request_slot
refused source s t h = ground (arith, h)

pub released :
    (source : String) (s t : Slots)
    → release_request_slot source s ≡ ok t
    → (n : ℕ) × (Dict.get source s.source_counts ≡ some n)
      × (t ≡ record s {
        free = s.free + 1;
        source_counts = with_remaining source (n - 1) s.source_counts;
      })
unfolding release_request_slot
released source s t h = elim (Option-cases (Dict.get source s.source_counts)) [
  | inl e ↦ absurd (ground (arith, h, e))
  | inr (n, e) ↦ (n, e, ground (arith, h, e))
]

pub get-with_remaining :
    (a b : String) (n : ℕ) (d : Dict ℕ)
    → Dict.get b (with_remaining a n d)
      ≡ (if a == b then (if n == 0 then none else some n) else Dict.get b d)
unfolding with_remaining
get-with_remaining a b n d = ground (arith, get-put a b n d, get-remove a b d)

pub count_of-with_remaining :
    (a b : String) (n : ℕ) (d : Dict ℕ)
    → count_of b (with_remaining a n d) ≡ (if a == b then n else count_of b d)
unfolding count_of
count_of-with_remaining a b n d = ground (arith, get-with_remaining a b n d)

pub count_of_present : (a : String) (n : ℕ) (d : Dict ℕ) → Dict.get a d ≡ some n → count_of a d ≡ n
unfolding count_of
count_of_present a n d e = rw (e, count_of) refl

pub occurs : (x : String) (l : List String) → contains x l ≡ true → 1 ≤ occurrences x l
unfolding occurrences
occurs x [] h = absurd (ground (arith, h))
occurs x (y ∷ l) h = ground (arith, h, occurs x l)

pub releasable :
    (source : String) (s : Slots) {n : ℕ}
    → 1 ≤ n
    → count_of source s.source_counts ≡ n
    → (t : Slots) × (release_request_slot source s ≡ ok t)
unfolding count_of release_request_slot
releasable source s h c = elim (Option-cases (Dict.get source s.source_counts)) [
  | inl e ↦ absurd (ground (arith, h, c, e))
  | inr (n, e) ↦ (
    record s { free = s.free + 1; source_counts = with_remaining source (n - 1) s.source_counts },
    rw (e, release_request_slot) refl,
  )
]
