-- ===== src/Journal/Walk.antt =====
-- How `_walk_json` of team/power_journal.py spends its budget of nodes and of depth.
use shimpz_drivers.Prelude.{
  ℕ, ◌+◌, ◌-◌, ◌≤◌, suc, ◌≡◌, refl, ap, ◌∙◌, arith, Bool, true, ◌&&◌, ok, err, inl, inr, Bool-cases,
  Result-cases,
}
use shimpz_drivers.Value.{
  Value, null, bool, int, float, str, list, tuple, dict, object, Items, nil, cons, Entries, end,
  entry,
}
use shimpz_drivers.Journal.State.{JournalError, conflict}
use shimpz_drivers.Journal.Json.{spend, walk_json, walk_items, walk_entries, is_finite, is_str}
use shimpz_drivers.Journal.Shape.{
  larger, is_json, items_json, entries_json, nodes, items_nodes, entries_nodes, height,
  items_height, entries_height,
}

-- What a walk that returns shows of the value.
abbrev pub Walked : Bool → ℕ → ℕ → ℕ → ℕ → ℕ → Type 0
Walked json n h depth budget left = (json ≡ true) × (n + left ≡ budget) × (h + depth ≤ 32)

spend-ok :
    (depth budget : ℕ) {left : ℕ}
    → spend depth budget ≡ ok left
    → (1 + left ≡ budget) × (0 + depth ≤ 32)
unfolding spend
spend-ok depth budget h = (ground arith, ground arith)

mutual
  unfolding walk_json walk_items walk_entries is_json items_json entries_json nodes items_nodes
      entries_nodes height items_height entries_height

  pub walk_json-Walked :
      (depth budget : ℕ) (v : Value) {left : ℕ}
      → walk_json depth budget v ≡ ok left
      → Walked (is_json v) (nodes v) (height v) depth budget left
  walk_json-Walked depth budget null h = let (a, b) = spend-ok depth budget h in (refl, a, b)
  walk_json-Walked depth budget (bool x) h = let (a, b) = spend-ok depth budget h in (refl, a, b)
  walk_json-Walked depth budget (int x) h = let (a, b) = spend-ok depth budget h in (refl, a, b)
  walk_json-Walked depth budget (str x) h = let (a, b) = spend-ok depth budget h in (refl, a, b)
  walk_json-Walked depth budget (float bits) {left} h = elim (Result-cases (spend depth budget)) [
    | inl (e, q) ↦ absurd (ground arith)
    | inr (l, q) ↦
        let fine : is_finite bits ≡ true = ground arith in
        let same : l ≡ left = ground arith in
        let (a, b) = spend-ok depth budget q in (fine, ground arith, b)
  ]
  walk_json-Walked depth budget (list items) {left} h = elim (Result-cases (spend depth budget)) [
    | inl (e, q) ↦ absurd (ground arith)
    | inr (l, q) ↦
        let (a, b) = spend-ok depth budget q in
        let (j, n, k) =
          walk_items-Walked depth l items {left = left} (ground arith) (omega (arith, b)) in
        (j, ground arith, k)
  ]
  walk_json-Walked depth budget (dict entries) {left} h = elim (Result-cases (spend depth budget)) [
    | inl (e, q) ↦ absurd (ground arith)
    | inr (l, q) ↦
        let (a, b) = spend-ok depth budget q in
        let (j, n, k) =
          walk_entries-Walked depth l entries {left = left} (ground arith) (omega (arith, b)) in
        (j, ground arith, k)
  ]
  walk_json-Walked depth budget (tuple items) h = absurd (ground arith)
  walk_json-Walked depth budget object h = absurd (ground arith)

  walk_items-Walked :
      (depth budget : ℕ) (items : Items) {left : ℕ}
      → walk_items (depth + 1) budget items ≡ ok left
      → depth ≤ 32
      → Walked (items_json items) (items_nodes items) (items_height items) depth budget left
  walk_items-Walked depth budget nil h d = (refl, ground arith, ground arith)
  walk_items-Walked depth budget (cons item items) {left} h d =
      elim (Result-cases (walk_json (depth + 1) budget item)) [
        | inl (e, q) ↦ absurd (ground arith)
        | inr (l, q) ↦
            let (a, b, c) = walk_json-Walked (depth + 1) budget item q in
            let (j, n, k) = walk_items-Walked depth l items {left = left} (ground arith) d in
            (ground arith, omega (arith, b, n), ground arith)
      ]

  walk_entries-Walked :
      (depth budget : ℕ) (entries : Entries) {left : ℕ}
      → walk_entries (depth + 1) budget entries ≡ ok left
      → depth ≤ 32
      → Walked
          (entries_json entries)
          (entries_nodes entries)
          (entries_height entries)
          depth
          budget
          left
  walk_entries-Walked depth budget end h d = (refl, ground arith, ground arith)
  walk_entries-Walked depth budget (entry key item entries) {left} h d =
      elim (Result-cases (walk_json (depth + 1) budget item)) [
        | inl (e, q) ↦ absurd (ground arith)
        | inr (l, q) ↦
            let s : is_str key ≡ true = ground arith in
            let (a, b, c) = walk_json-Walked (depth + 1) budget item q in
            let (j, n, k) = walk_entries-Walked depth l entries {left = left} (ground arith) d in
            (ground arith, omega (arith, b, n), ground arith)
      ]

larger-bounds : (m n depth : ℕ) → larger m n + depth ≤ 32 → (m + depth ≤ 32) × (n + depth ≤ 32)
larger-bounds m n depth h = (ground arith, ground arith)

both : (a b : Bool) → (a && b) ≡ true → (a ≡ true) × (b ≡ true)
both a b h = (ground arith, ground arith)

spend-enough :
    (depth budget : ℕ) → 1 ≤ budget → 0 + depth ≤ 32 → spend depth budget ≡ ok (budget - 1)
unfolding spend
spend-enough depth budget a b = ground arith

mutual
  unfolding walk_json walk_items walk_entries is_json items_json entries_json nodes items_nodes
      entries_nodes height items_height entries_height

  pub walk_json-enough :
      (depth budget : ℕ) (v : Value)
      → is_json v ≡ true
      → nodes v ≤ budget
      → height v + depth ≤ 32
      → walk_json depth budget v ≡ ok (budget - nodes v)
  walk_json-enough depth budget null j n h = spend-enough depth budget n h
  walk_json-enough depth budget (bool x) j n h = spend-enough depth budget n h
  walk_json-enough depth budget (int x) j n h = spend-enough depth budget n h
  walk_json-enough depth budget (str x) j n h = spend-enough depth budget n h
  walk_json-enough depth budget (float bits) j n h =
      rw (spend-enough depth budget n h, walk_json) (rw j refl)
  walk_json-enough depth budget (list items) j n h =
      let s = spend-enough depth budget (omega (arith, n)) (omega (arith, h)) in
      let r = walk_items-enough depth (budget - 1) items j (omega (arith, n)) h in
      rw (s, walk_json) (r ∙ ap ok (omega arith))
  walk_json-enough depth budget (dict entries) j n h =
      let s = spend-enough depth budget (omega (arith, n)) (omega (arith, h)) in
      let r = walk_entries-enough depth (budget - 1) entries j (omega (arith, n)) h in
      rw (s, walk_json) (r ∙ ap ok (omega arith))
  walk_json-enough depth budget (tuple items) j n h = absurd (ground arith)
  walk_json-enough depth budget object j n h = absurd (ground arith)

  walk_items-enough :
      (depth budget : ℕ) (items : Items)
      → items_json items ≡ true
      → items_nodes items ≤ budget
      → items_height items + depth ≤ 32
      → walk_items (depth + 1) budget items ≡ ok (budget - items_nodes items)
  walk_items-enough depth budget nil j n h = ap ok (omega arith)
  walk_items-enough depth budget (cons item items) j n h =
      let (j1, j2) = both (is_json item) (items_json items) j in
      let (h1, h2) = larger-bounds (suc (height item)) (items_height items) depth h in
      let first =
        walk_json-enough (depth + 1) budget item j1 (omega (arith, n)) (omega (arith, h1)) in
      let r = walk_items-enough depth (budget - nodes item) items j2 (omega (arith, n)) h2 in
      rw (first, walk_items) (r ∙ ap ok (omega arith))

  walk_entries-enough :
      (depth budget : ℕ) (entries : Entries)
      → entries_json entries ≡ true
      → entries_nodes entries ≤ budget
      → entries_height entries + depth ≤ 32
      → walk_entries (depth + 1) budget entries ≡ ok (budget - entries_nodes entries)
  walk_entries-enough depth budget end j n h = ap ok (omega arith)
  walk_entries-enough depth budget (entry key item entries) j n h =
      let (s, j0) = both (is_str key) (is_json item && entries_json entries) j in
      let (j1, j2) = both (is_json item) (entries_json entries) j0 in
      let (h1, h2) = larger-bounds (suc (height item)) (entries_height entries) depth h in
      let first =
        walk_json-enough (depth + 1) budget item j1 (omega (arith, n)) (omega (arith, h1)) in
      let r = walk_entries-enough depth (budget - nodes item) entries j2 (omega (arith, n)) h2 in
      rw (s, walk_entries) (rw first (r ∙ ap ok (omega arith)))

spend-conflict : (depth budget : ℕ) {e : JournalError} → spend depth budget ≡ err e → e ≡ conflict
unfolding spend
spend-conflict depth budget h = ground arith

mutual
  unfolding walk_json walk_items walk_entries

  pub walk_json-conflict :
      (depth budget : ℕ) (v : Value) {e : JournalError}
      → walk_json depth budget v ≡ err e
      → e ≡ conflict
  walk_json-conflict depth budget null h = spend-conflict depth budget h
  walk_json-conflict depth budget (bool x) h = spend-conflict depth budget h
  walk_json-conflict depth budget (int x) h = spend-conflict depth budget h
  walk_json-conflict depth budget (str x) h = spend-conflict depth budget h
  walk_json-conflict depth budget (float bits) {e} h = elim (Result-cases (spend depth budget)) [
    | inl (x, q) ↦ let c = spend-conflict depth budget q in ground arith
    | inr (l, q) ↦ ground arith
  ]
  walk_json-conflict depth budget (list items) {e} h = elim (Result-cases (spend depth budget)) [
    | inl (x, q) ↦ let c = spend-conflict depth budget q in ground arith
    | inr (l, q) ↦ walk_items-conflict (depth + 1) l items {e = e} (ground arith)
  ]
  walk_json-conflict depth budget (dict entries) {e} h = elim (Result-cases (spend depth budget)) [
    | inl (x, q) ↦ let c = spend-conflict depth budget q in ground arith
    | inr (l, q) ↦ walk_entries-conflict (depth + 1) l entries {e = e} (ground arith)
  ]
  walk_json-conflict depth budget (tuple items) {e} h = elim (Result-cases (spend depth budget)) [
    | inl (x, q) ↦ let c = spend-conflict depth budget q in ground arith
    | inr (l, q) ↦ ground arith
  ]
  walk_json-conflict depth budget object {e} h = elim (Result-cases (spend depth budget)) [
    | inl (x, q) ↦ let c = spend-conflict depth budget q in ground arith
    | inr (l, q) ↦ ground arith
  ]

  walk_items-conflict :
      (depth budget : ℕ) (items : Items) {e : JournalError}
      → walk_items depth budget items ≡ err e
      → e ≡ conflict
  walk_items-conflict depth budget nil h = absurd (ground arith)
  walk_items-conflict depth budget (cons item items) {e} h =
      elim (Result-cases (walk_json depth budget item)) [
        | inl (x, q) ↦ let c = walk_json-conflict depth budget item q in ground arith
        | inr (l, q) ↦ walk_items-conflict depth l items {e = e} (ground arith)
      ]

  walk_entries-conflict :
      (depth budget : ℕ) (entries : Entries) {e : JournalError}
      → walk_entries depth budget entries ≡ err e
      → e ≡ conflict
  walk_entries-conflict depth budget end h = absurd (ground arith)
  walk_entries-conflict depth budget (entry key item entries) {e} h =
      elim (Bool-cases (is_str key)) [
        | inr other ↦ ground arith
        | inl named ↦ elim (Result-cases (walk_json depth budget item)) [
          | inl (x, q) ↦ let c = walk_json-conflict depth budget item q in ground arith
          | inr (l, q) ↦ walk_entries-conflict depth l entries {e = e} (ground arith)
        ]
      ]
