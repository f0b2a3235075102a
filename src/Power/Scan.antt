-- ===== src/Power/Scan.antt =====
-- What `contains_secret` of team/power_execution.py means: an independent description.
use shimpz_drivers.Prelude.{
  ℕ, ◌+◌, ◌≡◌, refl, arith, max, Bool, false, ◌&&◌, ◌||◌, List, [], ◌∷◌, ◌++◌, String, ok, ltb,
  eq_nat, eq_string, any,
}
use shimpz_drivers.Prelude.Dict.{Dict}
use shimpz_drivers.Value.{
  Value, null, bool, int, float, str, list, tuple, dict, object, Items, nil, cons, Entries, end,
  entry,
}
use shimpz_drivers.Chat.State.{Answer}
use shimpz_drivers.Power.Secrets.{
  leaks, visit, visit_items, visit_entries, nonempty_values, is_any, contains_secret,
  protected_rpc_values, inspected, project_rpc_result, RpcInvocationResult, Checked,
}

-- Every text in a value, keys of dicts included, and how deep a value is nested.
unfoldable mutual
  pub texts : Value → List String
  texts (str s) = s ∷ []
  texts (list items) = item_texts items
  texts (tuple items) = item_texts items
  texts (dict entries) = entry_texts entries
  texts null = []
  texts (bool b) = []
  texts (int n) = []
  texts (float bits) = []
  texts object = []

  pub item_texts : Items → List String
  item_texts nil = []
  item_texts (cons v items) = texts v ++ item_texts items

  pub entry_texts : Entries → List String
  entry_texts end = []
  entry_texts (entry k v entries) = texts k ++ (texts v ++ entry_texts entries)

unfoldable mutual
  pub nesting : Value → ℕ
  nesting (list items) = item_nesting items
  nesting (tuple items) = item_nesting items
  nesting (dict entries) = entry_nesting entries
  nesting (str s) = 0
  nesting null = 0
  nesting (bool b) = 0
  nesting (int n) = 0
  nesting (float bits) = 0
  nesting object = 0

  pub item_nesting : Items → ℕ
  item_nesting nil = 0
  item_nesting (cons v items) = max (nesting v + 1) (item_nesting items)

  pub entry_nesting : Entries → ℕ
  entry_nesting end = 0
  entry_nesting (entry k v entries) =
      max (nesting k + 1) (max (nesting v + 1) (entry_nesting entries))

any-append :
    {A : Type 0} (test : A → Bool) (xs ys : List A)
    → any test (xs ++ ys) ≡ (any test xs || any test ys)
any-append test [] ys = refl
any-append test (x ∷ xs) ys = ground (arith, any-append test xs ys)

mutual
  unfolding visit texts nesting

  visit_lem :
      (secrets : List String) (depth : ℕ) (v : Value)
      → visit secrets depth v ≡ (ltb 32 (depth + nesting v) || any (leaks secrets) (texts v))
  visit_lem secrets depth (str s) = ground arith
  visit_lem secrets depth (list items) = ground (arith, visit_items_lem secrets depth items)
  visit_lem secrets depth (tuple items) = ground (arith, visit_items_lem secrets depth items)
  visit_lem secrets depth (dict entries) = ground (arith, visit_entries_lem secrets depth entries)
  visit_lem secrets depth null = ground arith
  visit_lem secrets depth (bool b) = ground arith
  visit_lem secrets depth (int n) = ground arith
  visit_lem secrets depth (float bits) = ground arith
  visit_lem secrets depth object = ground arith

  visit_items_lem :
      (secrets : List String) (depth : ℕ) (items : Items)
      → ltb 32 depth ≡ false
      → visit_items secrets (depth + 1) items
        ≡ (ltb 32 (depth + item_nesting items) || any (leaks secrets) (item_texts items))
  visit_items_lem secrets depth nil h = ground (arith, h)
  visit_items_lem secrets depth (cons v items) h = ground (
    arith,
    h,
    visit_lem secrets (depth + 1) v,
    visit_items_lem secrets depth items h,
    any-append (leaks secrets) (texts v) (item_texts items),
  )

  visit_entries_lem :
      (secrets : List String) (depth : ℕ) (entries : Entries)
      → ltb 32 depth ≡ false
      → visit_entries secrets (depth + 1) entries
        ≡ (ltb 32 (depth + entry_nesting entries) || any (leaks secrets) (entry_texts entries))
  visit_entries_lem secrets depth end h = ground (arith, h)
  visit_entries_lem secrets depth (entry k v entries) h = ground (
    arith,
    h,
    visit_lem secrets (depth + 1) k,
    visit_lem secrets (depth + 1) v,
    visit_entries_lem secrets depth entries h,
    any-append (leaks secrets) (texts k) (texts v ++ entry_texts entries),
    any-append (leaks secrets) (texts v) (entry_texts entries),
  )

-- Whatever the value: contains_secret is true iff some private value is not empty, and the value is
-- nested in more than 32 levels or one of its texts, keys of dicts included, has a private value
-- that is not empty inside.
pub contains_secret_lem :
    (v : Value) (secrets_by_id : Dict String)
    → contains_secret v secrets_by_id ≡ (
        is_any (nonempty_values secrets_by_id)
        && (ltb 32 (nesting v) || any (leaks (nonempty_values secrets_by_id)) (texts v)))
unfolding contains_secret
contains_secret_lem v secrets_by_id = ground (arith, visit_lem (nonempty_values secrets_by_id) 0 v)

leaks_nothing : (l : List String) (ts : List String) → is_any l ≡ false → any (leaks l) ts ≡ false
leaks_nothing l [] h = refl
leaks_nothing [] (t ∷ ts) h = leaks_nothing [] ts h
leaks_nothing (x ∷ l) (t ∷ ts) h = absurd (ground (arith, h))

contains_secret_clean :
    (v : Value) (d : Dict String)
    → contains_secret v d ≡ false
    → any (leaks (nonempty_values d)) (texts v) ≡ false
contains_secret_clean v d h =
    ground (arith, contains_secret_lem v d, h, leaks_nothing (nonempty_values d) (texts v))

-- If project_rpc_result returns, then no text of what the Power returned has inside a value that is
-- not empty among the secrets, the access tokens and the answers, where later ones replace earlier
-- ones under the same key.
pub project_rpc_result-private :
    (printed : ℕ → String) (raw_result : Answer) (secrets_by_id : Dict String)
    (accounts_by_id : Dict (Dict Value)) (answers : List Value) (validate : Value → Checked)
    {r : RpcInvocationResult}
    → project_rpc_result printed raw_result secrets_by_id accounts_by_id answers validate ≡ ok r
    → any
        (leaks
          (nonempty_values (protected_rpc_values printed secrets_by_id accounts_by_id answers)))
        (texts (inspected raw_result))
      ≡ false
unfolding project_rpc_result
project_rpc_result-private printed raw_result secrets_by_id accounts_by_id answers validate h =
    contains_secret_clean (inspected raw_result)
      (protected_rpc_values printed secrets_by_id accounts_by_id answers) (ground (arith, h))
