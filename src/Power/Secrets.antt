-- ===== src/Power/Secrets.antt =====
-- The scan of what a Power returns for private values: `contains_secret`, `protected_rpc_values`,
-- `project_rpc_result` and `decode_rpc_response` of team/power_execution.py. What Python prints for
-- an ordinal, and the decoder of JSON, are parameters.
use shimpz_drivers.Prelude.{
  ℕ, ◌+◌, Bool, true, false, not, ◌&&◌, ◌||◌, Option, none, some, List, [], ◌∷◌, String, Result, ok,
  err, if◌then◌else◌, ltb, ◌==◌, eq_nat, eq_string, any, select,
}
use Prim.Native.String.{◌++◌}
use shimpz_drivers.Prelude.Text.{codes}
use shimpz_drivers.Prelude.Dict
use shimpz_drivers.Prelude.Dict.{Dict}
use shimpz_drivers.Value.{
  Value, null, bool, int, float, str, list, tuple, dict, object, Items, nil, cons, Entries, end,
  entry,
}
use shimpz_drivers.Chat.State.{Answer, result, rpc_suspension}

abbrev pub starts_with : List ℕ → List ℕ → Bool
starts_with [] text = true
starts_with (c ∷ cs) [] = false
starts_with (c ∷ cs) (d ∷ ds) = c == d && starts_with cs ds

-- `needle in text`
abbrev pub is_inside : List ℕ → List ℕ → Bool
is_inside needle [] = starts_with needle []
is_inside needle (c ∷ cs) = starts_with needle (c ∷ cs) || is_inside needle cs

-- `any(secret in item for secret in secret_values)`
abbrev pub leaks : List String → String → Bool
leaks secret_values item = any (λ secret. is_inside (codes secret) (codes item)) secret_values

unfoldable mutual
  -- `visit` of contains_secret
  pub visit : List String → ℕ → Value → Bool
  visit secret_values depth (str s) = if ltb 32 depth then true else leaks secret_values s
  visit secret_values depth (list items) =
      let inner = visit_items secret_values (depth + 1) items in
      if ltb 32 depth then true else inner
  visit secret_values depth (tuple items) =
      let inner = visit_items secret_values (depth + 1) items in
      if ltb 32 depth then true else inner
  visit secret_values depth (dict entries) =
      let inner = visit_entries secret_values (depth + 1) entries in
      if ltb 32 depth then true else inner
  visit secret_values depth null = ltb 32 depth
  visit secret_values depth (bool b) = ltb 32 depth
  visit secret_values depth (int n) = ltb 32 depth
  visit secret_values depth (float bits) = ltb 32 depth
  visit secret_values depth object = ltb 32 depth

  pub visit_items : List String → ℕ → Items → Bool
  visit_items secret_values depth nil = false
  visit_items secret_values depth (cons child items) =
      visit secret_values depth child || visit_items secret_values depth items

  pub visit_entries : List String → ℕ → Entries → Bool
  visit_entries secret_values depth end = false
  visit_entries secret_values depth (entry key child entries) =
      visit secret_values depth key
      || visit secret_values depth child
      || visit_entries secret_values depth entries

abbrev pub values : Dict String → List String
values [] = []
values ((k, v) ∷ d) = v ∷ values d

-- `tuple(secret for secret in secrets_by_id.values() if secret)`
abbrev pub nonempty_values : Dict String → List String
nonempty_values secrets_by_id = select (λ s. not (s == "")) (values secrets_by_id)

abbrev pub is_any : List String → Bool
is_any [] = false
is_any (_ ∷ _) = true

unfoldable pub contains_secret : Value → Dict String → Bool
contains_secret value secrets_by_id =
    is_any (nonempty_values secrets_by_id) && visit (nonempty_values secrets_by_id) 0 value

-- `{**secrets_by_id, ...}`
abbrev pub update : Dict String → Dict String → Dict String
update d [] = d
update d ((k, v) ∷ more) = update (Dict.put k v d) more

abbrev pub account_values : Dict (Dict Value) → Dict String
account_values [] = []
account_values ((account_id, envelope) ∷ accounts) =
    let rest = account_values accounts in
    elim (Dict.get "access_token" envelope) [
      | some (str access_token) ↦ ("account:" ++ account_id, access_token) ∷ rest
      | _ ↦ rest
    ]

abbrev pub answer_values : (ℕ → String) → ℕ → List Value → Dict String
answer_values printed ordinal [] = []
answer_values printed ordinal (answer ∷ answers) =
    let rest = answer_values printed (ordinal + 1) answers in
    elim answer [ str s ↦ ("answer:" ++ printed ordinal, s) ∷ rest | _ ↦ rest ]

unfoldable pub protected_rpc_values :
    (ℕ → String) → Dict String → Dict (Dict Value) → List Value → Dict String
protected_rpc_values printed secrets_by_id accounts_by_id answers =
    update (update secrets_by_id (account_values accounts_by_id)) (answer_values printed 0 answers)

-- RpcSecretExposureError and RpcInvalidResultError; `raised` is what `validate` raises else.
pub data ProjectError : Type 0 where
  secret_exposure invalid_result raised : ProjectError

pub record RpcInvocationResult : Type 0 where
  pub value : Value
  pub suspended : Bool

-- `raw_result.payload if isinstance(raw_result, RpcSuspension) else raw_result`
abbrev pub inspected : Answer → Value
inspected (result v) = v
inspected (rpc_suspension payload) = dict payload

-- What `validate` gives: a value, a ValueError, or another exception.
pub data Checked : Type 0 where
  valid : Value → Checked
  value_error other_error : Checked

abbrev pub checked : Checked → Result ProjectError RpcInvocationResult
checked (valid v) = ok (record { value = v; suspended = false })
checked value_error = err invalid_result
checked other_error = err raised

abbrev pub projected : Answer → (Value → Checked) → Result ProjectError RpcInvocationResult
projected (rpc_suspension payload) validate = ok (record { value = dict payload; suspended = true })
projected (result v) validate = checked (validate v)

unfoldable pub project_rpc_result :
    (ℕ → String)
    → Answer
    → Dict String
    → Dict (Dict Value)
    → List Value
    → (Value → Checked)
    → Result ProjectError RpcInvocationResult
project_rpc_result printed raw_result secrets_by_id accounts_by_id answers validate =
    if contains_secret (inspected raw_result)
      (protected_rpc_values printed secrets_by_id accounts_by_id answers)
    then err secret_exposure
    else projected raw_result validate

-- The response of a Power once it is decoded, or what decode_rpc_response raises.
abbrev pub of_response : Value → Option Answer
of_response (dict (entry (str key) value end)) =
    if key == "result" then some (result value) else elim value [
      | dict payload ↦ if key == "suspend" then some (rpc_suspension payload) else none
      | _ ↦ none
    ]
of_response _ = none

-- decode_rpc_response, over `json.loads`
unfoldable pub decode_rpc_response : (List ℕ → Option Value) → List ℕ → Option Answer
decode_rpc_response loads raw = elim (loads raw) [ none ↦ none | some v ↦ of_response v ]
