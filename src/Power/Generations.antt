-- ===== src/Power/Generations.antt =====
-- The fingerprint of a request and the generations of its private state: `power_operation`,
-- `private_generations`, `secret_generations` and `account_generations` of
-- team/power_execution.py. The canonical JSON and SHA-256 are parameters.
use shimpz_drivers.Prelude.{
  ℕ, Bool, true, false, Option, none, some, List, [], ◌∷◌, String, Result, ok, err, ◌>>=◌,
  if◌then◌else◌, ltb, ◌==◌, ◌/=◌, eq_nat, eq_string, length, all,
}
use shimpz_drivers.Prelude.Int.{pos}
use shimpz_drivers.Prelude.Dict
use shimpz_drivers.Prelude.Dict.{Dict}
use shimpz_drivers.Value.{Value, bool, int, str, tuple, dict, Items, nil, cons, end, entry}
use shimpz_drivers.Chat.State.{PowerRequest}
use shimpz_drivers.Journal.State.{JournalError, conflict, Operation}

abbrev pub text_of : Value → Result JournalError String
text_of (str s) = if s == "" then err conflict else ok s
text_of _ = err conflict

abbrev pub generation_items : List (String × ℕ) → Items
generation_items [] = nil
generation_items ((i, n) ∷ gs) =
    cons (tuple (cons (str i) (cons (int (pos n)) nil))) (generation_items gs)

abbrev pub of_encoded : (String → String) → String → Option String → Result JournalError Operation
of_encoded sha256 interrupt_id none = err conflict
of_encoded sha256 interrupt_id (some encoded) =
    ok (record { interrupt_id = interrupt_id; fingerprint = sha256 encoded })

unfoldable pub power_operation :
    (Value → Option String)
    → (String → String)
    → PowerRequest
    → Value
    → Value
    → List (String × ℕ)
    → List (String × ℕ)
    → Result JournalError Operation
power_operation dumps sha256 request assistant_container_id assistant_image secrets accounts = do
  container_id ← text_of assistant_container_id
  image ← text_of assistant_image
  of_encoded sha256 request.interrupt_id (
      dumps (
        dict (
          entry (str "assistant_container_id") (str container_id) (
            entry (str "assistant_id") (str request.assistant_id) (
              entry (str "assistant_image") (str image) (
                entry (str "account_generations") (tuple (generation_items accounts)) (
                  entry (str "input") request.input (
                    entry (str "power") (str request.power) (
                      entry (str "secret_generations") (tuple (generation_items secrets))
                        end)))))))))

-- What is read of the metadata of a secret or of an account; `null` where there is no attribute.
pub record Metadata : Type 0 where
  pub id : String
  pub status : Value
  pub configured : Value
  pub generation : Value

abbrev pub is_connected : Metadata → Bool
is_connected item = elim item.status [ str s ↦ s == "connected" | _ ↦ false ]

abbrev pub is_configured : Metadata → Bool
is_configured item = elim item.configured [ bool b ↦ b | _ ↦ false ]

-- `type(generation) is int` and at least 1
abbrev pub positive : Value → Option ℕ
positive (int (pos n)) = if ltb n 1 then none else some n
positive _ = none

abbrev pub generations_of : List Metadata → Option (List (String × ℕ))
generations_of [] = some []
generations_of (item ∷ items) =
    let rest = generations_of items in
    elim (positive item.generation) [
      | none ↦ none
      | some n ↦ elim rest [ none ↦ none | some gs ↦ some ((item.id, n) ∷ gs) ]
    ]

unfoldable pub private_generations : List Metadata → Bool → Result JournalError (List (String × ℕ))
private_generations metadata connected =
    if all (λ item. if connected then is_connected item else is_configured item) metadata
    then elim (generations_of metadata) [ none ↦ err conflict | some gs ↦ ok gs ]
    else err conflict

-- The secrets and the accounts that a Power of the manifest declares.
pub record PowerContract : Type 0 where
  pub secrets : List String
  pub accounts : List String

unfoldable pub secret_generations :
    Dict PowerContract
    → String
    → (List String → List Metadata)
    → Result JournalError (List (String × ℕ))
secret_generations powers power_id metadata = elim (Dict.get power_id powers) [
  | none ↦ err conflict
  | some power ↦ private_generations (metadata power.secrets) false
]

-- `{account_id: accounts[account_id] for account_id in account_ids if account_id in accounts}`
abbrev pub declarations : {A : Type 0} → Dict A → List String → Dict A → Dict A
declarations accounts [] found = found
declarations accounts (account_id ∷ ids) found = elim (Dict.get account_id accounts) [
  | none ↦ declarations accounts ids found
  | some a ↦ declarations accounts ids (Dict.put account_id a found)
]

unfoldable pub account_generations :
    {A : Type 0}
    → Dict PowerContract
    → Dict A
    → String
    → (Dict A → List Metadata)
    → Result JournalError (List (String × ℕ))
account_generations powers accounts power_id metadata = elim (Dict.get power_id powers) [
  | none ↦ err conflict
  | some power ↦
      let found = declarations accounts power.accounts [] in
      if length found /= length power.accounts
      then err conflict
      else private_generations (metadata found) true
]
