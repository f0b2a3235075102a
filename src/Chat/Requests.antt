-- ===== src/Chat/Requests.antt =====
-- The checks of `_validate_batch` and `_drive` of team/chat_orchestrator.py that call nothing outside.
use shimpz_drivers.Prelude.{
  ℕ, Bool, true, false, not, ◌||◌, ◌&&◌, Option, none, some, List, [], ◌∷◌, String, Result, ok, err,
  leb, ◌==◌, eq_string, eq_nat, if◌then◌else◌, contains,
}
use shimpz_drivers.Prelude.Text.{codes}
use shimpz_drivers.Value.{Value, str, dict, list, Entries, end, entry}
use shimpz_drivers.Chat.State.{
  ChatError, violated, other, RuntimePower, RuntimeAssistant, PowerRequest,
}

abbrev pub max_power_rounds : ℕ
max_power_rounds = 8

abbrev pub interrupts : List PowerRequest → List String
interrupts [] = []
interrupts (r ∷ rs) = r.interrupt_id ∷ interrupts rs

-- `seen.isdisjoint(ids)`
abbrev pub is_disjoint : List String → List String → Bool
is_disjoint seen [] = true
is_disjoint seen (i ∷ is) = not (contains i seen) && is_disjoint seen is

-- `declared.get((assistant_id, power))`: of equal keys the last one stands
abbrev pub or_later : {A : Type 0} → Option A → Option A → Option A
or_later a (some b) = some b
or_later a none = a

unfoldable pub find_power : String → List RuntimePower → Option RuntimePower
find_power name [] = none
find_power name (p ∷ ps) = or_later (if p.id == name then some p else none) (find_power name ps)

unfoldable pub find_declared : String → String → List RuntimeAssistant → Option RuntimePower
unfolding find_power
find_declared assistant name [] = none
find_declared assistant name (a ∷ others) =
    or_later (if a.id == assistant then find_power name a.powers else none)
      (find_declared assistant name others)

-- The first loop of `_validate_batch`.
unfoldable pub contracts_of :
    List RuntimeAssistant
    → List String
    → List PowerRequest
    → Result ChatError (List (PowerRequest × RuntimePower))
unfolding find_declared
contracts_of declared seen [] = ok []
contracts_of declared seen (r ∷ rs) =
    let rest = contracts_of declared (r.interrupt_id ∷ seen) rs in
    elim (find_declared r.assistant_id r.power declared) [
      | none ↦ err violated
      | some power ↦
          if contains r.interrupt_id seen
          then err violated
          else elim rest [ err e ↦ err e | ok contracts ↦ ok ((r, power) ∷ contracts) ]
    ]

-- isinstance(value, Mapping)
abbrev pub is_mapping : Value → Bool
is_mapping (dict _) = true
is_mapping _ = false

-- `payload.get("kind") not in {"request", "approval"}`, where a list or a dict has no hash
unfoldable pub check_kind : Entries → Result ChatError (Unit {0})
check_kind end = err violated
check_kind (entry (str key) value entries) =
    let rest = check_kind entries in
    if key == "kind"
    then (elim value [
      | str kind ↦ if kind == "request" || kind == "approval" then ok tt else err violated
      | dict _ ↦ err other
      | list _ ↦ err other
      | _ ↦ err violated
    ])
    else rest
check_kind (entry _ value entries) = check_kind entries

-- The order of texts, by code points, and `sorted` of a set: equal elements of the list are one.
abbrev pub codes_leb : List ℕ → List ℕ → Bool
codes_leb [] ys = true
codes_leb (x ∷ xs) [] = false
codes_leb (x ∷ xs) (y ∷ ys) = if x == y then codes_leb xs ys else leb x y

unfoldable pub insert_text : String → List String → List String
insert_text s [] = s ∷ []
insert_text s (t ∷ ts) =
    let rest = insert_text s ts in
    if s == t then t ∷ ts else if codes_leb (codes s) (codes t) then s ∷ t ∷ ts else t ∷ rest

unfoldable pub sorted : List String → List String
unfolding insert_text
sorted [] = []
sorted (s ∷ ss) = insert_text s (sorted ss)
