-- ===== src/Chat/State.antt =====
-- The values of team/chat_orchestrator.py and of the Brain client that it uses, and a monad for code
-- that calls out and may raise.
use shimpz_drivers.Prelude.{ℕ, Bool, true, false, Option, List, ◌∷◌, String, Result, ok, err}
use shimpz_drivers.Value.{Value, Entries}

-- `ChatOrchestrationError`, `ChatStoppedError`, and whatever else is raised.
pub data ChatError : Type 0 where
  violated stopped other : ChatError

pub record RuntimePower : Type 0 where
  pub id : String
  pub summary : String
  pub input_schema : Value

pub record RuntimeAssistant : Type 0 where
  pub id : String
  pub powers : List RuntimePower

pub record PowerRequest : Type 0 where
  pub interrupt_id : String
  pub assistant_id : String
  pub power : String
  pub input : Value

pub data Status : Type 0 where
  completed power_required : Status

pub record RuntimeTurn : Type 0 where
  pub status : Status
  pub reply : String
  pub powers : List PowerRequest

pub record InvokedPower : Type 0 where
  pub assistant_id : String
  pub power : String

pub record ChatContinuation : Type 0 where
  pub turn : RuntimeTurn
  pub seen_interrupts : List String
  pub invoked : List InvokedPower
  pub round_index : ℕ

pub record HumanInteraction : Type 0 where
  pub request : PowerRequest
  pub payload : Entries

-- `ChatOutcome | ChatSuspension`
pub data Ending : Type 0 where
  outcome : String → List InvokedPower → Ending
  suspension : ChatContinuation → List PowerRequest → Option HumanInteraction → Ending

-- What a Power returns: a result, or an `RpcSuspension`.
pub data Answer : Type 0 where
  result : Value → Answer
  rpc_suspension : Entries → Answer

pub data Event : Type 0 where
  prepares : List PowerRequest → Event
  invokes : PowerRequest → Event
  resumes : List (String × Value) → Event
  delivers : List PowerRequest → Event

pub record Env (W : Type 0) : Type 0 where
  pub world : W
  pub log : List Event

-- A call out.
abbrev pub Outside : Type 0 → Type 0 → Type 0
Outside W A = W → Result ChatError A × W

pub record Strategy (W : Type 0) : Type 0 where
  pub validate_power : String → String → Value → Outside W Value
  pub invoke_power : PowerRequest → Outside W Answer
  pub prepare_batch : List PowerRequest → Outside W (Unit {0})
  pub batch_delivered : List PowerRequest → Outside W (Unit {0})
  pub pause_before_batch : List PowerRequest → Outside W Bool
  pub cancelled : Outside W Bool
  pub validate_context : Outside W (Unit {0})

-- The Brain client, for one context.
pub record Runtime (W : Type 0) : Type 0 where
  pub start : String → Outside W RuntimeTurn
  pub resume : List (String × Value) → Outside W RuntimeTurn

abbrev pub Chat : Type 0 → Type 0 → Type 0
Chat W A = Env W → Result ChatError A × Env W

module _ {W : Type 0} where
  abbrev pub pure : {A : Type 0} → A → Chat W A
  pure a s = (ok a, s)

  abbrev pub raise : {A : Type 0} → ChatError → Chat W A
  raise e s = (err e, s)

  -- `if test: raise e`
  abbrev pub reject : Bool → ChatError → Chat W (Unit {0})
  reject false e s = (ok tt, s)
  reject true e s = (err e, s)

  abbrev pub lift : {A : Type 0} → Result ChatError A → Chat W A
  lift r s = (r, s)

  unfoldable pub outside : {A : Type 0} → Outside W A → Chat W A
  outside f s = let (r, w) = f s.world in (r, record s { world = w })

  -- A call out that is recorded.
  unfoldable pub logged : {A : Type 0} → Event → Outside W A → Chat W A
  logged e f s = let (r, w) = f s.world in (r, record { world = w; log = e ∷ s.log })

  unfoldable pub after :
      {A B : Type 0} → Result ChatError A × Env W → (A → Chat W B) → Result ChatError B × Env W
  after (err e, s) f = (err e, s)
  after (ok a, s) f = f a s

  infixl 5 ◌>>=◌ ◌>>◌
  unfoldable pub ◌>>=◌ : {A B : Type 0} → Chat W A → (A → Chat W B) → Chat W B
  unfolding after
  ◌>>=◌ m f s = after (m s) f

  abbrev pub ◌>>◌ : {A B : Type 0} → Chat W A → Chat W B → Chat W B
  m >> k = m >>= λ _. k
