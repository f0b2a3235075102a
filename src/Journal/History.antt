-- ===== src/Journal/History.antt =====
-- Histories of a journal: calls of the methods of team/power_journal.py, with failing statements
-- anywhere.
use shimpz_drivers.Prelude.{
  ◌≡◌, false, ◌&&◌, Option, none, some, List, [], ◌∷◌, String, Result, ok, err, ◌==◌, eq_string,
  eq_nat,
}
use shimpz_drivers.Value.{Value}
use shimpz_drivers.Journal.State.{JournalError, Codec, Operation, Batch}
use shimpz_drivers.Journal.Loading.{Journal}
use shimpz_drivers.Journal.Store.{prepare_batch, begin, complete, suspend, delivered, purge}

-- A call of a method of the journal.
pub data Call : Type 0 where
  prepares : String → String → List Operation → Call
  begins suspends : Batch → Operation → Call
  completes : Batch → Operation → Value → Call
  delivers : Batch → Call
  purges : String → Call

-- The journal that a call leaves, whether it returns or raises.
unfoldable pub step : Codec → Call → Journal → Journal
step codec (prepares generation thread operations) j =
    (prepare_batch codec generation thread operations j).1
step codec (begins batch o) j = (begin codec batch o j).1
step codec (suspends batch o) j = (suspend batch o j).1
step codec (completes batch o v) j = (complete codec batch o v j).1
step codec (delivers batch) j = (delivered codec batch j).1
step codec (purges generation) j = (purge generation j).1

unfoldable pub run : Codec → List Call → Journal → Journal
run codec [] j = j
run codec (c ∷ cs) j = run codec cs (step codec c j)

-- The call does not suspend the operation `i` of the generation `g`, nor deliver or purge `g`.
abbrev pub Retains : String → String → Call → Type 0
Retains g i (suspends batch o) = (batch.generation == g && o.interrupt_id == i) ≡ false
Retains g i (delivers batch) = (batch.generation == g) ≡ false
Retains g i (purges generation) = (generation == g) ≡ false
Retains g i _ = Unit

abbrev pub AllRetain : String → String → List Call → Type 0
AllRetain g i [] = Unit
AllRetain g i (c ∷ cs) = Retains g i c × AllRetain g i cs

abbrev pub error_of : {A : Type 0} → Result JournalError A → Option JournalError
error_of (ok _) = none
error_of (err e) = some e

-- The error that a call raises.
unfoldable pub raises : Codec → Call → Journal → Option JournalError
raises codec (prepares generation thread operations) j =
    error_of (prepare_batch codec generation thread operations j).0
raises codec (begins batch o) j = error_of (begin codec batch o j).0
raises codec (suspends batch o) j = error_of (suspend batch o j).0
raises codec (completes batch o v) j = error_of (complete codec batch o v j).0
raises codec (delivers batch) j = error_of (delivered codec batch j).0
raises codec (purges generation) j = error_of (purge generation j).0
