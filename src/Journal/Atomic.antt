-- ===== src/Journal/Atomic.antt =====
-- What the methods of team/power_journal.py leave when they raise.
use shimpz_drivers.Prelude.{◌≡◌, arith, some, Result, ok, err, eq_string, eq_nat}
use shimpz_drivers.Journal.State.{JournalError, Codec}
use shimpz_drivers.Journal.Tables.{Tables}
use shimpz_drivers.Journal.Loading.{Journal}
use shimpz_drivers.Journal.Store.{prepare_batch, begin, complete, suspend, delivered, purge}
use shimpz_drivers.Journal.Blocks.{Begun}
use shimpz_drivers.Journal.Steps.{Suspended}
use shimpz_drivers.Journal.Batches.{Delivered}
use shimpz_drivers.Journal.Effects.{
  Effect, PreparedBy, CompletedBy, Purged, prepare_batch-Effect, begin-Effect, complete-Effect,
  suspend-Effect, delivered-Effect, purge-Effect,
}
use shimpz_drivers.Journal.History.{
  Call, prepares, begins, suspends, completes, delivers, purges, step, error_of, raises,
}

error-kept :
    {A : Type 0} (R : Tables → A → Tables → Type 0) (j : Journal) (e : JournalError)
    (p : Result JournalError A × Journal)
    → Effect R j p
    → error_of p.0 ≡ some e
    → p.1.connection.durable ≡ j.connection.durable
error-kept R j e (ok x, j') s h = absurd (ground (arith, h))
error-kept R j e (err _, j') s h = s

-- Whichever statements fail, the commit included, a method that raises leaves what SQLite holds
-- durably as it was before the call.
pub raises-unchanged :
    (codec : Codec) (c : Call) (j : Journal) {e : JournalError}
    → raises codec c j ≡ some e
    → (step codec c j).connection.durable ≡ j.connection.durable
unfolding raises step
raises-unchanged codec (prepares generation thread operations) j {e} =
    error-kept (PreparedBy codec generation thread operations j) j e
      (prepare_batch codec generation thread operations j)
      (prepare_batch-Effect codec generation thread operations j)
raises-unchanged codec (begins batch o) j {e} =
    error-kept (Begun codec j.max_result_bytes batch o) j e (begin codec batch o j)
      (begin-Effect codec batch o j)
raises-unchanged codec (suspends batch o) j {e} =
    error-kept (λ t x t'. Suspended batch o t t') j e (suspend batch o j) (suspend-Effect batch o j)
raises-unchanged codec (completes batch o v) j {e} =
    error-kept (CompletedBy codec batch o v j) j e (complete codec batch o v j)
      (complete-Effect codec batch o v j)
raises-unchanged codec (delivers batch) j {e} =
    error-kept (λ t x t'. Delivered codec j.max_result_bytes batch t t') j e
      (delivered codec batch j) (delivered-Effect codec batch j)
raises-unchanged codec (purges generation) j {e} =
    error-kept (Purged generation) j e (purge generation j) (purge-Effect generation j)
