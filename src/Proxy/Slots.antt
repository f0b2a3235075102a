-- ===== src/Proxy/Slots.antt =====
-- The connection slots of `Server` in app-egress/app.py. An admission and a release are each one step.
use shimpz_drivers.Prelude.{
  ℕ, ◌+◌, ◌-◌, Bool, true, false, ◌&&◌, none, some, [], String, Result, ok, err, ◌>>◌, require,
  if◌then◌else◌, leb, ◌==◌, eq_nat,
}
use shimpz_drivers.Prelude.Dict
use shimpz_drivers.Prelude.Dict.{Dict}

pub data SlotError : Type 0 where
  invalid_concurrency key_error : SlotError

-- `free` is the value of the semaphore `_request_slots`.
pub record Slots : Type 0 where
  pub free : ℕ
  pub max_source_concurrency : ℕ
  pub source_counts : Dict ℕ

-- Server.__init__, with the module's MAX_CONCURRENCY
unfoldable pub new_slots : ℕ → ℕ → ℕ → Result SlotError Slots
new_slots limit max_concurrency max_source_concurrency = do
  require
      (leb 1 max_source_concurrency
        && leb max_source_concurrency max_concurrency
        && leb max_concurrency limit)
      invalid_concurrency
  ok (record {
    free = max_concurrency;
    max_source_concurrency = max_source_concurrency;
    source_counts = [];
  })

-- `self._source_counts.get(source, 0)`
unfoldable pub count_of : String → Dict ℕ → ℕ
count_of source counts = elim (Dict.get source counts) [ none ↦ 0 | some n ↦ n ]

-- _acquire_request_slot
unfoldable pub acquire_request_slot : String → Slots → Bool × Slots
acquire_request_slot source s =
    if s.free == 0
    then (false, s)
    else if leb s.max_source_concurrency (count_of source s.source_counts)
    then (false, s)
    else (
      true,
      record s {
        free = s.free - 1;
        source_counts = Dict.put source (count_of source s.source_counts + 1) s.source_counts;
      },
    )

-- `if remaining: ... else: ...`
unfoldable pub with_remaining : String → ℕ → Dict ℕ → Dict ℕ
with_remaining source remaining counts =
    if remaining == 0 then Dict.remove source counts else Dict.put source remaining counts

-- _release_request_slot; the count of a source is at least 1
unfoldable pub release_request_slot : String → Slots → Result SlotError Slots
release_request_slot source s = elim (Dict.get source s.source_counts) [
  | none ↦ err key_error
  | some n ↦ ok (record s {
    free = s.free + 1;
    source_counts = with_remaining source (n - 1) s.source_counts;
  })
]
