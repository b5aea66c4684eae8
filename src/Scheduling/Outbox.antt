-- ===== src/Scheduling/Outbox.antt =====
-- backend/src/fsm/scheduling/adapters/outbox_repository.py and ports/outbox.py.
use field_service_management.Base.{
  ℕ, zero, suc, ◌+◌, Bool, true, false, Option, none, some, List, [], ◌∷◌, ◌++◌, leb, if◌then◌else◌,
  filter,
}
use field_service_management.Base.Rows.{find, put}
use field_service_management.Scheduling.Outcome.{ok, err, Error}
use field_service_management.Scheduling.Store.{
  OutboxRow, OutboxOperation, OutboxStatus, Store, Action, ◌>>=◌, uuid4, modify,
}

abbrev pub max_attempts : ℕ
max_attempts = 5

pub record OutboxEntry : Type 0 where
  pub id : ℕ
  pub operation : OutboxOperation
  pub appointment_id : ℕ
  pub external_event_id : Option ℕ
  pub attempts : ℕ

abbrev pub entry_key : OutboxRow → ℕ
entry_key r = r.id

unfoldable pub enqueue : OutboxOperation → ℕ → Option ℕ → Action (Unit {0})
enqueue operation appointment_id external_event_id = do
  id ← uuid4
  modify λ s. record s {
    outbox =
        s.outbox
        ++ record {
          id = id;
          operation = operation;
          appointment_id = appointment_id;
          external_event_id = external_event_id;
          status = OutboxStatus.pending;
          attempts = 0;
          last_error = none;
          processed_at = none;
        }
          ∷ [];
  }

abbrev pub is_pending : OutboxStatus → Bool
is_pending OutboxStatus.pending = true
is_pending OutboxStatus.processed = false
is_pending OutboxStatus.failed = false

abbrev pub row_to_entry : OutboxRow → OutboxEntry
row_to_entry r = record {
  id = r.id;
  operation = r.operation;
  appointment_id = r.appointment_id;
  external_event_id = r.external_event_id;
  attempts = r.attempts;
}

abbrev pub first_pending : List OutboxRow → Option OutboxRow
first_pending [] = none
first_pending (r ∷ rs) = if is_pending r.status then some r else first_pending rs

-- The oldest PENDING row. No other transaction holds a lock here: see Dispatcher for two of them.
unfoldable pub claim_next : Store → Option OutboxEntry
claim_next s = elim (first_pending s.outbox) [ none ↦ none | some r ↦ some (row_to_entry r) ]

take_pending : ℕ → List OutboxRow → List OutboxEntry
take_pending zero rs = []
take_pending (suc n) [] = []
take_pending (suc n) (r ∷ rs) = row_to_entry r ∷ take_pending n rs

unfoldable pub list_pending : ℕ → Store → List OutboxEntry
unfolding take_pending
list_pending limit s = take_pending limit (filter (λ r. is_pending r.status) s.outbox)

abbrev pub processed_row : ℕ → OutboxRow → OutboxRow
processed_row now r = record r { status = OutboxStatus.processed; processed_at = some now }

-- The status changes only once the attempts are used up.
abbrev pub failed_row : Error → OutboxRow → OutboxRow
failed_row error r = record r {
  attempts = r.attempts + 1;
  last_error = some error;
  status = if leb max_attempts (r.attempts + 1) then OutboxStatus.failed else r.status;
}

unfoldable pub mark_processed : ℕ → ℕ → Action (Unit {0})
mark_processed entry_id now s = elim (find entry_key entry_id s.outbox) [
  | none ↦ (err Error.not_found, s)
  | some r ↦ (ok tt, record s { outbox = put entry_key (processed_row now r) s.outbox })
]

unfoldable pub mark_failed : ℕ → Error → Action (Unit {0})
mark_failed entry_id error s = elim (find entry_key entry_id s.outbox) [
  | none ↦ (err Error.not_found, s)
  | some r ↦ (ok tt, record s { outbox = put entry_key (failed_row error r) s.outbox })
]
