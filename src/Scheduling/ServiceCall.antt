-- ===== src/Scheduling/ServiceCall.antt =====
-- backend/src/fsm/scheduling/domain/service_call.py and attachment.py. The triage summary is JSON
-- that scheduling stores and never reads: here the record that it was made from.
use field_service_management.Base.{ℕ, Bool, true, false, not, Option}
use field_service_management.Assist.Summary.{TriageSummary}
use field_service_management.Base.Text.{Text}
use field_service_management.Scheduling.Outcome.{Result, ok, Error, ◌>>◌, raise_if}

pub data ServiceCallStatus : Type 0 where
  open_call scheduled cancelled : ServiceCallStatus

pub record ServiceCall : Type 0 where
  pub id : ℕ
  pub customer_id : ℕ
  pub description : Text
  pub status : ServiceCallStatus
  pub created_at : ℕ
  pub triage_summary : Option TriageSummary
  pub headline : Option Text

-- `status is ServiceCallStatus.OPEN`.
abbrev pub is_open : ServiceCallStatus → Bool
is_open ServiceCallStatus.open_call = true
is_open ServiceCallStatus.scheduled = false
is_open ServiceCallStatus.cancelled = false

unfoldable pub mark_scheduled : ServiceCall → Result ServiceCall
mark_scheduled sc = do
  raise_if (not (is_open sc.status)) Error.invalid_transition
  ok (record sc { status = ServiceCallStatus.scheduled })

-- domain/attachment.py: a photo of the service call. The media type is opaque.
pub record ServiceCallAttachment : Type 0 where
  pub id : ℕ
  pub service_call_id : ℕ
  pub filename : Text
  pub media_type : ℕ
  pub size_bytes : ℕ
  pub object_key : Text
  pub created_at : ℕ
