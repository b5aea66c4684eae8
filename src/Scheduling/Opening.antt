-- ===== src/Scheduling/Opening.antt =====
-- backend/src/fsm/scheduling/application/service_call_service.py.
use field_service_management.Base.{ℕ, Option}
use field_service_management.Assist.Summary.{TriageSummary}
use field_service_management.Base.Text.{Text}
use field_service_management.Scheduling.ServiceCall.{ServiceCall, ServiceCallStatus}
use field_service_management.Scheduling.Store.{Action, pure, uuid4, ◌>>=◌, ◌>>◌}
use field_service_management.Scheduling.Repositories.ServiceCalls

unfoldable pub open_service_call :
    ℕ → ℕ → Text → Option TriageSummary → Option Text → Action ServiceCall
open_service_call now customer_id description triage_summary headline = uuid4 >>= λ id.
    let sc : ServiceCall = record {
      id = id;
      customer_id = customer_id;
      description = description;
      status = ServiceCallStatus.open_call;
      created_at = now;
      triage_summary = triage_summary;
      headline = headline;
    } in
    ServiceCalls.add sc >> pure sc
