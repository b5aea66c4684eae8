-- ===== src/Scheduling/Repositories/ServiceCalls.antt =====
-- backend/src/fsm/scheduling/adapters/repositories.py, `SqlAlchemyServiceCallRepository`.
use field_service_management.Base.{
  not, filter, ◌==◌, ℕ, none, some, [], ◌∷◌, ◌++◌, is_some, if◌then◌else◌,
}
use field_service_management.Base.Rows.{find, put}
use field_service_management.Scheduling.Outcome.{ok, err, Error}
use field_service_management.Scheduling.ServiceCall.{ServiceCall}
use field_service_management.Scheduling.Store.{Action}
use field_service_management.Scheduling.Repositories.{call_id}

-- The primary key refuses a second row of one id.
unfoldable pub add : ServiceCall → Action (Unit {0})
add sc s =
    if is_some (find call_id sc.id s.service_calls)
    then (err Error.integrity_error, s)
    else (ok tt, record s { service_calls = s.service_calls ++ sc ∷ [] })

unfoldable pub get : ℕ → Action ServiceCall
get service_call_id s = elim (find call_id service_call_id s.service_calls) [
  | none ↦ (err Error.not_found, s)
  | some sc ↦ (ok sc, s)
]

-- `save` writes four columns: the triage summary and the headline stay as they were stored.
unfoldable pub save : ServiceCall → Action (Unit {0})
save sc s = elim (find call_id sc.id s.service_calls) [
  | none ↦ (err Error.not_found, s)
  | some row ↦ (
    ok tt,
    record s {
      service_calls =
          put call_id
            (record row {
              customer_id = sc.customer_id;
              description = sc.description;
              status = sc.status;
              created_at = sc.created_at;
            })
            s.service_calls;
    },
  )
]

-- The attachments of the call go with it, by the cascade of their foreign key.
unfoldable pub remove : ℕ → Action (Unit {0})
remove service_call_id s = elim (find call_id service_call_id s.service_calls) [
  | none ↦ (err Error.not_found, s)
  | some row ↦ (
    ok tt,
    record s {
      service_calls = filter (λ c. not (c.id == service_call_id)) s.service_calls;
      attachments = filter (λ a. not (a.service_call_id == service_call_id)) s.attachments;
    },
  )
]
