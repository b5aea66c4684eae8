-- ===== src/GoogleCalendar/Connections.antt =====
-- The connections of technicians' calendars: domain/connection.py, adapters/repositories.py and
-- application/connection_service.py of backend/src/fsm/google_calendar. The cipher and Google's client
-- are parameters; a call of the client may raise.
pub mod Connected
use field_service_management.Base.{
  ℕ, Bool, true, false, Option, none, some, List, [], ◌∷◌, ◌++◌, filter, is_some, if◌then◌else◌,
}
use field_service_management.Base.Rows.{find, put}
use field_service_management.Base.Text.{Text}

pub data ConnectionStatus : Type 0 where
  connected disconnected : ConnectionStatus

pub record CalendarConnection : Type 0 where
  pub technician_id : ℕ
  pub fsm_calendar_id : Text
  pub status : ConnectionStatus

abbrev pub disconnect : CalendarConnection → CalendarConnection
disconnect connection = record connection { status = disconnected }

-- One row of `calendar_connection`.
pub record CalendarConnectionRow : Type 0 where
  pub technician_id : ℕ
  pub fsm_calendar_id : Text
  pub encrypted_refresh_token : Text
  pub status : ConnectionStatus
  pub sync_token : Option Text

pub data CalendarError : Type 0 where
  duplicate_technician not_found client_error : CalendarError

pub data Answer (A : Type 0) : Type 0 where
  returned : A → Answer A
  raised : CalendarError → Answer A

abbrev pub Rows : Type 0
Rows = List CalendarConnectionRow

abbrev pub row_technician : CalendarConnectionRow → ℕ
row_technician row = row.technician_id

abbrev pub row_to_connection : CalendarConnectionRow → CalendarConnection
row_to_connection row = record {
  technician_id = row.technician_id;
  fsm_calendar_id = row.fsm_calendar_id;
  status = row.status;
}

unfoldable pub add : CalendarConnection → Text → Rows → Answer (Unit {0}) × Rows
add connection encrypted_refresh_token rows =
    if is_some (find row_technician connection.technician_id rows)
    then (raised duplicate_technician, rows)
    else (
      returned tt,
      rows
          ++ record {
            technician_id = connection.technician_id;
            fsm_calendar_id = connection.fsm_calendar_id;
            encrypted_refresh_token = encrypted_refresh_token;
            status = connection.status;
            sync_token = none;
          }
            ∷ [],
    )

-- The methods that load the row of a technician, change it and flush.
abbrev pub update :
    ℕ → (CalendarConnectionRow → CalendarConnectionRow) → Rows → Answer (Unit {0}) × Rows
update technician_id change rows = elim (find row_technician technician_id rows) [
  | none ↦ (raised not_found, rows)
  | some row ↦ (returned tt, put row_technician (change row) rows)
]

unfoldable pub save : CalendarConnection → Rows → Answer (Unit {0}) × Rows
save connection =
    update connection.technician_id (λ row. record row {
      fsm_calendar_id = connection.fsm_calendar_id;
      status = connection.status;
    })

abbrev pub reconnected : Text → CalendarConnectionRow → CalendarConnectionRow
reconnected token row = record row { encrypted_refresh_token = token; status = connected }

unfoldable pub reconnect : ℕ → Text → Rows → Answer (Unit {0}) × Rows
reconnect technician_id token = update technician_id (reconnected token)

abbrev pub reprovisioned : Text → Text → CalendarConnectionRow → CalendarConnectionRow
reprovisioned calendar_id token row = record row {
  fsm_calendar_id = calendar_id;
  encrypted_refresh_token = token;
  status = connected;
  sync_token = none;
}

unfoldable pub reprovision : ℕ → Text → Text → Rows → Answer (Unit {0}) × Rows
reprovision technician_id new_calendar_id token =
    update technician_id (reprovisioned new_calendar_id token)

abbrev pub with_token : Text → CalendarConnectionRow → CalendarConnectionRow
with_token token row = record row { sync_token = some token }

unfoldable pub set_sync_token : ℕ → Text → Rows → Answer (Unit {0}) × Rows
set_sync_token technician_id token = update technician_id (with_token token)

abbrev pub is_connected : CalendarConnectionRow → Bool
is_connected row = elim row.status [ connected ↦ true | disconnected ↦ false ]

unfoldable pub list_connected : Rows → Rows
list_connected = filter is_connected

-- The collaborators of the service; `none` for a raise.
pub record Google : Type 0 where
  pub encrypt : Text → Text
  pub create_calendar : Option Text
  pub calendar_exists : Text → Option Bool

-- What follows a write that may raise.
abbrev pub after : {A : Type 0} → Answer (Unit {0}) × Rows → A → Answer A × Rows
after (returned u, rows) a = (returned a, rows)
after (raised e, rows) a = (raised e, rows)

abbrev pub connection_of : ℕ → Text → CalendarConnection
connection_of technician_id calendar_id = record {
  technician_id = technician_id;
  fsm_calendar_id = calendar_id;
  status = connected;
}

-- The first connect.
unfoldable pub connect_first : Google → ℕ → Text → Rows → Answer CalendarConnection × Rows
connect_first google technician_id token rows = elim google.create_calendar [
  | none ↦ (raised client_error, rows)
  | some calendar_id ↦
      after (add (connection_of technician_id calendar_id) token rows)
        (connection_of technician_id calendar_id)
]

-- The stored calendar is gone.
unfoldable pub connect_again : Google → ℕ → Text → Rows → Answer CalendarConnection × Rows
connect_again google technician_id token rows = elim google.create_calendar [
  | none ↦ (raised client_error, rows)
  | some calendar_id ↦
      after (reprovision technician_id calendar_id token rows)
        (connection_of technician_id calendar_id)
]

unfoldable pub connect : Google → ℕ → Text → Rows → Answer CalendarConnection × Rows
unfolding connect_first connect_again
connect google technician_id refresh_token rows =
    let token : Text = google.encrypt refresh_token in
    elim (find row_technician technician_id rows) [
      | none ↦ connect_first google technician_id token rows
      | some row ↦ elim (google.calendar_exists row.fsm_calendar_id) [
        | none ↦ (raised client_error, rows)
        | some false ↦ connect_again google technician_id token rows
        | some true ↦
            after (reconnect technician_id token rows)
              (connection_of technician_id row.fsm_calendar_id)
      ]
    ]

unfoldable pub disconnect_technician : ℕ → Rows → Answer CalendarConnection × Rows
unfolding save
disconnect_technician technician_id rows = elim (find row_technician technician_id rows) [
  | none ↦ (raised not_found, rows)
  | some row ↦
      after (save (disconnect (row_to_connection row)) rows) (disconnect (row_to_connection row))
]
