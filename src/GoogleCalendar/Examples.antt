-- ===== src/GoogleCalendar/Examples.antt =====
-- Each theorem of the calendar context at a concrete input.
use field_service_management.Base.{some, false, [], ◌∷◌}
use field_service_management.Base.Text.{codes}
use field_service_management.GoogleCalendar.Connections.{ConnectionStatus, Google, Rows, connect}
use field_service_management.GoogleCalendar.Connections.Connected.{Connects, connect-Connects}

-- Google has lost the calendar of technician 3.
abbrev google : Google
google = record {
  encrypt = λ token. token;
  create_calendar = some (codes "new");
  calendar_exists = λ calendar_id. some false;
}

abbrev rows : Rows
rows =
    record {
      technician_id = 3;
      fsm_calendar_id = codes "old";
      encrypted_refresh_token = codes "t";
      status = ConnectionStatus.disconnected;
      sync_token = some (codes "s");
    }
    ∷ []

connect-Connects_example : Connects google 3 (codes "u") rows (connect google 3 (codes "u") rows)
connect-Connects_example = connect-Connects google 3 (codes "u") rows
