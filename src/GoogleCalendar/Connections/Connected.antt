-- ===== src/GoogleCalendar/Connections/Connected.antt =====
-- What connecting does: backend/src/fsm/google_calendar/application/connection_service.py.
use mathlib.Core.Path.{subst}
use field_service_management.Base.{
  ℕ, true, false, none, some, [], ◌∷◌, ◌++◌, Option-cases, ◌≡◌, ◌≢◌, refl, sym, ◌∙◌, ◌⊎◌, inl, inr,
  arith,
}
use field_service_management.Base.Rows.{find, put, find-key, find-put_self, find-put_ne}
use field_service_management.Base.Text.{Text}
use field_service_management.GoogleCalendar.Connections.{
  CalendarConnection, CalendarConnectionRow, Answer, returned, raised, Rows, Google, connected,
  row_technician, connection_of, add, reconnect, reprovision, reconnected, reprovisioned,
  connect_first, connect_again, connect, client_error,
}

-- The calendar that was there, which Google still has, with its sync token.
abbrev pub KeepsCalendar : Google → ℕ → Rows → CalendarConnectionRow → Type 0
KeepsCalendar google technician_id rows row =
    (old : CalendarConnectionRow) × (find row_technician technician_id rows ≡ some old)
    × (google.calendar_exists old.fsm_calendar_id ≡ some true)
    × (row.fsm_calendar_id ≡ old.fsm_calendar_id)
    × (row.sync_token ≡ old.sync_token)

-- A calendar that Google has just made, where there was none or Google no longer has it.
abbrev pub TakesNewCalendar : Google → ℕ → Rows → CalendarConnectionRow → Type 0
TakesNewCalendar google technician_id rows row =
    (google.create_calendar ≡ some row.fsm_calendar_id)
    × (row.sync_token ≡ none)
    × ((old : CalendarConnectionRow)
        → find row_technician technician_id rows ≡ some old
        → google.calendar_exists old.fsm_calendar_id ≡ some false)

-- The row that a connect leaves.
abbrev pub HasRow : Google → ℕ → Text → Rows → Rows → CalendarConnection → Type 0
HasRow google technician_id refresh_token rows rows' connection =
    (row : CalendarConnectionRow) × (find row_technician technician_id rows' ≡ some row)
    × (connection ≡ connection_of technician_id row.fsm_calendar_id)
    × (row.status ≡ connected)
    × (row.encrypted_refresh_token ≡ google.encrypt refresh_token)
    × (KeepsCalendar google technician_id rows row ⊎ TakesNewCalendar google technician_id rows row)

abbrev pub Connects : Google → ℕ → Text → Rows → Answer CalendarConnection × Rows → Type 0
Connects google technician_id refresh_token rows (returned connection, rows') =
    HasRow google technician_id refresh_token rows rows' connection
    × ((other : ℕ)
        → other ≢ technician_id
        → find row_technician other rows' ≡ find row_technician other rows)
Connects google technician_id refresh_token rows (raised e, rows') =
    (rows' ≡ rows) × (e ≡ client_error)

find-append_new :
    (row : CalendarConnectionRow) (rows : Rows)
    → find row_technician row.technician_id rows ≡ none
    → find row_technician row.technician_id (rows ++ row ∷ []) ≡ some row
find-append_new row [] h = ground arith
find-append_new row (r ∷ rows) h = ground (arith, find-append_new row rows)

find-append_other :
    (other : ℕ) (row : CalendarConnectionRow) (rows : Rows)
    → other ≢ row.technician_id
    → find row_technician other (rows ++ row ∷ []) ≡ find row_technician other rows
find-append_other other row [] h = ground (arith, h)
find-append_other other row (r ∷ rows) h = ground (arith, find-append_other other row rows h)

module _ (google : Google) (technician_id : ℕ) (refresh_token : Text) (rows : Rows) where
  abbrev token : Text
  token = google.encrypt refresh_token

  new_row : Text → CalendarConnectionRow
  new_row calendar_id = record {
    technician_id = technician_id;
    fsm_calendar_id = calendar_id;
    encrypted_refresh_token = token;
    status = connected;
    sync_token = none;
  }

  ends :
      (out out' : Answer CalendarConnection × Rows)
      → out ≡ out'
      → Connects google technician_id refresh_token rows out'
      → Connects google technician_id refresh_token rows out
  ends out out' e h = subst (Connects google technician_id refresh_token rows) (sym e) h

  first-Connects :
      find row_technician technician_id rows ≡ none
      → Connects google technician_id refresh_token rows
          (connect_first google technician_id token rows)
  unfolding connect_first add new_row
  first-Connects absent = elim (Option-cases google.create_calendar) [
    | inl failed ↦
        ends (connect_first google technician_id token rows) (raised client_error, rows)
          (ground (arith, failed)) (refl, refl)
    | inr (calendar_id, e) ↦
        ends (connect_first google technician_id token rows)
          (returned (connection_of technician_id calendar_id), rows ++ new_row calendar_id ∷ [])
          (ground (arith, e, absent))
          (
            (
              new_row calendar_id,
              find-append_new (new_row calendar_id) rows absent,
              refl,
              refl,
              refl,
              inr (e, refl, λ old found. absurd (ground (arith, absent, found))),
            ),
            λ other differs. find-append_other other (new_row calendar_id) rows differs,
          )
  ]

  -- Writing the row of the technician, with its id kept.
  written :
      (row row' : CalendarConnectionRow)
      → find row_technician technician_id rows ≡ some row
      → row'.technician_id ≡ row.technician_id
      → (find row_technician technician_id (put row_technician row' rows) ≡ some row')
        × ((other : ℕ)
            → other ≢ technician_id
            → find row_technician other (put row_technician row' rows)
              ≡ find row_technician other rows)
  written row row' found same =
      let own : row'.technician_id ≡ technician_id =
        same ∙ find-key row_technician technician_id rows row found in
      (
        subst (λ k. find row_technician k (put row_technician row' rows) ≡ some row') own
            (find-put_self row_technician row' row rows
              (subst (λ k. find row_technician k rows ≡ some row) (sym own) found)),
        λ other differs. find-put_ne row_technician other row' rows (λ e. differs (sym e ∙ own)),
      )

  again-Connects :
      (row : CalendarConnectionRow)
      → find row_technician technician_id rows ≡ some row
      → google.calendar_exists row.fsm_calendar_id ≡ some false
      → Connects google technician_id refresh_token rows
          (connect_again google technician_id token rows)
  unfolding connect_again reprovision
  again-Connects row found lost = elim (Option-cases google.create_calendar) [
    | inl failed ↦
        ends (connect_again google technician_id token rows) (raised client_error, rows)
          (ground (arith, failed)) (refl, refl)
    | inr (calendar_id, e) ↦
        let row' : CalendarConnectionRow = reprovisioned calendar_id token row in
        let kept = written row row' found refl in
        ends (connect_again google technician_id token rows)
          (returned (connection_of technician_id calendar_id), put row_technician row' rows)
          (ground (arith, e, found))
          (
            (
              row',
              kept.0,
              refl,
              refl,
              refl,
              inr (
                e,
                refl,
                λ old there.
                    subst
                      (λ (r : CalendarConnectionRow).
                        google.calendar_exists r.fsm_calendar_id ≡ some false)
                      (let same : row ≡ old = ground (arith, found, there) in same) lost,
              ),
            ),
            kept.1,
          )
  ]

  -- A connect that returns leaves the technician a CONNECTED row with the fresh credential: of the
  -- stored calendar, with its sync token, exactly if Google still has it, and else of the calendar
  -- that Google newly made, with no sync token; other technicians' rows stay. One that raises does so because a call of Google did,
  -- and changes nothing.
  pub connect-Connects :
      Connects google technician_id refresh_token rows
        (connect google technician_id refresh_token rows)
  unfolding connect reconnect
  connect-Connects = elim (Option-cases (find row_technician technician_id rows)) [
    | inl absent ↦
        ends (connect google technician_id refresh_token rows)
          (connect_first google technician_id token rows) (ground (arith, absent))
          (first-Connects absent)
    | inr (row, found) ↦ elim (Option-cases (google.calendar_exists row.fsm_calendar_id)) [
      | inl failed ↦
          ends (connect google technician_id refresh_token rows) (raised client_error, rows)
            (ground (arith, found, failed)) (refl, refl)
      | inr (false, e) ↦
          ends (connect google technician_id refresh_token rows)
            (connect_again google technician_id token rows) (ground (arith, found, e))
            (again-Connects row found e)
      | inr (true, e) ↦
          let row' : CalendarConnectionRow = reconnected token row in
          let kept = written row row' found refl in
          ends (connect google technician_id refresh_token rows)
            (
              returned (connection_of technician_id row.fsm_calendar_id),
              put row_technician row' rows,
            )
            (ground (arith, found, e))
            ((row', kept.0, refl, refl, refl, inl (row, found, e, refl, refl)), kept.1)
    ]
  ]
