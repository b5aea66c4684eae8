-- ===== src/Lib.antt =====
-- The field service management backend, backend/src/fsm: technicians' visits to customers, booked
-- against working hours, calendars and each other.
--
-- Parts and files
--   Base                 lists, rows by key, Boolean tests, texts, sorting, UUIDs and integers that the
--                        parts share
--   Scheduling           the scheduling context, backend/src/fsm/scheduling:
--     Outcome, TimeRange, WorkingHours, Slots, Policy, RateLimit, Contact, Appointment,
--     ServiceCall        its domain modules, one file each; `Slots` is generate_slots and `Policy`
--                        is is_available of domain/availability.py
--     Store              the tables of adapters/orm.py and calls that may raise over them
--     Repositories       adapters/repositories.py, with the exclusion constraint of the schema
--     Outbox             adapters/outbox_repository.py
--     Booking            application/appointment_service.py
--     Reconciliation     application/reconciliation_service.py
--     Opening            application/service_call_service.py
--     Context            domain/appointment_context.py
--     CalendarIdentity   domain/calendar_identity.py, its regular expression as a list of pieces
--     World              ports/calendar.py beside the tables
--     Dispatcher         application/calendar_projection_dispatcher.py, with the rollback of
--                        adapters/unit_of_work.py
--     History            requests one after another, each in its unit of work, and dispatcher runs
--     Samples, Examples  sample data, runs and each theorem at a concrete input
--   Identity             the identity context, backend/src/fsm/identity:
--     User               domain/user.py, role.py, role_status.py, errors.py
--     Users              adapters/repositories.py
--     Service            application/identity_service.py
--     Examples           each theorem at a concrete input
--   Assist               the assist context, backend/src/fsm/assist:
--     Conversation       domain/conversation.py
--     Summary            ports/chat_model.py: the triage summary and its text
--     Store              the tables of adapters/orm.py, the objects of the photo store, and calls that
--                        may raise over them
--     Conversations, Photos
--                        the repositories of adapters, and application/photos.py
--     Replies, Streaming application/prompts.py: the markers of a reply, and what is shown of one
--                        while it streams
--     Sources            cited_sources of application/triage.py
--     Triage, Answers, Turns
--                        TriageService of application/triage.py: starting and ending, recording an
--                        answer with the service call of an escalation, and reply
--     Requests           the writing routes of platform/api/triage_routes.py, each in a transaction
--     Orderly, Triples   the order of the tables, and the rules that show that a call keeps it
--     Samples, Examples  sample data, and each theorem at a concrete input
--   Notifications        the notifications context, backend/src/fsm/notifications:
--     Feed               adapters/feed_repository.py over adapters/orm.py
--     Delivery           application/delivering_notifications.py
--     Context            what build_notifications of platform/notifications_factory.py resolves
--     Examples           each theorem at a concrete input
--   GoogleCalendar       the calendar context, backend/src/fsm/google_calendar:
--     Connections        domain/connection.py, adapters/repositories.py and
--                        application/connection_service.py
--     Examples           each theorem at a concrete input
--   Platform             the HTTP layer, backend/src/fsm/platform:
--     Backend            all tables beside each other, how a request ends, its unit of work, and the
--                        cues of events.py
--     Session            api/auth_deps.py and the guards of api/scheduling_routes.py
--     Schedules          days off, working hours and holidays: repositories and routes
--     Appointments       the routes that change calls and appointments
--     Sync               sync_runner.py and calendar_bridge/inbound_sync.py
--     Availability       the routes of available slots, of one technician and of the pool
--     Examples           each theorem at a concrete input
-- A use case reads and writes the tables through the repositories and appends to the outbox, which
-- the dispatcher empties; a calendar change comes back through Reconciliation. The child
-- modules of a part hold its proofs. A request of Platform runs the use cases of Scheduling; the
-- notices that these leave are what Notifications delivers; an escalation of Assist opens a
-- service call of Scheduling.
--
-- Conventions
--   An aware datetime is its instant, a natural number of microseconds; a naive one counts
--   microseconds from the midnight of ordinal 0, a date is its proleptic ordinal, a time of day the
--   microseconds after midnight. The zone database is a parameter, `Zone`.
--   A UUID is a number and `uuid4` counts up. A text is a list of code points.
--   An error is a value of `Error`; a call over the tables returns its result and the tables as it
--   left them, after an error too, since the session keeps what was flushed until it rolls back.
--   The clock is an argument. Calendar, contact resolver and policy inputs are arguments as well; the
--   calendar's answer may depend on the calls before it, and every call is recorded, since no
--   rollback takes it back. Two dispatchers never hold one row (SKIP LOCKED), so their rounds are
--   one sequence.
--   In the identity context `str.lower` and what other transactions commit between the lookup and
--   the insert of a first sign-in are arguments.
--   The inner loop of generate_slots runs on fuel, the length of the window and two more, which is
--   enough for a positive slot length since each round moves on by a microsecond at least.
--
-- Not modelled: the adapters of external services, the wiring and the background loops, which are
-- I/O; the web client; the chat model, the document index and the contents of photos, which are
-- parameters; the knowledge base, the reader of holidays, and the routes for listings,
-- profiles and administration.
pub mod Assist
pub mod Base
pub mod GoogleCalendar
pub mod Identity
pub mod Notifications
pub mod Platform
pub mod Scheduling
