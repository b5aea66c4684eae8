-- ===== src/Assist/Requests.antt =====
-- The chat routes of backend/src/fsm/platform/api/triage_routes.py that write: each runs in one
-- transaction, and a raise takes back what it wrote to the tables but not to the object store.
pub mod Invariant
use field_service_management.Base.{ℕ, List, [], ◌∷◌}
use field_service_management.Base.Text.{Text}
use field_service_management.Assist.Photos.{Inspection, attach, detach}
use field_service_management.Assist.Store.{ConversationRow, Desk, Attempt, did, failed, Action}
use field_service_management.Assist.Triage.{
  Service, start, end_conversation, remove_discarded_objects, commit_others,
}
use field_service_management.Assist.Turns.{reply}

-- A request, with the instants its clock gives. `others` are the conversations that other requests
-- insert while a start is between its lookup and its insert.
pub data Request : Type 0 where
  starts : Service → ℕ → ℕ → List ConversationRow → Request
  ends : Service → ℕ → ℕ → ℕ → Request
  uploads : ℕ → ℕ → ℕ → Text → ℕ → Inspection → Request
  detaches : ℕ → ℕ → ℕ → Request
  sends : Service → ℕ → ℕ → ℕ → ℕ → Text → List ℕ → Request

-- What a raise leaves: the rows of before, and the object store as it is.
abbrev pub rolled_back : Desk → Desk → Desk
rolled_back before after = record before { objects = after.objects; discarded_keys = [] }

-- The commit.
abbrev pub settle : {A : Type 0} → Desk → Attempt A × Desk → Desk
settle before (did a, after) = after
settle before (failed e, after) = rolled_back before after

-- The commit, and then `remove_discarded_objects`.
abbrev pub settle_and_remove : {A : Type 0} → Desk → Attempt A × Desk → Desk
settle_and_remove before (did a, after) = (remove_discarded_objects after).1
settle_and_remove before (failed e, after) = rolled_back before after

-- The same for a start: what other transactions committed meanwhile stays when it raises.
abbrev pub settle_start : {A : Type 0} → List ConversationRow → Desk → Attempt A × Desk → Desk
settle_start others before (did a, after) = (remove_discarded_objects after).1
settle_start others before (failed e, after) =
    rolled_back (record before { conversations = commit_others others before.conversations }) after

unfoldable pub serve : Request → Desk → Desk
serve (Request.starts service now customer_id others) d =
    settle_start others d (start service now customer_id others d)
serve (Request.ends service now conversation_id customer_id) d =
    settle_and_remove d (end_conversation service now conversation_id customer_id d)
serve (Request.uploads now conversation_id customer_id filename size_bytes inspected) d =
    settle d (attach now conversation_id customer_id filename size_bytes inspected d)
serve (Request.detaches conversation_id customer_id photo_id) d =
    settle d (detach conversation_id customer_id photo_id d)
serve (Request.sends service asked_at now conversation_id customer_id text photo_ids) d =
    settle_and_remove d (reply service asked_at now conversation_id customer_id text photo_ids d).1

unfoldable pub serve_all : List Request → Desk → Desk
unfolding serve
serve_all [] d = d
serve_all (request ∷ rest) d = serve_all rest (serve request d)
