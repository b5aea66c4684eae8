-- ===== src/Assist/Requests/Invariant.antt =====
-- The requests of the chat keep its tables in order.
use field_service_management.Base.{refl, List, [], ◌∷◌}
use field_service_management.Assist.Photos.{attach, detach}
use field_service_management.Assist.Store.{Desk, ConversationRow, Attempt, did, failed}
use field_service_management.Assist.Triage.{start, end_conversation, commit_others}
use field_service_management.Assist.Turns.{reply}
use field_service_management.Assist.Requests.{
  Request, rolled_back, settle, settle_and_remove, settle_start, serve, serve_all,
}
use field_service_management.Assist.Orderly.{IsOrderly}
use field_service_management.Assist.Orderly.Calls.{IsOrderly-with}
use field_service_management.Assist.Orderly.Triage.{
  start-IsOrderly, commit_others-IsOrderly, end_conversation-IsOrderly,
  remove_discarded_objects-IsOrderly,
}
use field_service_management.Assist.Orderly.Turns.{reply-IsOrderly}
use field_service_management.Assist.Orderly.Uploads.{attach-IsOrderly, detach-IsOrderly}

settle-IsOrderly :
    {A : Type 0} (d : Desk) (out : Attempt A × Desk)
    → IsOrderly d
    → IsOrderly out.1
    → IsOrderly (settle d out)
settle-IsOrderly d (did a, after) o h = h
settle-IsOrderly d (failed e, after) o h = IsOrderly-with d (rolled_back d after) refl refl o

settle_and_remove-IsOrderly :
    {A : Type 0} (d : Desk) (out : Attempt A × Desk)
    → IsOrderly d
    → IsOrderly out.1
    → IsOrderly (settle_and_remove d out)
settle_and_remove-IsOrderly d (did a, after) o h = remove_discarded_objects-IsOrderly after h
settle_and_remove-IsOrderly d (failed e, after) o h =
    IsOrderly-with d (rolled_back d after) refl refl o

settle_start-IsOrderly :
    {A : Type 0} (others : List ConversationRow) (d : Desk) (out : Attempt A × Desk)
    → IsOrderly d
    → IsOrderly out.1
    → IsOrderly (settle_start others d out)
settle_start-IsOrderly others d (did a, after) o h = remove_discarded_objects-IsOrderly after h
settle_start-IsOrderly others d (failed e, after) o h =
    let there : Desk = record d { conversations = commit_others others d.conversations } in
    IsOrderly-with there (rolled_back there after) refl refl (commit_others-IsOrderly others d o)

serve-IsOrderly : (request : Request) (d : Desk) → IsOrderly d → IsOrderly (serve request d)
unfolding serve
serve-IsOrderly (Request.starts service now customer others) d o =
    settle_start-IsOrderly others d (start service now customer others d) o
      (start-IsOrderly service now customer others d o)
serve-IsOrderly (Request.ends service now conversation customer) d o =
    settle_and_remove-IsOrderly d (end_conversation service now conversation customer d) o
      (end_conversation-IsOrderly service now conversation customer d o)
serve-IsOrderly (Request.uploads now conversation customer filename size inspected) d o =
    settle-IsOrderly d (attach now conversation customer filename size inspected d) o
      (attach-IsOrderly now conversation customer filename size inspected d o)
serve-IsOrderly (Request.detaches conversation customer photo) d o =
    settle-IsOrderly d (detach conversation customer photo d) o
      (detach-IsOrderly conversation customer photo d o)
serve-IsOrderly (Request.sends service asked now conversation customer text ids) d o =
    settle_and_remove-IsOrderly d (reply service asked now conversation customer text ids d).1 o
      (reply-IsOrderly service asked now conversation customer text ids d o)

-- From tables in order, every sequence of chat requests leaves them in order, whatever the model,
-- the index and concurrent starts do: conversations with ids of their own, no customer with two
-- active ones, and no conversation with more than five photos.
pub serve_all-IsOrderly :
    (requests : List Request) (d : Desk) → IsOrderly d → IsOrderly (serve_all requests d)
unfolding serve_all
serve_all-IsOrderly [] d o = o
serve_all-IsOrderly (request ∷ rest) d o =
    serve_all-IsOrderly rest (serve request d) (serve-IsOrderly request d o)
