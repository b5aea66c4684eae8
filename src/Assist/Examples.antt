-- ===== src/Assist/Examples.antt =====
-- Each theorem of the assist context at a concrete input.
use field_service_management.Base.{◌≡◌, refl, false, none, some, List, [], ◌∷◌}
use field_service_management.Base.Text.{codes}
use field_service_management.Assist.Orderly.{IsOrderly}
use field_service_management.Assist.Requests.{Request, serve_all}
use field_service_management.Assist.Requests.Invariant.{serve_all-IsOrderly}
use field_service_management.Assist.Samples.{desk, desk-IsOrderly, service}
use field_service_management.Assist.Conversation.{Conversation, ConversationStatus, is_open}
use field_service_management.Assist.Conversation.Endings.{
  Call, NamesCall, perform_all, perform_all-NamesCall,
}

abbrev talk : Conversation
talk = record {
  id = 1;
  customer_id = 7;
  status = ConversationStatus.active;
  created_at = 3;
  updated_at = 3;
  messages = [];
  service_call_id = none;
  equipment = none;
  triage_declined = false;
}

abbrev calls : List Call
calls = Call.declines ∷ Call.escalates 4 9 ∷ Call.solves 10 ∷ []

perform_all-NamesCall_example :
    NamesCall (perform_all calls talk) × (is_open talk ≡ false → perform_all calls talk ≡ talk)
perform_all-NamesCall_example = perform_all-NamesCall calls talk refl

-- A customer opens the chat, adds a photo, sends it, and opens the chat again.
abbrev chat : List Request
chat =
    Request.starts service 5 7 []
    ∷ Request.uploads 6 10 7 (codes "boiler.jpg") 100 (some 1)
    ∷ Request.sends service 8 9 10 7 (codes "No heat") (11 ∷ [])
    ∷ Request.starts service 12 7 []
    ∷ []

serve_all-IsOrderly_example : IsOrderly (serve_all chat desk)
serve_all-IsOrderly_example = serve_all-IsOrderly chat desk desk-IsOrderly
