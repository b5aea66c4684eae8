-- ===== src/Assist/Samples.antt =====
-- Sample data for the tests of the assist context: a model that answers, and an empty desk.
use field_service_management.Base.{true, false, none, some, [], ◌∷◌, arith}
use field_service_management.Base.Text.{codes}
use field_service_management.Scheduling.Store.{Store}
use field_service_management.Assist.Orderly.{IsOrderly}
use field_service_management.Assist.Store.{Desk}
use field_service_management.Assist.Summary.{TriageSummary}
use field_service_management.Assist.Triage.{Service}

abbrev pub calls : Store
calls = record {
  service_calls = [];
  attachments = [];
  appointments = [];
  audits = [];
  outbox = [];
  notices = [];
  next_uuid = 10;
}

abbrev pub desk : Desk
desk = record {
  conversations = [];
  messages = [];
  photos = [];
  objects = [];
  discarded_keys = [];
  calls = calls;
}

pub desk-IsOrderly : IsOrderly desk
desk-IsOrderly = record {
  distinct = λ id. omega arith;
  one_active = λ customer. omega arith;
  few_photos = λ conversation. omega arith;
}

abbrev pub summary : TriageSummary
summary = record {
  equipment = codes "Boiler";
  problem_category = codes "Not heating";
  symptoms = codes "Cold";
  suspected_cause = codes "Undetermined";
  action_items = [];
  steps_ruled_out = [];
}

-- A model that opens a call at once, in two fragments that part a marker.
abbrev pub service : Service
service = record {
  stream = λ prompt messages. record {
    fragments = codes "A technician. [[ESC" ∷ codes "ALATE]]" ∷ [];
    broke = false;
  };
  summarize = λ equipment messages. some summary;
  search = none;
  has_photos = true;
  has_photo_store = true;
}
