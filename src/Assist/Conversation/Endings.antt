-- ===== src/Assist/Conversation/Endings.antt =====
-- The endings of a conversation of backend/src/fsm/assist/domain/conversation.py.
use field_service_management.Base.{ℕ, ◌≡◌, refl, Bool, true, false, List, [], ◌∷◌, arith, is_some}
use field_service_management.Base.Text.{Text}
use field_service_management.Assist.Conversation.{
  ConversationStatus, Message, Conversation, Turn, went, closed, is_open, append,
  identify_equipment, decline_triage, resume_triage, mark_solved, mark_escalated, mark_abandoned,
}

-- A call of a mutation.
pub data Call : Type 0 where
  appends : Message → ℕ → Call
  identifies : Text → Call
  declines resumes : Call
  solves : ℕ → Call
  escalates : ℕ → ℕ → Call
  abandons : ℕ → Call

pub perform : Call → Conversation → Turn
perform (appends message now) = append message now
perform (identifies identity) = identify_equipment identity
perform declines = decline_triage
perform resumes = resume_triage
perform (solves now) = mark_solved now
perform (escalates service_call_id now) = mark_escalated service_call_id now
perform (abandons now) = mark_abandoned now

-- A caller that goes on after a refusal.
abbrev kept : Conversation → Turn → Conversation
kept c (went after) = after
kept c closed = c

pub perform_all : List Call → Conversation → Conversation
unfolding perform
perform_all [] c = c
perform_all (call ∷ rest) c = perform_all rest (kept c (perform call c))

abbrev pub is_escalated : ConversationStatus → Bool
is_escalated ConversationStatus.active = false
is_escalated ConversationStatus.solved = false
is_escalated ConversationStatus.escalated = true
is_escalated ConversationStatus.abandoned = false

-- A service call is named exactly by an escalated conversation.
abbrev pub NamesCall : Conversation → Type 0
NamesCall c = is_some c.service_call_id ≡ is_escalated c.status

perform_closed : (call : Call) (c : Conversation) → is_open c ≡ false → kept c (perform call c) ≡ c
unfolding perform append identify_equipment decline_triage resume_triage mark_solved mark_escalated
    mark_abandoned
perform_closed (appends message now) c h = rw h refl
perform_closed (identifies identity) c h = rw h refl
perform_closed declines c h = rw h refl
perform_closed resumes c h = rw h refl
perform_closed (solves now) c h = rw h refl
perform_closed (escalates service_call_id now) c h = rw h refl
perform_closed (abandons now) c h = rw h refl

perform-NamesCall :
    (call : Call) (c : Conversation) → NamesCall c → NamesCall (kept c (perform call c))
unfolding perform append identify_equipment decline_triage resume_triage mark_solved mark_escalated
    mark_abandoned
perform-NamesCall (appends message now) c h = ground arith
perform-NamesCall (identifies identity) c h = ground arith
perform-NamesCall declines c h = ground arith
perform-NamesCall resumes c h = ground arith
perform-NamesCall (solves now) c h = ground arith
perform-NamesCall (escalates service_call_id now) c h = ground arith
perform-NamesCall (abandons now) c h = ground arith

-- No sequence of calls changes a conversation that has ended, and a conversation that names a
-- service call exactly if it is escalated does so after every sequence of calls.
pub perform_all-NamesCall :
    (calls : List Call) (c : Conversation)
    → NamesCall c
    → NamesCall (perform_all calls c) × (is_open c ≡ false → perform_all calls c ≡ c)
unfolding perform_all
perform_all-NamesCall [] c h = (h, λ _. refl)
perform_all-NamesCall (call ∷ rest) c h =
    let (named, ended) =
      perform_all-NamesCall rest (kept c (perform call c)) (perform-NamesCall call c h) in
    (named, λ over. rw (perform_closed call c over) ((perform_all-NamesCall rest c h).1 over))
