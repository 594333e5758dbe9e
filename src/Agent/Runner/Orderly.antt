-- ===== src/Agent/Runner/Orderly.antt =====
-- What a turn did to the tools, read off its events (internal/agent/runner.go).
pub mod Results
pub mod Calls
pub mod Batch
pub mod Rounds
use kontor.Prelude.{
  ℕ, suc, zero, length, ◌+◌, ◌≤◌, ◌≡◌, refl, Bool, true, false, not, ◌&&◌, ◌||◌, Option, none, some,
  List, [], ◌∷◌, String, str_eq, any, is_some, All, arith, Bool-cases, Option-cases, inl, inr,
  if◌then◌else◌, ℤ,
}
use kontor.Llm.{ToolCall, ToolDefinition, Request, Response}
use kontor.Action.{
  Action, done, raised, pure, raise, gets, modify, or_raise, raise_if, tried, ◌>>=◌, ◌>>◌,
}
use kontor.Action.Triple.{
  Triple, Triple-pure, Triple-raise, Triple-modify, Triple-bind, Triple-then, Triple-gets,
  Triple-if, Triple-tried, Post,
}
use kontor.Agent.Runner.{
  ToolStatus, running, succeeded, failed, refused, confirmation_required, unset, ToolExecution,
  ToolRequest, TurnRequest, Executed, RunError, Runner, SkipReason, Event, model_event,
  executor_event, Turn, iteration_limit, model_failed, wrong_role,
}
use kontor.Agent.Runner.Names.{is_registered, normalize_tool_call_names, normalize_tool_call_ids}
use kontor.Agent.Runner.Tools.{
  Run, final_status, refusal, perform, call_executor, note_execution, execute_tool, note_status,
  run_call, run_calls, model_facing_tool_error, checked, executed, in_world, with_attempt,
  tool_request, ToolReturn, no_message, note_booking, tool_message, record_attempts,
  record_completed, check_turn,
}
use kontor.Agent.Runner.Terminal.{has_terminal_call, respond_to_customer}
use kontor.Agent.Runner.Loop.{
  call_model, note_model, charge, start_batch, run_batch, hand_off, answer, iterate, run_rounds,
  start, run, correct, count_response, take_response, response_calls, is_assistant,
  protocol_correction, proposal_correction, model_request, estimated, model_trace,
}
use kontor.Agent.Runner.Keeps.{
  View, On, Keeps, in_world-Keeps, or_raise-Keeps, raise_if-Keeps, raise-Keeps, pure-Keeps,
  then-Keeps, bind-Keeps, trace-Keeps, check_turn-Keeps, append_message-Keeps, record_started-Keeps,
  record_completed-Keeps, record_attempts-Keeps, record_skipped_tool-Keeps, respond-Keeps,
  correct-Keeps,
}

-- The call proposed an action, was refused, or handed the conversation to a person.
abbrev pub is_closing_status : String → ToolStatus → Bool
is_closing_status name refused = true
is_closing_status name confirmation_required = true
is_closing_status name succeeded = str_eq name "escalate_to_human"
is_closing_status name _ = false

abbrev pub is_closing : Event → Bool
is_closing (executor_event name status committed) = is_closing_status name status
is_closing (model_event a b) = false

abbrev pub is_execution : Event → Bool
is_execution (executor_event name status committed) = true
is_execution (model_event a b) = false

abbrev pub is_booking : Event → Bool
is_booking (executor_event name status committed) = committed && str_eq name "create_booking"
is_booking (model_event a b) = false

-- No execution follows a closing one; the newest event is the first.
abbrev pub IsOrderly : List Event → Type 0
IsOrderly [] = Unit
IsOrderly (e ∷ es) = ((is_execution e && any is_closing es) ≡ false) × IsOrderly es

-- The executed tool is registered and is not the terminal call.
abbrev pub IsAllowed : List ToolDefinition → Event → Type 0
IsAllowed tools (executor_event name status committed) =
    (is_registered tools name ≡ true) × (str_eq name respond_to_customer ≡ false)
IsAllowed tools (model_event a b) = Unit

abbrev pub model_calls : List Event → ℕ
model_calls [] = 0
model_calls (model_event a b ∷ es) = suc (model_calls es)
model_calls (executor_event a b c ∷ es) = model_calls es

-- What the events and `BookingCommitted` say together, after at most `n` calls of the model.
pub record IsSound (tools : List ToolDefinition) (n : ℕ) (es : List Event) (booked : Bool)
    : Type 0 where
  pub orderly : IsOrderly es
  pub allowed : All (IsAllowed tools) es
  pub bounded : model_calls es ≤ n
  pub committed : booked ≡ any is_booking es

-- Between iterations.
abbrev pub Ready : List ToolDefinition → ℕ → View
Ready tools n es pending handoff skip booked =
    IsSound tools n es booked × (any is_closing es ≡ pending)

-- In a batch: a closing event is what makes the rest of the calls be skipped.
abbrev pub InBatch : List ToolDefinition → ℕ → View
InBatch tools n es pending handoff skip booked =
    IsSound tools n es booked
    × (any is_closing es ≡ is_some skip)
    × (is_some skip ≡ (pending || handoff))

abbrev pub Sound : List ToolDefinition → ℕ → View
Sound tools n es pending handoff skip booked = IsSound tools n es booked

module _ {W : Type 0} (r : Runner W) (n : ℕ) where
  -- A call whose name is registered and is not the terminal one reaches the executor before anything
  -- closed the turn; afterwards `note_status` still has to take the event in.
  abbrev pub Pending : ToolCall → ToolStatus → View
  Pending c s es pending handoff skip booked =
      IsSound r.tools n es booked
      × (is_some skip ≡ false)
      × ((pending || handoff) ≡ false)
      × (any is_closing es ≡ is_closing_status c.name s)

  -- The same before `Run` takes in what the call reports: the events are ahead of it by a booking.
  abbrev pub Reported : ToolCall → ToolStatus → Bool → View
  Reported c s f es pending handoff skip booked =
      Pending c s es pending handoff skip (booked || (f && str_eq c.name "create_booking"))

  -- The turn is open for a call.
  abbrev pub Free : View
  Free es pending handoff skip booked =
      IsSound r.tools n es booked
      × (is_some skip ≡ false)
      × ((pending || handoff) ≡ false)
      × (any is_closing es ≡ false)

  pub note_status-InBatch :
      (c : ToolCall) (s : ToolStatus) (t : Turn W)
      → On (Pending c s) t
      → On (InBatch r.tools n) (note_status r c s t)
  unfolding note_status
  note_status-InBatch c refused t h = (h.0, ground (arith, h.3), ground arith)
  note_status-InBatch c confirmation_required t h = (h.0, ground (arith, h.3), ground arith)
  note_status-InBatch c succeeded t h = elim (Bool-cases (str_eq c.name "escalate_to_human")) [
    | inl e ↦ rw (e, note_status) (h.0, ground (arith, h.3, e), ground arith)
    | inr e ↦ rw (e, note_status) (h.0, ground (arith, h.1, h.3, e), ground (arith, h.1, h.2))
  ]
  note_status-InBatch c failed t h = (h.0, ground (arith, h.1, h.3), ground (arith, h.1, h.2))
  note_status-InBatch c running t h = (h.0, ground (arith, h.1, h.3), ground (arith, h.1, h.2))
  note_status-InBatch c unset t h = (h.0, ground (arith, h.1, h.3), ground (arith, h.1, h.2))
