-- ===== src/Agent/Runner.antt =====
-- internal/agent/runner.go: one turn of the agent. The model, the tools, the budget, the trace and
-- the clock of the turn's deadline are interfaces, functions on a world `W`.
pub mod Names
pub mod Shown
pub mod Tools
pub mod Terminal
pub mod Loop
pub mod Registry
pub mod Keeps
pub mod Orderly
pub mod Safety
pub mod Answered
use kontor.Prelude.{ℕ, Bool, true, false, Option, none, some, List, [], ◌∷◌, String, ℤ}
use kontor.Llm.{Message, ToolCall, ToolDefinition, Request, Response, Usage}
use kontor.Agent.Budget.Estimate.{Estimated}

pub data RunError : Type 0 where
  conversation_required estimate_failed budget_refused settle_failed trace_failed model_failed
        wrong_role terminal_protocol iteration_limit turn_timeout turn_cancelled :
      RunError

-- `turnContext.Err()`
pub data ContextError : Type 0 where
  deadline_exceeded canceled : ContextError

-- `turnContextError`
unfoldable pub turn_context_error : ContextError → RunError
turn_context_error deadline_exceeded = turn_timeout
turn_context_error canceled = turn_cancelled

-- `unset` is the empty text, the zero value.
pub data ToolStatus : Type 0 where
  running succeeded failed refused confirmation_required unset : ToolStatus

pub record ToolAttempt : Type 0 where
  pub status : ToolStatus
  pub detail : String

pub record ToolExecution : Type 0 where
  pub content : String
  pub is_error : Bool
  pub status : ToolStatus
  pub attempts : List ToolAttempt
  pub side_effect_committed : Bool

pub record ToolRequest : Type 0 where
  pub run_id : String
  pub conversation_id : String
  pub iteration : ℕ
  pub call_index : ℕ
  pub call_count : ℕ
  pub call : ToolCall

-- What an executor returns beside its error, and whether there is one.
pub record Executed : Type 0 where
  pub execution : ToolExecution
  pub has_error : Bool

pub data Disposition : Type 0 where
  complete clarification_needed : Disposition

pub record CustomerResponse : Type 0 where
  pub disposition : Disposition
  pub text : String

pub record TurnRequest : Type 0 where
  pub run_id : String
  pub conversation_id : String
  pub messages : List Message

pub record Reservation : Type 0 where
  pub handle : ℕ
  pub reserved_tokens : ℤ

pub record Completion : Type 0 where
  pub response : Response
  pub has_error : Bool

-- The records of the trace, without the times and the error text.
pub record ModelCallTrace : Type 0 where
  pub run_id : String
  pub conversation_id : String
  pub iteration : ℕ
  pub model : String
  pub finish_reason : String
  pub usage : Usage
  pub reserved_tokens : ℤ
  pub charged_tokens : ℤ
  pub returned_tool_call_count : ℕ
  pub is_failed : Bool

pub record ToolStartedTrace : Type 0 where
  pub request : ToolRequest
  pub tool_name : String
  pub contract_version : String
  pub arguments : String

pub record ToolAttemptTrace : Type 0 where
  pub request : ToolRequest
  pub tool_name : String
  pub contract_version : String
  pub attempt_no : ℕ
  pub status : ToolStatus
  pub detail : String

pub record ToolCompletedTrace : Type 0 where
  pub request : ToolRequest
  pub tool_name : String
  pub contract_version : String
  pub status : ToolStatus
  pub result : String
  pub attempt_count : ℕ

-- A `Runner` with its interfaces. `turn_error` reads the deadline of the turn; a record of the trace
-- answers whether it was written. The last group is encoding/json, strings and fmt:
-- `error_content` is the JSON of a model-facing tool error, `response_content` that of the result of
-- a customer response, and
-- `base_id` and `suffixed_id` format the identifiers of tool calls.
pub record Runner (W : Type 0) : Type 0 where
  pub max_iterations : ℕ
  pub max_output_tokens : ℤ
  pub tools : List ToolDefinition
  pub turn_error : W → Option ContextError
  pub estimate : Request → Estimated
  pub reserve : String → ℤ → W → Option Reservation × W
  pub settle : Reservation → ℤ → W → Bool × W
  pub complete : Request → W → Completion × W
  pub executor : Option (ToolRequest → W → Executed × W)
  pub record_model_call : ModelCallTrace → W → Bool × W
  pub record_started : ToolStartedTrace → W → Bool × W
  pub record_attempt : ToolAttemptTrace → W → Bool × W
  pub record_completed : ToolCompletedTrace → W → Bool × W
  pub parse_response : String → Option CustomerResponse
  pub valid_json : String → Bool
  pub trim_space : String → String
  pub error_content : String → String → String
  pub response_content : Option CustomerResponse → String
  pub base_id : ℕ → ℕ → String
  pub suffixed_id : String → ℕ → String

pub data SkipReason : Type 0 where
  after_handoff after_proposal : SkipReason

-- What the runner did at its interfaces, kept for the theorems: a call of the model with the tokens
-- reserved and charged, or a call of the executor with the tool's name, its status and whether a
-- side effect was committed.
pub data Event : Type 0 where
  model_event : ℤ → ℤ → Event
  executor_event : String → ToolStatus → Bool → Event

-- The local variables of `Run` and its `TurnResult`; `result.Messages` is always a copy of
-- `history`. `events` is the newest first.
pub record Turn (W : Type 0) : Type 0 where
  pub world : W
  pub history : List Message
  pub iterations : ℕ
  pub usage : Usage
  pub tool_refused : Bool
  pub human_escalated : Bool
  pub booking_committed : Bool
  pub message : Option Message
  pub disposition : Option Disposition
  pub response_call_id : String
  pub used_ids : List String
  pub protocol_corrections : ℕ
  pub proposal_pending : Bool
  pub terminal_handoff : Bool
  pub skip : Option SkipReason
  pub events : List Event
