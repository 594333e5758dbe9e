-- ===== src/Agent/RunnerTests.antt =====
-- Runs of the agent's loop (internal/agent/runner.go) against a scripted model.
use kontor.Prelude.{
  ◌≤◌, ◌≡◌, refl, true, false, none, some, List, [], ◌∷◌, String, any, All, pos, str_eq,
  if◌then◌else◌,
}
use kontor.Llm.{
  Message, ToolCall, ToolDefinition, Request, Response, Usage, total, role_user, role_assistant,
}
use kontor.Action.{
  done, raised, pure, gets, or_raise, modify, tried, raise_some, raise_if, ◌>>=◌, ◌>>◌,
}
use kontor.Agent.Charge.{charge_for_model_call}
use kontor.Agent.Budget.Estimate.{tokens}
use kontor.Agent.Runner.{
  trace_failed, ToolStatus, succeeded, confirmation_required, ToolRequest, Executed, complete,
  TurnRequest, Completion, Runner, Event, executor_event, model_event,
}
use kontor.Agent.Runner.Names.{is_registered, normalize_tool_call_ids, normalize_tool_call_names}
use kontor.Agent.Runner.Tools.{tool_version, check_turn, in_world, trace, run_calls}
use kontor.Agent.Runner.Terminal.{respond_to_customer, has_terminal_call, respond}
use kontor.Agent.Runner.Loop.{run}
use kontor.Agent.Runner.Orderly.{IsOrderly, IsAllowed, model_calls, is_booking}
use kontor.Agent.Runner.Safety.{
  run-IsOrderly, run-IsAllowed, model_calls-run, booking_committed-run,
}
use kontor.Agent.Runner.Answered.{IsAnswered, run-IsAnswered}
use kontor.Agent.Runner.Registry.{new_runner, new_runner-registry, RunnerConfig}

abbrev tool : String → ToolDefinition
tool name = record { name = name; version = "1"; description = ""; parameters = "{}" }

abbrev tool_list : List ToolDefinition
tool_list =
    tool "list_services"
    ∷ tool "create_booking"
    ∷ tool "escalate_to_human"
    ∷ tool respond_to_customer
    ∷ []

-- The world is what the model still has to answer.
abbrev Script : Type 0
Script = List Response

abbrev silent : Message
silent = record {
  role = role_assistant;
  content = "";
  name = "";
  tool_call_id = "";
  tool_calls = [];
}

abbrev no_usage : Usage
no_usage = record { input_tokens = pos 4; output_tokens = pos 1; total_tokens = pos 5 }

abbrev calling : List ToolCall → Response
calling calls = record {
  message = record silent { tool_calls = calls };
  usage = no_usage;
  usage_incomplete = false;
  unknown_usage_attempts = pos 0;
  model = "m";
  finish_reason = "tool_calls";
}

abbrev tool_call : String → String → ToolCall
tool_call id name = record { id = id; name = name; arguments = "{}" }

abbrev next : Request → Script → Completion × Script
next q [] = (record { response = calling []; has_error = true }, [])
next q (x ∷ xs) = (record { response = x; has_error = false }, xs)

-- create_booking asks for a confirmation, the other tools succeed.
abbrev answer_of : String → ToolStatus
answer_of name = if str_eq name "create_booking" then confirmation_required else succeeded

abbrev carried_out : ToolRequest → Script → Executed × Script
carried_out q s = (
  record {
    execution = record {
      content = "{}";
      is_error = false;
      status = answer_of q.call.name;
      attempts = [];
      side_effect_committed = false;
    };
    has_error = false;
  },
  s,
)

abbrev scripted : Runner Script
scripted = record {
  max_iterations = 4;
  max_output_tokens = pos 100;
  tools = tool_list;
  turn_error = λ s. none;
  estimate = λ q. tokens (pos 50);
  reserve = λ conversation wanted s. (some (record { handle = 0; reserved_tokens = wanted }), s);
  settle = λ reservation actual s. (true, s);
  complete = next;
  executor = some carried_out;
  record_model_call = λ x s. (true, s);
  record_started = λ x s. (true, s);
  record_attempt = λ x s. (true, s);
  record_completed = λ x s. (true, s);
  parse_response = λ a. some (record { disposition = complete; text = a });
  valid_json = λ a. true;
  trim_space = λ a. a;
  error_content = λ code text. code;
  response_content = λ a. "{}";
  base_id = λ i n. "model-call";
  suffixed_id = λ base n. base;
}

abbrev greeting : TurnRequest
greeting = record {
  run_id = "run";
  conversation_id = "conversation";
  messages = record silent { role = role_user; content = "a haircut please" } ∷ [];
}

-- The model lists the services, proposes a booking with one more call behind it, tries another
-- tool, and only then answers the customer.
abbrev proposing : Script
proposing =
    calling (tool_call "a" "list_services" ∷ [])
    ∷ calling (tool_call "b" "create_booking" ∷ tool_call "c" "list_services" ∷ [])
    ∷ calling (tool_call "d" "escalate_to_human" ∷ [])
    ∷ calling (tool_call "e" respond_to_customer ∷ [])
    ∷ []

run-proposing : (run scripted greeting proposing).0 ≡ done tt
unfolding run ◌>>=◌ ◌>>◌ check_turn gets or_raise in_world modify raise_if trace pure
    normalize_tool_call_ids normalize_tool_call_names has_terminal_call run_calls respond tried
    raise_some
run-proposing = refl

abbrev proposing_events : List Event
proposing_events =
    model_event (pos 50) (pos 5)
    ∷ model_event (pos 50) (pos 5)
    ∷ executor_event "create_booking" confirmation_required false
    ∷ model_event (pos 50) (pos 5)
    ∷ executor_event "list_services" succeeded false
    ∷ model_event (pos 50) (pos 5)
    ∷ []

run-proposing_events : (run scripted greeting proposing).1.events ≡ proposing_events
unfolding run ◌>>=◌ ◌>>◌ check_turn gets or_raise in_world modify raise_if trace pure
    normalize_tool_call_ids normalize_tool_call_names has_terminal_call run_calls respond
    charge_for_model_call total tried raise_some
run-proposing_events = refl

run-IsOrderly_example : IsOrderly (run scripted greeting proposing).1.events
run-IsOrderly_example = run-IsOrderly scripted greeting proposing

run-IsAllowed_example : All (IsAllowed tool_list) (run scripted greeting proposing).1.events
run-IsAllowed_example = run-IsAllowed scripted greeting proposing

model_calls-run_example : model_calls (run scripted greeting proposing).1.events ≤ 4
model_calls-run_example = model_calls-run scripted greeting proposing

-- A booking is committed, but the executor's answer is no JSON and the trace cannot be completed.
abbrev committed_call : ToolRequest → Script → Executed × Script
committed_call q s = (
  record {
    execution = record {
      content = "";
      is_error = false;
      status = succeeded;
      attempts = [];
      side_effect_committed = true;
    };
    has_error = false;
  },
  s,
)

abbrev untraced : Runner Script
untraced = record scripted { executor = some committed_call; record_completed = λ x s. (false, s) }

abbrev booking : Script
booking = calling (tool_call "b" "create_booking" ∷ []) ∷ []

run-untraced : (run untraced greeting booking).0 ≡ raised trace_failed
unfolding run ◌>>=◌ ◌>>◌ check_turn gets or_raise in_world modify raise_if trace pure
    normalize_tool_call_ids normalize_tool_call_names has_terminal_call run_calls respond tried
    raise_some
run-untraced = refl

booked : (run untraced greeting booking).1.booking_committed ≡ true
unfolding run ◌>>=◌ ◌>>◌ check_turn gets or_raise in_world modify raise_if trace pure
    normalize_tool_call_ids normalize_tool_call_names has_terminal_call run_calls respond tried
    raise_some
booked = refl

booking_committed-run_example :
    (run untraced greeting booking).1.booking_committed
    ≡ any is_booking (run untraced greeting booking).1.events
booking_committed-run_example = booking_committed-run untraced greeting booking

run-IsAnswered_example : IsAnswered (run scripted greeting proposing).1
run-IsAnswered_example = run-IsAnswered scripted greeting proposing run-proposing

abbrev limits : RunnerConfig
limits = record {
  max_iterations = pos 4;
  turn_timeout = pos 1;
  max_output_tokens = pos 100;
  token_limit = pos 1000;
}

built : new_runner limits true scripted tool_list ≡ done scripted
unfolding new_runner
built = refl

new_runner-registry_example :
    (1 ≤ 4)
    × (is_registered tool_list respond_to_customer ≡ true)
    × All
        (λ t. (tool_version tool_list t.name ≡ t.version) × (str_eq t.version "" ≡ false))
        tool_list
new_runner-registry_example = new_runner-registry limits true scripted tool_list scripted built
