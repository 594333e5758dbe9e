-- ===== src/Agent/Runner/Loop.antt =====
-- Run (internal/agent/runner.go): the loop between the model and the tools.
use kontor.Prelude.{
  ℕ, zero, suc, ◌+◌, Bool, true, false, not, ◌&&◌, ◌||◌, Option, none, some, List, [], ◌∷◌, ◌++◌,
  String, str_eq, ltb, ◌==◌, if◌then◌else◌, length, ℤ, pos, add64,
}
use kontor.Llm.{
  Role, role_none, role_assistant, role_user, Message, ToolCall, Request, Response, Usage, total,
}
use kontor.Action.{Outcome, raised, pure, raise, gets, modify, or_raise, raise_if, ◌>>=◌, ◌>>◌}
use kontor.Agent.Budget.Estimate.{Estimated, tokens, failed as failed_estimate}
use kontor.Agent.Charge.{charge_for_model_call}
use kontor.Agent.Runner.{
  RunError, conversation_required, estimate_failed, budget_refused, settle_failed, model_failed,
  wrong_role, terminal_protocol, iteration_limit, TurnRequest, Reservation, Completion,
  ModelCallTrace, Runner, model_event, Turn,
}
use kontor.Agent.Runner.Names.{normalize_tool_call_names, normalize_tool_call_ids}
use kontor.Agent.Runner.Tools.{Run, in_world, trace, check_turn, append_message, run_calls}
use kontor.Agent.Runner.Terminal.{has_terminal_call, assistant_message, respond}

abbrev pub max_protocol_corrections : ℕ
max_protocol_corrections = 2

abbrev pub protocol_correction : String
protocol_correction =
    "PROTOCOL ERROR: your previous response contained no tool call, so it was discarded and the customer did not see it. Every customer-facing reply must be the sole respond_to_customer call. Never state that a service, staff member, date, or slot is unavailable or invalid unless a tool in this turn returned that result: call list_services, list_staff, and find_slots first and match the customer's wording case-insensitively against the returned names. Now either call the tools you still need, or call respond_to_customer."

abbrev pub proposal_correction : String
proposal_correction =
    "PROTOCOL ERROR: this turn already produced a proposal the customer must confirm, and no further tool call was executed. Call respond_to_customer now with the proposed service, staff member, date, and time in human-readable form, and ask the customer to confirm. Do not include any identifier."

abbrev pub handoff_text : String
handoff_text =
    "I’ve handed this conversation to a person. The automated agent will not take further actions."

abbrev pub refusal_text : String
refusal_text =
    "I couldn’t perform that action safely, so I’ve handed this conversation to a person."

unfoldable pub user_message : String → Message
user_message content = record {
  role = role_user;
  content = content;
  name = "";
  tool_call_id = "";
  tool_calls = [];
}

-- `addUsage`
unfoldable pub add_usage : Usage → Usage → Usage
add_usage a u = record {
  input_tokens = add64 a.input_tokens u.input_tokens;
  output_tokens = add64 a.output_tokens u.output_tokens;
  total_tokens = add64 a.total_tokens (total u);
}

unfoldable pub is_assistant : Role → Bool
is_assistant role_none = true
is_assistant role_assistant = true
is_assistant _ = false

unfoldable pub estimated : Estimated → Option ℤ
estimated (tokens n) = some n
estimated (failed_estimate _) = none

module _ {W : Type 0} (r : Runner W) where
  unfoldable pub model_request : Turn W → Request
  model_request t = record {
    messages = t.history;
    tools = r.tools;
    max_output_tokens = r.max_output_tokens;
  }

  unfoldable pub model_trace : TurnRequest → ℕ → ℤ → ℤ → Completion → ModelCallTrace
  model_trace turn iteration reserved charged x = record {
    run_id = turn.run_id;
    conversation_id = turn.conversation_id;
    iteration = iteration;
    model = x.response.model;
    finish_reason = x.response.finish_reason;
    usage = x.response.usage;
    reserved_tokens = reserved;
    charged_tokens = charged;
    returned_tool_call_count = length x.response.message.tool_calls;
    is_failed = x.has_error;
  }

  unfoldable pub note_model : ℤ → ℤ → Turn W → Turn W
  note_model reserved charged t = record t { events = model_event reserved charged ∷ t.events }

  -- What the call is charged for the reservation.
  unfoldable pub charge : Reservation → Completion → ℤ
  charge b x = charge_for_model_call x.response x.has_error b.reserved_tokens

  -- One call of the model: estimated, reserved, charged, settled and traced.
  unfoldable pub call_model : TurnRequest → ℕ → Run W Response
  unfolding estimated model_request note_model charge model_trace
  call_model turn iteration = do
    check_turn r
    request ← gets model_request
    wanted ← or_raise (estimated (r.estimate request)) estimate_failed
    granted ← in_world r (r.reserve turn.conversation_id wanted)
    reservation ← or_raise granted budget_refused
    x ← in_world r (r.complete request)
    modify (note_model reservation.reserved_tokens (charge reservation x))
    settled ← in_world r (r.settle reservation (charge reservation x))
    raise_if (not settled) settle_failed
    trace r (r.record_model_call (model_trace turn iteration wanted (charge reservation x) x))
    if x.has_error then (check_turn r >> raise model_failed) else pure x.response

  -- The assistant's message, its calls renamed and numbered, enters the history.
  unfoldable pub take_response : ℕ → Response → Turn W → Turn W
  take_response iteration x t =
      let (calls, used) =
        normalize_tool_call_ids r.base_id r.suffixed_id iteration 1
          (normalize_tool_call_names r.tools x.message.tool_calls) t.used_ids in
      record t {
        used_ids = used;
        history = t.history ++ record x.message { role = role_assistant; tool_calls = calls } ∷ [];
      }

  unfoldable pub count_response : ℕ → Response → Turn W → Turn W
  unfolding add_usage
  count_response iteration x t = record t {
    iterations = iteration;
    usage = add_usage t.usage x.usage;
  }

  unfoldable pub response_calls : ℕ → Response → Turn W → List ToolCall
  response_calls iteration x t =
      (normalize_tool_call_ids r.base_id r.suffixed_id iteration 1
        (normalize_tool_call_names r.tools x.message.tool_calls) t.used_ids).0

  -- A response that breaks the protocol: the model is told, or the turn fails.
  unfoldable pub correct : ℕ → String → Run W Bool
  unfolding user_message
  correct iteration text = do
    modify (λ t. record t { protocol_corrections = t.protocol_corrections + 1 })
    spent ← gets (λ t. ltb max_protocol_corrections t.protocol_corrections)
    raise_if (spent || iteration == r.max_iterations) terminal_protocol
    append_message r (user_message text)
    pure false

  unfoldable pub start_batch : Turn W → Turn W
  start_batch t = record t { terminal_handoff = false; skip = none }

  unfoldable pub handoff_message : Turn W → Message
  handoff_message t =
      assistant_message
        (if t.tool_refused && not t.human_escalated then refusal_text else handoff_text)

  unfoldable pub hand_off : Turn W → Turn W
  unfolding handoff_message
  hand_off t = record t {
    message = some (handoff_message t);
    history = t.history ++ handoff_message t ∷ [];
  }

  -- The tool calls of a response, in order; whether the turn ends with a handoff.
  unfoldable pub run_batch : TurnRequest → ℕ → List ToolCall → Run W Bool
  unfolding start_batch hand_off
  run_batch turn iteration calls = do
    modify start_batch
    run_calls r turn iteration 1 (length calls) calls
    ended ← gets (λ t. t.terminal_handoff)
    if ended then (modify hand_off >> pure true) else pure false

  -- What follows a response of the model; whether the turn is finished.
  unfoldable pub answer : TurnRequest → ℕ → String → List ToolCall → Run W Bool
  unfolding correct run_batch
  answer turn iteration content [] = correct iteration protocol_correction
  answer turn iteration content (c ∷ cs) =
      if has_terminal_call (c ∷ cs)
      then (respond r turn iteration content (c ∷ cs) >> pure true)
      else do
        pending ← gets (λ t. t.proposal_pending)
        if pending
            then correct iteration proposal_correction
            else if iteration == r.max_iterations
            then raise iteration_limit
            else run_batch turn iteration (c ∷ cs)

  unfoldable pub iterate : TurnRequest → ℕ → Run W Bool
  unfolding call_model count_response is_assistant response_calls take_response answer
  iterate turn iteration = do
    x ← call_model turn iteration
    modify (count_response iteration x)
    raise_if (not (is_assistant x.message.role)) wrong_role
    calls ← gets (response_calls iteration x)
    modify (take_response iteration x)
    answer turn iteration x.message.content calls

  -- The loop, with the rounds left.
  unfoldable pub run_rounds : TurnRequest → ℕ → ℕ → Run W Unit
  unfolding iterate
  run_rounds turn zero iteration = raise iteration_limit
  run_rounds turn (suc rounds) iteration = iterate turn iteration >>= λ finished.
      if finished then pure tt else run_rounds turn rounds (iteration + 1)

  unfoldable pub start : TurnRequest → W → Turn W
  start turn w = record {
    world = w;
    history = turn.messages;
    iterations = 0;
    usage = record { input_tokens = pos 0; output_tokens = pos 0; total_tokens = pos 0 };
    tool_refused = false;
    human_escalated = false;
    booking_committed = false;
    message = none;
    disposition = none;
    response_call_id = "";
    used_ids = [];
    protocol_corrections = 0;
    proposal_pending = false;
    terminal_handoff = false;
    skip = none;
    events = [];
  }

  unfoldable pub run : TurnRequest → W → Outcome RunError Unit × Turn W
  unfolding run_rounds start
  run turn w =
      if str_eq turn.conversation_id ""
      then (raised conversation_required, record (start turn w) { history = [] })
      else run_rounds turn r.max_iterations 1 (start turn w)
