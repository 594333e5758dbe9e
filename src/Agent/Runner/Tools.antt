-- ===== src/Agent/Runner/Tools.antt =====
-- executeTool, recordSkippedTool and the loop over the tool calls of one response
-- (internal/agent/runner.go).
use Prim.Native.String.{len}
use Prim.Native.Char.{code}
use kontor.Prelude.{
  ℕ, ◌+◌, ◌*◌, Bool, true, false, not, ◌&&◌, ◌||◌, Option, none, some, List, [], ◌∷◌, ◌++◌, String,
  str_eq, ltb, leb, ◌==◌, if◌then◌else◌, length,
}
use kontor.Llm.{Message, ToolCall, ToolDefinition, role_tool, role_none}
use kontor.Action.{
  done, raised, Action, pure, gets, modify, tried, raise_some, raise_if, ◌>>=◌, ◌>>◌,
}
use kontor.Agent.Runner.{
  RunError, trace_failed, turn_context_error, ToolStatus, succeeded, failed, refused,
  confirmation_required, unset, ToolAttempt, ToolExecution, ToolRequest, Executed, TurnRequest,
  Runner, SkipReason, after_handoff, after_proposal, executor_event, Turn,
}
use kontor.Agent.Runner.Names.{is_registered}
use kontor.Agent.Runner.Shown.{
  max_tool_argument_bytes, shown_name, shown_arguments, redacted_tool_arguments,
}

abbrev pub max_tool_result_bytes : ℕ
max_tool_result_bytes = 256 * 1024

abbrev pub Run : Type 0 → Type 0 → Type 0
Run W A = Action (Turn W) RunError A

-- What executeTool returns.
pub record ToolReturn : Type 0 where
  pub message : Message
  pub status : ToolStatus
  pub side_effect_committed : Bool
  pub problem : Option RunError

abbrev pub no_message : Message
no_message = record {
  role = role_none;
  content = "";
  name = "";
  tool_call_id = "";
  tool_calls = [];
}

-- `isJSONObject`
unfoldable pub starts_object : String → Bool
starts_object String.[] = false
starts_object (String.◌∷◌ c s) = code c == 123

-- The statuses that the runner takes over from an execution.
unfoldable pub is_known_status : ToolStatus → Bool
is_known_status succeeded = true
is_known_status failed = true
is_known_status refused = true
is_known_status confirmation_required = true
is_known_status _ = false

abbrev pub error_status : Bool → ToolStatus
error_status is_error = if is_error then failed else succeeded

unfoldable pub final_status : ToolExecution → ToolStatus
unfolding is_known_status
final_status e = if is_known_status e.status then e.status else error_status e.is_error

unfoldable pub is_plain_status : ToolStatus → Bool
is_plain_status succeeded = true
is_plain_status failed = true
is_plain_status _ = false

-- `toolVersion`
unfoldable pub tool_version : List ToolDefinition → String → String
tool_version [] name = "unregistered"
tool_version (t ∷ ts) name =
    let rest = tool_version ts name in
    if str_eq t.name name then (if str_eq t.version "" then "unregistered" else t.version) else rest

module _ {W : Type 0} (r : Runner W) where
  unfoldable pub is_json_object : String → Bool
  unfolding starts_object
  is_json_object raw =
      let trimmed = r.trim_space raw in
      leb 2 (len trimmed) && (starts_object trimmed && r.valid_json trimmed)

  -- A call of an interface in the world of the turn.
  unfoldable pub in_world : {A : Type 0} → (W → A × W) → Run W A
  in_world f t = let (a, w) = f t.world in (done a, record t { world = w })

  -- A record of the trace; a failure to write it ends the turn.
  unfoldable pub trace : (W → Bool × W) → Run W Unit
  trace f = do written ← in_world f; raise_if (not written) trace_failed

  -- `turnContext.Err()`
  unfoldable pub check_turn : Run W Unit
  check_turn t =
      (elim (r.turn_error t.world) [ none ↦ done tt | some e ↦ raised (turn_context_error e) ], t)

  unfoldable pub model_facing_tool_error : String → String → ToolExecution
  model_facing_tool_error code message = record {
    content = r.error_content code message;
    is_error = true;
    status = failed;
    attempts = [];
    side_effect_committed = false;
  }

  -- An executor's answer: its error replaces the content.
  unfoldable pub executed : Executed → ToolExecution
  unfolding model_facing_tool_error
  executed x =
      if x.has_error
      then record x.execution {
        content = r.error_content "TOOL_EXECUTION_FAILED" "The tool could not be executed.";
        is_error = true;
        status = failed;
      }
      else x.execution

  -- An empty, oversized or invalid content is replaced; attempts and the side effect are kept.
  unfoldable pub checked : ToolExecution → ToolExecution
  unfolding model_facing_tool_error
  checked e =
      if len e.content == 0
        || (ltb max_tool_result_bytes (len e.content) || not (r.valid_json e.content))
      then record (model_facing_tool_error "INVALID_TOOL_RESULT"
          "The tool returned an invalid result.") {
            attempts = e.attempts;
            side_effect_committed = e.side_effect_committed;
          }
      else e

  -- Where the executor ran and reported no attempts, there was one.
  unfoldable pub with_attempt : ToolExecution → ToolExecution
  with_attempt e = elim e.attempts [
    | [] ↦ record e {
      attempts = record { status = error_status e.is_error; detail = e.content } ∷ [];
    }
    | _ ∷ _ ↦ e
  ]

  unfoldable pub normal_attempt : ToolExecution → ToolAttempt → ToolAttempt
  unfolding is_plain_status
  normal_attempt e a = record {
    status = if is_plain_status a.status then a.status else error_status e.is_error;
    detail =
        if len a.detail == 0
          || (ltb max_tool_result_bytes (len a.detail) || not (r.valid_json a.detail))
        then "null"
        else a.detail;
  }

  unfoldable pub record_attempts : ToolRequest → ToolExecution → ℕ → List ToolAttempt → Run W Unit
  unfolding trace normal_attempt tool_version shown_name
  record_attempts q e n [] = pure tt
  record_attempts q e n (a ∷ rest) =
      let shown = normal_attempt e a in
      trace (
        r.record_attempt (record {
          request = q;
          tool_name = shown_name q.call.name;
          contract_version = tool_version r.tools q.call.name;
          attempt_no = n;
          status = shown.status;
          detail = shown.detail;
        }))
      >> record_attempts q e (n + 1) rest

  unfoldable pub record_started : String → ToolRequest → Run W Unit
  unfolding trace tool_version shown_name shown_arguments
  record_started redacted q = trace (
      r.record_started (record {
        request = q;
        tool_name = shown_name q.call.name;
        contract_version = tool_version r.tools q.call.name;
        arguments = shown_arguments r.valid_json redacted q.call.arguments;
      }))

  unfoldable pub record_completed : ToolRequest → ToolStatus → String → ℕ → Run W Unit
  unfolding trace tool_version shown_name
  record_completed q status content attempts = trace (
      r.record_completed (record {
        request = q;
        tool_name = shown_name q.call.name;
        contract_version = tool_version r.tools q.call.name;
        status = status;
        result = content;
        attempt_count = attempts;
      }))

  unfoldable pub tool_message : ToolCall → String → Message
  tool_message c content = record {
    role = role_tool;
    content = content;
    name = c.name;
    tool_call_id = c.id;
    tool_calls = [];
  }

  -- A call that is not for the executor: its name is not registered, or its arguments are no object.
  unfoldable pub refusal : ToolCall → Option ToolExecution
  unfolding model_facing_tool_error is_json_object is_registered
  refusal c =
      if not (is_registered r.tools c.name)
      then some
          (model_facing_tool_error "TOOL_NOT_ALLOWED" "That tool is not available for this agent.")
      else if ltb max_tool_argument_bytes (len c.arguments) || not (is_json_object c.arguments)
      then some
          (model_facing_tool_error "INVALID_ARGUMENT" "Tool arguments must be a valid JSON object.")
      else none

  -- The call in the events, with the executor's own word on the side effect.
  unfoldable pub note_execution : ToolCall → Bool → ToolExecution → Turn W → Turn W
  unfolding final_status
  note_execution c committed e t = record t {
    events = executor_event c.name (final_status e) committed ∷ t.events;
  }

  -- The executor is called, and its answer checked.
  unfoldable pub call_executor :
      (ToolRequest → W → Executed × W) → ToolRequest → Run W ToolExecution
  unfolding in_world executed checked with_attempt note_execution
  call_executor run q = do
    x ← in_world (run q)
    modify (note_execution q.call x.execution.side_effect_committed (checked (executed x)))
    pure (with_attempt (checked (executed x)))

  unfoldable pub perform : ToolRequest → Run W ToolExecution
  unfolding refusal checked call_executor
  perform q = elim (refusal q.call) [
    | some e ↦ pure (checked e)
    | none ↦ elim r.executor [
      | none ↦ pure (
          checked
            (model_facing_tool_error "TOOL_UNAVAILABLE" "The tool is temporarily unavailable."))
      | some run ↦ call_executor run q
    ]
  ]

  -- `executeTool`: an error comes back beside what the tool did.
  unfoldable pub execute_tool : ToolRequest → Run W ToolReturn
  unfolding record_started perform record_attempts record_completed check_turn tool_message
      final_status
  execute_tool q = do
    problem ← tried (record_started redacted_tool_arguments q)
    elim problem [
      | some e ↦ pure (record {
        message = no_message;
        status = unset;
        side_effect_committed = false;
        problem = some e;
      })
      | none ↦ do
        e ← perform q
        problem ← tried (
            record_attempts q e 1 e.attempts
            >> record_completed q (final_status e) e.content (length e.attempts)
            >> check_turn)
        pure (record {
          message = tool_message q.call e.content;
          status = final_status e;
          side_effect_committed = e.side_effect_committed;
          problem = problem;
        })
    ]

  unfoldable pub skip_execution : SkipReason → ToolExecution
  unfolding model_facing_tool_error
  skip_execution after_handoff =
      model_facing_tool_error "SKIPPED_AFTER_HANDOFF"
        "The call was not executed because this response already triggered a human hand-off."
  skip_execution after_proposal =
      model_facing_tool_error "SKIPPED_AFTER_PROPOSAL"
        "The call was not executed because this response already proposed an action the customer must confirm. Answer the customer with respond_to_customer and wait for their reply."

  unfoldable pub record_skipped_tool : ToolRequest → SkipReason → Run W Message
  unfolding record_started skip_execution record_completed tool_message
  record_skipped_tool q reason = do
    record_started redacted_tool_arguments q
    record_completed q refused (skip_execution reason).content 0
    pure (tool_message q.call (skip_execution reason).content)

  unfoldable pub append_message : Message → Run W Unit
  append_message m = modify (λ t. record t { history = t.history ++ m ∷ [] })

  -- What the status of a call means for the rest of the turn.
  unfoldable pub note_status : ToolCall → ToolStatus → Turn W → Turn W
  note_status c refused t = record t {
    tool_refused = true;
    terminal_handoff = true;
    skip = some after_handoff;
  }
  note_status c succeeded t =
      if str_eq c.name "escalate_to_human"
      then record t { human_escalated = true; terminal_handoff = true; skip = some after_handoff }
      else t
  note_status c confirmation_required t = record t {
    proposal_pending = true;
    skip = some after_proposal;
  }
  note_status c _ t = t

  -- `BookingCommitted`, which `Run` sets before it looks at the error.
  unfoldable pub note_booking : ToolCall → Bool → Turn W → Turn W
  note_booking c committed t = record t {
    booking_committed = t.booking_committed || (committed && str_eq c.name "create_booking");
  }

  unfoldable pub run_call : ToolRequest → Run W Unit
  unfolding record_skipped_tool execute_tool append_message note_booking note_status check_turn
  run_call q = do
    check_turn
    skip ← gets (λ t. t.skip)
    elim skip [
      | some reason ↦ do m ← record_skipped_tool q reason; append_message m
      | none ↦ do
        x ← execute_tool q
        modify (note_booking q.call x.side_effect_committed)
        raise_some x.problem
        modify (note_status q.call x.status)
        append_message x.message
    ]

  unfoldable pub tool_request : TurnRequest → ℕ → ℕ → ℕ → ToolCall → ToolRequest
  tool_request turn iteration index count c = record {
    run_id = turn.run_id;
    conversation_id = turn.conversation_id;
    iteration = iteration;
    call_index = index;
    call_count = count;
    call = c;
  }

  -- The loop over the calls of a response, with the number of the next one.
  unfoldable pub run_calls : TurnRequest → ℕ → ℕ → ℕ → List ToolCall → Run W Unit
  unfolding run_call tool_request
  run_calls turn iteration index count [] = pure tt
  run_calls turn iteration index count (c ∷ cs) =
      run_call (tool_request turn iteration index count c)
      >> run_calls turn iteration (index + 1) count cs
