-- ===== src/Executor/Tests.antt =====
-- Runs of the executor of tool calls (internal/agenttools/executor.go) against a scripted gateway.
use kontor.Prelude.{Bool, ◌||◌, ◌≡◌, refl, true, false, none, some, List, [], ◌∷◌, length}
use kontor.Tools.Types.{TrustedContext}
use kontor.Tools.Outcome.{Result, success, error, internal, retry}
use kontor.Tools.Gateway.Execute.{Call}
use kontor.Agent.Runner.{deadline_exceeded, ToolRequest}
use kontor.Executor.{Attempted, Executor, execute_request}
use kontor.Executor.Commits.{execute_request-Reports}
use kontor.Executor.Attempts.{IsBounded}
use kontor.Executor.Calls.{IsCalled, execute_request-IsCalled}

abbrev listing : Call
listing = record { id = "a"; name = "list_services"; raw_arguments = "{}" }

abbrev failing : Result
failing = record {
  tool = "list_services";
  call_id = "a";
  status = error;
  result_data = none;
  confirmation = none;
  failure = some (record { code = internal; retryable = true; resolution = retry });
  idempotency_replayed = false;
  side_effect_committed = false;
}

abbrev working : Attempted
working = record {
  result = record failing { status = success; failure = none };
  context_error = none;
}

abbrev unavailable : Attempted
unavailable = record { result = failing; context_error = none }

abbrev too_late : Attempted
too_late = record {
  result = record failing { status = success; failure = none };
  context_error = some deadline_exceeded;
}

abbrev customer : TrustedContext
customer = record {
  tenant_id = "t";
  customer_id = "k";
  customer_display_name = "";
  customer_email = "";
  customer_phone = "";
  conversation_id = "c";
  inbound_message_id = "m";
  agent_run_id = "run";
  capabilities = λ c. true;
}

-- The world is what the gateway still has to answer.
abbrev next : TrustedContext → Call → List Attempted → Attempted × List Attempted
next t c [] = (working, [])
next t c (a ∷ rest) = (a, rest)

abbrev three_attempts : Executor (List Attempted)
three_attempts = record {
  max_attempts = 3;
  resolve = λ q s. (some customer, s);
  gateway = next;
  encode = λ r. some "{}";
  wait = λ n s. (true, s);
}

abbrev request : ToolRequest
request = record {
  run_id = "run";
  conversation_id = "c";
  iteration = 1;
  call_index = 1;
  call_count = 1;
  call = record { id = "a"; name = "list_services"; arguments = "{}" };
}

abbrev answers : List Attempted
answers = unavailable ∷ too_late ∷ working ∷ working ∷ []

third_attempt : length (execute_request three_attempts request answers).0.execution.attempts ≡ 3
unfolding execute_request
third_attempt = refl

-- A world that also logs what the gateway answered.
abbrev Logged : Type 0
Logged = List Attempted × List Attempted

abbrev next_logged : TrustedContext → Call → Logged → Attempted × Logged
next_logged t c ([], log) = (working, ([], working ∷ log))
next_logged t c (a ∷ rest, log) = (a, (rest, a ∷ log))

abbrev logged : Executor Logged
logged = record {
  max_attempts = 3;
  resolve = λ q s. (some customer, s);
  gateway = next_logged;
  encode = λ r. some "{}";
  wait = λ n s. (true, s);
}

next_logged_logs :
    (t : TrustedContext) (c : Call) (s : Logged)
    → (next_logged t c s).1.1 ≡ (next_logged t c s).0 ∷ s.1
next_logged_logs t c ([], log) = refl
next_logged_logs t c (a ∷ rest, log) = refl

execute_request-IsCalled_example :
    IsCalled 3 (execute_request logged request (answers, [])).1.1
    × IsBounded 3 (execute_request logged request (answers, [])).0
execute_request-IsCalled_example =
    execute_request-IsCalled logged (λ s. s.1) next_logged_logs (λ n s. refl) (λ q s. refl) request
      (answers, []) refl

-- The second attempt commits its side effect, and only its answer comes too late.
abbrev committed_late : Attempted
committed_late = record {
  result = record failing { status = success; failure = none; side_effect_committed = true };
  context_error = some deadline_exceeded;
}

-- A world that also knows whether a side effect was committed.
abbrev Tracked : Type 0
Tracked = List Attempted × Bool

abbrev next_tracked : TrustedContext → Call → Tracked → Attempted × Tracked
next_tracked t c ([], b) = (working, ([], b || working.result.side_effect_committed))
next_tracked t c (a ∷ rest, b) = (a, (rest, b || a.result.side_effect_committed))

abbrev tracked : Executor Tracked
tracked = record {
  max_attempts = 3;
  resolve = λ q s. (some customer, s);
  gateway = next_tracked;
  encode = λ r. some "{}";
  wait = λ n s. (true, s);
}

abbrev late_answers : Tracked
late_answers = (unavailable ∷ committed_late ∷ unavailable ∷ [], false)

next_tracked_reports :
    (t : TrustedContext) (c : Call) (s : Tracked)
    → (next_tracked t c s).1.1 ≡ (s.1 || (next_tracked t c s).0.result.side_effect_committed)
next_tracked_reports t c ([], b) = refl
next_tracked_reports t c (a ∷ rest, b) = refl

execute_request-Reports_example :
    (execute_request tracked request late_answers).1.1
    ≡ (execute_request tracked request late_answers).0.execution.side_effect_committed
execute_request-Reports_example =
    execute_request-Reports tracked (λ s. s.1) next_tracked_reports (λ n s. refl) (λ q s. refl)
      request late_answers refl
