-- ===== src/Executor.antt =====
-- internal/agenttools/executor.go: the executor of tool calls, which retries the gateway. The
-- gateway, the query for the trusted context, encoding/json and the wait between two attempts are
-- interfaces, functions on a world `W`.
pub mod Attempts
pub mod Calls
pub mod Commits
mod Tests
use kontor.Prelude.{
  ℕ, zero, suc, ◌+◌, ◌-◌, Bool, true, false, not, ◌&&◌, ◌||◌, Option, none, some, List, [], ◌∷◌,
  ◌++◌, String, ◌==◌, if◌then◌else◌, is_some, ℤ, pos_part, ltb_ℤ, pos,
}
use kontor.Tools.Types.{TrustedContext}
use kontor.Tools.Outcome.{
  Result, ResultStatus, success, confirmation_required as result_confirmation_required, error,
  ErrorCode, policy_denied, not_found_or_not_owned, tool_not_allowed, ToolError,
}
use kontor.Tools.Gateway.Execute.{Call}
use kontor.Agent.Runner.{
  ContextError, deadline_exceeded, canceled, ToolStatus, succeeded, failed, refused,
  confirmation_required, unset, ToolAttempt, ToolExecution, ToolRequest, Executed,
}

-- What the gateway answers, and `attemptCtx.Err()`.
pub record Attempted : Type 0 where
  pub result : Result
  pub context_error : Option ContextError

pub record Executor (W : Type 0) : Type 0 where
  pub max_attempts : ℕ
  pub resolve : ToolRequest → W → Option TrustedContext × W
  pub gateway : TrustedContext → Call → W → Attempted × W
  pub encode : Result → Option String
  pub wait : ℕ → W → Bool × W

-- `NewExecutor`: at least one attempt.
unfoldable pub attempt_limit : ℤ → ℕ
attempt_limit n = if ltb_ℤ n (pos 1) then 1 else pos_part n

abbrev pub empty_execution : ToolExecution
empty_execution = record {
  content = "";
  is_error = false;
  status = unset;
  attempts = [];
  side_effect_committed = false;
}

unfoldable pub is_refusal_code : ErrorCode → Bool
is_refusal_code policy_denied = true
is_refusal_code not_found_or_not_owned = true
is_refusal_code tool_not_allowed = true
is_refusal_code _ = false

-- A failure that is a refusal.
unfoldable pub failure_status : Option ToolError → ToolStatus
unfolding is_refusal_code
failure_status none = failed
failure_status (some e) = if is_refusal_code e.code then refused else failed

unfoldable pub execution_status : Result → ToolStatus
unfolding failure_status
execution_status r = elim r.status [
  | success ↦ succeeded
  | result_confirmation_required ↦ confirmation_required
  | error ↦ failure_status r.failure
]

unfoldable pub is_error_status : ResultStatus → Bool
is_error_status error = true
is_error_status _ = false

-- `result.Status == tools.StatusError || attemptErr != nil`
unfoldable pub is_failed_attempt : Attempted → Bool
unfolding is_error_status
is_failed_attempt a = is_error_status a.result.status || is_some a.context_error

unfoldable pub add_commit : Attempted → ToolExecution → ToolExecution
add_commit a e = record e {
  side_effect_committed = e.side_effect_committed || a.result.side_effect_committed;
}

unfoldable pub add_attempt : Attempted → String → ToolExecution → ToolExecution
unfolding is_failed_attempt execution_status
add_attempt a payload e = record e {
  content = payload;
  is_error = is_failed_attempt a;
  status = execution_status a.result;
  attempts =
      e.attempts
      ++ record { status = if is_failed_attempt a then failed else succeeded; detail = payload }
        ∷ [];
}

unfoldable pub is_retryable : Option ToolError → Bool
is_retryable none = false
is_retryable (some e) = e.retryable

-- What follows an attempt.
pub data Next : Type 0 where
  return_error return_execution retry_attempt : Next

unfoldable pub after_context_error : Bool → ContextError → Next
after_context_error last deadline_exceeded = if last then return_error else retry_attempt
after_context_error last canceled = return_error

unfoldable pub next_step : Bool → Attempted → Next
unfolding after_context_error is_error_status is_retryable
next_step last a = elim a.context_error [
  | some e ↦ after_context_error last e
  | none ↦
      if not (is_error_status a.result.status) || not (is_retryable a.result.failure)
      then return_execution
      else if last
      then return_execution
      else retry_attempt
]

abbrev pub returned : Bool → ToolExecution → Executed
returned has_error e = record { execution = e; has_error = has_error }

module _ {W : Type 0} (x : Executor W) (trusted : TrustedContext) (c : Call) where
  -- The loop, with the attempts left and the number of the next one.
  unfoldable pub run_attempts : ℕ → ℕ → ToolExecution → W → Executed × W
  unfolding add_commit add_attempt next_step
  run_attempts zero n e w = (returned false e, w)
  run_attempts (suc rounds) n e w =
      let (a, w1) = x.gateway trusted c w in
      let committed = add_commit a e in
      elim (x.encode a.result) [
        | none ↦ (returned true committed, w1)
        | some payload ↦
            let noted = add_attempt a payload committed in
            elim (next_step (n == x.max_attempts) a) [
              | return_error ↦ (returned true noted, w1)
              | return_execution ↦ (returned false noted, w1)
              | retry_attempt ↦
                  let (waited, w2) = x.wait n w1 in
                  let rest = run_attempts rounds (n + 1) noted w2 in
                  if waited then rest else (returned true noted, w2)
            ]
      ]

unfoldable pub call_of : ToolRequest → Call
call_of q = record { id = q.call.id; name = q.call.name; raw_arguments = q.call.arguments }

-- `Execute`
unfoldable pub execute_request : {W : Type 0} → Executor W → ToolRequest → W → Executed × W
unfolding run_attempts call_of
execute_request x q w =
    let (trusted, w1) = x.resolve q w in
    elim trusted [
      | none ↦ (returned true empty_execution, w1)
      | some t ↦ run_attempts x t (call_of q) x.max_attempts 1 empty_execution w1
    ]
