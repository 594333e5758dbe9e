-- ===== src/Agent/Runner/Orderly/Results.antt =====
-- Facts about the result of one call of a tool (internal/agent/runner.go).
use kontor.Prelude.{◌≡◌, true, false, none, some, arith}
use kontor.Llm.{ToolCall}
use kontor.Agent.Runner.{failed, ToolExecution, Executed, Runner}
use kontor.Agent.Runner.Names.{is_registered}
use kontor.Agent.Runner.Tools.{
  final_status, refusal, model_facing_tool_error, checked, executed, with_attempt,
}

module _ {W : Type 0} (r : Runner W) where
  pub final_status-with_attempt :
      (e : ToolExecution) → final_status (with_attempt r e) ≡ final_status e
  unfolding final_status with_attempt
  final_status-with_attempt e = ground arith

  pub refusal-failed :
      (c : ToolCall) (e : ToolExecution)
      → refusal r c ≡ some e
      → final_status (checked r e) ≡ failed
  unfolding refusal checked final_status
  refusal-failed c e h = ground arith

  pub refusal-registered : (c : ToolCall) → refusal r c ≡ none → is_registered r.tools c.name ≡ true
  unfolding refusal
  refusal-registered c h = ground arith

  -- The executor's own word on the side effect is what the runner hands on.
  pub committed-checked :
      (x : Executed)
      → (checked r (executed r x)).side_effect_committed ≡ x.execution.side_effect_committed
  unfolding checked executed model_facing_tool_error
  committed-checked x = ground arith

  pub committed-with_attempt :
      (e : ToolExecution) → (with_attempt r e).side_effect_committed ≡ e.side_effect_committed
  unfolding with_attempt
  committed-with_attempt e = ground arith

  pub refusal-committed :
      (c : ToolCall) (e : ToolExecution)
      → refusal r c ≡ some e
      → (checked r e).side_effect_committed ≡ false
  unfolding refusal checked model_facing_tool_error
  refusal-committed c e h = ground arith

  pub unavailable-failed :
      final_status (
        checked r
          (model_facing_tool_error r "TOOL_UNAVAILABLE" "The tool is temporarily unavailable."))
      ≡ failed
  unfolding final_status checked model_facing_tool_error
  unavailable-failed = ground arith

  pub unavailable-committed :
      (checked r (
        model_facing_tool_error r "TOOL_UNAVAILABLE"
          "The tool is temporarily unavailable.")).side_effect_committed
      ≡ false
  unfolding checked model_facing_tool_error
  unavailable-committed = ground arith
