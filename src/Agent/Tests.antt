-- ===== src/Agent/Tests.antt =====
-- Runs of the token budget, the estimate and the charge (internal/agent/budget.go and runner.go).
use kontor.Prelude.{◌≡◌, ◌↔◌, refl, true, false, List, [], ◌∷◌, pos, leb_ℤ, ltb_ℤ, ℤ, arith}
use kontor.Llm.{Request, Response, Message, Usage, total, role_user, role_assistant}
use kontor.Agent.Budget.{MemoryTokenBudget, new_memory_token_budget}
use kontor.Agent.Budget.Ledger.{Op, reserve_op, settle_op, run, Inv, run-new-Inv}
use kontor.Agent.Budget.Estimate.{
  ConservativeTokenEstimator, or_default, attempt_tokens, estimate, tokens, estimate_lem,
}
use kontor.Agent.Charge.{charge_for_model_call, charge_covers, charge_exceeds_iff}

abbrev small_budget : MemoryTokenBudget
small_budget = record { limit = 100; accounted = [] }

-- The second request does not fit until the first is settled for less.
abbrev some_calls : List Op
some_calls =
    reserve_op false "c1" (pos 60)
    ∷ reserve_op false "c1" (pos 60)
    ∷ settle_op false 0 (pos 20)
    ∷ reserve_op false "c1" (pos 60)
    ∷ reserve_op false "c2" (pos 100)
    ∷ settle_op false 1 (pos 90)
    ∷ []

run-new-Inv_example : Inv (run some_calls (record { budget = small_budget; entries = [] }))
unfolding new_memory_token_budget
run-new-Inv_example = run-new-Inv (pos 100) small_budget some_calls refl

abbrev estimator : ConservativeTokenEstimator
estimator = record {
  base_overhead = pos 0;
  per_message_overhead = pos 0;
  per_tool_overhead = pos 0;
  bytes_per_token = pos 0;
  provider_attempts = pos 3;
}

abbrev hello : Message
hello = record {
  role = role_user;
  content = "hello";
  name = "";
  tool_call_id = "";
  tool_calls = [];
}

abbrev small_request : Request
small_request = record { messages = hello ∷ []; tools = []; max_output_tokens = pos 512 }

estimate_lem_example : estimate estimator small_request ≡ tokens (pos 2505)
unfolding attempt_tokens or_default
estimate_lem_example =
    estimate_lem estimator small_request refl (omega arith) (omega arith) (omega arith)

abbrev usage : ℤ → Usage
usage n = record { input_tokens = n; output_tokens = pos 0; total_tokens = n }

abbrev reply : ℤ → Response
reply n = record {
  model = "m";
  message = record hello { role = role_assistant };
  finish_reason = "stop";
  usage = usage n;
  usage_incomplete = true;
  unknown_usage_attempts = pos 1;
}

charge_covers_example :
    (leb_ℤ (total (usage (pos 40))) (charge_for_model_call (reply (pos 40)) false (pos 100)) ≡ true)
    × (leb_ℤ (charge_for_model_call (reply (pos 40)) false (pos 100)) (pos 100) ≡ true)
unfolding total
charge_covers_example = charge_covers (reply (pos 40)) false (pos 100) refl

abbrev complete_reply : Response
complete_reply = record (reply (pos 140)) { usage_incomplete = false }

charge_exceeds_iff_example :
    (ltb_ℤ (pos 100) (charge_for_model_call complete_reply false (pos 100)) ≡ true) ↔ (
      (false ≡ false)
      × (leb_ℤ (total (usage (pos 140))) (pos 0) ≡ false)
      × (false ≡ false)
      × (ltb_ℤ (pos 100) (total (usage (pos 140))) ≡ true))
charge_exceeds_iff_example = charge_exceeds_iff complete_reply false (pos 100)
