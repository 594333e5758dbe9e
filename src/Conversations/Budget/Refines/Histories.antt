-- ===== src/Conversations/Budget/Refines/Histories.antt =====
-- Histories of the durable budget of one conversation against the budget in memory
-- (internal/agentbudget/postgres.go).
use kontor.Prelude.{◌≡◌, false, List, [], ◌∷◌, String, str_eq}
use kontor.Agent.Budget.Ledger.{World, step as memory_step}
use kontor.Conversations.Budget.Ledger.{DurableWorld, step, DurableInv}
use kontor.Conversations.Budget.Ledger.Histories.{step-DurableInv}
use kontor.Conversations.Budget.Refines.{
  Call, reserve_call, settle_call, durable_op, memory_op, run_durable, run_memory, Refined,
}
use kontor.Conversations.Budget.Refines.Reserve.{reserve-Refined}
use kontor.Conversations.Budget.Refines.Settle.{settle-Refined}

module _ (tenant c : String) (named : str_eq c "" ≡ false) where
  step-Refined :
      (x : Call) (w : DurableWorld) (m : World)
      → DurableInv tenant w
      → Refined tenant c w m
      → Refined tenant c
          (step tenant (durable_op tenant c x) w)
          (memory_step (memory_op tenant c x) m)
  step-Refined (reserve_call tokens) w m inv v = reserve-Refined tenant c named tokens w m inv v
  step-Refined (settle_call i n) w m inv v = settle-Refined tenant c i n w m inv v

  -- The durable budget of a conversation refines the budget in memory as long as no settlement
  -- reports a negative number of tokens and no context ends: from states that agree and in which the
  -- durable one respects its cap, after the same reservations and settlements both have granted the
  -- same reservations, settled the same ones, and account for the same number of tokens, the used
  -- and the reserved ones of the row together.
  pub run-Refined :
      (xs : List Call) (w : DurableWorld) (m : World)
      → DurableInv tenant w
      → Refined tenant c w m
      → Refined tenant c (run_durable tenant c xs w) (run_memory tenant c xs m)
  unfolding run_durable run_memory
  run-Refined [] w m inv v = v
  run-Refined (x ∷ xs) w m inv v =
      run-Refined xs _ _ (step-DurableInv tenant (durable_op tenant c x) w inv)
        (step-Refined x w m inv v)
