-- ===== src/Conversations/Tests.antt =====
-- Runs of the durable token budget (internal/agentbudget/postgres.go).
use kontor.Prelude.{
  ◌+◌, ◌≤◌, ◌≡◌, refl, false, none, some, List, [], ◌∷◌, String, arith, pos, negsuc, get_elem?,
  lookup_or, lookup,
}
use kontor.Agent.Budget.Ledger.{World}
use kontor.Conversations.{ConversationRow, find_row, spend, has_key}
use kontor.Conversations.Budget.{DurableReservation, Rows, reserve_durable, settle_durable}
use kontor.Conversations.Budget.Ledger.{
  DurableWorld, DurableOp, reserve_op, settle_op, DurableInv, run,
}
use kontor.Conversations.Budget.Ledger.Histories.{run-DurableInv, settle_durable-run}
use kontor.Conversations.Budget.Refines.{
  Call, reserve_call, settle_call, Refined, run_durable, run_memory,
}
use kontor.Conversations.Budget.Refines.Histories.{run-Refined}

abbrev row : ConversationRow
row = record {
  tenant_id = "t";
  id = "c";
  token_budget = 100;
  tokens_used = 10;
  tokens_reserved = 0;
}

abbrev other_row : ConversationRow
other_row = record {
  tenant_id = "t";
  id = "d";
  token_budget = 50;
  tokens_used = 0;
  tokens_reserved = 0;
}

abbrev table : Rows
table = row ∷ other_row ∷ []

abbrev start : DurableWorld
start = record { rows = table; reservations = [] }

-- The second request does not fit beside the first one.
abbrev some_ops : List DurableOp
some_ops =
    reserve_op "c" (pos 60)
    ∷ reserve_op "c" (pos 60)
    ∷ reserve_op "d" (pos 20)
    ∷ settle_op 1 (negsuc 0)
    ∷ []

abbrev after_ops : ConversationRow
after_ops = record row { tokens_reserved = 60 }

abbrev open_one : DurableReservation
open_one = record { conversation_id = "c"; reserved = 60; settled = false }

-- Both rows are within their budgets.
capped :
    (c : String) (r : ConversationRow)
    → find_row "t" c table ≡ some r
    → r.tokens_used + r.tokens_reserved ≤ r.token_budget
unfolding find_row has_key
capped c r found = ground (arith, found)

start-DurableInv : DurableInv "t" start
start-DurableInv = record { covered = λ c r found. (capped c r found, ground arith); positive = tt }

run-DurableInv_example : DurableInv "t" (run "t" some_ops start)
run-DurableInv_example = run-DurableInv "t" some_ops start start-DurableInv

reserved_one : get_elem? (run "t" some_ops start).reservations 0 ≡ some open_one
unfolding run reserve_durable
reserved_one = refl

row_after : find_row "t" "c" (run "t" some_ops start).rows ≡ some after_ops
unfolding run find_row reserve_durable settle_durable
row_after = refl

settle_durable-run_example :
    ((settle_durable "t" (pos 25) open_one (run "t" some_ops start).rows).0 ≡ none)
    × (find_row "t" "c" (settle_durable "t" (pos 25) open_one (run "t" some_ops start).rows).2
        ≡ some (spend 60 25 after_ops))
settle_durable-run_example =
    settle_durable-run "t" some_ops table 0 25 open_one after_ops capped reserved_one refl
      (ground arith) row_after

-- The account in memory starts at the tokens that are used.
abbrev memory_start : World
memory_start = record { budget = record { limit = 100; accounted = ("c", 10) ∷ [] }; entries = [] }

start-Refined : Refined "t" "c" start memory_start
unfolding lookup_or lookup find_row
start-Refined = record {
  row = row;
  found = refl;
  limit = refl;
  total = refl;
  same = refl;
  own = tt;
}

abbrev some_calls : List Call
some_calls =
    reserve_call (pos 60) ∷ reserve_call (pos 60) ∷ settle_call 0 20 ∷ reserve_call (pos 60) ∷ []

run-Refined_example :
    Refined "t" "c"
      (run_durable "t" "c" some_calls start)
      (run_memory "t" "c" some_calls memory_start)
run-Refined_example =
    run-Refined "t" "c" refl some_calls start memory_start start-DurableInv start-Refined
